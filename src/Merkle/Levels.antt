-- ===== src/Merkle/Levels.antt =====
-- The levels of the Merkle tree of src/blockchain.rs as lists: the hash of a pair never fails, and
-- the first level is that of the hashed leaves.
use Prim.Native.String.{◌++◌}
use p2p_auction.Prelude.{◌+◌, ◌≤◌, ◌<◌, String, ◌≡◌, refl, List, [], ◌∷◌, arith, length}
use p2p_auction.Prelude.Result.{Result, ok, err, panic, ◌>>=◌, map_result}
use p2p_auction.Env.{Env}
use p2p_auction.Hash
use p2p_auction.Merkle.{hash, next_level, leaf_level}

module _ ⦃env : Env⦄ where
  -- What `hash` returns.
  unfoldable pub node : String → String → String
  node l r = Hash.encode_hash (Hash.hash (l ++ (":" ++ r)))

  pub hash-node : (l r : String) → hash l r ≡ ok (node l r)
  unfolding hash node
  hash-node l r = refl

  -- What `next_level` returns.
  unfoldable pub up : List String → List String
  up [] = []
  up (l ∷ []) = node l l ∷ []
  up (l ∷ r ∷ rest) = node l r ∷ up rest

  pub next_level-up : (level : List String) → next_level level ≡ ok (up level)
  unfolding next_level up
  next_level-up [] = refl
  next_level-up (l ∷ []) = rw hash-node
  next_level-up (l ∷ r ∷ rest) = rw (hash-node, next_level-up rest)

  -- A level is at most half as long as the one below it, rounded up.
  pub length-up : (level : List String) → length (up level) + length (up level) ≤ length level + 1
  unfolding up
  length-up [] = omega arith
  length-up (l ∷ []) = omega arith
  length-up (l ∷ r ∷ rest) = omega (arith, length-up rest)

  pub up-pos : (h : String) (level : List String) → 0 < length (up (h ∷ level))
  unfolding up
  up-pos h [] = omega arith
  up-pos h (r ∷ rest) = omega arith

  pub length-up_congr :
      (xs ys : List String) → length xs ≡ length ys → length (up xs) ≡ length (up ys)
  unfolding up
  length-up_congr [] [] e = refl
  length-up_congr [] (y ∷ ys) e = absurd (omega arith)
  length-up_congr (x ∷ xs) [] e = absurd (omega arith)
  length-up_congr (x ∷ []) (y ∷ []) e = refl
  length-up_congr (x ∷ []) (y ∷ z ∷ ys) e = absurd (omega arith)
  length-up_congr (x ∷ w ∷ xs) (y ∷ []) e = absurd (omega arith)
  length-up_congr (x ∷ w ∷ xs) (y ∷ z ∷ ys) e = omega (arith, length-up_congr xs ys (omega arith))

  -- The loop over pairs of leaves is one level up from the hashes of the leaves.
  pub leaf_level-map {ℓ} :
      {T : Type ℓ} (hash_of : T → Result String) (ts : List T)
      → leaf_level hash_of ts ≡ (map_result hash_of ts >>= next_level)
  unfolding leaf_level next_level
  leaf_level-map hash_of [] = refl
  leaf_level-map hash_of (s ∷ []) = simp hash-node (split (hash_of s))
    where
      split :
          (r : Result String)
          → (r >>= λ sh. ok (node sh sh ∷ [])) ≡ ((r >>= λ y. ok (y ∷ [])) >>= next_level)
      split (ok sh) = rw hash-node
      split (err e) = refl
      split (panic p) = refl
  leaf_level-map hash_of (l ∷ r ∷ rest) =
      rw (leaf_level-map hash_of rest) (split (hash_of l) (hash_of r) (map_result hash_of rest))
    where
      split :
          (a b : Result String) (c : Result (List String))
          → (a >>= λ lh.
              b >>= λ rh. hash lh rh >>= λ h. (c >>= next_level) >>= λ level. ok (h ∷ level))
            ≡ ((a >>= λ y. (b >>= λ z. c >>= λ zs. ok (z ∷ zs)) >>= λ ys. ok (y ∷ ys))
                >>= next_level)
      split (ok x) (ok y) (ok zs) = refl
      split (ok x) (ok y) (err e) = rw hash-node
      split (ok x) (ok y) (panic p) = rw hash-node
      split (ok x) (err e) c = refl
      split (ok x) (panic e) c = refl
      split (err e) b c = refl
      split (panic e) b c = refl
