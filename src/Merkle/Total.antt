-- ===== src/Merkle/Total.antt =====
-- `root` of src/blockchain.rs returns: the loop over the levels ends, and fails on no leaves only.
use p2p_auction.Prelude.{
  ℕ, zero, suc, ◌+◌, ◌≤◌, ◌<◌, String, ◌≡◌, refl, List, [], ◌∷◌, arith, length,
}
use p2p_auction.Prelude.Result.{Result, ok, ◌>>=◌, map_result}
use p2p_auction.Env.{Env}
use p2p_auction.Merkle.{climb, leaf_level, root}
use p2p_auction.Merkle.Levels.{up, next_level-up, length-up, up-pos, leaf_level-map}

module _ ⦃env : Env⦄ where
  pub climb_total :
      (fuel : ℕ) (level : List String)
      → 0 < length level
      → length level ≤ fuel + 1
      → (r : String) × (climb fuel level ≡ ok r)
  unfolding climb
  climb_total fuel [] h b = absurd (omega arith)
  climb_total fuel (x ∷ []) h b = (x, refl)
  climb_total zero (x ∷ y ∷ rest) h b = absurd (omega arith)
  climb_total (suc fuel) (x ∷ y ∷ rest) h b = rw next_level-up (
      climb_total fuel (up (x ∷ y ∷ rest)) (up-pos x (y ∷ rest))
        (omega (arith, length-up (x ∷ y ∷ rest))))

  map_result_total {ℓ} :
      {T : Type ℓ} (hash_of : T → Result String)
      → ((t : T) → (h : String) × (hash_of t ≡ ok h))
      → (ts : List T)
      → (hs : List String) × (map_result hash_of ts ≡ ok hs) × (length hs ≡ length ts)
  map_result_total hash_of total [] = ([], refl, refl)
  map_result_total hash_of total (t ∷ ts) =
      let (h, e) = total t in
      let (hs, es, len) = map_result_total hash_of total ts in
      (h ∷ hs, rw (e, es), omega (arith, len))

  -- Where every leaf has a hash, a list with at least one leaf has a root: the rounds of the loop
  -- over the levels come to an end, at one node.
  pub root_total {ℓ} :
      {T : Type ℓ} (hash_of : T → Result String)
      → ((t : T) → (h : String) × (hash_of t ≡ ok h))
      → (t : T) (ts : List T) → (r : String) × (root hash_of (t ∷ ts) ≡ ok r)
  unfolding root
  root_total hash_of total t ts =
      let (hs, es, len) = map_result_total hash_of total (t ∷ ts) in from hs es len
    where
      from :
          (hs : List String)
          → map_result hash_of (t ∷ ts) ≡ ok hs
          → length hs ≡ length (t ∷ ts)
          → (r : String) × ((leaf_level hash_of (t ∷ ts) >>= λ tmp. climb (length tmp) tmp) ≡ ok r)
      from [] es len = absurd (omega arith)
      from (h ∷ hs) es len =
          rw (leaf_level-map, es, next_level-up)
            (climb_total (length (up (h ∷ hs))) (up (h ∷ hs)) (up-pos h hs) (omega arith))
