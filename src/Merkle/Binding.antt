-- ===== src/Merkle/Binding.antt =====
-- What the Merkle root of src/blockchain.rs commits to.
use p2p_auction.Prelude.{◌%◌, String, ◌≡◌, ◌≢◌, refl, ◌⊎◌, List, [], ◌∷◌, ◌++◌, arith, length}
use p2p_auction.Prelude.Result.{Result, ok, err, panic, ◌>>=◌}
use p2p_auction.Env.{Env}
use p2p_auction.Merkle.{hash, leaf_level, root}

module _ ⦃env : Env⦄ where
  -- Two different pairs of nodes with one hash.
  pub record Collision : Type 0 where
    pub l : String
    pub r : String
    pub l' : String
    pub r' : String
    pub same : hash l r ≡ hash l' r'
    pub different : (l ≢ l') ⊎ (r ≢ r')

  module _ {ℓ} {T : Type ℓ} (hash_of : T → Result String) where
    leaf_level-duplicate :
        (ts : List T) (t : T)
        → length ts % 2 ≡ 0
        → leaf_level hash_of (ts ++ t ∷ []) ≡ leaf_level hash_of (ts ++ t ∷ t ∷ [])
    unfolding leaf_level
    leaf_level-duplicate [] t h = split (hash_of t)
      where
        split :
            (a : Result String)
            → (a >>= λ sh. hash sh sh >>= λ n. ok (n ∷ []))
              ≡ (a >>= λ lh. a >>= λ rh. hash lh rh >>= λ n. ok (n ∷ []))
        split (ok x) = refl
        split (err e) = refl
        split (panic e) = refl
    leaf_level-duplicate (s ∷ []) t h = absurd (omega arith)
    leaf_level-duplicate (l ∷ r ∷ rest) t h = rw (leaf_level-duplicate rest t (omega arith)) refl

    -- A list of odd length has the root of the same list with its last element twice: the root does
    -- not fix how many transactions a block has.
    pub root-duplicate :
        (ts : List T) (t : T)
        → length ts % 2 ≡ 0
        → root hash_of (ts ++ t ∷ []) ≡ root hash_of (ts ++ t ∷ t ∷ [])
    unfolding root
    root-duplicate [] t h = rw (leaf_level-duplicate [] t h) refl
    root-duplicate (s ∷ ts) t h = rw (leaf_level-duplicate (s ∷ ts) t h) refl
