-- ===== src/Merkle.antt =====
-- src/blockchain.rs, `mod merkle`.
pub mod Levels
pub mod Total
pub mod Binding
use p2p_auction.Prelude.{ℕ, zero, suc, String, List, [], ◌∷◌, length}
use Prim.Native.String.{◌++◌}
use p2p_auction.Prelude.Result.{Result, ok, err, panic, message, diverges, ◌>>=◌}
use p2p_auction.Env.{Env}
use p2p_auction.Hash

module _ ⦃env : Env⦄ where
  unfoldable pub hash : String → String → Result String
  unfolding Hash.hash Hash.encode_hash
  hash left right = ok (Hash.encode_hash (Hash.hash (left ++ (":" ++ right))))

  -- The inner loop of `root`: one level up, a last node without a sibling paired with itself.
  unfoldable pub next_level : List String → Result (List String)
  next_level [] = ok []
  next_level (l ∷ []) = do h ← hash l l; ok (h ∷ [])
  next_level (l ∷ r ∷ rest) = do h ← hash l r; level ← next_level rest; ok (h ∷ level)

  -- `while tmp.len() > 1`, and the match on what is left.
  unfoldable pub climb : ℕ → List String → Result String
  climb fuel [] = err (message "Merkle root calculation failed.")
  climb fuel (root ∷ []) = ok root
  climb zero (l ∷ r ∷ rest) = panic diverges
  climb (suc fuel) (l ∷ r ∷ rest) = do tmp ← next_level (l ∷ r ∷ rest); climb fuel tmp

  module _ {ℓ} {T : Type ℓ} (hash_of : T → Result String) where
    -- The loop over `t.chunks(2)`.
    unfoldable pub leaf_level : List T → Result (List String)
    leaf_level [] = ok []
    leaf_level (s ∷ []) = do sh ← hash_of s; h ← hash sh sh; ok (h ∷ [])
    leaf_level (l ∷ r ∷ rest) = do
      lh ← hash_of l
      rh ← hash_of r
      h ← hash lh rh
      level ← leaf_level rest
      ok (h ∷ level)

    -- Each round halves the level, so its length is fuel enough.
    unfoldable pub root : List T → Result String
    root [] = err (message "Cannot build Merkle root from empty transaction list.")
    root (t ∷ ts) = do tmp ← leaf_level (t ∷ ts); climb (length tmp) tmp
