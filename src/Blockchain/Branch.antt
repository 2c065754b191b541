-- ===== src/Blockchain/Branch.antt =====
-- src/blockchain.rs, `find_longest_branch`, and the branch map that `fix` builds for it.
pub mod Map
pub mod Compare
pub mod Best
pub mod Depth
pub mod Paths
pub mod Hex
pub mod Total
use Prim.Native.Nat.{compare, Ordering}
use p2p_auction.Prelude.{
  ℕ, zero, suc, String, Option, none, some, List, [], ◌∷◌, ◌++◌, length, get_last?,
}
use p2p_auction.Prelude.Result.{
  Result, ok, panic, not_hex, unwrap_none, diverges, ◌>>=◌, map_result,
}
use p2p_auction.Env.{Env}
use p2p_auction.HashMap
use p2p_auction.HashMap.{HashMap}
use p2p_auction.Transaction.{Block}

-- The hashes of the blocks that name a hash as their parent.
abbrev pub BranchMap : Type 0
BranchMap = HashMap (List String)

abbrev pub children_of : Option (List String) → List String
children_of none = []
children_of (some cs) = cs

-- `branch_map.get(h)`, read as no children where there is no entry.
unfoldable pub children : BranchMap → String → List String
children m h = children_of (HashMap.get m h)

-- One round of the loop over the blocks in `fix`.
unfoldable pub add_branch : BranchMap → String → Block → BranchMap
add_branch m h b = elim (HashMap.get m b.previous_hash) [
  | some v ↦ HashMap.insert m b.previous_hash (v ++ h ∷ [])
  | none ↦ HashMap.insert m b.previous_hash (h ∷ [])
]

unfoldable pub add_branches : BranchMap → HashMap Block → BranchMap
unfolding add_branch
add_branches m [] = m
add_branches m ((h, b) ∷ blocks) = add_branches (add_branch m h b) blocks

unfoldable pub branch_map : HashMap Block → BranchMap
unfolding add_branches
branch_map blocks = add_branches [] blocks

-- `max_by`: of two that compare equal, the later one stays.
unfoldable pub keep : Ordering → List String → List String → List String
keep Ordering.gt a b = a
keep _ a b = b

module _ ⦃env : Env⦄ where
  -- `BigUint::from_bytes_le(&hex::decode(h).expect(…))`.
  unfoldable pub hash_number : String → Result ℕ
  hash_number h = elim (env.hex_decode h) [
    | none ↦ panic not_hex
    | some bytes ↦ ok (env.biguint_from_bytes_le bytes)
  ]

  unfoldable pub min_hash : String → String → Result Ordering
  unfolding hash_number
  min_hash a b = do x ← hash_number a; y ← hash_number b; ok (compare x y)

  unfoldable pub unwrap_last : List String → Result String
  unwrap_last branch = elim (get_last? branch) [ none ↦ panic unwrap_none | some h ↦ ok h ]

  -- The closure of `max_by`: by length, then the lower hash of the last block.
  unfoldable pub branch_cmp : List String → List String → Result Ordering
  unfolding min_hash unwrap_last
  branch_cmp a b = elim (compare (length a) (length b)) [
    | Ordering.eq ↦ do x ← unwrap_last b; y ← unwrap_last a; min_hash x y
    | Ordering.lt ↦ ok Ordering.lt
    | Ordering.gt ↦ ok Ordering.gt
  ]

  unfoldable pub max_branch : List String → List (List String) → Result (List String)
  unfolding branch_cmp keep
  max_branch best [] = ok best
  max_branch best (b ∷ bs) = do o ← branch_cmp best b; max_branch (keep o best b) bs

  -- With `unwrap_or_default`.
  unfoldable pub winner : List (List String) → Result (List String)
  unfolding max_branch
  winner [] = ok []
  winner (b ∷ bs) = max_branch b bs

  unfoldable pub extend : String → Result (List String) → Result (List String)
  extend prev_h r = do w ← r; ok (prev_h ∷ w)

  -- The recursion is on fuel; where it has none left, the stack of the program overflows.
  unfoldable pub find_longest_branch : ℕ → BranchMap → String → Result (List String)
  unfolding winner extend
  find_longest_branch zero m prev_h = panic diverges
  find_longest_branch (suc fuel) m prev_h = elim (HashMap.get m prev_h) [
    | none ↦ ok (prev_h ∷ [])
    | some leaves ↦
        extend prev_h (map_result (λ leaf. find_longest_branch fuel m leaf) leaves >>= winner)
  ]
