-- ===== src/Blockchain/Branch/Total.antt =====
-- `find_longest_branch` of src/blockchain.rs returns: the recursion ends within the number of known
-- blocks.
use Prim.Native.Nat.{Ordering}
use p2p_auction.Prelude.{
  ℕ, zero, suc, String, eq_iff, ◌≡◌, ◌≢◌, refl, ap, ◌∙◌, inl, inr, true, false, Option, none, some,
  List, [], ◌∷◌, arith, length, contains,
}
use p2p_auction.Prelude.Result.{Result, ok, err, panic, diverges, ◌>>=◌, map_result}
use p2p_auction.Env.{Env}
use p2p_auction.HashMap
use p2p_auction.HashMap.{HashMap}
use p2p_auction.HashMap.Laws.{contains_key-get}
use p2p_auction.Transaction.{Block}
use p2p_auction.Blockchain.Branch.{
  BranchMap, children, branch_map, hash_number, min_hash, unwrap_last, branch_cmp, keep, max_branch,
  winner, extend, find_longest_branch,
}
use p2p_auction.Blockchain.Branch.Map.{IsMap, children-get}
use p2p_auction.Blockchain.Branch.Best.{Linked}
use p2p_auction.Blockchain.Branch.Depth.{length-path}
use p2p_auction.Blockchain.Branch.Hex.{IsHex, find_out}

module _ ⦃env : Env⦄ where
  branch_cmp-ne-diverges : (a b : List String) → branch_cmp a b ≢ panic diverges
  unfolding branch_cmp min_hash hash_number unwrap_last
  branch_cmp-ne-diverges a b e = ground arith

  max_branch-ne-diverges :
      (best : List String) (bs : List (List String)) → max_branch best bs ≢ panic diverges
  unfolding max_branch
  max_branch-ne-diverges best [] e = cc
  max_branch-ne-diverges best (b ∷ bs) e =
      split (branch_cmp best b) refl e (λ o. max_branch-ne-diverges (keep o best b) bs)
    where
      split :
          (r : Result Ordering)
          → branch_cmp best b ≡ r
          → (r >>= λ o. max_branch (keep o best b) bs) ≡ panic diverges
          → ((o : Ordering) → max_branch (keep o best b) bs ≢ panic diverges)
          → ⊥
      split (ok o) f g later = later o g
      split (err x) f g later = cc
      split (panic x) f g later = branch_cmp-ne-diverges best b (f ∙ cc g)

  winner-diverges :
      (r : Result (List (List String))) → (r >>= winner) ≡ panic diverges → r ≡ panic diverges
  unfolding winner
  winner-diverges (ok []) e = cc
  winner-diverges (ok (b ∷ bs)) e = absurd (max_branch-ne-diverges b bs e)
  winner-diverges (err x) e = cc
  winner-diverges (panic x) e = cc

  extend-diverges :
      (h : String) (r : Result (List String)) → extend h r ≡ panic diverges → r ≡ panic diverges
  unfolding extend
  extend-diverges h (ok w) e = cc
  extend-diverges h (err x) e = cc
  extend-diverges h (panic x) e = cc

  map_result-diverges :
      (f : String → Result (List String)) (leaves : List String)
      → map_result f leaves ≡ panic diverges
      → (c : String) × (contains leaves c ≡ true) × (f c ≡ panic diverges)
  map_result-diverges f [] e = cc
  map_result-diverges f (c ∷ cs) e = split (f c) refl e (map_result-diverges f cs)
    where
      rest :
          (r : Result (List (List String))) (y : List String)
          → (r >>= λ ys. ok (y ∷ ys)) ≡ panic diverges
          → r ≡ panic diverges
      rest (ok ys) y g = cc
      rest (err x) y g = cc
      rest (panic x) y g = cc

      split :
          (r : Result (List String))
          → f c ≡ r
          → (r >>= λ y. map_result f cs >>= λ ys. ok (y ∷ ys)) ≡ panic diverges
          → (map_result f cs ≡ panic diverges
              → (d : String) × (contains cs d ≡ true) × (f d ≡ panic diverges))
          → (d : String) × (contains (c ∷ cs) d ≡ true) × (f d ≡ panic diverges)
      split (ok y) p g later =
          let (d, i, q) = later (rest (map_result f cs) y g) in (d, ground arith, q)
      split (err x) p g later = cc
      split (panic x) p g later = (c, ground (arith, eq_iff c c), p ∙ cc g)

  -- A call that runs out of fuel has gone down a path as long as its fuel.
  out_path :
      (m : BranchMap) (fuel : ℕ) (h : String)
      → find_longest_branch fuel m h ≡ panic diverges
      → (path : List String) × Linked m h path × (length path ≡ fuel)
  unfolding find_longest_branch
  out_path m zero h e = ([], tt, refl)
  out_path m (suc fuel) h e = from (HashMap.get m h) refl e (out_path m fuel)
    where
      from :
          (o : Option (List String))
          → HashMap.get m h ≡ o
          → (elim o [
            | none ↦ ok (h ∷ [])
            | some leaves ↦
                extend h (map_result (λ leaf. find_longest_branch fuel m leaf) leaves >>= winner)
          ])
            ≡ panic diverges
          → ((c : String)
              → find_longest_branch fuel m c ≡ panic diverges
              → (path : List String) × Linked m c path × (length path ≡ fuel))
          → (path : List String) × Linked m h path × (length path ≡ suc fuel)
      from none g e later = cc
      from (some leaves) g e later =
          let (c, i, q) =
            map_result-diverges (λ leaf. find_longest_branch fuel m leaf) leaves
              (winner-diverges _ (extend-diverges h _ e)) in
          let (path, l, n) = later c q in
          let same : children m h ≡ leaves = unfold children in rw g in
          (c ∷ path, (ap (λ x. contains x c) same ∙ i, l), omega arith)

  -- On known blocks of which no hash stands twice, all are hex and none is "0", the call of
  -- `find_longest_branch` by `fix` returns: its fuel, one more than the number of the blocks, is
  -- enough.
  pub find_longest_branch_total :
      (blocks : HashMap Block)
      → IsMap blocks
      → HashMap.contains_key blocks "0" ≡ false
      → ((h : String) → HashMap.contains_key blocks h ≡ true → IsHex h)
      → (r : List String) × (find_longest_branch (suc (length blocks)) (branch_map blocks) "0"
          ≡ ok r)
  find_longest_branch_total blocks map no_genesis hex =
      elim (find_out (branch_map blocks) known (suc (length blocks)) "0") [
        | inr (r, e, h) ↦ (r, e)
        | inl e ↦
            let (path, l, n) = out_path (branch_map blocks) (suc (length blocks)) "0" e in
            absurd (omega (arith, length-path blocks map no_genesis path l))
      ]
    where
      known : (h c : String) → contains (children (branch_map blocks) h) c ≡ true → IsHex c
      known h c i =
          let (b, f, g) = (children-get blocks h c map).0 i in
          hex c (ground (arith, contains_key-get blocks c))
