-- ===== src/Blockchain/Prune/Walk.antt =====
-- The walk of `prune` over the descendants of the losers: it ends within the number of blocks.
use p2p_auction.Prelude.{
  ℕ, zero, suc, ◌+◌, ◌≤◌, String, eq_iff, ◌≡◌, refl, ap, true, false, List, [], ◌∷◌, arith, length,
  contains, set_insert, contains-set_insert, if◌then◌else◌,
}
use p2p_auction.Prelude.Result.{ok}
use p2p_auction.HashMap
use p2p_auction.HashMap.{HashMap}
use p2p_auction.Transaction.{Block}
use p2p_auction.Blockchain.Branch.{BranchMap, children}
use p2p_auction.Blockchain.Prune.{push_new, push_children, collect}

-- The entries whose key is not in the set.
pub outside : List String → HashMap Block → ℕ
outside bin [] = 0
outside bin ((k, b) ∷ blocks) =
    if contains bin k then outside bin blocks else suc (outside bin blocks)

pub outside-le : (bin : List String) (blocks : HashMap Block) → outside bin blocks ≤ length blocks
unfolding outside
outside-le bin [] = omega arith
outside-le bin ((k, b) ∷ blocks) = ground (arith, outside-le bin blocks)

outside-insert_le :
    (bin : List String) (c : String) (blocks : HashMap Block)
    → outside (set_insert bin c) blocks ≤ outside bin blocks
unfolding outside
outside-insert_le bin c [] = omega arith
outside-insert_le bin c ((k, b) ∷ blocks) =
    ground (arith, outside-insert_le bin c blocks, contains-set_insert bin c k)

-- A key that is new in the set is one entry less outside.
outside-insert :
    (bin : List String) (c : String) (blocks : HashMap Block)
    → contains bin c ≡ false
    → HashMap.contains_key blocks c ≡ true
    → outside (set_insert bin c) blocks + 1 ≤ outside bin blocks
unfolding outside HashMap.contains_key
outside-insert bin c [] new known = cc
outside-insert bin c ((k, b) ∷ blocks) new known = ground (
  arith,
  outside-insert bin c blocks,
  outside-insert_le bin c blocks,
  contains-set_insert bin c k,
  eq_iff k c,
  ap (λ x. contains bin x) {x = k} {y = c},
)

module _ (blocks : HashMap Block) where
  push_new-le :
      (c : String) (losers bin : List String)
      → HashMap.contains_key blocks c ≡ true
      → length (push_new bin c losers) + outside (set_insert bin c) blocks
        ≤ length losers + outside bin blocks
  unfolding push_new
  push_new-le c losers bin known =
      ground (arith, outside-insert_le bin c blocks, outside-insert bin c blocks)

  -- What is pushed is paid for by what is no longer outside the bin.
  push_children-le :
      (cs losers bin : List String)
      → ((c : String) → contains cs c ≡ true → HashMap.contains_key blocks c ≡ true)
      → length (push_children cs losers bin).0 + outside (push_children cs losers bin).1 blocks
        ≤ length losers + outside bin blocks
  unfolding push_children
  push_children-le [] losers bin known = omega arith
  push_children-le (c ∷ cs) losers bin known = omega (
    arith,
    push_children-le cs (push_new bin c losers) (set_insert bin c) (λ d i. known d (ground arith)),
    push_new-le c losers bin (known c (ground (arith, eq_iff c c))),
  )

  -- The walk returns: each round pops a hash, and each hash is pushed once.
  pub collect_total :
      (m : BranchMap)
      → ((h c : String) → contains (children m h) c ≡ true → HashMap.contains_key blocks c ≡ true)
      → (fuel : ℕ) (losers bin : List String) → length losers + outside bin blocks ≤ fuel
      → (r : List String) × (collect fuel m losers bin ≡ ok r)
  unfolding collect
  collect_total m known fuel [] bin b = (bin, refl)
  collect_total m known zero (h ∷ losers) bin b = absurd (omega arith)
  collect_total m known (suc fuel) (h ∷ losers) bin b =
      let p = push_children (children m h) losers bin in
      collect_total m known fuel p.0 p.1
        (omega (arith, push_children-le (children m h) losers bin (known h)))
