-- ===== src/Examples/Chain.antt =====
-- The theorems on the chain, at the concrete node.
use mathlib.Core.Path.{subst}
use p2p_auction.Prelude.{
  String, ◌≡◌, ◌≢◌, refl, true, false, List, [], ◌∷◌, ◌⊎◌, ◌-◌, ◌≤◌, arith, length, ◌↔◌, suc, inl,
  inr, Bool-cases, eq_iff, ◌==◌,
}
use p2p_auction.Prelude.Result.{ok, err, accept_block as accept_error, duplicate, pruned}
use p2p_auction.HashMap
use p2p_auction.Block
use p2p_auction.Pool
use p2p_auction.Pow
use p2p_auction.Header
use p2p_auction.Merkle
use p2p_auction.Transaction.Signing
use p2p_auction.Blockchain.{Ledger}
use p2p_auction.Blockchain.Branch.{children, branch_map, find_longest_branch}
use p2p_auction.Blockchain.Branch.Map.{IsMap}
use p2p_auction.Blockchain.Branch.Best.{Linked, IsBest, find_longest_branch-IsBest}
use p2p_auction.Blockchain.Branch.Hex.{IsHex}
use p2p_auction.Blockchain.Branch.Total.{find_longest_branch_total}
use p2p_auction.Blockchain.Prune.{prune}
use p2p_auction.Blockchain.Prune.Drop.{SameFollowed, IsPruned, prune-IsPruned}
use p2p_auction.Blockchain.Valid.{IsValid}
use p2p_auction.Blockchain.Fix.{fix}
use p2p_auction.Blockchain.Fix.Laws.{IsFixed, fix_lem}
use p2p_auction.Blockchain.Accept.{push_block, verify, check_block, accept_block}
use p2p_auction.Blockchain.Accept.Checks.{IsAcceptable, check_block_iff}
use p2p_auction.Blockchain.Accept.Laws.{accept_or_unchanged, accept_twice}
use p2p_auction.Blockchain.Reachable.{
  Step, Reachable, Reachable-IsValid, Reachable-verify, new-IsValid,
}
use p2p_auction.Examples.Toy.{toy, toy-IsLawful}
use p2p_auction.Examples.Data.{first, second, fork, begin, with_first, three, world}

abbrev with_first-Reachable : Reachable 4 with_first
with_first-Reachable = Reachable.after Reachable.start (Step.accept first begin)

abbrev with_second-Reachable : Reachable 4 (accept_block second with_first).1
with_second-Reachable = Reachable.after with_first-Reachable (Step.accept second with_first)

with_first-IsValid : IsValid with_first.chain
with_first-IsValid = Reachable-IsValid toy-IsLawful 4 with_first with_first-Reachable

accepts_first : (accept_block first begin).0 ≡ ok tt
unfolding accept_block HashMap.contains_key HashMap.get HashMap.insert Block.verify Header.new
    Header.hash Merkle.root Merkle.leaf_level Merkle.hash Merkle.climb Signing.hash Pow.verify
accepts_first = refl

-- The branch of two blocks beats the fork of one.
follows_both :
    find_longest_branch 4 (branch_map three) "0" ≡ ok ("0" ∷ first.hash ∷ second.hash ∷ [])
unfolding find_longest_branch branch_map HashMap.get HashMap.insert
follows_both = refl

Reachable-IsValid_example : IsValid (accept_block second with_first).1.chain
Reachable-IsValid_example =
    Reachable-IsValid toy-IsLawful 4 (accept_block second with_first).1 with_second-Reachable

Reachable-verify_example :
    (verify with_first.chain ≡ ok tt)
    × (with_first.chain.commited_pointer ≡ length with_first.chain.longest_chain - 2)
    × (Pool.len with_first.chain.transaction_pool ≤ Pool.max_transaction_pool_size)
Reachable-verify_example = Reachable-verify toy-IsLawful 4 with_first with_first-Reachable

accept_or_unchanged_example :
    (((accept_block second with_first).0 ≡ ok tt)
      × IsAcceptable second with_first.chain
      × IsFixed (push_block second with_first.chain) (accept_block second with_first).1.chain)
    ⊎ (((accept_block second with_first).0 ≢ ok tt)
        × ((accept_block second with_first).1 ≡ with_first))
accept_or_unchanged_example = accept_or_unchanged toy-IsLawful second with_first with_first-IsValid

check_block_iff_example :
    (check_block second with_first.chain ≡ ok tt) ↔ IsAcceptable second with_first.chain
check_block_iff_example = check_block_iff second with_first.chain with_first-IsValid

accept_twice_example :
    ((accept_block first with_first).0 ≡ err (accept_error duplicate))
    ⊎ ((accept_block first with_first).0 ≡ err (accept_error pruned))
accept_twice_example = accept_twice toy-IsLawful first begin (new-IsValid 4) accepts_first

fix_lem_example : ((fix with_first).0 ≡ ok tt) × IsFixed with_first.chain (fix with_first).1.chain
fix_lem_example = fix_lem toy-IsLawful with_first with_first-IsValid

find_longest_branch-IsBest_example :
    IsBest (branch_map three) "0" ("0" ∷ first.hash ∷ second.hash ∷ [])
find_longest_branch-IsBest_example =
    find_longest_branch-IsBest 4 (branch_map three) "0" ("0" ∷ first.hash ∷ second.hash ∷ [])
      follows_both

three-IsMap : IsMap three
unfolding HashMap.contains_key
three-IsMap = (refl, (refl, (refl, tt)))

three-no_genesis : HashMap.contains_key three "0" ≡ false
unfolding HashMap.contains_key
three-no_genesis = refl

three-IsHex : (h : String) → HashMap.contains_key three h ≡ true → IsHex h
unfolding HashMap.contains_key
three-IsHex h e = elim (Bool-cases (first.hash == h)) [
  | inl f ↦ subst IsHex ((eq_iff first.hash h).0 f) (0 ∷ 0 ∷ 11 ∷ [], refl)
  | inr f ↦ elim (Bool-cases (fork.hash == h)) [
    | inl g ↦ subst IsHex ((eq_iff fork.hash h).0 g) (0 ∷ 0 ∷ 13 ∷ [], refl)
    | inr g ↦ elim (Bool-cases (second.hash == h)) [
      | inl k ↦ subst IsHex ((eq_iff second.hash h).0 k) (0 ∷ 0 ∷ 24 ∷ [], refl)
      | inr k ↦ absurd (ground arith)
    ]
  ]
]

find_longest_branch_total_example :
    (r : List String) × (find_longest_branch (suc (length three)) (branch_map three) "0" ≡ ok r)
find_longest_branch_total_example =
    find_longest_branch_total three three-IsMap three-no_genesis three-IsHex

-- The fork is beaten, and its parent is not among those whose children are pruned.
abbrev known_three : Ledger
known_three = record { chain = world; notifiers = [] }

world-Linked : Linked (branch_map three) "0" (first.hash ∷ second.hash ∷ [])
unfolding branch_map children HashMap.get HashMap.insert
world-Linked = (refl, (refl, tt))

prune-IsPruned_example :
    ((prune (branch_map three) known_three).0 ≡ ok tt)
    × SameFollowed (prune (branch_map three) known_three).1.chain world
    × IsPruned three world.longest_chain world.pruned
        (prune (branch_map three) known_three).1.chain.blocks
        (prune (branch_map three) known_three).1.chain.pruned
prune-IsPruned_example = prune-IsPruned known_three three-IsMap three-no_genesis world-Linked
