-- ===== src/Examples/Replay.antt =====
-- The theorems on the world state and on the agreement of nodes, at the concrete node.
use mathlib.Core.Path.{subst}
use p2p_auction.Prelude.{
  ◌⊎◌, inl, inr, Bool-cases, sym, ap, ◌∙◌, String, ◌==◌, eq_iff, ◌≡◌, ◌≢◌, refl, true, false, [],
  ◌∷◌, arith, to_set,
}
use p2p_auction.Prelude.Result.{ok}
use p2p_auction.HashMap
use p2p_auction.Block
use p2p_auction.Pow
use p2p_auction.Header
use p2p_auction.Merkle
use p2p_auction.Hash
use p2p_auction.Transaction.{Block}
use p2p_auction.Transaction.Signing
use p2p_auction.Blockchain
use p2p_auction.Blockchain.{Blockchain, Ledger}
use p2p_auction.Blockchain.Execute
use p2p_auction.Blockchain.Execute.Replay.{run}
use p2p_auction.Blockchain.Execute.Replay.World.{IsReplay}
use p2p_auction.Blockchain.Branch
use p2p_auction.Blockchain.Prune
use p2p_auction.Blockchain.Prune.Chain.{settled}
use p2p_auction.Blockchain.Fix
use p2p_auction.Blockchain.Branch.Compare.{number}
use p2p_auction.Blockchain.Fix.Agreement.{HasNoTies, fix_agrees}
use p2p_auction.Blockchain.Fix.Finality.{NoForks, OneStart}
use p2p_auction.Blockchain.Accept.{accept_block}
use p2p_auction.Blockchain.Accept.Finality.{accept-settled}
use p2p_auction.Blockchain.Accept.Replay.{accept-IsReplay}
use p2p_auction.Blockchain.Valid.{IsValid}
use p2p_auction.Blockchain.Reachable.{Step, Reachable, Reachable-IsValid}
use p2p_auction.Examples.Toy.{toy, toy-IsLawful}
use p2p_auction.Examples.Data.{
  fork, first, second, third, fourth, fifth, begin, with_first, accepted, four, five,
}

abbrev with_second : Ledger
with_second = accepted second with_first

abbrev with_third : Ledger
with_third = accepted third with_second

with_first-Reachable : Reachable 4 with_first
with_first-Reachable = Reachable.after Reachable.start (Step.accept first begin)

with_second-Reachable : Reachable 4 with_second
with_second-Reachable = Reachable.after with_first-Reachable (Step.accept second with_first)

with_third-Reachable : Reachable 4 with_third
with_third-Reachable = Reachable.after with_second-Reachable (Step.accept third with_second)

four-Reachable : Reachable 4 four
four-Reachable = Reachable.after with_third-Reachable (Step.accept fourth with_third)

reached-IsValid : (l : Ledger) → Reachable 4 l → IsValid l.chain
reached-IsValid = Reachable-IsValid toy-IsLawful 4

-- What is asked of a ledger before it accepts the next block.
abbrev IsReady : Ledger → Type 0
IsReady l =
    NoForks l.chain.blocks l.chain.longest_chain
    × OneStart l.chain.blocks l.chain.longest_chain
    × IsReplay (settled l.chain.longest_chain) l.chain

next-IsReady :
    (b : Block) (l : Ledger)
    → Reachable 4 l
    → (b.previous_hash == "0") ≡ false
    → (accept_block b l).0 ≡ ok tt
    → IsReady l
    → IsReady (accepted b l)
next-IsReady b l reached apart good (forks, start, replay) =
    let v = reached-IsValid l reached in
    let not_start : b.previous_hash ≢ "0" = λ e. cc (apart, (eq_iff b.previous_hash "0").1 e) in
    let (keeps, forks', start') = accept-settled toy-IsLawful b l v forks start not_start good in
    (forks', start', accept-IsReplay toy-IsLawful b l v forks start not_start good replay)

-- Each block in turn is accepted; of the first one, nothing is settled.
accepts_all :
    ((accept_block second with_first).0 ≡ ok tt)
    × ((accept_block third with_second).0 ≡ ok tt)
    × ((accept_block fourth with_third).0 ≡ ok tt)
    × ((accept_block fifth four).0 ≡ ok tt)
unfolding accept_block Fix.fix Execute.execute_transactions Execute.execute_single_transaction
    Execute.execute_record Branch.find_longest_branch Branch.branch_map Prune.prune
    HashMap.contains_key HashMap.get HashMap.insert HashMap.remove HashMap.values Block.verify
    Header.new Header.hash Merkle.root Merkle.leaf_level Merkle.hash Merkle.climb Signing.hash
    Pow.verify Signing.verify Hash.string_to_public_key Hash.string_to_signature
    Blockchain.find_creation Blockchain.creates to_set Blockchain.create_account
    Blockchain.create_auction
accepts_all = (refl, refl, refl, refl)

abbrev literal : Ledger
literal = record {
  chain = record (Blockchain.new 4) {
    blocks = (first.hash, first) ∷ [];
    longest_chain = first.hash ∷ [];
  };
  notifiers = [];
}

with_first-literal : with_first ≡ literal
unfolding accept_block Fix.fix Execute.execute_transactions Execute.execute_single_transaction
    Execute.execute_record Branch.find_longest_branch Branch.branch_map Prune.prune
    HashMap.contains_key HashMap.get HashMap.insert HashMap.remove HashMap.values Block.verify
    Header.new Header.hash Merkle.root Merkle.leaf_level Merkle.hash Merkle.climb Signing.hash
    Pow.verify Signing.verify Hash.string_to_public_key Hash.string_to_signature to_set
with_first-literal = refl

literal-IsReady : IsReady literal
unfolding HashMap.get run
literal-IsReady = (
  λ h b e i. cc i,
  λ h b e g. ground arith,
  record { accounts = refl; auctions = refl; blocks = λ h on. refl; placed = λ id k n e. cc e },
)

four-IsReady : IsReady four
four-IsReady = next-IsReady fourth with_third with_third-Reachable refl accepts_all.2 (
    next-IsReady third with_second with_second-Reachable refl accepts_all.1 (
      next-IsReady second with_first with_first-Reachable refl accepts_all.0
        (subst IsReady (sym with_first-literal) literal-IsReady)))

five-IsReplay : IsReplay (settled five.chain.longest_chain) five.chain
five-IsReplay = (next-IsReady fifth four four-Reachable refl accepts_all.3 four-IsReady).2

-- The fifth block settles the third one, whose offer is executed.
accept-IsReplay_example : IsReplay (settled five.chain.longest_chain) five.chain
accept-IsReplay_example =
    accept-IsReplay toy-IsLawful fifth four (reached-IsValid four four-Reachable) four-IsReady.0
      four-IsReady.1 (λ e. cc ((eq_iff fifth.previous_hash "0").1 e)) accepts_all.3 four-IsReady.2

-- Two nodes that took the first block and its rival in different orders.
abbrev first_then : Ledger
first_then = accepted fork with_first

abbrev fork_then : Ledger
fork_then = accepted first (accepted fork begin)

knows_both :
    (first_then.chain.blocks ≡ (first.hash, first) ∷ (fork.hash, fork) ∷ [])
    × (fork_then.chain.blocks ≡ (fork.hash, fork) ∷ (first.hash, first) ∷ [])
unfolding accept_block Fix.fix Execute.execute_transactions Branch.find_longest_branch
    Branch.branch_map Prune.prune HashMap.contains_key HashMap.get HashMap.insert HashMap.remove
    HashMap.values Block.verify Header.new Header.hash Merkle.root Merkle.leaf_level Merkle.hash
    Merkle.climb Signing.hash Pow.verify Signing.verify Hash.string_to_public_key
    Hash.string_to_signature to_set
knows_both = (refl, refl)

both_orders :
    (h : String)
    → HashMap.get ((first.hash, first) ∷ (fork.hash, fork) ∷ []) h
      ≡ HashMap.get ((fork.hash, fork) ∷ (first.hash, first) ∷ []) h
unfolding HashMap.get
both_orders h = elim (Bool-cases (first.hash == h)) [
  | inl e ↦
      subst
        (λ k.
          HashMap.get ((first.hash, first) ∷ (fork.hash, fork) ∷ []) k
          ≡ HashMap.get ((fork.hash, fork) ∷ (first.hash, first) ∷ []) k)
        ((eq_iff first.hash h).0 e) refl
  | inr e ↦ ground arith
]

first_or_fork :
    (h : String)
    → HashMap.contains_key ((first.hash, first) ∷ (fork.hash, fork) ∷ []) h ≡ true
    → (first.hash ≡ h) ⊎ (fork.hash ≡ h)
unfolding HashMap.contains_key
first_or_fork h e = ground (arith, eq_iff first.hash h, eq_iff fork.hash h)

both-HasNoTies : HasNoTies ((first.hash, first) ∷ (fork.hash, fork) ∷ [])
unfolding number
both-HasNoTies h k i j e = elim (first_or_fork h i) [
  | inl p ↦ elim (first_or_fork k j) [
    | inl q ↦ sym p ∙ q
    | inr q ↦ cc (ap number p, e, ap number q)
  ]
  | inr p ↦ elim (first_or_fork k j) [
    | inl q ↦ cc (ap number p, e, ap number q)
    | inr q ↦ sym p ∙ q
  ]
]

fix_agrees_example :
    (Fix.fix first_then).1.chain.longest_chain ≡ (Fix.fix fork_then).1.chain.longest_chain
fix_agrees_example =
    fix_agrees toy-IsLawful first_then fork_then
      (reached-IsValid first_then
        (Reachable.after with_first-Reachable (Step.accept fork with_first)))
      (reached-IsValid fork_then (
        Reachable.after (Reachable.after Reachable.start (Step.accept fork begin))
          (Step.accept first (accepted fork begin))))
      (λ h.
        ap (λ m. HashMap.get m h) knows_both.0
        ∙ both_orders h
        ∙ ap (λ m. HashMap.get m h) (sym knows_both.1))
      (subst HasNoTies (sym knows_both.0) both-HasNoTies)
