-- ===== src/Runtime/Laws.antt =====
-- What the runtime of src/runtime.rs makes of a block from a peer.
use mathlib.Core.Path.{subst}
use p2p_auction.Prelude.{
  ℕ, String, eq_self, ◌≡◌, ◌≢◌, refl, sym, ◌⊎◌, inl, inr, Bool, true, false, some, [], ◌∷◌,
  if◌then◌else◌,
}
use p2p_auction.Prelude.Result.{
  Result, ok, err, panic, message, external, Error, accept_block as accept_error, duplicate, pruned,
  pruned_parent, invalid_hash, orphan, wrong_transaction_order,
}
use p2p_auction.Env.{Env, IsLawful}
use p2p_auction.HashMap
use p2p_auction.HashMap.Laws.{get-insert}
use p2p_auction.Transaction.{Block}
use p2p_auction.Blockchain.{Ledger}
use p2p_auction.Blockchain.Valid.{IsValid}
use p2p_auction.Blockchain.Fix.Laws.{IsFixed}
use p2p_auction.Blockchain.Accept
use p2p_auction.Blockchain.Accept.{push_block}
use p2p_auction.Blockchain.Accept.Checks.{IsAcceptable}
use p2p_auction.Blockchain.Accept.Laws.{accept_or_unchanged}
use p2p_auction.State.{State}
use p2p_auction.Runtime.{
  publish, request_hashes, Outcome, ledger, set_ledger, on_accepted, on_refused, accept_block,
}

-- A refused block leaves the state as it was, or it is kept apart as an orphan and the hashes of its
-- sender's chain may be asked for.
abbrev pub IsRefused : Block → String → Bool → State → Outcome → Type 0
IsRefused block peer request_missing s (r, sent, s') =
    ((sent ≡ []) × (s' ≡ s))
    ⊎ ((r ≡ ok tt)
        × (sent ≡ (if request_missing then request_hashes peer ∷ [] else []))
        × (HashMap.get s'.received_blocks block.hash ≡ some block)
        × (s'.blockchain ≡ s.blockchain)
        × (s'.notifiers ≡ s.notifiers)
        × (s'.last_block_accepted ≡ s.last_block_accepted))

on_refused-IsRefused :
    (e : Error) (block : Block) (peer : String) (request_missing : Bool) (s : State)
    → IsRefused block peer request_missing s (on_refused e block peer request_missing s)
unfolding on_refused
on_refused-IsRefused (accept_error duplicate) block peer request_missing s = inl (refl, refl)
on_refused-IsRefused (accept_error orphan) block peer request_missing s = inr (
  refl,
  refl,
  rw (get-insert s.received_blocks block.hash block block.hash, eq_self block.hash) refl,
  refl,
  refl,
  refl,
)
on_refused-IsRefused (accept_error pruned) block peer request_missing s = inl (refl, refl)
on_refused-IsRefused (accept_error pruned_parent) block peer request_missing s = inl (refl, refl)
on_refused-IsRefused (accept_error invalid_hash) block peer request_missing s = inl (refl, refl)
on_refused-IsRefused (accept_error wrong_transaction_order) block peer request_missing s =
    inl (refl, refl)
on_refused-IsRefused (message m) block peer request_missing s = inl (refl, refl)
on_refused-IsRefused external block peer request_missing s = inl (refl, refl)

module _ ⦃env : Env⦄ (gossip : Block → Result (Unit {0})) where
  accepted_run :
      (block : Block) (peer : String) (rebroadcast request_missing : Bool) (now : ℕ) (s : State)
      → (Accept.accept_block block (ledger s)).0 ≡ ok tt
      → accept_block gossip block peer rebroadcast request_missing now s
        ≡ on_accepted gossip block rebroadcast now
            (set_ledger (Accept.accept_block block (ledger s)).1 s)
  unfolding accept_block
  accepted_run block peer rebroadcast request_missing now s e = rw (accept_block, e) refl

  run-IsRefused :
      (block : Block) (peer : String) (rebroadcast request_missing : Bool) (now : ℕ) (s : State)
      → (Accept.accept_block block (ledger s)).0 ≢ ok tt
      → (Accept.accept_block block (ledger s)).1 ≡ ledger s
      → IsRefused block peer request_missing s
          (accept_block gossip block peer rebroadcast request_missing now s)
  unfolding accept_block
  run-IsRefused block peer rebroadcast request_missing now s failed same =
      subst
        (λ (l : Ledger).
          IsRefused block peer request_missing s
            (elim (Accept.accept_block block (ledger s)).0 as (λ _. Outcome) [
              | ok _ ↦ on_accepted gossip block rebroadcast now (set_ledger l s)
              | err e ↦ on_refused e block peer request_missing (set_ledger l s)
              | panic p ↦ (panic p, [], set_ledger l s)
            ]))
        (sym same) (split (Accept.accept_block block (ledger s)).0 failed)
    where
      split :
          (r : Result (Unit {0}))
          → r ≢ ok tt
          → IsRefused block peer request_missing s (elim r as (λ _. Outcome) [
            | ok _ ↦ on_accepted gossip block rebroadcast now s
            | err e ↦ on_refused e block peer request_missing s
            | panic p ↦ (panic p, [], s)
          ])
      split (ok u) f = absurd (f refl)
      split (err e) f = on_refused-IsRefused e block peer request_missing s
      split (panic p) f = inl (refl, refl)

  on_accepted_lem :
      (block : Block) (rebroadcast : Bool) (now : ℕ) (s : State)
      → ((on_accepted gossip block rebroadcast now s).1
          ≡ (if rebroadcast then publish block ∷ [] else []))
        × ((on_accepted gossip block rebroadcast now s).2.last_block_accepted ≡ some now)
        × ((on_accepted gossip block rebroadcast now s).2.blockchain ≡ s.blockchain)
  unfolding on_accepted
  on_accepted_lem block true now s = (refl, refl, refl)
  on_accepted_lem block false now s = (refl, refl, refl)

  -- Given `IsLawful`, on a valid state, either the block is acceptable, the chain is as `fix` leaves
  -- it with the block among those known, the time is noted, and the block is given to be published
  -- exactly where it is to be sent on; or nothing is sent and the state stays; or the block is kept
  -- apart, the call returns, the chain, the notifiers and the noted time stay, and the peer is asked
  -- for the hashes of its chain exactly where what is missing is to be requested.
  pub accept_block_lem :
      IsLawful env
      → (block : Block) (peer : String) (rebroadcast request_missing : Bool) (now : ℕ) (s : State)
      → IsValid s.blockchain
      → (IsAcceptable block s.blockchain
          × IsFixed
              (push_block block s.blockchain)
              (accept_block gossip block peer rebroadcast request_missing now s).2.blockchain
          × ((accept_block gossip block peer rebroadcast request_missing now s).1
              ≡ (if rebroadcast then publish block ∷ [] else []))
          × ((accept_block gossip block peer rebroadcast request_missing now
                s).2.last_block_accepted
              ≡ some now))
        ⊎ IsRefused block peer request_missing s
            (accept_block gossip block peer rebroadcast request_missing now s)
  accept_block_lem laws block peer rebroadcast request_missing now s v =
      elim (accept_or_unchanged laws block (ledger s) v) [
        | inr (failed, same) ↦
            inr (run-IsRefused block peer rebroadcast request_missing now s failed same)
        | inl (good, a, fixed) ↦
            let s' = set_ledger (Accept.accept_block block (ledger s)).1 s in
            let (sent, noted, chain) = on_accepted_lem block rebroadcast now s' in
            inl (
              subst
                (λ (x : Outcome).
                  IsAcceptable block s.blockchain
                  × IsFixed (push_block block s.blockchain) x.2.blockchain
                  × (x.1 ≡ (if rebroadcast then publish block ∷ [] else []))
                  × (x.2.last_block_accepted ≡ some now))
                (sym (accepted_run block peer rebroadcast request_missing now s good))
                (a, subst (IsFixed (push_block block s.blockchain)) (sym chain) fixed, sent, noted))
      ]
