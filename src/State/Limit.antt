-- ===== src/State/Limit.antt =====
-- The handler of a transaction of src/state.rs: its rate limit, and what it makes of the pool.
use mathlib.Core.Path.{subst}
use p2p_auction.Prelude.{
  ℕ, ◌-◌, ◌<◌, String, eq_self, ◌≡◌, ◌≢◌, refl, sym, ap, ◌∙◌, ◌⊎◌, inl, inr, true, false, some,
  arith, Bool-cases,
}
use p2p_auction.Prelude.Result.{ok, err, panic, Result}
use p2p_auction.Env.{Env}
use p2p_auction.HashMap
use p2p_auction.HashMap.Laws.{get-insert, contains_key-insert}
use p2p_auction.Pool
use p2p_auction.Transaction.{Transaction}
use p2p_auction.Blockchain.Mempool
use p2p_auction.Blockchain.Mempool.Laws.{IsAdmissible, add_or_unchanged}
use p2p_auction.State.{
  State, Reply, status, waits, too_early, limit, register, submit, handle, min_tx_interval,
}

abbrev pub charged : String → ℕ → State → State
charged from instant s = record s {
  last_tx_per_sender = HashMap.insert s.last_tx_per_sender from instant;
}

module _ ⦃env : Env⦄ where
  handle_early :
      (t : Transaction) (instant : ℕ) (s : State)
      → too_early s t.from instant ≡ true
      → handle t instant s ≡ (status 1, s)
  unfolding handle limit
  handle_early t instant s e = rw (handle, limit, e) refl

  handle_late :
      (t : Transaction) (instant : ℕ) (s : State)
      → too_early s t.from instant ≡ false
      → handle t instant s ≡ submit t (register t.id (charged t.from instant s))
  unfolding handle limit
  handle_late t instant s e = rw (handle, limit, e) refl

  submit-last :
      (t : Transaction) (s : State) → (submit t s).1.last_tx_per_sender ≡ s.last_tx_per_sender
  unfolding submit
  submit-last t s = refl

  charged_after :
      (t : Transaction) (instant : ℕ) (s : State)
      → too_early s t.from instant ≡ false
      → HashMap.get (handle t instant s).1.last_tx_per_sender t.from ≡ some instant
  unfolding register
  charged_after t instant s free =
      ap (λ (x : Reply × State). HashMap.get x.1.last_tx_per_sender t.from)
        (handle_late t instant s free)
      ∙ ap (λ m. HashMap.get m t.from) (submit-last t (register t.id (charged t.from instant s)))
      ∙ get-insert s.last_tx_per_sender t.from instant t.from
      ∙ rw (eq_self t.from) refl

  still_early :
      (from from' : String) (instant later : ℕ) (s : State)
      → from' ≡ from
      → later - instant < min_tx_interval
      → HashMap.get s.last_tx_per_sender from ≡ some instant
      → too_early s from' later ≡ true
  unfolding too_early
  still_early from from' instant later s e soon last = rw (e, too_early, last) (ground arith)

  -- After a request of a sender that was not too early, any request that names the same sender
  -- within `MIN_TX_INTERVAL` is refused with the status 1 and changes nothing, whatever became of
  -- the first one.
  pub limit_refuses :
      (t u : Transaction) (instant later : ℕ) (s : State)
      → too_early s t.from instant ≡ false
      → u.from ≡ t.from
      → later - instant < min_tx_interval
      → handle u later (handle t instant s).1 ≡ (status 1, (handle t instant s).1)
  limit_refuses t u instant later s free e soon = handle_early u later (handle t instant s).1 (
      still_early t.from u.from instant later (handle t instant s).1 e soon
        (charged_after t instant s free))

  registered :
      (t : Transaction) (s : State) → HashMap.contains_key (register t.id s).notifiers t.id ≡ true
  unfolding register
  registered t s = rw (contains_key-insert s.notifiers t.id _ t.id, eq_self t.id) refl

  submit_lem :
      (t : Transaction) (s : State)
      → HashMap.contains_key s.notifiers t.id ≡ true
      → (HashMap.contains_key (submit t s).1.notifiers t.id ≡ true)
        × ((((submit t s).0 ≡ waits t.id)
              × IsAdmissible t s.blockchain
              × (Pool.contains (submit t s).1.blockchain.transaction_pool t ≡ true))
            ⊎ (((submit t s).0 ≡ status 1) × ((submit t s).1.blockchain ≡ s.blockchain)))
  unfolding submit
  submit_lem t s k = elim (add_or_unchanged t s.blockchain) [
    | inl (good, a, same, held) ↦ (k, inl (rw (submit, good) refl, a, held))
    | inr (failed, same) ↦
        (k, inr (refused (Mempool.add_transaction t s.blockchain).0 failed, same))
  ]
    where
      refused :
          (r : Result (Unit {0}))
          → r ≢ ok tt
          → (elim r as (λ _. Reply) [ ok _ ↦ waits t.id | _ ↦ status 1 ]) ≡ status 1
      refused (ok u) f = absurd (f refl)
      refused (err e) f = refl
      refused (panic p) f = refl

  -- A request that is too early gets the status 1 and changes nothing. Else its sender is charged and a
  -- notifier stands under its id; either its transaction is admissible, the call waits, and the pool
  -- holds it, or the response has the status 1, the chain is as it was, and the notifier stays.
  pub handle_lem :
      (t : Transaction) (instant : ℕ) (s : State)
      → ((too_early s t.from instant ≡ true) × (handle t instant s ≡ (status 1, s)))
        ⊎ ((too_early s t.from instant ≡ false)
            × (HashMap.get (handle t instant s).1.last_tx_per_sender t.from ≡ some instant)
            × (HashMap.contains_key (handle t instant s).1.notifiers t.id ≡ true)
            × ((((handle t instant s).0 ≡ waits t.id)
                  × IsAdmissible t s.blockchain
                  × (Pool.contains (handle t instant s).1.blockchain.transaction_pool t ≡ true))
                ⊎ (((handle t instant s).0 ≡ status 1)
                    × ((handle t instant s).1.blockchain ≡ s.blockchain))))
  unfolding register
  handle_lem t instant s = elim (Bool-cases (too_early s t.from instant)) [
    | inl early ↦ inl (early, handle_early t instant s early)
    | inr late ↦
        let (here, rest) =
          subst
            (λ (x : Reply × State).
              (HashMap.contains_key x.1.notifiers t.id ≡ true)
              × (((x.0 ≡ waits t.id)
                    × IsAdmissible t s.blockchain
                    × (Pool.contains x.1.blockchain.transaction_pool t ≡ true))
                  ⊎ ((x.0 ≡ status 1) × (x.1.blockchain ≡ s.blockchain))))
            (sym (handle_late t instant s late))
            (submit_lem t (register t.id (charged t.from instant s))
              (registered t (charged t.from instant s))) in
        inr (late, charged_after t instant s late, here, rest)
  ]
