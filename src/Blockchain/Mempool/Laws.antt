-- ===== src/Blockchain/Mempool/Laws.antt =====
-- What the chain of src/blockchain.rs lets into its pool.
use mathlib.Core.Path.{subst}
use p2p_auction.Prelude.{
  ◌≤◌, eq_iff, ◌≡◌, ◌≢◌, refl, sym, ap, ◌∙◌, ◌⊎◌, inl, inr, Bool, true, false, some, arith,
  nat_eq_iff, Option-cases, ◌↔◌,
}
use p2p_auction.Prelude.Result.{Result, ok, err, panic, message, >>=-eq-ok}
use p2p_auction.Env.{Env}
use p2p_auction.HashMap
use p2p_auction.HashMap.{HashMap}
use p2p_auction.Pool
use p2p_auction.Pool.Room as Room
use p2p_auction.Pool.Flush.{replay-add_transaction}
use p2p_auction.Transaction.{
  Data, Transaction, create_user_account, bid, create_auction, stop_auction,
}
use p2p_auction.Transaction.Signing
use p2p_auction.Blockchain.{Blockchain, Account}
use p2p_auction.Blockchain.Valid.{IsValid}
use p2p_auction.Blockchain.Accept.{refuse}
use p2p_auction.Blockchain.Accept.Checks.{refuse-eq-ok}
use p2p_auction.Blockchain.Mempool.{
  has_transaction, check_nonce, check_record, check_transaction, add_transaction,
}

-- What is asked of the record, the sender and the nonce.
abbrev pub IsFresh : Data → Transaction → Blockchain → Type 0
IsFresh (create_user_account public_key) t c =
    (t.from ≡ public_key) × (t.nonce ≡ 0) × (HashMap.contains_key c.accounts public_key ≡ false)
IsFresh _ t c =
    (a : Account) × (HashMap.get c.accounts t.from ≡ some a)
    × (a.nonce ≤ t.nonce)
    × (Pool.replay c.transaction_pool t ≡ false)

abbrev pub creates_account : Data → Bool
creates_account (create_user_account public_key) = true
creates_account _ = false

check_nonce_iff :
    (t : Transaction) (c : Blockchain)
    → (check_nonce t c ≡ ok tt) ↔ (
        (a : Account) × (HashMap.get c.accounts t.from ≡ some a)
        × (a.nonce ≤ t.nonce)
        × (Pool.replay c.transaction_pool t ≡ false))
unfolding check_nonce
check_nonce_iff t c = (
  λ e. elim (Option-cases (HashMap.get c.accounts t.from)) [
    | inl f ↦ absurd (ground arith)
    | inr (a, f) ↦ (a, f, ground arith, ground arith)
  ],
  λ (a, f, g, h). ground arith,
)

check_record_iff :
    (d : Data) (t : Transaction) (c : Blockchain) → (check_record d t c ≡ ok tt) ↔ IsFresh d t c
unfolding check_record
check_record_iff (create_user_account public_key) t c =
    ground (arith, eq_iff t.from public_key, nat_eq_iff t.nonce 0)
check_record_iff (bid a m) t c = check_nonce_iff t c
check_record_iff (create_auction a m s) t c = check_nonce_iff t c
check_record_iff (stop_auction a) t c = check_nonce_iff t c

module _ ⦃env : Env⦄ where
  pub record IsAdmissible (t : Transaction) (c : Blockchain) : Type 0 where
    pub signed : Signing.verify t ≡ ok tt
    pub not_recorded : has_transaction t c ≡ false
    pub not_pending : Pool.contains c.transaction_pool t ≡ false
    pub fresh : IsFresh t.payload t c

  -- The checks pass exactly for a transaction that verifies, is in no known block, is not pending, and
  -- whose nonce is fresh: 0 for the account that it creates, which does not exist; else no less than
  -- that of the account of its sender, and not that of a pending transaction of this sender.
  pub check_transaction_iff :
      (t : Transaction) (c : Blockchain) → (check_transaction t c ≡ ok tt) ↔ IsAdmissible t c
  unfolding check_transaction
  check_transaction_iff t c = (accepted, passes)
    where
      accepted : check_transaction t c ≡ ok tt → IsAdmissible t c
      accepted e =
          let (u1, p1, e1) = >>=-eq-ok (Signing.verify t) _ e in
          let (u2, p2, e2) =
            >>=-eq-ok (refuse (has_transaction t c) (message "Transaction already recorded.")) _
              e1 in
          let (u3, p3, e3) =
            >>=-eq-ok
              (refuse (Pool.contains c.transaction_pool t) (message "Transaction already pending."))
              _ e2 in
          record {
            signed = p1;
            not_recorded = refuse-eq-ok _ _ p2;
            not_pending = refuse-eq-ok _ _ p3;
            fresh = (check_record_iff t.payload t c).0 e3;
          }

      passes : IsAdmissible t c → check_transaction t c ≡ ok tt
      passes a =
          rw (a.signed, a.not_recorded, a.not_pending) ((check_record_iff t.payload t c).1 a.fresh)

  -- A transaction either is admissible, and then the call returns and puts it into the pool, where
  -- it stands, while all else of the chain stays; or the call fails and changes nothing.
  pub add_or_unchanged :
      (t : Transaction) (c : Blockchain)
      → (((add_transaction t c).0 ≡ ok tt)
          × IsAdmissible t c
          × ((add_transaction t c).1
              ≡ record c { transaction_pool = Pool.add_transaction c.transaction_pool t })
          × (Pool.contains (add_transaction t c).1.transaction_pool t ≡ true))
        ⊎ (((add_transaction t c).0 ≢ ok tt) × ((add_transaction t c).1 ≡ c))
  unfolding add_transaction
  add_or_unchanged t c = split (check_transaction t c) refl
    where
      split :
          (r : Result (Unit {0}))
          → check_transaction t c ≡ r
          → (((add_transaction t c).0 ≡ ok tt)
              × IsAdmissible t c
              × ((add_transaction t c).1
                  ≡ record c { transaction_pool = Pool.add_transaction c.transaction_pool t })
              × (Pool.contains (add_transaction t c).1.transaction_pool t ≡ true))
            ⊎ (((add_transaction t c).0 ≢ ok tt) × ((add_transaction t c).1 ≡ c))
      split (ok tt) e = inl (
        rw (e) refl,
        (check_transaction_iff t c).0 e,
        rw (e) refl,
        rw (e) (Room.contains-add_transaction c.transaction_pool t),
      )
      split (err x) e = inr (rw (e) (λ f. cc f), rw (e) refl)
      split (panic x) e = inr (rw (e) (λ f. cc f), rw (e) refl)

  -- The chain stays valid.
  pub add_transaction-IsValid :
      (t : Transaction) (c : Blockchain) → IsValid c → IsValid (add_transaction t c).1
  add_transaction-IsValid t c v = elim (add_or_unchanged t c) [
    | inr (failed, same) ↦ subst IsValid (sym same) v
    | inl (good, a, same, held) ↦ subst IsValid (sym same) (record {
      map = v.map;
      verified = v.verified;
      rooted = v.rooted;
      linked = v.linked;
      commited = v.commited;
      pool = Room.add_transaction-IsValid c.transaction_pool t v.pool;
    })
  ]

  -- After a transaction was let into the pool, no other of its sender with its nonce is let in right
  -- after, unless that creates an account.
  pub second_nonce_refused :
      (t u : Transaction) (c : Blockchain)
      → (add_transaction t c).0 ≡ ok tt
      → u.from ≡ t.from
      → u.nonce ≡ t.nonce
      → creates_account u.payload ≡ false
      → (add_transaction u (add_transaction t c).1).0 ≢ ok tt
  second_nonce_refused t u c e f g other good = elim (add_or_unchanged t c) [
    | inr (failed, same) ↦ failed e
    | inl (_, _, same, held) ↦ elim (add_or_unchanged u (add_transaction t c).1) [
      | inr (failed, _) ↦ failed good
      | inl (_, a, _, _) ↦
          not_replay u.payload u (add_transaction t c).1 other
            (ap (λ (x : Blockchain). Pool.replay x.transaction_pool u) same
              ∙ replay-add_transaction c.transaction_pool t u f g)
            a.fresh
    ]
  ]
    where
      not_replay :
          (d : Data) (u : Transaction) (c : Blockchain)
          → creates_account d ≡ false
          → Pool.replay c.transaction_pool u ≡ true
          → ¬ IsFresh d u c
      not_replay (create_user_account k) u c e r f = cc e
      not_replay (bid a m) u c e r (x, p, q, f) = cc (r, f)
      not_replay (create_auction a m s) u c e r (x, p, q, f) = cc (r, f)
      not_replay (stop_auction a) u c e r (x, p, q, f) = cc (r, f)
