-- ===== src/Blockchain/Execute/Nonce.antt =====
-- The nonce of the sender under the execution of a transaction, and why none is executed twice.
use p2p_auction.Prelude.{
  ℕ, String, ◌==◌, eq_self, eq_iff, ◌≡◌, ◌≢◌, refl, sym, ap, ◌∙◌, ◌⊎◌, inl, inr, true, false, some,
  arith, nat_eq, nat_eq_iff, Bool-cases, Option-cases,
}
use p2p_auction.Prelude.Result.{Result, ok, err, panic, message}
use p2p_auction.Prelude.Exec.{proceed, modify, ◌>>◌}
use p2p_auction.Env.{Env}
use p2p_auction.HashMap
use p2p_auction.HashMap.{HashMap}
use p2p_auction.HashMap.Laws.{get-insert, contains_key-get}
use p2p_auction.Transaction.{
  Data, Transaction, create_user_account, bid, create_auction as create_auction_data, stop_auction,
}
use p2p_auction.Blockchain.{
  Blockchain, Account, create_account, create_auction, remove_auction, get_auction,
}
use p2p_auction.Blockchain.Execute.{
  next_nonce, use_nonce, stops_early, execute_record, execute_single_transaction,
}
use p2p_auction.Blockchain.Execute.Laws.{execute-eq-ok, execute_or_unchanged}

-- The account of the sender holds the nonce that follows the transaction's.
pub record NonceUsed (t : Transaction) (accounts accounts' : HashMap Account) : Type 0 where
  pub account : Account
  pub now : HashMap.get accounts' t.from ≡ some account
  pub raised : account.nonce ≡ next_nonce t.nonce
  pub others : (k : String) → t.from ≢ k → HashMap.get accounts' k ≡ HashMap.get accounts k

abbrev pub raise_nonce : Transaction → Account → Blockchain → Blockchain
raise_nonce t a c = record c {
  accounts = HashMap.insert c.accounts t.from (record a { nonce = next_nonce a.nonce });
}

use_nonce-eq-ok :
    (t : Transaction) (c : Blockchain)
    → (use_nonce t c).0 ≡ ok tt
    → (a : Account) × (HashMap.get c.accounts t.from ≡ some a)
      × (t.nonce ≡ a.nonce)
      × (use_nonce t c ≡ (ok tt, raise_nonce t a c))
unfolding use_nonce
use_nonce-eq-ok t c e = elim (Option-cases (HashMap.get c.accounts t.from)) [
  | inl f ↦ let no : (use_nonce t c).0 ≡ err (message "Unknown account.") = rw (f, use_nonce) in cc
  | inr (a, f) ↦ elim (Bool-cases (nat_eq t.nonce a.nonce)) [
    | inl g ↦ (a, f, (nat_eq_iff t.nonce a.nonce).0 g, rw (f, use_nonce, g))
    | inr g ↦
        let no : (use_nonce t c).0 ≡ err (message "Invalid nonce.") = rw (f, use_nonce, g) in cc
  ]
]

raise_nonce-NonceUsed :
    (t : Transaction) (a : Account) (c : Blockchain)
    → t.nonce ≡ a.nonce
    → NonceUsed t c.accounts (raise_nonce t a c).accounts
raise_nonce-NonceUsed t a c e = record {
  account = record a { nonce = next_nonce a.nonce };
  now = rw (
    get-insert c.accounts t.from (record a { nonce = next_nonce a.nonce }) t.from,
    eq_self t.from,
  );
  raised = ap next_nonce (sym e);
  others = λ k n.
      rw (get-insert c.accounts t.from (record a { nonce = next_nonce a.nonce }) k)
        (ground (arith, eq_iff t.from k));
}

create_account-eq-ok :
    (public_key : String) (c : Blockchain)
    → (create_account public_key c).0 ≡ ok tt
    → (HashMap.contains_key c.accounts public_key ≡ false)
      × ((create_account public_key c).1 ≡ record c {
        accounts =
            HashMap.insert c.accounts public_key (record { public_key = public_key; nonce = 1 });
      })
unfolding create_account
create_account-eq-ok public_key c e = ground arith

pub use_nonce-modify :
    (t : Transaction) (f : Blockchain → Blockchain) (c : Blockchain)
    → ((use_nonce t >> modify f) c).0 ≡ ok tt
    → (a : Account) × (t.nonce ≡ a.nonce)
      × ((use_nonce t >> modify f) c ≡ (ok tt, f (raise_nonce t a c)))
use_nonce-modify t f c e = split (use_nonce t c) refl e
  where
    split :
        (r : Result (Unit {0}) × Blockchain)
        → use_nonce t c ≡ r
        → (proceed r.0 (λ _. modify f) r.1).0 ≡ ok tt
        → (a : Account) × (t.nonce ≡ a.nonce)
          × ((use_nonce t >> modify f) c ≡ (ok tt, f (raise_nonce t a c)))
    split (ok tt, c') p e =
        let (a, g, n, s) = use_nonce-eq-ok t c (ap (λ x. x.0) p) in
        (a, n, ap (λ x. proceed x.0 (λ _. modify f) x.1) s)
    split (err x, c') p e = cc
    split (panic x, c') p e = cc

execute_record-NonceUsed :
    (d : Data) (t : Transaction) (h : String) (c : Blockchain)
    → (execute_record d t h c).0 ≡ ok tt
    → NonceUsed t c.accounts (execute_record d t h c).1.accounts
unfolding execute_record create_auction remove_auction
execute_record-NonceUsed (create_user_account public_key) t h c e =
    from (Bool-cases (t.from == public_key)) (Bool-cases (nat_eq t.nonce 0))
  where
    from :
        (((t.from == public_key) ≡ true) ⊎ ((t.from == public_key) ≡ false))
        → ((nat_eq t.nonce 0 ≡ true) ⊎ (nat_eq t.nonce 0 ≡ false))
        → NonceUsed t c.accounts (execute_record (create_user_account public_key) t h c).1.accounts
    from (inl p) (inl q) =
        let (fresh, made) = create_account-eq-ok public_key c (rw (p, q) at e) in
        rw (p, q, made)
          (record {
            account = record { public_key = public_key; nonce = 1 };
            now =
                rw (get-insert c.accounts public_key _ t.from)
                  (ground (arith, eq_iff t.from public_key, eq_iff public_key t.from));
            raised = ground arith;
            others = λ k n.
                rw (get-insert c.accounts public_key _ k)
                  (ground (arith, eq_iff public_key k, eq_iff t.from public_key));
          })
    from (inr p) q = cc (rw p at e)
    from (inl p) (inr q) = cc (rw (p, q) at e)
execute_record-NonceUsed (bid a m) t h c e =
    let (a, f, g, s) = use_nonce-eq-ok t c e in rw s (raise_nonce-NonceUsed t a c g)
execute_record-NonceUsed (create_auction_data a m s) t h c e =
    let (b, n, q) = use_nonce-modify t (create_auction a h s) c e in
    rw q (raise_nonce-NonceUsed t b c n)
execute_record-NonceUsed (stop_auction a) t h c e =
    elim (Bool-cases (stops_early t (get_auction c a))) [
      | inl early ↦ cc (rw early at e)
      | inr late ↦
          let (b, n, q) = use_nonce-modify t (remove_auction a) c (rw late at e) in
          rw (late, q) (raise_nonce-NonceUsed t b c n)
    ]

module _ ⦃env : Env⦄ where
  -- A transaction that is executed uses up its nonce: afterwards the account of its sender is there,
  -- with the nonce that follows the transaction's (modulo 2 ^ 32), and no other account has changed.
  pub execute-NonceUsed :
      (t : Transaction) (h : String) (c : Blockchain)
      → (execute_single_transaction t h c).0 ≡ ok tt
      → NonceUsed t c.accounts (execute_single_transaction t h c).1.accounts
  execute-NonceUsed t h c e =
      let (v, s) = execute-eq-ok t h c e in
      rw s (execute_record-NonceUsed t.payload t h c (ap (λ x. x.0) (sym s) ∙ e))

next_nonce-ne : (n : ℕ) → next_nonce n ≢ n
next_nonce-ne n = omega arith

-- With another nonce in the account of the sender, a record is refused.
execute_record-stale :
    (d : Data) (t : Transaction) (h : String) (c : Blockchain) {a : Account}
    → HashMap.get c.accounts t.from ≡ some a
    → a.nonce ≢ t.nonce
    → (execute_record d t h c).0 ≢ ok tt
unfolding execute_record use_nonce create_account
execute_record-stale (create_user_account public_key) t h c f n =
    ground (arith, contains_key-get c.accounts public_key, eq_iff t.from public_key)
execute_record-stale (bid b m) t h c f n = ground arith
execute_record-stale (create_auction_data b m s) t h c f n = ground arith
execute_record-stale (stop_auction b) t h c f n = ground arith

module _ ⦃env : Env⦄ where
  -- After a transaction was executed, no transaction of the same sender with the same nonce is executed by any
  -- later chain where the account of the sender is as it was right after: it fails and changes nothing.
  pub same_nonce_refused :
      (t u : Transaction) (h h' : String) (c later : Blockchain)
      → (execute_single_transaction t h c).0 ≡ ok tt
      → u.from ≡ t.from
      → u.nonce ≡ t.nonce
      → HashMap.get later.accounts t.from
        ≡ HashMap.get (execute_single_transaction t h c).1.accounts t.from
      → ((execute_single_transaction u h' later).0 ≢ ok tt)
        × ((execute_single_transaction u h' later).1 ≡ later)
  same_nonce_refused t u h h' c later e from nonce same =
      let used = execute-NonceUsed t h c e in
      let stale =
        execute_record-stale u.payload u h' later {a = used.account}
          (ap (HashMap.get later.accounts) from ∙ same ∙ used.now)
          (λ q. next_nonce-ne t.nonce (sym used.raised ∙ q ∙ nonce)) in
      let refused = λ (p : (execute_single_transaction u h' later).0 ≡ ok tt).
        let (v, s) = execute-eq-ok u h' later p in stale (ap (λ x. x.0) (sym s) ∙ p) in
      (refused, elim (execute_or_unchanged u h' later) [ inl p ↦ absurd (refused p) | inr w ↦ w ])

  -- A transaction that was executed is not executed again, in whichever block it stands, by any later
  -- chain where the account of its sender is as it was right after: it fails and changes nothing.
  pub executes_once :
      (t : Transaction) (h h' : String) (c later : Blockchain)
      → (execute_single_transaction t h c).0 ≡ ok tt
      → HashMap.get later.accounts t.from
        ≡ HashMap.get (execute_single_transaction t h c).1.accounts t.from
      → ((execute_single_transaction t h' later).0 ≢ ok tt)
        × ((execute_single_transaction t h' later).1 ≡ later)
  executes_once t h h' c later e same = same_nonce_refused t t h h' c later e refl refl same
