-- ===== src/Vm/Stops.antt =====
-- What the task of src/vm.rs that stops auctions puts into the pool.
pub mod Round
use mathlib.Core.Path.{subst}
use p2p_auction.Prelude.{
  ℕ, suc, ◌≤◌, String, ◌==◌, eq_iff, leb, ◌≡◌, ◌≢◌, refl, sym, ap, ◌∙◌, ◌⊎◌, inl, inr, Bool, true,
  false, Option, none, some, List, [], ◌∷◌, if◌then◌else◌, arith, Bool-cases, Option-cases,
}
use p2p_auction.Prelude.Result.{Result, ok, err, panic, ok-inj}
use p2p_auction.Env.{Env, IsLawful}
use p2p_auction.HashMap
use p2p_auction.HashMap.{HashMap}
use p2p_auction.HashMap.Laws.{get-insert, get-remove}
use p2p_auction.Transaction.{Data, Transaction, stop_auction}
use p2p_auction.Transaction.Signing
use p2p_auction.Transaction.Signing.Laws.{verify-sign, sign-eq-ok}
use p2p_auction.Pool
use p2p_auction.Pool.{TransactionPool, evicted, oldest, make_room}
use p2p_auction.Blockchain.{Blockchain, Account, get_account}
use p2p_auction.Blockchain.Execute.{execute_single_transaction}
use p2p_auction.Blockchain.Execute.Nonce.{same_nonce_refused}
use p2p_auction.Vm.{public_text, stop_transaction, push_pending, stop_one, stop_all, stop_round}

-- The auction is among these, with a stop time that is not after the given one.
abbrev pub Expired : HashMap (String × ℕ) → ℕ → String → Type 0
Expired [] time id = ⊥
Expired ((k, (block_id, stop_time)) ∷ auctions) time id =
    ((k ≡ id) × (stop_time ≤ time)) ⊎ Expired auctions time id

evicted-get :
    (pool : TransactionPool) (k : String) (t : Transaction)
    → HashMap.get (evicted pool) k ≡ some t
    → HashMap.get pool k ≡ some t
unfolding evicted
evicted-get pool k t e = split (oldest (HashMap.values pool)) e
  where
    split :
        (o : Option Transaction)
        → HashMap.get
            (elim o as (λ _. TransactionPool) [ none ↦ pool | some u ↦ HashMap.remove pool u.id ])
            k
          ≡ some t
        → HashMap.get pool k ≡ some t
    split none f = f
    split (some u) f = ground (arith, get-remove pool u.id k)

-- What is in the pool after an insertion is new or was there.
add_transaction-get :
    (pool : TransactionPool) (u : Transaction) (k : String) (t : Transaction)
    → HashMap.get (Pool.add_transaction pool u) k ≡ some t
    → (u ≡ t) ⊎ (HashMap.get pool k ≡ some t)
unfolding Pool.add_transaction make_room
add_transaction-get pool u k t e =
    ground (arith, get-insert (make_room pool) u.id u k, evicted-get pool k t)

module _ ⦃env : Env⦄ (keys : env.Keypair) where
  -- A stop of an auction that has expired, signed by the node, with the nonce of its account.
  pub record IsStop (time : ℕ) (auctions : HashMap (String × ℕ)) (c : Blockchain) (t : Transaction)
      : Type 0 where
    pub id : String
    pub account : Account
    pub stops : t.payload ≡ stop_auction id
    pub expired : Expired auctions time id
    pub owned : get_account c (public_text keys) ≡ some account
    pub signed : Signing.verify t ≡ ok tt
    pub from : t.from ≡ public_text keys
    pub nonce : t.nonce ≡ account.nonce

module _ ⦃env : Env⦄ (laws : IsLawful env) (keys : env.Keypair) where
  signed_lem :
      (id : String) (n : ℕ) (now : Result ℕ) (t : Transaction)
      → Signing.sign (stop_auction id) (public_text keys) n keys now ≡ ok t
      → (Signing.verify t ≡ ok tt)
        × (t.payload ≡ stop_auction id)
        × (t.from ≡ public_text keys)
        × (t.nonce ≡ n)
  signed_lem id n now t e =
      let (m, timed, p, q, r) = sign-eq-ok (stop_auction id) (public_text keys) n keys now e in
      let (u, made, good, payload, from, nonce, timestamp) =
        verify-sign laws (stop_auction id) n m keys in
      let same : u ≡ t = ok-inj (
        sym made ∙ ap (Signing.sign (stop_auction id) (public_text keys) n keys) (sym timed) ∙ e) in
      subst
        (λ (x : Transaction).
          (Signing.verify x ≡ ok tt)
          × (x.payload ≡ stop_auction id)
          × (x.from ≡ public_text keys)
          × (x.nonce ≡ n))
        same (good, payload, from, nonce)

  stop_transaction-IsStop :
      (time : ℕ) (auctions : HashMap (String × ℕ)) (id : String) (now : Result ℕ) (c : Blockchain)
      (t : Transaction)
      → Expired auctions time id
      → stop_transaction keys id now c ≡ some t
      → IsStop keys time auctions c t
  unfolding stop_transaction
  stop_transaction-IsStop time auctions id now c t expired e =
      elim (Option-cases (get_account c (public_text keys))) [
        | inl missing ↦ absurd (ground arith)
        | inr (account, owned) ↦
            let made : Signing.sign (stop_auction id) (public_text keys) account.nonce keys now
                ≡ ok t =
              ground arith in
            let (good, payload, from, nonce) = signed_lem id account.nonce now t made in
            record {
              id = id;
              account = account;
              stops = payload;
              expired = expired;
              owned = owned;
              signed = good;
              from = from;
              nonce = nonce;
            }
      ]

  -- What one auction of the loop adds.
  pub stop_one-adds :
      (time : ℕ) (auctions : HashMap (String × ℕ)) (id : String) (now : Result ℕ) (c : Blockchain)
      (k : String) (t : Transaction)
      → Expired auctions time id
      → HashMap.get (stop_one keys id now c).transaction_pool k ≡ some t
      → (HashMap.get c.transaction_pool k ≡ some t) ⊎ IsStop keys time auctions c t
  unfolding stop_one
  stop_one-adds time auctions id now c k t expired = split (stop_transaction keys id now c) refl
    where
      split :
          (o : Option Transaction)
          → stop_transaction keys id now c ≡ o
          → HashMap.get (push_pending o c).transaction_pool k ≡ some t
          → (HashMap.get c.transaction_pool k ≡ some t) ⊎ IsStop keys time auctions c t
      split none made e = inl (unfold push_pending in e)
      split (some u) made e =
          elim (add_transaction-get c.transaction_pool u k t (unfold push_pending in e)) [
            | inr old ↦ inl old
            | inl new ↦
                inr (stop_transaction-IsStop time auctions id now c t expired (made ∙ ap some new))
          ]
