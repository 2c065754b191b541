-- ===== src/Vm/Stops/Round.antt =====
-- What a round of the task of src/vm.rs that stops auctions puts into the pool, and how much of it can take
-- effect.
use mathlib.Core.Path.{subst}
use p2p_auction.Prelude.{
  ℕ, suc, ◌≤◌, String, leb, ◌≡◌, ◌≢◌, refl, sym, ap, ◌∙◌, ◌⊎◌, inl, inr, Option, none, some, [],
  ◌∷◌, if◌then◌else◌, arith, Bool-cases,
}
use p2p_auction.Prelude.Result.{Result, ok, err, panic}
use p2p_auction.Env.{Env, IsLawful}
use p2p_auction.HashMap
use p2p_auction.HashMap.{HashMap}
use p2p_auction.Transaction.{Transaction}
use p2p_auction.Pool
use p2p_auction.Pool.{TransactionPool, evicted, oldest, make_room}
use p2p_auction.Blockchain.{Blockchain, Account, get_account}
use p2p_auction.Blockchain.Execute.{execute_single_transaction}
use p2p_auction.Blockchain.Execute.Nonce.{same_nonce_refused}
use p2p_auction.Vm.{stop_transaction, push_pending, stop_one, stop_all, stop_round}
use p2p_auction.Vm.Stops.{Expired, IsStop, stop_one-adds}

module _ ⦃env : Env⦄ (keys : env.Keypair) where
  stop_one-frame :
      (id : String) (now : Result ℕ) (c : Blockchain)
      → stop_one keys id now c
        ≡ record c { transaction_pool = (stop_one keys id now c).transaction_pool }
  unfolding stop_one
  stop_one-frame id now c = split (stop_transaction keys id now c)
    where
      split :
          (o : Option Transaction)
          → push_pending o c ≡ record c { transaction_pool = (push_pending o c).transaction_pool }
      split none = unfold push_pending in refl
      split (some t) = unfold push_pending in refl

  IsStop-kept :
      (time : ℕ) (auctions : HashMap (String × ℕ)) (c : Blockchain) (p : TransactionPool)
      (t : Transaction)
      → IsStop keys time auctions (record c { transaction_pool = p }) t
      → IsStop keys time auctions c t
  IsStop-kept time auctions c p t s = record {
    id = s.id;
    account = s.account;
    stops = s.stops;
    expired = s.expired;
    owned = unfold get_account in s.owned;
    signed = s.signed;
    from = s.from;
    nonce = s.nonce;
  }

  -- One auction, whether it has expired or not.
  abbrev visited : ℕ → String → ℕ → Result ℕ → Blockchain → Blockchain
  visited time id stop_time now c = if leb stop_time time then stop_one keys id now c else c

  visited-frame :
      (time : ℕ) (id : String) (stop_time : ℕ) (now : Result ℕ) (c : Blockchain)
      → visited time id stop_time now c
        ≡ record c { transaction_pool = (visited time id stop_time now c).transaction_pool }
  visited-frame time id stop_time now c = elim (Bool-cases (leb stop_time time)) [
    | inl late ↦ rw late (stop_one-frame id now c)
    | inr early ↦ rw early refl
  ]

  same_owner :
      (time time' : ℕ) (c : Blockchain) (t u : Transaction)
      → IsStop keys time c.auctions c t
      → IsStop keys time' c.auctions c u
      → (u.from ≡ t.from) × (u.nonce ≡ t.nonce)
  same_owner time time' c t u a b =
      let same : b.account ≡ a.account = cc (a.owned, b.owned) in
      (b.from ∙ sym a.from, b.nonce ∙ ap (λ (x : Account). x.nonce) same ∙ sym a.nonce)

module _ ⦃env : Env⦄ (laws : IsLawful env) (keys : env.Keypair) where
  visited-adds :
      (time : ℕ) (auctions : HashMap (String × ℕ)) (id : String) (stop_time : ℕ) (now : Result ℕ)
      (c : Blockchain) (k : String) (t : Transaction)
      → (stop_time ≤ time → Expired auctions time id)
      → HashMap.get (visited keys time id stop_time now c).transaction_pool k ≡ some t
      → (HashMap.get c.transaction_pool k ≡ some t) ⊎ IsStop keys time auctions c t
  visited-adds time auctions id stop_time now c k t expired =
      elim (Bool-cases (leb stop_time time)) [
        | inl late ↦
            rw late (stop_one-adds laws keys time auctions id now c k t (expired (ground arith)))
        | inr early ↦ rw early (λ e. inl e)
      ]

  stop_all-adds :
      (time : ℕ) (clock : ℕ → Result ℕ) (auctions rest : HashMap (String × ℕ)) (c : Blockchain)
      (k : String) (t : Transaction)
      → ((id : String) → Expired rest time id → Expired auctions time id)
      → HashMap.get (stop_all keys time clock rest c).transaction_pool k ≡ some t
      → (HashMap.get c.transaction_pool k ≡ some t) ⊎ IsStop keys time auctions c t
  unfolding stop_all
  stop_all-adds time clock auctions [] c k t within e = inl e
  stop_all-adds time clock auctions ((id, (block_id, stop_time)) ∷ rest) c k t within e =
      let c' = visited keys time id stop_time (clock 0) c in
      elim (stop_all-adds time (λ i. clock (suc i)) auctions rest c' k t (λ j x. within j (inr x))
        e) [
          | inr new ↦ inr (
              IsStop-kept keys time auctions c c'.transaction_pool t (
                subst (λ (x : Blockchain). IsStop keys time auctions x t)
                  (visited-frame keys time id stop_time (clock 0) c) new))
          | inl old ↦
              visited-adds time auctions id stop_time (clock 0) c k t
                (λ late. within id (inl (refl, late))) old
        ]

  -- Given `IsLawful`, what a round of the task adds to the pool of a chain is a stop of an auction that has
  -- expired by the time of the round: it comes from the node, it verifies, and it bears the nonce of the
  -- account of the node.
  pub stop_round-adds :
      (now : Result ℕ) (clock : ℕ → Result ℕ) (c : Blockchain) (k : String) (t : Transaction)
      → HashMap.get (stop_round keys now clock c).transaction_pool k ≡ some t
      → (HashMap.get c.transaction_pool k ≡ some t)
        ⊎ ((time : ℕ) × (now ≡ ok time) × IsStop keys time c.auctions c t)
  unfolding stop_round
  stop_round-adds (ok time) clock c k t e =
      elim (stop_all-adds time clock c.auctions c.auctions c k t (λ id x. x) e) [
        | inl old ↦ inl old
        | inr new ↦ inr (time, refl, new)
      ]
  stop_round-adds (err x) clock c k t e = inl e
  stop_round-adds (panic x) clock c k t e = inl e

  -- Given `IsLawful`, of the stops that one round puts into an empty pool, whichever auctions they are of, at
  -- most one takes effect: after one was executed, no other is executed by a chain where the account of
  -- the node is as it was right after, and that chain is left unchanged.
  pub stops_share_nonce :
      (now : Result ℕ) (clock : ℕ → Result ℕ) (c : Blockchain) (k j : String) (t u : Transaction)
      (h h' : String) (at later : Blockchain)
      → c.transaction_pool ≡ Pool.new
      → HashMap.get (stop_round keys now clock c).transaction_pool k ≡ some t
      → HashMap.get (stop_round keys now clock c).transaction_pool j ≡ some u
      → (execute_single_transaction t h at).0 ≡ ok tt
      → HashMap.get later.accounts t.from
        ≡ HashMap.get (execute_single_transaction t h at).1.accounts t.from
      → ((execute_single_transaction u h' later).0 ≢ ok tt)
        × ((execute_single_transaction u h' later).1 ≡ later)
  stops_share_nonce now clock c k j t u h h' at later empty e f executed same =
      let (time, timed, a) = added k t e in
      let (time', timed', b) = added j u f in
      let (from, nonce) = same_owner keys time time' c t u a b in
      same_nonce_refused t u h h' at later executed from nonce same
    where
      added :
          (i : String) (x : Transaction)
          → HashMap.get (stop_round keys now clock c).transaction_pool i ≡ some x
          → (time : ℕ) × (now ≡ ok time) × IsStop keys time c.auctions c x
      added i x e = elim (stop_round-adds now clock c i x e) [
        | inl old ↦
            unfold HashMap.get in cc (ap (λ (p : TransactionPool). HashMap.get p i) empty, old)
        | inr new ↦ new
      ]
