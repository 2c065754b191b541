-- ===== src/Blockchain/Execute/Auctions.antt =====
-- Auctions under the execution of a transaction: who opens and stops them.
use p2p_auction.Prelude.{
  ℕ, ◌≤◌, String, ◌==◌, eq_iff, ◌≡◌, sym, ap, ◌∙◌, ◌⊎◌, inl, inr, true, false, Option, none, some,
  List, [], ◌∷◌, arith, Bool-cases, if◌then◌else◌,
}
use p2p_auction.Prelude.Result.{ok, err, message}
use p2p_auction.Env.{Env}
use p2p_auction.HashMap
use p2p_auction.HashMap.{HashMap}
use p2p_auction.HashMap.Laws.{get-insert, get-remove}
use p2p_auction.Transaction.{
  Data, Transaction, Block, create_user_account, bid, create_auction as create_auction_data,
  stop_auction,
}
use p2p_auction.Blockchain.{
  Blockchain, create_account, create_auction, remove_auction, get_auction, find_creation,
  creation_in, creates,
}
use p2p_auction.Blockchain.Execute.{
  use_nonce, stops_early, execute_record, execute_single_transaction,
}
use p2p_auction.Blockchain.Execute.Laws.{execute-eq-ok}
use p2p_auction.Blockchain.Execute.Nonce.{use_nonce-modify}

-- What the execution of a record does to the entry of an auction.
abbrev pub auction_after : Data → String → Option (String × ℕ) → String → Option (String × ℕ)
auction_after (create_auction_data a m s) h before id = if a == id then some (h, s) else before
auction_after (stop_auction a) h before id = if a == id then none else before
auction_after _ h before id = before

use_nonce-auctions : (t : Transaction) (c : Blockchain) → (use_nonce t c).1.auctions ≡ c.auctions
unfolding use_nonce
use_nonce-auctions t c = ground arith

execute_record-auctions :
    (d : Data) (t : Transaction) (h : String) (c : Blockchain) (id : String)
    → (execute_record d t h c).0 ≡ ok tt
    → HashMap.get (execute_record d t h c).1.auctions id
      ≡ auction_after d h (HashMap.get c.auctions id) id
unfolding execute_record create_auction remove_auction create_account
execute_record-auctions (create_user_account public_key) t h c id e = ground arith
execute_record-auctions (bid a m) t h c id e = rw use_nonce-auctions
execute_record-auctions (create_auction_data a m s) t h c id e =
    let (b, n, q) = use_nonce-modify t (create_auction a h s) c e in
    rw q (get-insert c.auctions a (h, s) id)
execute_record-auctions (stop_auction a) t h c id e =
    elim (Bool-cases (stops_early t (get_auction c a))) [
      | inl early ↦ cc (rw early at e)
      | inr late ↦
          let (b, n, q) = use_nonce-modify t (remove_auction a) c (rw late at e) in
          rw (late, q) (get-remove c.auctions a id)
    ]

-- Of a chain whose auction was opened by `start`, a stop that is accepted came from its creator or at
-- the stop time at the earliest.
stops_early-eq-false :
    (t start : Transaction) {id : String} {m stop : ℕ}
    → start.payload ≡ create_auction_data id m stop
    → stops_early t (some start) ≡ false
    → (t.from ≡ start.from) ⊎ (stop ≤ t.timestamp)
unfolding stops_early
stops_early-eq-false t start e f = ground (arith, eq_iff t.from start.from)

-- The transaction opens the auction, with this stop time.
abbrev pub Opens : String → ℕ → Data → Type 0
Opens id stop d = (m : ℕ) × (d ≡ create_auction_data id m stop)

creates-eq-true : (id : String) (d : Data) → creates id d ≡ true → (stop : ℕ) × Opens id stop d
unfolding creates
creates-eq-true id (create_auction_data a m stop) h =
    (stop, (m, ap (λ x. create_auction_data x m stop) ((eq_iff a id).0 h)))
creates-eq-true id (create_user_account a) h = cc
creates-eq-true id (bid a m) h = cc
creates-eq-true id (stop_auction a) h = cc

find_creation-eq-some :
    (id : String) (ts : List Transaction) {t : Transaction}
    → find_creation id ts ≡ some t
    → (stop : ℕ) × Opens id stop t.payload
unfolding find_creation
find_creation-eq-some id [] e = cc
find_creation-eq-some id (u ∷ us) {t = t} e = elim (Bool-cases (creates id u.payload)) [
  | inr f ↦ find_creation-eq-some id us {t = t} (rw f at e)
  | inl f ↦
      let same : u ≡ t = cc (rw f at e) in
      let (stop, (m, p)) = creates-eq-true id u.payload f in
      (stop, (m, ap (λ (x : Transaction). x.payload) (sym same) ∙ p))
]

get_auction-eq-some :
    (c : Blockchain) (id : String) {start : Transaction}
    → get_auction c id ≡ some start
    → (stop : ℕ) × Opens id stop start.payload
unfolding get_auction
get_auction-eq-some c id {start = start} e = from (HashMap.get c.auctions id) e
  where
    open_in :
        (o : Option Block)
        → creation_in id o ≡ some start
        → (stop : ℕ) × Opens id stop start.payload
    open_in none f = cc
    open_in (some b) f = find_creation-eq-some id b.transactions {t = start} f

    from :
        (o : Option (String × ℕ))
        → (elim o [
          | none ↦ none
          | some (block_id, stop_time) ↦ creation_in id (HashMap.get c.blocks block_id)
        ])
          ≡ some start
        → (stop : ℕ) × Opens id stop start.payload
    from none f = cc
    from (some (block_id, stop_time)) f = open_in (HashMap.get c.blocks block_id) f

execute_record-early :
    (t : Transaction) (h id : String) (c : Blockchain)
    → stops_early t (get_auction c id) ≡ true
    → (execute_record (stop_auction id) t h c).0
      ≡ err (message "Only the creator can end the auction early.")
unfolding execute_record
execute_record-early t h id c early = rw early

module _ ⦃env : Env⦄ where
  -- What an executed transaction does to the auctions: one that creates an auction enters it under
  -- its id, with the block and the stop time, one that stops an auction takes it out, and the two
  -- other kinds change no auction; no transaction changes the entry of another id.
  pub execute-auctions :
      (t : Transaction) (h : String) (c : Blockchain) (id : String)
      → (execute_single_transaction t h c).0 ≡ ok tt
      → HashMap.get (execute_single_transaction t h c).1.auctions id
        ≡ auction_after t.payload h (HashMap.get c.auctions id) id
  execute-auctions t h c id e =
      let (v, s) = execute-eq-ok t h c e in
      rw s (execute_record-auctions t.payload t h c id (ap (λ x. x.0) (sym s) ∙ e))

  -- Where a stop of an auction is executed and the chain finds the transaction that created the auction,
  -- that transaction states a stop time, and the stop comes from its sender or bears a timestamp that is
  -- not before this stop time.
  pub stop_only_by_creator :
      (t start : Transaction) (h id : String) (c : Blockchain)
      → t.payload ≡ stop_auction id
      → get_auction c id ≡ some start
      → (execute_single_transaction t h c).0 ≡ ok tt
      → (stop : ℕ) × Opens id stop start.payload × ((t.from ≡ start.from) ⊎ (stop ≤ t.timestamp))
  stop_only_by_creator t start h id c p found e =
      let (v, s) = execute-eq-ok t h c e in
      let (stop, (m, q)) = get_auction-eq-some c id {start = start} found in
      (
        stop,
        (m, q),
        elim (Bool-cases (stops_early t (some start))) [
          | inr late ↦ stops_early-eq-false t start q late
          | inl early ↦
              let refused = execute_record-early t h id c (ap (stops_early t) found ∙ early) in
              let same = ap (λ d. (execute_record d t h c).0) (sym p) in
              cc (refused, same, ap (λ x. x.0) s)
        ],
      )
