-- ===== src/App/Tables/Tracked.antt =====
-- The entry of one auction in the tables of src/bin/app.rs, against the transactions on that auction alone.
use p2p_auction.Prelude.{
  ℕ, String, ◌==◌, eq_iff, ◌≡◌, refl, sym, ap, ◌∙◌, Bool, true, false, inl, inr, Option, none, some,
  List, [], ◌∷◌, arith, contains, contains-set_insert, Bool-cases, if◌then◌else◌,
}
use p2p_auction.Prelude.Result.{ok}
use p2p_auction.HashMap
use p2p_auction.HashMap.{HashMap}
use p2p_auction.HashMap.Laws.{get-insert}
use p2p_auction.Transaction.{
  Data, Transaction, Block, create_user_account, bid, create_auction, stop_auction,
}
use p2p_auction.State.Responses.{message_record, transaction_message, transaction_messages}
use p2p_auction.App.Walk.Chain.{fold_blocks}
use p2p_auction.App.Tables.{Table, add_bid, add_record, add_transactions}

module _ {E : Type 0} (created : String → ℕ → E) (counted : String → ℕ → E → E) (id : String) where
  -- The entry of the auction, if it was created, and whether a transaction has stopped it.
  abbrev pub Tracked : Type 0
  Tracked = Option E × Bool

  abbrev bid_on : String → ℕ → Tracked → Tracked
  bid_on from amount (some e, false) = (some (counted from amount e), false)
  bid_on from amount tracked = tracked

  -- One transaction: those on other auctions change nothing.
  abbrev pub track : String → Data → Tracked → Tracked
  track from (create_user_account key) s = s
  track from (stop_auction j) s = if j == id then (s.0, true) else s
  track from (create_auction j start stop_time) s =
      if j == id then (some (created from start), s.1) else s
  track from (bid j amount) s = if j == id then bid_on from amount s else s

  abbrev pub track_transactions : List Transaction → Tracked → Tracked
  track_transactions [] s = s
  track_transactions (t ∷ ts) s = track_transactions ts (track t.from t.payload s)

  abbrev pub track_blocks : List Block → Tracked → Tracked
  track_blocks [] s = s
  track_blocks (b ∷ bs) s = track_blocks bs (track_transactions b.transactions s)

  -- What a table holds of the auction.
  abbrev pub of_table : Table E → Tracked
  of_table t = (HashMap.get t.auctions id, contains t.ended id)

  -- A bid on this auction, and one on another.
  add_bid-here :
      (from : String) (amount : ℕ) (t : Table E)
      → of_table (
          if contains t.ended id
          then t
          else add_bid created counted from amount (HashMap.get t.auctions id) id t)
        ≡ bid_on from amount (of_table t)
  unfolding add_bid
  add_bid-here from amount t = split (HashMap.get t.auctions id) (contains t.ended id) refl refl
    where
      split :
          (o : Option E) (b : Bool)
          → HashMap.get t.auctions id ≡ o
          → contains t.ended id ≡ b
          → of_table (if b then t else add_bid created counted from amount o id t)
            ≡ bid_on from amount (o, b)
      split none true e f = cc (e, f)
      split none false e f = cc (e, f)
      split (some x) true e f = cc (e, f)
      split (some x) false e f =
          ground (arith, get-insert t.auctions id (counted from amount x) id, eq_iff id id)

  add_bid-elsewhere :
      (from j : String) (amount : ℕ) (t : Table E) (o : Option E)
      → (j == id) ≡ false
      → of_table (add_bid created counted from amount o j t) ≡ of_table t
  unfolding add_bid
  add_bid-elsewhere from j amount t none off = refl
  add_bid-elsewhere from j amount t (some x) off =
      ap (λ o. (o, contains t.ended id))
        (get-insert t.auctions j (counted from amount x) id
          ∙ ap (λ b. if b then some (counted from amount x) else HashMap.get t.auctions id) off)

  add_record-track :
      (from : String) (d : Data) (t : Table E)
      → of_table (add_record created counted from (some (message_record d)) t)
        ≡ track from d (of_table t)
  unfolding add_record message_record
  add_record-track from (create_user_account key) t = refl
  add_record-track from (stop_auction j) t = ground (arith, contains-set_insert t.ended j id)
  add_record-track from (create_auction j start stop_time) t =
      ground (arith, get-insert t.auctions j (created from start) id)
  add_record-track from (bid j amount) t = elim (Bool-cases (j == id)) [
    | inl hit ↦
        let same = (eq_iff j id).0 hit in
        ap
          (λ k. of_table (
            if contains t.ended k
            then t
            else add_bid created counted from amount (HashMap.get t.auctions k) k t))
          same
        ∙ add_bid-here from amount t
        ∙ ap (λ b. if b then bid_on from amount (of_table t) else of_table t) (sym hit)
    | inr miss ↦ elsewhere miss (contains t.ended j)
  ]
    where
      elsewhere :
          (j == id) ≡ false
          → (b : Bool)
          → of_table
              (if b then t else add_bid created counted from amount (HashMap.get t.auctions j) j t)
            ≡ (if j == id then bid_on from amount (of_table t) else of_table t)
      elsewhere miss true =
          ap (λ b. if b then bid_on from amount (of_table t) else of_table t) (sym miss)
      elsewhere miss false =
          add_bid-elsewhere from j amount t (HashMap.get t.auctions j) miss
          ∙ ap (λ b. if b then bid_on from amount (of_table t) else of_table t) (sym miss)

  add_transactions-track :
      (ts : List Transaction) (t : Table E)
      → of_table (add_transactions created counted t (transaction_messages ts))
        ≡ track_transactions ts (of_table t)
  unfolding add_transactions transaction_messages transaction_message
  add_transactions-track [] t = refl
  add_transactions-track (x ∷ ts) t =
      add_transactions-track ts
        (add_record created counted x.from (some (message_record x.payload)) t)
      ∙ ap (track_transactions ts) (add_record-track x.from x.payload t)

  -- The fold of a table over blocks, for one auction.
  pub fold_blocks-track :
      (bs : List Block) (t : Table E)
      → (t' : Table E) × (fold_blocks (λ u ms. ok (add_transactions created counted u ms)) t bs
          ≡ ok t')
        × (of_table t' ≡ track_blocks bs (of_table t))
  unfolding fold_blocks
  fold_blocks-track [] t = (t, refl, refl)
  fold_blocks-track (b ∷ bs) t =
      let (t', e, f) =
        fold_blocks-track bs
          (add_transactions created counted t (transaction_messages b.transactions)) in
      (t', e, f ∙ ap (track_blocks bs) (add_transactions-track b.transactions t))
