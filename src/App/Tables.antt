-- ===== src/App/Tables.antt =====
-- src/bin/app.rs: what the tables of auctions and of bids gather from the blocks of a node. Each table has its
-- own entry for an auction, which begins with the creation of the auction and changes with a bid.
pub mod Tracked
pub mod Chain
use p2p_auction.Prelude.{
  ℕ, String, Option, none, some, List, [], ◌∷◌, contains, set_insert, if◌then◌else◌,
}
use p2p_auction.Prelude.Result.{Result, ok, err, panic}
use p2p_auction.HashMap
use p2p_auction.HashMap.{HashMap}
use p2p_auction.State.{
  Record, create_account_request, bid_request, create_auction_request, stop_auction_request,
}
use p2p_auction.State.Responses.{TransactionMessage}
use p2p_auction.App.{Client}
use p2p_auction.App.Walk.{walk}

-- The entries by auction, and the auctions that a transaction has stopped.
pub record Table (E : Type 0) : Type 0 where
  pub auctions : HashMap E
  pub ended : List String

abbrev pub nothing : {E : Type 0} → Table E
nothing = record { auctions = []; ended = [] }

module _ {E : Type 0} (created : String → ℕ → E) (counted : String → ℕ → E → E) where
  -- A bid on an auction that was created, and not stopped before.
  unfoldable pub add_bid : String → ℕ → Option E → String → Table E → Table E
  add_bid from amount none id t = t
  add_bid from amount (some e) id t = record t {
    auctions = HashMap.insert (t.auctions) id (counted from amount e);
  }

  unfoldable pub add_record : String → Option Record → Table E → Table E
  unfolding add_bid
  add_record from none t = t
  add_record from (some (stop_auction_request id)) t = record t { ended = set_insert (t.ended) id }
  add_record from (some (create_auction_request id start_amount stop_time)) t = record t {
    auctions = HashMap.insert (t.auctions) id (created from start_amount);
  }
  add_record from (some (bid_request id amount)) t =
      if contains t.ended id then t else add_bid from amount (HashMap.get t.auctions id) id t
  add_record from (some (create_account_request key)) t = t

  unfoldable pub add_transactions : Table E → List TransactionMessage → Table E
  unfolding add_record
  add_transactions t [] = t
  add_transactions t (m ∷ ms) = add_transactions (add_record m.from m.payload t) ms

  -- The loop over the blocks: it ends where the node fails to answer.
  unfoldable pub gather : ℕ → Client → String → Table E → Result (Table E)
  unfolding add_transactions walk
  gather fuel client = walk ok (λ t ms. ok (add_transactions t ms)) fuel client

  -- What is gathered from the first block on, or what the popup is to say.
  unfoldable pub table : ℕ → Option Client → Result (Table E × Option String)
  unfolding gather
  table fuel none = ok (nothing, some "Couldn't connect to the node.")
  table fuel (some client) = elim client.first_block_hash [
    | ok (some hash) ↦ elim (gather fuel client hash nothing) [
      | ok t ↦ ok (t, none)
      | err e ↦ err e
      | panic p ↦ panic p
    ]
    | ok none ↦ ok (nothing, some "There aren't auctions available.")
    | err e ↦ ok (nothing, some "Couldn't connect to the node.")
    | panic p ↦ panic p
  ]
