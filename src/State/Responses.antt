-- ===== src/State/Responses.antt =====
-- The messages of proto/node.proto that a response holds, and the conversions of src/blockchain.rs into
-- them.
use p2p_auction.Prelude.{ℕ, String, Option, some, List, [], ◌∷◌}
use p2p_auction.Transaction.{
  Data, Transaction, Block, create_user_account, bid, create_auction, stop_auction,
}
use p2p_auction.State.{
  Record, create_account_request, bid_request, create_auction_request, stop_auction_request,
}

-- The field `record` of the message is `payload` here; its `oneof` has the cases of a request's.
pub record TransactionMessage : Type 0 where
  pub id : String
  pub payload : Option Record
  pub from : String
  pub timestamp : ℕ
  pub nonce : ℕ
  pub signature : String

pub record BlockMessage : Type 0 where
  pub previous_hash : String
  pub transactions : List TransactionMessage
  pub merkle_root : String
  pub hash : String
  pub nonce : ℕ
  pub timestamp : ℕ
  pub miner : String

unfoldable pub message_record : Data → Record
message_record (bid auction_id amount) = bid_request auction_id amount
message_record (create_auction auction_id start_amount stop_time) =
    create_auction_request auction_id start_amount stop_time
message_record (create_user_account public_key) = create_account_request public_key
message_record (stop_auction auction_id) = stop_auction_request auction_id

unfoldable pub transaction_message : Transaction → TransactionMessage
unfolding message_record
transaction_message t = record {
  id = t.id;
  from = t.from;
  timestamp = t.timestamp;
  nonce = t.nonce;
  signature = t.signature;
  payload = some (message_record t.payload);
}

unfoldable pub transaction_messages : List Transaction → List TransactionMessage
unfolding transaction_message
transaction_messages [] = []
transaction_messages (t ∷ ts) = transaction_message t ∷ transaction_messages ts

unfoldable pub block_message : Block → BlockMessage
unfolding transaction_messages
block_message b = record {
  previous_hash = b.previous_hash;
  transactions = transaction_messages b.transactions;
  merkle_root = b.merkle_root;
  hash = b.hash;
  nonce = b.nonce;
  timestamp = b.timestamp;
  miner = b.miner;
}
