-- ===== src/State.antt =====
-- src/state.rs, `struct State` and the handlers of `NodeRpcService`, and the conversions of
-- src/blockchain.rs into the messages of proto/node.proto. An `Instant` is a number of milliseconds.
pub mod Messages
pub mod Responses
pub mod Limit
pub mod Auctions
pub mod Walk
use p2p_auction.Prelude.{
  ℕ, ◌-◌, String, ◌==◌, ltb, leb, Bool, true, false, Option, none, some, List, [], ◌∷◌,
  if◌then◌else◌, get_elem?,
}
use p2p_auction.Prelude.Result.{Result, ok, err, panic}
use p2p_auction.Env.{Env}
use p2p_auction.HashMap
use p2p_auction.HashMap.{HashMap}
use p2p_auction.Transaction.{
  Data, Transaction, Block, create_user_account, bid, create_auction, stop_auction,
}
use p2p_auction.Transaction.Signing
use p2p_auction.Blockchain
use p2p_auction.Blockchain.{
  Blockchain, Notifier, Ledger, Account, execute_after_n_blocks, confirmed, find_creation,
  get_account,
}
use p2p_auction.Blockchain.Mempool

-- `oneof record` of a request.
pub data Record : Type 0 where
  create_account_request : (public_key : String) → Record
  bid_request : (auction_id : String) (amount : ℕ) → Record
  create_auction_request : (auction_id : String) (start_amount stop_time : ℕ) → Record
  stop_auction_request : (auction_id : String) → Record

-- The field `record` of the message is `payload` here.
pub record TransactionRequest : Type 0 where
  pub payload : Option Record
  pub signature : String
  pub from : String
  pub nonce : ℕ

unfoldable pub record_of : Data → Record
record_of (create_user_account public_key) = create_account_request public_key
record_of (bid auction_id amount) = bid_request auction_id amount
record_of (create_auction auction_id start_amount stop_time) =
    create_auction_request auction_id start_amount stop_time
record_of (stop_auction auction_id) = stop_auction_request auction_id

unfoldable pub request_of : Transaction → TransactionRequest
unfolding record_of
request_of t = record {
  payload = some (record_of t.payload);
  signature = t.signature;
  from = t.from;
  nonce = t.nonce;
}

-- The match on the record in the handler of a transaction.
unfoldable pub data_of : Record → Data
data_of (create_account_request public_key) = create_user_account public_key
data_of (bid_request auction_id amount) = bid auction_id amount
data_of (create_auction_request auction_id start_amount stop_time) =
    create_auction auction_id start_amount stop_time
data_of (stop_auction_request auction_id) = stop_auction auction_id

-- `MIN_TX_INTERVAL`.
abbrev pub min_tx_interval : ℕ
min_tx_interval = 1000

pub record State : Type 0 where
  pub blockchain : Blockchain
  pub received_blocks : HashMap Block
  pub notifiers : HashMap Notifier
  pub last_tx_per_sender : HashMap ℕ
  pub last_block_accepted : Option ℕ

-- `u32::MAX`.
abbrev pub init : State
init = record {
  blockchain = Blockchain.new 4294967295;
  received_blocks = [];
  notifiers = [];
  last_tx_per_sender = [];
  last_block_accepted = none;
}

-- `if now.duration_since(*last) < MIN_TX_INTERVAL`, which is zero where the clock went back.
unfoldable pub too_early : State → String → ℕ → Bool
too_early s from now = elim (HashMap.get s.last_tx_per_sender from) [
  | none ↦ false
  | some last ↦ ltb (now - last) min_tx_interval
]

-- The first section under the lock: none where the sender is too early.
unfoldable pub limit : String → ℕ → State → Option State
unfolding too_early
limit from now s =
    if too_early s from now
    then none
    else some (record s { last_tx_per_sender = HashMap.insert s.last_tx_per_sender from now })

-- The second section: a notifier of its own for the transaction.
unfoldable pub register : String → State → State
register id s = record s {
  notifiers = HashMap.insert s.notifiers id (record { permit = false; executed = false });
}

-- What a call of the handler has come to: a response with its status, or the wait for the notifier.
pub data Reply : Type 0 where
  status : ℕ → Reply
  waits : (id : String) → Reply

module _ ⦃env : Env⦄ where
  -- The transaction that a request stands for, made at a reading of the clock.
  unfoldable pub transaction_of : TransactionRequest → Record → Result ℕ → Result Transaction
  unfolding data_of
  transaction_of t record_in now = Signing.new (data_of record_in) t.from t.nonce t.signature now

  -- The third section, and where it fails the response.
  unfoldable pub submit : Transaction → State → Reply × State
  submit t s =
      let (r, chain) = Mempool.add_transaction t s.blockchain in
      (elim r [ ok _ ↦ waits t.id | _ ↦ status 1 ], record s { blockchain = chain })

  -- The handler after the transaction is made.
  unfoldable pub handle : Transaction → ℕ → State → Reply × State
  unfolding limit register submit
  handle t instant s = elim (limit t.from instant s) [
    | none ↦ (status 1, s)
    | some s' ↦ submit t (register t.id s')
  ]

  -- `transaction`, up to its wait for the notifier.
  unfoldable pub transaction : TransactionRequest → Result ℕ → ℕ → State → Reply × State
  unfolding transaction_of handle
  transaction t now instant s = elim t.payload [
    | none ↦ (status 1, s)
    | some record_in ↦ elim (transaction_of t record_in now) [
      | ok made ↦ handle made instant s
      | _ ↦ (status 1, s)
    ]
  ]

-- What is left of `transaction` once its notifier has a permit.
unfoldable pub finish : String → Notifier → State → Reply × State
finish id notify s = (
  status (if notify.executed then 0 else 1),
  record s { notifiers = HashMap.remove s.notifiers id },
)

-- `first_block_hash`, for fewer than 2 ^ 31 executed blocks.
unfoldable pub first_block_hash : State → Option String
first_block_hash s =
    if leb execute_after_n_blocks s.blockchain.commited_pointer
    then get_elem? s.blockchain.longest_chain 0
    else none

-- The known blocks under the hashes, in order.
unfoldable pub blocks_of : HashMap Block → List String → List Block
blocks_of blocks [] = []
blocks_of blocks (h ∷ hs) =
    let rest = blocks_of blocks hs in
    elim (HashMap.get blocks h) [ none ↦ rest | some b ↦ b ∷ rest ]

abbrev pub is_some {ℓ} : {A : Type ℓ} → Option A → Bool
is_some none = false
is_some (some a) = true

unfoldable pub find_block : String → List Block → Option Block
find_block auction_id [] = none
find_block auction_id (b ∷ bs) =
    if is_some (find_creation auction_id b.transactions) then some b else find_block auction_id bs

-- `auction_exists`: the hash of the block that creates the auction.
unfoldable pub auction_exists : String → State → Option String
unfolding blocks_of find_block
auction_exists auction_id s =
    elim (find_block auction_id (blocks_of s.blockchain.blocks (confirmed s.blockchain))) [
      | none ↦ none
      | some b ↦ some b.hash
    ]

-- `block_info`: the block, and the hash of the next.
unfoldable pub block_info : String → State → Option (Block × Option String)
block_info hash s = elim (Blockchain.get_block_from_hash s.blockchain hash) [
  | none ↦ none
  | some block ↦ some (block, Blockchain.get_next_block_hash_from_hash s.blockchain block.hash)
]

-- `account_exists`: the status, and the nonce.
unfoldable pub account_exists : Option String → State → ℕ × Option ℕ
account_exists none s = (1, none)
account_exists (some public_key) s = elim (get_account s.blockchain public_key) [
  | none ↦ (0, none)
  | some account ↦ (0, some account.nonce)
]
