-- ===== src/Blockchain.antt =====
-- src/blockchain.rs, `struct Blockchain` and its `WorldState`: the blocks that a node knows, the
-- chain that it follows, and the accounts and auctions that the executed part of it made.
pub mod Execute
pub mod Branch
pub mod Prune
pub mod Valid
pub mod Fix
pub mod Accept
pub mod Mempool
pub mod Reachable
use p2p_auction.Prelude.{
  ℕ, zero, suc, ◌+◌, ◌-◌, String, ◌==◌, Bool, true, false, ◌&&◌, ◌||◌, not, Option, none, some,
  List, [], ◌∷◌, length, take, get_elem?, contains, if◌then◌else◌,
}
use p2p_auction.Prelude.Result.{Result, ok, err, message}
use p2p_auction.Prelude.Exec.{Exec}
use p2p_auction.HashMap
use p2p_auction.HashMap.{HashMap}
use p2p_auction.Transaction.{
  Data, Transaction, Block, create_auction as create_auction_data, create_user_account, bid,
  stop_auction,
}
use p2p_auction.Pool
use p2p_auction.Pool.{TransactionPool}

-- `EXECUTE_AFTER_N_BLOCKS`.
abbrev pub execute_after_n_blocks : ℕ
execute_after_n_blocks = 2

pub record Account : Type 0 where
  pub public_key : String
  pub nonce : ℕ

pub record Blockchain : Type 0 where
  pub blocks : HashMap Block
  pub longest_chain : List String
  pub commited_pointer : ℕ
  pub transaction_pool : TransactionPool
  pub difficulty : ℕ
  pub pruned : List String
  pub accounts : HashMap Account
  pub auctions : HashMap (String × ℕ)

-- An `Arc<(Notify, AtomicBool)>`: the stored permit of the first, the value of the second.
pub record Notifier : Type 0 where
  pub permit : Bool
  pub executed : Bool

-- The two parts of `State` that the methods of the chain write to.
pub record Ledger : Type 0 where
  pub chain : Blockchain
  pub notifiers : HashMap Notifier

-- `Blockchain::new`.
abbrev pub new : ℕ → Blockchain
new difficulty = record {
  blocks = [];
  longest_chain = [];
  commited_pointer = 0;
  transaction_pool = Pool.new;
  difficulty = difficulty;
  pruned = [];
  accounts = [];
  auctions = [];
}

-- `longest_chain[0..(len.saturating_sub(EXECUTE_AFTER_N_BLOCKS))]`: the blocks that are executed.
unfoldable pub confirmed : Blockchain → List String
confirmed c = take (length c.longest_chain - execute_after_n_blocks) c.longest_chain

unfoldable pub get_account : Blockchain → String → Option Account
get_account c public_key = HashMap.get c.accounts public_key

unfoldable pub create_account : String → Exec Blockchain (Unit {0})
create_account public_key c =
    if HashMap.contains_key c.accounts public_key
    then (err (message "Account already exists."), c)
    else (
      ok tt,
      record c {
        accounts =
            HashMap.insert c.accounts public_key (record { public_key = public_key; nonce = 1 });
      },
    )

unfoldable pub create_auction : String → String → ℕ → Blockchain → Blockchain
create_auction auction_id block_id stop_time c = record c {
  auctions = HashMap.insert c.auctions auction_id (block_id, stop_time);
}

unfoldable pub remove_auction : String → Blockchain → Blockchain
remove_auction auction_id c = record c { auctions = HashMap.remove c.auctions auction_id }

-- The test of `get_auction` and of `auction_exists`: a transaction that creates this auction.
unfoldable pub creates : String → Data → Bool
creates auction_id (create_auction_data aid start_amount stop_time) = aid == auction_id
creates auction_id _ = false

unfoldable pub find_creation : String → List Transaction → Option Transaction
find_creation auction_id [] = none
find_creation auction_id (t ∷ ts) =
    if creates auction_id t.payload then some t else find_creation auction_id ts

unfoldable pub creation_in : String → Option Block → Option Transaction
creation_in auction_id none = none
creation_in auction_id (some block) = find_creation auction_id block.transactions

unfoldable pub get_auction : Blockchain → String → Option Transaction
unfolding creation_in
get_auction c auction_id = elim (HashMap.get c.auctions auction_id) [
  | none ↦ none
  | some (block_id, stop_time) ↦ creation_in auction_id (HashMap.get c.blocks block_id)
]

unfoldable pub get_block_from_hash : Blockchain → String → Option Block
unfolding confirmed
get_block_from_hash c hash = if contains (confirmed c) hash then HashMap.get c.blocks hash else none

-- The fold over the enumerated chain: one more than the last index at which the hash stands.
unfoldable pub position_after : String → ℕ → Option ℕ → List String → Option ℕ
position_after hash i acc [] = acc
position_after hash i acc (h ∷ hs) =
    position_after hash (i + 1) (if h == hash then some (i + 1) else acc) hs

unfoldable pub get_next_block_hash_from_hash : Blockchain → String → Option String
unfolding confirmed position_after
get_next_block_hash_from_hash c hash = elim (position_after hash 0 none (confirmed c)) [
  | none ↦ none
  | some i ↦ get_elem? c.longest_chain i
]
