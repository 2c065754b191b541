-- ===== src/Pool.antt =====
-- src/blockchain.rs, `struct TransactionPool`: the pending transactions, by id.
pub mod Order
pub mod Room
pub mod Flush
use p2p_auction.Prelude.{
  ℕ, String, ◌==◌, Bool, true, false, ◌&&◌, ◌||◌, Option, none, some, List, [], ◌∷◌, ltb, leb,
  nat_eq, if◌then◌else◌, length,
}
use p2p_auction.Prelude.TextOrder.{str_le}
use p2p_auction.HashMap
use p2p_auction.HashMap.{HashMap}
use p2p_auction.Transaction.{Transaction, transaction_eq}

-- `MAX_TRANSACTION_POOL_SIZE` of src/lib.rs.
abbrev pub max_transaction_pool_size : ℕ
max_transaction_pool_size = 10000

abbrev pub TransactionPool : Type 0
TransactionPool = HashMap Transaction

abbrev pub new : TransactionPool
new = []

-- `a` stands before `b` in the queue, or beside it: by timestamp, then by id.
unfoldable pub queue_le : Transaction → Transaction → Bool
queue_le a b = ltb a.timestamp b.timestamp || (nat_eq a.timestamp b.timestamp && str_le a.id b.id)

-- `sort_by`, a stable sort.
unfoldable pub insert_sorted : Transaction → List Transaction → List Transaction
insert_sorted t [] = t ∷ []
insert_sorted t (u ∷ us) = if queue_le t u then t ∷ u ∷ us else u ∷ insert_sorted t us

unfoldable pub sort : List Transaction → List Transaction
sort [] = []
sort (t ∷ ts) = insert_sorted t (sort ts)

unfoldable pub to_sorted_queue : TransactionPool → List Transaction
to_sorted_queue pool = sort (HashMap.values pool)

unfoldable pub len : TransactionPool → ℕ
len pool = length pool

unfoldable pub remove : TransactionPool → String → TransactionPool
remove pool id = HashMap.remove pool id

-- `min_by_key` over timestamp and id: the first of the least.
unfoldable pub min_of : Transaction → Transaction → Transaction
min_of a b = if queue_le a b then a else b

unfoldable pub older : Transaction → List Transaction → Transaction
older best [] = best
older best (u ∷ us) = older (min_of best u) us

unfoldable pub oldest : List Transaction → Option Transaction
unfolding older
oldest [] = none
oldest (t ∷ ts) = some (older t ts)

-- The pool without its oldest transaction.
unfoldable pub evicted : TransactionPool → TransactionPool
evicted pool = elim (oldest (HashMap.values pool)) [
  | none ↦ pool
  | some t ↦ HashMap.remove pool t.id
]

-- The eviction at the head of `add_transaction`.
unfoldable pub make_room : TransactionPool → TransactionPool
make_room pool = if leb max_transaction_pool_size (len pool) then evicted pool else pool

-- It returns `Ok` always.
unfoldable pub add_transaction : TransactionPool → Transaction → TransactionPool
add_transaction pool transaction = HashMap.insert (make_room pool) transaction.id transaction

-- `any` over the values.
unfoldable pub any_with : String → ℕ → List Transaction → Bool
any_with from nonce [] = false
any_with from nonce (t ∷ ts) = ((t.from == from) && nat_eq t.nonce nonce) || any_with from nonce ts

unfoldable pub replay : TransactionPool → Transaction → Bool
unfolding any_with
replay pool transaction = any_with transaction.from transaction.nonce (HashMap.values pool)

-- The queue, and the pool that is left.
unfoldable pub flush : TransactionPool → List Transaction × TransactionPool
flush pool = (to_sorted_queue pool, new)

unfoldable pub contains : TransactionPool → Transaction → Bool
contains pool transaction = elim (HashMap.get pool transaction.id) [
  | none ↦ false
  | some t ↦ transaction_eq t transaction
]
