-- ===== src/Pool/Room.antt =====
-- The pool under `add_transaction`, `remove` and `flush`: its keys are the ids of its transactions,
-- it never grows beyond its bound, and what is added is in it.
use p2p_auction.Prelude.{
  ◌+◌, ◌≤◌, ◌<◌, String, ◌==◌, eq_self, ◌≡◌, refl, true, none, some, [], ◌∷◌, arith, eq_iff, All,
  leb, if◌then◌else◌, length, Bool-cases, Option-cases, inl, inr, ◌⊎◌,
}
use p2p_auction.HashMap
use p2p_auction.HashMap.{HashMap}
use p2p_auction.HashMap.Laws.{
  get-insert, get-remove, length-insert, length-remove, length-remove_lt,
}
use p2p_auction.Transaction.{Transaction, transaction_eq_iff}
use p2p_auction.Pool.{
  TransactionPool, max_transaction_pool_size, len, remove, older, oldest, evicted, make_room,
  add_transaction, queue_le, contains, min_of,
}
use p2p_auction.Pool.Order.{oldest-le}

-- Each key is the id of its transaction.
abbrev pub IsKeyed : TransactionPool → Type 0
IsKeyed [] = Unit
IsKeyed ((k, t) ∷ pool) = (k ≡ t.id) × IsKeyed pool

pub record IsValid (pool : TransactionPool) : Type 0 where
  pub keyed : IsKeyed pool
  pub bounded : len pool ≤ max_transaction_pool_size

insert-IsKeyed :
    (pool : TransactionPool) (t : Transaction) → IsKeyed pool → IsKeyed (HashMap.insert pool t.id t)
unfolding HashMap.insert
insert-IsKeyed [] t h = (refl, tt)
insert-IsKeyed ((k, u) ∷ pool) t h = ground (arith, insert-IsKeyed pool t h.1, eq_iff k t.id)

remove-IsKeyed :
    (pool : TransactionPool) (k : String) → IsKeyed pool → IsKeyed (HashMap.remove pool k)
unfolding HashMap.remove
remove-IsKeyed [] k h = tt
remove-IsKeyed ((j, u) ∷ pool) k h = ground (arith, remove-IsKeyed pool k h.1)

min_of_cases : (a b : Transaction) → (min_of a b ≡ a) ⊎ (min_of a b ≡ b)
unfolding min_of
min_of_cases a b = ground arith

-- The oldest of a list is in the list: its id is the key of an entry.
older-contains_key :
    (pool : TransactionPool) (best : Transaction)
    → IsKeyed pool
    → (older best (HashMap.values pool) ≡ best)
      ⊎ (HashMap.contains_key pool (older best (HashMap.values pool)).id ≡ true)
unfolding HashMap.values HashMap.contains_key older
older-contains_key [] best h = inl refl
older-contains_key ((k, u) ∷ pool) best h =
    let o = older (min_of best u) (HashMap.values pool) in
    ground (arith, older-contains_key pool (min_of best u) h.1, min_of_cases best u, eq_iff k o.id)

oldest-contains_key :
    (pool : TransactionPool) {t : Transaction}
    → IsKeyed pool
    → oldest (HashMap.values pool) ≡ some t
    → HashMap.contains_key pool t.id ≡ true
unfolding HashMap.values HashMap.contains_key oldest
oldest-contains_key [] h e = cc
oldest-contains_key ((k, u) ∷ pool) {t = t} h e =
    ground (arith, older-contains_key pool u h.1, eq_iff k t.id)

oldest_empty : (pool : TransactionPool) → oldest (HashMap.values pool) ≡ none → length pool ≡ 0
unfolding HashMap.values oldest
oldest_empty [] e = refl
oldest_empty ((k, u) ∷ pool) e = cc

evicted-none : (pool : TransactionPool) → oldest (HashMap.values pool) ≡ none → evicted pool ≡ pool
unfolding evicted
evicted-none pool e = rw (e, evicted)

evicted-some :
    (pool : TransactionPool) {t : Transaction}
    → oldest (HashMap.values pool) ≡ some t
    → evicted pool ≡ HashMap.remove pool t.id
unfolding evicted
evicted-some pool e = rw (e, evicted)

evicted-IsKeyed : (pool : TransactionPool) → IsKeyed pool → IsKeyed (evicted pool)
evicted-IsKeyed pool h = elim (Option-cases (oldest (HashMap.values pool))) [
  | inl e ↦ rw (evicted-none pool e) h
  | inr (t, e) ↦ rw (evicted-some pool e) (remove-IsKeyed pool t.id h)
]

length-evicted :
    (pool : TransactionPool)
    → IsKeyed pool
    → 0 < length pool
    → length (evicted pool) + 1 ≤ length pool
length-evicted pool h b = elim (Option-cases (oldest (HashMap.values pool))) [
  | inl e ↦ absurd (omega (arith, oldest_empty pool e))
  | inr (t, e) ↦
      rw (evicted-some pool e) (length-remove_lt pool t.id (oldest-contains_key pool h e))
]

-- There is room for one more.
make_room-IsValid :
    (pool : TransactionPool)
    → IsValid pool
    → IsKeyed (make_room pool) × (len (make_room pool) + 1 ≤ max_transaction_pool_size)
unfolding make_room len
make_room-IsValid pool v = elim (Bool-cases (leb max_transaction_pool_size (length pool))) [
  | inr free ↦ rw free (v.keyed, ground arith)
  | inl full ↦ rw full (evicted-IsKeyed pool v.keyed, ground (arith, length-evicted pool v.keyed))
]

-- On a pool that is keyed by id and within its bound, `add_transaction` leaves one that is.
pub add_transaction-IsValid :
    (pool : TransactionPool) (t : Transaction) → IsValid pool → IsValid (add_transaction pool t)
unfolding add_transaction len
add_transaction-IsValid pool t v =
    let (keyed, room) = make_room-IsValid pool v in
    record {
      keyed = insert-IsKeyed (make_room pool) t keyed;
      bounded = ground (arith, length-insert (make_room pool) t.id t);
    }

-- `remove` does too.
pub remove-IsValid :
    (pool : TransactionPool) (id : String) → IsValid pool → IsValid (remove pool id)
unfolding remove len
remove-IsValid pool id v = record {
  keyed = remove-IsKeyed pool id v.keyed;
  bounded = omega (arith, length-remove pool id, v.bounded);
}

-- What `add_transaction` leaves in the pool: the new transaction under its id, and under any other id
-- what was there, but for the one that made room, which is the oldest of a full pool.
pub get-add_transaction :
    (pool : TransactionPool) (t : Transaction) (id : String)
    → HashMap.get (add_transaction pool t) id ≡ (
        if t.id == id
        then some t
        else if leb max_transaction_pool_size (len pool)
        then HashMap.get (evicted pool) id
        else HashMap.get pool id)
unfolding add_transaction make_room
get-add_transaction pool t id = rw (get-insert (make_room pool) t.id t id) (ground arith)

-- Where `oldest` finds a transaction, it stands before or beside every other one of the pool by timestamp
-- and id, and the eviction takes out the entry of its id and no other.
pub get-evicted :
    (pool : TransactionPool) {o : Transaction}
    → oldest (HashMap.values pool) ≡ some o
    → All (λ u. queue_le o u ≡ true) (HashMap.values pool)
      × ((id : String)
          → HashMap.get (evicted pool) id ≡ (if o.id == id then none else HashMap.get pool id))
get-evicted pool {o = o} e =
    (oldest-le (HashMap.values pool) e, λ id. rw (evicted-some pool e) (get-remove pool o.id id))

-- A transaction that was added is contained in the pool.
pub contains-add_transaction :
    (pool : TransactionPool) (t : Transaction) → contains (add_transaction pool t) t ≡ true
unfolding contains add_transaction
contains-add_transaction pool t =
    rw (get-insert (make_room pool) t.id t t.id, contains, eq_self t.id)
      ((transaction_eq_iff t t).1 refl)
