-- ===== src/Pool/Flush.antt =====
-- `flush` and `replay` of the pool.
use mathlib.Core.List.{Perm}
use mathlib.Core.List.Perm
use p2p_auction.Prelude.{
  String, ◌≡◌, refl, true, List, [], ◌∷◌, arith, Bool-cases, inl, inr, eq_self, nat_eq_refl,
}
use p2p_auction.HashMap
use p2p_auction.Transaction.{Transaction}
use p2p_auction.Pool.{
  TransactionPool, new, queue_le, insert_sorted, sort, to_sorted_queue, flush, any_with, replay,
  add_transaction, make_room,
}
use p2p_auction.Pool.Order.{queue_le_total}

-- Each transaction stands before the next, or beside it.
abbrev pub IsSorted : List Transaction → Type 0
IsSorted [] = Unit
IsSorted (t ∷ []) = Unit
IsSorted (t ∷ u ∷ us) = (queue_le t u ≡ true) × IsSorted (u ∷ us)

insert_sorted-IsSorted :
    (t : Transaction) (us : List Transaction) → IsSorted us → IsSorted (insert_sorted t us)
unfolding insert_sorted
insert_sorted-IsSorted t [] h = tt
insert_sorted-IsSorted t (u ∷ []) h = ground (arith, queue_le_total t u)
insert_sorted-IsSorted t (u ∷ v ∷ us) h =
    ground (arith, queue_le_total t u, insert_sorted-IsSorted t (v ∷ us) h.1)

sort-IsSorted : (ts : List Transaction) → IsSorted (sort ts)
unfolding sort
sort-IsSorted [] = tt
sort-IsSorted (t ∷ ts) = insert_sorted-IsSorted t (sort ts) (sort-IsSorted ts)

insert_sorted-perm : (t : Transaction) (us : List Transaction) → Perm (insert_sorted t us) (t ∷ us)
unfolding insert_sorted
insert_sorted-perm t [] = Perm.refl (t ∷ [])
insert_sorted-perm t (u ∷ us) = elim (Bool-cases (queue_le t u)) [
  | inl h ↦ rw h (Perm.refl (t ∷ u ∷ us))
  | inr h ↦ rw h (Perm.trans (Perm.cons u (insert_sorted-perm t us)) (Perm.swap t u us))
]

sort-perm : (ts : List Transaction) → Perm (sort ts) ts
unfolding sort
sort-perm [] = Perm.refl []
sort-perm (t ∷ ts) = Perm.trans (insert_sorted-perm t (sort ts)) (Perm.cons t (sort-perm ts))

-- `flush` returns every pending transaction once, in the order of the queue, and empties the pool.
pub flush_lem :
    (pool : TransactionPool)
    → IsSorted (flush pool).0 × Perm (flush pool).0 (HashMap.values pool) × ((flush pool).1 ≡ new)
unfolding flush to_sorted_queue
flush_lem pool = (sort-IsSorted (HashMap.values pool), sort-perm (HashMap.values pool), refl)

any_with-insert :
    (pool : TransactionPool) (k : String) (t : Transaction)
    → any_with t.from t.nonce (HashMap.values (HashMap.insert pool k t)) ≡ true
unfolding any_with HashMap.values HashMap.insert
any_with-insert [] k t = rw (eq_self t.from, nat_eq_refl t.nonce)
any_with-insert ((j, u) ∷ pool) k t =
    ground (arith, any_with-insert pool k t, eq_self t.from, nat_eq_refl t.nonce)

-- After a transaction was added, every transaction of its sender with its nonce is a replay.
pub replay-add_transaction :
    (pool : TransactionPool) (t u : Transaction)
    → u.from ≡ t.from
    → u.nonce ≡ t.nonce
    → replay (add_transaction pool t) u ≡ true
unfolding replay add_transaction
replay-add_transaction pool t u e f = rw (e, f) (any_with-insert (make_room pool) t.id t)
