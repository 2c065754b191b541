-- ===== src/Pool/Order.antt =====
-- The order of the queue, and the oldest of a list.
use mathlib.Core.Path.{subst}
use p2p_auction.Prelude.{◌≡◌, true, false, some, List, [], ◌∷◌, arith, All, Bool-cases, inl, inr}
use p2p_auction.Prelude.TextOrder.{str_le_total, str_le_trans, str_le_refl}
use p2p_auction.Transaction.{Transaction}
use p2p_auction.Pool.{queue_le, min_of, older, oldest}

pub queue_le_total : (a b : Transaction) → queue_le a b ≡ false → queue_le b a ≡ true
unfolding queue_le
queue_le_total a b h = ground (arith, str_le_total a.id b.id)

pub queue_le_trans :
    (a b c : Transaction) → queue_le a b ≡ true → queue_le b c ≡ true → queue_le a c ≡ true
unfolding queue_le
queue_le_trans a b c h k = ground (arith, str_le_trans a.id b.id c.id)

pub queue_le_refl : (a : Transaction) → queue_le a a ≡ true
unfolding queue_le
queue_le_refl a = ground (arith, str_le_refl a.id)

min_of-le :
    (a b : Transaction) → (queue_le (min_of a b) a ≡ true) × (queue_le (min_of a b) b ≡ true)
unfolding min_of
min_of-le a b = elim (Bool-cases (queue_le a b)) [
  | inl h ↦ rw h (queue_le_refl a, h)
  | inr h ↦ rw h (queue_le_total a b h, queue_le_refl b)
]

-- `older` is the least of what it has seen.
pub older-le :
    (best : Transaction) (us : List Transaction)
    → (queue_le (older best us) best ≡ true) × All (λ u. queue_le (older best us) u ≡ true) us
unfolding older
older-le best [] = (queue_le_refl best, tt)
older-le best (u ∷ us) =
    let (le, all) = older-le (min_of best u) us in
    let o = older (min_of best u) us in
    let (a, b) = min_of-le best u in
    (queue_le_trans o (min_of best u) best le a, (queue_le_trans o (min_of best u) u le b, all))

pub oldest-le :
    (ts : List Transaction) {t : Transaction}
    → oldest ts ≡ some t
    → All (λ u. queue_le t u ≡ true) ts
unfolding oldest
oldest-le [] e = tt
oldest-le (u ∷ us) {t = t} e =
    let same : older u us ≡ t = cc e in
    subst (λ x. All (λ v. queue_le x v ≡ true) (u ∷ us)) same (older-le u us)
