-- ===== src/Prelude/Lists.antt =====
-- Lists measured and cut by native numbers, under the library's names.
use Prim.Native.Nat.{ℕ, zero, suc, ◌+◌}
use Prim.Native.String.{String}
use mathlib.Core.Path.{◌≡◌, refl, sym, ap, ◌∙◌}
use mathlib.Core.Bool.{Bool, true, false, ◌||◌}
use mathlib.Core.List.{List, [], ◌∷◌, ◌++◌}
use mathlib.Core.Option.{Option, none, some}
use mathlib.Core.Logic.{inl, inr}
use native.Mathlib.Omega.{arith}
use text.Mathlib.TextEquality.{eq_iff}
use p2p_auction.Prelude.Tests.{◌==◌, Bool-cases, if◌then◌else◌}

module _ {ℓ} {A : Type ℓ} where
  abbrev pub length : List A → ℕ
  length [] = 0
  length (x ∷ xs) = suc (length xs)

  abbrev pub get_elem? : List A → ℕ → Option A
  get_elem? [] i = none
  get_elem? (x ∷ xs) zero = some x
  get_elem? (x ∷ xs) (suc i) = get_elem? xs i

  abbrev pub take : ℕ → List A → List A
  take zero xs = []
  take (suc n) [] = []
  take (suc n) (x ∷ xs) = x ∷ take n xs

  abbrev pub drop : ℕ → List A → List A
  drop zero xs = xs
  drop (suc n) [] = []
  drop (suc n) (x ∷ xs) = drop n xs

  -- `last()` of a slice.
  abbrev pub get_last? : List A → Option A
  get_last? [] = none
  get_last? (x ∷ []) = some x
  get_last? (x ∷ y ∷ xs) = get_last? (y ∷ xs)

  -- A predicate that holds of every element.
  abbrev pub All {κ} : (A → Type κ) → List A → Type κ
  All P [] = Unit
  All P (x ∷ xs) = P x × All P xs

  pub All-imp {κ μ} :
      {P : A → Type κ} {Q : A → Type μ}
      → ((a : A) → P a → Q a)
      → (xs : List A) → All P xs
      → All Q xs
  All-imp f [] h = tt
  All-imp f (x ∷ xs) h = (f x h.0, All-imp f xs h.1)

  pub length-append : (xs ys : List A) → length (xs ++ ys) ≡ length xs + length ys
  length-append [] ys = omega arith
  length-append (x ∷ xs) ys = omega (arith, length-append xs ys)

  -- What is left after a position.
  pub drop-some :
      (xs : List A) (i : ℕ) (x : A) → get_elem? xs i ≡ some x → drop i xs ≡ x ∷ drop (suc i) xs
  drop-some [] i x e = cc e
  drop-some (y ∷ xs) zero x e = cc e
  drop-some (y ∷ xs) (suc i) x e = drop-some xs i x e

  pub drop-none : (xs : List A) (i : ℕ) → get_elem? xs i ≡ none → drop i xs ≡ []
  drop-none [] zero e = refl
  drop-none [] (suc i) e = refl
  drop-none (y ∷ xs) zero e = cc e
  drop-none (y ∷ xs) (suc i) e = drop-none xs i e

  get_elem?-past : (xs : List A) (i : ℕ) → get_elem? xs i ≡ none → get_elem? xs (suc i) ≡ none
  get_elem?-past [] i e = refl
  get_elem?-past (x ∷ xs) zero e = cc e
  get_elem?-past (x ∷ xs) (suc i) e = get_elem?-past xs i e

  pub take-nil : (k : ℕ) → ◌≡◌ {A = List A} (take k []) []
  take-nil zero = refl
  take-nil (suc k) = refl

  -- From a position that is past the end, nothing is left, there and further on.
  pub drop-past :
      (xs : List A) (i : ℕ) → get_elem? xs i ≡ none → (drop i xs ≡ []) × (drop (suc i) xs ≡ [])
  drop-past xs i e = (drop-none xs i e, drop-none xs (suc i) (get_elem?-past xs i e))

  pub take-add : (m k : ℕ) (xs : List A) → take (m + k) xs ≡ take m xs ++ take k (drop m xs)
  take-add zero k xs = ap (λ n. take n xs) {x = zero + k} {y = k} (omega arith)
  take-add (suc m) k [] =
      ap (λ n. take n []) {x = suc m + k} {y = suc (m + k)} (omega arith) ∙ sym (take-nil k)
  take-add (suc m) k (x ∷ xs) =
      ap (λ n. take n (x ∷ xs)) {x = suc m + k} {y = suc (m + k)} (omega arith)
      ∙ ap (λ ys. x ∷ ys) (take-add m k xs)

-- `contains` of a list or a set of texts.
abbrev pub contains : List String → String → Bool
contains [] a = false
contains (x ∷ xs) a = (x == a) || contains xs a

pub contains-append :
    (xs ys : List String) (a : String) → contains (xs ++ ys) a ≡ (contains xs a || contains ys a)
contains-append [] ys a = refl
contains-append (x ∷ xs) ys a = ground (arith, contains-append xs ys a)

pub take-contains :
    (k : ℕ) (xs : List String) (x : String) → contains (take k xs) x ≡ true → contains xs x ≡ true
take-contains zero xs x e = cc e
take-contains (suc k) [] x e = cc e
take-contains (suc k) (y ∷ xs) x e = ground (arith, take-contains k xs x)

-- `insert` of a set of texts.
unfoldable pub set_insert : List String → String → List String
set_insert s h = if contains s h then s else h ∷ s

-- A list collected into a set.
unfoldable pub to_set : List String → List String
unfolding set_insert
to_set [] = []
to_set (h ∷ hs) = set_insert (to_set hs) h

pub contains-set_insert :
    (s : List String) (h k : String) → contains (set_insert s h) k ≡ ((h == k) || contains s k)
unfolding set_insert
contains-set_insert s h k = elim (Bool-cases (contains s h)) [
  | inl e ↦ rw e (ground (arith, eq_iff h k, ap (λ x. contains s x) {x = h} {y = k}))
  | inr e ↦ rw e
]

pub contains-to_set : (hs : List String) (k : String) → contains (to_set hs) k ≡ contains hs k
unfolding to_set
contains-to_set [] k = refl
contains-to_set (h ∷ hs) k = rw (contains-set_insert (to_set hs) h k, contains-to_set hs k)
