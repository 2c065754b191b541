-- ===== src/HashMap.antt =====
-- `std::collections::HashMap<String, V>` as the source uses it: an association list. Its iteration
-- order is the order of the list, and every list is allowed, so nothing depends on one order.
pub mod Laws
use p2p_auction.Prelude.{
  ℕ, String, ◌==◌, Bool, true, false, Option, none, some, List, [], ◌∷◌, map, if◌then◌else◌,
}

abbrev pub HashMap {ℓ} : Type ℓ → Type ℓ
HashMap V = List (String × V)

module _ {ℓ} {V : Type ℓ} where
  unfoldable pub get : HashMap V → String → Option V
  get [] k = none
  get ((j, v) ∷ m) k = if j == k then some v else get m k

  unfoldable pub contains_key : HashMap V → String → Bool
  contains_key [] k = false
  contains_key ((j, v) ∷ m) k = if j == k then true else contains_key m k

  unfoldable pub insert : HashMap V → String → V → HashMap V
  insert [] k v = (k, v) ∷ []
  insert ((j, w) ∷ m) k v = if j == k then (j, v) ∷ m else (j, w) ∷ insert m k v

  unfoldable pub remove : HashMap V → String → HashMap V
  remove [] k = []
  remove ((j, w) ∷ m) k = let rest = remove m k in if j == k then rest else (j, w) ∷ rest

  unfoldable pub values : HashMap V → List V
  values [] = []
  values ((j, v) ∷ m) = v ∷ values m

  unfoldable pub keys : HashMap V → List String
  keys [] = []
  keys ((j, v) ∷ m) = j ∷ keys m
