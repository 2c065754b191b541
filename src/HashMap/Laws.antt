-- ===== src/HashMap/Laws.antt =====
-- Laws of the map, in a form with no side condition.
use p2p_auction.Prelude.{
  ◌+◌, ◌≤◌, String, ◌==◌, ◌≡◌, refl, true, false, none, some, [], ◌∷◌, arith, eq_iff, if◌then◌else◌,
  length, contains,
}
use p2p_auction.HashMap.{HashMap, get, contains_key, insert, remove, keys}

module _ {ℓ} {V : Type ℓ} where
  pub get-insert :
      (m : HashMap V) (k : String) (v : V) (j : String)
      → get (insert m k v) j ≡ (if k == j then some v else get m j)
  unfolding get insert
  get-insert [] k v j = refl
  get-insert ((i, w) ∷ m) k v j =
      ground (arith, get-insert m k v j, eq_iff i k, eq_iff i j, eq_iff k j)

  pub get-remove :
      (m : HashMap V) (k j : String) → get (remove m k) j ≡ (if k == j then none else get m j)
  unfolding get remove
  get-remove [] k j = ground arith
  get-remove ((i, w) ∷ m) k j = ground (arith, get-remove m k j, eq_iff i k, eq_iff i j, eq_iff k j)

  -- `contains_key` is the test of `get`.
  pub contains_key-get :
      (m : HashMap V) (k : String)
      → contains_key m k ≡ elim (get m k) [ none ↦ false | some _ ↦ true ]
  unfolding get contains_key
  contains_key-get [] k = refl
  contains_key-get ((i, w) ∷ m) k = ground (arith, contains_key-get m k)

  pub contains-keys : (m : HashMap V) (k : String) → contains (keys m) k ≡ contains_key m k
  unfolding keys contains_key
  contains-keys [] k = refl
  contains-keys ((i, w) ∷ m) k = ground (arith, contains-keys m k)

  pub length-insert :
      (m : HashMap V) (k : String) (v : V)
      → length (insert m k v) ≡ (if contains_key m k then length m else length m + 1)
  unfolding insert contains_key
  length-insert [] k v = refl
  length-insert ((i, w) ∷ m) k v = ground (arith, length-insert m k v)

  pub length-remove : (m : HashMap V) (k : String) → length (remove m k) ≤ length m
  unfolding remove
  length-remove [] k = omega arith
  length-remove ((i, w) ∷ m) k = ground (arith, length-remove m k)

  -- The removal of a key that is there makes room.
  pub length-remove_lt :
      (m : HashMap V) (k : String) → contains_key m k ≡ true → length (remove m k) + 1 ≤ length m
  unfolding remove contains_key
  length-remove_lt [] k h = ground arith
  length-remove_lt ((i, w) ∷ m) k h = ground (arith, length-remove_lt m k, length-remove m k)

  pub contains_key-remove :
      (m : HashMap V) (k j : String)
      → contains_key (remove m k) j ≡ (if k == j then false else contains_key m j)
  contains_key-remove m k j =
      ground (arith, contains_key-get (remove m k) j, contains_key-get m j, get-remove m k j)

  pub contains_key-insert :
      (m : HashMap V) (k : String) (v : V) (j : String)
      → contains_key (insert m k v) j ≡ (if k == j then true else contains_key m j)
  contains_key-insert m k v j =
      ground (arith, contains_key-get (insert m k v) j, contains_key-get m j, get-insert m k v j)
