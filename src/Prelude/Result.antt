-- ===== src/Prelude/Result.antt =====
-- `Result<A, Box<dyn Error + Send + Sync>>` of the source, with the ways in which a call does not
-- return: a panic, and a recursion or loop that does not end.
use Prim.Native.String.{String}
use mathlib.Core.Path.{◌≡◌, refl}
use mathlib.Core.Option.{Option, none, some}
use mathlib.Core.List.{List, [], ◌∷◌}

-- `enum AcceptBlockError` of src/lib.rs.
pub data AcceptBlockError : Type 0 where
  duplicate pruned pruned_parent invalid_hash orphan wrong_transaction_order : AcceptBlockError

-- The errors that a `Box<dyn Error>` holds here: an `AcceptBlockError`, a message of the code's own,
-- or an error that a library returned.
pub data Error : Type 0 where
  accept_block : AcceptBlockError → Error
  message : String → Error
  external : Error

pub data Panic : Type 0 where
  not_hex unwrap_none diverges : Panic

pub data Result {ℓ} (A : Type ℓ) : Type ℓ where
  ok : A → Result A
  err : Error → Result A
  panic : Panic → Result A

module _ {ℓ κ} {A : Type ℓ} {B : Type κ} where
  -- The operator `?`: a failure leaves the function at once.
  infixl 5 ◌>>=◌
  abbrev pub ◌>>=◌ : Result A → (A → Result B) → Result B
  panic p >>= rest = panic p
  err e >>= rest = err e
  ok a >>= rest = rest a

  -- A sequence that succeeds has succeeded at each of its steps.
  pub >>=-eq-ok :
      (first : Result A) (rest : A → Result B) {result : B}
      → first >>= rest ≡ ok result
      → (between : A) × (first ≡ ok between) × (rest between ≡ ok result)
  >>=-eq-ok (panic p) rest e = cc
  >>=-eq-ok (err x) rest e = cc
  >>=-eq-ok (ok a) rest e = (a, refl, e)

infixl 5 ◌>>◌
abbrev pub ◌>>◌ {ℓ} : {B : Type ℓ} → Result (Unit {0}) → Result B → Result B
first >> rest = first >>= λ _. rest

-- What a library call returns, `none` for its error.
abbrev pub from_option {ℓ} : {A : Type ℓ} → Option A → Result A
from_option none = err external
from_option (some a) = ok a

-- `match r { Ok(a) => a, _ => return Err(message) }`.
abbrev pub or_message {ℓ} : {A : Type ℓ} → String → Result A → Result A
or_message m (ok a) = ok a
or_message m (err e) = err (message m)
or_message m (panic p) = panic p

-- A call on each element in order, up to the first that fails.
abbrev pub map_result {ℓ κ} : {A : Type ℓ} {B : Type κ} → (A → Result B) → List A → Result (List B)
map_result f [] = ok []
map_result f (x ∷ xs) = do y ← f x; ys ← map_result f xs; ok (y ∷ ys)

pub ok-inj {ℓ} : {A : Type ℓ} {a b : A} → ok a ≡ ok b → a ≡ b
ok-inj e = cc
