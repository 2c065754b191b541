-- ===== src/Pow.antt =====
-- src/blockchain.rs, `mod pow`. The readings of `now_unix` are a list: one for each round of the
-- outer loop, which goes on for as long as no nonce solves the puzzle.
pub mod Laws
use p2p_auction.Prelude.{
  ℕ, zero, suc, ◌+◌, String, List, [], ◌∷◌, Bool, true, false, ltb, nat_eq, ◌&&◌, ◌||◌, Option,
  none, some, if◌then◌else◌,
}
use p2p_auction.Prelude.Result.{Result, ok, panic, diverges, ◌>>=◌}
use p2p_auction.Env.{Env}
use p2p_auction.Hash
use p2p_auction.Header
use p2p_auction.Transaction.{Transaction}

abbrev pub target : List ℕ
target =
    0 ∷ 1 ∷ 0 ∷ 0 ∷ 0 ∷ 0 ∷ 0 ∷ 0 ∷ 0 ∷ 0 ∷ 0 ∷ 0 ∷ 0 ∷ 0 ∷ 0 ∷ 0 ∷ 0 ∷ 0 ∷ 0 ∷ 0 ∷ 0 ∷ 0 ∷ 0 ∷ 0
    ∷ 0 ∷ 0 ∷ 0 ∷ 0 ∷ 0 ∷ 0 ∷ 0 ∷ 0 ∷ []

-- `<` on slices of bytes: lexicographic, a proper prefix being less.
unfoldable pub slice_lt : List ℕ → List ℕ → Bool
slice_lt xs [] = false
slice_lt [] (y ∷ ys) = true
slice_lt (x ∷ xs) (y ∷ ys) = ltb x y || (nat_eq x y && slice_lt xs ys)

-- `puzzle!` and `verify`.
unfoldable pub verify : List ℕ → Bool
unfolding slice_lt
verify hash = slice_lt hash target

pub record ProofOfWork : Type 0 where
  pub transactions : List Transaction
  pub difficulty : ℕ

pub record Mined : Type 0 where
  pub hash : String
  pub nonce : ℕ
  pub timestamp : ℕ

module _ ⦃env : Env⦄ where
  -- The body of the inner loop: a header with this nonce, and its hash.
  unfoldable pub attempt : List Transaction → String → ℕ → ℕ → Result (List ℕ)
  attempt transactions previous_hash timestamp nonce = do
    unsigned_block ← Header.new previous_hash transactions nonce timestamp
    Header.hash unsigned_block

  -- `for nonce in 0..pow.difficulty`, with the nonces that are left.
  unfoldable pub try_nonces : List Transaction → String → ℕ → ℕ → ℕ → Result (Option Mined)
  try_nonces transactions previous_hash timestamp zero nonce = ok none
  try_nonces transactions previous_hash timestamp (suc left) nonce =
      let rest = try_nonces transactions previous_hash timestamp left (nonce + 1) in
      do
        h ← attempt transactions previous_hash timestamp nonce
        if verify h
            then ok
                (some (record { hash = Hash.encode_hash h; nonce = nonce; timestamp = timestamp }))
            else rest

  unfoldable pub mine : ProofOfWork → String → List (Result ℕ) → Result Mined
  mine pow previous_hash [] = panic diverges
  mine pow previous_hash (now ∷ clock) = now >>= λ timestamp.
      try_nonces pow.transactions previous_hash timestamp pow.difficulty 0 >>= λ found. elim found [
        | some mined ↦ ok mined
        | none ↦ mine pow previous_hash clock
      ]
