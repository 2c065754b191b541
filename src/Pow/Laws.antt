-- ===== src/Pow/Laws.antt =====
-- Mining: what is found solves the puzzle, and something is found where the puzzle has a solution.
use mathlib.Core.Path.{subst}
use p2p_auction.Prelude.{
  ℕ, zero, suc, ◌+◌, ◌≤◌, ◌<◌, String, ◌≡◌, refl, ap, inl, inr, true, false, List, [], ◌∷◌, ◌++◌,
  map, Option, none, some, arith, Bool-cases,
}
use p2p_auction.Prelude.Result.{Result, ok, >>=-eq-ok}
use p2p_auction.Env.{Env}
use p2p_auction.Hash
use p2p_auction.Transaction.{Transaction}
use p2p_auction.Pow.{ProofOfWork, Mined, attempt, try_nonces, mine, verify}

module _ ⦃env : Env⦄ where
  -- The header with the nonce and the timestamp of `mined` has the hash of `mined`, a solution.
  pub record IsSolution (transactions : List Transaction) (previous_hash : String) (mined : Mined)
      : Type 0 where
    pub digest : List ℕ
    pub attempted : attempt transactions previous_hash mined.timestamp mined.nonce ≡ ok digest
    pub solves : verify digest ≡ true
    pub encoded : mined.hash ≡ Hash.encode_hash digest

  module _ (transactions : List Transaction) (previous_hash : String) where
    try_nonces_sound :
        (timestamp left nonce : ℕ) {mined : Mined}
        → try_nonces transactions previous_hash timestamp left nonce ≡ ok (some mined)
        → IsSolution transactions previous_hash mined × (mined.nonce < nonce + left)
    unfolding try_nonces
    try_nonces_sound timestamp zero nonce e = cc
    try_nonces_sound timestamp (suc left) nonce {mined = mined} e =
        let (h, p, q) = >>=-eq-ok (attempt transactions previous_hash timestamp nonce) _ e in
        elim (Bool-cases (verify h)) [
          | inl hit ↦ found h p hit (rw hit at q)
          | inr miss ↦
              let (s, b) =
                try_nonces_sound timestamp left (nonce + 1) {mined = mined} (rw miss at q) in
              (s, omega arith)
        ]
      where
        found :
            (h : List ℕ)
            → attempt transactions previous_hash timestamp nonce ≡ ok h
            → verify h ≡ true
            → ok (some (record { hash = Hash.encode_hash h; nonce = nonce; timestamp = timestamp }))
              ≡ ok (some mined)
            → IsSolution transactions previous_hash mined × (mined.nonce < nonce + suc left)
        found h p hit q =
            let m : Mined = record {
              hash = Hash.encode_hash h;
              nonce = nonce;
              timestamp = timestamp;
            } in
            let same : m ≡ mined = cc q in
            subst (λ x. IsSolution transactions previous_hash x × (x.nonce < nonce + suc left)) same
              (record { digest = h; attempted = p; solves = hit; encoded = refl }, omega arith)

    try_nonces_total :
        (timestamp : ℕ)
        → ((n : ℕ) → (h : List ℕ) × (attempt transactions previous_hash timestamp n ≡ ok h))
        → (left nonce k : ℕ) (h : List ℕ) → nonce ≤ k
        → k < nonce + left
        → attempt transactions previous_hash timestamp k ≡ ok h
        → verify h ≡ true
        → (m : Mined) × (try_nonces transactions previous_hash timestamp left nonce ≡ ok (some m))
    unfolding try_nonces
    try_nonces_total timestamp total zero nonce k h lo hi p s = absurd (omega arith)
    try_nonces_total timestamp total (suc left) nonce k h lo hi p s =
        let (d, e) = total nonce in
        elim (Bool-cases (verify d)) [
          | inl hit ↦ (
            record { hash = Hash.encode_hash d; nonce = nonce; timestamp = timestamp },
            rw (e, hit),
          )
          | inr miss ↦
              rw (e, miss)
                (try_nonces_total timestamp total left (nonce + 1) k h
                  (omega (arith, λ (q : nonce ≡ k). later d e miss q)) (omega arith) p s)
        ]
      where
        later :
            (d : List ℕ)
            → attempt transactions previous_hash timestamp nonce ≡ ok d
            → verify d ≡ false
            → nonce ≡ k
            → ⊥
        later d e miss q = cc (ap (λ (n : ℕ). attempt transactions previous_hash timestamp n) q)

    try_nonces_returns :
        (timestamp : ℕ)
        → ((n : ℕ) → (h : List ℕ) × (attempt transactions previous_hash timestamp n ≡ ok h))
        → (left nonce : ℕ)
        → (o : Option Mined) × (try_nonces transactions previous_hash timestamp left nonce ≡ ok o)
    unfolding try_nonces
    try_nonces_returns timestamp total zero nonce = (none, refl)
    try_nonces_returns timestamp total (suc left) nonce =
        let (d, e) = total nonce in
        elim (Bool-cases (verify d)) [
          | inl hit ↦ (
            some (record { hash = Hash.encode_hash d; nonce = nonce; timestamp = timestamp }),
            rw (e, hit),
          )
          | inr miss ↦ rw (e, miss) (try_nonces_returns timestamp total left (nonce + 1))
        ]

  -- What `mine` returns is a solution, with a nonce below the difficulty.
  pub mine_sound :
      (pow : ProofOfWork) (previous_hash : String) (clock : List (Result ℕ)) {mined : Mined}
      → mine pow previous_hash clock ≡ ok mined
      → IsSolution pow.transactions previous_hash mined × (mined.nonce < pow.difficulty)
  unfolding mine
  mine_sound pow previous_hash [] e = cc
  mine_sound pow previous_hash (now ∷ clock) {mined = mined} e =
      let (timestamp, p, q) = >>=-eq-ok now _ e in
      let (found, p', q') =
        >>=-eq-ok (try_nonces pow.transactions previous_hash timestamp pow.difficulty 0) _ q in
      from (λ m q. mine_sound pow previous_hash clock {mined = m} q) timestamp found p' q'
    where
      from :
          ((m : Mined)
            → mine pow previous_hash clock ≡ ok m
            → IsSolution pow.transactions previous_hash m × (m.nonce < pow.difficulty))
          → (timestamp : ℕ) (found : Option Mined)
          → try_nonces pow.transactions previous_hash timestamp pow.difficulty 0 ≡ ok found
          → (elim found [ some m ↦ ok m | none ↦ mine pow previous_hash clock ]) ≡ ok mined
          → IsSolution pow.transactions previous_hash mined × (mined.nonce < pow.difficulty)
      from later timestamp none p q = later mined q
      from later timestamp (some m) p q =
          let same : m ≡ mined = cc q in
          let (s, b) =
            try_nonces_sound pow.transactions previous_hash timestamp pow.difficulty 0 p in
          subst (λ x. IsSolution pow.transactions previous_hash x × (x.nonce < pow.difficulty)) same
            (s, omega arith)

  -- Where every header hashes, and at some reading of the clock a nonce below the difficulty solves
  -- the puzzle, `mine` returns on a clock with that reading.
  pub mine_total :
      (pow : ProofOfWork) (previous_hash : String)
      → ((timestamp n : ℕ)
          → (h : List ℕ) × (attempt pow.transactions previous_hash timestamp n ≡ ok h))
      → (before : List ℕ) (timestamp nonce : ℕ) (h : List ℕ) (after : List (Result ℕ))
      → nonce < pow.difficulty
      → attempt pow.transactions previous_hash timestamp nonce ≡ ok h
      → verify h ≡ true
      → (m : Mined) × (mine pow previous_hash (map ok before ++ ok timestamp ∷ after) ≡ ok m)
  unfolding mine
  mine_total pow previous_hash total [] timestamp nonce h after b p s =
      let (m, e) =
        try_nonces_total pow.transactions previous_hash timestamp (total timestamp) pow.difficulty 0
          nonce h (omega arith) (omega arith) p s in
      (m, rw e)
  mine_total pow previous_hash total (t ∷ before) timestamp nonce h after b p s =
      let (o, e) = try_nonces_returns pow.transactions previous_hash t (total t) pow.difficulty 0 in
      let (m, e') = mine_total pow previous_hash total before timestamp nonce h after b p s in
      from o e m e'
    where
      from :
          (o : Option Mined)
          → try_nonces pow.transactions previous_hash t pow.difficulty 0 ≡ ok o
          → (m : Mined) → mine pow previous_hash (map ok before ++ ok timestamp ∷ after) ≡ ok m
          → (m : Mined) × (mine pow previous_hash (ok t ∷ (map ok before ++ ok timestamp ∷ after))
              ≡ ok m)
      from none e m e' = (m, rw e e')
      from (some found) e m e' = (found, rw e)
