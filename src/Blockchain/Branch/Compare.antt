-- ===== src/Blockchain/Branch/Compare.antt =====
-- The comparison of branches in `find_longest_branch` of src/blockchain.rs, and `max_by` over it.
use mathlib.Core.Path.{subst}
use Prim.Native.Nat.{compare, Ordering}
use p2p_auction.Prelude.{
  ℕ, ◌≤◌, ◌<◌, String, ◌≡◌, refl, ◌⊎◌, inl, inr, none, some, List, [], ◌∷◌, arith, All, length,
  get_last?,
}
use p2p_auction.Prelude.Result.{ok, ◌>>=◌, >>=-eq-ok}
use p2p_auction.Env.{Env}
use p2p_auction.Blockchain.Branch.{hash_number, min_hash, unwrap_last, branch_cmp, keep, max_branch}

abbrev pub last_of : String → List String → String
last_of h [] = h
last_of h (c ∷ cs) = last_of c cs

abbrev pub final : List String → String
final [] = ""
final (h ∷ hs) = last_of h hs

pub get_last?-cons : (h : String) (hs : List String) → get_last? (h ∷ hs) ≡ some (last_of h hs)
get_last?-cons h [] = refl
get_last?-cons h (c ∷ cs) = get_last?-cons c cs

module _ ⦃env : Env⦄ where
  -- The number of a hash, 0 for a text that is not hex.
  unfoldable pub number : String → ℕ
  number h = elim (env.hex_decode h) [ none ↦ 0 | some bytes ↦ env.biguint_from_bytes_le bytes ]

  -- `a` is longer than `b`, or as long with a last hash that is no greater.
  abbrev pub Beats : List String → List String → Type 0
  Beats a b =
      (length b < length a) ⊎ ((length b ≡ length a) × (number (final a) ≤ number (final b)))

  pub Beats-refl : (a : List String) → Beats a a
  Beats-refl a = omega arith

  pub Beats-trans : (a b c : List String) → Beats a b → Beats b c → Beats a c
  Beats-trans a b c h k = omega arith

  hash_number-number : (h : String) {n : ℕ} → hash_number h ≡ ok n → number h ≡ n
  unfolding hash_number number
  hash_number-number h e = ground arith

  unwrap_last-eq-ok : (a : List String) {x : String} → unwrap_last a ≡ ok x → final a ≡ x
  unfolding unwrap_last
  unwrap_last-eq-ok [] e = cc
  unwrap_last-eq-ok (h ∷ hs) e = ground (arith, get_last?-cons h hs)

  tie-eq-ok :
      (a b : List String) {o : Ordering}
      → (unwrap_last b >>= λ x. unwrap_last a >>= λ y. min_hash x y) ≡ ok o
      → o ≡ compare (number (final b)) (number (final a))
  unfolding min_hash
  tie-eq-ok a b {o = o} e =
      let (x, p, q) = >>=-eq-ok (unwrap_last b) _ e in
      let (y, p', q') = >>=-eq-ok (unwrap_last a) _ q in
      let (n, f, g) = >>=-eq-ok (hash_number x) _ q' in
      let (n', f', g') = >>=-eq-ok (hash_number y) _ g in
      cc (
        g',
        hash_number-number x f,
        hash_number-number y f',
        unwrap_last-eq-ok b p,
        unwrap_last-eq-ok a p',
      )

  branch_cmp-eq-ok :
      (a b : List String) {o : Ordering}
      → branch_cmp a b ≡ ok o
      → (((length a < length b) × (o ≡ Ordering.lt)) ⊎ ((length b < length a) × (o ≡ Ordering.gt)))
        ⊎ ((length a ≡ length b) × (o ≡ compare (number (final b)) (number (final a))))
  unfolding branch_cmp
  branch_cmp-eq-ok a b {o = o} e = from (compare (length a) (length b)) refl e
    where
      from :
          (c : Ordering)
          → compare (length a) (length b) ≡ c
          → (elim c [
            | Ordering.eq ↦ unwrap_last b >>= λ x. unwrap_last a >>= λ y. min_hash x y
            | Ordering.lt ↦ ok Ordering.lt
            | Ordering.gt ↦ ok Ordering.gt
          ])
            ≡ ok o
          → (((length a < length b) × (o ≡ Ordering.lt))
              ⊎ ((length b < length a) × (o ≡ Ordering.gt)))
            ⊎ ((length a ≡ length b) × (o ≡ compare (number (final b)) (number (final a))))
      from Ordering.lt c e = inl (inl (ground arith, cc))
      from Ordering.gt c e = inl (inr (ground arith, cc))
      from Ordering.eq c e = inr (ground arith, tie-eq-ok a b e)

  -- What the comparison keeps is at least as good as both.
  keep-Beats :
      (a b : List String) {o : Ordering}
      → branch_cmp a b ≡ ok o
      → Beats (keep o a b) a × Beats (keep o a b) b
  unfolding keep
  keep-Beats a b {o = o} e = from o (branch_cmp-eq-ok a b e)
    where
      from :
          (o : Ordering)
          → (((length a < length b) × (o ≡ Ordering.lt))
              ⊎ ((length b < length a) × (o ≡ Ordering.gt)))
            ⊎ ((length a ≡ length b) × (o ≡ compare (number (final b)) (number (final a))))
          → Beats (keep o a b) a × Beats (keep o a b) b
      from Ordering.lt h = ground arith
      from Ordering.gt h = ground arith
      from Ordering.eq h = ground arith

  pub keep_one : (o : Ordering) (a b : List String) → (keep o a b ≡ a) ⊎ (keep o a b ≡ b)
  unfolding keep
  keep_one Ordering.lt a b = inr refl
  keep_one Ordering.eq a b = inr refl
  keep_one Ordering.gt a b = inl refl

  -- The maximum is at least as good as everything, and has what all of the candidates have.
  pub max_branch-Beats :
      (best : List String) (bs : List (List String)) {w : List String}
      → max_branch best bs ≡ ok w
      → Beats w best × All (Beats w) bs
  unfolding max_branch
  max_branch-Beats best [] {w = w} e =
      let same : best ≡ w = cc e in subst (λ x. Beats x best × Unit {0}) same (Beats-refl best, tt)
  max_branch-Beats best (b ∷ bs) {w = w} e =
      let (o, p, q) = >>=-eq-ok (branch_cmp best b) _ e in
      let (over, all) = max_branch-Beats (keep o best b) bs {w = w} q in
      let (x, y) = keep-Beats best b {o = o} p in
      let k = keep o best b in (Beats-trans w k best over x, (Beats-trans w k b over y, all))

  pub max_branch-All {κ} :
      (P : List String → Type κ) (best : List String) (bs : List (List String)) {w : List String}
      → max_branch best bs ≡ ok w
      → P best
      → All P bs
      → P w
  unfolding max_branch
  max_branch-All P best [] {w = w} e p ps = let same : best ≡ w = cc e in subst P same p
  max_branch-All P best (b ∷ bs) {w = w} e p ps =
      let (o, q, r) = >>=-eq-ok (branch_cmp best b) _ e in
      max_branch-All P (keep o best b) bs {w = w} r
        (elim (keep_one o best b) [ inl s ↦ rw s p | inr s ↦ rw s (ps.0) ]) ps.1
