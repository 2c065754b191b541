-- ===== src/Blockchain/Branch/Hex.antt =====
-- On hashes that are hex, `find_longest_branch` of src/blockchain.rs returns or runs out of fuel: the two
-- panics of its comparison do not happen.
use mathlib.Core.Path.{subst}
use Prim.Native.Nat.{compare, Ordering}
use p2p_auction.Prelude.{
  ℕ, zero, suc, ◌<◌, String, eq_iff, ◌≡◌, refl, sym, ap, ◌∙◌, ◌⊎◌, inl, inr, true, Option, none,
  some, List, [], ◌∷◌, arith, length, contains, All,
}
use p2p_auction.Prelude.Result.{Result, ok, panic, diverges, ◌>>=◌, map_result}
use p2p_auction.Env.{Env}
use p2p_auction.HashMap
use p2p_auction.HashMap.{HashMap}
use p2p_auction.Blockchain.Branch.{
  BranchMap, children, hash_number, min_hash, unwrap_last, branch_cmp, keep, max_branch, winner,
  extend, find_longest_branch,
}
use p2p_auction.Blockchain.Branch.Compare.{final, get_last?-cons, keep_one}

module _ ⦃env : Env⦄ where
  -- The text decodes.
  abbrev pub IsHex : String → Type 0
  IsHex h = (bytes : List ℕ) × (env.hex_decode h ≡ some bytes)

  abbrev pub EndsInHex : List String → Type 0
  EndsInHex a = (0 < length a) × IsHex (final a)

  unwrap_last_total : (a : List String) → 0 < length a → unwrap_last a ≡ ok (final a)
  unfolding unwrap_last
  unwrap_last_total [] n = absurd (omega arith)
  unwrap_last_total (h ∷ hs) n = rw (get_last?-cons h hs, unwrap_last)

  min_hash_total : (x y : String) → IsHex x → IsHex y → (o : Ordering) × (min_hash x y ≡ ok o)
  unfolding min_hash
  min_hash_total x y (p, e) (q, f) = (
    compare (env.biguint_from_bytes_le p) (env.biguint_from_bytes_le q),
    rw (hash_number_hex x e, hash_number_hex y f),
  )
    where
      hash_number_hex :
          (h : String) {bytes : List ℕ}
          → env.hex_decode h ≡ some bytes
          → hash_number h ≡ ok (env.biguint_from_bytes_le bytes)
      hash_number_hex h e = rw (e, hash_number)

  branch_cmp_total :
      (a b : List String) → EndsInHex a → EndsInHex b → (o : Ordering) × (branch_cmp a b ≡ ok o)
  unfolding branch_cmp
  branch_cmp_total a b (n, p) (k, q) = from (compare (length a) (length b))
    where
      from :
          (c : Ordering)
          → (o : Ordering) × ((elim c [
            | Ordering.eq ↦ unwrap_last b >>= λ x. unwrap_last a >>= λ y. min_hash x y
            | Ordering.lt ↦ ok Ordering.lt
            | Ordering.gt ↦ ok Ordering.gt
          ])
              ≡ ok o)
      from Ordering.lt = (Ordering.lt, refl)
      from Ordering.gt = (Ordering.gt, refl)
      from Ordering.eq =
          rw (unwrap_last_total a n, unwrap_last_total b k) (min_hash_total (final b) (final a) q p)

  max_branch_total :
      (best : List String) (bs : List (List String))
      → EndsInHex best
      → All EndsInHex bs
      → (w : List String) × (max_branch best bs ≡ ok w) × EndsInHex w
  unfolding max_branch
  max_branch_total best [] h hs = (best, refl, h)
  max_branch_total best (b ∷ bs) h hs =
      let (o, e) = branch_cmp_total best b h hs.0 in
      let kept : EndsInHex (keep o best b) = elim (keep_one o best b) [
        | inl s ↦ subst EndsInHex (sym s) h
        | inr s ↦ subst EndsInHex (sym s) hs.0
      ] in
      let (w, f, g) = max_branch_total (keep o best b) bs kept hs.1 in (w, rw e f, g)

  winner_total :
      (bs : List (List String))
      → All EndsInHex bs
      → (w : List String) × (winner bs ≡ ok w) × ((w ≡ []) ⊎ EndsInHex w)
  unfolding winner
  winner_total [] hs = ([], refl, inl refl)
  winner_total (b ∷ bs) hs = let (w, e, h) = max_branch_total b bs hs.0 hs.1 in (w, e, inr h)

  -- The call ran out of fuel, or returned such a value.
  abbrev pub RunsOutOr {ℓ κ} : {A : Type ℓ} → (A → Type κ) → Result A → Type (ℓ ⊔ κ)
  RunsOutOr {A} P r = (r ≡ panic diverges) ⊎ ((a : A) × (r ≡ ok a) × P a)

  map_result_out :
      (f : String → Result (List String)) (leaves : List String)
      → ((c : String) → contains leaves c ≡ true → RunsOutOr EndsInHex (f c))
      → RunsOutOr (All EndsInHex) (map_result f leaves)
  map_result_out f [] each = inr ([], refl, tt)
  map_result_out f (c ∷ cs) each =
      join (each c (ground (arith, eq_iff c c)))
        (map_result_out f cs (λ d i. each d (ground arith)))
    where
      join :
          RunsOutOr EndsInHex (f c)
          → RunsOutOr (All EndsInHex) (map_result f cs)
          → RunsOutOr (All EndsInHex) (map_result f (c ∷ cs))
      join (inl e) rest = inl (rw e)
      join (inr (r, e, h)) (inl e') = inl (rw (e, e'))
      join (inr (r, e, h)) (inr (rs, e', hs)) = inr (r ∷ rs, rw (e, e'), (h, hs))

  cons-EndsInHex :
      (h : String) (w : List String) → ((w ≡ []) ⊎ EndsInHex w) → IsHex h → EndsInHex (h ∷ w)
  cons-EndsInHex h [] e x = (omega arith, x)
  cons-EndsInHex h (c ∷ cs) (inl e) x = cc
  cons-EndsInHex h (c ∷ cs) (inr e) x = (omega arith, e.1)

  extend_out :
      (h : String) (r : Result (List (List String)))
      → RunsOutOr (All EndsInHex) r
      → RunsOutOr (λ b. IsHex h → EndsInHex b) (extend h (r >>= winner))
  unfolding extend
  extend_out h r (inl e) = inl (rw e)
  extend_out h r (inr (rs, e, hs)) =
      let (w, f, g) = winner_total rs hs in inr (h ∷ w, rw (e, f), cons-EndsInHex h w g)

  -- Where fuel is not missing, the recursion returns, and from a hash that is hex it returns a
  -- branch that ends in one.
  module _ (m : BranchMap) (hex : (h c : String) → contains (children m h) c ≡ true → IsHex c) where
    pub find_out :
        (fuel : ℕ) (h : String)
        → RunsOutOr (λ r. IsHex h → EndsInHex r) (find_longest_branch fuel m h)
    unfolding find_longest_branch
    find_out zero h = inl refl
    find_out (suc fuel) h = from (HashMap.get m h) refl (find_out fuel)
      where
        same : (leaves : List String) → HashMap.get m h ≡ some leaves → children m h ≡ leaves
        same leaves g = unfold children in rw g

        from :
            (o : Option (List String))
            → HashMap.get m h ≡ o
            → ((c : String) → RunsOutOr (λ r. IsHex c → EndsInHex r) (find_longest_branch fuel m c))
            → RunsOutOr
                (λ r. IsHex h → EndsInHex r)
                (elim o [
                  | none ↦ ok (h ∷ [])
                  | some leaves ↦
                      extend h
                        (map_result (λ leaf. find_longest_branch fuel m leaf) leaves >>= winner)
                ])
        from none g each = inr (h ∷ [], refl, cons-EndsInHex h [] (inl refl))
        from (some leaves) g each = extend_out h _ (
            map_result_out (λ leaf. find_longest_branch fuel m leaf) leaves
              (λ c i. elim (each c) [
                | inl e ↦ inl e
                | inr (r, e, k) ↦
                    inr (r, e, k (hex h c (ap (λ x. contains x c) (same leaves g) ∙ i)))
              ]))
