-- ===== src/Blockchain/Branch/Best.antt =====
-- The branch that `find_longest_branch` of src/blockchain.rs returns is the best there is.
use mathlib.Core.Path.{subst}
use p2p_auction.Prelude.{
  ℕ, zero, suc, String, ◌==◌, eq_iff, ◌≡◌, refl, sym, ap, ◌∙◌, ◌⊎◌, inl, inr, true, false, Option,
  none, some, List, [], ◌∷◌, arith, All, contains, Bool-cases,
}
use p2p_auction.Prelude.Result.{Result, ok, err, panic, ◌>>=◌, >>=-eq-ok, map_result}
use p2p_auction.Env.{Env}
use p2p_auction.HashMap
use p2p_auction.Blockchain.Branch.{BranchMap, children, winner, extend, find_longest_branch}
use p2p_auction.Blockchain.Branch.Compare.{
  Beats, Beats-refl, Beats-trans, max_branch-Beats, max_branch-All,
}

-- Each hash of the path is a child of the one before it.
abbrev pub Linked : BranchMap → String → List String → Type 0
Linked m h [] = Unit
Linked m h (c ∷ cs) = (contains (children m h) c ≡ true) × Linked m c cs

module _ ⦃env : Env⦄ where
  winner-Beats : (bs : List (List String)) {w : List String} → winner bs ≡ ok w → All (Beats w) bs
  unfolding winner
  winner-Beats [] e = tt
  winner-Beats (b ∷ bs) {w = w} e = let (x, y) = max_branch-Beats b bs {w = w} e in (x, y)

  winner-All {κ} :
      (P : List String → Type κ) (bs : List (List String)) {w : List String}
      → winner bs ≡ ok w
      → All P bs
      → (w ≡ []) ⊎ P w
  unfolding winner
  winner-All P [] e h = inl (cc)
  winner-All P (b ∷ bs) {w = w} e h = inr (max_branch-All P b bs {w = w} e h.0 h.1)

  pub extend-eq-ok :
      (h : String) (s : Result (List String)) {r : List String}
      → extend h s ≡ ok r
      → (w : List String) × (s ≡ ok w) × (h ∷ w ≡ r)
  unfolding extend
  extend-eq-ok h (ok w) e = (w, refl, cc)
  extend-eq-ok h (err x) e = cc
  extend-eq-ok h (panic x) e = cc

  -- A path of children from `h`, and no path from `h` is better.
  pub record IsBest (m : BranchMap) (h : String) (branch : List String) : Type 0 where
    pub path : List String
    pub starts : branch ≡ h ∷ path
    pub linked : Linked m h path
    pub best : (other : List String) → Linked m h other → Beats branch (h ∷ other)

  -- What the calls on the children of a hash returned, if all returned.
  module _ (m : BranchMap) (f : String → Result (List String))
      (each : (c : String) (r : List String) → f c ≡ ok r → IsBest m c r) where
    results-All :
        (P : List String → Type 0) (leaves : List String) (rs : List (List String))
        → ((c : String) (r : List String) → contains leaves c ≡ true → IsBest m c r → P r)
        → map_result f leaves ≡ ok rs
        → All P rs
    results-All P [] rs keep e = let same : [] ≡ rs = cc e in subst (All P) same tt
    results-All P (c ∷ leaves) rs keep e =
        let (r, p, q) = >>=-eq-ok (f c) _ e in
        let (rest, p', q') = >>=-eq-ok (map_result f leaves) _ q in
        let same : r ∷ rest ≡ rs = cc q' in
        subst (All P) same (
          keep c r (ground (arith, eq_iff c c)) (each c r p),
          results-All P leaves rest (λ d s i. keep d s (ground arith)) p',
        )

    results_beaten :
        (leaves : List String) (rs : List (List String)) (w : List String)
        → map_result f leaves ≡ ok rs
        → All (Beats w) rs
        → (c : String) → contains leaves c ≡ true
        → (other : List String) → Linked m c other
        → Beats w (c ∷ other)
    results_beaten [] rs w e all c i other l = cc
    results_beaten (d ∷ leaves) rs w e all c i other l =
        let (r, p, q) = >>=-eq-ok (f d) _ e in
        let (rest, p', q') = >>=-eq-ok (map_result f leaves) _ q in
        let same : rs ≡ r ∷ rest = cc q' in
        let all' = subst (All (Beats w)) same all in
        elim (Bool-cases (d == c)) [
          | inl hit ↦
              let dc = (eq_iff d c).0 hit in
              Beats-trans w r (c ∷ other) all'.0 (
                subst (λ x. Beats r (x ∷ other)) dc
                  ((each d r p).best other (subst (λ x. Linked m x other) (sym dc) l)))
          | inr miss ↦ results_beaten leaves rest w p' all'.1 c (ground arith) other l
        ]

  Beats-cons :
      (h : String) (w : List String) (c : String) (cs : List String)
      → Beats w (c ∷ cs)
      → Beats (h ∷ w) (h ∷ c ∷ cs)
  Beats-cons h [] c cs b = absurd (omega arith)
  Beats-cons h (d ∷ ds) c cs b = omega arith

  Beats-one : (h : String) (w : List String) → Beats (h ∷ w) (h ∷ [])
  Beats-one h [] = Beats-refl (h ∷ [])
  Beats-one h (d ∷ ds) = omega arith

  no_children-IsBest : (m : BranchMap) (h : String) → HashMap.get m h ≡ none → IsBest m h (h ∷ [])
  no_children-IsBest m h e = record { path = []; starts = refl; linked = tt; best = alone }
    where
      childless : (c : String) → contains (children m h) c ≡ false
      childless c = unfold children in rw e

      alone : (other : List String) → Linked m h other → Beats (h ∷ []) (h ∷ other)
      alone [] l = Beats-refl (h ∷ [])
      alone (c ∷ cs) l = cc (childless c, l.0)

  -- The winner among the branches of the children is the best branch of their parent.
  extend-IsBest :
      (m : BranchMap) (h : String) (leaves : List String) (f : String → Result (List String))
      (each : (c : String) (r : List String) → f c ≡ ok r → IsBest m c r) (w : List String)
      (rs : List (List String))
      → HashMap.get m h ≡ some leaves
      → map_result f leaves ≡ ok rs
      → winner rs ≡ ok w
      → IsBest m h (h ∷ w)
  extend-IsBest m h leaves f each w rs e p q = record {
    path = w;
    starts = refl;
    linked = join (winner-All IsPath rs q (results-All m f each IsPath leaves rs keep p));
    best = beaten;
  }
    where
      same : children m h ≡ leaves
      same = unfold children in rw e

      IsPath : List String → Type 0
      IsPath r =
          (c : String) × (cs : List String) × (contains leaves c ≡ true)
          × (r ≡ c ∷ cs)
          × Linked m c cs

      keep : (c : String) (r : List String) → contains leaves c ≡ true → IsBest m c r → IsPath r
      keep c r i b = (c, b.path, i, b.starts, b.linked)

      join : ((w ≡ []) ⊎ IsPath w) → Linked m h w
      join (inl empty) = subst (Linked m h) (sym empty) tt
      join (inr (c, cs, i, starts, linked)) =
          subst (Linked m h) (sym starts) (ap (λ x. contains x c) same ∙ i, linked)

      beaten : (other : List String) → Linked m h other → Beats (h ∷ w) (h ∷ other)
      beaten [] l = Beats-one h w
      beaten (c ∷ cs) l = Beats-cons h w c cs (
          results_beaten m f each leaves rs w p (winner-Beats rs q) c
            (ap (λ x. contains x c) (sym same) ∙ l.0) cs l.1)

  -- Where `find_longest_branch` returns, the branch begins at the given hash, goes from each block
  -- to one that names it as its parent, and beats every such path from there: it is longer, or as
  -- long with a last hash that is no greater a number.
  pub find_longest_branch-IsBest :
      (fuel : ℕ) (m : BranchMap) (h : String) (r : List String)
      → find_longest_branch fuel m h ≡ ok r
      → IsBest m h r
  unfolding find_longest_branch
  find_longest_branch-IsBest zero m h r e = cc
  find_longest_branch-IsBest (suc fuel) m h r e =
      from (HashMap.get m h) refl e (find_longest_branch-IsBest fuel m)
    where
      from :
          (o : Option (List String))
          → HashMap.get m h ≡ o
          → (elim o [
            | none ↦ ok (h ∷ [])
            | some leaves ↦
                extend h (map_result (λ leaf. find_longest_branch fuel m leaf) leaves >>= winner)
          ])
            ≡ ok r
          → ((c : String) (s : List String) → find_longest_branch fuel m c ≡ ok s → IsBest m c s)
          → IsBest m h r
      from none g e each = subst (IsBest m h) (cc e) (no_children-IsBest m h g)
      from (some leaves) g e each =
          let (w, p, q) = extend-eq-ok h _ {r = r} e in
          let (rs, p', q') =
            >>=-eq-ok (map_result (λ leaf. find_longest_branch fuel m leaf) leaves) winner p in
          subst (IsBest m h) q (extend-IsBest m h leaves _ each w rs g p' q')
