-- ===== src/Blockchain/Prune/Closed.antt =====
-- What `prune` of src/blockchain.rs must drop, it drops: the walk ends in a set that is closed under
-- children and holds every block that forks off the confirmed part of the chain.
use mathlib.Core.Path.{subst}
use p2p_auction.Prelude.{
  ℕ, zero, suc, String, ◌==◌, eq_iff, ◌≡◌, refl, sym, ap, ◌∙◌, ◌⊎◌, inl, inr, true, false, ◌||◌,
  List, [], ◌∷◌, arith, contains, set_insert, contains-set_insert, contains-to_set, to_set,
  if◌then◌else◌, Bool-cases,
}
use p2p_auction.Prelude.Result.{ok, ok-inj}
use p2p_auction.Blockchain.Branch.{BranchMap, children}
use p2p_auction.Blockchain.Prune.{push_losers, find_losers, push_new, push_children, collect}

push_new-contains :
    (bin : List String) (c : String) (losers : List String) (k : String)
    → contains (push_new bin c losers) k
      ≡ (contains losers k || (if contains bin c then false else c == k))
unfolding push_new
push_new-contains bin c losers k = ground arith

-- The bin grows by the children, the losers by those that are new.
push_children-contains :
    (cs losers bin : List String) (k : String)
    → (contains (push_children cs losers bin).1 k ≡ (contains cs k || contains bin k))
      × (contains losers k ≡ true → contains (push_children cs losers bin).0 k ≡ true)
      × (contains cs k ≡ true
          → contains bin k ≡ false
          → contains (push_children cs losers bin).0 k ≡ true)
unfolding push_children
push_children-contains [] losers bin k = (refl, λ e. e, λ e f. cc e)
push_children-contains (c ∷ cs) losers bin k =
    let (a, b, d) = push_children-contains cs (push_new bin c losers) (set_insert bin c) k in
    let n = push_new-contains bin c losers k in
    let s = contains-set_insert bin c k in
    (
      ground (arith, a, s),
      λ e. b (ground (arith, n)),
      λ e f. elim (Bool-cases (c == k)) [
        | inl hit ↦ b (ground (arith, n, eq_iff c k, ap (contains bin) {x = c} {y = k}))
        | inr miss ↦ d (ground arith) (ground (arith, s))
      ],
    )

module _ (m : BranchMap) where
  -- What is in the bin waits among the losers, or has its children in the bin.
  abbrev Waits : List String → List String → Type 0
  Waits losers bin =
      (h : String)
      → contains bin h ≡ true
      → (contains losers h ≡ true)
        ⊎ ((c : String) → contains (children m h) c ≡ true → contains bin c ≡ true)

  abbrev pub IsClosed : List String → Type 0
  IsClosed bin =
      (h c : String)
      → contains bin h ≡ true
      → contains (children m h) c ≡ true
      → contains bin c ≡ true

  push_children-Waits :
      (h : String) (losers bin : List String)
      → Waits (h ∷ losers) bin
      → Waits
          (push_children (children m h) losers bin).0
          (push_children (children m h) losers bin).1
  push_children-Waits h losers bin w k i =
      let cs = children m h in
      let (a, b, d) = push_children-contains cs losers bin k in
      elim (Bool-cases (contains bin k)) [
        | inr new ↦ inl (d (ground arith) new)
        | inl old ↦ elim (w k old) [
          | inr all ↦
              inr (λ c j. ground (arith, (push_children-contains cs losers bin c).0, all c j))
          | inl waits ↦ elim (Bool-cases (h == k)) [
            | inr miss ↦ inl (b (ground arith))
            | inl hit ↦ inr (λ c j. ground (
              arith,
              (push_children-contains cs losers bin c).0,
              ap (λ x. contains (children m x) c) ((eq_iff h k).0 hit),
            ))
          ]
        ]
      ]

  collect-IsClosed :
      (fuel : ℕ) (losers bin r : List String)
      → Waits losers bin
      → collect fuel m losers bin ≡ ok r
      → ((k : String) → contains bin k ≡ true → contains r k ≡ true) × IsClosed r
  unfolding collect
  collect-IsClosed fuel [] bin r w e =
      let same = ok-inj e in
      (
        λ k i. ap (λ x. contains x k) (sym same) ∙ i,
        subst IsClosed same (λ h c i j. elim (w h i) [ inl f ↦ cc f | inr all ↦ all c j ]),
      )
  collect-IsClosed zero (h ∷ losers) bin r w e = cc
  collect-IsClosed (suc fuel) (h ∷ losers) bin r w e =
      let p = push_children (children m h) losers bin in
      let (grows, closed) =
        collect-IsClosed fuel p.0 p.1 r (push_children-Waits h losers bin w) e in
      (
        λ k i. grows k (ground (arith, (push_children-contains (children m h) losers bin k).0)),
        closed,
      )

  -- The walk from the losers returns a set with all of them that is closed under children.
  pub walk-IsClosed :
      (fuel : ℕ) (losers r : List String)
      → collect fuel m losers (to_set losers) ≡ ok r
      → ((k : String) → contains losers k ≡ true → contains r k ≡ true) × IsClosed r
  walk-IsClosed fuel losers r e =
      let (grows, closed) =
        collect-IsClosed fuel losers (to_set losers) r
          (λ h i. inl (sym (contains-to_set losers h) ∙ i)) e in
      (λ k i. grows k (contains-to_set losers k ∙ i), closed)

  push_losers-contains :
      (chain cs losers : List String) (k : String)
      → contains chain k ≡ false
      → contains (push_losers chain cs losers) k ≡ (contains cs k || contains losers k)
  unfolding push_losers
  push_losers-contains chain [] losers k off = refl
  push_losers-contains chain (c ∷ cs) losers k off = ground (
    arith,
    push_losers-contains chain cs (if contains chain c then losers else c ∷ losers) k off,
    eq_iff c k,
    ap (contains chain) {x = c} {y = k},
  )

  find_losers-grows :
      (chain parents losers : List String) (k : String)
      → contains chain k ≡ false
      → contains losers k ≡ true
      → contains (find_losers m chain parents losers) k ≡ true
  unfolding find_losers
  find_losers-grows chain [] losers k off i = i
  find_losers-grows chain (p ∷ parents) losers k off i =
      find_losers-grows chain parents (push_losers chain (children m p) losers) k off
        (ground (arith, push_losers-contains chain (children m p) losers k off))

  -- The losers hold each child of a parent that is not on the chain.
  pub find_losers-contains :
      (chain parents losers : List String) (p k : String)
      → contains parents p ≡ true
      → contains (children m p) k ≡ true
      → contains chain k ≡ false
      → contains (find_losers m chain parents losers) k ≡ true
  unfolding find_losers
  find_losers-contains chain [] losers p k i j off = cc i
  find_losers-contains chain (q ∷ parents) losers p k i j off = elim (Bool-cases (q == p)) [
    | inl hit ↦ find_losers-grows chain parents (push_losers chain (children m q) losers) k off (
        ground (
          arith,
          push_losers-contains chain (children m q) losers k off,
          ap (λ x. contains (children m x) k) ((eq_iff q p).0 hit),
        ))
    | inr miss ↦
        find_losers-contains chain parents (push_losers chain (children m q) losers) p k
          (ground arith) j off
  ]
