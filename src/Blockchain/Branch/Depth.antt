-- ===== src/Blockchain/Branch/Depth.antt =====
-- A path of blocks from "0" names each block once at most, so it is no longer than the number of
-- known blocks.
use mathlib.Core.Path.{subst}
use p2p_auction.Prelude.{
  ℕ, zero, suc, ◌≤◌, ◌<◌, String, ◌==◌, eq_iff, ◌≡◌, ◌≢◌, refl, sym, ap, ◌∙◌, inl, inr, true, false,
  some, List, [], ◌∷◌, arith, length, contains, Bool-cases,
}
use p2p_auction.HashMap
use p2p_auction.HashMap.{HashMap}
use p2p_auction.HashMap.Laws.{contains_key-get, contains_key-remove, length-remove_lt}
use p2p_auction.Transaction.{Block}
use p2p_auction.Blockchain.Branch.{branch_map}
use p2p_auction.Blockchain.Branch.Map.{IsMap, children-get}
use p2p_auction.Blockchain.Branch.Best.{Linked}

-- As many steps from parent to parent lead from the hash to "0".
abbrev AtDepth : HashMap Block → ℕ → String → Type 0
AtDepth blocks zero k = k ≡ "0"
AtDepth blocks (suc d) k =
    (b : Block) × (HashMap.get blocks k ≡ some b) × AtDepth blocks d b.previous_hash

abbrev pub IsDistinct : List String → Type 0
IsDistinct [] = Unit
IsDistinct (c ∷ cs) = (contains cs c ≡ false) × IsDistinct cs

-- Distinct keys of a map are no more than its entries.
pub length-le_of_keys {ℓ} :
    {V : Type ℓ} (path : List String) (m : HashMap V)
    → IsDistinct path
    → ((k : String) → contains path k ≡ true → HashMap.contains_key m k ≡ true)
    → length path ≤ length m
length-le_of_keys [] m d keys = omega arith
length-le_of_keys (c ∷ cs) m d keys =
    let shorter = length-remove_lt m c (keys c (ground (arith, eq_iff c c))) in
    let rest =
      length-le_of_keys cs (HashMap.remove m c) d.1
        (λ k i. ground (arith, contains_key-remove m c k, keys k, eq_iff c k, d.0)) in
    omega (arith, shorter, rest)

module _ (blocks : HashMap Block) (map : IsMap blocks)
    (no_genesis : HashMap.contains_key blocks "0" ≡ false) where
  not_genesis : (b : Block) → HashMap.get blocks "0" ≢ some b
  not_genesis b e = ground (arith, contains_key-get blocks "0")

  AtDepth-unique : (d e : ℕ) (k : String) → AtDepth blocks d k → AtDepth blocks e k → d ≡ e
  AtDepth-unique zero zero k p q = refl
  AtDepth-unique zero (suc e) k p (b, q, r) =
      absurd (not_genesis b (ap (HashMap.get blocks) (sym p) ∙ q))
  AtDepth-unique (suc d) zero k (b, p, r) q =
      absurd (not_genesis b (ap (HashMap.get blocks) (sym q) ∙ p))
  AtDepth-unique (suc d) (suc e) k (b, p, r) (b', q, s) =
      let same : b ≡ b' = cc (p, q) in
      ap suc (
        AtDepth-unique d e b.previous_hash r
          (subst (λ (x : Block). AtDepth blocks e x.previous_hash) (sym same) s))

  -- What stands on a path lies deeper than its start, and is a known block.
  deeper :
      (d : ℕ) (h : String) (path : List String) (k : String)
      → AtDepth blocks d h
      → Linked (branch_map blocks) h path
      → contains path k ≡ true
      → (e : ℕ) × (d < e) × AtDepth blocks e k
  deeper d h [] k p l i = cc
  deeper d h (c ∷ cs) k p l i =
      let (b, f, g) = (children-get blocks h c map).0 l.0 in
      let under : AtDepth blocks (suc d) c = (b, f, subst (AtDepth blocks d) (sym g) p) in
      elim (Bool-cases (c == k)) [
        | inl hit ↦ (suc d, omega arith, subst (AtDepth blocks (suc d)) ((eq_iff c k).0 hit) under)
        | inr miss ↦
            let (e, q, r) = deeper (suc d) c cs k under l.1 (ground arith) in (e, omega arith, r)
      ]

  pub path-IsDistinct :
      (d : ℕ) (h : String) (path : List String)
      → AtDepth blocks d h
      → Linked (branch_map blocks) h path
      → IsDistinct path
  path-IsDistinct d h [] p l = tt
  path-IsDistinct d h (c ∷ cs) p l =
      let (b, f, g) = (children-get blocks h c map).0 l.0 in
      let under : AtDepth blocks (suc d) c = (b, f, subst (AtDepth blocks d) (sym g) p) in
      (
        elim (Bool-cases (contains cs c)) [
          | inr fresh ↦ fresh
          | inl again ↦
              let (e, q, r) = deeper (suc d) c cs c under l.1 again in
              absurd (omega (arith, AtDepth-unique (suc d) e c under r))
        ],
        path-IsDistinct (suc d) c cs under l.1,
      )

  -- A path of blocks from "0" is no longer than the number of known blocks.
  pub length-path :
      (path : List String) → Linked (branch_map blocks) "0" path → length path ≤ length blocks
  length-path path l =
      length-le_of_keys path blocks (path-IsDistinct 0 "0" path refl l)
        λ k i. known k (deeper 0 "0" path k refl l i)
    where
      known :
          (k : String)
          → (e : ℕ) × (0 < e) × AtDepth blocks e k
          → HashMap.contains_key blocks k ≡ true
      known k (zero, q, r) = absurd (omega arith)
      known k (suc e, q, (b, f, g)) = ground (arith, contains_key-get blocks k)
