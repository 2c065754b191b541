-- ===== src/Blockchain/Fix/Along.antt =====
-- A walk along the chain that `fix` of src/blockchain.rs keeps: which blocks can come next on it.
use mathlib.Core.Path.{subst}
use p2p_auction.Prelude.{
  String, ◌==◌, eq_iff, ◌≡◌, refl, sym, ap, ◌∙◌, ◌≤◌, inl, inr, true, false, some, List, [], ◌∷◌,
  ◌++◌, arith, length, contains, Bool-cases,
}
use p2p_auction.HashMap
use p2p_auction.HashMap.{HashMap}
use p2p_auction.Transaction.{Block}
use p2p_auction.Blockchain.Branch.{children, branch_map}
use p2p_auction.Blockchain.Branch.Map.{IsMap, children-get}
use p2p_auction.Blockchain.Branch.Best.{Linked}
use p2p_auction.Blockchain.Branch.Depth.{IsDistinct, path-IsDistinct}
use p2p_auction.Blockchain.Prune.Chain.{parent_on_path}
use p2p_auction.Blockchain.Valid.{Linked-known}

module _ (blocks : HashMap Block) (map : IsMap blocks)
    (no_genesis : HashMap.contains_key blocks "0" ≡ false) (chain : List String)
    (linked : Linked (branch_map blocks) "0" chain) where
  -- No block that the walk has left behind is a child of what is before it.
  abbrev pub Behind : String → List String → Type 0
  Behind p rest =
      (c : String) (x : Block)
      → contains chain c ≡ true
      → contains rest c ≡ false
      → HashMap.get blocks c ≡ some x
      → contains (p ∷ rest) x.previous_hash ≡ false

  pub Behind-next :
      (p r : String) (rest : List String)
      → IsDistinct (p ∷ r ∷ rest)
      → contains (children (branch_map blocks) p) r ≡ true
      → Behind p (r ∷ rest)
      → Behind r rest
  Behind-next p r rest d l behind c x on off e = elim (Bool-cases (r == c)) [
    | inr miss ↦ ground (arith, behind c x on (ground arith) e)
    | inl hit ↦
        let (b, f, g) = (children-get blocks p r map).0 l in
        let same : b ≡ x = cc (f, e, ap (HashMap.get blocks) ((eq_iff r c).0 hit)) in
        ap (contains (r ∷ rest)) (ap (λ (y : Block). y.previous_hash) (sym same) ∙ g) ∙ d.0
  ]

  -- A child of a settled block is the one that the chain has there.
  pub only_child :
      (p r c : String) (rest : List String) (x : Block)
      → IsDistinct (p ∷ r ∷ rest)
      → Linked (branch_map blocks) p (r ∷ rest)
      → Behind p (r ∷ rest)
      → contains chain c ≡ true
      → HashMap.get blocks c ≡ some x
      → x.previous_hash ≡ p
      → c ≡ r
  only_child p r c rest x d l behind on e g = elim (Bool-cases (contains (r ∷ rest) c)) [
    | inr off ↦ absurd (ground (arith, behind c x on off e, eq_iff p x.previous_hash))
    | inl ahead ↦ elim (Bool-cases (r == c)) [
      | inl hit ↦ sym ((eq_iff r c).0 hit)
      | inr miss ↦
          let child = (children-get blocks p c map).1 (x, e, g) in
          elim (parent_on_path blocks map no_genesis chain linked r rest p c l.1 (ground arith)
            child) [
              | inl same ↦ absurd (ground (arith, d.0, eq_iff r p))
              | inr later ↦ absurd (ground (arith, d.0))
            ]
    ]
  ]

  pub chain-IsDistinct : IsDistinct ("0" ∷ chain)
  chain-IsDistinct = (
    ground (arith, Linked-known blocks "0" chain "0" map linked, no_genesis),
    path-IsDistinct blocks map no_genesis 0 "0" chain refl linked,
  )

  -- A path over blocks of the chain that are not in `rest`, no shorter than what the chain has before
  -- `rest`, is that part of the chain.
  pub along :
      (p : String) (part rest path : List String)
      → IsDistinct (p ∷ (part ++ rest))
      → Linked (branch_map blocks) p (part ++ rest)
      → Behind p (part ++ rest)
      → Linked (branch_map blocks) p path
      → ((c : String)
          → contains path c ≡ true
          → (contains chain c ≡ true) × (contains rest c ≡ false))
      → length part ≤ length path
      → path ≡ part
  along p [] rest [] d l behind k on n = refl
  along p [] rest (c ∷ path) d l behind k on n =
      let (x, f, g) = (children-get blocks p c map).0 k.0 in
      let (here, off) = on c (ground (arith, eq_iff c c)) in
      absurd (ground (arith, behind c x here off f, eq_iff p x.previous_hash))
  along p (r ∷ part) rest [] d l behind k on n = absurd (omega arith)
  along p (r ∷ part) rest (c ∷ path) d l behind k on n =
      let (x, f, g) = (children-get blocks p c map).0 k.0 in
      let (here, off) = on c (ground (arith, eq_iff c c)) in
      let same = only_child p r c (part ++ rest) x d l behind here f g in
      let tail =
        along r part rest path d.1 l.1 (Behind-next p r (part ++ rest) d l.0 behind)
          (subst (λ h. Linked (branch_map blocks) h path) same k.1) (λ y i. on y (ground arith))
          (omega arith) in
      cc (same, tail)
