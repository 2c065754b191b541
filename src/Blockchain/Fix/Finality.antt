-- ===== src/Blockchain/Fix/Finality.antt =====
-- Why a new block does not move the settled part of the chain that `fix` of src/blockchain.rs keeps.
use mathlib.Core.Path.{subst}
use p2p_auction.Prelude.{
  ℕ, zero, suc, ◌-◌, ◌+◌, leb, ◌≤◌, String, ◌==◌, eq_iff, ◌≡◌, ◌≢◌, refl, sym, ap, ◌∙◌, ◌⊎◌, inl,
  inr, true, false, some, List, [], ◌∷◌, arith, length, take, contains, Bool-cases,
}
use p2p_auction.HashMap
use p2p_auction.HashMap.{HashMap}
use p2p_auction.HashMap.Laws.{get-insert}
use p2p_auction.Transaction.{Block}
use p2p_auction.Blockchain.Branch.{children, branch_map}
use p2p_auction.Blockchain.Branch.Map.{IsMap, children-get}
use p2p_auction.Blockchain.Branch.Best.{Linked}
use p2p_auction.Blockchain.Branch.Depth.{IsDistinct}
use p2p_auction.Blockchain.Prune.Chain.{settled}
use p2p_auction.Blockchain.Fix.Along.{Behind, Behind-next, only_child, chain-IsDistinct}
use p2p_auction.Blockchain.Valid.{HasParent, IsRooted, insert-IsMap}

-- Each block whose parent is settled is on the chain.
abbrev pub NoForks : HashMap Block → List String → Type 0
NoForks blocks chain =
    (h : String) (b : Block)
    → HashMap.get blocks h ≡ some b
    → contains (settled chain) b.previous_hash ≡ true
    → contains chain h ≡ true

-- Each block without a parent is on the chain.
abbrev pub OneStart : HashMap Block → List String → Type 0
OneStart blocks chain =
    (h : String) (b : Block)
    → HashMap.get blocks h ≡ some b
    → b.previous_hash ≡ "0"
    → contains chain h ≡ true

module _ (blocks : HashMap Block) (map : IsMap blocks)
    (no_genesis : HashMap.contains_key blocks "0" ≡ false) (rooted : IsRooted blocks)
    (chain : List String) (linked : Linked (branch_map blocks) "0" chain)
    (forks : NoForks blocks chain) (start : OneStart blocks chain) where
  module _ (b : Block) (new : HashMap.contains_key blocks b.hash ≡ false) (not_zero : b.hash ≢ "0")
      (parent : HasParent blocks b) (start_new : b.previous_hash ≢ "0") where
    not_parent : (x : Block) → HasParent blocks x → x.previous_hash ≢ b.hash
    not_parent x (inl zero_hash) e = not_zero (sym e ∙ zero_hash)
    not_parent x (inr known) e = cc (ap (HashMap.contains_key blocks) e, known, new)

    -- The new block has no children yet.
    childless :
        (c : String)
        → contains (children (branch_map (HashMap.insert blocks b.hash b)) b.hash) c ≡ false
    childless c =
        elim (Bool-cases
          (contains (children (branch_map (HashMap.insert blocks b.hash b)) b.hash) c)) [
            | inr e ↦ e
            | inl i ↦
                let (x, f, g) =
                  (children-get (HashMap.insert blocks b.hash b) b.hash c
                      (insert-IsMap blocks b.hash b map)).0
                    i in
                elim (Bool-cases (b.hash == c)) [
                  | inl hit ↦
                      let same : b ≡ x = ground (arith, get-insert blocks b.hash b c) in
                      absurd (not_parent b parent (ap (λ (y : Block). y.previous_hash) same ∙ g))
                  | inr miss ↦
                      absurd
                        (not_parent x (rooted c x (ground (arith, get-insert blocks b.hash b c))) g)
                ]
          ]

    -- A block that a longer path passes through after the new one: none.
    ends_at_new :
        (c : String) (q : List String)
        → c ≡ b.hash
        → Linked (branch_map (HashMap.insert blocks b.hash b)) c q
        → q ≡ []
    ends_at_new c [] e l = refl
    ends_at_new c (y ∷ q) e l = cc (
      l.0,
      ap (λ h. contains (children (branch_map (HashMap.insert blocks b.hash b)) h) y) e,
      childless y,
    )

    -- The block is the start of all, or settled.
    abbrev Here : String → Type 0
    Here p = (p ≡ "0") ⊎ (contains (settled chain) p ≡ true)

    on_chain :
        (p c : String) (x : Block)
        → Here p
        → HashMap.get blocks c ≡ some x
        → x.previous_hash ≡ p
        → contains chain c ≡ true
    on_chain p c x (inl e) f g = start c x f (g ∙ e)
    on_chain p c x (inr i) f g = forks c x f (ap (contains (settled chain)) g ∙ i)

    -- The next block of a path that is no shorter than the chain is that of the chain.
    same_next :
        (p r c : String) (rest q : List String)
        → IsDistinct (p ∷ r ∷ rest)
        → Linked (branch_map blocks) p (r ∷ rest)
        → Linked (branch_map (HashMap.insert blocks b.hash b)) p (c ∷ q)
        → Behind blocks map no_genesis chain linked p (r ∷ rest)
        → Here p
        → 1 ≤ length q
        → c ≡ r
    same_next p r c rest q d l l' behind here n =
        let (x, f, g) =
          (children-get (HashMap.insert blocks b.hash b) p c (insert-IsMap blocks b.hash b map)).0
            l'.0 in
        elim (Bool-cases (b.hash == c)) [
          | inl hit ↦
              let none_after = ends_at_new c q (sym ((eq_iff b.hash c).0 hit)) l'.1 in
              absurd (omega (arith, ap length none_after))
          | inr miss ↦
              let old : HashMap.get blocks c ≡ some x =
                ground (arith, get-insert blocks b.hash b c) in
              only_child blocks map no_genesis chain linked p r c rest x d l behind
                (on_chain p c x here old g) old g
        ]

    same_prefix :
        (k : ℕ) (p : String) (rest q : List String)
        → k + 2 ≤ length rest
        → length rest ≤ length q
        → IsDistinct (p ∷ rest)
        → Linked (branch_map blocks) p rest
        → Linked (branch_map (HashMap.insert blocks b.hash b)) p q
        → Behind blocks map no_genesis chain linked p rest
        → Here p
        → ((j : String) → contains (take k rest) j ≡ true → contains (settled chain) j ≡ true)
        → take k q ≡ take k rest
    same_prefix zero p rest q bound n d l l' behind here inside = refl
    same_prefix (suc k) p [] q bound n d l l' behind here inside = absurd (omega arith)
    same_prefix (suc k) p (r ∷ rest) [] bound n d l l' behind here inside = absurd (omega arith)
    same_prefix (suc k) p (r ∷ rest) (c ∷ q) bound n d l l' behind here inside =
        let same = same_next p r c rest q d l l' behind here (omega arith) in
        let tail =
          same_prefix k r rest q (omega arith) (omega arith) d.1 l.1
            (subst (λ h. Linked (branch_map (HashMap.insert blocks b.hash b)) h q) same l'.1)
            (Behind-next blocks map no_genesis chain linked p r rest d l.0 behind)
            (inr (inside r (ground (arith, eq_iff r r)))) (λ j i. inside j (ground arith)) in
        cc (same, tail)

    -- A path from "0" that may pass through the new block and is no shorter than the chain has the
    -- settled part of the chain as its beginning.
    pub settled_prefix :
        (path : List String)
        → length chain ≤ length path
        → Linked (branch_map (HashMap.insert blocks b.hash b)) "0" path
        → take (length chain - 2) path ≡ settled chain
    settled_prefix path n l = elim (Bool-cases (leb (length chain) 2)) [
      | inl short ↦ let none_settled : length chain - 2 ≡ 0 = ground arith in rw (none_settled) refl
      | inr long ↦
          same_prefix (length chain - 2) "0" chain path (ground arith) n
            (chain-IsDistinct blocks map no_genesis chain linked) linked l
            (λ c x on off e. cc (on, off)) (inl refl) (λ j i. i)
    ]

    -- On such a path stands each block without a parent.
    pub start_stays :
        (path : List String)
        → length chain ≤ length path
        → Linked (branch_map (HashMap.insert blocks b.hash b)) "0" path
        → OneStart (HashMap.insert blocks b.hash b) path
    start_stays path n l h x e g = elim (Bool-cases (b.hash == h)) [
      | inl hit ↦
          let same : b ≡ x = ground (arith, get-insert blocks b.hash b h) in
          absurd (start_new (ap (λ (y : Block). y.previous_hash) same ∙ g))
      | inr miss ↦
          let old : HashMap.get blocks h ≡ some x = ground (arith, get-insert blocks b.hash b h) in
          begins chain path (chain-IsDistinct blocks map no_genesis chain linked) linked
            (λ c y on off f. cc (on, off)) n l h x (start h x old g) old g
    ]
      where
        begins :
            (rest path : List String)
            → IsDistinct ("0" ∷ rest)
            → Linked (branch_map blocks) "0" rest
            → Behind blocks map no_genesis chain linked "0" rest
            → length rest ≤ length path
            → Linked (branch_map (HashMap.insert blocks b.hash b)) "0" path
            → (h : String) (x : Block) → contains chain h ≡ true
            → HashMap.get blocks h ≡ some x
            → x.previous_hash ≡ "0"
            → contains path h ≡ true
        begins [] path d k behind n l h x on old g =
            absurd (ground (arith, behind h x on refl old, eq_iff "0" x.previous_hash))
        begins (r ∷ rest) [] d k behind n l h x on old g = absurd (omega arith)
        begins (r ∷ rest) (c ∷ q) d k behind n l h x on old g =
            let (y, f, m) =
              (children-get (HashMap.insert blocks b.hash b) "0" c
                  (insert-IsMap blocks b.hash b map)).0
                l.0 in
            let at_r =
              only_child blocks map no_genesis chain linked "0" r h rest x d k behind on old g in
            elim (Bool-cases (b.hash == c)) [
              | inl hit ↦
                  let same : b ≡ y = ground (arith, get-insert blocks b.hash b c) in
                  absurd (start_new (ap (λ (z : Block). z.previous_hash) same ∙ m))
              | inr miss ↦
                  let known : HashMap.get blocks c ≡ some y =
                    ground (arith, get-insert blocks b.hash b c) in
                  let too =
                    only_child blocks map no_genesis chain linked "0" r c rest y d k behind
                      (start c y known m) known m in
                  ground (arith, eq_iff c h)
            ]
