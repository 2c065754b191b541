-- ===== src/Blockchain/Prune/Chain.antt =====
-- `prune` drops no block of the longest chain.
use mathlib.Core.Path.{subst}
use p2p_auction.Prelude.{
  ℕ, zero, suc, String, ◌==◌, eq_iff, ◌≡◌, sym, ap, ◌∙◌, ◌⊎◌, inl, inr, true, false, List, [], ◌∷◌,
  arith, length, contains, set_insert, to_set, contains-set_insert, contains-to_set, Bool-cases,
  take, ◌-◌, ◌+◌,
}
use p2p_auction.Prelude.Result.{ok, ok-inj}
use p2p_auction.HashMap
use p2p_auction.HashMap.{HashMap}
use p2p_auction.HashMap.Laws.{contains_key-get}
use p2p_auction.Transaction.{Block}
use p2p_auction.Blockchain.{execute_after_n_blocks}
use p2p_auction.Blockchain.Branch.{children, branch_map}
use p2p_auction.Blockchain.Branch.Map.{IsMap, children-get}
use p2p_auction.Blockchain.Branch.Best.{Linked}
use p2p_auction.Blockchain.Prune.{
  push_losers, find_losers, push_new, push_children, collect, doomed,
}
use p2p_auction.Blockchain.Prune.Closed.{IsClosed, walk-IsClosed, find_losers-contains}
use p2p_auction.Blockchain.Prune.Walk.{outside-le, collect_total}

-- The part of a chain whose blocks have two blocks after them.
abbrev pub settled : List String → List String
settled chain = take (length chain - execute_after_n_blocks) chain

module _ (blocks : HashMap Block) (map : IsMap blocks)
    (no_genesis : HashMap.contains_key blocks "0" ≡ false) (chain : List String)
    (linked : Linked (branch_map blocks) "0" chain) where
  -- A known block off the chain.
  abbrev pub IsLoser : String → Type 0
  IsLoser h = (contains chain h ≡ false) × (HashMap.contains_key blocks h ≡ true)

  abbrev pub AllLosers : List String → Type 0
  AllLosers hs = (h : String) → contains hs h ≡ true → IsLoser h

  known :
      (h c : String)
      → contains (children (branch_map blocks) h) c ≡ true
      → HashMap.contains_key blocks c ≡ true
  known h c i =
      let (b, f, g) = (children-get blocks h c map).0 i in ground (arith, contains_key-get blocks c)

  -- The parent of a block of a path from `start` is `start` or stands on the path too.
  pub parent_on_path :
      (start : String) (path : List String) (h c : String)
      → Linked (branch_map blocks) start path
      → contains path c ≡ true
      → contains (children (branch_map blocks) h) c ≡ true
      → (h ≡ start) ⊎ (contains path h ≡ true)
  parent_on_path start [] h c l i j = cc
  parent_on_path start (d ∷ path) h c l i j = elim (Bool-cases (d == c)) [
    | inl hit ↦
        let dc = (eq_iff d c).0 hit in
        let (b, f, g) = (children-get blocks start d map).0 l.0 in
        let (b', f', g') = (children-get blocks h c map).0 j in
        let same : b ≡ b' = cc (f, f', ap (HashMap.get blocks) dc) in
        inl (sym g' ∙ ap (λ (x : Block). x.previous_hash) (sym same) ∙ g)
    | inr miss ↦ elim (parent_on_path d path h c l.1 (ground arith) j) [
      | inl e ↦ inr (ground (arith, eq_iff d h))
      | inr k ↦ inr (ground arith)
    ]
  ]

  -- A child of a loser is a loser.
  child-IsLoser :
      (h c : String) → IsLoser h → contains (children (branch_map blocks) h) c ≡ true → IsLoser c
  child-IsLoser h c l i = (
    elim (Bool-cases (contains chain c)) [
      | inr off ↦ off
      | inl on ↦ elim (parent_on_path "0" chain h c linked on i) [
        | inl e ↦ cc (ap (HashMap.contains_key blocks) e, l.1, no_genesis)
        | inr k ↦ cc (k, l.0)
      ]
    ],
    known h c i,
  )

  cons-AllLosers :
      (c : String) (losers : List String) → IsLoser c → AllLosers losers → AllLosers (c ∷ losers)
  cons-AllLosers c losers l all h i = elim (Bool-cases (c == h)) [
    | inl hit ↦ subst IsLoser ((eq_iff c h).0 hit) l
    | inr miss ↦ all h (ground arith)
  ]

  push_losers-AllLosers :
      (cs losers : List String)
      → ((c : String) → contains cs c ≡ true → HashMap.contains_key blocks c ≡ true)
      → AllLosers losers
      → AllLosers (push_losers chain cs losers)
  unfolding push_losers
  push_losers-AllLosers [] losers cs_known all = all
  push_losers-AllLosers (c ∷ cs) losers cs_known all = elim (Bool-cases (contains chain c)) [
    | inl on ↦ rw (on) (push_losers-AllLosers cs losers (λ d i. cs_known d (ground arith)) all)
    | inr off ↦ rw (off) (
        push_losers-AllLosers cs (c ∷ losers) (λ d i. cs_known d (ground arith))
          (cons-AllLosers c losers (off, cs_known c (ground (arith, eq_iff c c))) all))
  ]

  find_losers-AllLosers :
      (parents losers : List String)
      → AllLosers losers
      → AllLosers (find_losers (branch_map blocks) chain parents losers)
  unfolding find_losers
  find_losers-AllLosers [] losers all = all
  find_losers-AllLosers (p ∷ parents) losers all =
      find_losers-AllLosers parents (push_losers chain (children (branch_map blocks) p) losers)
        (push_losers-AllLosers (children (branch_map blocks) p) losers (known p) all)

  insert-AllLosers :
      (c : String) (bin : List String) → IsLoser c → AllLosers bin → AllLosers (set_insert bin c)
  insert-AllLosers c bin l all h i =
      cons-AllLosers c bin l all h (sym (contains-set_insert bin c h) ∙ i)

  push_new-AllLosers :
      (c : String) (bin losers : List String)
      → IsLoser c
      → AllLosers losers
      → AllLosers (push_new bin c losers)
  unfolding push_new
  push_new-AllLosers c bin losers l all = elim (Bool-cases (contains bin c)) [
    | inl old ↦ rw (old) all
    | inr new ↦ rw (new) (cons-AllLosers c losers l all)
  ]

  push_children-AllLosers :
      (cs losers bin : List String)
      → AllLosers cs
      → AllLosers losers
      → AllLosers bin
      → AllLosers (push_children cs losers bin).0 × AllLosers (push_children cs losers bin).1
  unfolding push_children
  push_children-AllLosers [] losers bin cs_all all bin_all = (all, bin_all)
  push_children-AllLosers (c ∷ cs) losers bin cs_all all bin_all =
      let l = cs_all c (ground (arith, eq_iff c c)) in
      push_children-AllLosers cs (push_new bin c losers) (set_insert bin c)
        (λ d i. cs_all d (ground arith)) (push_new-AllLosers c bin losers l all)
        (insert-AllLosers c bin l bin_all)

  collect-AllLosers :
      (fuel : ℕ) (losers bin r : List String)
      → AllLosers losers
      → AllLosers bin
      → collect fuel (branch_map blocks) losers bin ≡ ok r
      → AllLosers r
  unfolding collect
  collect-AllLosers fuel [] bin r all bin_all e = subst AllLosers (ok-inj e) bin_all
  collect-AllLosers zero (h ∷ losers) bin r all bin_all e = cc
  collect-AllLosers (suc fuel) (h ∷ losers) bin r all bin_all e =
      let l = all h (ground (arith, eq_iff h h)) in
      let cs = children (branch_map blocks) h in
      let step =
        push_children-AllLosers cs losers bin (λ c i. child-IsLoser h c l i)
          (λ d i. all d (ground arith)) bin_all in
      collect-AllLosers fuel (push_children cs losers bin).0 (push_children cs losers bin).1 r
        step.0 step.1 e

  to_set-AllLosers : (hs : List String) → AllLosers hs → AllLosers (to_set hs)
  to_set-AllLosers hs all h i = all h (sym (contains-to_set hs h) ∙ i)

  -- The walk over the losers returns. What it returns is off the chain, closed under children, and has
  -- every block that forks off the settled part.
  pub doomed_lem :
      (bin : List String) × (doomed (branch_map blocks) chain (length blocks) ≡ ok bin)
      × AllLosers bin
      × IsClosed (branch_map blocks) bin
      × ((p c : String)
          → contains (settled chain) p ≡ true
          → contains (children (branch_map blocks) p) c ≡ true
          → contains chain c ≡ false
          → contains bin c ≡ true)
  unfolding doomed
  doomed_lem =
      let m = branch_map blocks in
      let losers = find_losers m chain (settled chain) [] in
      let all = find_losers-AllLosers (settled chain) [] (λ h i. cc) in
      let fuel = length losers + length blocks in
      let (bin, e) =
        collect_total blocks m known fuel losers (to_set losers)
          (omega (arith, outside-le (to_set losers) blocks)) in
      let (grows, closed) = walk-IsClosed m fuel losers bin e in
      (
        bin,
        e,
        collect-AllLosers fuel losers (to_set losers) bin all (to_set-AllLosers losers all) e,
        closed,
        λ p c i j off. grows c (find_losers-contains m chain (settled chain) [] p c i j off),
      )
