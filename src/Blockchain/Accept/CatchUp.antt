-- ===== src/Blockchain/Accept/CatchUp.antt =====
-- A chain that takes the blocks of another one in order, by `accept_block` of src/blockchain.rs.
use mathlib.Core.Path.{subst}
use p2p_auction.Prelude.{
  String, eq_iff, ◌≡◌, refl, sym, ap, ◌∙◌, inl, inr, true, false, none, some, List, [], ◌∷◌, ◌++◌,
  arith, contains, contains-append, Bool-cases, Option-cases, if◌then◌else◌,
}
use p2p_auction.Prelude.Result.{Result, ok}
use p2p_auction.Env.{Env, IsLawful}
use p2p_auction.HashMap
use p2p_auction.HashMap.{HashMap}
use p2p_auction.HashMap.Laws.{contains_key-get, get-insert}
use p2p_auction.Transaction.{Block}
use p2p_auction.Blockchain.{Blockchain, Ledger, Notifier}
use p2p_auction.Blockchain.Branch.{branch_map}
use p2p_auction.Blockchain.Branch.Map.{children-get}
use p2p_auction.Blockchain.Branch.Best.{Linked}
use p2p_auction.Blockchain.Branch.Compare.{last_of}
use p2p_auction.Blockchain.Branch.Paths.{
  last_of_part, Linked-at, Linked-part, IsDistinct-apart, append_one,
}
use p2p_auction.Blockchain.Branch.Depth.{IsDistinct}
use p2p_auction.Blockchain.Valid.{IsValid, Linked-kept, Linked-known, no_genesis}
use p2p_auction.Blockchain.Fix.Along.{along, chain-IsDistinct}
use p2p_auction.Blockchain.Fix.Laws.{IsFixed, fix_lem, best-Linked}
use p2p_auction.Blockchain.Accept.{any_hash, has_previous_block, push_block, accept_block}
use p2p_auction.Blockchain.Accept.Checks.{
  IsAcceptable, check_block_iff, parent-known, push_block-IsValid,
}
use p2p_auction.Blockchain.Accept.Laws.{accept_run}

any_hash-get :
    (blocks : HashMap Block) (k : String) (b : Block)
    → HashMap.get blocks k ≡ some b
    → b.hash ≡ k
    → any_hash k (HashMap.values blocks) ≡ true
unfolding any_hash HashMap.values HashMap.get
any_hash-get [] k b e f = cc e
any_hash-get ((j, x) ∷ blocks) k b e f =
    ground (arith, eq_iff j k, eq_iff x.hash k, any_hash-get blocks k b)

module _ ⦃env : Env⦄ (laws : IsLawful env) (a : Blockchain) (va : IsValid a) where
  -- The chain has taken this part of the other one, and knows nothing else.
  pub record Follows (part : List String) (c : Blockchain) : Type 0 where
    pub valid : IsValid c
    pub chain : c.longest_chain ≡ part
    pub blocks :
        (h : String)
        → HashMap.get c.blocks h ≡ (if contains part h then HashMap.get a.blocks h else none)
    pub unpruned : (h : String) → contains c.pruned h ≡ false

  module _ (part : List String) (h : String) (rest : List String) (b : Block)
      (splits : a.longest_chain ≡ part ++ (h ∷ rest)) (at : HashMap.get a.blocks h ≡ some b)
      (c : Blockchain) (f : Follows part c) where
    abbrev grown : List String
    grown = part ++ (h ∷ [])

    chain_grown : a.longest_chain ≡ grown ++ rest
    chain_grown = splits ∙ append_one part h rest

    distinct : IsDistinct ("0" ∷ (grown ++ rest))
    distinct =
        subst (λ x. IsDistinct ("0" ∷ x)) chain_grown
          (chain-IsDistinct a.blocks va.map (no_genesis laws a.blocks va.verified) a.longest_chain
            va.linked)

    follows_parent : b.previous_hash ≡ last_of "0" part
    follows_parent =
        let l = subst (Linked (branch_map a.blocks) "0") splits va.linked in
        let child = Linked-at (branch_map a.blocks) "0" part h rest l in
        let (x, e, g) = (children-get a.blocks (last_of "0" part) h va.map).0 child in cc (e, at, g)

    hash_at : b.hash ≡ h
    hash_at = (va.verified h b at).0

    not_in_part : contains part h ≡ false
    not_in_part = elim (Bool-cases (contains part h)) [
      | inr off ↦ off
      | inl on ↦
          let apart =
            IsDistinct-apart part (h ∷ rest) h
              (subst IsDistinct (sym (append_one part h rest)) distinct.1) on in
          absurd (ground (arith, eq_iff h h))
    ]

    part-known :
        (x : String)
        → contains part x ≡ true
        → (y : Block) × (HashMap.get c.blocks x ≡ some y) × (y.hash ≡ x)
    part-known x on = elim (Option-cases (HashMap.get a.blocks x)) [
      | inr (y, e) ↦ (y, f.blocks x ∙ rw on e, (va.verified x y e).0)
      | inl missing ↦
          let known =
            Linked-known a.blocks "0" a.longest_chain x va.map va.linked
              (ap (λ l. contains l x) splits ∙ contains-append part (h ∷ rest) x ∙ rw on refl) in
          absurd (ground (arith, contains_key-get a.blocks x))
    ]

    parent_found : has_previous_block b.previous_hash c ≡ true
    unfolding has_previous_block
    parent_found = elim (last_of_part "0" part) [
      | inl e ↦
          let start : b.previous_hash ≡ "0" = follows_parent ∙ ap (last_of "0") e in
          ground (arith, eq_iff b.previous_hash "0")
      | inr on ↦
          let (y, e, g) = part-known (last_of "0" part) on in
          let known : any_hash b.previous_hash (HashMap.values c.blocks) ≡ true =
            ap (λ k. any_hash k (HashMap.values c.blocks)) follows_parent
            ∙ any_hash-get c.blocks (last_of "0" part) y e g in
          ground (arith, eq_iff b.previous_hash "0")
    ]

    acceptable : IsAcceptable b c
    acceptable = record {
      new_hash =
          contains_key-get c.blocks b.hash
          ∙ ground (arith, f.blocks b.hash, ap (contains part) hash_at, not_in_part);
      not_pruned = f.unpruned b.hash;
      parent_not_pruned = f.unpruned b.previous_hash;
      verified = (va.verified h b at).1;
      parent_known = parent_found;
    }

    grown-get :
        (x : String)
        → HashMap.get (push_block b c).blocks x
          ≡ (if contains grown x then HashMap.get a.blocks x else none)
    unfolding push_block
    grown-get x = ground (
      arith,
      get-insert c.blocks b.hash b x,
      f.blocks x,
      contains-append part (h ∷ []) x,
      eq_iff h x,
      eq_iff b.hash x,
      ap (HashMap.get a.blocks) {x = h} {y = x},
      hash_at,
      at,
    )

    pushed : IsValid (push_block b c)
    pushed =
        push_block-IsValid b c f.valid acceptable.new_hash
          (parent-known b c f.valid acceptable.parent_known) acceptable.verified

    grown-known :
        (x : String)
        → HashMap.contains_key (push_block b c).blocks x ≡ true
        → contains grown x ≡ true
    grown-known x known = ground (arith, grown-get x, contains_key-get (push_block b c).blocks x)

    accepted :
        (n : HashMap Notifier)
        → ((accept_block b (record { chain = c; notifiers = n })).0 ≡ ok tt)
          × IsFixed (push_block b c) (accept_block b (record { chain = c; notifiers = n })).1.chain
    accepted n =
        let passes = (check_block_iff b c f.valid).1 acceptable in
        subst
          (λ (x : Result (Unit {0}) × Ledger). (x.0 ≡ ok tt) × IsFixed (push_block b c) x.1.chain)
          (sym (accept_run b (record { chain = c; notifiers = n }) passes))
          (fix_lem laws (record { chain = push_block b c; notifiers = n }) pushed)

    module _ (d : Blockchain) (fixed : IsFixed (push_block b c) d) where
      grown-Linked : Linked (branch_map (push_block b c).blocks) "0" grown
      grown-Linked =
          Linked-kept a.blocks (push_block b c).blocks va.map pushed.map "0" grown
            (λ x on known. grown-get x ∙ rw on refl)
            (Linked-part (branch_map a.blocks) "0" grown rest
              (subst (Linked (branch_map a.blocks) "0") chain_grown va.linked))

      path-Linked : Linked (branch_map a.blocks) "0" d.longest_chain
      path-Linked =
          Linked-kept (push_block b c).blocks a.blocks pushed.map va.map "0" d.longest_chain
            (λ x on known. sym (grown-get x ∙ rw (grown-known x known) refl))
            (best-Linked (push_block b c) d.longest_chain fixed.best)

      on_part :
          (x : String)
          → contains d.longest_chain x ≡ true
          → (contains a.longest_chain x ≡ true) × (contains rest x ≡ false)
      on_part x on =
          let part_of = grown-known x (
            Linked-known (push_block b c).blocks "0" d.longest_chain x pushed.map
              (best-Linked (push_block b c) d.longest_chain fixed.best) on) in
          (
            ap (λ l. contains l x) chain_grown ∙ contains-append grown rest x ∙ rw part_of refl,
            IsDistinct-apart grown rest x distinct.1 part_of,
          )

      chain_taken : d.longest_chain ≡ grown
      chain_taken =
          along a.blocks va.map (no_genesis laws a.blocks va.verified) a.longest_chain va.linked "0"
            grown rest d.longest_chain distinct
            (subst (Linked (branch_map a.blocks) "0") chain_grown va.linked)
            (λ k x i off e. cc (ap (λ l. contains l k) chain_grown, i, off)) path-Linked on_part
            (omega (arith, fixed.best.best grown grown-Linked))

      taken-Follows : Follows grown d
      taken-Follows = record {
        valid = fixed.valid;
        chain = chain_taken;
        blocks = λ x. elim (Bool-cases (contains grown x)) [
          | inl on ↦ fixed.pruning.kept x (ap (λ l. contains l x) chain_taken ∙ on) ∙ grown-get x
          | inr off ↦ elim (fixed.pruning.dropped x) [
            | inl gone ↦ gone ∙ sym (rw off refl)
            | inr same ↦ same ∙ grown-get x
          ]
        ];
        unpruned = λ x. elim (Bool-cases (contains d.pruned x)) [
          | inr none_marked ↦ none_marked
          | inl marked ↦ elim (fixed.pruning.no_others x marked) [
            | inl before ↦ unfold push_block in cc (before, f.unpruned x)
            | inr (off, known) ↦ cc (off, ap (λ l. contains l x) chain_taken, grown-known x known)
          ]
        ];
      }

  -- A chain that has taken a part of another valid one takes the next block of that one.
  pub Follows-accept :
      (part : List String) (h : String) (rest : List String) (b : Block) (l : Ledger)
      → a.longest_chain ≡ part ++ (h ∷ rest)
      → HashMap.get a.blocks h ≡ some b
      → Follows part l.chain
      → ((accept_block b l).0 ≡ ok tt) × Follows (part ++ (h ∷ [])) (accept_block b l).1.chain
  Follows-accept part h rest b l splits at f =
      let (good, fixed) = accepted part h rest b splits at l.chain f l.notifiers in
      (good, taken-Follows part h rest b splits at l.chain f (accept_block b l).1.chain fixed)
