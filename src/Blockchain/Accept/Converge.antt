-- ===== src/Blockchain/Accept/Converge.antt =====
-- Nodes that take blocks by `accept_block` of src/blockchain.rs, each in an order of its own.
use mathlib.Core.Path.{subst}
use p2p_auction.Prelude.{
  ℕ, ◌-◌, String, ◌≡◌, ◌≢◌, eq_iff, refl, sym, ap, ◌∙◌, ◌⊎◌, inl, inr, true, none, some, List, [],
  ◌∷◌, arith, length, take, contains,
}
use p2p_auction.Env.{Env, IsLawful}
use p2p_auction.HashMap
use p2p_auction.HashMap.{HashMap}
use p2p_auction.HashMap.Laws.{contains_key-get, get-insert}
use p2p_auction.Transaction.{Block}
use p2p_auction.Blockchain
use p2p_auction.Blockchain.{Blockchain, Ledger, Notifier}
use p2p_auction.Blockchain.Branch.{branch_map}
use p2p_auction.Blockchain.Branch.Map.{IsMap, children-get}
use p2p_auction.Blockchain.Branch.Best.{Linked}
use p2p_auction.Blockchain.Branch.Compare.{Beats, Beats-refl}
use p2p_auction.Blockchain.Execute.Replay.{run}
use p2p_auction.Blockchain.Execute.Replay.World.{IsReplay, worlds-IsSame}
use p2p_auction.Blockchain.Prune.Chain.{settled}
use p2p_auction.Blockchain.Valid.{IsValid, Linked-kept, Linked-known}
use p2p_auction.Blockchain.Fix.Agreement.{HasNoTies, best_unique}
use p2p_auction.Blockchain.Fix.Finality.{NoForks, OneStart}
use p2p_auction.Blockchain.Fix.Laws.{IsFixed, best-Linked}
use p2p_auction.Blockchain.Fix.Replay.{verified-IsNamed}
use p2p_auction.Blockchain.Accept.{push_block, accept_block}
use p2p_auction.Blockchain.Accept.Checks.{IsAcceptable, push_block-IsValid, parent-known}
use p2p_auction.Blockchain.Accept.Finality.{fixed-settled}
use p2p_auction.Blockchain.Accept.Laws.{accept_or_unchanged}
use p2p_auction.Blockchain.Accept.Replay.{kept-IsReplay}
use p2p_auction.Blockchain.Reachable.{new-IsValid}

module _ ⦃env : Env⦄ where
  -- A new node that was given blocks, in any order and whether it took them or not; one that names "0"
  -- as its parent came only as long as the node knew no block.
  pub data Fed : Ledger → Type 0 where
    start :
        (difficulty : ℕ) (n : HashMap Notifier)
        → Fed (record { chain = Blockchain.new difficulty; notifiers = n })
    take_block :
        {l : Ledger}
        → Fed l
        → (b : Block) → (b.previous_hash ≢ "0") ⊎ (l.chain.blocks ≡ [])
        → Fed (accept_block b l).1

  -- The chain beats every path of blocks that are known.
  abbrev IsAhead : Blockchain → Type 0
  IsAhead c =
      (path : List String)
      → Linked (branch_map c.blocks) "0" path
      → Beats ("0" ∷ c.longest_chain) ("0" ∷ path)

  record IsSteady (c : Blockchain) : Type 0 where
    valid : IsValid c
    forks : NoForks c.blocks c.longest_chain
    start : OneStart c.blocks c.longest_chain
    ahead : IsAhead c
    replay : IsReplay (settled c.longest_chain) c

  no_path :
      (blocks : HashMap Block) (path : List String)
      → blocks ≡ []
      → Linked (branch_map blocks) "0" path
      → path ≡ []
  no_path blocks [] empty l = refl
  no_path blocks (c ∷ cs) empty l =
      let none_known : HashMap.get blocks c ≡ none =
        ap (λ m. HashMap.get m c) empty ∙ unfold HashMap.get in refl in
      let (x, e, g) = (children-get blocks "0" c (subst IsMap (sym empty) tt)).0 l.0 in
      cc (none_known, e)

  new-IsSteady : (difficulty : ℕ) → IsSteady (Blockchain.new difficulty)
  unfolding run HashMap.get
  new-IsSteady difficulty = record {
    valid = new-IsValid difficulty;
    forks = λ h b e. cc;
    start = λ h b e. cc e;
    ahead = λ path l.
        subst (λ p. Beats ("0" ∷ []) ("0" ∷ p)) (sym (no_path [] path refl l))
          (Beats-refl ("0" ∷ []));
    replay = record {
      accounts = refl;
      auctions = refl;
      blocks = λ h on. refl;
      placed = λ id k n e. cc e;
    };
  }

  module _ (laws : IsLawful env) (b : Block) (c d : Blockchain) (v : IsValid c)
      (a : IsAcceptable b c) (fixed : IsFixed (push_block b c) d) where
    fixed-IsAhead : IsAhead d
    fixed-IsAhead path l =
        let next =
          push_block-IsValid b c v a.new_hash (parent-known b c v a.parent_known) a.verified in
        fixed.best.best path (
          Linked-kept d.blocks (push_block b c).blocks fixed.valid.map next.map "0" path
            (λ h on known. elim (fixed.pruning.dropped h) [
              | inl gone ↦ absurd (ground (arith, gone, contains_key-get d.blocks h))
              | inr same ↦ sym same
            ])
            l)

    -- The first block is the chain.
    first-settled :
        c.blocks ≡ []
        → (take (length c.longest_chain - 2) d.longest_chain ≡ settled c.longest_chain)
          × NoForks d.blocks d.longest_chain
          × OneStart d.blocks d.longest_chain
    unfolding push_block
    first-settled empty = (
      subst (λ p. take (length p - 2) d.longest_chain ≡ settled p)
          (sym (no_path c.blocks c.longest_chain empty v.linked)) refl,
      fixed.pruning.no_forks,
      λ h x e g. elim (fixed.pruning.dropped h) [
        | inl gone ↦ cc (e, gone)
        | inr same ↦ only_known d.longest_chain h x linked (sym same ∙ e) g (
            fixed.best.best (h ∷ [])
              ((children-get (push_block b c).blocks "0" h next.map).1 (x, sym same ∙ e, g), tt))
      ],
    )
      where
        next : IsValid (push_block b c)
        next = push_block-IsValid b c v a.new_hash (parent-known b c v a.parent_known) a.verified

        linked : Linked (branch_map (push_block b c).blocks) "0" d.longest_chain
        linked = best-Linked (push_block b c) d.longest_chain fixed.best

        is_new : (h : String) → HashMap.contains_key (push_block b c).blocks h ≡ true → b.hash ≡ h
        is_new h known =
            let none_known : HashMap.get c.blocks h ≡ none =
              ap (λ m. HashMap.get m h) empty ∙ unfold HashMap.get in refl in
            ground (
              arith,
              contains_key-get (push_block b c).blocks h,
              get-insert c.blocks b.hash b h,
              eq_iff b.hash h,
            )

        only_known :
            (path : List String) (h : String) (x : Block)
            → Linked (branch_map (push_block b c).blocks) "0" path
            → HashMap.get (push_block b c).blocks h ≡ some x
            → x.previous_hash ≡ "0"
            → Beats ("0" ∷ path) ("0" ∷ h ∷ [])
            → contains path h ≡ true
        only_known [] h x l e g beats = absurd (omega arith)
        only_known (k ∷ path) h x l e g beats =
            let known : HashMap.contains_key (push_block b c).blocks h ≡ true =
              ground (arith, contains_key-get (push_block b c).blocks h) in
            let first =
              Linked-known (push_block b c).blocks "0" (k ∷ path) k next.map l
                (ground (arith, eq_iff k k)) in
            let same = sym (is_new k first) ∙ is_new h known in ground (arith, eq_iff k h)

  -- A block that is given to a node leaves it steady.
  take-IsSteady :
      IsLawful env
      → (b : Block) (l : Ledger) → (b.previous_hash ≢ "0") ⊎ (l.chain.blocks ≡ [])
      → IsSteady l.chain
      → IsSteady (accept_block b l).1.chain
  take-IsSteady laws b l begins s = elim (accept_or_unchanged laws b l s.valid) [
    | inr (failed, same) ↦ subst (λ (x : Ledger). IsSteady x.chain) (sym same) s
    | inl (good, a, fixed) ↦
        let d = (accept_block b l).1.chain in
        let (keeps, forks, starts) = kept begins a fixed in
        record {
          valid = fixed.valid;
          forks = forks;
          start = starts;
          ahead = fixed-IsAhead laws b l.chain d s.valid a fixed;
          replay = kept-IsReplay laws b l s.valid good keeps s.replay;
        }
  ]
    where
      kept :
          ((b.previous_hash ≢ "0") ⊎ (l.chain.blocks ≡ []))
          → IsAcceptable b l.chain
          → IsFixed (push_block b l.chain) (accept_block b l).1.chain
          → let d = (accept_block b l).1.chain in
            (take (length l.chain.longest_chain - 2) d.longest_chain
              ≡ settled l.chain.longest_chain)
            × NoForks d.blocks d.longest_chain
            × OneStart d.blocks d.longest_chain
      kept (inl not_start) a fixed =
          fixed-settled laws b l.chain (accept_block b l).1.chain s.valid s.forks s.start a
            not_start fixed
      kept (inr empty) a fixed =
          first-settled laws b l.chain (accept_block b l).1.chain s.valid a fixed empty

  fed-IsSteady : IsLawful env → {l : Ledger} → Fed l → IsSteady l.chain
  fed-IsSteady laws (start difficulty n) = new-IsSteady difficulty
  fed-IsSteady laws (take_block {l = l} fed b begins) =
      take-IsSteady laws b l begins (fed-IsSteady laws fed)

  -- Given `IsLawful`, two nodes that began empty and were given blocks, each in an order of its own, none
  -- that names "0" as its parent but before any other was known: where they know the same blocks, whose
  -- hashes are no ties as numbers, they follow the same chain, and have the same accounts and auctions.
  pub fed_nodes_agree :
      (laws : IsLawful env) {l l' : Ledger}
      → Fed l
      → Fed l'
      → ((h : String) → HashMap.get l.chain.blocks h ≡ HashMap.get l'.chain.blocks h)
      → HasNoTies l.chain.blocks
      → (l.chain.longest_chain ≡ l'.chain.longest_chain)
        × (l.chain.accounts ≡ l'.chain.accounts)
        × (l.chain.auctions ≡ l'.chain.auctions)
  fed_nodes_agree laws {l = l} {l' = l'} fed fed' same apart =
      let c = l.chain in
      let d = l'.chain in
      let s = fed-IsSteady laws fed in
      let s' = fed-IsSteady laws fed' in
      let v = s.valid in
      let v' = s'.valid in
      let over : Linked (branch_map c.blocks) "0" d.longest_chain =
        Linked-kept d.blocks c.blocks v'.map v.map "0" d.longest_chain (λ h on known. same h)
          v'.linked in
      let under : Linked (branch_map d.blocks) "0" c.longest_chain =
        Linked-kept c.blocks d.blocks v.map v'.map "0" c.longest_chain (λ h on known. sym (same h))
          v.linked in
      let chain =
        best_unique c.blocks c.longest_chain d.longest_chain v.map apart v.linked over
          (s.ahead d.longest_chain over) (s'.ahead c.longest_chain under) in
      let hashes = settled c.longest_chain in
      let there = subst (λ p. IsReplay (settled p) d) (sym chain) s'.replay in
      let here = s.replay in
      let between =
        worlds-IsSame hashes c.blocks d.blocks (verified-IsNamed c v.verified) (λ h on. same h) in
      (
        chain,
        here.accounts ∙ between.accounts ∙ sym there.accounts,
        here.auctions ∙ between.auctions ∙ sym there.auctions,
      )
