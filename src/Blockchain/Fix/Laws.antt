-- ===== src/Blockchain/Fix/Laws.antt =====
-- `fix` of src/blockchain.rs succeeds on a valid ledger, and leaves it valid with the best chain.
use mathlib.Core.Path.{subst}
use p2p_auction.Prelude.{
  suc, ◌-◌, ◌+◌, ◌≤◌, String, ◌≡◌, refl, sym, ap, ◌∙◌, inl, inr, some, List, ◌∷◌, arith, length,
  drop,
}
use p2p_auction.Prelude.Result.{Result, ok}
use p2p_auction.Env.{Env, IsLawful}
use p2p_auction.HashMap
use p2p_auction.HashMap.{HashMap}
use p2p_auction.HashMap.Laws.{contains_key-get}
use p2p_auction.Pool.Room as Pool
use p2p_auction.Transaction.{Block}
use p2p_auction.Blockchain.{Blockchain, Ledger, execute_after_n_blocks}
use p2p_auction.Blockchain.Branch.{branch_map}
use p2p_auction.Blockchain.Branch.Map.{IsMap}
use p2p_auction.Blockchain.Branch.Best.{Linked, IsBest, find_longest_branch-IsBest}
use p2p_auction.Blockchain.Branch.Total.{find_longest_branch_total}
use p2p_auction.Blockchain.Prune.{prune}
use p2p_auction.Blockchain.Prune.Drop.{SameFollowed, IsPruned, prune-IsPruned}
use p2p_auction.Blockchain.Execute.{execute_transactions}
use p2p_auction.Blockchain.Execute.Frame.{execute_transactions_lem}
use p2p_auction.Blockchain.Valid.{
  IsRooted, IsValid, AllVerified, Linked-kept, no_genesis, known-IsHex,
}
use p2p_auction.Blockchain.Fix.{longest, set_longest_chain, fix}

module _ ⦃env : Env⦄ where
  -- The chain of a ledger that `fix` made, against the blocks that it had before.
  pub record IsFixed (c d : Blockchain) : Type 0 where
    pub valid : IsValid d
    pub best : IsBest (branch_map c.blocks) "0" ("0" ∷ d.longest_chain)
    pub longer : length c.longest_chain ≤ length d.longest_chain
    pub pruning : IsPruned c.blocks d.longest_chain c.pruned d.blocks d.pruned
    pub pool : d.transaction_pool ≡ c.transaction_pool

  pub fix_run :
      (l : Ledger) {branch : List String}
      → longest l.chain.blocks ≡ ok branch
      → (prune (branch_map l.chain.blocks) (set_longest_chain branch l)).0 ≡ ok tt
      → fix l ≡ (
        ok tt,
        execute_transactions (prune (branch_map l.chain.blocks) (set_longest_chain branch l)).1,
      )
  unfolding fix
  fix_run l e f = rw (e, f)

  pub longest-IsBest :
      IsLawful env
      → (c : Blockchain) → IsMap c.blocks
      → AllVerified c.blocks
      → (path : List String) × (longest c.blocks ≡ ok ("0" ∷ path))
        × IsBest (branch_map c.blocks) "0" ("0" ∷ path)
  unfolding longest
  longest-IsBest laws c map verified =
      let (r, e) =
        find_longest_branch_total c.blocks map (no_genesis laws c.blocks verified)
          (known-IsHex laws c.blocks verified) in
      let b = find_longest_branch-IsBest (suc (length c.blocks)) (branch_map c.blocks) "0" r e in
      (b.path, e ∙ ap ok b.starts, subst (IsBest (branch_map c.blocks) "0") b.starts b)

  pub best-Linked :
      (c : Blockchain) (path : List String)
      → IsBest (branch_map c.blocks) "0" ("0" ∷ path)
      → Linked (branch_map c.blocks) "0" path
  best-Linked c path b =
      subst (Linked (branch_map c.blocks) "0") (ap (drop 1) (sym b.starts)) b.linked

  pub best-longer :
      (c : Blockchain) (path : List String)
      → IsBest (branch_map c.blocks) "0" ("0" ∷ path)
      → Linked (branch_map c.blocks) "0" c.longest_chain
      → length c.longest_chain ≤ length path
  best-longer c path b l = omega (arith, b.best c.longest_chain l)

  module _ (c d : Blockchain)
      (k : IsPruned c.blocks d.longest_chain c.pruned d.blocks d.pruned) where
    known_before :
        (h : String) (b : Block) → HashMap.get d.blocks h ≡ some b → HashMap.get c.blocks h ≡ some b
    known_before h b e = elim (k.dropped h) [ inl f ↦ cc (e, f) | inr f ↦ sym f ∙ e ]

    pruned-IsRooted : IsRooted c.blocks → IsRooted d.blocks
    pruned-IsRooted rooted h b e = elim (rooted h b (known_before h b e)) [
      | inl start ↦ inl start
      | inr known ↦ inr (
          ground (
            arith,
            k.parents h b e,
            contains_key-get c.blocks b.previous_hash,
            contains_key-get d.blocks b.previous_hash,
          ))
    ]

    pruned-IsFixed :
        IsValid c
        → IsBest (branch_map c.blocks) "0" ("0" ∷ d.longest_chain)
        → d.transaction_pool ≡ c.transaction_pool
        → d.commited_pointer
          ≡ c.commited_pointer
            + ((length d.longest_chain - execute_after_n_blocks) - c.commited_pointer)
        → IsFixed c d
    pruned-IsFixed v b p cp = record {
      valid = record {
        map = k.map;
        verified = λ h b e. v.verified h b (known_before h b e);
        rooted = pruned-IsRooted v.rooted;
        linked =
            Linked-kept c.blocks d.blocks v.map k.map "0" d.longest_chain
              (λ h on known. k.kept h on) (best-Linked c d.longest_chain b);
        commited = omega (arith, cp, v.commited, best-longer c d.longest_chain b v.linked);
        pool = subst Pool.IsValid (sym p) v.pool;
      };
      best = b;
      longer = best-longer c d.longest_chain b v.linked;
      pruning = k;
      pool = p;
    }

  -- Pruning and execution after the chain is set.
  assemble-IsFixed :
      (l : Ledger) (path : List String)
      → IsValid l.chain
      → IsBest (branch_map l.chain.blocks) "0" ("0" ∷ path)
      → (p : Ledger) → SameFollowed p.chain (set_longest_chain ("0" ∷ path) l).chain
      → IsPruned l.chain.blocks path l.chain.pruned p.chain.blocks p.chain.pruned
      → IsFixed l.chain (execute_transactions p).chain
  assemble-IsFixed l path v b p (k, cp, pool, df, ac, au) pruning =
      let c = l.chain in
      let d = (execute_transactions p).chain in
      let (xb, xk, xp, xd, xr, xc) = execute_transactions_lem p in
      let chain : path ≡ d.longest_chain = sym (xk ∙ k) in
      let at_blocks : IsPruned c.blocks path c.pruned d.blocks p.chain.pruned =
        subst (λ (x : HashMap Block). IsPruned c.blocks path c.pruned x p.chain.pruned) (sym xb)
          pruning in
      let at_pruned : IsPruned c.blocks path c.pruned d.blocks d.pruned =
        subst (λ (x : List String). IsPruned c.blocks path c.pruned d.blocks x) (sym xr)
          at_blocks in
      pruned-IsFixed c d
        (subst (λ (x : List String). IsPruned c.blocks x c.pruned d.blocks d.pruned) chain
          at_pruned)
        v (subst (λ (x : List String). IsBest (branch_map c.blocks) "0" ("0" ∷ x)) chain b)
        (xp ∙ pool) (rw (xc, xk, cp) refl)

  -- Given `IsLawful`, on a valid ledger `fix` returns, and leaves it valid: the new chain is a path
  -- of blocks that were known before the call, beats every such path from "0", and is no shorter
  -- than the chain was; its blocks are kept, every other block is kept or dropped, a dropped one is
  -- marked as pruned, no kept block that is off the new chain names as its parent a block with two
  -- blocks of the new chain after it, and the pool stays.
  pub fix_lem :
      IsLawful env
      → (l : Ledger) → IsValid l.chain
      → ((fix l).0 ≡ ok tt) × IsFixed l.chain (fix l).1.chain
  fix_lem laws l v =
      let (path, e, b) = longest-IsBest laws l.chain v.map v.verified in
      let next = set_longest_chain ("0" ∷ path) l in
      let (f, followed, g) =
        prune-IsPruned next v.map (no_genesis laws l.chain.blocks v.verified)
          (best-Linked l.chain path b) in
      let run = fix_run l e f in
      subst (λ (x : Result (Unit {0}) × Ledger). (x.0 ≡ ok tt) × IsFixed l.chain x.1.chain)
        (sym run)
        (refl, assemble-IsFixed l path v b (prune (branch_map l.chain.blocks) next).1 followed g)
