-- ===== src/Blockchain/Fix/Replay.antt =====
-- `fix` of src/blockchain.rs keeps the world state of a ledger that of the settled part of its chain.
use mathlib.Core.Path.{subst}
use p2p_auction.Prelude.{
  ◌+◌, ◌-◌, ◌≤◌, String, ◌≡◌, sym, ap, ◌∙◌, inl, inr, true, List, ◌∷◌, ◌++◌, arith, length, take,
  drop, take-add, take-contains, contains,
}
use p2p_auction.Prelude.Result.{Result}
use p2p_auction.Env.{Env, IsLawful}
use p2p_auction.Blockchain.{Blockchain, Ledger, execute_after_n_blocks}
use p2p_auction.Blockchain.Branch.{branch_map}
use p2p_auction.Blockchain.Branch.Best.{IsBest}
use p2p_auction.Blockchain.Execute.{execute_range, execute_transactions}
use p2p_auction.Blockchain.Execute.Frame.{execute_transactions_lem}
use p2p_auction.Blockchain.Execute.Replay.{run, execute_range-run}
use p2p_auction.Blockchain.Execute.Replay.World.{IsNamed, IsReplay, IsReplay-kept, IsReplay-more}
use p2p_auction.Blockchain.Prune.{prune}
use p2p_auction.Blockchain.Prune.Chain.{settled}
use p2p_auction.Blockchain.Prune.Drop.{SameFollowed, IsPruned, prune-IsPruned}
use p2p_auction.Blockchain.Valid.{IsValid, AllVerified, no_genesis}
use p2p_auction.Blockchain.Fix.{set_longest_chain, fix}
use p2p_auction.Blockchain.Fix.Laws.{fix_run, longest-IsBest, best-Linked, best-longer}

module _ ⦃env : Env⦄ where
  pub verified-IsNamed : (c : Blockchain) → AllVerified c.blocks → IsNamed c.blocks
  verified-IsNamed c v h b e = (v h b e).0

  -- The execution of what has been confirmed since the committed position.
  execute_transactions-IsReplay :
      (p : Ledger)
      → IsNamed p.chain.blocks
      → IsReplay (take p.chain.commited_pointer p.chain.longest_chain) p.chain
      → p.chain.commited_pointer ≤ length p.chain.longest_chain - execute_after_n_blocks
      → IsReplay (settled p.chain.longest_chain) (execute_transactions p).chain
  unfolding execute_transactions
  execute_transactions-IsReplay p named r le =
      let chain = p.chain.longest_chain in
      let done = p.chain.commited_pointer in
      let count = (length chain - execute_after_n_blocks) - done in
      let more = take count (drop done chain) in
      let whole : take done chain ++ more ≡ settled chain =
        sym (take-add done count chain)
        ∙ ap (λ n. take n chain) {x = done + count} {y = length chain - execute_after_n_blocks}
            (omega arith) in
      let grown = IsReplay-more (take done chain) more p.chain named r in
      let ran : IsReplay (settled chain) (execute_range chain count done p).chain =
        subst (IsReplay (settled chain)) (sym (execute_range-run chain count done p))
          (subst (λ hs. IsReplay hs (run more p.chain)) whole grown) in
      record {
        accounts = ran.accounts;
        auctions = ran.auctions;
        blocks = ran.blocks;
        placed = ran.placed;
      }

  -- The same after pruning.
  pruned-IsReplay :
      (c : Blockchain) (path : List String) (p : Ledger)
      → IsValid c
      → IsBest (branch_map c.blocks) "0" ("0" ∷ path)
      → SameFollowed p.chain (record c { longest_chain = path })
      → IsPruned c.blocks path c.pruned p.chain.blocks p.chain.pruned
      → IsReplay (settled c.longest_chain) c
      → take (length c.longest_chain - 2) path ≡ settled c.longest_chain
      → IsReplay (settled p.chain.longest_chain) (execute_transactions p).chain
  pruned-IsReplay c path p v b (k, cp, pool, df, ac, au) pruning r keeps =
      let named = verified-IsNamed c v.verified in
      let on_path : (h : String)
          → contains (settled c.longest_chain) h ≡ true
          → contains path h ≡ true =
        λ h on.
          take-contains (length c.longest_chain - 2) path h (ap (λ hs. contains hs h) keeps ∙ on) in
      let before =
        IsReplay-kept (settled c.longest_chain) c p.chain named (sym ac) (sym au)
          (λ h on. sym (pruning.kept h (on_path h on))) r in
      let cut : take p.chain.commited_pointer p.chain.longest_chain ≡ settled c.longest_chain =
        ap (λ n. take n p.chain.longest_chain) (cp ∙ v.commited)
        ∙ ap (take (length c.longest_chain - 2)) k
        ∙ keeps in
      execute_transactions-IsReplay p
        (λ h x e. elim (pruning.dropped h) [
          | inl gone ↦ cc (gone, e)
          | inr same ↦ named h x (sym same ∙ e)
        ])
        (subst (λ hs. IsReplay hs p.chain) (sym cut) before)
        (omega (arith, best-longer c path b v.linked, cp, v.commited, ap length k))

  -- Given `IsLawful`, where a ledger is valid and its world state is that of the settled part of its chain, and
  -- `fix` keeps that part as the beginning of the new chain.
  pub fix-IsReplay :
      (laws : IsLawful env) (l : Ledger)
      → IsValid l.chain
      → IsReplay (settled l.chain.longest_chain) l.chain
      → take (length l.chain.longest_chain - 2) (fix l).1.chain.longest_chain
        ≡ settled l.chain.longest_chain
      → IsReplay (settled (fix l).1.chain.longest_chain) (fix l).1.chain
  fix-IsReplay laws l v r keeps =
      let (path, e, b) = longest-IsBest laws l.chain v.map v.verified in
      let next = set_longest_chain ("0" ∷ path) l in
      let (f, followed, g) =
        prune-IsPruned next v.map (no_genesis laws l.chain.blocks v.verified)
          (best-Linked l.chain path b) in
      let p = (prune (branch_map l.chain.blocks) next).1 in
      let ran = ap (λ (x : Result (Unit {0}) × Ledger). x.1.chain) (fix_run l e f) in
      let chain : (execute_transactions p).chain.longest_chain ≡ p.chain.longest_chain =
        (execute_transactions_lem p).1 in
      let same : (fix l).1.chain.longest_chain ≡ path =
        ap (λ (c : Blockchain). c.longest_chain) ran ∙ chain ∙ followed.0 in
      let at_path = ap (take (length l.chain.longest_chain - 2)) (sym same) ∙ keeps in
      subst (λ (c : Blockchain). IsReplay (settled c.longest_chain) c) (sym ran)
        (subst (λ hs. IsReplay (settled hs) (execute_transactions p).chain) (sym chain)
          (pruned-IsReplay l.chain path p v b followed g r at_path))
