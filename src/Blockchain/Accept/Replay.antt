-- ===== src/Blockchain/Accept/Replay.antt =====
-- The world state of a node that accepts blocks by `accept_block` of src/blockchain.rs, against the settled
-- part of its chain.
use mathlib.Core.Path.{subst}
use p2p_auction.Prelude.{
  ◌-◌, String, eq_iff, ◌≡◌, ◌≢◌, refl, sym, ap, ◌∙◌, inl, inr, true, false, arith, length, take,
  take-contains, contains,
}
use p2p_auction.Prelude.Result.{Result, ok}
use p2p_auction.Env.{Env, IsLawful}
use p2p_auction.HashMap
use p2p_auction.HashMap.Laws.{get-insert}
use p2p_auction.Transaction.{Block}
use p2p_auction.Blockchain.{Blockchain, Ledger, execute_after_n_blocks}
use p2p_auction.Blockchain.Execute.Replay.World.{IsReplay, IsReplay-kept}
use p2p_auction.Blockchain.Prune.Chain.{settled}
use p2p_auction.Blockchain.Valid.{IsValid, Linked-known}
use p2p_auction.Blockchain.Fix.Finality.{NoForks, OneStart}
use p2p_auction.Blockchain.Fix.Replay.{fix-IsReplay, verified-IsNamed}
use p2p_auction.Blockchain.Accept.{push_block, accept_block}
use p2p_auction.Blockchain.Accept.Checks.{check_block_iff, parent-known, push_block-IsValid}
use p2p_auction.Blockchain.Accept.Laws.{accept_run, accept_or_unchanged}
use p2p_auction.Blockchain.Accept.Finality.{accept-settled}

module _ ⦃env : Env⦄ where
  settled-known :
      (c : Blockchain) (h : String)
      → IsValid c
      → contains (settled c.longest_chain) h ≡ true
      → HashMap.contains_key c.blocks h ≡ true
  settled-known c h v on =
      Linked-known c.blocks "0" c.longest_chain h v.map v.linked
        (take-contains (length c.longest_chain - execute_after_n_blocks) c.longest_chain h on)

  pushed-IsReplay :
      (b : Block) (c : Blockchain)
      → IsValid c
      → HashMap.contains_key c.blocks b.hash ≡ false
      → IsReplay (settled c.longest_chain) c
      → IsReplay (settled c.longest_chain) (push_block b c)
  unfolding push_block
  pushed-IsReplay b c v new =
      IsReplay-kept (settled c.longest_chain) c (push_block b c) (verified-IsNamed c v.verified)
        refl refl
        (λ h on. ground (
          arith,
          get-insert c.blocks b.hash b h,
          eq_iff b.hash h,
          ap (HashMap.contains_key c.blocks) {x = b.hash} {y = h},
          settled-known c h v on,
          new,
        ))

  -- The acceptance of a block keeps the world state that of the settled blocks, where it keeps these as the
  -- beginning of the new chain.
  pub kept-IsReplay :
      (laws : IsLawful env) (b : Block) (l : Ledger)
      → IsValid l.chain
      → (accept_block b l).0 ≡ ok tt
      → take (length l.chain.longest_chain - 2) (accept_block b l).1.chain.longest_chain
        ≡ settled l.chain.longest_chain
      → IsReplay (settled l.chain.longest_chain) l.chain
      → IsReplay (settled (accept_block b l).1.chain.longest_chain) (accept_block b l).1.chain
  unfolding push_block
  kept-IsReplay laws b l v good keeps r = elim (accept_or_unchanged laws b l v) [
    | inr (failed, same) ↦ absurd (failed good)
    | inl (fine, a, fixed) ↦
        let next : Ledger = record l { chain = push_block b (l.chain) } in
        let run = accept_run b l ((check_block_iff b l.chain v).1 a) in
        let valid =
          push_block-IsValid b l.chain v a.new_hash (parent-known b l.chain v a.parent_known)
            a.verified in
        let fixes = fix-IsReplay laws next valid (pushed-IsReplay b l.chain v a.new_hash r) (
          ap
            (λ (x : Result (Unit {0}) × Ledger).
              take (length l.chain.longest_chain - 2) x.1.chain.longest_chain)
            (sym run)
          ∙ keeps) in
        subst
          (λ (x : Result (Unit {0}) × Ledger). IsReplay (settled x.1.chain.longest_chain) x.1.chain)
          (sym run) fixes
  ]

  -- Given `IsLawful`, on a valid ledger where every known block that names "0", or a block of the chain with
  -- two blocks of the chain after it, as its parent is on the chain: where the accounts and auctions are those
  -- that the settled blocks lead to, executed in order from nothing, they still are after the acceptance of
  -- a block whose parent is not "0".
  pub accept-IsReplay :
      (laws : IsLawful env) (b : Block) (l : Ledger)
      → IsValid l.chain
      → NoForks l.chain.blocks l.chain.longest_chain
      → OneStart l.chain.blocks l.chain.longest_chain
      → b.previous_hash ≢ "0"
      → (accept_block b l).0 ≡ ok tt
      → IsReplay (settled l.chain.longest_chain) l.chain
      → IsReplay (settled (accept_block b l).1.chain.longest_chain) (accept_block b l).1.chain
  accept-IsReplay laws b l v forks start not_start good r =
      kept-IsReplay laws b l v good (accept-settled laws b l v forks start not_start good).0 r
