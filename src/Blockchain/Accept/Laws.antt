-- ===== src/Blockchain/Accept/Laws.antt =====
-- What `accept_block` of src/blockchain.rs accepts, and what it leaves.
use mathlib.Core.Path.{subst}
use p2p_auction.Prelude.{
  eq_self, ◌≡◌, ◌≢◌, refl, sym, ap, ◌∙◌, ◌⊎◌, inl, inr, true, false, contains, Bool-cases,
}
use p2p_auction.Prelude.Result.{
  Result, ok, err, panic, accept_block as accept_error, duplicate, pruned,
}
use p2p_auction.Env.{Env, IsLawful}
use p2p_auction.HashMap
use p2p_auction.HashMap.{HashMap}
use p2p_auction.HashMap.Laws.{contains_key-insert}
use p2p_auction.Transaction.{Block}
use p2p_auction.Blockchain.{Blockchain, Ledger}
use p2p_auction.Blockchain.Valid.{IsValid}
use p2p_auction.Blockchain.Fix.{fix}
use p2p_auction.Blockchain.Fix.Laws.{IsFixed, fix_lem}
use p2p_auction.Blockchain.Accept.{push_block, check_block, accept_block}
use p2p_auction.Blockchain.Accept.Checks.{
  IsAcceptable, check_block_iff, parent-known, push_block-IsValid,
}

module _ ⦃env : Env⦄ where
  pub accept_run :
      (b : Block) (l : Ledger)
      → check_block b l.chain ≡ ok tt
      → accept_block b l ≡ fix (record l { chain = push_block b (l.chain) })
  unfolding accept_block
  accept_run b l e = rw (e) refl

  -- Given `IsLawful`, on a valid ledger, `accept_block` either returns and takes the block, which is
  -- then acceptable, and the ledger is as `fix` leaves it with the block among those known; or it
  -- fails and changes nothing.
  pub accept_or_unchanged :
      IsLawful env
      → (b : Block) (l : Ledger) → IsValid l.chain
      → (((accept_block b l).0 ≡ ok tt)
          × IsAcceptable b l.chain
          × IsFixed (push_block b l.chain) (accept_block b l).1.chain)
        ⊎ (((accept_block b l).0 ≢ ok tt) × ((accept_block b l).1 ≡ l))
  unfolding accept_block
  accept_or_unchanged laws b l v = split (check_block b l.chain) refl
    where
      split :
          (r : Result (Unit {0}))
          → check_block b l.chain ≡ r
          → (((accept_block b l).0 ≡ ok tt)
              × IsAcceptable b l.chain
              × IsFixed (push_block b l.chain) (accept_block b l).1.chain)
            ⊎ (((accept_block b l).0 ≢ ok tt) × ((accept_block b l).1 ≡ l))
      split (ok tt) e =
          let a = (check_block_iff b l.chain v).0 e in
          let next : Ledger = record l { chain = push_block b (l.chain) } in
          let run = accept_run b l e in
          let (f, g) = fix_lem laws next (
            push_block-IsValid b l.chain v a.new_hash (parent-known b l.chain v a.parent_known)
              a.verified) in
          inl (
            ap (λ (x : Result (Unit {0}) × Ledger). x.0) run ∙ f,
            a,
            subst (λ (x : Result (Unit {0}) × Ledger). IsFixed (push_block b l.chain) x.1.chain)
                (sym run) g,
          )
      split (err x) e = inr (rw (e) (λ f. cc f), rw (e) refl)
      split (panic x) e = inr (rw (e) (λ f. cc f), rw (e) refl)

  refused_duplicate :
      (b : Block) (l : Ledger)
      → HashMap.contains_key l.chain.blocks b.hash ≡ true
      → (accept_block b l).0 ≡ err (accept_error duplicate)
  unfolding accept_block check_block
  refused_duplicate b l e = rw (e) refl

  refused_pruned :
      (b : Block) (l : Ledger)
      → HashMap.contains_key l.chain.blocks b.hash ≡ false
      → contains l.chain.pruned b.hash ≡ true
      → (accept_block b l).0 ≡ err (accept_error pruned)
  unfolding accept_block check_block
  refused_pruned b l e f = rw (e, f) refl

  pub pushed :
      (b : Block) (c : Blockchain) → HashMap.contains_key (push_block b c).blocks b.hash ≡ true
  unfolding push_block
  pushed b c = rw (contains_key-insert c.blocks b.hash b b.hash, eq_self b.hash) refl

  -- Given `IsLawful`, a block that a valid ledger took is refused when it comes again right after,
  -- as a duplicate or as pruned.
  pub accept_twice :
      IsLawful env
      → (b : Block) (l : Ledger) → IsValid l.chain
      → (accept_block b l).0 ≡ ok tt
      → ((accept_block b (accept_block b l).1).0 ≡ err (accept_error duplicate))
        ⊎ ((accept_block b (accept_block b l).1).0 ≡ err (accept_error pruned))
  accept_twice laws b l v e = elim (accept_or_unchanged laws b l v) [
    | inr (failed, same) ↦ absurd (failed e)
    | inl (good, a, fixed) ↦
        elim (Bool-cases (HashMap.contains_key (accept_block b l).1.chain.blocks b.hash)) [
          | inl known ↦ inl (refused_duplicate b (accept_block b l).1 known)
          | inr gone ↦ inr (
              refused_pruned b (accept_block b l).1 gone
                (fixed.pruning.marked b.hash (pushed b l.chain) gone))
        ]
  ]
