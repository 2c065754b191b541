-- ===== src/Blockchain/Accept/Finality.antt =====
-- What `accept_block` of src/blockchain.rs does not undo: the settled part of the chain.
use p2p_auction.Prelude.{◌-◌, ◌≡◌, ◌≢◌, sym, ap, ◌∙◌, inl, inr, length, take}
use p2p_auction.Prelude.Result.{ok}
use p2p_auction.Env.{Env, IsLawful}
use p2p_auction.HashMap
use p2p_auction.Transaction.{Block}
use p2p_auction.Blockchain.{Blockchain, Ledger}
use p2p_auction.Blockchain.Prune.Chain.{settled}
use p2p_auction.Blockchain.Valid.{IsValid, no_genesis}
use p2p_auction.Blockchain.Fix.Laws.{IsFixed, best-Linked}
use p2p_auction.Blockchain.Fix.Finality.{NoForks, OneStart, settled_prefix, start_stays}
use p2p_auction.Blockchain.Accept.{push_block, accept_block}
use p2p_auction.Blockchain.Accept.Checks.{IsAcceptable, push_block-IsValid, parent-known}
use p2p_auction.Blockchain.Accept.Laws.{accept_or_unchanged, pushed}

module _ ⦃env : Env⦄ (laws : IsLawful env) where
  -- What `fix` leaves of a chain with no forks, after a block was pushed that has a parent.
  pub fixed-settled :
      (b : Block) (c d : Blockchain)
      → IsValid c
      → NoForks c.blocks c.longest_chain
      → OneStart c.blocks c.longest_chain
      → IsAcceptable b c
      → b.previous_hash ≢ "0"
      → IsFixed (push_block b c) d
      → (take (length c.longest_chain - 2) d.longest_chain ≡ settled c.longest_chain)
        × NoForks d.blocks d.longest_chain
        × OneStart d.blocks d.longest_chain
  unfolding push_block
  fixed-settled b c d v forks start a start_new fixed =
      let parent = parent-known b c v a.parent_known in
      let next = push_block-IsValid b c v a.new_hash parent a.verified in
      let zero_unknown = no_genesis laws c.blocks v.verified in
      let not_zero : b.hash ≢ "0" = λ e. cc (
        ap (HashMap.contains_key (push_block b c).blocks) e,
        pushed b c,
        no_genesis laws (push_block b c).blocks next.verified,
      ) in
      let linked = best-Linked (push_block b c) d.longest_chain fixed.best in
      let keeps =
        settled_prefix c.blocks v.map zero_unknown v.rooted c.longest_chain v.linked forks start b
          a.new_hash not_zero parent start_new d.longest_chain fixed.longer linked in
      let starts =
        start_stays c.blocks v.map zero_unknown v.rooted c.longest_chain v.linked forks start b
          a.new_hash not_zero parent start_new d.longest_chain fixed.longer linked in
      (
        keeps,
        fixed.pruning.no_forks,
        λ h x e g. elim (fixed.pruning.dropped h) [
          | inl gone ↦ cc (e, gone)
          | inr same ↦ starts h x (sym same ∙ e) g
        ],
      )

  -- Given `IsLawful`, on a valid ledger where every known block that names "0", or a block of the
  -- chain with two blocks of the chain after it, as its parent is on the chain: the acceptance of a
  -- block whose parent is not "0" keeps all of the chain but its last two blocks as the beginning of
  -- the new chain, and leaves a ledger of which the same holds. What was executed is never undone.
  pub accept-settled :
      (b : Block) (l : Ledger)
      → IsValid l.chain
      → NoForks l.chain.blocks l.chain.longest_chain
      → OneStart l.chain.blocks l.chain.longest_chain
      → b.previous_hash ≢ "0"
      → (accept_block b l).0 ≡ ok tt
      → (take (length l.chain.longest_chain - 2) (accept_block b l).1.chain.longest_chain
          ≡ settled l.chain.longest_chain)
        × NoForks (accept_block b l).1.chain.blocks (accept_block b l).1.chain.longest_chain
        × OneStart (accept_block b l).1.chain.blocks (accept_block b l).1.chain.longest_chain
  accept-settled b l v forks start start_new e = elim (accept_or_unchanged laws b l v) [
    | inr (failed, same) ↦ absurd (failed e)
    | inl (good, a, fixed) ↦
        fixed-settled b l.chain (accept_block b l).1.chain v forks start a start_new fixed
  ]
