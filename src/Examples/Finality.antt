-- ===== src/Examples/Finality.antt =====
-- The theorems on proposals and on the settled part of the chain, at the concrete node.
use p2p_auction.Prelude.{
  ◌≡◌, ◌≢◌, refl, true, false, none, [], ◌∷◌, ◌⊎◌, ◌-◌, arith, length, ap, ◌∙◌, take, inl, eq_iff,
}
use p2p_auction.Prelude.Result.{Result, ok}
use p2p_auction.HashMap
use p2p_auction.Block
use p2p_auction.Pool
use p2p_auction.Pow
use p2p_auction.Header
use p2p_auction.Merkle
use p2p_auction.Transaction.{Block}
use p2p_auction.Transaction.Signing
use p2p_auction.Blockchain
use p2p_auction.Blockchain.{Blockchain, Ledger, execute_after_n_blocks}
use p2p_auction.Blockchain.Branch.{children, branch_map}
use p2p_auction.Blockchain.Valid.{IsValid}
use p2p_auction.Blockchain.Fix.Laws.{IsFixed, fix_lem}
use p2p_auction.Blockchain.Accept.{is_empty, push_block, check_block, accept_block, propose_block}
use p2p_auction.Blockchain.Accept.Checks.{push_block-IsValid, parent-known, check_block_iff}
use p2p_auction.Blockchain.Accept.Laws.{accept_run}
use p2p_auction.Blockchain.Accept.Finality.{accept-settled}
use p2p_auction.Blockchain.Fix.Finality.{NoForks, OneStart}
use p2p_auction.Blockchain.Prune.Chain.{settled}
use p2p_auction.Blockchain.Accept.Propose.{mined, pending, flushed, propose_lem}
use p2p_auction.Blockchain.Reachable.{new-IsValid}
use p2p_auction.Examples.Toy.{toy, toy-IsLawful}
use p2p_auction.Examples.Data.{first_verifies, register, first, second, begin}

abbrev one_pending : Ledger
one_pending = record {
  chain = record (Blockchain.new 4) { transaction_pool = ("t1", register) ∷ [] };
  notifiers = [];
}

one_pending-IsValid : IsValid one_pending.chain
one_pending-IsValid = record {
  map = tt;
  verified = λ h b e. (new-IsValid 4).verified h b e;
  rooted = λ h b e. (new-IsValid 4).rooted h b e;
  linked = tt;
  commited = refl;
  pool = record { keyed = (refl, tt); bounded = unfold Pool.len in omega arith };
}

nothing_known :
    (b : Block)
    → mined "ab" (ok 5 ∷ []) one_pending ≡ ok b
    → HashMap.contains_key one_pending.chain.blocks b.hash ≡ false
unfolding HashMap.contains_key
nothing_known b e = refl

propose_lem_example :
    ((b : Block) × (mined "ab" (ok 5 ∷ []) one_pending ≡ ok b)
      × (b.transactions ≡ pending "ab" (ok 5 ∷ []) one_pending)
      × (b.previous_hash ≡ Block.parent_or_genesis none)
      × ((propose_block "ab" (ok 5 ∷ []) one_pending).0 ≡ ok b)
      × IsFixed
          (push_block b (flushed one_pending).chain)
          (propose_block "ab" (ok 5 ∷ []) one_pending).1.chain)
    ⊎ (((is_empty (pending "ab" (ok 5 ∷ []) one_pending) ≡ true)
          ⊎ ((b : Block) → mined "ab" (ok 5 ∷ []) one_pending ≢ ok b))
        × ((b : Block) → (propose_block "ab" (ok 5 ∷ []) one_pending).0 ≢ ok b)
        × ((propose_block "ab" (ok 5 ∷ []) one_pending).1 ≡ flushed one_pending))
propose_lem_example =
    propose_lem "ab" (ok 5 ∷ []) one_pending toy-IsLawful one_pending-IsValid nothing_known

-- A node that has followed the first block.
abbrev one_block : Ledger
one_block = record {
  chain = record (Blockchain.new 4) {
    blocks = HashMap.insert [] first.hash first;
    longest_chain = first.hash ∷ [];
  };
  notifiers = [];
}

one_block-IsValid : IsValid one_block.chain
unfolding push_block branch_map children HashMap.get HashMap.insert HashMap.contains_key
one_block-IsValid =
    let v = push_block-IsValid first begin.chain (new-IsValid 4) refl (inl refl) first_verifies in
    record {
      map = v.map;
      verified = v.verified;
      rooted = v.rooted;
      linked = (refl, tt);
      commited = refl;
      pool = v.pool;
    }

one_block-NoForks : NoForks one_block.chain.blocks one_block.chain.longest_chain
one_block-NoForks h b e i = cc i

one_block-OneStart : OneStart one_block.chain.blocks one_block.chain.longest_chain
unfolding HashMap.get HashMap.insert
one_block-OneStart h b e g = ground arith

checks_second : check_block second one_block.chain ≡ ok tt
unfolding check_block HashMap.contains_key HashMap.get HashMap.insert HashMap.values Block.verify
    Header.new Header.hash Merkle.root Merkle.leaf_level Merkle.hash Merkle.climb Signing.hash
    Pow.verify
checks_second = refl

accepts_second : (accept_block second one_block).0 ≡ ok tt
accepts_second =
    let a = (check_block_iff second one_block.chain one_block-IsValid).0 checks_second in
    let next : Ledger = record one_block { chain = push_block second (one_block.chain) } in
    let v =
      push_block-IsValid second one_block.chain one_block-IsValid a.new_hash
        (parent-known second one_block.chain one_block-IsValid a.parent_known) a.verified in
    ap (λ (x : Result (Unit {0}) × Ledger). x.0) (accept_run second one_block checks_second)
    ∙ (fix_lem toy-IsLawful next v).0

accept-settled_example :
    (take
        (length one_block.chain.longest_chain - 2)
        (accept_block second one_block).1.chain.longest_chain
      ≡ settled one_block.chain.longest_chain)
    × NoForks
        (accept_block second one_block).1.chain.blocks
        (accept_block second one_block).1.chain.longest_chain
    × OneStart
        (accept_block second one_block).1.chain.blocks
        (accept_block second one_block).1.chain.longest_chain
accept-settled_example =
    accept-settled toy-IsLawful second one_block one_block-IsValid one_block-NoForks
      one_block-OneStart (λ e. cc ((eq_iff second.previous_hash "0").1 e)) accepts_second
