-- ===== src/Blockchain/Accept/Propose.antt =====
-- What `propose_block` of src/blockchain.rs makes of the pending transactions.
use mathlib.Core.Path.{subst}
use p2p_auction.Prelude.{
  ℕ, String, ◌≡◌, ◌≢◌, refl, sym, ap, ◌⊎◌, inl, inr, true, false, List, arith, get_last?, contains,
  Option-cases, eq_iff, some, ◌∷◌, [], ◌∙◌, Bool-cases,
}
use p2p_auction.Prelude.Result.{Result, ok, err, panic}
use p2p_auction.Env.{Env, IsLawful}
use p2p_auction.HashMap
use p2p_auction.HashMap.{HashMap}
use p2p_auction.Block
use p2p_auction.Block.Laws.{verify-new}
use p2p_auction.Pool
use p2p_auction.Transaction.{Transaction, Block}
use p2p_auction.Blockchain.{Blockchain, Ledger}
use p2p_auction.Blockchain.Valid.{HasParent, Linked-known, IsValid}
use p2p_auction.Blockchain.Fix.{fix}
use p2p_auction.Blockchain.Fix.Laws.{IsFixed, fix_lem}
use p2p_auction.Blockchain.Accept.{push_block, is_empty, flush_pool, propose_block}
use p2p_auction.Blockchain.Accept.Checks.{push_block-IsValid}

-- The pool emptied, as `flush` leaves it.
abbrev pub flushed : Ledger → Ledger
flushed l = record l { chain = record (l.chain) { transaction_pool = Pool.new } }

module _ ⦃env : Env⦄ where
  pub flushed-IsValid : (l : Ledger) → IsValid l.chain → IsValid (flushed l).chain
  flushed-IsValid l v = record {
    map = v.map;
    verified = v.verified;
    rooted = v.rooted;
    linked = v.linked;
    commited = v.commited;
    pool = record { keyed = tt; bounded = unfold Pool.len in omega arith };
  }

  last_on_chain :
      (path : List String) {h : String} → get_last? path ≡ some h → contains path h ≡ true
  last_on_chain [] e = cc
  last_on_chain (x ∷ []) {h = h} e = ground (arith, eq_iff x h)
  last_on_chain (x ∷ y ∷ path) {h = h} e = ground (arith, last_on_chain (y ∷ path) {h = h} e)

  ends_known :
      (b : Block) (c : Blockchain)
      → IsValid c
      → b.previous_hash ≡ Block.parent_or_genesis (get_last? c.longest_chain)
      → HasParent c.blocks b
  unfolding Block.parent_or_genesis
  ends_known b c v e = elim (Option-cases (get_last? c.longest_chain)) [
    | inl f ↦ inl (e ∙ ap Block.parent_or_genesis f)
    | inr (h, f) ↦ inr (
        ap (HashMap.contains_key c.blocks) (e ∙ ap Block.parent_or_genesis f)
        ∙ Linked-known c.blocks "0" c.longest_chain h v.map v.linked
            (last_on_chain c.longest_chain f))
  ]

  module _ (public_key : String) (clock : List (Result ℕ)) (l : Ledger) where
    abbrev pub pending : List Transaction
    pending = Pool.to_sorted_queue l.chain.transaction_pool

    -- `Block::new` as it is called.
    abbrev pub mined : Result Block
    mined = Block.new public_key (get_last? l.chain.longest_chain) pending l.chain.difficulty clock

    mined_run :
        (b : Block)
        → is_empty pending ≡ false
        → mined ≡ ok b
        → Block.verify b ≡ ok true
        → (fix (record (flushed l) { chain = push_block b (flushed l).chain })).0 ≡ ok tt
        → propose_block public_key clock l
          ≡ (ok b, (fix (record (flushed l) { chain = push_block b (flushed l).chain })).1)
    unfolding propose_block flush_pool Pool.flush
    mined_run b e f g h = rw (e, f, g, h) refl

    -- Given `IsLawful`, on a valid ledger, where what is mined has a hash that is not known yet,
    -- `propose_block` has one of two outcomes. Where nothing is pending or `Block::new` returns no
    -- block, it returns no block, and leaves the ledger with an empty pool and all else as it was:
    -- what was pending is lost. Where a block is mined, it holds the pending transactions in the
    -- order of the queue and names the end of the chain, or "0", as its parent; the call returns it
    -- and leaves the ledger as `fix` does with the pool empty and the block among those known.
    pub propose_lem :
        IsLawful env
        → IsValid l.chain
        → ((b : Block) → mined ≡ ok b → HashMap.contains_key l.chain.blocks b.hash ≡ false)
        → ((b : Block) × (mined ≡ ok b)
            × (b.transactions ≡ pending)
            × (b.previous_hash ≡ Block.parent_or_genesis (get_last? l.chain.longest_chain))
            × ((propose_block public_key clock l).0 ≡ ok b)
            × IsFixed (push_block b (flushed l).chain) (propose_block public_key clock l).1.chain)
          ⊎ (((is_empty pending ≡ true) ⊎ ((b : Block) → mined ≢ ok b))
              × ((b : Block) → (propose_block public_key clock l).0 ≢ ok b)
              × ((propose_block public_key clock l).1 ≡ flushed l))
    unfolding propose_block flush_pool Pool.flush
    propose_lem laws v new = elim (Bool-cases (is_empty pending)) [
      | inl e ↦ inr (inl e, (λ b. rw (e) (λ f. cc f)), rw (e) refl)
      | inr e ↦ from mined refl e
    ]
      where
        from :
            (r : Result Block)
            → mined ≡ r
            → is_empty pending ≡ false
            → ((b : Block) × (mined ≡ ok b)
                × (b.transactions ≡ pending)
                × (b.previous_hash ≡ Block.parent_or_genesis (get_last? l.chain.longest_chain))
                × ((propose_block public_key clock l).0 ≡ ok b)
                × IsFixed
                    (push_block b (flushed l).chain)
                    (propose_block public_key clock l).1.chain)
              ⊎ (((is_empty pending ≡ true) ⊎ ((b : Block) → mined ≢ ok b))
                  × ((b : Block) → (propose_block public_key clock l).0 ≢ ok b)
                  × ((propose_block public_key clock l).1 ≡ flushed l))
        from (ok b) f e =
            let (good, parent, same, miner, bound) =
              verify-new public_key (get_last? l.chain.longest_chain) pending l.chain.difficulty
                clock {b = b} f in
            let next : Ledger = record (flushed l) { chain = push_block b (flushed l).chain } in
            let (g, fixed) = fix_lem laws next (
              push_block-IsValid b (flushed l).chain (flushed-IsValid l v) (new b f)
                (ends_known b l.chain v parent) good) in
            let run = mined_run b e f good g in
            inl (
              b,
              f,
              same,
              parent,
              ap (λ (x : Result Block × Ledger). x.0) run,
              subst
                  (λ (x : Result Block × Ledger).
                    IsFixed (push_block b (flushed l).chain) x.1.chain)
                  (sym run) fixed,
            )
        from (err x) f e =
            inr (inr (λ b g. cc (f, g)), (λ b. rw (e, f) (λ g. cc g)), rw (e, f) refl)
        from (panic x) f e =
            inr (inr (λ b g. cc (f, g)), (λ b. rw (e, f) (λ g. cc g)), rw (e, f) refl)
