-- ===== src/Blockchain/Execute/Frame.antt =====
-- What `execute_transactions` of src/blockchain.rs leaves alone: it writes the world state, the
-- notifiers and the committed position.
use p2p_auction.Prelude.{
  ℕ, zero, suc, ◌+◌, ◌-◌, String, ◌≡◌, refl, ap, ◌∙◌, Option, none, some, List, [], ◌∷◌, arith,
  length, get_elem?, Option-cases, inl, inr,
}
use p2p_auction.Prelude.Result.{Result, ok, err, panic}
use p2p_auction.Prelude.Exec.{lift, ◌>>◌}
use p2p_auction.Env.{Env}
use p2p_auction.HashMap
use p2p_auction.HashMap.{HashMap}
use p2p_auction.Transaction.{
  Data, Transaction, create_user_account, bid, create_auction as create_auction_data, stop_auction,
}
use p2p_auction.Transaction.Signing
use p2p_auction.Blockchain.{
  Blockchain, Ledger, create_account, create_auction, remove_auction, execute_after_n_blocks,
}
use p2p_auction.Blockchain.Execute.{
  use_nonce, execute_record, execute_single_transaction, execute_and_notify, execute_block,
  execute_hash, execute_range, execute_transactions,
}

-- Two chains that differ in their accounts and auctions alone.
abbrev pub SameBlocks : Blockchain → Blockchain → Type 0
SameBlocks c d =
    (c.blocks ≡ d.blocks)
    × (c.longest_chain ≡ d.longest_chain)
    × (c.commited_pointer ≡ d.commited_pointer)
    × (c.transaction_pool ≡ d.transaction_pool)
    × (c.difficulty ≡ d.difficulty)
    × (c.pruned ≡ d.pruned)

same : (c : Blockchain) → SameBlocks c c
same c = (refl, refl, refl, refl, refl, refl)

SameBlocks-trans : (c d e : Blockchain) → SameBlocks c d → SameBlocks d e → SameBlocks c e
SameBlocks-trans c d e (a1, a2, a3, a4, a5, a6) (b1, b2, b3, b4, b5, b6) =
    (a1 ∙ b1, a2 ∙ b2, a3 ∙ b3, a4 ∙ b4, a5 ∙ b5, a6 ∙ b6)

use_nonce-SameBlocks : (t : Transaction) (c : Blockchain) → SameBlocks (use_nonce t c).1 c
unfolding use_nonce
use_nonce-SameBlocks t c = ground arith

execute_record-SameBlocks :
    (d : Data) (t : Transaction) (h : String) (c : Blockchain)
    → SameBlocks (execute_record d t h c).1 c
unfolding execute_record create_account create_auction remove_auction use_nonce
execute_record-SameBlocks (create_user_account public_key) t h c = ground arith
execute_record-SameBlocks (bid a m) t h c = ground arith
execute_record-SameBlocks (create_auction_data a m s) t h c = ground arith
execute_record-SameBlocks (stop_auction a) t h c = ground arith

module _ ⦃env : Env⦄ where
  pub execute_single_transaction-SameBlocks :
      (t : Transaction) (h : String) (c : Blockchain)
      → SameBlocks (execute_single_transaction t h c).1 c
  unfolding execute_single_transaction
  execute_single_transaction-SameBlocks t h c = split (Signing.verify t)
    where
      split : (r : Result (Unit {0})) → SameBlocks ((lift r >> execute_record t.payload t h) c).1 c
      split (ok tt) = execute_record-SameBlocks t.payload t h c
      split (err e) = same c
      split (panic p) = same c

  execute_block-SameBlocks :
      (ts : List Transaction) (h : String) (l : Ledger)
      → SameBlocks (execute_block ts h l).chain l.chain
  unfolding execute_block execute_and_notify
  execute_block-SameBlocks [] h l = same l.chain
  execute_block-SameBlocks (t ∷ ts) h l =
      SameBlocks-trans (execute_block ts h (execute_and_notify t h l)).chain
        (execute_and_notify t h l).chain l.chain
        (execute_block-SameBlocks ts h (execute_and_notify t h l))
        (execute_single_transaction-SameBlocks t h l.chain)

  execute_hash-SameBlocks :
      (o : Option String) (l : Ledger) → SameBlocks (execute_hash o l).chain l.chain
  unfolding execute_hash
  execute_hash-SameBlocks none l = same l.chain
  execute_hash-SameBlocks (some h) l = elim (Option-cases (HashMap.get l.chain.blocks h)) [
    | inl e ↦ rw (e, execute_hash) (same l.chain)
    | inr (b, e) ↦ rw (e, execute_hash) (execute_block-SameBlocks b.transactions b.hash l)
  ]

  pub execute_range-SameBlocks :
      (chain : List String) (left i : ℕ) (l : Ledger)
      → SameBlocks (execute_range chain left i l).chain l.chain
  unfolding execute_range
  execute_range-SameBlocks chain zero i l = same l.chain
  execute_range-SameBlocks chain (suc left) i l =
      let next = execute_hash (get_elem? chain i) l in
      SameBlocks-trans (execute_range chain left (i + 1) next).chain next.chain l.chain
        (execute_range-SameBlocks chain left (i + 1) next)
        (execute_hash-SameBlocks (get_elem? chain i) l)

  -- `execute_transactions` keeps the blocks, the chain, the pool, the difficulty and the pruned
  -- hashes, and moves the committed position to two blocks from the end of the chain, or leaves it
  -- where it is further.
  pub execute_transactions_lem :
      (l : Ledger)
      → let d = (execute_transactions l).chain in
        let c = l.chain in
        (d.blocks ≡ c.blocks)
        × (d.longest_chain ≡ c.longest_chain)
        × (d.transaction_pool ≡ c.transaction_pool)
        × (d.difficulty ≡ c.difficulty)
        × (d.pruned ≡ c.pruned)
        × (d.commited_pointer
            ≡ c.commited_pointer
              + ((length c.longest_chain - execute_after_n_blocks) - c.commited_pointer))
  unfolding execute_transactions
  execute_transactions_lem l =
      let count =
        (length l.chain.longest_chain - execute_after_n_blocks) - l.chain.commited_pointer in
      let (b, k, p, t, d, r) =
        execute_range-SameBlocks l.chain.longest_chain count l.chain.commited_pointer l in
      (b, k, t, d, r, ap (λ n. n + count) p)
