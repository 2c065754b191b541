-- ===== src/Blockchain/Execute/Replay.antt =====
-- The world state that a list of blocks leads to from nothing, against the loops of `execute_transactions` of
-- src/blockchain.rs.
pub mod Same
pub mod World
use p2p_auction.Prelude.{
  ℕ, zero, suc, ◌+◌, String, ◌≡◌, refl, sym, ap, ◌∙◌, inl, inr, Option, none, some, List, [], ◌∷◌,
  ◌++◌, arith, take, drop, drop-some, drop-past, take-nil, get_elem?, Option-cases,
}
use p2p_auction.Env.{Env}
use p2p_auction.HashMap
use p2p_auction.HashMap.{HashMap}
use p2p_auction.Transaction.{Transaction, Block}
use p2p_auction.Blockchain
use p2p_auction.Blockchain.{Blockchain, Ledger}
use p2p_auction.Blockchain.Execute.{
  execute_single_transaction, execute_and_notify, execute_block, execute_hash, execute_range,
}

module _ ⦃env : Env⦄ where
  -- The transactions of a block in order; one that fails changes nothing.
  unfoldable pub run_transactions : List Transaction → String → Blockchain → Blockchain
  run_transactions [] h c = c
  run_transactions (t ∷ ts) h c = run_transactions ts h (execute_single_transaction t h c).1

  unfoldable pub run_block : Option Block → Blockchain → Blockchain
  unfolding run_transactions
  run_block none c = c
  run_block (some b) c = run_transactions b.transactions b.hash c

  -- The blocks under these hashes, where they are known.
  unfoldable pub run : List String → Blockchain → Blockchain
  unfolding run_block
  run [] c = c
  run (h ∷ hs) c = run hs (run_block (HashMap.get c.blocks h) c)

  -- The world state after these blocks, from no accounts and no auctions.
  abbrev pub world_of : HashMap Block → List String → Blockchain
  world_of blocks hs = run hs (record (Blockchain.new 0) { blocks = blocks })

  execute_block-run :
      (ts : List Transaction) (h : String) (l : Ledger)
      → (execute_block ts h l).chain ≡ run_transactions ts h l.chain
  unfolding execute_block run_transactions execute_and_notify
  execute_block-run [] h l = refl
  execute_block-run (t ∷ ts) h l = execute_block-run ts h (execute_and_notify t h l)

  execute_hash-run :
      (h : String) (l : Ledger)
      → (execute_hash (some h) l).chain ≡ run_block (HashMap.get l.chain.blocks h) l.chain
  unfolding execute_hash run_block
  execute_hash-run h l = from (HashMap.get l.chain.blocks h)
    where
      from :
          (o : Option Block)
          → (elim o as (λ _. Ledger) [
            | none ↦ l
            | some b ↦ execute_block b.transactions b.hash l
          ]).chain
            ≡ run_block o l.chain
      from none = refl
      from (some b) = execute_block-run b.transactions b.hash l

  pub run-append : (xs ys : List String) (c : Blockchain) → run (xs ++ ys) c ≡ run ys (run xs c)
  unfolding run
  run-append [] ys c = refl
  run-append (x ∷ xs) ys c = run-append xs ys (run_block (HashMap.get c.blocks x) c)

  -- The loop over positions runs the blocks that the chain has there.
  pub execute_range-run :
      (chain : List String) (left i : ℕ) (l : Ledger)
      → (execute_range chain left i l).chain ≡ run (take left (drop i chain)) l.chain
  unfolding execute_range run
  execute_range-run chain zero i l = refl
  execute_range-run chain (suc left) i l =
      at (get_elem? chain i) refl (execute_range-run chain left (i + 1))
    where
      at :
          (o : Option String)
          → get_elem? chain i ≡ o
          → ((l' : Ledger)
              → (execute_range chain left (i + 1) l').chain
                ≡ run (take left (drop (i + 1) chain)) l'.chain)
          → (execute_range chain left (i + 1) (execute_hash o l)).chain
            ≡ run (take (suc left) (drop i chain)) l.chain
      at none e rest =
          let (here, later) = drop-past chain i e in
          rest l
          ∙ ap (λ k. run (take left (drop k chain)) l.chain) {x = i + 1} {y = suc i} (omega arith)
          ∙ ap (λ hs. run (take left hs) l.chain) later
          ∙ ap (λ hs. run hs l.chain) (take-nil left)
          ∙ ap (λ hs. run (take (suc left) hs) l.chain) (sym here)
      at (some h) e rest =
          rest (execute_hash (some h) l)
          ∙ ap (λ k. run (take left (drop k chain)) (execute_hash (some h) l).chain) {x = i + 1}
              {y = suc i} (omega arith)
          ∙ ap (run (take left (drop (suc i) chain))) (execute_hash-run h l)
          ∙ ap (λ hs. run (take (suc left) hs) l.chain) (sym (drop-some chain i h e))
