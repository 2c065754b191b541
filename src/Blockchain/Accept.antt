-- ===== src/Blockchain/Accept.antt =====
-- src/blockchain.rs, `accept_block`, `propose_block` and `verify`.
pub mod Checks
pub mod Laws
pub mod Propose
pub mod Finality
pub mod Replay
pub mod CatchUp
pub mod Converge
use p2p_auction.Prelude.{
  ℕ, suc, String, ◌==◌, Bool, true, false, not, ◌&&◌, ◌||◌, Option, none, some, List, [], ◌∷◌,
  length, get_last?, contains, if◌then◌else◌,
}
use p2p_auction.Prelude.Result.{
  Result, ok, err, Error, accept_block as accept_error, message, AcceptBlockError, duplicate,
  pruned, pruned_parent, invalid_hash, orphan, wrong_transaction_order, ◌>>=◌ as bind,
}
use p2p_auction.Prelude.Exec.{Exec, lift, gets, modify, ◌>>=◌, ◌>>◌}
use p2p_auction.Env.{Env}
use p2p_auction.HashMap
use p2p_auction.HashMap.{HashMap}
use p2p_auction.Merkle
use p2p_auction.Block
use p2p_auction.Pool
use p2p_auction.Transaction.{Transaction, Block}
use p2p_auction.Transaction.Signing
use p2p_auction.Blockchain.{Blockchain, Ledger}
use p2p_auction.Blockchain.Fix.{fix}

-- Some known block has this hash.
unfoldable pub any_hash : String → List Block → Bool
any_hash h [] = false
any_hash h (b ∷ bs) = (b.hash == h) || any_hash h bs

unfoldable pub has_previous_block : String → Blockchain → Bool
unfolding any_hash
has_previous_block previous_hash c =
    if previous_hash == "0" then true else any_hash previous_hash (HashMap.values c.blocks)

unfoldable pub push_block : Block → Blockchain → Blockchain
push_block block c = record c { blocks = HashMap.insert c.blocks block.hash block }

-- An error where a test holds.
abbrev pub refuse : Bool → Error → Result (Unit {0})
refuse true e = err e
refuse false e = ok tt

abbrev missing : Error
missing = message "Couldn't find a block of the longest chain."

module _ ⦃env : Env⦄ where
  -- One round of `verify`: the block is known, and verifies.
  unfoldable pub verify_hash : HashMap Block → String → Result (Unit {0})
  verify_hash blocks h = elim (HashMap.get blocks h) [
    | none ↦ err missing
    | some b ↦ bind (Block.verify b) (λ valid. refuse (not valid) missing)
  ]

  unfoldable pub verify_hashes : HashMap Block → List String → Result (Unit {0})
  unfolding verify_hash
  verify_hashes blocks [] = ok tt
  verify_hashes blocks (h ∷ hs) = bind (verify_hash blocks h) (λ _. verify_hashes blocks hs)

  unfoldable pub verify : Blockchain → Result (Unit {0})
  unfolding verify_hashes
  verify c = verify_hashes c.blocks c.longest_chain

  -- The checks of `accept_block`, up to the first that fails.
  unfoldable pub check_block : Block → Blockchain → Result (Unit {0})
  unfolding has_previous_block verify
  check_block block c =
      bind (refuse (HashMap.contains_key c.blocks block.hash) (accept_error duplicate)) λ _.
        bind (refuse (contains c.pruned block.hash) (accept_error pruned)) λ _.
          bind (refuse (contains c.pruned block.previous_hash) (accept_error pruned_parent)) λ _.
            bind (Block.verify block) λ valid.
              bind (refuse (not valid) (accept_error invalid_hash)) λ _.
                bind (refuse (not (has_previous_block block.previous_hash c)) (accept_error orphan))
                  λ _. bind (Merkle.root Signing.hash block.transactions) λ root.
                    bind
                      (refuse (not (root == block.merkle_root))
                        (accept_error wrong_transaction_order))
                      λ _. verify c

  unfoldable pub accept_block : Block → Exec Ledger (Unit {0})
  unfolding check_block push_block fix
  accept_block block = do
    chain ← gets (λ l. l.chain)
    lift (check_block block chain)
    modify (λ l. record l { chain = push_block block (l.chain) })
    fix

  -- `transaction_pool.flush()`.
  unfoldable pub flush_pool : Exec Ledger (List Transaction)
  flush_pool l =
      let (transactions, pool) = Pool.flush l.chain.transaction_pool in
      (ok transactions, record l { chain = record (l.chain) { transaction_pool = pool } })

  abbrev nothing_pending : Error
  nothing_pending =
      message "There needs to be at least one transaction for a block to be generated."

  abbrev pub is_empty : List Transaction → Bool
  is_empty [] = true
  is_empty (t ∷ ts) = false

  unfoldable pub propose_block : String → List (Result ℕ) → Exec Ledger Block
  unfolding flush_pool push_block fix
  propose_block public_key clock = do
    transactions ← flush_pool
    lift (refuse (is_empty transactions) nothing_pending)
    chain ← gets (λ l. l.chain)
    block_to_append ←
        lift
          (Block.new public_key (get_last? chain.longest_chain) transactions chain.difficulty clock)
    valid ← lift (Block.verify block_to_append)
    lift (refuse (not valid) (message "Failed to produce a valid block."))
    modify (λ l. record l { chain = push_block block_to_append (l.chain) })
    fix
    lift (ok block_to_append)
