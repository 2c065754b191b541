-- ===== src/Vm.antt =====
-- src/vm.rs: the actions that a line of input stands for, and the tasks of `run` beside the RPC server:
-- each task is a function for one round, and Vm/System runs them in any order.
pub mod Actions
pub mod Stops
pub mod Queue
pub mod System
use p2p_auction.Prelude.{
  ℕ, suc, ◌-◌, String, ◌==◌, leb, Bool, true, false, Option, none, some, List, [], ◌∷◌, ◌++◌,
  if◌then◌else◌,
}
use p2p_auction.Prelude.Result.{Result, ok, err, panic, Error, message, ◌>>=◌}
use p2p_auction.Env.{Env}
use p2p_auction.Hash
use p2p_auction.HashMap.{HashMap}
use p2p_auction.Transaction.{Data, Transaction, Block, stop_auction, create_user_account}
use p2p_auction.Transaction.Signing
use p2p_auction.Pool
use p2p_auction.Blockchain.{Blockchain, Ledger, get_account}
use p2p_auction.Blockchain.Accept.{propose_block}
use p2p_auction.State.{State}
use p2p_auction.Runtime.{ledger, set_ledger}
use p2p_auction.Network.{Effect, send_request, longest_chain_hashes}

-- `REQUEST_LONGEST_CHAIN_AFTER`, in the unit of an `Instant`.
abbrev pub request_longest_chain_after : ℕ
request_longest_chain_after = 30000

-- `tx.send(block)`, where there is a block.
unfoldable pub enqueue : Result Block → List Block → List Block
enqueue (ok block) channel = channel ++ (block ∷ [])
enqueue _ channel = channel

module _ ⦃env : Env⦄ where
  -- The text of the public key of the node.
  abbrev pub public_text : env.Keypair → String
  public_text keys = Hash.public_key_to_string (env.public keys)

  -- The transaction that stops an auction, where the node has an account and the signature succeeds.
  unfoldable pub stop_transaction :
      env.Keypair → String → Result ℕ → Blockchain → Option Transaction
  stop_transaction keys id now c = elim (get_account c (public_text keys)) [
    | none ↦ none
    | some account ↦
        elim (Signing.sign (stop_auction id) (public_text keys) account.nonce keys now) [
          | ok t ↦ some t
          | _ ↦ none
        ]
  ]

  unfoldable pub push_pending : Option Transaction → Blockchain → Blockchain
  push_pending none c = c
  push_pending (some t) c = record c {
    transaction_pool = Pool.add_transaction c.transaction_pool t;
  }

  -- One auction of the loop: the account is read, and the pool of the chain written.
  unfoldable pub stop_one : env.Keypair → String → Result ℕ → Blockchain → Blockchain
  unfolding stop_transaction push_pending
  stop_one keys id now c = push_pending (stop_transaction keys id now c) c

  -- `for (id, (_, stop_time)) in auctions.iter()`, over the auctions that were read before the loop.
  unfoldable pub stop_all :
      env.Keypair → ℕ → (ℕ → Result ℕ) → HashMap (String × ℕ) → Blockchain → Blockchain
  unfolding stop_one
  stop_all keys time clock [] c = c
  stop_all keys time clock ((id, (block_id, stop_time)) ∷ auctions) c =
      stop_all keys time (λ i. clock (suc i)) auctions
        (if leb stop_time time then stop_one keys id (clock 0) c else c)

  -- One round of the task, with no other task between its auctions; where the clock fails, none.
  unfoldable pub stop_round : env.Keypair → Result ℕ → (ℕ → Result ℕ) → Blockchain → Blockchain
  unfolding stop_all
  stop_round keys now clock c = elim now [ ok time ↦ stop_all keys time clock c.auctions c | _ ↦ c ]

  -- One round of the task that mines.
  unfoldable pub propose_round :
      env.Keypair → List (Result ℕ) → List Block → State → List Block × State
  unfolding enqueue
  propose_round keys clock channel s =
      let (result, l) = propose_block (public_text keys) clock (ledger s) in
      (enqueue result channel, set_ledger l s)

  -- The account of the miner, at the start of `run`.
  unfoldable pub add_miner : env.Keypair → Result ℕ → State → Result State
  add_miner keys now s = do
    t ← Signing.sign (create_user_account (public_text keys)) (public_text keys) 0 keys now
    ok (record s {
      blockchain = record (s.blockchain) {
        transaction_pool = Pool.add_transaction s.blockchain.transaction_pool t;
      };
    })

-- No block was accepted for a while.
unfoldable pub stale : Option ℕ → ℕ → Bool
stale none now = true
stale (some t) now = leb request_longest_chain_after (now - t)

-- The arm for a block of the channel: it is published, or it goes to the end of the channel again.
unfoldable pub publish_next : Bool → Block → List Block → List Block × List Block
publish_next true block channel = (block ∷ [], channel)
publish_next false block channel = ([], channel ++ (block ∷ []))

-- The arm for a stale chain: the first peer is asked.
unfoldable pub request_chain : List String → List Effect
request_chain [] = []
request_chain (peer ∷ peers) = send_request peer longest_chain_hashes ∷ []
