-- ===== src/Blockchain/Execute.antt =====
-- src/blockchain.rs, `execute_single_transaction` and `execute_transactions`.
pub mod Laws
pub mod Frame
pub mod Replay
pub mod Nonce
pub mod Auctions
pub mod Takeover
use p2p_auction.Prelude.{
  ℕ, zero, suc, ◌+◌, ◌-◌, ◌%◌, ◌^◌, String, ◌==◌, nat_eq, ltb, Bool, true, false, not, ◌&&◌, Option,
  none, some, List, [], ◌∷◌, length, get_elem?, if◌then◌else◌,
}
use p2p_auction.Prelude.Result.{Result, ok, err, panic, message}
use p2p_auction.Prelude.Exec.{Exec, lift, modify, ◌>>=◌, ◌>>◌}
use p2p_auction.Env.{Env}
use p2p_auction.HashMap
use p2p_auction.HashMap.{HashMap}
use p2p_auction.Transaction.{
  Data, Transaction, Block, create_user_account, bid, create_auction as create_auction_data,
  stop_auction,
}
use p2p_auction.Transaction.Signing
use p2p_auction.Blockchain.{
  Blockchain, Account, Notifier, Ledger, execute_after_n_blocks, create_account, create_auction,
  remove_auction, get_auction,
}

-- `account.nonce += 1` on a u32, as a release build does it.
abbrev pub next_nonce : ℕ → ℕ
next_nonce n = (n + 1) % 2 ^ 32

-- The account of the sender, its nonce checked and raised: a part of three of the four cases.
unfoldable pub use_nonce : Transaction → Exec Blockchain (Unit {0})
use_nonce t c = elim (HashMap.get c.accounts t.from) [
  | none ↦ (err (message "Unknown account."), c)
  | some account ↦
      if not (nat_eq t.nonce account.nonce) then (err (message "Invalid nonce."), c) else (
        ok tt,
        record c {
          accounts =
              HashMap.insert c.accounts t.from
                (record account { nonce = next_nonce account.nonce });
        },
      )
]

-- `if transaction.timestamp < stop_time && transaction.from != start_auction_transaction.from`,
-- where the found transaction has a stop time.
unfoldable pub stops_early : Transaction → Option Transaction → Bool
stops_early t none = false
stops_early t (some start) = elim start.payload [
  | create_auction_data auction_id start_amount stop_time ↦
      ltb t.timestamp stop_time && not (t.from == start.from)
  | _ ↦ false
]

-- The match on the record of the transaction.
unfoldable pub execute_record : Data → Transaction → String → Exec Blockchain (Unit {0})
unfolding use_nonce stops_early
execute_record (create_user_account public_key) t block_hash c =
    if not (t.from == public_key)
    then (err (message "Create account sender mismatch."), c)
    else if not (nat_eq t.nonce 0)
    then (err (message "Create account nonce must be 0."), c)
    else create_account public_key c
execute_record (bid auction_id amount) t block_hash c = use_nonce t c
execute_record (create_auction_data auction_id start_amount stop_time) t block_hash c =
    (use_nonce t >> modify (create_auction auction_id block_hash stop_time)) c
execute_record (stop_auction auction_id) t block_hash c =
    if stops_early t (get_auction c auction_id)
    then (err (message "Only the creator can end the auction early."), c)
    else (use_nonce t >> modify (remove_auction auction_id)) c

-- `notify_one` and `store` on the notifier of an id, if there is one.
unfoldable pub signal : HashMap Notifier → String → Bool → HashMap Notifier
signal notifiers id executed = elim (HashMap.get notifiers id) [
  | none ↦ notifiers
  | some n ↦ HashMap.insert notifiers id (record { permit = true; executed = executed })
]

abbrev pub is_ok {ℓ} : {A : Type ℓ} → Result A → Bool
is_ok (ok a) = true
is_ok _ = false

module _ ⦃env : Env⦄ where
  unfoldable pub execute_single_transaction : Transaction → String → Exec Blockchain (Unit {0})
  execute_single_transaction t block_hash =
      lift (Signing.verify t) >> execute_record t.payload t block_hash

  -- One round of the loop over the transactions of a block.
  unfoldable pub execute_and_notify : Transaction → String → Ledger → Ledger
  unfolding execute_single_transaction
  execute_and_notify t block_hash l =
      let (result, chain) = execute_single_transaction t block_hash l.chain in
      record { chain = chain; notifiers = signal l.notifiers t.id (is_ok result) }

  unfoldable pub execute_block : List Transaction → String → Ledger → Ledger
  unfolding execute_and_notify
  execute_block [] block_hash l = l
  execute_block (t ∷ ts) block_hash l =
      execute_block ts block_hash (execute_and_notify t block_hash l)

  -- The block under a hash of the chain, where it is known.
  unfoldable pub execute_hash : Option String → Ledger → Ledger
  unfolding execute_block
  execute_hash none l = l
  execute_hash (some h) l = elim (HashMap.get l.chain.blocks h) [
    | none ↦ l
    | some b ↦ execute_block b.transactions b.hash l
  ]

  -- `for i in commited_pointer..`, by the rounds that are left. The chain is the one that the loop
  -- began with: no round changes it.
  unfoldable pub execute_range : List String → ℕ → ℕ → Ledger → Ledger
  unfolding execute_hash
  execute_range chain zero i l = l
  execute_range chain (suc left) i l =
      execute_range chain left (i + 1) (execute_hash (get_elem? chain i) l)

  unfoldable pub execute_transactions : Ledger → Ledger
  unfolding execute_range
  execute_transactions l =
      let chain = l.chain.longest_chain in
      let count = (length chain - execute_after_n_blocks) - l.chain.commited_pointer in
      let done = execute_range chain count l.chain.commited_pointer l in
      record done {
        chain = record (done.chain) { commited_pointer = done.chain.commited_pointer + count };
      }
