-- ===== src/Blockchain/Mempool.antt =====
-- src/blockchain.rs, `has_transaction` and `add_transaction` of the chain: what may wait for a block.
pub mod Laws
use p2p_auction.Prelude.{
  ℕ, String, ◌==◌, nat_eq, ltb, Bool, true, false, not, ◌||◌, Option, none, some, List, [], ◌∷◌,
  if◌then◌else◌,
}
use p2p_auction.Prelude.Result.{Result, ok, err, message, Error, ◌>>=◌ as bind}
use p2p_auction.Prelude.Exec.{Exec, lift, gets, modify, ◌>>=◌, ◌>>◌}
use p2p_auction.Env.{Env}
use p2p_auction.HashMap
use p2p_auction.HashMap.{HashMap}
use p2p_auction.Pool
use p2p_auction.Transaction.{
  Data, Transaction, Block, transaction_eq, create_user_account, bid, create_auction, stop_auction,
}
use p2p_auction.Transaction.Signing
use p2p_auction.Blockchain.{Blockchain, Account}
use p2p_auction.Blockchain.Accept.{refuse}

unfoldable pub any_equal : Transaction → List Transaction → Bool
any_equal t [] = false
any_equal t (u ∷ us) = transaction_eq u t || any_equal t us

unfoldable pub any_block : Transaction → List Block → Bool
unfolding any_equal
any_block t [] = false
any_block t (b ∷ bs) = any_equal t b.transactions || any_block t bs

unfoldable pub has_transaction : Transaction → Blockchain → Bool
unfolding any_block
has_transaction t c = any_block t (HashMap.values c.blocks)

-- The case of every record but that of a new account.
unfoldable pub check_nonce : Transaction → Blockchain → Result (Unit {0})
check_nonce t c = elim (HashMap.get c.accounts t.from) [
  | none ↦ err (message "Unknown account.")
  | some account ↦
      if ltb t.nonce account.nonce
      then err (message "Nonce already used.")
      else if Pool.replay c.transaction_pool t
      then err (message "Duplicate pending nonce.")
      else ok tt
]

-- The match on the record.
unfoldable pub check_record : Data → Transaction → Blockchain → Result (Unit {0})
unfolding check_nonce
check_record (create_user_account public_key) t c =
    if not (t.from == public_key)
    then err (message "Create account sender mismatch.")
    else if not (nat_eq t.nonce 0)
    then err (message "Create account nonce must be 0.")
    else if HashMap.contains_key c.accounts public_key
    then err (message "Account already exists.")
    else ok tt
check_record _ t c = check_nonce t c

module _ ⦃env : Env⦄ where
  unfoldable pub check_transaction : Transaction → Blockchain → Result (Unit {0})
  unfolding has_transaction check_record
  check_transaction t c = bind (Signing.verify t) λ _.
      bind (refuse (has_transaction t c) (message "Transaction already recorded.")) λ _.
        bind (refuse (Pool.contains c.transaction_pool t) (message "Transaction already pending."))
          λ _. check_record t.payload t c

  unfoldable pub add_transaction : Transaction → Exec Blockchain (Unit {0})
  unfolding check_transaction
  add_transaction t = do
    chain ← gets (λ c. c)
    lift (check_transaction t chain)
    modify (λ c. record c { transaction_pool = Pool.add_transaction c.transaction_pool t })
