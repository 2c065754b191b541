-- ===== src/Blockchain/Execute/Laws.antt =====
-- What the execution of one transaction changes.
use p2p_auction.Prelude.{String, ◌≡◌, refl, ◌⊎◌, inr, arith}
use p2p_auction.Prelude.Result.{Result, ok, err, panic}
use p2p_auction.Prelude.Exec.{lift, ◌>>◌}
use p2p_auction.Env.{Env}
use p2p_auction.Transaction.{
  Data, Transaction, create_user_account, bid, create_auction as create_auction_data, stop_auction,
}
use p2p_auction.Transaction.Signing
use p2p_auction.Blockchain.{Blockchain, create_account}
use p2p_auction.Blockchain.Execute.{use_nonce, execute_record, execute_single_transaction}

-- A step that fails has changed nothing.
abbrev FailsUnchanged : Result (Unit {0}) × Blockchain → Blockchain → Type 0
FailsUnchanged (r, c') c = (r ≡ ok tt) ⊎ (c' ≡ c)

use_nonce-FailsUnchanged : (t : Transaction) (c : Blockchain) → FailsUnchanged (use_nonce t c) c
unfolding use_nonce
use_nonce-FailsUnchanged t c = ground arith

execute_record-FailsUnchanged :
    (d : Data) (t : Transaction) (h : String) (c : Blockchain)
    → FailsUnchanged (execute_record d t h c) c
unfolding execute_record create_account
execute_record-FailsUnchanged (create_user_account public_key) t h c = ground arith
execute_record-FailsUnchanged (bid a m) t h c = ground arith
execute_record-FailsUnchanged (create_auction_data a m s) t h c = ground arith
execute_record-FailsUnchanged (stop_auction a) t h c = ground arith

module _ ⦃env : Env⦄ where
  -- A transaction is executed, or it changes nothing: neither accounts nor auctions, nor anything
  -- else of the chain.
  pub execute_or_unchanged :
      (t : Transaction) (h : String) (c : Blockchain)
      → ((execute_single_transaction t h c).0 ≡ ok tt) ⊎ ((execute_single_transaction t h c).1 ≡ c)
  unfolding execute_single_transaction
  execute_or_unchanged t h c = split (Signing.verify t)
    where
      split :
          (r : Result (Unit {0})) → FailsUnchanged ((lift r >> execute_record t.payload t h) c) c
      split (ok tt) = execute_record-FailsUnchanged t.payload t h c
      split (err e) = inr refl
      split (panic p) = inr refl

  -- What is executed was verified, and its record was accepted.
  pub execute-eq-ok :
      (t : Transaction) (h : String) (c : Blockchain)
      → (execute_single_transaction t h c).0 ≡ ok tt
      → (Signing.verify t ≡ ok tt)
        × (execute_single_transaction t h c ≡ execute_record t.payload t h c)
  unfolding execute_single_transaction
  execute-eq-ok t h c e = split (Signing.verify t) e
    where
      split :
          (r : Result (Unit {0}))
          → ((lift r >> execute_record t.payload t h) c).0 ≡ ok tt
          → (r ≡ ok tt)
            × ((lift r >> execute_record t.payload t h) c ≡ execute_record t.payload t h c)
      split (ok tt) e = (refl, refl)
      split (err x) e = cc
      split (panic p) e = cc
