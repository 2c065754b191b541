-- ===== src/Blockchain/Execute/Takeover.antt =====
-- A second creation of an auction that is open, under the execution of src/blockchain.rs.
use p2p_auction.Prelude.{ℕ, String, eq_self, eq_iff, ◌≡◌, sym, ap, ◌∙◌, false, some, arith}
use p2p_auction.Prelude.Result.{ok}
use p2p_auction.Prelude.Exec.{proceed, modify}
use p2p_auction.Env.{Env}
use p2p_auction.HashMap
use p2p_auction.HashMap.{HashMap}
use p2p_auction.Transaction.{
  Transaction, Block, create_auction as create_auction_data, stop_auction,
}
use p2p_auction.Transaction.Signing
use p2p_auction.Blockchain.{Blockchain, Account, remove_auction, get_auction, find_creation}
use p2p_auction.Blockchain.Execute.{
  next_nonce, use_nonce, stops_early, execute_record, execute_single_transaction,
}
use p2p_auction.Blockchain.Execute.Nonce.{execute-NonceUsed}
use p2p_auction.Blockchain.Execute.Auctions.{auction_after, execute-auctions}

-- The creator of an auction never stops it too early.
stops_early_self :
    (t start : Transaction) → t.from ≡ start.from → stops_early t (some start) ≡ false
unfolding stops_early
stops_early_self t start e = ground (arith, eq_iff t.from start.from)

get_auction_at :
    (c : Blockchain) (id h : String) (stop : ℕ) (b : Block) {t : Transaction}
    → HashMap.get c.auctions id ≡ some (h, stop)
    → HashMap.get c.blocks h ≡ some b
    → find_creation id b.transactions ≡ some t
    → get_auction c id ≡ some t
unfolding get_auction
get_auction_at c id h stop b p q r = rw (p, get_auction, q, r)

use_nonce_matching :
    (t : Transaction) (c : Blockchain) {a : Account}
    → HashMap.get c.accounts t.from ≡ some a
    → t.nonce ≡ a.nonce
    → (use_nonce t c).0 ≡ ok tt
unfolding use_nonce
use_nonce_matching t c f n = ground arith

execute_record_stop :
    (t : Transaction) (h id : String) (c : Blockchain) {a : Account}
    → stops_early t (get_auction c id) ≡ false
    → HashMap.get c.accounts t.from ≡ some a
    → t.nonce ≡ a.nonce
    → (execute_record (stop_auction id) t h c).0 ≡ ok tt
unfolding execute_record
execute_record_stop t h id c late f n = rw late (
    ap (λ r. (proceed {B = Unit {0}} r (λ _. modify (remove_auction id)) (use_nonce t c).1).0)
      (use_nonce_matching t c f n))

module _ ⦃env : Env⦄ where
  stop_executes :
      (t : Transaction) (h id : String) (c : Blockchain) {a : Account}
      → t.payload ≡ stop_auction id
      → Signing.verify t ≡ ok tt
      → stops_early t (get_auction c id) ≡ false
      → HashMap.get c.accounts t.from ≡ some a
      → t.nonce ≡ a.nonce
      → (execute_single_transaction t h c).0 ≡ ok tt
  unfolding execute_single_transaction
  stop_executes t h id c p v late f n =
      rw v (ap (λ d. (execute_record d t h c).0) p ∙ execute_record_stop t h id c late f n)

  -- The check of the creator is bypassed by creating the auction again. Where a creation of an id is
  -- executed, and is the first of this id in its block, which is known, it is from then on the creation
  -- that the chain finds, whatever was there before; and a stop of this id by its sender that verifies and
  -- has the next nonce is executed after it, whatever its timestamp.
  pub creation_takes_over :
      (open_again close : Transaction) (h h' id : String) (m stop : ℕ) (c : Blockchain) (b : Block)
      → open_again.payload ≡ create_auction_data id m stop
      → HashMap.get (execute_single_transaction open_again h c).1.blocks h ≡ some b
      → find_creation id b.transactions ≡ some open_again
      → (execute_single_transaction open_again h c).0 ≡ ok tt
      → close.payload ≡ stop_auction id
      → close.from ≡ open_again.from
      → close.nonce ≡ next_nonce open_again.nonce
      → Signing.verify close ≡ ok tt
      → (get_auction (execute_single_transaction open_again h c).1 id ≡ some open_again)
        × ((execute_single_transaction close h' (execute_single_transaction open_again h c).1).0
            ≡ ok tt)
  creation_takes_over open_again close h h' id m stop c b p block first e q from nonce v =
      let c' = (execute_single_transaction open_again h c).1 in
      let used = execute-NonceUsed open_again h c e in
      let entry : HashMap.get c'.auctions id ≡ some (h, stop) =
        execute-auctions open_again h c id e
        ∙ ap (λ d. auction_after d h (HashMap.get c.auctions id) id) p
        ∙ rw (eq_self id) in
      let found = get_auction_at c' id h stop b entry block first in
      (
        found,
        stop_executes close h' id c' q v
            (ap (stops_early close) found ∙ stops_early_self close open_again from)
            (ap (HashMap.get c'.accounts) from ∙ used.now) (nonce ∙ sym used.raised),
      )
