-- ===== src/Examples/Execution.antt =====
-- The theorems on the execution of transactions and on the pool of the chain, at the concrete node.
use p2p_auction.Prelude.{ℕ, ◌≡◌, ◌≢◌, refl, true, some, [], ◌∷◌, ◌⊎◌, ◌≤◌}
use p2p_auction.Prelude.Result.{ok, err, message}
use p2p_auction.HashMap
use p2p_auction.HashMap.{HashMap}
use p2p_auction.Pool
use p2p_auction.Hash
use p2p_auction.Transaction.{Transaction, Block, transaction_eq}
use p2p_auction.Transaction.Signing
use p2p_auction.Blockchain
use p2p_auction.Blockchain.{Blockchain, get_auction}
use p2p_auction.Blockchain.Execute.{execute_record, execute_single_transaction}
use p2p_auction.Blockchain.Execute.Nonce.{executes_once}
use p2p_auction.Blockchain.Execute.Auctions.{Opens, stop_only_by_creator}
use p2p_auction.Blockchain.Execute.Takeover.{creation_takes_over}
use p2p_auction.Blockchain.Mempool.{add_transaction}
use p2p_auction.Blockchain.Mempool.Laws.{IsAdmissible, add_or_unchanged, second_nonce_refused}
use p2p_auction.Examples.Toy.{toy}
use p2p_auction.Examples.Data.{opening, offer, closing, second, world}

executes_offer : (execute_single_transaction offer "h" world).0 ≡ ok tt
unfolding execute_single_transaction execute_record Signing.verify Hash.string_to_public_key
    Hash.string_to_signature HashMap.get HashMap.insert
executes_offer = refl

executes_closing : (execute_single_transaction closing "h" world).0 ≡ ok tt
unfolding execute_single_transaction execute_record Signing.verify Hash.string_to_public_key
    Hash.string_to_signature HashMap.get HashMap.insert HashMap.remove get_auction
    Blockchain.find_creation Blockchain.creates
executes_closing = refl

-- A bidder who signs a stop before the stop time, with the right nonce, is refused.
refuses_early :
    (execute_single_transaction
      (record closing { from = "aab"; signature = "aab"; nonce = 1 })
      "h"
      world).0
    ≡ err (message "Only the creator can end the auction early.")
unfolding execute_single_transaction execute_record Signing.verify Hash.string_to_public_key
    Hash.string_to_signature HashMap.get HashMap.insert get_auction Blockchain.find_creation
    Blockchain.creates
refuses_early = refl

executes_once_example :
    ((execute_single_transaction offer "k" (execute_single_transaction offer "h" world).1).0
      ≢ ok tt)
    × ((execute_single_transaction offer "k" (execute_single_transaction offer "h" world).1).1
        ≡ (execute_single_transaction offer "h" world).1)
executes_once_example =
    executes_once offer "h" "k" world (execute_single_transaction offer "h" world).1 executes_offer
      refl

finds_opening : get_auction world "item" ≡ some opening
unfolding get_auction HashMap.get Blockchain.find_creation Blockchain.creates
finds_opening = refl

stop_only_by_creator_example :
    (stop : ℕ) × Opens "item" stop opening.payload
    × ((closing.from ≡ opening.from) ⊎ (stop ≤ closing.timestamp))
stop_only_by_creator_example =
    stop_only_by_creator closing opening "h" "item" world refl finds_opening executes_closing

-- The second key creates the auction "item" of the first one again, and stops it.
abbrev open_again : Transaction
open_again = record opening { id = "t5"; from = "aab"; signature = "aab"; nonce = 1 }

abbrev close_again : Transaction
close_again = record closing { id = "t6"; from = "aab"; signature = "aab"; nonce = 2 }

abbrev again : Block
again = record second { transactions = open_again ∷ []; hash = "again" }

abbrev taken : Blockchain
taken = record world { blocks = ("again", again) ∷ [] }

opens_again : (execute_single_transaction open_again "again" taken).0 ≡ ok tt
unfolding execute_single_transaction execute_record Signing.verify Hash.string_to_public_key
    Hash.string_to_signature HashMap.get HashMap.insert Blockchain.create_auction
opens_again = refl

knows_again :
    HashMap.get (execute_single_transaction open_again "again" taken).1.blocks "again" ≡ some again
unfolding execute_single_transaction execute_record Signing.verify Hash.string_to_public_key
    Hash.string_to_signature HashMap.get HashMap.insert Blockchain.create_auction
knows_again = refl

first_again : Blockchain.find_creation "item" again.transactions ≡ some open_again
unfolding Blockchain.find_creation Blockchain.creates
first_again = refl

close_again_verifies : Signing.verify close_again ≡ ok tt
unfolding Signing.verify Hash.string_to_public_key Hash.string_to_signature
close_again_verifies = refl

creation_takes_over_example :
    (get_auction (execute_single_transaction open_again "again" taken).1 "item" ≡ some open_again)
    × ((execute_single_transaction close_again "h"
          (execute_single_transaction open_again "again" taken).1).0
        ≡ ok tt)
creation_takes_over_example =
    creation_takes_over open_again close_again "again" "h" "item" 10 100 taken again refl
      knows_again first_again opens_again refl refl refl close_again_verifies

add_or_unchanged_example :
    (((add_transaction offer world).0 ≡ ok tt)
      × IsAdmissible offer world
      × ((add_transaction offer world).1
          ≡ record world { transaction_pool = Pool.add_transaction world.transaction_pool offer })
      × (Pool.contains (add_transaction offer world).1.transaction_pool offer ≡ true))
    ⊎ (((add_transaction offer world).0 ≢ ok tt) × ((add_transaction offer world).1 ≡ world))
add_or_unchanged_example = add_or_unchanged offer world

adds_offer : (add_transaction offer world).0 ≡ ok tt
unfolding add_transaction Signing.verify Hash.string_to_public_key Hash.string_to_signature
    HashMap.get HashMap.values Pool.contains Pool.replay transaction_eq
adds_offer = refl

second_nonce_refused_example : (add_transaction closing (add_transaction offer world).1).0 ≢ ok tt
second_nonce_refused_example = second_nonce_refused offer closing world adds_offer refl refl refl
