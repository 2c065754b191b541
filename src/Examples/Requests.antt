-- ===== src/Examples/Requests.antt =====
-- The theorems on the handlers of requests, at the concrete node.
use p2p_auction.Prelude.{◌≡◌, refl, ◌⊎◌, ◌↔◌, true, false, none, some, [], ◌∷◌, arith, get_elem?}
use p2p_auction.Prelude.Result.{ok}
use p2p_auction.HashMap
use p2p_auction.Pool
use p2p_auction.Transaction.{Transaction}
use p2p_auction.Transaction.Signing
use p2p_auction.Hash
use p2p_auction.Blockchain.{Blockchain, confirmed, get_next_block_hash_from_hash}
use p2p_auction.Blockchain.Mempool.Laws.{IsAdmissible}
use p2p_auction.State.{State, status, waits, too_early, handle, auction_exists, init}
use p2p_auction.State.Limit.{limit_refuses, handle_lem}
use p2p_auction.State.Auctions.{NoCreation, auction_exists_iff}
use p2p_auction.Blockchain
use p2p_auction.Blockchain.Accept.{push_block}
use p2p_auction.Blockchain.Accept.Checks.{IsAcceptable}
use p2p_auction.Blockchain.Fix.Laws.{IsFixed}
use p2p_auction.Blockchain.Reachable.{new-IsValid}
use p2p_auction.Runtime
use p2p_auction.Runtime.{publish}
use p2p_auction.Runtime.Laws.{IsRefused, accept_block_lem}
use p2p_auction.Examples.Toy.{toy, toy-IsLawful}
use p2p_auction.Examples.Data.{offer, closing, world, first, second}

-- The offer as `Transaction::new` makes it: its id is the hash of what the sender chose.
abbrev made : Transaction
made = record offer { id = "bbaaaaaaaaaab" }

makes_offer : Signing.new offer.payload "ab" 2 "ab" (ok 3) ≡ ok made
unfolding Signing.new Hash.hash Hash.encode_hash
makes_offer = refl

abbrev node : State
node = record init { blockchain = world }

free : too_early node "ab" 5000 ≡ false
unfolding too_early HashMap.get
free = refl

limit_refuses_example :
    handle closing 5900 (handle offer 5000 node).1 ≡ (status 1, (handle offer 5000 node).1)
limit_refuses_example = limit_refuses offer closing 5000 5900 node free refl (omega arith)

handle_lem_example :
    ((too_early node "ab" 5000 ≡ true) × (handle offer 5000 node ≡ (status 1, node)))
    ⊎ ((too_early node "ab" 5000 ≡ false)
        × (HashMap.get (handle offer 5000 node).1.last_tx_per_sender "ab" ≡ some 5000)
        × (HashMap.contains_key (handle offer 5000 node).1.notifiers "t3" ≡ true)
        × ((((handle offer 5000 node).0 ≡ waits "t3")
              × IsAdmissible offer world
              × (Pool.contains (handle offer 5000 node).1.blockchain.transaction_pool offer ≡ true))
            ⊎ (((handle offer 5000 node).0 ≡ status 1)
                × ((handle offer 5000 node).1.blockchain ≡ world))))
handle_lem_example = handle_lem offer 5000 node

auction_exists_iff_example :
    (auction_exists "item" node ≡ none) ↔ NoCreation "item" world.blocks (confirmed world)
auction_exists_iff_example = auction_exists_iff "item" node

abbrev three_long : Blockchain
three_long = record world { longest_chain = first.hash ∷ second.hash ∷ "third" ∷ "fourth" ∷ [] }

second_confirmed : get_elem? (confirmed three_long) 1 ≡ some second.hash
unfolding confirmed
second_confirmed = refl

-- The first block comes over gossip to a node that knows none.
accept_block_lem_example :
    (IsAcceptable first (Blockchain.new 4294967295)
      × IsFixed
          (push_block first (Blockchain.new 4294967295))
          (Runtime.accept_block (λ b. ok tt) first "peer" true true 7 init).2.blockchain
      × ((Runtime.accept_block (λ b. ok tt) first "peer" true true 7 init).1 ≡ publish first ∷ [])
      × ((Runtime.accept_block (λ b. ok tt) first "peer" true true 7 init).2.last_block_accepted
          ≡ some 7))
    ⊎ IsRefused first "peer" true init
        (Runtime.accept_block (λ b. ok tt) first "peer" true true 7 init)
accept_block_lem_example =
    accept_block_lem (λ b. ok tt) toy-IsLawful first "peer" true true 7 init
      (new-IsValid 4294967295)
