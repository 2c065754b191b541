-- ===== src/Examples/Network.antt =====
-- The theorems on the events of the swarm, at the concrete node.
use p2p_auction.Prelude.{String, ◌≡◌, refl, none, some, [], ◌∷◌, ◌⊎◌, contains, if◌then◌else◌}
use p2p_auction.Prelude.Result.{Result, ok}
use p2p_auction.HashMap
use p2p_auction.Transaction.{Block}
use p2p_auction.Blockchain.Valid.{IsValid}
use p2p_auction.Blockchain.Reachable.{Step, Reachable, Reachable-IsValid, new-IsValid}
use p2p_auction.State
use p2p_auction.State.{State}
use p2p_auction.Network.{
  SwarmEvent, GossipEvent, longest_chain_blocks, done, Clock, respond, on_response, from_event,
}
use p2p_auction.Network.Gate.{IsBlock, gossip_or_unchanged}
use p2p_auction.Network.Steps.{from_event-IsValid}
use p2p_auction.Network.CatchUp.{caught_up}
use p2p_auction.Examples.Toy.{toy, toy-IsLawful}
use p2p_auction.Examples.Peers.{toy_peers, knows_first}
use p2p_auction.Examples.Data.{first, begin}

abbrev published : Block → Result (Unit {0})
published b = ok tt

abbrev clock : Clock
clock i = 7

knows_first-IsValid : IsValid knows_first.blockchain
knows_first-IsValid =
    Reachable-IsValid toy-IsLawful 4 _ (Reachable.after Reachable.start (Step.accept first begin))

-- The first block comes by gossip, from a source with an id that was mined.
abbrev first_comes : GossipEvent
first_comes =
    GossipEvent.gossip_message "peer"
      (record { source = some "mined"; topic = "blocks"; bytes = 1 ∷ [] })

from_event-IsValid_example :
    IsValid (from_event published (SwarmEvent.gossip first_comes) clock State.init).2.blockchain
from_event-IsValid_example =
    from_event-IsValid published toy-IsLawful (SwarmEvent.gossip first_comes) clock State.init
      (new-IsValid 4294967295)

gossip_or_unchanged_example :
    (from_event published (SwarmEvent.gossip first_comes) clock State.init ≡ done [] State.init)
    ⊎ IsBlock published first_comes clock State.init
        (from_event published (SwarmEvent.gossip first_comes) clock State.init)
gossip_or_unchanged_example = gossip_or_unchanged published first_comes clock State.init

abbrev hash_of : Block → String
hash_of b = b.hash

abbrev caught : State
caught =
    (on_response published (respond longest_chain_blocks knows_first) "peer" clock State.init).2

caught_up_example :
    ((on_response published (respond longest_chain_blocks knows_first) "peer" clock State.init).0
      ≡ ok tt)
    × (caught.blockchain.longest_chain ≡ knows_first.blockchain.longest_chain)
    × ((h : String)
        → HashMap.get caught.blockchain.blocks h ≡ (
            if contains knows_first.blockchain.longest_chain h
            then HashMap.get knows_first.blockchain.blocks h
            else none))
    × (caught.blockchain.commited_pointer ≡ knows_first.blockchain.commited_pointer)
caught_up_example =
    caught_up published toy-IsLawful knows_first State.init "peer" clock 4294967295
      knows_first-IsValid refl
