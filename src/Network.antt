-- ===== src/Network.antt =====
-- src/behaviour.rs: what a node does on each event of its swarm. The swarm is the list of what it is
-- asked to do, and the results of its calls that are only logged are left out. The state is read more
-- than once to answer a request: the reads are taken to see one state.
pub mod Gate
pub mod Sync
pub mod CatchUp
pub mod Steps
use p2p_auction.Prelude.{
  ℕ, suc, String, ◌==◌, Bool, true, false, not, Option, none, some, List, [], ◌∷◌, ◌++◌,
  if◌then◌else◌, contains, map,
}
use p2p_auction.Prelude.Result.{Result, ok, err, panic}
use p2p_auction.Env.{Env}
use p2p_auction.PeerEnv.{PeerEnv}
use p2p_auction.HashMap
use p2p_auction.HashMap.{HashMap}
use p2p_auction.Key.{verify_peer_id}
use p2p_auction.Transaction.{Block}
use p2p_auction.State.{State, blocks_of}
use p2p_auction.Runtime.{Sent, Outcome, accept_block_from_gossip, accept_block_from_r_r}

pub data Request : Type 0 where
  longest_chain_blocks longest_chain_hashes : Request
  blocks_by_hashes : List String → Request

pub data Response : Type 0 where
  chain_blocks : List Block → Response
  chain_hashes : List String → Response
  requested_blocks : List Block → Response

-- What the swarm is asked to do: what `accept_block` sends, a request, a response, and an address for
-- the routing table.
pub data Effect : Type 0 where
  sent : Sent → Effect
  send_request : (peer : String) → Request → Effect
  send_response : (peer : String) → Response → Effect
  add_address : (peer address : String) → Effect

-- A message of gossipsub: its signed source, its topic and its bytes.
pub record GossipMessage : Type 0 where
  pub source : Option String
  pub topic : String
  pub bytes : List ℕ

pub data KadEvent : Type 0 where
  routable_peer : (peer address : String) → KadEvent
  -- the events that are logged only
  other_kad : KadEvent

pub data IdentifyEvent : Type 0 where
  received : (peer : String) (listen_addrs : List String) → IdentifyEvent
  other_identify : IdentifyEvent

pub data GossipEvent : Type 0 where
  gossip_message : (propagation_source : String) → GossipMessage → GossipEvent
  other_gossip : GossipEvent

pub data RequestResponseEvent : Type 0 where
  request_message : (peer : String) → Request → RequestResponseEvent
  response_message : (peer : String) → Response → RequestResponseEvent
  -- failures, and responses that were sent
  other_request_response : RequestResponseEvent

pub data SwarmEvent : Type 0 where
  kad : KadEvent → SwarmEvent
  ping : SwarmEvent
  identify : IdentifyEvent → SwarmEvent
  gossip : GossipEvent → SwarmEvent
  request_response : RequestResponseEvent → SwarmEvent
  -- addresses, connections and the rest
  other_swarm : SwarmEvent

-- `topic::BLOCKS`.
abbrev pub blocks_topic : String
blocks_topic = "blocks"

-- `filter(|h| hashes.contains(h))`.
unfoldable pub requested : List String → List String → List String
requested hashes [] = []
requested hashes (h ∷ hs) =
    let rest = requested hashes hs in if contains hashes h then h ∷ rest else rest

-- The answer to a request.
unfoldable pub respond : Request → State → Response
unfolding requested
respond longest_chain_blocks s =
    chain_blocks (blocks_of s.blockchain.blocks s.blockchain.longest_chain)
respond longest_chain_hashes s = chain_hashes (s.blockchain.longest_chain)
respond (blocks_by_hashes hashes) s =
    requested_blocks (blocks_of s.blockchain.blocks (requested hashes (s.blockchain.longest_chain)))

-- `filter(|h| !blocks.contains_key(h))`.
unfoldable pub missing : HashMap Block → List String → List String
missing blocks [] = []
missing blocks (h ∷ hs) =
    let rest = missing blocks hs in if not (HashMap.contains_key blocks h) then h ∷ rest else rest

-- The request for what is missing, if anything is.
unfoldable pub request_missing : String → List String → List Effect
request_missing peer [] = []
request_missing peer (h ∷ hs) = send_request peer (blocks_by_hashes (h ∷ hs)) ∷ []

-- `kad.add_address` on each address.
unfoldable pub add_addresses : String → List String → List Effect
add_addresses peer [] = []
add_addresses peer (a ∷ as_) = add_address peer a ∷ add_addresses peer as_

unfoldable pub on_kad : KadEvent → List Effect
on_kad (routable_peer peer address) = add_address peer address ∷ []
on_kad other_kad = []

unfoldable pub on_identify : IdentifyEvent → List Effect
unfolding add_addresses
on_identify (received peer listen_addrs) = add_addresses peer listen_addrs
on_identify other_identify = []

-- The gate: the signed source is there, and its id was mined.
unfoldable pub passes_gate : ⦃peers : PeerEnv⦄ → Option String → Bool
passes_gate none = false
passes_gate (some source) = verify_peer_id source

-- What a handler returns, asks of the swarm, and leaves. An error of `accept_block` is logged only.
abbrev pub Handled : Type 0
Handled = Result (Unit {0}) × List Effect × State

abbrev pub done : List Effect → State → Handled
done effects s = (ok tt, effects, s)

-- `if let Err(e) = ... { warn!(...) }` after a call of `accept_block`.
abbrev pub logged : Result (Unit {0}) → Result (Unit {0})
logged (panic p) = panic p
logged _ = ok tt

-- The call of a handler after what another has done.
abbrev pub then_handled : Result (Unit {0}) → List Effect → State → (State → Handled) → Handled
then_handled (ok u) effects s next = let (r, more, s') = next s in (r, effects ++ more, s')
then_handled (err e) effects s next = (err e, effects, s)
then_handled (panic p) effects s next = (panic p, effects, s)

-- The readings of the clock, one after another.
abbrev pub Clock : Type 0
Clock = ℕ → ℕ

module _ ⦃env : Env⦄ ⦃peers : PeerEnv⦄ (publishes : Block → Result (Unit {0})) where
  -- `for b in blocks { accept_block_from_r_r(b, peer) }`.
  unfoldable pub accept_blocks : List Block → String → Clock → State → Handled
  accept_blocks [] peer clock s = done [] s
  accept_blocks (b ∷ bs) peer clock s =
      let (r, outs, s') = accept_block_from_r_r publishes b peer (clock 0) s in
      then_handled (logged r) (map sent outs) s' (accept_blocks bs peer (λ i. clock (suc i)))

  unfoldable pub on_response : Response → String → Clock → State → Handled
  unfolding accept_blocks missing request_missing
  on_response (requested_blocks blocks) peer clock s = accept_blocks blocks peer clock s
  on_response (chain_blocks blocks) peer clock s = accept_blocks blocks peer clock s
  on_response (chain_hashes hashes) peer clock s =
      done (request_missing peer (missing s.blockchain.blocks hashes)) s

  unfoldable pub on_decoded : Option Block → String → Clock → State → Handled
  on_decoded none propagation_source clock s = done [] s
  on_decoded (some block) propagation_source clock s =
      let (r, outs, s') = accept_block_from_gossip publishes block propagation_source (clock 0) s in
      (logged r, map sent outs, s')

  -- A message on the topic of blocks, after the gate.
  unfoldable pub on_gossip_block : List ℕ → String → Clock → State → Handled
  unfolding on_decoded
  on_gossip_block bytes propagation_source clock s =
      on_decoded (peers.block_from_slice bytes) propagation_source clock s

  unfoldable pub on_gossip : GossipEvent → Clock → State → Handled
  unfolding on_gossip_block passes_gate
  on_gossip other_gossip clock s = done [] s
  on_gossip (gossip_message propagation_source m) clock s =
      if m.topic == blocks_topic
      then (if passes_gate m.source
          then on_gossip_block m.bytes propagation_source clock s
          else done [] s)
      else done [] s

  unfoldable pub on_request_response : RequestResponseEvent → Clock → State → Handled
  unfolding respond on_response
  on_request_response (request_message peer request) clock s =
      done (send_response peer (respond request s) ∷ []) s
  on_request_response (response_message peer response) clock s = on_response response peer clock s
  on_request_response other_request_response clock s = done [] s

  unfoldable pub from_event : SwarmEvent → Clock → State → Handled
  unfolding on_kad on_identify on_gossip on_request_response
  from_event (kad e) clock s = done (on_kad e) s
  from_event ping clock s = done [] s
  from_event (identify e) clock s = done (on_identify e) s
  from_event (gossip e) clock s = on_gossip e clock s
  from_event (request_response e) clock s = on_request_response e clock s
  from_event other_swarm clock s = done [] s
