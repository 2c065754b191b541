-- ===== src/Network/Gate.antt =====
-- The gate before the blocks that come by gossip.
use p2p_auction.Prelude.{
  String, ◌==◌, eq_iff, ◌≡◌, refl, ◌⊎◌, inl, inr, true, Option, none, some, [], map, Bool-cases,
}
use p2p_auction.Prelude.Result.{Result}
use p2p_auction.Env.{Env}
use p2p_auction.PeerEnv.{PeerEnv}
use p2p_auction.Key.{verify_peer_id}
use p2p_auction.Key.Laws.{StartsWithZeros, verify_peer_id_iff}
use p2p_auction.Transaction.{Block}
use p2p_auction.State.{State}
use p2p_auction.Runtime.{accept_block_from_gossip}
use p2p_auction.Network.{
  GossipEvent, gossip_message, other_gossip, GossipMessage, gossip, blocks_topic, sent, Handled,
  done, Clock, passes_gate, on_decoded, on_gossip_block, on_gossip, from_event,
}

module _ ⦃env : Env⦄ ⦃peers : PeerEnv⦄ (publishes : Block → Result (Unit {0})) where
  -- The message carries a block, from a signed source whose id was mined, and what is done is what
  -- `accept_block_from_gossip` does with that block.
  pub record IsBlock (e : GossipEvent) (clock : Clock) (s : State) (h : Handled) : Type 0 where
    pub from : String
    pub message : GossipMessage
    pub block : Block
    pub source : String
    pub is_message : e ≡ gossip_message from message
    pub on_topic : message.topic ≡ blocks_topic
    pub signed : message.source ≡ some source
    pub mined : StartsWithZeros 2 (peers.blake2b512 (peers.peer_id_to_bytes source))
    pub decoded : peers.block_from_slice message.bytes ≡ some block
    pub effects : h.1 ≡ map sent (accept_block_from_gossip publishes block from (clock 0) s).1
    pub state : h.2 ≡ (accept_block_from_gossip publishes block from (clock 0) s).2

  passes_gate_lem :
      (source : Option String)
      → passes_gate source ≡ true
      → (peer : String) × (source ≡ some peer) × (verify_peer_id peer ≡ true)
  unfolding passes_gate
  passes_gate_lem none e = cc e
  passes_gate_lem (some peer) e = (peer, refl, e)

  decoded_or_dropped :
      (from : String) (m : GossipMessage) (clock : Clock) (s : State)
      → m.topic ≡ blocks_topic
      → (source : String) × (m.source ≡ some source) × (verify_peer_id source ≡ true)
      → (b : Option Block) → peers.block_from_slice m.bytes ≡ b
      → (on_decoded publishes b from clock s ≡ done [] s)
        ⊎ IsBlock (gossip_message from m) clock s (on_decoded publishes b from clock s)
  unfolding on_decoded
  decoded_or_dropped from m clock s topic (source, signed, good) none e = inl refl
  decoded_or_dropped from m clock s topic (source, signed, good) (some b) e = inr (record {
    from = from;
    message = m;
    block = b;
    source = source;
    is_message = refl;
    on_topic = topic;
    signed = signed;
    mined = (verify_peer_id_iff source).0 good;
    decoded = e;
    effects = refl;
    state = refl;
  })

  -- On an event of gossip a node either does nothing, or the event is a message on the topic of blocks
  -- that decodes to a block and whose signed source has an id with a hash that begins with two zero
  -- bytes, and the node does what `accept_block_from_gossip` does with that block.
  pub gossip_or_unchanged :
      (e : GossipEvent) (clock : Clock) (s : State)
      → (from_event publishes (gossip e) clock s ≡ done [] s)
        ⊎ IsBlock e clock s (from_event publishes (gossip e) clock s)
  unfolding from_event on_gossip on_gossip_block
  gossip_or_unchanged other_gossip clock s = inl refl
  gossip_or_unchanged (gossip_message from m) clock s =
      elim (Bool-cases (m.topic == blocks_topic)) [
        | inr off ↦ inl (rw off)
        | inl on ↦ elim (Bool-cases (passes_gate m.source)) [
          | inr shut ↦ inl (rw (on, shut))
          | inl open_ ↦
              rw (on, open_)
                (decoded_or_dropped from m clock s ((eq_iff m.topic blocks_topic).0 on)
                  (passes_gate_lem m.source open_) (peers.block_from_slice m.bytes) refl)
        ]
      ]
