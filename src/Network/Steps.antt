-- ===== src/Network/Steps.antt =====
-- What no event of the swarm breaks.
use mathlib.Core.Path.{subst}
use p2p_auction.Prelude.{ℕ, suc, String, Bool, true, false, sym, inl, inr, List, [], ◌∷◌, map}
use p2p_auction.Prelude.Result.{Result, ok, err, panic}
use p2p_auction.Env.{Env, IsLawful}
use p2p_auction.PeerEnv.{PeerEnv}
use p2p_auction.Transaction.{Block}
use p2p_auction.Blockchain.Valid.{IsValid}
use p2p_auction.State.{State}
use p2p_auction.Runtime.{accept_block, accept_block_from_gossip, accept_block_from_r_r}
use p2p_auction.Runtime.Laws.{accept_block_lem}
use p2p_auction.Network.{
  requested_blocks, chain_blocks, chain_hashes, request_message, response_message,
  other_request_response, SwarmEvent, kad, ping, identify, gossip, request_response, other_swarm,
  sent, Effect, Handled, logged, then_handled, Clock, accept_blocks, on_response, from_event,
  on_request_response, RequestResponseEvent,
}
use p2p_auction.Network.Gate.{gossip_or_unchanged}

module _ ⦃env : Env⦄ ⦃peers : PeerEnv⦄ (publishes : Block → Result (Unit {0}))
    (laws : IsLawful env) where
  accept_block-IsValid :
      (block : Block) (peer : String) (rebroadcast request_missing : Bool) (now : ℕ) (s : State)
      → IsValid s.blockchain
      → IsValid (accept_block publishes block peer rebroadcast request_missing now s).2.blockchain
  accept_block-IsValid block peer rebroadcast request_missing now s v =
      elim (accept_block_lem publishes laws block peer rebroadcast request_missing now s v) [
        | inl (a, fixed, out, noted) ↦ fixed.valid
        | inr (inl (out, same)) ↦ subst (λ (x : State). IsValid x.blockchain) (sym same) v
        | inr (inr (r, out, kept, same, n, l)) ↦ subst IsValid (sym same) v
      ]

  then_handled-IsValid :
      (r : Result (Unit {0})) (effects : List Effect) (s : State) (next : State → Handled)
      → IsValid s.blockchain
      → IsValid (next s).2.blockchain
      → IsValid (then_handled r effects s next).2.blockchain
  then_handled-IsValid (ok u) effects s next v w = w
  then_handled-IsValid (err e) effects s next v w = v
  then_handled-IsValid (panic p) effects s next v w = v

  accept_blocks-IsValid :
      (blocks : List Block) (peer : String) (clock : Clock) (s : State)
      → IsValid s.blockchain
      → IsValid (accept_blocks publishes blocks peer clock s).2.blockchain
  unfolding accept_blocks accept_block_from_r_r
  accept_blocks-IsValid [] peer clock s v = v
  accept_blocks-IsValid (b ∷ bs) peer clock s v =
      let (r, outs, s') = accept_block_from_r_r publishes b peer (clock 0) s in
      let v' = accept_block-IsValid b peer false false (clock 0) s v in
      then_handled-IsValid (logged r) (map sent outs) s'
        (accept_blocks publishes bs peer (λ i. clock (suc i))) v'
        (accept_blocks-IsValid bs peer (λ i. clock (suc i)) s' v')

  on_request_response-IsValid :
      (e : RequestResponseEvent) (clock : Clock) (s : State)
      → IsValid s.blockchain
      → IsValid (on_request_response publishes e clock s).2.blockchain
  unfolding on_request_response on_response
  on_request_response-IsValid (request_message peer request) clock s v = v
  on_request_response-IsValid (response_message peer (requested_blocks bs)) clock s v =
      accept_blocks-IsValid bs peer clock s v
  on_request_response-IsValid (response_message peer (chain_blocks bs)) clock s v =
      accept_blocks-IsValid bs peer clock s v
  on_request_response-IsValid (response_message peer (chain_hashes hs)) clock s v = v
  on_request_response-IsValid other_request_response clock s v = v

  -- Given `IsLawful`, no event of the swarm, whatever a peer sends, leaves a valid chain invalid.
  pub from_event-IsValid :
      (e : SwarmEvent) (clock : Clock) (s : State)
      → IsValid s.blockchain
      → IsValid (from_event publishes e clock s).2.blockchain
  unfolding from_event
  from_event-IsValid (kad e) clock s v = v
  from_event-IsValid ping clock s v = v
  from_event-IsValid (identify e) clock s v = v
  from_event-IsValid (request_response e) clock s v = on_request_response-IsValid e clock s v
  from_event-IsValid other_swarm clock s v = v
  from_event-IsValid (gossip e) clock s v = elim (gossip_or_unchanged publishes e clock s) [
    | inl same ↦ subst (λ (h : Handled). IsValid h.2.blockchain) (sym same) v
    | inr b ↦
        subst (λ (x : State). IsValid x.blockchain) (sym b.state)
          (unfold accept_block_from_gossip in
            accept_block-IsValid b.block b.from true true (clock 0) s v)
  ]
