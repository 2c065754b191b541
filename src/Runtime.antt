-- ===== src/Runtime.antt =====
-- src/runtime.rs, `accept_block` of the runtime: what a node does with a block from a peer. The swarm is
-- the list of what it is asked to send; what the encoding and the publication of a block return is a
-- parameter.
pub mod Laws
use p2p_auction.Prelude.{ℕ, String, Bool, true, false, some, List, [], ◌∷◌, if◌then◌else◌}
use p2p_auction.Prelude.Result.{
  Result, ok, err, panic, Error, accept_block as accept_error, AcceptBlockError, duplicate, orphan,
}
use p2p_auction.Env.{Env}
use p2p_auction.HashMap
use p2p_auction.Transaction.{Block}
use p2p_auction.Blockchain.{Ledger}
use p2p_auction.Blockchain.Accept
use p2p_auction.State.{State}

pub data Sent : Type 0 where
  publish : Block → Sent
  request_hashes : (peer : String) → Sent

-- What a call returns, what it sends, and the state after it.
abbrev pub Outcome : Type 0
Outcome = Result (Unit {0}) × List Sent × State

abbrev pub ledger : State → Ledger
ledger s = record { chain = s.blockchain; notifiers = s.notifiers }

abbrev pub set_ledger : Ledger → State → State
set_ledger l s = record s { blockchain = l.chain; notifiers = l.notifiers }

-- The block is accepted. Its encoding does not fail, since a block is a plain struct of texts and numbers.
unfoldable pub on_accepted : (Block → Result (Unit {0})) → Block → Bool → ℕ → State → Outcome
on_accepted gossip block rebroadcast now s =
    let s' : State = record s { last_block_accepted = some now } in
    if rebroadcast then (gossip block, publish block ∷ [], s') else (ok tt, [], s')

-- The block is refused.
unfoldable pub on_refused : Error → Block → String → Bool → State → Outcome
on_refused (accept_error duplicate) block peer request_missing s = (ok tt, [], s)
on_refused (accept_error orphan) block peer request_missing s = (
  ok tt,
  if request_missing then request_hashes peer ∷ [] else [],
  record s { received_blocks = HashMap.insert s.received_blocks block.hash block },
)
on_refused e block peer request_missing s = (err e, [], s)

module _ ⦃env : Env⦄ (gossip : Block → Result (Unit {0})) where
  unfoldable pub accept_block : Block → String → Bool → Bool → ℕ → State → Outcome
  unfolding on_accepted on_refused
  accept_block block peer rebroadcast request_missing now s =
      let (result, l) = Accept.accept_block block (ledger s) in
      let s' = set_ledger l s in
      elim result [
        | ok _ ↦ on_accepted gossip block rebroadcast now s'
        | err e ↦ on_refused e block peer request_missing s'
        | panic p ↦ (panic p, [], s')
      ]

  unfoldable pub accept_block_from_gossip : Block → String → ℕ → State → Outcome
  unfolding accept_block
  accept_block_from_gossip block peer now s = accept_block block peer true true now s

  unfoldable pub accept_block_from_r_r : Block → String → ℕ → State → Outcome
  unfolding accept_block
  accept_block_from_r_r block peer now s = accept_block block peer false false now s
