-- ===== src/Vm/System.antt =====
-- A running node: the tasks of src/vm.rs, the events of src/behaviour.rs and the requests of
-- src/state.rs over one state, in any order.
pub mod Sound
use mathlib.Core.Path.{subst}
use p2p_auction.Prelude.{
  ℕ, zero, suc, ◌+◌, ◌-◌, String, leb, ◌≡◌, refl, sym, ap, ◌∙◌, ◌⊎◌, inl, inr, Bool, true, false,
  Option, none, some, List, [], ◌∷◌, ◌++◌, All, if◌then◌else◌, arith, Bool-cases,
}
use p2p_auction.Prelude.Result.{Result, ok, err, panic}
use p2p_auction.Env.{Env, IsLawful}
use p2p_auction.PeerEnv.{PeerEnv}
use p2p_auction.HashMap
use p2p_auction.Block
use p2p_auction.Block.Laws.{verify-new}
use p2p_auction.Pool
use p2p_auction.Pool.Room.{add_transaction-IsValid}
use p2p_auction.Transaction.{Transaction, Block}
use p2p_auction.Blockchain
use p2p_auction.Blockchain.{Blockchain, Ledger, Notifier}
use p2p_auction.Blockchain.Valid.{IsValid}
use p2p_auction.Blockchain.Accept.{propose_block}
use p2p_auction.Blockchain.Accept.Propose.{mined, flushed-IsValid, propose_lem}
use p2p_auction.Blockchain.Mempool.Laws.{add_transaction-IsValid as chain_add-IsValid}
use p2p_auction.Blockchain.Reachable.{new-IsValid}
use p2p_auction.State
use p2p_auction.State.{State, TransactionRequest}
use p2p_auction.Runtime.{ledger, set_ledger}
use p2p_auction.Network.{SwarmEvent, Clock, Effect, from_event}
use p2p_auction.Network.Steps.{from_event-IsValid}
use p2p_auction.Vm.{
  public_text, add_miner, push_pending, stop_one, propose_round, stale, publish_next, request_chain,
  stop_transaction,
}

-- The state, the channel of blocks, the requests for a chain that wait, and what was published.
pub record Node : Type 0 where
  pub state : State
  pub channel : List Block
  pub syncs : ℕ
  pub published : List Block

abbrev pub start : Node
start = record { state = State.init; channel = []; syncs = 0; published = [] }

module _ ⦃env : Env⦄ ⦃peers : PeerEnv⦄ (publishes : Block → Result (Unit {0}))
    (keys : env.Keypair) where
  -- One turn of a task. As in Blockchain/Reachable, a mined block has a hash that the node does not know.
  -- The task that stops auctions reads the account and writes the pool under two locks: the chain that it
  -- read is another one, here any.
  pub data Step (n : Node) : Node → Type 0 where
    event :
        (e : SwarmEvent) (clock : Clock)
        → Step n (record n { state = (from_event publishes e clock (n.state)).2 })
    stop :
        (id : String) (now : Result ℕ) (before : Blockchain)
        → Step n (record n {
          state = record (n.state) {
            blockchain = push_pending (stop_transaction keys id now before) (n.state.blockchain);
          };
        })
    propose :
        (clock : List (Result ℕ))
        → ((b : Block)
            → mined (public_text keys) clock (ledger n.state) ≡ ok b
            → HashMap.contains_key n.state.blockchain.blocks b.hash ≡ false)
        → Step n (record n {
          channel = (propose_round keys clock n.channel n.state).0;
          state = (propose_round keys clock n.channel n.state).1;
        })
    publish :
        (succeeds : Bool) (b : Block) (rest : List Block)
        → n.channel ≡ b ∷ rest
        → Step n (record n {
          channel = (publish_next succeeds b rest).1;
          published = n.published ++ (publish_next succeeds b rest).0;
        })
    tick :
        (now : ℕ)
        → Step n (record n {
          syncs = if stale n.state.last_block_accepted now then n.syncs + 1 else n.syncs;
        })
    sync : (k : ℕ) → n.syncs ≡ suc k → Step n (record n { syncs = k })
    request :
        (t : TransactionRequest) (now : Result ℕ) (instant : ℕ)
        → Step n (record n { state = (State.transaction t now instant (n.state)).1 })
    finish :
        (id : String) (notify : Notifier)
        → Step n (record n { state = (State.finish id notify (n.state)).1 })
    add :
        (now : Result ℕ) (s : State)
        → add_miner keys now n.state ≡ ok s
        → Step n (record n { state = s })

  -- The tasks may take turns before `run` adds the account of the miner.
  pub data Runs : Node → Type 0 where
    begin : Runs start
    next : {n m : Node} → Runs n → Step n m → Runs m
