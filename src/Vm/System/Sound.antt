-- ===== src/Vm/System/Sound.antt =====
-- What no task of a running node breaks.
use mathlib.Core.Path.{subst}
use p2p_auction.Prelude.{
  ℕ, ◌≡◌, refl, sym, ◌∙◌, inl, inr, Bool, true, false, Option, none, some, List, [], ◌∷◌, ◌++◌, All,
  arith, get_last?,
}
use p2p_auction.Prelude.Result.{Result, ok, err, panic, ok-inj, >>=-eq-ok}
use p2p_auction.Env.{Env, IsLawful}
use p2p_auction.PeerEnv.{PeerEnv}
use p2p_auction.Block
use p2p_auction.Block.Laws.{verify-new}
use p2p_auction.HashMap
use p2p_auction.Pool.Room as Pool
use p2p_auction.Transaction.{Transaction, Block, create_user_account}
use p2p_auction.Transaction.Signing
use p2p_auction.Blockchain.{Blockchain, Ledger}
use p2p_auction.Blockchain.Valid.{IsValid}
use p2p_auction.Blockchain.Accept.{propose_block}
use p2p_auction.Blockchain.Accept.Propose.{mined, flushed-IsValid, propose_lem}
use p2p_auction.Blockchain.Mempool.Laws.{add_transaction-IsValid}
use p2p_auction.Blockchain.Reachable.{new-IsValid}
use p2p_auction.State.{
  State, Reply, TransactionRequest, Record, limit, register, submit, handle, transaction_of,
  transaction, finish as finish_request,
}
use p2p_auction.Runtime.{ledger}
use p2p_auction.Network.Steps.{from_event-IsValid}
use p2p_auction.Vm.{
  public_text, add_miner, enqueue, push_pending, stop_transaction, propose_round, publish_next,
}
use p2p_auction.Vm.System.{
  Node, Step, event, stop, propose, publish, tick, sync, request, finish, add, Runs, begin, next,
}

module _ ⦃env : Env⦄ where
  abbrev pub Verifies : Block → Type 0
  Verifies b = Block.verify b ≡ ok true

  -- The chain is valid, and every mined block that waits or was published verifies.
  pub record IsSound (n : Node) : Type 0 where
    pub chain : IsValid n.state.blockchain
    pub channel : All Verifies n.channel
    pub published : All Verifies n.published

  push_pending-IsValid :
      (o : Option Transaction) (c : Blockchain) → IsValid c → IsValid (push_pending o c)
  unfolding push_pending
  push_pending-IsValid none c v = v
  push_pending-IsValid (some t) c v = record {
    map = v.map;
    verified = v.verified;
    rooted = v.rooted;
    linked = v.linked;
    commited = v.commited;
    pool = Pool.add_transaction-IsValid c.transaction_pool t v.pool;
  }

  add_miner-IsValid :
      (keys : env.Keypair) (now : Result ℕ) (s s' : State)
      → add_miner keys now s ≡ ok s'
      → IsValid s.blockchain
      → IsValid s'.blockchain
  unfolding add_miner
  add_miner-IsValid keys now s s' e v =
      let (t, signed, rest) =
        >>=-eq-ok
          (Signing.sign (create_user_account (public_text keys)) (public_text keys) 0 keys now) _
          e in
      subst (λ (x : State). IsValid x.blockchain) (ok-inj rest)
        (unfold push_pending in push_pending-IsValid (some t) s.blockchain v)

  handle-IsValid :
      (t : Transaction) (instant : ℕ) (s : State)
      → IsValid s.blockchain
      → IsValid (handle t instant s).1.blockchain
  unfolding handle submit register
  handle-IsValid t instant s v =
      split (limit t.from instant s) (λ s' e. unfold limit in ground arith)
    where
      split :
          (o : Option State)
          → ((s' : State) → o ≡ some s' → s'.blockchain ≡ s.blockchain)
          → IsValid
              (elim o as (λ _. Reply × State) [
                | none ↦ (Reply.status 1, s)
                | some s' ↦ submit t (register t.id s')
              ]).1.blockchain
      split none same = v
      split (some s') same =
          add_transaction-IsValid t s'.blockchain (subst IsValid (sym (same s' refl)) v)

  All-append : (bs cs : List Block) → All Verifies bs → All Verifies cs → All Verifies (bs ++ cs)
  All-append [] cs a b = b
  All-append (x ∷ bs) cs a b = (a.0, All-append bs cs a.1 b)

  publish-sound :
      (succeeds : Bool) (b : Block) (rest : List Block)
      → Verifies b
      → All Verifies rest
      → All Verifies (publish_next succeeds b rest).0
        × All Verifies (publish_next succeeds b rest).1
  unfolding publish_next
  publish-sound true b rest good all = ((good, tt), all)
  publish-sound false b rest good all = (tt, All-append rest (b ∷ []) all (good, tt))

  enqueue-sound :
      (r : Result Block) (channel : List Block)
      → ((b : Block) → r ≡ ok b → Verifies b)
      → All Verifies channel
      → All Verifies (enqueue r channel)
  unfolding enqueue
  enqueue-sound (ok b) channel good all = All-append channel (b ∷ []) all (good b refl, tt)
  enqueue-sound (err e) channel good all = all
  enqueue-sound (panic p) channel good all = all

  propose-sound :
      IsLawful env
      → (keys : env.Keypair) (clock : List (Result ℕ)) (channel : List Block) (s : State)
      → ((b : Block)
          → mined (public_text keys) clock (ledger s) ≡ ok b
          → HashMap.contains_key s.blockchain.blocks b.hash ≡ false)
      → IsValid s.blockchain
      → All Verifies channel
      → IsValid (propose_round keys clock channel s).1.blockchain
        × All Verifies (propose_round keys clock channel s).0
  unfolding propose_round
  propose-sound laws keys clock channel s fresh v all =
      elim (propose_lem (public_text keys) clock (ledger s) laws v fresh) [
        | inl (b, m, held, parent, good, fixed) ↦
            let (verified, names, holds, mined_by, below) =
              verify-new (public_text keys) (get_last? s.blockchain.longest_chain) _
                s.blockchain.difficulty clock m in
            (
              fixed.valid,
              enqueue-sound (propose_block (public_text keys) clock (ledger s)).0 channel
                  (λ c e. subst Verifies (ok-inj (sym good ∙ e)) verified) all,
            )
        | inr (why, failed, same) ↦ (
          subst (λ (x : Ledger). IsValid x.chain) (sym same) (flushed-IsValid (ledger s) v),
          enqueue-sound (propose_block (public_text keys) clock (ledger s)).0 channel
              (λ c e. absurd (failed c e)) all,
        )
      ]

  transaction-IsValid :
      (t : TransactionRequest) (now : Result ℕ) (instant : ℕ) (s : State)
      → IsValid s.blockchain
      → IsValid (transaction t now instant s).1.blockchain
  unfolding transaction
  transaction-IsValid t now instant s v = payload t.payload
    where
      made :
          (r : Result Transaction)
          → IsValid
              (elim r as (λ _. Reply × State) [
                | ok x ↦ handle x instant s
                | _ ↦ (Reply.status 1, s)
              ]).1.blockchain
      made (ok x) = handle-IsValid x instant s v
      made (err e) = v
      made (panic p) = v

      payload :
          (o : Option Record)
          → IsValid
              (elim o as (λ _. Reply × State) [
                | none ↦ (Reply.status 1, s)
                | some r ↦ elim (transaction_of t r now) as (λ _. Reply × State) [
                  | ok x ↦ handle x instant s
                  | _ ↦ (Reply.status 1, s)
                ]
              ]).1.blockchain
      payload none = v
      payload (some r) = made (transaction_of t r now)

module _ ⦃env : Env⦄ ⦃peers : PeerEnv⦄ (publishes : Block → Result (Unit {0})) (keys : env.Keypair)
    (laws : IsLawful env) where
  Step-IsSound : {n m : Node} → Step publishes keys n m → IsSound n → IsSound m
  Step-IsSound {n} (event e clock) v = record {
    chain = from_event-IsValid publishes laws e clock n.state v.chain;
    channel = v.channel;
    published = v.published;
  }
  Step-IsSound {n} (stop id now before) v = record {
    chain = push_pending-IsValid (stop_transaction keys id now before) n.state.blockchain v.chain;
    channel = v.channel;
    published = v.published;
  }
  Step-IsSound {n} (propose clock fresh) v =
      let (chain, channel) =
        propose-sound laws keys clock n.channel n.state fresh v.chain v.channel in
      record { chain = chain; channel = channel; published = v.published }
  Step-IsSound {n} (publish succeeds b rest e) v =
      let all = subst (All Verifies) e v.channel in
      let (out, waits) = publish-sound succeeds b rest all.0 all.1 in
      record {
        chain = v.chain;
        channel = waits;
        published = All-append n.published (publish_next succeeds b rest).0 v.published out;
      }
  Step-IsSound {n} (tick now) v = record {
    chain = v.chain;
    channel = v.channel;
    published = v.published;
  }
  Step-IsSound {n} (sync k e) v = record {
    chain = v.chain;
    channel = v.channel;
    published = v.published;
  }
  Step-IsSound {n} (request t now instant) v = record {
    chain = transaction-IsValid t now instant n.state v.chain;
    channel = v.channel;
    published = v.published;
  }
  Step-IsSound {n} (finish id notify) v = record {
    chain = unfold finish_request in v.chain;
    channel = v.channel;
    published = v.published;
  }
  Step-IsSound {n} (add now s e) v = record {
    chain = add_miner-IsValid keys now n.state s e v.chain;
    channel = v.channel;
    published = v.published;
  }

  -- Given `IsLawful`, a node that runs its tasks, takes the events of its swarm and serves requests, in any
  -- order, always has a valid chain, and every block that it has mined and that waits to be published or was
  -- published passes `verify`, as long as no block that it mines has the hash of a known one.
  pub Runs-IsSound : (n : Node) → Runs publishes keys n → IsSound n
  Runs-IsSound n begin = record { chain = new-IsValid 4294967295; channel = tt; published = tt }
  Runs-IsSound n (next r s) = Step-IsSound s (Runs-IsSound _ r)
