-- ===== src/Blockchain/Reachable.antt =====
-- The ledgers that the methods of src/blockchain.rs that a node calls can lead to: `accept_block`,
-- `propose_block` and `add_transaction`, in any order, on any argument.
use mathlib.Core.Path.{subst}
use p2p_auction.Prelude.{
  ℕ, ◌-◌, ◌≤◌, String, ◌≡◌, refl, sym, inl, inr, false, List, [], arith, length,
}
use p2p_auction.Prelude.Result.{Result, ok}
use p2p_auction.Env.{Env, IsLawful}
use p2p_auction.HashMap
use p2p_auction.Pool
use p2p_auction.Transaction.{Transaction, Block}
use p2p_auction.Blockchain
use p2p_auction.Blockchain.{Blockchain, Ledger, Notifier}
use p2p_auction.Blockchain.Valid.{IsValid}
use p2p_auction.Blockchain.Accept.{accept_block, propose_block, verify}
use p2p_auction.Blockchain.Accept.Checks.{verify-IsValid}
use p2p_auction.Blockchain.Accept.Laws.{accept_or_unchanged}
use p2p_auction.Blockchain.Accept.Propose.{mined, flushed-IsValid, propose_lem}
use p2p_auction.Blockchain.Mempool.{add_transaction}
use p2p_auction.Blockchain.Mempool.Laws.{add_transaction-IsValid}

module _ ⦃env : Env⦄ where
  -- One call of a method. A block that the node mines has a hash that it does not know, as a hash
  -- function promises. The callers of the chain register and remove notifiers as they like.
  pub data Step : Ledger → Ledger → Type 0 where
    accept : (b : Block) (l : Ledger) → Step l (accept_block b l).1
    propose :
        (public_key : String) (clock : List (Result ℕ)) (l : Ledger)
        → ((b : Block)
            → mined public_key clock l ≡ ok b
            → HashMap.contains_key l.chain.blocks b.hash ≡ false)
        → Step l (propose_block public_key clock l).1
    submit :
        (t : Transaction) (l : Ledger)
        → Step l (record l { chain = (add_transaction t (l.chain)).1 })
    watch :
        (notifiers : HashMap.HashMap Notifier) (l : Ledger)
        → Step l (record l { notifiers = notifiers })

  pub data Reachable (difficulty : ℕ) : Ledger → Type 0 where
    start : Reachable difficulty (record { chain = Blockchain.new difficulty; notifiers = [] })
    after : {l l' : Ledger} → Reachable difficulty l → Step l l' → Reachable difficulty l'

  pub new-IsValid : (difficulty : ℕ) → IsValid (Blockchain.new difficulty)
  new-IsValid difficulty = record {
    map = tt;
    verified = λ h b e. unfold HashMap.get in cc e;
    rooted = λ h b e. unfold HashMap.get in cc e;
    linked = tt;
    commited = refl;
    pool = record { keyed = tt; bounded = unfold Pool.len in omega arith };
  }

  Step-IsValid : IsLawful env → (l l' : Ledger) → Step l l' → IsValid l.chain → IsValid l'.chain
  Step-IsValid laws l _ (accept b _) v = elim (accept_or_unchanged laws b l v) [
    | inl (good, a, fixed) ↦ fixed.valid
    | inr (failed, same) ↦ subst (λ (x : Ledger). IsValid x.chain) (sym same) v
  ]
  Step-IsValid laws l _ (propose public_key clock _ new) v =
      elim (propose_lem public_key clock l laws v new) [
        | inl (b, _, _, _, _, fixed) ↦ fixed.valid
        | inr (_, failed, same) ↦
            subst (λ (x : Ledger). IsValid x.chain) (sym same) (flushed-IsValid l v)
      ]
  Step-IsValid laws l _ (submit t _) v = add_transaction-IsValid t l.chain v
  Step-IsValid laws l _ (watch notifiers _) v = v

  -- Given `IsLawful`, every ledger that a node can reach from `Blockchain::new` is valid, whatever
  -- blocks and transactions it is given, as long as no block that it mines has the hash of a known
  -- one.
  pub Reachable-IsValid :
      IsLawful env → (difficulty : ℕ) (l : Ledger) → Reachable difficulty l → IsValid l.chain
  Reachable-IsValid laws difficulty l start = new-IsValid difficulty
  Reachable-IsValid laws difficulty l (after {l = l0} r s) =
      Step-IsValid laws l0 l s (Reachable-IsValid laws difficulty l0 r)

  -- Given `IsLawful`, of a ledger that a node can reach, the chain passes `verify`, the executed
  -- part is all of it but the last two blocks, and the pool is within its bound.
  pub Reachable-verify :
      IsLawful env
      → (difficulty : ℕ) (l : Ledger) → Reachable difficulty l
      → (verify l.chain ≡ ok tt)
        × (l.chain.commited_pointer ≡ length l.chain.longest_chain - 2)
        × (Pool.len l.chain.transaction_pool ≤ Pool.max_transaction_pool_size)
  Reachable-verify laws difficulty l r =
      let v = Reachable-IsValid laws difficulty l r in
      (verify-IsValid l.chain v, v.commited, v.pool.bounded)
