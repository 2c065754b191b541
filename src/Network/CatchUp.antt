-- ===== src/Network/CatchUp.antt =====
-- A node that has just started and receives the chain of a peer.
use mathlib.Core.Path.{subst}
use mathlib.Core.List.{append-nil}
use p2p_auction.Prelude.{
  ℕ, suc, String, ◌≡◌, refl, sym, ap, ◌∙◌, inl, inr, none, some, List, [], ◌∷◌, ◌++◌, map, arith,
  eq_iff, contains, contains-append, Option-cases, if◌then◌else◌, ◌-◌, length,
}
use p2p_auction.Prelude.Result.{Result, ok}
use p2p_auction.Env.{Env, IsLawful}
use p2p_auction.PeerEnv.{PeerEnv}
use p2p_auction.HashMap
use p2p_auction.HashMap.Laws.{contains_key-get}
use p2p_auction.Transaction.{Block}
use p2p_auction.Blockchain
use p2p_auction.Blockchain.{Blockchain, Ledger, execute_after_n_blocks}
use p2p_auction.Blockchain.Accept
use p2p_auction.Blockchain.Accept.CatchUp.{Follows, Follows-accept}
use p2p_auction.Blockchain.Branch.Paths.{append_one}
use p2p_auction.Blockchain.Valid.{IsValid, Linked-known}
use p2p_auction.Blockchain.Reachable.{new-IsValid}
use p2p_auction.State.{State, blocks_of}
use p2p_auction.State.Auctions.{blocks_of-some}
use p2p_auction.Runtime.{
  Outcome, ledger, set_ledger, accept_block, on_accepted, accept_block_from_r_r,
}
use p2p_auction.Network.{
  longest_chain_blocks, sent, Handled, then_handled, logged, Clock, accept_blocks, on_response,
  respond,
}

module _ ⦃env : Env⦄ ⦃peers : PeerEnv⦄ (publishes : Block → Result (Unit {0})) where
  -- The state after a block of a response was accepted.
  abbrev accepted_at : Block → ℕ → State → State
  accepted_at b now s = record (set_ledger (Accept.accept_block b (ledger s)).1 s) {
    last_block_accepted = some now;
  }

  r_r_run :
      (b : Block) (peer : String) (now : ℕ) (s : State)
      → (Accept.accept_block b (ledger s)).0 ≡ ok tt
      → accept_block_from_r_r publishes b peer now s ≡ (ok tt, [], accepted_at b now s)
  unfolding accept_block_from_r_r on_accepted
  r_r_run b peer now s e = rw (accept_block, e) refl

  accept_blocks_run :
      (b : Block) (bs : List Block) (peer : String) (clock : Clock) (s : State)
      → (Accept.accept_block b (ledger s)).0 ≡ ok tt
      → accept_blocks publishes (b ∷ bs) peer clock s
        ≡ accept_blocks publishes bs peer (λ i. clock (suc i)) (accepted_at b (clock 0) s)
  unfolding accept_blocks
  accept_blocks_run b bs peer clock s e =
      ap
        (λ (o : Outcome).
          then_handled (logged o.0) (map sent o.1) o.2
            (accept_blocks publishes bs peer (λ i. clock (suc i))))
        (r_r_run b peer (clock 0) s e)

  module _ (laws : IsLawful env) (a : Blockchain) (va : IsValid a) where
    abbrev IsCaughtUp : Handled → Type 0
    IsCaughtUp h = (h.0 ≡ ok tt) × Follows laws a va a.longest_chain h.2.blockchain

    catch_up :
        (part rest : List String) (peer : String) (clock : Clock) (s : State)
        → a.longest_chain ≡ part ++ rest
        → Follows laws a va part s.blockchain
        → IsCaughtUp (accept_blocks publishes (blocks_of a.blocks rest) peer clock s)
    catch_up part [] peer clock s splits f =
        unfold accept_blocks blocks_of in
        (refl, subst (λ p. Follows laws a va p s.blockchain) (sym (splits ∙ append-nil part)) f)
    catch_up part (h ∷ rest) peer clock s splits f = elim (Option-cases (HashMap.get a.blocks h)) [
      | inl missing ↦
          let known = Linked-known a.blocks "0" a.longest_chain h va.map va.linked (
            ap (λ l. contains l h) splits
            ∙ contains-append part (h ∷ rest) h
            ∙ ground (arith, eq_iff h h)) in
          absurd (ground (arith, contains_key-get a.blocks h))
      | inr (b, e) ↦
          let (good, next) = Follows-accept laws a va part h rest b (ledger s) splits e f in
          let tail =
            catch_up (part ++ (h ∷ [])) rest peer (λ i. clock (suc i)) (accepted_at b (clock 0) s)
              (splits ∙ append_one part h rest) next in
          subst IsCaughtUp
            (sym (
              ap (λ bs. accept_blocks publishes bs peer clock s)
                (blocks_of-some a.blocks h rest b e)
              ∙ accept_blocks_run b (blocks_of a.blocks rest) peer clock s good))
            tail
    ]

  -- Given `IsLawful`, a node that has just started and receives the answer of a peer with a valid chain
  -- to the request for its blocks accepts every one of them and ends with that chain: it follows the
  -- same blocks, knows exactly them, as the peer does, and has executed as many.
  pub caught_up :
      (laws : IsLawful env) (a s : State) (peer : String) (clock : Clock) (difficulty : ℕ)
      → IsValid a.blockchain
      → s.blockchain ≡ Blockchain.new difficulty
      → ((on_response publishes (respond longest_chain_blocks a) peer clock s).0 ≡ ok tt)
        × ((on_response publishes
              (respond longest_chain_blocks a)
              peer
              clock
              s).2.blockchain.longest_chain
            ≡ a.blockchain.longest_chain)
        × ((h : String)
            → HashMap.get
                (on_response publishes
                  (respond longest_chain_blocks a)
                  peer
                  clock
                  s).2.blockchain.blocks
                h
              ≡ (if contains a.blockchain.longest_chain h
                  then HashMap.get a.blockchain.blocks h
                  else none))
        × ((on_response publishes
              (respond longest_chain_blocks a)
              peer
              clock
              s).2.blockchain.commited_pointer
            ≡ a.blockchain.commited_pointer)
  unfolding on_response respond
  caught_up laws a s peer clock difficulty va fresh =
      let start : Follows laws a.blockchain va [] s.blockchain =
        subst (Follows laws a.blockchain va []) (sym fresh) (record {
          valid = new-IsValid difficulty;
          chain = refl;
          blocks = λ h. unfold HashMap.get in refl;
          unpruned = λ h. refl;
        }) in
      let (good, f) =
        catch_up laws a.blockchain va [] a.blockchain.longest_chain peer clock s refl start in
      (
        good,
        f.chain,
        f.blocks,
        f.valid.commited
            ∙ ap (λ (l : List String). length l - execute_after_n_blocks) f.chain
            ∙ sym va.commited,
      )
