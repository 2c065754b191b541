-- ===== src/App/Tables/Chain.antt =====
-- The tables of src/bin/app.rs, on the blocks that a node serves.
use p2p_auction.Prelude.{
  ℕ, ◌+◌, ◌-◌, ◌≤◌, String, ◌≡◌, refl, sym, ap, ◌∙◌, false, none, some, arith, length, get_elem?,
}
use p2p_auction.Prelude.Result.{Result, ok, ok-inj}
use p2p_auction.Env.{Env, IsLawful}
use p2p_auction.Blockchain.{confirmed, execute_after_n_blocks}
use p2p_auction.Blockchain.Valid.{IsValid}
use p2p_auction.HashMap
use p2p_auction.State
use p2p_auction.State.{State, TransactionRequest}
use p2p_auction.App.{served}
use p2p_auction.App.Served.{get_elem?-take}
use p2p_auction.App.Walk.Chain.{rest_from, walk-fold}
use p2p_auction.App.Tables.{Table, nothing, add_transactions, gather, table}
use p2p_auction.App.Tables.Tracked.{of_table, track_blocks, fold_blocks-track}

module _ ⦃env : Env⦄ (laws : IsLawful env) (answers : TransactionRequest → Result ℕ) (s : State)
    (v : IsValid s.blockchain) where
  first_confirmed :
      (h : String)
      → State.first_block_hash s ≡ some h
      → get_elem? (confirmed s.blockchain) 0 ≡ some h
  unfolding State.first_block_hash confirmed
  first_confirmed h e =
      get_elem?-take (length s.blockchain.longest_chain - execute_after_n_blocks) 0
        s.blockchain.longest_chain
      ∙ ground (arith, v.commited)

  module _ {E : Type 0} (created : String → ℕ → E) (counted : String → ℕ → E → E) where
    table_run :
        (fuel : ℕ) (h : String) (t : Table E)
        → State.first_block_hash s ≡ some h
        → gather created counted fuel (served answers s) h nothing ≡ ok t
        → table created counted fuel (some (served answers s)) ≡ ok (t, none)
    unfolding table
    table_run fuel h t e f = rw (table, e, f) refl

    of_nothing : (id : String) → of_table created counted id nothing ≡ (none, false)
    unfolding HashMap.get
    of_nothing id = refl

    -- Given `IsLawful`, on what a node with a valid chain serves, where it names a first block, a table is
    -- gathered, with fuel for one block more than are confirmed; and it holds of each auction what the
    -- transactions on that auction alone, in the confirmed blocks and in their order, come to.
    pub table-tracked :
        (fuel : ℕ) (h : String)
        → length (confirmed s.blockchain) + 1 ≤ fuel
        → State.first_block_hash s ≡ some h
        → (t : Table E) × (table created counted fuel (some (served answers s)) ≡ ok (t, none))
          × ((id : String)
              → of_table created counted id t
                ≡ track_blocks created counted id (rest_from s 0) (none, false))
    unfolding gather
    table-tracked fuel h n e =
        let walked =
          walk-fold laws answers s v ok (λ t ms. ok (add_transactions created counted t ms)) fuel 0
            h nothing (first_confirmed h e) (omega arith) in
        let (t, folded, tracked) = fold_blocks-track created counted "" (rest_from s 0) nothing in
        (
          t,
          table_run fuel h t e (walked ∙ folded),
          λ id.
              let (t', folded', tracked') =
                fold_blocks-track created counted id (rest_from s 0) nothing in
              ap (of_table created counted id) (ok-inj (sym folded ∙ folded'))
              ∙ tracked'
              ∙ ap (track_blocks created counted id (rest_from s 0)) (of_nothing id),
        )
