-- ===== src/App/Bidding/Walk.antt =====
-- The walk of the form that bids, on the blocks that a node serves.
use p2p_auction.Prelude.{ℕ, ◌+◌, ◌≤◌, String, ◌≡◌, some, length, get_elem?}
use p2p_auction.Prelude.Result.{Result, err, message}
use p2p_auction.Env.{Env, IsLawful}
use p2p_auction.Blockchain.{confirmed}
use p2p_auction.Blockchain.Valid.{IsValid}
use p2p_auction.State.{State, TransactionRequest}
use p2p_auction.App.{served}
use p2p_auction.App.Walk.Chain.{fold_blocks, rest_from, walk-fold}
use p2p_auction.App.Bidding.{fold_transactions, highest_bid}

-- Given `IsLawful`, on what a node with a valid chain serves, the walk of the form from a confirmed block
-- ends, with fuel for one block more than are confirmed, and it has folded exactly the confirmed blocks
-- from that one on, in their order.
pub highest_bid-fold :
    ⦃env : Env⦄ (laws : IsLawful env) (answers : TransactionRequest → Result ℕ) (s : State)
    (v : IsValid s.blockchain) (fuel : ℕ) (auction : String) (i : ℕ) (h : String) (acc : ℕ)
    → get_elem? (confirmed s.blockchain) i ≡ some h
    → length (confirmed s.blockchain) + 1 ≤ fuel + i
    → highest_bid fuel (served answers s) auction h acc
      ≡ fold_blocks (fold_transactions auction) acc (rest_from s i)
unfolding highest_bid
highest_bid-fold laws answers s v fuel auction =
    walk-fold laws answers s v (λ acc. err (message "The node failed to respond."))
      (fold_transactions auction) fuel
