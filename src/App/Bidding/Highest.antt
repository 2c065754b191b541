-- ===== src/App/Bidding/Highest.antt =====
-- A bid that the form that bids sends is no lower than what is confirmed of its auction.
use mathlib.Core.Path.{subst}
use p2p_auction.Prelude.{
  ℕ, ◌+◌, ◌≤◌, String, ◌≡◌, sym, ap, ◌∙◌, Option, some, arith, length, drop, get_elem?,
}
use p2p_auction.Prelude.Result.{Result, ok, ok-inj}
use p2p_auction.Env.{Env, IsLawful}
use p2p_auction.HashMap
use p2p_auction.Transaction.{Block, Transaction, bid}
use p2p_auction.Blockchain.{confirmed}
use p2p_auction.Blockchain.Valid.{IsValid}
use p2p_auction.State.{
  State, bid_request, record_of, request_of, TransactionRequest, blocks_of, find_block,
  auction_exists,
}
use p2p_auction.State.Auctions.{find_block-place, auction_exists-block}
use p2p_auction.App.{Input, Widgets, Client, served, Secrets}
use p2p_auction.App.Bidding.{Bid, highest_bid, handle_io}
use p2p_auction.App.Bidding.Walk.{highest_bid-fold}
use p2p_auction.App.Bidding.Checks.{AllFit, Sends, IsChecked, fold_blocks-AllFit}
use p2p_auction.App.Bidding.Sent.{handle_io-IsSent}

-- From the confirmed block that creates the auction on, no confirmed bid on it is above the offer, it is not
-- stopped, and no creation starts above the offer.
pub record IsHighest (s : State) (auction : String) (offered : ℕ) : Type 0 where
  pub created_in : Block
  pub place : ℕ
  pub hash : String
  pub stands : get_elem? (confirmed s.blockchain) place ≡ some hash
  pub known : HashMap.get s.blockchain.blocks hash ≡ some created_in
  pub creates :
      find_block auction (blocks_of s.blockchain.blocks (confirmed s.blockchain)) ≡ some created_in
  pub fits :
      AllFit auction offered (blocks_of s.blockchain.blocks (drop place (confirmed s.blockchain)))

module _ ⦃env : Env⦄ (laws : IsLawful env) (answers : TransactionRequest → Result ℕ) (s : State)
    (v : IsValid s.blockchain) where
  walked-IsHighest :
      (fuel : ℕ) (auction hash : String) (offered highest : ℕ)
      → length (confirmed s.blockchain) + 1 ≤ fuel
      → auction_exists auction s ≡ some hash
      → highest_bid fuel (served answers s) auction hash offered ≡ ok highest
      → highest ≤ offered
      → IsHighest s auction offered
  walked-IsHighest fuel auction hash offered highest n found walked le =
      let (b, first, same) = auction_exists-block auction s hash found in
      let (i, h, at, known) =
        find_block-place auction s.blockchain.blocks (confirmed s.blockchain) b first in
      let this : hash ≡ h = sym same ∙ (v.verified h b known).0 in
      let folded = highest_bid-fold laws answers s v fuel auction i h offered at (omega arith) in
      let (ge, all) =
        fold_blocks-AllFit auction offered highest
          (blocks_of s.blockchain.blocks (drop i (confirmed s.blockchain)))
          (sym folded
            ∙ ap (λ x. highest_bid fuel (served answers s) auction x offered) (sym this)
            ∙ walked) in
      record {
        created_in = b;
        place = i;
        hash = h;
        stands = at;
        known = known;
        creates = first;
        fits =
            subst
              (λ m.
                AllFit auction m (blocks_of s.blockchain.blocks (drop i (confirmed s.blockchain))))
              (omega arith) all;
      }

payload-bid :
    (request : TransactionRequest) (t : Transaction) (auction : String) (offered : ℕ)
    → request ≡ request_of t
    → t.payload ≡ bid auction offered
    → request.payload ≡ some (bid_request auction offered)
unfolding request_of record_of
payload-bid request t auction offered e f = cc (ap record_of f, ap (λ r. r.payload) e)

-- Given `IsLawful`, and fuel for one block more than are confirmed: where the form is connected to a node
-- whose state keeps a valid chain and changes in between in nothing, every transaction that the form sends
-- is a bid on an auction that a confirmed block creates; and from that block on, no confirmed transaction
-- stops the auction, no confirmed bid on it is above the offer, and no creation starts above it.
pub bid-IsHighest :
    ⦃env : Env⦄ (laws : IsLawful env) (widgets : Widgets) (secrets : Secrets)
    (connect : String → Option Client) (fuel : ℕ) (now : Result ℕ)
    (answers : TransactionRequest → Result ℕ) (s : State) (v : IsValid s.blockchain) (input : Input)
    (form : Bid) (request : TransactionRequest)
    → length (confirmed s.blockchain) + 1 ≤ fuel
    → connect form.node ≡ some (served answers s)
    → Sends widgets secrets connect fuel now request
        (handle_io widgets secrets connect fuel now input form)
    → (auction : String) × (offered : ℕ) × (request.payload ≡ some (bid_request auction offered))
      × IsHighest s auction offered
bid-IsHighest laws widgets secrets connect fuel now answers s v input form request n serving sent =
    let it = handle_io-IsSent widgets secrets connect fuel now input form request sent in
    let same : it.client ≡ served answers s = cc (it.connected, serving) in
    let checked =
      subst (λ c. IsChecked widgets secrets connect fuel now c it.auction it.offered request) same
        it.checked in
    let (t, sent_as, bids) = checked.bids in
    (
      it.auction,
      it.offered,
      payload-bid request t it.auction it.offered sent_as bids,
      walked-IsHighest laws answers s v fuel it.auction checked.hash it.offered checked.highest n
          (ok-inj checked.exists) checked.walked checked.enough,
    )
