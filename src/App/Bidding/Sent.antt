-- ===== src/App/Bidding/Sent.antt =====
-- The bids that the form that bids sends, and what the node has confirmed of their auction.
use p2p_auction.Prelude.{
  ℕ, String, ◌≡◌, inl, inr, Option, none, some, arith, Option-cases, Bool-cases,
}
use p2p_auction.Prelude.Result.{Result}
use p2p_auction.Prelude.Text.{is_blank, parse_u64}
use p2p_auction.Env.{Env}
use p2p_auction.State.{TransactionRequest}
use p2p_auction.App.{Key, Input, TextArea, Widgets, Client, Secrets, lines_to_string}
use p2p_auction.App.Bidding.{
  Bid, bid_transaction, send_bid, with_private_key, with_auction, on_enter, on_key, handle_io,
}
use p2p_auction.App.Bidding.Checks.{IsChecked, bid_transaction-IsChecked, Sends, attempt-sent}

module _ ⦃env : Env⦄ (widgets : Widgets) (secrets : Secrets) (connect : String → Option Client)
    (fuel : ℕ) (now : Result ℕ) where
  -- The form has sent a bid that it has checked with the node that it is connected to.
  pub record IsSent (form : Bid) (request : TransactionRequest) : Type 0 where
    pub client : Client
    pub auction : String
    pub offered : ℕ
    pub connected : connect form.node ≡ some client
    pub checked : IsChecked widgets secrets connect fuel now client auction offered request

  send_bid-IsSent :
      (key_text auction : String) (offered : ℕ) (form : Bid) (request : TransactionRequest)
      → Sends widgets secrets connect fuel now request
          (send_bid widgets secrets connect fuel now key_text auction offered form)
      → IsSent form request
  unfolding send_bid
  send_bid-IsSent key_text auction offered form request (form', e) =
      elim (Option-cases (connect form.node)) [
        | inl off ↦ absurd (ground arith)
        | inr (client, on) ↦
            let attempted =
              attempt-sent widgets secrets connect fuel now client
                (bid_transaction widgets secrets connect fuel now client form.public_key key_text
                  auction offered)
                form request (form', ground arith) in
            record {
              client = client;
              auction = auction;
              offered = offered;
              connected = on;
              checked =
                  bid_transaction-IsChecked widgets secrets connect fuel now client form.public_key
                    key_text auction offered request attempted;
            }
      ]

  with_private_key-IsSent :
      (area : Option TextArea) (auction : String) (offered : ℕ) (form : Bid)
      (request : TransactionRequest)
      → Sends widgets secrets connect fuel now request
          (with_private_key widgets secrets connect fuel now area auction offered form)
      → IsSent form request
  unfolding with_private_key
  with_private_key-IsSent none auction offered form request (form', e) = absurd (ground arith)
  with_private_key-IsSent (some area) auction offered form request (form', e) =
      elim (Bool-cases (is_blank (lines_to_string area.lines))) [
        | inl blank ↦ absurd (ground arith)
        | inr typed ↦
            send_bid-IsSent (lines_to_string area.lines) auction offered form request
              (form', ground arith)
      ]

  with_auction-IsSent :
      (offered : ℕ) (form : Bid) (request : TransactionRequest)
      → Sends widgets secrets connect fuel now request
          (with_auction widgets secrets connect fuel now offered form)
      → IsSent form request
  unfolding with_auction
  with_auction-IsSent offered form request (form', e) =
      let text = lines_to_string form.auction_id_textarea.lines in
      elim (Bool-cases (is_blank text)) [
        | inl blank ↦ absurd (ground arith)
        | inr typed ↦
            with_private_key-IsSent form.private_key_textarea text offered form request
              (form', ground arith)
      ]

  on_enter-IsSent :
      (form : Bid) (request : TransactionRequest)
      → Sends widgets secrets connect fuel now request
          (on_enter widgets secrets connect fuel now form)
      → IsSent form request
  unfolding on_enter
  on_enter-IsSent form request (form', e) =
      let text = lines_to_string form.amount_textarea.lines in
      elim (Bool-cases (is_blank text)) [
        | inl blank ↦ absurd (ground arith)
        | inr typed ↦ elim (Option-cases (parse_u64 text)) [
          | inl bad ↦ absurd (ground arith)
          | inr (offered, read) ↦ with_auction-IsSent offered form request (form', ground arith)
        ]
      ]

  on_key-IsSent :
      (input : Input) (key : Key) (form : Bid) (request : TransactionRequest)
      → Sends widgets secrets connect fuel now request
          (on_key widgets secrets connect fuel now input key form)
      → IsSent form request
  unfolding on_key
  on_key-IsSent input Key.enter form request (form', e) = elim (Option-cases form.popup) [
    | inr (m, shown) ↦ absurd (ground arith)
    | inl closed ↦ on_enter-IsSent form request (form', ground arith)
  ]
  on_key-IsSent input Key.up form request (form', e) = absurd (ground arith)
  on_key-IsSent input Key.down form request (form', e) = absurd (ground arith)
  on_key-IsSent input Key.left form request (form', e) = absurd (ground arith)
  on_key-IsSent input Key.right form request (form', e) = absurd (ground arith)
  on_key-IsSent input (Key.char c) form request (form', e) = absurd (ground arith)
  on_key-IsSent input (Key.other_key k) form request (form', e) = absurd (ground arith)

  pub handle_io-IsSent :
      (input : Input) (form : Bid) (request : TransactionRequest)
      → Sends widgets secrets connect fuel now request
          (handle_io widgets secrets connect fuel now input form)
      → IsSent form request
  unfolding handle_io
  handle_io-IsSent input form request sent = on_key-IsSent input input.key form request sent
