-- ===== src/App/Bidding.antt =====
-- src/bin/app.rs, `mod bid`: the form that bids on an auction. A call of `handle_io` returns the transaction
-- that it has sent, if any, and the form; the walk over the blocks may not end.
pub mod Walk
pub mod Checks
pub mod Sent
pub mod Highest
use p2p_auction.Prelude.{
  ℕ, zero, suc, String, ◌==◌, leb, ltb, nat_eq, Bool, true, false, ◌&&◌, Option, none, some, List,
  [], ◌∷◌, if◌then◌else◌,
}
use p2p_auction.Prelude.Result.{
  Result, ok, err, panic, message, diverges, ◌>>=◌, ◌>>◌, or_message, Error,
}
use p2p_auction.Prelude.Text.{is_blank, parse_u64}
use p2p_auction.Env.{Env}
use p2p_auction.Hash
use p2p_auction.Transaction.{bid}
use p2p_auction.Transaction.Signing
use p2p_auction.State.{
  TransactionRequest, request_of, Record, create_account_request, bid_request,
  create_auction_request, stop_auction_request,
}
use p2p_auction.State.Responses.{TransactionMessage, BlockMessage}
use p2p_auction.App.Walk.{walk}
use p2p_auction.App.{
  Key, Input, TextArea, Widgets, Client, lines_to_string, Secrets, say, keypair_from_str, reported,
}

pub data Field : Type 0 where
  auction_id amount private_key : Field

pub record Bid : Type 0 where
  pub auction_id_textarea : TextArea
  pub amount_textarea : TextArea
  pub private_key_textarea : Option TextArea
  pub field : Field
  pub node : String
  pub public_key : String
  pub popup : Option String

unfoldable pub new : String → String → Bid
new node public_key = record {
  node = node;
  public_key = public_key;
  amount_textarea = record { lines = "" ∷ []; placeholder = " Insert the amount..." };
  auction_id_textarea = record { lines = "" ∷ []; placeholder = " Insert the auction ID..." };
  private_key_textarea = none;
  field = auction_id;
  popup = none;
}

unfoldable pub toggle_up : Field → Field
toggle_up auction_id = auction_id
toggle_up amount = auction_id
toggle_up private_key = private_key

unfoldable pub toggle_down : Field → Field
toggle_down auction_id = amount
toggle_down amount = amount
toggle_down private_key = private_key

abbrev max : ℕ → ℕ → ℕ
max a b = if leb a b then b else a

-- One transaction of the `try_fold`. A creation counts whichever auction it creates.
unfoldable pub fold_record : String → ℕ → Option Record → Result ℕ
fold_record auction acc none = ok acc
fold_record auction acc (some (stop_auction_request id)) =
    if id == auction then err (message "There is already a stop auction order") else ok acc
fold_record auction acc (some (bid_request id offered)) =
    if id == auction then ok (max offered acc) else ok acc
fold_record auction acc (some (create_auction_request id start_amount stop_time)) =
    ok (max start_amount acc)
fold_record auction acc (some (create_account_request key)) = ok acc

unfoldable pub fold_transactions : String → ℕ → List TransactionMessage → Result ℕ
unfolding fold_record
fold_transactions auction acc [] = ok acc
fold_transactions auction acc (t ∷ ts) =
    fold_record auction acc t.payload >>= λ acc'. fold_transactions auction acc' ts

-- The loop over the blocks, on fuel.
unfoldable pub highest_bid : ℕ → Client → String → String → ℕ → Result ℕ
unfolding fold_transactions walk
highest_bid fuel client auction =
    walk (λ acc. err (message "The node failed to respond.")) (fold_transactions auction) fuel
      client

abbrev refuse : Bool → String → Result (Unit {0})
refuse true m = err (message m)
refuse false m = ok tt

unfoldable pub exit_popup : Option String → Bid → Bid
exit_popup error form = record form {
  popup = error;
  field = auction_id;
  private_key_textarea = none;
}

-- The transaction that is sent, if any, and the form.
abbrev pub Handled : Type 0
Handled = Result (Option TransactionRequest × Bid)

abbrev stay : Bid → Handled
stay form = ok (none, form)

module _ ⦃env : Env⦄ (widgets : Widgets) (secrets : Secrets) (connect : String → Option Client)
    (fuel : ℕ) (now : Result ℕ) where
  -- The request to bid, or what the popup is to say.
  unfoldable pub bid_transaction :
      Client → (public_key private_key_text auction : String) → ℕ → Result TransactionRequest
  unfolding highest_bid keypair_from_str
  bid_transaction client public_key private_key_text auction offered = do
    found ← or_message "The node failed to respond." (client.auction_exists auction)
    hash ← say "The node does not recognize the auction." found
    highest ← highest_bid fuel client auction hash offered
    refuse (ltb offered highest) "There is already a higher or equal bid on-chain."
    keys ←
        or_message "Failed to validate the keys provided."
          (keypair_from_str secrets public_key private_key_text)
    account ← or_message "Failed to get account nonce." (client.account_exists public_key)
    nonce ← say "Failed to get account nonce." account
    t ← or_message "Failed to sign the bid transaction." (
        Signing.sign (bid auction offered) (Hash.public_key_to_string (env.public keys)) nonce keys
          now)
    ok (request_of t)

  -- What the form says after an attempt to bid, and what was sent.
  unfoldable pub attempt : Client → Result TransactionRequest → Bid → Handled
  unfolding exit_popup
  attempt client (ok request) form = ok (
    some request,
    exit_popup
        (some (
          reported "Successfully created the bid on-chain." "Failed to create bid on-chain."
            "Couldn't perform the transaction." (client.transaction request)))
        form,
  )
  attempt client (err (message m)) form = stay (exit_popup (some m) form)
  attempt client (err e) form = stay (exit_popup none form)
  attempt client (panic p) form = panic p

  unfoldable pub send_bid : String → String → ℕ → Bid → Handled
  unfolding bid_transaction attempt exit_popup
  send_bid private_key_text auction offered form = elim (connect form.node) [
    | none ↦ stay (exit_popup (some "Failed to connect to the network.") form)
    | some client ↦
        attempt client (bid_transaction client form.public_key private_key_text auction offered)
          form
  ]

  -- The third field: it is opened, or read.
  unfoldable pub with_private_key : Option TextArea → String → ℕ → Bid → Handled
  unfolding send_bid exit_popup
  with_private_key none auction offered form = stay (record form {
    private_key_textarea = some (record {
      lines = "" ∷ [];
      placeholder = " Insert your private key (click ^Z to cancel)...";
    });
    field = private_key;
  })
  with_private_key (some area) auction offered form =
      let text = lines_to_string area.lines in
      if is_blank text then stay (exit_popup none form) else send_bid text auction offered form

  unfoldable pub with_auction : ℕ → Bid → Handled
  unfolding with_private_key
  with_auction offered form =
      let text = lines_to_string form.auction_id_textarea.lines in
      if is_blank text
      then stay (record form {
        auction_id_textarea = record (form.auction_id_textarea) {
          placeholder = " An auction ID is required!";
        };
        field = auction_id;
      })
      else with_private_key form.private_key_textarea text offered form

  -- The area of the amount, with the selection cut out.
  abbrev complain : String → Field → Bid → Bid
  complain m field form = record form {
    amount_textarea = record { placeholder = m; lines = widgets.cut form.amount_textarea.lines };
    field = field;
  }

  unfoldable pub on_enter : Bid → Handled
  unfolding with_auction
  on_enter form =
      let text = lines_to_string form.amount_textarea.lines in
      if is_blank text
      then stay (complain " An amount is required!" auction_id form)
      else elim (parse_u64 text) [
        | none ↦ stay (complain " The amount should be an integer!" amount form)
        | some offered ↦ with_auction offered form
      ]

  -- A key for the field that has the focus.
  unfoldable pub type_key : Input → Field → Bid → Bid
  type_key input auction_id form = record form {
    auction_id_textarea = record (form.auction_id_textarea) {
      lines = widgets.input input form.auction_id_textarea.lines;
    };
  }
  type_key input amount form = record form {
    amount_textarea = record (form.amount_textarea) {
      lines = widgets.input input form.amount_textarea.lines;
    };
  }
  type_key input private_key form = record form {
    private_key_textarea = elim form.private_key_textarea [
      | none ↦ none
      | some area ↦ some (record area { lines = widgets.input input area.lines })
    ];
  }

  unfoldable pub on_key : Input → Key → Bid → Handled
  unfolding on_enter type_key toggle_up toggle_down
  on_key input Key.enter form = elim form.popup [
    | some m ↦ stay (record form { popup = none })
    | none ↦ on_enter form
  ]
  on_key input Key.up form = stay (record form { field = toggle_up form.field })
  on_key input Key.down form = stay (record form { field = toggle_down form.field })
  on_key input (Key.char c) form =
      if input.ctrl && nat_eq c b'z'
      then stay (record form { private_key_textarea = none; field = auction_id })
      else stay (type_key input form.field form)
  on_key input _ form = stay (type_key input form.field form)

  unfoldable pub handle_io : Input → Bid → Handled
  unfolding on_key
  handle_io input form = on_key input input.key form
