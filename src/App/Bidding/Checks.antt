-- ===== src/App/Bidding/Checks.antt =====
-- What the form that bids has checked of the chain when it sends a bid.
use p2p_auction.Prelude.{
  ℕ, ◌≤◌, ltb, String, ◌==◌, eq_iff, ◌≡◌, ◌≢◌, refl, sym, ap, ◌∙◌, inl, inr, Bool, true, false,
  Option, none, some, List, [], ◌∷◌, arith, All, All-imp, Bool-cases,
}
use p2p_auction.Prelude.Result.{
  Result, ok, err, panic, message, Error, ok-inj, >>=-eq-ok, or_message,
}
use p2p_auction.Env.{Env}
use p2p_auction.Hash
use p2p_auction.Transaction.{
  Data, Transaction, Block, create_user_account, bid, create_auction, stop_auction,
}
use p2p_auction.Transaction.Signing
use p2p_auction.Transaction.Signing.Laws.{sign-eq-ok}
use p2p_auction.State.{TransactionRequest, request_of}
use p2p_auction.State.Responses.{message_record, transaction_message, transaction_messages}
use p2p_auction.App.{Widgets, Client, Secrets, say, keypair_from_str}
use p2p_auction.App.Bidding.{
  Bid, Handled, fold_record, fold_transactions, highest_bid, refuse, bid_transaction, attempt,
}
use p2p_auction.App.Walk.Chain.{fold_blocks}

-- The record leaves room for an offer of this amount on the auction.
abbrev pub Fits : String → ℕ → Data → Type 0
Fits auction amount (create_user_account public_key) = Unit {0}
Fits auction amount (bid id offered) = id ≡ auction → offered ≤ amount
Fits auction amount (create_auction id start_amount stop_time) = start_amount ≤ amount
Fits auction amount (stop_auction id) = id ≢ auction

abbrev pub AllFit : String → ℕ → List Block → Type 0
AllFit auction amount =
    All (λ (b : Block). All (λ (t : Transaction). Fits auction amount t.payload) b.transactions)

Fits-mono : (auction : String) (m n : ℕ) (d : Data) → m ≤ n → Fits auction m d → Fits auction n d
Fits-mono auction m n (create_user_account k) le f = tt
Fits-mono auction m n (bid id offered) le f = λ e. omega (arith, f e)
Fits-mono auction m n (create_auction id start stop) le f = omega arith
Fits-mono auction m n (stop_auction id) le f = f

fold_record-Fits :
    (auction : String) (acc m : ℕ) (d : Data)
    → fold_record auction acc (some (message_record d)) ≡ ok m
    → (acc ≤ m) × Fits auction m d
unfolding fold_record message_record
fold_record-Fits auction acc m (create_user_account k) e = ground arith
fold_record-Fits auction acc m (bid id offered) e = elim (Bool-cases (id == auction)) [
  | inl hit ↦ (ground arith, λ q. ground arith)
  | inr miss ↦ (ground arith, λ q. absurd (ground (arith, eq_iff id auction)))
]
fold_record-Fits auction acc m (create_auction id start stop) e = ground arith
fold_record-Fits auction acc m (stop_auction id) e = elim (Bool-cases (id == auction)) [
  | inl hit ↦ absurd (ground arith)
  | inr miss ↦ (ground arith, λ q. ground (arith, eq_iff id auction))
]

fold_transactions-Fits :
    (auction : String) (acc m : ℕ) (ts : List Transaction)
    → fold_transactions auction acc (transaction_messages ts) ≡ ok m
    → (acc ≤ m) × All (λ (t : Transaction). Fits auction m t.payload) ts
unfolding fold_transactions transaction_messages transaction_message
fold_transactions-Fits auction acc m [] e = (ground arith, tt)
fold_transactions-Fits auction acc m (t ∷ ts) e =
    let (acc', first, rest) =
      >>=-eq-ok (fold_record auction acc (some (message_record t.payload))) _ e in
    let (le, fits) = fold_record-Fits auction acc acc' t.payload first in
    let (le', all) = fold_transactions-Fits auction acc' m ts rest in
    (omega arith, (Fits-mono auction acc' m t.payload le' fits, all))

pub fold_blocks-AllFit :
    (auction : String) (acc m : ℕ) (bs : List Block)
    → fold_blocks (fold_transactions auction) acc bs ≡ ok m
    → (acc ≤ m) × AllFit auction m bs
unfolding fold_blocks
fold_blocks-AllFit auction acc m [] e = (ground arith, tt)
fold_blocks-AllFit auction acc m (b ∷ bs) e =
    let (acc', first, rest) =
      >>=-eq-ok (fold_transactions auction acc (transaction_messages b.transactions)) _ e in
    let (le, fits) = fold_transactions-Fits auction acc acc' b.transactions first in
    let (le', all) = fold_blocks-AllFit auction acc' m bs rest in
    (
      omega arith,
      (
        All-imp (λ (t : Transaction). Fits-mono auction acc' m t.payload le') b.transactions fits,
        all,
      ),
    )

or_message-eq-ok {ℓ} :
    {A : Type ℓ} (m : String) (r : Result A) {a : A} → or_message m r ≡ ok a → r ≡ ok a
or_message-eq-ok m (ok a) e = e
or_message-eq-ok m (err x) e = cc e
or_message-eq-ok m (panic x) e = cc e

say-eq-ok {ℓ} : {A : Type ℓ} (m : String) (o : Option A) {a : A} → say m o ≡ ok a → o ≡ some a
say-eq-ok m (some a) e = cc e
say-eq-ok m none e = cc e

refuse-eq-ok : (b : Bool) (m : String) → refuse b m ≡ ok tt → b ≡ false
refuse-eq-ok true m e = cc e
refuse-eq-ok false m e = refl

module _ ⦃env : Env⦄ (widgets : Widgets) (secrets : Secrets) (connect : String → Option Client)
    (fuel : ℕ) (now : Result ℕ) where
  -- What was asked of the node before the bid was signed.
  pub record IsChecked (client : Client) (auction : String) (offered : ℕ)
      (request : TransactionRequest) : Type 0 where
    pub hash : String
    pub highest : ℕ
    pub exists : client.auction_exists auction ≡ ok (some hash)
    pub walked : highest_bid fuel client auction hash offered ≡ ok highest
    pub enough : highest ≤ offered
    pub bids : (t : Transaction) × (request ≡ request_of t) × (t.payload ≡ bid auction offered)

  pub bid_transaction-IsChecked :
      (client : Client) (public_key key_text auction : String) (offered : ℕ)
      (request : TransactionRequest)
      → bid_transaction widgets secrets connect fuel now client public_key key_text auction offered
        ≡ ok request
      → IsChecked client auction offered request
  unfolding bid_transaction
  bid_transaction-IsChecked client public_key key_text auction offered request e =
      let (found, e1, r1) = >>=-eq-ok (or_message _ (client.auction_exists auction)) _ e in
      let (hash, e2, r2) = >>=-eq-ok (say _ found) _ r1 in
      let (highest, e3, r3) = >>=-eq-ok (highest_bid fuel client auction hash offered) _ r2 in
      let (u, e4, r4) = >>=-eq-ok (refuse (ltb offered highest) _) _ r3 in
      let (keys, e5, r5) =
        >>=-eq-ok (or_message _ (keypair_from_str secrets public_key key_text)) _ r4 in
      let (account, e6, r6) = >>=-eq-ok (or_message _ (client.account_exists public_key)) _ r5 in
      let (nonce, e7, r7) = >>=-eq-ok (say _ account) _ r6 in
      let from = Hash.public_key_to_string (env.public keys) in
      let (t, e8, r8) =
        >>=-eq-ok (or_message _ (Signing.sign (bid auction offered) from nonce keys now)) _ r7 in
      let (n, timed, payload, by, at) =
        sign-eq-ok (bid auction offered) from nonce keys now (or_message-eq-ok _ _ e8) in
      record {
        hash = hash;
        highest = highest;
        exists =
            or_message-eq-ok _ (client.auction_exists auction) e1 ∙ ap ok (say-eq-ok _ found e2);
        walked = e3;
        enough = ground (arith, refuse-eq-ok (ltb offered highest) _ e4);
        bids = (t, sym (ok-inj r8), payload);
      }

  abbrev pub Sends : TransactionRequest → Handled → Type 0
  Sends request h = (form' : Bid) × (h ≡ ok (some request, form'))

  pub attempt-sent :
      (client : Client) (r : Result TransactionRequest) (form : Bid) (request : TransactionRequest)
      → Sends request (attempt widgets secrets connect fuel now client r form)
      → r ≡ ok request
  unfolding attempt
  attempt-sent client (ok q) form request (form', e) = ground arith
  attempt-sent client (err (message m)) form request (form', e) = ground arith
  attempt-sent client (err Error.external) form request (form', e) = ground arith
  attempt-sent client (err (Error.accept_block x)) form request (form', e) = ground arith
  attempt-sent client (panic p) form request (form', e) = ground arith
