-- ===== src/State/Messages.antt =====
-- The messages of proto/node.proto stand for the values that they are made of.
use mathlib.Core.Path.{subst}
use Prim.Native.String.{◌++◌}
use p2p_auction.Prelude.{ℕ, String, ◌≡◌, refl, ap, ◌∙◌}
use p2p_auction.Prelude.Result.{ok, from_option, >>=-eq-ok, ok-inj}
use p2p_auction.Env.{Env}
use p2p_auction.Hash
use p2p_auction.Transaction.{
  Data, Transaction, create_user_account, bid, create_auction, stop_auction,
}
use p2p_auction.Transaction.Signing
use p2p_auction.State.{record_of, request_of, data_of, transaction_of}

data_of-record_of : (d : Data) → data_of (record_of d) ≡ d
unfolding data_of record_of
data_of-record_of (create_user_account public_key) = refl
data_of-record_of (bid auction_id amount) = refl
data_of-record_of (create_auction auction_id start_amount stop_time) = refl
data_of-record_of (stop_auction auction_id) = refl

module _ ⦃env : Env⦄ where
  new-again :
      (payload : Data) (from : String) (nonce : ℕ) (signature : String) (created now : ℕ)
      {t : Transaction}
      → Signing.new payload from nonce signature (ok created) ≡ ok t
      → (t.payload ≡ payload)
        × (t.from ≡ from)
        × (t.nonce ≡ nonce)
        × (t.signature ≡ signature)
        × (Signing.new payload from nonce signature (ok now) ≡ ok (record t { timestamp = now }))
  unfolding Signing.new
  new-again payload from nonce signature created now {t = t} e =
      let (json, p, q) = >>=-eq-ok (from_option (env.json_data payload)) _ e in
      let made : Transaction = record {
        id = Hash.encode_hash (
            Hash.hash
              (json ++ (":" ++ (from ++ (":" ++ (env.show_nonce nonce ++ (":" ++ signature)))))));
        payload = payload;
        from = from;
        timestamp = created;
        nonce = nonce;
        signature = signature;
      } in
      let same : made ≡ t = ok-inj q in
      subst
        (λ (x : Transaction).
          (x.payload ≡ payload)
          × (x.from ≡ from)
          × (x.nonce ≡ nonce)
          × (x.signature ≡ signature)
          × (Signing.new payload from nonce signature (ok now) ≡ ok (record x { timestamp = now })))
        same (refl, refl, refl, refl, rw (p) refl)

  -- A transaction that was made by `Transaction::new`, sent as a request and made again by the handler
  -- is the same but for its timestamp, which is the reading of the handler's clock: its id is the same.
  pub transaction_of-request_of :
      (payload : Data) (from : String) (nonce : ℕ) (signature : String) (created now : ℕ)
      {t : Transaction}
      → Signing.new payload from nonce signature (ok created) ≡ ok t
      → transaction_of (request_of t) (record_of t.payload) (ok now)
        ≡ ok (record t { timestamp = now })
  unfolding transaction_of request_of
  transaction_of-request_of payload from nonce signature created now {t = t} e =
      let (p, f, n, s, again) = new-again payload from nonce signature created now {t = t} e in
      cc (
        ap (λ d. Signing.new d t.from t.nonce t.signature (ok now))
            (data_of-record_of t.payload ∙ p),
        ap (λ x. Signing.new payload x t.nonce t.signature (ok now)) f,
        ap (λ x. Signing.new payload from x t.signature (ok now)) n,
        ap (λ x. Signing.new payload from nonce x (ok now)) s,
        again,
      )
