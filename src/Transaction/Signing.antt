-- ===== src/Transaction/Signing.antt =====
-- src/blockchain.rs, `impl Transaction` and `impl Hashable for Transaction`. The clock reading of
-- `now_unix` is an argument.
pub mod Laws
use Prim.Native.String.{◌++◌}
use p2p_auction.Prelude.{ℕ, String, if◌then◌else◌}
use p2p_auction.Prelude.Result.{Result, ok, err, message, ◌>>=◌, from_option, or_message}
use p2p_auction.Env.{Env}
use p2p_auction.Hash
use p2p_auction.Transaction.{Data, Transaction}

module _ ⦃env : Env⦄ where
  -- `Transaction::new`. The id covers what the sender chose, and not the timestamp.
  unfoldable pub new : Data → String → ℕ → String → Result ℕ → Result Transaction
  new payload from nonce signature now = do
    json ← from_option (env.json_data payload)
    let id = Hash.encode_hash (
        Hash.hash
          (json ++ (":" ++ (from ++ (":" ++ (env.show_nonce nonce ++ (":" ++ signature)))))))
    timestamp ← now
    ok (record {
      id = id;
      payload = payload;
      from = from;
      timestamp = timestamp;
      nonce = nonce;
      signature = signature;
    })

  unfoldable pub serialize : Data → String → ℕ → Result String
  serialize payload from nonce = from_option (env.json_signed payload from nonce)

  unfoldable pub sign : Data → String → ℕ → env.Keypair → Result ℕ → Result Transaction
  unfolding serialize new
  sign payload from nonce keys now = do
    input ← serialize payload from nonce
    new payload from nonce (Hash.signature_to_string (env.sign keys input)) now

  unfoldable pub verify : Transaction → Result (Unit {0})
  unfolding serialize
  verify t = do
    pk ← Hash.string_to_public_key t.from
    signature ← or_message "Malformed signature." (Hash.string_to_signature t.signature)
    input ← or_message "Invalid fields." (serialize t.payload t.from t.nonce)
    if env.verify_strict pk input signature then ok tt else err (message "Invalid signature.")

  -- `Hashable::hash`: the leaf of the Merkle tree.
  unfoldable pub hash : Transaction → Result String
  hash t = do input ← from_option (env.json_transaction t); ok (Hash.encode_hash (Hash.hash input))
