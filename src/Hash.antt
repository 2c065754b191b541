-- ===== src/Hash.antt =====
-- src/blockchain.rs, `mod ed25519` and `mod hash`: the texts that stand for hashes, keys and
-- signatures.
use p2p_auction.Prelude.{ℕ, String, List}
use p2p_auction.Prelude.Result.{Result, from_option, ◌>>=◌}
use p2p_auction.Env.{Env}

module _ ⦃env : Env⦄ where
  unfoldable pub string_to_public_key : String → Result env.PublicKey
  string_to_public_key public_key = do
    bytes ← from_option (env.hex_decode public_key)
    from_option (env.public_key_from_bytes bytes)

  unfoldable pub string_to_signature : String → Result env.Signature
  string_to_signature signature = do
    bytes ← from_option (env.hex_decode signature)
    from_option (env.signature_from_bytes bytes)

  unfoldable pub signature_to_string : env.Signature → String
  signature_to_string signature = env.hex_encode (env.signature_to_bytes signature)

  unfoldable pub public_key_to_string : env.PublicKey → String
  public_key_to_string public_key = env.hex_encode (env.public_key_to_bytes public_key)

  unfoldable pub hash : String → List ℕ
  hash input = env.blake2b input

  unfoldable pub encode_hash : List ℕ → String
  encode_hash bytes = env.hex_encode bytes
