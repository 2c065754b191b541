-- ===== src/Env.antt =====
-- What the node takes from other packages: Blake2b, hex, serde_json, Ed25519 and big integers.
-- Each is a parameter of the model. `IsLawful` states the documented behaviour that a theorem may
-- ask for: hex decodes what it encodes and refuses a
-- single digit, JSON of these plain structs does not fail, a key verifies
-- what it signs, and keys and signatures are read back from their bytes.
use p2p_auction.Prelude.{ℕ, String, ◌≡◌, Bool, true, Option, none, some, List}
use p2p_auction.Transaction.{Data, Transaction, Header}

pub record Env : Type 1 where
  -- blake2, hex
  pub blake2b : String → List ℕ
  pub hex_encode : List ℕ → String
  pub hex_decode : String → Option (List ℕ)
  -- serde_json, on the types that are hashed or signed; numbers print as decimals
  pub json_data : Data → Option String
  pub json_signed : Data → String → ℕ → Option String
  pub json_transaction : Transaction → Option String
  pub json_header : Header → Option String
  pub show_nonce : ℕ → String
  -- ed25519_dalek_blake2b
  pub PublicKey : Type 0
  pub Signature : Type 0
  pub Keypair : Type 0
  pub public : Keypair → PublicKey
  pub sign : Keypair → String → Signature
  pub verify_strict : PublicKey → String → Signature → Bool
  pub public_key_to_bytes : PublicKey → List ℕ
  pub public_key_from_bytes : List ℕ → Option PublicKey
  pub signature_to_bytes : Signature → List ℕ
  pub signature_from_bytes : List ℕ → Option Signature
  -- num_bigint
  pub biguint_from_bytes_le : List ℕ → ℕ

pub record IsLawful (env : Env) : Type 0 where
  pub decode-encode : (b : List ℕ) → env.hex_decode (env.hex_encode b) ≡ some b
  -- An odd number of digits.
  pub decode_zero : env.hex_decode "0" ≡ none
  pub json_signed_total :
      (d : Data) (from : String) (n : ℕ) → (s : String) × (env.json_signed d from n ≡ some s)
  pub json_data_total : (d : Data) → (s : String) × (env.json_data d ≡ some s)
  pub verify-sign :
      (k : env.Keypair) (m : String) → env.verify_strict (env.public k) m (env.sign k m) ≡ true
  pub public_key_bytes :
      (p : env.PublicKey) → env.public_key_from_bytes (env.public_key_to_bytes p) ≡ some p
  pub signature_bytes :
      (s : env.Signature) → env.signature_from_bytes (env.signature_to_bytes s) ≡ some s
