-- ===== src/App.antt =====
-- src/bin/app.rs: the terminal interface of a user. A node that it talks to is a record of answers; the
-- widgets are their lines and their placeholder, and what they do with a key is a parameter. Drawing is
-- left out, but for the selection that it clamps.
pub mod Served
pub mod Walk
pub mod Tables
pub mod Auctions
pub mod History
pub mod Bidding
use Prim.Native.String.{◌++◌}
use p2p_auction.Prelude.{ℕ, String, nat_eq, Bool, Option, none, some, List, [], ◌∷◌, if◌then◌else◌}
use p2p_auction.Prelude.Result.{Result, ok, err, panic, ◌>>=◌, from_option, message}
use p2p_auction.Env.{Env}
use p2p_auction.Transaction.{Block}
use p2p_auction.State
use p2p_auction.State.{State, TransactionRequest}
use p2p_auction.State.Responses.{BlockMessage, block_message}

-- `Key` and the modifier `ctrl` of an `Input`; any other key is its name.
pub data Key : Type 0 where
  enter up down left right : Key
  char : (c : ℕ) → Key
  other_key : ℕ → Key

pub record Input : Type 0 where
  pub key : Key
  pub ctrl : Bool

-- A `TextArea`: its lines, and the text that it shows where it is empty.
pub record TextArea : Type 0 where
  pub lines : List String
  pub placeholder : String

-- `ratatui_textarea`: a key, and the removal of the selection.
pub record Widgets : Type 0 where
  pub input : Input → List String → List String
  pub cut : List String → List String

-- A `NodeRpcServiceClient`: a failed call is an error. `nonce` of an account, `hash` of the block of an
-- auction or of the first block, a block with the hash of the next, and the status of a transaction.
pub record Client : Type 0 where
  pub account_exists : String → Result (Option ℕ)
  pub auction_exists : String → Result (Option String)
  pub block_info : String → Result (Option (BlockMessage × Option String))
  pub first_block_hash : Result (Option String)
  pub transaction : TransactionRequest → Result ℕ

-- `RequestStatus` of proto/node.proto, and its value in a response: a number that is none of them reads
-- as the default one, which is the first.
pub data RequestStatus : Type 0 where
  successful failed : RequestStatus

abbrev pub request_status : ℕ → RequestStatus
request_status n = if nat_eq n 1 then failed else successful

-- The lines one after another: `lines_to_string`.
unfoldable pub lines_to_string : List String → String
lines_to_string [] = ""
lines_to_string (l ∷ lines) = l ++ lines_to_string lines

-- `SecretKey` of ed25519_dalek_blake2b, and `Keypair { secret, public }`.
pub record Secrets ⦃env : Env⦄ : Type 1 where
  pub SecretKey : Type 0
  pub secret_key_from_bytes : List ℕ → Option SecretKey
  pub keypair : SecretKey → env.PublicKey → env.Keypair

-- An early exit with a message for the popup.
abbrev pub say {ℓ} : {A : Type ℓ} → String → Option A → Result A
say m none = err (message m)
say m (some a) = ok a

-- `keypair_from_str`: it does not ask whether the two keys belong together.
unfoldable pub keypair_from_str :
    ⦃env : Env⦄ (secrets : Secrets) → String → String → Result env.Keypair
keypair_from_str ⦃env⦄ secrets public_key private_key = do
  public_bytes ← from_option (env.hex_decode public_key)
  private_bytes ← from_option (env.hex_decode private_key)
  pk ← say "Invalid keypair." (env.public_key_from_bytes public_bytes)
  sk ← say "Invalid keypair." (secrets.secret_key_from_bytes private_bytes)
  ok (secrets.keypair sk pk)

-- What the popup says of the answer to a transaction.
abbrev pub reported : (accepted refused broken : String) → Result ℕ → String
reported accepted refused broken (ok status) = elim (request_status status) [
  | successful ↦ accepted
  | RequestStatus.failed ↦ refused
]
reported accepted refused broken (err e) = broken
reported accepted refused broken (panic p) = broken

-- The answers of a node in this state, where nothing else happens in between.
abbrev pub response : Option (Block × Option String) → Option (BlockMessage × Option String)
response none = none
response (some (block, next)) = some (block_message block, next)

abbrev pub served : (TransactionRequest → Result ℕ) → State → Client
served answers s = record {
  account_exists = λ public_key. ok (State.account_exists (some public_key) s).1;
  auction_exists = λ auction_id. ok (State.auction_exists auction_id s);
  block_info = λ hash. ok (response (State.block_info hash s));
  first_block_hash = ok (State.first_block_hash s);
  transaction = answers;
}
