-- ===== src/PeerEnv.antt =====
-- What src/key.rs and src/behaviour.rs take from libp2p, blake2 and serde_json beside `Env`: the keys
-- and ids of nodes, the hash of raw bytes, and the decoding of a block. `IsLawful` states that the
-- encoding of a key does not fail and is read back.
use p2p_auction.Prelude.{ℕ, String, ◌≡◌, Option, some, List}
use p2p_auction.Prelude.Result.{Result}
use p2p_auction.Transaction.{Block}

pub record PeerEnv : Type 1 where
  -- libp2p; a `PeerId` is its text
  pub NodeKey : Type 0
  pub peer_id : NodeKey → String
  pub peer_id_to_bytes : String → List ℕ
  pub to_protobuf_encoding : NodeKey → Option (List ℕ)
  pub from_protobuf_encoding : List ℕ → Option NodeKey
  -- a `Multiaddr` is its text too
  pub multiaddr_from_str : String → Option String
  pub peer_id_from_str : String → Option String
  pub dial : String → Result (Unit {0})
  -- blake2
  pub blake2b512 : List ℕ → List ℕ
  -- serde_json
  pub block_from_slice : List ℕ → Option Block

pub record IsLawful (env : PeerEnv) : Type 0 where
  pub encodes :
      (k : env.NodeKey)
      → (b : List ℕ) × (env.to_protobuf_encoding k ≡ some b)
        × (env.from_protobuf_encoding b ≡ some k)
