-- ===== src/Examples/Peers.antt =====
-- A concrete choice of what the network and the keys of nodes take from other packages, and nodes on it.
use p2p_auction.Prelude.{ℕ, ◌==◌, refl, nat_eq, Option, none, some, List, [], ◌∷◌, if◌then◌else◌}
use p2p_auction.Prelude.Result.{ok}
use p2p_auction.PeerEnv.{PeerEnv, IsLawful}
use p2p_auction.Transaction.{Block}
use p2p_auction.State
use p2p_auction.State.{State}
use p2p_auction.Examples.Data.{first, with_first}

abbrev only : List ℕ → Option ℕ
only (k ∷ []) = some k
only _ = none

-- The bytes of a block are one number.
abbrev decoded : List ℕ → Option Block
decoded (k ∷ []) = if nat_eq k 1 then some first else none
decoded _ = none

-- The keys are numbers: the first one has the id "mined", the others an id that was not.
instance abbrev pub toy_peers : PeerEnv
toy_peers = record {
  NodeKey = ℕ;
  peer_id = λ k. if nat_eq k 0 then "mined" else "other";
  peer_id_to_bytes = λ p. if p == "mined" then 0 ∷ 0 ∷ 5 ∷ [] else 7 ∷ [];
  to_protobuf_encoding = λ k. some (k ∷ []);
  from_protobuf_encoding = only;
  multiaddr_from_str = some;
  peer_id_from_str = some;
  dial = λ a. ok tt;
  blake2b512 = λ b. b;
  block_from_slice = decoded;
}

pub toy_peers-IsLawful : IsLawful toy_peers
toy_peers-IsLawful = record { encodes = λ k. (k ∷ [], refl, refl) }

-- A node that knows the first block.
abbrev pub knows_first : State
knows_first = record State.init { blockchain = with_first.chain }
