-- ===== src/Key.antt =====
-- src/key.rs: the proof of work behind the identity of a node, and the key that a node keeps in a file.
-- The keys that `Keypair::generate_ed25519` returns are a list; a search that outlives the list goes on.
pub mod Laws
use p2p_auction.Prelude.{
  ℕ, ◌+◌, String, nat_eq, leb, Bool, true, false, not, Option, none, some, List, [], ◌∷◌,
  if◌then◌else◌,
}
use p2p_auction.Prelude.Result.{
  Result, ok, err, panic, Error, message, external, diverges, ◌>>=◌, from_option,
}
use p2p_auction.Prelude.Exec.{Exec}
use p2p_auction.Env.{Env}
use p2p_auction.PeerEnv.{PeerEnv}

-- `PEER_ID_DIFFICULTY`.
abbrev pub peer_id_difficulty : ℕ
peer_id_difficulty = 16

-- `u8::leading_zeros`.
unfoldable pub leading_zeros : ℕ → ℕ
leading_zeros b =
    if leb 128 b
    then 0
    else if leb 64 b
    then 1
    else if leb 32 b
    then 2
    else if leb 16 b
    then 3
    else if leb 8 b
    then 4
    else if leb 4 b
    then 5
    else if leb 2 b
    then 6
    else if leb 1 b
    then 7
    else 8

unfoldable pub leading_zero_bits : List ℕ → ℕ
unfolding leading_zeros
leading_zero_bits [] = 0
leading_zero_bits (b ∷ bs) =
    let rest = leading_zero_bits bs in if nat_eq b 0 then 8 + rest else leading_zeros b

-- What a file system does with a file that is created and then written: it cannot be created, the
-- write fails and leaves some text, or all is written.
pub data Disk : Type 0 where
  refused : Disk
  interrupted : (left : String) → Disk
  written : Disk

module _ ⦃peers : PeerEnv⦄ where
  unfoldable pub verify_peer_id : String → Bool
  unfolding leading_zero_bits
  verify_peer_id peer_id =
      leb peer_id_difficulty (leading_zero_bits (peers.blake2b512 (peers.peer_id_to_bytes peer_id)))

  unfoldable pub mine_key : List peers.NodeKey → Result peers.NodeKey
  unfolding verify_peer_id
  mine_key [] = panic diverges
  mine_key (key ∷ keys) =
      let rest = mine_key keys in if verify_peer_id (peers.peer_id key) then ok key else rest

  -- The branch of `get_key` for a key that was read.
  unfoldable pub checked : peers.NodeKey → Result peers.NodeKey
  unfolding verify_peer_id
  checked key =
      if not (verify_peer_id (peers.peer_id key))
      then err (message "Stored key does not meet PoW difficulty.")
      else ok key

module _ ⦃env : Env⦄ ⦃peers : PeerEnv⦄ where
  -- The argument is what the file holds, where it can be read.
  unfoldable pub key_from_file : Option String → Result peers.NodeKey
  key_from_file file = do
    buf ← from_option file
    key ← from_option (env.hex_decode buf)
    from_option (peers.from_protobuf_encoding key)

  -- The file is created empty before the key is encoded.
  unfoldable pub key_to_file : peers.NodeKey → Disk → Exec (Option String) (Unit {0})
  key_to_file key disk file = elim (peers.to_protobuf_encoding key) [
    | none ↦ (err external, elim disk [ refused ↦ file | _ ↦ some "" ])
    | some bytes ↦ elim disk [
      | refused ↦ (err external, file)
      | interrupted left ↦ (err external, some left)
      | written ↦ (ok tt, some (env.hex_encode bytes))
    ]
  ]

  -- A key that was mined is stored.
  unfoldable pub store : Result peers.NodeKey → Disk → Exec (Option String) peers.NodeKey
  unfolding key_to_file
  store (err e) disk file = (err e, file)
  store (panic p) disk file = (panic p, file)
  store (ok key) disk file =
      let (stored, file') = key_to_file key disk file in (stored >>= λ _. ok key, file')

  -- The match on what was read.
  unfoldable pub use_or_mine :
      Result peers.NodeKey → List peers.NodeKey → Disk → Exec (Option String) peers.NodeKey
  unfolding checked mine_key store
  use_or_mine (ok key) keys disk file = (checked key, file)
  use_or_mine (err e) keys disk file = store (mine_key keys) disk file
  use_or_mine (panic p) keys disk file = (panic p, file)

  unfoldable pub get_key : List peers.NodeKey → Disk → Exec (Option String) peers.NodeKey
  unfolding key_from_file use_or_mine
  get_key keys disk file = use_or_mine (key_from_file file) keys disk file
