-- ===== src/Key/Laws.antt =====
-- What the proof of work of src/key.rs asks of an id, and what a key is that `get_key` returns.
use p2p_auction.Prelude.{
  ℕ, zero, suc, ◌*◌, ◌≤◌, ◌<◌, String, nat_eq, ◌≡◌, refl, ◌∙◌, ◌↔◌, inl, inr, true, false, Option,
  List, [], ◌∷◌, arith, Bool-cases,
}
use p2p_auction.Prelude.Result.{Result, ok, err, panic, >>=-eq-ok}
use p2p_auction.Env as E
use p2p_auction.Env.{Env}
use p2p_auction.PeerEnv.{PeerEnv, IsLawful}
use p2p_auction.Key.{
  leading_zeros, leading_zero_bits, Disk, refused, interrupted, written, verify_peer_id, mine_key,
  key_from_file, key_to_file, checked, store, use_or_mine, get_key,
}

-- The first bytes are zero, that many.
abbrev pub StartsWithZeros : ℕ → List ℕ → Type 0
StartsWithZeros zero bytes = Unit {0}
StartsWithZeros (suc n) [] = ⊥
StartsWithZeros (suc n) (b ∷ bytes) = (b ≡ 0) × StartsWithZeros n bytes

leading_zeros-lt : (b : ℕ) → nat_eq b 0 ≡ false → leading_zeros b < 8
unfolding leading_zeros
leading_zeros-lt b h = ground arith

zero_bytes : (n : ℕ) (bytes : List ℕ) → (8 * n ≤ leading_zero_bits bytes) → StartsWithZeros n bytes
unfolding leading_zero_bits
zero_bytes zero bytes h = tt
zero_bytes (suc n) [] h = absurd (omega arith)
zero_bytes (suc n) (b ∷ bytes) h = elim (Bool-cases (nat_eq b 0)) [
  | inl e ↦ (ground arith, zero_bytes n bytes (ground arith))
  | inr e ↦ absurd (ground (arith, leading_zeros-lt b))
]

zero_bytes_count :
    (n : ℕ) (bytes : List ℕ) → StartsWithZeros n bytes → 8 * n ≤ leading_zero_bits bytes
unfolding leading_zero_bits
zero_bytes_count zero bytes h = omega arith
zero_bytes_count (suc n) [] h = absurd h
zero_bytes_count (suc n) (b ∷ bytes) h = ground (arith, zero_bytes_count n bytes h.1)

module _ ⦃peers : PeerEnv⦄ where
  -- The id of a node verifies exactly where the hash of its bytes begins with two zero bytes.
  pub verify_peer_id_iff :
      (peer : String)
      → (verify_peer_id peer ≡ true)
        ↔ StartsWithZeros 2 (peers.blake2b512 (peers.peer_id_to_bytes peer))
  unfolding verify_peer_id
  verify_peer_id_iff peer =
      let digest = peers.blake2b512 (peers.peer_id_to_bytes peer) in
      (λ e. zero_bytes 2 digest (ground arith), λ z. ground (arith, zero_bytes_count 2 digest z))

  mine_key_lem :
      (keys : List peers.NodeKey) {key : peers.NodeKey}
      → mine_key keys ≡ ok key
      → verify_peer_id (peers.peer_id key) ≡ true
  unfolding mine_key
  mine_key_lem [] e = cc e
  mine_key_lem (k ∷ keys) {key} e = elim (Bool-cases (verify_peer_id (peers.peer_id k))) [
    | inl good ↦ let same : k ≡ key = ground arith in rw (← same) good
    | inr bad ↦ mine_key_lem keys (ground arith)
  ]

  checked_lem :
      (k : peers.NodeKey) {key : peers.NodeKey}
      → checked k ≡ ok key
      → (k ≡ key) × (verify_peer_id (peers.peer_id k) ≡ true)
  unfolding checked
  checked_lem k e = ground arith

module _ ⦃env : Env⦄ ⦃peers : PeerEnv⦄ where
  -- What a file is that holds a key.
  abbrev Holds : peers.NodeKey → Option String → Type 0
  Holds key file = key_from_file file ≡ ok key

  key_to_file-Holds :
      E.IsLawful env
      → IsLawful peers
      → (key : peers.NodeKey) (disk : Disk) (file : Option String)
      → (key_to_file key disk file).0 ≡ ok tt
      → Holds key (key_to_file key disk file).1
  unfolding key_to_file key_from_file
  key_to_file-Holds laws plaws key refused file e =
      let (bytes, encoded, decoded) = plaws.encodes key in ground arith
  key_to_file-Holds laws plaws key (interrupted left) file e =
      let (bytes, encoded, decoded) = plaws.encodes key in ground arith
  key_to_file-Holds laws plaws key written file e =
      let (bytes, encoded, decoded) = plaws.encodes key in ground (arith, laws.decode-encode bytes)

  store_lem :
      E.IsLawful env
      → IsLawful peers
      → (r : Result peers.NodeKey) (disk : Disk) (file : Option String) {key : peers.NodeKey}
      → (store r disk file).0 ≡ ok key
      → (r ≡ ok key) × Holds key (store r disk file).1
  unfolding store
  store_lem laws plaws (err x) disk file e = cc e
  store_lem laws plaws (panic x) disk file e = cc e
  store_lem laws plaws (ok k) disk file {key} e =
      let (u, stored, same) = >>=-eq-ok (key_to_file k disk file).0 (λ _. ok k) e in
      (same, key_to_file-Holds laws plaws k disk file stored ∙ same)

  use_or_mine_lem :
      E.IsLawful env
      → IsLawful peers
      → (r : Result peers.NodeKey) (keys : List peers.NodeKey) (disk : Disk) (file : Option String)
      → key_from_file file ≡ r
      → {key : peers.NodeKey} → (use_or_mine r keys disk file).0 ≡ ok key
      → (verify_peer_id (peers.peer_id key) ≡ true) × Holds key (use_or_mine r keys disk file).1
  unfolding use_or_mine
  use_or_mine_lem laws plaws (ok k) keys disk file read e =
      let (same, good) = checked_lem k e in rw (← same) (good, read)
  use_or_mine_lem laws plaws (err x) keys disk file read e =
      let (found, holds) = store_lem laws plaws (mine_key keys) disk file e in
      (mine_key_lem keys found, holds)
  use_or_mine_lem laws plaws (panic x) keys disk file read e = cc e

  -- Given that hexadecimals and keys are read back as they were written, a key that `get_key` returns has an
  -- id that verifies, and the file that it leaves holds that key: a later call returns it again and leaves
  -- the file as it is, whatever that call could mine and write.
  pub get_key_lem :
      E.IsLawful env
      → IsLawful peers
      → (keys keys' : List peers.NodeKey) (disk disk' : Disk) (file : Option String)
        (key : peers.NodeKey)
      → (get_key keys disk file).0 ≡ ok key
      → (verify_peer_id (peers.peer_id key) ≡ true)
        × (get_key keys' disk' (get_key keys disk file).1 ≡ (ok key, (get_key keys disk file).1))
  unfolding get_key
  get_key_lem laws plaws keys keys' disk disk' file key e =
      let (good, holds) = use_or_mine_lem laws plaws (key_from_file file) keys disk file refl e in
      (good, rw (get_key, holds) (unfold use_or_mine checked in rw good refl))
