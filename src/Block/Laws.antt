-- ===== src/Block/Laws.antt =====
-- A mined block passes its own verification, and what verification accepts.
use mathlib.Core.Path.{subst}
use p2p_auction.Prelude.{
  ℕ, ◌%◌, ◌<◌, String, ◌==◌, ◌&&◌, eq_self, ◌≡◌, refl, Bool, true, List, [], ◌∷◌, ◌++◌, Option,
  arith, eq_iff, length,
}
use p2p_auction.Prelude.Result.{Result, ok, >>=-eq-ok}
use p2p_auction.Env.{Env}
use p2p_auction.Hash
use p2p_auction.Header
use p2p_auction.Merkle
use p2p_auction.Merkle.Binding.{root-duplicate}
use p2p_auction.Pow
use p2p_auction.Pow.{Mined}
use p2p_auction.Pow.Laws.{IsSolution, mine_sound}
use p2p_auction.Transaction.{Transaction, Header, Block}
use p2p_auction.Transaction.Signing
use p2p_auction.Block.{new, verify, parent_or_genesis}

module _ ⦃env : Env⦄ where
  attempt-eq-ok :
      (transactions : List Transaction) (previous_hash : String) (timestamp nonce : ℕ) {h : List ℕ}
      → Pow.attempt transactions previous_hash timestamp nonce ≡ ok h
      → (header : Header) × (Header.new previous_hash transactions nonce timestamp ≡ ok header)
        × (Header.hash header ≡ ok h)
  unfolding Pow.attempt
  attempt-eq-ok transactions previous_hash timestamp nonce e =
      >>=-eq-ok (Header.new previous_hash transactions nonce timestamp) _ e

  header-merkle_root :
      (previous_hash : String) (transactions : List Transaction) (nonce timestamp : ℕ)
      {header : Header}
      → Header.new previous_hash transactions nonce timestamp ≡ ok header
      → Merkle.root Signing.hash transactions ≡ ok header.merkle_root
  unfolding Header.new
  header-merkle_root previous_hash transactions nonce timestamp e =
      let (root, p, q) = >>=-eq-ok (Merkle.root Signing.hash transactions) _ e in ground arith

  -- The block that `new` assembles from what `mine` found.
  abbrev assemble : String → String → List Transaction → Mined → String → Block
  assemble public_key ph transactions mined root = record {
    previous_hash = ph;
    transactions = transactions;
    merkle_root = root;
    hash = mined.hash;
    nonce = mined.nonce;
    timestamp = mined.timestamp;
    miner = public_key;
  }

  verify-assemble :
      (public_key ph : String) (transactions : List Transaction) (mined : Mined) (root : String)
      → Merkle.root Signing.hash transactions ≡ ok root
      → IsSolution transactions ph mined
      → verify (assemble public_key ph transactions mined root) ≡ ok true
  unfolding verify
  verify-assemble public_key ph transactions mined root p s =
      let (header, f, g) = attempt-eq-ok transactions ph mined.timestamp mined.nonce s.attempted in
      let r = header-merkle_root ph transactions mined.nonce mined.timestamp f in
      let same : header.merkle_root ≡ root = cc (r, p) in
      rw (f, g, s.encoded, s.solves, same) (simp eq_self)

  -- A block that `Block::new` returns passes `verify`, names the given parent ("0" for none), and
  -- holds the given transactions and miner, with a nonce below the difficulty.
  pub verify-new :
      (public_key : String) (previous_hash : Option String) (transactions : List Transaction)
      (difficulty : ℕ) (clock : List (Result ℕ)) {b : Block}
      → new public_key previous_hash transactions difficulty clock ≡ ok b
      → (verify b ≡ ok true)
        × (b.previous_hash ≡ parent_or_genesis previous_hash)
        × (b.transactions ≡ transactions)
        × (b.miner ≡ public_key)
        × (b.nonce < difficulty)
  unfolding new verify
  verify-new public_key previous_hash transactions difficulty clock {b = b} e =
      let ph = parent_or_genesis previous_hash in
      let pow : Pow.ProofOfWork = record { transactions = transactions; difficulty = difficulty } in
      let (mined, p, q) = >>=-eq-ok (Pow.mine pow ph clock) _ e in
      let (root, p', q') = >>=-eq-ok (Merkle.root Signing.hash transactions) _ q in
      let (s, bound) = mine_sound pow ph clock {mined = mined} p in
      let same : assemble public_key ph transactions mined root ≡ b = cc q' in
      subst
        (λ (x : Block).
          (verify x ≡ ok true)
          × (x.previous_hash ≡ ph)
          × (x.transactions ≡ transactions)
          × (x.miner ≡ public_key)
          × (x.nonce < difficulty))
        same (verify-assemble public_key ph transactions mined root p' s, refl, refl, refl, bound)

  -- Where a block has an odd number of transactions, the block with its last transaction twice has
  -- the same verdict: a verified block can be altered so, under its own hash, and still verifies.
  pub verify-duplicate :
      (b : Block) (ts : List Transaction) (t : Transaction)
      → length ts % 2 ≡ 0
      → verify (record b { transactions = ts ++ t ∷ [] })
        ≡ verify (record b { transactions = ts ++ t ∷ t ∷ [] })
  unfolding verify Header.new
  verify-duplicate b ts t h = rw (root-duplicate Signing.hash ts t h) refl

  tests :
      (encoded hash merkle_root root : String) (solved : Bool)
      → ok ((encoded == hash) && (solved && (merkle_root == root))) ≡ ok true
      → (solved ≡ true) × (hash ≡ encoded) × (merkle_root ≡ root)
  tests encoded hash merkle_root root solved e =
      ground (arith, eq_iff encoded hash, eq_iff merkle_root root)

  -- Where `verify` accepts a block, the header that the block states hashes to a solution of the
  -- puzzle, its hash is the text of that solution, and its Merkle root is that of its transactions.
  pub verify-eq-true :
      (b : Block)
      → verify b ≡ ok true
      → (header : Header) × (digest : List ℕ) × (Header.new b.previous_hash b.transactions b.nonce
            b.timestamp
          ≡ ok header)
        × (Header.hash header ≡ ok digest)
        × (Pow.verify digest ≡ true)
        × (b.hash ≡ Hash.encode_hash digest)
        × (Merkle.root Signing.hash b.transactions ≡ ok b.merkle_root)
  unfolding verify
  verify-eq-true b e =
      let (header, p, q) =
        >>=-eq-ok (Header.new b.previous_hash b.transactions b.nonce b.timestamp) _ e in
      let (digest, p', q') = >>=-eq-ok (Header.hash header) _ q in
      let r = header-merkle_root b.previous_hash b.transactions b.nonce b.timestamp p in
      let (solved, encoded, same) =
        tests (Hash.encode_hash digest) b.hash header.merkle_root b.merkle_root (Pow.verify digest)
          q' in
      (header, digest, p, p', solved, encoded, cc (r, same))
