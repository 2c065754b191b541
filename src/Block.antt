-- ===== src/Block.antt =====
-- src/blockchain.rs, `impl Block`.
pub mod Laws
use p2p_auction.Prelude.{ℕ, String, List, ◌==◌, ◌&&◌, Option, none, some, Bool}
use p2p_auction.Prelude.Result.{Result, ok, ◌>>=◌}
use p2p_auction.Env.{Env}
use p2p_auction.Hash
use p2p_auction.Header
use p2p_auction.Merkle
use p2p_auction.Pow
use p2p_auction.Transaction.{Transaction, Block}
use p2p_auction.Transaction.Signing

-- The hash that the first block of a chain names as its parent.
unfoldable pub parent_or_genesis : Option String → String
parent_or_genesis none = "0"
parent_or_genesis (some ph) = ph

module _ ⦃env : Env⦄ where
  unfoldable pub new :
      String → Option String → List Transaction → ℕ → List (Result ℕ) → Result Block
  new public_key previous_hash transactions difficulty clock = do
    let ph = parent_or_genesis previous_hash
    mined ← Pow.mine (record { transactions = transactions; difficulty = difficulty }) ph clock
    merkle_root ← Merkle.root Signing.hash transactions
    ok (record {
      previous_hash = ph;
      transactions = transactions;
      merkle_root = merkle_root;
      hash = mined.hash;
      nonce = mined.nonce;
      timestamp = mined.timestamp;
      miner = public_key;
    })

  unfoldable pub verify : Block → Result Bool
  verify block = do
    unsigned_block ← Header.new block.previous_hash block.transactions block.nonce block.timestamp
    h ← Header.hash unsigned_block
    ok (
        (Hash.encode_hash h == block.hash)
        && (Pow.verify h && (unsigned_block.merkle_root == block.merkle_root)))
