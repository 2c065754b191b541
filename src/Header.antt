-- ===== src/Header.antt =====
-- src/blockchain.rs, `impl Header`: the part of a block that its hash covers.
use p2p_auction.Prelude.{ℕ, String, List}
use p2p_auction.Prelude.Result.{Result, ok, ◌>>=◌, from_option}
use p2p_auction.Env.{Env}
use p2p_auction.Hash
use p2p_auction.Merkle
use p2p_auction.Transaction.{Transaction, Header}
use p2p_auction.Transaction.Signing

module _ ⦃env : Env⦄ where
  unfoldable pub new : String → List Transaction → ℕ → ℕ → Result Header
  new previous_hash transactions nonce timestamp = do
    merkle_root ← Merkle.root Signing.hash transactions
    ok (record {
      previous_hash = previous_hash;
      merkle_root = merkle_root;
      nonce = nonce;
      timestamp = timestamp;
    })

  unfoldable pub hash : Header → Result (List ℕ)
  hash header = do input ← from_option (env.json_header header); ok (Hash.hash input)
