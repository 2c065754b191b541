-- ===== src/Examples/Data.antt =====
-- A few transactions and blocks of the concrete node. The key 1 is written "ab", the key 2 "aab".
use p2p_auction.Prelude.{true, ◌≡◌, refl, none, some, [], ◌∷◌}
use p2p_auction.Prelude.Result.{ok}
use p2p_auction.Transaction.{
  Transaction, Block, create_user_account, bid, create_auction, stop_auction,
}
use p2p_auction.Block
use p2p_auction.Merkle
use p2p_auction.Pow
use p2p_auction.Header
use p2p_auction.Hash
use p2p_auction.Transaction.Signing
use p2p_auction.HashMap.{HashMap}
use p2p_auction.Blockchain
use p2p_auction.Blockchain.{Blockchain, Ledger}
use p2p_auction.Blockchain.Accept.{accept_block}
use p2p_auction.Examples.Toy.{toy}

abbrev pub register : Transaction
register = record {
  id = "t1";
  payload = create_user_account "ab";
  from = "ab";
  timestamp = 1;
  nonce = 0;
  signature = "ab";
}

abbrev pub opening : Transaction
opening = record {
  id = "t2";
  payload = create_auction "item" 10 100;
  from = "ab";
  timestamp = 2;
  nonce = 1;
  signature = "ab";
}

abbrev pub offer : Transaction
offer = record {
  id = "t3";
  payload = bid "item" 20;
  from = "ab";
  timestamp = 3;
  nonce = 2;
  signature = "ab";
}

abbrev pub closing : Transaction
closing = record {
  id = "t4";
  payload = stop_auction "item";
  from = "ab";
  timestamp = 50;
  nonce = 2;
  signature = "ab";
}

abbrev pub other_register : Transaction
other_register = record {
  id = "t10";
  payload = create_user_account "aab";
  from = "aab";
  timestamp = 4;
  nonce = 0;
  signature = "aab";
}

abbrev pub first : Block
first = record {
  previous_hash = "0";
  transactions = register ∷ [];
  merkle_root = "bbaaaaaaaab";
  hash = "bbaaaaaaaaaaab";
  nonce = 1;
  timestamp = 5;
  miner = "ab";
}

abbrev pub second : Block
second = record {
  previous_hash = "bbaaaaaaaaaaab";
  transactions = opening ∷ [];
  merkle_root = "bbaaaaaaaab";
  hash = "bbaaaaaaaaaaaaaaaaaaaaaaaab";
  nonce = 1;
  timestamp = 5;
  miner = "ab";
}

-- A second block with no parent.
abbrev pub fork : Block
fork = record {
  previous_hash = "0";
  transactions = other_register ∷ [];
  merkle_root = "bbaaaaaaaaaab";
  hash = "bbaaaaaaaaaaaaab";
  nonce = 1;
  timestamp = 5;
  miner = "ab";
}

abbrev pub begin : Ledger
begin = record { chain = Blockchain.new 4; notifiers = [] }

abbrev pub with_first : Ledger
with_first = (accept_block first begin).1

-- The offer of 20 on the auction, in the third block.
abbrev pub third : Block
third = record {
  previous_hash = second.hash;
  transactions = offer ∷ [];
  merkle_root = "bbaaaaaaaab";
  hash = "bbaaaaaaaaaaaaaaaaaaaaaaaaaaaaaaaaaaaaab";
  nonce = 1;
  timestamp = 5;
  miner = "ab";
}

abbrev pub fourth : Block
fourth = record third {
  previous_hash = third.hash;
  hash = "bbaaaaaaaaaaaaaaaaaaaaaaaaaaaaaaaaaaaaaaaaaaaaaaaaaab";
}

abbrev pub fifth : Block
fifth = record third {
  previous_hash = fourth.hash;
  hash = "bbaaaaaaaaaaaaaaaaaaaaaaaaaaaaaaaaaaaaaaaaaaaaaaaaaaaaaaaaaaaaaaab";
}

abbrev pub accepted : Block → Ledger → Ledger
accepted b l = (accept_block b l).1

abbrev pub four : Ledger
four = accepted fourth (accepted third (accepted second (accepted first begin)))

abbrev pub five : Ledger
five = accepted fifth four

-- What a node knows with the three blocks.
abbrev pub three : HashMap Block
three = (first.hash, first) ∷ (fork.hash, fork) ∷ (second.hash, second) ∷ []

-- The world state after the three blocks.
abbrev pub world : Blockchain
world = record (Blockchain.new 4) {
  blocks = three;
  longest_chain = first.hash ∷ second.hash ∷ [];
  accounts =
      ("ab", record { public_key = "ab"; nonce = 2 })
      ∷ ("aab", record { public_key = "aab"; nonce = 1 })
      ∷ [];
  auctions = ("item", (second.hash, 100)) ∷ [];
}

pub first_mined : Block.new "ab" none (register ∷ []) 4 (ok 5 ∷ []) ≡ ok first
unfolding Block.new Pow.mine Pow.try_nonces Pow.attempt Pow.verify Header.new Header.hash
    Merkle.root Merkle.leaf_level Merkle.climb Merkle.next_level Merkle.hash Hash.hash
    Hash.encode_hash Signing.hash Block.parent_or_genesis
first_mined = refl

second_mined : Block.new "ab" (some first.hash) (opening ∷ []) 4 (ok 5 ∷ []) ≡ ok second
unfolding Block.new Pow.mine Pow.try_nonces Pow.attempt Pow.verify Header.new Header.hash
    Merkle.root Merkle.leaf_level Merkle.climb Merkle.next_level Merkle.hash Hash.hash
    Hash.encode_hash Signing.hash Block.parent_or_genesis
second_mined = refl

pub first_verifies : Block.verify first ≡ ok true
unfolding Block.verify Header.new Header.hash Pow.verify Merkle.root Merkle.leaf_level Merkle.climb
    Merkle.hash Signing.hash Hash.encode_hash Hash.hash
first_verifies = refl
