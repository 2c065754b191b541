-- ===== src/Examples/Parts.antt =====
-- The theorems on the parts of a block and on the pool, at concrete transactions.
use p2p_auction.Prelude.{
  ℕ, String, ◌≡◌, refl, true, none, some, List, [], ◌∷◌, ◌<◌, arith, nat_eq, Bool-cases, inl, inr,
  leb, ◌==◌, if◌then◌else◌,
}
use p2p_auction.Prelude.Result.{ok}
use p2p_auction.HashMap
use p2p_auction.HashMap.{HashMap}
use p2p_auction.Hash
use p2p_auction.Merkle
use p2p_auction.Merkle.Total.{root_total}
use p2p_auction.Header
use p2p_auction.Pow
use p2p_auction.Pow.{ProofOfWork, Mined, mine, attempt}
use p2p_auction.Pow.Laws.{mine_total}
use p2p_auction.Block
use p2p_auction.Block.Laws.{verify-new, verify-duplicate}
use p2p_auction.Pool
use p2p_auction.Pool.Room.{get-add_transaction}
use p2p_auction.Transaction.{Transaction}
use p2p_auction.Transaction.Signing
use p2p_auction.Transaction.Signing.{sign}
use p2p_auction.Transaction.Signing.Laws.{verify-sign}
use p2p_auction.Examples.Toy.{toy, toy-IsLawful}
use p2p_auction.Examples.Data.{register, opening, offer, first, first_mined}

verify-sign_example :
    (t : Transaction) × (sign offer.payload (Hash.public_key_to_string 1) 2 1 (ok 3) ≡ ok t)
    × (Signing.verify t ≡ ok tt)
    × (t.payload ≡ offer.payload)
    × (t.from ≡ Hash.public_key_to_string 1)
    × (t.nonce ≡ 2)
    × (t.timestamp ≡ 3)
verify-sign_example = verify-sign toy-IsLawful offer.payload 2 3 1

hashes_all : (t : Transaction) → (h : String) × (Signing.hash t ≡ ok h)
unfolding Signing.hash Hash.encode_hash Hash.hash
hashes_all t = (toy.hex_encode (toy.blake2b t.id), refl)

root_total_example :
    (r : String) × (Merkle.root Signing.hash (register ∷ opening ∷ offer ∷ []) ≡ ok r)
root_total_example = root_total Signing.hash hashes_all register (opening ∷ offer ∷ [])

verify-duplicate_example :
    Block.verify (record first { transactions = register ∷ [] })
    ≡ Block.verify (record first { transactions = register ∷ register ∷ [] })
verify-duplicate_example = verify-duplicate first [] register refl

verify-new_example :
    (Block.verify first ≡ ok true)
    × (first.previous_hash ≡ Block.parent_or_genesis none)
    × (first.transactions ≡ register ∷ [])
    × (first.miner ≡ "ab")
    × (first.nonce < 4)
verify-new_example = verify-new "ab" none (register ∷ []) 4 (ok 5 ∷ []) first_mined

abbrev puzzle : ProofOfWork
puzzle = record { transactions = register ∷ []; difficulty = 4 }

abbrev solution : Mined
solution = record { hash = first.hash; nonce = 1; timestamp = 5 }

solves_puzzle : mine puzzle "0" (ok 5 ∷ []) ≡ ok solution
unfolding mine Pow.try_nonces attempt Pow.verify Header.new Header.hash Merkle.root
    Merkle.leaf_level Merkle.climb Merkle.hash Signing.hash Hash.encode_hash Hash.hash
solves_puzzle = refl

attempts_all : (timestamp n : ℕ) → (h : List ℕ) × (attempt (register ∷ []) "0" timestamp n ≡ ok h)
unfolding attempt Header.new Header.hash Merkle.root Merkle.leaf_level Merkle.climb Merkle.hash
    Signing.hash Hash.encode_hash Hash.hash
attempts_all timestamp n = elim (Bool-cases (nat_eq n 0)) [
  | inl e ↦ (9 ∷ [], rw (e) refl)
  | inr e ↦ (0 ∷ 0 ∷ 11 ∷ [], rw (e) refl)
]

solved_by_one : attempt (register ∷ []) "0" 5 1 ≡ ok (0 ∷ 0 ∷ 11 ∷ [])
unfolding attempt Header.new Header.hash Merkle.root Merkle.leaf_level Merkle.climb Merkle.hash
    Signing.hash Hash.encode_hash Hash.hash
solved_by_one = refl

verifies : Pow.verify (0 ∷ 0 ∷ 11 ∷ []) ≡ true
unfolding Pow.verify
verifies = refl

mine_total_example : (m : Mined) × (mine puzzle "0" (ok 3 ∷ ok 5 ∷ []) ≡ ok m)
mine_total_example =
    mine_total puzzle "0" attempts_all (3 ∷ []) 5 1 (0 ∷ 0 ∷ 11 ∷ []) [] (omega arith) solved_by_one
      verifies

abbrev two_pending : Pool.TransactionPool
two_pending = ("t2", opening) ∷ ("t1", register) ∷ []

get-add_transaction_example : HashMap.get (Pool.add_transaction two_pending offer) "t1" ≡ (
    if offer.id == "t1"
    then some offer
    else if leb Pool.max_transaction_pool_size (Pool.len two_pending)
    then HashMap.get (Pool.evicted two_pending) "t1"
    else HashMap.get two_pending "t1")
get-add_transaction_example = get-add_transaction two_pending offer "t1"

oldest-register : Pool.oldest (HashMap.values two_pending) ≡ some register
unfolding Pool.oldest Pool.older Pool.min_of Pool.queue_le HashMap.values
oldest-register = refl
