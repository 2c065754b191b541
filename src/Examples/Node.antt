-- ===== src/Examples/Node.antt =====
-- The theorems on the keys and the tasks of a node, at the concrete node.
use p2p_auction.Prelude.{◌⊎◌, ◌≢◌, ℕ, String, List, ◌≡◌, refl, true, none, some, [], ◌∷◌}
use p2p_auction.Prelude.Result.{Result, ok}
use p2p_auction.HashMap
use p2p_auction.Key
use p2p_auction.Key.{Disk, verify_peer_id, get_key}
use p2p_auction.Key.Laws.{get_key_lem}
use p2p_auction.Transaction.{Transaction, Block, stop_auction}
use p2p_auction.Transaction.Signing
use p2p_auction.Hash
use p2p_auction.Pool
use p2p_auction.Blockchain
use p2p_auction.Blockchain.{Blockchain}
use p2p_auction.Blockchain.Accept.{propose_block}
use p2p_auction.Block
use p2p_auction.Pow
use p2p_auction.Blockchain.Fix
use p2p_auction.Blockchain.Branch
use p2p_auction.Blockchain.Prune
use p2p_auction.Blockchain.Execute
use p2p_auction.Header
use p2p_auction.Merkle
use p2p_auction.Blockchain.Execute.{execute_single_transaction, execute_record}
use p2p_auction.State
use p2p_auction.State.{State}
use p2p_auction.Vm
use p2p_auction.Vm.{stop_round, propose_round}
use p2p_auction.Vm.Stops.{IsStop}
use p2p_auction.Vm.Stops.Round.{stop_round-adds, stops_share_nonce}
use p2p_auction.Vm.System.{Node, start, Step, Runs}
use p2p_auction.Vm.System.Sound.{IsSound, Runs-IsSound}
use p2p_auction.Examples.Data.{register, first, second, world}
use p2p_auction.Examples.Toy.{toy, toy-IsLawful}
use p2p_auction.Examples.Peers.{toy_peers, toy_peers-IsLawful}

-- There is no file: the second key that is generated has an id that verifies.
mines_second : (get_key (3 ∷ 0 ∷ []) Disk.written none).0 ≡ ok 0
unfolding get_key Key.key_from_file Key.use_or_mine Key.mine_key Key.store Key.key_to_file
    verify_peer_id Key.leading_zero_bits Key.leading_zeros
mines_second = refl

get_key_lem_example :
    (verify_peer_id "mined" ≡ true)
    × (get_key [] Disk.refused (get_key (3 ∷ 0 ∷ []) Disk.written none).1
        ≡ (ok 0, (get_key (3 ∷ 0 ∷ []) Disk.written none).1))
get_key_lem_example =
    get_key_lem toy-IsLawful toy_peers-IsLawful (3 ∷ 0 ∷ []) [] Disk.written Disk.refused none 0
      mines_second

-- Two auctions of one account have expired.
abbrev two_open : Blockchain
two_open = record world {
  auctions = ("item", (second.hash, 100)) ∷ ("lot", (second.hash, 100)) ∷ [];
}

abbrev stop_of : String → String → Transaction
stop_of id auction = record {
  id = id;
  payload = stop_auction auction;
  from = "ab";
  timestamp = 150;
  nonce = 2;
  signature = "ab";
}

abbrev stops_item : Transaction
stops_item = stop_of "bbaaaaaaaaaaaaab" "item"

abbrev stops_lot : Transaction
stops_lot = stop_of "bbaaaaaaaaaaaab" "lot"

abbrev after_round : Blockchain
after_round = stop_round 1 (ok 150) (λ i. ok 150) two_open

adds_item : HashMap.get after_round.transaction_pool stops_item.id ≡ some stops_item
unfolding stop_round Blockchain.get_account Signing.sign Signing.serialize Signing.new HashMap.get
    HashMap.insert Pool.add_transaction Pool.make_room Pool.len Hash.encode_hash Hash.hash
    Hash.public_key_to_string Hash.signature_to_string
adds_item = refl

adds_lot : HashMap.get after_round.transaction_pool stops_lot.id ≡ some stops_lot
unfolding stop_round Blockchain.get_account Signing.sign Signing.serialize Signing.new HashMap.get
    HashMap.insert Pool.add_transaction Pool.make_room Pool.len Hash.encode_hash Hash.hash
    Hash.public_key_to_string Hash.signature_to_string
adds_lot = refl

stop_round-adds_example :
    (HashMap.get two_open.transaction_pool stops_lot.id ≡ some stops_lot)
    ⊎ ((time : ℕ) × (ok 150 ≡ ok time) × IsStop 1 time two_open.auctions two_open stops_lot)
stop_round-adds_example =
    stop_round-adds toy-IsLawful 1 (ok 150) (λ i. ok 150) two_open stops_lot.id stops_lot adds_lot

abbrev item_stopped : Result (Unit {0}) × Blockchain
item_stopped = execute_single_transaction stops_item "h" two_open

stops_item_first : item_stopped.0 ≡ ok tt
unfolding execute_single_transaction execute_record Signing.verify Hash.string_to_public_key
    Hash.string_to_signature HashMap.get HashMap.insert HashMap.remove Blockchain.get_auction
    Blockchain.find_creation Blockchain.creates
stops_item_first = refl

stops_share_nonce_example :
    ((execute_single_transaction stops_lot "k" item_stopped.1).0 ≢ ok tt)
    × ((execute_single_transaction stops_lot "k" item_stopped.1).1 ≡ item_stopped.1)
stops_share_nonce_example =
    stops_share_nonce toy-IsLawful 1 (ok 150) (λ i. ok 150) two_open stops_item.id stops_lot.id
      stops_item stops_lot "h" "k" two_open item_stopped.1 refl adds_item adds_lot stops_item_first
      refl

-- A node mines its first block and publishes it; the task that asks for a chain was the first to run.
abbrev published : Block → Result (Unit {0})
published b = ok tt

abbrev registered : Transaction
registered = record register { id = "bbaaaaaaaab"; timestamp = 5 }

abbrev begun : State
begun = record State.init {
  blockchain = record (Blockchain.new 4294967295) {
    transaction_pool = (registered.id, registered) ∷ [];
  };
}

adds_miner : Vm.add_miner 1 (ok 5) State.init ≡ ok begun
unfolding Vm.add_miner Signing.sign Signing.serialize Signing.new HashMap.get HashMap.insert
    Pool.add_transaction Pool.make_room Pool.len Hash.encode_hash Hash.hash
    Hash.public_key_to_string Hash.signature_to_string
adds_miner = refl

abbrev ticked : Node
ticked = record start { state = begun; syncs = 1 }

abbrev mining : List Block × State
mining = propose_round 1 (ok 5 ∷ []) [] begun

abbrev registers : Block
registers = record first {
  transactions = registered ∷ [];
  merkle_root = "bbaaaaaaaaaaaaaaaaaaaaaaaaaab";
  hash = "bbaaaaaaaaaaaaaaaaaaaaaaaaaaaaab";
}

mines : mining.0 ≡ registers ∷ []
unfolding propose_round propose_block Block.new Pow.mine Pow.try_nonces Pow.attempt Pow.verify
    Header.new Header.hash Merkle.root Merkle.leaf_level Merkle.climb Merkle.hash Hash.hash
    Hash.encode_hash Hash.public_key_to_string Signing.hash Block.parent_or_genesis Block.verify
    Pool.flush Vm.enqueue HashMap.values HashMap.insert HashMap.remove HashMap.get
    HashMap.contains_key Fix.fix Branch.find_longest_branch Branch.branch_map Prune.prune
    Execute.execute_transactions Pool.to_sorted_queue Pool.sort Pool.insert_sorted
mines = refl

abbrev mined_node : Node
mined_node = record ticked { channel = mining.0; state = mining.1 }

abbrev published_node : Node
published_node = record mined_node { channel = []; published = registers ∷ [] }

runs : Runs published 1 published_node
unfolding Vm.stale Vm.publish_next HashMap.contains_key
runs =
    Runs.next
      (Runs.next (Runs.next (Runs.next Runs.begin (Step.tick 9)) (Step.add (ok 5) begun adds_miner))
        (Step.propose (ok 5 ∷ []) (λ b e. refl)))
      (Step.publish true registers [] mines)

Runs-IsSound_example : IsSound published_node
Runs-IsSound_example = Runs-IsSound published 1 toy-IsLawful published_node runs
