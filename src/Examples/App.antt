-- ===== src/Examples/App.antt =====
-- The theorems on the terminal interface, at the concrete node.
use mathlib.Core.Path.{subst}
use p2p_auction.Prelude.{
  true, ◌+◌, ◌≤◌, arith, length, get_elem?, sym, ap, ℕ, String, ◌≡◌, refl, false, to_set, Option,
  none, some, List, [], ◌∷◌,
}
use p2p_auction.Prelude.Result.{Result, ok}
use p2p_auction.HashMap
use p2p_auction.Block
use p2p_auction.Pow
use p2p_auction.Header
use p2p_auction.Merkle
use p2p_auction.Hash
use p2p_auction.Transaction.Signing
use p2p_auction.Blockchain
use p2p_auction.Blockchain.Fix
use p2p_auction.Blockchain.Execute
use p2p_auction.Blockchain.Branch
use p2p_auction.Blockchain.Prune
use p2p_auction.Blockchain.{Ledger, confirmed}
use p2p_auction.Blockchain.Accept.{accept_block}
use p2p_auction.Blockchain.Valid.{IsValid}
use p2p_auction.Blockchain.Reachable.{Step, Reachable, Reachable-IsValid}
use p2p_auction.State
use p2p_auction.State.{State, TransactionRequest, bid_request, blocks_of}
use p2p_auction.State.Responses.{block_message}
use p2p_auction.App.{Key, Input, TextArea, Widgets, Client, Secrets, served, lines_to_string}
use p2p_auction.App.Bidding.{fold_transactions, Field, Bid, Handled, handle_io, highest_bid}
use p2p_auction.Prelude.Text.{to_decimal}
use p2p_auction.Prelude.TextOrder.{str_le}
use p2p_auction.App.Walk.Chain.{fold_blocks, rest_from}
use p2p_auction.App.Tables.{Table, table}
use p2p_auction.App.Tables.Tracked.{of_table, track_blocks}
use p2p_auction.App.Tables.Chain.{table-tracked}
use p2p_auction.App.Auctions
use p2p_auction.App.Auctions.{Entry, created, counted}
use p2p_auction.App.History
use p2p_auction.App.Bidding.Walk.{highest_bid-fold}
use p2p_auction.App.Bidding.Highest.{IsHighest, bid-IsHighest}
use p2p_auction.Examples.Toy.{toy, toy-IsLawful}
use p2p_auction.Examples.Data.{third, fourth, fifth, accepted, five, first, second, begin}

five-IsValid : IsValid five.chain
five-IsValid = Reachable-IsValid toy-IsLawful 4 five (
    Reachable.after
      (Reachable.after
        (Reachable.after
          (Reachable.after (Reachable.after Reachable.start (Step.accept first begin))
            (Step.accept second (accepted first begin)))
          (Step.accept third (accepted second (accepted first begin))))
        (Step.accept fourth (accepted third (accepted second (accepted first begin)))))
      (Step.accept fifth
        (accepted fourth (accepted third (accepted second (accepted first begin))))))

-- A node with the five blocks: three of them are confirmed, the offer among them.
abbrev node : State
node = record State.init { blockchain = five.chain }

abbrev answers : TransactionRequest → Result ℕ
answers t = ok 0

abbrev connect : String → Option Client
connect n = some (served answers node)

abbrev only : List ℕ → Option ℕ
only (k ∷ []) = some k
only _ = none

abbrev widgets : Widgets
widgets = record { input = λ i lines. lines; cut = λ lines. lines }

abbrev secrets : Secrets
secrets = record { SecretKey = ℕ; secret_key_from_bytes = only; keypair = λ secret public. secret }

abbrev line : String → TextArea
line text = record { lines = text ∷ []; placeholder = "" }

-- The form with an offer of 30 on the auction.
abbrev form : Bid
form = record {
  auction_id_textarea = line "item";
  amount_textarea = line "30";
  private_key_textarea = some (line "ab");
  field = Field.private_key;
  node = "node";
  public_key = "ab";
  popup = none;
}

abbrev enters : Input
enters = record { key = Key.enter; ctrl = false }

abbrev handled : Handled
handled = handle_io widgets secrets connect 4 (ok 150) enters form

abbrev shown : Bid
shown = record form {
  private_key_textarea = none;
  field = Field.auction_id;
  popup = some "Successfully created the bid on-chain.";
}

abbrev bid_of_30 : TransactionRequest
bid_of_30 = record {
  payload = some (bid_request "item" 30);
  signature = "ab";
  from = "ab";
  nonce = 3;
}

confirmed_five : confirmed five.chain ≡ first.hash ∷ second.hash ∷ third.hash ∷ []
unfolding accept_block Fix.fix Execute.execute_transactions Execute.execute_single_transaction
    Execute.execute_record Branch.find_longest_branch Branch.branch_map Prune.prune confirmed
    HashMap.contains_key HashMap.get HashMap.insert HashMap.remove HashMap.values Block.verify
    Header.new Header.hash Merkle.root Merkle.leaf_level Merkle.hash Merkle.climb Signing.hash
    Pow.verify Signing.verify Hash.string_to_public_key Hash.string_to_signature
    Blockchain.find_creation Blockchain.creates to_set Blockchain.create_account
    Blockchain.create_auction
confirmed_five = refl

sends_bid : handled ≡ ok (some bid_of_30, shown)
unfolding handle_io accept_block Fix.fix Execute.execute_transactions
    Execute.execute_single_transaction Execute.execute_record Branch.find_longest_branch
    Branch.branch_map Prune.prune confirmed State.auction_exists State.block_info
    State.account_exists State.request_of block_message Blockchain.get_block_from_hash
    Blockchain.get_next_block_hash_from_hash Blockchain.get_account Blockchain.find_creation
    Blockchain.creates HashMap.contains_key HashMap.get HashMap.insert HashMap.remove HashMap.values
    Block.verify Header.new Header.hash Merkle.root Merkle.leaf_level Merkle.hash Merkle.climb
    Signing.hash Pow.verify Signing.verify Signing.sign Signing.new Signing.serialize
    Hash.string_to_public_key Hash.string_to_signature Hash.public_key_to_string
    Hash.signature_to_string Hash.hash Hash.encode_hash lines_to_string to_set
    Blockchain.create_account Blockchain.create_auction
sends_bid = refl

three_confirmed : length (confirmed five.chain) + 1 ≤ 4
three_confirmed = subst (λ hs. length hs + 1 ≤ 4) (sym confirmed_five) (omega arith)

second_confirmed : get_elem? (confirmed five.chain) 1 ≡ some second.hash
second_confirmed = ap (λ hs. get_elem? hs 1) confirmed_five

highest_bid-fold_example :
    highest_bid 4 (served answers node) "item" second.hash 30
    ≡ fold_blocks (fold_transactions "item") 30 (rest_from node 1)
highest_bid-fold_example =
    highest_bid-fold toy-IsLawful answers node five-IsValid 4 "item" 1 second.hash 30
      second_confirmed (omega (arith, three_confirmed))

bid-IsHighest_example :
    (auction : String) × (offered : ℕ) × (bid_of_30.payload ≡ some (bid_request auction offered))
    × IsHighest node auction offered
bid-IsHighest_example =
    bid-IsHighest toy-IsLawful widgets secrets connect 4 (ok 150) answers node five-IsValid enters
      form bid_of_30 three_confirmed refl (shown, sends_bid)

names_first : State.first_block_hash node ≡ some first.hash
unfolding State.first_block_hash accept_block Fix.fix Execute.execute_transactions
    Execute.execute_single_transaction Execute.execute_record Branch.find_longest_branch
    Branch.branch_map Prune.prune HashMap.contains_key HashMap.get HashMap.insert HashMap.remove
    HashMap.values Block.verify Header.new Header.hash Merkle.root Merkle.leaf_level Merkle.hash
    Merkle.climb Signing.hash Pow.verify Signing.verify Hash.string_to_public_key
    Hash.string_to_signature Blockchain.find_creation Blockchain.creates to_set
    Blockchain.create_account Blockchain.create_auction
names_first = refl

table-tracked_example :
    (t : Table Entry) × (table created counted 4 (some (served answers node)) ≡ ok (t, none))
    × ((id : String)
        → of_table created counted id t
          ≡ track_blocks created counted id (rest_from node 0) (none, false))
table-tracked_example =
    table-tracked toy-IsLawful answers node five-IsValid created counted 4 first.hash
      three_confirmed names_first

-- The row that a user sees of the auction.
shows_auction :
    Auctions.new connect 4 "node"
    ≡ ok (record { popup = none; rows = ("item" ∷ "ab" ∷ "20" ∷ "10" ∷ "1" ∷ "No" ∷ []) ∷ [] })
unfolding Auctions.new State.first_block_hash State.block_info block_message
    Blockchain.get_block_from_hash Blockchain.get_next_block_hash_from_hash confirmed accept_block
    Fix.fix Execute.execute_transactions Execute.execute_single_transaction Execute.execute_record
    Branch.find_longest_branch Branch.branch_map Prune.prune HashMap.contains_key HashMap.get
    HashMap.insert HashMap.remove HashMap.values Block.verify Header.new Header.hash Merkle.root
    Merkle.leaf_level Merkle.hash Merkle.climb Signing.hash Pow.verify Signing.verify
    Hash.string_to_public_key Hash.string_to_signature Blockchain.find_creation Blockchain.creates
    to_set Blockchain.create_account Blockchain.create_auction
shows_auction = refl

-- The higher bid is another's, and the row says that the auction was won.
nine_beats_ten : History.won (to_decimal 9) (to_decimal 10) true ≡ "Yes"
unfolding History.won str_le
nine_beats_ten = refl
