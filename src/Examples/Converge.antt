-- ===== src/Examples/Converge.antt =====
-- Two nodes that took the blocks of a fork in different orders, at the concrete node.
use mathlib.Core.Path.{subst}
use p2p_auction.Prelude.{
  ℕ, leb, ◌⊎◌, inl, inr, sym, ap, ◌∙◌, String, ◌==◌, eq_iff, ◌≡◌, ◌≢◌, refl, true, false, [], ◌∷◌,
  arith, to_set, if◌then◌else◌,
}
use p2p_auction.HashMap
use p2p_auction.HashMap.{HashMap}
use p2p_auction.Block
use p2p_auction.Pow
use p2p_auction.Header
use p2p_auction.Merkle
use p2p_auction.Hash
use p2p_auction.Transaction.{Block}
use p2p_auction.Transaction.Signing
use p2p_auction.Blockchain
use p2p_auction.Blockchain.{Ledger}
use p2p_auction.Blockchain.Execute
use p2p_auction.Blockchain.Branch
use p2p_auction.Blockchain.Branch.Compare.{number}
use p2p_auction.Blockchain.Prune
use p2p_auction.Blockchain.Fix
use p2p_auction.Blockchain.Fix.Agreement.{HasNoTies}
use p2p_auction.Blockchain.Accept.{accept_block}
use p2p_auction.Blockchain.Accept.Converge.{Fed, fed_nodes_agree}
use p2p_auction.Examples.Toy.{toy, toy-IsLawful}
use p2p_auction.Examples.Data.{other_register, first, second, third, with_first, accepted}

-- A rival of the second block.
abbrev rival : Block
rival = record {
  previous_hash = first.hash;
  transactions = other_register ∷ [];
  merkle_root = "bbaaaaaaaaaab";
  hash = "bbaaaaaaaaaaaaaaaaaaaaaaaaaab";
  nonce = 1;
  timestamp = 5;
  miner = "ab";
}

-- One node takes the rival last, the other one before the second block; both prune it, since it is the
-- sibling of a block with one after it.
abbrev rival_last : Ledger
rival_last = accepted rival (accepted third (accepted second with_first))

abbrev rival_early : Ledger
rival_early = accepted third (accepted second (accepted rival with_first))

abbrev kept : HashMap Block
kept = (first.hash, first) ∷ (second.hash, second) ∷ (third.hash, third) ∷ []

keeps_all : (rival_last.chain.blocks ≡ kept) × (rival_early.chain.blocks ≡ kept)
unfolding accept_block Fix.fix Execute.execute_transactions Execute.execute_single_transaction
    Execute.execute_record Branch.find_longest_branch Branch.branch_map Prune.prune
    HashMap.contains_key HashMap.get HashMap.insert HashMap.remove HashMap.values Block.verify
    Header.new Header.hash Merkle.root Merkle.leaf_level Merkle.hash Merkle.climb Signing.hash
    Pow.verify Signing.verify Hash.string_to_public_key Hash.string_to_signature to_set
    Blockchain.create_account
keeps_all = (refl, refl)

one_of :
    (h : String)
    → HashMap.contains_key kept h ≡ true
    → (first.hash ≡ h) ⊎ (second.hash ≡ h) ⊎ (third.hash ≡ h)
unfolding HashMap.contains_key
one_of h e = ground (arith, eq_iff first.hash h, eq_iff second.hash h, eq_iff third.hash h)

abbrev named : ℕ → String
named n =
    if leb n (number first.hash)
    then first.hash
    else if leb n (number second.hash)
    then second.hash
    else third.hash

named-number : (h : String) → HashMap.contains_key kept h ≡ true → named (number h) ≡ h
unfolding number
named-number h e = elim (one_of h e) [
  | inl p ↦ subst (λ k. named (number k) ≡ k) p refl
  | inr (inl p) ↦ subst (λ k. named (number k) ≡ k) p refl
  | inr (inr p) ↦ subst (λ k. named (number k) ≡ k) p refl
]

kept-HasNoTies : HasNoTies kept
kept-HasNoTies h k i j e = sym (named-number h i) ∙ ap named e ∙ named-number k j

follows : (b : Block) → (b.previous_hash == "0") ≡ false → b.previous_hash ≢ "0"
follows b apart e = cc (apart, (eq_iff b.previous_hash "0").1 e)

with_first-Fed : Fed with_first
with_first-Fed = Fed.take_block (Fed.start 4 []) first (inr refl)

rival_last-Fed : Fed rival_last
rival_last-Fed =
    Fed.take_block
      (Fed.take_block (Fed.take_block with_first-Fed second (inl (follows second refl))) third
        (inl (follows third refl)))
      rival (inl (follows rival refl))

rival_early-Fed : Fed rival_early
rival_early-Fed =
    Fed.take_block
      (Fed.take_block (Fed.take_block with_first-Fed rival (inl (follows rival refl))) second
        (inl (follows second refl)))
      third (inl (follows third refl))

fed_nodes_agree_example :
    (rival_last.chain.longest_chain ≡ rival_early.chain.longest_chain)
    × (rival_last.chain.accounts ≡ rival_early.chain.accounts)
    × (rival_last.chain.auctions ≡ rival_early.chain.auctions)
fed_nodes_agree_example =
    fed_nodes_agree toy-IsLawful rival_last-Fed rival_early-Fed
      (λ h. ap (λ m. HashMap.get m h) (keeps_all.0 ∙ sym keeps_all.1))
      (subst HasNoTies (sym keeps_all.0) kept-HasNoTies)
