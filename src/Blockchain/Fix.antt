-- ===== src/Blockchain/Fix.antt =====
-- src/blockchain.rs, `fix`: the chain is chosen anew, beaten branches are dropped, and what is
-- confirmed is executed.
pub mod Laws
pub mod Along
pub mod Agreement
pub mod Replay
pub mod Finality
use p2p_auction.Prelude.{ℕ, suc, String, List, [], ◌∷◌, length, drop}
use p2p_auction.Prelude.Result.{Result}
use p2p_auction.Prelude.Exec.{Exec, lift, gets, modify, ◌>>=◌, ◌>>◌}
use p2p_auction.Env.{Env}
use p2p_auction.HashMap.{HashMap}
use p2p_auction.Transaction.{Block}
use p2p_auction.Blockchain.{Blockchain, Ledger}
use p2p_auction.Blockchain.Branch.{BranchMap, branch_map, find_longest_branch}
use p2p_auction.Blockchain.Prune.{prune}
use p2p_auction.Blockchain.Execute.{execute_transactions}

module _ ⦃env : Env⦄ where
  -- A branch from "0" passes through each block once at most, so this fuel is enough.
  unfoldable pub longest : HashMap Block → Result (List String)
  unfolding branch_map find_longest_branch
  longest blocks = find_longest_branch (suc (length blocks)) (branch_map blocks) "0"

  abbrev set_longest_chain : List String → Ledger → Ledger
  set_longest_chain branch l = record l {
    chain = record (l.chain) { longest_chain = drop 1 branch };
  }

  unfoldable pub fix : Exec Ledger (Unit {0})
  unfolding longest prune execute_transactions
  fix = do
    blocks ← gets (λ l. l.chain.blocks)
    branch ← lift (longest blocks)
    modify (set_longest_chain branch)
    prune (branch_map blocks)
    modify execute_transactions
