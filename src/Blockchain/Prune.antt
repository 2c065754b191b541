-- ===== src/Blockchain/Prune.antt =====
-- src/blockchain.rs, `prune`.
pub mod Walk
pub mod Chain
pub mod Drop
pub mod Closed
use p2p_auction.Prelude.{
  ℕ, zero, suc, ◌+◌, ◌-◌, String, Bool, true, false, not, Option, none, some, List, [], ◌∷◌, ◌++◌,
  ltb, length, take, contains, set_insert, to_set, if◌then◌else◌,
}
use p2p_auction.Prelude.Result.{Result, ok, panic, diverges, ◌>>=◌}
use p2p_auction.Prelude.Exec.{Exec, proceed}
use p2p_auction.HashMap
use p2p_auction.HashMap.{HashMap}
use p2p_auction.Transaction.{Transaction, Block}
use p2p_auction.Blockchain.{Blockchain, Notifier, Ledger, execute_after_n_blocks}
use p2p_auction.Blockchain.Branch.{BranchMap, children}

-- The children that are not on the chain are pushed. A stack is kept with its top first.
unfoldable pub push_losers : List String → List String → List String → List String
push_losers chain [] losers = losers
push_losers chain (c ∷ cs) losers =
    push_losers chain cs (if contains chain c then losers else c ∷ losers)

-- `for i in 0..(len - EXECUTE_AFTER_N_BLOCKS)`, over the parents that stand there.
unfoldable pub find_losers : BranchMap → List String → List String → List String → List String
unfolding children push_losers
find_losers m chain [] losers = losers
find_losers m chain (parent ∷ parents) losers =
    find_losers m chain parents (push_losers chain (children m parent) losers)

-- `if bin.insert(c.clone()) { losers.push(c.clone()) }`: what is pushed.
unfoldable pub push_new : List String → String → List String → List String
push_new bin c losers = if contains bin c then losers else c ∷ losers

-- The inner loop of the walk: the losers and the bin after it.
unfoldable pub push_children : List String → List String → List String → List String × List String
push_children [] losers bin = (losers, bin)
push_children (c ∷ cs) losers bin = push_children cs (push_new bin c losers) (set_insert bin c)

-- `while let Some(h) = losers.pop()`, on fuel.
unfoldable pub collect : ℕ → BranchMap → List String → List String → Result (List String)
unfolding children push_children
collect fuel m [] bin = ok bin
collect zero m (h ∷ losers) bin = panic diverges
collect (suc fuel) m (h ∷ losers) bin =
    let (losers', bin') = push_children (children m h) losers bin in collect fuel m losers' bin'

-- `notify_one` for each transaction of a dropped block.
unfoldable pub notify : HashMap Notifier → List Transaction → HashMap Notifier
notify notifiers [] = notifiers
notify notifiers (t ∷ ts) =
    notify
      (elim (HashMap.get notifiers t.id) [
        | none ↦ notifiers
        | some n ↦ HashMap.insert notifiers t.id (record n { permit = true })
      ])
      ts

unfoldable pub notify_block : HashMap Notifier → Option Block → HashMap Notifier
unfolding notify
notify_block notifiers none = notifiers
notify_block notifiers (some b) = notify notifiers b.transactions

-- `for h in bin`: the hash is pruned and its block removed.
unfoldable pub drop_block : String → Ledger → Ledger
unfolding notify_block
drop_block h l = record {
  chain = record (l.chain) {
    pruned = set_insert l.chain.pruned h;
    blocks = HashMap.remove l.chain.blocks h;
  };
  notifiers = notify_block l.notifiers (HashMap.get l.chain.blocks h);
}

unfoldable pub drop_blocks : List String → Ledger → Ledger
unfolding drop_block
drop_blocks [] l = l
drop_blocks (h ∷ bin) l = drop_blocks bin (drop_block h l)

-- The losers and everything that descends from them.
unfoldable pub doomed : BranchMap → List String → ℕ → Result (List String)
unfolding find_losers collect
doomed m chain fuel =
    let losers = find_losers m chain (take (length chain - execute_after_n_blocks) chain) [] in
    collect (length losers + fuel) m losers (to_set losers)

-- Every hash is pushed once at most beyond the first losers, so the number of blocks is fuel enough.
unfoldable pub prune : BranchMap → Exec Ledger (Unit {0})
unfolding doomed drop_blocks
prune m l =
    if ltb (length l.chain.longest_chain) execute_after_n_blocks
    then (ok tt, l)
    else proceed (doomed m l.chain.longest_chain (length l.chain.blocks))
        (λ bin l'. (ok tt, drop_blocks bin l')) l
