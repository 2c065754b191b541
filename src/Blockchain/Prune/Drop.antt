-- ===== src/Blockchain/Prune/Drop.antt =====
-- What `prune` of src/blockchain.rs leaves of a ledger.
use p2p_auction.Prelude.{
  String, ◌==◌, ◌≡◌, refl, ◌⊎◌, inl, inr, true, false, ◌||◌, none, some, ◌-◌, take, ap, List, [],
  ◌∷◌, arith, length, ltb, contains, contains-set_insert, if◌then◌else◌, Bool-cases,
}
use p2p_auction.Prelude.Result.{ok}
use p2p_auction.HashMap
use p2p_auction.HashMap.{HashMap}
use p2p_auction.HashMap.Laws.{get-remove, contains_key-remove, contains_key-get}
use p2p_auction.Transaction.{Block}
use p2p_auction.Blockchain.{Blockchain, Ledger, execute_after_n_blocks}
use p2p_auction.Blockchain.Branch.{children, branch_map}
use p2p_auction.Blockchain.Branch.Map.{IsMap, children-get}
use p2p_auction.Blockchain.Branch.Best.{Linked}
use p2p_auction.Blockchain.Prune.{drop_block, drop_blocks, prune}
use p2p_auction.Blockchain.Prune.Closed.{IsClosed}
use p2p_auction.Blockchain.Prune.Chain.{settled, doomed_lem}

-- Two chains that differ in their blocks and their pruned hashes alone.
abbrev pub SameFollowed : Blockchain → Blockchain → Type 0
SameFollowed c d =
    (c.longest_chain ≡ d.longest_chain)
    × (c.commited_pointer ≡ d.commited_pointer)
    × (c.transaction_pool ≡ d.transaction_pool)
    × (c.difficulty ≡ d.difficulty)
    × (c.accounts ≡ d.accounts)
    × (c.auctions ≡ d.auctions)

pub remove-IsMap {ℓ} :
    {V : Type ℓ} (m : HashMap V) (k : String) → IsMap m → IsMap (HashMap.remove m k)
unfolding HashMap.remove
remove-IsMap [] k d = tt
remove-IsMap ((j, v) ∷ m) k d = elim (Bool-cases (j == k)) [
  | inl hit ↦ rw (hit) (remove-IsMap m k d.1)
  | inr miss ↦ rw (miss) (ground (arith, contains_key-remove m k j, d.0), remove-IsMap m k d.1)
]

drop_blocks-get :
    (bin : List String) (l : Ledger) (k : String)
    → HashMap.get (drop_blocks bin l).chain.blocks k
      ≡ (if contains bin k then none else HashMap.get l.chain.blocks k)
unfolding drop_blocks drop_block
drop_blocks-get [] l k = refl
drop_blocks-get (h ∷ bin) l k =
    ground (arith, drop_blocks-get bin (drop_block h l) k, get-remove l.chain.blocks h k)

drop_blocks-pruned :
    (bin : List String) (l : Ledger) (k : String)
    → contains (drop_blocks bin l).chain.pruned k ≡ (contains bin k || contains l.chain.pruned k)
unfolding drop_blocks drop_block
drop_blocks-pruned [] l k = refl
drop_blocks-pruned (h ∷ bin) l k =
    ground
      (arith, drop_blocks-pruned bin (drop_block h l) k, contains-set_insert l.chain.pruned h k)

drop_blocks-IsMap :
    (bin : List String) (l : Ledger) → IsMap l.chain.blocks → IsMap (drop_blocks bin l).chain.blocks
unfolding drop_blocks drop_block
drop_blocks-IsMap [] l d = d
drop_blocks-IsMap (h ∷ bin) l d =
    drop_blocks-IsMap bin (drop_block h l) (remove-IsMap l.chain.blocks h d)

drop_blocks-SameFollowed :
    (bin : List String) (l : Ledger) → SameFollowed (drop_blocks bin l).chain l.chain
unfolding drop_blocks drop_block
drop_blocks-SameFollowed [] l = (refl, refl, refl, refl, refl, refl)
drop_blocks-SameFollowed (h ∷ bin) l = drop_blocks-SameFollowed bin (drop_block h l)

-- What pruning keeps and what it drops, of the blocks that are known and of the hashes that are marked
-- as pruned, for the chain that is followed.
pub record IsPruned (blocks : HashMap Block) (chain pruned : List String) (blocks' : HashMap Block)
    (pruned' : List String) : Type 0 where
  pub map : IsMap blocks'
  pub kept : (h : String) → contains chain h ≡ true → HashMap.get blocks' h ≡ HashMap.get blocks h
  pub dropped :
      (h : String) → (HashMap.get blocks' h ≡ none) ⊎ (HashMap.get blocks' h ≡ HashMap.get blocks h)
  pub marked :
      (h : String)
      → HashMap.contains_key blocks h ≡ true
      → HashMap.contains_key blocks' h ≡ false
      → contains pruned' h ≡ true
  pub unmarked : (h : String) → contains chain h ≡ true → contains pruned' h ≡ contains pruned h
  pub parents :
      (h : String) (b : Block)
      → HashMap.get blocks' h ≡ some b
      → HashMap.get blocks' b.previous_hash ≡ HashMap.get blocks b.previous_hash
  pub no_forks :
      (h : String) (b : Block)
      → HashMap.get blocks' h ≡ some b
      → contains (settled chain) b.previous_hash ≡ true
      → contains chain h ≡ true
  pub no_others :
      (h : String)
      → contains pruned' h ≡ true
      → (contains pruned h ≡ true)
        ⊎ ((contains chain h ≡ false) × (HashMap.contains_key blocks h ≡ true))

module _ (bin : List String) (l : Ledger) (map : IsMap l.chain.blocks) where
  known_before :
      (h : String) (b : Block)
      → HashMap.get (drop_blocks bin l).chain.blocks h ≡ some b
      → (contains bin h ≡ false)
        × (contains (children (branch_map l.chain.blocks) b.previous_hash) h ≡ true)
  known_before h b e =
      let kept = drop_blocks-get bin l h in
      let before : HashMap.get l.chain.blocks h ≡ some b = ground arith in
      (ground arith, (children-get l.chain.blocks b.previous_hash h map).1 (b, before, refl))

  drop_blocks-IsPruned :
      (chain : List String)
      → ((h : String)
          → contains bin h ≡ true
          → (contains chain h ≡ false) × (HashMap.contains_key l.chain.blocks h ≡ true))
      → IsClosed (branch_map l.chain.blocks) bin
      → ((p c : String)
          → contains (settled chain) p ≡ true
          → contains (children (branch_map l.chain.blocks) p) c ≡ true
          → contains chain c ≡ false
          → contains bin c ≡ true)
      → IsPruned l.chain.blocks chain l.chain.pruned
          (drop_blocks bin l).chain.blocks
          (drop_blocks bin l).chain.pruned
  drop_blocks-IsPruned chain off closed forks = record {
    map = drop_blocks-IsMap bin l map;
    kept = λ h on. ground (arith, drop_blocks-get bin l h, off h);
    dropped = λ h. ground (arith, drop_blocks-get bin l h);
    marked = λ h i j. ground (
      arith,
      drop_blocks-get bin l h,
      drop_blocks-pruned bin l h,
      contains_key-get l.chain.blocks h,
      contains_key-get (drop_blocks bin l).chain.blocks h,
    );
    unmarked = λ h on. ground (arith, drop_blocks-pruned bin l h, off h);
    parents = λ h b e.
        let (kept, child) = known_before h b e in
        ground (arith, drop_blocks-get bin l b.previous_hash, closed b.previous_hash h);
    no_forks = λ h b e i.
        let (kept, child) = known_before h b e in ground (arith, forks b.previous_hash h);
    no_others = λ h i. elim (Bool-cases (contains bin h)) [
      | inl gone ↦ inr (off h gone)
      | inr stays ↦ inl (ground (arith, drop_blocks-pruned bin l h))
    ];
  }

none_settled :
    (chain : List String)
    → ltb (length chain) execute_after_n_blocks ≡ true
    → length chain - execute_after_n_blocks ≡ 0
none_settled chain short = ground arith

same-IsPruned :
    (c : Blockchain)
    → IsMap c.blocks
    → ltb (length c.longest_chain) execute_after_n_blocks ≡ true
    → IsPruned c.blocks c.longest_chain c.pruned c.blocks c.pruned
same-IsPruned c map short = record {
  map = map;
  kept = λ h on. refl;
  dropped = λ h. inr refl;
  marked = λ h i j. cc;
  unmarked = λ h on. refl;
  parents = λ h b e. refl;
  no_forks = λ h b e i.
      let none_at : contains (settled c.longest_chain) b.previous_hash ≡ false =
        ap (λ n. contains (take n c.longest_chain) b.previous_hash)
          (none_settled c.longest_chain short) in
      cc (i, none_at);
  no_others = λ h i. inl i;
}

-- Where no hash stands twice among the known blocks, none is "0", and the chain is a path of them
-- from "0", pruning returns. It keeps every block of the chain and marks none of them as pruned; any
-- other block it keeps or drops, what it drops is marked as pruned, and what it newly marks is a known
-- block off the chain. With a block that it keeps
-- it keeps its parent, if that was known, and where the parent is on the chain with two blocks of
-- the chain after it, the block is on the chain. It changes neither the chain, nor the pool, nor the
-- world state.
pub prune-IsPruned :
    (l : Ledger)
    → IsMap l.chain.blocks
    → HashMap.contains_key l.chain.blocks "0" ≡ false
    → Linked (branch_map l.chain.blocks) "0" l.chain.longest_chain
    → ((prune (branch_map l.chain.blocks) l).0 ≡ ok tt)
      × SameFollowed (prune (branch_map l.chain.blocks) l).1.chain l.chain
      × IsPruned l.chain.blocks l.chain.longest_chain l.chain.pruned
          (prune (branch_map l.chain.blocks) l).1.chain.blocks
          (prune (branch_map l.chain.blocks) l).1.chain.pruned
unfolding prune
prune-IsPruned l map no_genesis linked =
    elim (Bool-cases (ltb (length l.chain.longest_chain) execute_after_n_blocks)) [
      | inl short ↦
          rw (short) (refl, (refl, refl, refl, refl, refl, refl), same-IsPruned l.chain map short)
      | inr long ↦
          let (bin, e, all, closed, forks) =
            doomed_lem l.chain.blocks map no_genesis l.chain.longest_chain linked in
          rw (long, e)
            (
              refl,
              drop_blocks-SameFollowed bin l,
              drop_blocks-IsPruned bin l map l.chain.longest_chain all closed forks,
            )
    ]
