-- ===== src/Blockchain/Branch/Map.antt =====
-- What the branch map of `fix` holds: under each hash the blocks that name it as their parent.
use p2p_auction.Prelude.{
  String, ◌==◌, eq_iff, ◌≡◌, refl, Bool, true, false, ◌&&◌, ◌||◌, some, List, [], ◌∷◌, ◌++◌, arith,
  contains, contains-append, if◌then◌else◌, Bool-cases, inl, inr, ◌↔◌,
}
use p2p_auction.HashMap
use p2p_auction.HashMap.{HashMap}
use p2p_auction.HashMap.Laws.{get-insert, contains_key-get}
use p2p_auction.Transaction.{Block}
use p2p_auction.Blockchain.Branch.{BranchMap, add_branch, add_branches, branch_map, children}

-- Some entry of the list has this key, and names this parent.
pub names : HashMap Block → String → String → Bool
names [] h c = false
names ((k, b) ∷ blocks) h c = ((b.previous_hash == h) && (k == c)) || names blocks h c

add_branch-insert :
    (m : BranchMap) (k : String) (b : Block)
    → add_branch m k b ≡ HashMap.insert m b.previous_hash (children m b.previous_hash ++ k ∷ [])
unfolding children add_branch
add_branch-insert m k b = ground arith

children-insert :
    (m : BranchMap) (h : String) (v : List String) (j : String)
    → children (HashMap.insert m h v) j ≡ (if h == j then v else children m j)
unfolding children
children-insert m h v j = rw (get-insert m h v j) (ground arith)

children-add_branch :
    (m : BranchMap) (k : String) (b : Block) (h c : String)
    → contains (children (add_branch m k b) h) c
      ≡ (contains (children m h) c || ((b.previous_hash == h) && (k == c)))
children-add_branch m k b h c =
    rw (add_branch-insert m k b, children-insert m b.previous_hash)
      (ground
        (arith, eq_iff b.previous_hash h, contains-append (children m b.previous_hash) (k ∷ []) c))

children-add_branches :
    (m : BranchMap) (blocks : HashMap Block) (h c : String)
    → contains (children (add_branches m blocks) h) c
      ≡ (contains (children m h) c || names blocks h c)
unfolding add_branches names
children-add_branches m [] h c = ground arith
children-add_branches m ((k, b) ∷ blocks) h c =
    ground
      (arith, children-add_branches (add_branch m k b) blocks h c, children-add_branch m k b h c)

children-branch_map :
    (blocks : HashMap Block) (h c : String)
    → contains (children (branch_map blocks) h) c ≡ names blocks h c
unfolding branch_map
children-branch_map blocks h c = ground (arith, children-add_branches [] blocks h c, empty h c)
  where
    empty : (h c : String) → contains (children [] h) c ≡ false
    empty h c = unfold children HashMap.get in refl

-- No key stands twice, as in any map.
abbrev pub IsMap {ℓ} : {V : Type ℓ} → HashMap V → Type 0
IsMap [] = Unit
IsMap ((k, v) ∷ m) = (HashMap.contains_key m k ≡ false) × IsMap m

names-eq-true :
    (blocks : HashMap Block) (h c : String)
    → IsMap blocks
    → names blocks h c ≡ true
    → (b : Block) × (HashMap.get blocks c ≡ some b) × (b.previous_hash ≡ h)
unfolding names HashMap.get
names-eq-true [] h c d e = cc
names-eq-true ((k, b) ∷ blocks) h c d e = elim (Bool-cases ((b.previous_hash == h) && (k == c))) [
  | inl q ↦ (b, ground arith, ground (arith, eq_iff b.previous_hash h))
  | inr q ↦
      let (b', f, g) = names-eq-true blocks h c d.1 (ground arith) in
      (b', ground (arith, eq_iff k c, contains_key-get blocks c), g)
]

names_of_get :
    (blocks : HashMap Block) (c : String) {b : Block}
    → HashMap.get blocks c ≡ some b
    → names blocks b.previous_hash c ≡ true
unfolding names HashMap.get
names_of_get [] c e = cc
names_of_get ((k, b) ∷ blocks) c {b = b'} e =
    ground (arith, eq_iff b.previous_hash b'.previous_hash, names_of_get blocks c {b = b'})

-- Where no hash stands twice among the blocks, the children of a hash in the branch map are the
-- blocks that name it as their parent.
pub children-get :
    (blocks : HashMap Block) (h c : String)
    → IsMap blocks
    → (contains (children (branch_map blocks) h) c ≡ true)
      ↔ ((b : Block) × (HashMap.get blocks c ≡ some b) × (b.previous_hash ≡ h))
children-get blocks h c d = (
  λ e. names-eq-true blocks h c d (rw (children-branch_map blocks h c) at e),
  λ (b, f, g). rw (children-branch_map blocks h c, ← g) (names_of_get blocks c f),
)
