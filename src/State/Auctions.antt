-- ===== src/State/Auctions.antt =====
-- `auction_exists` of src/state.rs finds the creations of the executed part of the chain.
use p2p_auction.Prelude.{
  ℕ, zero, suc, get_elem?, String, ◌==◌, eq_iff, ◌≡◌, refl, sym, ap, ◌∙◌, inl, inr, true, none,
  some, List, [], ◌∷◌, arith, contains, Option-cases, Bool-cases, ◌↔◌,
}
use p2p_auction.HashMap
use p2p_auction.HashMap.{HashMap}
use p2p_auction.Transaction.{Block}
use p2p_auction.Blockchain.{confirmed, find_creation}
use p2p_auction.State.{State, blocks_of, find_block, auction_exists}

-- No known block under these hashes creates the auction.
abbrev pub NoCreation : String → HashMap Block → List String → Type 0
NoCreation auction_id blocks hs =
    (h : String) (b : Block)
    → contains hs h ≡ true
    → HashMap.get blocks h ≡ some b
    → find_creation auction_id b.transactions ≡ none

pub blocks_of-none :
    (blocks : HashMap Block) (h : String) (hs : List String)
    → HashMap.get blocks h ≡ none
    → blocks_of blocks (h ∷ hs) ≡ blocks_of blocks hs
unfolding blocks_of
blocks_of-none blocks h hs e = rw (blocks_of, e) refl

pub blocks_of-some :
    (blocks : HashMap Block) (h : String) (hs : List String) (b : Block)
    → HashMap.get blocks h ≡ some b
    → blocks_of blocks (h ∷ hs) ≡ b ∷ blocks_of blocks hs
unfolding blocks_of
blocks_of-some blocks h hs b e = rw (blocks_of, e) refl

find_block-cons :
    (auction_id : String) (b : Block) (bs : List Block)
    → (find_block auction_id (b ∷ bs) ≡ none)
      ↔ ((find_creation auction_id b.transactions ≡ none) × (find_block auction_id bs ≡ none))
unfolding find_block
find_block-cons auction_id b bs = ground arith

find_block-NoCreation :
    (auction_id : String) (blocks : HashMap Block) (hs : List String)
    → find_block auction_id (blocks_of blocks hs) ≡ none
    → NoCreation auction_id blocks hs
find_block-NoCreation auction_id blocks [] e h b i f = cc i
find_block-NoCreation auction_id blocks (k ∷ hs) e h b i f =
    elim (Option-cases (HashMap.get blocks k)) [
      | inl g ↦
          let rest = ap (find_block auction_id) (sym (blocks_of-none blocks k hs g)) ∙ e in
          elim (Bool-cases (k == h)) [
            | inl hit ↦ cc (f, g, ap (HashMap.get blocks) ((eq_iff k h).0 hit))
            | inr miss ↦ find_block-NoCreation auction_id blocks hs rest h b (ground arith) f
          ]
      | inr (x, g) ↦
          let (here, rest) =
            (find_block-cons auction_id x (blocks_of blocks hs)).0
              (ap (find_block auction_id) (sym (blocks_of-some blocks k hs x g)) ∙ e) in
          elim (Bool-cases (k == h)) [
            | inl hit ↦
                let same : x ≡ b = cc (f, g, ap (HashMap.get blocks) ((eq_iff k h).0 hit)) in
                ap (λ (y : Block). find_creation auction_id y.transactions) (sym same) ∙ here
            | inr miss ↦ find_block-NoCreation auction_id blocks hs rest h b (ground arith) f
          ]
    ]

NoCreation-find_block :
    (auction_id : String) (blocks : HashMap Block) (hs : List String)
    → NoCreation auction_id blocks hs
    → find_block auction_id (blocks_of blocks hs) ≡ none
unfolding find_block blocks_of
NoCreation-find_block auction_id blocks [] n = refl
NoCreation-find_block auction_id blocks (k ∷ hs) n =
    let rest = NoCreation-find_block auction_id blocks hs (λ h b i f. n h b (ground arith) f) in
    elim (Option-cases (HashMap.get blocks k)) [
      | inl g ↦ ap (find_block auction_id) (blocks_of-none blocks k hs g) ∙ rest
      | inr (x, g) ↦
          ap (find_block auction_id) (blocks_of-some blocks k hs x g)
          ∙ (find_block-cons auction_id x (blocks_of blocks hs)).1
              (n k x (ground (arith, eq_iff k k)) g, rest)
    ]

-- `auction_exists` answers with no hash exactly where no known block of the confirmed chain has a
-- transaction that creates the auction.
pub auction_exists_iff :
    (auction_id : String) (s : State)
    → (auction_exists auction_id s ≡ none)
      ↔ NoCreation auction_id s.blockchain.blocks (confirmed s.blockchain)
unfolding auction_exists
auction_exists_iff auction_id s = (
  λ e. find_block-NoCreation auction_id s.blockchain.blocks (confirmed s.blockchain) (ground arith),
  λ n.
      rw
        (
          auction_exists,
          NoCreation-find_block auction_id s.blockchain.blocks (confirmed s.blockchain) n,
        )
        refl,
)

-- A block that is found stands in the list of hashes.
pub find_block-place :
    (auction_id : String) (blocks : HashMap Block) (hs : List String) (b : Block)
    → find_block auction_id (blocks_of blocks hs) ≡ some b
    → (i : ℕ) × (h : String) × (get_elem? hs i ≡ some h) × (HashMap.get blocks h ≡ some b)
unfolding find_block
find_block-place auction_id blocks [] b e = unfold blocks_of in cc e
find_block-place auction_id blocks (k ∷ hs) b e = elim (Option-cases (HashMap.get blocks k)) [
  | inl g ↦
      let (i, h, at, f) =
        find_block-place auction_id blocks hs b
          (ap (find_block auction_id) (sym (blocks_of-none blocks k hs g)) ∙ e) in
      (suc i, h, at, f)
  | inr (x, g) ↦
      let here = ap (find_block auction_id) (sym (blocks_of-some blocks k hs x g)) ∙ e in
      elim (Option-cases (find_creation auction_id x.transactions)) [
        | inl none_here ↦
            let (i, h, at, f) = find_block-place auction_id blocks hs b (ground arith) in
            (suc i, h, at, f)
        | inr (t, made) ↦ (zero, k, refl, g ∙ ap some {x = x} {y = b} (ground arith))
      ]
]

-- The hash of an answer is that of the block that was found.
pub auction_exists-block :
    (auction_id : String) (s : State) (hash : String)
    → auction_exists auction_id s ≡ some hash
    → (b : Block) × (find_block auction_id (blocks_of s.blockchain.blocks (confirmed s.blockchain))
        ≡ some b)
      × (b.hash ≡ hash)
unfolding auction_exists
auction_exists-block auction_id s hash e =
    elim (Option-cases
      (find_block auction_id (blocks_of s.blockchain.blocks (confirmed s.blockchain)))) [
        | inl missing ↦ absurd (ground arith)
        | inr (b, found) ↦ (b, found, ground arith)
      ]
