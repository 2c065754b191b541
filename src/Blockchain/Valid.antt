-- ===== src/Blockchain/Valid.antt =====
-- The invariant of the chain of src/blockchain.rs between two calls of its methods.
use mathlib.Core.Path.{subst}
use p2p_auction.Prelude.{
  ℕ, ◌-◌, String, ◌==◌, eq_iff, ◌≡◌, refl, sym, ap, ◌∙◌, true, false, inl, inr, ◌⊎◌, some, List, [],
  ◌∷◌, arith, length, contains, Bool-cases, Option-cases,
}
use p2p_auction.Prelude.Result.{ok}
use p2p_auction.Env.{Env, IsLawful}
use p2p_auction.HashMap
use p2p_auction.HashMap.{HashMap}
use p2p_auction.HashMap.Laws.{contains_key-get, contains_key-insert, get-insert}
use p2p_auction.Hash
use p2p_auction.Block
use p2p_auction.Block.Laws.{verify-eq-true}
use p2p_auction.Pool.Room as Pool
use p2p_auction.Transaction.{Block}
use p2p_auction.Blockchain.{Blockchain, execute_after_n_blocks}
use p2p_auction.Blockchain.Branch.{BranchMap, children, branch_map}
use p2p_auction.Blockchain.Branch.Map.{IsMap, children-get}
use p2p_auction.Blockchain.Branch.Best.{Linked}
use p2p_auction.Blockchain.Branch.Hex.{IsHex}

-- A path stays a path where each of its links does.
pub Linked-map :
    (m n : BranchMap) (h : String) (path : List String)
    → ((p c : String)
        → contains path c ≡ true
        → contains (children m p) c ≡ true
        → contains (children n p) c ≡ true)
    → Linked m h path
    → Linked n h path
Linked-map m n h [] f l = tt
Linked-map m n h (c ∷ cs) f l = (
  f h c (ground (arith, eq_iff c c)) l.0,
  Linked-map m n c cs (λ p d i. f p d (ground arith)) l.1,
)

module _ (blocks blocks' : HashMap Block) (map : IsMap blocks) (map' : IsMap blocks') where
  -- A path survives where its blocks do.
  pub Linked-kept :
      (h : String) (path : List String)
      → ((c : String)
          → contains path c ≡ true
          → HashMap.contains_key blocks c ≡ true
          → HashMap.get blocks' c ≡ HashMap.get blocks c)
      → Linked (branch_map blocks) h path
      → Linked (branch_map blocks') h path
  Linked-kept h path same = Linked-map (branch_map blocks) (branch_map blocks') h path link
    where
      link :
          (p c : String)
          → contains path c ≡ true
          → contains (children (branch_map blocks) p) c ≡ true
          → contains (children (branch_map blocks') p) c ≡ true
      link p c on i =
          let (b, f, g) = (children-get blocks p c map).0 i in
          (children-get blocks' p c map').1
            (b, same c on (ground (arith, contains_key-get blocks c)) ∙ f, g)

pub insert-IsMap {ℓ} :
    {V : Type ℓ} (m : HashMap V) (k : String) (v : V) → IsMap m → IsMap (HashMap.insert m k v)
unfolding HashMap.insert
insert-IsMap [] k v d = (unfold HashMap.contains_key in refl, tt)
insert-IsMap ((j, w) ∷ m) k v d = elim (Bool-cases (j == k)) [
  | inl hit ↦ rw (hit) (d.0, d.1)
  | inr miss ↦ rw (miss) (
    ground (arith, contains_key-insert m k v j, eq_iff j k, eq_iff k j, d.0),
    insert-IsMap m k v d.1,
  )
]

-- The parent of the block is known, or is "0".
abbrev pub HasParent : HashMap Block → Block → Type 0
HasParent blocks b = (b.previous_hash ≡ "0") ⊎ (HashMap.contains_key blocks b.previous_hash ≡ true)

abbrev pub IsRooted : HashMap Block → Type 0
IsRooted blocks = (h : String) (b : Block) → HashMap.get blocks h ≡ some b → HasParent blocks b

insert-HasParent :
    (blocks : HashMap Block) (b x : Block)
    → HasParent blocks x
    → HasParent (HashMap.insert blocks b.hash b) x
insert-HasParent blocks b x (inl start) = inl start
insert-HasParent blocks b x (inr known) =
    inr (ground (arith, contains_key-insert blocks b.hash b x.previous_hash))

pub insert-IsRooted :
    (blocks : HashMap Block) (b : Block)
    → HasParent blocks b
    → IsRooted blocks
    → IsRooted (HashMap.insert blocks b.hash b)
insert-IsRooted blocks b parent rooted h b' e = elim (Bool-cases (b.hash == h)) [
  | inl hit ↦
      let same : b ≡ b' = ground (arith, get-insert blocks b.hash b h) in
      subst (HasParent (HashMap.insert blocks b.hash b)) same (insert-HasParent blocks b b parent)
  | inr miss ↦
      insert-HasParent blocks b b' (rooted h b' (ground (arith, get-insert blocks b.hash b h)))
]

-- A path in the branch map is one of known blocks.
pub Linked-known :
    (blocks : HashMap Block) (h : String) (path : List String) (c : String)
    → IsMap blocks
    → Linked (branch_map blocks) h path
    → contains path c ≡ true
    → HashMap.contains_key blocks c ≡ true
Linked-known blocks h [] c map l i = cc
Linked-known blocks h (d ∷ path) c map l i = elim (Bool-cases (d == c)) [
  | inl hit ↦
      let (b, e, g) = (children-get blocks h d map).0 l.0 in
      ground
        (arith, contains_key-get blocks d, ap (HashMap.contains_key blocks) ((eq_iff d c).0 hit))
  | inr miss ↦ Linked-known blocks d path c map l.1 (ground arith)
]

module _ ⦃env : Env⦄ where
  -- Each block stands under its own hash, and verifies.
  abbrev pub AllVerified : HashMap Block → Type 0
  AllVerified blocks =
      (h : String) (b : Block)
      → HashMap.get blocks h ≡ some b
      → (b.hash ≡ h) × (Block.verify b ≡ ok true)

  -- Every known block verifies, and has a known parent or "0"; the chain is a path of known blocks
  -- from "0"; what has two blocks of the chain after it is executed; the pool keeps its bound.
  pub record IsValid (c : Blockchain) : Type 0 where
    pub map : IsMap c.blocks
    pub verified : AllVerified c.blocks
    pub rooted : IsRooted c.blocks
    pub linked : Linked (branch_map c.blocks) "0" c.longest_chain
    pub commited : c.commited_pointer ≡ length c.longest_chain - execute_after_n_blocks
    pub pool : Pool.IsValid c.transaction_pool

  module _ (laws : IsLawful env) (blocks : HashMap Block) (verified : AllVerified blocks) where
    decode-encode_hash : (digest : List ℕ) → env.hex_decode (Hash.encode_hash digest) ≡ some digest
    unfolding Hash.encode_hash
    decode-encode_hash digest = laws.decode-encode digest

    pub known-IsHex : (h : String) → HashMap.contains_key blocks h ≡ true → IsHex h
    known-IsHex h k = elim (Option-cases (HashMap.get blocks h)) [
      | inl e ↦ absurd (ground (arith, contains_key-get blocks h))
      | inr (b, e) ↦
          let (same, v) = verified h b e in
          let (header, digest, p, q, s, encoded, r) = verify-eq-true b v in
          (digest, ap env.hex_decode (sym same ∙ encoded) ∙ decode-encode_hash digest)
    ]

    pub no_genesis : HashMap.contains_key blocks "0" ≡ false
    no_genesis = elim (Bool-cases (HashMap.contains_key blocks "0")) [
      | inr e ↦ e
      | inl e ↦ let (bytes, f) = known-IsHex "0" e in cc (f, laws.decode_zero)
    ]

  pub AllVerified-insert :
      (blocks : HashMap Block) (b : Block)
      → Block.verify b ≡ ok true
      → AllVerified blocks
      → AllVerified (HashMap.insert blocks b.hash b)
  AllVerified-insert blocks b v all h b' e = elim (Bool-cases (b.hash == h)) [
    | inl hit ↦
        let same : b ≡ b' = ground (arith, get-insert blocks b.hash b h) in
        subst (λ (x : Block). (x.hash ≡ h) × (Block.verify x ≡ ok true)) same
          ((eq_iff b.hash h).0 hit, v)
    | inr miss ↦ all h b' (ground (arith, get-insert blocks b.hash b h))
  ]
