-- ===== src/Blockchain/Accept/Checks.antt =====
-- The checks of `accept_block` of src/blockchain.rs, and what a block that passes them adds to the chain.
use p2p_auction.Prelude.{
  String, ◌==◌, eq_iff, eq_self, ◌≡◌, refl, sym, ap, ◌∙◌, inl, inr, Bool, true, false, not, some,
  List, [], ◌∷◌, arith, contains, Bool-cases, ◌↔◌,
}
use p2p_auction.Prelude.Result.{
  ok, Error, accept_block as accept_error, duplicate, pruned, pruned_parent, invalid_hash, orphan,
  >>=-eq-ok,
}
use p2p_auction.Env.{Env}
use p2p_auction.HashMap
use p2p_auction.HashMap.{HashMap}
use p2p_auction.HashMap.Laws.{contains_key-get, get-insert}
use p2p_auction.Block
use p2p_auction.Block.Laws.{verify-eq-true}
use p2p_auction.Transaction.{Block}
use p2p_auction.Blockchain.{Blockchain}
use p2p_auction.Blockchain.Branch.{branch_map}
use p2p_auction.Blockchain.Branch.Map.{IsMap, children-get}
use p2p_auction.Blockchain.Branch.Best.{Linked}
use p2p_auction.Blockchain.Valid.{
  HasParent, insert-IsRooted, IsValid, AllVerified-insert, insert-IsMap, Linked-kept,
}
use p2p_auction.Blockchain.Accept.{
  any_hash, refuse, has_previous_block, push_block, verify_hash, verify_hashes, verify, check_block,
}

pub refuse-eq-ok : (b : Bool) (e : Error) → refuse b e ≡ ok tt → b ≡ false
refuse-eq-ok true e p = cc
refuse-eq-ok false e p = refl

module _ ⦃env : Env⦄ where
  verify_hash_lem :
      (blocks : HashMap Block) (h : String) (b : Block)
      → HashMap.get blocks h ≡ some b
      → Block.verify b ≡ ok true
      → verify_hash blocks h ≡ ok tt
  unfolding verify_hash
  verify_hash_lem blocks h b e g = rw (e, g, verify_hash) refl

  verify_hashes-Linked :
      (c : Blockchain) (h : String) (path : List String)
      → IsValid c
      → Linked (branch_map c.blocks) h path
      → verify_hashes c.blocks path ≡ ok tt
  unfolding verify_hashes
  verify_hashes-Linked c h [] v l = refl
  verify_hashes-Linked c h (d ∷ path) v l =
      let (b, e, f) = (children-get c.blocks h d v.map).0 l.0 in
      let (same, g) = v.verified d b e in
      rw (verify_hash_lem c.blocks d b e g) (verify_hashes-Linked c d path v l.1)

  -- The chain of a valid ledger passes `verify`: each of its blocks is known and verifies.
  pub verify-IsValid : (c : Blockchain) → IsValid c → verify c ≡ ok tt
  unfolding verify
  verify-IsValid c v = verify_hashes-Linked c "0" c.longest_chain v v.linked

  -- What is asked of a block.
  pub record IsAcceptable (block : Block) (c : Blockchain) : Type 0 where
    pub new_hash : HashMap.contains_key c.blocks block.hash ≡ false
    pub not_pruned : contains c.pruned block.hash ≡ false
    pub parent_not_pruned : contains c.pruned block.previous_hash ≡ false
    pub verified : Block.verify block ≡ ok true
    pub parent_known : has_previous_block block.previous_hash c ≡ true

  -- On a valid ledger, the checks of `accept_block` pass exactly for a block that is new, is not
  -- pruned, whose parent is not pruned, that verifies, and whose parent is known or "0".
  pub check_block_iff :
      (block : Block) (c : Blockchain)
      → IsValid c
      → (check_block block c ≡ ok tt) ↔ IsAcceptable block c
  unfolding check_block
  check_block_iff block c v = (accepted, passes)
    where
      accepted : check_block block c ≡ ok tt → IsAcceptable block c
      accepted e =
          let (u1, p1, e1) =
            >>=-eq-ok (refuse (HashMap.contains_key c.blocks block.hash) (accept_error duplicate)) _
              e in
          let (u2, p2, e2) =
            >>=-eq-ok (refuse (contains c.pruned block.hash) (accept_error pruned)) _ e1 in
          let (u3, p3, e3) =
            >>=-eq-ok (refuse (contains c.pruned block.previous_hash) (accept_error pruned_parent))
              _ e2 in
          let (valid, p4, e4) = >>=-eq-ok (Block.verify block) _ e3 in
          let (u5, p5, e5) = >>=-eq-ok (refuse (not valid) (accept_error invalid_hash)) _ e4 in
          let (u6, p6, e6) =
            >>=-eq-ok
              (refuse (not (has_previous_block block.previous_hash c)) (accept_error orphan)) _
              e5 in
          record {
            new_hash = refuse-eq-ok _ (accept_error duplicate) p1;
            not_pruned = refuse-eq-ok _ (accept_error pruned) p2;
            parent_not_pruned = refuse-eq-ok _ (accept_error pruned_parent) p3;
            verified =
                p4
                ∙ ap ok (ground (arith, refuse-eq-ok (not valid) (accept_error invalid_hash) p5));
            parent_known = ground (
              arith,
              refuse-eq-ok (not (has_previous_block block.previous_hash c)) (accept_error orphan)
                  p6,
            );
          }

      passes : IsAcceptable block c → check_block block c ≡ ok tt
      passes a =
          let (header, digest, p, q, s, encoded, root) = verify-eq-true block a.verified in
          rw
            (
              a.new_hash,
              a.not_pruned,
              a.parent_not_pruned,
              a.verified,
              a.parent_known,
              root,
              eq_self block.merkle_root,
            )
            (verify-IsValid c v)

  any_hash-eq-true :
      (blocks : HashMap Block) (h : String)
      → IsMap blocks
      → any_hash h (HashMap.values blocks) ≡ true
      → (k : String) × (b : Block) × (HashMap.get blocks k ≡ some b) × (b.hash ≡ h)
  unfolding any_hash HashMap.values
  any_hash-eq-true [] h map e = cc
  any_hash-eq-true ((k, b) ∷ blocks) h map e = elim (Bool-cases (b.hash == h)) [
    | inl hit ↦ (k, b, unfold HashMap.get in ground (arith, eq_iff k k), (eq_iff b.hash h).0 hit)
    | inr miss ↦
        let (j, b', f, g) = any_hash-eq-true blocks h map.1 (ground arith) in
        (j, b', get-cons k b blocks j b' map.0 f, g)
  ]
    where
      get-cons :
          (k : String) (b : Block) (blocks : HashMap Block) (j : String) (b' : Block)
          → HashMap.contains_key blocks k ≡ false
          → HashMap.get blocks j ≡ some b'
          → HashMap.get ((k, b) ∷ blocks) j ≡ some b'
      get-cons k b blocks j b' new f =
          unfold HashMap.get in ground (arith, eq_iff k j, contains_key-get blocks j)

  -- A parent that `has_previous_block` finds is known, or is "0".
  pub parent-known :
      (b : Block) (c : Blockchain)
      → IsValid c
      → has_previous_block b.previous_hash c ≡ true
      → HasParent c.blocks b
  unfolding has_previous_block
  parent-known b c v e = elim (Bool-cases (b.previous_hash == "0")) [
    | inl start ↦ inl ((eq_iff b.previous_hash "0").0 start)
    | inr other ↦
        let (k, b', f, g) = any_hash-eq-true c.blocks b.previous_hash v.map (ground arith) in
        let (same, good) = v.verified k b' f in
        inr (
          ap (HashMap.contains_key c.blocks) (sym g ∙ same)
          ∙ ground (arith, contains_key-get c.blocks k))
  ]

  pub push_block-IsValid :
      (b : Block) (c : Blockchain)
      → IsValid c
      → HashMap.contains_key c.blocks b.hash ≡ false
      → HasParent c.blocks b
      → Block.verify b ≡ ok true
      → IsValid (push_block b c)
  unfolding push_block
  push_block-IsValid b c v new parent good = record {
    map = insert-IsMap c.blocks b.hash b v.map;
    verified = AllVerified-insert c.blocks b good v.verified;
    rooted = insert-IsRooted c.blocks b parent v.rooted;
    linked =
        Linked-kept c.blocks (HashMap.insert c.blocks b.hash b) v.map
          (insert-IsMap c.blocks b.hash b v.map) "0" c.longest_chain
          (λ h on known. ground (
            arith,
            get-insert c.blocks b.hash b h,
            ap (HashMap.contains_key c.blocks) {x = b.hash} {y = h},
            eq_iff b.hash h,
          ))
          v.linked;
    commited = v.commited;
    pool = v.pool;
  }
