-- ===== src/Blockchain/Fix/Agreement.antt =====
-- Nodes that know the same blocks follow the same chain after `fix` of src/blockchain.rs, in whatever order
-- their maps hold the blocks.
use p2p_auction.Prelude.{
  ℕ, zero, suc, String, ◌≡◌, refl, sym, ap, ◌∙◌, inl, inr, true, Option, none, some, List, [], ◌∷◌,
  arith, length, contains,
}
use p2p_auction.Env.{Env, IsLawful}
use p2p_auction.HashMap
use p2p_auction.HashMap.{HashMap}
use p2p_auction.Transaction.{Block}
use p2p_auction.Blockchain.{Ledger}
use p2p_auction.Blockchain.Branch.{branch_map}
use p2p_auction.Blockchain.Branch.Map.{IsMap, children-get}
use p2p_auction.Blockchain.Branch.Best.{Linked}
use p2p_auction.Blockchain.Branch.Compare.{number, last_of, Beats}
use p2p_auction.Blockchain.Branch.Paths.{last_of_part}
use p2p_auction.Blockchain.Valid.{IsValid, Linked-kept, Linked-known}
use p2p_auction.Blockchain.Fix.{fix}
use p2p_auction.Blockchain.Fix.Laws.{fix_lem, best-Linked}

-- The parent of a block, and the hashes that were passed on the way up.
abbrev Climb : Type 0
Climb = String × List String

abbrev parent : Option Block → String → String
parent none k = k
parent (some b) k = b.previous_hash

abbrev climb : HashMap Block → ℕ → Climb → Climb
climb blocks zero s = s
climb blocks (suc n) s =
    let (k, passed) = climb blocks n s in (parent (HashMap.get blocks k) k, k ∷ passed)

module _ (blocks : HashMap Block) (map : IsMap blocks) where
  -- From the end of a path, as many steps up as it is long pass it and lead to its start.
  climb_path :
      (h : String) (path : List String)
      → Linked (branch_map blocks) h path
      → climb blocks (length path) (last_of h path, []) ≡ (h, path)
  climb_path h [] l = refl
  climb_path h (c ∷ cs) l =
      let (b, f, g) = (children-get blocks h c map).0 l.0 in
      ap (λ (s : Climb). (parent (HashMap.get blocks s.0) s.0, s.0 ∷ s.1)) (climb_path c cs l.1)
      ∙ ap (λ k. (k, c ∷ cs)) (ap (λ o. parent o c) f ∙ g)

  -- Two paths from one hash that are as long and end in one block are the same.
  path_unique :
      (h : String) (p q : List String)
      → Linked (branch_map blocks) h p
      → Linked (branch_map blocks) h q
      → length p ≡ length q
      → last_of h p ≡ last_of h q
      → p ≡ q
  path_unique h p q k l same_length same_end =
      ap (λ (s : Climb). s.1)
        (sym (climb_path h p k)
          ∙ ap (λ n. climb blocks n (last_of h p, [])) same_length
          ∙ ap (λ e. climb blocks (length q) (e, [])) same_end
          ∙ climb_path h q l)

module _ ⦃env : Env⦄ where
  -- No two known blocks have hashes that are one number.
  abbrev pub HasNoTies : HashMap Block → Type 0
  HasNoTies blocks =
      (h k : String)
      → HashMap.contains_key blocks h ≡ true
      → HashMap.contains_key blocks k ≡ true
      → number h ≡ number k
      → h ≡ k

  -- Two paths that beat each other are the same.
  pub best_unique :
      (blocks : HashMap Block) (p q : List String)
      → IsMap blocks
      → HasNoTies blocks
      → Linked (branch_map blocks) "0" p
      → Linked (branch_map blocks) "0" q
      → Beats ("0" ∷ p) ("0" ∷ q)
      → Beats ("0" ∷ q) ("0" ∷ p)
      → p ≡ q
  best_unique blocks [] [] map apart k l over under = refl
  best_unique blocks [] (d ∷ ds) map apart k l over under = absurd (omega arith)
  best_unique blocks (c ∷ cs) [] map apart k l over under = absurd (omega arith)
  best_unique blocks (c ∷ cs) (d ∷ ds) map apart k l over under =
      path_unique blocks map "0" (c ∷ cs) (d ∷ ds) k l (omega arith) (
        apart (last_of c cs) (last_of d ds)
          (Linked-known blocks "0" (c ∷ cs) (last_of c cs) map k (ends c cs))
          (Linked-known blocks "0" (d ∷ ds) (last_of d ds) map l (ends d ds)) (omega arith))
    where
      ends : (c : String) (cs : List String) → contains (c ∷ cs) (last_of c cs) ≡ true
      ends c cs = elim (last_of_part "0" (c ∷ cs)) [ inl e ↦ cc e | inr on ↦ on ]

  -- Given `IsLawful`, two valid ledgers with the same known blocks, whose hashes are no ties as numbers,
  -- follow the same chain after `fix`, whatever chains they followed, and in whatever order their maps hold
  -- the blocks.
  pub fix_agrees :
      IsLawful env
      → (l l' : Ledger) → IsValid l.chain
      → IsValid l'.chain
      → ((h : String) → HashMap.get l.chain.blocks h ≡ HashMap.get l'.chain.blocks h)
      → HasNoTies l.chain.blocks
      → (fix l).1.chain.longest_chain ≡ (fix l').1.chain.longest_chain
  fix_agrees laws l l' v v' same apart =
      let (done, fixed) = fix_lem laws l v in
      let (done', fixed') = fix_lem laws l' v' in
      let p = (fix l).1.chain.longest_chain in
      let q = (fix l').1.chain.longest_chain in
      let k = best-Linked l.chain p fixed.best in
      let m = best-Linked l'.chain q fixed'.best in
      let k' : Linked (branch_map l'.chain.blocks) "0" p =
        Linked-kept l.chain.blocks l'.chain.blocks v.map v'.map "0" p (λ h on known. sym (same h))
          k in
      let m' : Linked (branch_map l.chain.blocks) "0" q =
        Linked-kept l'.chain.blocks l.chain.blocks v'.map v.map "0" q (λ h on known. same h) m in
      best_unique l.chain.blocks p q v.map apart k m' (fixed.best.best q m') (fixed'.best.best p k')
