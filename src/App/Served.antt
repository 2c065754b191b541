-- ===== src/App/Served.antt =====
-- What a user sees of the chain of a node that walks it from block to block: `block_info` of src/state.rs at
-- the hashes of the chain.
use p2p_auction.Prelude.{
  take-contains, drop-some, drop-none, ℕ, zero, suc, ◌+◌, ◌-◌, ◌≤◌, ◌<◌, ltb, String, eq_iff, ◌≡◌,
  refl, ap, ◌∙◌, inl, inr, true, false, none, some, List, [], ◌∷◌, arith, length, take, drop,
  get_elem?, contains, if◌then◌else◌, Option-cases,
}
use p2p_auction.Prelude.Result.{Result, ok}
use p2p_auction.Env.{Env, IsLawful}
use p2p_auction.HashMap
use p2p_auction.HashMap.{HashMap}
use p2p_auction.HashMap.Laws.{contains_key-get}
use p2p_auction.Transaction.{Block}
use p2p_auction.Blockchain.{
  execute_after_n_blocks, confirmed, get_block_from_hash, get_next_block_hash_from_hash,
}
use p2p_auction.Blockchain.Branch.Depth.{IsDistinct}
use p2p_auction.Blockchain.Fix.Along.{chain-IsDistinct}
use p2p_auction.Blockchain.Valid.{IsValid, Linked-known, no_genesis}
use p2p_auction.State.Auctions.{blocks_of-some}
use p2p_auction.State.{State, TransactionRequest, block_info, blocks_of}
use p2p_auction.State.Responses.{block_message}
use p2p_auction.State.Walk.{get_next_block_hash_lem}
use p2p_auction.App.{served}

pub get_elem?-contains :
    (xs : List String) (i : ℕ) (x : String) → get_elem? xs i ≡ some x → contains xs x ≡ true
get_elem?-contains [] i x e = cc e
get_elem?-contains (y ∷ xs) zero x e = ground (arith, eq_iff y x)
get_elem?-contains (y ∷ xs) (suc i) x e = ground (arith, get_elem?-contains xs i x e)

pub get_elem?-take :
    (k i : ℕ) (xs : List String)
    → get_elem? (take k xs) i ≡ (if ltb i k then get_elem? xs i else none)
get_elem?-take zero i xs = ground arith
get_elem?-take (suc k) i [] = ground arith
get_elem?-take (suc k) zero (x ∷ xs) = ground arith
get_elem?-take (suc k) (suc i) (x ∷ xs) = ground (arith, get_elem?-take k i xs)

pub get_elem?-lt : (xs : List String) (i : ℕ) (x : String) → get_elem? xs i ≡ some x → i < length xs
get_elem?-lt [] i x e = cc e
get_elem?-lt (y ∷ xs) zero x e = omega arith
get_elem?-lt (y ∷ xs) (suc i) x e = omega (arith, get_elem?-lt xs i x e)

beyond_take :
    (k i : ℕ) (xs : List String) (x : String)
    → IsDistinct xs
    → get_elem? xs i ≡ some x
    → k ≤ i
    → contains (take k xs) x ≡ false
beyond_take zero i xs x d e n = refl
beyond_take (suc k) i [] x d e n = refl
beyond_take (suc k) zero (y ∷ xs) x d e n = absurd (omega arith)
beyond_take (suc k) (suc i) (y ∷ xs) x d e n =
    let later = beyond_take k i xs x d.1 e (omega arith) in
    ground (arith, get_elem?-contains xs i x e, eq_iff y x)

module _ ⦃env : Env⦄ (laws : IsLawful env) (answers : TransactionRequest → Result ℕ) (s : State)
    (v : IsValid s.blockchain) where
  abbrev chain : List String
  chain = s.blockchain.longest_chain

  distinct : IsDistinct chain
  distinct =
      (chain-IsDistinct s.blockchain.blocks v.map (no_genesis laws s.blockchain.blocks v.verified)
        chain v.linked).1

  -- A confirmed block is served, with the hash that follows it on the chain.
  pub inside :
      (i : ℕ) (h : String)
      → get_elem? (confirmed s.blockchain) i ≡ some h
      → (b : Block) × (HashMap.get s.blockchain.blocks h ≡ some b)
        × ((served answers s).block_info h ≡ ok (some (block_message b, get_elem? chain (suc i))))
  unfolding block_info block_message
  inside i h e = elim (Option-cases (HashMap.get s.blockchain.blocks h)) [
    | inl missing ↦ absurd (ground (arith, contains_key-get s.blockchain.blocks h, known))
    | inr (b, g) ↦
        let found : get_block_from_hash s.blockchain h ≡ some b =
          unfold get_block_from_hash in rw on g in
        let next : get_next_block_hash_from_hash s.blockchain b.hash ≡ get_elem? chain (suc i) =
          ap (get_next_block_hash_from_hash s.blockchain) (v.verified h b g).0
          ∙ get_next_block_hash_lem s.blockchain i h distinct e
          ∙ ap (get_elem? chain) {x = i + 1} {y = suc i} (omega arith) in
        (b, g, block_info_run b found next)
  ]
    where
      on : contains (confirmed s.blockchain) h ≡ true
      on = get_elem?-contains (confirmed s.blockchain) i h e

      known : HashMap.contains_key s.blockchain.blocks h ≡ true
      known =
          Linked-known s.blockchain.blocks "0" chain h v.map v.linked
            (unfold confirmed in take-contains (length chain - execute_after_n_blocks) chain h on)

      block_info_run :
          (b : Block)
          → get_block_from_hash s.blockchain h ≡ some b
          → get_next_block_hash_from_hash s.blockchain b.hash ≡ get_elem? chain (suc i)
          → (served answers s).block_info h ≡ ok (some (block_message b, get_elem? chain (suc i)))
      block_info_run b found next = rw (block_info, found, next) refl

  -- No other block of the chain is.
  pub beyond :
      (i : ℕ) (h : String)
      → get_elem? chain i ≡ some h
      → get_elem? (confirmed s.blockchain) i ≡ none
      → (served answers s).block_info h ≡ ok none
  unfolding block_info
  beyond i h e f =
      let off : contains (confirmed s.blockchain) h ≡ false =
        unfold confirmed in
        beyond_take (length chain - execute_after_n_blocks) i chain h distinct e (outside f) in
      let missing : get_block_from_hash s.blockchain h ≡ none =
        unfold get_block_from_hash in rw off refl in
      rw (block_info, missing) refl
    where
      outside :
          get_elem? (confirmed s.blockchain) i ≡ none → length chain - execute_after_n_blocks ≤ i
      outside g =
          let at = get_elem?-take (length chain - execute_after_n_blocks) i chain in
          unfold confirmed in ground arith

  -- What is confirmed stands at the same place of the chain.
  pub confirmed-get :
      (i : ℕ) → get_elem? chain i ≡ none → get_elem? (confirmed s.blockchain) i ≡ none
  unfolding confirmed
  confirmed-get i e =
      let at = get_elem?-take (length chain - execute_after_n_blocks) i chain in ground arith

  pub confirmed-same :
      (i : ℕ) (h h' : String)
      → get_elem? chain i ≡ some h
      → get_elem? (confirmed s.blockchain) i ≡ some h'
      → h' ≡ h
  unfolding confirmed
  confirmed-same i h h' e f =
      let at = get_elem?-take (length chain - execute_after_n_blocks) i chain in ground arith

-- The blocks under what is left of the hashes.
pub rest-some :
    (blocks : HashMap Block) (hs : List String) (i : ℕ) (h : String) (b : Block)
    → get_elem? hs i ≡ some h
    → HashMap.get blocks h ≡ some b
    → blocks_of blocks (drop i hs) ≡ b ∷ blocks_of blocks (drop (suc i) hs)
rest-some blocks hs i h b e g =
    ap (blocks_of blocks) (drop-some hs i h e) ∙ blocks_of-some blocks h (drop (suc i) hs) b g

pub rest-none :
    (blocks : HashMap Block) (hs : List String) (i : ℕ)
    → get_elem? hs i ≡ none
    → blocks_of blocks (drop i hs) ≡ []
rest-none blocks hs i e = ap (blocks_of blocks) (drop-none hs i e) ∙ unfold blocks_of in refl
