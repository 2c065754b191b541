-- ===== src/Network/Sync.antt =====
-- One round by which a node asks a peer for the blocks that it lacks.
use p2p_auction.Prelude.{
  String, eq_iff, ◌≡◌, refl, inl, inr, true, List, [], ◌∷◌, map, arith, Option-cases, contains,
}
use p2p_auction.Prelude.Result.{Result}
use p2p_auction.Env.{Env}
use p2p_auction.PeerEnv.{PeerEnv}
use p2p_auction.HashMap
use p2p_auction.HashMap.{HashMap}
use p2p_auction.HashMap.Laws.{contains_key-get}
use p2p_auction.Transaction.{Block}
use p2p_auction.Blockchain.Valid.{IsValid, AllVerified, Linked-known}
use p2p_auction.State.{State, blocks_of}
use p2p_auction.Network.{longest_chain_blocks, chain_blocks, respond}

abbrev hash_of : Block → String
hash_of b = b.hash

module _ ⦃env : Env⦄ where
  blocks_of_hashes :
      (blocks : HashMap Block) (hs : List String)
      → AllVerified blocks
      → ((h : String) → contains hs h ≡ true → HashMap.contains_key blocks h ≡ true)
      → map hash_of (blocks_of blocks hs) ≡ hs
  unfolding blocks_of
  blocks_of_hashes blocks [] all known = refl
  blocks_of_hashes blocks (h ∷ hs) all known = elim (Option-cases (HashMap.get blocks h)) [
    | inl e ↦ absurd (ground (arith, eq_iff h h, known h, contains_key-get blocks h))
    | inr (b, e) ↦
        let rest = blocks_of_hashes blocks hs all (λ k i. known k (ground arith)) in
        let (same, v) = all h b e in rw (blocks_of, e) (cc (same, rest))
  ]

  chain-known :
      (s : State) (h : String)
      → IsValid s.blockchain
      → contains s.blockchain.longest_chain h ≡ true
      → HashMap.contains_key s.blockchain.blocks h ≡ true
  chain-known s h v i =
      Linked-known s.blockchain.blocks "0" s.blockchain.longest_chain h v.map v.linked i

  -- A node with a valid chain answers the request for its blocks with exactly the blocks of its chain, in order.
  chain_blocks_lem :
      (s : State)
      → IsValid s.blockchain
      → (bs : List Block) × (respond longest_chain_blocks s ≡ chain_blocks bs)
        × (map hash_of bs ≡ s.blockchain.longest_chain)
  unfolding respond
  chain_blocks_lem s v = (
    blocks_of s.blockchain.blocks s.blockchain.longest_chain,
    refl,
    blocks_of_hashes s.blockchain.blocks s.blockchain.longest_chain v.verified
        (λ h. chain-known s h v),
  )
