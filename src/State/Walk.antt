-- ===== src/State/Walk.antt =====
-- A client of src/state.rs that asks for block after block walks the chain.
use p2p_auction.Prelude.{
  ℕ, zero, suc, ◌+◌, ◌-◌, String, ◌==◌, eq_iff, ◌≡◌, refl, sym, ap, ◌∙◌, false, Option, none, some,
  List, [], ◌∷◌, arith, length, take, get_elem?, contains, if◌then◌else◌,
}
use p2p_auction.Blockchain.{
  Blockchain, execute_after_n_blocks, confirmed, position_after, get_next_block_hash_from_hash,
}
use p2p_auction.Blockchain.Branch.Depth.{IsDistinct}

position_after-absent :
    (h : String) (n : ℕ) (acc : Option ℕ) (xs : List String)
    → contains xs h ≡ false
    → position_after h n acc xs ≡ acc
unfolding position_after
position_after-absent h n acc [] e = refl
position_after-absent h n acc (x ∷ xs) e =
    ground (arith, position_after-absent h (n + 1) (if x == h then some (n + 1) else acc) xs)

position_after-at :
    (h : String) (n : ℕ) (acc : Option ℕ) (xs : List String) (i : ℕ)
    → IsDistinct xs
    → get_elem? xs i ≡ some h
    → position_after h n acc xs ≡ some (n + (i + 1))
unfolding position_after
position_after-at h n acc [] i d e = cc e
position_after-at h n acc (x ∷ xs) zero d e =
    let hit : x ≡ h = cc e in
    position_after-absent h (n + 1) (if x == h then some (n + 1) else acc) xs
      (ap (contains xs) (sym hit) ∙ d.0)
    ∙ ground (arith, eq_iff x h)
position_after-at h n acc (x ∷ xs) (suc i) d e =
    position_after-at h (n + 1) (if x == h then some (n + 1) else acc) xs i d.1 e
    ∙ ap some {x = (n + 1) + (i + 1)} {y = n + (suc i + 1)} (omega arith)

take-absent :
    (k : ℕ) (xs : List String) (x : String) → contains xs x ≡ false → contains (take k xs) x ≡ false
take-absent zero xs x e = refl
take-absent (suc k) [] x e = refl
take-absent (suc k) (y ∷ xs) x e = ground (arith, take-absent k xs x)

take-IsDistinct : (k : ℕ) (xs : List String) → IsDistinct xs → IsDistinct (take k xs)
take-IsDistinct zero xs d = tt
take-IsDistinct (suc k) [] d = tt
take-IsDistinct (suc k) (x ∷ xs) d = (take-absent k xs x d.0, take-IsDistinct k xs d.1)

-- On a chain of distinct hashes, the hash that follows the confirmed block at a position is the one at the
-- next position of the chain, if it has one.
pub get_next_block_hash_lem :
    (c : Blockchain) (i : ℕ) (h : String)
    → IsDistinct c.longest_chain
    → get_elem? (confirmed c) i ≡ some h
    → get_next_block_hash_from_hash c h ≡ get_elem? c.longest_chain (i + 1)
unfolding get_next_block_hash_from_hash confirmed
get_next_block_hash_lem c i h d e =
    rw
      (
        get_next_block_hash_from_hash,
        position_after-at h 0 none (confirmed c) i
            (take-IsDistinct (length c.longest_chain - execute_after_n_blocks) c.longest_chain d) e,
      )
      (ap (get_elem? c.longest_chain) {x = 0 + (i + 1)} {y = i + 1} (omega arith))
