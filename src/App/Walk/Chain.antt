-- ===== src/App/Walk/Chain.antt =====
-- The loops of src/bin/app.rs over the blocks of a node, on the blocks that a node serves.
use mathlib.Core.Path.{fun_ext}
use p2p_auction.Prelude.{
  ℕ, zero, suc, ◌+◌, ◌≤◌, String, ◌≡◌, refl, sym, ap, ◌∙◌, inl, inr, Option, none, some, List, [],
  ◌∷◌, arith, length, drop, get_elem?, Option-cases,
}
use p2p_auction.Prelude.Result.{Result, ok, ◌>>=◌}
use p2p_auction.Env.{Env, IsLawful}
use p2p_auction.Transaction.{Block}
use p2p_auction.Blockchain.{confirmed}
use p2p_auction.Blockchain.Valid.{IsValid}
use p2p_auction.State.{State, TransactionRequest, blocks_of}
use p2p_auction.State.Responses.{TransactionMessage, transaction_messages, block_message}
use p2p_auction.App.{served}
use p2p_auction.App.Served.{
  inside, beyond, confirmed-get, confirmed-same, rest-some, rest-none, get_elem?-lt,
}
use p2p_auction.App.Walk.{on_next, on_answer, walk}

-- The fold over blocks one after another, up to the first that ends it.
unfoldable pub fold_blocks :
    {A : Type 0} → (A → List TransactionMessage → Result A) → A → List Block → Result A
fold_blocks step acc [] = ok acc
fold_blocks step acc (b ∷ bs) =
    step acc (transaction_messages b.transactions) >>= λ acc'. fold_blocks step acc' bs

-- The blocks of the chain that are confirmed, from a position on.
abbrev pub rest_from : State → ℕ → List Block
rest_from s i = blocks_of s.blockchain.blocks (drop i (confirmed s.blockchain))

module _ ⦃env : Env⦄ (laws : IsLawful env) (answers : TransactionRequest → Result ℕ) (s : State)
    (v : IsValid s.blockchain) {A : Type 0} (fails : A → Result A)
    (step : A → List TransactionMessage → Result A) where
  ends :
      (fuel : ℕ) (h : String) (acc : A)
      → 1 ≤ fuel
      → (served answers s).block_info h ≡ ok none
      → walk fails step fuel (served answers s) h acc ≡ ok acc
  unfolding walk
  ends zero h acc n e = absurd (omega arith)
  ends (suc fuel) h acc n e =
      ap (on_answer fails step (walk fails step fuel (served answers s)) acc) e

  -- The walk goes on at the next place of the chain, or it ends.
  goes_on :
      (fuel : ℕ) (i : ℕ) (h : String) (acc : A)
      → get_elem? (confirmed s.blockchain) i ≡ some h
      → length (confirmed s.blockchain) + 1 ≤ suc fuel + i
      → ((h' : String)
          → get_elem? (confirmed s.blockchain) (suc i) ≡ some h'
          → walk fails step fuel (served answers s) h' acc
            ≡ fold_blocks step acc (rest_from s (suc i)))
      → on_next fails step
          (walk fails step fuel (served answers s))
          acc
          (get_elem? s.blockchain.longest_chain (suc i))
        ≡ fold_blocks step acc (rest_from s (suc i))
  unfolding on_next fold_blocks
  goes_on fuel i h acc e n rest = split (get_elem? s.blockchain.longest_chain (suc i)) refl
    where
      none_left :
          get_elem? (confirmed s.blockchain) (suc i) ≡ none
          → ok acc ≡ fold_blocks step acc (rest_from s (suc i))
      none_left f = sym (
          ap (fold_blocks step acc)
            (rest-none s.blockchain.blocks (confirmed s.blockchain) (suc i) f))

      split :
          (o : Option String)
          → get_elem? s.blockchain.longest_chain (suc i) ≡ o
          → on_next fails step (walk fails step fuel (served answers s)) acc o
            ≡ fold_blocks step acc (rest_from s (suc i))
      split none f = none_left (confirmed-get laws answers s v (suc i) f)
      split (some h') f = elim (Option-cases (get_elem? (confirmed s.blockchain) (suc i))) [
        | inr (x, g) ↦
            let same = confirmed-same laws answers s v (suc i) h' x f g in
            rest h' (g ∙ ap some same)
        | inl g ↦
            ends fuel h' acc (omega (arith, get_elem?-lt (confirmed s.blockchain) i h e))
              (beyond laws answers s v (suc i) h' f g)
            ∙ none_left g
      ]

  -- Given `IsLawful`, on what a node with a valid chain serves, the walk from a confirmed block
  -- ends, with fuel for one block more than are confirmed, and it has folded exactly the confirmed blocks
  -- from that one on, in their order.
  pub walk-fold :
      (fuel : ℕ) (i : ℕ) (h : String) (acc : A)
      → get_elem? (confirmed s.blockchain) i ≡ some h
      → length (confirmed s.blockchain) + 1 ≤ fuel + i
      → walk fails step fuel (served answers s) h acc ≡ fold_blocks step acc (rest_from s i)
  unfolding walk fold_blocks
  walk-fold zero i h acc e n = absurd (omega (arith, get_elem?-lt (confirmed s.blockchain) i h e))
  walk-fold (suc fuel) i h acc e n =
      let (b, g, answer) = inside laws answers s v i h e in
      let rest = walk fails step fuel (served answers s) in
      ap (on_answer fails step rest acc) answer
      ∙ ap (λ f. step acc (block_message b).transactions >>= f)
          (fun_ext (λ (acc' : A).
            goes_on fuel i h acc' e n (λ h' f. walk-fold fuel (suc i) h' acc' f (omega arith))))
      ∙ unfold block_message in
        ap (fold_blocks step acc)
          (sym (rest-some s.blockchain.blocks (confirmed s.blockchain) i h b e g))
