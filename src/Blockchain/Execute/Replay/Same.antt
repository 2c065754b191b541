-- ===== src/Blockchain/Execute/Replay/Same.antt =====
-- The execution of src/blockchain.rs on two chains that hold the same world state, and the same blocks under
-- the hashes that it asks for.
use mathlib.Core.Path.{subst}
use p2p_auction.Prelude.{
  ℕ, String, ◌==◌, ◌≡◌, refl, sym, ap, ◌∙◌, inl, inr, Bool, true, false, some, List, arith,
  contains, nat_eq, not, Option-cases, Bool-cases, if◌then◌else◌,
}
use p2p_auction.Prelude.Result.{Result, ok, err, panic, message}
use p2p_auction.Prelude.Exec.{◌>>◌, lift, modify}
use p2p_auction.HashMap
use p2p_auction.HashMap.{HashMap}
use p2p_auction.HashMap.Laws.{get-insert, get-remove}
use p2p_auction.Transaction.{
  Data, Transaction, create_user_account, bid, create_auction as create_auction_data, stop_auction,
}
use p2p_auction.Blockchain
use p2p_auction.Blockchain.{
  Blockchain, Account, get_auction, create_account, create_auction, remove_auction,
}
use p2p_auction.Blockchain.Execute.{next_nonce, use_nonce, stops_early, execute_record}

-- One world state, whose auctions were created in blocks of these hashes, and under these the same blocks.
pub record IsSame (hashes : List String) (c d : Blockchain) : Type 0 where
  pub accounts : c.accounts ≡ d.accounts
  pub auctions : c.auctions ≡ d.auctions
  pub blocks :
      (h : String) → contains hashes h ≡ true → HashMap.get c.blocks h ≡ HashMap.get d.blocks h
  pub placed :
      (id block_id : String) (stop_time : ℕ)
      → HashMap.get c.auctions id ≡ some (block_id, stop_time)
      → contains hashes block_id ≡ true

module _ (hashes : List String) where
  get_auction-same :
      (c d : Blockchain) (id : String) → IsSame hashes c d → get_auction c id ≡ get_auction d id
  unfolding get_auction
  get_auction-same c d id s = elim (Option-cases (HashMap.get c.auctions id)) [
    | inl e ↦ ground (arith, ap (λ m. HashMap.get m id) s.auctions)
    | inr ((block_id, stop_time), e) ↦
        let same = s.blocks block_id (s.placed id block_id stop_time e) in
        ground (arith, ap (λ m. HashMap.get m id) s.auctions, ap (Blockchain.creation_in id) same)
  ]

  -- The result is the same, and the chains stay the same.
  abbrev pub SameResult : Result (Unit {0}) × Blockchain → Result (Unit {0}) × Blockchain → Type 0
  SameResult x y = (x.0 ≡ y.0) × IsSame hashes x.1 y.1

  with_accounts :
      (f : HashMap Account → HashMap Account) (c d : Blockchain)
      → IsSame hashes c d
      → IsSame hashes
          (record c { accounts = f (c.accounts) })
          (record d { accounts = f (d.accounts) })
  with_accounts f c d s = record {
    accounts = ap f s.accounts;
    auctions = s.auctions;
    blocks = s.blocks;
    placed = s.placed;
  }

  use_nonce-IsSame :
      (t : Transaction) (c d : Blockchain)
      → IsSame hashes c d
      → SameResult (use_nonce t c) (use_nonce t d)
  unfolding use_nonce
  use_nonce-IsSame t c d s =
      let e' = ap (λ m. HashMap.get m t.from) s.accounts in
      elim (Option-cases (HashMap.get c.accounts t.from)) [
        | inl e ↦ rw (use_nonce, e, sym e' ∙ e) (refl, s)
        | inr (account, e) ↦ elim (Bool-cases (nat_eq t.nonce account.nonce)) [
          | inr bad ↦ rw (use_nonce, e, sym e' ∙ e, bad) (refl, s)
          | inl good ↦
              rw (use_nonce, e, sym e' ∙ e, good)
                (
                  refl,
                  with_accounts
                      (λ m.
                        HashMap.insert m t.from
                          (record account { nonce = next_nonce account.nonce }))
                      c d s,
                )
        ]
      ]

  create_account-IsSame :
      (key : String) (c d : Blockchain)
      → IsSame hashes c d
      → SameResult (create_account key c) (create_account key d)
  unfolding create_account
  create_account-IsSame key c d s =
      let e' = ap (λ m. HashMap.contains_key m key) s.accounts in
      elim (Bool-cases (HashMap.contains_key c.accounts key)) [
        | inl e ↦ rw (create_account, e, sym e' ∙ e) (refl, s)
        | inr e ↦
            rw (create_account, e, sym e' ∙ e)
              (
                refl,
                with_accounts (λ m. HashMap.insert m key (record { public_key = key; nonce = 1 })) c
                    d s,
              )
      ]

  create_auction-IsSame :
      (id block_id : String) (stop_time : ℕ) (c d : Blockchain)
      → contains hashes block_id ≡ true
      → IsSame hashes c d
      → IsSame hashes
          (create_auction id block_id stop_time c)
          (create_auction id block_id stop_time d)
  unfolding create_auction
  create_auction-IsSame id block_id stop_time c d on s = record {
    accounts = s.accounts;
    auctions = ap (λ m. HashMap.insert m id (block_id, stop_time)) s.auctions;
    blocks = s.blocks;
    placed = λ j k n e. elim (Bool-cases (id == j)) [
      | inl hit ↦
          let same : (block_id ≡ k) × (stop_time ≡ n) =
            ground (arith, get-insert c.auctions id (block_id, stop_time) j) in
          cc (on, same.0)
      | inr miss ↦ s.placed j k n (ground (arith, get-insert c.auctions id (block_id, stop_time) j))
    ];
  }

  remove_auction-IsSame :
      (id : String) (c d : Blockchain)
      → IsSame hashes c d
      → IsSame hashes (remove_auction id c) (remove_auction id d)
  unfolding remove_auction
  remove_auction-IsSame id c d s = record {
    accounts = s.accounts;
    auctions = ap (λ m. HashMap.remove m id) s.auctions;
    blocks = s.blocks;
    placed = λ j k n e. s.placed j k n (ground (arith, get-remove c.auctions id j));
  }

  -- The nonce, and then a change that leaves the two chains the same.
  nonce_then-IsSame :
      (t : Transaction) (f : Blockchain → Blockchain) (c d : Blockchain)
      → ((x y : Blockchain) → IsSame hashes x y → IsSame hashes (f x) (f y))
      → IsSame hashes c d
      → SameResult ((use_nonce t >> modify f) c) ((use_nonce t >> modify f) d)
  nonce_then-IsSame t f c d keeps s =
      from (use_nonce t c) (use_nonce t d) (use_nonce-IsSame t c d s)
    where
      after : Result (Unit {0}) × Blockchain → Result (Unit {0}) × Blockchain
      after (r, x) = (lift r >> modify f) x

      at :
          (r : Result (Unit {0})) (x y : Blockchain)
          → IsSame hashes x y
          → SameResult (after (r, x)) (after (r, y))
      at (ok u) x y k = (refl, keeps x y k)
      at (err e) x y k = (refl, k)
      at (panic p) x y k = (refl, k)

      from :
          (x y : Result (Unit {0}) × Blockchain) → SameResult x y → SameResult (after x) (after y)
      from (r, x) (r', y) (e, k) =
          subst (λ q. SameResult (after (r, x)) (after (q, y))) e (at r x y k)

  if-same :
      (b : Bool) (x y x' y' : Result (Unit {0}) × Blockchain)
      → SameResult x y
      → SameResult x' y'
      → SameResult (if b then x else x') (if b then y else y')
  if-same true x y x' y' k l = k
  if-same false x y x' y' k l = l

  pub execute_record-IsSame :
      (data_ : Data) (t : Transaction) (h : String) (c d : Blockchain)
      → contains hashes h ≡ true
      → IsSame hashes c d
      → SameResult (execute_record data_ t h c) (execute_record data_ t h d)
  unfolding execute_record
  execute_record-IsSame (create_user_account key) t h c d on s =
      if-same (not (t.from == key)) (err (message "Create account sender mismatch."), c)
        (err (message "Create account sender mismatch."), d) _ _ (refl, s)
        (if-same (not (nat_eq t.nonce 0)) (err (message "Create account nonce must be 0."), c)
          (err (message "Create account nonce must be 0."), d) _ _ (refl, s)
          (create_account-IsSame key c d s))
  execute_record-IsSame (bid id amount) t h c d on s = use_nonce-IsSame t c d s
  execute_record-IsSame (create_auction_data id start stop_time) t h c d on s =
      nonce_then-IsSame t (create_auction id h stop_time) c d
        (λ x y r. create_auction-IsSame id h stop_time x y on r) s
  execute_record-IsSame (stop_auction id) t h c d on s =
      let found = get_auction-same c d id s in
      let early = stops_early t (get_auction c id) in
      let stopped = nonce_then-IsSame t (remove_auction id) c d (remove_auction-IsSame id) s in
      subst
        (λ o. SameResult (execute_record (stop_auction id) t h c) (
          if stops_early t o
          then (err (message "Only the creator can end the auction early."), d)
          else (use_nonce t >> modify (remove_auction id)) d))
        found
        (if-same early (err (message "Only the creator can end the auction early."), c)
          (err (message "Only the creator can end the auction early."), d) _ _ (refl, s) stopped)
