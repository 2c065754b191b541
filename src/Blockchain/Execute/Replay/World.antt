-- ===== src/Blockchain/Execute/Replay/World.antt =====
-- The world state that the settled part of a chain of src/blockchain.rs leads to.
use mathlib.Core.Path.{subst}
use p2p_auction.Prelude.{
  String, eq_iff, ◌≡◌, refl, sym, ap, ◌∙◌, true, Option, none, some, List, [], ◌∷◌, ◌++◌, arith,
  contains, contains-append,
}
use p2p_auction.Prelude.Result.{Result, ok, err, panic}
use p2p_auction.Prelude.Exec.{◌>>◌, lift}
use p2p_auction.Env.{Env}
use p2p_auction.HashMap
use p2p_auction.HashMap.{HashMap}
use p2p_auction.Transaction.{Transaction, Block}
use p2p_auction.Transaction.Signing
use p2p_auction.Blockchain
use p2p_auction.Blockchain.{Blockchain}
use p2p_auction.Blockchain.Execute.{execute_record, execute_single_transaction}
use p2p_auction.Blockchain.Execute.Frame.{execute_single_transaction-SameBlocks}
use p2p_auction.Blockchain.Execute.Replay.{run_transactions, run_block, run, run-append, world_of}
use p2p_auction.Blockchain.Execute.Replay.Same.{IsSame, execute_record-IsSame}

-- Each block is known under its own hash.
abbrev pub IsNamed : HashMap Block → Type 0
IsNamed blocks = (h : String) (b : Block) → HashMap.get blocks h ≡ some b → b.hash ≡ h

module _ ⦃env : Env⦄ where
  run_transactions-blocks :
      (ts : List Transaction) (h : String) (c : Blockchain)
      → (run_transactions ts h c).blocks ≡ c.blocks
  unfolding run_transactions
  run_transactions-blocks [] h c = refl
  run_transactions-blocks (t ∷ ts) h c =
      run_transactions-blocks ts h (execute_single_transaction t h c).1
      ∙ (execute_single_transaction-SameBlocks t h c).0

  run_block-blocks : (o : Option Block) (c : Blockchain) → (run_block o c).blocks ≡ c.blocks
  unfolding run_block
  run_block-blocks none c = refl
  run_block-blocks (some b) c = run_transactions-blocks b.transactions b.hash c

  pub run-blocks : (hs : List String) (c : Blockchain) → (run hs c).blocks ≡ c.blocks
  unfolding run
  run-blocks [] c = refl
  run-blocks (h ∷ hs) c =
      run-blocks hs (run_block (HashMap.get c.blocks h) c)
      ∙ run_block-blocks (HashMap.get c.blocks h) c

  module _ (hashes : List String) where
    execute_single_transaction-IsSame :
        (t : Transaction) (h : String) (c d : Blockchain)
        → contains hashes h ≡ true
        → IsSame hashes c d
        → IsSame hashes (execute_single_transaction t h c).1 (execute_single_transaction t h d).1
    unfolding execute_single_transaction
    execute_single_transaction-IsSame t h c d on s = split (Signing.verify t)
      where
        split :
            (r : Result (Unit {0}))
            → IsSame hashes
                ((lift r >> execute_record t.payload t h) c).1
                ((lift r >> execute_record t.payload t h) d).1
        split (ok u) = (execute_record-IsSame hashes t.payload t h c d on s).1
        split (err e) = s
        split (panic p) = s

    run_transactions-IsSame :
        (ts : List Transaction) (h : String) (c d : Blockchain)
        → contains hashes h ≡ true
        → IsSame hashes c d
        → IsSame hashes (run_transactions ts h c) (run_transactions ts h d)
    unfolding run_transactions
    run_transactions-IsSame [] h c d on s = s
    run_transactions-IsSame (t ∷ ts) h c d on s =
        run_transactions-IsSame ts h (execute_single_transaction t h c).1
          (execute_single_transaction t h d).1 on (execute_single_transaction-IsSame t h c d on s)

    run_block-IsSame :
        (o : Option Block) (c d : Blockchain)
        → ((b : Block) → o ≡ some b → contains hashes b.hash ≡ true)
        → IsSame hashes c d
        → IsSame hashes (run_block o c) (run_block o d)
    unfolding run_block
    run_block-IsSame none c d on s = s
    run_block-IsSame (some b) c d on s =
        run_transactions-IsSame b.transactions b.hash c d (on b refl) s

    -- Blocks of these hashes keep two chains the same.
    pub run-IsSame :
        (hs : List String) (c d : Blockchain)
        → IsNamed c.blocks
        → ((h : String) → contains hs h ≡ true → contains hashes h ≡ true)
        → IsSame hashes c d
        → IsSame hashes (run hs c) (run hs d)
    unfolding run
    run-IsSame [] c d named within s = s
    run-IsSame (h ∷ hs) c d named within s =
        let here = within h (ground (arith, eq_iff h h)) in
        let o = HashMap.get c.blocks h in
        let next = run_block-IsSame o c d (λ b e. ap (contains hashes) (named h b e) ∙ here) s in
        run-IsSame hs (run_block o c) (run_block (HashMap.get d.blocks h) d)
          (subst IsNamed (sym (run_block-blocks o c)) named) (λ k i. within k (ground arith))
          (subst (λ q. IsSame hashes (run_block o c) (run_block q d)) (s.blocks h here) next)

  -- The accounts and auctions of a chain are what these blocks lead to from nothing.
  abbrev pub IsReplay : List String → Blockchain → Type 0
  IsReplay hashes c = IsSame hashes c (world_of c.blocks hashes)

  IsSame-trans :
      (hashes : List String) (c d e : Blockchain)
      → IsSame hashes c d
      → IsSame hashes d e
      → IsSame hashes c e
  IsSame-trans hashes c d e s r = record {
    accounts = s.accounts ∙ r.accounts;
    auctions = s.auctions ∙ r.auctions;
    blocks = λ h on. s.blocks h on ∙ r.blocks h on;
    placed = s.placed;
  }

  -- From nothing, with two maps that agree on the blocks.
  pub worlds-IsSame :
      (hashes : List String) (blocks blocks' : HashMap Block)
      → IsNamed blocks
      → ((h : String) → contains hashes h ≡ true → HashMap.get blocks h ≡ HashMap.get blocks' h)
      → IsSame hashes (world_of blocks hashes) (world_of blocks' hashes)
  worlds-IsSame hashes blocks blocks' named agree =
      run-IsSame hashes hashes (record (Blockchain.new 0) { blocks = blocks })
        (record (Blockchain.new 0) { blocks = blocks' }) named (λ h on. on)
        (record {
          accounts = refl;
          auctions = refl;
          blocks = agree;
          placed = λ id k n e. unfold HashMap.get in cc e;
        })

  -- Another chain with the same world state, and the same blocks under these hashes.
  pub IsReplay-kept :
      (hashes : List String) (c d : Blockchain)
      → IsNamed c.blocks
      → c.accounts ≡ d.accounts
      → c.auctions ≡ d.auctions
      → ((h : String) → contains hashes h ≡ true → HashMap.get c.blocks h ≡ HashMap.get d.blocks h)
      → IsReplay hashes c
      → IsReplay hashes d
  IsReplay-kept hashes c d named accounts auctions agree r =
      let here : IsSame hashes d c = record {
        accounts = sym accounts;
        auctions = sym auctions;
        blocks = λ h on. sym (agree h on);
        placed = λ id k n e. r.placed id k n (ap (λ m. HashMap.get m id) auctions ∙ e);
      } in
      IsSame-trans hashes d c (world_of d.blocks hashes) here (
        IsSame-trans hashes c (world_of c.blocks hashes) (world_of d.blocks hashes) r
          (worlds-IsSame hashes c.blocks d.blocks named agree))

  -- Further blocks of the list.
  pub IsReplay-more :
      (old more : List String) (c : Blockchain)
      → IsNamed c.blocks
      → IsReplay old c
      → IsReplay (old ++ more) (run more c)
  IsReplay-more old more c named r =
      let start = record (Blockchain.new 0) { blocks = c.blocks } in
      let wide : IsSame (old ++ more) c (run old start) = record {
        accounts = r.accounts;
        auctions = r.auctions;
        blocks = λ h on. ap (λ m. HashMap.get m h) (sym (run-blocks old start));
        placed = λ id k n e. contains-append old more k ∙ ground (arith, r.placed id k n e);
      } in
      let grown =
        run-IsSame (old ++ more) more c (run old start) named
          (λ h on. contains-append old more h ∙ ground arith) wide in
      subst (IsSame (old ++ more) (run more c))
        (sym (run-append old more start)
          ∙ ap (λ blocks. world_of blocks (old ++ more)) (sym (run-blocks more c)))
        grown
