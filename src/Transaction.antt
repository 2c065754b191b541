-- ===== src/Transaction.antt =====
-- src/blockchain.rs, `mod transaction` and the structs of `mod block`: the data that nodes exchange,
-- and the equality that the source derives for it.
pub mod Signing
use p2p_auction.Prelude.{
  ℕ, String, ◌==◌, nat_eq, ◌≡◌, ◌↔◌, Bool, true, false, ◌&&◌, List, arith, eq_iff,
}

pub data Data : Type 0 where
  create_user_account : (public_key : String) → Data
  bid : (auction_id : String) (amount : ℕ) → Data
  create_auction : (auction_id : String) (start_amount stop_time : ℕ) → Data
  stop_auction : (auction_id : String) → Data

-- The field `record` of the source is `payload` here: the word is reserved.
pub record Transaction : Type 0 where
  pub id : String
  pub payload : Data
  pub from : String
  pub timestamp : ℕ
  pub nonce : ℕ
  pub signature : String

pub record Header : Type 0 where
  pub previous_hash : String
  pub merkle_root : String
  pub nonce : ℕ
  pub timestamp : ℕ

pub record Block : Type 0 where
  pub previous_hash : String
  pub transactions : List Transaction
  pub merkle_root : String
  pub hash : String
  pub nonce : ℕ
  pub timestamp : ℕ
  pub miner : String

-- The derived `PartialEq` of `Data`.
unfoldable pub data_eq : Data → Data → Bool
data_eq (create_user_account a) (create_user_account b) = a == b
data_eq (bid a m) (bid b n) = (a == b) && nat_eq m n
data_eq (create_auction a m s) (create_auction b n t) = (a == b) && (nat_eq m n && nat_eq s t)
data_eq (stop_auction a) (stop_auction b) = a == b
data_eq _ _ = false

-- The derived `PartialEq` of `Transaction`.
unfoldable pub transaction_eq : Transaction → Transaction → Bool
unfolding data_eq
transaction_eq a b =
    (a.id == b.id)
    && (data_eq a.payload b.payload
        && ((a.from == b.from)
            && (nat_eq a.timestamp b.timestamp
                && (nat_eq a.nonce b.nonce && (a.signature == b.signature)))))

pub data_eq_iff : (a b : Data) → (data_eq a b ≡ true) ↔ (a ≡ b)
unfolding data_eq
data_eq_iff (create_user_account a) (create_user_account b) = ground (arith, eq_iff a b)
data_eq_iff (bid a m) (bid b n) = ground (arith, eq_iff a b)
data_eq_iff (create_auction a m s) (create_auction b n t) = ground (arith, eq_iff a b)
data_eq_iff (stop_auction a) (stop_auction b) = ground (arith, eq_iff a b)
data_eq_iff _ _ = ground arith

pub transaction_eq_iff : (a b : Transaction) → (transaction_eq a b ≡ true) ↔ (a ≡ b)
unfolding transaction_eq
transaction_eq_iff a b = ground (
  arith,
  eq_iff a.id b.id,
  data_eq_iff a.payload b.payload,
  eq_iff a.from b.from,
  eq_iff a.signature b.signature,
)
