-- ===== src/App/Auctions.antt =====
-- src/bin/app.rs, `mod available_auctions`: the table of all auctions. The selection in it is the widget's.
use p2p_auction.Prelude.{
  ℕ, suc, leb, String, Option, none, some, List, [], ◌∷◌, contains, if◌then◌else◌,
}
use p2p_auction.Prelude.Result.{Result, ok, ◌>>=◌}
use p2p_auction.Prelude.Text.{to_decimal}
use p2p_auction.HashMap.{HashMap}
use p2p_auction.App.{Client}
use p2p_auction.App.Tables.{table}

-- The creator, the start amount, the highest bid, if any, and how many bids there are.
pub record Entry : Type 0 where
  pub from : String
  pub start_amount : ℕ
  pub max_amount : Option ℕ
  pub count : ℕ

abbrev max : ℕ → ℕ → ℕ
max a b = if leb a b then b else a

unfoldable pub created : String → ℕ → Entry
created from start_amount = record {
  from = from;
  start_amount = start_amount;
  max_amount = none;
  count = 0;
}

unfoldable pub counted : String → ℕ → Entry → Entry
counted bidder amount e = record e {
  max_amount = elim e.max_amount [
    | some highest ↦ some (max highest amount)
    | none ↦ some (max (e.start_amount) amount)
  ];
  count = suc (e.count);
}

abbrev pub Row : Type 0
Row = List String

-- `Some(amount) => amount.to_string(), None => "NaN"`.
abbrev pub shown : Option ℕ → String
shown none = "NaN"
shown (some amount) = to_decimal amount

unfoldable pub rows : List String → HashMap Entry → List Row
rows ended [] = []
rows ended ((auction_id, e) ∷ auctions) =
    (auction_id
      ∷ e.from
      ∷ shown e.max_amount
      ∷ to_decimal e.start_amount
      ∷ to_decimal e.count
      ∷ (if contains ended auction_id then "Yes" else "No")
      ∷ [])
    ∷ rows ended auctions

pub record AvailableAuctions : Type 0 where
  pub popup : Option String
  pub rows : List Row

module _ (connect : String → Option Client) (fuel : ℕ) where
  unfoldable pub new : String → Result AvailableAuctions
  unfolding created counted table rows
  new node = do
    gathered ← table created counted fuel (connect node)
    ok (record { popup = gathered.1; rows = rows gathered.0.ended gathered.0.auctions })
