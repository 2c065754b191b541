-- ===== src/App/History.antt =====
-- src/bin/app.rs, `mod profile_history`: the table of the bids of one account. The selection in it is the
-- widget's.
use p2p_auction.Prelude.{
  ℕ, leb, String, ◌==◌, Bool, true, false, Option, none, some, List, [], ◌∷◌, contains,
  if◌then◌else◌,
}
use p2p_auction.Prelude.Result.{Result, ok, ◌>>=◌}
use p2p_auction.Prelude.Text.{to_decimal}
use p2p_auction.Prelude.TextOrder.{str_le}
use p2p_auction.HashMap.{HashMap}
use p2p_auction.App.{Client}
use p2p_auction.App.Tables.{table}
use p2p_auction.App.Auctions.{Row, shown}

-- The start amount, the highest bid of the account and of all, if any, and whether the account has bid.
pub record Entry : Type 0 where
  pub start_amount : ℕ
  pub my_amount : Option ℕ
  pub max_amount : Option ℕ
  pub bid : Bool

abbrev max : ℕ → ℕ → ℕ
max a b = if leb a b then b else a

unfoldable pub created : String → ℕ → Entry
created from start_amount = record {
  start_amount = start_amount;
  my_amount = none;
  max_amount = none;
  bid = false;
}

-- A bid of the account, by what was known of its bids and of all.
unfoldable pub my_bid : ℕ → Option ℕ → Option ℕ → Option ℕ × Option ℕ
my_bid amount (some mine) (some highest) =
    (some (max mine amount), some (max (max mine highest) amount))
my_bid amount (some mine) none = (some (max mine amount), some (max mine amount))
my_bid amount none (some highest) = (some amount, some (max amount highest))
my_bid amount none none = (some amount, some amount)

-- A bid of another.
unfoldable pub other_bid : ℕ → Option ℕ → Option ℕ
other_bid amount (some highest) = some (max highest amount)
other_bid amount none = some amount

unfoldable pub counted : String → String → ℕ → Entry → Entry
unfolding my_bid other_bid
counted public_key from amount e =
    if from == public_key
    then record e {
      my_amount = (my_bid amount (e.my_amount) (e.max_amount)).0;
      max_amount = (my_bid amount (e.my_amount) (e.max_amount)).1;
      bid = true;
    }
    else record e { max_amount = other_bid amount (e.max_amount) }

-- The comparison is one of texts.
unfoldable pub won : String → String → Bool → String
won my_amount max_amount ended =
    if str_le max_amount my_amount then if ended then "Yes" else "Unfinished" else "No"

unfoldable pub row : List String → String → Entry → Row
unfolding won
row ended auction_id e =
    auction_id
    ∷ shown e.my_amount
    ∷ shown e.max_amount
    ∷ to_decimal e.start_amount
    ∷ won (shown e.my_amount) (shown e.max_amount) (contains ended auction_id)
    ∷ []

unfoldable pub rows : List String → HashMap Entry → List Row
unfolding row
rows ended [] = []
rows ended ((auction_id, e) ∷ auctions) =
    let rest = rows ended auctions in if e.bid then row ended auction_id e ∷ rest else rest

pub record ProfileBids : Type 0 where
  pub popup : Option String
  pub rows : List Row
  pub public_key : String

module _ (connect : String → Option Client) (fuel : ℕ) where
  unfoldable pub new : String → String → Result ProfileBids
  unfolding created counted table rows
  new node public_key = do
    gathered ← table created (counted public_key) fuel (connect node)
    ok (record {
      popup = gathered.1;
      rows = rows gathered.0.ended gathered.0.auctions;
      public_key = public_key;
    })
