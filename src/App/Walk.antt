-- ===== src/App/Walk.antt =====
-- src/bin/app.rs: the loops that ask a node for block after block, in the form that bids and in the tables.
-- They differ in what they do with the transactions of a block, and with a node that fails to answer.
pub mod Chain
use p2p_auction.Prelude.{ℕ, zero, suc, String, Option, none, some, List, [], ◌∷◌}
use p2p_auction.Prelude.Result.{Result, ok, err, panic, diverges, ◌>>=◌}
use p2p_auction.State.Responses.{TransactionMessage, BlockMessage}
use p2p_auction.App.{Client}

module _ {A : Type 0} (fails : A → Result A) (step : A → List TransactionMessage → Result A) where
  -- The end of one round: what follows is the rest of the loop.
  unfoldable pub on_next : (String → A → Result A) → A → Option String → Result A
  on_next rest acc none = ok acc
  on_next rest acc (some hash) = rest hash acc

  -- One round.
  unfoldable pub on_answer :
      (String → A → Result A) → A → Result (Option (BlockMessage × Option String)) → Result A
  unfolding on_next
  on_answer rest acc (err e) = fails acc
  on_answer rest acc (panic p) = panic p
  on_answer rest acc (ok none) = ok acc
  on_answer rest acc (ok (some (block, next))) =
      step acc block.transactions >>= λ acc'. on_next rest acc' next

  -- The loop, on fuel; a node may name ever further blocks.
  unfoldable pub walk : ℕ → Client → String → A → Result A
  unfolding on_answer
  walk zero client hash acc = panic diverges
  walk (suc fuel) client hash acc = on_answer (walk fuel client) acc (client.block_info hash)
