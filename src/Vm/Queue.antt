-- ===== src/Vm/Queue.antt =====
-- The channel of src/vm.rs between the task that mines and the loop that publishes.
use mathlib.Core.List.{Perm}
use mathlib.Core.List.Perm
use p2p_auction.Prelude.{ℕ, suc, Bool, true, false, List, [], ◌∷◌, ◌++◌}
use p2p_auction.Transaction.{Block}
use p2p_auction.Vm.{publish_next}

-- The arm of the loop once for each result of `publish`: the blocks that were published, and the channel.
unfoldable pub publish_all : List Bool → List Block → List Block × List Block
unfolding publish_next
publish_all [] channel = ([], channel)
publish_all (published ∷ results) [] = ([], [])
publish_all (published ∷ results) (b ∷ channel) =
    let (out, channel') = publish_next published b channel in
    let (more, rest) = publish_all results channel' in (out ++ more, rest)

abbrev pub successes : List Bool → ℕ
successes [] = 0
successes (true ∷ results) = suc (successes results)
successes (false ∷ results) = successes results
