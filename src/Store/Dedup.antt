-- ===== src/Store/Dedup.antt =====
-- store/dedup.py: the sequence numbers that have been seen of one agent. Sequences are natural
-- numbers (`schemas/observation.v1.json`: `minimum: 0`). `confirmed` is `high_water_mark + 1`, so that
-- it is 0 where the source's mark starts at -1; `ahead` is the set of sequences beyond a gap.
pub mod Seen
pub mod History
use hammertime.Base.{
  ℕ, zero, suc, ◌+◌, Bool, ◌||◌, List, [], ◌∷◌, ltb, ◌==◌, if◌then◌else◌, length, mem, without,
  smallest,
}

abbrev pub default_max_out_of_order : ℕ
default_max_out_of_order = 10000

pub record SequenceWindow : Type 0 where
  pub confirmed : ℕ
  pub max_out_of_order : ℕ
  pub ahead : List ℕ

-- `SequenceWindow(max_out_of_order=...)`
abbrev pub empty : ℕ → SequenceWindow
empty max_out_of_order = record { confirmed = 0; max_out_of_order = max_out_of_order; ahead = [] }

unfoldable pub contains : SequenceWindow → ℕ → Bool
contains w sequence = ltb sequence w.confirmed || mem sequence w.ahead

-- The loop that folds the contiguous run: each round takes one sequence out of `ahead`.
unfoldable pub fold_run : ℕ → ℕ → List ℕ → ℕ × List ℕ
fold_run zero next ahead = (next, ahead)
fold_run (suc fuel) next ahead =
    let rest = fold_run fuel (suc next) (without next ahead) in
    if mem next ahead then rest else (next, ahead)

unfoldable pub fold_contiguous_run : SequenceWindow → SequenceWindow
fold_contiguous_run w =
    let (confirmed', ahead') = fold_run (length w.ahead) w.confirmed w.ahead in
    record w { confirmed = confirmed'; ahead = ahead' }

-- `ahead.discard(min(ahead))`
unfoldable pub discard_smallest : List ℕ → List ℕ
discard_smallest [] = []
discard_smallest (s ∷ ahead) = without (smallest s ahead) (s ∷ ahead)

unfoldable pub bound_out_of_order_set : SequenceWindow → SequenceWindow
unfolding discard_smallest
bound_out_of_order_set w =
    if ltb w.max_out_of_order (length w.ahead)
    then record w { ahead = discard_smallest w.ahead }
    else w

unfoldable pub add : SequenceWindow → ℕ → SequenceWindow
unfolding contains
add w sequence =
    if contains w sequence
    then w
    else if sequence == w.confirmed
    then fold_contiguous_run (record w { confirmed = suc sequence })
    else bound_out_of_order_set (record w { ahead = sequence ∷ w.ahead })

unfoldable pub out_of_order_count : SequenceWindow → ℕ
out_of_order_count w = length w.ahead
