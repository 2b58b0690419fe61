-- ===== src/Machine/Tests.antt =====
-- Concrete measurements.
use talpf.Prelude.{◌≤◌, ◌<◌, ◌^◌, ◌≡◌, ◌⊎◌, refl, none, [], ◌∷◌, arith}
use talpf.Machine.{
  block_sizes, interval, continue, stop, error, summarize, gets, send_msgs, send_row,
}
use talpf.Machine.Intervals.{IsIncreasing, Encloses, interval-cases}

-- A stop before an error does not hide it.
error_wins : summarize continue (stop ∷ error ∷ stop ∷ []) ≡ error
unfolding summarize
error_wins = refl

-- All gets of a row write to the same place.
same_target : send_msgs 1 0 1 2 2 8 ≡ gets 0 0 8 ∷ gets 1 8 8 ∷ []
unfolding send_msgs send_row
same_target = refl

increasing : IsIncreasing 1 (8 ∷ 128 ∷ 1024 ∷ 2 ^ 13 ∷ 2 ^ 17 ∷ 2 ^ 20 ∷ [])
increasing =
    let fit : Unit {0} = tt in
    (omega arith, (omega arith, (omega arith, (omega arith, (omega arith, (omega arith, fit))))))

-- For a block of a MiB the interpolation reads out of the array.
interval-cases_example :
    ((1 ≤ 2 ^ 20) × (2 ^ 20 < 2 ^ 20) × Encloses (2 ^ 20) block_sizes)
    ⊎ (((2 ^ 20 < 1) ⊎ (2 ^ 20 ≤ 2 ^ 20)) × (interval (2 ^ 20) block_sizes ≡ none))
interval-cases_example =
    interval-cases (2 ^ 20) 1 (8 ∷ 128 ∷ 1024 ∷ 2 ^ 13 ∷ 2 ^ 17 ∷ 2 ^ 20 ∷ []) increasing
