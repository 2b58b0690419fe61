-- ===== src/Verbs/Progress/Tests.antt =====
-- A round of the polling task, and its theorem at a concrete input.
use talpf.Prelude.{◌≡◌, refl, true, false, some, [], ◌∷◌, arith, returns}
use talpf.Verbs.{Verbs}
use talpf.Verbs.Progress.{Answers, epochs, progress}
use talpf.Verbs.Progress.Release.{arrives, looks, run}
use talpf.Verbs.Progress.Delivery.{HasRoom}
use talpf.Verbs.Progress.Alike.{Alike}
use talpf.Verbs.Progress.Rounds.{progress-run}
use talpf.Verbs.Tests.{pair, get_or-zeros, length-zeros}

-- One message of the process itself is done, two come, and a task waits for a vote.
abbrev round : Answers
round = record {
  local_polls = some (record { success = true; wr_id = 3 } ∷ []) ∷ [];
  remote_polls = some (5 ∷ 6 ∷ []) ∷ [];
  block_done = true;
  barrier_done = false;
}

abbrev voting : Verbs
voting = record pair { block_task = some 4; num_msgs = 1 }

voting-HasRoom : HasRoom 3 voting
voting-HasRoom = record {
  epoch_counts = length-zeros epochs;
  below = λ j. omega (arith, get_or-zeros epochs j);
  asked = λ active. ((9, refl), omega arith);
}

progress-run_example :
    (w x : Verbs) × (progress round voting ≡ returns w)
    × (run (arrives 5 ∷ arrives 6 ∷ looks false ∷ []) voting ≡ some x)
    × Alike x w
progress-run_example = progress-run round voting refl voting-HasRoom
