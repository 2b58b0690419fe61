-- ===== src/Verbs/Sync/Tests.antt =====
-- Concrete runs of `sync`, and its theorems at concrete inputs.
use talpf.Prelude.{◌+◌, ◌*◌, ◌^◌, ◌≡◌, refl, true, false, none, some, [], ◌∷◌, arith, returns}
use talpf.Verbs.{Verbs}
use talpf.Verbs.Sync.{SyncAnswers, block, sync, sync_value, sync_mode, sync_barrier}
use talpf.Verbs.Sync.Asks.{IsIdle}
use talpf.Verbs.Sync.Ends.{voted, sync-ends}
use talpf.Verbs.Progress.{epochs}
use talpf.Verbs.Progress.Release.{run, step, looks, counted}
use talpf.Verbs.Progress.Delivery.{HasRoom}
use talpf.Verbs.Tests.{pair, events, get_or-zeros, length-zeros}

-- Process 0 of two, which has sent three messages, has no request, and its first messages are done.
abbrev pub resting : Verbs
resting = record pair {
  num_msgs_sync = 1 ∷ 2 ∷ [];
  sync_request = record (pair.sync_request) { is_active = false; task = none };
}

-- Nobody aborts, and queue pairs are connected again; 2 messages come to process 0.
abbrev pub answers : SyncAnswers
answers = record {
  voted_abort = 0;
  voted_reconnect = 1;
  reconnects = true;
  blocked = λ w. record w { block_task = none };
  waited = λ w. w;
  sums = 2 ∷ 5 ∷ [];
}

abbrev after_vote : Verbs
after_vote = voted 0 9 0 1 answers resting

pub after_vote-IsIdle : IsIdle after_vote
unfolding block
after_vote-IsIdle = record {
  idle = refl;
  first_phase = refl;
  here = omega arith;
  per_peer = refl;
  sent = refl;
}

after_vote-HasRoom : HasRoom 4 after_vote
unfolding block
after_vote-HasRoom = record {
  epoch_counts = length-zeros epochs;
  below = λ j. omega (arith, get_or-zeros epochs j);
  asked = λ active. absurd (ground (arith, active));
}

sync-ends_example :
    (w p q r : Verbs) × (sync 0 9 0 1 answers resting ≡ returns (0, w))
    × (run events w ≡ some p)
    × (step (looks false) p ≡ some q)
    × (step (looks true) q ≡ some r)
    × (r.sync_request.is_active ≡ false)
    × (r.sync_counter ≡ 6)
    × (counted 5 r + 2 ≡ counted 5 after_vote + 2)
unfolding block
sync-ends_example =
    sync-ends 0 9 0 1 answers resting refl after_vote-IsIdle refl (omega arith) events false
      after_vote-HasRoom (omega arith) (omega (arith, get_or-zeros epochs 5))

-- Attributes: `LPF_SYNC_MSG(7)`, and `LPF_SYNC_CACHED | LPF_SYNC_BARRIER`.
msg_attribute : sync_mode (2 * 2 ^ 28 + 7) ≡ 1
msg_attribute = refl

msg_value : sync_value (2 * 2 ^ 28 + 7) ≡ 7
msg_value = refl

cached_attribute : sync_mode (4 * 2 ^ 28 + 8 * 2 ^ 28) ≡ 2
cached_attribute = refl

cached_barrier : sync_barrier (4 * 2 ^ 28 + 8 * 2 ^ 28) ≡ true
cached_barrier = refl
