-- ===== src/Messages/Tests.antt =====
-- Concrete messages, and the theorems on them at concrete inputs.
use talpf.Prelude.{
  swap_pop, ℕ, ◌+◌, ◌^◌, ◌≡◌, refl, Bool, true, Option, some, none, List, [], ◌∷◌, total, returns,
  arith,
}
use talpf.Messages.{
  Send, Comm, Round, isend, iwaitall, round, then_receive, after_sends, receive, forwards, forward,
  complete, dequeue, advance, head_of, reserve_msgs, reserve_impl,
}
use talpf.Messages.Pieces.{pieces, account, Enqueues, isend-Enqueues}
use talpf.Messages.Wants.{anyone}
use talpf.Messages.Answers.{Served}
use talpf.Messages.Waitall.{deal, demand, to_receive, iwaitall-Moves}

-- MPI takes four bytes at once.
abbrev idle : Comm
idle = record {
  max_mpi_msg_size = 4;
  send_indices = 0 ∷ 0 ∷ [];
  imsgs = [];
  irecvs = [];
  empty_recvs = 0;
  large_sends = [];
  sent = [];
  received = [];
}

isend-Enqueues_example :
    (d : Comm) × (isend true 100 10 1 0 idle ≡ returns d)
    × Enqueues idle (record { addr = 100; size = 10; dst_pid = 1; tag = 0 }) d
isend-Enqueues_example = isend-Enqueues 100 10 1 0 idle (omega arith)

-- Ten bytes are sent to process 1, and six are awaited.
abbrev busy : Comm
busy = record idle {
  irecvs = (200, 6) ∷ [];
  large_sends =
      record { send = record { addr = 100; size = 10; dst_pid = 1; tag = 0 }; active = true } ∷ [];
  sent = record { addr = 100; size = 4; dst_pid = 1; tag = 0 } ∷ [];
}

abbrev answer : List (ℕ × Bool) → Option (ℕ × ℕ) → Round
answer indices message = record {
  tested = true;
  ready = indices;
  probed = true;
  found = message;
  succeeds = true;
}

abbrev rounds : List Round
rounds =
    answer ((0, true) ∷ []) none
    ∷ answer ((0, true) ∷ []) (some (1, 0))
    ∷ answer [] (some (1, 0))
    ∷ []

-- The number of messages is cut to 32 bits before it is compared with the greatest int.
reserve_msgs_truncates : reserve_msgs true true (2 ^ 32) idle ≡ returns idle
unfolding reserve_msgs reserve_impl
reserve_msgs_truncates = refl

rounds-Served : Served rounds (deal 4 0 busy.irecvs) (to_receive busy) busy
unfolding round then_receive after_sends receive forwards forward complete dequeue swap_pop advance
    head_of deal pieces
rounds-Served =
    let fit : Unit {0} = tt in
    (
      record {
        tests = refl;
        all_ready = (refl, omega arith, refl, fit);
        probes = refl;
        is_due = fit;
        receives = refl;
      },
      (
        record {
          tests = refl;
          all_ready = (refl, omega arith, refl, fit);
          probes = refl;
          is_due = (omega arith, omega arith);
          receives = refl;
        },
        (
          record {
            tests = refl;
            all_ready = fit;
            probes = refl;
            is_due = (omega arith, omega arith);
            receives = refl;
          },
          fit,
        ),
      ),
    )

iwaitall-Moves_example :
    (d : Comm) × (iwaitall rounds true true busy ≡ some (returns d))
    × (d.irecvs ≡ [])
    × (d.imsgs ≡ [])
    × (d.large_sends ≡ [])
    × (d.empty_recvs ≡ 0)
    × ((f : Send → ℕ) → total f d.sent ≡ account f busy)
    × ((f : Send → ℕ)
        → total (λ s. f (anyone s)) d.received
          ≡ total (λ s. f (anyone s)) busy.received + demand f 4 0 busy.irecvs)
unfolding deal pieces advance
iwaitall-Moves_example =
    iwaitall-Moves rounds busy (record { pos = omega arith; empties = refl; few = omega arith })
      (λ j d h. ground arith) (omega arith) rounds-Served (omega arith)
