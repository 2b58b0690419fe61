-- ===== src/Verbs/Progress/Rounds.antt =====
-- A round of doProgress of src/MPI/ibverbs.cpp as messages and a look at the request.
use talpf.Prelude.{
  ℕ, ◌+◌, ◌≡◌, refl, Bool, true, false, ◌&&◌, some, none, List, [], ◌∷◌, length, ltb, ◌==◌,
  if◌then◌else◌, arith, inl, inr, Option-cases, Bool-cases, returns,
}
use talpf.Verbs.{Verbs, int_sub, events_decrease}
use talpf.Verbs.Progress.{
  Poll, Completion, Answers, poll_batch, max_polling, receive, receive_all, process_block,
  acknowledge, local_batch, local_progress, remote_progress, progress,
}
use talpf.Verbs.Progress.Release.{Event, arrives, looks, step, run}
use talpf.Verbs.Progress.Alike.{Alike, Alike-trans, run-Alike}
use talpf.Verbs.Progress.Delivery.{HasRoom, run-HasRoom, HasRoom-less}

abbrev pub arriving : List ℕ → List Event → List Event
arriving [] es = es
arriving (imm ∷ imms) es = arrives imm ∷ arriving imms es

-- The messages that `doRemoteProgress` takes before other events: the batches up to one that is not
-- full, or up to the greatest number of a round.
abbrev pub polled : List (Poll ℕ) → ℕ → List Event → List Event
polled [] total rest = rest
polled (none ∷ polls) total rest = rest
polled (some imms ∷ polls) total rest = arriving imms (
    if length imms == poll_batch && ltb (total + length imms) max_polling
    then polled polls (total + length imms) rest
    else rest)

-- All completions succeed, and no poll of the local queue fails.
abbrev pub all_success : List Completion → Bool
all_success [] = true
all_success (c ∷ cs) = c.success && all_success cs

abbrev pub is_quiet : List (Poll Completion) → Bool
is_quiet [] = true
is_quiet (none ∷ polls) = false
is_quiet (some cs ∷ polls) = all_success cs && is_quiet polls

acknowledge-Alike :
    (cs : List Completion) (v : Verbs)
    → all_success cs ≡ true
    → (w : Verbs) × (acknowledge cs false v ≡ (false, w)) × Alike v w
unfolding acknowledge
acknowledge-Alike [] v h =
    (v, refl, record { recv_counts = refl; sync_request = refl; sync_counter = refl })
acknowledge-Alike (c ∷ cs) v h =
    let good : c.success ≡ true = ground (arith, h) in
    let x : Verbs = record v { calls = events_decrease c.wr_id ∷ v.calls } in
    let (w, e, a) = acknowledge-Alike cs x (ground (arith, h)) in
    (
      w,
      rw good e,
      record {
        recv_counts = a.recv_counts;
        sync_request = a.sync_request;
        sync_counter = a.sync_counter;
      },
    )

local_progress-Alike :
    (polls : List (Poll Completion)) (total : ℕ) (v : Verbs)
    → is_quiet polls ≡ true
    → (w : Verbs) × (local_progress polls total v ≡ returns w) × Alike v w
unfolding local_progress local_batch
local_progress-Alike [] total v h =
    (v, refl, record { recv_counts = refl; sync_request = refl; sync_counter = refl })
local_progress-Alike (none ∷ polls) total v h = absurd (ground (arith, h))
local_progress-Alike (some cs ∷ polls) total v h =
    let x : Verbs = record v { num_msgs = int_sub v.num_msgs (length cs) } in
    let (w, e, a) = acknowledge-Alike cs x (ground (arith, h)) in
    let b : Alike v w = record {
      recv_counts = a.recv_counts;
      sync_request = a.sync_request;
      sync_counter = a.sync_counter;
    } in
    let (y, more, c) = local_progress-Alike polls (total + length cs) w (ground (arith, h)) in
    elim (Bool-cases (length cs == poll_batch && ltb (total + length cs) max_polling)) [
      | inl goes_on ↦ (y, ground (arith, e, more, goes_on), Alike-trans v w y b c)
      | inr stops ↦ (w, ground (arith, e, stops), b)
    ]

receive_all-run :
    (imms : List ℕ) (es : List Event) (v x : Verbs)
    → run (arriving imms es) v ≡ some x
    → (y : Verbs) × (receive_all imms v ≡ some y) × (run es y ≡ some x)
unfolding receive_all run step
receive_all-run [] es v x e = (v, refl, e)
receive_all-run (imm ∷ imms) es v x e = elim (Option-cases (receive imm v)) [
  | inl out ↦ absurd (ground (arith, out, e))
  | inr (u, goes) ↦
      let (y, rest, left) = receive_all-run imms es u x (ground (arith, goes, e)) in
      (y, ground (arith, goes, rest), left)
]

remote_progress-run :
    (polls : List (Poll ℕ)) (total : ℕ) (es : List Event) (v x : Verbs)
    → run (polled polls total es) v ≡ some x
    → (y : Verbs) × (remote_progress polls total v ≡ some y) × (run es y ≡ some x)
unfolding remote_progress
remote_progress-run [] total es v x e = (v, refl, e)
remote_progress-run (none ∷ polls) total es v x e = (v, refl, e)
remote_progress-run (some imms ∷ polls) total es v x e =
    elim (Bool-cases (length imms == poll_batch && ltb (total + length imms) max_polling)) [
      | inl goes_on ↦
          let (u, all, left) =
            receive_all-run imms (polled polls (total + length imms) es) v x (rw goes_on at e) in
          let (y, more, last) = remote_progress-run polls (total + length imms) es u x left in
          (y, ground (arith, all, more, goes_on), last)
      | inr stops ↦
          let (u, all, left) = receive_all-run imms es v x (rw stops at e) in
          (u, ground (arith, all, stops), left)
    ]

polled_block-Alike :
    (done : Bool) (v : Verbs)
    → Alike v (elim v.block_task [ none ↦ v | some task ↦ process_block done task v ])
unfolding process_block
polled_block-Alike done v = record {
  recv_counts = ground arith;
  sync_request = ground arith;
  sync_counter = ground arith;
}

-- A round of `doProgress` whose local completions succeed, while there is room in the counters,
-- returns; and it changes what a synchronisation depends on just as its messages do, one by one, and
-- then one look at the request.
pub progress-run :
    (a : Answers) (v : Verbs)
    → is_quiet a.local_polls ≡ true
    → HasRoom (length (polled a.remote_polls 0 (looks a.barrier_done ∷ []))) v
    → (w x : Verbs) × (progress a v ≡ returns w)
      × (run (polled a.remote_polls 0 (looks a.barrier_done ∷ [])) v ≡ some x)
      × Alike x w
unfolding progress run step
progress-run a v quiet room =
    let last : List Event = looks a.barrier_done ∷ [] in
    let es : List Event = polled a.remote_polls 0 last in
    let (x, runs, left) =
      run-HasRoom es 0 v (HasRoom-less (length es) (length es + 0) v (omega arith) room) in
    let (v1, first, b) = local_progress-Alike a.local_polls 0 v quiet in
    let (x1, runs1, c) = run-Alike es v v1 x b runs in
    let (y, second, tail) = remote_progress-run a.remote_polls 0 last v1 x1 runs1 in
    let z : Verbs = elim y.block_task [
      | none ↦ y
      | some task ↦ process_block a.block_done task y
    ] in
    let (w, ends, d) = run-Alike last y z x1 (polled_block-Alike a.block_done y) tail in
    (w, x, ground (arith, first, second, ends), runs, Alike-trans x x1 w c d)
