-- ===== src/Verbs/Progress/Delivery.antt =====
-- A synchronisation of src/MPI/ibverbs.cpp under any sequence of messages and looks of the polling
-- task: what has been counted at each point, and that it ends.
use talpf.Prelude.{
  ℕ, suc, ◌+◌, ◌-◌, ◌%◌, ◌^◌, ◌≤◌, ◌<◌, ◌≡◌, refl, Bool, true, false, ◌&&◌, some, none, List, [],
  ◌∷◌, length, get_elem?, get_or, set, set?, get_elem?-get_or, get_or-set, length-set, leb, ◌==◌,
  if◌then◌else◌, arith, inl, inr, ◌⊎◌, Option-cases, Bool-cases, subst,
}
use talpf.Verbs.{Verbs, post_recv, start_barrier, events_decrease}
use talpf.Verbs.Progress.{epochs, receive, release, leave_second, settle, process_sync_request}
use talpf.Verbs.Progress.Release.{
  Event, arrives, looks, step, run, arrivals, counted, Waiting, Passed, Tracks, arrives-Tracks,
  looks-Tracks, looks-Passed, looks-next_number, looks-keeps,
}

-- A synchronisation has been asked for, and the polling task has not looked at it yet.
pub record IsAsked (number : ℕ) (v : Verbs) : Type 0 where
  pub active : v.sync_request.is_active ≡ true
  pub first_phase : v.sync_request.second_phase ≡ false
  pub same_number : v.sync_counter ≡ number

-- There is room in the counters for so many messages more, and while there is a request, it has a
-- task and a next number.
pub record HasRoom (more : ℕ) (v : Verbs) : Type 0 where
  pub epoch_counts : length v.recv_counts ≡ epochs
  pub below : (j : ℕ) → get_or v.recv_counts j 0 + more < 2 ^ 31
  pub asked :
      v.sync_request.is_active ≡ true
      → ((task : ℕ) × (v.sync_request.task ≡ some task)) × (suc v.sync_counter < 2 ^ 31)

IsAsked-Tracks : (number : ℕ) (v : Verbs) → IsAsked number v → Tracks number 0 v v
IsAsked-Tracks number v a = inl (record {
  active = a.active;
  same_barrier = refl;
  first_phase = a.first_phase;
  same_remote = refl;
  same_task = refl;
  same_number = a.same_number;
  all_counted = omega arith;
})

runs-Tracks :
    (number : ℕ) (es : List Event) (k : ℕ) (v w x : Verbs)
    → run es w ≡ some x
    → Tracks number k v w
    → Tracks number (k + arrivals number es) v x
unfolding run step
runs-Tracks number [] k v w x e t =
    subst (λ y. Tracks number (k + 0) v y) (ground (arith, e))
      (subst (λ m. Tracks number m v w) (omega arith) t)
runs-Tracks number (arrives imm ∷ es) k v w x e t = elim (Option-cases (receive imm w)) [
  | inl out ↦ absurd (ground (arith, out))
  | inr (y, goes) ↦
      let one : ℕ = if imm % epochs == number % epochs then 1 else 0 in
      subst (λ m. Tracks number m v x) (omega arith)
        (runs-Tracks number es (k + one) v y x (ground (arith, goes))
          (arrives-Tracks number k v w y imm goes t))
]
runs-Tracks number (looks done ∷ es) k v w x e t = elim (Option-cases (step (looks done) w)) [
  | inl out ↦ absurd (ground (arith, out))
  | inr (y, goes) ↦
      runs-Tracks number es k v y x (ground (arith, goes)) (looks-Tracks number k v w y done goes t)
]

-- After any events that have a result, a synchronisation that was asked for either still waits, with every message of
-- its number counted, or all of its messages have come, and the ones counted beyond them are kept.
pub run-Tracks :
    (number : ℕ) (es : List Event) (v w : Verbs)
    → IsAsked number v
    → run es v ≡ some w
    → Waiting number (arrivals number es) v w ⊎ Passed number (arrivals number es) v w
run-Tracks number es v w asked e =
    subst (λ m. Tracks number m v w) (omega arith)
      (runs-Tracks number es 0 v v w e (IsAsked-Tracks number v asked))

module _ (v : Verbs) where
  receive-HasRoom :
      (imm more : ℕ)
      → HasRoom (suc more) v
      → (w : Verbs) × (receive imm v ≡ some w) × HasRoom more w
  unfolding receive set?
  receive-HasRoom imm more h =
      let i : ℕ = imm % epochs in
      let n : ℕ = get_or v.recv_counts i 0 in
      let lt : i < length v.recv_counts = omega (arith, h.epoch_counts) in
      let b : n + suc more < 2 ^ 31 = h.below i in
      (
        record v { recv_counts = set v.recv_counts i (suc n); calls = post_recv ∷ v.calls },
        ground (arith, get_elem?-get_or v.recv_counts i 0 lt, lt, b),
        record {
          epoch_counts = omega (arith, h.epoch_counts, length-set v.recv_counts i (suc n));
          below = λ j. ground (arith, b, h.below j, get_or-set v.recv_counts i j (suc n) 0 lt);
          asked = h.asked;
        },
      )

  release-HasRoom :
      (more : ℕ)
      → v.sync_request.is_active ≡ true
      → HasRoom more v
      → (w : Verbs) × (release v ≡ some w) × HasRoom more w
  unfolding release
  release-HasRoom more active h =
      let ((task, has), next) = h.asked active in
      (
        record v {
          sync_request = record (v.sync_request) { task = none; is_active = false };
          sync_counter = suc v.sync_counter;
          calls = events_decrease task ∷ v.calls;
        },
        ground (arith, has, next),
        record {
          epoch_counts = h.epoch_counts;
          below = h.below;
          asked = λ idle. absurd (ground (arith, idle));
        },
      )

module _ (n more : ℕ) (v : Verbs) (h : HasRoom more v)
    (active : v.sync_request.is_active ≡ true) where
  abbrev emptied : Verbs
  emptied = record v {
    recv_counts = set v.recv_counts (v.sync_counter % epochs) (n - v.sync_request.remote_msgs);
    sync_request = record (v.sync_request) { remote_msgs = 0 };
  }

  emptied-HasRoom :
      get_elem? v.recv_counts (v.sync_counter % epochs) ≡ some n → HasRoom more emptied
  emptied-HasRoom found =
      let i : ℕ = v.sync_counter % epochs in
      let left : ℕ = n - v.sync_request.remote_msgs in
      let lt : i < length v.recv_counts = omega (arith, h.epoch_counts) in
      record {
        epoch_counts = omega (arith, h.epoch_counts, length-set v.recv_counts i left);
        below = λ j. ground (
          arith,
          found,
          h.below i,
          h.below j,
          get_elem?-get_or v.recv_counts i 0 lt,
          get_or-set v.recv_counts i j left 0 lt,
        );
        asked = h.asked;
      }

  settle-HasRoom :
      get_elem? v.recv_counts (v.sync_counter % epochs) ≡ some n
      → (w : Verbs) × (settle n v ≡ some w) × HasRoom more w
  unfolding settle set?
  settle-HasRoom found =
      let e : HasRoom more emptied = emptied-HasRoom found in
      let lt : v.sync_counter % epochs < length v.recv_counts = omega (arith, h.epoch_counts) in
      elim (Bool-cases v.sync_request.with_barrier) [
        | inl barrier ↦ (
          record emptied {
            sync_request = record (emptied.sync_request) { second_phase = true };
            calls = start_barrier ∷ v.calls;
          },
          ground (arith, barrier, lt),
          record { epoch_counts = e.epoch_counts; below = e.below; asked = e.asked },
        )
        | inr no_barrier ↦
            let (w, goes, room) = release-HasRoom emptied more active e in
            (w, ground (arith, no_barrier, goes, lt), room)
      ]

looks-HasRoom :
    (v : Verbs) (done : Bool) (more : ℕ)
    → HasRoom more v
    → (w : Verbs) × (step (looks done) v ≡ some w) × HasRoom more w
unfolding step process_sync_request
looks-HasRoom v done more h = elim (Bool-cases v.sync_request.is_active) [
  | inr idle ↦ (v, ground (arith, idle), h)
  | inl active ↦ elim (Bool-cases (v.sync_request.with_barrier && v.sync_request.second_phase)) [
    | inl second ↦ elim (Bool-cases done) [
      | inl ready ↦
          let (w, goes, room) =
            release-HasRoom (leave_second v) more active
              (record { epoch_counts = h.epoch_counts; below = h.below; asked = h.asked }) in
          (w, ground (arith, active, second, ready, goes), room)
      | inr not_ready ↦ (v, ground (arith, active, second, not_ready), h)
    ]
    | inr first ↦
        let i : ℕ = v.sync_counter % epochs in
        let n : ℕ = get_or v.recv_counts i 0 in
        let found : get_elem? v.recv_counts i ≡ some n =
          get_elem?-get_or v.recv_counts i 0 (omega (arith, h.epoch_counts)) in
        elim (Bool-cases (leb v.sync_request.remote_msgs n)) [
          | inl all_here ↦
              let (w, goes, room) = settle-HasRoom n more v h active found in
              (w, ground (arith, active, first, found, all_here, goes), room)
          | inr some_missing ↦ (v, ground (arith, active, first, found, some_missing), h)
        ]
  ]
]

pub HasRoom-less : (more less : ℕ) (v : Verbs) → less ≤ more → HasRoom more v → HasRoom less v
HasRoom-less more less v le h = record {
  epoch_counts = h.epoch_counts;
  below = λ j. omega (arith, h.below j);
  asked = h.asked;
}

pub run-HasRoom :
    (es : List Event) (more : ℕ) (v : Verbs)
    → HasRoom (length es + more) v
    → (w : Verbs) × (run es v ≡ some w) × HasRoom more w
unfolding run step
run-HasRoom [] more v h =
    (v, refl, HasRoom-less (length {A = Event} [] + more) more v (omega arith) h)
run-HasRoom (arrives imm ∷ es) more v h =
    let (w, goes, room) = receive-HasRoom v imm (length es + more) (
      HasRoom-less (length (arrives imm ∷ es) + more) (suc (length es + more)) v (omega arith) h) in
    let (x, rest, left) = run-HasRoom es more w room in (x, ground (arith, goes, rest), left)
run-HasRoom (looks done ∷ es) more v h =
    let (w, goes, room) =
      looks-HasRoom v done (length es + more)
        (HasRoom-less (length (looks done ∷ es) + more) (length es + more) v (omega arith) h) in
    let (x, rest, left) = run-HasRoom es more w room in (x, ground (arith, goes, rest), left)

-- A synchronisation that was asked for ends. After any events in which all its messages come, while
-- there is room in the counters for them, two looks of the polling task, the second of which finds
-- the barrier done, leave no request, the next number, and the messages counted beyond those that were waited for.
pub run-ends :
    (number : ℕ) (es : List Event) (first : Bool) (v : Verbs)
    → IsAsked number v
    → HasRoom (length es) v
    → v.sync_request.remote_msgs ≤ counted number v + arrivals number es
    → (w x y : Verbs) × (run es v ≡ some w)
      × (step (looks first) w ≡ some x)
      × (step (looks true) x ≡ some y)
      × (y.sync_request.is_active ≡ false)
      × (y.sync_counter ≡ suc number)
      × (counted number y + v.sync_request.remote_msgs ≡ counted number v + arrivals number es)
run-ends number es first v asked room enough =
    let k : ℕ = arrivals number es in
    let (w, runs, left) =
      run-HasRoom es 0 v (HasRoom-less (length es) (length es + 0) v (omega arith) room) in
    let (x, once, still) = looks-HasRoom w first 0 left in
    let (y, twice, last) = looks-HasRoom x true 0 still in
    let passed : Passed number k v x =
      looks-Passed number k v w x first once enough (run-Tracks number es v w asked runs) in
    let ends : Passed number k v y = looks-keeps number k v x y true twice passed in
    let (idle, next) = looks-next_number number k v x y twice passed in
    (w, x, y, runs, once, twice, idle, next, ends.taken_off)
