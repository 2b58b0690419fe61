-- ===== src/Verbs/Progress/Release.antt =====
-- When the polling task of src/MPI/ibverbs.cpp lets a synchronisation end: only after all the
-- messages that it waits for have come, and then it does, with no message lost.
use talpf.Prelude.{
  ℕ, suc, ◌+◌, ◌-◌, ◌%◌, ◌≤◌, ◌<◌, ◌≡◌, Bool, true, false, Option, some, List, [], ◌∷◌, length,
  get_elem?, get_or, set, set?, get_elem?-get_or, get_elem?-lt, get_or-set, leb, ◌==◌,
  if◌then◌else◌, arith, ◌>>=◌, inl, inr, ◌⊎◌, Option-cases, Bool-cases, subst,
}
use talpf.Verbs.{Verbs}
use talpf.Verbs.Progress.{epochs, receive, release, leave_second, settle, process_sync_request}

-- What the polling task meets, in its order: a message of a peer, or a look at the request while
-- there is one, with what `m_comm.test` then answers.
pub data Event : Type 0 where
  arrives : ℕ → Event
  looks : Bool → Event

unfoldable pub step : Event → Verbs → Option Verbs
step (arrives imm) v = receive imm v
step (looks done) v = if v.sync_request.is_active then process_sync_request done v else some v

unfoldable pub run : List Event → Verbs → Option Verbs
run [] v = some v
run (e ∷ es) v = step e v >>= λ w. run es w

-- The messages among the events that belong to the synchronisation with a number.
abbrev pub arrivals : ℕ → List Event → ℕ
arrivals number [] = 0
arrivals number (arrives imm ∷ es) =
    (if imm % epochs == number % epochs then 1 else 0) + arrivals number es
arrivals number (looks done ∷ es) = arrivals number es

-- The messages counted for a number.
abbrev pub counted : ℕ → Verbs → ℕ
counted number v = get_or v.recv_counts (number % epochs) 0

-- `w` comes from the request of `v`, whose number is `number`, with `k` messages for it in between:
-- the request still waits, with all of them counted; or its messages have come, and were taken off.
pub record Waiting (number k : ℕ) (v w : Verbs) : Type 0 where
  pub active : w.sync_request.is_active ≡ true
  pub same_barrier : w.sync_request.with_barrier ≡ v.sync_request.with_barrier
  pub first_phase : w.sync_request.second_phase ≡ false
  pub same_remote : w.sync_request.remote_msgs ≡ v.sync_request.remote_msgs
  pub same_task : w.sync_request.task ≡ v.sync_request.task
  pub same_number : w.sync_counter ≡ number
  pub all_counted : counted number w ≡ counted number v + k

pub record Passed (number k : ℕ) (v w : Verbs) : Type 0 where
  pub enough : v.sync_request.remote_msgs ≤ counted number v + k
  pub taken_off : counted number w + v.sync_request.remote_msgs ≡ counted number v + k
  pub next_number :
      ((w.sync_request.is_active ≡ true)
        × (w.sync_request.with_barrier ≡ true)
        × (w.sync_request.second_phase ≡ true)
        × (v.sync_request.with_barrier ≡ true)
        × (w.sync_counter ≡ number))
      ⊎ ((w.sync_request.is_active ≡ false) × (w.sync_counter ≡ suc number))

-- One message: it is counted for its number and for no other.
receive-counted :
    (imm number : ℕ) (v w : Verbs)
    → receive imm v ≡ some w
    → (counted number w ≡ (if imm % epochs == number % epochs then 1 else 0) + counted number v)
      × (w.sync_request ≡ v.sync_request)
      × (w.sync_counter ≡ v.sync_counter)
unfolding receive set?
receive-counted imm number v w e = elim (Option-cases (get_elem? v.recv_counts (imm % epochs))) [
  | inl out ↦ ground (arith, out)
  | inr (n, found) ↦
      let lt : imm % epochs < length v.recv_counts =
        get_elem?-lt v.recv_counts (imm % epochs) found in
      ground (
        arith,
        found,
        lt,
        get_elem?-get_or v.recv_counts (imm % epochs) 0 lt,
        get_or-set v.recv_counts (imm % epochs) (number % epochs) (suc n) 0 lt,
      )
]

counted-found :
    (number : ℕ) (w : Verbs) (n : ℕ)
    → w.sync_counter ≡ number
    → get_elem? w.recv_counts (w.sync_counter % epochs) ≡ some n
    → counted number w ≡ n
counted-found number w n same found = ground (
  arith,
  found,
  same,
  get_elem?-get_or w.recv_counts (w.sync_counter % epochs) 0
      (get_elem?-lt w.recv_counts (w.sync_counter % epochs) found),
)

abbrev pub Tracks : ℕ → ℕ → Verbs → Verbs → Type 0
Tracks number k v w = Waiting number k v w ⊎ Passed number k v w

module _ (number k : ℕ) (v w x : Verbs) where
  pub arrives-Tracks :
      (imm : ℕ)
      → receive imm w ≡ some x
      → Tracks number k v w
      → Tracks number (k + (if imm % epochs == number % epochs then 1 else 0)) v x
  arrives-Tracks imm e (inl t) =
      let (c, r, n) = receive-counted imm number w x e in
      inl (record {
        active = ground (arith, r, t.active);
        same_barrier = ground (arith, r, t.same_barrier);
        first_phase = ground (arith, r, t.first_phase);
        same_remote = ground (arith, r, t.same_remote);
        same_task = ground (arith, r, t.same_task);
        same_number = ground (arith, n, t.same_number);
        all_counted = omega (arith, c, t.all_counted);
      })
  arrives-Tracks imm e (inr t) =
      let (c, r, n) = receive-counted imm number w x e in
      inr (record {
        enough = omega (arith, t.enough);
        taken_off = omega (arith, c, t.taken_off);
        next_number = ground (arith, r, n, t.next_number);
      })

  release-keeps :
      release (leave_second w) ≡ some x
      → (counted number x ≡ counted number w)
        × (x.sync_request.is_active ≡ false)
        × (x.sync_counter ≡ suc w.sync_counter)
  unfolding release
  release-keeps e = ground arith

  -- The counter of the number, once the messages of the request are taken off.
  abbrev taken : ℕ → List ℕ
  taken n = set w.recv_counts (w.sync_counter % epochs) (n - w.sync_request.remote_msgs)

  abbrev settled : ℕ → Verbs
  settled n = record w {
    recv_counts = taken n;
    sync_request = record (w.sync_request) { remote_msgs = 0 };
  }

  settle-phase :
      (n : ℕ)
      → get_elem? w.recv_counts (w.sync_counter % epochs) ≡ some n
      → settle n w ≡ some x
      → (x.recv_counts ≡ taken n)
        × (((w.sync_request.with_barrier ≡ true)
              × (x.sync_request.is_active ≡ w.sync_request.is_active)
              × (x.sync_request.with_barrier ≡ true)
              × (x.sync_request.second_phase ≡ true)
              × (x.sync_counter ≡ w.sync_counter))
            ⊎ ((x.sync_request.is_active ≡ false) × (x.sync_counter ≡ suc w.sync_counter)))
  unfolding settle release set?
  settle-phase n found e =
      let lt : w.sync_counter % epochs < length w.recv_counts =
        get_elem?-lt w.recv_counts (w.sync_counter % epochs) found in
      elim (Bool-cases w.sync_request.with_barrier) [
        | inl barrier ↦ ground (arith, barrier, lt)
        | inr no_barrier ↦ ground (arith, no_barrier, lt)
      ]

  settle-Passed :
      (n : ℕ)
      → get_elem? w.recv_counts (w.sync_counter % epochs) ≡ some n
      → w.sync_request.remote_msgs ≤ n
      → settle n w ≡ some x
      → Waiting number k v w
      → Passed number k v x
  settle-Passed n found enough e t =
      let lt : w.sync_counter % epochs < length w.recv_counts =
        get_elem?-lt w.recv_counts (w.sync_counter % epochs) found in
      let (left, phase) = settle-phase n found e in
      let was : counted number w ≡ n = counted-found number w n t.same_number found in
      let now : counted number x + w.sync_request.remote_msgs ≡ n = ground (
        arith,
        enough,
        left,
        t.same_number,
        get_or-set w.recv_counts (w.sync_counter % epochs) (number % epochs)
            (n - w.sync_request.remote_msgs) 0 lt,
      ) in
      record {
        enough = ground (arith, t.all_counted, t.same_remote, was);
        taken_off = ground (arith, t.all_counted, t.same_remote, now, was);
        next_number = ground (arith, t.active, t.same_barrier, t.same_number, phase);
      }

  pub looks-keeps :
      (done : Bool) → step (looks done) w ≡ some x → Passed number k v w → Passed number k v x
  unfolding step process_sync_request
  looks-keeps done e t = elim t.next_number [
    | inl (active, barrier, second, had, same) ↦ elim (Bool-cases done) [
      | inl ready ↦
          let (c, i, m) = release-keeps (ground (arith, ready, active, barrier, second)) in
          (record {
            enough = t.enough;
            taken_off = ground (arith, c, t.taken_off);
            next_number = inr (i, ground (arith, m, same));
          })
      | inr not_ready ↦
          (subst (λ y. Passed number k v y) (ground (arith, not_ready, active, barrier, second)) t)
    ]
    | inr (idle, next) ↦ (subst (λ y. Passed number k v y) (ground (arith, idle)) t)
  ]

  pub looks-Tracks :
      (done : Bool) → step (looks done) w ≡ some x → Tracks number k v w → Tracks number k v x
  unfolding step process_sync_request
  looks-Tracks done e (inl t) =
      elim (Option-cases (get_elem? w.recv_counts (w.sync_counter % epochs))) [
        | inl out ↦ absurd (ground (arith, out, t.active, t.first_phase))
        | inr (n, found) ↦ elim (Bool-cases (leb w.sync_request.remote_msgs n)) [
          | inl all_here ↦ inr (
              settle-Passed n found (ground (arith, all_here))
                (ground (arith, found, all_here, t.active, t.first_phase)) t)
          | inr some_missing ↦ inl (
              subst (λ y. Waiting number k v y)
                (ground (arith, found, some_missing, t.active, t.first_phase)) t)
        ]
      ]
  looks-Tracks done e (inr t) = inr (looks-keeps done e t)

  -- With all messages here, a look ends the first phase.
  pub looks-Passed :
      (done : Bool)
      → step (looks done) w ≡ some x
      → v.sync_request.remote_msgs ≤ counted number v + k
      → Tracks number k v w
      → Passed number k v x
  unfolding step process_sync_request
  looks-Passed done e enough (inr t) = looks-keeps done e t
  looks-Passed done e enough (inl t) =
      elim (Option-cases (get_elem? w.recv_counts (w.sync_counter % epochs))) [
        | inl out ↦ absurd (ground (arith, out, t.active, t.first_phase))
        | inr (n, found) ↦
            let was : counted number w ≡ n = counted-found number w n t.same_number found in
            let all_here : leb w.sync_request.remote_msgs n ≡ true =
              ground (arith, enough, was, t.all_counted, t.same_remote) in
            settle-Passed n found (ground (arith, all_here))
              (ground (arith, found, all_here, t.active, t.first_phase)) t
      ]

  -- In the second phase, a look that finds the barrier done ends the synchronisation.
  pub looks-next_number :
      step (looks true) w ≡ some x
      → Passed number k v w
      → (x.sync_request.is_active ≡ false) × (x.sync_counter ≡ suc number)
  unfolding step process_sync_request
  looks-next_number e t = elim t.next_number [
    | inl (active, barrier, second, had, same) ↦
        let (c, i, m) = release-keeps (ground (arith, active, barrier, second)) in
        (i, ground (arith, m, same))
    | inr (idle, next) ↦ (ground (arith, idle, next), ground (arith, idle, next))
  ]
