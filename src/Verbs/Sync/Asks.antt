-- ===== src/Verbs/Sync/Asks.antt =====
-- What `sync` of src/MPI/ibverbs.cpp leaves for the polling task.
use talpf.Prelude.{
  ℕ, zero, suc, ◌+◌, ◌^◌, ◌<◌, ◌≡◌, refl, Bool, true, false, not, ◌&&◌, ◌||◌, some, List, [], ◌∷◌,
  length, get_or, ◌==◌, if◌then◌else◌, returns, arith, subst,
}
use talpf.Verbs.{Verbs, Call, events_increase, allreduce_sum}
use talpf.Verbs.Sync.{
  SyncAnswers, sync_mode, sync_value, sync_barrier, is_positive, mode_default, mode_msg,
  mode_cached, take_counts, exchange, count_remote, request, ask,
}
use talpf.Verbs.Progress.Delivery.{IsAsked}

abbrev cleared : List ℕ → List ℕ
cleared [] = []
cleared (n ∷ ns) = 0 ∷ cleared ns

get_or-cleared : (ns : List ℕ) (j : ℕ) → get_or (cleared ns) j 0 ≡ 0
get_or-cleared [] j = refl
get_or-cleared (n ∷ ns) zero = refl
get_or-cleared (n ∷ ns) (suc j) = get_or-cleared ns j

take_counts-cleared :
    (k : ℕ) (ns : List ℕ) → length ns ≡ k → take_counts k ns ≡ some (ns, cleared ns)
unfolding take_counts
take_counts-cleared zero [] e = refl
take_counts-cleared zero (n ∷ ns) e = absurd (omega (arith, e))
take_counts-cleared (suc k) [] e = absurd (omega (arith, e))
take_counts-cleared (suc k) (n ∷ ns) e = ground (arith, take_counts-cleared k ns (omega (arith, e)))

-- The counters that were put into the sums, newest first.
abbrev pub told : List ℕ → List Call → List Call
told [] calls = calls
told (n ∷ counts) calls = told counts (allreduce_sum n ∷ calls)

-- The sum that a process keeps, of those from process `i` on.
abbrev own : ℕ → ℕ → List ℕ → ℕ → ℕ
own pid i [] remote = remote
own pid i (s ∷ sums) remote = own pid (suc i) sums (if i == pid then s else remote)

own-past : (pid i : ℕ) (sums : List ℕ) (remote : ℕ) → pid < i → own pid i sums remote ≡ remote
own-past pid i [] remote h = refl
own-past pid i (s ∷ sums) remote h =
    ground (arith, own-past pid (suc i) sums (if i == pid then s else remote))

own-get_or :
    (k i : ℕ) (sums : List ℕ) (remote : ℕ)
    → k < length sums
    → own (k + i) i sums remote ≡ get_or sums k 0
own-get_or k i [] remote h = absurd (omega (arith, h))
own-get_or zero i (s ∷ sums) remote h =
    ground (arith, own-past i (suc i) sums (if i == i then s else remote))
own-get_or (suc k) i (s ∷ sums) remote h =
    subst (λ p. own p (suc i) sums (if i == suc k + i then s else remote) ≡ get_or sums k 0)
      (omega arith)
      (own-get_or k (suc i) sums (if i == suc k + i then s else remote) (omega (arith, h)))

exchange-told :
    (i : ℕ) (counts sums : List ℕ) (remote : ℕ) (v : Verbs)
    → length sums ≡ length counts
    → exchange i counts sums remote v
      ≡ some (own v.pid i sums remote, record v { calls = told counts v.calls })
unfolding exchange
exchange-told i [] [] remote v e = refl
exchange-told i [] (s ∷ sums) remote v e = absurd (omega (arith, e))
exchange-told i (n ∷ counts) [] remote v e = absurd (omega (arith, e))
exchange-told i (n ∷ counts) (s ∷ sums) remote v e =
    exchange-told (suc i) counts sums (if i == v.pid then s else remote)
      (record v { calls = allreduce_sum n ∷ v.calls }) (omega (arith, e))

-- The number of messages that a synchronisation waits for, by its attribute.
abbrev pub awaited : ℕ → List ℕ → Verbs → ℕ
awaited attr sums v =
    if sync_mode attr == mode_msg
    then sync_value attr
    else if sync_mode attr == mode_cached && v.sync_cached
    then v.sync_cached_value
    else if sync_mode attr == mode_default || sync_mode attr == mode_cached
    then get_or sums v.pid 0
    else 0

-- Whether the processes exchange their counters.
abbrev pub exchanges : ℕ → Verbs → Bool
exchanges attr v =
    (sync_mode attr == mode_default) || (sync_mode attr == mode_cached && not v.sync_cached)

-- The state in which no call is under way: all counters are there, and there is no request.
pub record IsIdle (v : Verbs) : Type 0 where
  pub idle : v.sync_request.is_active ≡ false
  pub first_phase : v.sync_request.second_phase ≡ false
  pub here : v.pid < v.nprocs
  pub per_peer : length v.num_msgs_sync ≡ v.nprocs
  pub sent : is_positive v.num_msgs ≡ false

-- `w` comes from `v` by a request for `n` messages.
pub record Asks (attr task n : ℕ) (v w : Verbs) : Type 0 where
  pub asked : IsAsked v.sync_counter w
  pub remote : w.sync_request.remote_msgs ≡ n
  pub barrier : w.sync_request.with_barrier ≡ sync_barrier attr
  pub waits : w.sync_request.task ≡ some task
  pub cleared_counts : (j : ℕ) → get_or w.num_msgs_sync j 0 ≡ 0
  pub same_received : w.recv_counts ≡ v.recv_counts
  pub cached_value : w.sync_cached_value ≡ (if exchanges attr v then n else v.sync_cached_value)
  pub cached :
      w.sync_cached ≡ (if exchanges attr v then sync_mode attr == mode_cached else v.sync_cached)
  pub told_calls :
      w.calls
      ≡ events_increase task ∷ (if exchanges attr v then told v.num_msgs_sync v.calls else v.calls)

module _ (attr task : ℕ) (a : SyncAnswers) (v : Verbs) (i : IsIdle v)
    (answered : length a.sums ≡ v.nprocs) where
  abbrev without_counts : Verbs
  without_counts = record v { num_msgs_sync = cleared v.num_msgs_sync }

  abbrev n : ℕ
  n = awaited attr a.sums v

  abbrev counted : Verbs
  counted = record without_counts {
    sync_cached = if exchanges attr v then sync_mode attr == mode_cached else v.sync_cached;
    sync_cached_value = if exchanges attr v then n else v.sync_cached_value;
    calls = if exchanges attr v then told v.num_msgs_sync v.calls else v.calls;
  }

  count_remote-counted : count_remote attr v.num_msgs_sync a.sums without_counts ≡ some (n, counted)
  unfolding count_remote
  count_remote-counted = ground (
    arith,
    own-get_or v.pid 0 a.sums 0 (omega (arith, i.here, answered)),
    exchange-told 0 v.num_msgs_sync a.sums 0 without_counts (omega (arith, i.per_peer, answered)),
  )

  request-Asks :
      (w : Verbs) × (request (sync_barrier attr) n task counted ≡ returns w) × Asks attr task n v w
  unfolding request
  request-Asks = (
    record counted {
      sync_request = record (v.sync_request) {
        with_barrier = sync_barrier attr;
        remote_msgs = n;
        task = some task;
        is_active = true;
      };
      calls = events_increase task ∷ counted.calls;
    },
    ground (arith, i.idle),
    record {
      asked = record { active = refl; first_phase = i.first_phase; same_number = refl };
      remote = refl;
      barrier = refl;
      waits = refl;
      cleared_counts = λ j. get_or-cleared v.num_msgs_sync j;
      same_received = refl;
      cached_value = refl;
      cached = refl;
      told_calls = refl;
    },
  )

  -- Once the messages that the process itself sent are done, `sync` in every mode asks the polling
  -- task to wait for the number of messages of the mode, and begins to count anew.
  pub ask-Asks : n < 2 ^ 31 → (w : Verbs) × (ask attr task a v ≡ returns w) × Asks attr task n v w
  unfolding ask
  ask-Asks small =
      let (w, goes, asks) = request-Asks in
      (
        w,
        ground (
          arith,
          i.sent,
          count_remote-counted,
          take_counts-cleared v.nprocs v.num_msgs_sync i.per_peer,
          small,
          goes,
        ),
        asks,
      )
