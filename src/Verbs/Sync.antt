-- ===== src/Verbs/Sync.antt =====
-- `sync` of src/MPI/ibverbs.cpp. What other tasks do while the caller is blocked or waits, and what
-- the other processes answer, are arguments. `attr` is the pattern of 32 bits of the attribute.
pub mod Asks
pub mod Ends
pub mod Tests
use talpf.Prelude.{
  ℕ, zero, suc, ◌+◌, ◌/◌, ◌%◌, ◌^◌, Bool, true, false, not, ◌&&◌, ◌||◌, Option, some, none, List,
  [], ◌∷◌, ltb, ◌==◌, if◌then◌else◌, assert, ◌>>=◌, ◌>>◌, Exec, returns, throws, fault, verbs_error,
}
use talpf.Verbs.{
  Verbs, Call, events_increase, task_block, iallreduce_sum, allreduce_sum, reconnect_qps,
}

-- `LPF_SYNC_DEFAULT`, `LPF_SYNC_MSG(0)` and `LPF_SYNC_CACHED`, by the two bits of `LPF_SYNC_MODE`
abbrev pub mode_default : ℕ
mode_default = 0

abbrev pub mode_msg : ℕ
mode_msg = 1

abbrev pub mode_cached : ℕ
mode_cached = 2

abbrev pub sync_mode : ℕ → ℕ
sync_mode attr = attr / 2 ^ 29 % 4

abbrev pub sync_value : ℕ → ℕ
sync_value attr = attr % 2 ^ 29

-- The top bit is `LPF_SYNC_BARRIER`.
abbrev pub sync_barrier : ℕ → Bool
sync_barrier attr = (attr / 2 ^ 31 % 2 == 1) || (sync_mode attr == mode_default)

-- What comes from outside while a task is in `sync`: the sums of the votes, whether `reconnectQPs`
-- returns, what other tasks do to the state during the block and during the wait, and the sums of
-- the counters.
pub record SyncAnswers : Type 0 where
  pub voted_abort : ℕ
  pub voted_reconnect : ℕ
  pub reconnects : Bool
  pub blocked : Verbs → Verbs
  pub waited : Verbs → Verbs
  pub sums : List ℕ

-- The vote is started, and the task blocks itself.
unfoldable pub block : ℕ → ℕ → ℕ → Verbs → Verbs
block task abort reconnect v = record v {
  block_task = some task;
  calls = task_block task ∷ iallreduce_sum abort reconnect ∷ v.calls;
}

-- `m_numMsgs > 0`, of an `int`.
abbrev pub is_positive : ℕ → Bool
is_positive n = ltb 0 n && ltb n (2 ^ 31)

-- The loop that copies as many counters and sets them to 0: the copy, and what is left.
unfoldable pub take_counts : ℕ → List ℕ → Option (List ℕ × List ℕ)
take_counts zero ns = some ([], ns)
take_counts (suc k) [] = none
take_counts (suc k) (n ∷ ns) = take_counts k ns >>= λ p. some (n ∷ p.0, 0 ∷ p.1)

-- The loop over `allreduceSum` from process `i` on, with the sums that are answered; the sum of the
-- process itself is kept.
unfoldable pub exchange : ℕ → List ℕ → List ℕ → ℕ → Verbs → Option (ℕ × Verbs)
exchange i [] sums remote v = some (remote, v)
exchange i (n ∷ counts) [] remote v = none
exchange i (n ∷ counts) (s ∷ sums) remote v =
    exchange (suc i) counts sums (if i == v.pid then s else remote)
      (record v { calls = allreduce_sum n ∷ v.calls })

-- The switch over the mode.
unfoldable pub count_remote : ℕ → List ℕ → List ℕ → Verbs → Option (ℕ × Verbs)
count_remote attr counts sums v =
    let mode : ℕ = sync_mode attr in
    if mode == mode_cached && v.sync_cached
    then some (v.sync_cached_value, v)
    else if mode == mode_cached || mode == mode_default
    then (exchange 0 counts sums 0 v >>= λ p.
        some (p.0, record (p.1) { sync_cached = mode == mode_cached; sync_cached_value = p.0 }))
    else some (if mode == mode_msg then sync_value attr else 0, v)

-- The request is given to the polling task, unless it has one.
unfoldable pub request : Bool → ℕ → ℕ → Verbs → Exec Verbs
request barrier remote task v =
    if v.sync_request.is_active
    then throws verbs_error v
    else returns (record v {
      sync_request = record (v.sync_request) {
        with_barrier = barrier;
        remote_msgs = remote;
        task = some task;
        is_active = true;
      };
      calls = events_increase task ∷ v.calls;
    })

-- `sync` from the wait for `m_numMsgs` on. If the messages do not run out there is no result, nor is
-- there for a number of messages that an `int` does not hold.
unfoldable pub ask : ℕ → ℕ → SyncAnswers → Verbs → Exec Verbs
unfolding request
ask attr task a v =
    let w : Verbs = if is_positive v.num_msgs then a.waited v else v in
    let counted : Option (ℕ × Verbs) =
      assert (not (is_positive w.num_msgs))
      >> (take_counts w.nprocs w.num_msgs_sync >>= λ p.
          count_remote attr p.0 a.sums (record w { num_msgs_sync = p.1 }) >>= λ q.
          assert (ltb q.0 (2 ^ 31)) >> some q) in
    elim counted [ none ↦ fault | some (remote, x) ↦ request (sync_barrier attr) remote task x ]

-- `vote[0]` beside the state.
abbrev pub with_vote : ℕ → Exec Verbs → Exec (ℕ × Verbs)
with_vote abort (returns v) = returns (abort, v)
with_vote abort (throws e v) = throws e (abort, v)
with_vote abort fault = fault

-- `IBVerbs::sync`
unfoldable pub sync : ℕ → ℕ → ℕ → ℕ → SyncAnswers → Verbs → Exec (ℕ × Verbs)
unfolding ask block
sync attr task abort reconnect a v =
    if sync_mode attr == mode_default
    then (let w : Verbs = a.blocked (block task abort reconnect v) in
        if not (a.voted_abort == 0)
        then returns (a.voted_abort, w)
        else if ltb 0 a.voted_reconnect
        then (let x : Verbs = record w { calls = reconnect_qps ∷ w.calls } in
            if a.reconnects
            then with_vote abort (ask attr task a x)
            else throws verbs_error (abort, x))
        else with_vote abort (ask attr task a w))
    else with_vote abort (ask attr task a v)
