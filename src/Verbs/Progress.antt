-- ===== src/Verbs/Progress.antt =====
-- The polling task of src/MPI/ibverbs.cpp: doLocalProgress, doRemoteProgress, processSyncRequest,
-- processBlock and a round of doProgress. What the completion queues and the requests of the
-- communication library answer is an argument.
pub mod Release
pub mod Delivery
pub mod Alike
pub mod Rounds
mod Tests
use talpf.Prelude.{
  ℕ, suc, ◌+◌, ◌-◌, ◌%◌, ◌^◌, Bool, true, false, ◌&&◌, Option, some, none, List, [], ◌∷◌, length,
  get_elem?, set?, ltb, leb, ◌==◌, if◌then◌else◌, assert, ◌>>=◌, ◌>>◌, Exec, returns, throws, fault,
  verbs_error, nothrow, on_return,
}
use talpf.Verbs.{
  Verbs, SyncRequest, Call, events_decrease, task_unblock, start_barrier, post_recv, int_sub,
}

-- `POLL_BATCH`, `MAX_POLLING`, and the length of `m_recvCounts`
abbrev pub poll_batch : ℕ
poll_batch = 8

abbrev pub max_polling : ℕ
max_polling = 128

abbrev pub epochs : ℕ
epochs = 1024

-- `struct ibv_wc` on the local queue: whether the status is IBV_WC_SUCCESS, and the task that the
-- request carried.
pub record Completion : Type 0 where
  pub success : Bool
  pub wr_id : ℕ

-- What `ibv_poll_cq` answers: a number below zero, or a batch.
abbrev pub Poll : Type 0 → Type 0
Poll A = Option (List A)

-- The loop over a batch, with the `error` flag that it sets.
unfoldable pub acknowledge : List Completion → Bool → Verbs → Bool × Verbs
acknowledge [] error v = (error, v)
acknowledge (c ∷ cs) error v =
    acknowledge cs (if c.success then error else true)
      (if c.success then record v { calls = events_decrease c.wr_id ∷ v.calls } else v)

-- One batch: a failed completion throws once the batch is handled.
unfoldable pub local_batch : List Completion → Verbs → Exec Verbs
unfolding acknowledge
local_batch cs v =
    let (error, w) =
      acknowledge cs false (record v { num_msgs = int_sub v.num_msgs (length cs) }) in
    if error then throws verbs_error w else returns w

-- `doLocalProgress`, by the answers of the queue, after which it is empty; `total` counts what was
-- polled.
unfoldable pub local_progress : List (Poll Completion) → ℕ → Verbs → Exec Verbs
local_progress [] total v = returns v
local_progress (none ∷ polls) total v = throws verbs_error v
local_progress (some cs ∷ polls) total v =
    let more : Bool = length cs == poll_batch && ltb (total + length cs) max_polling in
    let rest : Verbs → Exec Verbs = λ w. local_progress polls (total + length cs) w in
    on_return (local_batch cs v) (λ w. if more then rest w else returns w)

-- `m_recvCounts[imm_data % 1024]++`, and a receive posted for the one that was used. An `int` that
-- overflows has no result.
unfoldable pub receive : ℕ → Verbs → Option Verbs
receive imm v = get_elem? v.recv_counts (imm % epochs) >>= λ n.
    assert (ltb (suc n) (2 ^ 31)) >> set? v.recv_counts (imm % epochs) (suc n) >>= λ counts.
    some (record v { recv_counts = counts; calls = post_recv ∷ v.calls })

unfoldable pub receive_all : List ℕ → Verbs → Option Verbs
receive_all [] v = some v
receive_all (imm ∷ imms) v = receive imm v >>= λ w. receive_all imms w

-- `doRemoteProgress`; an answer below zero ends it.
unfoldable pub remote_progress : List (Poll ℕ) → ℕ → Verbs → Option Verbs
remote_progress [] total v = some v
remote_progress (none ∷ polls) total v = some v
remote_progress (some imms ∷ polls) total v =
    let more : Bool = length imms == poll_batch && ltb (total + length imms) max_polling in
    let rest : Verbs → Option Verbs = λ w. remote_progress polls (total + length imms) w in
    receive_all imms v >>= λ w. if more then rest w else some w

-- The end of a synchronisation: the request is given back, the next one gets a new number, and the
-- task that waited is let go.
unfoldable pub release : Verbs → Option Verbs
release v = v.sync_request.task >>= λ task.
    assert (ltb (suc v.sync_counter) (2 ^ 31))
    >> some (record v {
      sync_request = record (v.sync_request) { task = none; is_active = false };
      sync_counter = suc v.sync_counter;
      calls = events_decrease task ∷ v.calls;
    })

abbrev pub leave_second : Verbs → Verbs
leave_second v = record v { sync_request = record (v.sync_request) { second_phase = false } }

-- The first phase is over: all messages of the synchronisation have come.
unfoldable pub settle : ℕ → Verbs → Option Verbs
unfolding release
settle n v =
    set? v.recv_counts (v.sync_counter % epochs) (n - v.sync_request.remote_msgs) >>= λ counts.
    let w : Verbs = record v {
      recv_counts = counts;
      sync_request = record (v.sync_request) { remote_msgs = 0 };
    } in
    if v.sync_request.with_barrier
    then some (record w {
      sync_request = record (w.sync_request) { second_phase = true };
      calls = start_barrier ∷ w.calls;
    })
    else release w

-- `processSyncRequest`; `done` is the flag of `m_comm.test`.
unfoldable pub process_sync_request : Bool → Verbs → Option Verbs
unfolding release settle
process_sync_request done v =
    if v.sync_request.with_barrier && v.sync_request.second_phase
    then (if done then release (leave_second v) else some v)
    else (get_elem? v.recv_counts (v.sync_counter % epochs) >>= λ n.
        if leb v.sync_request.remote_msgs n then settle n v else some v)

-- `processBlock`
unfoldable pub process_block : Bool → ℕ → Verbs → Verbs
process_block done task v =
    if done then record v { block_task = none; calls = task_unblock task ∷ v.calls } else v

-- What the outside answers in one round of `doProgress`.
pub record Answers : Type 0 where
  pub local_polls : List (Poll Completion)
  pub remote_polls : List (Poll ℕ)
  pub block_done : Bool
  pub barrier_done : Bool

-- One round of the loop of `doProgress`, up to its wait.
unfoldable pub progress : Answers → Verbs → Exec Verbs
unfolding process_block
progress a v = on_return (local_progress a.local_polls 0 v) (λ w. nothrow (
    remote_progress a.remote_polls 0 w >>= λ x.
    let y : Verbs = elim x.block_task [
      | none ↦ x
      | some task ↦ process_block a.block_done task x
    ] in
    if y.sync_request.is_active then process_sync_request a.barrier_done y else some y))
