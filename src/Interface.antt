-- ===== src/Interface.antt =====
-- `Interface` of src/MPI/interface.hpp and interface.cpp, and `Process::hook` of src/MPI/process.cpp.
-- The SPMD function of the user is an argument: what it does to the context, with any exception that
-- leaves it as one.
pub mod Hooks
mod Tests
use talpf.Prelude.{
  ℕ, Bool, true, false, Option, none, some, List, ◌∷◌, ◌>>=◌, ◌==◌, if◌then◌else◌, Exec, returns,
  throws, fault, Exception, bad_alloc, length_error, verbs_error, mpi_error, within,
}
use talpf.Verbs.{Verbs, Call, MemoryRegion, allreduce_or, barrier}
use talpf.Verbs.Sync.{mode_default}
use talpf.MemoryTable
use talpf.MemoryTable.{ReserveAnswers}
use talpf.Process.{Outcome, trysync_end}
use talpf.MessageQueue
use talpf.MessageQueue.{
  MessageQueue, ErrorCode, success, out_of_memory, fatal, QueueAnswers, verbs_of, with_verbs,
}

pub record Interface : Type 0 where
  pub queue : MessageQueue
  pub aborted : ℕ

-- A collective call.
unfoldable pub tell : Call → Interface → Interface
tell c i = record i {
  queue = with_verbs i.queue (record (verbs_of i.queue) { calls = c ∷ (verbs_of i.queue).calls });
}

-- The constructor of `Interface`, whose handler is for its members and its body. `failed` is the
-- answer of `allreduceOr( false )`.
unfoldable pub init : Bool → Exec MessageQueue → Exec Interface
unfolding tell
init failed (returns q) =
    let i : Interface = tell (allreduce_or false) (record { queue = q; aborted = 0 }) in
    if failed then throws bad_alloc (tell (allreduce_or true) i) else returns i
init failed (throws bad_alloc q) =
    throws bad_alloc (tell (allreduce_or true) (record { queue = q; aborted = 0 }))
init failed (throws length_error q) = throws length_error (record { queue = q; aborted = 0 })
init failed (throws verbs_error q) = throws verbs_error (record { queue = q; aborted = 0 })
init failed (throws mpi_error q) = throws mpi_error (record { queue = q; aborted = 0 })
init failed fault = fault

-- A call of the message queue.
abbrev pub with_queue : Interface → MessageQueue → Interface
with_queue i q = record i { queue = q }

-- `Interface::put`
unfoldable pub put : ℕ → Bool → ℕ → ℕ → ℕ → ℕ → ℕ → ℕ → Interface → Exec Interface
put task accepts src_slot src_offset dst_pid dst_slot dst_offset size i =
    within
      (MessageQueue.put task accepts src_slot src_offset dst_pid dst_slot dst_offset size i.queue)
      (with_queue i) (λ j. returns j)

-- `Interface::get`
unfoldable pub get : ℕ → Bool → ℕ → ℕ → ℕ → ℕ → ℕ → ℕ → Interface → Exec Interface
get task accepts src_pid src_slot src_offset dst_slot dst_offset size i =
    within
      (MessageQueue.get task accepts src_pid src_slot src_offset dst_slot dst_offset size i.queue)
      (with_queue i) (λ j. returns j)

-- `Interface::atomic_fetch_and_add`
unfoldable pub fetch_and_add : ℕ → Bool → ℕ → ℕ → ℕ → ℕ → ℕ → ℕ → Interface → Exec Interface
fetch_and_add task accepts src_slot src_offset dst_pid dst_slot dst_offset value i =
    within
      (MessageQueue.fetch_and_add task accepts src_slot src_offset dst_pid dst_slot dst_offset value
        i.queue)
      (with_queue i) (λ j. returns j)

-- `Interface::atomic_cmp_and_swp`
unfoldable pub cmp_and_swp : ℕ → Bool → ℕ → ℕ → ℕ → ℕ → ℕ → ℕ → ℕ → Interface → Exec Interface
cmp_and_swp task accepts src_slot src_offset dst_pid dst_slot dst_offset cmp swp i =
    within
      (MessageQueue.cmp_and_swp task accepts src_slot src_offset dst_pid dst_slot dst_offset cmp swp
        i.queue)
      (with_queue i) (λ j. returns j)

-- What a call of the queue gives back, beside the context.
unfoldable pub beside : {A : Type 0} → Interface → Exec (A × MessageQueue) → Exec (A × Interface)
beside i (returns (b, q)) = returns (b, with_queue i q)
beside i (throws e (b, q)) = throws e (b, with_queue i q)
beside i fault = fault

-- `Interface::registerGlobal`
unfoldable pub register_global : ℕ → ℕ → Interface → Option (ℕ × Interface)
register_global mem size i =
    MessageQueue.add_global_reg mem size i.queue >>= λ p. some (p.0, with_queue i p.1)

-- `Interface::registerLocal`
unfoldable pub register_local :
    Option MemoryRegion → ℕ → ℕ → Interface → Exec (Option ℕ × Interface)
unfolding beside
register_local region mem size i = beside i (MessageQueue.add_local_reg region mem size i.queue)

-- `Interface::deregister`
unfoldable pub deregister : ℕ → Interface → Option Interface
deregister slot i = MessageQueue.remove_reg slot i.queue >>= λ q. some (with_queue i q)

-- `Interface::resizeMemreg`
unfoldable pub resize_memreg :
    ReserveAnswers → List Bool → ℕ → Interface → Exec (ErrorCode × Interface)
unfolding beside
resize_memreg a creates n i = beside i (MessageQueue.resize_memreg a creates n i.queue)

-- `Interface::resizeMesgQueue`
unfoldable pub resize_mesg_queue : List Bool → ℕ → Interface → Exec (ErrorCode × Interface)
unfolding beside
resize_mesg_queue creates n i = beside i (MessageQueue.resize_mesg_queue creates n i.queue)

-- The queue's vote becomes the number of processes that aborted.
unfoldable pub vote : Bool → ℕ → ℕ → QueueAnswers → Interface → Exec Interface
vote abort attr task a i = elim (MessageQueue.sync abort attr task a i.queue) [
  | fault ↦ fault
  | throws e (n, q) ↦ throws e (with_queue i q)
  | returns (n, q) ↦ returns (record i { queue = q; aborted = n })
]

-- `Interface::abort`, with its ASSERT.
unfoldable pub abort : ℕ → QueueAnswers → Interface → Exec Interface
unfolding vote
abort task a i = if i.aborted == 0 then vote true mode_default task a i else fault

abbrev pub status : Interface → ErrorCode
status i = if i.aborted == 0 then success else fatal

-- `Interface::sync`
unfoldable pub sync : ℕ → ℕ → QueueAnswers → Interface → Exec (ErrorCode × Interface)
unfolding vote
sync attr task a i =
    if i.aborted == 0
    then (elim (vote false attr task a i) [
      | fault ↦ fault
      | throws e j ↦ throws e (success, j)
      | returns j ↦ returns (status j, j)
    ])
    else returns (fatal, i)

-- The handlers of `hook` around the SPMD function: abort, and the status is fatal.
unfoldable pub stop : ℕ → QueueAnswers → Interface → Exec (ErrorCode × Interface)
unfolding abort
stop task a i = elim (abort task a i) [
  | fault ↦ fault
  | throws e j ↦ throws e (fatal, j)
  | returns j ↦ returns (fatal, j)
]

-- The test of the number of processes that stop in the same synchronisation.
abbrev pub verdict : ℕ → Interface → ErrorCode
verdict nprocs i = if i.aborted == nprocs then success else fatal

-- `hook` after the SPMD function returned. An exception of `abort` meets the handlers, with the
-- second answers.
unfoldable pub finish :
    ℕ → ℕ → QueueAnswers → QueueAnswers → Interface → Exec (ErrorCode × Interface)
unfolding abort stop
finish nprocs task a again i =
    if i.aborted == 0
    then (elim (abort task a i) [
      | fault ↦ fault
      | throws e j ↦ stop task again j
      | returns j ↦ returns (verdict nprocs j, j)
    ])
    else returns (fatal, i)

-- The outermost handler.
abbrev pub catches : Exec (ErrorCode × Interface) → Exec (ErrorCode × Interface)
catches (returns r) = returns r
catches (throws bad_alloc (s, i)) = returns (out_of_memory, i)
catches (throws length_error r) = throws length_error r
catches (throws verbs_error r) = throws verbs_error r
catches (throws mpi_error r) = throws mpi_error r
catches fault = fault

-- What `hook` does in its outermost `try`, from the constructor of the context on.
unfoldable pub attempt :
    ℕ
    → ℕ
    → QueueAnswers
    → QueueAnswers
    → (Interface → Exec Interface)
    → Exec Interface
    → Exec (ErrorCode × Interface)
unfolding finish stop tell
attempt nprocs task a again spmd (returns i) = elim (spmd (tell barrier i)) [
  | fault ↦ fault
  | throws e j ↦ stop task a j
  | returns j ↦ finish nprocs task a again j
]
attempt nprocs task a again spmd (throws e i) = throws e (success, i)
attempt nprocs task a again spmd fault = fault

-- `Process::hook`
unfoldable pub hook :
    ℕ
    → ℕ
    → QueueAnswers
    → QueueAnswers
    → (Interface → Exec Interface)
    → Exec Interface
    → Exec (ErrorCode × Interface)
unfolding attempt
hook nprocs task a again spmd runtime = catches (attempt nprocs task a again spmd runtime)

-- `Interface::rehook`: a hook on a copy of the communicator, if all processes could make it. `cloned`
-- is how the copying ends, and `reduce` what `allreduceMax` answers.
unfoldable pub rehook :
    Outcome
    → (ErrorCode → ErrorCode)
    → ℕ
    → ℕ
    → QueueAnswers
    → QueueAnswers
    → (Interface → Exec Interface)
    → Exec Interface
    → Exec (ErrorCode × Option Interface)
unfolding hook
rehook cloned reduce nprocs task a again spmd runtime = elim (trysync_end reduce cloned success) [
  | out_of_memory ↦ returns (out_of_memory, none)
  | fatal ↦ returns (fatal, none)
  | success ↦ elim (hook nprocs task a again spmd runtime) [
    | returns (s, i) ↦ returns (s, some i)
    | throws e (s, i) ↦ throws e (s, some i)
    | fault ↦ fault
  ]
]
