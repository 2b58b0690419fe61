-- ===== src/MessageQueue.antt =====
-- `MessageQueue` of src/MPI/mesgqueue.hpp and mesgqueue.cpp: the table of memory slots, the sorting of
-- messages, and the vote of a synchronisation. What is not read again (`m_memRange`) or is written
-- before each use (`m_vote`) is not kept.
pub mod Votes
pub mod Tests
use talpf.Prelude.{
  ℕ, ◌+◌, ◌-◌, ◌^◌, Bool, true, false, ◌||◌, Option, some, none, List, ltb, ◌==◌, if◌then◌else◌,
  size_mod, ◌>>=◌, Exec, returns, throws, fault, Exception, bad_alloc, length_error, verbs_error,
  mpi_error, within,
}
use Prim.Native.Nat.{max as max_of}
use talpf.MemoryTable
use talpf.MemoryTable.{MemoryTable, ReserveAnswers, GlobalAnswers, get_verb_id, get_size}
use talpf.MessageSort
use talpf.MessageSort.{MessageSort, add_register, del_register, set_slot_range}
use talpf.Verbs.{Verbs, MemoryRegion}
use talpf.Verbs.Queues.{resize_mesgq}
use talpf.Verbs.Rdma
use talpf.Verbs.Sync
use talpf.Verbs.Sync.{SyncAnswers}

-- `err_t`
pub data ErrorCode : Type 0 where
  success out_of_memory fatal : ErrorCode

pub record MessageQueue : Type 0 where
  pub max_n_msgs : ℕ
  pub next_mem_reg_size : ℕ
  pub resized : Bool
  pub msgsort : MessageSort
  pub memreg : MemoryTable

abbrev pub verbs_of : MessageQueue → Verbs
verbs_of q = q.memreg.verbs

abbrev pub with_verbs : MessageQueue → Verbs → MessageQueue
with_verbs q v = record q { memreg = record (q.memreg) { verbs = v } }

-- The constructor, over a new `IBVerbs`.
unfoldable pub init : Bool → Bool → ℕ → ReserveAnswers → Verbs → Exec MessageQueue
init for_domain for_map grain_power a v = elim (MessageSort.init grain_power) [
  | none ↦ fault
  | some s ↦
      let make : MemoryTable → MessageQueue = λ t. record {
        max_n_msgs = 0;
        next_mem_reg_size = 0;
        resized = false;
        msgsort = s;
        memreg = t;
      } in
      within (MemoryTable.init for_domain for_map v) make
        λ q. within (MemoryTable.reserve a 1 q.memreg) make (λ r. returns r)
]

-- The greatest number that is no more than half the range of `size_t` once both are rounded to
-- `double`.
abbrev pub most_msgs : ℕ
most_msgs = 2 ^ 63 + 2 ^ 10

-- `catch( std::bad_alloc & )` and `catch( std::length_error & )`
abbrev pub is_caught : Exception → Bool
is_caught bad_alloc = true
is_caught length_error = true
is_caught verbs_error = false
is_caught mpi_error = false

-- What follows a call in a `try` block with these two handlers.
unfoldable pub guarded :
    {A : Type 0}
    → Exec A
    → (A → MessageQueue)
    → (MessageQueue → Exec (ErrorCode × MessageQueue))
    → Exec (ErrorCode × MessageQueue)
guarded (returns a) put f = f (put a)
guarded (throws e a) put f =
    if is_caught e then returns (out_of_memory, put a) else throws e (out_of_memory, put a)
guarded fault put f = fault

-- `MessageQueue::resizeMesgQueue`; `creates` is what ibv_create_qp answers.
unfoldable pub resize_mesg_queue : List Bool → ℕ → MessageQueue → Exec (ErrorCode × MessageQueue)
unfolding guarded
resize_mesg_queue creates n q =
    if ltb (size_mod - 1) n || ltb most_msgs n
    then returns (out_of_memory, q)
    else guarded (resize_mesgq creates n (verbs_of q)) (with_verbs (record q { resized = true }))
        λ r. returns (success, record r { max_n_msgs = max_of q.max_n_msgs n })

-- The end of `resizeMemreg`, from the second resize on.
unfoldable pub resize_again : List Bool → ℕ → MessageQueue → Exec (ErrorCode × MessageQueue)
unfolding resize_mesg_queue
resize_again creates n q = elim (resize_mesg_queue creates q.max_n_msgs q) [
  | returns (success, r) ↦ returns (success, record r { next_mem_reg_size = n + 1 })
  | returns (out_of_memory, r) ↦ returns (out_of_memory, r)
  | returns (fatal, r) ↦ returns (out_of_memory, r)
  | throws e r ↦ throws e r
  | fault ↦ fault
]

-- `MessageQueue::resizeMemreg`
unfoldable pub resize_memreg :
    ReserveAnswers → List Bool → ℕ → MessageQueue → Exec (ErrorCode × MessageQueue)
unfolding resize_again guarded
resize_memreg a creates n q =
    if ltb (size_mod - 2) n
    then returns (out_of_memory, q)
    else if ltb q.memreg.capacity (n + 1)
    then (guarded (MemoryTable.reserve a (n + 1) q.memreg) (λ t. record q { memreg = t })
        λ r.
          resize_again creates n
            (record r { msgsort = set_slot_range (MemoryTable.range r.memreg) r.msgsort }))
    else resize_again creates n q

-- The slot is put into the sorting of messages, if it has bytes.
unfoldable pub enter : ℕ → ℕ → ℕ → MessageQueue → Option (ℕ × MessageQueue)
enter slot mem size q =
    if ltb 0 size
    then (add_register slot mem size q.msgsort >>= λ s. some (slot, record q { msgsort = s }))
    else some (slot, q)

-- `MessageQueue::addLocalReg`; the slot, if one is given back.
unfoldable pub add_local_reg :
    Option MemoryRegion → ℕ → ℕ → MessageQueue → Exec (Option ℕ × MessageQueue)
unfolding enter
add_local_reg region mem size q = elim (MemoryTable.add_local region mem size q.memreg) [
  | fault ↦ fault
  | throws e (slot, t) ↦ throws e (slot, record q { memreg = t })
  | returns (none, t) ↦ fault
  | returns (some slot, t) ↦ elim (enter slot mem size (record q { memreg = t })) [
    | none ↦ fault
    | some (given, r) ↦ returns (some given, r)
  ]
]

-- `MessageQueue::addGlobalReg`
unfoldable pub add_global_reg : ℕ → ℕ → MessageQueue → Option (ℕ × MessageQueue)
unfolding enter
add_global_reg mem size q =
    MemoryTable.add_global mem size q.memreg >>= λ p. enter p.0 mem size (record q { memreg = p.1 })

-- `MessageQueue::removeReg`
unfoldable pub remove_reg : ℕ → MessageQueue → Option MessageQueue
remove_reg slot q = get_size slot q.memreg >>= λ size.
    (if ltb 0 size then del_register slot q.msgsort else some q.msgsort) >>= λ s.
    MemoryTable.remove slot q.memreg >>= λ t. some (record q { msgsort = s; memreg = t })

-- A call of `IBVerbs` with the numbers of two slots there.
unfoldable pub delegate : ℕ → ℕ → (ℕ → ℕ → Verbs → Exec Verbs) → MessageQueue → Exec MessageQueue
delegate src_slot dst_slot call q =
    let ids : Option (ℕ × ℕ) = get_verb_id src_slot q.memreg >>= λ src.
    get_verb_id dst_slot q.memreg >>= λ dst. some (src, dst) in
    elim ids [
      | none ↦ fault
      | some (src, dst) ↦ within (call src dst (verbs_of q)) (with_verbs q) (λ r. returns r)
    ]

-- `MessageQueue::get`
unfoldable pub get : ℕ → Bool → ℕ → ℕ → ℕ → ℕ → ℕ → ℕ → MessageQueue → Exec MessageQueue
unfolding delegate
get task accepts src_pid src_slot src_offset dst_slot dst_offset size =
    delegate src_slot dst_slot
      λ src dst. Rdma.get task accepts src_pid src src_offset dst dst_offset size

-- `MessageQueue::put`
unfoldable pub put : ℕ → Bool → ℕ → ℕ → ℕ → ℕ → ℕ → ℕ → MessageQueue → Exec MessageQueue
unfolding delegate
put task accepts src_slot src_offset dst_pid dst_slot dst_offset size =
    delegate src_slot dst_slot
      λ src dst. Rdma.put task accepts src src_offset dst_pid dst dst_offset size

-- `MessageQueue::atomic_fetch_and_add`
unfoldable pub fetch_and_add : ℕ → Bool → ℕ → ℕ → ℕ → ℕ → ℕ → ℕ → MessageQueue → Exec MessageQueue
unfolding delegate
fetch_and_add task accepts src_slot src_offset dst_pid dst_slot dst_offset value =
    delegate src_slot dst_slot
      λ src dst. Rdma.fetch_and_add task accepts src src_offset dst_pid dst dst_offset value

-- `MessageQueue::atomic_cmp_and_swp`
unfoldable pub cmp_and_swp : ℕ → Bool → ℕ → ℕ → ℕ → ℕ → ℕ → ℕ → ℕ → MessageQueue → Exec MessageQueue
unfolding delegate
cmp_and_swp task accepts src_slot src_offset dst_pid dst_slot dst_offset cmp swp =
    delegate src_slot dst_slot
      λ src dst. Rdma.cmp_and_swp task accepts src src_offset dst_pid dst dst_offset cmp swp

-- What comes from outside in one call of `sync`.
pub record QueueAnswers : Type 0 where
  pub registers : List GlobalAnswers
  pub votes : SyncAnswers

abbrev pub vote_of : Bool → ℕ
vote_of b = if b then 1 else 0

-- The vote is over: nothing is reset if somebody aborts.
unfoldable pub close : ℕ → MessageQueue → ℕ × MessageQueue
close vote q = if vote == 0 then (0, record q { resized = false }) else (vote, q)

-- `MessageQueue::sync`, from the vote on; the vote of a call that throws is beside the state.
unfoldable pub vote : Bool → ℕ → ℕ → SyncAnswers → MessageQueue → Exec (ℕ × MessageQueue)
unfolding close
vote abort attr task a q =
    elim (Sync.sync attr task (vote_of abort) (vote_of q.resized) a (verbs_of q)) [
      | fault ↦ fault
      | throws e (n, v) ↦ throws e (n, with_verbs q v)
      | returns (n, v) ↦ returns (close n (with_verbs q v))
    ]

-- `MessageQueue::sync`
unfoldable pub sync : Bool → ℕ → ℕ → QueueAnswers → MessageQueue → Exec (ℕ × MessageQueue)
unfolding vote
sync abort attr task a q = elim (MemoryTable.sync a.registers q.memreg) [
  | fault ↦ fault
  | throws e t ↦ throws e (0, record q { memreg = t })
  | returns t ↦ vote abort attr task a.votes (record q { memreg = t })
]
