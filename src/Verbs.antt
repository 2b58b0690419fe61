-- ===== src/Verbs.antt =====
-- The state of `IBVerbs` in src/MPI/ibverbs.hpp, what it posts to the network, and the counters of
-- its messages. Calls of the verbs library and of the tasking interface ALPI are not computed: they
-- are written down in `calls`, newest first, and what they answer is an argument.
pub mod Rdma
pub mod Progress
pub mod Sync
pub mod Registration
pub mod Queues
pub mod Connect
pub mod Setup
mod Tests
use talpf.Prelude.{
  ℕ, suc, ◌+◌, ◌-◌, ◌%◌, ◌^◌, Bool, true, false, Option, some, none, List, [], ◌∷◌, get_elem?, set?,
  ◌>>=◌, ◌>>◌, Exec, returns, throws, fault, Exception, verbs_error,
}
use talpf.MemReg.Combined.{CombinedMemoryRegister}

-- `MemoryRegistration`
pub record MemoryRegistration : Type 0 where
  pub addr : ℕ
  pub size : ℕ
  pub lkey : ℕ
  pub rkey : ℕ

-- `struct ibv_mr`, as far as it is read.
pub record MemoryRegion : Type 0 where
  pub lkey : ℕ
  pub rkey : ℕ

-- `MemorySlot`; a null `mr` is `none`.
pub record MemorySlot : Type 0 where
  pub mr : Option MemoryRegion
  pub glob : List MemoryRegistration

pub data Opcode : Type 0 where
  rdma_write rdma_write_with_imm rdma_read atomic_fetch_and_add atomic_cmp_and_swp : Opcode

-- `struct ibv_send_wr` with its one scatter-gather entry; a chain by `next` is a list.
pub record WorkRequest : Type 0 where
  pub opcode : Opcode
  pub signaled : Bool
  pub wr_id : ℕ
  pub local_addr : ℕ
  pub length : ℕ
  pub lkey : ℕ
  pub num_sge : ℕ
  pub imm_data : ℕ
  pub remote_addr : ℕ
  pub rkey : ℕ
  pub compare_add : ℕ
  pub swap : ℕ

-- A call out of the module.
pub data Call : Type 0 where
  events_increase : ℕ → Call
  events_decrease : ℕ → Call
  task_block : ℕ → Call
  task_unblock : ℕ → Call
  iallreduce_sum : ℕ → ℕ → Call
  allreduce_sum : ℕ → Call
  allreduce_and : Bool → Call
  allreduce_or : Bool → Call
  allgather : MemoryRegistration → Call
  reconnect_qps : Call
  start_barrier : Call
  barrier : Call
  resize_cq_local : ℕ → Call
  resize_cq_remote : ℕ → Call
  create_qp : ℕ → ℕ → Call
  post_recv : Call
  post_send : ℕ → List WorkRequest → Call
  post_send_failed : ℕ → List WorkRequest → Call

-- `SyncRequest`; the barrier's request object is the communication library's.
pub record SyncRequest : Type 0 where
  pub is_active : Bool
  pub with_barrier : Bool
  pub remote_msgs : ℕ
  pub task : Option ℕ
  pub second_phase : Bool

pub record Verbs : Type 0 where
  pub pid : ℕ
  pub nprocs : ℕ
  pub max_msg_size : ℕ
  pub max_reg_size : ℕ
  pub max_mr : ℕ
  pub max_srs : ℕ
  pub min_nr_msgs : ℕ
  pub cq_size : ℕ
  pub post_count : ℕ
  pub num_msgs : ℕ
  pub num_msgs_sync : List ℕ
  pub sync_counter : ℕ
  pub recv_counts : List ℕ
  pub sync_cached : Bool
  pub sync_cached_value : ℕ
  pub sync_request : SyncRequest
  pub block_task : Option ℕ
  pub memreg : CombinedMemoryRegister MemorySlot
  pub calls : List Call

-- An `int` or `std::atomic_int`, as its pattern of 32 bits.
abbrev pub int_mod : ℕ
int_mod = 2 ^ 32

abbrev pub int_add : ℕ → ℕ → ℕ
int_add a b = (a + b) % int_mod

abbrev pub int_sub : ℕ → ℕ → ℕ
int_sub a b = (a + int_mod - b) % int_mod

-- `atomic_fetch_add` of 1 on `m_numMsgs` and `m_numMsgsSync[pid]`.
unfoldable pub count : ℕ → Verbs → Option Verbs
count peer v = get_elem? v.num_msgs_sync peer >>= λ n.
    set? v.num_msgs_sync peer (int_add n 1) >>= λ ns.
    some (record v { num_msgs = int_add v.num_msgs 1; num_msgs_sync = ns })

-- `atomic_fetch_sub` of 1 on both.
unfoldable pub uncount : ℕ → Verbs → Option Verbs
uncount peer v = get_elem? v.num_msgs_sync peer >>= λ n.
    set? v.num_msgs_sync peer (int_sub n 1) >>= λ ns.
    some (record v { num_msgs = int_sub v.num_msgs 1; num_msgs_sync = ns })

-- `alpi_task_events_increase( task, 1 )`
unfoldable pub increase : ℕ → Verbs → Verbs
increase task v = record v { calls = events_increase task ∷ v.calls }

-- `ibv_post_send` of a chain to a peer, which is refused if `accepts` is false; then the counters
-- are taken back, and the exception is thrown.
unfoldable pub post : Bool → ℕ → Option (Verbs × List WorkRequest) → Exec Verbs
post accepts peer none = fault
post true peer (some (v, chain)) = returns (record v { calls = post_send peer chain ∷ v.calls })
post false peer (some (v, chain)) =
    elim (uncount peer (record v { calls = post_send_failed peer chain ∷ v.calls })) [
      | none ↦ fault
      | some w ↦ throws verbs_error w
    ]
