-- ===== src/Verbs/Rdma.antt =====
-- `put`, `get` and the atomic operations of src/MPI/ibverbs.cpp. `task` is the task that calls, as
-- alpi_task_self gives it, and `accepts` says whether ibv_post_send takes the chain.
pub mod Transfer
pub mod Posting
pub mod Atomics
use talpf.Prelude.{
  ℕ, zero, suc, ◌+◌, ◌-◌, ◌*◌, ◌/◌, ◌%◌, ◌^◌, Bool, true, false, Option, some, none, List, [], ◌∷◌,
  ◌++◌, get_elem?, ltb, ◌==◌, if◌then◌else◌, size_mod, assert, ◌>>=◌, ◌>>◌, Exec,
}
use Prim.Native.Nat.{min as min_of}
use talpf.MemReg.Combined
use talpf.Verbs.{
  Verbs, MemorySlot, MemoryRegion, MemoryRegistration, WorkRequest, Opcode, rdma_write,
  rdma_write_with_imm, rdma_read, atomic_fetch_and_add, atomic_cmp_and_swp, int_mod, count,
  increase, post,
}

-- `int numMsgs = size/m_maxMsgSize + (size % m_maxMsgSize > 0)`. A division by 0 and an array of a
-- negative size have no result.
unfoldable pub message_count : ℕ → ℕ → Option ℕ
message_count max_msg_size size = do
  assert (ltb 0 max_msg_size)
  let n : ℕ = (size / max_msg_size + (if ltb 0 (size % max_msg_size) then 1 else 0)) % int_mod
  assert (ltb n (2 ^ 31))
  some n

-- The registrations that a transfer reads: a local and a remote address, and the keys to them.
pub record Ends : Type 0 where
  pub local_base : ℕ
  pub remote_base : ℕ
  pub lkey : ℕ
  pub rkey : ℕ

-- The memory at home is in `here`, which must have a region, and the memory of `peer` in `there`.
unfoldable pub ends : ℕ → MemorySlot → MemorySlot → Verbs → Option Ends
ends peer here there v = here.mr >>= λ mr. get_elem? here.glob v.pid >>= λ l.
    get_elem? there.glob peer >>= λ r.
    some (record { local_base = l.addr; remote_base = r.addr; lkey = mr.lkey; rkey = r.rkey })

module _ (task : ℕ) (v : Verbs) (e : Ends) where
  -- One message of `put`, with as many more to come as the first number says.
  abbrev pub put_message : ℕ → ℕ → ℕ → ℕ → WorkRequest
  put_message more local_offset remote_offset len = record {
    opcode = if more == 0 then rdma_write_with_imm else rdma_write;
    signaled = more == 0;
    wr_id = task;
    local_addr = e.local_base + local_offset;
    length = len;
    lkey = e.lkey;
    num_sge = 1;
    imm_data = v.sync_counter;
    remote_addr = e.remote_base + remote_offset;
    rkey = e.rkey;
    compare_add = 0;
    swap = 0;
  }

  -- The loop of `put`, by the messages that are left. `m_maxMsgSize` is read from the port, where
  -- it has 32 bits, so that `sge->length` holds every length.
  unfoldable pub put_messages : ℕ → ℕ → ℕ → ℕ → List WorkRequest
  put_messages zero local_offset remote_offset size = []
  put_messages (suc n) local_offset remote_offset size =
      let len : ℕ = min_of size v.max_msg_size in
      put_message n local_offset remote_offset len
      ∷ put_messages n ((local_offset + len) % size_mod) ((remote_offset + len) % size_mod)
          (size - len)

  abbrev pub get_message : ℕ → ℕ → ℕ → WorkRequest
  get_message local_offset remote_offset len = record {
    opcode = rdma_read;
    signaled = false;
    wr_id = v.pid;
    local_addr = e.local_base + local_offset;
    length = len;
    lkey = e.lkey;
    num_sge = 1;
    imm_data = 0;
    remote_addr = e.remote_base + remote_offset;
    rkey = e.rkey;
    compare_add = 0;
    swap = 0;
  }

  -- The loop of `get`.
  unfoldable pub get_messages : ℕ → ℕ → ℕ → ℕ → List WorkRequest
  get_messages zero local_offset remote_offset size = []
  get_messages (suc n) local_offset remote_offset size =
      let len : ℕ = min_of size v.max_msg_size in
      get_message local_offset remote_offset len
      ∷ get_messages n ((local_offset + len) % size_mod) ((remote_offset + len) % size_mod)
          (size - len)

  -- The message of no bytes that does the completions of `get` and of the atomic operations.
  abbrev pub completion : ℕ → ℕ → WorkRequest
  completion local_addr remote_addr = record {
    opcode = rdma_write_with_imm;
    signaled = true;
    wr_id = task;
    local_addr = local_addr;
    length = 0;
    lkey = e.lkey;
    num_sge = 0;
    imm_data = v.sync_counter;
    remote_addr = remote_addr;
    rkey = e.rkey;
    compare_add = 0;
    swap = 0;
  }

-- `IBVerbs::put`. Even a transfer of no bytes is one message.
unfoldable pub put : ℕ → Bool → ℕ → ℕ → ℕ → ℕ → ℕ → ℕ → Verbs → Exec Verbs
put task accepts src_slot src_offset dst_pid dst_slot dst_offset size v = post accepts dst_pid (
    Combined.lookup src_slot v.memreg >>= λ src. Combined.lookup dst_slot v.memreg >>= λ dst.
    ends dst_pid src dst v >>= λ e. message_count v.max_msg_size size >>= λ n.
    count dst_pid v >>= λ w. some (
      increase task w,
      put_messages task v e (if size == 0 then 1 else n) src_offset dst_offset size,
    ))

-- `IBVerbs::get`.
unfoldable pub get : ℕ → Bool → ℕ → ℕ → ℕ → ℕ → ℕ → ℕ → Verbs → Exec Verbs
get task accepts src_pid src_slot src_offset dst_slot dst_offset size v = post accepts src_pid (
    Combined.lookup src_slot v.memreg >>= λ src. Combined.lookup dst_slot v.memreg >>= λ dst.
    ends src_pid dst src v >>= λ e. message_count v.max_msg_size size >>= λ n.
    count src_pid v >>= λ w. some (
      increase task w,
      get_messages task v e n dst_offset src_offset size
          ++ completion task v e e.local_base e.remote_base ∷ [],
    ))

-- What the two atomic operations share: one atomic request on 8 bytes, and one for the completions.
-- The second request takes its keys from the slots the other way round.
unfoldable pub atomic : Opcode → ℕ → ℕ → ℕ → Bool → ℕ → ℕ → ℕ → ℕ → ℕ → Verbs → Exec Verbs
atomic opcode compare_add swap task accepts src_slot src_offset dst_pid dst_slot dst_offset v =
    post accepts dst_pid (
      Combined.lookup src_slot v.memreg >>= λ src. Combined.lookup dst_slot v.memreg >>= λ dst.
      dst.mr >>= λ dst_mr. count dst_pid v >>= λ w. ends dst_pid src dst v >>= λ e.
      get_elem? src.glob dst_pid >>= λ back.
      let near : ℕ = e.local_base + src_offset in
      let far : ℕ = e.remote_base + dst_offset in
      some (
        increase task w,
        record {
          opcode = opcode;
          signaled = false;
          wr_id = 0;
          local_addr = near;
          length = 8;
          lkey = e.lkey;
          num_sge = 1;
          imm_data = 0;
          remote_addr = far;
          rkey = e.rkey;
          compare_add = compare_add;
          swap = swap;
        }
            ∷ completion task v (record e { lkey = dst_mr.lkey; rkey = back.rkey }) near far
            ∷ [],
      ))

-- `IBVerbs::atomic_fetch_and_add`
unfoldable pub fetch_and_add : ℕ → Bool → ℕ → ℕ → ℕ → ℕ → ℕ → ℕ → Verbs → Exec Verbs
unfolding atomic
fetch_and_add task accepts src_slot src_offset dst_pid dst_slot dst_offset value =
    atomic atomic_fetch_and_add value 0 task accepts src_slot src_offset dst_pid dst_slot dst_offset

-- `IBVerbs::atomic_cmp_and_swp`
unfoldable pub cmp_and_swp : ℕ → Bool → ℕ → ℕ → ℕ → ℕ → ℕ → ℕ → ℕ → Verbs → Exec Verbs
unfolding atomic
cmp_and_swp task accepts src_slot src_offset dst_pid dst_slot dst_offset cmp swp =
    atomic atomic_cmp_and_swp cmp swp task accepts src_slot src_offset dst_pid dst_slot dst_offset
