-- ===== src/Api.antt =====
-- The calls of the C interface in src/MPI/core.cpp that work on a context. An lpf_t is LPF_ROOT or a
-- pointer to a context; the contexts of a process are those that the root and its hooks made. What
-- the libraries below answer is an argument of a call, as for `Interface`.
pub mod Silence
mod Tests
use talpf.Prelude.{
  ℕ, Bool, true, false, Option, none, some, List, get_elem?, set, ◌==◌, if◌then◌else◌, Exec,
  returns, throws, fault,
}
use talpf.Verbs.{MemoryRegion}
use talpf.MemoryTable.{ReserveAnswers}
use talpf.MessageQueue.{ErrorCode, success, fatal, QueueAnswers}
use talpf.Interface
use talpf.Interface.{Interface}

pub data Handle : Type 0 where
  lpf_root : Handle
  pointer : ℕ → Handle

-- The contexts, and what a registration stored last at the caller's `memslot`, and a probe as `p` and
-- `free_p` of the caller's `params`.
pub record Contexts : Type 0 where
  pub root : Interface
  pub others : List Interface
  pub memslot : Option ℕ
  pub params : Option (ℕ × ℕ)

-- `realContext`; a pointer to something else has no result.
unfoldable pub real_context : Handle → Contexts → Option Interface
real_context lpf_root cs = some cs.root
real_context (pointer n) cs = get_elem? cs.others n

-- The contexts after a call changed one of them.
unfoldable pub put_back : Handle → Interface → Contexts → Contexts
put_back lpf_root i cs = record cs { root = i }
put_back (pointer n) i cs = record cs { others = set cs.others n i }

-- `isAborted`
abbrev pub is_aborted : Interface → Bool
is_aborted i = if i.aborted == 0 then false else true

-- How a call of the context ends for the caller.
unfoldable pub ends : Handle → Contexts → Exec (ErrorCode × Interface) → Exec (ErrorCode × Contexts)
ends ctx cs (returns (e, i)) = returns (e, put_back ctx i cs)
ends ctx cs (throws x (e, i)) = throws x (e, put_back ctx i cs)
ends ctx cs fault = fault

-- The test of each call: what it does for an aborted context.
unfoldable pub unless_aborted :
    ErrorCode
    → (Interface → Exec (ErrorCode × Contexts))
    → Handle
    → Contexts
    → Exec (ErrorCode × Contexts)
unfolding real_context
unless_aborted otherwise call ctx cs = elim (real_context ctx cs) [
  | none ↦ fault
  | some i ↦ if is_aborted i then returns (otherwise, cs) else call i
]

-- A call without a status: the caller gets LPF_SUCCESS.
unfoldable pub succeeds : Exec Interface → Exec (ErrorCode × Interface)
succeeds (returns i) = returns (success, i)
succeeds (throws x i) = throws x (success, i)
succeeds fault = fault

-- A call that stores a slot.
unfoldable pub stores :
    Handle → Contexts → Exec (Option ℕ × Interface) → Exec (ErrorCode × Contexts)
unfolding put_back
stores ctx cs (returns (slot, i)) = returns (success, record (put_back ctx i cs) { memslot = slot })
stores ctx cs (throws x (slot, i)) = throws x (success, put_back ctx i cs)
stores ctx cs fault = fault

abbrev pub global_slot : Option (ℕ × Interface) → Exec (Option ℕ × Interface)
global_slot none = fault
global_slot (some (slot, i)) = returns (some slot, i)

abbrev pub total_call : Option Interface → Exec Interface
total_call none = fault
total_call (some i) = returns i

-- `talpf_put`
unfoldable pub put :
    ℕ → Bool → ℕ → ℕ → ℕ → ℕ → ℕ → ℕ → Handle → Contexts → Exec (ErrorCode × Contexts)
unfolding unless_aborted ends succeeds put_back
put task accepts src_slot src_offset dst_pid dst_slot dst_offset size ctx cs =
    unless_aborted success
      (λ i. ends ctx cs (
        succeeds
          (Interface.put task accepts src_slot src_offset dst_pid dst_slot dst_offset size i)))
      ctx cs

-- `talpf_get`; the parameter `dst_offset` is a slot number there, which has 64 bits as well.
unfoldable pub get :
    ℕ → Bool → ℕ → ℕ → ℕ → ℕ → ℕ → ℕ → Handle → Contexts → Exec (ErrorCode × Contexts)
unfolding unless_aborted ends succeeds put_back
get task accepts pid src src_offset dst dst_offset size ctx cs =
    unless_aborted success
      (λ i.
        ends ctx cs
          (succeeds (Interface.get task accepts pid src src_offset dst dst_offset size i)))
      ctx cs

-- `talpf_atomic_fetch_and_add`
unfoldable pub fetch_and_add :
    ℕ → Bool → ℕ → ℕ → ℕ → ℕ → ℕ → ℕ → Handle → Contexts → Exec (ErrorCode × Contexts)
unfolding unless_aborted ends succeeds put_back
fetch_and_add task accepts src_slot src_offset dst_pid dst_slot dst_offset value ctx cs =
    unless_aborted success
      (λ i. ends ctx cs (
        succeeds (
          Interface.fetch_and_add task accepts src_slot src_offset dst_pid dst_slot dst_offset value
            i)))
      ctx cs

-- `talpf_atomic_cmp_and_swp`
unfoldable pub cmp_and_swp :
    ℕ → Bool → ℕ → ℕ → ℕ → ℕ → ℕ → ℕ → ℕ → Handle → Contexts → Exec (ErrorCode × Contexts)
unfolding unless_aborted ends succeeds put_back
cmp_and_swp task accepts src_slot src_offset dst_pid dst_slot dst_offset cmp swp ctx cs =
    unless_aborted success
      (λ i. ends ctx cs (
        succeeds (
          Interface.cmp_and_swp task accepts src_slot src_offset dst_pid dst_slot dst_offset cmp swp
            i)))
      ctx cs

-- `lpf_register_global`
unfoldable pub register_global : ℕ → ℕ → Handle → Contexts → Exec (ErrorCode × Contexts)
unfolding unless_aborted stores
register_global memory size ctx cs =
    unless_aborted success
      (λ i. stores ctx cs (global_slot (Interface.register_global memory size i))) ctx cs

-- `lpf_register_local`
unfoldable pub register_local :
    Option MemoryRegion → ℕ → ℕ → Handle → Contexts → Exec (ErrorCode × Contexts)
unfolding unless_aborted stores
register_local region memory size ctx cs =
    unless_aborted success (λ i. stores ctx cs (Interface.register_local region memory size i)) ctx
      cs

-- `lpf_deregister`
unfoldable pub deregister : ℕ → Handle → Contexts → Exec (ErrorCode × Contexts)
unfolding unless_aborted ends succeeds put_back
deregister memslot ctx cs =
    unless_aborted success
      (λ i. ends ctx cs (succeeds (total_call (Interface.deregister memslot i)))) ctx cs

-- `lpf_resize_memory_register`
unfoldable pub resize_memory_register :
    ReserveAnswers → List Bool → ℕ → Handle → Contexts → Exec (ErrorCode × Contexts)
unfolding unless_aborted ends put_back
resize_memory_register a creates max_regs ctx cs =
    unless_aborted success (λ i. ends ctx cs (Interface.resize_memreg a creates max_regs i)) ctx cs

-- `lpf_resize_message_queue`
unfoldable pub resize_message_queue :
    List Bool → ℕ → Handle → Contexts → Exec (ErrorCode × Contexts)
unfolding unless_aborted ends put_back
resize_message_queue creates max_msgs ctx cs =
    unless_aborted success (λ i. ends ctx cs (Interface.resize_mesg_queue creates max_msgs i)) ctx
      cs

-- `lpf_exec`, where the argument is what `Interface::exec` does to the context.
unfoldable pub exec :
    (Interface → Exec (ErrorCode × Interface)) → Handle → Contexts → Exec (ErrorCode × Contexts)
unfolding unless_aborted ends put_back
exec run ctx cs = unless_aborted fatal (λ i. ends ctx cs (run i)) ctx cs

-- `talpf_sync`
unfoldable pub sync : ℕ → ℕ → QueueAnswers → Handle → Contexts → Exec (ErrorCode × Contexts)
unfolding real_context ends put_back
sync attr task a ctx cs = elim (real_context ctx cs) [
  | none ↦ fault
  | some i ↦ ends ctx cs (Interface.sync attr task a i)
]

-- `lpf_probe`, with the number of processes of MPI and of those that are free; the two functions that
-- it stores as well are always the same.
unfoldable pub probe : ℕ → ℕ → Handle → Contexts → Exec (ErrorCode × Contexts)
unfolding unless_aborted
probe nprocs free ctx cs =
    unless_aborted success (λ i. returns (success, record cs { params = some (nprocs, free) })) ctx
      cs

-- How a call ends that only looks at the context.
abbrev pub leaves : Contexts → Exec ErrorCode → Exec (ErrorCode × Contexts)
leaves cs (returns e) = returns (e, cs)
leaves cs (throws x e) = throws x (e, cs)
leaves cs fault = fault

-- `lpf_rehook`, where the argument is what `Interface::rehook` gives, on a copy of the communicator of
-- the context. There is no test of `isAborted`.
unfoldable pub rehook :
    (Interface → Exec ErrorCode) → Handle → Contexts → Exec (ErrorCode × Contexts)
unfolding real_context
rehook run ctx cs = elim (real_context ctx cs) [ none ↦ fault | some i ↦ leaves cs (run i) ]
