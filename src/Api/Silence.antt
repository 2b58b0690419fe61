-- ===== src/Api/Silence.antt =====
-- What the C interface in src/MPI/core.cpp does once a context is aborted.
use talpf.Prelude.{ℕ, Bool, Option, List, [], ◌∷◌, Exec, returns, throws, fault}
use talpf.Verbs.{MemoryRegion}
use talpf.MemoryTable.{ReserveAnswers}
use talpf.MessageQueue.{ErrorCode, success, fatal, QueueAnswers}
use talpf.Interface
use talpf.Interface.{Interface}
use talpf.Api.{
  Handle, Contexts, put, get, fetch_and_add, cmp_and_swp, register_global, register_local,
  deregister, resize_memory_register, resize_message_queue, exec, sync, probe, rehook,
}

-- The calls on a context, each with its arguments and what the libraries below answer; for
-- `lpf_rehook`, the status that the hook returns.
pub data Call : Type 0 where
  puts : ℕ → Bool → ℕ → ℕ → ℕ → ℕ → ℕ → ℕ → Call
  gets : ℕ → Bool → ℕ → ℕ → ℕ → ℕ → ℕ → ℕ → Call
  adds : ℕ → Bool → ℕ → ℕ → ℕ → ℕ → ℕ → ℕ → Call
  swaps : ℕ → Bool → ℕ → ℕ → ℕ → ℕ → ℕ → ℕ → ℕ → Call
  registers_global : ℕ → ℕ → Call
  registers_local : Option MemoryRegion → ℕ → ℕ → Call
  deregisters : ℕ → Call
  resizes_register : ReserveAnswers → List Bool → ℕ → Call
  resizes_queue : List Bool → ℕ → Call
  execs : (Interface → Exec (ErrorCode × Interface)) → Call
  syncs : ℕ → ℕ → QueueAnswers → Call
  probes : ℕ → ℕ → Call
  rehooks : ErrorCode → Call

unfoldable pub call : Call → Handle → Contexts → Exec (ErrorCode × Contexts)
call (puts t a s so d ds o n) = put t a s so d ds o n
call (gets t a p s so d o n) = get t a p s so d o n
call (adds t a s so d ds o v) = fetch_and_add t a s so d ds o v
call (swaps t a s so d ds o c v) = cmp_and_swp t a s so d ds o c v
call (registers_global m n) = register_global m n
call (registers_local r m n) = register_local r m n
call (deregisters slot) = deregister slot
call (resizes_register a creates n) = resize_memory_register a creates n
call (resizes_queue creates n) = resize_message_queue creates n
call (execs run) = exec run
call (syncs attr task a) = sync attr task a
call (probes nprocs free) = probe nprocs free
call (rehooks e) = rehook (λ i. returns e)

-- What the calls of a sequence return.
unfoldable pub calls : List Call → Handle → Contexts → Exec (List ErrorCode × Contexts)
unfolding call
calls [] ctx cs = returns ([], cs)
calls (c ∷ rest) ctx cs = elim (call c ctx cs) [
  | fault ↦ fault
  | throws x (e, ds) ↦ throws x (e ∷ [], ds)
  | returns (e, ds) ↦ elim (calls rest ctx ds) [
    | fault ↦ fault
    | throws x (es, fs) ↦ throws x (e ∷ es, fs)
    | returns (es, fs) ↦ returns (e ∷ es, fs)
  ]
]

-- The status of a call on an aborted context: exec and sync tell, and a rehook is not stopped.
abbrev pub told : Call → ErrorCode
told (execs run) = fatal
told (syncs attr task a) = fatal
told (puts t a s so d ds o n) = success
told (gets t a p s so d o n) = success
told (adds t a s so d ds o v) = success
told (swaps t a s so d ds o c v) = success
told (registers_global m n) = success
told (registers_local r m n) = success
told (deregisters slot) = success
told (resizes_register a creates n) = success
told (resizes_queue creates n) = success
told (probes nprocs free) = success
told (rehooks e) = e

abbrev pub all_told : List Call → List ErrorCode
all_told [] = []
all_told (c ∷ rest) = told c ∷ all_told rest
