-- ===== src/Verbs/Registration.antt =====
-- The memory registration of src/MPI/ibverbs.cpp: regLocal, regGlobal, dereg and resizeMemreg.
-- `region` is what ibv_reg_mr answers, null as `none`. The vectors of registrations are always
-- allocated.
pub mod Slots
pub mod Counts
pub mod Tests
use talpf.Prelude.{
  ℕ, ◌-◌, ◌^◌, Bool, true, false, not, ◌&&◌, Option, some, none, List, [], ◌∷◌, ltb, ◌==◌,
  if◌then◌else◌, set?, resized, length, assert, ◌>>=◌, ◌>>◌, Exec, returns, throws, fault,
  bad_alloc, verbs_error,
}
use talpf.MemReg.{Memory}
use talpf.MemReg.Combined
use talpf.MemReg.Combined.{CombinedMemoryRegister}
use talpf.Verbs.{
  Verbs, MemorySlot, MemoryRegion, MemoryRegistration, Call, allreduce_and, allreduce_or, allgather,
}

abbrev pub null : MemoryRegistration
null = record { addr = 0; size = 0; lkey = 0; rkey = 0 }

-- Only an area with bytes is registered with the device.
abbrev pub is_registered : ℕ → Option MemoryRegion → Bool
is_registered size (some mr) = true
is_registered size none = size == 0

abbrev pub region_of : ℕ → Option MemoryRegion → Option MemoryRegion
region_of size region = if size == 0 then none else region

-- `local`
abbrev pub registration : ℕ → ℕ → Option MemoryRegion → MemoryRegistration
registration addr size none = record { addr = addr; size = size; lkey = 0; rkey = 0 }
registration addr size (some mr) = record {
  addr = addr;
  size = size;
  lkey = mr.lkey;
  rkey = mr.rkey;
}

-- `glob[m_pid] = local`, through `update`.
unfoldable pub store_own :
    ℕ
    → ℕ
    → MemoryRegistration
    → CombinedMemoryRegister MemorySlot
    → Option (CombinedMemoryRegister MemorySlot)
store_own id pid own c = Combined.lookup id c >>= λ slot.
    set? slot.glob pid own >>= λ glob. Combined.update (λ s. record s { glob = glob }) id c

unfoldable pub resize_glob :
    ℕ → ℕ → CombinedMemoryRegister MemorySlot → Option (CombinedMemoryRegister MemorySlot)
resize_glob id n c = Combined.update (λ s. record s { glob = resized n null s.glob }) id c

-- The end of `regLocal`: the slot, beside the state.
unfoldable pub enter_local : Option MemoryRegion → MemoryRegistration → Verbs → Option (ℕ × Verbs)
unfolding store_own resize_glob
enter_local mr own v = Combined.add_local_reg (record { mr = mr; glob = [] }) v.memreg >>= λ p.
    resize_glob p.0 v.nprocs p.1 >>= λ d.
    store_own p.0 v.pid own d >>= λ e. some (p.0, record v { memreg = e })

-- `allgather` into `glob`, of which it writes as many elements as there are processes: with fewer of
-- them it would write behind the end, and there are never more.
unfoldable pub gather_glob :
    ℕ
    → ℕ
    → List MemoryRegistration
    → CombinedMemoryRegister MemorySlot
    → Option (CombinedMemoryRegister MemorySlot)
gather_glob id n gathered c = Combined.lookup id c >>= λ slot.
    assert (length slot.glob == n) >> Combined.update (λ s. record s { glob = gathered }) id c

-- The end of `regGlobal`, with the registrations that `allgather` collects.
unfoldable pub enter_global :
    Option MemoryRegion → MemoryRegistration → List MemoryRegistration → Verbs → Option (ℕ × Verbs)
unfolding resize_glob gather_glob
enter_global mr own gathered v =
    Combined.add_global_reg (record { mr = mr; glob = [] }) v.memreg >>= λ p.
    resize_glob p.0 v.nprocs p.1 >>= λ d. gather_glob p.0 v.nprocs gathered d >>= λ e.
    some (p.0, record v { memreg = e; calls = allgather own ∷ v.calls })

-- The slot of a call that returns, if it does.
abbrev pub with_slot : Option (ℕ × Verbs) → Exec (Option ℕ × Verbs)
with_slot none = fault
with_slot (some (id, v)) = returns (some id, v)

-- `IBVerbs::regLocal`
unfoldable pub reg_local : Option MemoryRegion → ℕ → ℕ → Verbs → Exec (Option ℕ × Verbs)
unfolding enter_local
reg_local region addr size v =
    let mr : Option MemoryRegion = region_of size region in
    if ltb v.max_reg_size size
    then fault
    else if is_registered size region
    then with_slot (enter_local mr (registration addr size mr) v)
    else throws verbs_error (none, v)

-- `IBVerbs::regGlobal`; `failed` is the answer of `allreduceOr`.
unfoldable pub reg_global :
    Option MemoryRegion → Bool → List MemoryRegistration → ℕ → ℕ → Verbs → Exec (Option ℕ × Verbs)
unfolding enter_global
reg_global region failed gathered addr size v =
    let mr : Option MemoryRegion = region_of size region in
    let w : Verbs = record v { calls = allreduce_or false ∷ v.calls } in
    if ltb v.max_reg_size size
    then fault
    else if not (is_registered size region)
    then throws verbs_error (none, record v { calls = allreduce_and true ∷ v.calls })
    else if failed
    then throws verbs_error (none, w)
    else with_slot (enter_global mr (registration addr size mr) gathered w)

-- `IBVerbs::dereg`
unfoldable pub dereg : ℕ → Verbs → Option Verbs
dereg id v = Combined.remove_reg id v.memreg >>= λ c. some (record v { memreg = c })

-- `IBVerbs::resizeMemreg`; the machine's answers are those of the two registers.
unfoldable pub resize_memreg : Memory → Memory → ℕ → Verbs → Exec Verbs
resize_memreg m m' size v =
    if ltb (2 ^ 31 - 1) size
    then throws verbs_error v
    else if ltb v.max_mr size
    then throws bad_alloc v
    else elim (Combined.reserve m m' size (record { mr = none; glob = resized v.nprocs null [] })
        v.memreg) [
          | returns c ↦ returns (record v { memreg = c })
          | throws e c ↦ throws e (record v { memreg = c })
          | fault ↦ fault
        ]
