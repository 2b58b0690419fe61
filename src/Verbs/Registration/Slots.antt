-- ===== src/Verbs/Registration/Slots.antt =====
-- What regLocal and regGlobal of src/MPI/ibverbs.cpp leave in the slots.
use talpf.Prelude.{
  ℕ, ◌≤◌, ◌<◌, ◌≡◌, true, false, Option, some, none, List, [], ◌∷◌, length, set, set?, resized,
  length-resized, returns, throws, verbs_error, arith, size_mod,
}
use talpf.MemReg.Slots.{used_count}
use talpf.MemReg.Combined
use talpf.MemReg.Combined.{CombinedMemoryRegister, is_local_slot}
use talpf.MemReg.Combined.Slots.{
  IsValid, is_used, Assigns, add_local_reg-Assigns, add_global_reg-Assigns,
}
use talpf.MemReg.Combined.Update.{update-Assigns, Assigns-trans, range-lt}
use talpf.Verbs.{Verbs, MemorySlot, MemoryRegion, MemoryRegistration, allreduce_or, allgather}
use talpf.Verbs.Registration.{
  null, region_of, is_registered, registration, store_own, resize_glob, gather_glob, enter_local,
  enter_global, reg_local, reg_global,
}

-- A new slot of 64 bits, which holds `record`, is in use; the register is the same otherwise.
pub record Registers (slot : ℕ) (rec : MemorySlot) (c d : CombinedMemoryRegister MemorySlot)
    : Type 0 where
  pub small : slot < size_mod
  pub unused : is_used slot c ≡ false
  pub found : Combined.lookup slot d ≡ some rec
  pub assigns : Assigns slot true c d

abbrev Register : Type 0
Register = CombinedMemoryRegister MemorySlot

rewrites-Registers :
    (f : MemorySlot → MemorySlot) (slot : ℕ) (rec : MemorySlot) (c d : Register)
    → slot < size_mod
    → Registers slot rec c d
    → (e : Register) × (Combined.update f slot d ≡ some e) × Registers slot (f rec) c e
rewrites-Registers f slot rec c d small r =
    let used : is_used slot d ≡ true = ground (arith, r.assigns.used slot small) in
    let (e, goes, found, a) = update-Assigns f slot rec d r.assigns.valid small used r.found in
    (
      e,
      goes,
      record {
        small = small;
        unused = r.unused;
        found = found;
        assigns = Assigns-trans slot c d e r.assigns a;
      },
    )

module _ (region : Option MemoryRegion) (addr size : ℕ) (v : Verbs) (valid : IsValid v.memreg)
    (fits : size ≤ v.max_reg_size) (registered : is_registered size region ≡ true) where
  abbrev mr : Option MemoryRegion
  mr = region_of size region

  abbrev own : MemoryRegistration
  own = registration addr size mr

  -- While there is room, `regLocal` of an area that the device takes gives back an odd slot that was
  -- not in use, with the registration of the area for the process itself and null for the others.
  pub reg_local-Registers :
      used_count v.memreg.local_reg < length v.memreg.local_reg.slots
      → v.pid < v.nprocs
      → (slot : ℕ) × (c : CombinedMemoryRegister MemorySlot) × (reg_local region addr size v
          ≡ returns (some slot, record v { memreg = c }))
        × (is_local_slot slot ≡ true)
        × Registers slot
            (record { mr = mr; glob = set (resized v.nprocs null []) v.pid own })
            v.memreg
            c
  unfolding reg_local enter_local store_own resize_glob set?
  reg_local-Registers room here =
      let fresh : MemorySlot = record { mr = mr; glob = [] } in
      let (slot, c, adds, odd, below, unused, found, a) =
        add_local_reg-Assigns fresh v.memreg valid room in
      let small : slot < size_mod = omega (arith, range-lt v.memreg) in
      let (d, resizes, r) =
        rewrites-Registers (λ s. record s { glob = resized v.nprocs null s.glob }) slot fresh
          v.memreg c small
          (record { small = small; unused = unused; found = found; assigns = a }) in
      let glob : List MemoryRegistration = set (resized v.nprocs null []) v.pid own in
      let (e, stores, q) =
        rewrites-Registers (λ s. record s { glob = glob }) slot
          (record fresh { glob = resized v.nprocs null [] }) v.memreg d small r in
      (
        slot,
        e,
        ground (
          arith,
          fits,
          registered,
          adds,
          resizes,
          r.found,
          here,
          length-resized v.nprocs null [],
          stores,
        ),
        odd,
        q,
      )

  -- While there is room, `regGlobal` of an area that the device takes asks the others whether they
  -- failed. If so it throws and keeps the slots; if not, it gives back an even slot that was not in
  -- use, with the registrations that all processes have for it.
  pub reg_global-Registers :
      (gathered : List MemoryRegistration)
      → used_count v.memreg.global_reg < length v.memreg.global_reg.slots
      → (slot : ℕ) × (c : CombinedMemoryRegister MemorySlot) × (reg_global region false gathered
            addr size v
          ≡ returns (
            some slot,
            record v { memreg = c; calls = allgather own ∷ allreduce_or false ∷ v.calls },
          ))
        × (reg_global region true gathered addr size v
            ≡ throws verbs_error (none, record v { calls = allreduce_or false ∷ v.calls }))
        × (is_local_slot slot ≡ false)
        × Registers slot (record { mr = mr; glob = gathered }) v.memreg c
  unfolding reg_global enter_global resize_glob gather_glob
  reg_global-Registers gathered room =
      let fresh : MemorySlot = record { mr = mr; glob = [] } in
      let (slot, c, adds, even, below, unused, found, a) =
        add_global_reg-Assigns fresh v.memreg valid room in
      let small : slot < size_mod = omega (arith, range-lt v.memreg) in
      let (d, resizes, r) =
        rewrites-Registers (λ s. record s { glob = resized v.nprocs null s.glob }) slot fresh
          v.memreg c small
          (record { small = small; unused = unused; found = found; assigns = a }) in
      let (e, stores, q) =
        rewrites-Registers (λ s. record s { glob = gathered }) slot
          (record fresh { glob = resized v.nprocs null [] }) v.memreg d small r in
      (
        slot,
        e,
        ground (
          arith,
          fits,
          registered,
          adds,
          resizes,
          r.found,
          length-resized v.nprocs null [],
          stores,
        ),
        ground (arith, fits, registered),
        even,
        q,
      )
