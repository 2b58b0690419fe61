-- ===== src/Verbs/Registration/Counts.antt =====
-- How many global slots of src/MPI/ibverbs.cpp are left after regGlobal.
use talpf.Prelude.{
  ℕ, suc, ◌≤◌, ◌≡◌, Bool, false, ◌∷◌, Option, some, List, returns, bind-some, arith, assert, length,
  ◌==◌,
}
use talpf.MemReg.Counts.{left}
use talpf.MemReg.Combined
use talpf.MemReg.Combined.Counts.{add_global_reg-left, update-left}
use talpf.Verbs.{Verbs, MemoryRegion, MemoryRegistration, allreduce_or}
use talpf.Verbs.Registration.{
  region_of, registration, resize_glob, gather_glob, enter_global, reg_global,
}

abbrev pub slots_left : Verbs → ℕ
slots_left v = left v.memreg.global_reg

enter_global-left :
    (mr : Option MemoryRegion) (own : MemoryRegistration) (gathered : List MemoryRegistration)
    (v : Verbs) (id : ℕ) (w : Verbs)
    → enter_global mr own gathered v ≡ some (id, w)
    → slots_left v ≤ suc (slots_left w)
unfolding enter_global resize_glob gather_glob
enter_global-left mr own gathered v id w e =
    let (p, adds, rest) = bind-some (Combined.add_global_reg _ v.memreg) _ (id, w) e in
    let (d, sizes, more) = bind-some (resize_glob p.0 v.nprocs p.1) _ (id, w) rest in
    let (c, gathers, gives) = bind-some (gather_glob p.0 v.nprocs gathered d) _ (id, w) more in
    let (slot, _, checked) = bind-some (Combined.lookup p.0 d) _ c gathers in
    let (u, _, stores) = bind-some (assert (length slot.glob == v.nprocs)) _ c checked in
    ground (
      arith,
      gives,
      add_global_reg-left _ v.memreg p.0 p.1 adds,
      update-left _ p.0 p.1 d sizes,
      update-left _ p.0 d c stores,
    )

-- `regGlobal` takes at most one global slot.
pub reg_global-left :
    (region : Option MemoryRegion) (failed : Bool) (gathered : List MemoryRegistration)
    (addr size : ℕ) (v : Verbs) (id : ℕ) (w : Verbs)
    → reg_global region failed gathered addr size v ≡ returns (some id, w)
    → slots_left v ≤ suc (slots_left w)
unfolding reg_global
reg_global-left region failed gathered addr size v id w e =
    let x : Verbs = record v { calls = allreduce_or false ∷ v.calls } in
    let mr : Option MemoryRegion = region_of size region in
    let own : MemoryRegistration = registration addr size mr in
    let entered : enter_global mr own gathered x ≡ some (id, w) = ground (arith, e) in
    omega (arith, enter_global-left mr own gathered x id w entered)
