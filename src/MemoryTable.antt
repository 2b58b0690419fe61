-- ===== src/MemoryTable.antt =====
-- `MemoryTable` of src/MPI/memorytable.hpp and memorytable.cpp: the memory slots of a process, their
-- numbers at `IBVerbs`, and the global slots that are still to be registered there.
pub mod Slots
pub mod Jobs
pub mod Removes
pub mod Sync
pub mod Tests
use talpf.Prelude.{
  ℕ, ◌+◌, ◌-◌, Bool, true, false, not, Option, some, none, List, [], ◌∷◌, leb, if◌then◌else◌,
  assert, size_mod, ◌>>=◌, ◌>>◌, Exec, returns, throws, fault, verbs_error, within, on_return,
  nothrow,
}
use talpf.MemReg.Combined
use talpf.MemReg.Combined.{CombinedMemoryRegister, is_local_slot}
use talpf.SparseSet
use talpf.SparseSet.{SparseSet}
use talpf.Verbs.{Verbs, MemoryRegion, MemoryRegistration, barrier}
use talpf.Verbs.Registration.{reg_local, reg_global, dereg, resize_memreg}
use talpf.MemReg.{Memory as Room}

-- `MemoryTable::Memory`
pub record Memory : Type 0 where
  pub addr : ℕ
  pub size : ℕ
  pub slot : ℕ

pub record MemoryTable : Type 0 where
  pub memreg : CombinedMemoryRegister Memory
  pub capacity : ℕ
  pub added : SparseSet
  pub verbs : Verbs

-- The number -1 of a memory that is not registered.
abbrev pub no_slot : ℕ
no_slot = size_mod - 1

-- The constructor.
unfoldable pub init : Bool → Bool → Verbs → Exec MemoryTable
init for_domain for_map v =
    within (SparseSet.construct for_domain for_map 0 0)
      (λ added. record { memreg = Combined.init; capacity = 0; added = added; verbs = v })
      λ t. returns t

-- `MemoryTable::addLocal`; the slot, if one is given back.
unfoldable pub add_local : Option MemoryRegion → ℕ → ℕ → MemoryTable → Exec (Option ℕ × MemoryTable)
add_local region mem size t = elim (reg_local region mem size t.verbs) [
  | fault ↦ fault
  | throws e (id, v) ↦ throws e (none, record t { verbs = v })
  | returns (none, v) ↦ fault
  | returns (some id, v) ↦
      elim (Combined.add_local_reg (record { addr = mem; size = size; slot = id }) t.memreg) [
        | none ↦ fault
        | some (slot, c) ↦ returns (some slot, record t { memreg = c; verbs = v })
      ]
]

-- `MemoryTable::addGlobal`
unfoldable pub add_global : ℕ → ℕ → MemoryTable → Option (ℕ × MemoryTable)
add_global mem size t =
    Combined.add_global_reg (record { addr = mem; size = size; slot = no_slot }) t.memreg >>= λ p.
    SparseSet.insert p.0 t.added >>= λ added. some (p.0, record t { memreg = p.1; added = added })

-- `MemoryTable::remove`
unfoldable pub remove : ℕ → MemoryTable → Option MemoryTable
remove slot t = SparseSet.contains slot t.added >>= λ is_new.
    (if is_new
      then (SparseSet.erase slot t.added >>= λ added. some (record t { added = added }))
      else (Combined.lookup slot t.memreg >>= λ m.
          dereg m.slot t.verbs >>= λ v. some (record t { verbs = v })))
    >>= λ u. Combined.remove_reg slot u.memreg >>= λ c. some (record u { memreg = c })

-- `MemoryTable::getAddress`, with its ASSERT.
unfoldable pub get_address : ℕ → ℕ → MemoryTable → Option ℕ
get_address slot offset t =
    Combined.lookup slot t.memreg >>= λ m. assert (leb offset m.size) >> some (m.addr + offset)

unfoldable pub get_size : ℕ → MemoryTable → Option ℕ
get_size slot t = Combined.lookup slot t.memreg >>= λ m. some m.size

unfoldable pub get_verb_id : ℕ → MemoryTable → Option ℕ
get_verb_id slot t = Combined.lookup slot t.memreg >>= λ m. some m.slot

unfoldable pub needs_sync : MemoryTable → Bool
needs_sync t = not (SparseSet.is_empty t.added)

-- `MemoryTable::range`
unfoldable pub range : MemoryTable → ℕ
range t = Combined.range t.memreg

-- What the machine answers in one call of `reserve`.
pub record ReserveAnswers : Type 0 where
  pub for_global : Room
  pub for_local : Room
  pub for_domain : Bool
  pub for_map : Bool
  pub for_verbs_global : Room
  pub for_verbs_local : Room

-- `MemoryTable::reserve`
unfoldable pub reserve : ReserveAnswers → ℕ → MemoryTable → Exec MemoryTable
unfolding range
reserve a n t =
    within
      (Combined.reserve a.for_global a.for_local n (record { addr = 0; size = 0; slot = no_slot })
        t.memreg)
      (λ c. record t { memreg = c })
      λ u.
        within (SparseSet.resize_range a.for_domain a.for_map (range u) u.added)
          (λ added. record u { added = added })
          λ w.
            within (resize_memreg a.for_verbs_global a.for_verbs_local n w.verbs)
              (λ v. record w { verbs = v }) λ x. returns (record x { capacity = n })

-- What comes from outside in one call of `regGlobal`.
pub record GlobalAnswers : Type 0 where
  pub region : Option MemoryRegion
  pub failed : Bool
  pub gathered : List MemoryRegistration

-- The body of the loop of `sync`, for one new slot.
unfoldable pub register : GlobalAnswers → ℕ → MemoryTable → Exec MemoryTable
register a slot t = elim (assert (not (is_local_slot slot)) >> Combined.lookup slot t.memreg) [
  | none ↦ fault
  | some m ↦ elim (reg_global a.region a.failed a.gathered m.addr m.size t.verbs) [
    | fault ↦ fault
    | throws e (id, v) ↦ throws e (record t { verbs = v })
    | returns (none, v) ↦ fault
    | returns (some id, v) ↦ nothrow (
        Combined.update (λ r. record r { slot = id }) slot t.memreg >>= λ c.
        some (record t { memreg = c; verbs = v }))
  ]
]

-- The loop, with the answers for each slot.
unfoldable pub register_all : List GlobalAnswers → List ℕ → MemoryTable → Exec MemoryTable
register_all answers [] t = returns t
register_all [] (slot ∷ slots) t = fault
register_all (a ∷ answers) (slot ∷ slots) t =
    on_return (register a slot t) (register_all answers slots)

-- `m_comm.barrier()` and the clearing of the list.
unfoldable pub forget_new : MemoryTable → MemoryTable
forget_new t = record t {
  verbs = record (t.verbs) { calls = barrier ∷ t.verbs.calls };
  added = SparseSet.clear t.added;
}

-- `MemoryTable::sync`
unfoldable pub sync : List GlobalAnswers → MemoryTable → Exec MemoryTable
unfolding register_all forget_new
sync answers t =
    if needs_sync t
    then on_return (register_all answers (SparseSet.elements t.added) t)
        (λ u. returns (forget_new u))
    else returns t
