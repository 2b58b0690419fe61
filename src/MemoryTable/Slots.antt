-- ===== src/MemoryTable/Slots.antt =====
-- What addGlobal of src/MPI/memorytable.cpp does to the slots and to the list of new ones.
use talpf.Prelude.{ℕ, ◌≤◌, ◌<◌, ◌≡◌, true, false, some, length, arith}
use talpf.MemReg.Slots.{used_count}
use talpf.MemReg.Combined
use talpf.MemReg.Combined.{is_local_slot, range}
use talpf.MemReg.Combined.Slots.{IsValid, is_used, Assigns, add_global_reg-Assigns}
use talpf.SparseSet.Contents
use talpf.SparseSet.Contents.{Updates, insert-Updates}
use talpf.MemoryTable.{MemoryTable, no_slot, add_global}

-- Both parts are valid, and the list of new slots spans all slots.
pub record IsTable (t : MemoryTable) : Type 0 where
  pub slots : IsValid t.memreg
  pub new_slots : Contents.IsValid t.added
  pub from_zero : t.added.min ≡ 0
  pub spans : range t.memreg ≤ t.added.max

-- While there is room, `addGlobal` gives back an even slot that was not in use, stores the memory
-- there without a registration, and puts the slot on the list of new ones; all else stays, and the
-- table stays valid.
pub add_global-Updates :
    (mem size : ℕ) (t : MemoryTable)
    → IsTable t
    → used_count t.memreg.global_reg < length t.memreg.global_reg.slots
    → (slot : ℕ) × (u : MemoryTable) × (add_global mem size t ≡ some (slot, u))
      × (is_local_slot slot ≡ false)
      × (is_used slot t.memreg ≡ false)
      × (Combined.lookup slot u.memreg ≡ some (record { addr = mem; size = size; slot = no_slot }))
      × Assigns slot true t.memreg u.memreg
      × Updates slot true t.added u.added
      × IsTable u
unfolding add_global
add_global-Updates mem size t valid room =
    let (slot, c, adds, even, below, unused, found, a) =
      add_global_reg-Assigns (record { addr = mem; size = size; slot = no_slot }) t.memreg
        valid.slots room in
    let (added, inserts, b) =
      insert-Updates slot valid.new_slots (omega (arith, valid.from_zero))
        (omega (arith, valid.spans, below)) in
    (
      slot,
      record t { memreg = c; added = added },
      ground (arith, adds, inserts),
      even,
      unused,
      found,
      a,
      b,
      record {
        slots = a.valid;
        new_slots = b.valid;
        from_zero = omega (arith, valid.from_zero, b.same_min);
        spans = omega (arith, valid.spans, a.same_range, b.same_max);
      },
    )
