-- ===== src/MemoryTable/Removes.antt =====
-- What remove of src/MPI/memorytable.cpp does to the slots, to the list of new ones and to `IBVerbs`.
use talpf.Prelude.{ℕ, ◌<◌, ◌≡◌, ◌⊎◌, refl, true, false, some, size_mod, arith, Bool-cases, inl, inr}
use talpf.MemReg.Combined
use talpf.MemReg.Combined.{CombinedMemoryRegister, range}
use talpf.MemReg.Combined.Slots.{IsValid, is_used, Assigns, remove_reg-Assigns}
use talpf.SparseSet.{SparseSet, contains}
use talpf.SparseSet.Contents.{has, contains-has, erase-Updates}
use talpf.SparseSet.Contents
use talpf.MemoryTable.{Memory, MemoryTable, remove}
use talpf.MemoryTable.Slots.{IsTable}
use talpf.Verbs.{Verbs}
use talpf.Verbs.Registration.{dereg}

-- The last step, once the slot is on no list of new ones.
takes_out :
    (slot : ℕ) (t : MemoryTable) (added : SparseSet) (v : Verbs)
    → IsTable t
    → slot < size_mod
    → is_used slot t.memreg ≡ true
    → Contents.IsValid added
    → added.min ≡ t.added.min
    → added.max ≡ t.added.max
    → (c : CombinedMemoryRegister Memory) × (Combined.remove_reg slot t.memreg ≡ some c)
      × Assigns slot false t.memreg c
      × IsTable (record t { memreg = c; added = added; verbs = v })
takes_out slot t added v valid small used added_valid lo hi =
    let (c, removes, a) = remove_reg-Assigns slot t.memreg valid.slots small used in
    (
      c,
      removes,
      a,
      record {
        slots = a.valid;
        new_slots = added_valid;
        from_zero = omega (arith, valid.from_zero, lo);
        spans = omega (arith, valid.spans, a.same_range, hi);
      },
    )

-- `remove` of a slot in use takes it out of use and off the list of new slots, and keeps the table
-- valid. If the slot is new, nothing happens at `IBVerbs`; if not, the slot that it is registered as
-- goes out of use there, and all others stay. Conditions: the number of a slot that is not new is
-- that of a slot in use at `IBVerbs`.
pub remove-Updates :
    (slot : ℕ) (m : Memory) (t : MemoryTable)
    → IsTable t
    → IsValid t.verbs.memreg
    → slot < size_mod
    → is_used slot t.memreg ≡ true
    → Combined.lookup slot t.memreg ≡ some m
    → (contains slot t.added ≡ some false
        → (m.slot < size_mod) × (is_used m.slot t.verbs.memreg ≡ true))
    → (u : MemoryTable) × (remove slot t ≡ some u)
      × (contains slot u.added ≡ some false)
      × Assigns slot false t.memreg u.memreg
      × IsTable u
      × (((contains slot t.added ≡ some true) × (u.verbs ≡ t.verbs))
          ⊎ ((contains slot t.added ≡ some false)
              × Assigns m.slot false t.verbs.memreg u.verbs.memreg))
unfolding remove dereg
remove-Updates slot m t valid verbs_valid small used found registered =
    let asks : contains slot t.added ≡ some (has slot t.added) =
      contains-has slot valid.new_slots in
    elim (Bool-cases (has slot t.added)) [
      | inl new ↦
          let (added, erases, b) =
            erase-Updates slot valid.new_slots (ground (arith, new)) (ground (arith, new)) in
          let (c, removes, a, w) =
            takes_out slot t added t.verbs valid small used b.valid b.same_min b.same_max in
          (
            record t { memreg = c; added = added },
            ground (arith, asks, new, erases, removes),
            ground (arith, b.contents slot),
            a,
            w,
            inl (ground (arith, asks, new), refl),
          )
      | inr old ↦
          let no : contains slot t.added ≡ some false = ground (arith, asks, old) in
          let (tiny, held) = registered no in
          let (d, frees, e) = remove_reg-Assigns m.slot t.verbs.memreg verbs_valid tiny held in
          let v : Verbs = record (t.verbs) { memreg = d } in
          let (c, removes, a, w) =
            takes_out slot t t.added v valid small used valid.new_slots refl refl in
          (
            record t { memreg = c; verbs = v },
            ground (arith, no, found, frees, removes),
            no,
            a,
            w,
            inr (no, e),
          )
    ]
