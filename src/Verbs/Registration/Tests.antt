-- ===== src/Verbs/Registration/Tests.antt =====
-- Concrete registrations, and their theorems at concrete inputs.
use talpf.Prelude.{
  ℕ, ◌≡◌, refl, true, false, some, none, List, [], ◌∷◌, set, resized, returns, throws, verbs_error,
  arith,
}
use talpf.MemReg.{MemoryRegister}
use talpf.MemReg.FreeList.{mem}
use talpf.MemReg.Slots
use talpf.MemReg.Combined.{CombinedMemoryRegister, is_local_slot}
use talpf.MemReg.Combined.Slots.{IsValid}
use talpf.Verbs.{Verbs, MemorySlot, MemoryRegistration, MemoryRegion, allreduce_or, allgather}
use talpf.Verbs.Registration.{null, reg_local, reg_global}
use talpf.Verbs.Registration.Slots.{Registers, reg_local-Registers, reg_global-Registers}
use talpf.Verbs.Tests.{pair, near_slot}

-- Two slots, of which the last one is in use.
abbrev one_of_two : MemoryRegister MemorySlot
one_of_two = record {
  slots = near_slot ∷ near_slot ∷ [];
  free = 0 ∷ [];
  free_capacity = 2;
  min_new_slot = 2;
}

abbrev pub partly : Verbs
partly = record pair { memreg = record { local_reg = one_of_two; global_reg = one_of_two } }

one_of_two-IsValid : Slots.IsValid one_of_two
unfolding mem
one_of_two-IsValid = record {
  distinct = (omega arith, refl, tt);
  dealt = omega arith;
  room = omega arith;
  word = omega arith;
}

pub partly-IsValid : IsValid partly.memreg
partly-IsValid = record { local_valid = one_of_two-IsValid; global_valid = one_of_two-IsValid }

abbrev pub region : MemoryRegion
region = record { lkey = 3; rkey = 4 }

abbrev area : MemoryRegistration
area = record { addr = 5000; size = 16; lkey = 3; rkey = 4 }

abbrev pub both_areas : List MemoryRegistration
both_areas = area ∷ record { addr = 6000; size = 16; lkey = 13; rkey = 14 } ∷ []

reg_local-Registers_example :
    (slot : ℕ) × (c : CombinedMemoryRegister MemorySlot) × (reg_local (some region) 5000 16 partly
      ≡ returns (some slot, record partly { memreg = c }))
    × (is_local_slot slot ≡ true)
    × Registers slot
        (record { mr = some region; glob = set (resized 2 null []) 0 area })
        partly.memreg
        c
reg_local-Registers_example =
    reg_local-Registers (some region) 5000 16 partly partly-IsValid (omega arith) refl (omega arith)
      (omega arith)

reg_global-Registers_example :
    (slot : ℕ) × (c : CombinedMemoryRegister MemorySlot) × (reg_global
        (some region)
        false
        both_areas
        5000
        16
        partly
      ≡ returns (
        some slot,
        record partly { memreg = c; calls = allgather area ∷ allreduce_or false ∷ [] },
      ))
    × (reg_global (some region) true both_areas 5000 16 partly
        ≡ throws verbs_error (none, record partly { calls = allreduce_or false ∷ [] }))
    × (is_local_slot slot ≡ false)
    × Registers slot (record { mr = some region; glob = both_areas }) partly.memreg c
reg_global-Registers_example =
    reg_global-Registers (some region) 5000 16 partly partly-IsValid (omega arith) refl both_areas
      (omega arith)
