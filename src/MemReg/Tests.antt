-- ===== src/MemReg/Tests.antt =====
-- Concrete runs of the memory registers, and their theorems at concrete inputs.
use talpf.Prelude.{ℕ, ◌≡◌, refl, true, false, List, [], ◌∷◌, arith, set?, resize}
use Prim.Native.Nat.{◌^◌, ◌-◌}
use talpf.MemReg.{MemoryRegister, Memory, add, remove, reserve}
use talpf.MemReg.FreeList.{mem}
use talpf.MemReg.Slots.{IsValid}
use talpf.MemReg.Histories.{Call, adds, removes, reserves, requests, run, step, run-agree}
use talpf.MemReg.Combined
use talpf.MemReg.Combined.{
  CombinedMemoryRegister, is_local_slot, add_local_reg, add_global_reg, remove_reg, range,
}
use talpf.MemReg.Combined.Slots.{
  Assigns, add_local_reg-Assigns, add_global_reg-Assigns, remove_reg-Assigns,
}

-- Four slots, of which 0 and 2 are in use.
abbrev holed : MemoryRegister ℕ
holed = record {
  slots = 10 ∷ 11 ∷ 12 ∷ 13 ∷ [];
  free = 1 ∷ [];
  free_capacity = 4;
  min_new_slot = 3;
}

holed-IsValid : IsValid holed
unfolding mem
holed-IsValid = record {
  distinct = (omega arith, refl, tt);
  dealt = omega arith;
  room = omega arith;
  word = omega arith;
}

abbrev both : CombinedMemoryRegister ℕ
both = record { local_reg = holed; global_reg = holed }

both-IsValid : Combined.Slots.IsValid both
both-IsValid = record { local_valid = holed-IsValid; global_valid = holed-IsValid }

-- The allocator has all the memory that is asked for.
abbrev plenty : Memory
plenty = record { limit = 2 ^ 60 - 1; for_free = true; for_slots = true; for_copy = true }

-- It has none.
abbrev exhausted : Memory
exhausted = record { limit = 2 ^ 60 - 1; for_free = false; for_slots = false; for_copy = false }

abbrev calls : List (Call ℕ)
calls = adds 5 ∷ removes 2 ∷ adds 6 ∷ []

abbrev other_calls : List (Call ℕ)
other_calls = adds 7 ∷ reserves plenty 9 0 ∷ removes 2 ∷ reserves exhausted 30 0 ∷ adds 8 ∷ []

-- Two processes that differ in their calls of `reserve` get the slots 1 and 2 both.
run-agree_example : ◌≡◌ {A = List ℕ} (1 ∷ 2 ∷ []) (1 ∷ 2 ∷ [])
unfolding run step requests add remove reserve set? resize
run-agree_example =
    run-agree calls other_calls holed holed (1 ∷ 2 ∷ []) (1 ∷ 2 ∷ []) refl refl refl refl refl
