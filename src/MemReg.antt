-- ===== src/MemReg.antt =====
-- `MemoryRegister` of src/common/memreg.hpp: records under slot numbers that are used again. Its
-- failed assertions and accesses out of range are `none` or `fault`.
pub mod FreeList
pub mod Slots
pub mod Update
pub mod Reserve
pub mod Counts
pub mod Histories
pub mod Combined
mod Tests
use talpf.Prelude.{
  ℕ, zero, suc, ◌+◌, ◌-◌, ◌%◌, Bool, true, false, Option, none, some, List, [], ◌∷◌, length,
  get_elem?, set?, resize, resized, take, ltb, leb, ◌==◌, if◌then◌else◌, size_mod, assert, ◌>>=◌,
  ◌>>◌, Exec, returns, throws, fault, bad_alloc, ◌||◌,
}
use Prim.Native.Nat.{max as max_of}

-- `m_slots`, `m_free` with its `capacity()`, and `m_minNewSlotNr`. The head of `free` is the back
-- of the vector.
pub record MemoryRegister {ℓ} (R : Type ℓ) : Type ℓ where
  pub slots : List R
  pub free : List ℕ
  pub free_capacity : ℕ
  pub min_new_slot : ℕ

-- What the machine answers in one call of `reserve`: the most elements that either vector can have,
-- and whether the allocator has the memory for the free list, the slots and the copy of the free
-- list.
pub record Memory : Type 0 where
  pub limit : ℕ
  pub for_free : Bool
  pub for_slots : Bool
  pub for_copy : Bool

-- `std::numeric_limits< Slot >::max()`
abbrev pub invalid_slot : ℕ
invalid_slot = size_mod - 1

module _ {ℓ} {R : Type ℓ} where
  unfoldable pub init : MemoryRegister R
  init = record { slots = []; free = []; free_capacity = 0; min_new_slot = 0 }

  unfoldable pub destroy : MemoryRegister R → MemoryRegister R
  destroy r = record r { slots = []; free = []; min_new_slot = 0 }

  -- The slot that `add` deals out, by the free list.
  unfoldable pub deal : List ℕ → MemoryRegister R → Option (ℕ × MemoryRegister R)
  deal [] r = some (r.min_new_slot, record r { min_new_slot = (r.min_new_slot + 1) % size_mod })
  deal (slot ∷ rest) r = do
    assert (leb (length r.free) r.free_capacity)
    assert (ltb (length rest) r.free_capacity)
    some (slot, record r { free = rest })

  unfoldable pub add : R → MemoryRegister R → Option (ℕ × MemoryRegister R)
  unfolding deal
  add rec r = deal r.free r >>= λ p.
      set? p.1.slots p.0 rec >>= λ slots. some (p.0, record (p.1) { slots = slots })

  -- `m_minNewSlotNr - 1`
  abbrev pub last_dealt : MemoryRegister R → ℕ
  last_dealt r = (r.min_new_slot + size_mod - 1) % size_mod

  unfoldable pub remove : ℕ → MemoryRegister R → Option (MemoryRegister R)
  remove slot r = do
    assert (ltb slot (length r.slots))
    assert (ltb (length r.free) r.free_capacity)
    let t : MemoryRegister R =
        if slot == last_dealt r
        then record r { min_new_slot = last_dealt r }
        else record r { free = slot ∷ r.free }
    assert (leb (length t.free) t.free_capacity)
    some t

  unfoldable pub lookup : ℕ → MemoryRegister R → Option R
  lookup slot r = get_elem? r.slots slot

  -- A write through the reference that `update` returns.
  unfoldable pub update : (R → R) → ℕ → MemoryRegister R → Option (MemoryRegister R)
  update f slot r = get_elem? r.slots slot >>= λ rec.
      set? r.slots slot (f rec) >>= λ slots. some (record r { slots = slots })

  unfoldable pub capacity : MemoryRegister R → ℕ
  capacity r = length r.slots

  -- `m_free.reserve( n )`, which allocates only to grow.
  unfoldable pub reserve_free : Bool → ℕ → MemoryRegister R → Option (MemoryRegister R)
  reserve_free alloc n r =
      if leb n r.free_capacity
      then some r
      else if alloc
      then some (record r { free_capacity = n })
      else none

  -- The branch of `reserve` in which the register grows.
  unfoldable pub grow : Memory → ℕ → R → MemoryRegister R → Exec (MemoryRegister R)
  unfolding reserve_free
  grow m n d r = if ltb m.limit n then throws bad_alloc r else elim (reserve_free m.for_free n r) [
    | none ↦ throws bad_alloc r
    | some t ↦ elim (resize m.for_slots n d t.slots) [
      | none ↦ throws bad_alloc t
      | some slots ↦ returns (record t { slots = slots })
    ]
  ]

  -- The branch in which it shrinks. The copy of the slots changes nothing but the memory held, and
  -- that of the free list is dropped if the allocator has no memory for it.
  unfoldable pub cut : Memory → ℕ → MemoryRegister R → MemoryRegister R
  cut m n r =
      let keep : ℕ = max_of n r.min_new_slot in
      let t : MemoryRegister R = record r { slots = take keep r.slots } in
      if m.for_copy then record t { free_capacity = max_of (length r.free) keep } else t

  unfoldable pub reserve : Memory → ℕ → R → MemoryRegister R → Exec (MemoryRegister R)
  unfolding grow cut
  reserve m n d r = if ltb (length r.slots) n then grow m n d r else returns (cut m n r)
