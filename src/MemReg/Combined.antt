-- ===== src/MemReg/Combined.antt =====
-- `CombinedMemoryRegister` of src/common/memreg.hpp: two registers behind one kind of slot number,
-- odd for the local one and even for the global one.
pub mod Slots
pub mod Update
pub mod Counts
use talpf.Prelude.{
  ℕ, ◌+◌, ◌-◌, ◌*◌, ◌/◌, ◌%◌, Bool, Option, some, none, ◌==◌, if◌then◌else◌, size_mod, ◌>>=◌, ◌>>◌,
  Exec, returns, throws, fault,
}
use Prim.Native.Nat.{max as max_of, min as min_of}
use talpf.MemReg
use talpf.MemReg.{MemoryRegister, Memory}

pub record CombinedMemoryRegister {ℓ} (R : Type ℓ) : Type ℓ where
  pub local_reg : MemoryRegister R
  pub global_reg : MemoryRegister R

abbrev pub is_local_slot : ℕ → Bool
is_local_slot slot = slot % 2 == 1

abbrev pub from_global : ℕ → ℕ
from_global slot = slot / 2

abbrev pub from_local : ℕ → ℕ
from_local slot = (slot + size_mod - 1) % size_mod / 2

abbrev pub to_global : ℕ → ℕ
to_global slot = (2 * slot) % size_mod

abbrev pub to_local : ℕ → ℕ
to_local slot = (2 * slot + 1) % size_mod

module _ {ℓ} {R : Type ℓ} where
  unfoldable pub init : CombinedMemoryRegister R
  init = record { local_reg = MemReg.init; global_reg = MemReg.init }

  unfoldable pub destroy : CombinedMemoryRegister R → CombinedMemoryRegister R
  destroy c = record {
    local_reg = MemReg.destroy c.local_reg;
    global_reg = MemReg.destroy c.global_reg;
  }

  unfoldable pub add_local_reg :
      R → CombinedMemoryRegister R → Option (ℕ × CombinedMemoryRegister R)
  add_local_reg rec c =
      MemReg.add rec c.local_reg >>= λ p. some (to_local p.0, record c { local_reg = p.1 })

  unfoldable pub add_global_reg :
      R → CombinedMemoryRegister R → Option (ℕ × CombinedMemoryRegister R)
  add_global_reg rec c =
      MemReg.add rec c.global_reg >>= λ p. some (to_global p.0, record c { global_reg = p.1 })

  unfoldable pub remove_reg : ℕ → CombinedMemoryRegister R → Option (CombinedMemoryRegister R)
  remove_reg slot c =
      if is_local_slot slot
      then (MemReg.remove (from_local slot) c.local_reg >>= λ t. some (record c { local_reg = t }))
      else (MemReg.remove (from_global slot) c.global_reg >>= λ t.
          some (record c { global_reg = t }))

  unfoldable pub lookup : ℕ → CombinedMemoryRegister R → Option R
  lookup slot c =
      if is_local_slot slot
      then MemReg.lookup (from_local slot) c.local_reg
      else MemReg.lookup (from_global slot) c.global_reg

  unfoldable pub update : (R → R) → ℕ → CombinedMemoryRegister R → Option (CombinedMemoryRegister R)
  update f slot c =
      if is_local_slot slot
      then (MemReg.update f (from_local slot) c.local_reg >>= λ t.
          some (record c { local_reg = t }))
      else (MemReg.update f (from_global slot) c.global_reg >>= λ t.
          some (record c { global_reg = t }))

  -- The local register, once the global one is done.
  unfoldable pub reserve_local :
      Memory → ℕ → R → CombinedMemoryRegister R → Exec (CombinedMemoryRegister R)
  reserve_local m n d c = elim (MemReg.reserve m n d c.local_reg) [
    | returns t ↦ returns (record c { local_reg = t })
    | throws e t ↦ throws e (record c { local_reg = t })
    | fault ↦ fault
  ]

  -- `m` and `m'` are what the machine answers the global and the local register.
  unfoldable pub reserve :
      Memory → Memory → ℕ → R → CombinedMemoryRegister R → Exec (CombinedMemoryRegister R)
  unfolding reserve_local
  reserve m m' n d c = elim (MemReg.reserve m n d c.global_reg) [
    | returns t ↦ reserve_local m' n d (record c { global_reg = t })
    | throws e t ↦ throws e (record c { global_reg = t })
    | fault ↦ fault
  ]

  unfoldable pub capacity : CombinedMemoryRegister R → ℕ
  capacity c = min_of (MemReg.capacity c.global_reg) (MemReg.capacity c.local_reg)

  unfoldable pub range : CombinedMemoryRegister R → ℕ
  range c =
      max_of ((2 * MemReg.capacity c.global_reg) % size_mod)
        ((2 * MemReg.capacity c.local_reg + 1) % size_mod)
