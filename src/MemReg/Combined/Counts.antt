-- ===== src/MemReg/Combined/Counts.antt =====
-- How many global slots of src/common/memreg.hpp are left after a write or a new slot.
use talpf.Prelude.{ℕ, suc, ◌≤◌, ◌≡◌, some, bind-some, Bool-cases, inl, inr, arith}
use talpf.MemReg
use talpf.MemReg.Counts
use talpf.MemReg.Counts.{left}
use talpf.MemReg.Combined.{
  CombinedMemoryRegister, is_local_slot, from_local, from_global, add_global_reg, update,
}

module _ {ℓ} {R : Type ℓ} where
  -- `addGlobalReg` takes at most one global slot.
  pub add_global_reg-left :
      (rec : R) (c : CombinedMemoryRegister R) (slot : ℕ) (d : CombinedMemoryRegister R)
      → add_global_reg rec c ≡ some (slot, d)
      → left c.global_reg ≤ suc (left d.global_reg)
  unfolding add_global_reg
  add_global_reg-left rec c slot d e =
      let (p, adds, gives) = bind-some (MemReg.add rec c.global_reg) _ (slot, d) e in
      ground (arith, gives, Counts.add-left rec c.global_reg p.0 p.1 adds)

  -- `update` takes none.
  pub update-left :
      (f : R → R) (slot : ℕ) (c d : CombinedMemoryRegister R)
      → update f slot c ≡ some d
      → left d.global_reg ≡ left c.global_reg
  unfolding update
  update-left f slot c d e = elim (Bool-cases (is_local_slot slot)) [
    | inl odd ↦
        let (t, writes, gives) =
          bind-some (MemReg.update f (from_local slot) c.local_reg) _ d (rw odd at e) in
        ground (arith, gives)
    | inr even ↦
        let (t, writes, gives) =
          bind-some (MemReg.update f (from_global slot) c.global_reg) _ d (rw even at e) in
        ground (arith, gives, Counts.update-left f (from_global slot) c.global_reg t writes)
  ]
