-- ===== src/MemReg/Combined/Update.antt =====
-- What a write through `update` of the combined register of src/common/memreg.hpp changes.
use talpf.Prelude.{
  ℕ, ◌<◌, ◌≡◌, refl, sym, subst, Bool, true, false, some, size_mod, ◌==◌, if◌then◌else◌, ◌>>=◌,
  arith, Bool-cases, inl, inr, ◌∙◌,
}
use talpf.MemReg.Slots
use talpf.MemReg.Slots.{lt-of_is_used}
use talpf.MemReg.Update.{update-Deals}
use talpf.MemReg.Combined.{
  CombinedMemoryRegister, is_local_slot, from_local, from_global, to_local, to_global, lookup,
  update, range,
}
use talpf.MemReg.Combined.Slots.{IsValid, is_used, Assigns, Assigns-local, Assigns-global}

module _ {ℓ} {R : Type ℓ} where
  -- A write to a slot in use changes its record, and nothing else.
  pub update-Assigns :
      (f : R → R) (slot : ℕ) (rec : R) (c : CombinedMemoryRegister R)
      → IsValid c
      → slot < size_mod
      → is_used slot c ≡ true
      → lookup slot c ≡ some rec
      → (d : CombinedMemoryRegister R) × (update f slot c ≡ some d)
        × (lookup slot d ≡ some (f rec))
        × Assigns slot true c d
  unfolding update lookup
  update-Assigns f slot rec c v h used found = elim (Bool-cases (is_local_slot slot)) [
    | inl odd ↦
        let u : Slots.is_used (from_local slot) c.local_reg ≡ true = rw odd at used in
        let (t, e, found_now, d) =
          update-Deals f (from_local slot) rec c.local_reg v.local_valid u (rw odd at found) in
        let back : to_local (from_local slot) ≡ slot = ground (arith, odd) in
        (
          record c { local_reg = t },
          rw odd (rw (e, ◌>>=◌)),
          rw odd found_now,
          rw back at (
              Assigns-local (from_local slot) true c t v
                (lt-of_is_used (from_local slot) c.local_reg v.local_valid u) d),
        )
    | inr even ↦
        let u : Slots.is_used (from_global slot) c.global_reg ≡ true = rw even at used in
        let (t, e, found_now, d) =
          update-Deals f (from_global slot) rec c.global_reg v.global_valid u (rw even at found) in
        let back : to_global (from_global slot) ≡ slot = ground (arith, even) in
        (
          record c { global_reg = t },
          rw even (rw (e, ◌>>=◌)),
          rw even found_now,
          rw back at (
              Assigns-global (from_global slot) true c t v
                (lt-of_is_used (from_global slot) c.global_reg v.global_valid u) d),
        )
  ]

  -- Two changes of one slot are one.
  pub Assigns-trans :
      (slot : ℕ) (c d e : CombinedMemoryRegister R)
      → Assigns slot true c d
      → Assigns slot true d e
      → Assigns slot true c e
  Assigns-trans slot c d e p q = record {
    valid = q.valid;
    used = λ j h. ground (arith, p.used j h, q.used j h);
    others = λ j h n. q.others j h n ∙ p.others j h n;
    same_range = q.same_range ∙ p.same_range;
  }

  pub range-lt : (c : CombinedMemoryRegister R) → range c < size_mod
  unfolding range
  range-lt c = omega arith

  -- Of a slot that goes into use, and of one that stays in use.
  pub Assigns-used :
      (slot : ℕ) (c d : CombinedMemoryRegister R)
      → slot < size_mod
      → Assigns slot true c d
      → is_used slot d ≡ true
  Assigns-used slot c d h a = a.used slot h ∙ same_answer slot (is_used slot c)
    where
      same_answer : (n : ℕ) (b : Bool) → (if n == n then true else b) ≡ true
      same_answer n b = ground arith

  -- A write to a slot in use leaves the same slots in use.
  pub Assigns-same_use :
      (slot : ℕ) (c d : CombinedMemoryRegister R)
      → is_used slot c ≡ true
      → Assigns slot true c d
      → (k : ℕ) → k < size_mod
      → is_used k d ≡ is_used k c
  Assigns-same_use slot c d used a k h = elim (Bool-cases (slot == k)) [
    | inl same ↦
        let e : slot ≡ k = ground (arith, same) in
        a.used k h ∙ (rw same (sym (subst (λ n. is_used n c ≡ true) e used)))
    | inr other ↦ a.used k h ∙ (rw other refl)
  ]

  -- A slot that goes into use leaves each slot in use as it was.
  pub Assigns-kept :
      (slot : ℕ) (c d : CombinedMemoryRegister R)
      → is_used slot c ≡ false
      → Assigns slot true c d
      → (k : ℕ) → k < size_mod
      → is_used k c ≡ true
      → (is_used k d ≡ true) × (lookup k d ≡ lookup k c)
  Assigns-kept slot c d unused a k h held = elim (Bool-cases (slot == k)) [
    | inl same ↦
        let e : slot ≡ k = ground (arith, same) in
        let no : true ≡ false = sym held ∙ subst (λ n. is_used n c ≡ false) e unused in
        absurd (ground (arith, no))
    | inr other ↦ (a.used k h ∙ (rw other held), a.others k h other)
  ]
