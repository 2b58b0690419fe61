-- ===== src/MemReg/Combined/Slots.antt =====
-- The combined register of src/common/memreg.hpp as one set of slots.
use talpf.Prelude.{
  ℕ, ◌<◌, ◌≡◌, refl, Bool, true, false, some, length, ◌==◌, if◌then◌else◌, size_mod, ◌>>=◌, arith,
  Bool-cases, inl, inr,
}
use talpf.MemReg
use talpf.MemReg.{MemoryRegister}
use talpf.MemReg.Slots
use talpf.MemReg.Slots.{Deals, used_count, lt-of_is_used, add-Deals, remove-Deals}
use talpf.MemReg.Combined.{
  CombinedMemoryRegister, is_local_slot, from_local, from_global, to_local, to_global,
  add_local_reg, add_global_reg, remove_reg, lookup, range,
}

module _ {ℓ} {R : Type ℓ} where
  pub record IsValid (c : CombinedMemoryRegister R) : Type ℓ where
    pub local_valid : Slots.IsValid c.local_reg
    pub global_valid : Slots.IsValid c.global_reg

  abbrev pub is_used : ℕ → CombinedMemoryRegister R → Bool
  is_used slot c =
      if is_local_slot slot
      then Slots.is_used (from_local slot) c.local_reg
      else Slots.is_used (from_global slot) c.global_reg

  -- `d` is `c` with the use of `slot` set to `answer`, and with every other slot and record as it
  -- was, for slot numbers of 64 bits.
  pub record Assigns (slot : ℕ) (answer : Bool) (c d : CombinedMemoryRegister R) : Type ℓ where
    pub valid : IsValid d
    pub used : (j : ℕ) → j < size_mod → is_used j d ≡ (if slot == j then answer else is_used j c)
    pub others : (j : ℕ) → j < size_mod → (slot == j) ≡ false → lookup j d ≡ lookup j c
    pub same_range : range d ≡ range c

  pub Assigns-local :
      (slot : ℕ) (answer : Bool) (c : CombinedMemoryRegister R) (t : MemoryRegister R)
      → IsValid c
      → slot < length c.local_reg.slots
      → Deals slot answer c.local_reg t
      → Assigns (to_local slot) answer c (record c { local_reg = t })
  unfolding lookup range MemReg.capacity
  Assigns-local slot answer c t v lt d = record {
    valid = record { local_valid = d.valid; global_valid = v.global_valid };
    used = λ j h. ground (arith, v.local_valid.word, d.used (from_local j));
    others = λ j h n. elim (Bool-cases (is_local_slot j)) [
      | inl odd ↦ rw odd (d.others (from_local j) (ground (arith, n, odd, v.local_valid.word)))
      | inr even ↦ rw even refl
    ];
    same_range = ground (arith, d.same_size);
  }

  pub Assigns-global :
      (slot : ℕ) (answer : Bool) (c : CombinedMemoryRegister R) (t : MemoryRegister R)
      → IsValid c
      → slot < length c.global_reg.slots
      → Deals slot answer c.global_reg t
      → Assigns (to_global slot) answer c (record c { global_reg = t })
  unfolding lookup range MemReg.capacity
  Assigns-global slot answer c t v lt d = record {
    valid = record { local_valid = v.local_valid; global_valid = d.valid };
    used = λ j h. ground (arith, v.global_valid.word, d.used (from_global j));
    others = λ j h n. elim (Bool-cases (is_local_slot j)) [
      | inl odd ↦ rw odd refl
      | inr even ↦ rw even (d.others (from_global j) (ground (arith, n, even, v.global_valid.word)))
    ];
    same_range = ground (arith, d.same_size);
  }

  -- While fewer slots are in use than the local register has, `addLocalReg` deals out an odd slot
  -- that was not in use, below `range`, and stores the record there.
  pub add_local_reg-Assigns :
      (rec : R) (c : CombinedMemoryRegister R)
      → IsValid c
      → used_count c.local_reg < length c.local_reg.slots
      → (slot : ℕ) × (d : CombinedMemoryRegister R) × (add_local_reg rec c ≡ some (slot, d))
        × (is_local_slot slot ≡ true)
        × (slot < range c)
        × (is_used slot c ≡ false)
        × (lookup slot d ≡ some rec)
        × Assigns slot true c d
  unfolding add_local_reg lookup range MemReg.capacity
  add_local_reg-Assigns rec c v room =
      let (slot, t, e, unused, found, d) = add-Deals rec c.local_reg v.local_valid room in
      let lt : slot < length t.slots = lt-of_is_used slot t d.valid (ground (arith, d.used slot)) in
      let bound : slot < length c.local_reg.slots = omega (arith, lt, d.same_size) in
      let odd : is_local_slot (to_local slot) ≡ true = ground (arith, bound, v.local_valid.word) in
      let back : from_local (to_local slot) ≡ slot = omega (arith, bound, v.local_valid.word) in
      (
        to_local slot,
        record c { local_reg = t },
        rw (e, ◌>>=◌),
        odd,
        ground (arith, bound, v.local_valid.word, v.global_valid.word),
        rw odd (rw back unused),
        rw odd (rw back found),
        Assigns-local slot true c t v bound d,
      )

  -- While fewer slots are in use than the global register has, `addGlobalReg` deals out an even slot
  -- that was not in use, below `range`, and stores the record there.
  pub add_global_reg-Assigns :
      (rec : R) (c : CombinedMemoryRegister R)
      → IsValid c
      → used_count c.global_reg < length c.global_reg.slots
      → (slot : ℕ) × (d : CombinedMemoryRegister R) × (add_global_reg rec c ≡ some (slot, d))
        × (is_local_slot slot ≡ false)
        × (slot < range c)
        × (is_used slot c ≡ false)
        × (lookup slot d ≡ some rec)
        × Assigns slot true c d
  unfolding add_global_reg lookup range MemReg.capacity
  add_global_reg-Assigns rec c v room =
      let (slot, t, e, unused, found, d) = add-Deals rec c.global_reg v.global_valid room in
      let lt : slot < length t.slots = lt-of_is_used slot t d.valid (ground (arith, d.used slot)) in
      let bound : slot < length c.global_reg.slots = omega (arith, lt, d.same_size) in
      let even : is_local_slot (to_global slot) ≡ false =
        ground (arith, bound, v.global_valid.word) in
      let back : from_global (to_global slot) ≡ slot = omega (arith, bound, v.global_valid.word) in
      (
        to_global slot,
        record c { global_reg = t },
        rw (e, ◌>>=◌),
        even,
        ground (arith, bound, v.local_valid.word, v.global_valid.word),
        rw even (rw back unused),
        rw even (rw back found),
        Assigns-global slot true c t v bound d,
      )

  -- `removeReg` of a slot in use takes it out of use, in the register that it belongs to, and
  -- leaves every other slot and all records as they were.
  pub remove_reg-Assigns :
      (slot : ℕ) (c : CombinedMemoryRegister R)
      → IsValid c
      → slot < size_mod
      → is_used slot c ≡ true
      → (d : CombinedMemoryRegister R) × (remove_reg slot c ≡ some d) × Assigns slot false c d
  unfolding remove_reg
  remove_reg-Assigns slot c v h used = elim (Bool-cases (is_local_slot slot)) [
    | inl odd ↦
        let u : Slots.is_used (from_local slot) c.local_reg ≡ true = rw odd at used in
        let (t, e, same, d) = remove-Deals (from_local slot) c.local_reg v.local_valid u in
        let back : to_local (from_local slot) ≡ slot = ground (arith, odd) in
        (
          record c { local_reg = t },
          rw odd (rw (e, ◌>>=◌)),
          rw back at (
              Assigns-local (from_local slot) false c t v
                (lt-of_is_used (from_local slot) c.local_reg v.local_valid u) d),
        )
    | inr even ↦
        let u : Slots.is_used (from_global slot) c.global_reg ≡ true = rw even at used in
        let (t, e, same, d) = remove-Deals (from_global slot) c.global_reg v.global_valid u in
        let back : to_global (from_global slot) ≡ slot = ground (arith, even) in
        (
          record c { global_reg = t },
          rw even (rw (e, ◌>>=◌)),
          rw back at (
              Assigns-global (from_global slot) false c t v
                (lt-of_is_used (from_global slot) c.global_reg v.global_valid u) d),
        )
  ]
