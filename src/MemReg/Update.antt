-- ===== src/MemReg/Update.antt =====
-- What a write through `update` of src/common/memreg.hpp changes.
use talpf.Prelude.{
  ℕ, ◌<◌, ◌≡◌, refl, true, some, length, set, set?, length-set, get_elem?-set, ◌==◌, arith,
  Bool-cases, inl, inr,
}
use talpf.MemReg.{MemoryRegister, lookup, update}
use talpf.MemReg.Slots.{IsValid, is_used, Deals, lt-of_is_used}

module _ {ℓ} {R : Type ℓ} where
  -- A write to a slot in use changes its record, and nothing else.
  pub update-Deals :
      (f : R → R) (slot : ℕ) (rec : R) (r : MemoryRegister R)
      → IsValid r
      → is_used slot r ≡ true
      → lookup slot r ≡ some rec
      → (t : MemoryRegister R) × (update f slot r ≡ some t)
        × (lookup slot t ≡ some (f rec))
        × Deals slot true r t
  unfolding update lookup set?
  update-Deals f slot rec r v used found =
      let lt : slot < length r.slots = lt-of_is_used slot r v used in
      let k : length (set r.slots slot (f rec)) ≡ length r.slots =
        length-set r.slots slot (f rec) in
      (
        record r { slots = set r.slots slot (f rec) },
        ground (arith, lt, found),
        ground (arith, lt, get_elem?-set r.slots slot slot (f rec)),
        record {
          valid = record {
            distinct = v.distinct;
            dealt = omega (arith, v.dealt, k);
            room = omega (arith, v.room, k);
            word = omega (arith, v.word, k);
          };
          used = λ j. elim (Bool-cases (slot == j)) [
            | inl same ↦ ground (arith, same, used)
            | inr other ↦ rw other refl
          ];
          others = λ j n. ground (arith, n, lt, get_elem?-set r.slots slot j (f rec));
          same_size = k;
        },
      )
