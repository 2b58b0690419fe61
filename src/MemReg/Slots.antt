-- ===== src/MemReg/Slots.antt =====
-- What `add` and `remove` of src/common/memreg.hpp do to the set of slots in use.
use talpf.Prelude.{
  ℕ, suc, ◌+◌, ◌-◌, ◌*◌, ◌≤◌, ◌<◌, ◌≡◌, refl, sym, ap, Bool, true, false, not, ◌&&◌, some, List, [],
  ◌∷◌, length, set, set?, length-set, get_elem?-set, ltb, ◌==◌, if◌then◌else◌, size_mod, ◌>>=◌,
  arith, inl, inr, Bool-cases,
}
use talpf.MemReg.{MemoryRegister, deal, add, remove, lookup, last_dealt}
use talpf.MemReg.FreeList.{mem, IsFreeList, IsFreeList-pred, IsFreeList-mono, length-IsFreeList}

module _ {ℓ} {R : Type ℓ} where
  pub record IsValid (r : MemoryRegister R) : Type ℓ where
    pub distinct : IsFreeList r.min_new_slot r.free
    pub dealt : r.min_new_slot ≤ length r.slots
    pub room : length r.slots ≤ r.free_capacity
    pub word : 2 * length r.slots + 1 < size_mod

  -- A slot is in use if it was dealt out and is not on the free list.
  abbrev pub is_used : ℕ → MemoryRegister R → Bool
  is_used slot r = ltb slot r.min_new_slot && not (mem slot r.free)

  abbrev pub used_count : MemoryRegister R → ℕ
  used_count r = r.min_new_slot - length r.free

  -- `t` is `r` with the use of `slot` set to `answer`, and with every other slot and record as it was.
  pub record Deals (slot : ℕ) (answer : Bool) (r t : MemoryRegister R) : Type ℓ where
    pub valid : IsValid t
    pub used : (j : ℕ) → is_used j t ≡ (if slot == j then answer else is_used j r)
    pub others : (j : ℕ) → (slot == j) ≡ false → lookup j t ≡ lookup j r
    pub same_size : length t.slots ≡ length r.slots

  pub lt-of_is_used :
      (slot : ℕ) (r : MemoryRegister R) → IsValid r → is_used slot r ≡ true → slot < length r.slots
  lt-of_is_used slot r v h = ground (arith, h, v.dealt)

  deal-Deals :
      (fs : List ℕ) (r : MemoryRegister R)
      → fs ≡ r.free
      → IsValid r
      → used_count r < length r.slots
      → (slot : ℕ) × (t : MemoryRegister R) × (deal fs r ≡ some (slot, t))
        × (is_used slot r ≡ false)
        × (slot < length r.slots)
        × (t.slots ≡ r.slots)
        × Deals slot true r t
  unfolding deal mem lookup
  deal-Deals [] r e v h =
      let none_free : length r.free ≡ 0 = ap length (sym e) in
      (
        r.min_new_slot,
        record r { min_new_slot = r.min_new_slot + 1 },
        ground (arith, none_free, v.word),
        ground arith,
        omega (arith, none_free),
        refl,
        record {
          valid = record {
            distinct =
                IsFreeList-mono r.min_new_slot (r.min_new_slot + 1) r.free v.distinct (omega arith);
            dealt = omega (arith, none_free);
            room = v.room;
            word = v.word;
          };
          used = λ j. ground arith;
          others = λ j n. refl;
          same_size = refl;
        },
      )
  deal-Deals (f ∷ fs) r e v h =
      let d : IsFreeList r.min_new_slot (f ∷ fs) = rw (← e) at v.distinct in
      let l : length r.free ≡ suc (length fs) = ap length (sym e) in
      let b : length r.free ≤ r.min_new_slot = length-IsFreeList r.min_new_slot r.free v.distinct in
      (
        f,
        record r { free = fs },
        ground (arith, l, b, v.dealt, v.room),
        ground arith,
        omega (arith, d, v.dealt),
        refl,
        record {
          valid = record { distinct = d.2; dealt = v.dealt; room = v.room; word = v.word };
          used = λ j. ground (arith, d);
          others = λ j n. refl;
          same_size = refl;
        },
      )

  stored :
      (rec : R) (slot : ℕ) (r t : MemoryRegister R)
      → slot < length r.slots
      → t.slots ≡ r.slots
      → Deals slot true r t
      → let u : MemoryRegister R = record t { slots = set t.slots slot rec } in
        (set? t.slots slot rec ≡ some u.slots) × (lookup slot u ≡ some rec) × Deals slot true r u
  unfolding set? lookup
  stored rec slot r t h same d =
      let l : length t.slots ≡ length r.slots = ap length same in
      let k : length (set t.slots slot rec) ≡ length t.slots = length-set t.slots slot rec in
      (
        ground (arith, l),
        ground (arith, l, get_elem?-set t.slots slot slot rec),
        record {
          valid = record {
            distinct = d.valid.distinct;
            dealt = omega (arith, d.valid.dealt, k);
            room = omega (arith, d.valid.room, k);
            word = omega (arith, d.valid.word, k);
          };
          used = d.used;
          others = λ j n. ground (arith, n, l, d.others j n, get_elem?-set t.slots slot j rec);
          same_size = omega (arith, k, l);
        },
      )

  -- While fewer slots are in use than the register has, `add` deals out a slot that was not in use,
  -- and stores the record there; the other slots and their records stay as they are.
  pub add-Deals :
      (rec : R) (r : MemoryRegister R)
      → IsValid r
      → used_count r < length r.slots
      → (slot : ℕ) × (t : MemoryRegister R) × (add rec r ≡ some (slot, t))
        × (is_used slot r ≡ false)
        × (lookup slot t ≡ some rec)
        × Deals slot true r t
  unfolding add
  add-Deals rec r v h =
      let (slot, t, e, unused, lt, same, d) = deal-Deals r.free r refl v h in
      let (wrote, found, d') = stored rec slot r t lt same d in
      (
        slot,
        record t { slots = set t.slots slot rec },
        rw (e, ◌>>=◌, wrote) refl,
        unused,
        found,
        d',
      )

  -- `remove` of a slot in use takes it out of use; every other slot and all records stay as they are.
  pub remove-Deals :
      (slot : ℕ) (r : MemoryRegister R)
      → IsValid r
      → is_used slot r ≡ true
      → (t : MemoryRegister R) × (remove slot r ≡ some t)
        × (t.slots ≡ r.slots)
        × Deals slot false r t
  unfolding remove mem lookup
  remove-Deals slot r v used = elim (Bool-cases (slot == last_dealt r)) [
    | inl last ↦
        let e : slot + 1 ≡ r.min_new_slot = ground (arith, last, in_use, v.dealt, v.word) in
        (
          record r { min_new_slot = r.min_new_slot - 1 },
          ground (arith, last, e, in_use, below, v.dealt, v.word, v.room),
          refl,
          record {
            valid = record {
              distinct =
                  IsFreeList-mono slot (r.min_new_slot - 1) r.free
                    (IsFreeList-pred slot r.free
                      (IsFreeList-mono r.min_new_slot (suc slot) r.free v.distinct
                        (omega (arith, e)))
                      in_use.1)
                    (omega (arith, e));
              dealt = omega (arith, v.dealt);
              room = v.room;
              word = v.word;
            };
            used = λ j. ground (arith, e, in_use);
            others = λ j n. refl;
            same_size = refl;
          },
        )
    | inr inner ↦ (
      record r { free = slot ∷ r.free },
      ground (arith, inner, in_use, below, v.dealt, v.room),
      refl,
      record {
        valid = record {
          distinct = (in_use.0, in_use.1, v.distinct);
          dealt = v.dealt;
          room = v.room;
          word = v.word;
        };
        used = λ j. ground (arith, in_use);
        others = λ j n. refl;
        same_size = refl;
      },
    )
  ]
    where
      in_use : (slot < r.min_new_slot) × (mem slot r.free ≡ false)
      in_use = ground (arith, used)

      below : length r.free < r.min_new_slot
      below = length-IsFreeList r.min_new_slot (slot ∷ r.free) (in_use.0, in_use.1, v.distinct)
