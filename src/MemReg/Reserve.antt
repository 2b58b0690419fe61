-- ===== src/MemReg/Reserve.antt =====
-- `reserve` of src/common/memreg.hpp.
use talpf.Prelude.{
  ℕ, ◌+◌, ◌*◌, ◌≤◌, ◌<◌, ◌≡◌, refl, Bool, true, false, not, ◌&&◌, some, none, List, get_elem?,
  length, take, resized, length-resized, length-take, get_elem?-take, get_elem?-resized,
  resize_cases, ltb, size_mod, arith, ◌⊎◌, inl, inr, dec_lt, returns, throws, bad_alloc, Bool-cases,
}
use Prim.Native.Nat.{max as max_of}
use talpf.MemReg.{MemoryRegister, Memory, lookup, capacity, reserve_free, grow, cut, reserve}
use talpf.MemReg.Slots.{IsValid, is_used}

module _ {ℓ} {R : Type ℓ} where
  -- The same slots are in use, with the same records, and the same ones are dealt out next.
  pub record Keeps (r t : MemoryRegister R) : Type ℓ where
    pub valid : IsValid t
    pub same_free : t.free ≡ r.free
    pub same_new : t.min_new_slot ≡ r.min_new_slot
    pub records : (j : ℕ) → is_used j r ≡ true → lookup j t ≡ lookup j r

  reserve_free_cases :
      (alloc : Bool) (n : ℕ) (r : MemoryRegister R)
      → ((c : ℕ) × (n ≤ c)
          × (r.free_capacity ≤ c)
          × (reserve_free alloc n r ≡ some (record r { free_capacity = c })))
        ⊎ ((alloc ≡ false) × (reserve_free alloc n r ≡ none))
  unfolding reserve_free
  reserve_free_cases alloc n r = elim (dec_lt r.free_capacity n) [
    | no enough ↦ inl (r.free_capacity, omega arith, omega arith, ground arith)
    | yes short ↦ elim (Bool-cases alloc) [
      | inl e ↦ inl (n, omega arith, omega arith, ground arith)
      | inr e ↦ inr (e, ground arith)
    ]
  ]

  -- Other slots under a free list of another capacity, which reach as far as the slots dealt out.
  Keeps-of_slots :
      (r : MemoryRegister R) (slots : List R) (c : ℕ)
      → IsValid r
      → r.min_new_slot ≤ length slots
      → length slots ≤ c
      → 2 * length slots + 1 < size_mod
      → ((j : ℕ) → j < r.min_new_slot → get_elem? slots j ≡ get_elem? r.slots j)
      → Keeps r (record r { slots = slots; free_capacity = c })
  unfolding lookup
  Keeps-of_slots r slots c v h k w same = record {
    valid = record { distinct = v.distinct; dealt = h; room = k; word = w };
    same_free = refl;
    same_new = refl;
    records = λ j u. same j (ground (arith, u));
  }

  cut-Keeps :
      (m : Memory) (n : ℕ) (r : MemoryRegister R)
      → IsValid r
      → n ≤ length r.slots
      → Keeps r (cut m n r) × (capacity (cut m n r) ≡ max_of n r.min_new_slot)
  unfolding cut capacity
  cut-Keeps m n r v h = elim (Bool-cases m.for_copy) [
    | inl copied ↦ rw copied (cut_to (max_of (length r.free) keep) (omega arith), l)
    | inr kept ↦ rw kept (cut_to r.free_capacity (omega (arith, v.dealt, v.room)), l)
  ]
    where
      keep : ℕ
      keep = max_of n r.min_new_slot

      l : length (take keep r.slots) ≡ keep
      l = omega (arith, length-take keep r.slots, v.dealt)

      cut_to :
          (c : ℕ) → keep ≤ c → Keeps r (record r { slots = take keep r.slots; free_capacity = c })
      cut_to c fits =
          Keeps-of_slots r (take keep r.slots) c v (omega (arith, l)) (omega (arith, l))
            (omega (arith, l, v.word, v.dealt)) (λ j k. get_elem?-take keep r.slots j (omega arith))

  grow-Keeps :
      (m : Memory) (n : ℕ) (d : R) (r : MemoryRegister R)
      → IsValid r
      → 2 * m.limit + 1 < size_mod
      → length r.slots < n
      → ((t : MemoryRegister R) × (grow m n d r ≡ returns t) × Keeps r t × (capacity t ≡ n))
        ⊎ ((t : MemoryRegister R) × (grow m n d r ≡ throws bad_alloc t)
            × (not (ltb m.limit n) && m.for_free && m.for_slots ≡ false)
            × Keeps r t
            × (t.slots ≡ r.slots))
  unfolding grow capacity
  grow-Keeps m n d r v w h = elim (dec_lt m.limit n) [
    | yes over ↦ inr (r, ground arith, ground arith, stays r.free_capacity v.room, refl)
    | no fits ↦ elim (reserve_free_cases m.for_free n r) [
      | inr (no_memory, e) ↦
          inr (r, ground (arith, e), ground arith, stays r.free_capacity v.room, refl)
      | inl (c, lo, hi, e) ↦ elim (resize_cases n d r.slots m.for_slots) [
        | inr (no_memory, k, e') ↦ inr (
          record r { free_capacity = c },
          ground (arith, e, e'),
          ground arith,
          stays c (omega (arith, v.room)),
          refl,
        )
        | inl e' ↦ inl (
          record r { slots = resized n d r.slots; free_capacity = c },
          ground (arith, e, e'),
          Keeps-of_slots r (resized n d r.slots) c v (omega (arith, l, v.dealt)) (omega (arith, l))
              (omega (arith, l))
              (λ j k.
                get_elem?-resized n d r.slots j (omega (arith, v.dealt)) (omega (arith, v.dealt))),
          l,
        )
      ]
    ]
  ]
    where
      l : length (resized n d r.slots) ≡ n
      l = length-resized n d r.slots

      stays : (c : ℕ) → length r.slots ≤ c → Keeps r (record r { free_capacity = c })
      stays c k = Keeps-of_slots r r.slots c v v.dealt k v.word (λ j i. refl)

  -- `reserve` makes room for as many records as it is asked for, or for all that were dealt out if
  -- that is more; or, only to grow and for want of memory, it throws std::bad_alloc. Both ways the
  -- same slots stay in use with the same records, and the order in which slots are dealt out is as
  -- before.
  pub reserve-Keeps :
      (m : Memory) (n : ℕ) (d : R) (r : MemoryRegister R)
      → IsValid r
      → 2 * m.limit + 1 < size_mod
      → ((t : MemoryRegister R) × (reserve m n d r ≡ returns t)
          × Keeps r t
          × (capacity t ≡ max_of n r.min_new_slot))
        ⊎ ((t : MemoryRegister R) × (reserve m n d r ≡ throws bad_alloc t)
            × (length r.slots < n)
            × (not (ltb m.limit n) && m.for_free && m.for_slots ≡ false)
            × Keeps r t
            × (t.slots ≡ r.slots))
  unfolding reserve
  reserve-Keeps m n d r v w = elim (dec_lt (length r.slots) n) [
    | no enough ↦
        let (k, c) = cut-Keeps m n r v (omega arith) in inl (cut m n r, ground arith, k, c)
    | yes short ↦ elim (grow-Keeps m n d r v w short) [
      | inl (t, e, k, c) ↦ inl (t, ground (arith, e), k, omega (arith, c, v.dealt))
      | inr (t, e, why, k, same) ↦ inr (t, ground (arith, e), short, why, k, same)
    ]
  ]
