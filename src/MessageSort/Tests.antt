-- ===== src/MessageSort/Tests.antt =====
-- Concrete runs of the message sort, and its theorems at concrete inputs.
use talpf.Prelude.{
  ℕ, zero, suc, ◌+◌, ◌-◌, ◌*◌, ◌^◌, ◌≤◌, ◌<◌, ◌≡◌, ◌≢◌, refl, true, ◌&&◌, some, none, List, [], ◌∷◌,
  length, replicate, get_elem?, set?, leb, ltb, if◌then◌else◌, size_mod, arith, ◌⊎◌, inl, inr,
}
use Prim.Native.Nat.{max as max_of}
use talpf.SparseSet.{SparseSet}
use talpf.SparseSet.Inverse.{Inverse}
use talpf.SparseSet.Contents
use talpf.SparseSet.Contents.{Updates}
use talpf.SparseSet.Range.{numbered, numbered-Inverse}
use talpf.MessageSort.{
  MessageSort, Region, push_write, equal_range, erase_range, insert_region, extent, add_register,
}
use talpf.MessageSort.Blocks.{Writes, Write, construct, push, pop, paint, wipe, skip, narrow, clear}
use talpf.MessageSort.Blocks.Paint.{cell, IsWrites, IsEmpty}
use talpf.MessageSort.Blocks.Clear.{clear-clears}
use talpf.MessageSort.Blocks.Drain.{
  push_all, drain, covering, highest, AreOrdered, drain-push_all, get_or-zeros,
}
use talpf.MessageSort.Register.{CanRegister, Registers, add_register-Registers}
use talpf.MessageSort.Align.{push_write-aligns}

-- Message 3 in the blocks 1 and 2, of eight.
abbrev eight : Writes
eight = record { min = 1; max = 2; memory = 0 ∷ 4 ∷ 4 ∷ 0 ∷ 0 ∷ 0 ∷ 0 ∷ 0 ∷ [] }

eight_cells : (j : ℕ) → (cell j eight < 2 ^ 32) × ((1 ≤ j × j ≤ 2) ⊎ (cell j eight ≡ 0))
eight_cells zero = (omega arith, inr refl)
eight_cells (suc zero) = (omega arith, inl (omega arith, omega arith))
eight_cells (suc (suc zero)) = (omega arith, inl (omega arith, omega arith))
eight_cells (suc (suc (suc j))) = (omega (arith, get_or-zeros 5 j), inr (get_or-zeros 5 j))

eight-IsWrites : IsWrites eight
eight-IsWrites = record {
  bounded = omega arith;
  ids = λ j. (eight_cells j).0;
  range = inr (record {
    ordered = omega arith;
    inside = omega arith;
    first = omega arith;
    nothing_out = λ j h. ground (arith, h, (eight_cells j).1);
  });
}

abbrev late : Write
late = record { id = 7; start = 2; size = 3 }

clear-clears_example :
    (u : Writes) × (clear eight ≡ some u)
    × (length u.memory ≡ length eight.memory)
    × ((◌≢◌ {A = ℕ} 1 2 × IsEmpty u)
        ⊎ (◌≡◌ {A = ℕ} 1 2
            × (u.max < u.min)
            × (0 < cell 1 u)
            × ((j : ℕ) → cell j u ≡ cell j eight)))
clear-clears_example = clear-clears eight eight-IsWrites

abbrev pushed : List Write
pushed = late ∷ record { id = 3; start = 1; size = 2 } ∷ []

drain-push_all_example :
    (u : Writes) × (xs : List Write) × (push_all pushed (construct 8) ≡ some u)
    × (drain 9 u ≡ some xs)
    × AreOrdered 0 xs
    × ((j : ℕ) → covering xs j ≡ highest pushed j)
drain-push_all_example = drain-push_all 8 pushed (omega arith) (
  record { small = omega arith; some_blocks = omega arith; inside = omega arith },
  (record { small = omega arith; some_blocks = omega arith; inside = omega arith }, tt),
)

-- A `push` of no blocks can make the range begin at a block without a message, which `pop` then gives
-- out as a message with the highest number there is.
abbrev behind : List ℕ
behind = 0 ∷ 0 ∷ 0 ∷ 4 ∷ 4 ∷ 0 ∷ 0 ∷ 0 ∷ []

push_spreads :
    push (record { id = 5; start = 1; size = 0 }) (record { min = 3; max = 4; memory = behind })
    ≡ some (record { min = 1; max = 4; memory = behind })
unfolding push paint
push_spreads = refl

pop_nothing :
    pop (record { min = 1; max = 4; memory = behind })
    ≡ some (
      some (record { id = 2 ^ 32 - 1; start = 1; size = 2 }),
      record { min = 3; max = 4; memory = behind },
    )
unfolding pop wipe skip narrow set?
pop_nothing = refl

-- `clear` of a range of one block leaves the block.
clear_one :
    clear (record { min = 1; max = 1; memory = 0 ∷ 4 ∷ 0 ∷ [] })
    ≡ some (record { min = size_mod - 1; max = 0; memory = 0 ∷ 4 ∷ 0 ∷ [] })
unfolding clear
clear_one = refl

-- Regions from 10 to 20, from 30 to 40 and from 60 to 70, and a fresh one from 15 to 35.
abbrev at : ℕ → ℕ → ℕ → Region
at number base size = record { region = number; base = base; size = size }

abbrev three : List Region
three = at 0 10 10 ∷ at 2 30 10 ∷ at 1 60 10 ∷ []

joined :
    insert_region (extent (equal_range (at 3 15 20) three) 15 35 3) (erase_range (at 3 15 20) three)
    ≡ at 0 10 30 ∷ at 1 60 10 ∷ []
unfolding insert_region extent equal_range erase_range
joined = refl

-- One slot at the front of a region of eight blocks of 4 bytes, in which nothing is written.
abbrev none_dirty : SparseSet
none_dirty = record { min = 0; max = 1; size = 0; domain = 0 ∷ 1 ∷ []; map = 0 ∷ 1 ∷ [] }

none_dirty-Inverse : Inverse none_dirty.domain none_dirty.map
unfolding numbered
none_dirty-Inverse =
    numbered-Inverse 2 0 (0 ∷ 0 ∷ []) (0 ∷ 0 ∷ []) (omega arith) (omega arith)
      (λ k h. absurd (omega arith)) (λ k h. absurd (omega arith))

none_dirty-IsValid : Contents.IsValid none_dirty
none_dirty-IsValid = record {
  ordered = omega arith;
  bounded = omega arith;
  holds = omega arith;
  spanned = refl;
  filled = omega arith;
  inverse = none_dirty-Inverse;
}

abbrev three_regions : MessageSort
three_regions = record {
  memslots = replicate 4 (record { slot = 0; base = 0; size = 0 });
  regions = at 0 10 10 ∷ at 1 60 10 ∷ at 2 30 10 ∷ [];
  sorted_regions = three;
  slot_to_region = replicate 4 (record { region = 2; offset = 0 });
  writes = replicate 3 (construct 2);
  dirty = none_dirty;
  grain_power = 2;
}

three_regions-CanRegister : CanRegister three_regions
unfolding construct
three_regions-CanRegister = record {
  apart = omega arith;
  arrays = (
    (construct 2, refl, omega arith),
    ((construct 2, refl, omega arith), ((construct 2, refl, omega arith), tt)),
  );
  same_writes = refl;
  same_slots = refl;
  dirty = none_dirty-IsValid;
  from_zero = refl;
  few = omega arith;
}

add_register-Registers_example :
    (t : MessageSort) × (add_register 3 15 20 three_regions ≡ some t)
    × Registers 3
        (at 3 15 20)
        (equal_range (at 3 15 20) three)
        (erase_range (at 3 15 20) three)
        three_regions
        t
add_register-Registers_example =
    add_register-Registers 3 15 20 three_regions three_regions-CanRegister (omega arith)
      (omega arith)

abbrev one_slot : MessageSort
one_slot = record {
  memslots = record { slot = 0; base = 100; size = 32 } ∷ [];
  regions = at 0 100 32 ∷ [];
  sorted_regions = at 0 100 32 ∷ [];
  slot_to_region = record { region = 0; offset = 0 } ∷ [];
  writes = eight ∷ [];
  dirty = none_dirty;
  grain_power = 2;
}

push_write-aligns_example :
    (offset' size' first blocks : ℕ) × (t : MessageSort) × (u : Writes) × (push_write 7 0 5 14
        one_slot
      ≡ some ((offset', size'), t))
    × (5 ≤ offset')
    × (offset' < 5 + 4)
    × (offset' + size' ≤ 5 + 14)
    × (5 + 14 < offset' + size' + 4)
    × (0 + offset' ≡ first * 4)
    × (size' ≡ blocks * 4)
    × (get_elem? t.writes 0 ≡ some u)
    × IsWrites u
    × ((j : ℕ)
        → cell j u ≡ (
            if leb first j && ltb j (first + blocks)
            then max_of (cell j eight) 8
            else cell j eight))
    × Updates 0 true one_slot.dirty t.dirty
push_write-aligns_example =
    push_write-aligns 7 0 5 14 one_slot (record { region = 0; offset = 0 }) eight refl refl
      eight-IsWrites (omega arith) none_dirty-IsValid refl (omega arith) (omega arith) (omega arith)
      (omega arith) (omega arith)

-- A write without a whole block: the size wraps around, and the ASSERT of `push` fails.
push_write_small : push_write 7 0 5 2 one_slot ≡ none
unfolding push_write push
push_write_small = refl
