-- ===== src/MessageSort/Blocks/Clear.antt =====
-- What `clear` of src/MPI/messagesort.cpp leaves in the blocks.
use talpf.Prelude.{
  ℕ, zero, suc, ◌+◌, ◌-◌, ◌%◌, ◌≤◌, ◌<◌, ◌≡◌, ◌≢◌, refl, ◌&&◌, some, List, length, get_or, set,
  set?, length-set, get_or-set, ltb, leb, if◌then◌else◌, size_mod, arith, ◌⊎◌, inl, inr, Bool-cases,
}
use talpf.MessageSort.Blocks.{Writes, clear, fill_zero}
use talpf.MessageSort.Blocks.Paint.{cell, IsWrites, IsEmpty, HasRange}

pub fill_zero-zero :
    (n i : ℕ) (xs : List ℕ)
    → i + n ≤ length xs
    → (ys : List ℕ) × (fill_zero n i xs ≡ some ys)
      × (length ys ≡ length xs)
      × ((j : ℕ) → get_or ys j 0 ≡ (if leb i j && ltb j (i + n) then 0 else get_or xs j 0))
unfolding fill_zero set?
fill_zero-zero zero i xs fits = (xs, refl, refl, λ j. ground arith)
fill_zero-zero (suc n) i xs fits =
    let l : length (set xs i 0) ≡ length xs = length-set xs i 0 in
    let (ys, e, k, c) = fill_zero-zero n (suc i) (set xs i 0) (omega (arith, l)) in
    (ys, ground (arith, e), omega (arith, k, l), λ j. ground (arith, c j, get_or-set xs i j 0 0))

-- `clear` leaves no message, unless the range is one block: then it keeps the block, and with it a
-- message that is out of the range.
pub clear-clears :
    (w : Writes)
    → IsWrites w
    → (u : Writes) × (clear w ≡ some u)
      × (length u.memory ≡ length w.memory)
      × (((w.min ≢ w.max) × IsEmpty u)
          ⊎ ((w.min ≡ w.max)
              × (u.max < u.min)
              × (0 < cell w.min u)
              × ((j : ℕ) → cell j u ≡ cell j w)))
unfolding clear
clear-clears w v = by_range v.range
  where
    by_range :
        IsEmpty w ⊎ HasRange w
        → (u : Writes) × (clear w ≡ some u)
          × (length u.memory ≡ length w.memory)
          × (((w.min ≢ w.max) × IsEmpty u)
              ⊎ ((w.min ≡ w.max)
                  × (u.max < u.min)
                  × (0 < cell w.min u)
                  × ((j : ℕ) → cell j u ≡ cell j w)))
    by_range (inl e) = (
      record { min = size_mod - 1; max = 0; memory = w.memory },
      ground (arith, e.min_last, e.max_first),
      refl,
      inl (
        (λ same. omega (arith, same, e.min_last, e.max_first)),
        record { min_last = refl; max_first = refl; no_message = e.no_message },
      ),
    )
    by_range (inr r) = elim (Bool-cases (ltb w.min w.max)) [
      | inl several ↦
          let n : ℕ = w.max + 1 - w.min in
          let (xs, f, l, c) =
            fill_zero-zero n w.min w.memory (omega (arith, r.ordered, r.inside)) in
          let stop : (w.max + 1) % size_mod ≡ w.max + 1 = omega (arith, r.inside, v.bounded) in
          (
            record { min = size_mod - 1; max = 0; memory = xs },
            ground (arith, several, stop, f, r.ordered, r.inside),
            l,
            inl (
              (λ same. ground (arith, several, same)),
              record {
                min_last = refl;
                max_first = refl;
                no_message = λ j. ground (arith, c j, r.nothing_out j, r.ordered);
              },
            ),
          )
      | inr one ↦ (
        record { min = size_mod - 1; max = 0; memory = w.memory },
        ground (arith, one),
        refl,
        inr (ground (arith, one, r.ordered), omega arith, r.first, λ j. refl),
      )
    ]
