-- ===== src/MicroMsg/Tests.antt =====
-- Concrete runs of `MicroMsg`, and its theorems at concrete inputs.
use talpf.Prelude.{
  ℕ, ◌+◌, ◌≤◌, ◌<◌, ◌≡◌, refl, some, [], ◌∷◌, length, get_or, set?, replicate, arith, ◌⊎◌,
}
use talpf.MicroMsg.{MicroMsg, write, write_groups, read, find_end, collect}
use talpf.MicroMsg.RoundTrip.{read-write}

abbrev twelve : MicroMsg
twelve = record { buffer = replicate 12 9; pos = 1 }

write_300 :
    write 300 (record { buffer = 9 ∷ 9 ∷ 9 ∷ 9 ∷ []; pos = 1 })
    ≡ some (record { buffer = 9 ∷ 0xac ∷ 2 ∷ 9 ∷ []; pos = 3 })
unfolding write write_groups set?
write_300 = refl

-- A type of 8 bits takes the low bits of the number.
read_narrow :
    read 8 (record { buffer = 0xac ∷ 2 ∷ []; pos = 0 })
    ≡ some (44, record { buffer = 0xac ∷ 2 ∷ []; pos = 2 })
unfolding read find_end collect
read_narrow = refl

read-write_example :
    (w : MicroMsg) × (write 300 twelve ≡ some w)
    × (read 16 (record w { pos = 1 }) ≡ some (300, w))
    × (1 < w.pos)
    × (w.pos ≤ 1 + 10)
    × (length w.buffer ≡ length twelve.buffer)
    × ((j : ℕ) → (j < 1) ⊎ (w.pos ≤ j) → get_or w.buffer j 0 ≡ get_or twelve.buffer j 0)
read-write_example = read-write 16 300 twelve (omega arith) (omega arith) (omega arith)
