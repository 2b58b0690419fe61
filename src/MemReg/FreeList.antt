-- ===== src/MemReg/FreeList.antt =====
-- The free list of src/common/memreg.hpp as a set of slot numbers below a bound.
use talpf.Prelude.{
  ℕ, zero, suc, ◌≤◌, ◌<◌, ◌≡◌, refl, Bool, false, ◌||◌, List, [], ◌∷◌, length, ◌==◌, if◌then◌else◌,
  arith,
}

unfoldable pub mem : ℕ → List ℕ → Bool
mem x [] = false
mem x (y ∷ ys) = x == y || mem x ys

-- Distinct numbers below `n`.
abbrev pub IsFreeList : ℕ → List ℕ → Type 0
IsFreeList n [] = Unit {0}
IsFreeList n (x ∷ xs) = (x < n) × (mem x xs ≡ false) × IsFreeList n xs

-- A number that is not in the list need not be counted by the bound.
pub IsFreeList-pred :
    (n : ℕ) (xs : List ℕ) → IsFreeList (suc n) xs → mem n xs ≡ false → IsFreeList n xs
unfolding mem
IsFreeList-pred n [] h m = tt
IsFreeList-pred n (x ∷ xs) h m = ground (arith, IsFreeList-pred n xs)

pub IsFreeList-mono : (n k : ℕ) (xs : List ℕ) → IsFreeList n xs → n ≤ k → IsFreeList k xs
IsFreeList-mono n k [] h le = tt
IsFreeList-mono n k (x ∷ xs) h le = (omega arith, h.1, IsFreeList-mono n k xs h.2 le)

erase : ℕ → List ℕ → List ℕ
erase a [] = []
erase a (x ∷ xs) = if a == x then xs else x ∷ erase a xs

mem-erase : (a x : ℕ) (xs : List ℕ) → mem x xs ≡ false → mem x (erase a xs) ≡ false
unfolding mem erase
mem-erase a x [] h = refl
mem-erase a x (y ∷ ys) h = ground (arith, mem-erase a x ys)

erase-IsFreeList :
    (n : ℕ) (xs : List ℕ)
    → IsFreeList (suc n) xs
    → IsFreeList n (erase n xs) × (length xs ≤ suc (length (erase n xs)))
unfolding mem erase
erase-IsFreeList n [] h = (tt, omega arith)
erase-IsFreeList n (x ∷ xs) h =
    ground (arith, IsFreeList-pred n xs, erase-IsFreeList n xs h.2, mem-erase n x xs)

-- Distinct numbers below `n` are at most `n`.
pub length-IsFreeList : (n : ℕ) (xs : List ℕ) → IsFreeList n xs → length xs ≤ n
length-IsFreeList zero [] h = omega arith
length-IsFreeList zero (x ∷ xs) h = absurd (omega arith)
length-IsFreeList (suc n) xs h =
    let (f, l) = erase-IsFreeList n xs h in omega (arith, l, length-IsFreeList n (erase n xs) f)
