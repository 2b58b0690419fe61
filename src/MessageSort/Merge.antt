-- ===== src/MessageSort/Merge.antt =====
-- The sorted regions of src/MPI/messagesort.cpp, and how addRegister joins those that overlap.
use talpf.Prelude.{ℕ, ◌+◌, ◌≤◌, ◌<◌, List, [], ◌∷◌, arith, ◌⊎◌, inl, inr, Bool-cases}
use Prim.Native.Nat.{max as max_of, min as min_of}
use talpf.MessageSort.{
  Region, compare_region, overlaps, equal_range, erase_range, insert_region, extent,
}

abbrev pub All : (Region → Type 0) → List Region → Type 0
All P [] = Unit {0}
All P (r ∷ rs) = P r × All P rs

abbrev pub finish : Region → ℕ
finish r = r.base + r.size

-- `a` ends before `b` begins.
abbrev pub IsBefore : Region → Region → Type 0
IsBefore a b = finish a < b.base

abbrev pub IsApart : Region → Region → Type 0
IsApart a b = IsBefore a b ⊎ IsBefore b a

-- In order, and apart from one another.
abbrev pub AreApart : List Region → Type 0
AreApart [] = Unit {0}
AreApart (r ∷ rs) = All (IsBefore r) rs × AreApart rs

module _ (fresh : Region) where
  All-erase : (P : Region → Type 0) (rs : List Region) → All P rs → All P (erase_range fresh rs)
  unfolding erase_range
  All-erase P [] h = tt
  All-erase P (r ∷ rs) (p, h) = elim (Bool-cases (overlaps r fresh)) [
    | inl over ↦ rw over (All-erase P rs h)
    | inr apart ↦ rw apart (p, All-erase P rs h)
  ]

  pub All-equal : (P : Region → Type 0) (rs : List Region) → All P rs → All P (equal_range fresh rs)
  unfolding equal_range
  All-equal P [] h = tt
  All-equal P (r ∷ rs) (p, h) = elim (Bool-cases (overlaps r fresh)) [
    | inl over ↦ rw over (p, All-equal P rs h)
    | inr apart ↦ rw apart (All-equal P rs h)
  ]

  -- What is erased touches the fresh region, and what is left does not.
  equal-overlaps :
      (rs : List Region)
      → All (λ r. (fresh.base ≤ finish r) × (r.base ≤ finish fresh)) (equal_range fresh rs)
  unfolding equal_range
  equal-overlaps [] = tt
  equal-overlaps (r ∷ rs) = elim (Bool-cases (overlaps r fresh)) [
    | inl over ↦ rw over ((ground (arith, over), ground (arith, over)), equal-overlaps rs)
    | inr apart ↦ rw apart (equal-overlaps rs)
  ]

  erase-IsApart : (rs : List Region) → All (IsApart fresh) (erase_range fresh rs)
  unfolding erase_range
  erase-IsApart [] = tt
  erase-IsApart (r ∷ rs) = elim (Bool-cases (overlaps r fresh)) [
    | inl over ↦ rw over (erase-IsApart rs)
    | inr apart ↦ rw apart (ground (arith, apart), erase-IsApart rs)
  ]

  erase-AreApart : (rs : List Region) → AreApart rs → AreApart (erase_range fresh rs)
  unfolding erase_range
  erase-AreApart [] h = tt
  erase-AreApart (r ∷ rs) (b, h) = elim (Bool-cases (overlaps r fresh)) [
    | inl over ↦ rw over (erase-AreApart rs h)
    | inr apart ↦ rw apart (All-erase (IsBefore r) rs b, erase-AreApart rs h)
  ]

pub map_All :
    (P Q : Region → Type 0) (rs : List Region) → ((r : Region) → P r → Q r) → All P rs → All Q rs
map_All P Q [] f h = tt
map_All P Q (r ∷ rs) f (p, h) = (f r p, map_All P Q rs f h)

pub zip_All :
    (P Q R : Region → Type 0) (rs : List Region)
    → ((r : Region) → P r → Q r → R r)
    → All P rs
    → All Q rs
    → All R rs
zip_All P Q R [] f h k = tt
zip_All P Q R (r ∷ rs) f (p, h) (q, k) = (f r p q, zip_All P Q R rs f h k)

-- What is left is apart from what is erased.
erase-equal :
    (fresh : Region) (rs : List Region)
    → AreApart rs
    → All (λ r. All (IsApart r) (equal_range fresh rs)) (erase_range fresh rs)
unfolding erase_range equal_range
erase-equal fresh [] h = tt
erase-equal fresh (s ∷ rs) (b, h) = elim (Bool-cases (overlaps s fresh)) [
  | inl over ↦ rw over (
      zip_All (IsBefore s) (λ r. All (IsApart r) (equal_range fresh rs))
        (λ r. IsApart r s × All (IsApart r) (equal_range fresh rs)) (erase_range fresh rs)
        (λ r p q. (inr p, q)) (All-erase fresh (IsBefore s) rs b) (erase-equal fresh rs h))
  | inr apart ↦ rw apart (
    map_All (IsBefore s) (IsApart s) (equal_range fresh rs) (λ r p. inl p)
        (All-equal fresh (IsBefore s) rs b),
    erase-equal fresh rs h,
  )
]

insert-All :
    (P : Region → Type 0) (r : Region) (rs : List Region)
    → P r
    → All P rs
    → All P (insert_region r rs)
unfolding insert_region
insert-All P r [] p h = (p, tt)
insert-All P r (s ∷ rs) p (q, h) = elim (Bool-cases (compare_region r s)) [
  | inl less ↦ rw less (p, (q, h))
  | inr more ↦ rw more (q, insert-All P r rs p h)
]

insert-AreApart :
    (r : Region) (rs : List Region)
    → AreApart rs
    → All (IsApart r) rs
    → AreApart (insert_region r rs)
unfolding insert_region
insert-AreApart r [] h k = (tt, tt)
insert-AreApart r (s ∷ rs) (b, h) (a, k) = elim (Bool-cases (compare_region r s)) [
  | inl less ↦
      let before : IsBefore r s = ground (arith, less) in
      rw less (
        (
          (before, map_All (IsBefore s) (IsBefore r) rs (λ t p. omega (arith, p, before)) b),
          (b, h),
        ))
  | inr more ↦
      let after : IsBefore s r = ground (arith, more, a) in
      rw more (insert-All (IsBefore s) r rs after b, insert-AreApart r rs h k)
]

-- The hull of the fresh region and of those that touch it.
module _ (fresh : Region) where
  pub extent-contains :
      (old : List Region) (base end oldest : ℕ)
      → base ≤ end
      → let new : Region = extent old base end oldest in
        (new.base ≤ base)
        × (end ≤ finish new)
        × (new.region ≤ oldest)
        × All (λ o. (new.base ≤ o.base) × (finish o ≤ finish new) × (new.region ≤ o.region)) old
  unfolding extent
  extent-contains [] base end oldest h = (omega arith, omega (arith, h), omega arith, tt)
  extent-contains (o ∷ old) base end oldest h =
      let (lo, hi, n, all) =
        extent-contains old (min_of o.base base) (max_of (finish o) end) (min_of o.region oldest)
          (omega (arith, h)) in
      (
        omega (arith, lo),
        omega (arith, hi),
        omega (arith, n),
        ((omega (arith, lo), omega (arith, hi), omega (arith, n)), all),
      )

  extent-IsApart :
      (r : Region) (old : List Region) (base end oldest : ℕ)
      → base ≤ fresh.base
      → finish fresh ≤ end
      → (finish r < base) ⊎ (end < r.base)
      → All (λ o. (fresh.base ≤ finish o) × (o.base ≤ finish fresh)) old
      → All (IsApart r) old
      → IsApart (extent old base end oldest) r
  unfolding extent
  extent-IsApart r [] base end oldest lo hi a t k = ground (arith, a, lo, hi)
  extent-IsApart r (o ∷ old) base end oldest lo hi a (t, ts) (k, ks) =
      extent-IsApart r old (min_of o.base base) (max_of (finish o) end) (min_of o.region oldest)
        (omega (arith, lo)) (omega (arith, hi)) (ground (arith, a, t, k, lo, hi)) ts ks

-- A fresh region is joined with the regions that it touches: the new region contains all of them, and
-- has the number of the oldest. The regions stay in order and apart from one another.
pub insert_region-AreApart :
    (fresh : Region) (rs : List Region)
    → AreApart rs
    → let new : Region = extent (equal_range fresh rs) fresh.base (finish fresh) fresh.region in
      AreApart (insert_region new (erase_range fresh rs))
      × (new.base ≤ fresh.base)
      × (finish fresh ≤ finish new)
      × All
          (λ o. (new.base ≤ o.base) × (finish o ≤ finish new) × (new.region ≤ o.region))
          (equal_range fresh rs)
insert_region-AreApart fresh rs h =
    let old : List Region = equal_range fresh rs in
    let new : Region = extent old fresh.base (finish fresh) fresh.region in
    let (lo, hi, n, all) =
      extent-contains fresh old fresh.base (finish fresh) fresh.region (omega arith) in
    let apart : All (IsApart new) (erase_range fresh rs) =
      zip_All (IsApart fresh) (λ r. All (IsApart r) old) (IsApart new) (erase_range fresh rs)
        (λ r p q.
          extent-IsApart fresh r old fresh.base (finish fresh) fresh.region (omega arith)
            (omega arith) (ground (arith, p)) (equal-overlaps fresh rs) q)
        (erase-IsApart fresh rs) (erase-equal fresh rs h) in
    (insert-AreApart new (erase_range fresh rs) (erase-AreApart fresh rs h) apart, lo, hi, all)
