-- ===== src/SparseSet/Extend.antt =====
-- `extend` of src/common/sparseset.hpp.
use talpf.Prelude.{
  ℕ, ◌+◌, ◌-◌, ◌<◌, ◌≡◌, refl, ◌⊎◌, inl, inr, Bool, false, ◌&&◌, some, length, get_or, resized,
  length-resized, get_or-resized, ltb, if◌then◌else◌, size_mod, arith, List, returns, throws,
  bad_alloc,
}
use talpf.SparseSet.{SparseSet, span, max_size, contains, extend, extend_range}
use talpf.SparseSet.Inverse.{Inverse}
use talpf.SparseSet.Contents.{IsValid, has, contains-has}
use talpf.SparseSet.Range.{
  numbered, length-numbered, get_or-numbered, fill-numbered, numbered-Inverse, sized,
  resize_vectors-cases,
}

-- A valid set and a larger maximum that its vectors can hold.
module _ {s : SparseSet} (hi : ℕ) (v : IsValid s) (grows : s.max < hi) (b : hi < size_mod)
    (r : hi - s.min < max_size) where
  abbrev old : ℕ
  old = length s.domain

  abbrev extra : ℕ
  extra = span s.min hi - old

  abbrev longer : List ℕ → List ℕ
  longer xs = numbered extra old (resized (span s.min hi) 0 xs)

  abbrev longer_set : SparseSet
  longer_set = record s { max = hi; domain = longer s.domain; map = longer s.map }

  length-longer : (xs : List ℕ) → length (longer xs) ≡ hi - s.min + 1
  length-longer xs = omega (
    arith,
    v.ordered,
    length-numbered extra old (resized (span s.min hi) 0 xs),
    length-resized (span s.min hi) 0 xs,
  )

  get_or-longer :
      (xs : List ℕ) (k : ℕ)
      → length xs ≡ old
      → k < hi - s.min + 1
      → get_or (longer xs) k 0 ≡ (if ltb k old then get_or xs k 0 else k)
  get_or-longer xs k e h = ground (
    arith,
    v.ordered,
    v.spanned,
    get_or-numbered extra old (resized (span s.min hi) 0 xs) k,
    length-resized (span s.min hi) 0 xs,
    get_or-resized (span s.min hi) 0 xs k 0,
  )

  extend_range-longer : extend_range old hi (sized (span s.min hi) s) ≡ some longer_set
  unfolding extend_range
  extend_range-longer = ground (
    arith,
    v.ordered,
    v.spanned,
    fill-numbered extra old (sized (span s.min hi) s),
    length-longer s.domain,
    length-resized (span s.min hi) 0 s.domain,
    length-resized (span s.min hi) 0 s.map,
  )

  resized-Inverse : Inverse (longer s.domain) (longer s.map)
  resized-Inverse =
      let n : ℕ = span s.min hi in
      numbered-Inverse extra old (resized n 0 s.domain) (resized n 0 s.map)
        (omega (arith, v.ordered, v.spanned, length-resized n 0 s.domain))
        (omega (arith, v.ordered, v.spanned, length-resized n 0 s.map))
        (λ k h. ground (
          arith,
          v.ordered,
          v.spanned,
          v.inverse.same_length,
          v.inverse.from_domain k h,
          get_or-resized n 0 s.domain k 0,
          get_or-resized n 0 s.map (get_or (resized n 0 s.domain) k 0) 0,
        ))
        (λ k h. ground (
          arith,
          v.ordered,
          v.spanned,
          v.inverse.same_length,
          v.inverse.from_map k h,
          get_or-resized n 0 s.map k 0,
          get_or-resized n 0 s.domain (get_or (resized n 0 s.map) k 0) 0,
        ))

  longer-IsValid : IsValid longer_set
  longer-IsValid = record {
    ordered = omega (arith, v.ordered);
    bounded = b;
    holds = r;
    spanned = length-longer s.domain;
    filled = omega (arith, v.ordered, v.spanned, v.filled, length-longer s.domain);
    inverse = resized-Inverse;
  }

  has-longer : (y : ℕ) → has y longer_set ≡ has y s
  has-longer y = ground (
    arith,
    v.ordered,
    v.spanned,
    v.filled,
    v.inverse.same_length,
    get_or-longer s.map (y - s.min),
  )

  -- `extend` of a valid set to a larger maximum that vectors can hold either gives the set that
  -- maximum and keeps what it contains, or throws std::bad_alloc for want of memory and leaves the
  -- set as it was.
  pub extend-IsValid :
      (alloc alloc' : Bool)
      → ((t : SparseSet) × (extend alloc alloc' hi s ≡ returns t)
          × IsValid t
          × (t.min ≡ s.min)
          × (t.max ≡ hi)
          × ((y : ℕ) → contains y t ≡ contains y s))
        ⊎ ((alloc && alloc' ≡ false) × (extend alloc alloc' hi s ≡ throws bad_alloc s))
  unfolding extend
  extend-IsValid alloc alloc' =
      elim (resize_vectors-cases alloc alloc' (span s.min hi) s v.inverse.same_length) [
        | inl e ↦ inl (
          longer_set,
          ground (arith, v.ordered, v.spanned, e, extend_range-longer),
          longer-IsValid,
          refl,
          refl,
          λ y. ground (arith, contains-has y longer-IsValid, contains-has y v, has-longer y),
        )
        | inr (a, e) ↦ inr (a, ground (arith, v.ordered, v.spanned, e))
      ]
