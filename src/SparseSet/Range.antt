-- ===== src/SparseSet/Range.antt =====
-- `reset`, `extend` and the constructor of src/common/sparseset.hpp.
use talpf.Prelude.{
  ℕ, zero, suc, ◌+◌, ◌-◌, ◌≤◌, ◌<◌, ◌≡◌, refl, ◌∙◌, Bool, false, ◌&&◌, some, List, set?, set,
  length, get_or, length-set, get_or-set, resized, resize_cases, length-resized, take-resized, ◌⊎◌,
  inl, inr, ltb, leb, if◌then◌else◌, size_mod, arith, returns, throws, bad_alloc,
}
use talpf.SparseSet.{SparseSet, span, max_size, contains, resize_vectors, fill, reset_range, reset}
use talpf.SparseSet.Inverse.{Inverse}
use talpf.SparseSet.Contents.{IsValid, contains-has}

-- What `fill` makes of one vector.
unfoldable pub numbered : ℕ → ℕ → List ℕ → List ℕ
numbered zero i xs = xs
numbered (suc n) i xs = numbered n (suc i) (set xs i i)

pub length-numbered : (n i : ℕ) (xs : List ℕ) → length (numbered n i xs) ≡ length xs
unfolding numbered
length-numbered zero i xs = refl
length-numbered (suc n) i xs = length-numbered n (suc i) (set xs i i) ∙ length-set xs i i

pub get_or-numbered :
    (n i : ℕ) (xs : List ℕ) (j : ℕ)
    → i + n ≤ length xs
    → get_or (numbered n i xs) j 0 ≡ (if leb i j && ltb j (i + n) then j else get_or xs j 0)
unfolding numbered
get_or-numbered zero i xs j h = ground arith
get_or-numbered (suc n) i xs j h =
    ground
      (arith, get_or-numbered n (suc i) (set xs i i) j, length-set xs i i, get_or-set xs i j i 0)

pub fill-numbered :
    (n i : ℕ) (s : SparseSet)
    → i + n ≤ length s.domain
    → i + n ≤ length s.map
    → fill n i s ≡ some (record s { domain = numbered n i s.domain; map = numbered n i s.map })
unfolding fill numbered set?
fill-numbered zero i s h k = refl
fill-numbered (suc n) i s h k = ground (
  arith,
  length-set s.domain i i,
  length-set s.map i i,
  fill-numbered n (suc i) (record s { domain = set s.domain i i; map = set s.map i i }),
)

-- Numbering the tail of two vectors that are inverse up to there makes longer ones.
pub numbered-Inverse :
    (n i : ℕ) (d m : List ℕ)
    → length d ≡ i + n
    → length m ≡ i + n
    → ((k : ℕ) → k < i → (get_or d k 0 < i) × (get_or m (get_or d k 0) 0 ≡ k))
    → ((k : ℕ) → k < i → (get_or m k 0 < i) × (get_or d (get_or m k 0) 0 ≡ k))
    → Inverse (numbered n i d) (numbered n i m)
numbered-Inverse n i d m hd hm fd fm = record {
  same_length = omega (arith, length-numbered n i d, length-numbered n i m);
  from_domain = λ k h. ground (
    arith,
    length-numbered n i d,
    get_or-numbered n i d k,
    get_or-numbered n i m (get_or (numbered n i d) k 0),
    fd k,
  );
  from_map = λ k h. ground (
    arith,
    length-numbered n i d,
    get_or-numbered n i m k,
    get_or-numbered n i d (get_or (numbered n i m) k 0),
    fm k,
  );
}

-- The two vectors grown or cut to `n` elements.
abbrev pub sized : ℕ → SparseSet → SparseSet
sized n s = record s { domain = resized n 0 s.domain; map = resized n 0 s.map }

-- The `try` block either resizes both vectors, or throws and leaves the set as it was.
pub resize_vectors-cases :
    (alloc alloc' : Bool) (n : ℕ) (s : SparseSet)
    → length s.map ≡ length s.domain
    → (resize_vectors alloc alloc' n s ≡ returns (sized n s))
      ⊎ ((alloc && alloc' ≡ false) × (resize_vectors alloc alloc' n s ≡ throws bad_alloc s))
unfolding resize_vectors
resize_vectors-cases alloc alloc' n s same = elim (resize_cases n 0 s.domain alloc) [
  | inr (a, h, e) ↦ inr (ground (arith, a), ground (arith, e))
  | inl e ↦ elim (resize_cases n 0 s.map alloc') [
    | inl e' ↦ inl (ground (arith, e, e'))
    | inr (a', h, e') ↦ inr (ground (arith, a'), ground (arith, e, e', take-resized n 0 s.domain))
  ]
]

-- The set that a successful `reset` leaves.
fresh : ℕ → ℕ → SparseSet → SparseSet
fresh lo hi s =
    let n : ℕ = span lo hi in
    record {
      min = lo;
      max = hi;
      size = 0;
      domain = numbered n 0 (resized n 0 s.domain);
      map = numbered n 0 (resized n 0 s.map);
    }

fresh-IsValid :
    (lo hi : ℕ) (s : SparseSet)
    → lo ≤ hi
    → hi < size_mod
    → hi - lo < max_size
    → IsValid (fresh lo hi s)
unfolding fresh
fresh-IsValid lo hi s h b r =
    let n : ℕ = span lo hi in
    record {
      ordered = h;
      bounded = b;
      holds = r;
      spanned =
          omega (arith, length-numbered n 0 (resized n 0 s.domain), length-resized n 0 s.domain);
      filled = omega arith;
      inverse =
          numbered-Inverse n 0 (resized n 0 s.domain) (resized n 0 s.map)
            (omega (arith, length-resized n 0 s.domain)) (omega (arith, length-resized n 0 s.map))
            (λ k l. absurd (omega arith)) (λ k l. absurd (omega arith));
    }

reset_range-fresh :
    (lo hi : ℕ) (s : SparseSet) → reset_range lo hi (sized (span lo hi) s) ≡ some (fresh lo hi s)
unfolding reset_range fresh
reset_range-fresh lo hi s =
    let n : ℕ = span lo hi in
    ground (
      arith,
      fill-numbered n 0 (sized n s),
      length-numbered n 0 (resized n 0 s.domain),
      length-resized n 0 s.domain,
      length-resized n 0 s.map,
    )

-- `reset` to a range that vectors can hold either empties the set and gives it that range, or
-- throws std::bad_alloc for want of memory and leaves the set as it was.
pub reset-IsValid :
    (alloc alloc' : Bool) (lo hi : ℕ) (s : SparseSet)
    → length s.map ≡ length s.domain
    → lo ≤ hi
    → hi < size_mod
    → hi - lo < max_size
    → ((t : SparseSet) × (reset alloc alloc' lo hi s ≡ returns t)
        × IsValid t
        × (t.min ≡ lo)
        × (t.max ≡ hi)
        × ((y : ℕ) → contains y t ≡ some false))
      ⊎ ((alloc && alloc' ≡ false) × (reset alloc alloc' lo hi s ≡ throws bad_alloc s))
unfolding reset
reset-IsValid alloc alloc' lo hi s same h b r =
    elim (resize_vectors-cases alloc alloc' (span lo hi) s same) [
      | inl e ↦
          let v : IsValid (fresh lo hi s) = fresh-IsValid lo hi s h b r in
          inl (
            fresh lo hi s,
            ground (arith, e, reset_range-fresh lo hi s),
            v,
            unfold fresh in refl,
            unfold fresh in refl,
            λ y. contains-has y v ∙ unfold fresh in ground arith,
          )
      | inr (a, e) ↦ inr (a, ground (arith, e))
    ]
