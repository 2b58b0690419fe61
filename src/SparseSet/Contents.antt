-- ===== src/SparseSet/Contents.antt =====
-- `contains`, `insert`, `erase` and `clear` of src/common/sparseset.hpp as operations on a set.
use talpf.Prelude.{
  ℕ, suc, ◌+◌, ◌-◌, ◌≤◌, ◌<◌, ◌≡◌, refl, ◌∙◌, Bool, true, false, ◌&&◌, some, length, get_or,
  get_elem?-get_or, ltb, leb, ◌==◌, if◌then◌else◌, size_mod, Bool-cases, inl, inr, arith, ◌>>=◌,
}
use talpf.SparseSet.{SparseSet, max_size, contains, insert, erase, clear, add_new, take_out}
use talpf.SparseSet.Inverse.{
  Inverse, exchanged, exchange-exchanged, exchanged-Inverse, length-exchanged, map-exchanged,
}

pub record IsValid (s : SparseSet) : Type 0 where
  pub ordered : s.min ≤ s.max
  pub bounded : s.max < size_mod
  pub holds : s.max - s.min < max_size
  pub spanned : length s.domain ≡ s.max - s.min + 1
  pub filled : s.size ≤ length s.domain
  pub inverse : Inverse s.domain s.map

-- What `contains` answers where it reads in range.
abbrev pub has : ℕ → SparseSet → Bool
has x s = leb s.min x && leb x s.max && ltb (get_or s.map (x - s.min) 0) s.size

pub contains-has : {s : SparseSet} (x : ℕ) → IsValid s → contains x s ≡ some (has x s)
unfolding contains
contains-has {s} x v = ground (arith, v.inverse.same_length, get_elem?-get_or s.map (x - s.min) 0)

module _ {s : SparseSet} (x : ℕ) (v : IsValid s) (lo : s.min ≤ x) (hi : x ≤ s.max) where
  abbrev at : ℕ
  at = get_or s.map (x - s.min) 0

  in_map : (at < length s.domain) × (get_or s.domain at 0 ≡ x - s.min)
  in_map = v.inverse.from_map (x - s.min) (omega (arith, v.spanned))

  abbrev added : SparseSet
  added = record (exchanged at s.size s) { size = suc s.size }

  abbrev smaller : SparseSet
  smaller = record s { size = s.size - 1 }

  abbrev removed : SparseSet
  removed = exchanged at (s.size - 1) smaller

  module _ (absent : has x s ≡ false) where
    room : s.size < length s.domain
    room = ground (arith, in_map, absent)

    add_new-added : add_new x s ≡ some added
    unfolding add_new exchanged
    add_new-added = rw (
      get_elem?-get_or s.map (x - s.min) 0 (omega (arith, v.spanned, v.inverse.same_length)),
      exchange-exchanged s v.inverse at s.size in_map.0 room,
      ◌>>=◌,
    )

    added-IsValid : IsValid added
    unfolding exchanged
    added-IsValid =
        let same = length-exchanged s v.inverse at s.size in_map.0 room in
        record {
          ordered = v.ordered;
          bounded = v.bounded;
          holds = v.holds;
          spanned = same ∙ v.spanned;
          filled = omega (arith, same, room);
          inverse = exchanged-Inverse s v.inverse at s.size in_map.0 room;
        }

    has-added : (y : ℕ) → has y added ≡ (if x == y then true else has y s)
    unfolding exchanged
    has-added y = ground (
      arith,
      absent,
      in_map,
      room,
      v.spanned,
      map-exchanged s v.inverse at s.size in_map.0 room (y - s.min),
      v.inverse.from_domain s.size room,
      v.inverse.from_map (y - s.min),
    )

  module _ (present : has x s ≡ true) where
    last : (at < s.size) × (s.size - 1 < length s.domain)
    last = ground (arith, present, v.filled)

    take_out-removed : take_out x s ≡ some removed
    unfolding take_out
    take_out-removed =
        rw
          (
            get_elem?-get_or s.map (x - s.min) 0 (omega (arith, v.spanned, v.inverse.same_length)),
            ◌>>=◌,
          )
          (exchange-exchanged smaller v.inverse at (s.size - 1) in_map.0 last.1)

    removed-IsValid : IsValid removed
    unfolding exchanged
    removed-IsValid =
        let same = length-exchanged smaller v.inverse at (s.size - 1) in_map.0 last.1 in
        record {
          ordered = v.ordered;
          bounded = v.bounded;
          holds = v.holds;
          spanned = same ∙ v.spanned;
          filled = omega (arith, same, last);
          inverse = exchanged-Inverse smaller v.inverse at (s.size - 1) in_map.0 last.1;
        }

    has-removed : (y : ℕ) → has y removed ≡ (if x == y then false else has y s)
    unfolding exchanged
    has-removed y = ground (
      arith,
      present,
      in_map,
      last,
      v.spanned,
      map-exchanged smaller v.inverse at (s.size - 1) in_map.0 last.1 (y - s.min),
      v.inverse.from_domain (s.size - 1) last.1,
      v.inverse.from_map (y - s.min),
    )

-- `t` is `s`, with the membership of `x` set to `answer` and all else as it was.
pub record Updates (x : ℕ) (answer : Bool) (s t : SparseSet) : Type 0 where
  pub valid : IsValid t
  pub same_min : t.min ≡ s.min
  pub same_max : t.max ≡ s.max
  pub contents : (y : ℕ) → contains y t ≡ (if x == y then some answer else contains y s)

Updates-of_has :
    (x : ℕ) (answer : Bool) (s t : SparseSet)
    → IsValid s
    → IsValid t
    → t.min ≡ s.min
    → t.max ≡ s.max
    → ((y : ℕ) → has y t ≡ (if x == y then answer else has y s))
    → Updates x answer s t
Updates-of_has x answer s t vs vt lo hi h = record {
  valid = vt;
  same_min = lo;
  same_max = hi;
  contents = λ y. ground (arith, contains-has y vs, contains-has y vt, h y);
}

-- On a valid set `insert` of a value in range returns a valid set of the same range, in which
-- `contains` answers as before, and yes for the value.
pub insert-Updates :
    {s : SparseSet} (x : ℕ)
    → IsValid s
    → s.min ≤ x
    → x ≤ s.max
    → (t : SparseSet) × (insert x s ≡ some t) × Updates x true s t
unfolding insert
insert-Updates {s} x v lo hi = elim (Bool-cases (has x s)) [
  | inl present ↦ (
    s,
    ground (arith, contains-has x v, present),
    Updates-of_has x true s s v v refl refl (λ y. ground (arith, present)),
  )
  | inr absent ↦ (
    added x v lo hi,
    ground (arith, contains-has x v, absent, add_new-added x v lo hi absent),
    Updates-of_has x true s (added x v lo hi) v (added-IsValid x v lo hi absent)
        (unfold exchanged in refl) (unfold exchanged in refl) (has-added x v lo hi absent),
  )
]

-- On a valid set `erase` of a value in range returns a valid set of the same range, in which
-- `contains` answers as before, and no for the value.
pub erase-Updates :
    {s : SparseSet} (x : ℕ)
    → IsValid s
    → s.min ≤ x
    → x ≤ s.max
    → (t : SparseSet) × (erase x s ≡ some t) × Updates x false s t
unfolding erase
erase-Updates {s} x v lo hi = elim (Bool-cases (has x s)) [
  | inl present ↦ (
    removed x v lo hi,
    ground (arith, contains-has x v, present, take_out-removed x v lo hi present),
    Updates-of_has x false s (removed x v lo hi) v (removed-IsValid x v lo hi present)
        (unfold exchanged in refl) (unfold exchanged in refl) (has-removed x v lo hi present),
  )
  | inr absent ↦ (
    s,
    ground (arith, contains-has x v, absent),
    Updates-of_has x false s s v v refl refl (λ y. ground (arith, absent)),
  )
]

-- `clear` keeps a valid set valid, and then `contains` answers no to everything.
pub clear-IsValid :
    {s : SparseSet} (x : ℕ) → IsValid s → IsValid (clear s) × (contains x (clear s) ≡ some false)
unfolding clear
clear-IsValid {s} x v = (cleared, ground (arith, contains-has x cleared))
  where
    cleared : IsValid (clear s)
    cleared = record {
      ordered = v.ordered;
      bounded = v.bounded;
      holds = v.holds;
      spanned = v.spanned;
      filled = omega arith;
      inverse = v.inverse;
    }
