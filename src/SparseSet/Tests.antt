-- ===== src/SparseSet/Tests.antt =====
-- Concrete runs of the sparse set, and its theorems at concrete inputs.
use talpf.Prelude.{
  ℕ, zero, suc, ◌+◌, ◌-◌, ◌≡◌, refl, ◌↔◌, true, none, some, List, [], ◌∷◌, get_elem?, set?, arith,
  ◌>>=◌,
}
use talpf.SparseSet.{
  SparseSet, shrink, contains, insert, clear, elements, exchange, pop_while, shrink_to,
}
use talpf.SparseSet.Inverse.{Inverse}
use talpf.SparseSet.Contents.{IsValid, Updates, insert-Updates}
use talpf.SparseSet.Range.{numbered, numbered-Inverse}
use talpf.SparseSet.Shrink.{IsSettled, shrink-IsValid}
use talpf.SparseSet.Iterate.{contains-elements}

-- The set with 0 and 1 in it, over the range from 0 to 3.
abbrev pair : SparseSet
pair = record { min = 0; max = 3; size = 2; domain = 0 ∷ 1 ∷ 2 ∷ 3 ∷ []; map = 0 ∷ 1 ∷ 2 ∷ 3 ∷ [] }

abbrev zeros : List ℕ
zeros = 0 ∷ 0 ∷ 0 ∷ 0 ∷ []

pair-Inverse : Inverse pair.domain pair.map
unfolding numbered
pair-Inverse =
    numbered-Inverse 4 0 zeros zeros (omega arith) (omega arith) (λ k h. absurd (omega arith))
      (λ k h. absurd (omega arith))

pair-IsValid : IsValid pair
pair-IsValid = record {
  ordered = omega arith;
  bounded = omega arith;
  holds = omega arith;
  spanned = refl;
  filled = omega arith;
  inverse = pair-Inverse;
}

insert-Updates_example : (t : SparseSet) × (insert 3 pair ≡ some t) × Updates 3 true pair t
insert-Updates_example = insert-Updates 3 pair-IsValid (omega arith) (omega arith)

contains-elements_example :
    (contains 1 pair ≡ some true) ↔ ((i : ℕ) × (get_elem? (elements pair) i ≡ some (1 - 0)))
contains-elements_example = contains-elements pair-IsValid 1 (omega arith) (omega arith)

pair-IsSettled : IsSettled 2 pair.domain
pair-IsSettled zero h l = absurd (omega arith)
pair-IsSettled (suc zero) h l = absurd (omega arith)
pair-IsSettled (suc (suc zero)) h l = refl
pair-IsSettled (suc (suc (suc zero))) h l = refl
pair-IsSettled (suc (suc (suc (suc i)))) h l = absurd (omega arith)

shrink-IsValid_example :
    (t : SparseSet) × (shrink 1 pair ≡ some t)
    × IsValid t
    × (t.min ≡ 0)
    × (t.max + 1 ≡ 2)
    × ((y : ℕ) → contains y t ≡ contains y pair)
shrink-IsValid_example = shrink-IsValid 1 pair-IsValid refl (omega arith) pair-IsSettled

-- The order that the elements of a set of 0 to 4 have after inserting 4, 0, 1 and 2.
abbrev rotated : SparseSet
rotated = record {
  min = 0;
  max = 4;
  size = 0;
  domain = 4 ∷ 0 ∷ 1 ∷ 2 ∷ 3 ∷ [];
  map = 1 ∷ 2 ∷ 3 ∷ 4 ∷ 0 ∷ [];
}

abbrev five : SparseSet
five = record {
  min = 0;
  max = 4;
  size = 0;
  domain = 0 ∷ 1 ∷ 2 ∷ 3 ∷ 4 ∷ [];
  map = 0 ∷ 1 ∷ 2 ∷ 3 ∷ 4 ∷ [];
}

-- The order comes about by inserting, and `clear` keeps it.
rotates :
    (insert 4 five >>= insert 0 >>= insert 1 >>= insert 2 >>= λ s. some (clear s)) ≡ some rotated
unfolding insert exchange clear set?
rotates = refl

-- Then `shrink` to 2 leaves 4 in the domain and 3 out of it, and an `insert` of 3, which is in the
-- new range, writes behind the end of the vectors.
shrink_strands : (shrink 2 rotated >>= λ s. insert 3 s) ≡ none
unfolding shrink shrink_to pop_while insert exchange set?
shrink_strands = refl

-- Over a range that does not begin at 0 the iteration gives each element less the minimum.
abbrev from_five : SparseSet
from_five = record { min = 5; max = 7; size = 0; domain = 0 ∷ 1 ∷ 2 ∷ []; map = 0 ∷ 1 ∷ 2 ∷ [] }

iterates_offsets : (insert 7 from_five >>= λ s. some (elements s)) ≡ some (2 ∷ [])
unfolding insert exchange elements set?
iterates_offsets = refl
