-- ===== src/SparseSet/Inverse.antt =====
-- What `m_domain` and `m_map` of src/common/sparseset.hpp are to one another, and what the swaps of
-- `insert` and `erase` do to them.
use talpf.Prelude.{
  ℕ, ◌<◌, ◌≡◌, List, length, get_or, set, set?, length-set, get_or-set, get_elem?-get_or, some,
  arith, ◌==◌, if◌then◌else◌, ◌>>=◌,
}
use talpf.SparseSet.{SparseSet, swap_at, exchange}

-- The vectors are permutations of the numbers below their length, inverse to one another.
pub record Inverse (d m : List ℕ) : Type 0 where
  pub same_length : length m ≡ length d
  pub from_domain :
      (i : ℕ) → i < length d → (get_or d i 0 < length d) × (get_or m (get_or d i 0) 0 ≡ i)
  pub from_map :
      (j : ℕ) → j < length d → (get_or m j 0 < length d) × (get_or d (get_or m j 0) 0 ≡ j)

unfoldable pub swapped : List ℕ → ℕ → ℕ → List ℕ
swapped xs i j = set (set xs i (get_or xs j 0)) j (get_or xs i 0)

pub length-swapped : (xs : List ℕ) (i j : ℕ) → length (swapped xs i j) ≡ length xs
unfolding swapped
length-swapped xs i j = omega (
  arith,
  length-set (set xs i (get_or xs j 0)) j (get_or xs i 0),
  length-set xs i (get_or xs j 0),
)

pub get_or-swapped :
    (xs : List ℕ) (i j k : ℕ)
    → i < length xs
    → j < length xs
    → get_or (swapped xs i j) k 0
      ≡ (if j == k then get_or xs i 0 else if i == k then get_or xs j 0 else get_or xs k 0)
unfolding swapped
get_or-swapped xs i j k hi hj = ground (
  arith,
  length-set xs i (get_or xs j 0),
  get_or-set (set xs i (get_or xs j 0)) j k (get_or xs i 0) 0,
  get_or-set xs i k (get_or xs j 0) 0,
)

set?-set : (xs : List ℕ) (i v : ℕ) → i < length xs → set? xs i v ≡ some (set xs i v)
unfolding set?
set?-set xs i v h = ground arith

pub swap_at-swapped :
    (xs : List ℕ) (i j : ℕ) → i < length xs → j < length xs → swap_at xs i j ≡ some (swapped xs i j)
unfolding swap_at swapped
swap_at-swapped xs i j hi hj =
    rw (get_elem?-get_or xs i 0 hi, get_elem?-get_or xs j 0 hj, set?-set xs i _ hi)
      (set?-set _ j _ (omega (arith, length-set xs i (get_or xs j 0))))

unfoldable pub exchanged : ℕ → ℕ → SparseSet → SparseSet
exchanged a b s = record s {
  domain = swapped s.domain a b;
  map = swapped s.map (get_or s.domain b 0) (get_or s.domain a 0);
}

module _ (s : SparseSet) (v : Inverse s.domain s.map) (a b : ℕ) (ha : a < length s.domain)
    (hb : b < length s.domain) where
  pub domain-exchanged :
      (i : ℕ)
      → get_or (exchanged a b s).domain i 0 ≡ (
          if b == i
          then get_or s.domain a 0
          else if a == i
          then get_or s.domain b 0
          else get_or s.domain i 0)
  unfolding exchanged
  domain-exchanged i = get_or-swapped s.domain a b i ha hb

  pub map-exchanged :
      (j : ℕ)
      → get_or (exchanged a b s).map j 0 ≡ (
          if get_or s.domain a 0 == j
          then b
          else if get_or s.domain b 0 == j
          then a
          else get_or s.map j 0)
  unfolding exchanged
  map-exchanged j = ground (
    arith,
    v.same_length,
    v.from_domain a ha,
    v.from_domain b hb,
    get_or-swapped s.map (get_or s.domain b 0) (get_or s.domain a 0) j,
  )

  pub exchange-exchanged : exchange a b s ≡ some (exchanged a b s)
  unfolding exchange exchanged
  exchange-exchanged = rw (
    swap_at-swapped s.domain a b ha hb,
    get_elem?-get_or (swapped s.domain a b) a 0 (omega (arith, length-swapped s.domain a b)),
    get_elem?-get_or (swapped s.domain a b) b 0 (omega (arith, length-swapped s.domain a b)),
    ◌>>=◌,
    at_a,
    at_b,
    swap_at-swapped s.map (get_or s.domain b 0) (get_or s.domain a 0)
        (omega (arith, v.same_length, v.from_domain b hb))
        (omega (arith, v.same_length, v.from_domain a ha)),
  )
    where
      at_a : get_or (swapped s.domain a b) a 0 ≡ get_or s.domain b 0
      at_a = ground (arith, get_or-swapped s.domain a b a ha hb)

      at_b : get_or (swapped s.domain a b) b 0 ≡ get_or s.domain a 0
      at_b = ground (arith, get_or-swapped s.domain a b b ha hb)

  pub length-exchanged : length (exchanged a b s).domain ≡ length s.domain
  unfolding exchanged
  length-exchanged = length-swapped s.domain a b

  same_length-exchanged : length (exchanged a b s).map ≡ length (exchanged a b s).domain
  unfolding exchanged
  same_length-exchanged = omega (
    arith,
    v.same_length,
    length-swapped s.domain a b,
    length-swapped s.map (get_or s.domain b 0) (get_or s.domain a 0),
  )

  pub exchanged-Inverse : Inverse (exchanged a b s).domain (exchanged a b s).map
  exchanged-Inverse = record {
    same_length = same_length-exchanged;
    from_domain = λ i h. ground (
      arith,
      length-exchanged,
      domain-exchanged i,
      map-exchanged (get_or (exchanged a b s).domain i 0),
      v.from_domain i,
      v.from_domain a ha,
      v.from_domain b hb,
    );
    from_map = λ j h. ground (
      arith,
      length-exchanged,
      map-exchanged j,
      domain-exchanged (get_or (exchanged a b s).map j 0),
      v.from_map j,
      v.from_domain a ha,
      v.from_domain b hb,
    );
  }
