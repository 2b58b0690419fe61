-- ===== src/SparseSet.antt =====
-- The sparse set of Briggs and Torczon of src/common/sparseset.hpp, at an unsigned 64-bit element
-- type such as memslot_t. Its failed assertions and accesses out of range are `none` or `fault`.
pub mod Inverse
pub mod Contents
pub mod Range
pub mod Extend
pub mod Iterate
pub mod Shrink
mod Tests
use talpf.Prelude.{
  ℕ, zero, suc, ◌+◌, ◌-◌, ◌%◌, ◌^◌, Bool, true, false, ◌&&◌, Option, none, some, List, [], length,
  get_elem?, take, set?, resize, ltb, leb, ◌==◌, if◌then◌else◌, size_mod, assert, ◌>>=◌, ◌>>◌, Exec,
  returns, throws, fault, Exception, bad_alloc, nothrow, on_return,
}
use Prim.Native.Nat.{max as max_of}
use mathlib.Core.Option

-- `m_min`, `m_max`, `m_size`, `m_domain` and `m_map`.
pub record SparseSet : Type 0 where
  pub min : ℕ
  pub max : ℕ
  pub size : ℕ
  pub domain : List ℕ
  pub map : List ℕ

-- `SparseSet()`
pub empty_range : SparseSet
empty_range = record { min = 1; max = 0; size = 0; domain = []; map = [] }

-- `max_size()`: what a vector of 8-byte elements can hold.
abbrev pub max_size : ℕ
max_size = 2 ^ 60 - 1

-- `static_cast<size_type>(hi - lo + 1)`, with the wrap of the subtraction.
abbrev pub span : ℕ → ℕ → ℕ
span lo hi = (hi + size_mod - lo + 1) % size_mod

-- The two vectors, resized inside the `try` of `reset` and `extend`; `alloc` and `alloc'` say
-- whether the allocator has the memory for the first and for the second one.
unfoldable pub resize_vectors : Bool → Bool → ℕ → SparseSet → Exec SparseSet
resize_vectors alloc alloc' n s = elim (resize alloc n 0 s.domain) [
  | none ↦ throws bad_alloc s
  | some domain ↦ elim (resize alloc' n 0 s.map) [
    | none ↦ throws bad_alloc (record s { domain = take (length s.domain) domain })
    | some map ↦ returns (record s { domain = domain; map = map })
  ]
]

-- `for ( ; i < size; ++i) { m_domain[i] = i; m_map[i] = i; }`, by the rounds left.
unfoldable pub fill : ℕ → ℕ → SparseSet → Option SparseSet
fill zero i s = some s
fill (suc n) i s = set? s.domain i i >>= λ d.
    set? s.map i i >>= λ m. fill n (suc i) (record s { domain = d; map = m })

-- What `ASSERT( m_domain.size() == m_max - m_min + 1 )` tests.
abbrev spans : SparseSet → Bool
spans s = length s.domain == span s.min s.max

unfoldable pub reset_range : ℕ → ℕ → SparseSet → Option SparseSet
reset_range lo hi s = do
  t ← fill (span lo hi) 0 s
  let u : SparseSet = record t { min = lo; max = hi; size = 0 }
  assert (spans u)
  some u

unfoldable pub reset : Bool → Bool → ℕ → ℕ → SparseSet → Exec SparseSet
unfolding resize_vectors reset_range
reset alloc alloc' lo hi s =
    if leb lo hi && ltb (hi - lo) max_size
    then on_return (resize_vectors alloc alloc' (span lo hi) s) (λ t. nothrow (reset_range lo hi t))
    else fault

-- `SparseSet(min, max)`
unfoldable pub construct : Bool → Bool → ℕ → ℕ → Exec SparseSet
unfolding reset
construct alloc alloc' lo hi =
    reset alloc alloc' lo hi (record { min = 0; max = 0; size = 0; domain = []; map = [] })

unfoldable pub extend_range : ℕ → ℕ → SparseSet → Option SparseSet
extend_range old hi s = do
  t ← fill (span s.min hi - old) old s
  let u : SparseSet = record t { max = hi }
  assert (spans u)
  some u

unfoldable pub extend : Bool → Bool → ℕ → SparseSet → Exec SparseSet
unfolding resize_vectors extend_range
extend alloc alloc' hi s =
    if leb s.max hi
      && ltb (span s.min hi - 1) max_size
      && spans s
      && ltb (length s.domain) (span s.min hi)
    then on_return (resize_vectors alloc alloc' (span s.min hi) s)
        (λ t. nothrow (extend_range (length s.domain) hi t))
    else fault

-- `while ( m_domain.size() > targetSize && m_domain.back() > newMax ) m_domain.pop_back();`, by the
-- number of elements above `targetSize`.
unfoldable pub pop_while : ℕ → ℕ → ℕ → List ℕ → Option (List ℕ)
pop_while zero target hi xs = some xs
pop_while (suc n) target hi xs = get_elem? xs (target + n) >>= λ back. elim (ltb hi back) [
  | true ↦ pop_while n target hi (take (target + n) xs)
  | false ↦ some xs
]

-- What follows the loop of `shrink`, given what it left of the domain.
unfoldable pub shrink_to : List ℕ → SparseSet → Option SparseSet
shrink_to domain s = do
  let t : SparseSet = record s {
    domain = domain;
    max = (length domain + s.min + size_mod - 1) % size_mod;
    map = take (length domain) s.map;
  }
  assert (leb t.size (length t.domain))
  assert (spans t)
  assert (leb t.min t.max)
  some t

unfoldable pub shrink : ℕ → SparseSet → Option SparseSet
shrink hi s = do
  assert (leb hi s.max)
  assert (leb s.min hi)
  assert (spans s)
  let target = max_of s.size (span s.min hi)
  domain ← pop_while (length s.domain - target) target hi s.domain
  shrink_to domain s

unfoldable pub resize_range : Bool → Bool → ℕ → SparseSet → Exec SparseSet
unfolding shrink extend
resize_range alloc alloc' hi s =
    if ltb hi s.max
    then nothrow (shrink hi s)
    else if ltb s.max hi
    then extend alloc alloc' hi s
    else returns s

unfoldable pub clear : SparseSet → SparseSet
clear s = record s { size = 0 }

unfoldable pub is_empty : SparseSet → Bool
is_empty s = s.size == 0

-- `find( x ) - begin()`; the end is `m_size`.
unfoldable pub find : ℕ → SparseSet → Option ℕ
find x s =
    if ltb x s.min
    then some s.size
    else if ltb s.max x
    then some s.size
    else (get_elem? s.map (x - s.min) >>= λ m. if leb s.size m then some s.size else some m)

unfoldable pub contains : ℕ → SparseSet → Option Bool
contains x s =
    if leb s.min x && leb x s.max
    then Option.map (λ m. ltb m s.size) (get_elem? s.map (x - s.min))
    else some false

-- `swap( xs[i], xs[j] )`
unfoldable pub swap_at : List ℕ → ℕ → ℕ → Option (List ℕ)
swap_at xs i j = do a ← get_elem? xs i; b ← get_elem? xs j; ys ← set? xs i b; set? ys j a

-- The two swaps of `insert` and `erase`. The second indexes the map by the elements as they are.
unfoldable pub exchange : ℕ → ℕ → SparseSet → Option SparseSet
unfolding swap_at
exchange a b s = do
  domain ← swap_at s.domain a b
  p ← get_elem? domain a
  q ← get_elem? domain b
  map ← swap_at s.map p q
  some (record s { domain = domain; map = map })

unfoldable pub add_new : ℕ → SparseSet → Option SparseSet
add_new x s = do
  a ← get_elem? s.map (x - s.min)
  t ← exchange a s.size s
  some (record t { size = suc t.size })

unfoldable pub take_out : ℕ → SparseSet → Option SparseSet
take_out x s = do
  let smaller : SparseSet = record s { size = s.size - 1 }
  a ← get_elem? s.map (x - s.min)
  exchange a smaller.size smaller

unfoldable pub insert : ℕ → SparseSet → Option SparseSet
unfolding contains add_new
insert x s = do
  assert (leb s.min x)
  assert (leb x s.max)
  present ← contains x s
  if present then some s else add_new x s

unfoldable pub erase : ℕ → SparseSet → Option SparseSet
unfolding contains take_out
erase x s = do
  assert (leb s.min x)
  assert (leb x s.max)
  present ← contains x s
  if present then take_out x s else some s

-- What the iterators from `begin()` to `end()` run over.
unfoldable pub elements : SparseSet → List ℕ
elements s = take s.size s.domain
