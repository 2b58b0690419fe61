-- ===== src/MessageSort/Blocks/Paint.antt =====
-- What `push` and `clear` of src/MPI/messagesort.cpp do to the blocks.
use talpf.Prelude.{
  ℕ, zero, suc, ◌+◌, ◌-◌, ◌%◌, ◌≤◌, ◌<◌, ◌≡◌, refl, Bool, ◌&&◌, some, List, length, get_or, set,
  set?, length-set, get_or-set, get_elem?-get_or, ltb, leb, if◌then◌else◌, size_mod, arith, ◌⊎◌,
  inl, inr, Bool-cases,
}
use Prim.Native.Nat.{max as max_of, min as min_of}
use talpf.MessageSort.Blocks.{Writes, Write, id_mod, paint, push}

-- The number at a block, 0 where there is no message.
abbrev pub cell : ℕ → Writes → ℕ
cell j w = get_or w.memory j 0

abbrev pub covers : Write → ℕ → Bool
covers x j = leb x.start j && ltb j (x.start + x.size)

-- No message.
pub record IsEmpty (w : Writes) : Type 0 where
  pub min_last : w.min ≡ size_mod - 1
  pub max_first : w.max ≡ 0
  pub no_message : (j : ℕ) → cell j w ≡ 0

-- The range begins with a message, and no message is out of it.
pub record HasRange (w : Writes) : Type 0 where
  pub ordered : w.min ≤ w.max
  pub inside : w.max < length w.memory
  pub first : 0 < cell w.min w
  pub nothing_out : (j : ℕ) → 0 < cell j w → (w.min ≤ j) × (j ≤ w.max)

pub record IsWrites (w : Writes) : Type 0 where
  pub bounded : length w.memory < size_mod
  pub ids : (j : ℕ) → cell j w < id_mod
  pub range : IsEmpty w ⊎ HasRange w

paint-max :
    (n i id : ℕ) (xs : List ℕ)
    → id + 1 < id_mod
    → i + n ≤ length xs
    → (ys : List ℕ) × (paint n i id xs ≡ some ys)
      × (length ys ≡ length xs)
      × ((j : ℕ)
          → get_or ys j 0
            ≡ (if leb i j && ltb j (i + n) then max_of (get_or xs j 0) (id + 1) else get_or xs j 0))
unfolding paint set?
paint-max zero i id xs small fits = (xs, refl, refl, λ j. ground arith)
paint-max (suc n) i id xs small fits = elim (Bool-cases (leb (get_or xs i 0) id)) [
  | inl lower ↦
      let zs : List ℕ = set xs i ((id + 1) % id_mod) in
      let l : length zs ≡ length xs = length-set xs i ((id + 1) % id_mod) in
      let (ys, e, k, c) = paint-max n (suc i) id zs small (omega (arith, l)) in
      (
        ys,
        ground (arith, get_elem?-get_or xs i 0, lower, e),
        omega (arith, k, l),
        λ j. ground (arith, c j, lower, get_or-set xs i j ((id + 1) % id_mod) 0),
      )
  | inr higher ↦
      let (ys, e, k, c) = paint-max n (suc i) id xs small (omega arith) in
      (ys, ground (arith, get_elem?-get_or xs i 0, higher, e), k, λ j. ground (arith, c j, higher))
]

module _ (x : Write) (w : Writes) (v : IsWrites w) (small : x.id + 1 < id_mod)
    (some_blocks : 0 < x.size) (fits : x.start + x.size ≤ length w.memory) where
  abbrev painted : List ℕ → Writes
  painted xs = record {
    min = min_of w.min x.start;
    max = max_of w.max (x.start + x.size - 1);
    memory = xs;
  }

  painted-HasRange :
      (xs : List ℕ)
      → length xs ≡ length w.memory
      → ((j : ℕ) → get_or xs j 0 ≡ (if covers x j then max_of (cell j w) (x.id + 1) else cell j w))
      → IsEmpty w ⊎ HasRange w
      → HasRange (painted xs)
  painted-HasRange xs l c (inl empty) =
      let start : min_of w.min x.start ≡ x.start = omega (arith, empty.min_last, v.bounded) in
      record {
        ordered = omega (arith, start);
        inside = omega (arith, l, empty.max_first);
        first = ground (arith, start, c x.start);
        nothing_out = λ j h. ground (arith, start, h, c j, empty.no_message j);
      }
  painted-HasRange xs l c (inr r) = record {
    ordered = omega (arith, r.ordered);
    inside = omega (arith, l, r.inside);
    first = ground (arith, c (min_of w.min x.start), r.first);
    nothing_out = λ j h. ground (arith, h, c j, r.nothing_out j);
  }

  -- `push` of a message: each of its blocks has the higher of the two numbers, and all else stays.
  pub push-IsWrites :
      (u : Writes) × (push x w ≡ some u)
      × IsWrites u
      × (length u.memory ≡ length w.memory)
      × ((j : ℕ) → cell j u ≡ (if covers x j then max_of (cell j w) (x.id + 1) else cell j w))
  unfolding push
  push-IsWrites =
      let (xs, e, l, c) = paint-max x.size x.start x.id w.memory small fits in
      let stop : (x.start + x.size) % size_mod ≡ x.start + x.size = omega (arith, v.bounded) in
      let last : (x.start + x.size + size_mod - 1) % size_mod ≡ x.start + x.size - 1 =
        omega (arith, v.bounded) in
      (
        painted xs,
        rw (stop, last) (ground (arith, e)),
        record {
          bounded = omega (arith, v.bounded, l);
          ids = λ j. ground (arith, c j, v.ids j);
          range = inr (painted-HasRange xs l c v.range);
        },
        l,
        c,
      )
