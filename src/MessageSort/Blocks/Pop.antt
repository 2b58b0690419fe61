-- ===== src/MessageSort/Blocks/Pop.antt =====
-- What `pop` of src/MPI/messagesort.cpp takes out.
use talpf.Prelude.{
  ℕ, zero, suc, ◌+◌, ◌-◌, ◌%◌, ◌≤◌, ◌<◌, ◌≡◌, ◌≢◌, refl, ap, ◌∙◌, true, ◌&&◌, some, none, List,
  length, get_elem?, get_or, set, set?, length-set, get_or-set, get_elem?-get_or, ltb, leb, ◌==◌,
  if◌then◌else◌, size_mod, arith, ◌⊎◌, inl, inr, Bool-cases,
}
use talpf.MessageSort.Blocks.{Writes, Write, id_mod, wipe, skip, narrow, pop}
use talpf.MessageSort.Blocks.Paint.{cell, covers, IsWrites, IsEmpty, HasRange}

-- The blocks from `i` to `stop` had the number `m` and are erased; at `stop` there is another one, or
-- the range ends.
pub record Wiped (i stop last m : ℕ) (xs ys : List ℕ) : Type 0 where
  pub some_blocks : i < stop
  pub within : stop ≤ suc last
  pub same_length : length ys ≡ length xs
  pub same_number : (j : ℕ) → i < j → j < stop → get_or xs j 0 ≡ m
  pub ends : (stop ≡ suc last) ⊎ (get_or xs stop 0 ≢ m)
  pub erased : (j : ℕ) → get_or ys j 0 ≡ (if leb i j && ltb j stop then 0 else get_or xs j 0)

wipe-Wiped :
    (n i m : ℕ) (xs : List ℕ)
    → i + n < length xs
    → (stop : ℕ) × (ys : List ℕ) × (wipe n i m xs ≡ some (stop, ys)) × Wiped i stop (i + n) m xs ys
unfolding wipe set?
wipe-Wiped zero i m xs fits = (
  suc i,
  set xs i 0,
  ground arith,
  record {
    some_blocks = omega arith;
    within = omega arith;
    same_length = length-set xs i 0;
    same_number = λ j lo hi. absurd (omega arith);
    ends = inl (omega arith);
    erased = λ j. ground (arith, get_or-set xs i j 0 0);
  },
)
wipe-Wiped (suc n) i m xs fits =
    let l : length (set xs i 0) ≡ length xs = length-set xs i 0 in
    let found : get_elem? (set xs i 0) (suc i) ≡ some (get_or (set xs i 0) (suc i) 0) =
      get_elem?-get_or (set xs i 0) (suc i) 0 (omega (arith, l)) in
    let next : get_or (set xs i 0) (suc i) 0 ≡ get_or xs (suc i) 0 =
      ground (arith, get_or-set xs i (suc i) 0 0) in
    elim (Bool-cases (get_or xs (suc i) 0 == m)) [
      | inl same ↦
          let (stop, ys, e, r) = wipe-Wiped n (suc i) m (set xs i 0) (omega (arith, l)) in
          (
            stop,
            ys,
            ground (arith, fits, found, next, same, e),
            record {
              some_blocks = omega (arith, r.some_blocks);
              within = omega (arith, r.within);
              same_length = omega (arith, r.same_length, l);
              same_number =
                  λ j lo hi. ground (arith, same, lo, hi, r.same_number j, get_or-set xs i j 0 0);
              ends = elim r.ends [
                | inl e ↦ inl (omega (arith, e))
                | inr other ↦
                    inr (λ s. other (ground (arith, s, r.some_blocks, get_or-set xs i stop 0 0)))
              ];
              erased = λ j. ground (arith, r.erased j, r.some_blocks, get_or-set xs i j 0 0);
            },
          )
      | inr other ↦ (
        suc i,
        set xs i 0,
        ground (arith, fits, found, next, other),
        record {
          some_blocks = omega arith;
          within = omega arith;
          same_length = l;
          same_number = λ j lo hi. absurd (omega arith);
          ends = inr (λ same. ground (arith, other, same));
          erased = λ j. ground (arith, get_or-set xs i j 0 0);
        },
      )
    ]

skip-first :
    (n i : ℕ) (xs : List ℕ)
    → i + n ≤ length xs
    → (low : ℕ) × (skip n i xs ≡ some low)
      × (i ≤ low)
      × (low ≤ i + n)
      × ((j : ℕ) → i ≤ j → j < low → get_or xs j 0 ≡ 0)
      × ((low ≡ i + n) ⊎ (0 < get_or xs low 0))
unfolding skip
skip-first zero i xs fits =
    (i, refl, omega arith, omega arith, λ j lo hi. absurd (omega arith), inl (omega arith))
skip-first (suc n) i xs fits =
    let found : get_elem? xs i ≡ some (get_or xs i 0) = get_elem?-get_or xs i 0 (omega arith) in
    elim (Bool-cases (get_or xs i 0 == 0)) [
      | inl none_here ↦
          let (low, e, lo, hi, z, ends) = skip-first n (suc i) xs (omega arith) in
          (
            low,
            ground (arith, found, none_here, e),
            omega (arith, lo),
            omega (arith, hi),
            (λ j l h. ground (arith, l, h, none_here, z j)),
            ground (arith, ends),
          )
      | inr here ↦ (
        i,
        ground (arith, found, here),
        omega arith,
        omega arith,
        (λ j l h. absurd (omega arith)),
        inr (ground (arith, here)),
      )
    ]

-- `x` is the first run of blocks with one number in `w`, and `u` is `w` without it.
pub record Takes (x : Write) (w u : Writes) : Type 0 where
  pub some_blocks : 0 < x.size
  pub inside : x.start + x.size ≤ length w.memory
  pub small : x.id + 1 < id_mod
  pub first : (j : ℕ) → j < x.start → cell j w ≡ 0
  pub same_number : (j : ℕ) → covers x j ≡ true → cell j w ≡ x.id + 1
  pub longest : cell (x.start + x.size) w ≢ x.id + 1
  pub same_length : length u.memory ≡ length w.memory
  pub left : (j : ℕ) → cell j u ≡ (if covers x j then 0 else cell j w)
  pub still : IsWrites u

narrow-IsWrites :
    (low high : ℕ) (xs : List ℕ)
    → length xs < size_mod
    → high < length xs
    → low ≤ suc high
    → ((j : ℕ) → get_or xs j 0 < id_mod)
    → ((j : ℕ) → 0 < get_or xs j 0 → (low ≤ j) × (j ≤ high))
    → (low ≡ suc high) ⊎ (0 < get_or xs low 0)
    → (u : Writes) × (narrow low high xs ≡ some u) × (u.memory ≡ xs) × IsWrites u
unfolding narrow
narrow-IsWrites low high xs b h l ids within ends = elim (Bool-cases (ltb high low)) [
  | inl over ↦ (
    record { min = size_mod - 1; max = 0; memory = xs },
    ground (arith, over, l),
    refl,
    record {
      bounded = b;
      ids = ids;
      range = inl (record {
        min_last = refl;
        max_first = refl;
        no_message = λ j. ground (arith, within j, over);
      });
    },
  )
  | inr more ↦ (
    record { min = low; max = high; memory = xs },
    ground (arith, more),
    refl,
    record {
      bounded = b;
      ids = ids;
      range = inr (record {
        ordered = ground (arith, more);
        inside = h;
        first = ground (arith, more, ends);
        nothing_out = within;
      });
    },
  )
]

module _ (w : Writes) (v : IsWrites w) where
  pop-some :
      HasRange w
      → (x : Write) × (u : Writes) × (pop w ≡ some (some x, u)) × (x.start ≡ w.min) × Takes x w u
  unfolding pop
  pop-some r =
      let m : ℕ = cell w.min w in
      let id : ℕ = (m + id_mod - 1) % id_mod in
      let back : (id + 1) % id_mod ≡ m = omega (arith, v.ids w.min, r.first) in
      let (stop, ys, e, p) =
        wipe-Wiped (w.max - w.min) w.min m w.memory (omega (arith, r.ordered, r.inside)) in
      let last : w.min + (w.max - w.min) ≡ w.max = omega (arith, r.ordered) in
      let (low, f, lo, hi, z, ends) =
        skip-first (w.max + 1 - stop) stop ys
          (omega (arith, p.within, p.same_length, r.inside, last)) in
      let (u, g, same, still) =
        narrow-IsWrites low w.max ys (omega (arith, v.bounded, p.same_length))
          (omega (arith, r.inside, p.same_length)) (omega (arith, hi, p.within, last))
          (λ j. ground (arith, p.erased j, v.ids j))
          (λ j h. ground (arith, h, p.erased j, r.nothing_out j, z j))
          (ground (arith, ends, p.within, last)) in
      (
        record { id = id; start = w.min; size = stop - w.min },
        u,
        ground (
          arith,
          r.ordered,
          r.inside,
          get_elem?-get_or w.memory w.min 0 (omega (arith, r.ordered, r.inside)),
          back,
          e,
          f,
          g,
        ),
        refl,
        record {
          some_blocks = omega (arith, p.some_blocks);
          inside = omega (arith, p.some_blocks, p.within, last, r.inside);
          small = omega (arith, v.ids w.min, r.first);
          first = λ j h. ground (arith, h, r.nothing_out j);
          same_number = λ j c. ground (arith, c, back, p.some_blocks, p.same_number j);
          longest = λ q.
              ground (arith, q, back, p.ends, p.some_blocks, r.first, r.nothing_out stop, last);
          same_length = ap length same ∙ p.same_length;
          left = λ j.
              ground (arith, ap (λ (zs : List ℕ). get_or zs j 0) same, p.erased j, p.some_blocks);
          still = still;
        },
      )

  -- `pop` of an array without messages changes nothing, and of any other takes out the first run of
  -- blocks with one number.
  pub pop-Takes :
      (IsEmpty w × (pop w ≡ some (none, w)))
      ⊎ ((x : Write) × (u : Writes) × (pop w ≡ some (some x, u)) × Takes x w u)
  unfolding pop
  pop-Takes = elim v.range [
    | inl e ↦ inl (e, ground (arith, e.min_last, e.max_first))
    | inr r ↦ let (x, u, e, _, t) = pop-some r in inr (x, u, e, t)
  ]
