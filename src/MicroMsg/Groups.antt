-- ===== src/MicroMsg/Groups.antt =====
-- The loops of src/common/micromsg.hpp over the groups of a number.
use talpf.Prelude.{
  ℕ, zero, suc, ◌+◌, ◌-◌, ◌*◌, ◌/◌, ◌%◌, ◌^◌, ◌≤◌, ◌<◌, ◌≡◌, true, false, some, List, length,
  get_or, set, set?, length-set, get_or-set, ltb, ◌==◌, arith, ◌⊎◌, inl, inr, Bool-cases,
}
use talpf.MicroMsg.{write_groups, has_next}

-- The number of as many groups from `i` on.
abbrev pub value : ℕ → ℕ → List ℕ → ℕ
value zero i xs = 0
value (suc k) i xs = get_or xs i 0 % 128 + 128 * value k (suc i) xs

-- The groups from `i` up to `stop` stand for a number; the last of them alone has no next one.
pub record Holds (number i stop : ℕ) (xs : List ℕ) : Type 0 where
  pub some_groups : i < stop
  pub inside : stop ≤ length xs
  pub inner : (j : ℕ) → i ≤ j → suc j < stop → has_next (get_or xs j 0) ≡ true
  pub last : (j : ℕ) → suc j ≡ stop → has_next (get_or xs j 0) ≡ false
  pub same_value : value (stop - i) i xs ≡ number

value-Holds :
    (number i stop : ℕ) (xs : List ℕ)
    → i < stop
    → get_or xs i 0 % 128 + 128 * value (stop - suc i) (suc i) xs ≡ number
    → value (stop - i) i xs ≡ number
value-Holds number i stop xs h e =
    let k : stop - i ≡ suc (stop - suc i) = omega (arith, h) in rw k e

-- One group, the last of a number.
last-Holds :
    (number i : ℕ) (xs : List ℕ)
    → number < 128
    → i < length xs
    → get_or xs i 0 ≡ number
    → Holds number i (suc i) xs
last-Holds number i xs small inside same = record {
  some_groups = omega arith;
  inside = inside;
  inner = λ j lo hi. absurd (omega arith);
  last = λ j e. ground (arith, e, same, small);
  same_value = value-Holds number i (suc i) xs (omega arith) (ground (arith, same, small));
}

-- One group before those of the rest.
next-Holds :
    (number i stop : ℕ) (xs : List ℕ)
    → Holds (number / 128) (suc i) stop xs
    → get_or xs i 0 ≡ number % 128 + 128
    → Holds number i stop xs
next-Holds number i stop xs h same = record {
  some_groups = omega (arith, h.some_groups);
  inside = h.inside;
  inner = λ j lo hi. elim (Bool-cases (i == j)) [
    | inl here ↦ ground (arith, here, same)
    | inr later ↦ h.inner j (ground (arith, lo, later)) hi
  ];
  last = h.last;
  same_value =
      value-Holds number i stop xs (omega (arith, h.some_groups))
        (omega (arith, same, h.same_value));
}

-- What `write` leaves: groups of the number, at most as many as the rounds, and the rest as it was.
pub write_groups-Holds :
    (fuel number i : ℕ) (xs : List ℕ)
    → number < 128 ^ suc fuel
    → i + suc fuel ≤ length xs
    → (stop : ℕ) × (ys : List ℕ) × (write_groups (suc fuel) number i xs ≡ some (stop, ys))
      × Holds number i stop ys
      × (stop ≤ i + suc fuel)
      × (length ys ≡ length xs)
      × ((j : ℕ) → (j < i) ⊎ (stop ≤ j) → get_or ys j 0 ≡ get_or xs j 0)
unfolding write_groups set?
write_groups-Holds zero number i xs small fits =
    let ys : List ℕ = set xs i (number % 128) in
    let l : length ys ≡ length xs = length-set xs i (number % 128) in
    (
      suc i,
      ys,
      ground (arith, fits, small),
      last-Holds number i ys small (omega (arith, l, fits))
          (ground (arith, fits, small, get_or-set xs i i (number % 128) 0)),
      omega arith,
      l,
      λ j out. ground (arith, out, fits, get_or-set xs i j (number % 128) 0),
    )
write_groups-Holds (suc fuel) number i xs small fits = elim (Bool-cases (ltb 0 (number / 128))) [
  | inl more ↦
      let c : ℕ = number % 128 + 128 in
      let zs : List ℕ = set xs i c in
      let l : length zs ≡ length xs = length-set xs i c in
      let (stop, ys, e, h, few, k, same) =
        write_groups-Holds fuel (number / 128) (suc i) zs (omega (arith, small))
          (omega (arith, fits, l)) in
      (
        stop,
        ys,
        ground (arith, more, fits, e),
        next-Holds number i stop ys h (ground (arith, same i, fits, get_or-set xs i i c 0)),
        omega (arith, few),
        omega (arith, k, l),
        λ j out. ground (arith, out, fits, h.some_groups, same j, get_or-set xs i j c 0),
      )
  | inr done ↦
      let ys : List ℕ = set xs i (number % 128) in
      let l : length ys ≡ length xs = length-set xs i (number % 128) in
      (
        suc i,
        ys,
        ground (arith, done, fits),
        last-Holds number i ys (ground (arith, done)) (omega (arith, l, fits))
            (ground (arith, fits, done, get_or-set xs i i (number % 128) 0)),
        omega arith,
        l,
        λ j out. ground (arith, out, fits, get_or-set xs i j (number % 128) 0),
      )
]
