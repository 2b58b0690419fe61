-- ===== src/Rng.antt =====
-- The random numbers of src/common/rng.h and rng.c: a linear congruential generator on uint64_t. The
-- first guess of a quotient, which is made in floating point, is an argument.
mod Modular
pub mod Powers
pub mod Leaps
mod Tests
use talpf.Prelude.{
  ℕ, zero, suc, ◌+◌, ◌-◌, ◌*◌, ◌/◌, ◌%◌, ◌^◌, Bool, ◌&&◌, ◌||◌, Option, some, none, ltb, leb, ◌==◌,
  if◌then◌else◌, size_mod, ◌>>=◌,
}

-- `rng_state_t`
pub record Rng : Type 0 where
  pub multiplier : ℕ
  pub increment : ℕ
  pub value : ℕ

-- The loop of `int_pow` over as many rounds.
unfoldable pub power_loop : ℕ → ℕ → ℕ → ℕ → ℕ
power_loop zero y m power = y
power_loop (suc rounds) y m power =
    let z : ℕ = if m % 2 == 1 then (y * power) % size_mod else y in
    power_loop rounds z (m / 2) ((power * power) % size_mod)

unfoldable pub int_pow : ℕ → ℕ → ℕ
unfolding power_loop
int_pow x n = power_loop n 1 n x

-- `rng_create`
abbrev pub create : ℕ → Rng
create seed = record {
  multiplier = 6364136223846793005;
  increment = 1442695040888963407;
  value = seed;
}

-- `rng_next`, which changes the state and returns its value.
unfoldable pub next : Rng → Rng
next s = record s { value = (s.multiplier * s.value + s.increment) % size_mod }

-- `mult64`: the high and the low word.
unfoldable pub mult64 : ℕ → ℕ → ℕ × ℕ
mult64 a b =
    let middle : ℕ = (a % 2 ^ 32 * (b / 2 ^ 32) + a / 2 ^ 32 * (b % 2 ^ 32)) % size_mod in
    (
      (a / 2 ^ 32 * (b / 2 ^ 32) + middle / 2 ^ 32) % size_mod,
      (a % 2 ^ 32 * (b % 2 ^ 32) + middle % 2 ^ 32) % size_mod,
    )

-- The first loop of `div64`, of at most as many rounds.
unfoldable pub lower : ℕ → ℕ × ℕ → ℕ → ℕ → Option ℕ
lower zero x nom estimate = none
lower (suc fuel) x nom estimate =
    let y : ℕ × ℕ = mult64 nom estimate in
    let rest : Option ℕ = lower fuel x nom ((estimate + size_mod - 1) % size_mod) in
    if leb x.0 y.0 || (y.0 == x.0 && ltb x.1 y.1) then rest else some estimate

-- The second one.
unfoldable pub raise : ℕ → ℕ × ℕ → ℕ → ℕ → Option ℕ
raise zero x nom estimate = none
raise (suc fuel) x nom estimate =
    let y : ℕ × ℕ = mult64 nom estimate in
    let rest : Option ℕ = raise fuel x nom ((estimate + 1) % size_mod) in
    if ltb y.0 x.0 || (y.0 == x.0 && leb y.1 x.1) then rest else some estimate

-- `div64`, with the first guess; a division by 0 has no result. The ASSERT between the loops holds
-- once the first has ended.
unfoldable pub div64 : (ℕ × ℕ → ℕ → ℕ) → ℕ → ℕ × ℕ → ℕ → Option ℕ
unfolding lower raise
div64 guess fuel x nom =
    if nom == 0
    then none
    else if x.0 == 0
    then some (x.1 / nom)
    else (lower fuel x nom (guess x nom) >>= λ e.
        raise fuel x nom e >>= λ f. some ((f + size_mod - 1) % size_mod))

-- `rng_parallelize`
unfoldable pub parallelize : (ℕ × ℕ → ℕ → ℕ) → ℕ → ℕ → ℕ → Rng → Option Rng
unfolding div64 mult64 int_pow
parallelize guess fuel pid nprocs s =
    let a : ℕ = s.multiplier in
    let b : ℕ = (a + size_mod - 1) % size_mod in
    let a_nprocs : ℕ = int_pow a nprocs in
    let a_pid : ℕ = int_pow a pid in
    div64 guess fuel (mult64 ((a_pid + size_mod - 1) % size_mod) s.increment) b >>= λ first.
    div64 guess fuel (mult64 ((a_nprocs + size_mod - 1) % size_mod) s.increment) b >>= λ step.
    some (record {
      multiplier = a_nprocs;
      increment = step;
      value = (a_pid * s.value + first) % size_mod;
    })
