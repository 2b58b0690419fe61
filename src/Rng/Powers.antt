-- ===== src/Rng/Powers.antt =====
-- int_pow of src/common/rng.c computes powers of 64 bits.
use talpf.Prelude.{
  ℕ, zero, suc, ◌+◌, ◌*◌, ◌/◌, ◌%◌, ◌^◌, ◌≤◌, ◌<◌, ◌≡◌, sym, ap, ◌∙◌, size_mod, ◌==◌, arith,
  Bool-cases, inl, inr,
}
use native.Mathlib.Nat.{pow-zero, pow-succ', mul_assoc}
use talpf.Rng.{power_loop, int_pow}
use talpf.Rng.Modular.{mul-mod, mul-pow-mod, pow-square, pow-add}

-- What the loop holds: the result times what is left of the power.
power_loop-holds :
    (rounds y m power : ℕ)
    → m ≤ rounds
    → y < size_mod
    → power_loop rounds y m power ≡ (y * power ^ m) % size_mod
unfolding power_loop
power_loop-holds zero y m power enough small =
    let none_left : m ≡ 0 = omega (arith, enough) in
    let one : power ^ m ≡ 1 = ap (λ k. power ^ k) none_left ∙ pow-zero power in
    let same : (y * 1) % size_mod ≡ y = omega (arith, small) in
    sym (ap (λ k. (y * k) % size_mod) one ∙ same)
power_loop-holds (suc rounds) y m power enough small =
    let half : ℕ = m / 2 in
    let square : power * power ^ (half + half) ≡ power ^ suc (half + half) =
      sym (pow-succ' power (half + half)) in
    let doubled : (power * power) ^ half ≡ power ^ (half + half) =
      pow-square power half ∙ sym (pow-add power half half) in
    let left : half ≤ rounds = omega (arith, enough) in
    let shrink : (z : ℕ)
        → (z * ((power * power) % size_mod) ^ half) % size_mod
          ≡ (z * power ^ (half + half)) % size_mod =
      λ z. mul-pow-mod z (power * power) half size_mod ∙ ap (λ k. (z * k) % size_mod) doubled in
    elim (Bool-cases (m % 2 == 1)) [
      | inl odd ↦
          let z : ℕ = (y * power) % size_mod in
          let whole : m ≡ suc (half + half) = ground (arith, odd) in
          rw odd (
            power_loop-holds rounds z half ((power * power) % size_mod) left (omega arith)
            ∙ shrink z
            ∙ mul-mod (y * power) (power ^ (half + half)) size_mod
            ∙ ap (λ k. k % size_mod) (mul_assoc y power (power ^ (half + half)))
            ∙ ap (λ k. (y * k) % size_mod) (square ∙ ap (λ k. power ^ k) (sym whole)))
      | inr even ↦
          let whole : m ≡ half + half = ground (arith, even) in
          rw even (
            power_loop-holds rounds y half ((power * power) % size_mod) left small
            ∙ shrink y
            ∙ ap (λ k. (y * power ^ k) % size_mod) (sym whole))
    ]

-- `int_pow` gives the power, modulo 2^64, for all arguments.
pub int_pow-pow : (x n : ℕ) → int_pow x n ≡ (x ^ n) % size_mod
unfolding int_pow
int_pow-pow x n =
    let one : 1 * x ^ n ≡ x ^ n = omega arith in
    power_loop-holds n 1 n x (omega arith) (omega arith) ∙ ap (λ k. k % size_mod) one
