-- ===== src/Rng/Modular.antt =====
-- Sums, products and powers of remainders.
use talpf.Prelude.{ℕ, zero, suc, ◌+◌, ◌*◌, ◌/◌, ◌%◌, ◌^◌, ◌≡◌, sym, ap, ◌∙◌, arith}
use native.Mathlib.Nat.{mod-add-div, add-mul-mod_self_left, pow-zero, pow-suc, mul_comm, mul_assoc}

pub mul-mod : (a b m : ℕ) → (a % m * b) % m ≡ (a * b) % m
mul-mod a b m =
    let e : a * b ≡ a % m * b + m * (a / m * b) = grind (arith, mod-add-div a m) in
    sym (ap (λ n. n % m) e ∙ add-mul-mod_self_left (a % m * b) m (a / m * b))

pub mul-mod' : (a b m : ℕ) → (a * (b % m)) % m ≡ (a * b) % m
mul-mod' a b m =
    ap (λ n. n % m) (mul_comm a (b % m)) ∙ mul-mod b a m ∙ ap (λ n. n % m) (mul_comm b a)

pub pow-mod : (a n m : ℕ) → ((a % m) ^ n) % m ≡ (a ^ n) % m
pow-mod a zero m = ap (λ k. k % m) (pow-zero (a % m) ∙ sym (pow-zero a))
pow-mod a (suc n) m =
    ap (λ k. k % m) (pow-suc (a % m) n)
    ∙ mul-mod' ((a % m) ^ n) a m
    ∙ sym (mul-mod ((a % m) ^ n) a m)
    ∙ ap (λ k. (k * a) % m) (pow-mod a n m)
    ∙ mul-mod (a ^ n) a m
    ∙ ap (λ k. k % m) (sym (pow-suc a n))

pair_up : (x a : ℕ) → x * x * (a * a) ≡ x * a * (x * a)
pair_up x a = grind arith

-- The square of a number, to a power.
pub pow-square : (a n : ℕ) → (a * a) ^ n ≡ a ^ n * a ^ n
pow-square a zero = pow-zero (a * a) ∙ sym (ap (λ k. k * k) (pow-zero a))
pow-square a (suc n) =
    pow-suc (a * a) n
    ∙ ap (λ k. k * (a * a)) (pow-square a n)
    ∙ pair_up (a ^ n) a
    ∙ sym (ap (λ k. k * k) (pow-suc a n))

pub pow-add : (a n k : ℕ) → a ^ (n + k) ≡ a ^ n * a ^ k
pow-add a n zero = grind (arith, pow-zero a)
pow-add a n (suc k) =
    let e : n + suc k ≡ suc (n + k) = omega arith in
    ap (λ i. a ^ i) e
    ∙ pow-suc a (n + k)
    ∙ ap (λ i. i * a) (pow-add a n k)
    ∙ mul_assoc (a ^ n) (a ^ k) a
    ∙ sym (ap (λ i. a ^ n * i) (pow-suc a k))

-- A factor that is a power of a remainder.
pub mul-pow-mod : (z a n m : ℕ) → (z * (a % m) ^ n) % m ≡ (z * a ^ n) % m
mul-pow-mod z a n m =
    sym (mul-mod' z ((a % m) ^ n) m) ∙ ap (λ k. (z * k) % m) (pow-mod a n m) ∙ mul-mod' z (a ^ n) m
