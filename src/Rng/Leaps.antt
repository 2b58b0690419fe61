-- ===== src/Rng/Leaps.antt =====
-- What many calls of rng_next of src/common/rng.c give.
use talpf.Prelude.{ℕ, zero, suc, ◌+◌, ◌*◌, ◌%◌, ◌^◌, ◌<◌, ◌≡◌, refl, sym, ap, ◌∙◌, size_mod, arith}
use native.Mathlib.Nat.{pow-zero, pow-succ', mod-add-mod}
use talpf.Rng.{Rng, next}
use talpf.Rng.Modular.{mul-mod'}

-- As many calls of `rng_next`.
unfoldable pub nexts : ℕ → Rng → Rng
nexts zero s = s
nexts (suc k) s = next (nexts k s)

-- 1 + a + ... + a^(n-1)
unfoldable pub geometric : ℕ → ℕ → ℕ
geometric a zero = 0
geometric a (suc n) = a * geometric a n + 1

same_multiplier : (k : ℕ) (s : Rng) → (nexts k s).multiplier ≡ s.multiplier
unfolding nexts next
same_multiplier zero s = refl
same_multiplier (suc k) s = same_multiplier k s

same_increment : (k : ℕ) (s : Rng) → (nexts k s).increment ≡ s.increment
unfolding nexts next
same_increment zero s = refl
same_increment (suc k) s = same_increment k s

collect : (a p v c g : ℕ) → a * (p * v + c * g) + c ≡ a * p * v + c * (a * g + 1)
collect a p v c g = grind arith

-- One step of a generator whose value is a remainder.
step-mod : (a w c : ℕ) → (a * (w % size_mod) + c) % size_mod ≡ (a * w + c) % size_mod
step-mod a w c =
    sym (mod-add-mod (a * (w % size_mod)) size_mod c)
    ∙ ap (λ k. (k + c) % size_mod) (mul-mod' a w size_mod)
    ∙ mod-add-mod (a * w) size_mod c

-- `next` of a state of which the fields are known.
next-value :
    (t : Rng) (a c v : ℕ)
    → t.multiplier ≡ a
    → t.increment ≡ c
    → t.value ≡ v
    → (next t).value ≡ (a * v + c) % size_mod
unfolding next
next-value t a c v ea ec ev =
    ap (λ m. (m * t.value + t.increment) % size_mod) ea
    ∙ ap (λ i. (a * t.value + i) % size_mod) ec
    ∙ ap (λ w. (a * w + c) % size_mod) ev

-- The value after as many calls, in closed form.
value-nexts :
    (k : ℕ) (s : Rng)
    → s.value < size_mod
    → (nexts k s).value
      ≡ (s.multiplier ^ k * s.value + s.increment * geometric s.multiplier k) % size_mod
unfolding nexts geometric
value-nexts zero s small =
    let same : (1 * s.value + s.increment * 0) % size_mod ≡ s.value = omega (arith, small) in
    sym (ap (λ p. (p * s.value + s.increment * 0) % size_mod) (pow-zero s.multiplier) ∙ same)
value-nexts (suc k) s small =
    let a : ℕ = s.multiplier in
    let c : ℕ = s.increment in
    let g : ℕ = geometric a k in
    next-value (nexts k s) a c ((a ^ k * s.value + c * g) % size_mod) (same_multiplier k s)
      (same_increment k s) (value-nexts k s small)
    ∙ step-mod a (a ^ k * s.value + c * g) c
    ∙ ap (λ n. n % size_mod) (collect a (a ^ k) s.value c g)
    ∙ ap (λ p. (p * s.value + c * (a * g + 1)) % size_mod) (sym (pow-succ' a k))
