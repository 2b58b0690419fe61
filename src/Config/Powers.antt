-- ===== src/Config/Powers.antt =====
-- The logarithm of src/common/config.cpp, and the block sizes that the configuration takes.
use talpf.Prelude.{
  ℕ, zero, suc, ◌+◌, ◌*◌, ◌/◌, ◌%◌, ◌^◌, ◌≤◌, ◌<◌, ◌≡◌, ◌≢◌, ◌⊎◌, inl, inr, refl, sym, ap, ◌∙◌,
  Bool, true, false, Option, some, none, if◌then◌else◌, size_mod, ◌>>=◌, arith,
}
use Prim.Native.String.{String}
use native.Mathlib.Decide.{dec_lt, ℕ_discrete}
use native.Mathlib.Nat.{pow-succ'}
use talpf.Config.{
  ℤ, pos, negsuc, increase, log2_loop, log2, is_power, get_mpi_msg_sort_grain_size_power,
}

-- `n` times `++y`.
abbrev rise : ℕ → ℤ → ℤ
rise zero y = y
rise (suc n) y = rise n (increase y)

log2_loop-zero : (rounds : ℕ) (y : ℤ) → log2_loop rounds y 0 ≡ some y
unfolding log2_loop
log2_loop-zero zero y = refl
log2_loop-zero (suc rounds) y = refl

-- The loop gives the number of the highest bit, more by what it began with.
log2_loop-highest :
    (rounds : ℕ) (y : ℤ) (x : ℕ)
    → 0 < x
    → x < 2 ^ rounds
    → (k : ℕ) × (log2_loop rounds y x ≡ some (rise (suc k) y)) × (2 ^ k ≤ x) × (x < 2 * 2 ^ k)
unfolding log2_loop
log2_loop-highest zero y x pos_x small = absurd (omega (arith, small))
log2_loop-highest (suc rounds) y x pos_x small = elim (dec_lt 0 (x / 2)) [
  | no one ↦
      let gone : x / 2 ≡ 0 = omega (arith, one) in
      (
        0,
        ground (
          arith,
          pos_x,
          ap (log2_loop rounds (increase y)) gone,
          log2_loop-zero rounds (increase y),
        ),
        omega arith,
        omega (arith, one),
      )
  | yes more ↦
      let (k, goes, low, high) =
        log2_loop-highest rounds (increase y) (x / 2) more
          (omega (arith, small, pow-succ' 2 rounds)) in
      (
        suc k,
        ground (arith, pos_x, goes),
        omega (arith, low, pow-succ' 2 k),
        omega (arith, high, pow-succ' 2 k),
      )
]

rise-pos : (k n : ℕ) → rise k (pos n) ≡ pos (k + n)
rise-pos zero n = let same : n ≡ 0 + n = omega arith in ap pos same
rise-pos (suc k) n =
    let same : k + suc n ≡ suc k + n = omega arith in rise-pos k (suc n) ∙ ap pos same

pub log2-highest :
    (x : ℕ)
    → 0 < x
    → x < size_mod
    → (k : ℕ) × (log2 x ≡ some (pos k)) × (2 ^ k ≤ x) × (x < 2 * 2 ^ k)
unfolding log2
log2-highest x pos_x small =
    let (k, goes, low, high) = log2_loop-highest 64 (negsuc 0) x pos_x (omega (arith, small)) in
    let there : k + 0 ≡ k = omega arith in
    (k, goes ∙ ap some (rise-pos k 0 ∙ ap pos there), low, high)

positive : (p : ℕ) → 0 < 2 ^ p
positive zero = omega arith
positive (suc p) = omega (arith, pow-succ' 2 p, positive p)

log2_none : log2 0 ≡ some (negsuc 0)
unfolding log2 log2_loop
log2_none = refl

-- There is one power of two from a power on to its double.
one_power : (k p : ℕ) → 2 ^ k ≤ 2 ^ p → 2 ^ p < 2 * 2 ^ k → 2 ^ p ≡ 2 ^ k
one_power zero zero low high = refl
one_power zero (suc p) low high = absurd (omega (arith, low, high, pow-succ' 2 p, positive p))
one_power (suc k) zero low high = absurd (omega (arith, low, pow-succ' 2 k, positive k))
one_power (suc k) (suc p) low high = omega (
  arith,
  pow-succ' 2 k,
  pow-succ' 2 p,
  one_power k p (omega (arith, low, pow-succ' 2 k, pow-succ' 2 p))
      (omega (arith, high, pow-succ' 2 k, pow-succ' 2 p)),
)

-- What the getter gives back, by its test.
tested :
    (reads : String → Option ℕ) (s : String) (block_size : ℕ) (y : ℤ) (v : Bool)
    → reads s ≡ some block_size
    → log2 block_size ≡ some y
    → is_power block_size y ≡ v
    → get_mpi_msg_sort_grain_size_power reads (some s) ≡ (if v then some y else none)
unfolding get_mpi_msg_sort_grain_size_power
tested reads s block_size y v read goes test =
    ap (λ m. m >>= λ b. log2 b >>= λ z. if is_power b z then some z else none) read
    ∙ ap (λ m. m >>= λ z. if is_power block_size z then some z else none) goes
    ∙ ap (λ w. if w then some y else none) test

-- getMpiMsgSortGrainSizePower takes just the powers of two, and gives back their exponent. Condition:
-- the stream reads a size_t from the variable.
pub grain_size_powers :
    (reads : String → Option ℕ) (s : String) (block_size : ℕ)
    → reads s ≡ some block_size
    → block_size < size_mod
    → ((p : ℕ) × (get_mpi_msg_sort_grain_size_power reads (some s) ≡ some (pos p))
        × (block_size ≡ 2 ^ p))
      ⊎ ((get_mpi_msg_sort_grain_size_power reads (some s) ≡ none) × ((p : ℕ) → block_size ≢ 2 ^ p))
unfolding is_power
grain_size_powers reads s block_size read small = elim (dec_lt 0 block_size) [
  | no empty ↦
      let none_left : block_size ≡ 0 = omega (arith, empty) in
      inr (
        tested reads s block_size (negsuc 0) false read (ap log2 none_left ∙ log2_none) refl,
        λ p e. absurd (omega (arith, empty, e, positive p)),
      )
  | yes full ↦
      let (k, goes, low, high) = log2-highest block_size full small in
      let fits : 2 ^ k % size_mod ≡ 2 ^ k = omega (arith, low, small) in
      elim (ℕ_discrete (2 ^ k) block_size) [
        | yes same ↦ inl (
          k,
          tested reads s block_size (pos k) true read goes (ground (arith, fits, same)),
          sym same,
        )
        | no other ↦ inr (
          tested reads s block_size (pos k) false read goes (ground (arith, fits, other)),
          λ p e.
              other (sym (one_power k p (omega (arith, low, e)) (omega (arith, high, e))) ∙ sym e),
        )
      ]
]
