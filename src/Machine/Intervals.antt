-- ===== src/Machine/Intervals.antt =====
-- Where the interpolation in src/common/machineparams.cpp reads, and what the vote there says.
use talpf.Prelude.{
  ℕ, suc, ◌-◌, ◌≤◌, ◌<◌, ◌≡◌, sym, ap, ◌∙◌, ◌⊎◌, inl, inr, false, Option, some, none, List, [], ◌∷◌,
  get_elem?, ◌==◌, if◌then◌else◌, ◌>>=◌, arith,
}
use native.Mathlib.Decide.{dec_lt}
use talpf.Machine.{upper_bound, interval}

-- Increasing numbers, all above a first one.
abbrev pub IsIncreasing : ℕ → List ℕ → Type 0
IsIncreasing low [] = Unit
IsIncreasing low (x ∷ xs) = (low < x) × IsIncreasing x xs

abbrev pub last_of : ℕ → List ℕ → ℕ
last_of x [] = x
last_of x (y ∷ xs) = last_of y xs

last-above : (x : ℕ) (xs : List ℕ) → IsIncreasing x xs → x ≤ last_of x xs
last-above x [] up = omega arith
last-above x (y ∷ xs) up = omega (arith, up.0, last-above y xs up.1)

-- The two reads at an index.
abbrev reads_at : ℕ → List ℕ → Option (ℕ × ℕ)
reads_at i sizes =
    if i == 0
    then none
    else (get_elem? sizes (i - 1) >>= λ b1. get_elem? sizes i >>= λ b2. some (b1, b2))

reads_at-suc : (k x : ℕ) (ys : List ℕ) → reads_at (suc (suc k)) (x ∷ ys) ≡ reads_at (suc k) ys
reads_at-suc k x ys =
    let outer : suc (suc k) - 1 ≡ suc k = omega arith in
    let inner : suc k - 1 ≡ k = omega arith in
    let some_outer : suc (suc k) == 0 ≡ false = ground arith in
    let some_inner : suc k == 0 ≡ false = ground arith in
    ap
      (λ c.
        if c
        then none
        else (get_elem? (x ∷ ys) (suc (suc k) - 1) >>= λ b1.
            get_elem? ys (suc k) >>= λ b2. some (b1, b2)))
      some_outer
    ∙ ap (λ i. get_elem? (x ∷ ys) i >>= λ b1. get_elem? ys (suc k) >>= λ b2. some (b1, b2)) outer
    ∙ sym (
        ap
          (λ c.
            if c
            then none
            else (get_elem? ys (suc k - 1) >>= λ b1. get_elem? ys (suc k) >>= λ b2. some (b1, b2)))
          some_inner
        ∙ ap (λ i. get_elem? ys i >>= λ b1. get_elem? ys (suc k) >>= λ b2. some (b1, b2)) inner)

upper_bound-behind :
    (b x : ℕ) (xs : List ℕ) → x ≤ b → upper_bound b (x ∷ xs) ≡ suc (upper_bound b xs)
unfolding upper_bound
upper_bound-behind b x xs low = ground (arith, low)

interval-shift :
    (b x y : ℕ) (xs : List ℕ) → x ≤ b → y ≤ b → interval b (x ∷ y ∷ xs) ≡ interval b (y ∷ xs)
unfolding interval
interval-shift b x y xs low above =
    ap (λ i. reads_at i (x ∷ y ∷ xs))
      (upper_bound-behind b x (y ∷ xs) low ∙ ap suc (upper_bound-behind b y xs above))
    ∙ reads_at-suc (upper_bound b xs) x (y ∷ xs)
    ∙ sym (ap (λ i. reads_at i (y ∷ xs)) (upper_bound-behind b y xs above))

-- The two numbers that are read are around `b`.
abbrev pub Encloses : ℕ → List ℕ → Type 0
Encloses b sizes = (b1 : ℕ) × (b2 : ℕ) × (interval b sizes ≡ some (b1, b2)) × (b1 ≤ b) × (b < b2)

-- Behind a number that is not above `b` the reads are in range just if the last number is above it.
interval-behind :
    (b x : ℕ) (xs : List ℕ)
    → x ≤ b
    → IsIncreasing x xs
    → ((b < last_of x xs) × Encloses b (x ∷ xs))
      ⊎ ((last_of x xs ≤ b) × (interval b (x ∷ xs) ≡ none))
unfolding interval upper_bound
interval-behind b x [] low up = inr (low, ground (arith, low))
interval-behind b x (y ∷ xs) low up = elim (dec_lt b y) [
  | yes high ↦
      inl (omega (arith, high, last-above y xs up.1), (x, y, ground (arith, low, high), low, high))
  | no above ↦
      let shift : interval b (x ∷ y ∷ xs) ≡ interval b (y ∷ xs) =
        interval-shift b x y xs low (omega (arith, above)) in
      elim (interval-behind b y xs (omega (arith, above)) up.1) [
        | inl (less, (b1, b2, reads, at_least, below)) ↦
            inl (less, (b1, b2, shift ∙ reads, at_least, below))
        | inr (over, fails) ↦ inr (over, shift ∙ fails)
      ]
]

-- The interpolation for a block size reads two measured sizes around it if it is from the first one on
-- and less than the last one. For each other size it reads out of the array. Condition: the measured
-- sizes increase.
pub interval-cases :
    (b x : ℕ) (xs : List ℕ)
    → IsIncreasing x xs
    → ((x ≤ b) × (b < last_of x xs) × Encloses b (x ∷ xs))
      ⊎ (((b < x) ⊎ (last_of x xs ≤ b)) × (interval b (x ∷ xs) ≡ none))
unfolding interval upper_bound
interval-cases b x xs up = elim (dec_lt b x) [
  | yes below ↦ inr (inl below, ground (arith, below))
  | no above ↦ elim (interval-behind b x xs (omega (arith, above)) up) [
    | inl (less, encloses) ↦ inl (omega (arith, above), less, encloses)
    | inr (over, fails) ↦ inr (inr over, fails)
  ]
]
