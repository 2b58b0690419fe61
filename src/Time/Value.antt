-- ===== src/Time/Value.antt =====
-- The arithmetic and the order of src/common/time.cpp and time.hpp on nanoseconds.
use talpf.Prelude.{ℕ, ◌+◌, ◌-◌, ◌*◌, ◌^◌, ◌≤◌, ◌<◌, ◌≡◌, ap, ◌∙◌, not, some, ltb, leb, ◌==◌, arith}
use native.Mathlib.Decide.{dec_lt, dec_le}
use talpf.Time.{
  Time, long_zero, one_second, subtract, add, equals, less_than, at_most, at_least, greater_than,
  differs,
}

-- The fraction of a second is one.
pub record IsTime (t : Time) : Type 0 where
  pub fraction : t.nsec < one_second
  pub long : t.sec < 2 ^ 64

-- The nanoseconds from the least long on.
abbrev pub value : Time → ℕ
value t = t.sec * one_second + t.nsec

abbrev pub value_zero : ℕ
value_zero = long_zero * one_second

module _ (a b : Time) (v : IsTime a) (w : IsTime b) where
  add_value :
      long_zero ≤ a.sec + b.sec
      → a.sec + b.sec + 1 < 2 ^ 64 + long_zero
      → (c : Time) × (add a b ≡ some c) × IsTime c × (value c + value_zero ≡ value a + value b)
  unfolding add
  add_value low high = elim (dec_le one_second (a.nsec + b.nsec)) [
    | yes carry ↦ (
      record { sec = a.sec + b.sec + 1 - long_zero; nsec = a.nsec + b.nsec - one_second },
      ground (arith, low, high, carry),
      record { fraction = omega (arith, v.fraction, w.fraction); long = omega (arith, high) },
      omega (arith, low, carry),
    )
    | no fits ↦ (
      record { sec = a.sec + b.sec - long_zero; nsec = a.nsec + b.nsec },
      ground (arith, low, high, fits),
      record { fraction = omega (arith, fits); long = omega (arith, high) },
      omega (arith, low),
    )
  ]

  subtract_value :
      b.sec ≤ a.sec + long_zero
      → a.sec + long_zero < b.sec + 2 ^ 64
      → 0 < a.sec + long_zero - b.sec
      → (c : Time) × (subtract a b ≡ some c) × IsTime c × (value c + value b ≡ value a + value_zero)
  unfolding subtract
  subtract_value low high room = elim (dec_lt a.nsec b.nsec) [
    | yes borrow ↦ (
      record { sec = a.sec + long_zero - b.sec - 1; nsec = one_second + a.nsec - b.nsec },
      ground (arith, low, high, room, borrow),
      record {
        fraction = omega (arith, v.fraction, w.fraction, borrow);
        long = omega (arith, high);
      },
      omega (arith, low, room, borrow, w.fraction),
    )
    | no fits ↦ (
      record { sec = a.sec + long_zero - b.sec; nsec = a.nsec - b.nsec },
      ground (arith, low, high, fits),
      record { fraction = omega (arith, v.fraction); long = omega (arith, high) },
      omega (arith, low, fits),
    )
  ]

  less_than-value : less_than a b ≡ ltb (value a) (value b)
  unfolding less_than
  less_than-value = ground (arith, v.fraction, w.fraction)

  equals-value : equals a b ≡ value a == value b
  unfolding equals
  equals-value = ground (arith, v.fraction, w.fraction)

  -- The comparisons of two normal times are those of their nanoseconds.
  pub compares-value :
      (less_than a b ≡ ltb (value a) (value b))
      × (equals a b ≡ value a == value b)
      × (at_most a b ≡ leb (value a) (value b))
      × (at_least a b ≡ leb (value b) (value a))
      × (greater_than a b ≡ ltb (value b) (value a))
      × (differs a b ≡ not (value a == value b))
  unfolding at_most at_least greater_than differs
  compares-value = (
    less_than-value,
    equals-value,
    ground (arith, less_than-value, equals-value),
    ground (arith, less_than-value),
    ground (arith, less_than-value, equals-value),
    ground (arith, equals-value),
  )

time_unique : (a b : Time) → IsTime a → IsTime b → value a ≡ value b → a ≡ b
time_unique a b v w e =
    let secs : a.sec ≡ b.sec = omega (arith, e, v.fraction, w.fraction) in
    let nsecs : a.nsec ≡ b.nsec = omega (arith, e, v.fraction, w.fraction) in
    ap (λ s. record { sec = s; nsec = a.nsec }) secs
    ∙ ap (λ n. record { sec = b.sec; nsec = n }) nsecs

-- What is added to a time and subtracted again leaves the time, and adding is exact on nanoseconds.
-- Conditions: the fractions are less than a second, and the seconds, also one more or less, are
-- within the range of a long.
pub subtract-add :
    (a b : Time)
    → IsTime a
    → IsTime b
    → 0 < a.sec
    → a.sec + 1 < 2 ^ 64
    → long_zero ≤ a.sec + b.sec
    → a.sec + b.sec + 1 < 2 ^ 64 + long_zero
    → (c : Time) × (add a b ≡ some c)
      × (value c + value_zero ≡ value a + value b)
      × (subtract c b ≡ some a)
subtract-add a b v w least most low high =
    let (c, added, normal, sum) = add_value a b v w low high in
    let (d, taken, again, difference) =
      subtract_value c b normal w
        (omega (arith, sum, least, v.fraction, w.fraction, normal.fraction))
        (omega (arith, sum, most, v.fraction, w.fraction, normal.fraction))
        (omega (arith, sum, least, v.fraction, w.fraction, normal.fraction)) in
    (c, added, sum, taken ∙ ap some (time_unique d a again v (omega (arith, sum, difference))))
