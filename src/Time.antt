-- ===== src/Time.antt =====
-- `Time` of src/common/time.hpp and time.cpp, but for what it does with floating-point numbers. A
-- long, from -2^63 on, is its value and 2^63 more; one that C would overflow has no result. The
-- nanoseconds of each constructor are from 0 on.
pub mod Value
mod Tests
use talpf.Prelude.{
  ℕ, ◌+◌, ◌-◌, ◌^◌, Bool, not, ◌&&◌, ◌||◌, Option, some, none, ltb, leb, ◌==◌, if◌then◌else◌, ◌>>=◌,
}

pub record Time : Type 0 where
  pub sec : ℕ
  pub nsec : ℕ

abbrev pub long_zero : ℕ
long_zero = 2 ^ 63

abbrev pub one_second : ℕ
one_second = 1000000000

-- `+` and `-` of longs
abbrev pub add_long : ℕ → ℕ → Option ℕ
add_long a b =
    if leb long_zero (a + b) && ltb (a + b) (2 ^ 64 + long_zero)
    then some (a + b - long_zero)
    else none

abbrev pub sub_long : ℕ → ℕ → Option ℕ
sub_long a b =
    if leb b (a + long_zero) && ltb (a + long_zero) (b + 2 ^ 64)
    then some (a + long_zero - b)
    else none

-- `Time( long )`
abbrev pub of_seconds : ℕ → Time
of_seconds x = record { sec = x; nsec = 0 }

-- `zero`
unfoldable pub time_zero : Time
time_zero = of_seconds long_zero

-- `operator-=`, and `operator-`
unfoldable pub subtract : Time → Time → Option Time
subtract t x = sub_long t.sec x.sec >>= λ sec.
    if ltb t.nsec x.nsec
    then (sub_long sec (long_zero + 1) >>= λ less.
        some (record { sec = less; nsec = one_second + t.nsec - x.nsec }))
    else some (record { sec = sec; nsec = t.nsec - x.nsec })

-- `operator+=`, and `operator+`
unfoldable pub add : Time → Time → Option Time
add t x = add_long t.sec x.sec >>= λ sec.
    if leb one_second (t.nsec + x.nsec)
    then (add_long sec (long_zero + 1) >>= λ more.
        some (record { sec = more; nsec = t.nsec + x.nsec - one_second }))
    else some (record { sec = sec; nsec = t.nsec + x.nsec })

-- `equals`, and `operator==`
unfoldable pub equals : Time → Time → Bool
equals t x = t.sec == x.sec && t.nsec == x.nsec

-- `lessThan`, and `operator<`
unfoldable pub less_than : Time → Time → Bool
less_than t x = not (ltb x.sec t.sec) && not (t.sec == x.sec && leb x.nsec t.nsec)

-- `operator<=`, `operator>=`, `operator>` and `operator!=`
unfoldable pub at_most : Time → Time → Bool
unfolding less_than equals
at_most a b = less_than a b || equals a b

unfoldable pub at_least : Time → Time → Bool
unfolding less_than
at_least a b = not (less_than a b)

unfoldable pub greater_than : Time → Time → Bool
unfolding less_than equals
greater_than a b = not (less_than a b) && not (equals a b)

unfoldable pub differs : Time → Time → Bool
unfolding equals
differs a b = not (equals a b)

-- `output`: the numbers before and after the point.
unfoldable pub output : Time → Option (ℕ × ℕ)
output t =
    if ltb t.sec long_zero
    then if leb t.nsec one_second then some (t.sec + 1, one_second - t.nsec) else none
    else some (t.sec, t.nsec)
