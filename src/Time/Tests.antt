-- ===== src/Time/Tests.antt =====
-- Concrete times.
use talpf.Prelude.{◌+◌, ◌-◌, ◌≡◌, refl, some, arith}
use talpf.Time.{Time, long_zero, add, subtract, output}
use talpf.Time.Value.{value, value_zero, subtract-add}

-- 2.7 and 0.6 seconds
abbrev longer : Time
longer = record { sec = long_zero + 2; nsec = 700000000 }

abbrev shorter : Time
shorter = record { sec = long_zero; nsec = 600000000 }

-- Half a second before zero is shown as half a second after it.
loses_sign : output (record { sec = long_zero - 1; nsec = 500000000 }) ≡ some (long_zero, 500000000)
unfolding output
loses_sign = refl

-- A second before zero is shown as 0 and ten digits.
ten_digits : output (record { sec = long_zero - 1; nsec = 0 }) ≡ some (long_zero, 1000000000)
unfolding output
ten_digits = refl

subtract-add_example :
    (c : Time) × (add longer shorter ≡ some c)
    × (value c + value_zero ≡ value longer + value shorter)
    × (subtract c shorter ≡ some longer)
subtract-add_example =
    subtract-add longer shorter (record { fraction = omega arith; long = omega arith })
      (record { fraction = omega arith; long = omega arith }) (omega arith) (omega arith)
      (omega arith) (omega arith)
