-- ===== src/Rng/Tests.antt =====
-- Concrete numbers of the generator, and its theorems at concrete inputs.
use talpf.Prelude.{◌*◌, ◌^◌, ◌%◌, ◌≡◌, refl, some, size_mod}
use talpf.Rng.{create, int_pow, power_loop, mult64, div64, lower, raise, parallelize}
use talpf.Rng.Leaps.{geometric}
use talpf.Rng.Powers.{int_pow-pow}

-- 2^32 times 1 has the low word 1.
mult64_drops : mult64 (2 ^ 32) 1 ≡ (0, 1)
unfolding mult64
mult64_drops = refl

-- Two processes get an increment that is not that of two calls.
wrong_increment :
    (parallelize (λ x nom. 1704922941347274496) 100 0 2 (create 7)
      ≡ some (record {
        multiplier = int_pow (create 7).multiplier 2;
        increment = 1704922941347274441;
        value = 7;
      }))
    × (((create 7).increment * geometric (create 7).multiplier 2) % size_mod ≡ 1876011003808476466)
unfolding parallelize div64 lower raise mult64 int_pow power_loop geometric
wrong_increment = (refl, refl)

int_pow-pow_example : int_pow 3 5 ≡ 243
int_pow-pow_example = int_pow-pow 3 5
