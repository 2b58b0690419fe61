-- ===== src/Config/Sizes.antt =====
-- The greatest size of an MPI message in src/common/config.cpp.
use talpf.Prelude.{ℕ, ◌<◌, ◌≡◌, Option, some, none, ◌>>=◌, if◌then◌else◌, arith}
use Prim.Native.String.{String}
use talpf.Config.{ℤ, pos, negsuc, at_least_one, to_size, get_max_mpi_msg_size}

-- What the getter makes of what a stream reads.
positive_read :
    (r : Option ℤ) (n : ℕ)
    → ((r >>= λ a. if at_least_one a then some a else none) >>= λ a. some (to_size a)) ≡ some n
    → 0 < n
positive_read none n e = absurd (ground (arith, e))
positive_read (some (pos k)) n e = ground (arith, e)
positive_read (some (negsuc k)) n e = absurd (ground (arith, e))

-- The size is never 0, as the messages of the MPI library need it.
get_max_mpi_msg_size_positive :
    (reads : String → Option ℤ) (env : Option String) (n : ℕ)
    → get_max_mpi_msg_size reads env ≡ some n
    → 0 < n
unfolding get_max_mpi_msg_size
get_max_mpi_msg_size_positive reads none n e = ground (arith, e)
get_max_mpi_msg_size_positive reads (some s) n e = positive_read (reads s) n e
