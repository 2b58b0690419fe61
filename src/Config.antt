-- ===== src/Config.antt =====
-- `Config` of src/common/config.hpp and config.cpp. What getenv gives is an argument, and so is what a
-- std::istringstream reads from a text, `none` if it fails. A call that throws ReadError has no
-- result.
pub mod Powers
mod Sizes
mod Tests
use talpf.Prelude.{
  ℕ, zero, suc, ◌+◌, ◌-◌, ◌*◌, ◌/◌, ◌%◌, ◌^◌, Bool, true, false, not, ◌&&◌, ◌||◌, Option, some,
  none, ltb, leb, ◌==◌, if◌then◌else◌, size_mod, ◌>>=◌,
}
use Prim.Native.Nat.{Ordering, lt, eq, gt}
use Prim.Native.String.{String, compare, len}

-- The values of an int.
pub data ℤ : Type 0 where
  pos : ℕ → ℤ
  negsuc : ℕ → ℤ

pub data SpinMode : Type 0 where
  spin_fast spin_pause spin_yield spin_cond : SpinMode

pub data A2AMode : Type 0 where
  a2a_dense a2a_sparse a2a_hoefler : A2AMode

pub record TinyMsgSize : Type 0 where
  pub size_for_shared_mem : ℕ
  pub size_for_mpi : ℕ

-- `==` on texts
abbrev pub is_text : String → String → Bool
is_text s t = elim (compare s t) [ lt ↦ false | eq ↦ true | gt ↦ false ]

-- The text of a variable, or the default.
abbrev pub or_default {ℓ} : {A : Type ℓ} → A → Option A → A
or_default d none = d
or_default d (some a) = a

-- What the getters with a default and a stream do.
abbrev pub setting {ℓ} : {A : Type ℓ} → A → (String → Option A) → Option String → Option A
setting d reads none = some d
setting d reads (some s) = reads s

-- The same, where a value that is read has to pass a test.
abbrev pub checked_setting {ℓ} :
    {A : Type ℓ} → A → (A → Bool) → (String → Option A) → Option String → Option A
checked_setting d passes reads none = some d
checked_setting d passes reads (some s) = reads s >>= λ a. if passes a then some a else none

abbrev pub at_least_one : ℤ → Bool
at_least_one (pos n) = ltb 0 n
at_least_one (negsuc n) = false

-- `getSpinMode`
unfoldable pub get_spin_mode : Option String → Option SpinMode
get_spin_mode env =
    let spin_mode : String = or_default "FAST" env in
    if is_text spin_mode "FAST"
    then some spin_fast
    else if is_text spin_mode "PAUSE"
    then some spin_pause
    else if is_text spin_mode "YIELD"
    then some spin_yield
    else if is_text spin_mode "COND"
    then some spin_cond
    else none

-- `getA2AMode`
unfoldable pub get_a2a_mode : Option String → Option A2AMode
get_a2a_mode env =
    let a2a_mode : String = or_default "SPARSE" env in
    if is_text a2a_mode "SPARSE"
    then some a2a_sparse
    else if is_text a2a_mode "DENSE"
    then some a2a_dense
    else if is_text a2a_mode "HOEFLER"
    then some a2a_hoefler
    else none

-- `getLocalRamSize` on Linux: what sysinfo returns, and two of the numbers that it gives. A division
-- by 0 has no result either.
unfoldable pub get_local_ram_size : Bool → ℕ → ℕ → Option ℕ
get_local_ram_size succeeds totalram mem_unit =
    if not succeeds || mem_unit == 0
    then none
    else if ltb ((size_mod - 1) / mem_unit) totalram
    then none
    else some (totalram * mem_unit % size_mod)

-- `getMaxProcs`
unfoldable pub get_max_procs : (String → Option ℕ) → Option String → Option ℕ
get_max_procs reads none = some 0
get_max_procs reads (some s) = if ltb 0 (len s) then reads s else some 0

-- `getPinBitmap`, `getEngine` and `getIBDeviceName`
unfoldable pub get_text : Option String → String
get_text env = or_default "" env

-- `getMaxSecondsForProbe`, where `one` is 1.0.
unfoldable pub get_max_seconds_for_probe {ℓ} :
    {A : Type ℓ} → A → (String → Option A) → Option String → Option A
get_max_seconds_for_probe one reads env = setting one reads env

-- `getLogLevel`
unfoldable pub get_log_level : (String → Option ℤ) → Option String → Option ℤ
get_log_level reads env = setting (pos 0) reads env

-- `getBSPlibSafetyMode`
unfoldable pub get_bsplib_safety_mode : (String → Option ℤ) → Option String → Option ℤ
get_bsplib_safety_mode reads env = setting (pos 1) reads env

-- `getBSPlibMaxHpRegs`
unfoldable pub get_bsplib_max_hp_regs : (String → Option ℕ) → Option String → Option ℕ
get_bsplib_max_hp_regs reads env = setting (size_mod - 1) reads env

-- `getTinyMsgSize`, whose stream reads two numbers.
unfoldable pub get_tiny_msg_size :
    (String → Option TinyMsgSize) → Option String → Option TinyMsgSize
get_tiny_msg_size reads env =
    setting (record { size_for_shared_mem = 16; size_for_mpi = 128 }) reads env

-- `++y`
abbrev pub increase : ℤ → ℤ
increase (pos n) = pos (suc n)
increase (negsuc zero) = pos 0
increase (negsuc (suc n)) = negsuc n

-- The loop of `log2`, over at most as many rounds.
unfoldable pub log2_loop : ℕ → ℤ → ℕ → Option ℤ
log2_loop zero y x = if x == 0 then some y else none
log2_loop (suc rounds) y x =
    let rest : Option ℤ = log2_loop rounds (increase y) (x / 2) in if x == 0 then some y else rest

-- `log2`, of a size_t.
unfoldable pub log2 : ℕ → Option ℤ
unfolding log2_loop
log2 x = log2_loop 64 (negsuc 0) x

-- The test of the block size, with its base-2 logarithm.
unfoldable pub is_power : ℕ → ℤ → Bool
is_power block_size (pos n) = 2 ^ n % size_mod == block_size
is_power block_size (negsuc n) = false

-- `getMpiMsgSortGrainSizePower`
unfoldable pub get_mpi_msg_sort_grain_size_power : (String → Option ℕ) → Option String → Option ℤ
unfolding log2 is_power
get_mpi_msg_sort_grain_size_power reads none = log2 1024
get_mpi_msg_sort_grain_size_power reads (some s) = reads s >>= λ block_size.
    log2 block_size >>= λ y. if is_power block_size y then some y else none

-- A size_t made of an int.
abbrev pub to_size : ℤ → ℕ
to_size (pos n) = n
to_size (negsuc n) = size_mod - suc n

-- `getMaxMPIMsgSize`
unfoldable pub get_max_mpi_msg_size : (String → Option ℤ) → Option String → Option ℕ
get_max_mpi_msg_size reads env =
    checked_setting (pos (2 ^ 31 - 1)) at_least_one reads env >>= λ n. some (to_size n)

-- `getIBPort`
unfoldable pub get_ib_port : (String → Option ℤ) → Option String → Option ℤ
get_ib_port reads env = checked_setting (pos 1) at_least_one reads env

-- `getIBGidIndex`
unfoldable pub get_ib_gid_index : (String → Option ℤ) → Option String → Option ℤ
get_ib_gid_index reads env = setting (negsuc 0) reads env

-- `getIBMTU`
unfoldable pub get_ib_mtu : (String → Option ℕ) → Option String → Option ℕ
get_ib_mtu reads env = setting 4096 reads env
