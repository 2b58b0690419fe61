-- ===== src/Config/Tests.antt =====
-- Concrete settings.
use talpf.Prelude.{ℕ, ◌≡◌, ◌≢◌, ◌⊎◌, ◌^◌, refl, some, none, arith}
use talpf.Config.{
  pos, get_spin_mode, spin_yield, get_max_mpi_msg_size, get_mpi_msg_sort_grain_size_power,
}
use talpf.Config.Powers.{grain_size_powers}

yields : get_spin_mode (some "YIELD") ≡ some spin_yield
unfolding get_spin_mode
yields = refl

knows_no_other : get_spin_mode (some "yield") ≡ none
unfolding get_spin_mode
knows_no_other = refl

no_empty_message : get_max_mpi_msg_size (λ s. some (pos 0)) (some "0") ≡ none
unfolding get_max_mpi_msg_size
no_empty_message = refl

grain_size_powers_example :
    ((p : ℕ) × (get_mpi_msg_sort_grain_size_power (λ s. some 48) (some "48") ≡ some (pos p))
      × (48 ≡ 2 ^ p))
    ⊎ ((get_mpi_msg_sort_grain_size_power (λ s. some 48) (some "48") ≡ none)
        × ((p : ℕ) → 48 ≢ 2 ^ p))
grain_size_powers_example = grain_size_powers (λ s. some 48) "48" 48 refl (omega arith)
