-- ===== src/Process/Groups.antt =====
-- Which processes exec of src/MPI/process.cpp lets go on, and which become slaves of them.
use talpf.Prelude.{
  ℕ, ◌%◌, ◌<◌, ◌≡◌, ◌≢◌, false, not, List, ltb, leb, if◌then◌else◌, ◌==◌, some, none, arith,
  Bool-cases, inl, inr,
}
use Prim.Native.Nat.{min as min_of}
use native.Mathlib.Nat.{mod-eq_of_lt, mod-lt}
use talpf.MessageQueue.{ErrorCode, success}
use talpf.Process.{
  Exchange, Lookup, Outcome, exec, join_in, requested, found, look_up_all, in_requested_group,
  subgroup_nr, is_slave,
}

-- What is documented of MPI_Comm_split with the process numbers as keys: the processes of one colour
-- get their ranks in the order of their numbers, from 0 on.
pub record IsSplit (rank : (ℕ → ℕ) → ℕ → ℕ) : Type 0 where
  pub lowest :
      (colour : ℕ → ℕ) (pid : ℕ) → ((q : ℕ) → q < pid → colour q ≢ colour pid) → rank colour pid ≡ 0
  pub others : (colour : ℕ → ℕ) (pid q : ℕ) → q < pid → colour q ≡ colour pid → rank colour pid ≢ 0

module _ (rank : (ℕ → ℕ) → ℕ → ℕ) (s : IsSplit rank) where
  -- The requested processes are just those that are not slaves in their subgroups.
  is_slave-subgroup :
      (r pid : ℕ) → 0 < r → is_slave (rank (subgroup_nr r) pid) ≡ not (in_requested_group r pid)
  is_slave-subgroup r pid some_group = elim (Bool-cases (ltb pid r)) [
    | inl here ↦
        let own : pid % r ≡ pid = mod-eq_of_lt (ground (arith, here)) in
        let root : rank (subgroup_nr r) pid ≡ 0 = s.lowest (subgroup_nr r) pid (λ q h e.
          let same : q % r ≡ q = mod-eq_of_lt (ground (arith, here, h)) in
          absurd (omega (arith, own, same, h, e))) in
        ground (arith, root, here)
    | inr beyond ↦
        let below : pid % r < r = mod-lt pid some_group in
        let again : pid % r % r ≡ pid % r = mod-eq_of_lt below in
        let later : rank (subgroup_nr r) pid ≢ 0 =
          s.others (subgroup_nr r) pid (pid % r) (ground (arith, below, beyond)) again in
        ground (arith, later, beyond)
  ]

  -- In a world of `nprocs` processes, whose root calls `exec` for `p` processes with symbols that are
  -- found, and whose others are called with the number that it broadcasts: the processes that are not
  -- slaves in their subgroup, which are the lesser number of the two first ones, exchange the
  -- symbols and get the status of `hook`; the others get success. Conditions: the split of the
  -- processes is as documented, and `p` is not 0.
  pub exec-groups :
      (nprocs p pid : ℕ) (aux : List Lookup) (es : List Exchange) (hooked : Outcome × ErrorCode)
      → 0 < p
      → pid < nprocs
      → look_up_all aux ≡ success
      → let r : ℕ = min_of nprocs p in
        (exec false
            (if pid == 0 then some found else none)
            aux
            pid
            nprocs
            (if pid == 0 then p else r)
            es
            hooked
          ≡ some (if is_slave (rank (subgroup_nr r) pid) then success else join_in es hooked))
        × (is_slave (rank (subgroup_nr r) pid) ≡ leb r pid)
  unfolding exec requested
  exec-groups nprocs p pid aux es hooked asked here looked =
      let r : ℕ = min_of nprocs p in
      let roots : is_slave (rank (subgroup_nr r) pid) ≡ not (in_requested_group r pid) =
        is_slave-subgroup r pid (omega (arith, asked, here)) in
      (ground (arith, roots, asked, looked), ground (arith, roots))
