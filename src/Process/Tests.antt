-- ===== src/Process/Tests.antt =====
-- A concrete split of processes, and concrete runs of `exec` with its theorem.
use talpf.Prelude.{
  ℕ, zero, suc, ◌+◌, ◌<◌, ◌≡◌, ◌≢◌, refl, true, false, some, none, [], ◌∷◌, ◌==◌, if◌then◌else◌,
  subst, arith, Bool-cases, inl, inr,
}
use talpf.MessageQueue.{success, out_of_memory, fatal}
use talpf.Process.{
  found, not_found, done, thrown_bad_alloc, Exchange, exec, join_in, broadcast_all,
  broadcast_symbol, look_up_all, slave, is_slave,
}
use talpf.Process.Groups.{IsSplit, exec-groups}

-- How many processes before `k` have the colour `c`.
ranks_before : (ℕ → ℕ) → ℕ → ℕ → ℕ
ranks_before colour c zero = 0
ranks_before colour c (suc k) = (if colour k == c then 1 else 0) + ranks_before colour c k

abbrev split : (ℕ → ℕ) → ℕ → ℕ
split colour pid = ranks_before colour (colour pid) pid

none_before :
    (colour : ℕ → ℕ) (c k : ℕ) → ((q : ℕ) → q < k → colour q ≢ c) → ranks_before colour c k ≡ 0
unfolding ranks_before
none_before colour c zero h = refl
none_before colour c (suc k) h =
    ground (arith, h k (omega arith), none_before colour c k (λ q l. h q (omega (arith, l))))

some_before : (colour : ℕ → ℕ) (c k q : ℕ) → q < k → colour q ≡ c → ranks_before colour c k ≢ 0
unfolding ranks_before
some_before colour c zero q h e z = absurd (omega (arith, h))
some_before colour c (suc k) q h e z = elim (Bool-cases (q == k)) [
  | inl last ↦
      let same : q ≡ k = ground (arith, last) in
      let f : colour k ≡ c = subst (λ n. colour n ≡ c) same e in ground (arith, f, z)
  | inr before ↦ some_before colour c k q (ground (arith, h, before)) e (ground (arith, z))
]

split-IsSplit : IsSplit split
split-IsSplit = record {
  lowest = λ colour pid. none_before colour (colour pid) pid;
  others = λ colour pid. some_before colour (colour pid) pid;
}

-- The fifth of seven processes, of which three are asked for, is a slave.
exec-groups_example :
    (exec false none [] 4 7 3 [] (done, fatal) ≡ some success) × (is_slave 1 ≡ true)
unfolding ranks_before look_up_all
exec-groups_example =
    exec-groups split split-IsSplit 7 3 4 [] [] (done, fatal) (omega arith) (omega arith) refl

-- An exchange that another process fails at ends as a fatal error, and one's own want of memory is
-- told as such.
abbrev goes_well : Exchange
goes_well = record { name = done; name_failed = false; look_up = done; look_up_failed = false }

joins :
    join_in (goes_well ∷ record goes_well { look_up_failed = true } ∷ []) (done, success) ≡ fatal
unfolding join_in broadcast_all broadcast_symbol
joins = refl

no_memory_here :
    join_in
      (record goes_well { look_up = thrown_bad_alloc; look_up_failed = true } ∷ [])
      (done, success)
    ≡ out_of_memory
unfolding join_in broadcast_all broadcast_symbol
no_memory_here = refl

-- The lookups of the root end with the first failure.
not_found_first :
    exec false (some found) (found ∷ not_found ∷ []) 0 7 3 [] (done, success) ≡ some fatal
unfolding exec look_up_all
not_found_first = refl

works_twice : slave (3 ∷ 2 ∷ 0 ∷ []) ≡ some (3 ∷ 2 ∷ [])
unfolding slave
works_twice = refl
