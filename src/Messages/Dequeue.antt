-- ===== src/Messages/Dequeue.antt =====
-- The loop of `iwaitall` in src/MPI/mpilib.cpp that dequeues large messages.
use talpf.Prelude.{
  ℕ, zero, suc, ◌-◌, ◌≤◌, ◌<◌, ◌≡◌, refl, sym, ap, subst, true, false, some, List, length, get_or,
  get_elem?-get_or, total, swap_pop, get_or-same, length-swap_pop, get_or-swap_pop, total-swap_pop,
  arith, Bool-cases, inl, inr,
}
use native.Mathlib.Decide.{ℕ_discrete}
use talpf.Messages.{Large, dequeue}

-- From the position on every element has a request.
abbrev pub IsActiveFrom : ℕ → List Large → Type 0
IsActiveFrom n ls = (j : ℕ) (d : Large) → n ≤ j → j < length ls → (get_or ls j d).active ≡ true

abbrev pub nothing : Large
nothing = record { send = record { addr = 0; size = 0; dst_pid = 0; tag = 0 }; active = false }

-- The sum over the entries is kept by dequeuing those that add nothing to it.
pub total-dequeue :
    (f : Large → ℕ) (n : ℕ) (ls ms : List Large)
    → ((l : Large) → l.active ≡ false → f l ≡ 0)
    → n ≤ length ls
    → dequeue n ls ≡ some ms
    → total f ms ≡ total f ls
unfolding dequeue
total-dequeue f zero ls ms null h e = ground (arith, e)
total-dequeue f (suc i) ls ms null h e =
    let l : Large = get_or ls i nothing in
    let same : get_or ls i l ≡ l = get_or-same ls i l nothing (omega arith) in
    elim (Bool-cases l.active) [
      | inl active ↦
          total-dequeue f i ls ms null (omega arith)
            (ground (arith, e, active, get_elem?-get_or ls i nothing))
      | inr idle ↦
          let pop : dequeue i (swap_pop i l ls) ≡ some ms =
            ground (arith, e, idle, get_elem?-get_or ls i nothing) in
          omega (
            arith,
            null l idle,
            ap f same,
            total-swap_pop i l ls (omega arith) f,
            total-dequeue f i (swap_pop i l ls) ms null
                (omega (arith, length-swap_pop i l ls (omega arith))) pop,
          )
    ]

-- The loop succeeds, and leaves only elements with requests.
pub dequeue-IsActiveFrom :
    (n : ℕ) (ls : List Large)
    → n ≤ length ls
    → IsActiveFrom n ls
    → (ms : List Large) × (dequeue n ls ≡ some ms) × IsActiveFrom 0 ms × (length ms ≤ length ls)
unfolding dequeue
dequeue-IsActiveFrom zero ls h active = (ls, refl, active, omega arith)
dequeue-IsActiveFrom (suc i) ls h active =
    let l : Large = get_or ls i nothing in
    elim (Bool-cases l.active) [
      | inl busy ↦
          let (ms, done, all, less) = dequeue-IsActiveFrom i ls (omega arith) (λ j d m k.
            elim (ℕ_discrete j i) [
              | yes same ↦ ground (arith, same, busy, get_or-same ls i nothing d (omega arith))
              | no other ↦ active j d (omega arith) k
            ]) in
          (ms, ground (arith, done, busy, get_elem?-get_or ls i nothing), all, less)
      | inr idle ↦
          let n : ℕ = length ls - 1 in
          let (ms, done, all, less) =
            dequeue-IsActiveFrom i (swap_pop i l ls)
              (omega (arith, length-swap_pop i l ls (omega arith)))
              (λ j d m k.
                let below : j < n = omega (arith, length-swap_pop i l ls (omega arith)) in
                ground (
                  arith,
                  get_or-swap_pop i l ls (omega arith) j d below,
                  active n l (omega arith) (omega arith),
                  active j d,
                )) in
          (
            ms,
            ground (arith, done, idle, get_elem?-get_or ls i nothing),
            all,
            omega (arith, less, length-swap_pop i l ls (omega arith)),
          )
    ]

-- What holds of each entry holds of each that is left.
pub dequeue-all :
    (P : Large → Type 0) (n : ℕ) (ls ms : List Large)
    → n ≤ length ls
    → ((j : ℕ) (d : Large) → j < length ls → P (get_or ls j d))
    → dequeue n ls ≡ some ms
    → (j : ℕ) (d : Large) → j < length ms
    → P (get_or ms j d)
unfolding dequeue
dequeue-all P zero ls ms h all e =
    let same : ls ≡ ms = ground (arith, e) in
    λ j d k. subst (λ x. P (get_or x j d)) same (all j d (subst (λ x. j < length x) (sym same) k))
dequeue-all P (suc i) ls ms h all e =
    let l : Large = get_or ls i nothing in
    let n : ℕ = length ls - 1 in
    elim (Bool-cases l.active) [
      | inl active ↦
          dequeue-all P i ls ms (omega arith) all
            (ground (arith, e, active, get_elem?-get_or ls i nothing))
      | inr idle ↦
          dequeue-all P i (swap_pop i l ls) ms (omega (arith, length-swap_pop i l ls (omega arith)))
            (λ j d k.
              let below : j < n = omega (arith, length-swap_pop i l ls (omega arith)) in
              elim (ℕ_discrete i j) [
                | yes here ↦
                    subst P (ground (arith, here, get_or-swap_pop i l ls (omega arith) j d below))
                      (all n l (omega arith))
                | no other ↦
                    subst P (ground (arith, other, get_or-swap_pop i l ls (omega arith) j d below))
                      (all j d (omega arith))
              ])
            (ground (arith, e, idle, get_elem?-get_or ls i nothing))
    ]
