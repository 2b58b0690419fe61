-- ===== src/AllToAll/Culls.antt =====
-- What MPI_Testsome does to the messages of the sparse all-to-all of src/MPI/mpilib.cpp, and the loop
-- that takes out those that are received.
use talpf.Prelude.{
  ℕ, zero, suc, ◌+◌, ◌-◌, ◌≤◌, ◌<◌, ◌≡◌, refl, ap, subst, ◌∙◌, Bool, true, false, not, ◌&&◌, some,
  none, List, [], ◌∷◌, length, get_elem?, get_or, set, length-set, get_elem?-get_or, get_or-same,
  swap_pop, length-swap_pop, get_or-swap_pop, total-swap_pop, total, total-set, ◌==◌, arith,
  Bool-cases, inl, inr,
}
use native.Mathlib.Decide.{dec_lt, ℕ_discrete}
use talpf.AllToAll.{Outgoing, Piece, complete, cull}
use talpf.AllToAll.Account.{chunks, chunks-none, chunks-after, weight, owed, InRange, none_sent}

-- MPI_Testsome finds active requests, each once, and MPI_Issend succeeds for each.
abbrev pub AllReady : List Outgoing → List (ℕ × Bool) → Type 0
AllReady ss [] = Unit
AllReady ss (p ∷ indices) =
    (p.1 ≡ true)
    × (p.0 < length ss)
    × ((get_or ss p.0 none_sent).active ≡ true)
    × AllReady (set ss p.0 (record (get_or ss p.0 none_sent) { active = false })) indices

-- What it does to the messages.
pub complete_ready :
    (m : ℕ) (indices : List (ℕ × Bool)) (ss : List Outgoing)
    → AllReady ss indices
    → (length (complete indices ss) ≡ length ss)
      × ((f : Piece → ℕ) → total (owed f m) (complete indices ss) ≡ total (owed f m) ss)
      × (total (weight m) (complete indices ss) + length indices ≡ total (weight m) ss)
      × InRange (length ss) indices
unfolding complete
complete_ready m [] ss all = let fit : Unit {0} = tt in (refl, λ f. refl, omega arith, fit)
complete_ready m ((j, accepts) ∷ indices) ss all =
    let (ok, inside, running, others) = all in
    let s : Outgoing = get_or ss j none_sent in
    let stopped : Outgoing = record s { active = false } in
    let same : length (set ss j stopped) ≡ length ss = length-set ss j stopped in
    let goes : complete ((j, accepts) ∷ indices) ss ≡ complete indices (set ss j stopped) =
      ground (arith, get_elem?-get_or ss j none_sent inside) in
    let (longs, sums, weights, range) = complete_ready m indices (set ss j stopped) others in
    (
      ap length goes ∙ longs ∙ same,
      λ f.
          ap (total (owed f m)) goes
          ∙ sums f
          ∙ omega (arith, total-set (owed f m) ss j stopped none_sent inside),
      ground (
        arith,
        ap (total (weight m)) goes,
        weights,
        running,
        total-set (weight m) ss j stopped none_sent inside,
      ),
      (ok, inside, subst (λ k. InRange k indices) same range),
    )

-- The messages before an index are not yet sent and received.
abbrev pub IsBusyTo : ℕ → ℕ → List Outgoing → Type 0
IsBusyTo m i ss = (j : ℕ) → j < i → j < length ss → 0 < weight m (get_or ss j none_sent)

past : (ss : List Outgoing) (i : ℕ) → length ss ≤ i → get_elem? ss i ≡ none
past [] i h = refl
past (s ∷ ss) zero h = absurd (omega arith)
past (s ∷ ss) (suc i) h = past ss i (omega arith)

-- The loop takes out just those messages that add nothing to the sums.
pub cull_keeps :
    (m : ℕ)
    → 0 < m
    → (fuel i : ℕ) (ss : List Outgoing) → length ss < i + fuel
    → i ≤ length ss
    → IsBusyTo m i ss
    → (rs : List Outgoing) × (cull fuel i ss ≡ some rs)
      × ((f : Piece → ℕ) → total (owed f m) rs ≡ total (owed f m) ss)
      × (total (weight m) rs ≡ total (weight m) ss)
      × IsBusyTo m (length rs) rs
unfolding cull
cull_keeps m pos zero i ss enough low busy = absurd (omega (arith, enough, low))
cull_keeps m pos (suc fuel) i ss enough low busy = elim (dec_lt i (length ss)) [
  | no over ↦ (
    ss,
    ground (arith, past ss i (omega (arith, over))),
    λ f. refl,
    refl,
    λ j h k. busy j (omega (arith, over, h)) k,
  )
  | yes inside ↦
      let s : Outgoing = get_or ss i none_sent in
      let there : get_or ss i s ≡ s = get_or-same ss i s none_sent inside in
      elim (Bool-cases (s.count == 0 && not s.active)) [
        | inl gone ↦
            let empty : chunks m s ≡ [] = chunks-none m pos s (ground (arith, gone)) in
            let shorter : length (swap_pop i s ss) ≡ length ss - 1 =
              length-swap_pop i s ss inside in
            let (rs, goes, sums, weights, all) =
              cull_keeps m pos fuel i (swap_pop i s ss) (omega (arith, shorter, enough, inside))
                (omega (arith, shorter, inside))
                (λ j h k.
                  ground
                    (arith, h, k, shorter, get_or-swap_pop i s ss inside j none_sent, busy j)) in
            (
              rs,
              ground (arith, gone, goes, get_elem?-get_or ss i none_sent inside),
              λ f. omega (
                arith,
                sums f,
                ap (owed f m) there,
                ap (total f) empty,
                total-swap_pop i s ss inside (owed f m),
              ),
              ground (
                arith,
                gone,
                weights,
                ap (weight m) there,
                ap length empty,
                total-swap_pop i s ss inside (weight m),
              ),
              all,
            )
        | inr stays ↦
            let heavy : 0 < weight m s = elim (dec_lt 0 s.count) [
              | yes full ↦ omega (arith, ap length (chunks-after m pos s full))
              | no empty ↦ ground (arith, stays, empty)
            ] in
            let (rs, goes, sums, weights, all) =
              cull_keeps m pos fuel (suc i) ss (omega (arith, enough)) (omega (arith, inside))
                (λ j h k. elim (ℕ_discrete i j) [
                  | yes same ↦ subst (λ n. 0 < weight m (get_or ss n none_sent)) same heavy
                  | no other ↦ busy j (omega (arith, h, other)) k
                ]) in
            (
              rs,
              ground (arith, stays, goes, get_elem?-get_or ss i none_sent inside),
              sums,
              weights,
              all,
            )
      ]
]
