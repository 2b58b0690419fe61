-- ===== src/AllToAll/Ends.antt =====
-- The sparse all-to-all of src/MPI/mpilib.cpp to its end, for the answers of an MPI that succeeds.
use talpf.Prelude.{
  ℕ, ◌+◌, ◌≤◌, ◌<◌, ◌≡◌, refl, ap, subst, ◌∙◌, true, false, ◌⊎◌, some, List, [], ◌∷◌, ◌++◌, length,
  total, arith, Bool-cases, inl, inr, returns, throws, fault,
}
use talpf.AllToAll.{Piece, Exchange, Turn, turn, turns}
use talpf.AllToAll.Account.{account, due, owed}
use talpf.AllToAll.Rounds.{Served, IsOrdered, Turns, turn-Turns}

turns_over :
    (m : ℕ) (ts : List Turn) (x : Exchange)
    → x.barrier_done ≡ true
    → turns m ts x ≡ some (returns x)
unfolding turns
turns_over m [] x done = ground (arith, done)
turns_over m (t ∷ ts) x done = ground (arith, done)

-- What the all-to-all gives back at its end.
abbrev pub Finishes : ℕ → List Turn → Exchange → Type 0
Finishes m ts x =
    (y : Exchange) × (turns m ts x ≡ some (returns y))
    × (y.barrier_done ≡ true)
    × (y.sends ≡ [])
    × ((f : Piece → ℕ) → total f y.posted ≡ account f m x)
    × (y.recv_size + y.received ≡ x.recv_size + x.received)

finished :
    (m : ℕ) (ts : List Turn) (x : Exchange) → IsOrdered x → x.barrier_done ≡ true → Finishes m ts x
finished m ts x o done =
    let sent : x.sends ≡ [] = o.entered (o.left_after done) in
    (x, turns_over m ts x done, done, sent, λ f. omega (arith, ap (total (owed f m)) sent), refl)

-- The barrier is entered, or will be after these rounds.
abbrev pub IsNear : ℕ → List Turn → Exchange → Type 0
IsNear m ts x =
    (x.barrier_active ≡ true) ⊎ ((due m x ≤ total (λ t. length t.indices) ts) × (0 < length ts))

has_rounds : (ts : List Turn) → 0 < total (λ t. length t.indices) ts → 0 < length ts
has_rounds [] h = h
has_rounds (t ∷ ts) h = omega arith

-- After a round that is not the last.
continues :
    (m : ℕ) (t : Turn) (ts : List Turn) (x z : Exchange)
    → x.barrier_done ≡ false
    → turn m t x ≡ returns z
    → Turns m t x z
    → Finishes m ts z
    → Finishes m (t ∷ ts) x
unfolding turns
continues m t ts x z going goes w (y, loops, done, sent, sums, room) = (
  y,
  ground (arith, going, goes, loops),
  done,
  sent,
  λ f. sums f ∙ w.same_account f,
  room ∙ w.same_room,
)

-- A round brings the barrier nearer.
nearer :
    (m : ℕ) (t : Turn) (ts : List Turn) (x z : Exchange)
    → Turns m t x z
    → IsNear m (t ∷ ts) x
    → IsNear m ts z
nearer m t ts x z w (inl entered) = inl (w.asked entered).0
nearer m t ts x z w (inr (enough, some_left)) = elim (Bool-cases x.barrier_active) [
  | inl entered ↦ inl (w.asked entered).0
  | inr outside ↦ elim (w.closer outside) [
    | inl enters ↦ inl enters
    | inr (less, left) ↦
        inr (omega (arith, enough, less), has_rounds ts (omega (arith, enough, less, left)))
  ]
]

-- The loop ends in the last round at the latest, if that finds the barrier done and the rounds before
-- it find as many received pieces as there are to be sent.
pub turns-Finishes :
    (m : ℕ)
    → 0 < m
    → (ts : List Turn) (last : Turn) (x : Exchange) → IsOrdered x
    → Served m (ts ++ last ∷ []) x
    → last.finished ≡ true
    → IsNear m ts x
    → Finishes m (ts ++ last ∷ []) x
unfolding turns
turns-Finishes m pos [] last x o served ends near = elim (Bool-cases x.barrier_done) [
  | inl done ↦ finished m (last ∷ []) x o done
  | inr going ↦
      let (z, goes, w) = turn-Turns m pos last x served.0 o going in
      let entered : x.barrier_active ≡ true = elim near [
        | inl e ↦ e
        | inr e ↦ absurd (omega (arith, e.1))
      ] in
      let done : z.barrier_done ≡ true = (w.asked entered).1 ∙ ends in
      continues m last [] x z going goes w (finished m [] z w.ordered done)
]
turns-Finishes m pos (t ∷ ts) last x o served ends near = elim (Bool-cases x.barrier_done) [
  | inl done ↦ finished m (t ∷ ts ++ last ∷ []) x o done
  | inr going ↦
      let (z, goes, w) = turn-Turns m pos t x served.0 o going in
      let later : Served m (ts ++ last ∷ []) z =
        subst
          (λ k. elim k as (λ v. Type 0) [
            | returns y ↦ Served m (ts ++ last ∷ []) y
            | throws e y ↦ Unit
            | fault ↦ Unit
          ])
          goes served.1 in
      continues m t (ts ++ last ∷ []) x z going goes w
        (turns-Finishes m pos ts last z w.ordered later ends (nearer m t ts x z w near))
]
