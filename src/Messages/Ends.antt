-- ===== src/Messages/Ends.antt =====
-- The loop of `iwaitall` of src/MPI/mpilib.cpp from its first round to its end.
use talpf.Prelude.{
  ℕ, suc, ◌+◌, ◌≤◌, ◌<◌, ◌≡◌, refl, ◌∙◌, ap, subst, false, some, List, [], ◌∷◌, length, get_or,
  total, arith, Bool-cases, inl, inr, returns, throws, fault,
}
use talpf.Messages.{advance, Send, Large, Comm, Round, waits, wait_loop}
use talpf.Messages.Pieces.{total-chunks, owed, account}
use talpf.Messages.Wants.{flag, anyone, wanted}
use talpf.Messages.Answers.{consumed, Served, events, due, Steady}
use talpf.Messages.Turns.{round-Advances}

no_flags :
    (ks : List ℕ)
    → total flag ks ≡ 0
    → (f : Send → ℕ) (m t : ℕ) (ps : List (ℕ × ℕ)) → wanted f m t ks ps ≡ 0
no_flags [] e f m t ps = refl
no_flags (k ∷ ks) e f m t [] = refl
no_flags (k ∷ ks) e f m t (p ∷ ps) =
    ground (arith, e, no_flags ks (ground (arith, e)) f m (suc t) ps)

no_length : (ls : List Large) → length ls ≡ 0 → ls ≡ []
no_length [] e = refl
no_length (l ∷ ls) e = absurd (omega (arith, e))

loop_over :
    (rs : List Round) (n : ℕ) (c : Comm)
    → waits n c ≡ false
    → wait_loop rs n c ≡ some (returns (n, c))
unfolding wait_loop
loop_over [] n c over = ground (arith, over)
loop_over (r ∷ rs) n c over = ground (arith, over)

each_owes :
    (m : ℕ) (ls : List Large)
    → 0 < m
    → ((j : ℕ) (d : Large) → j < length ls → m < (get_or ls j d).send.size)
    → length ls ≤ total (owed (λ s. 1) m) ls
unfolding advance
each_owes m [] pos h = omega arith
each_owes m (l ∷ ls) pos h =
    let large : m < l.send.size = h 0 l (omega arith) in
    omega (
      arith,
      total-chunks (λ s. 1) m (advance m l.send) pos (omega arith),
      each_owes m ls pos (λ j d k. h (suc j) d (omega (arith, k))),
    )

flags_le : (ks : List ℕ) → total flag ks ≤ total (λ k. k) ks
flags_le [] = omega arith
flags_le (k ∷ ks) = ground (arith, flags_le ks)

-- What the loop gives back at its end.
abbrev pub Finishes : List Round → List ℕ → ℕ → Comm → Type 0
Finishes rs ks n c =
    (d : Comm) × (wait_loop rs n c ≡ some (returns (0, d)))
    × (d.large_sends ≡ [])
    × (d.max_mpi_msg_size ≡ c.max_mpi_msg_size)
    × ((f : Send → ℕ) → total f d.sent ≡ account f c)
    × ((f : Send → ℕ)
        → total (λ s. f (anyone s)) d.received
          ≡ total (λ s. f (anyone s)) c.received + wanted f c.max_mpi_msg_size 0 ks c.irecvs)

stops :
    (rs : List Round) (ks : List ℕ) (n : ℕ) (c : Comm)
    → Steady ks n c
    → waits n c ≡ false
    → Finishes rs ks n c
unfolding wait_loop
stops rs ks n c s over =
    let none_left : n ≡ 0 = ground (arith, over) in
    let no_large : c.large_sends ≡ [] = no_length c.large_sends (ground (arith, over)) in
    (
      c,
      loop_over rs n c over ∙ ap (λ k. some (returns (k, c))) none_left,
      no_large,
      refl,
      λ f. omega (arith, ap (total (owed f c.max_mpi_msg_size)) no_large),
      λ f. omega (
        arith,
        no_flags ks (omega (arith, none_left, s.dealt.counted)) f c.max_mpi_msg_size 0 c.irecvs,
      ),
    )

-- The loop ends, after as many events as pieces are to be sent and received at the latest, and then
-- each piece is sent, and each piece received.
pub wait_loop-Finishes :
    (rs : List Round) (ks : List ℕ) (n : ℕ) (c : Comm)
    → Steady ks n c
    → Served rs ks n c
    → due ks c ≤ total events rs
    → Finishes rs ks n c
unfolding wait_loop
wait_loop-Finishes [] ks n c s v enough = stops [] ks n c s (
    ground (
      arith,
      s.dealt.counted,
      flags_le ks,
      each_owes c.max_mpi_msg_size c.large_sends s.pos (λ j d k. (s.all_large j d k).1),
      enough,
    ))
wait_loop-Finishes (r ∷ rs) ks n c s v enough = elim (Bool-cases (waits n c)) [
  | inr over ↦ stops (r ∷ rs) ks n c s over
  | inl more ↦
      let (m, x, goes, steady, w) = round-Advances r n ks c s v.0 in
      let later : Served rs (consumed r.found ks) m x =
        subst
          (λ y. elim y as (λ z. Type 0) [
            | returns p ↦ Served rs (consumed r.found ks) p.0 p.1
            | throws e p ↦ Unit
            | fault ↦ Unit
          ])
          goes v.1 in
      let (d, loops, no_large, same, sends, receives) =
        wait_loop-Finishes rs (consumed r.found ks) m x steady later
          (omega (arith, enough, w.fewer)) in
      (
        d,
        ground (arith, more, goes, loops),
        no_large,
        same ∙ w.same_size,
        λ f. sends f ∙ w.same_sent f,
        λ f. ground (arith, receives f, w.same_size, w.same_received f),
      )
]
