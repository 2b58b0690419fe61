-- ===== src/Messages/Rounds.antt =====
-- What the loop of `iwaitall` in src/MPI/mpilib.cpp does for the requests that MPI_Testsome finds.
use talpf.Prelude.{
  ℕ, ◌+◌, ◌<◌, ◌≡◌, refl, sym, ◌∙◌, ap, subst, Bool, true, false, ◌||◌, List, [], ◌∷◌, ◌++◌, length,
  get_or, set, length-set, get_or-set, get_elem?-get_or, total, total-set, ltb, ◌==◌, if◌then◌else◌,
  arith, Bool-cases, inl, inr, returns, on_return,
}
use native.Mathlib.Decide.{ℕ_discrete}
use talpf.Messages.{Send, Large, Comm, advance, head_of, forward, forwards, complete}
use talpf.Messages.Dequeue.{nothing}
use talpf.Messages.Pieces.{owed, account, total-chunks}

-- The index is among those that MPI_Testsome finds.
abbrev pub among : ℕ → List (ℕ × Bool) → Bool
among j [] = false
among j (p ∷ ready) = p.0 == j || among j ready

-- They are indices of different requests, and MPI_Isend succeeds for each.
abbrev pub AllReady : ℕ → List (ℕ × Bool) → Type 0
AllReady k [] = Unit
AllReady k (p ∷ ready) = (p.1 ≡ true) × (p.0 < k) × (among p.0 ready ≡ false) × AllReady k ready

-- Those at which MPI_Testsome found a request still wait for their next piece, and each other one
-- has a request if and only if more pieces follow.
pub record Waiting (ready : List (ℕ × Bool)) (max_size : ℕ) (ls : List Large) : Type 0 where
  pub pending :
      (j : ℕ)
      → j < length ls
      → among j ready ≡ true
      → ((get_or ls j nothing).active ≡ false) × (max_size < (get_or ls j nothing).send.size)
  pub settled :
      (j : ℕ)
      → j < length ls
      → among j ready ≡ false
      → (get_or ls j nothing).active ≡ ltb max_size (get_or ls j nothing).send.size

module _ (i : ℕ) (c : Comm) where
  abbrev at_i : Large
  at_i = get_or c.large_sends i nothing

  abbrev rest : Send
  rest = advance c.max_mpi_msg_size (at_i.send)

  abbrev more : Bool
  more = ltb c.max_mpi_msg_size rest.size

  abbrev forwarded : Comm
  forwarded = record c {
    imsgs = if more then c.imsgs else c.imsgs ++ true ∷ [];
    large_sends =
        set c.large_sends i (record { send = rest; active = if more then true else at_i.active });
    sent = head_of c.max_mpi_msg_size rest ∷ c.sent;
  }

  module _ (pos : 0 < c.max_mpi_msg_size) (inside : i < length c.large_sends)
      (large : c.max_mpi_msg_size < at_i.send.size) where
    forward-forwarded : forward true i c ≡ returns forwarded
    unfolding forward
    forward-forwarded = ground (arith, get_elem?-get_or c.large_sends i nothing inside)

    account-forwarded : (f : Send → ℕ) → account f forwarded ≡ account f c
    unfolding advance
    account-forwarded f =
        let l : Large = record { send = rest; active = if more then true else at_i.active } in
        omega (
          arith,
          total-chunks f c.max_mpi_msg_size rest pos (omega arith),
          total-set (owed f c.max_mpi_msg_size) c.large_sends i l nothing inside,
        )

    forwarded-Waiting :
        (ready : List (ℕ × Bool)) (accepts : Bool)
        → among i ready ≡ false
        → Waiting ((i, accepts) ∷ ready) c.max_mpi_msg_size c.large_sends
        → Waiting ready c.max_mpi_msg_size forwarded.large_sends
    forwarded-Waiting ready accepts fresh w =
        let l : Large = record { send = rest; active = if more then true else at_i.active } in
        record {
          pending = λ j h a. ground (
            arith,
            fresh,
            length-set c.large_sends i l,
            get_or-set c.large_sends i j l nothing inside,
            w.pending j,
            a,
          );
          settled = λ j h a. elim (ℕ_discrete i j) [
            | yes same ↦ elim (Bool-cases more) [
              | inl goes ↦ ground (arith, same, goes, get_or-set c.large_sends i j l nothing inside)
              | inr ends ↦ ground (
                arith,
                same,
                ends,
                get_or-set c.large_sends i j l nothing inside,
                w.pending i inside,
              )
            ]
            | no other ↦ ground (
              arith,
              other,
              a,
              length-set c.large_sends i l,
              get_or-set c.large_sends i j l nothing inside,
              w.settled j,
            )
          ];
        }

-- What the loop over the indices makes of `c`.
pub record Forwards (ready : List (ℕ × Bool)) (c d : Comm) : Type 0 where
  pub same_size : d.max_mpi_msg_size ≡ c.max_mpi_msg_size
  pub same_indices : d.send_indices ≡ c.send_indices
  pub same_irecvs : d.irecvs ≡ c.irecvs
  pub same_received : d.received ≡ c.received
  pub same_length : length d.large_sends ≡ length c.large_sends
  pub all_settled : Waiting [] c.max_mpi_msg_size d.large_sends
  pub same_account : (f : Send → ℕ) → account f d ≡ account f c
  pub more_sent : length d.sent ≡ length ready + length c.sent

-- For the requests that MPI_Testsome found, the next pieces are sent.
pub forwards-Forwards :
    (ready : List (ℕ × Bool)) (c : Comm)
    → 0 < c.max_mpi_msg_size
    → AllReady (length c.large_sends) ready
    → Waiting ready c.max_mpi_msg_size c.large_sends
    → (d : Comm) × (forwards ready c ≡ returns d) × Forwards ready c d
unfolding forwards
forwards-Forwards [] c pos all w = (
  c,
  refl,
  record {
    same_size = refl;
    same_indices = refl;
    same_irecvs = refl;
    same_received = refl;
    same_length = refl;
    all_settled = w;
    same_account = λ f. refl;
    more_sent = omega arith;
  },
)
forwards-Forwards ((i, accepts) ∷ ready) c pos all w =
    let (ok, inside, fresh, others) = all in
    let large : c.max_mpi_msg_size < (at_i i c).send.size = (w.pending i inside (ground arith)).1 in
    let e : Comm = forwarded i c in
    let same : length e.large_sends ≡ length c.large_sends =
      length-set c.large_sends i
        (record { send = rest i c; active = if more i c then true else (at_i i c).active }) in
    let (d, goes, s) =
      forwards-Forwards ready e pos (subst (λ k. AllReady k ready) (sym same) others)
        (forwarded-Waiting i c pos inside large ready accepts fresh w) in
    (
      d,
      ap (λ b. on_return (forward b i c) (λ x. forwards ready x)) ok
          ∙ ap (λ x. on_return x (λ y. forwards ready y)) (forward-forwarded i c pos inside large)
          ∙ goes,
      record {
        same_size = s.same_size;
        same_indices = s.same_indices;
        same_irecvs = s.same_irecvs;
        same_received = s.same_received;
        same_length = s.same_length ∙ same;
        all_settled = s.all_settled;
        same_account = λ f. s.same_account f ∙ account-forwarded i c pos inside large f;
        more_sent = omega (arith, s.more_sent);
      },
    )

-- MPI_Testsome leaves the messages as they are, and takes the requests at its indices away.
pub complete-Waiting :
    (ready : List (ℕ × Bool)) (ls : List Large)
    → AllReady (length ls) ready
    → (length (complete ready ls) ≡ length ls)
      × ((f : Send → ℕ) → total (λ l. f l.send) (complete ready ls) ≡ total (λ l. f l.send) ls)
      × ((j : ℕ)
          → j < length ls
          → ((get_or (complete ready ls) j nothing).send ≡ (get_or ls j nothing).send)
            × ((get_or (complete ready ls) j nothing).active
                ≡ (if among j ready then false else (get_or ls j nothing).active)))
unfolding complete
complete-Waiting [] ls all = (refl, λ f. refl, λ j h. (refl, refl))
complete-Waiting ((i, accepts) ∷ ready) ls all =
    let (ok, inside, fresh, others) = all in
    let l : Large = record (get_or ls i nothing) { active = false } in
    let same : length (set ls i l) ≡ length ls = length-set ls i l in
    let (longs, sums, entries) =
      complete-Waiting ready (set ls i l) (subst (λ k. AllReady k ready) (sym same) others) in
    let goes : complete ((i, accepts) ∷ ready) ls ≡ complete ready (set ls i l) =
      ground (arith, get_elem?-get_or ls i nothing inside) in
    (
      ap length goes ∙ longs ∙ same,
      λ f.
          ap (total (λ m. f m.send)) goes
          ∙ sums f
          ∙ omega (arith, total-set (λ m. f m.send) ls i l nothing inside),
      λ j h.
          let (sends, requests) = entries j (omega (arith, same)) in
          (
            ground (arith, goes, sends, get_or-set ls i j l nothing inside),
            elim (ℕ_discrete i j) [
              | yes here ↦ ground (arith, goes, requests, here, get_or-set ls i j l nothing inside)
              | no other ↦ ground (arith, goes, requests, other, get_or-set ls i j l nothing inside)
            ],
          ),
    )
