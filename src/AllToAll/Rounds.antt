-- ===== src/AllToAll/Rounds.antt =====
-- A round of the sparse all-to-all of src/MPI/mpilib.cpp, for the answers of an MPI that succeeds.
use talpf.Prelude.{
  ℕ, suc, ◌+◌, ◌-◌, ◌≤◌, ◌<◌, ◌≡◌, refl, sym, ap, subst, ◌∙◌, true, false, ◌⊎◌, Option, some, none,
  List, [], ◌∷◌, length, total, total-at, ◌==◌, arith, Bool-cases, inl, inr, returns, throws, fault,
  on_return,
}
use talpf.AllToAll.{
  Outgoing, Piece, Exchange, Turn, receive, complete, enter_barrier, progress, turn,
}
use talpf.AllToAll.Account.{account, due, weight, owed, InRange, resumes-Resumes, none_sent}
use talpf.AllToAll.Culls.{AllReady, complete_ready, cull_keeps}

-- A message that is found fits into what is left of the buffer.
abbrev pub HasRoom : Option (ℕ × ℕ) → ℕ → Type 0
HasRoom none size = Unit
HasRoom (some p) size = p.1 ≤ size

-- The answers of an MPI that succeeds, and peers that do not send more than the buffer holds.
pub record Fits (t : Turn) (x : Exchange) : Type 0 where
  pub probes : t.probed ≡ true
  pub has_room : HasRoom t.found x.recv_size
  pub counts : t.counted ≡ true
  pub takes : t.taken ≡ true
  pub tests : t.tested ≡ true
  pub all_ready : x.barrier_active ≡ false → AllReady x.sends t.indices
  pub barrier_starts : t.starts ≡ true
  pub asks : t.asked ≡ true

-- Each round gets such answers for the state in which it begins.
abbrev pub Served : ℕ → List Turn → Exchange → Type 0
Served m [] x = Unit
Served m (t ∷ ts) x =
    Fits t x × (elim (turn m t x) [ returns y ↦ Served m ts y | throws e y ↦ Unit | fault ↦ Unit ])

-- The barrier is entered without a message to send, and is done only once it is entered.
pub record IsOrdered (x : Exchange) : Type 0 where
  pub entered : x.barrier_active ≡ true → x.sends ≡ []
  pub left_after : x.barrier_done ≡ true → x.barrier_active ≡ true

-- What a round makes of a state.
pub record Turns (m : ℕ) (t : Turn) (x y : Exchange) : Type 0 where
  pub ordered : IsOrdered y
  pub same_account : (f : Piece → ℕ) → account f m y ≡ account f m x
  pub same_room : y.recv_size + y.received ≡ x.recv_size + x.received
  pub closer :
      x.barrier_active ≡ false
      → (y.barrier_active ≡ true) ⊎ ((due m y + length t.indices ≤ due m x) × (0 < due m y))
  pub asked : x.barrier_active ≡ true → (y.barrier_active ≡ true) × (y.barrier_done ≡ t.finished)

no_length : (ss : List Outgoing) → length ss ≡ 0 → ss ≡ []
no_length [] e = refl
no_length (s ∷ ss) e = absurd (omega (arith, e))

-- What the reception makes of a state.
pub record Receives (x y : Exchange) : Type 0 where
  pub same_sends : y.sends ≡ x.sends
  pub same_posted : y.posted ≡ x.posted
  pub same_active : y.barrier_active ≡ x.barrier_active
  pub same_done : y.barrier_done ≡ x.barrier_done
  pub same_room : y.recv_size + y.received ≡ x.recv_size + x.received

receive_found :
    (t : Turn) (x : Exchange) (q : Option (ℕ × ℕ))
    → t.found ≡ q
    → Fits t x
    → HasRoom q x.recv_size
    → (y : Exchange) × (receive t x ≡ returns y) × Receives x y
unfolding receive
receive_found t x none e a h = (
  x,
  ground (arith, e, a.probes),
  record {
    same_sends = refl;
    same_posted = refl;
    same_active = refl;
    same_done = refl;
    same_room = refl;
  },
)
receive_found t x (some p) e a h = (
  record x {
    recv_size = x.recv_size - p.1;
    received = x.received + p.1;
    arrivals = p ∷ x.arrivals;
  },
  ground (arith, e, h, a.probes, a.counts, a.takes),
  record {
    same_sends = refl;
    same_posted = refl;
    same_active = refl;
    same_done = refl;
    same_room = omega (arith, h);
  },
)

receive-Receives :
    (t : Turn) (x : Exchange) → Fits t x → (y : Exchange) × (receive t x ≡ returns y) × Receives x y
receive-Receives t x a = receive_found t x t.found refl a a.has_room

module _ (m : ℕ) (pos : 0 < m) (t : Turn) (x : Exchange) (a : Fits t x) (o : IsOrdered x)
    (going : x.barrier_done ≡ false) where
  progress-Turns :
      (y : Exchange) → Receives x y → (z : Exchange) × (progress m t y ≡ returns z) × Turns m t x z
  unfolding progress enter_barrier
  progress-Turns y r = elim (Bool-cases x.barrier_active) [
    | inl entered ↦ (
      record y { barrier_done = t.finished },
      ground (arith, entered, r.same_active, a.asks),
      record {
        ordered = record {
          entered = λ e. r.same_sends ∙ o.entered entered;
          left_after = λ e. r.same_active ∙ entered;
        };
        same_account = λ f. ground (arith, r.same_sends, r.same_posted);
        same_room = r.same_room;
        closer = λ e. absurd (ground (arith, e, entered));
        asked = λ e. (r.same_active ∙ entered, refl);
      },
    )
    | inr outside ↦
        let e : Exchange = record y { sends = complete t.indices y.sends } in
        let (longs, sums, weights, range) =
          complete_ready m t.indices y.sends
            (subst (λ ss. AllReady ss t.indices) (sym r.same_sends) (a.all_ready outside)) in
        let (z, goes, q) =
          resumes-Resumes m pos t.indices e (subst (λ k. InRange k t.indices) (sym longs) range) in
        let (rs, culled, kept, heavy, busy) =
          cull_keeps m pos (suc (length z.sends)) 0 z.sends (omega arith) (omega arith)
            (λ j h k. absurd (omega (arith, h))) in
        let sends_on : (f : Piece → ℕ) → total f z.posted + total (owed f m) rs ≡ account f m x =
          λ f. omega (
            arith,
            kept f,
            q.same_account f,
            sums f,
            ap (total (owed f m)) r.same_sends,
            ap (total f) r.same_posted,
          ) in
        let room : z.recv_size + z.received ≡ x.recv_size + x.received =
          omega (arith, q.same_size, q.same_received, r.same_room) in
        elim (Bool-cases (length rs == 0)) [
          | inl over ↦ (
            record z { sends = rs; barrier_active = true },
            ground (arith, outside, r.same_active, a.tests, a.barrier_starts, goes, culled, over),
            record {
              ordered = record {
                entered = λ k. no_length rs (ground (arith, over));
                left_after = λ k. refl;
              };
              same_account = sends_on;
              same_room = room;
              closer = λ k. inl refl;
              asked = λ k. absurd (ground (arith, k, outside));
            },
          )
          | inr more ↦
              let again : z.barrier_active ≡ false = q.same_active ∙ r.same_active ∙ outside in
              let ongoing : z.barrier_done ≡ false = q.same_done ∙ r.same_done ∙ going in
              let first : 0 < length rs = ground (arith, more) in
              (
                record z { sends = rs },
                ground (arith, outside, r.same_active, a.tests, goes, culled, more),
                record {
                  ordered = record {
                    entered = λ k. absurd (ground (arith, k, again));
                    left_after = λ k. absurd (ground (arith, k, ongoing));
                  };
                  same_account = sends_on;
                  same_room = room;
                  closer = λ k. inr (
                    omega (arith, heavy, q.no_more, weights, ap (total (weight m)) r.same_sends),
                    omega (arith, busy 0 first first, total-at (weight m) rs 0 none_sent first),
                  );
                  asked = λ k. absurd (ground (arith, k, outside));
                },
              )
        ]
  ]

  pub turn-Turns : (z : Exchange) × (turn m t x ≡ returns z) × Turns m t x z
  unfolding turn
  turn-Turns =
      let (y, received, r) = receive-Receives t x a in
      let (z, goes, w) = progress-Turns y r in
      (z, ap (λ k. on_return k (λ v. progress m t v)) received ∙ goes, w)
