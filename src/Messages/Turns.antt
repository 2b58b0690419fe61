-- ===== src/Messages/Turns.antt =====
-- A round of `iwaitall` of src/MPI/mpilib.cpp as a whole.
use talpf.Prelude.{
  ℕ, ◌+◌, ◌-◌, ◌≡◌, refl, sym, ◌∙◌, ap, subst, true, Option, some, none, List, length, get_or,
  total, total-set, arith, Exec, returns,
}
use talpf.Messages.{Comm, Round, round, after_sends, then_receive, receive}
use talpf.Messages.Pieces.{chunks, owed}
use talpf.Messages.Rounds.{AllReady, complete-Waiting, forwards-Forwards}
use talpf.Messages.Wants.{anyone, expected, wanted, Dealt}
use talpf.Messages.Receives.{receive-Receives}
use talpf.Messages.Answers.{
  consumed, IsDue, Fits, count_found, events, Steady, Advances, total-one, Sends, tested_state,
  tested_state-Waiting, dequeued,
}

module _ (r : Round) (n : ℕ) (ks : List ℕ) (c : Comm) (s : Steady ks n c) (a : Fits r ks c) where
  -- What the second half of the round does once the entries are dequeued.
  abbrev probe : Comm → Exec (ℕ × Comm)
  probe d = elim r.found [ none ↦ returns (n, d) | some p ↦ receive r.succeeds p.0 p.1 n d ]

  round-probe : (d : Comm) × (round r n c ≡ probe d) × Sends r c d
  unfolding round then_receive after_sends
  round-probe =
      let (e, sends, w) =
        forwards-Forwards r.ready (tested_state r n ks c s a) s.pos
          (subst (λ k. AllReady k r.ready)
            (sym (complete-Waiting r.ready c.large_sends a.all_ready).0) a.all_ready)
          (tested_state-Waiting r n ks c s a) in
      let (ls, done, t) = dequeued r n ks c s a e w in
      (
        record e { large_sends = ls },
        ground (
          arith,
          s.room,
          a.tests,
          a.probes,
          (complete-Waiting r.ready c.large_sends a.all_ready).0,
          sends,
          done,
        ),
        t,
      )

  owed_fewer :
      (d : Comm)
      → Sends r c d
      → length r.ready + total (owed (λ x. 1) d.max_mpi_msg_size) d.large_sends
        ≡ total (owed (λ x. 1) c.max_mpi_msg_size) c.large_sends
  owed_fewer d t =
      omega (arith, t.same_account (λ x. 1), t.more_sent, total-one d.sent, total-one c.sent)

  Sends-Dealt : (d : Comm) → Sends r c d → Dealt ks n d
  Sends-Dealt d t = record {
    one_each = s.dealt.one_each ∙ sym (ap length t.same_irecvs);
    counted = s.dealt.counted;
    bounded = s.dealt.bounded;
    right = λ j h k.
        s.dealt.right j h k
        ∙ ap (λ ps. length (chunks c.max_mpi_msg_size (expected j (get_or ps j (0, 0)))))
            (sym t.same_irecvs)
        ∙ ap (λ m. length (chunks m (expected j (get_or d.irecvs j (0, 0))))) (sym t.same_size);
  }

  -- What a found message adds to the sent pieces in a round.
  received_too :
      (q : Option (ℕ × ℕ)) (d : Comm)
      → IsDue q ks
      → Sends r c d
      → (m : ℕ) × (x : Comm) × ((elim q as (λ o. Exec (ℕ × Comm)) [
        | none ↦ returns (n, d)
        | some p ↦ receive true p.0 p.1 n d
      ])
          ≡ returns (m, x))
        × Steady (consumed q ks) m x
        × Advances (length r.ready + count_found q) ks c (consumed q ks) x
  received_too none d u t = (
    n,
    d,
    refl,
    record {
      pos = omega (arith, s.pos, t.same_size);
      room = ground (arith, s.room, t.no_longer, t.same_indices);
      all_large = t.all_large;
      dealt = Sends-Dealt d t;
    },
    record {
      same_size = t.same_size;
      fewer = omega (arith, owed_fewer d t);
      same_sent = t.same_account;
      same_received = λ f.
          ap (λ xs. total (λ y. f (anyone y)) xs + wanted f c.max_mpi_msg_size 0 ks d.irecvs)
            t.same_received
          ∙ ap (λ ps. total (λ y. f (anyone y)) c.received + wanted f c.max_mpi_msg_size 0 ks ps)
              t.same_irecvs;
    },
  )
  received_too (some p) d u t =
      let (m, x, goes, w) =
        receive-Receives p.0 p.1 n ks d (omega (arith, s.pos, t.same_size)) (Sends-Dealt d t) u.0
          u.1 in
      (
        m,
        x,
        goes,
        record {
          pos = omega (arith, s.pos, t.same_size, w.same_size);
          room = ground (arith, s.room, t.no_longer, t.same_indices, w.same_sends, w.same_indices);
          all_large = λ j e h. ground (arith, w.same_sends, w.same_size, h, t.all_large j e);
          dealt = w.dealt;
        },
        record {
          same_size = w.same_size ∙ t.same_size;
          fewer = ground (
            arith,
            w.same_sends,
            w.same_size,
            owed_fewer d t,
            u.1,
            total-set (λ k. k) ks p.1 (get_or ks p.1 0 - 1) 0 u.0,
          );
          same_sent = λ f. ground (arith, w.same_sends, w.same_size, w.same_sent, t.same_account f);
          same_received =
              λ f. ground (arith, w.same_account f, t.same_size, t.same_received, t.same_irecvs);
        },
      )

  pub round-Advances :
      (m : ℕ) × (x : Comm) × (round r n c ≡ returns (m, x))
      × Steady (consumed r.found ks) m x
      × Advances (events r) ks c (consumed r.found ks) x
  round-Advances =
      let (d, goes, t) = round-probe in
      let (m, x, ends, steady, advances) = received_too r.found d a.is_due t in
      (
        m,
        x,
        goes
            ∙ ap
                (λ b. elim r.found as (λ o. Exec (ℕ × Comm)) [
                  | none ↦ returns (n, d)
                  | some p ↦ receive b p.0 p.1 n d
                ])
                a.receives
            ∙ ends,
        steady,
        advances,
      )
