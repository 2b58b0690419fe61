-- ===== src/Messages/Receives.antt =====
-- The reception in `iwaitall` of src/MPI/mpilib.cpp, for the pieces that the peers send.
use talpf.Prelude.{
  ℕ, suc, ◌+◌, ◌-◌, ◌%◌, ◌≤◌, ◌<◌, ◌≡◌, refl, sym, ◌∙◌, ap, subst, true, List, ◌∷◌, length, get_or,
  set, length-set, get_or-set, size_mod, get_elem?-get_or, total, total-set, total-at, ◌==◌,
  if◌then◌else◌, arith, returns,
}
use native.Mathlib.Decide.{dec_lt, dec_le, ℕ_discrete}
use talpf.Messages.{Send, Comm, advance, head_of, receive}
use talpf.Messages.Pieces.{chunks, left, total-chunks, left-none, chunks-left, chunks-none}
use talpf.Messages.Wants.{flag, expected, anyone, wanted, Dealt, set-same, wanted-set}

-- What the reception of a piece with a tag makes of `c`.
pub record Receives (tag : ℕ) (ks : List ℕ) (c : Comm) (m : ℕ) (d : Comm) : Type 0 where
  pub same_size : d.max_mpi_msg_size ≡ c.max_mpi_msg_size
  pub same_indices : d.send_indices ≡ c.send_indices
  pub same_sends : d.large_sends ≡ c.large_sends
  pub same_sent : d.sent ≡ c.sent
  pub dealt : Dealt (set ks tag (get_or ks tag 0 - 1)) m d
  pub same_account :
      (f : Send → ℕ)
      → total (λ s. f (anyone s)) d.received
          + wanted f c.max_mpi_msg_size 0 (set ks tag (get_or ks tag 0 - 1)) d.irecvs
        ≡ total (λ s. f (anyone s)) c.received + wanted f c.max_mpi_msg_size 0 ks c.irecvs

module _ (src tag n : ℕ) (ks : List ℕ) (c : Comm) (pos : 0 < c.max_mpi_msg_size) (w : Dealt ks n c)
    (inside : tag < length ks) (due : 0 < get_or ks tag 0) where
  abbrev entry : ℕ × ℕ
  entry = get_or c.irecvs tag (0, 0)

  abbrev message : Send
  message = expected tag entry

  has_bytes : 0 < message.size
  has_bytes = elim (dec_lt 0 message.size) [
    | yes h ↦ h
    | no h ↦ absurd (
        omega (
          arith,
          w.right tag inside due,
          due,
          ap length (chunks-none c.max_mpi_msg_size message (omega arith)),
        ))
  ]

  -- With one more piece of many.
  abbrev continued : Comm
  continued = record c {
    received = record (head_of c.max_mpi_msg_size message) { dst_pid = src } ∷ c.received;
    irecvs = set c.irecvs tag (entry.0 + c.max_mpi_msg_size, entry.1 - c.max_mpi_msg_size);
  }

  -- With the last piece.
  abbrev completed : Comm
  completed = record c {
    received = record (head_of c.max_mpi_msg_size message) { dst_pid = src } ∷ c.received;
  }

  receive-continued :
      c.max_mpi_msg_size < message.size → receive true src tag n c ≡ returns (n, continued)
  unfolding receive head_of
  receive-continued large =
      ground (arith, large, has_bytes, w.one_each, get_elem?-get_or c.irecvs tag (0, 0))

  receive-completed :
      message.size ≤ c.max_mpi_msg_size
      → receive true src tag n c ≡ returns ((n + size_mod - 1) % size_mod, completed)
  unfolding receive head_of
  receive-completed small =
      ground (arith, small, has_bytes, w.one_each, get_elem?-get_or c.irecvs tag (0, 0))

  abbrev next : ℕ × ℕ
  next = (entry.0 + c.max_mpi_msg_size, entry.1 - c.max_mpi_msg_size)

  abbrev after : List ℕ
  after = set ks tag (get_or ks tag 0 - 1)

  first_then_left :
      (f : Send → ℕ)
      → total f (chunks c.max_mpi_msg_size message)
        ≡ f (head_of c.max_mpi_msg_size message) + total f (left c.max_mpi_msg_size message)
  first_then_left f = total-chunks f c.max_mpi_msg_size message pos has_bytes

  count_left : get_or ks tag 0 ≡ suc (length (left c.max_mpi_msg_size message))
  count_left =
      w.right tag inside due ∙ ap length (chunks-left c.max_mpi_msg_size message pos has_bytes)

  wanted-here :
      (f : Send → ℕ) (k : ℕ) (q : ℕ × ℕ)
      → wanted f c.max_mpi_msg_size 0 (set ks tag k) (set c.irecvs tag q)
          + total f (chunks c.max_mpi_msg_size message)
        ≡ wanted f c.max_mpi_msg_size 0 ks c.irecvs
          + (if k == 0 then 0 else total f (chunks c.max_mpi_msg_size (expected tag q)))
  wanted-here f k q =
      let same : 0 + tag ≡ tag = omega arith in
      subst
        (λ t.
          wanted f c.max_mpi_msg_size 0 (set ks tag k) (set c.irecvs tag q)
            + total f (chunks c.max_mpi_msg_size (expected t entry))
          ≡ wanted f c.max_mpi_msg_size 0 ks c.irecvs
            + (if k == 0 then 0 else total f (chunks c.max_mpi_msg_size (expected t q))))
        same (wanted-set f c.max_mpi_msg_size 0 tag k q ks c.irecvs inside w.one_each due)

  same_anyone :
      anyone (record (head_of c.max_mpi_msg_size message) { dst_pid = src })
      ≡ head_of c.max_mpi_msg_size message
  unfolding head_of
  same_anyone = refl

  same_next : expected tag next ≡ advance c.max_mpi_msg_size message
  unfolding advance
  same_next = refl

  more_left : c.max_mpi_msg_size < message.size → 0 < length (left c.max_mpi_msg_size message)
  unfolding advance
  more_left large = ground (
    arith,
    ap length
        (chunks-left c.max_mpi_msg_size (advance c.max_mpi_msg_size message) pos (omega arith)),
  )

  flags : total flag after + 1 ≡ total flag ks + flag (get_or ks tag 0 - 1)
  flags = ground (arith, due, total-set flag ks tag (get_or ks tag 0 - 1) 0 inside)

  continued-Receives : c.max_mpi_msg_size < message.size → Receives tag ks c n continued
  continued-Receives large =
      let several : 0 < get_or ks tag 0 - 1 = omega (arith, count_left, more_left large) in
      record {
        same_size = refl;
        same_indices = refl;
        same_sends = refl;
        same_sent = refl;
        dealt = record {
          one_each =
              length-set ks tag (get_or ks tag 0 - 1)
              ∙ w.one_each
              ∙ sym (length-set c.irecvs tag next);
          counted = ground (arith, several, flags, w.counted);
          bounded = w.bounded;
          right = λ t h k. elim (ℕ_discrete tag t) [
            | yes same ↦ ground (
              arith,
              same,
              several,
              count_left,
              same_next,
              w.one_each,
              get_or-set ks tag t (get_or ks tag 0 - 1) 0 inside,
              get_or-set c.irecvs tag t next (0, 0),
            )
            | no other ↦ ground (
              arith,
              other,
              h,
              k,
              length-set ks tag (get_or ks tag 0 - 1),
              w.one_each,
              get_or-set ks tag t (get_or ks tag 0 - 1) 0 inside,
              get_or-set c.irecvs tag t next (0, 0),
              w.right t,
            )
          ];
        };
        same_account = λ f. ground (
          arith,
          several,
          first_then_left f,
          same_next,
          wanted-here f (get_or ks tag 0 - 1) next,
          same_anyone,
        );
      }

  completed-Receives : message.size ≤ c.max_mpi_msg_size → Receives tag ks c (n - 1) completed
  completed-Receives small =
      let single : get_or ks tag 0 ≡ 1 =
        omega (arith, count_left, ap length (left-none c.max_mpi_msg_size message small)) in
      record {
        same_size = refl;
        same_indices = refl;
        same_sends = refl;
        same_sent = refl;
        dealt = record {
          one_each = length-set ks tag (get_or ks tag 0 - 1) ∙ w.one_each;
          counted = ground (arith, single, flags, w.counted);
          bounded = omega (arith, w.bounded);
          right = λ t h k. elim (ℕ_discrete tag t) [
            | yes same ↦
                ground (arith, same, single, k, get_or-set ks tag t (get_or ks tag 0 - 1) 0 inside)
            | no other ↦ ground (
              arith,
              other,
              h,
              k,
              length-set ks tag (get_or ks tag 0 - 1),
              get_or-set ks tag t (get_or ks tag 0 - 1) 0 inside,
              w.right t,
            )
          ];
        };
        same_account = λ f. ground (
          arith,
          single,
          first_then_left f,
          ap (total f) (left-none c.max_mpi_msg_size message small),
          set-same c.irecvs tag (0, 0),
          wanted-here f (get_or ks tag 0 - 1) entry,
          same_anyone,
        );
      }

  -- The reception of a piece that is due.
  pub receive-Receives :
      (m : ℕ) × (d : Comm) × (receive true src tag n c ≡ returns (m, d)) × Receives tag ks c m d
  receive-Receives = elim (dec_le message.size c.max_mpi_msg_size) [
    | yes small ↦
        let waits : 0 < n = ground (arith, w.counted, total-at flag ks tag 0 inside, due) in
        let less : (n + size_mod - 1) % size_mod ≡ n - 1 = omega (arith, w.bounded, waits) in
        (
          n - 1,
          completed,
          receive-completed small ∙ ap (λ k. returns (k, completed)) less,
          completed-Receives small,
        )
    | no large ↦ (n, continued, receive-continued (omega arith), continued-Receives (omega arith))
  ]
