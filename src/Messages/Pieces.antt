-- ===== src/Messages/Pieces.antt =====
-- The pieces in which src/MPI/mpilib.cpp sends or receives a message, and their sum over what is
-- sent and what is still to be sent.
use talpf.Prelude.{
  ℕ, zero, suc, ◌+◌, ◌-◌, ◌≤◌, ◌<◌, ◌≡◌, refl, ◌∙◌, ap, true, false, List, [], ◌∷◌, ◌++◌, length,
  get_or, length-append, total, total-append, ◌==◌, if◌then◌else◌, arith, returns,
}
use Prim.Native.Nat.{min as min_of}
use native.Mathlib.Decide.{dec_lt}
use talpf.Messages.{Send, Large, Comm, advance, head_of, isend}

-- The pieces of a message, of which there are at most as many as the number says.
unfoldable pub pieces : ℕ → ℕ → Send → List Send
pieces zero max_size s = []
pieces (suc n) max_size s =
    if s.size == 0 then [] else head_of max_size s ∷ pieces n max_size (advance max_size s)

-- The pieces of a message: from its first byte on as many bytes as MPI takes, and at last the rest.
abbrev pub chunks : ℕ → Send → List Send
chunks max_size s = pieces s.size max_size s

-- The pieces after the first.
abbrev pub left : ℕ → Send → List Send
left max_size s = chunks max_size (advance max_size s)

pieces-enough :
    (n m max_size : ℕ) (s : Send)
    → 0 < max_size
    → s.size ≤ n
    → s.size ≤ m
    → pieces n max_size s ≡ pieces m max_size s
unfolding pieces advance
pieces-enough zero zero max_size s pos h k = refl
pieces-enough zero (suc m) max_size s pos h k = ground arith
pieces-enough (suc n) zero max_size s pos h k = ground arith
pieces-enough (suc n) (suc m) max_size s pos h k =
    ap (λ rest. if s.size == 0 then [] else head_of max_size s ∷ rest)
      (pieces-enough n m max_size (advance max_size s) pos (omega arith) (omega arith))

pub chunks-left :
    (max_size : ℕ) (s : Send)
    → 0 < max_size
    → 0 < s.size
    → chunks max_size s ≡ head_of max_size s ∷ left max_size s
unfolding pieces advance
chunks-left max_size s pos some_bytes =
    pieces-enough s.size (suc s.size) max_size s pos (omega arith) (omega arith)
    ∙ ground (
      arith,
      pieces-enough s.size (s.size - max_size) max_size (advance max_size s) pos (omega arith)
          (omega arith),
    )

pub chunks-none : (max_size : ℕ) (s : Send) → s.size ≡ 0 → chunks max_size s ≡ []
unfolding pieces
chunks-none max_size s empty = ap (λ n. pieces n max_size s) empty

pub total-chunks :
    (f : Send → ℕ) (max_size : ℕ) (s : Send)
    → 0 < max_size
    → 0 < s.size
    → total f (chunks max_size s) ≡ f (head_of max_size s) + total f (left max_size s)
total-chunks f max_size s pos some_bytes = ap (total f) (chunks-left max_size s pos some_bytes)

-- The pieces have all the bytes.
pub total-size-pieces :
    (n max_size : ℕ) (s : Send)
    → 0 < max_size
    → s.size ≤ n
    → total (λ x. x.size) (pieces n max_size s) ≡ s.size
unfolding pieces advance head_of
total-size-pieces zero max_size s pos h = omega (arith, h)
total-size-pieces (suc n) max_size s pos h =
    ground (arith, pos, h, total-size-pieces n max_size (advance max_size s) pos (omega arith))

-- A message that one piece holds has no more.
pub left-none : (max_size : ℕ) (s : Send) → s.size ≤ max_size → left max_size s ≡ []
unfolding advance
left-none max_size s h = chunks-none max_size (advance max_size s) (omega arith)

-- The entry waits for more than a piece, and has a request.
abbrev pub IsLarge : ℕ → Large → Type 0
IsLarge max_size l = (l.active ≡ true) × (max_size < l.send.size)

abbrev pub AllLarge : Comm → Type 0
AllLarge c =
    (j : ℕ) (d : Large)
    → j < length c.large_sends
    → IsLarge c.max_mpi_msg_size (get_or c.large_sends j d)

-- What an entry still adds to the sum.
abbrev pub owed : (Send → ℕ) → ℕ → Large → ℕ
owed f max_size l = total f (left max_size l.send)

-- The sum over the pieces that are sent, and those that are still to be sent.
abbrev pub account : (Send → ℕ) → Comm → ℕ
account f c = total f c.sent + total (owed f c.max_mpi_msg_size) c.large_sends

get_or-snoc :
    (ls : List Large) (l : Large) (j : ℕ) (d : Large)
    → get_or (ls ++ l ∷ []) j d ≡ (if j == length ls then l else get_or ls j d)
get_or-snoc [] l zero d = refl
get_or-snoc [] l (suc j) d = ground arith
get_or-snoc (x ∷ ls) l zero d = ground arith
get_or-snoc (x ∷ ls) l (suc j) d = ground (arith, get_or-snoc ls l j d)

-- What `isend` makes of `c`.
pub record Enqueues (c : Comm) (s : Send) (d : Comm) : Type 0 where
  pub same_size : d.max_mpi_msg_size ≡ c.max_mpi_msg_size
  pub same_indices : d.send_indices ≡ c.send_indices
  pub same_irecvs : d.irecvs ≡ c.irecvs
  pub same_empty : d.empty_recvs ≡ c.empty_recvs
  pub at_most_one : length d.large_sends ≤ suc (length c.large_sends)
  pub all_large : AllLarge c → AllLarge d
  pub adds : (f : Send → ℕ) → account f d ≡ account f c + total f (chunks c.max_mpi_msg_size s)

module _ (buf bytes dest_pid tag : ℕ) (c : Comm) (pos : 0 < c.max_mpi_msg_size) where
  abbrev message : Send
  message = record { addr = buf; size = bytes; dst_pid = dest_pid; tag = tag }

  -- `isend` succeeds if MPI_Isend does.
  pub isend-Enqueues :
      (d : Comm) × (isend true buf bytes dest_pid tag c ≡ returns d) × Enqueues c message d
  unfolding isend head_of
  isend-Enqueues = elim (dec_lt 0 bytes) [
    | no empty ↦
        let d : Comm = record c { imsgs = c.imsgs ++ false ∷ [] } in
        (
          d,
          ground arith,
          record {
            same_size = refl;
            same_indices = refl;
            same_irecvs = refl;
            same_empty = refl;
            at_most_one = omega arith;
            all_large = λ h. h;
            adds = λ f. ground (arith, chunks-none c.max_mpi_msg_size message (omega arith));
          },
        )
    | yes full ↦ elim (dec_lt c.max_mpi_msg_size bytes) [
      | no small ↦
          let d : Comm = record c {
            sent = record message { size = min_of c.max_mpi_msg_size bytes } ∷ c.sent;
            imsgs = c.imsgs ++ true ∷ [];
          } in
          (
            d,
            ground arith,
            record {
              same_size = refl;
              same_indices = refl;
              same_irecvs = refl;
              same_empty = refl;
              at_most_one = omega arith;
              all_large = λ h. h;
              adds = λ f. omega (
                arith,
                total-chunks f c.max_mpi_msg_size message pos full,
                ap (total f) (left-none c.max_mpi_msg_size message (omega arith)),
              );
            },
          )
      | yes large ↦
          let l : Large = record { send = message; active = true } in
          let d : Comm = record c {
            sent = record message { size = min_of c.max_mpi_msg_size bytes } ∷ c.sent;
            large_sends = c.large_sends ++ l ∷ [];
          } in
          (
            d,
            ground arith,
            record {
              same_size = refl;
              same_indices = refl;
              same_irecvs = refl;
              same_empty = refl;
              at_most_one = omega (arith, length-append c.large_sends (l ∷ []));
              all_large = λ h j e k. ground (
                arith,
                large,
                get_or-snoc c.large_sends l j e,
                h j e,
                k,
                length-append c.large_sends (l ∷ []),
              );
              adds = λ f. omega (
                arith,
                total-chunks f c.max_mpi_msg_size message pos full,
                total-append (owed f c.max_mpi_msg_size) c.large_sends (l ∷ []),
              );
            },
          )
    ]
  ]
