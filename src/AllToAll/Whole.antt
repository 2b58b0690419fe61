-- ===== src/AllToAll/Whole.antt =====
-- `Comm::allToAll` of src/MPI/mpilib.cpp as a whole.
use talpf.Prelude.{ℕ, ◌+◌, ◌≡◌, Bool, false, List, [], ◌∷◌, length, total}
use Prim.Native.Nat.{min as min_of}
use talpf.AllToAll.{Outgoing, Piece, Exchange}
use talpf.AllToAll.Account.{chunks, account, due, owed}

-- Each request is MPI_REQUEST_NULL.
abbrev pub AllNull : List (Outgoing × Bool) → Type 0
AllNull [] = Unit
AllNull (p ∷ messages) = (p.0.active ≡ false) × AllNull messages

-- The sum over all pieces of the messages.
abbrev pub all_pieces : (Piece → ℕ) → ℕ → List (Outgoing × Bool) → ℕ
all_pieces f m messages = total (λ p. owed f m p.0) messages

-- What the first loop makes of a state.
record Starts (m : ℕ) (messages : List (Outgoing × Bool)) (x y : Exchange) : Type 0 where
  adds : (f : Piece → ℕ) → account f m y ≡ account f m x + all_pieces f m messages
  owes : due m y ≡ due m x + total (λ p. length (chunks m p.0)) messages
  same_active : y.barrier_active ≡ x.barrier_active
  same_done : y.barrier_done ≡ x.barrier_done
  same_size : y.recv_size ≡ x.recv_size
  same_received : y.received ≡ x.received
