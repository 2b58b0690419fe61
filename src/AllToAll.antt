-- ===== src/AllToAll.antt =====
-- The sparse all-to-all of `Comm` in src/MPI/mpilib.cpp, the NBX algorithm: each process sends its
-- messages in pieces, by synchronous sends, receives what comes, enters a barrier once all its pieces
-- have been received, and is done when the barrier is. What MPI answers is an argument.
pub mod Account
pub mod Culls
pub mod Rounds
pub mod Ends
pub mod Whole
mod Tests
use talpf.Prelude.{
  ℕ, zero, suc, ◌+◌, ◌-◌, Bool, true, false, not, ◌&&◌, Option, some, none, List, [], ◌∷◌, ◌++◌,
  length, get_elem?, get_or, set, take, ltb, ◌==◌, if◌then◌else◌, Exec, returns, throws, fault,
  mpi_error, on_return, swap_pop,
}
use Prim.Native.Nat.{min as min_of}

-- One index of `sendOffsets`, `sendCounts`, `sendPids` and `sendRequests`. A request is active, or
-- MPI_REQUEST_NULL.
pub record Outgoing : Type 0 where
  pub offset : ℕ
  pub count : ℕ
  pub pid : ℕ
  pub active : Bool

-- What MPI_Issend is called with.
pub record Piece : Type 0 where
  pub from : ℕ
  pub bytes : ℕ
  pub to : ℕ

-- The variables, with the first `nSends` elements of the arrays, and the calls of MPI_Issend and
-- MPI_Recv (the source and the number of bytes), the last one first.
pub record Exchange : Type 0 where
  pub sends : List Outgoing
  pub posted : List Piece
  pub recv_size : ℕ
  pub received : ℕ
  pub arrivals : List (ℕ × ℕ)
  pub barrier_active : Bool
  pub barrier_done : Bool

module _ (max_msg_size : ℕ) where
  -- The piece that is sent next, and what is left then.
  unfoldable pub next_piece : Outgoing → Piece
  next_piece s = record { from = s.offset; bytes = min_of max_msg_size s.count; to = s.pid }

  unfoldable pub after_piece : Outgoing → Outgoing
  after_piece s =
      let n : ℕ = min_of max_msg_size s.count in
      record s {
        offset = s.offset + n;
        count = s.count - n;
        active = if ltb 0 n then true else s.active;
      }

  -- The first loop, for each message with the answer of MPI_Issend. The requests are
  -- MPI_REQUEST_NULL before.
  unfoldable pub start : List (Outgoing × Bool) → Exchange → Exec Exchange
  start [] x = returns x
  start ((s, accepts) ∷ rest) x =
      let n : ℕ = min_of max_msg_size s.count in
      let y : Exchange = record x {
        sends = x.sends ++ after_piece s ∷ [];
        posted = if ltb 0 n then next_piece s ∷ x.posted else x.posted;
      } in
      let others : Exec Exchange = start rest y in
      if ltb 0 n && not accepts then throws mpi_error x else others

  -- The next piece of a message, if there is one; `accepts` is the answer of MPI_Issend.
  unfoldable pub resume : Bool → ℕ → Exchange → Exec Exchange
  resume accepts j x = elim (get_elem? x.sends j) [
    | none ↦ fault
    | some s ↦
        if ltb 0 s.count
        then (if accepts
            then returns (record x {
              sends = set x.sends j (record (after_piece s) { active = true });
              posted = next_piece s ∷ x.posted;
            })
            else throws mpi_error x)
        else returns x
  ]

  -- The loop on what MPI_Testsome found.
  unfoldable pub resumes : List (ℕ × Bool) → Exchange → Exec Exchange
  resumes [] x = returns x
  resumes ((j, accepts) ∷ indices) x = on_return (resume accepts j x) (λ y. resumes indices y)

-- MPI_Testsome sets the requests it found to MPI_REQUEST_NULL.
unfoldable pub complete : List (ℕ × Bool) → List Outgoing → List Outgoing
complete [] ss = ss
complete ((j, accepts) ∷ indices) ss = elim (get_elem? ss j) [
  | none ↦ complete indices ss
  | some s ↦ complete indices (set ss j (record s { active = false }))
]

-- The loop that takes messages out that are sent and received, from an index on: each is swapped
-- with the last one, and left out. It has fuel.
unfoldable pub cull : ℕ → ℕ → List Outgoing → Option (List Outgoing)
cull zero i ss = none
cull (suc fuel) i ss = elim (get_elem? ss i) [
  | none ↦ some ss
  | some s ↦
      if s.count == 0 && not s.active then cull fuel i (swap_pop i s ss) else cull fuel (suc i) ss
]

-- What MPI answers in one round: whether MPI_Iprobe succeeds, the source and the size of the message
-- that it finds, whether MPI_Get_count and MPI_Recv succeed; then MPI_Testsome and what it finds, and
-- MPI_Ibarrier; or MPI_Test, and whether the barrier is done.
pub record Turn : Type 0 where
  pub probed : Bool
  pub found : Option (ℕ × ℕ)
  pub counted : Bool
  pub taken : Bool
  pub tested : Bool
  pub indices : List (ℕ × Bool)
  pub starts : Bool
  pub asked : Bool
  pub finished : Bool

-- The reception.
unfoldable pub receive : Turn → Exchange → Exec Exchange
receive t x = if not t.probed then throws mpi_error x else (elim t.found [
  | none ↦ returns x
  | some m ↦
      if not t.counted
      then throws mpi_error x
      else if ltb x.recv_size m.1
      then throws mpi_error x
      else if not t.taken
      then throws mpi_error x
      else returns (record x {
        recv_size = x.recv_size - m.1;
        received = x.received + m.1;
        arrivals = m ∷ x.arrivals;
      })
])

-- The end of the sends, once the loops on them ran.
unfoldable pub enter_barrier : Turn → Exchange → Exec Exchange
enter_barrier t x = elim (cull (suc (length x.sends)) 0 x.sends) [
  | none ↦ fault
  | some ss ↦
      let y : Exchange = record x { sends = ss } in
      if length ss == 0
      then (if t.starts then returns (record y { barrier_active = true }) else throws mpi_error y)
      else returns y
]

-- The second half of a round.
unfoldable pub progress : ℕ → Turn → Exchange → Exec Exchange
unfolding enter_barrier
progress max_msg_size t x =
    if not x.barrier_active
    then (if not t.tested
        then throws mpi_error x
        else on_return
            (resumes max_msg_size t.indices (record x { sends = complete t.indices x.sends }))
            (λ y. enter_barrier t y))
    else if t.asked
    then returns (record x { barrier_done = t.finished })
    else throws mpi_error x

unfoldable pub turn : ℕ → Turn → Exchange → Exec Exchange
unfolding receive progress
turn max_msg_size t x = on_return (receive t x) (λ y. progress max_msg_size t y)

-- The loop, over as many rounds; `none`: the barrier is not done after them.
unfoldable pub turns : ℕ → List Turn → Exchange → Option (Exec Exchange)
turns max_msg_size [] x = if x.barrier_done then some (returns x) else none
turns max_msg_size (t ∷ ts) x =
    if x.barrier_done then some (returns x) else (elim (turn max_msg_size t x) [
      | returns y ↦ turns max_msg_size ts y
      | throws e y ↦ some (throws e y)
      | fault ↦ some fault
    ])

-- What the variables are before the first loop.
abbrev pub resting : ℕ → Exchange
resting recv_size = record {
  sends = [];
  posted = [];
  recv_size = recv_size;
  received = 0;
  arrivals = [];
  barrier_active = false;
  barrier_done = false;
}

-- `Comm::allToAll`, with enough temporary space.
unfoldable pub all_to_all : ℕ → List (Outgoing × Bool) → ℕ → List Turn → Option (Exec Exchange)
unfolding start turns
all_to_all max_msg_size messages recv_size ts =
    elim (start max_msg_size messages (resting recv_size)) [
      | returns x ↦ turns max_msg_size ts x
      | throws e x ↦ some (throws e x)
      | fault ↦ some fault
    ]
