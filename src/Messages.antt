-- ===== src/Messages.antt =====
-- The messages of `Comm::Impl` in src/MPI/mpilib.cpp: `isend` and `irecv` enqueue, and `iwaitall`
-- finishes them. A message with more bytes than MPI may be given at once goes in pieces. What MPI
-- answers is an argument: its return codes, which requests MPI_Testsome finds completed, and which
-- message MPI_Iprobe finds. An address is a number, and so is a tag, which is never negative.
pub mod Dequeue
pub mod Pieces
pub mod Rounds
pub mod Wants
pub mod Receives
pub mod Answers
pub mod Turns
pub mod Ends
pub mod Waitall
mod Tests
use talpf.Prelude.{
  ℕ, zero, suc, ◌+◌, ◌-◌, ◌%◌, ◌^◌, Bool, true, false, not, ◌&&◌, ◌||◌, Option, some, none, List,
  [], ◌∷◌, ◌++◌, length, get_elem?, get_or, set, take, resize, swap_pop, ltb, leb, ◌==◌,
  if◌then◌else◌, size_mod, Exec, returns, throws, fault, bad_alloc, mpi_error, on_return,
}
use Prim.Native.Nat.{min as min_of, max as max_of}

-- `Send`, and also what MPI_Isend or MPI_Recv is called with: for MPI_Recv the process is the source.
pub record Send : Type 0 where
  pub addr : ℕ
  pub size : ℕ
  pub dst_pid : ℕ
  pub tag : ℕ

-- An element of `m_largeSends` with its element of `m_largeRequests`: the two vectors are pushed,
-- swapped and popped together. A request is active, or MPI_REQUEST_NULL.
pub record Large : Type 0 where
  pub send : Send
  pub active : Bool

-- The fields that messages use, with the calls of MPI_Isend and MPI_Recv, the last one first.
pub record Comm : Type 0 where
  pub max_mpi_msg_size : ℕ
  pub send_indices : List ℕ
  pub imsgs : List Bool
  pub irecvs : List (ℕ × ℕ)
  pub empty_recvs : ℕ
  pub large_sends : List Large
  pub sent : List Send
  pub received : List Send

-- `Comm::Impl::reserveMsgs`; `reserves` and `grows` say whether the memory is there.
unfoldable pub reserve_impl : Bool → Bool → ℕ → Comm → Exec Comm
reserve_impl reserves grows max_number c =
    if ltb (2 ^ 31 - 1) max_number
    then throws bad_alloc c
    else if not reserves
    then throws bad_alloc c
    else if ltb (length c.send_indices) max_number
    then (elim (resize grows max_number 0 c.send_indices) [
      | none ↦ throws bad_alloc c
      | some xs ↦ returns (record c { send_indices = xs })
    ])
    else returns c

-- `Comm::reserveMsgs`, which passes a size_t on as an unsigned.
unfoldable pub reserve_msgs : Bool → Bool → ℕ → Comm → Exec Comm
unfolding reserve_impl
reserve_msgs reserves grows n c = reserve_impl reserves grows (n % 2 ^ 32) c

-- `isend`; `accepts` says whether MPI_Isend succeeds.
unfoldable pub isend : Bool → ℕ → ℕ → ℕ → ℕ → Comm → Exec Comm
isend accepts buf bytes dest_pid tag c =
    let size : ℕ = min_of c.max_mpi_msg_size bytes in
    let first : Send = record { addr = buf; size = size; dst_pid = dest_pid; tag = tag } in
    let d : Comm = if ltb 0 size then record c { sent = first ∷ c.sent } else c in
    let request : Bool = ltb 0 size in
    if ltb 0 size && not accepts
    then throws mpi_error d
    else if ltb size bytes
    then (if ltb c.max_mpi_msg_size bytes
        then returns (record d {
          large_sends =
              d.large_sends
              ++ record { send = record first { size = bytes }; active = request } ∷ [];
        })
        else fault)
    else returns (record d { imsgs = d.imsgs ++ request ∷ [] })

-- `irecv`
unfoldable pub irecv : ℕ → ℕ → ℕ → ℕ → Comm → Exec Comm
irecv buf bytes src_pid tag c =
    if tag == length c.irecvs
    then returns (record c {
      irecvs = c.irecvs ++ (buf, bytes) ∷ [];
      empty_recvs = if bytes == 0 then c.empty_recvs + 1 else c.empty_recvs;
    })
    else fault

-- What is left of a message once a piece has gone.
unfoldable pub advance : ℕ → Send → Send
advance max_size s = record s { addr = s.addr + max_size; size = s.size - max_size }

-- The first piece of a message.
unfoldable pub head_of : ℕ → Send → Send
head_of max_size s = record s { size = min_of max_size s.size }

-- The entry of which a piece more is sent. Its last piece has a request among those of the small
-- messages.
unfoldable pub forward : Bool → ℕ → Comm → Exec Comm
forward accepts i c = elim (get_elem? c.large_sends i) [
  | none ↦ fault
  | some l ↦
      if ltb c.max_mpi_msg_size l.send.size
      then (let rest : Send = advance c.max_mpi_msg_size l.send in
          let last : Bool = leb rest.size c.max_mpi_msg_size in
          let d : Comm = record c {
            imsgs = if last then c.imsgs ++ true ∷ [] else c.imsgs;
            large_sends =
                set c.large_sends i
                  (record { send = rest; active = if last then l.active else true });
            sent = head_of c.max_mpi_msg_size rest ∷ c.sent;
          } in
          if accepts then returns d else throws mpi_error d)
      else fault
]

-- The loop on what MPI_Testsome found, each index with the answer of MPI_Isend.
unfoldable pub forwards : List (ℕ × Bool) → Comm → Exec Comm
forwards [] c = returns c
forwards ((i, accepts) ∷ ready) c = on_return (forward accepts i c) (λ d. forwards ready d)

-- MPI_Testsome sets the requests it found to MPI_REQUEST_NULL.
unfoldable pub complete : List (ℕ × Bool) → List Large → List Large
complete [] ls = ls
complete ((i, accepts) ∷ ready) ls = elim (get_elem? ls i) [
  | none ↦ complete ready ls
  | some l ↦ complete ready (set ls i (record l { active = false }))
]

-- The loop that dequeues what has no request, from the end on.
unfoldable pub dequeue : ℕ → List Large → Option (List Large)
dequeue zero ls = some ls
dequeue (suc i) ls = elim (get_elem? ls i) [
  | none ↦ none
  | some l ↦ if l.active then dequeue i ls else dequeue i (swap_pop i l ls)
]

-- The reception of the next piece; `succeeds` is the answer of MPI_Recv. The number counts the
-- messages that are not yet received.
unfoldable pub receive : Bool → ℕ → ℕ → ℕ → Comm → Exec (ℕ × Comm)
receive succeeds src_pid tag n c = elim (get_elem? c.irecvs tag) [
  | none ↦ fault
  | some p ↦
      let piece : Send = record {
        addr = p.0;
        size = min_of c.max_mpi_msg_size p.1;
        dst_pid = src_pid;
        tag = tag;
      } in
      let d : Comm = record c { received = piece ∷ c.received } in
      if p.1 == 0
      then fault
      else if not succeeds
      then throws mpi_error (n, d)
      else if ltb c.max_mpi_msg_size p.1
      then returns (
        n,
        record d { irecvs = set d.irecvs tag (p.0 + c.max_mpi_msg_size, p.1 - c.max_mpi_msg_size) },
      )
      else returns ((n + size_mod - 1) % size_mod, d)
]

-- What MPI answers in one round: whether MPI_Testsome succeeds and what it finds, whether MPI_Iprobe
-- succeeds, the source and the tag of the message that it finds, and whether MPI_Recv succeeds.
pub record Round : Type 0 where
  pub tested : Bool
  pub ready : List (ℕ × Bool)
  pub probed : Bool
  pub found : Option (ℕ × ℕ)
  pub succeeds : Bool

-- The second half of a round, from the dequeuing on.
unfoldable pub after_sends : Round → ℕ → Comm → Exec (ℕ × Comm)
after_sends r n c = elim (dequeue (length c.large_sends) c.large_sends) [
  | none ↦ fault
  | some ls ↦
      let d : Comm = record c { large_sends = ls } in
      if not r.probed
      then throws mpi_error (n, d)
      else (elim r.found [ none ↦ returns (n, d) | some p ↦ receive r.succeeds p.0 p.1 n d ])
]

-- `forwards` and what follows it.
unfoldable pub then_receive : Round → ℕ → Exec Comm → Exec (ℕ × Comm)
then_receive r n (returns d) = after_sends r n d
then_receive r n (throws e d) = throws e (n, d)
then_receive r n fault = fault

-- The body of the loop of `iwaitall`.
unfoldable pub round : Round → ℕ → Comm → Exec (ℕ × Comm)
unfolding then_receive
round r n c =
    if not (leb (length c.large_sends) (length c.send_indices))
    then fault
    else if not r.tested
    then throws mpi_error (n, c)
    else then_receive r n
        (forwards r.ready (record c { large_sends = complete r.ready c.large_sends }))

-- `nMsgs > 0 || !m_largeSends.empty()`
abbrev pub waits : ℕ → Comm → Bool
waits n c = ltb 0 n || ltb 0 (length c.large_sends)

-- The loop, over as many rounds; `none`: it still waits after them.
unfoldable pub wait_loop : List Round → ℕ → Comm → Option (Exec (ℕ × Comm))
wait_loop [] n c = if waits n c then none else some (returns (n, c))
wait_loop (r ∷ rs) n c =
    if waits n c
    then (elim (round r n c) [
      | returns (m, d) ↦ wait_loop rs m d
      | throws e p ↦ some (throws e p)
      | fault ↦ some fault
    ])
    else some (returns (n, c))

-- What `iwaitall` does after the loop; `finished` and `met` are the answers of MPI_Waitall and
-- MPI_Barrier.
unfoldable pub finish : Bool → Bool → Exec (ℕ × Comm) → Exec Comm
finish finished met (returns (n, c)) =
    let d : Comm = record c { irecvs = []; empty_recvs = 0 } in
    if ltb 0 (length c.large_sends)
    then fault
    else if not finished
    then throws mpi_error d
    else if not met
    then throws mpi_error (record d { imsgs = [] })
    else returns (record d { imsgs = [] })
finish finished met (throws e (n, c)) = throws e c
finish finished met fault = fault

-- `iwaitall`
unfoldable pub iwaitall : List Round → Bool → Bool → Comm → Option (Exec Comm)
unfolding finish
iwaitall rs finished met c =
    elim (wait_loop rs ((length c.irecvs + size_mod - c.empty_recvs) % size_mod) c) [
      | none ↦ none
      | some x ↦ some (finish finished met x)
    ]
