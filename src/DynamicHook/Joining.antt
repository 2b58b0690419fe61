-- ===== src/DynamicHook/Joining.antt =====
-- `dynamicHook` of src/MPI/dynamichook.cpp once the sockets are connected: the collective calls by
-- which one client after another joins the communicator of the server.
use talpf.Prelude.{
  ℕ, zero, suc, ◌+◌, ◌-◌, Bool, true, false, ◌&&◌, Option, some, none, List, [], ◌∷◌, if◌then◌else◌,
  ◌==◌,
}
use talpf.DynamicHook.{HookResult, gives, hook_exception, waits, fault, and_then}

-- A collective call of MPI: on the port, on the intercommunicator (true for the side that comes
-- last), the reduction of `success`, and the renumbering by a key.
pub data MpiCall : Type 0 where
  comm_accept comm_connect : MpiCall
  intercomm_merge : Bool → MpiCall
  allreduce_and : Bool → MpiCall
  comm_split : ℕ → MpiCall

-- What the server sends to a client: whether the name of the port and the number are written, and
-- whether the socket is shut down and closed.
pub record Sent : Type 0 where
  pub port_name : Bool
  pub number : Bool
  pub shuts_down : Bool
  pub closes : Bool

abbrev pub is_sent : Sent → Bool
is_sent s = s.port_name && (s.number && (s.shuts_down && s.closes))

-- The rest of a round of the loop of `dynamicHook`, from the reduction on; `all` is its answer.
unfoldable pub admit : Bool → Bool → List MpiCall → List MpiCall
admit own all calls =
    if all
    then intercomm_merge false ∷ comm_accept ∷ allreduce_and own ∷ calls
    else allreduce_and own ∷ calls

-- A round of the loop with the size of the communicator, which grows by the client that joins. After
-- that is the ASSERT that the size is `p + 1`.
unfoldable pub round : Bool → Bool → ℕ → ℕ → List MpiCall → HookResult (ℕ × List MpiCall)
unfolding admit
round own all p size calls =
    if all
    then (if suc size == p + 1 then gives (suc size, admit own all calls) else fault)
    else gives (size, admit own all calls)

-- The loop of the server from process `p` on, with what it sends, the answers of the reductions and
-- the size of the communicator, which the ASSERT at the top compares with `p`. The calls are written
-- down with the last one first.
unfoldable pub serve : List Sent → List Bool → ℕ → ℕ → List MpiCall → HookResult (List MpiCall)
unfolding round
serve [] answers p size calls = gives calls
serve (s ∷ sent) [] p size calls = if size == p then waits else fault
serve (s ∷ sent) (all ∷ answers) p size calls =
    if size == p
    then and_then (round (is_sent s) all p size calls)
        (λ (n, later). serve sent answers (suc p) n later)
    else fault

-- The loop of a client from process `p` on, with so many rounds.
unfoldable pub follow : ℕ → List Bool → ℕ → ℕ → List MpiCall → HookResult (List MpiCall)
unfolding round
follow zero answers p size calls = gives calls
follow (suc k) [] p size calls = if size == p then waits else fault
follow (suc k) (all ∷ answers) p size calls =
    if size == p
    then and_then (round true all p size calls) (λ (n, later). follow k answers (suc p) n later)
    else fault

-- `dynamicHook` of process 0 once its clients are there, alone in its communicator; what it sends is
-- for each of them.
unfoldable pub hook_server : List Sent → List Bool → HookResult (List MpiCall)
unfolding serve
hook_server sent answers =
    and_then (serve sent answers 1 1 []) (λ calls. gives (comm_split 0 ∷ calls))

-- `dynamicHook` of another process, with the number that the server sends, `none` if it does not
-- come as a whole, and the size of the communicator that it joins, itself included.
unfoldable pub hook_client :
    ℕ → ℕ → HookResult ℕ → Option ℕ → ℕ → List Bool → HookResult (List MpiCall)
unfolding follow
hook_client pid nprocs (gives s) (some p) size answers =
    and_then
      (follow (nprocs - (p + 1)) answers (p + 1) size (intercomm_merge true ∷ comm_connect ∷ []))
      (λ calls. gives (comm_split pid ∷ calls))
hook_client pid nprocs (gives s) none size answers = hook_exception
hook_client pid nprocs hook_exception p size answers = hook_exception
hook_client pid nprocs waits p size answers = waits
hook_client pid nprocs fault p size answers = fault
