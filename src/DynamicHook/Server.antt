-- ===== src/DynamicHook/Server.antt =====
-- The server and the clients in src/MPI/dynamichook.cpp until their sockets are connected.
use talpf.Prelude.{
  ℕ, suc, ◌-◌, Bool, true, false, not, ◌&&◌, Option, some, none, List, [], ◌∷◌, length, get_elem?,
  replicate, set?, ltb, ◌==◌, if◌then◌else◌, every,
}
use talpf.DynamicHook.{
  HookResult, gives, hook_exception, waits, fault, magic_client, magic_server, is_bytes, buffer,
  read_all, and_then,
}

-- A socket that is ready: the descriptor that accept gives, whether the server's word is written,
-- and what each call of read on the connection gives.
pub record Arrival : Type 0 where
  pub fd : Option ℕ
  pub writes : Bool
  pub reads : List (List ℕ)

-- The test after `readAll`, with the bytes that it read.
abbrev pub is_client : Bool → List ℕ → Bool
is_client writes got = writes && (ltb 0 (length got) && is_bytes (buffer 14 got) magic_client)

-- `p`, `connections`, with `none` for -1, `success`, and the sockets that were closed.
pub record Lobby : Type 0 where
  pub next : ℕ
  pub connections : List (Option ℕ)
  pub success : List Bool
  pub closed : List ℕ

-- The client is process `p`.
unfoldable pub seat : ℕ → Lobby → HookResult Lobby
seat fd l = elim (set? l.connections l.next (some fd)) [
  | none ↦ fault
  | some cs ↦ elim (set? l.success l.next true) [
    | none ↦ fault
    | some ss ↦ gives (record l { next = suc l.next; connections = cs; success = ss })
  ]
]

-- What is done with an accepted connection after `readAll`.
unfoldable pub receive : ℕ → Bool → Lobby → List ℕ → HookResult Lobby
unfolding is_bytes seat
receive fd writes l got =
    if is_client writes got then seat fd l else gives (record l { closed = fd ∷ l.closed })

-- The loop over the ready sockets; the server waits for as long as a connection is silent.
unfoldable pub greet : List Arrival → Lobby → HookResult Lobby
unfolding receive read_all
greet [] l = gives l
greet (a ∷ rest) l = elim a.fd [
  | none ↦ greet rest l
  | some fd ↦ and_then (and_then (read_all 14 a.reads) (receive fd a.writes l)) (greet rest)
]

-- The answer of poll: the sockets that are ready, none after the time is over, or an error.
pub data Polled : Type 0 where
  ready : List Arrival → Polled
  timed_out poll_failed : Polled

-- The body of the loop, after `continue` is ruled out.
unfoldable pub poll_once : Polled → Lobby → HookResult Lobby
unfolding greet
poll_once (ready arrivals) l = greet arrivals l
poll_once timed_out l = gives l
poll_once poll_failed l = gives l

-- The loop while `p < nprocs`, over the answers of poll; `continue` does not change `p`, and so it
-- goes on for ever.
unfoldable pub accept_loop : ℕ → List Polled → Lobby → HookResult Lobby
unfolding poll_once
accept_loop nprocs [] l = if ltb l.next nprocs then waits else gives l
accept_loop nprocs (polled ∷ rest) l =
    let others : HookResult Lobby = and_then (poll_once polled l) (accept_loop nprocs rest) in
    if ltb l.next nprocs
    then elim (get_elem? l.success l.next) [
      | none ↦ fault
      | some true ↦ waits
      | some false ↦ others
    ]
    else gives l

-- What the clients are told at the end: the connections that are written to, and `OK`.
abbrev pub told_all : ℕ → List (Option ℕ) → List (Option ℕ × ℕ)
told_all ok [] = []
told_all ok (c ∷ cs) = (c, ok) ∷ told_all ok cs

-- `serverAcceptsClients` from the loop on, where there is a server socket: the connections, and what
-- is written to them, unless somebody is missing.
unfoldable pub accept_clients :
    ℕ → List Polled → Lobby → HookResult (List (Option ℕ) × List (Option ℕ × ℕ))
unfolding accept_loop
accept_clients nprocs polls l = elim (accept_loop nprocs polls l) [
  | gives m ↦
      if every m.success then gives (m.connections, told_all 1 m.connections) else hook_exception
  | hook_exception ↦ hook_exception
  | waits ↦ waits
  | fault ↦ fault
]

-- `success` and `connections` at first.
abbrev pub lobby : ℕ → Lobby
lobby nprocs = record {
  next = 1;
  connections = replicate nprocs none;
  success = true ∷ replicate (nprocs - 1) false;
  closed = [];
}

-- One try of a client to connect: the socket, whether connect works, what is read of the server's
-- word, whether the client's word is written, and the number that `OK` then is, `none` if it is not
-- read.
pub record Attempt : Type 0 where
  pub socket : Option ℕ
  pub connects : Bool
  pub got : List ℕ
  pub writes : Bool
  pub ok : Option ℕ

abbrev pub is_confirmed : Option ℕ → Bool
is_confirmed none = false
is_confirmed (some n) = not (n == 0)

abbrev pub is_server : Attempt → Bool
is_server a =
    a.connects && (a.writes && (ltb 0 (length a.got) && is_bytes (buffer 14 a.got) magic_server))

-- `clientConnectsToServer`, with its tries in the time that there is.
unfoldable pub connect_to_server : List Attempt → HookResult ℕ
unfolding is_bytes
connect_to_server [] = hook_exception
connect_to_server (a ∷ rest) = elim a.socket [
  | none ↦ connect_to_server rest
  | some s ↦
      let later : HookResult ℕ = connect_to_server rest in
      if is_server a && is_confirmed a.ok then gives s else later
]
