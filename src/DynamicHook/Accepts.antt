-- ===== src/DynamicHook/Accepts.antt =====
-- How the server of src/MPI/dynamichook.cpp accepts its clients.
use talpf.Prelude.{
  ℕ, zero, suc, ◌+◌, ◌-◌, ◌<◌, ◌≡◌, refl, ap, sym, Bool, true, false, ◌&&◌, ◌||◌, Option, some,
  none, List, [], ◌∷◌, ◌++◌, length, get_elem?, replicate, set?, take, ltb, if◌then◌else◌, every,
  arith,
}
use mathlib.Core.List.{append-nil, append_assoc}
use talpf.DynamicHook.{HookResult, gives, hook_exception, waits, fault, and_then, read_all}
use talpf.DynamicHook.Server.{
  Arrival, is_client, Lobby, seat, receive, greet, Polled, ready, timed_out, poll_failed, poll_once,
  accept_loop, accept_clients, told_all, lobby,
}

-- What the server does with a connection, and what it has read of it: whether it waits for ever, and
-- whether no read gave more bytes than it was asked for.
abbrev pub is_silent : HookResult (List ℕ) → Bool
is_silent waits = true
is_silent (gives got) = false
is_silent hook_exception = false
is_silent fault = false

abbrev pub is_heard : HookResult (List ℕ) → Bool
is_heard waits = true
is_heard (gives got) = true
is_heard hook_exception = false
is_heard fault = false

abbrev pub is_stuck : Arrival → Bool
is_stuck a = elim a.fd [ none ↦ false | some fd ↦ is_silent (read_all 14 a.reads) ]

abbrev pub stuck : List Arrival → Bool
stuck [] = false
stuck (a ∷ rest) = is_stuck a || stuck rest

-- The socket of a connection that is a client's.
abbrev pub shown : ℕ → Bool → HookResult (List ℕ) → List ℕ
shown fd writes (gives got) = if is_client writes got then fd ∷ [] else []
shown fd writes hook_exception = []
shown fd writes waits = []
shown fd writes fault = []

-- The sockets of the clients that show up, in order, up to the first silent connection.
abbrev pub arrived : List Arrival → List ℕ
arrived [] = []
arrived (a ∷ rest) = elim a.fd [
  | none ↦ arrived rest
  | some fd ↦
      shown fd a.writes (read_all 14 a.reads)
      ++ (if is_silent (read_all 14 a.reads) then [] else arrived rest)
]

abbrev pub clients : List Polled → List ℕ
clients [] = []
clients (ready arrivals ∷ rest) = arrived arrivals ++ (if stuck arrivals then [] else clients rest)
clients (timed_out ∷ rest) = clients rest
clients (poll_failed ∷ rest) = clients rest

abbrev pub heard : List Arrival → Bool
heard [] = true
heard (a ∷ rest) = is_heard (read_all 14 a.reads) && heard rest

-- No read gives more than it is asked for.
abbrev pub all_heard : List Polled → Bool
all_heard [] = true
all_heard (ready arrivals ∷ rest) = heard arrivals && all_heard rest
all_heard (timed_out ∷ rest) = all_heard rest
all_heard (poll_failed ∷ rest) = all_heard rest

-- At most one socket is ready at a time, as with one server socket.
abbrev pub singles : List Polled → Bool
singles [] = true
singles (ready arrivals ∷ rest) = ltb (length arrivals) 2 && singles rest
singles (timed_out ∷ rest) = singles rest
singles (poll_failed ∷ rest) = singles rest

abbrev pub marks : {A : Type 0} → (ℕ → A) → List ℕ → List A
marks f [] = []
marks f (x ∷ xs) = f x ∷ marks f xs

set?-marks :
    {A : Type 0} (f : ℕ → A) (d e : A) (xs : List ℕ) (x : ℕ) (rest : List A)
    → set? (e ∷ (marks f xs ++ d ∷ rest)) (suc (length xs)) (f x)
      ≡ some (e ∷ (marks f (xs ++ x ∷ []) ++ rest))
unfolding set?
set?-marks f d e [] x rest = ground arith
set?-marks f d e (y ∷ xs) x rest = ground (arith, set?-marks f d (f y) xs x rest)

get_elem?-marks :
    {A : Type 0} (f : ℕ → A) (d : A) (xs : List ℕ) (rest : List A)
    → get_elem? (marks f xs ++ d ∷ rest) (length xs) ≡ some d
get_elem?-marks f d [] rest = refl
get_elem?-marks f d (y ∷ xs) rest = get_elem?-marks f d xs rest

every-marks : (xs : List ℕ) → every (marks (λ x. true) xs ++ []) ≡ true
unfolding every
every-marks [] = refl
every-marks (x ∷ xs) = every-marks xs

-- The state with these clients, and room for so many more.
abbrev seated : List ℕ → ℕ → List ℕ → Lobby
seated fds k closed = record {
  next = suc (length fds);
  connections = none ∷ (marks some fds ++ replicate k none);
  success = true ∷ (marks (λ x. true) fds ++ replicate k false);
  closed = closed;
}

-- A round of the loop while there is room: a silent connection, no client, or one.
abbrev Greets : List ℕ → ℕ → Bool → List ℕ → HookResult Lobby → Type 0
Greets fds k true xs r = (xs ≡ []) × (r ≡ waits)
Greets fds k false [] r = (cs : List ℕ) × (r ≡ gives (seated fds (suc k) cs))
Greets fds k false (x ∷ xs) r =
    (xs ≡ []) × ((cs : List ℕ) × (r ≡ gives (seated (fds ++ x ∷ []) k cs)))

length-snoc : (xs : List ℕ) (x : ℕ) → length (xs ++ x ∷ []) ≡ suc (length xs)
length-snoc [] x = refl
length-snoc (y ∷ xs) x = ap suc (length-snoc xs x)

seat-seated :
    (fds : List ℕ) (k : ℕ) (closed : List ℕ) (fd : ℕ)
    → seat fd (seated fds (suc k) closed) ≡ gives (seated (fds ++ fd ∷ []) k closed)
unfolding seat
seat-seated fds k closed fd = ground (
  arith,
  length-snoc fds fd,
  set?-marks some none none fds fd (replicate k none),
  set?-marks (λ (x : ℕ). true) false true fds fd (replicate k false),
)

received_by :
    (fds : List ℕ) (k : ℕ) (closed : List ℕ) (fd : ℕ) (b : Bool)
    → Greets fds k false ((if b then fd ∷ [] else []) ++ []) (
        and_then
          (if b
            then seat fd (seated fds (suc k) closed)
            else gives (record (seated fds (suc k) closed) { closed = fd ∷ closed }))
          (λ l. gives l))
received_by fds k closed fd false = (fd ∷ closed, refl)
received_by fds k closed fd true = (refl, (closed, rw (seat-seated fds k closed fd) refl))

greeted_by :
    (fds : List ℕ) (k : ℕ) (closed : List ℕ) (o : Option ℕ) (writes : Bool)
    (got : HookResult (List ℕ))
    → is_heard got ≡ true
    → Greets fds k
        ((elim o [ none ↦ false | some fd ↦ is_silent got ]) || false)
        (elim o [ none ↦ [] | some fd ↦ shown fd writes got ++ (if is_silent got then [] else []) ])
        (elim o [
          | none ↦ gives (seated fds (suc k) closed)
          | some fd ↦
              and_then (and_then got (receive fd writes (seated fds (suc k) closed))) (λ l. gives l)
        ])
unfolding receive
greeted_by fds k closed none writes got h = (closed, refl)
greeted_by fds k closed (some fd) writes waits h = (refl, refl)
greeted_by fds k closed (some fd) writes (gives got) h =
    received_by fds k closed fd (is_client writes got)
greeted_by fds k closed (some fd) writes hook_exception h = absurd (ground (arith, h))
greeted_by fds k closed (some fd) writes fault h = absurd (ground (arith, h))

greet-Greets :
    (fds : List ℕ) (k : ℕ) (closed : List ℕ) (arrivals : List Arrival)
    → ltb (length arrivals) 2 ≡ true
    → heard arrivals ≡ true
    → Greets fds k (stuck arrivals) (arrived arrivals) (greet arrivals (seated fds (suc k) closed))
unfolding greet
greet-Greets fds k closed [] h e = (closed, refl)
greet-Greets fds k closed (a ∷ b ∷ rest) h e = absurd (ground (arith, h))
greet-Greets fds k closed (a ∷ []) h e =
    greeted_by fds k closed a.fd a.writes (read_all 14 a.reads) (ground (arith, e))

-- There are fewer than so many.
abbrev pub lacks : ℕ → List ℕ → Bool
lacks zero xs = false
lacks (suc k) [] = true
lacks (suc k) (x ∷ xs) = lacks k xs

-- The loop with these clients so far; `few` if there are not enough others.
abbrev Accepted : Bool → List ℕ → HookResult Lobby → Type 0
Accepted true fds r = r ≡ waits
Accepted false fds r = (cs : List ℕ) × (r ≡ gives (seated fds 0 cs))

accept_loop-step :
    (n : ℕ) (polled : Polled) (rest : List Polled) (fds : List ℕ) (k : ℕ) (closed : List ℕ)
    (m : Lobby)
    → n ≡ suc (length fds + suc k)
    → poll_once polled (seated fds (suc k) closed) ≡ gives m
    → accept_loop n (polled ∷ rest) (seated fds (suc k) closed) ≡ accept_loop n rest m
unfolding accept_loop
accept_loop-step n polled rest fds k closed m e f =
    let room : ltb (suc (length fds)) n ≡ true = ground (arith, e) in
    ground (arith, room, f, get_elem?-marks (λ (x : ℕ). true) false fds (replicate k false))

accept_loop-full :
    (n : ℕ) (polls : List Polled) (fds closed : List ℕ)
    → n ≡ suc (length fds + 0)
    → accept_loop n polls (seated fds 0 closed) ≡ gives (seated fds 0 closed)
unfolding accept_loop
accept_loop-full n [] fds closed e =
    let full : ltb (suc (length fds)) n ≡ false = ground (arith, e) in ground (arith, full)
accept_loop-full n (polled ∷ rest) fds closed e =
    let full : ltb (suc (length fds)) n ≡ false = ground (arith, e) in ground (arith, full)

accept_loop-short :
    (n : ℕ) (fds : List ℕ) (k : ℕ) (closed : List ℕ)
    → n ≡ suc (length fds + suc k)
    → accept_loop n [] (seated fds (suc k) closed) ≡ waits
unfolding accept_loop
accept_loop-short n fds k closed e =
    let room : ltb (suc (length fds)) n ≡ true = ground (arith, e) in ground (arith, room)

accept_loop-stuck :
    (n : ℕ) (polled : Polled) (rest : List Polled) (fds : List ℕ) (k : ℕ) (closed : List ℕ)
    → n ≡ suc (length fds + suc k)
    → poll_once polled (seated fds (suc k) closed) ≡ waits
    → accept_loop n (polled ∷ rest) (seated fds (suc k) closed) ≡ waits
unfolding accept_loop
accept_loop-stuck n polled rest fds k closed e f =
    let room : ltb (suc (length fds)) n ≡ true = ground (arith, e) in
    ground (arith, room, f, get_elem?-marks (λ (x : ℕ). true) false fds (replicate k false))

-- A round with a socket that may be ready, and the rounds after it.
greeted-Accepted :
    (n : ℕ) (arrivals : List Arrival) (rest : List Polled) (fds : List ℕ) (k : ℕ) (closed : List ℕ)
    (b : Bool) (xs : List ℕ)
    → n ≡ suc (length fds + suc k)
    → Greets fds k b xs (greet arrivals (seated fds (suc k) closed))
    → ((gs : List ℕ) (j : ℕ) (cs : List ℕ)
        → n ≡ suc (length gs + j)
        → Accepted
            (lacks j (clients rest))
            (gs ++ take j (clients rest))
            (accept_loop n rest (seated gs j cs)))
    → Accepted
        (lacks (suc k) (xs ++ (if b then [] else clients rest)))
        (fds ++ take (suc k) (xs ++ (if b then [] else clients rest)))
        (accept_loop n (ready arrivals ∷ rest) (seated fds (suc k) closed))
unfolding poll_once
greeted-Accepted n arrivals rest fds k closed true xs e (nobody, g) ih =
    rw nobody (accept_loop-stuck n (ready arrivals) rest fds k closed e g)
greeted-Accepted n arrivals rest fds k closed false [] e (cs, g) ih =
    rw (accept_loop-step n (ready arrivals) rest fds k closed (seated fds (suc k) cs) e g)
      (ih fds (suc k) cs e)
greeted-Accepted n arrivals rest fds k closed false (x ∷ xs) e (alone, (cs, g)) ih =
    rw
      (
        accept_loop-step n (ready arrivals) rest fds k closed (seated (fds ++ x ∷ []) k cs) e g,
        alone,
        sym (append_assoc fds (x ∷ []) (take k (clients rest))),
      )
      (ih (fds ++ x ∷ []) k cs (omega (arith, e, length-snoc fds x)))

accept_loop-Accepted :
    (n : ℕ) (polls : List Polled) (fds : List ℕ) (k : ℕ) (closed : List ℕ)
    → n ≡ suc (length fds + k)
    → singles polls ≡ true
    → all_heard polls ≡ true
    → Accepted
        (lacks k (clients polls))
        (fds ++ take k (clients polls))
        (accept_loop n polls (seated fds k closed))
unfolding poll_once
accept_loop-Accepted n polls fds zero closed e h a =
    rw (append-nil fds) (closed, accept_loop-full n polls fds closed e)
accept_loop-Accepted n [] fds (suc k) closed e h a = accept_loop-short n fds k closed e
accept_loop-Accepted n (timed_out ∷ rest) fds (suc k) closed e h a =
    rw (accept_loop-step n timed_out rest fds k closed (seated fds (suc k) closed) e refl)
      (accept_loop-Accepted n rest fds (suc k) closed e h a)
accept_loop-Accepted n (poll_failed ∷ rest) fds (suc k) closed e h a =
    rw (accept_loop-step n poll_failed rest fds k closed (seated fds (suc k) closed) e refl)
      (accept_loop-Accepted n rest fds (suc k) closed e h a)
accept_loop-Accepted n (ready arrivals ∷ rest) fds (suc k) closed e h a =
    greeted-Accepted n arrivals rest fds k closed (stuck arrivals) (arrived arrivals) e
      (greet-Greets fds k closed arrivals (ground (arith, h)) (ground (arith, a)))
      (λ gs j cs f. accept_loop-Accepted n rest gs j cs f (ground (arith, h)) (ground (arith, a)))

-- The connections with these clients; the server has none with itself.
abbrev pub sockets : List ℕ → List (Option ℕ)
sockets fds = none ∷ marks some fds

lacks-ltb : (k : ℕ) (xs : List ℕ) → lacks k xs ≡ ltb (length xs) k
lacks-ltb zero xs = ground arith
lacks-ltb (suc k) [] = ground arith
lacks-ltb (suc k) (x ∷ xs) = ground (arith, lacks-ltb k xs)

clients_by_loop :
    (n k : ℕ) (polls : List Polled) (b : Bool) (fds : List ℕ)
    → Accepted b fds (accept_loop n polls (seated [] k []))
    → accept_clients n polls (seated [] k [])
      ≡ (if b then waits else gives (sockets fds, told_all 1 (sockets fds)))
unfolding accept_clients every
clients_by_loop n k polls true fds e = ground (arith, e)
clients_by_loop n k polls false fds (cs, e) =
    let all : marks (λ (x : ℕ). some x) fds ++ [] ≡ marks (λ (x : ℕ). some x) fds =
      append-nil (marks (λ (x : ℕ). some x) fds) in
    ground (arith, e, every-marks fds, all)

-- For a server with one server socket: it does not come back before as many clients have shown up
-- with their word as processes are missing, whatever failures, timeouts and other connections there
-- are, nor once an accepted connection is silent, that is, neither sends the whole word nor ends; if
-- enough clients show up before, it returns their sockets, each for the process whose number is its
-- place, and it has told all of them that the others are there, and tried to tell itself. So it never
-- gives up by itself. Condition: no read gives more bytes than it is asked for.
pub accept_clients-sockets :
    (nprocs : ℕ) (polls : List Polled)
    → 0 < nprocs
    → singles polls ≡ true
    → all_heard polls ≡ true
    → accept_clients nprocs polls (lobby nprocs) ≡ (
        if ltb (length (clients polls)) (nprocs - 1)
        then waits
        else gives (
          sockets (take (nprocs - 1) (clients polls)),
          told_all 1 (sockets (take (nprocs - 1) (clients polls))),
        ))
accept_clients-sockets zero polls h one a = absurd (omega arith)
accept_clients-sockets (suc k) polls h one a =
    let rest : suc k - 1 ≡ k = omega arith in
    rw (rest, sym (lacks-ltb k (clients polls)))
      (clients_by_loop (suc k) k polls (lacks k (clients polls)) (take k (clients polls))
        (accept_loop-Accepted (suc k) polls [] k [] (omega arith) one a))
