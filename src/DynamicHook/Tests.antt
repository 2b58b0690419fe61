-- ===== src/DynamicHook/Tests.antt =====
-- Concrete runs of the making of connections, and its theorems at concrete inputs.
use talpf.Prelude.{
  ℕ, suc, ◌-◌, List, ◌++◌, replicate, ◌≡◌, refl, true, false, some, none, [], ◌∷◌, arith, length,
  take, ltb, if◌then◌else◌, set?, every,
}
use talpf.DynamicHook.{
  gives, waits, fault, inet, inet6, match_interfaces, am_i_server, read_all, is_bytes, magic_client,
  magic_server,
}
use talpf.DynamicHook.Server.{
  Arrival, seat, receive, greet, ready, timed_out, poll_once, accept_loop, accept_clients, told_all,
  lobby, connect_to_server,
}
use talpf.DynamicHook.Joining.{
  MpiCall, comm_accept, comm_connect, intercomm_merge, allreduce_and, comm_split, Sent, admit,
  round, serve, hook_server, hook_client,
}
use talpf.DynamicHook.Reads.{
  stream, read_all-take, any_interface, present, am_i_server-any_interface,
}
use talpf.DynamicHook.Accepts.{clients, sockets, accept_clients-sockets}
use talpf.DynamicHook.Growth.{all_but_last, Together, hook_client-Together}

abbrev client_at : ℕ → Arrival
client_at fd = record { fd = some fd; writes = true; reads = magic_client ∷ [] }

abbrev stranger : Arrival
stranger = record { fd = some 9; writes = true; reads = (1 ∷ 2 ∷ []) ∷ [] ∷ [] }

abbrev silent : Arrival
silent = record { fd = some 8; writes = true; reads = (76 ∷ 80 ∷ []) ∷ [] }

-- A client, a timeout, a stranger, and a second client.
accepts_two :
    accept_clients 3
      (ready (client_at 5 ∷ []) ∷ timed_out ∷ ready (stranger ∷ []) ∷ ready (client_at 6 ∷ []) ∷ [])
      (lobby 3)
    ≡ gives (none ∷ some 5 ∷ some 6 ∷ [], (none, 1) ∷ (some 5, 1) ∷ (some 6, 1) ∷ [])
unfolding accept_clients accept_loop poll_once greet receive seat read_all is_bytes set? every
accepts_two = refl

-- Two clients that are ready together on two server sockets, where one is missing.
overruns : accept_clients 2 (ready (client_at 5 ∷ client_at 6 ∷ []) ∷ []) (lobby 2) ≡ fault
unfolding accept_clients accept_loop poll_once greet receive seat read_all is_bytes set? every
overruns = refl

-- A client that comes after a silent connection does not get through to the server.
waits_for_silent :
    accept_clients 2 (ready (silent ∷ []) ∷ ready (client_at 5 ∷ []) ∷ []) (lobby 2) ≡ waits
unfolding accept_clients accept_loop poll_once greet receive seat read_all is_bytes set? every
waits_for_silent = refl

accept_clients-sockets_example :
    accept_clients 2 (timed_out ∷ ready (client_at 5 ∷ []) ∷ []) (lobby 2) ≡ (
      if ltb (length (clients (timed_out ∷ ready (client_at 5 ∷ []) ∷ []))) (2 - 1)
      then waits
      else gives (
        sockets (take (2 - 1) (clients (timed_out ∷ ready (client_at 5 ∷ []) ∷ []))),
        told_all 1 (sockets (take (2 - 1) (clients (timed_out ∷ ready (client_at 5 ∷ []) ∷ [])))),
      ))
unfolding is_bytes read_all
accept_clients-sockets_example =
    accept_clients-sockets 2 (timed_out ∷ ready (client_at 5 ∷ []) ∷ []) (omega arith) refl refl

-- An interface without an address.
no_address : am_i_server (some []) (some (none ∷ [])) ≡ fault
unfolding am_i_server match_interfaces
no_address = refl

am_i_server-any_interface_example :
    am_i_server
      (some (record { family = inet6; address = 1 } ∷ record { family = inet; address = 7 } ∷ []))
      (some (present (record { family = inet; address = 7 } ∷ [])))
    ≡ gives (
        any_interface
          (record { family = inet6; address = 1 } ∷ record { family = inet; address = 7 } ∷ [])
          (record { family = inet; address = 7 } ∷ []))
am_i_server-any_interface_example =
    am_i_server-any_interface
      (record { family = inet6; address = 1 } ∷ record { family = inet; address = 7 } ∷ [])
      (record { family = inet; address = 7 } ∷ [])

-- Four bytes in two reads, of which the second is followed by more of the stream.
read_all-take_example :
    read_all 4 ((1 ∷ 2 ∷ []) ∷ (3 ∷ 4 ∷ []) ∷ (5 ∷ []) ∷ [])
    ≡ gives (take 4 (stream ((1 ∷ 2 ∷ []) ∷ (3 ∷ 4 ∷ []) ∷ (5 ∷ []) ∷ [])))
read_all-take_example = read_all-take 4 ((1 ∷ 2 ∷ []) ∷ (3 ∷ 4 ∷ []) ∷ (5 ∷ []) ∷ []) (omega arith)

-- The second try works.
connects_again :
    connect_to_server (
      record { socket = some 3; connects = true; got = magic_server; writes = true; ok = some 0 }
      ∷ record { socket = some 4; connects = true; got = magic_server; writes = true; ok = some 1 }
      ∷ [])
    ≡ gives 4
unfolding connect_to_server is_bytes
connects_again = refl

abbrev all_sent : Sent
all_sent = record { port_name = true; number = true; shuts_down = true; closes = true }

-- The first of two clients is lost: the ASSERT of the next round fails.
loses_first :
    hook_server (record all_sent { number = false } ∷ all_sent ∷ []) (false ∷ true ∷ []) ≡ fault
unfolding hook_server serve round admit
loses_first = refl

-- The last of two clients is lost: the server comes back with one client only, and no exception.
loses_last :
    hook_server (all_sent ∷ record all_sent { number = false } ∷ []) (true ∷ false ∷ [])
    ≡ gives (
        comm_split 0
        ∷ allreduce_and false
        ∷ intercomm_merge false
        ∷ comm_accept
        ∷ allreduce_and true
        ∷ [])
unfolding hook_server serve round admit
loses_last = refl

hook_client-Together_example :
    (before : List MpiCall) × Together
      (all_but_last (true ∷ false ∷ []))
      (intercomm_merge false ∷ comm_accept ∷ before)
      (intercomm_merge true ∷ comm_connect ∷ [])
      (hook_server
        (all_sent ∷ all_sent ∷ all_sent ∷ record all_sent { closes = false } ∷ [])
        (replicate 1 true ++ true ∷ true ∷ false ∷ []))
      (hook_client 3
        (suc (length (all_sent ∷ all_sent ∷ all_sent ∷ record all_sent { closes = false } ∷ [])))
        (gives 8)
        (some 2)
        3
        (true ∷ false ∷ []))
hook_client-Together_example =
    hook_client-Together 3 8 1
      (all_sent ∷ all_sent ∷ all_sent ∷ record all_sent { closes = false } ∷ []) (true ∷ false ∷ [])
      refl
