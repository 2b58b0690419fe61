-- ===== src/Verbs/Tests.antt =====
-- Concrete runs of the transfers and of the polling task, and their theorems at concrete inputs.
use talpf.Prelude.{
  ℕ, zero, suc, ◌+◌, ◌≡◌, ◌<◌, ◌⊎◌, ◌^◌, refl, ap, true, false, none, some, List, [], ◌∷◌, ◌++◌,
  get_or, set, set?, length, arith,
}
use talpf.MemReg
use talpf.MemReg.{MemoryRegister}
use talpf.MemReg.Combined
use talpf.MemReg.Combined.{CombinedMemoryRegister}
use talpf.Verbs.{Verbs, MemorySlot, WorkRequest, post_recv}
use talpf.Verbs.Rdma.{Ends, ends, put, get, put_messages}
use talpf.Verbs.Rdma.Atomics.{Operates, fetch_and_add-Posts}
use talpf.Verbs.Rdma.{fetch_and_add}
use talpf.Verbs.{atomic_fetch_and_add}
use talpf.Verbs.Rdma.Transfer.{
  Bytes, copied, written, fetched, Announces, Parts, is_write, is_read, IsEmpty,
}
use talpf.Verbs.Rdma.Posting.{AreCounters, Posts, put-Posts, get-Posts}
use talpf.Verbs.Progress.{epochs, receive, process_sync_request}
use talpf.Verbs.Progress.Release.{Event, arrives, looks, step, run, counted, Waiting, Passed}
use talpf.Verbs.Progress.Delivery.{IsAsked, HasRoom, run-Tracks, run-ends}

-- Memories of two processes: one only used at home, and one that both have registered.
abbrev pub near_slot : MemorySlot
near_slot = record {
  mr = some (record { lkey = 7; rkey = 8 });
  glob =
      record { addr = 1000; size = 64; lkey = 7; rkey = 8 }
      ∷ record { addr = 2000; size = 64; lkey = 17; rkey = 18 }
      ∷ [];
}

abbrev far_slot : MemorySlot
far_slot = record {
  mr = some (record { lkey = 9; rkey = 10 });
  glob =
      record { addr = 3000; size = 64; lkey = 9; rkey = 10 }
      ∷ record { addr = 4000; size = 64; lkey = 19; rkey = 20 }
      ∷ [];
}

abbrev pub two_slots : MemoryRegister MemorySlot
two_slots = record {
  slots = near_slot ∷ far_slot ∷ [];
  free = [];
  free_capacity = 2;
  min_new_slot = 2;
}

abbrev pub zeros : ℕ → List ℕ
zeros zero = []
zeros (suc n) = 0 ∷ zeros n

pub get_or-zeros : (n j : ℕ) → get_or (zeros n) j 0 ≡ 0
get_or-zeros zero j = refl
get_or-zeros (suc n) zero = refl
get_or-zeros (suc n) (suc j) = get_or-zeros n j

pub length-zeros : (n : ℕ) → length (zeros n) ≡ n
length-zeros zero = refl
length-zeros (suc n) = ap suc (length-zeros n)

-- Two processes, and messages of at most 4 bytes.
abbrev pub pair : Verbs
pair = record {
  pid = 0;
  nprocs = 2;
  max_msg_size = 4;
  max_reg_size = 64;
  max_mr = 100;
  max_srs = 400;
  min_nr_msgs = 10;
  cq_size = 1;
  post_count = 0;
  num_msgs = 0;
  num_msgs_sync = 0 ∷ 0 ∷ [];
  sync_counter = 5;
  recv_counts = zeros epochs;
  sync_cached = false;
  sync_cached_value = 0;
  sync_request = record {
    is_active = true;
    with_barrier = true;
    remote_msgs = 2;
    task = some 9;
    second_phase = false;
  };
  block_task = none;
  memreg = record { local_reg = two_slots; global_reg = two_slots };
  calls = [];
}

pair-AreCounters : AreCounters pair
pair-AreCounters = record { msgs = omega arith; msgs_sync = below; per_peer = refl }
  where
    below : (j : ℕ) → get_or (0 ∷ 0 ∷ []) j 0 < 2 ^ 32
    below zero = omega arith
    below (suc zero) = omega arith
    below (suc (suc j)) = omega arith

-- Between the first memory of process 0 and the second one of process 1.
abbrev both_ends : Ends
both_ends = record { local_base = 1000; remote_base = 4000; lkey = 7; rkey = 20 }

put-Posts_example :
    (chain : List WorkRequest) × Posts 3 1 chain pair (λ b. put 3 b 1 8 1 2 16 10 pair)
    × Announces 3 5 chain
    × ((near far : Bytes) (a : ℕ) → written near chain far a ≡ copied 1008 4016 10 near far a)
    × Parts is_write 4 both_ends chain
unfolding Combined.lookup MemReg.lookup ends
put-Posts_example =
    put-Posts 3 1 1 8 2 16 10 pair both_ends near_slot far_slot refl refl pair-AreCounters
      (omega arith) (omega arith) (omega arith) (omega arith) (omega arith) refl

get-Posts_example :
    (chain : List WorkRequest) × Posts 3 1 chain pair (λ b. get 3 b 1 2 16 1 8 10 pair)
    × Announces 3 5 chain
    × ((far near : Bytes) (a : ℕ) → fetched far chain near a ≡ copied 4016 1008 10 far near a)
    × ((parts : List WorkRequest) × (last : WorkRequest) × (chain ≡ parts ++ last ∷ [])
        × Parts is_read 4 both_ends parts
        × IsEmpty last)
unfolding Combined.lookup MemReg.lookup ends
get-Posts_example =
    get-Posts 3 1 2 16 1 8 10 pair both_ends far_slot near_slot refl refl pair-AreCounters
      (omega arith) (omega arith) (omega arith) (omega arith) (omega arith) refl

fetch_and_add-Posts_example :
    (r : WorkRequest) × (s : WorkRequest) × Posts 3 1
      (r ∷ s ∷ [])
      pair
      (λ b. fetch_and_add 3 b 1 8 1 2 16 6 pair)
    × Operates atomic_fetch_and_add 6 0 1008 4016 both_ends r
    × IsEmpty s
    × Announces 3 5 (r ∷ s ∷ [])
unfolding Combined.lookup MemReg.lookup ends
fetch_and_add-Posts_example =
    fetch_and_add-Posts 3 1 1 8 2 16 pair both_ends near_slot far_slot
      (record { lkey = 9; rkey = 10 }) (record { addr = 2000; size = 64; lkey = 17; rkey = 18 })
      refl refl pair-AreCounters (omega arith) refl refl refl 6

-- A put of 10 bytes is three messages.
put_messages_ten : length (put_messages 3 pair both_ends 3 8 16 10) ≡ 3
unfolding put_messages
put_messages_ten = refl

pair-IsAsked : IsAsked 5 pair
pair-IsAsked = record { active = refl; first_phase = refl; same_number = refl }

pair-HasRoom : HasRoom 4 pair
pair-HasRoom = record {
  epoch_counts = length-zeros epochs;
  below = λ j. omega (arith, get_or-zeros epochs j);
  asked = λ active. ((9, refl), omega arith);
}

-- Two messages of the synchronisation and one of the next come, with a look in between.
abbrev pub events : List Event
events = arrives 5 ∷ looks false ∷ arrives 6 ∷ arrives 5 ∷ []

-- After one of the two messages the request still waits.
abbrev half_way : Verbs
half_way = record pair { recv_counts = set pair.recv_counts 5 1; calls = post_recv ∷ [] }

run-Tracks_example : Waiting 5 1 pair half_way ⊎ Passed 5 1 pair half_way
unfolding run step receive set? process_sync_request
run-Tracks_example = run-Tracks 5 (arrives 5 ∷ looks false ∷ []) pair half_way pair-IsAsked refl

run-ends_example :
    (w x y : Verbs) × (run events pair ≡ some w)
    × (step (looks false) w ≡ some x)
    × (step (looks true) x ≡ some y)
    × (y.sync_request.is_active ≡ false)
    × (y.sync_counter ≡ 6)
    × (counted 5 y + 2 ≡ counted 5 pair + 2)
run-ends_example =
    run-ends 5 events false pair pair-IsAsked pair-HasRoom (omega (arith, get_or-zeros epochs 5))
