-- ===== src/MemoryTable/Tests.antt =====
-- A concrete table of memory slots, and its theorem at a concrete input.
use talpf.Prelude.{
  ℕ, ◌⊎◌, ◌<◌, size_mod, returns, ◌≡◌, refl, true, false, none, some, List, [], ◌∷◌, arith,
}
use talpf.MemReg
use talpf.MemReg.{MemoryRegister}
use talpf.MemReg.FreeList.{mem}
use talpf.MemReg.Slots
use talpf.MemReg.Combined
use talpf.MemReg.Combined.{is_local_slot, range}
use talpf.MemReg.Combined.Slots.{is_used, Assigns}
use talpf.SparseSet.{SparseSet, elements, contains}
use talpf.SparseSet.Inverse.{Inverse}
use talpf.SparseSet.Range.{numbered, numbered-Inverse}
use talpf.MemoryTable.{Memory, MemoryTable, remove, sync, needs_sync}
use talpf.MemoryTable.Slots.{IsTable}
use talpf.Verbs.{Verbs}
use talpf.Verbs.Registration.Tests.{partly, partly-IsValid, region, both_areas}
use talpf.MemoryTable.Jobs.{Job, IsReady, AreEntered}
use talpf.MemoryTable.Sync.{sync-registers}
use talpf.MemoryTable.Removes.{remove-Updates}
use talpf.MemReg.Combined.Slots as CombinedSlots

abbrev stack : Memory
stack = record { addr = 1000; size = 64; slot = 3 }

-- Two slots, of which the last one is in use.
abbrev one_of_two : MemoryRegister Memory
one_of_two = record {
  slots = stack ∷ stack ∷ [];
  free = 0 ∷ [];
  free_capacity = 2;
  min_new_slot = 2;
}

one_of_two-IsValid : Slots.IsValid one_of_two
unfolding mem
one_of_two-IsValid = record {
  distinct = (omega arith, refl, tt);
  dealt = omega arith;
  room = omega arith;
  word = omega arith;
}

abbrev pub none_new : SparseSet
none_new = record {
  min = 0;
  max = 5;
  size = 0;
  domain = 0 ∷ 1 ∷ 2 ∷ 3 ∷ 4 ∷ 5 ∷ [];
  map = 0 ∷ 1 ∷ 2 ∷ 3 ∷ 4 ∷ 5 ∷ [];
}

abbrev zeros : List ℕ
zeros = 0 ∷ 0 ∷ 0 ∷ 0 ∷ 0 ∷ 0 ∷ []

none_new-Inverse : Inverse none_new.domain none_new.map
unfolding numbered
none_new-Inverse =
    numbered-Inverse 6 0 zeros zeros (omega arith) (omega arith) (λ k h. absurd (omega arith))
      (λ k h. absurd (omega arith))

abbrev idle : Verbs
idle = record {
  pid = 0;
  nprocs = 1;
  max_msg_size = 4;
  max_reg_size = 64;
  max_mr = 100;
  max_srs = 400;
  min_nr_msgs = 10;
  cq_size = 1;
  post_count = 0;
  num_msgs = 0;
  num_msgs_sync = 0 ∷ [];
  sync_counter = 0;
  recv_counts = [];
  sync_cached = false;
  sync_cached_value = 0;
  sync_request = record {
    is_active = false;
    with_barrier = false;
    remote_msgs = 0;
    task = none;
    second_phase = false;
  };
  block_task = none;
  memreg = Combined.init;
  calls = [];
}

abbrev at_rest : MemoryTable
at_rest = record {
  memreg = record { local_reg = one_of_two; global_reg = one_of_two };
  capacity = 2;
  added = none_new;
  verbs = idle;
}

at_rest-IsTable : IsTable at_rest
unfolding range MemReg.capacity
at_rest-IsTable = record {
  slots = record { local_valid = one_of_two-IsValid; global_valid = one_of_two-IsValid };
  new_slots = record {
    ordered = omega arith;
    bounded = omega arith;
    holds = omega arith;
    spanned = refl;
    filled = omega arith;
    inverse = none_new-Inverse;
  };
  from_zero = refl;
  spans = omega arith;
}

-- The global slot 0 is new.
abbrev both_of_two : MemoryRegister Memory
both_of_two = record one_of_two { free = [] }

both_of_two-IsValid : Slots.IsValid both_of_two
both_of_two-IsValid = record {
  distinct = tt;
  dealt = omega arith;
  room = omega arith;
  word = omega arith;
}

abbrev one_new : MemoryTable
one_new = record at_rest {
  memreg = record { local_reg = one_of_two; global_reg = both_of_two };
  added = record none_new { size = 1 };
  verbs = partly;
}

one_new-IsTable : IsTable one_new
unfolding range MemReg.capacity
one_new-IsTable = record {
  slots = record { local_valid = one_of_two-IsValid; global_valid = both_of_two-IsValid };
  new_slots = record {
    ordered = omega arith;
    bounded = omega arith;
    holds = omega arith;
    spanned = refl;
    filled = omega arith;
    inverse = none_new-Inverse;
  };
  from_zero = refl;
  spans = omega arith;
}

abbrev job : Job
job = record {
  slot = 0;
  memory = stack;
  answers = record { region = some region; failed = false; gathered = both_areas };
}

job-IsReady : IsReady one_new job
unfolding Combined.lookup MemReg.lookup mem
job-IsReady = record {
  found = refl;
  used = refl;
  even = refl;
  small = omega arith;
  fits = omega arith;
  taken = refl;
  together = refl;
}

sync-registers_example :
    (u : MemoryTable) × (sync (job.answers ∷ []) one_new ≡ returns u)
    × (needs_sync u ≡ false)
    × AreEntered u (job ∷ [])
    × ((k : ℕ)
        → k < size_mod
        → mem k (0 ∷ []) ≡ false
        → Combined.lookup k u.memreg ≡ Combined.lookup k one_new.memreg)
    × IsTable u
    × CombinedSlots.IsValid u.verbs.memreg
unfolding elements mem
sync-registers_example =
    sync-registers (job ∷ []) one_new one_new-IsTable partly-IsValid refl (job-IsReady, (refl, tt))
      (omega arith)

remove-Updates_example :
    (u : MemoryTable) × (remove 2 one_new ≡ some u)
    × (contains 2 u.added ≡ some false)
    × Assigns 2 false one_new.memreg u.memreg
    × IsTable u
    × (((contains 2 one_new.added ≡ some true) × (u.verbs ≡ partly))
        ⊎ ((contains 2 one_new.added ≡ some false) × Assigns 3 false partly.memreg u.verbs.memreg))
unfolding Combined.lookup MemReg.lookup mem
remove-Updates_example =
    remove-Updates 2 stack one_new one_new-IsTable partly-IsValid (omega arith) refl refl
      (λ old. (omega arith, refl))
