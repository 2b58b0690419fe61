-- ===== src/MessageQueue/Tests.antt =====
-- Concrete runs of the message queue, and its theorem at a concrete input.
use talpf.Prelude.{◌+◌, ◌^◌, ◌≡◌, ◌≢◌, refl, true, false, some, [], ◌∷◌, returns, arith}
use talpf.MemoryTable
use talpf.MemoryTable.{MemoryTable, needs_sync}
use talpf.MemoryTable.Tests.{none_new}
use talpf.MemReg.Combined
use talpf.MessageSort.{MessageSort}
use talpf.SparseSet
use talpf.Verbs.{Verbs, events_increase}
use talpf.Verbs.Sync
use talpf.Verbs.Sync.{block, mode_default, sync_mode, ask, request, take_counts, count_remote}
use talpf.Verbs.Sync.Asks.{Asks}
use talpf.Verbs.Sync.Ends.{voted}
use talpf.Verbs.Sync.Tests.{resting, answers, after_vote-IsIdle}
use talpf.MessageQueue.{
  MessageQueue, QueueAnswers, out_of_memory, with_verbs, sync, most_msgs, resize_mesg_queue, vote,
  close,
}
use talpf.MessageQueue.Votes.{sync-passes}

abbrev no_sort : MessageSort
no_sort = record {
  memslots = [];
  regions = [];
  sorted_regions = [];
  slot_to_region = [];
  writes = [];
  dirty = none_new;
  grain_power = 2;
}

-- The queue of a process that has resized it.
abbrev pub resting_queue : MessageQueue
resting_queue = record {
  max_n_msgs = 2;
  next_mem_reg_size = 2;
  resized = true;
  msgsort = no_sort;
  memreg = record { memreg = Combined.init; capacity = 0; added = none_new; verbs = resting };
}

abbrev pub alone : QueueAnswers
alone = record { registers = []; votes = answers }

-- So many messages do not fit.
too_many :
    resize_mesg_queue [] (most_msgs + 1) resting_queue ≡ returns (out_of_memory, resting_queue)
unfolding resize_mesg_queue
too_many = refl

-- A synchronisation with `LPF_SYNC_MSG(2)` connects no queue pair, and forgets that the queue was
-- resized.
forgets_resize :
    sync false (2 ^ 29 + 2) 9 alone resting_queue
    ≡ returns (
      0,
      record (with_verbs resting_queue (record resting {
        num_msgs_sync = 0 ∷ 0 ∷ [];
        sync_request = record (resting.sync_request) {
          with_barrier = false;
          remote_msgs = 2;
          task = some 9;
          is_active = true;
        };
        calls = events_increase 9 ∷ [];
      })) { resized = false },
    )
unfolding needs_sync SparseSet.is_empty sync vote close MemoryTable.sync Sync.sync ask request
    take_counts count_remote
forgets_resize = refl

sync-passes_example :
    (w : Verbs) × (sync false 0 9 alone resting_queue
      ≡ returns (0, record (with_verbs resting_queue w) { resized = false }))
    × Asks 0 9 2 (voted 0 9 0 1 answers resting) (w)
    × (sync_mode 0 ≢ mode_default → voted 0 9 0 1 answers resting ≡ resting)
unfolding block needs_sync SparseSet.is_empty
sync-passes_example =
    sync-passes 0 9 alone resting_queue refl refl after_vote-IsIdle refl (omega arith)
