-- ===== src/Api/Tests.antt =====
-- Concrete calls of the C interface.
use talpf.Prelude.{true, false, none, List, [], ◌∷◌}
use talpf.MessageQueue.{success, QueueAnswers}
use talpf.MessageQueue.Votes.{ended}
use talpf.MessageQueue.Tests.{resting_queue, alone}
use talpf.SparseSet
use talpf.Interface.{Interface}
use talpf.Api.{Contexts}
use talpf.Api.Silence.{Call, puts, registers_global, syncs, probes, rehooks}

abbrev context : Interface
context = record { queue = resting_queue; aborted = 0 }

abbrev contexts : Contexts
contexts = record { root = context; others = context ∷ []; memslot = none; params = none }

-- One of two processes aborts.
abbrev one_aborts : QueueAnswers
one_aborts = record { registers = []; votes = record (alone.votes) { voted_abort = 1 } }

abbrev stopped : Contexts
stopped = record contexts {
  others = record { queue = ended 9 one_aborts resting_queue false; aborted = 1 } ∷ [];
}

abbrev later : List Call
later =
    puts 9 true 2 0 1 4 0 8
    ∷ registers_global 100 8
    ∷ syncs 0 9 one_aborts
    ∷ probes 2 1
    ∷ rehooks success
    ∷ []
