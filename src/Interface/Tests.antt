-- ===== src/Interface/Tests.antt =====
-- Concrete runs of `hook`, and its theorem at a concrete input.
use talpf.Prelude.{
  ℕ, ◌≡◌, refl, true, false, none, [], ◌∷◌, Exec, returns, throws, fault, bad_alloc, verbs_error,
  arith, every,
}
use talpf.Verbs.{allreduce_or, barrier}
use talpf.MemoryTable.{needs_sync}
use talpf.Process.{thrown_bad_alloc}
use talpf.SparseSet
use talpf.MessageQueue.{QueueAnswers, fatal, out_of_memory}
use talpf.MessageQueue.Votes.{ended}
use talpf.MessageQueue.Tests.{resting_queue, alone}
use talpf.Interface.{Interface, tell, init, abort, sync, hook, attempt, stop, rehook}
use talpf.Interface.Hooks.{sum_of, hook-agrees}

abbrev context : Interface
context = record { queue = resting_queue; aborted = 0 }

-- One of two processes aborts.
abbrev one_aborts : QueueAnswers
one_aborts = record { registers = []; votes = record (alone.votes) { voted_abort = 1 } }

-- A constructor with its memory takes part in two collective calls if another one fails, which
-- takes part in one.
another_fails :
    init true (returns resting_queue)
    ≡ throws bad_alloc (tell (allreduce_or true) (tell (allreduce_or false) context))
unfolding init
another_fails = refl

fails_itself :
    init true (throws bad_alloc resting_queue) ≡ throws bad_alloc (tell (allreduce_or true) context)
unfolding init
fails_itself = refl

-- An exception after an abort of others meets the ASSERT of `abort`.
throws_late :
    hook 2 9 one_aborts one_aborts
      (λ i. throws verbs_error (record i { aborted = 1 }))
      (returns context)
    ≡ fault
unfolding hook attempt stop abort tell
throws_late = refl

-- A process without memory for the copy keeps all from the hook.
no_copy :
    rehook thrown_bad_alloc (λ e. e) 2 9 one_aborts one_aborts (λ i. returns i) (returns context)
    ≡ returns (out_of_memory, none)
unfolding rehook
no_copy = refl

hook-agrees_example :
    ((spmd : Interface → Exec Interface)
      → spmd (tell barrier context) ≡ returns context
      → hook 2 9 one_aborts one_aborts spmd (returns context)
        ≡ returns
            (fatal, record context { queue = ended 9 one_aborts resting_queue true; aborted = 1 }))
    × (let j : Interface = record context {
      queue = ended 9 one_aborts resting_queue false;
      aborted = 1;
    } in
        (sync 0 9 one_aborts context ≡ returns (fatal, j))
        × ((attr' : ℕ) (a' : QueueAnswers) → sync attr' 9 a' j ≡ returns (fatal, j))
        × ((spmd : Interface → Exec Interface) (n : ℕ) (a' again' : QueueAnswers)
            → spmd (tell barrier context) ≡ returns j
            → hook n 9 a' again' spmd (returns context) ≡ returns (fatal, j)))
unfolding sum_of every needs_sync SparseSet.is_empty
hook-agrees_example =
    hook-agrees 9 0 (true ∷ false ∷ []) one_aborts one_aborts context context refl refl refl
      (λ e. absurd (omega (arith, e))) refl
