-- ===== src/Interface/Hooks.antt =====
-- How the processes of one `hook` of src/MPI/process.cpp agree on its status.
use talpf.Prelude.{
  ℕ, ◌+◌, ◌≤◌, ◌≡◌, ◌≢◌, Bool, true, false, List, [], ◌∷◌, length, ◌==◌, every, if◌then◌else◌, Exec,
  returns, arith,
}
use talpf.Verbs.Sync.{mode_default, sync_mode}
use talpf.MemoryTable.{needs_sync}
use talpf.MessageQueue.{QueueAnswers, success, fatal, vote_of}
use talpf.MessageQueue.Votes.{sync-aborts, ended}
use talpf.Verbs.{barrier}
use talpf.Interface.{Interface, tell, abort, sync, vote, finish, attempt, hook}

-- The number of processes that abort, of those that take part in one synchronisation.
unfoldable pub sum_of : List Bool → ℕ
sum_of [] = 0
sum_of (b ∷ bs) = vote_of b + sum_of bs

sum_of-le : (bs : List Bool) → sum_of bs ≤ length bs
unfolding sum_of
sum_of-le [] = omega arith
sum_of-le (true ∷ bs) = omega (arith, sum_of-le bs)
sum_of-le (false ∷ bs) = omega (arith, sum_of-le bs)

sum_of-every : (bs : List Bool) → (sum_of bs == length bs) ≡ every bs
unfolding sum_of every
sum_of-every [] = ground arith
sum_of-every (true ∷ bs) = ground (arith, sum_of-every bs)
sum_of-every (false ∷ bs) = ground (arith, sum_of-le bs)

module _ (task attr : ℕ) (bs : List Bool) (a again : QueueAnswers) (runtime i : Interface)
    (known : needs_sync i.queue.memreg ≡ false) (going : i.aborted ≡ 0)
    (counts : a.votes.voted_abort ≡ sum_of bs) (somebody : sum_of bs ≢ 0)
    (default : sync_mode attr ≡ mode_default) where
  -- In a synchronisation in the default mode in which somebody aborts, by `bs`, the processes
  -- whose SPMD function returned get the status success from `hook` if all take part in the same way,
  -- and else fatal. A process that is in `sync` gets fatal there, then from every further `sync`,
  -- which does nothing, and at last from `hook`. Conditions: no slot is new, and the vote is the sum
  -- over `bs`.
  pub hook-agrees :
      ((spmd : Interface → Exec Interface)
        → spmd (tell barrier runtime) ≡ returns i
        → hook (length bs) task a again spmd (returns runtime)
          ≡ returns (
            if every bs then success else fatal,
            record i { queue = ended task a i.queue true; aborted = sum_of bs },
          ))
      × (let j : Interface = record i { queue = ended task a i.queue false; aborted = sum_of bs } in
          (sync attr task a i ≡ returns (fatal, j))
          × ((attr' : ℕ) (a' : QueueAnswers) → sync attr' task a' j ≡ returns (fatal, j))
          × ((spmd : Interface → Exec Interface) (n : ℕ) (a' again' : QueueAnswers)
              → spmd (tell barrier runtime) ≡ returns j
              → hook n task a' again' spmd (returns runtime) ≡ returns (fatal, j)))
  unfolding hook attempt finish abort vote sync
  hook-agrees =
      let some_abort : (a.votes.voted_abort == 0) ≡ false = ground (arith, counts, somebody) in
      (
        (λ spmd runs. ground (
          arith,
          runs,
          going,
          counts,
          sync-aborts mode_default task a i.queue known true (ground arith) some_abort,
          sum_of-every bs,
        )),
        (
          ground (
            arith,
            going,
            counts,
            somebody,
            sync-aborts attr task a i.queue known false default some_abort,
          ),
          (λ attr' a'. ground (arith, somebody)),
          λ spmd n a' again' runs. ground (arith, somebody, runs),
        ),
      )
