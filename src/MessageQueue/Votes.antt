-- ===== src/MessageQueue/Votes.antt =====
-- The vote in sync of src/MPI/mesgqueue.cpp, over that of src/MPI/ibverbs.cpp.
use talpf.Prelude.{ℕ, ◌<◌, ◌^◌, ◌≡◌, ◌≢◌, Bool, true, false, length, ◌==◌, returns, arith}
use talpf.MemoryTable
use talpf.MemoryTable.{needs_sync}
use talpf.Verbs.{Verbs}
use talpf.Verbs.Sync
use talpf.Verbs.Sync.{SyncAnswers, sync_mode, mode_default, block}
use talpf.Verbs.Sync.Asks.{IsIdle, Asks, awaited}
use talpf.Verbs.Sync.Ends.{passes, voted, sync-Asks}
use talpf.MessageQueue.{
  MessageQueue, QueueAnswers, verbs_of, with_verbs, vote_of, sync, vote, close,
}

-- What the votes leave if somebody aborts.
abbrev pub ended : ℕ → QueueAnswers → MessageQueue → Bool → MessageQueue
ended task a q abort =
    with_verbs q (a.votes.blocked (block task (vote_of abort) (vote_of q.resized) (verbs_of q)))

module _ (attr task : ℕ) (a : QueueAnswers) (q : MessageQueue)
    (known : needs_sync q.memreg ≡ false) where
  sync-vote : (abort : Bool) → sync abort attr task a q ≡ vote abort attr task a.votes q
  unfolding sync MemoryTable.sync
  sync-vote abort = ground (arith, known)

  -- Without new slots and in the default mode, `sync` answers the number of processes that abort if
  -- there is one, and then keeps what else it knows.
  pub sync-aborts :
      (abort : Bool)
      → sync_mode attr ≡ mode_default
      → (a.votes.voted_abort == 0) ≡ false
      → sync abort attr task a q ≡ returns (a.votes.voted_abort, ended task a q abort)
  unfolding vote close Sync.sync
  sync-aborts abort default some_abort = ground (arith, sync-vote abort, default, some_abort)

  -- Without new slots and with a vote that lets it go on, `sync` of a process that does not abort
  -- answers 0, asks the polling task for the messages of the mode, and forgets that the queue was
  -- resized; in a mode other than the default one it does so with no vote at all, from the very state
  -- that it was called in. Conditions: no synchronisation is asked for, the messages of the
  -- process itself are done, there are a counter and a sum for every process, and the number awaited
  -- is one that an int holds.
  pub sync-passes :
      let x : Verbs = voted attr task 0 (vote_of q.resized) a.votes (verbs_of q) in
      passes attr a.votes ≡ true
      → IsIdle x
      → length a.votes.sums ≡ x.nprocs
      → awaited attr a.votes.sums x < 2 ^ 31
      → (w : Verbs) × (sync false attr task a q
          ≡ returns (0, record (with_verbs q w) { resized = false }))
        × Asks attr task (awaited attr a.votes.sums x) x w
        × (sync_mode attr ≢ mode_default → x ≡ verbs_of q)
  unfolding vote close
  sync-passes go idle answered small =
      let (w, goes, asks) =
        sync-Asks attr task 0 (vote_of q.resized) a.votes (verbs_of q) go idle answered small in
      (w, ground (arith, sync-vote false, goes), asks, λ other. ground (arith, other))
