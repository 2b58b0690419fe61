-- ===== src/Verbs/Sync/Ends.antt =====
-- `sync` of src/MPI/ibverbs.cpp with its vote, and with the polling task until its end.
use talpf.Prelude.{
  ℕ, suc, ◌+◌, ◌%◌, ◌^◌, ◌≤◌, ◌<◌, ◌≡◌, ap, Bool, true, false, not, ◌&&◌, ◌||◌, some, List, ◌∷◌,
  length, get_or, ltb, ◌==◌, if◌then◌else◌, returns, arith, Bool-cases, inl, inr, subst, sym,
}
use talpf.Verbs.{Verbs, reconnect_qps}
use talpf.Verbs.Sync.{SyncAnswers, sync_mode, mode_default, ask, block, sync, with_vote}
use talpf.Verbs.Sync.Asks.{IsIdle, Asks, awaited, ask-Asks}
use talpf.Verbs.Progress.Release.{Event, looks, run, step, arrivals, counted}
use talpf.Verbs.Progress.Delivery.{HasRoom, run-ends}

-- The vote lets the caller go on: in the default mode nobody wants to abort, and if queue pairs are
-- to be connected again, that succeeds.
abbrev pub passes : ℕ → SyncAnswers → Bool
passes attr a =
    not (sync_mode attr == mode_default)
    || (a.voted_abort == 0 && (a.voted_reconnect == 0 || a.reconnects))

-- The state after the vote.
abbrev pub voted : ℕ → ℕ → ℕ → ℕ → SyncAnswers → Verbs → Verbs
voted attr task abort reconnect a v =
    if sync_mode attr == mode_default
    then (let w : Verbs = a.blocked (block task abort reconnect v) in
        if ltb 0 a.voted_reconnect then record w { calls = reconnect_qps ∷ w.calls } else w)
    else v

module _ (attr task abort reconnect : ℕ) (a : SyncAnswers) (v : Verbs) (go : passes attr a ≡ true)
    (i : IsIdle (voted attr task abort reconnect a v))
    (answered : length a.sums ≡ (voted attr task abort reconnect a v).nprocs)
    (small : awaited attr a.sums (voted attr task abort reconnect a v) < 2 ^ 31) where
  abbrev x : Verbs
  x = voted attr task abort reconnect a v

  sync-ask : sync attr task abort reconnect a v ≡ with_vote abort (ask attr task a x)
  unfolding sync
  sync-ask = elim (Bool-cases (sync_mode attr == mode_default)) [
    | inr other ↦ ground (arith, other)
    | inl default ↦ elim (Bool-cases (ltb 0 a.voted_reconnect)) [
      | inl again ↦ ground (arith, default, again, go)
      | inr keep ↦ ground (arith, default, keep, go)
    ]
  ]

  -- `sync` with a vote that lets it go on, from a state without a request: the polling task is asked
  -- for the number of messages of the mode, and the counters begin anew. Conditions: the messages of
  -- the process itself are done, there are a counter and a sum for every process, and the number is
  -- one that an int holds.
  pub sync-Asks :
      (w : Verbs) × (sync attr task abort reconnect a v ≡ returns (abort, w))
      × Asks attr task (awaited attr a.sums x) x w
  sync-Asks =
      let (w, goes, asks) = ask-Asks attr task a x i answered small in
      (w, ground (arith, sync-ask, goes), asks)

  module _ (es : List Event) (first : Bool) (room : HasRoom (length es) x)
      (next : suc x.sync_counter < 2 ^ 31) where
    Asks-HasRoom : (w : Verbs) → Asks attr task (awaited attr a.sums x) x w → HasRoom (length es) w
    Asks-HasRoom w asks = record {
      epoch_counts = ground (arith, asks.same_received, room.epoch_counts);
      below = λ j.
          subst (λ counts. get_or counts j 0 + length es < 2 ^ 31) (sym asks.same_received)
            (room.below j);
      asked = λ active. ((task, asks.waits), omega (arith, asks.asked.same_number));
    }

    -- `sync` and the polling task together: once as many messages have come as the mode says, in any
    -- order among others, two looks of the polling task, the second of which finds the barrier
    -- done, end the synchronisation that `sync` asked for, and keep the messages counted beyond them.
    -- Conditions: those of `sync` alone, and room in the counters for the messages.
    pub sync-ends :
        awaited attr a.sums x ≤ counted x.sync_counter x + arrivals x.sync_counter es
        → (w p q r : Verbs) × (sync attr task abort reconnect a v ≡ returns (abort, w))
          × (run es w ≡ some p)
          × (step (looks first) p ≡ some q)
          × (step (looks true) q ≡ some r)
          × (r.sync_request.is_active ≡ false)
          × (r.sync_counter ≡ suc x.sync_counter)
          × (counted x.sync_counter r + awaited attr a.sums x
              ≡ counted x.sync_counter x + arrivals x.sync_counter es)
    sync-ends enough =
        let (w, goes, asks) = sync-Asks in
        let same : counted x.sync_counter w ≡ counted x.sync_counter x =
          ap (λ counts. get_or counts (x.sync_counter % 1024) 0) asks.same_received in
        let (p, q, r, runs, once, twice, idle, number, left) =
          run-ends x.sync_counter es first w asks.asked (Asks-HasRoom w asks)
            (omega (arith, same, asks.remote)) in
        (w, p, q, r, goes, runs, once, twice, idle, number, omega (arith, left, same, asks.remote))
