-- ===== src/Verbs/Rdma/Posting.antt =====
-- What `put`, `get` and the atomic operations of src/MPI/ibverbs.cpp do as a whole: the chain that
-- they post, and the counters that they keep.
use talpf.Prelude.{
  ℕ, zero, suc, ◌+◌, ◌*◌, ◌/◌, ◌^◌, ◌≤◌, ◌<◌, ◌≡◌, refl, Bool, true, false, some, List, [], ◌∷◌,
  ◌++◌, length, get_or, set, set?, get_elem?-get_or, get_or-set, length-set, ◌==◌, if◌then◌else◌,
  size_mod, arith, returns, throws, verbs_error, Exec,
}
use talpf.MemReg.Combined
use talpf.Verbs.{
  Verbs, WorkRequest, MemorySlot, Call, post_send, post_send_failed, events_increase, count,
  uncount, increase, post, int_mod, int_add, int_sub,
}
use talpf.Verbs.Rdma.{Ends, ends, put_messages, get_messages, completion, put, get}
use talpf.Verbs.Rdma.Transfer.{
  Bytes, copied, written, fetched, Announces, message_count-suffices, put_messages-copied,
  put_messages-Announces, get_messages-copied, get_messages-Announces, Parts, is_write, is_read,
  IsEmpty, put_messages-Parts, get_messages-Parts, completion-IsEmpty,
}

-- `w` is `v` after one more message to `peer` was counted.
pub record Counted (peer : ℕ) (v w : Verbs) : Type 0 where
  pub msgs : w.num_msgs ≡ int_add v.num_msgs 1
  pub msgs_sync :
      (j : ℕ)
      → get_or w.num_msgs_sync j 0
        ≡ (if peer == j then int_add (get_or v.num_msgs_sync j 0) 1 else get_or v.num_msgs_sync j 0)

-- The counters of `w` are those of `v`.
pub record SameCounters (v w : Verbs) : Type 0 where
  pub msgs : w.num_msgs ≡ v.num_msgs
  pub msgs_sync : (j : ℕ) → get_or w.num_msgs_sync j 0 ≡ get_or v.num_msgs_sync j 0

-- The counters are patterns of 32 bits, and there is one for every peer.
pub record AreCounters (v : Verbs) : Type 0 where
  pub msgs : v.num_msgs < int_mod
  pub msgs_sync : (j : ℕ) → get_or v.num_msgs_sync j 0 < int_mod
  pub per_peer : length v.num_msgs_sync ≡ v.nprocs

abbrev pub counted : ℕ → Verbs → Verbs
counted peer v = record v {
  num_msgs = int_add v.num_msgs 1;
  num_msgs_sync = set v.num_msgs_sync peer (int_add (get_or v.num_msgs_sync peer 0) 1);
}

module _ (peer : ℕ) (v : Verbs) (here : peer < length v.num_msgs_sync) where
  pub count-counted : count peer v ≡ some (counted peer v)
  unfolding count set?
  count-counted = ground (arith, get_elem?-get_or v.num_msgs_sync peer 0)

  counted-Counted : Counted peer v (counted peer v)
  counted-Counted = record {
    msgs = refl;
    msgs_sync = λ j.
        ground
          (arith, get_or-set v.num_msgs_sync peer j (int_add (get_or v.num_msgs_sync peer 0) 1) 0);
  }

-- A call of `task` that posts a chain to a peer. Accepted, it counts one message more, and the task
-- waits for one event more. Refused, it throws and takes the counters back, but not the event.
pub record Posts (task peer : ℕ) (chain : List WorkRequest) (v : Verbs) (call : Bool → Exec Verbs)
    : Type 0 where
  pub accepted :
      (w : Verbs) × (call true ≡ returns w)
      × Counted peer v w
      × (w.calls ≡ post_send peer chain ∷ events_increase task ∷ v.calls)
  pub refused :
      (w : Verbs) × (call false ≡ throws verbs_error w)
      × SameCounters v w
      × (w.calls ≡ post_send_failed peer chain ∷ events_increase task ∷ v.calls)

module _ (task peer : ℕ) (chain : List WorkRequest) (v : Verbs) (c : AreCounters v)
    (here : peer < v.nprocs) where
  abbrev issued : Verbs
  issued = increase task (counted peer v)

  abbrev refused_calls : List Call
  refused_calls = post_send_failed peer chain ∷ events_increase task ∷ v.calls

  abbrev taken_back : Verbs
  taken_back = record v {
    num_msgs = int_sub (int_add v.num_msgs 1) 1;
    num_msgs_sync =
        set (counted peer v).num_msgs_sync peer
          (int_sub (get_or (counted peer v).num_msgs_sync peer 0) 1);
    calls = refused_calls;
  }

  bumped : length (counted peer v).num_msgs_sync ≡ length v.num_msgs_sync
  bumped = length-set v.num_msgs_sync peer (int_add (get_or v.num_msgs_sync peer 0) 1)

  back : (j : ℕ) → get_or taken_back.num_msgs_sync j 0 ≡ get_or v.num_msgs_sync j 0
  back j =
      let m : ℕ = int_add (get_or v.num_msgs_sync peer 0) 1 in
      let ms : List ℕ = (counted peer v).num_msgs_sync in
      ground (
        arith,
        c.per_peer,
        c.msgs_sync peer,
        bumped,
        get_or-set v.num_msgs_sync peer j m 0,
        get_or-set v.num_msgs_sync peer peer m 0,
        get_or-set ms peer j (int_sub (get_or ms peer 0) 1) 0,
      )

  uncount-taken_back :
      uncount peer (record (counted peer v) { calls = refused_calls }) ≡ some taken_back
  unfolding uncount set?
  uncount-taken_back =
      ground (arith, c.per_peer, bumped, get_elem?-get_or (counted peer v).num_msgs_sync peer 0)

  pub post-Posts :
      (call : Bool → Exec Verbs)
      → ((b : Bool) → call b ≡ post b peer (some (issued, chain)))
      → Posts task peer chain v call
  unfolding post increase
  post-Posts call e = record {
    accepted = (
      record (counted peer v) { calls = post_send peer chain ∷ events_increase task ∷ v.calls },
      e true,
      record { msgs = now.msgs; msgs_sync = now.msgs_sync },
      refl,
    );
    refused = (
      taken_back,
      ground (arith, e false, uncount-taken_back),
      record { msgs = omega (arith, c.msgs); msgs_sync = back },
      refl,
    );
  }
    where
      now : Counted peer v (counted peer v)
      now = counted-Counted peer v (omega (arith, c.per_peer))

-- `put` sends a message also if there are no bytes, and never too few.
at_least_one :
    (size n max_msg_size : ℕ)
    → size ≤ n * max_msg_size
    → (more : ℕ) × ((if size == 0 then 1 else n) ≡ suc more) × (size ≤ suc more * max_msg_size)
at_least_one zero n m h = (0, refl, omega arith)
at_least_one (suc size) zero m h = absurd (omega arith)
at_least_one (suc size) (suc n) m h = (n, ground arith, h)

-- Slots whose registrations the transfer can read, at both ends.
module _ (task peer : ℕ) (src_slot src_offset dst_slot dst_offset size : ℕ) (v : Verbs) (e : Ends)
    (src dst : MemorySlot) (src_found : Combined.lookup src_slot v.memreg ≡ some src)
    (dst_found : Combined.lookup dst_slot v.memreg ≡ some dst) (c : AreCounters v)
    (here : peer < v.nprocs) (splits : 0 < v.max_msg_size)
    (few : size / v.max_msg_size + 1 < 2 ^ 31) (src_fits : src_offset + size < size_mod)
    (dst_fits : dst_offset + size < size_mod) where
  -- `put` between registered slots posts one chain to the peer, which copies just the bytes that it
  -- was asked to, and whose last message alone is counted at the peer. Each message is an RDMA write
  -- with the keys of both ends, of no more bytes than the device takes in one message.
  -- Conditions: the slots are registered for both ends, there is a counter for every peer, the number
  -- of messages is one that an int holds, and offset and size do not wrap around at either end.
  -- A chain that the device refuses makes the call throw, with the counters as before, but with the
  -- event of the task.
  pub put-Posts :
      ends peer src dst v ≡ some e
      → (chain : List WorkRequest) × Posts task peer chain v
          (λ b. put task b src_slot src_offset peer dst_slot dst_offset size v)
        × Announces task v.sync_counter chain
        × ((near far : Bytes) (a : ℕ)
            → written near chain far a
              ≡ copied (e.local_base + src_offset) (e.remote_base + dst_offset) size near far a)
        × Parts is_write v.max_msg_size e chain
  unfolding put
  put-Posts reads =
      let (n, counts, enough) = message_count-suffices v.max_msg_size size splits few in
      let (more, same, covers) = at_least_one size n v.max_msg_size enough in
      let chain : List WorkRequest = put_messages task v e (suc more) src_offset dst_offset size in
      (
        chain,
        post-Posts task peer chain v c here
            (λ b. put task b src_slot src_offset peer dst_slot dst_offset size v)
            (λ b. ground (
              arith,
              src_found,
              dst_found,
              reads,
              counts,
              same,
              count-counted peer v (omega (arith, c.per_peer)),
            )),
        put_messages-Announces task v e more src_offset dst_offset size,
        λ near far a.
            put_messages-copied task v e near (suc more) src_offset dst_offset size far a covers
              src_fits dst_fits,
        put_messages-Parts task v e (suc more) src_offset dst_offset size,
      )

  -- `get` between registered slots posts one chain to the peer, which copies just the bytes that it
  -- was asked to, and whose last message, a write of no bytes, alone is counted at the peer. Each
  -- other message is an RDMA read with the keys of both ends, of no more bytes than the device takes
  -- in one message.
  -- Conditions: the slots are registered for both ends, there is a counter for every peer, the number
  -- of messages is one that an int holds, and offset and size do not wrap around at either end.
  -- A chain that the device refuses makes the call throw, with the counters as before, but with the
  -- event of the task.
  pub get-Posts :
      ends peer dst src v ≡ some e
      → (chain : List WorkRequest) × Posts task peer chain v
          (λ b. get task b peer src_slot src_offset dst_slot dst_offset size v)
        × Announces task v.sync_counter chain
        × ((far near : Bytes) (a : ℕ)
            → fetched far chain near a
              ≡ copied (e.remote_base + src_offset) (e.local_base + dst_offset) size far near a)
        × ((parts : List WorkRequest) × (last : WorkRequest) × (chain ≡ parts ++ last ∷ [])
            × Parts is_read v.max_msg_size e parts
            × IsEmpty last)
  unfolding get
  get-Posts reads =
      let (n, counts, enough) = message_count-suffices v.max_msg_size size splits few in
      let chain : List WorkRequest =
        get_messages task v e n dst_offset src_offset size
        ++ completion task v e e.local_base e.remote_base ∷ [] in
      (
        chain,
        post-Posts task peer chain v c here
            (λ b. get task b peer src_slot src_offset dst_slot dst_offset size v)
            (λ b. ground (
              arith,
              src_found,
              dst_found,
              reads,
              counts,
              count-counted peer v (omega (arith, c.per_peer)),
            )),
        get_messages-Announces task v e n dst_offset src_offset size e.local_base e.remote_base,
        λ far near a.
            get_messages-copied task v e far n dst_offset src_offset size e.local_base e.remote_base
              near a enough src_fits dst_fits,
        (
          get_messages task v e n dst_offset src_offset size,
          completion task v e e.local_base e.remote_base,
          refl,
          get_messages-Parts task v e n dst_offset src_offset size,
          completion-IsEmpty task v e e.local_base e.remote_base,
        ),
      )
