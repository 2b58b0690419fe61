-- ===== src/Verbs/Queues/Bounds.antt =====
-- How much room resizeMesgq of src/MPI/ibverbs.cpp leaves in the queues.
use talpf.Prelude.{
  ℕ, zero, suc, ◌+◌, ◌-◌, ◌*◌, ◌/◌, ◌%◌, size_mod, ◌^◌, ◌<◌, ◌≡◌, refl, Bool, true, false, List, [],
  ◌∷◌, length, every, leb, if◌then◌else◌, Exec, returns, throws, bad_alloc, arith, Bool-cases, inl,
  inr,
}
use Prim.Native.Nat.{max as max_of, min as min_of}
use talpf.Verbs.{Verbs, Call, post_recv, create_qp, resize_cq_local, resize_cq_remote}
use talpf.Verbs.Queues.{stage_from, stage_qps, post_recvs, resize_cqs, resize_mesgq}

is_post_recv : Call → Bool
is_post_recv post_recv = true
is_post_recv c = false

-- How many receives were posted.
unfoldable pub receives : List Call → ℕ
unfolding is_post_recv
receives [] = 0
receives (c ∷ cs) = if is_post_recv c then suc (receives cs) else receives cs

-- The calls that create queue pairs, from process `i` on and up to the first that is refused.
abbrev pub creates_due : ℕ → ℕ → List Bool → List Call → List Call
creates_due room i [] cs = cs
creates_due room i (true ∷ creates) cs = creates_due room (suc i) creates (create_qp i room ∷ cs)
creates_due room i (false ∷ creates) cs = create_qp i room ∷ cs

-- So many receives more.
abbrev pub receives_due : ℕ → List Call → List Call
receives_due zero cs = cs
receives_due (suc n) cs = receives_due n (post_recv ∷ cs)

-- The completion queues: the local one, and the remote one unless it becomes too small.
abbrev pub queues_due : Bool → ℕ → ℕ → List Call → List Call
queues_due true near far cs = resize_cq_remote far ∷ resize_cq_local near ∷ cs
queues_due false near far cs = resize_cq_local near ∷ cs

-- The state after a loop over the peers, and how it ends.
abbrev pub staged : Bool → Verbs → Exec Verbs
staged true w = returns w
staged false w = throws bad_alloc w

stage_from-staged :
    (k i room : ℕ) (creates : List Bool) (v : Verbs)
    → length creates ≡ k
    → (receives (creates_due room i creates v.calls) ≡ receives v.calls)
      × (stage_from k creates i room v
          ≡ staged (every creates) (record v { calls = creates_due room i creates v.calls }))
unfolding stage_from every receives
stage_from-staged zero i room [] v e = (refl, refl)
stage_from-staged zero i room (b ∷ bs) v e = absurd (omega (arith, e))
stage_from-staged (suc k) i room [] v e = absurd (omega (arith, e))
stage_from-staged (suc k) i room (false ∷ bs) v e = (refl, refl)
stage_from-staged (suc k) i room (true ∷ bs) v e =
    stage_from-staged k (suc i) room bs (record v { calls = create_qp i room ∷ v.calls })
      (omega (arith, e))

-- `w` is `v` but for its calls, with `n` more receives posted and counted.
record Posted (n : ℕ) (v w : Verbs) : Type 0 where
  count : w.post_count ≡ v.post_count + n
  calls : receives w.calls ≡ receives v.calls + n
  log : w.calls ≡ receives_due n v.calls
  same_size : w.cq_size ≡ v.cq_size

post_recvs-Posted : (n : ℕ) (v : Verbs) → Posted n v (post_recvs n v)
unfolding post_recvs receives
post_recvs-Posted zero v = record {
  count = omega arith;
  calls = omega arith;
  log = refl;
  same_size = refl;
}
post_recvs-Posted (suc n) v =
    let w : Verbs = record v { calls = post_recv ∷ v.calls; post_count = suc v.post_count } in
    let p : Posted n w (post_recvs n w) = post_recvs-Posted n w in
    record {
      count = omega (arith, p.count);
      calls = omega (arith, p.calls);
      log = p.log;
      same_size = p.same_size;
    }

module _ (size : ℕ) (v : Verbs) where
  -- The sizes that are asked of the queues, and the room of a queue pair.
  abbrev pub near_size : ℕ
  near_size = min_of size (v.max_srs / 4)

  abbrev pub far_size : ℕ
  far_size = min_of ((near_size * v.nprocs) % size_mod) (v.max_srs / 4)

  abbrev pub pair_room : ℕ
  pair_room = min_of ((near_size + v.min_nr_msgs) % size_mod) (v.max_srs / 4)

  abbrev pub resized_calls : List Call
  resized_calls = queues_due (leb v.post_count far_size) near_size far_size v.calls

  resize_cqs-calls :
      (resize_cqs size v ≡ record v { cq_size = near_size; calls = resized_calls })
      × (receives resized_calls ≡ receives v.calls)
  unfolding resize_cqs receives
  resize_cqs-calls = elim (Bool-cases (leb v.post_count far_size)) [
    | inl roomy ↦ (ground (arith, roomy), rw roomy refl)
    | inr full ↦ (ground (arith, full), rw full refl)
  ]

-- `resizeMesgq` resizes the local completion queue to as many entries as are asked for, the remote
-- one to as many for each process, unless more receives are posted, and creates a queue pair for each
-- process, up to the first that is refused; each gets at most a quarter of the device's entries.
-- These are its calls, and the receives that follow. If every queue pair can be created, it posts just
-- the receives that bring their counted number up to the entries of the remote queue, and none if
-- there are more; if not, it throws std::bad_alloc and posts none.
-- Conditions: the device answers for every peer, and a quarter of its entries is a number that an
-- int holds.
pub resize_mesgq-receives :
    (creates : List Bool) (size : ℕ) (v : Verbs)
    → length creates ≡ v.nprocs
    → v.max_srs / 4 < 2 ^ 31
    → (w : Verbs) × (n : ℕ) × (resize_mesgq creates size v ≡ staged (every creates) w)
      × (w.cq_size ≡ min_of size (v.max_srs / 4))
      × (w.post_count ≡ v.post_count + n)
      × (receives w.calls ≡ receives v.calls + n)
      × (if every creates then w.post_count ≡ max_of v.post_count (far_size size v) else n ≡ 0)
      × (w.calls ≡ receives_due n (creates_due (pair_room size v) 0 creates (resized_calls size v)))
unfolding resize_mesgq stage_qps resize_cqs receives
resize_mesgq-receives creates size v answered small =
    let (both, same) = resize_cqs-calls size v in
    let cs : List Call = resized_calls size v in
    let x : Verbs = record v { cq_size = near_size size v; calls = cs } in
    let room : ℕ = pair_room size v in
    let (kept, goes) = stage_from-staged v.nprocs 0 room creates x answered in
    let y : Verbs = record x { calls = creates_due room 0 creates cs } in
    elim (Bool-cases (every creates)) [
      | inr refused ↦ (
        y,
        0,
        ground (arith, both, goes, refused),
        refl,
        omega arith,
        omega (arith, kept, same),
        rw refused refl,
        refl,
      )
      | inl all ↦ elim (Bool-cases (leb v.post_count (far_size size v))) [
        | inr enough ↦ (
          y,
          0,
          ground (arith, both, goes, all, enough),
          refl,
          omega arith,
          omega (arith, kept, same),
          rw all (ground (arith, enough)),
          refl,
        )
        | inl more ↦
            let n : ℕ = far_size size v - v.post_count in
            let p : Posted n y (post_recvs n y) = post_recvs-Posted n y in
            (
              post_recvs n y,
              n,
              ground (arith, both, goes, all, more, small),
              p.same_size,
              p.count,
              omega (arith, p.calls, kept, same),
              rw all (ground (arith, p.count, more)),
              p.log,
            )
      ]
    ]
