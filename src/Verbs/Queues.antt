-- ===== src/Verbs/Queues.antt =====
-- The queues of src/MPI/ibverbs.cpp: resizeMesgq and stageQPs. `creates` is what ibv_create_qp
-- answers for each peer, false for null. The completion queues and the shared receive queue exist.
pub mod Bounds
mod Tests
use talpf.Prelude.{
  ℕ, zero, suc, ◌+◌, ◌-◌, ◌*◌, ◌/◌, ◌%◌, ◌^◌, ◌≤◌, ◌≡◌, ◌⊎◌, inl, inr, Bool, true, false, List, [],
  ◌∷◌, ltb, leb, if◌then◌else◌, size_mod, Exec, returns, throws, fault, bad_alloc, arith, on_return,
}
use Prim.Native.Nat.{min as min_of}
use talpf.Verbs.{Verbs, post_recv, create_qp, resize_cq_local, resize_cq_remote}

-- The loop of `IBVerbs::stageQPs` over as many peers, from peer `i` on, with the room of each queue.
unfoldable pub stage_from : ℕ → List Bool → ℕ → ℕ → Verbs → Exec Verbs
stage_from zero creates i room v = returns v
stage_from (suc k) [] i room v = fault
stage_from (suc k) (created ∷ creates) i room v =
    let w : Verbs = record v { calls = create_qp i room ∷ v.calls } in
    let rest : Exec Verbs = stage_from k creates (suc i) room w in
    if created then rest else throws bad_alloc w

-- `IBVerbs::stageQPs`
unfoldable pub stage_qps : List Bool → ℕ → Verbs → Exec Verbs
unfolding stage_from
stage_qps creates max_msgs v =
    stage_from v.nprocs creates 0 (min_of ((max_msgs + v.min_nr_msgs) % size_mod) (v.max_srs / 4)) v

-- The loop that posts as many receives.
unfoldable pub post_recvs : ℕ → Verbs → Verbs
post_recvs zero v = v
post_recvs (suc k) v =
    post_recvs k (record v { calls = post_recv ∷ v.calls; post_count = suc v.post_count })

abbrev pub local_size : ℕ → Verbs → ℕ
local_size size v = min_of size (v.max_srs / 4)

abbrev pub remote_size : ℕ → Verbs → ℕ
remote_size size v = min_of ((local_size size v * v.nprocs) % size_mod) (v.max_srs / 4)

-- Both completion queues; the remote one only if it does not become too small.
unfoldable pub resize_cqs : ℕ → Verbs → Verbs
resize_cqs size v =
    let w : Verbs = record v {
      cq_size = local_size size v;
      calls = resize_cq_local (local_size size v) ∷ v.calls;
    } in
    if leb v.post_count (remote_size size v)
    then record w { calls = resize_cq_remote (remote_size size v) ∷ w.calls }
    else w

-- `IBVerbs::resizeMesgq`; there is no result for a size that an `int` does not hold.
unfoldable pub resize_mesgq : List Bool → ℕ → Verbs → Exec Verbs
unfolding stage_qps post_recvs resize_cqs
resize_mesgq creates size v =
    let remote : ℕ = remote_size size v in
    on_return (stage_qps creates (local_size size v) (resize_cqs size v)) λ w.
      if leb v.post_count remote
      then (if ltb remote (2 ^ 31) then returns (post_recvs (remote - w.post_count) w) else fault)
      else returns w
