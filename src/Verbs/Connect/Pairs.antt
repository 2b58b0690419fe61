-- ===== src/Verbs/Connect/Pairs.antt =====
-- What `reconnectQPs` of src/MPI/ibverbs.cpp means for two processes: they agree on its outcome, and
-- their queue pairs are connected to each other.
use talpf.Prelude.{
  ℕ, ◌≤◌, ◌<◌, ◌≡◌, false, Option, some, none, List, get_elem?, Exec, returns, throws, fault, arith,
}
use talpf.Verbs.Connect.{QueuePair, AddressVector, rts, Links, ConnectAnswers, qp_nums, reconnect}
use talpf.Verbs.Connect.Loop.{IsAnswered}
use talpf.Verbs.Connect.Blocks.{IsStaged}
use talpf.Verbs.Connect.Whole.{IsHeard, shape, Outcome, reconnect-Outcome}

-- Both return or both throw, and they have taken part in the same collective calls.
abbrev pub Matches : Exec Links → Exec Links → Type 0
Matches (returns l) (returns m) = shape l.calls ≡ shape m.calls
Matches (throws e l) (throws f m) = shape l.calls ≡ shape m.calls
Matches _ _ = ⊥

pair_by_outcomes :
    (a b : ConnectAnswers) (l m : Links) (x y : Exec Links)
    → a.peer_failed ≡ b.peer_failed
    → a.other_failed ≡ b.other_failed
    → shape l.calls ≡ shape m.calls
    → Outcome a l x
    → Outcome b m y
    → Matches x y
pair_by_outcomes a b l m fault y e f s h k = h
pair_by_outcomes a b l m (returns x) fault e f s h k = k
pair_by_outcomes a b l m (throws t x) fault e f s h k = k
pair_by_outcomes a b l m (returns x) (returns y) e f s h k = ground (arith, h.1, k.1)
pair_by_outcomes a b l m (throws t x) (throws u y) e f s h k = ground (arith, h.1, k.1)
pair_by_outcomes a b l m (returns x) (throws u y) e f s h k = absurd (ground (arith, h.0, k.0))
pair_by_outcomes a b l m (throws t x) (returns y) e f s h k = absurd (ground (arith, h.0, k.0))

-- Two processes that get the same answers from the reductions, each of which is true if the process
-- itself says so, both return or both throw, and take part in the same collective calls: none of
-- them waits for the other for ever, whatever calls of the verbs library fail, and where.
pub reconnect-Matches :
    (a b : ConnectAnswers) (l m : Links)
    → IsStaged l
    → IsAnswered a l.nprocs
    → IsHeard a l
    → IsStaged m
    → IsAnswered b m.nprocs
    → IsHeard b m
    → a.peer_failed ≡ b.peer_failed
    → a.other_failed ≡ b.other_failed
    → shape l.calls ≡ shape m.calls
    → Matches (reconnect a l) (reconnect b m)
reconnect-Matches a b l m sl al hl sm am hm e f s =
    pair_by_outcomes a b l m (reconnect a l) (reconnect b m) e f s (reconnect-Outcome a l sl al hl)
      (reconnect-Outcome b m sm am hm)

-- What MPI_Alltoall and MPI_Allgather give a process from another one.
pub record IsToldBy (a : ConnectAnswers) (l : Links) (m : Links) : Type 0 where
  pub told_num :
      (ns : List ℕ)
      → qp_nums m.nprocs m.staged ≡ some ns
      → get_elem? a.remote_qp_nums m.pid ≡ get_elem? ns l.pid
  pub told_lid : get_elem? a.lids m.pid ≡ some m.lid

-- A process for which nothing fails.
pub record IsReady (a : ConnectAnswers) (l : Links) : Type 0 where
  pub in_range : l.pid < l.nprocs
  pub staged : IsStaged l
  pub answered : IsAnswered a l.nprocs
  pub heard : IsHeard a l
  pub no_peer_failed : a.peer_failed ≡ false
  pub no_other_failed : a.other_failed ≡ false

abbrev dlid_of : Option AddressVector → Option ℕ
dlid_of none = none
dlid_of (some v) = some v.dlid

-- A queue pair can send to another one, of the process with this LID: the numbers, the sequence
-- numbers and the numbers of outstanding reads fit.
pub record IsTowards (p : QueuePair) (q : QueuePair) (lid : ℕ) : Type 0 where
  pub is_up : p.state ≡ rts
  pub dest : p.dest_qp_num ≡ q.qp_num
  pub psn : p.sq_psn ≡ q.rq_psn
  pub reads : p.max_rd_atomic ≤ q.max_dest_rd_atomic
  pub dest_lid : dlid_of p.address ≡ some lid

-- The queue pairs of two processes for each other.
pub record IsJoined (l : Links) (m : Links) (l' : Links) (m' : Links) : Type 0 where
  pub near : QueuePair
  pub far : QueuePair
  pub near_at : get_elem? l'.connected m.pid ≡ some (some near)
  pub far_at : get_elem? m'.connected l.pid ≡ some (some far)
  pub near_far : IsTowards near far m.lid
  pub far_near : IsTowards far near l.lid

abbrev pub Joins : Links → Links → Exec Links → Exec Links → Type 0
Joins l m (returns l') (returns m') = IsJoined l m l' m'
Joins l m _ _ = ⊥
