-- ===== src/Verbs/Connect/Whole.antt =====
-- The whole of `reconnectQPs` of src/MPI/ibverbs.cpp, for one process.
use talpf.Prelude.{
  ℕ, zero, suc, ◌<◌, ◌≡◌, refl, ap, ◌∙◌, Bool, true, false, ◌||◌, Option, some, none, List, [], ◌∷◌,
  get_elem?, replicate, if◌then◌else◌, Exec, returns, throws, fault, on_return, arith,
}
use talpf.Verbs.Connect.{
  QueuePair, Collective, barrier, allreduce_or, all_to_all, allgather_lid, allgather_gid, Links,
  ConnectAnswers, log, qp_nums, my_gid, describe, vote, exchange_info, bring_up_all, replace_qps,
  reconnect,
}
use talpf.Verbs.Connect.Loop.{has_all, IsAnswered, connected_to, qp_nums-has_all}
use talpf.Verbs.Connect.Blocks.{
  IsStaged, Described, describe-Described, after_exchange, exchange_info_lem, Raised,
  bring_up_all-Raised, vote_rule, replace_qps_lem, connected_to-after_exchange,
}

abbrev pub thrown : Exec Links → Bool
thrown (returns l) = false
thrown (throws e l) = true
thrown fault = false

-- The answer of a reduction is true if the process itself says so.
pub record IsHeard (a : ConnectAnswers) (l : Links) : Type 0 where
  pub own_peer : thrown (describe a (log barrier l)) ≡ true → a.peer_failed ≡ true
  pub own_other :
      thrown
          (on_return (exchange_info a (log (allreduce_or false) (log barrier l))) (bring_up_all a))
        ≡ true
      → a.other_failed ≡ true

-- Which calls there are, without what is passed to them.
abbrev pub shape : List Collective → List Collective
shape [] = []
shape (barrier ∷ cs) = barrier ∷ shape cs
shape (allreduce_or b ∷ cs) = allreduce_or false ∷ shape cs
shape (all_to_all ns ∷ cs) = all_to_all [] ∷ shape cs
shape (allgather_lid n ∷ cs) = allgather_lid 0 ∷ shape cs
shape (allgather_gid n ∷ cs) = allgather_gid 0 ∷ shape cs

-- The calls for the answers of both reductions.
abbrev pub calls_due : Bool → Bool → List Collective → List Collective
calls_due peer other cs =
    let first : List Collective = allreduce_or false ∷ barrier ∷ cs in
    let second : List Collective =
      allreduce_or false ∷ allgather_gid 0 ∷ allgather_lid 0 ∷ all_to_all [] ∷ first in
    if peer then first else (if other then second else barrier ∷ second)

-- The process returns with its queue pairs connected, or throws and keeps the old ones.
abbrev pub Outcome : ConnectAnswers → Links → Exec Links → Type 0
Outcome a l (returns m) =
    (a.peer_failed || a.other_failed ≡ false)
    × (shape m.calls ≡ calls_due a.peer_failed a.other_failed (shape l.calls))
    × (m.staged ≡ replicate l.nprocs none)
    × ((j : ℕ) (q : QueuePair)
        → j < l.nprocs
        → get_elem? l.staged j ≡ some (some q)
        → get_elem? m.connected j ≡ some (some (connected_to l a j q)))
Outcome a l (throws e m) =
    (a.peer_failed || a.other_failed ≡ true)
    × (shape m.calls ≡ calls_due a.peer_failed a.other_failed (shape l.calls))
    × (m.connected ≡ l.connected)
    × (qp_nums l.nprocs m.staged ≡ qp_nums l.nprocs l.staged)
Outcome a l fault = ⊥

second-Outcome :
    (a : ConnectAnswers) (l : Links) (g : ℕ) (ns : List ℕ)
    → IsStaged l
    → IsAnswered a l.nprocs
    → a.peer_failed ≡ false
    → (thrown (bring_up_all a (after_exchange g ns l)) ≡ true → a.other_failed ≡ true)
    → Outcome a l (vote (bring_up_all a (after_exchange g ns l)) a.other_failed replace_qps)
second-Outcome a l g ns ok answered went heard =
    let n : Links = after_exchange g ns l in
    vote_rule (Raised a n) (Outcome a l) (bring_up_all a n) a.other_failed replace_qps
      (bring_up_all-Raised a n answered ok.all_staged) (λ h. h)
      (λ e m f (qs, same, h).
        let failed : a.other_failed ≡ true = heard (ap thrown f) in
        rw same (ground arith, ground arith, refl, h.1))
      (λ m f (qs, same, h). rw same (ground arith, ground arith, refl, h.1))
      (λ m f (qs, same, h).
        rw
          (
            same,
            replace_qps_lem (log (allreduce_or false) (record n { staged = qs }))
                ok.connected_length,
          )
          (
            ground arith,
            ground arith,
            refl,
            λ j q lt at.
                h.2 j q lt at ∙ ap (λ t. some (some t)) (connected_to-after_exchange a l g ns j q),
          ))

first_staged :
    (k : ℕ) (qs : List (Option QueuePair))
    → 0 < k
    → has_all k qs ≡ true
    → (q : QueuePair) × (get_elem? qs 0 ≡ some (some q))
first_staged zero qs lt h = absurd (omega arith)
first_staged (suc k) [] lt h = absurd (ground (arith, h))
first_staged (suc k) (none ∷ qs) lt h = absurd (ground (arith, h))
first_staged (suc k) (some q ∷ qs) lt h = (q, refl)

reconnect_lem :
    (a : ConnectAnswers) (l : Links) (q : QueuePair)
    → get_elem? l.staged 0 ≡ some (some q)
    → reconnect a l
      ≡ vote
          (describe a (log barrier l))
          a.peer_failed
          λ m. on_return (exchange_info a m) λ n. vote (bring_up_all a n) a.other_failed replace_qps
unfolding reconnect
reconnect_lem a l q e = ground (arith, e)

pub reconnect-Outcome :
    (a : ConnectAnswers) (l : Links)
    → IsStaged l
    → IsAnswered a l.nprocs
    → IsHeard a l
    → Outcome a l (reconnect a l)
unfolding my_gid
reconnect-Outcome a l ok answered heard =
    let (q, e) = first_staged l.nprocs l.staged ok.nprocs_pos ok.all_staged in
    let (ns, f) = qp_nums-has_all l.nprocs l.staged ok.all_staged in
    let l1 : Links = log barrier l in
    rw (reconnect_lem a l q e) (
      vote_rule (Described a l1) (Outcome a l) (describe a l1) a.peer_failed
        (λ m. on_return (exchange_info a m) λ n. vote (bring_up_all a n) a.other_failed replace_qps)
        (describe-Described a l1 (record {
          nprocs_pos = ok.nprocs_pos;
          staged_length = ok.staged_length;
          connected_length = ok.connected_length;
          all_staged = ok.all_staged;
        }))
        (λ h. h)
        (λ x m at same.
          let failed : a.peer_failed ≡ true = heard.own_peer (ap thrown at) in
          rw same (ground arith, ground arith, refl, refl))
        (λ m failed (same, h). rw same (ground arith, ground arith, refl, refl))
        (λ m went (same, (g, h)).
          let told : exchange_info a (log (allreduce_or false) l1)
              ≡ returns (after_exchange g ns l) =
            exchange_info_lem a l g ns h f in
          rw (same, told)
            (second-Outcome a l g ns ok answered went (λ t. heard.own_other (rw told t)))))
