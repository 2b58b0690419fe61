-- ===== src/Verbs/Connect/Loop.antt =====
-- The loop of `reconnectQPs` of src/MPI/ibverbs.cpp that brings the staged queue pairs up.
use talpf.Prelude.{
  ℕ, zero, suc, ◌+◌, ◌≤◌, ◌<◌, ◌≡◌, refl, ap, subst, within, ◌&&◌, Bool, true, false, Option, some,
  none, List, [], ◌∷◌, length, get_elem?, get_or, get_elem?-get_or, Exec, returns, throws, fault,
  verbs_error, arith, bind-some, if◌then◌else◌,
}
use talpf.Verbs.Connect.{
  QueuePair, Links, Modified, ConnectAnswers, qp_nums, set_init, set_rtr, set_rts, bring_up,
  bring_up_at, bring_up_from,
}

-- None of as many pointers is null.
abbrev pub has_all : ℕ → List (Option QueuePair) → Bool
has_all zero qs = true
has_all (suc k) [] = false
has_all (suc k) (none ∷ qs) = false
has_all (suc k) (some q ∷ qs) = has_all k qs

-- MPI fills each vector, and the verbs library answers for each peer.
pub record IsAnswered (a : ConnectAnswers) (n : ℕ) : Type 0 where
  pub nums_length : length a.remote_qp_nums ≡ n
  pub lids_length : length a.lids ≡ n
  pub gids_length : length a.gids ≡ n
  pub modifies_length : length a.modifies ≡ n

abbrev refused : Modified
refused = record { init_ok = false; rtr_ok = false; rts_ok = false }

-- A queue pair that is connected to the `i`-th answer.
abbrev pub connected_to : Links → ConnectAnswers → ℕ → QueuePair → QueuePair
connected_to l a i q =
    set_rts (
      set_rtr l (get_or a.remote_qp_nums i 0) (get_or a.lids i 0) (get_or a.gids i 0)
        (set_init l q))

pub qp_nums-has_all :
    (k : ℕ) (qs : List (Option QueuePair))
    → has_all k qs ≡ true
    → (ns : List ℕ) × (qp_nums k qs ≡ some ns)
unfolding qp_nums
qp_nums-has_all zero qs h = ([], refl)
qp_nums-has_all (suc k) [] h = absurd (ground (arith, h))
qp_nums-has_all (suc k) (none ∷ qs) h = absurd (ground (arith, h))
qp_nums-has_all (suc k) (some q ∷ qs) h =
    let (ns, e) = qp_nums-has_all k qs h in (q.qp_num ∷ ns, ground (arith, e))

pub qp_nums-at :
    (k : ℕ) (qs : List (Option QueuePair)) {ns : List ℕ} (j : ℕ) {q : QueuePair}
    → qp_nums k qs ≡ some ns
    → j < k
    → get_elem? qs j ≡ some (some q)
    → get_elem? ns j ≡ some q.qp_num
unfolding qp_nums
qp_nums-at zero qs j e h at = absurd (omega arith)
qp_nums-at (suc k) [] j e h at = absurd (ground (arith, e))
qp_nums-at (suc k) (none ∷ qs) j e h at = absurd (ground (arith, e))
qp_nums-at (suc k) (some q ∷ qs) zero e h at =
    let (ns, _, f) = bind-some (qp_nums k qs) (λ ns. some (q.qp_num ∷ ns)) _ e in ground (arith, f)
qp_nums-at (suc k) (some q ∷ qs) (suc j) e h at =
    let (ns, f, g) = bind-some (qp_nums k qs) (λ ns. some (q.qp_num ∷ ns)) _ e in
    ground (arith, g, qp_nums-at k qs j f (omega arith) at)

abbrev succeeds : Modified → Bool
succeeds m = m.init_ok && m.rtr_ok && m.rts_ok

-- What a failure leaves.
abbrev left_by : Links → ℕ → ℕ → ℕ → Modified → QueuePair → QueuePair
left_by l num lid gid m q =
    if m.init_ok
    then (if m.rtr_ok then set_rtr l num lid gid (set_init l q) else set_init l q)
    else q

bring_up_lem :
    (l : Links) (num lid gid : ℕ) (m : Modified) (q : QueuePair)
    → bring_up l num lid gid m q ≡ (
        if succeeds m
        then returns (set_rts (set_rtr l num lid gid (set_init l q)))
        else throws verbs_error (left_by l num lid gid m q))
unfolding bring_up
bring_up_lem l num lid gid m q = ground arith

left_by-qp_num :
    (l : Links) (num lid gid : ℕ) (m : Modified) (q : QueuePair)
    → (left_by l num lid gid m q).qp_num ≡ q.qp_num
unfolding set_init set_rtr
left_by-qp_num l num lid gid m q = ground arith

-- The body of the loop is in range; the queue pair is connected, or there is an exception.
bring_up_at_lem :
    (l : Links) (a : ConnectAnswers) (n i : ℕ) (q : QueuePair)
    → IsAnswered a n
    → i < n
    → bring_up_at l a i q
      ≡ bring_up l
          (get_or a.remote_qp_nums i 0)
          (get_or a.lids i 0)
          (get_or a.gids i 0)
          (get_or a.modifies i refused)
          q
unfolding bring_up_at
bring_up_at_lem l a n i q ok h = ground (
  arith,
  get_elem?-get_or a.remote_qp_nums i 0 (omega arith),
  get_elem?-get_or a.lids i 0 (omega arith),
  get_elem?-get_or a.gids i 0 (omega arith),
  get_elem?-get_or a.modifies i refused (omega arith),
)

abbrev Ended : Links → ConnectAnswers → ℕ → QueuePair → Exec QueuePair → Type 0
Ended l a i q (returns p) = p ≡ connected_to l a i q
Ended l a i q (throws e p) = p.qp_num ≡ q.qp_num
Ended l a i q fault = ⊥

pub bring_up_at-Ended :
    (l : Links) (a : ConnectAnswers) (n i : ℕ) (q : QueuePair)
    → IsAnswered a n
    → i < n
    → Ended l a i q (bring_up_at l a i q)
bring_up_at-Ended l a n i q ok h =
    let m : Modified = get_or a.modifies i refused in
    let num : ℕ = get_or a.remote_qp_nums i 0 in
    let lid : ℕ = get_or a.lids i 0 in
    let gid : ℕ = get_or a.gids i 0 in
    rw (bring_up_at_lem l a n i q ok h, bring_up_lem l num lid gid m q)
      (elim (succeeds m)
        as (λ b. Ended l a i q (
          if b
          then returns (connected_to l a i q)
          else throws verbs_error (left_by l num lid gid m q))) [
            | true ↦ refl
            | false ↦ left_by-qp_num l num lid gid m q
          ])

-- As many queue pairs, the answers from `i` on: all of them are connected, or an exception leaves
-- the same numbers.
abbrev pub AllEnded :
    Links
    → ConnectAnswers
    → ℕ
    → ℕ
    → List (Option QueuePair)
    → Exec (List (Option QueuePair))
    → Type 0
AllEnded l a k i qs (returns ps) =
    (length ps ≡ length qs)
    × (qp_nums k ps ≡ qp_nums k qs)
    × ((j : ℕ) (q : QueuePair)
        → j < k
        → get_elem? qs j ≡ some (some q)
        → get_elem? ps j ≡ some (some (connected_to l a (i + j) q)))
AllEnded l a k i qs (throws e ps) = (length ps ≡ length qs) × (qp_nums k ps ≡ qp_nums k qs)
AllEnded l a k i qs fault = ⊥

connected_at :
    (l : Links) (a : ConnectAnswers) (k i : ℕ) (q p : QueuePair) (qs ps : List (Option QueuePair))
    → p ≡ connected_to l a i q
    → AllEnded l a k (suc i) qs (returns ps)
    → (j : ℕ) (r : QueuePair) → j < suc k
    → get_elem? (some q ∷ qs) j ≡ some (some r)
    → get_elem? (some p ∷ ps) j ≡ some (some (connected_to l a (i + j) r))
connected_at l a k i q p qs ps e h zero r lt at =
    let same : i + 0 ≡ i = omega arith in ground (arith, e, at, same)
connected_at l a k i q p qs ps e h (suc j) r lt at =
    let same : suc i + j ≡ i + suc j = omega arith in
    subst (λ t. get_elem? ps j ≡ some (some (connected_to l a t r))) same (h.2 j r (omega arith) at)

connected_to-qp_num :
    (l : Links) (a : ConnectAnswers) (i : ℕ) (q : QueuePair)
    → (connected_to l a i q).qp_num ≡ q.qp_num
unfolding set_init set_rtr set_rts
connected_to-qp_num l a i q = refl

-- One turn of the loop.
turn-AllEnded :
    (l : Links) (a : ConnectAnswers) (k i : ℕ) (q : QueuePair) (qs : List (Option QueuePair))
    (o : Exec QueuePair) (rest : Exec (List (Option QueuePair)))
    → Ended l a i q o
    → AllEnded l a k (suc i) qs rest
    → AllEnded l a (suc k) i (some q ∷ qs) (elim o [
      | returns p ↦ within rest (λ ps. some p ∷ ps) returns
      | throws e p ↦ throws e (some p ∷ qs)
      | fault ↦ fault
    ])
unfolding qp_nums
turn-AllEnded l a k i q qs fault rest h hs = h
turn-AllEnded l a k i q qs (throws e p) rest h hs = (refl, ground (arith, h))
turn-AllEnded l a k i q qs (returns p) fault h hs = hs
turn-AllEnded l a k i q qs (returns p) (throws e ps) h hs =
    (ap suc hs.0, ground (arith, connected_to-qp_num l a i q, h, hs.1))
turn-AllEnded l a k i q qs (returns p) (returns ps) h hs = (
  ap suc hs.0,
  ground (arith, connected_to-qp_num l a i q, h, hs.1),
  connected_at l a k i q p qs ps h hs,
)

pub bring_up_from-AllEnded :
    (l : Links) (a : ConnectAnswers) (n k i : ℕ) (qs : List (Option QueuePair))
    → IsAnswered a n
    → k + i ≤ n
    → has_all k qs ≡ true
    → AllEnded l a k i qs (bring_up_from l a k i qs)
unfolding bring_up_from
bring_up_from-AllEnded l a n zero i qs ok h all = (refl, refl, λ j r lt at. absurd (omega arith))
bring_up_from-AllEnded l a n (suc k) i [] ok h all = absurd (ground (arith, all))
bring_up_from-AllEnded l a n (suc k) i (none ∷ qs) ok h all = absurd (ground (arith, all))
bring_up_from-AllEnded l a n (suc k) i (some q ∷ qs) ok h all =
    turn-AllEnded l a k i q qs (bring_up_at l a i q) (bring_up_from l a k (suc i) qs)
      (bring_up_at-Ended l a n i q ok (omega arith))
      (bring_up_from-AllEnded l a n k (suc i) qs ok (omega arith) all)
