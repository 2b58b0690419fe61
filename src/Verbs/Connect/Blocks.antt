-- ===== src/Verbs/Connect/Blocks.antt =====
-- The parts of `reconnectQPs` of src/MPI/ibverbs.cpp: both blocks that are tried, the reduction
-- after each, the exchange, and the end.
use talpf.Prelude.{
  ℕ, zero, suc, ◌+◌, ◌<◌, ◌≡◌, refl, ap, Bool, true, false, Option, some, none, List, [], ◌∷◌,
  length, replicate, if◌then◌else◌, Exception, Exec, returns, throws, fault, bad_alloc, within,
  verbs_error, arith,
}
use talpf.Verbs.Connect.{
  QueuePair, barrier, allreduce_or, all_to_all, allgather_lid, allgather_gid, Links, ConnectAnswers,
  log, qp_nums, my_gid, describe, vote, exchange_info, bring_up_from, bring_up_all, set_init,
  set_rtr, set_rts, reset_first, replace_qps,
}
use talpf.Verbs.Connect.Loop.{
  has_all, IsAnswered, connected_to, qp_nums-has_all, AllEnded, bring_up_from-AllEnded,
}

-- The vectors have an element for each process, and all queue pairs are staged.
pub record IsStaged (l : Links) : Type 0 where
  pub nprocs_pos : 0 < l.nprocs
  pub staged_length : length l.staged ≡ l.nprocs
  pub connected_length : length l.connected ≡ l.nprocs
  pub all_staged : has_all l.nprocs l.staged ≡ true

abbrev pub Described : ConnectAnswers → Links → Exec Links → Type 0
Described a l (returns m) = (m ≡ l) × ((g : ℕ) × (my_gid a l ≡ some g))
Described a l (throws e m) = m ≡ l
Described a l fault = ⊥

block_by_gid :
    (a : ConnectAnswers) (l : Links) (o : Option ℕ) (ns : List ℕ)
    → my_gid a l ≡ o
    → qp_nums l.nprocs l.staged ≡ some ns
    → Described a l (elim o [
      | none ↦ throws verbs_error l
      | some g ↦
          if a.allocates
          then elim (qp_nums l.nprocs l.staged) [ none ↦ fault | some ns ↦ returns l ]
          else throws bad_alloc l
    ])
block_by_gid a l none ns e f = refl
block_by_gid a l (some g) ns e f =
    rw f (elim a.allocates as (λ b. Described a l (if b then returns l else throws bad_alloc l)) [
      | true ↦ (refl, (g, e))
      | false ↦ refl
    ])

pub describe-Described :
    (a : ConnectAnswers) (l : Links) → IsStaged l → Described a l (describe a l)
unfolding describe
describe-Described a l ok =
    let (ns, e) = qp_nums-has_all l.nprocs l.staged ok.all_staged in
    block_by_gid a l (my_gid a l) ns refl e

-- The state after the exchange.
abbrev pub after_exchange : ℕ → List ℕ → Links → Links
after_exchange g ns l = record l {
  calls =
      allgather_gid g
      ∷ allgather_lid l.lid
      ∷ all_to_all ns
      ∷ allreduce_or false
      ∷ barrier
      ∷ l.calls;
}

pub exchange_info_lem :
    (a : ConnectAnswers) (l : Links) (g : ℕ) (ns : List ℕ)
    → my_gid a l ≡ some g
    → qp_nums l.nprocs l.staged ≡ some ns
    → exchange_info a (log (allreduce_or false) (log barrier l)) ≡ returns (after_exchange g ns l)
unfolding exchange_info
exchange_info_lem a l g ns e f = ground (arith, e, f)

-- What the second block makes of the staged queue pairs.
abbrev pub Raised : ConnectAnswers → Links → Exec Links → Type 0
Raised a n (returns m) =
    (qs : List (Option QueuePair)) × (m ≡ record n { staged = qs })
    × AllEnded n a n.nprocs 0 n.staged (returns qs)
Raised a n (throws e m) =
    (qs : List (Option QueuePair)) × (m ≡ record n { staged = qs })
    × AllEnded n a n.nprocs 0 n.staged (throws e qs)
Raised a n fault = ⊥

block_by_loop :
    (a : ConnectAnswers) (n : Links) (o : Exec (List (Option QueuePair)))
    → AllEnded n a n.nprocs 0 n.staged o
    → Raised a n (within o (λ qs. record n { staged = qs }) returns)
block_by_loop a n (returns qs) h = (qs, refl, h)
block_by_loop a n (throws e qs) h = (qs, refl, h)
block_by_loop a n fault h = h

pub bring_up_all-Raised :
    (a : ConnectAnswers) (n : Links)
    → IsAnswered a n.nprocs
    → has_all n.nprocs n.staged ≡ true
    → Raised a n (bring_up_all a n)
unfolding bring_up_all
bring_up_all-Raised a n ok h =
    block_by_loop a n (bring_up_from n a n.nprocs 0 n.staged)
      (bring_up_from-AllEnded n a n.nprocs n.nprocs 0 n.staged ok (omega arith) h)

-- The rule for a block that is tried, with what is known of its outcome.
pub vote_rule :
    (Q P : Exec Links → Type 0) (o : Exec Links) (failed : Bool) (next : Links → Exec Links)
    → Q o
    → (Q fault → ⊥)
    → ((e : Exception) (m : Links)
        → o ≡ throws e m
        → Q (throws e m)
        → P (throws e (log (allreduce_or true) m)))
    → ((m : Links)
        → failed ≡ true
        → Q (returns m)
        → P (throws verbs_error (log (allreduce_or false) m)))
    → ((m : Links) → failed ≡ false → Q (returns m) → P (next (log (allreduce_or false) m)))
    → P (vote o failed next)
unfolding vote
vote_rule Q P fault failed next h none_ caught heard on = absurd (none_ h)
vote_rule Q P (throws e m) failed next h none_ caught heard on = caught e m refl h
vote_rule Q P (returns m) true next h none_ caught heard on = heard m refl h
vote_rule Q P (returns m) false next h none_ caught heard on = on m refl h

reset_first-replicate :
    (k : ℕ) (qs : List (Option QueuePair))
    → length qs ≡ k
    → reset_first k qs ≡ some (replicate k none)
unfolding reset_first
reset_first-replicate zero [] h = refl
reset_first-replicate zero (q ∷ qs) h = absurd (omega (arith, h))
reset_first-replicate (suc k) [] h = absurd (omega (arith, h))
reset_first-replicate (suc k) (q ∷ qs) h =
    ground (arith, reset_first-replicate k qs (omega (arith, h)))

pub replace_qps_lem :
    (l : Links)
    → length l.connected ≡ l.nprocs
    → replace_qps l
      ≡ returns (record l {
        connected = l.staged;
        staged = replicate l.nprocs none;
        calls = barrier ∷ l.calls;
      })
unfolding replace_qps
replace_qps_lem l h = ground (arith, reset_first-replicate l.nprocs l.connected h)

pub connected_to-after_exchange :
    (a : ConnectAnswers) (l : Links) (g : ℕ) (ns : List ℕ) (j : ℕ) (q : QueuePair)
    → connected_to (after_exchange g ns l) a (0 + j) q ≡ connected_to l a j q
unfolding set_init set_rtr set_rts
connected_to-after_exchange a l g ns j q =
    let same : 0 + j ≡ j = omega arith in ap (λ t. connected_to l a t q) same
