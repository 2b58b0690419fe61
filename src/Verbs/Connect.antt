-- ===== src/Verbs/Connect.antt =====
-- `reconnectQPs` of src/MPI/ibverbs.cpp: the processes tell each other the numbers of their staged
-- queue pairs, and bring them up. What the collective calls and the verbs library answer is an
-- argument; `calls` are the collective calls, the last one first.
pub mod Loop
pub mod Blocks
pub mod Whole
pub mod Pairs
mod Tests
use talpf.Prelude.{
  ℕ, zero, suc, Bool, true, false, Option, some, none, List, [], ◌∷◌, get_elem?, if◌then◌else◌,
  ◌>>=◌, Exec, returns, throws, fault, bad_alloc, verbs_error, on_return, within,
}

-- `enum ibv_qp_state`, as far as it is used.
pub data QpState : Type 0 where
  reset init rtr rts : QpState

-- `struct ibv_ah_attr`; `grh` is the destination and the index of the source, for a global address.
pub record AddressVector : Type 0 where
  pub dlid : ℕ
  pub port_num : ℕ
  pub grh : Option (ℕ × ℕ)

-- A queue pair, with the attributes that are set. The key index, the access flags and the fields of
-- the address that are always 0 or 1 are left out.
pub record QueuePair : Type 0 where
  pub qp_num : ℕ
  pub state : QpState
  pub port_num : ℕ
  pub path_mtu : ℕ
  pub dest_qp_num : ℕ
  pub rq_psn : ℕ
  pub sq_psn : ℕ
  pub max_dest_rd_atomic : ℕ
  pub max_rd_atomic : ℕ
  pub min_rnr_timer : ℕ
  pub timeout : ℕ
  pub retry_cnt : ℕ
  pub rnr_retry : ℕ
  pub address : Option AddressVector

-- A collective call with what the process passes to it.
pub data Collective : Type 0 where
  barrier : Collective
  allreduce_or : Bool → Collective
  all_to_all : List ℕ → Collective
  allgather_lid : ℕ → Collective
  allgather_gid : ℕ → Collective

-- The members of `IBVerbs` that are used; a negative `m_gidIdx` is `none`, a null pointer too.
pub record Links : Type 0 where
  pub pid : ℕ
  pub nprocs : ℕ
  pub ib_port : ℕ
  pub gid_idx : Option ℕ
  pub mtu : ℕ
  pub lid : ℕ
  pub staged : List (Option QueuePair)
  pub connected : List (Option QueuePair)
  pub calls : List Collective

-- The three answers of ibv_modify_qp for a peer, true for success.
pub record Modified : Type 0 where
  pub init_ok : Bool
  pub rtr_ok : Bool
  pub rts_ok : Bool

-- All answers: ibv_query_gid (`none` for a failure), whether the vectors are allocated, both
-- reductions, the vectors that are exchanged, and ibv_modify_qp for each peer.
pub record ConnectAnswers : Type 0 where
  pub gid : Option ℕ
  pub allocates : Bool
  pub peer_failed : Bool
  pub remote_qp_nums : List ℕ
  pub lids : List ℕ
  pub gids : List ℕ
  pub modifies : List Modified
  pub other_failed : Bool

abbrev pub log : Collective → Links → Links
log c l = record l { calls = c ∷ l.calls }

-- `localQpNums`, of as many staged queue pairs; there is none where a pointer is null.
unfoldable pub qp_nums : ℕ → List (Option QueuePair) → Option (List ℕ)
qp_nums zero qs = some []
qp_nums (suc k) [] = none
qp_nums (suc k) (none ∷ qs) = none
qp_nums (suc k) (some q ∷ qs) = qp_nums k qs >>= λ ns. some (q.qp_num ∷ ns)

-- `myGid`, which is 0 if it is not used.
unfoldable pub my_gid : ConnectAnswers → Links → Option ℕ
my_gid a l = elim l.gid_idx [ none ↦ some 0 | some i ↦ a.gid ]

-- The first block that is tried.
unfoldable pub describe : ConnectAnswers → Links → Exec Links
unfolding my_gid
describe a l = elim (my_gid a l) [
  | none ↦ throws verbs_error l
  | some g ↦
      if a.allocates
      then elim (qp_nums l.nprocs l.staged) [ none ↦ fault | some ns ↦ returns l ]
      else throws bad_alloc l
]

-- The catch clause and the reduction after a block that is tried, and what comes then.
unfoldable pub vote : Exec Links → Bool → (Links → Exec Links) → Exec Links
vote (returns l) failed next =
    if failed
    then throws verbs_error (log (allreduce_or false) l)
    else next (log (allreduce_or false) l)
vote (throws e l) failed next = throws e (log (allreduce_or true) l)
vote fault failed next = fault

-- The exchange of the vectors: what is passed to it.
unfoldable pub exchange_info : ConnectAnswers → Links → Exec Links
unfolding my_gid
exchange_info a l = elim (qp_nums l.nprocs l.staged) [
  | none ↦ fault
  | some ns ↦ elim (my_gid a l) [
    | none ↦ fault
    | some g ↦
        returns
          (record l { calls = allgather_gid g ∷ allgather_lid l.lid ∷ all_to_all ns ∷ l.calls })
  ]
]

-- A call of ibv_modify_qp, which changes nothing if it fails.
abbrev pub modify : Bool → QueuePair → QueuePair → Exec QueuePair
modify true new old = returns new
modify false new old = throws verbs_error old

unfoldable pub set_init : Links → QueuePair → QueuePair
set_init l q = record q { state = init; port_num = l.ib_port }

unfoldable pub set_rtr : Links → ℕ → ℕ → ℕ → QueuePair → QueuePair
set_rtr l num lid gid q = record q {
  state = rtr;
  path_mtu = l.mtu;
  dest_qp_num = num;
  rq_psn = 0;
  max_dest_rd_atomic = 1;
  min_rnr_timer = 18;
  address = some (elim l.gid_idx [
    | none ↦ record { dlid = lid; port_num = l.ib_port; grh = none }
    | some i ↦ record { dlid = lid; port_num = 1; grh = some (gid, i) }
  ]);
}

unfoldable pub set_rts : QueuePair → QueuePair
set_rts q = record q {
  state = rts;
  timeout = 18;
  retry_cnt = 6;
  rnr_retry = 0;
  sq_psn = 0;
  max_rd_atomic = 1;
}

-- The body of the loop over the peers.
unfoldable pub bring_up : Links → ℕ → ℕ → ℕ → Modified → QueuePair → Exec QueuePair
unfolding set_init set_rtr set_rts
bring_up l num lid gid m q =
    on_return (modify m.init_ok (set_init l q) q) λ r.
      on_return (modify m.rtr_ok (set_rtr l num lid gid r) r) λ s. modify m.rts_ok (set_rts s) s

-- The body of the loop, at an index of the vectors.
unfoldable pub bring_up_at : Links → ConnectAnswers → ℕ → QueuePair → Exec QueuePair
unfolding bring_up
bring_up_at l a i q =
    let up : Option (Exec QueuePair) = get_elem? a.remote_qp_nums i >>= λ num.
    get_elem? a.lids i >>= λ lid. get_elem? a.gids i >>= λ gid.
    get_elem? a.modifies i >>= λ m. some (bring_up l num lid gid m q) in
    elim up [ none ↦ fault | some e ↦ e ]

-- The loop over as many peers, from peer `i` on.
unfoldable pub bring_up_from :
    Links → ConnectAnswers → ℕ → ℕ → List (Option QueuePair) → Exec (List (Option QueuePair))
unfolding bring_up_at
bring_up_from l a zero i qs = returns qs
bring_up_from l a (suc k) i [] = fault
bring_up_from l a (suc k) i (none ∷ qs) = fault
bring_up_from l a (suc k) i (some q ∷ qs) =
    let rest : Exec (List (Option QueuePair)) = bring_up_from l a k (suc i) qs in
    elim (bring_up_at l a i q) [
      | returns p ↦ within rest (λ ps. some p ∷ ps) returns
      | throws e p ↦ throws e (some p ∷ qs)
      | fault ↦ fault
    ]

-- The second block that is tried.
unfoldable pub bring_up_all : ConnectAnswers → Links → Exec Links
unfolding bring_up_from
bring_up_all a l =
    within (bring_up_from l a l.nprocs 0 l.staged) (λ qs. record l { staged = qs }) returns

-- The loop of `reset()` over as many elements.
unfoldable pub reset_first : ℕ → List (Option QueuePair) → Option (List (Option QueuePair))
reset_first zero qs = some qs
reset_first (suc k) [] = none
reset_first (suc k) (q ∷ qs) = reset_first k qs >>= λ rs. some (none ∷ rs)

-- From the swap to the end.
unfoldable pub replace_qps : Links → Exec Links
unfolding reset_first
replace_qps l = elim (reset_first l.nprocs l.connected) [
  | none ↦ fault
  | some qs ↦ returns (record l { connected = l.staged; staged = qs; calls = barrier ∷ l.calls })
]

-- `IBVerbs::reconnectQPs`
unfoldable pub reconnect : ConnectAnswers → Links → Exec Links
unfolding describe vote exchange_info bring_up_all replace_qps
reconnect a l = elim (get_elem? l.staged 0) [
  | none ↦ fault
  | some none ↦ fault
  | some (some q) ↦
      vote (describe a (log barrier l)) a.peer_failed
        λ m. on_return (exchange_info a m) λ n. vote (bring_up_all a n) a.other_failed replace_qps
]
