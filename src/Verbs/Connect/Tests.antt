-- ===== src/Verbs/Connect/Tests.antt =====
-- Concrete runs of the connection of queue pairs, and its theorems at concrete inputs.
use talpf.Prelude.{ℕ, ◌≡◌, refl, true, false, none, some, [], ◌∷◌, returns, throws, verbs_error}
use talpf.Verbs.Connect.{
  reset, QueuePair, barrier, allreduce_or, all_to_all, allgather_lid, allgather_gid, Links,
  Modified, ConnectAnswers, qp_nums, my_gid, describe, vote, exchange_info, set_init, bring_up,
  bring_up_at, bring_up_from, bring_up_all, reset_first, replace_qps, reconnect,
}
use talpf.Verbs.Connect.Loop.{connected_to}

-- A queue pair as it is made.
abbrev made : ℕ → QueuePair
made n = record {
  qp_num = n;
  state = reset;
  port_num = 0;
  path_mtu = 0;
  dest_qp_num = 0;
  rq_psn = 0;
  sq_psn = 0;
  max_dest_rd_atomic = 0;
  max_rd_atomic = 0;
  min_rnr_timer = 0;
  timeout = 0;
  retry_cnt = 0;
  rnr_retry = 0;
  address = none;
}

-- Two processes: the first has queue pairs 10 and 11 and LID 7, the second 20 and 21 and LID 8.
abbrev first : Links
first = record {
  pid = 0;
  nprocs = 2;
  ib_port = 2;
  gid_idx = some 3;
  mtu = 5;
  lid = 7;
  staged = some (made 10) ∷ some (made 11) ∷ [];
  connected = none ∷ none ∷ [];
  calls = [];
}

abbrev second : Links
second = record first { pid = 1; lid = 8; staged = some (made 20) ∷ some (made 21) ∷ [] }

abbrev works : Modified
works = record { init_ok = true; rtr_ok = true; rts_ok = true }

abbrev first_told : ConnectAnswers
first_told = record {
  gid = some 70;
  allocates = true;
  peer_failed = false;
  remote_qp_nums = 10 ∷ 20 ∷ [];
  lids = 7 ∷ 8 ∷ [];
  gids = 70 ∷ 80 ∷ [];
  modifies = works ∷ works ∷ [];
  other_failed = false;
}

abbrev second_told : ConnectAnswers
second_told = record first_told { gid = some 80; remote_qp_nums = 11 ∷ 21 ∷ [] }

connects :
    reconnect first_told first
    ≡ returns (record first {
      staged = none ∷ none ∷ [];
      connected =
          some (connected_to first first_told 0 (made 10))
          ∷ some (connected_to first first_told 1 (made 11))
          ∷ [];
      calls =
          barrier
          ∷ allreduce_or false
          ∷ allgather_gid 70
          ∷ allgather_lid 7
          ∷ all_to_all (10 ∷ 11 ∷ [])
          ∷ allreduce_or false
          ∷ barrier
          ∷ [];
    })
unfolding reconnect describe vote exchange_info bring_up_all replace_qps my_gid qp_nums
    bring_up_from bring_up_at bring_up reset_first
connects = refl

-- The second process cannot bring its second queue pair to RTR, which both processes learn.
abbrev second_refused : ConnectAnswers
second_refused = record second_told {
  modifies = works ∷ record { init_ok = true; rtr_ok = false; rts_ok = true } ∷ [];
  other_failed = true;
}

refused_at_rtr :
    reconnect second_refused second
    ≡ throws verbs_error (record second {
      staged =
          some (connected_to second second_refused 0 (made 20))
          ∷ some (set_init second (made 21))
          ∷ [];
      calls =
          allreduce_or true
          ∷ allgather_gid 80
          ∷ allgather_lid 8
          ∷ all_to_all (20 ∷ 21 ∷ [])
          ∷ allreduce_or false
          ∷ barrier
          ∷ [];
    })
unfolding reconnect describe vote exchange_info bring_up_all replace_qps my_gid qp_nums
    bring_up_from bring_up_at bring_up reset_first
refused_at_rtr = refl
