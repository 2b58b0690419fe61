-- ===== src/Verbs/Queues/Tests.antt =====
-- Concrete runs of the queues, and their theorem at a concrete input.
use talpf.Prelude.{
  ℕ, ◌+◌, ◌≡◌, refl, true, false, [], ◌∷◌, arith, returns, throws, bad_alloc, every,
}
use talpf.Verbs.{Verbs, post_recv, create_qp, resize_cq_local, resize_cq_remote}
use talpf.Verbs.Queues.{resize_mesgq, stage_qps, stage_from, resize_cqs, post_recvs}
use talpf.Verbs.Queues.Bounds.{receives, receives_due, staged, resize_mesgq-receives}
use talpf.Verbs.Tests.{pair}

-- Two queue pairs of 12, and a receive for each of 4 messages.
resize_to_two :
    resize_mesgq (true ∷ true ∷ []) 2 pair
    ≡ returns (record pair {
      cq_size = 2;
      post_count = 4;
      calls =
          post_recv
          ∷ post_recv
          ∷ post_recv
          ∷ post_recv
          ∷ create_qp 1 12
          ∷ create_qp 0 12
          ∷ resize_cq_remote 4
          ∷ resize_cq_local 2
          ∷ [];
    })
unfolding resize_mesgq stage_qps stage_from resize_cqs post_recvs
resize_to_two = refl

resize_refused :
    resize_mesgq (false ∷ true ∷ []) 2 pair
    ≡ throws bad_alloc (record pair {
      cq_size = 2;
      calls = create_qp 0 12 ∷ resize_cq_remote 4 ∷ resize_cq_local 2 ∷ [];
    })
unfolding resize_mesgq stage_qps stage_from resize_cqs post_recvs
resize_refused = refl

resize_mesgq-receives_example :
    (w : Verbs) × (n : ℕ) × (resize_mesgq (true ∷ true ∷ []) 2 pair ≡ staged true w)
    × (w.cq_size ≡ 2)
    × (w.post_count ≡ 0 + n)
    × (receives w.calls ≡ receives [] + n)
    × (w.post_count ≡ 4)
    × (w.calls
        ≡ receives_due n
            (create_qp 1 12 ∷ create_qp 0 12 ∷ resize_cq_remote 4 ∷ resize_cq_local 2 ∷ []))
unfolding every
resize_mesgq-receives_example = resize_mesgq-receives (true ∷ true ∷ []) 2 pair refl (omega arith)
