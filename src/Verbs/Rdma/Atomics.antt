-- ===== src/Verbs/Rdma/Atomics.antt =====
-- What the atomic operations of src/MPI/ibverbs.cpp post.
use talpf.Prelude.{ℕ, ◌+◌, ◌<◌, ◌≡◌, refl, false, some, List, [], ◌∷◌, get_elem?, arith}
use talpf.MemReg.Combined
use talpf.Verbs.{
  Verbs, WorkRequest, MemorySlot, MemoryRegion, MemoryRegistration, Opcode, atomic_fetch_and_add,
  atomic_cmp_and_swp,
}
use talpf.Verbs.Rdma.{Ends, ends, completion, atomic, fetch_and_add, cmp_and_swp}
use talpf.Verbs.Rdma.Transfer.{Announces, IsEmpty, completion-IsEmpty}
use talpf.Verbs.Rdma.Posting.{AreCounters, Posts, post-Posts, count-counted}

-- `r` is an atomic operation on 8 bytes at a remote address, with a result at a local one, and with
-- the keys of both ends.
pub record Operates (opcode : Opcode) (compare_add swap local_addr remote_addr : ℕ) (e : Ends)
    (r : WorkRequest) : Type 0 where
  pub same_opcode : r.opcode ≡ opcode
  pub operand : r.compare_add ≡ compare_add
  pub swapped : r.swap ≡ swap
  pub result : r.local_addr ≡ local_addr
  pub target : r.remote_addr ≡ remote_addr
  pub eight : r.length ≡ 8
  pub one_entry : r.num_sge ≡ 1
  pub near_key : r.lkey ≡ e.lkey
  pub far_key : r.rkey ≡ e.rkey

module _ (task peer : ℕ) (src_slot src_offset dst_slot dst_offset : ℕ) (v : Verbs) (e : Ends)
    (src dst : MemorySlot) (mr : MemoryRegion) (back : MemoryRegistration)
    (src_found : Combined.lookup src_slot v.memreg ≡ some src)
    (dst_found : Combined.lookup dst_slot v.memreg ≡ some dst) (c : AreCounters v)
    (here : peer < v.nprocs) (reads : ends peer src dst v ≡ some e) (dst_mr : dst.mr ≡ some mr)
    (back_found : get_elem? src.glob peer ≡ some back) where
  abbrev near : ℕ
  near = e.local_base + src_offset

  abbrev far : ℕ
  far = e.remote_base + dst_offset

  module _ (opcode : Opcode) (compare_add swap : ℕ) where
    abbrev operation : WorkRequest
    operation = record {
      opcode = opcode;
      signaled = false;
      wr_id = 0;
      local_addr = near;
      length = 8;
      lkey = e.lkey;
      num_sge = 1;
      imm_data = 0;
      remote_addr = far;
      rkey = e.rkey;
      compare_add = compare_add;
      swap = swap;
    }

    abbrev chain : List WorkRequest
    chain =
        operation ∷ completion task v (record e { lkey = mr.lkey; rkey = back.rkey }) near far ∷ []

    atomic-Posts :
        Posts task peer chain v (λ b.
          atomic opcode compare_add swap task b src_slot src_offset peer dst_slot dst_offset v)
    unfolding atomic
    atomic-Posts =
        post-Posts task peer chain v c here
          (λ b.
            atomic opcode compare_add swap task b src_slot src_offset peer dst_slot dst_offset v)
          (λ b. ground (
            arith,
            src_found,
            dst_found,
            dst_mr,
            back_found,
            reads,
            count-counted peer v (omega (arith, c.per_peer)),
          ))

    operation-Operates : Operates opcode compare_add swap near far e operation
    operation-Operates = record {
      same_opcode = refl;
      operand = refl;
      swapped = refl;
      result = refl;
      target = refl;
      eight = refl;
      one_entry = refl;
      near_key = refl;
      far_key = refl;
    }

  -- `atomic_fetch_and_add` posts one chain of two messages: the operation at both addresses, with the
  -- keys of both ends, and a write of no bytes, which alone is counted at the peer.
  -- Conditions: the slots are registered for both ends, and there is a counter for every peer. A chain
  -- that the device refuses makes the call throw, with the counters as before, but with the event of
  -- the task.
  pub fetch_and_add-Posts :
      (value : ℕ)
      → (r : WorkRequest) × (s : WorkRequest) × Posts task peer
          (r ∷ s ∷ [])
          v
          (λ b. fetch_and_add task b src_slot src_offset peer dst_slot dst_offset value v)
        × Operates atomic_fetch_and_add value 0 near far e r
        × IsEmpty s
        × Announces task v.sync_counter (r ∷ s ∷ [])
  unfolding fetch_and_add
  fetch_and_add-Posts value = (
    operation atomic_fetch_and_add value 0,
    completion task v (record e { lkey = mr.lkey; rkey = back.rkey }) near far,
    atomic-Posts atomic_fetch_and_add value 0,
    operation-Operates atomic_fetch_and_add value 0,
    completion-IsEmpty task v (record e { lkey = mr.lkey; rkey = back.rkey }) near far,
    (refl, refl, (refl, refl, refl, refl)),
  )

  -- `atomic_cmp_and_swp` posts one chain of two messages: the operation at both addresses, with the
  -- keys of both ends, and a write of no bytes, which alone is counted at the peer.
  -- Conditions: the slots are registered for both ends, and there is a counter for every peer. A chain
  -- that the device refuses makes the call throw, with the counters as before, but with the event of
  -- the task.
  pub cmp_and_swp-Posts :
      (cmp swp : ℕ)
      → (r : WorkRequest) × (s : WorkRequest) × Posts task peer
          (r ∷ s ∷ [])
          v
          (λ b. cmp_and_swp task b src_slot src_offset peer dst_slot dst_offset cmp swp v)
        × Operates atomic_cmp_and_swp cmp swp near far e r
        × IsEmpty s
        × Announces task v.sync_counter (r ∷ s ∷ [])
  unfolding cmp_and_swp
  cmp_and_swp-Posts cmp swp = (
    operation atomic_cmp_and_swp cmp swp,
    completion task v (record e { lkey = mr.lkey; rkey = back.rkey }) near far,
    atomic-Posts atomic_cmp_and_swp cmp swp,
    operation-Operates atomic_cmp_and_swp cmp swp,
    completion-IsEmpty task v (record e { lkey = mr.lkey; rkey = back.rkey }) near far,
    (refl, refl, (refl, refl, refl, refl)),
  )
