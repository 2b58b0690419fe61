-- ===== src/Verbs/Rdma/Transfer.antt =====
-- What the chains of `put` and `get` of src/MPI/ibverbs.cpp do to the memories at both ends.
use talpf.Prelude.{
  ℕ, zero, suc, ◌+◌, ◌-◌, ◌*◌, ◌/◌, ◌%◌, ◌^◌, ◌≤◌, ◌<◌, ◌≡◌, refl, ◌∙◌, Bool, true, false, ◌&&◌,
  some, List, [], ◌∷◌, ◌++◌, ltb, leb, if◌then◌else◌, size_mod, arith, dec_lt,
}
use Prim.Native.Nat.{min as min_of}
use native.Mathlib.Nat.{div-add-mod', mod-lt}
use talpf.Verbs.{Verbs, WorkRequest, Opcode, rdma_write, rdma_write_with_imm, rdma_read}
use talpf.Verbs.Rdma.{Ends, message_count, put_messages, get_message, get_messages, completion}

-- A memory by its addresses.
abbrev pub Bytes : Type 0
Bytes = ℕ → ℕ

-- The memory `to`, with `len` bytes from `dst` on taken from `from` at `src`.
abbrev pub copied : ℕ → ℕ → ℕ → Bytes → Bytes → Bytes
copied src dst len from to a = if leb dst a && ltb a (dst + len) then from (a - dst + src) else to a

-- What RDMA writes leave in the remote memory, and RDMA reads in the local one.
abbrev pub written : Bytes → List WorkRequest → Bytes → Bytes
written near [] far = far
written near (r ∷ rs) far = written near rs (copied r.local_addr r.remote_addr r.length near far)

abbrev pub fetched : Bytes → List WorkRequest → Bytes → Bytes
fetched far [] near = near
fetched far (r ∷ rs) near = fetched far rs (copied r.remote_addr r.local_addr r.length far near)

-- The count of messages suffices for the bytes.
pub message_count-suffices :
    (max_msg_size size : ℕ)
    → 0 < max_msg_size
    → size / max_msg_size + 1 < 2 ^ 31
    → (n : ℕ) × (message_count max_msg_size size ≡ some n) × (size ≤ n * max_msg_size)
unfolding message_count
message_count-suffices max_msg_size size p h = elim (dec_lt 0 (size % max_msg_size)) [
  | yes part ↦ (
    size / max_msg_size + 1,
    ground arith,
    omega (arith, div-add-mod' size max_msg_size, mod-lt size p),
  )
  | no whole ↦ (size / max_msg_size, ground arith, omega (arith, div-add-mod' size max_msg_size))
]

-- Two copies, one behind the other, are one.
copied-copied :
    (src dst len size src' dst' : ℕ) (from to : Bytes) (a : ℕ)
    → len ≤ size
    → src' ≡ src + len
    → dst' ≡ dst + len
    → copied src' dst' (size - len) from (copied src dst len from to) a
      ≡ copied src dst size from to a
copied-copied src dst len size src' dst' from to a h p q = ground arith

module _ (task : ℕ) (v : Verbs) (e : Ends) (near : Bytes) where
  pub put_messages-copied :
      (n src dst size : ℕ) (far : Bytes) (a : ℕ)
      → size ≤ n * v.max_msg_size
      → src + size < size_mod
      → dst + size < size_mod
      → written near (put_messages task v e n src dst size) far a
        ≡ copied (e.local_base + src) (e.remote_base + dst) size near far a
  unfolding put_messages
  put_messages-copied zero src dst size far a h i j = ground arith
  put_messages-copied (suc n) src dst size far a h i j =
      let len : ℕ = min_of size v.max_msg_size in
      put_messages-copied n ((src + len) % size_mod) ((dst + len) % size_mod) (size - len)
        (copied (e.local_base + src) (e.remote_base + dst) len near far) a (omega arith)
        (omega arith) (omega arith)
      ∙ copied-copied (e.local_base + src) (e.remote_base + dst) len size
          (e.local_base + (src + len) % size_mod) (e.remote_base + (dst + len) % size_mod) near far
          a (omega arith) (omega arith) (omega arith)

-- Whether a request is counted at the peer when it completes there.
abbrev pub is_counted : Opcode → Bool
is_counted rdma_write_with_imm = true
is_counted _ = false

-- The chain ends with its only request that is counted at the peer and that signals its completion;
-- this one carries the task and the number of the synchronisation.
abbrev pub Announces : ℕ → ℕ → List WorkRequest → Type 0
Announces task number [] = ⊥
Announces task number (r ∷ []) =
    (is_counted r.opcode ≡ true) × (r.signaled ≡ true) × (r.wr_id ≡ task) × (r.imm_data ≡ number)
Announces task number (r ∷ s ∷ rs) =
    (is_counted r.opcode ≡ false) × (r.signaled ≡ false) × Announces task number (s ∷ rs)

cons-Announces :
    (task number : ℕ) (r : WorkRequest) (rs : List WorkRequest)
    → is_counted r.opcode ≡ false
    → r.signaled ≡ false
    → Announces task number rs
    → Announces task number (r ∷ rs)
cons-Announces task number r [] p q h = absurd h
cons-Announces task number r (s ∷ rs) p q h = (p, q, h)

-- A message of a transfer: its opcode, no more bytes than a message may have, one entry, and the
-- keys of both ends.
pub record IsPart (may : Opcode → Bool) (max : ℕ) (e : Ends) (r : WorkRequest) : Type 0 where
  pub moves : may r.opcode ≡ true
  pub bounded : r.length ≤ max
  pub one_entry : r.num_sge ≡ 1
  pub near_key : r.lkey ≡ e.lkey
  pub far_key : r.rkey ≡ e.rkey

abbrev pub Parts : (Opcode → Bool) → ℕ → Ends → List WorkRequest → Type 0
Parts may max e [] = Unit {0}
Parts may max e (r ∷ rs) = IsPart may max e r × Parts may max e rs

abbrev pub is_write : Opcode → Bool
is_write rdma_write = true
is_write rdma_write_with_imm = true
is_write _ = false

abbrev pub is_read : Opcode → Bool
is_read rdma_read = true
is_read _ = false

-- A write of no bytes.
pub record IsEmpty (r : WorkRequest) : Type 0 where
  pub writes : is_write r.opcode ≡ true
  pub no_bytes : r.length ≡ 0
  pub no_entry : r.num_sge ≡ 0

module _ (task : ℕ) (v : Verbs) (e : Ends) where
  pub put_messages-Parts :
      (n src dst size : ℕ) → Parts is_write v.max_msg_size e (put_messages task v e n src dst size)
  unfolding put_messages
  put_messages-Parts zero src dst size = tt
  put_messages-Parts (suc n) src dst size =
      let len : ℕ = min_of size v.max_msg_size in
      (
        record {
          moves = ground arith;
          bounded = omega arith;
          one_entry = refl;
          near_key = refl;
          far_key = refl;
        },
        put_messages-Parts n ((src + len) % size_mod) ((dst + len) % size_mod) (size - len),
      )

  pub get_messages-Parts :
      (n dst src size : ℕ) → Parts is_read v.max_msg_size e (get_messages task v e n dst src size)
  unfolding get_messages
  get_messages-Parts zero dst src size = tt
  get_messages-Parts (suc n) dst src size =
      let len : ℕ = min_of size v.max_msg_size in
      (
        record {
          moves = refl;
          bounded = omega arith;
          one_entry = refl;
          near_key = refl;
          far_key = refl;
        },
        get_messages-Parts n ((dst + len) % size_mod) ((src + len) % size_mod) (size - len),
      )

  pub completion-IsEmpty : (near far : ℕ) → IsEmpty (completion task v e near far)
  completion-IsEmpty near far = record { writes = refl; no_bytes = refl; no_entry = refl }

  pub put_messages-Announces :
      (n src dst size : ℕ)
      → Announces task v.sync_counter (put_messages task v e (suc n) src dst size)
  unfolding put_messages
  put_messages-Announces zero src dst size = (refl, refl, refl, refl)
  put_messages-Announces (suc n) src dst size =
      let len : ℕ = min_of size v.max_msg_size in
      (
        ground arith,
        ground arith,
        put_messages-Announces n ((src + len) % size_mod) ((dst + len) % size_mod) (size - len),
      )

  pub get_messages-Announces :
      (n dst src size at to : ℕ)
      → Announces task v.sync_counter
          (get_messages task v e n dst src size ++ completion task v e at to ∷ [])
  unfolding get_messages
  get_messages-Announces zero dst src size at to = (refl, refl, refl, refl)
  get_messages-Announces (suc n) dst src size at to =
      let len : ℕ = min_of size v.max_msg_size in
      let rest : List WorkRequest =
        get_messages task v e n ((dst + len) % size_mod) ((src + len) % size_mod) (size - len)
        ++ completion task v e at to ∷ [] in
      cons-Announces task v.sync_counter (get_message task v e dst src len) rest refl refl (
        get_messages-Announces n ((dst + len) % size_mod) ((src + len) % size_mod) (size - len) at
          to)

  pub get_messages-copied :
      (far : Bytes) (n dst src size at to : ℕ) (near : Bytes) (a : ℕ)
      → size ≤ n * v.max_msg_size
      → src + size < size_mod
      → dst + size < size_mod
      → fetched far (get_messages task v e n dst src size ++ completion task v e at to ∷ []) near a
        ≡ copied (e.remote_base + src) (e.local_base + dst) size far near a
  unfolding get_messages
  get_messages-copied far zero dst src size at to near a h i j = ground arith
  get_messages-copied far (suc n) dst src size at to near a h i j =
      let len : ℕ = min_of size v.max_msg_size in
      get_messages-copied far n ((dst + len) % size_mod) ((src + len) % size_mod) (size - len) at to
        (copied (e.remote_base + src) (e.local_base + dst) len far near) a (omega arith)
        (omega arith) (omega arith)
      ∙ copied-copied (e.remote_base + src) (e.local_base + dst) len size
          (e.remote_base + (src + len) % size_mod) (e.local_base + (dst + len) % size_mod) far near
          a (omega arith) (omega arith) (omega arith)
