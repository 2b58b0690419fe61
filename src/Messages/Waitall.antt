-- ===== src/Messages/Waitall.antt =====
-- `iwaitall` of src/MPI/mpilib.cpp on what `isend` and `irecv` have enqueued.
use talpf.Prelude.{
  ℕ, zero, suc, ◌+◌, ◌-◌, ◌%◌, ◌≤◌, ◌<◌, ◌≡◌, refl, ◌∙◌, ap, true, some, List, [], ◌∷◌, ◌++◌,
  length, get_or, length-append, size_mod, total, total-append, ◌==◌, if◌then◌else◌, arith, returns,
}
use native.Mathlib.Decide.{dec_lt, ℕ_discrete}
use talpf.Messages.{Send, Comm, Round, irecv, iwaitall, finish}
use talpf.Messages.Pieces.{chunks, account, chunks-none, chunks-left, AllLarge}
use talpf.Messages.Wants.{flag, anyone, expected, wanted, Dealt}
use talpf.Messages.Answers.{Served, events, due}
use talpf.Messages.Ends.{wait_loop-Finishes}

-- How many pieces the messages from a tag on make.
unfoldable pub deal : ℕ → ℕ → List (ℕ × ℕ) → List ℕ
deal max_size tag [] = []
deal max_size tag (p ∷ ps) = length (chunks max_size (expected tag p)) ∷ deal max_size (suc tag) ps

-- The sum over all the pieces of the messages from a tag on.
unfoldable pub demand : (Send → ℕ) → ℕ → ℕ → List (ℕ × ℕ) → ℕ
demand f max_size tag [] = 0
demand f max_size tag (p ∷ ps) =
    total f (chunks max_size (expected tag p)) + demand f max_size (suc tag) ps

abbrev is_empty : ℕ × ℕ → ℕ
is_empty p = if p.1 == 0 then 1 else 0

-- `m_emptyRecvs` is the number of messages without a byte.
pub record Queued (c : Comm) : Type 0 where
  pub pos : 0 < c.max_mpi_msg_size
  pub empties : c.empty_recvs ≡ total is_empty c.irecvs
  pub few : length c.irecvs < size_mod

-- `irecv` with the next tag keeps it.
pub irecv-Queued :
    (buf bytes src_pid : ℕ) (c : Comm)
    → Queued c
    → length c.irecvs + 1 < size_mod
    → (d : Comm) × (irecv buf bytes src_pid (length c.irecvs) c ≡ returns d) × Queued d
unfolding irecv
irecv-Queued buf bytes src_pid c q room = (
  record c {
    irecvs = c.irecvs ++ (buf, bytes) ∷ [];
    empty_recvs = if bytes == 0 then c.empty_recvs + 1 else c.empty_recvs;
  },
  ground arith,
  record {
    pos = q.pos;
    empties = ground (arith, q.empties, total-append is_empty c.irecvs ((buf, bytes) ∷ []));
    few = omega (arith, room, length-append c.irecvs ((buf, bytes) ∷ []));
  },
)

length-deal : (m t : ℕ) (ps : List (ℕ × ℕ)) → length (deal m t ps) ≡ length ps
unfolding deal
length-deal m t [] = refl
length-deal m t (p ∷ ps) = ap suc (length-deal m (suc t) ps)

no_total : (f : Send → ℕ) (xs : List Send) → length xs ≡ 0 → total f xs ≡ 0
no_total f [] e = refl
no_total f (x ∷ xs) e = absurd (omega (arith, e))

flags-deal :
    (m t : ℕ) (ps : List (ℕ × ℕ)) → 0 < m → total flag (deal m t ps) + total is_empty ps ≡ length ps
unfolding deal
flags-deal m t [] pos = refl
flags-deal m t (p ∷ ps) pos = elim (dec_lt 0 p.1) [
  | yes full ↦
      ground (
        arith,
        full,
        ap length (chunks-left m (expected t p) pos full),
        flags-deal m (suc t) ps pos,
      )
  | no empty ↦ ground (
    arith,
    empty,
    ap length (chunks-none m (expected t p) (omega arith)),
    flags-deal m (suc t) ps pos,
  )
]

wanted-deal :
    (f : Send → ℕ) (m t : ℕ) (ps : List (ℕ × ℕ)) → wanted f m t (deal m t ps) ps ≡ demand f m t ps
unfolding deal demand
wanted-deal f m t [] = refl
wanted-deal f m t (p ∷ ps) = elim (ℕ_discrete (length (chunks m (expected t p))) 0) [
  | yes e ↦ ground (arith, e, no_total f (chunks m (expected t p)) e, wanted-deal f m (suc t) ps)
  | no e ↦ ground (arith, e, wanted-deal f m (suc t) ps)
]

get_or-deal :
    (m t0 t : ℕ) (ps : List (ℕ × ℕ))
    → t < length ps
    → get_or (deal m t0 ps) t 0 ≡ length (chunks m (expected (t0 + t) (get_or ps t (0, 0))))
unfolding deal
get_or-deal m t0 t [] h = absurd (omega arith)
get_or-deal m t0 zero (p ∷ ps) h =
    let here : t0 ≡ t0 + 0 = omega arith in ap (λ i. length (chunks m (expected i p))) here
get_or-deal m t0 (suc t) (p ∷ ps) h =
    let there : suc t0 + t ≡ t0 + suc t = omega arith in
    get_or-deal m (suc t0) t ps (omega arith)
    ∙ ap (λ i. length (chunks m (expected i (get_or ps t (0, 0))))) there

-- How many messages are to be received.
abbrev pub to_receive : Comm → ℕ
to_receive c = (length c.irecvs + size_mod - c.empty_recvs) % size_mod

module _ (rs : List Round) (c : Comm) (q : Queued c) (all : AllLarge c)
    (room : length c.large_sends ≤ length c.send_indices) where
  abbrev ks : List ℕ
  ks = deal c.max_mpi_msg_size 0 c.irecvs

  ks-Dealt : Dealt ks (to_receive c) c
  ks-Dealt = record {
    one_each = length-deal c.max_mpi_msg_size 0 c.irecvs;
    counted = omega (arith, q.empties, q.few, flags-deal c.max_mpi_msg_size 0 c.irecvs q.pos);
    bounded = omega arith;
    right = λ t h k.
        let same : 0 + t ≡ t = omega arith in
        get_or-deal c.max_mpi_msg_size 0 t c.irecvs
          (omega (arith, h, length-deal c.max_mpi_msg_size 0 c.irecvs))
        ∙ ap (λ i. length (chunks c.max_mpi_msg_size (expected i (get_or c.irecvs t (0, 0))))) same;
  }

  -- `iwaitall` for messages that are enqueued as `isend` and `irecv` do. Conditions: there are as many
  -- indices as large messages; MPI succeeds, and finds different requests and only pieces that are to come, and finds as many as there are
  -- before the rounds end. Then it returns with its queues empty; just the pieces of the large
  -- messages that were not yet sent are sent, and just the pieces of the awaited messages received.
  pub iwaitall-Moves :
      Served rs ks (to_receive c) c
      → due ks c ≤ total events rs
      → (d : Comm) × (iwaitall rs true true c ≡ some (returns d))
        × (d.irecvs ≡ [])
        × (d.imsgs ≡ [])
        × (d.large_sends ≡ [])
        × (d.empty_recvs ≡ 0)
        × ((f : Send → ℕ) → total f d.sent ≡ account f c)
        × ((f : Send → ℕ)
            → total (λ s. f (anyone s)) d.received
              ≡ total (λ s. f (anyone s)) c.received + demand f c.max_mpi_msg_size 0 c.irecvs)
  unfolding iwaitall finish
  iwaitall-Moves served enough =
      let (d, loops, no_large, same, sends, receives) =
        wait_loop-Finishes rs ks (to_receive c) c
          (record { pos = q.pos; room = room; all_large = all; dealt = ks-Dealt }) served enough in
      (
        record d { irecvs = []; empty_recvs = 0; imsgs = [] },
        ground (arith, loops, ap length no_large),
        refl,
        refl,
        no_large,
        refl,
        sends,
        λ f. ground (arith, receives f, wanted-deal f c.max_mpi_msg_size 0 c.irecvs),
      )
