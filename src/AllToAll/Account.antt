-- ===== src/AllToAll/Account.antt =====
-- The pieces that the sparse all-to-all of src/MPI/mpilib.cpp sends, and the loops on its messages.
use talpf.Prelude.{
  ℕ, zero, suc, ◌+◌, ◌-◌, ◌≤◌, ◌<◌, ◌≡◌, refl, sym, ap, subst, ◌∙◌, Bool, true, false, List, [],
  ◌∷◌, length, get_or, set, length-set, get_elem?-get_or, total, total-set, ◌==◌, if◌then◌else◌,
  arith, returns, on_return,
}
use Prim.Native.Nat.{min as min_of}
use native.Mathlib.Decide.{dec_lt}
use talpf.AllToAll.{Outgoing, Piece, Exchange, next_piece, after_piece, resume, resumes}

-- The pieces of a message, of which there are at most as many as the first number says.
unfoldable pub pieces : ℕ → ℕ → ℕ → ℕ → ℕ → List Piece
pieces zero m offset count pid = []
pieces (suc n) m offset count pid =
    let len : ℕ = min_of m count in
    if count == 0
    then []
    else record { from = offset; bytes = len; to = pid }
      ∷ pieces n m (offset + len) (count - len) pid

-- The pieces of what is left of a message: from its first byte on as many bytes as MPI takes, and at
-- last the rest.
abbrev pub chunks : ℕ → Outgoing → List Piece
chunks m s = pieces s.count m s.offset s.count s.pid

pieces-enough :
    (n k m offset count pid : ℕ)
    → 0 < m
    → count ≤ n
    → count ≤ k
    → pieces n m offset count pid ≡ pieces k m offset count pid
unfolding pieces
pieces-enough zero zero m offset count pid pos h e = refl
pieces-enough zero (suc k) m offset count pid pos h e = ground arith
pieces-enough (suc n) zero m offset count pid pos h e = ground arith
pieces-enough (suc n) (suc k) m offset count pid pos h e =
    let len : ℕ = min_of m count in
    ap (λ rest. if count == 0 then [] else record { from = offset; bytes = len; to = pid } ∷ rest)
      (pieces-enough n k m (offset + len) (count - len) pid pos (omega arith) (omega arith))

module _ (m : ℕ) (pos : 0 < m) (s : Outgoing) where
  pub chunks-after : 0 < s.count → chunks m s ≡ next_piece m s ∷ chunks m (after_piece m s)
  unfolding pieces next_piece after_piece
  chunks-after full =
      let len : ℕ = min_of m s.count in
      pieces-enough s.count (suc s.count) m s.offset s.count s.pid pos (omega arith) (omega arith)
      ∙ ground (
        arith,
        full,
        pieces-enough s.count (s.count - len) m (s.offset + len) (s.count - len) s.pid pos
            (omega arith) (omega arith),
      )

  pub chunks-none : s.count ≡ 0 → chunks m s ≡ []
  unfolding pieces
  chunks-none empty = ap (λ n. pieces n m s.offset s.count s.pid) empty

-- How many pieces of a message are still to be sent, or sent and not yet received.
abbrev pub weight : ℕ → Outgoing → ℕ
weight m s = length (chunks m s) + (if s.active then 1 else 0)

abbrev pub owed : (Piece → ℕ) → ℕ → Outgoing → ℕ
owed f m s = total f (chunks m s)

-- The sum over the pieces that are sent, and those that are still to be sent.
abbrev pub account : (Piece → ℕ) → ℕ → Exchange → ℕ
account f m x = total f x.posted + total (owed f m) x.sends

abbrev pub due : ℕ → Exchange → ℕ
due m x = total (weight m) x.sends

-- A loop on the messages changes only them, and the pieces that are sent.
pub record Resumes (m : ℕ) (x y : Exchange) : Type 0 where
  pub same_length : length y.sends ≡ length x.sends
  pub same_account : (f : Piece → ℕ) → account f m y ≡ account f m x
  pub no_more : due m y ≤ due m x
  pub same_active : y.barrier_active ≡ x.barrier_active
  pub same_done : y.barrier_done ≡ x.barrier_done
  pub same_size : y.recv_size ≡ x.recv_size
  pub same_received : y.received ≡ x.received

abbrev pub none_sent : Outgoing
none_sent = record { offset = 0; count = 0; pid = 0; active = false }

module _ (m : ℕ) (pos : 0 < m) (j : ℕ) (x : Exchange) (inside : j < length x.sends) where
  abbrev s : Outgoing
  s = get_or x.sends j none_sent

  abbrev later : Outgoing
  later = record (after_piece m s) { active = true }

  abbrev resumed : Exchange
  resumed = record x { sends = set x.sends j later; posted = next_piece m s ∷ x.posted }

  resume-Resumes : (y : Exchange) × (resume m true j x ≡ returns y) × Resumes m x y
  unfolding resume
  resume-Resumes = elim (dec_lt 0 s.count) [
    | no empty ↦ (
      x,
      ground (arith, empty, get_elem?-get_or x.sends j none_sent inside),
      record {
        same_length = refl;
        same_account = λ f. refl;
        no_more = omega arith;
        same_active = refl;
        same_done = refl;
        same_size = refl;
        same_received = refl;
      },
    )
    | yes full ↦ (
      resumed,
      ground (arith, full, get_elem?-get_or x.sends j none_sent inside),
      record {
        same_length = length-set x.sends j later;
        same_account = λ f. omega (
          arith,
          ap (total f) (chunks-after m pos s full),
          total-set (owed f m) x.sends j later none_sent inside,
        );
        no_more = ground (
          arith,
          ap length (chunks-after m pos s full),
          total-set (weight m) x.sends j later none_sent inside,
        );
        same_active = refl;
        same_done = refl;
        same_size = refl;
        same_received = refl;
      },
    )
  ]

-- Indices in range, for which MPI_Issend succeeds.
abbrev pub InRange : ℕ → List (ℕ × Bool) → Type 0
InRange k [] = Unit
InRange k (p ∷ indices) = (p.1 ≡ true) × (p.0 < k) × InRange k indices

pub resumes-Resumes :
    (m : ℕ)
    → 0 < m
    → (indices : List (ℕ × Bool)) (x : Exchange) → InRange (length x.sends) indices
    → (y : Exchange) × (resumes m indices x ≡ returns y) × Resumes m x y
unfolding resumes
resumes-Resumes m pos [] x all = (
  x,
  refl,
  record {
    same_length = refl;
    same_account = λ f. refl;
    no_more = omega arith;
    same_active = refl;
    same_done = refl;
    same_size = refl;
    same_received = refl;
  },
)
resumes-Resumes m pos ((j, accepts) ∷ indices) x all =
    let (ok, inside, others) = all in
    let (y, goes, r) = resume-Resumes m pos j x inside in
    let (z, rest, q) =
      resumes-Resumes m pos indices y (subst (λ k. InRange k indices) (sym r.same_length) others) in
    (
      z,
      ap (λ b. on_return (resume m b j x) (λ w. resumes m indices w)) ok
          ∙ ap (λ w. on_return w (λ v. resumes m indices v)) goes
          ∙ rest,
      record {
        same_length = q.same_length ∙ r.same_length;
        same_account = λ f. q.same_account f ∙ r.same_account f;
        no_more = omega (arith, q.no_more, r.no_more);
        same_active = q.same_active ∙ r.same_active;
        same_done = q.same_done ∙ r.same_done;
        same_size = q.same_size ∙ r.same_size;
        same_received = q.same_received ∙ r.same_received;
      },
    )
