-- ===== src/Messages/Answers.antt =====
-- The answers in the rounds of `iwaitall` of src/MPI/mpilib.cpp, if MPI succeeds and the peers send
-- what is expected, and the first half of such a round.
use talpf.Prelude.{
  get_or-same, ℕ, suc, ◌+◌, ◌-◌, ◌≤◌, ◌<◌, ◌≡◌, refl, sym, ◌∙◌, ap, subst, true, Option, some, none,
  List, [], ◌∷◌, length, get_or, set, total, ltb, if◌then◌else◌, arith, returns, throws, fault,
}
use native.Mathlib.Decide.{dec_le}
use talpf.Messages.{Send, Large, Comm, Round, round, dequeue, complete}
use talpf.Messages.Dequeue.{nothing, total-dequeue, dequeue-all, dequeue-IsActiveFrom}
use talpf.Messages.Pieces.{left, left-none, owed, account, AllLarge}
use talpf.Messages.Rounds.{AllReady, Waiting, Forwards, complete-Waiting}
use talpf.Messages.Wants.{anyone, wanted, Dealt}

-- The numbers of pieces to come, after a round.
abbrev pub consumed : Option (ℕ × ℕ) → List ℕ → List ℕ
consumed none ks = ks
consumed (some p) ks = set ks p.1 (get_or ks p.1 0 - 1)

-- A message is found only if a piece of it is to come.
abbrev pub IsDue : Option (ℕ × ℕ) → List ℕ → Type 0
IsDue none ks = Unit
IsDue (some p) ks = (p.1 < length ks) × (0 < get_or ks p.1 0)

-- The answers of an MPI that succeeds.
pub record Fits (r : Round) (ks : List ℕ) (c : Comm) : Type 0 where
  pub tests : r.tested ≡ true
  pub all_ready : AllReady (length c.large_sends) r.ready
  pub probes : r.probed ≡ true
  pub is_due : IsDue r.found ks
  pub receives : r.succeeds ≡ true

-- Each round gets such answers for the state in which it begins.
abbrev pub Served : List Round → List ℕ → ℕ → Comm → Type 0
Served [] ks n c = Unit
Served (r ∷ rs) ks n c = Fits r ks c × (elim (round r n c) [
  | returns p ↦ Served rs (consumed r.found ks) p.0 p.1
  | throws e p ↦ Unit
  | fault ↦ Unit
])

abbrev pub count_found : Option (ℕ × ℕ) → ℕ
count_found none = 0
count_found (some p) = 1

-- How many requests and messages are found in a round.
abbrev pub events : Round → ℕ
events r = length r.ready + count_found r.found

-- How many pieces are still to be sent or received.
abbrev pub due : List ℕ → Comm → ℕ
due ks c = total (λ k. k) ks + total (owed (λ s. 1) c.max_mpi_msg_size) c.large_sends

-- The state between two rounds.
pub record Steady (ks : List ℕ) (n : ℕ) (c : Comm) : Type 0 where
  pub pos : 0 < c.max_mpi_msg_size
  pub room : length c.large_sends ≤ length c.send_indices
  pub all_large : AllLarge c
  pub dealt : Dealt ks n c

-- What rounds make of a state, with the number of events in them.
pub record Advances (k : ℕ) (ks : List ℕ) (c : Comm) (js : List ℕ) (d : Comm) : Type 0 where
  pub same_size : d.max_mpi_msg_size ≡ c.max_mpi_msg_size
  pub fewer : k + due js d ≡ due ks c
  pub same_sent : (f : Send → ℕ) → account f d ≡ account f c
  pub same_received :
      (f : Send → ℕ)
      → total (λ s. f (anyone s)) d.received + wanted f c.max_mpi_msg_size 0 js d.irecvs
        ≡ total (λ s. f (anyone s)) c.received + wanted f c.max_mpi_msg_size 0 ks c.irecvs

pub total-one : (xs : List Send) → total (λ s. 1) xs ≡ length xs
total-one [] = refl
total-one (x ∷ xs) = omega (arith, total-one xs)

-- After the pieces are sent and the entries without a request dequeued.
pub record Sends (r : Round) (c d : Comm) : Type 0 where
  pub same_size : d.max_mpi_msg_size ≡ c.max_mpi_msg_size
  pub same_indices : d.send_indices ≡ c.send_indices
  pub same_irecvs : d.irecvs ≡ c.irecvs
  pub same_received : d.received ≡ c.received
  pub no_longer : length d.large_sends ≤ length c.large_sends
  pub all_large : AllLarge d
  pub same_account : (f : Send → ℕ) → account f d ≡ account f c
  pub more_sent : length d.sent ≡ length r.ready + length c.sent

-- An entry has a request if and only if more than a piece is left.
abbrev IsSettled : ℕ → Large → Type 0
IsSettled max_size l = l.active ≡ ltb max_size l.send.size

-- What it owes, as far as it has a request.
abbrev asked : (Send → ℕ) → ℕ → Large → ℕ
asked f max_size l = if l.active then owed f max_size l else 0

total-asked :
    (f : Send → ℕ) (max_size : ℕ) (ls : List Large)
    → ((j : ℕ) (d : Large) → j < length ls → IsSettled max_size (get_or ls j d))
    → total (asked f max_size) ls ≡ total (owed f max_size) ls
total-asked f max_size [] h = refl
total-asked f max_size (l ∷ ls) h =
    let others : total (asked f max_size) ls ≡ total (owed f max_size) ls =
      total-asked f max_size ls (λ j d k. h (suc j) d (omega (arith, k))) in
    elim (dec_le l.send.size max_size) [
      | yes small ↦ ground (arith, others, h 0 l, ap (total f) (left-none max_size l.send small))
      | no large ↦ ground (arith, others, h 0 l, large)
    ]

module _ (r : Round) (n : ℕ) (ks : List ℕ) (c : Comm) (s : Steady ks n c) (a : Fits r ks c) where
  abbrev pub tested_state : Comm
  tested_state = record c { large_sends = complete r.ready c.large_sends }

  pub tested_state-Waiting : Waiting r.ready c.max_mpi_msg_size tested_state.large_sends
  tested_state-Waiting =
      let (longs, sums, entries) = complete-Waiting r.ready c.large_sends a.all_ready in
      record {
        pending = λ j h b.
            let (sends, requests) = entries j (omega (arith, longs)) in
            ground (arith, b, longs, sends, requests, s.all_large j nothing);
        settled = λ j h b.
            let (sends, requests) = entries j (omega (arith, longs)) in
            ground (arith, b, longs, sends, requests, s.all_large j nothing);
      }

  pub dequeued :
      (e : Comm)
      → Forwards r.ready tested_state e
      → (ls : List Large) × (dequeue (length e.large_sends) e.large_sends ≡ some ls)
        × Sends r c (record e { large_sends = ls })
  dequeued e w =
      let m : ℕ = c.max_mpi_msg_size in
      let before : (j : ℕ) (d : Large)
          → j < length e.large_sends
          → IsSettled m (get_or e.large_sends j d) =
        λ j d h.
          subst (IsSettled m) (get_or-same e.large_sends j nothing d h)
            (w.all_settled.settled j h refl) in
      let (ls, done, active, shorter) =
        dequeue-IsActiveFrom (length e.large_sends) e.large_sends (omega arith)
          (λ j d h k. absurd (omega arith)) in
      let after : (j : ℕ) (d : Large) → j < length ls → IsSettled m (get_or ls j d) =
        dequeue-all (IsSettled m) (length e.large_sends) e.large_sends ls (omega arith) before
          done in
      (
        ls,
        done,
        record {
          same_size = w.same_size;
          same_indices = w.same_indices;
          same_irecvs = w.same_irecvs;
          same_received = w.same_received;
          no_longer = omega (
            arith,
            w.same_length,
            (complete-Waiting r.ready c.large_sends a.all_ready).0,
            shorter,
          );
          all_large = λ j d h. ground (arith, w.same_size, active j d, after j d h);
          same_account = λ f.
              let stays : total (owed f m) ls ≡ total (owed f m) e.large_sends =
                sym (total-asked f m ls after)
                ∙ total-dequeue (asked f m) (length e.large_sends) e.large_sends ls
                    (λ l idle. ground (arith, idle)) (omega arith) done
                ∙ total-asked f m e.large_sends before in
              omega (
                arith,
                stays,
                ap (λ k. total (owed f k) ls) w.same_size,
                ap (λ k. total (owed f k) e.large_sends) w.same_size,
                w.same_account f,
                (complete-Waiting r.ready c.large_sends a.all_ready).1 (λ x. total f (left m x)),
              );
          more_sent = w.more_sent;
        },
      )
