-- ===== src/MessageSort/Blocks/Drain.antt =====
-- Messages that are pushed into an array of src/MPI/messagesort.cpp, and popped until there is none.
use talpf.Prelude.{
  ℕ, zero, suc, ◌+◌, ◌≤◌, ◌<◌, ◌≡◌, refl, sym, subst, true, Option, some, none, List, [], ◌∷◌,
  length, get_or, replicate, length-replicate, if◌then◌else◌, size_mod, ◌>>=◌, arith, inl, inr,
}
use Prim.Native.Nat.{max as max_of}
use talpf.MessageSort.Blocks.{Writes, Write, id_mod, construct, push, pop}
use talpf.MessageSort.Blocks.Paint.{cell, covers, IsWrites, push-IsWrites}
use talpf.MessageSort.Blocks.Pop.{pop-Takes}

-- Pops until there is no message, at most as often as the number says.
unfoldable pub drain : ℕ → Writes → Option (List Write)
drain zero w = none
drain (suc n) w =
    pop w >>= λ p. elim p.0 [ none ↦ some [] | some x ↦ drain n p.1 >>= λ xs. some (x ∷ xs) ]

unfoldable pub push_all : List Write → Writes → Option Writes
push_all [] w = some w
push_all (x ∷ xs) w = push x w >>= λ u. push_all xs u

-- The number that the messages of a list give to a block: of the first that covers it, or the
-- highest of all.
abbrev pub covering : List Write → ℕ → ℕ
covering [] j = 0
covering (x ∷ xs) j = if covers x j then x.id + 1 else covering xs j

abbrev pub highest : List Write → ℕ → ℕ
highest [] j = 0
highest (x ∷ xs) j = max_of (if covers x j then x.id + 1 else 0) (highest xs j)

-- Messages of at least one block, in order and apart, from a block on.
abbrev pub AreOrdered : ℕ → List Write → Type 0
AreOrdered b [] = Unit {0}
AreOrdered b (x ∷ xs) = (b ≤ x.start) × (0 < x.size) × AreOrdered (x.start + x.size) xs

-- A message that fits into as many blocks.
pub record Fits (n : ℕ) (x : Write) : Type 0 where
  pub small : x.id + 1 < id_mod
  pub some_blocks : 0 < x.size
  pub inside : x.start + x.size ≤ n

abbrev pub AllFit : ℕ → List Write → Type 0
AllFit n [] = Unit {0}
AllFit n (x ∷ xs) = Fits n x × AllFit n xs

start-covered : (x : Write) → 0 < x.size → covers x x.start ≡ true
start-covered x h = ground arith

drain-covering :
    (n b : ℕ) (w : Writes)
    → IsWrites w
    → ((j : ℕ) → j < b → cell j w ≡ 0)
    → b ≤ length w.memory
    → length w.memory < b + n
    → (xs : List Write) × (drain n w ≡ some xs)
      × AreOrdered b xs
      × ((j : ℕ) → covering xs j ≡ cell j w)
unfolding drain
drain-covering zero b w v clean there few = absurd (omega (arith, there))
drain-covering (suc n) b w v clean there few = elim (pop-Takes w v) [
  | inl (e, stops) ↦ ([], ground (arith, stops), tt, λ j. ground (arith, e.no_message j))
  | inr (x, u, takes, t) ↦
      let here : cell x.start w ≡ x.id + 1 =
        t.same_number x.start (start-covered x t.some_blocks) in
      let after : b ≤ x.start = ground (arith, here, clean x.start) in
      let (xs, rest, ordered, c) =
        drain-covering n (x.start + x.size) u t.still
          (λ j h. ground (arith, h, t.left j, t.first j)) (omega (arith, t.inside, t.same_length))
          (omega (arith, few, after, t.some_blocks, t.same_length)) in
      (
        x ∷ xs,
        ground (arith, takes, rest),
        (after, t.some_blocks, ordered),
        λ j. ground (arith, c j, t.left j, t.same_number j),
      )
]

push_all-highest :
    (xs : List Write) (w : Writes)
    → IsWrites w
    → AllFit (length w.memory) xs
    → (u : Writes) × (push_all xs w ≡ some u)
      × IsWrites u
      × (length u.memory ≡ length w.memory)
      × ((j : ℕ) → cell j u ≡ max_of (cell j w) (highest xs j))
unfolding push_all
push_all-highest [] w v fit = (w, refl, v, refl, λ j. omega arith)
push_all-highest (x ∷ xs) w v (f, fit) =
    let (u, e, s, l, c) = push-IsWrites x w v f.small f.some_blocks f.inside in
    let (t, rest, q, k, d) = push_all-highest xs u s (subst (λ n. AllFit n xs) (sym l) fit) in
    (t, ground (arith, e, rest), q, omega (arith, k, l), λ j. ground (arith, c j, d j))

pub get_or-zeros : (n j : ℕ) → get_or {A = ℕ} (replicate n 0) j 0 ≡ 0
get_or-zeros zero j = refl
get_or-zeros (suc n) zero = refl
get_or-zeros (suc n) (suc j) = get_or-zeros n j

length-construct : (n : ℕ) → length (construct n).memory ≡ n
unfolding construct
length-construct n = length-replicate {A = ℕ} n 0

cell-construct : (n j : ℕ) → cell j (construct n) ≡ 0
unfolding construct
cell-construct n j = get_or-zeros n j

construct-IsWrites : (n : ℕ) → n < size_mod → IsWrites (construct n)
unfolding construct
construct-IsWrites n h = record {
  bounded = omega (arith, length-replicate {A = ℕ} n 0);
  ids = λ j. omega (arith, get_or-zeros n j);
  range = inl (record { min_last = refl; max_first = refl; no_message = λ j. get_or-zeros n j });
}

-- Messages that fit are pushed in any order into an array without messages, and popped until there
-- is none: what comes out are messages apart from one another and in the order of their blocks, and
-- each block is in a message of the highest number that was pushed for it, or in none.
pub drain-push_all :
    (n : ℕ) (ws : List Write)
    → n < size_mod
    → AllFit n ws
    → (u : Writes) × (xs : List Write) × (push_all ws (construct n) ≡ some u)
      × (drain (suc n) u ≡ some xs)
      × AreOrdered 0 xs
      × ((j : ℕ) → covering xs j ≡ highest ws j)
drain-push_all n ws h fit =
    let v : IsWrites (construct n) = construct-IsWrites n h in
    let l : length (construct n).memory ≡ n = length-construct n in
    let (u, pushes, s, k, c) =
      push_all-highest ws (construct n) v (subst (λ m. AllFit m ws) (sym l) fit) in
    let (xs, drains, ordered, d) =
      drain-covering (suc n) 0 u s (λ j less. absurd (omega arith)) (omega arith)
        (omega (arith, k, l)) in
    (u, xs, pushes, drains, ordered, λ j. ground (arith, d j, c j, cell-construct n j))
