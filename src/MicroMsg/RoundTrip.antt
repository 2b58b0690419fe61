-- ===== src/MicroMsg/RoundTrip.antt =====
-- `read` of src/common/micromsg.hpp gives back what `write` wrote.
use talpf.Prelude.{
  ℕ, zero, suc, ◌+◌, ◌-◌, ◌*◌, ◌%◌, ◌^◌, ◌≤◌, ◌<◌, ◌≡◌, refl, ap, ◌∙◌, subst, true, false, some,
  List, [], ◌∷◌, length, get_elem?, get_or, set?, set, length-set, get_or-set, get_elem?-get_or,
  ◌==◌, ◌>>=◌, arith, ◌⊎◌, inl, inr, Option-cases, Bool-cases,
}
use native.Mathlib.Nat.{mod-eq_of_lt}
use talpf.MicroMsg.{
  MicroMsg, write, max_groups, read, has_next, find_end, collect, put_bytes, get_bytes, write_bytes,
  read_bytes,
}
use talpf.MicroMsg.Groups.{value, Holds, write_groups-Holds}

pub find_end-stop :
    (n i stop : ℕ) (xs : List ℕ)
    → i < stop
    → stop ≤ i + n
    → stop ≤ length xs
    → ((j : ℕ) → i ≤ j → suc j < stop → has_next (get_or xs j 0) ≡ true)
    → ((j : ℕ) → suc j ≡ stop → has_next (get_or xs j 0) ≡ false)
    → find_end n i xs ≡ some stop
unfolding find_end
find_end-stop zero i stop xs lo few inside inner last = absurd (omega (arith, lo, few))
find_end-stop (suc n) i stop xs lo few inside inner last =
    let found : get_elem? xs i ≡ some (get_or xs i 0) =
      get_elem?-get_or xs i 0 (omega (arith, lo, inside)) in
    elim (Bool-cases (suc i == stop)) [
      | inl here ↦ ground (arith, found, here, last i)
      | inr later ↦
          let rest : find_end n (suc i) xs ≡ some stop =
            find_end-stop n (suc i) stop xs (ground (arith, lo, later)) (omega (arith, few)) inside
              (λ j l h. inner j (omega (arith, l)) h) last in
          ground (arith, found, rest, lo, later, inner i)
    ]

abbrev step : ℕ → ℕ → ℕ → ℕ
step bits result c = (result * 128 % 2 ^ bits + c % 128) % 2 ^ bits

-- The group that is read last is the lowest.
collect-last :
    (bits k i : ℕ) (xs : List ℕ) (result : ℕ)
    → collect bits (suc k) i xs result
      ≡ (collect bits k (suc i) xs result >>= λ r. get_elem? xs i >>= λ c. some (step bits r c))
unfolding collect
collect-last bits zero i xs result = let here : i + 0 ≡ i = omega arith in rw here refl
collect-last bits (suc k) i xs result =
    let here : i + suc k ≡ suc i + k = omega arith in
    elim (Option-cases (get_elem? xs (suc i + k))) [
      | inl out ↦ rw here (rw out refl)
      | inr (c, found) ↦ rw here (rw found (collect-last bits k i xs (step bits result c)))
    ]

pub collect-value :
    (bits k i : ℕ) (xs : List ℕ)
    → i + k ≤ length xs
    → value k i xs < 2 ^ bits
    → collect bits k i xs 0 ≡ some (value k i xs)
collect-value bits zero i xs fits small = unfold collect in refl
collect-value bits (suc k) i xs fits small =
    let v : ℕ = value k (suc i) xs in
    let c : ℕ = get_or xs i 0 in
    let first : v * 128 % 2 ^ bits ≡ v * 128 = mod-eq_of_lt (omega (arith, small)) in
    let both : (v * 128 + c % 128) % 2 ^ bits ≡ v * 128 + c % 128 =
      mod-eq_of_lt (omega (arith, small)) in
    collect-last bits k i xs 0
    ∙ rw (collect-value bits k (suc i) xs (omega (arith, fits)) (omega (arith, small))) (
        rw (get_elem?-get_or xs i 0 (omega (arith, fits)))
          (rw first (rw both (ap some (omega arith)))))

-- `read` of groups gives the number that they stand for, in a type that has room for it.
read-Holds :
    (bits number stop : ℕ) (m : MicroMsg)
    → Holds number m.pos stop m.buffer
    → number < 2 ^ bits
    → read bits m ≡ some (number, record m { pos = stop })
unfolding read
read-Holds bits number stop m h small =
    let found : find_end (length m.buffer - m.pos) m.pos m.buffer ≡ some stop =
      find_end-stop (length m.buffer - m.pos) m.pos stop m.buffer h.some_groups
        (omega (arith, h.inside)) h.inside h.inner h.last in
    let got : collect bits (stop - m.pos) m.pos m.buffer 0 ≡ some number =
      subst (λ n. collect bits (stop - m.pos) m.pos m.buffer 0 ≡ some n) h.same_value
        (collect-value bits (stop - m.pos) m.pos m.buffer (omega (arith, h.some_groups, h.inside))
          (omega (arith, h.same_value, small))) in
    ground (arith, found, got)

-- With room for ten bytes `write` of a number below 2 ^ 64 returns, takes one to ten bytes, and
-- keeps the others. `read` from where it began, in a type that has room for the number, gives the
-- number back, and stops where `write` stopped.
pub read-write :
    (bits number : ℕ) (m : MicroMsg)
    → number < 2 ^ bits
    → number < 2 ^ 64
    → m.pos + max_groups ≤ length m.buffer
    → (w : MicroMsg) × (write number m ≡ some w)
      × (read bits (record w { pos = m.pos }) ≡ some (number, w))
      × (m.pos < w.pos)
      × (w.pos ≤ m.pos + max_groups)
      × (length w.buffer ≡ length m.buffer)
      × ((j : ℕ) → (j < m.pos) ⊎ (w.pos ≤ j) → get_or w.buffer j 0 ≡ get_or m.buffer j 0)
unfolding write
read-write bits number m small word room =
    let (stop, ys, e, h, few, l, same) =
      write_groups-Holds 9 number m.pos m.buffer (omega (arith, word)) room in
    let w : MicroMsg = record { buffer = ys; pos = stop } in
    (
      w,
      ground (arith, e),
      read-Holds bits number stop (record w { pos = m.pos }) h small,
      h.some_groups,
      few,
      l,
      same,
    )

pub put_bytes-get_bytes :
    (cs : List ℕ) (i : ℕ) (xs : List ℕ)
    → i + length cs ≤ length xs
    → (ys : List ℕ) × (put_bytes cs i xs ≡ some ys)
      × (get_bytes (length cs) i ys ≡ some cs)
      × (length ys ≡ length xs)
      × ((j : ℕ) → (j < i) ⊎ (i + length cs ≤ j) → get_or ys j 0 ≡ get_or xs j 0)
unfolding put_bytes get_bytes set?
put_bytes-get_bytes [] i xs fits = (xs, refl, refl, refl, λ j out. refl)
put_bytes-get_bytes (c ∷ cs) i xs fits =
    let l : length (set xs i c) ≡ length xs = length-set xs i c in
    let (ys, e, back, k, same) =
      put_bytes-get_bytes cs (suc i) (set xs i c) (omega (arith, l, fits)) in
    (
      ys,
      ground (arith, fits, e),
      ground (arith, back, fits, k, l, get_elem?-get_or ys i 0, same i, get_or-set xs i i c 0),
      omega (arith, k, l),
      λ j out. ground (arith, out, fits, same j, get_or-set xs i j c 0),
    )

-- Bytes that are written where there is room are read back from where they began, and the others stay.
pub read_bytes-write_bytes :
    (cs : List ℕ) (m : MicroMsg)
    → m.pos + length cs ≤ length m.buffer
    → (w : MicroMsg) × (write_bytes cs m ≡ some w)
      × (read_bytes (length cs) (record w { pos = m.pos }) ≡ some (cs, w))
      × (length w.buffer ≡ length m.buffer)
      × ((j : ℕ)
          → (j < m.pos) ⊎ (m.pos + length cs ≤ j)
          → get_or w.buffer j 0 ≡ get_or m.buffer j 0)
unfolding write_bytes read_bytes
read_bytes-write_bytes cs m room =
    let (ys, e, back, l, same) = put_bytes-get_bytes cs m.pos m.buffer room in
    (
      record { buffer = ys; pos = m.pos + length cs },
      ground (arith, e),
      ground (arith, back),
      l,
      same,
    )
