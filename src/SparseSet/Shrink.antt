-- ===== src/SparseSet/Shrink.antt =====
-- `shrink` of src/common/sparseset.hpp.
use talpf.Prelude.{
  ℕ, zero, suc, ◌+◌, ◌-◌, ◌≤◌, ◌<◌, ◌≡◌, sym, ap, take-all, take-take, some, List, length, take,
  get_or, get_elem?-get_or, length-take, get_or-take, arith,
}
use Prim.Native.Nat.{max as max_of}
use talpf.SparseSet.{SparseSet, span, contains, pop_while, shrink_to, shrink}
use talpf.SparseSet.Contents.{IsValid, has, contains-has}

-- From the position `t` on every number stands at its own position.
abbrev pub IsSettled : ℕ → List ℕ → Type 0
IsSettled t xs = (i : ℕ) → t ≤ i → i < length xs → get_or xs i 0 ≡ i

pop_while-take :
    (n target hi : ℕ) (xs : List ℕ)
    → length xs ≡ target + n
    → hi < target
    → IsSettled target xs
    → pop_while n target hi xs ≡ some (take target xs)
unfolding pop_while
pop_while-take zero target hi xs e h st = ap some (sym (take-all target xs (omega arith)))
pop_while-take (suc n) target hi xs e h st = ground (
  arith,
  get_elem?-get_or xs (target + n) 0,
  st (target + n),
  take-take target (target + n) xs,
  pop_while-take n target hi (take (target + n) xs) (omega (arith, length-take (target + n) xs)) h
      (λ i l m. ground (arith, length-take (target + n) xs, get_or-take (target + n) xs i 0, st i)),
)

module _ {s : SparseSet} (hi : ℕ) (v : IsValid s) (zero_based : s.min ≡ 0) (falls : hi < s.max)
    (settled : IsSettled (max_of s.size (hi + 1)) s.domain) where
  abbrev target : ℕ
  target = max_of s.size (hi + 1)

  abbrev shorter : SparseSet
  shorter = record s { max = target - 1; domain = take target s.domain; map = take target s.map }

  same_target : max_of s.size (span s.min hi) ≡ target
  same_target = omega (arith, zero_based, v.bounded)

  in_vectors : target ≤ length s.domain
  in_vectors = omega (arith, zero_based, v.filled, v.spanned)

  shrink_to-shorter : shrink_to (take target s.domain) s ≡ some shorter
  unfolding shrink_to
  shrink_to-shorter =
      ground
        (arith, zero_based, v.holds, v.bounded, in_vectors, v.spanned, length-take target s.domain)

  shrink-shorter : shrink hi s ≡ some shorter
  unfolding shrink
  shrink-shorter = ground (
    arith,
    same_target,
    v.bounded,
    v.holds,
    v.ordered,
    v.spanned,
    pop_while-take (length s.domain - target) target hi s.domain (omega (arith, in_vectors))
        (omega arith) settled,
    shrink_to-shorter,
  )

  -- A settled element is its own place.
  map_stays : (j : ℕ) → j < target → get_or s.map j 0 < target
  map_stays j h = ground (arith, in_vectors, v.inverse.from_map j, settled (get_or s.map j 0))

  domain_stays : (i : ℕ) → i < target → get_or s.domain i 0 < target
  domain_stays i h = ground (
    arith,
    in_vectors,
    v.inverse.from_domain i,
    v.inverse.from_domain (get_or s.domain i 0),
    settled (get_or s.domain i 0),
  )

  shorter-IsValid : IsValid shorter
  shorter-IsValid = record {
    ordered = omega (arith, zero_based);
    bounded = omega (arith, v.bounded, v.filled, v.spanned, zero_based);
    holds = omega (arith, v.holds, v.filled, v.spanned, zero_based);
    spanned = omega (arith, v.filled, v.spanned, zero_based, length-take target s.domain);
    filled = omega (arith, v.filled, v.spanned, length-take target s.domain);
    inverse = record {
      same_length = omega (
        arith,
        in_vectors,
        v.inverse.same_length,
        length-take target s.domain,
        length-take target s.map,
      );
      from_domain = λ i h.
          let j : i < target = omega (arith, in_vectors, length-take target s.domain) in
          ground (
            arith,
            in_vectors,
            length-take target s.domain,
            get_or-take target s.domain i 0,
            get_or-take target s.map (get_or s.domain i 0) 0,
            domain_stays i j,
            v.inverse.from_domain i,
          );
      from_map = λ i h.
          let j : i < target = omega (arith, in_vectors, length-take target s.domain) in
          ground (
            arith,
            in_vectors,
            length-take target s.domain,
            get_or-take target s.map i 0,
            get_or-take target s.domain (get_or s.map i 0) 0,
            map_stays i j,
            v.inverse.from_map i,
          );
    };
  }

  has-shorter : (y : ℕ) → has y shorter ≡ has y s
  has-shorter y = ground (
    arith,
    zero_based,
    in_vectors,
    v.spanned,
    get_or-take target s.map (y - s.min) 0,
    settled (y - s.min),
    v.inverse.from_domain (y - s.min),
    v.inverse.from_map (y - s.min),
    settled (get_or s.map (y - s.min) 0),
    map_stays (y - s.min),
  )

  -- `shrink` of a valid set that begins at 0 to a smaller maximum, if the elements behind the larger
  -- of its size and the new range stand at their own positions, cuts the range to just these and
  -- keeps what the set contains.
  pub shrink-IsValid :
      (t : SparseSet) × (shrink hi s ≡ some t)
      × IsValid t
      × (t.min ≡ 0)
      × (t.max + 1 ≡ max_of s.size (hi + 1))
      × ((y : ℕ) → contains y t ≡ contains y s)
  shrink-IsValid = (
    shorter,
    shrink-shorter,
    shorter-IsValid,
    zero_based,
    omega arith,
    λ y. ground (arith, contains-has y shorter-IsValid, contains-has y v, has-shorter y),
  )
