-- ===== src/MessageSort/Register/Placed.antt =====
-- The array and the entry of the region that addRegister of src/MPI/messagesort.cpp makes or extends.
use talpf.Prelude.{
  ℕ, ◌/◌, ◌^◌, ◌≤◌, ◌<◌, ◌≡◌, refl, ap, ◌∙◌, sym, inl, inr, some, List, [], ◌∷◌, ◌++◌, length,
  length-append, get_elem?, get_elem?-lt, get_elem?-set, set, set?, length-set, resized,
  length-resized, arith, length-replicate,
}
use native.Mathlib.Nat.{div-add-mod', le-div_iff_mul-le}
use talpf.MessageSort.{MessageSort, Region, place}
use talpf.MessageSort.Blocks.{Writes, construct, grow}
use talpf.MessageSort.Align.{pow-pos}
use talpf.MessageSort.Merge.{All, zip_All, finish}
use talpf.MessageSort.Register.Hull.{IsHull, any_with_all}

append-last : {A : Type 0} (xs : List A) (x : A) → get_elem? (xs ++ x ∷ []) (length xs) ≡ some x
append-last [] x = refl
append-last (y ∷ xs) x = append-last xs x

div_mono : (a b g : ℕ) → 0 < g → a ≤ b → a / g ≤ b / g
div_mono a b g pos h =
    (le-div_iff_mul-le {k = g} {x = a / g} {y = b} pos).1 (omega (arith, h, div-add-mod' a g))

-- A region that has an array, which is not longer than the region.
abbrev pub HasArray : MessageSort → Region → Type 0
HasArray s r =
    (w : Writes) × (get_elem? s.writes r.region ≡ some w)
    × (length w.memory ≤ r.size / 2 ^ s.grain_power)

-- The arrays and the regions after the new one is placed.
pub record IsPlaced (new : Region) (s t : MessageSort) : Type 0 where
  pub array : Writes
  pub there : get_elem? t.writes new.region ≡ some array
  pub blocks : length array.memory ≡ new.size / 2 ^ s.grain_power
  pub known : get_elem? t.regions new.region ≡ some new
  pub enough_writes : length s.writes ≤ length t.writes
  pub same_rest :
      (t.memslots ≡ s.memslots)
      × (t.slot_to_region ≡ s.slot_to_region)
      × (t.sorted_regions ≡ s.sorted_regions)

module _ (s : MessageSort) (n : length s.writes ≡ length s.regions) where
  array_made :
      (new : Region)
      → new.region ≡ length s.regions
      → (t : MessageSort) × (place new [] s ≡ some t) × IsPlaced new s t
  unfolding place construct
  array_made new e =
      let array : Writes = construct (new.size / 2 ^ s.grain_power) in
      let t : MessageSort = record s {
        writes = s.writes ++ array ∷ [];
        regions = s.regions ++ new ∷ [];
      } in
      (
        t,
        ground (arith, e),
        record {
          array = array;
          there = ap (get_elem? (s.writes ++ array ∷ [])) (e ∙ sym n) ∙ append-last s.writes array;
          blocks = length-replicate (new.size / 2 ^ s.grain_power) 0;
          known = ap (get_elem? (s.regions ++ new ∷ [])) e ∙ append-last s.regions new;
          enough_writes = omega (arith, length-append s.writes (array ∷ []));
          same_rest = (refl, refl, refl);
        },
      )

  array_grown :
      (new o : Region) (old : List Region) (w : Writes)
      → get_elem? s.writes new.region ≡ some w
      → length w.memory ≤ new.size / 2 ^ s.grain_power
      → (t : MessageSort) × (place new (o ∷ old) s ≡ some t) × IsPlaced new s t
  unfolding place grow set?
  array_grown new o old w e h =
      let blocks : ℕ = new.size / 2 ^ s.grain_power in
      let array : Writes = record w { memory = resized blocks 0 w.memory } in
      let inside : new.region < length s.writes = get_elem?-lt s.writes new.region e in
      let inside' : new.region < length s.regions = omega (arith, n, inside) in
      let t : MessageSort = record s {
        writes = set s.writes new.region array;
        regions = set s.regions new.region new;
      } in
      (
        t,
        ground (arith, e, h, inside, inside'),
        record {
          array = array;
          there = ground (arith, get_elem?-set s.writes new.region new.region array inside);
          blocks = length-resized blocks 0 w.memory;
          known = ground (arith, get_elem?-set s.regions new.region new.region new inside');
          enough_writes = omega (arith, length-set s.writes new.region array);
          same_rest = (refl, refl, refl);
        },
      )

  pub place-IsPlaced :
      (fresh new : Region) (old : List Region)
      → fresh.region ≡ length s.regions
      → IsHull fresh old new
      → All (HasArray s) old
      → (t : MessageSort) × (place new old s ≡ some t) × IsPlaced new s t
  place-IsPlaced fresh new [] e hull h = elim hull.oldest [
    | inl same ↦ array_made new (same ∙ e)
    | inr none_left ↦ absurd none_left
  ]
  place-IsPlaced fresh new (o ∷ old) e hull (a, h) = elim hull.oldest [
    | inl same ↦
        absurd (omega (arith, same, e, n, hull.covers_all.0.2, get_elem?-lt s.writes o.region a.1))
    | inr some_old ↦
        let (q, same, (covered, (w, there, short))) =
          any_with_all (λ r. new.region ≡ r.region)
            (λ r.
              ((new.base ≤ r.base) × (finish r ≤ finish new) × (new.region ≤ r.region))
              × HasArray s r)
            (o ∷ old) some_old
            (zip_All (λ r. (new.base ≤ r.base) × (finish r ≤ finish new) × (new.region ≤ r.region))
              (HasArray s)
              (λ r.
                ((new.base ≤ r.base) × (finish r ≤ finish new) × (new.region ≤ r.region))
                × HasArray s r)
              (o ∷ old) (λ r x y. (x, y)) hull.covers_all (a, h)) in
        array_grown new o old w (ap (get_elem? s.writes) same ∙ there) (
          omega (
            arith,
            short,
            div_mono q.size new.size (2 ^ s.grain_power) (pow-pos s.grain_power)
                (omega (arith, covered.0, covered.1)),
          ))
  ]
