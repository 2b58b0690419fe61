-- ===== src/MessageSort/Register/Loops.antt =====
-- The loops of addRegister in src/MPI/messagesort.cpp over the list of dirty regions, the arrays and the
-- slots.
use talpf.Prelude.{
  ℕ, zero, suc, ◌+◌, ◌*◌, ◌%◌, ◌≤◌, ◌<◌, ◌≡◌, refl, ap, ◌∙◌, sym, subst, inl, inr, true, some, List,
  [], ◌∷◌, length, get_elem?, get_elem?-set, set, set?, length-set, size_mod, arith, dec_lt,
  ℕ_discrete, returns,
}
use Prim.Native.Nat.{max as max_of}
use talpf.SparseSet
use talpf.SparseSet.{SparseSet, max_size}
use talpf.SparseSet.Contents
use talpf.SparseSet.Extend.{extend-IsValid}
use talpf.MessageSort.{
  Region, Slot, SlotToRegion, extend_dirty, distance, discard, remap, remap_all,
}
use talpf.MessageSort.Blocks.{Writes, construct}
use talpf.MessageSort.Merge.{All}

resize_range-extends :
    (hi : ℕ) (d t : SparseSet)
    → d.max < hi
    → SparseSet.extend true true hi d ≡ returns t
    → SparseSet.resize_range true true hi d ≡ returns t
unfolding SparseSet.resize_range
resize_range-extends hi d t h e = ground (arith, h, e)

extend_dirty-step :
    (fuel n : ℕ) (d t u : SparseSet)
    → d.max < n
    → SparseSet.resize_range true true (max_of 1 ((2 * d.max) % size_mod)) d ≡ returns t
    → extend_dirty fuel n t ≡ some u
    → extend_dirty (suc fuel) n d ≡ some u
unfolding extend_dirty
extend_dirty-step fuel n d t u more e r = ground (arith, more, e, r)

-- The loop over the dirty list ends with room for as many regions.
pub extend_dirty-reaches :
    (fuel n : ℕ) (d : SparseSet)
    → Contents.IsValid d
    → d.min ≡ 0
    → 2 * n < max_size
    → n ≤ d.max + fuel
    → (e : SparseSet) × (extend_dirty fuel n d ≡ some e) × (n ≤ e.max)
unfolding extend_dirty
extend_dirty-reaches zero n d v z h k = (d, ground (arith, k), omega (arith, k))
extend_dirty-reaches (suc fuel) n d v z h k = elim (dec_lt d.max n) [
  | no enough ↦ (d, ground (arith, enough), omega (arith, enough))
  | yes more ↦
      let hi : ℕ = max_of 1 ((2 * d.max) % size_mod) in
      let grows : d.max < hi = omega (arith, more, h) in
      elim (extend-IsValid hi v grows (omega (arith, more, h)) (omega (arith, more, h)) true true) [
        | inl (t, e, w, low, high, same) ↦
            let (u, r, m) =
              extend_dirty-reaches fuel n t w (low ∙ z) h (omega (arith, k, grows, high)) in
            (u, extend_dirty-step fuel n d t u more (resize_range-extends hi d t grows e) r, m)
        | inr (impossible, e) ↦ absurd (ground (arith, impossible))
      ]
]

-- The arrays that are given back are those of other regions.
pub discard-keeps :
    (keep : ℕ) (rs : List Region) (ws : List Writes)
    → All (λ r. r.region < length ws) rs
    → (us : List Writes) × (discard keep rs ws ≡ some us)
      × (length us ≡ length ws)
      × (get_elem? us keep ≡ get_elem? ws keep)
unfolding discard set?
discard-keeps keep [] ws h = (ws, refl, refl, refl)
discard-keeps keep (r ∷ rs) ws (l, h) = elim (ℕ_discrete r.region keep) [
  | yes same ↦ let (us, e, n, g) = discard-keeps keep rs ws h in (us, ground (arith, same, e), n, g)
  | no other ↦
      let vs : List Writes = set ws r.region (construct 0) in
      let sizes : length vs ≡ length ws = length-set ws r.region (construct 0) in
      let (us, e, n, g) =
        discard-keeps keep rs vs (subst (λ k. All (λ q. q.region < k) rs) (sym sizes) h) in
      (
        us,
        ground (arith, other, l, e),
        n ∙ sizes,
        g ∙ ground (arith, other, get_elem?-set ws r.region keep (construct 0) l),
      )
]

found : {A : Type 0} (xs : List A) (i : ℕ) → i < length xs → (x : A) × (get_elem? xs i ≡ some x)
found [] i h = absurd (omega (arith, h))
found (x ∷ xs) zero h = (x, refl)
found (x ∷ xs) (suc i) h = found xs i (omega (arith, h))

remap-total :
    (new : Region) (m : Slot) (rs : List Region) (e : SlotToRegion)
    → (f : SlotToRegion) × (remap new (some m) rs e ≡ some f)
unfolding remap
remap-total new m [] e = (e, refl)
remap-total new m (r ∷ rs) e = elim (ℕ_discrete e.region r.region) [
  | yes same ↦
      let (f, g) =
        remap-total new m rs (record { region = new.region; offset = distance m.base new.base }) in
      (f, ground (arith, same, g))
  | no other ↦ let (f, g) = remap-total new m rs e in (f, ground (arith, other, g))
]

pub remap_all-total :
    (new : Region) (rs : List Region) (ms : List Slot) (k : ℕ) (es : List SlotToRegion)
    → k + length es ≤ length ms
    → (fs : List SlotToRegion) × (remap_all new rs ms k es ≡ some fs) × (length fs ≡ length es)
unfolding remap_all
remap_all-total new rs ms k [] h = ([], refl, refl)
remap_all-total new rs ms k (e ∷ es) h =
    let (m, there) = found ms k (omega (arith, h)) in
    let (f, g) = remap-total new m rs e in
    let (fs, i, n) = remap_all-total new rs ms (suc k) es (omega (arith, h)) in
    (f ∷ fs, ground (arith, there, g, i), ap suc n)
