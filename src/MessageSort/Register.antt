-- ===== src/MessageSort/Register.antt =====
-- What addRegister of src/MPI/messagesort.cpp makes of the state.
mod Loops
pub mod Hull
pub mod Placed
use talpf.Prelude.{
  ℕ, zero, suc, ◌+◌, ◌-◌, ◌*◌, ◌/◌, ◌%◌, ◌^◌, ◌≤◌, ◌<◌, ◌≡◌, refl, ap, ◌∙◌, sym, subst, ◌⊎◌, inl,
  inr, true, false, not, Option, some, none, List, [], ◌∷◌, ◌++◌, length, length-append, get_elem?,
  get_elem?-lt, get_elem?-set, set, set?, length-set, resized, length-resized, ltb, leb, ◌==◌,
  if◌then◌else◌, size_mod, arith, dec_lt, dec_le, ℕ_discrete, returns, ◌≢◌, replicate,
  length-replicate,
}
use Prim.Native.Nat.{max as max_of, min as min_of}
use native.Mathlib.Nat.{div-add-mod', mod-lt, le-div_iff_mul-le}
use talpf.SparseSet
use talpf.SparseSet.{SparseSet, max_size}
use talpf.SparseSet.Contents
use talpf.SparseSet.Extend.{extend-IsValid}
use talpf.MessageSort.{
  MessageSort, Region, Slot, SlotToRegion, compare_region, overlaps, equal_range, erase_range,
  insert_region, extent, extend_dirty, distance, discard, remap, remap_all, place, add_register,
}
use talpf.MessageSort.Blocks.{Writes, construct, grow}
use talpf.MessageSort.Align.{pow-pos}
use talpf.MessageSort.Merge.{
  All, All-equal, map_All, zip_All, AreApart, finish, insert_region-AreApart, extent-contains,
}
use talpf.MessageSort.Register.Loops.{extend_dirty-reaches, discard-keeps, remap_all-total}
use talpf.MessageSort.Register.Hull.{IsHull, extent-IsHull}
use talpf.MessageSort.Register.Placed.{HasArray, IsPlaced, place-IsPlaced}

-- What `addRegister` asks of the state: the regions are apart and have their arrays, and the list of
-- dirty regions is a sparse set from 0 on.
pub record CanRegister (s : MessageSort) : Type 0 where
  pub apart : AreApart s.sorted_regions
  pub arrays : All (HasArray s) s.sorted_regions
  pub same_writes : length s.writes ≡ length s.regions
  pub same_slots : length s.slot_to_region ≡ length s.memslots
  pub dirty : Contents.IsValid s.dirty
  pub from_zero : s.dirty.min ≡ 0
  pub few : 2 * length s.regions < max_size

-- The state after a slot is registered, where `old` are the regions that it touches, and `rest` those
-- that it does not: the new region is in the place of all it touches, and the slot points to it.
pub record Registers (id : ℕ) (fresh : Region) (old rest : List Region) (s t : MessageSort)
    : Type 0 where
  pub new : Region
  pub hull : IsHull fresh old new
  pub sorted : t.sorted_regions ≡ insert_region new rest
  pub apart : AreApart t.sorted_regions
  pub known : get_elem? t.regions new.region ≡ some new
  pub array : Writes
  pub there : get_elem? t.writes new.region ≡ some array
  pub blocks : length array.memory ≡ new.size / 2 ^ s.grain_power
  pub slot :
      get_elem? t.memslots id ≡ some (record { slot = id; base = fresh.base; size = fresh.size })
  pub located :
      get_elem? t.slot_to_region id
      ≡ some (record { region = new.region; offset = fresh.base - new.base })
  pub has_room : length s.regions ≤ t.dirty.max

-- `addRegister` of a slot that there is: it comes back, and the regions are again in order and apart
-- from one another. The slot and all regions that it touches are one region, the hull of them, with
-- the number of the oldest, which is listed under this number and has an array of as many blocks; the
-- other regions are those that were there. The slot points to its place in that region, and the list
-- of dirty regions has room for the region. Conditions: the regions of before are in order, apart, and
-- have their arrays, there are fewer than 2^59 of them, and the base is an address of 64 bits.
pub add_register-Registers :
    (id base size : ℕ) (s : MessageSort)
    → CanRegister s
    → id < length s.memslots
    → base < size_mod
    → let fresh : Region = record { region = length s.regions; base = base; size = size } in
      (t : MessageSort) × (add_register id base size s ≡ some t)
      × Registers id fresh
          (equal_range fresh s.sorted_regions)
          (erase_range fresh s.sorted_regions)
          s
          t
unfolding add_register set?
add_register-Registers id base size s c small word =
    let fresh : Region = record { region = length s.regions; base = base; size = size } in
    let old : List Region = equal_range fresh s.sorted_regions in
    let new : Region = extent old base (base + size) (length s.regions) in
    let hull : IsHull fresh old new = extent-IsHull fresh old in
    let arrays : All (HasArray s) old = All-equal fresh (HasArray s) s.sorted_regions c.arrays in
    let (dirty, reached, room) =
      extend_dirty-reaches (suc (length s.regions)) (length s.regions) s.dirty c.dirty c.from_zero
        c.few (omega arith) in
    let (u, placed, p) = place-IsPlaced s c.same_writes fresh new old refl hull arrays in
    let inside : All (λ r. r.region < length u.writes) old =
      map_All (HasArray s) (λ r. r.region < length u.writes) old
        (λ r a. omega (arith, p.enough_writes, get_elem?-lt s.writes r.region a.1)) arrays in
    let (writes, discarded, n, kept) = discard-keeps new.region old u.writes inside in
    let slot : Slot = record { slot = id; base = base; size = size } in
    let memslots : List Slot = set u.memslots id slot in
    let id_inside : id < length u.memslots =
      subst (λ ms. id < length ms) (sym p.same_rest.0) small in
    let all_slots : length u.slot_to_region ≡ length u.memslots =
      ap (λ es. length es) p.same_rest.1
      ∙ (c.same_slots ∙ ap (λ ms. length ms) (sym p.same_rest.0)) in
    let (mapped, remapped, m) =
      remap_all-total new old memslots 0 u.slot_to_region
        (omega (arith, all_slots, length-set u.memslots id slot)) in
    let mapped_inside : id < length mapped = omega (arith, m, all_slots, id_inside) in
    let link : SlotToRegion = record { region = new.region; offset = distance base new.base } in
    let sorted : insert_region new (erase_range fresh u.sorted_regions)
        ≡ insert_region new (erase_range fresh s.sorted_regions) =
      ap (λ rs. insert_region new (erase_range fresh rs)) p.same_rest.2 in
    let near : distance base new.base ≡ base - new.base = omega (arith, word, hull.covers.0) in
    (
      record u {
        dirty = dirty;
        memslots = memslots;
        writes = writes;
        slot_to_region = set mapped id link;
        sorted_regions = insert_region new (erase_range fresh u.sorted_regions);
      },
      ground (arith, reached, placed, discarded, remapped, id_inside, mapped_inside),
      record {
        new = new;
        hull = hull;
        sorted = sorted;
        apart =
            subst AreApart (sym sorted) (insert_region-AreApart fresh s.sorted_regions c.apart).0;
        known = p.known;
        array = p.array;
        there = kept ∙ p.there;
        blocks = p.blocks;
        slot = ground (arith, get_elem?-set u.memslots id id slot id_inside);
        located = ground (arith, near, get_elem?-set mapped id id link mapped_inside);
        has_room = room;
      },
    )
