-- ===== src/MessageSort.antt =====
-- `MessageSort` of src/MPI/messagesort.hpp and messagesort.cpp: which blocks of the registered memory
-- the messages want to write. Addresses and slots have 64 bits. All vectors are allocated. The
-- multiset of regions is a list in the order of `CompareRegion`.
pub mod Blocks
pub mod Merge
pub mod Align
pub mod Register
mod Tests
use talpf.Prelude.{
  ℕ, zero, suc, ◌+◌, ◌-◌, ◌*◌, ◌/◌, ◌%◌, ◌^◌, Bool, true, false, not, ◌&&◌, ◌||◌, Option, some,
  none, List, [], ◌∷◌, ◌++◌, length, get_elem?, set?, resized, ltb, leb, ◌==◌, if◌then◌else◌,
  size_mod, assert, ◌>>=◌, ◌>>◌, Exec, returns, throws, fault,
}
use Prim.Native.Nat.{max as max_of, min as min_of}
use talpf.SparseSet
use talpf.SparseSet.{SparseSet}
use talpf.MessageSort.Blocks
use talpf.MessageSort.Blocks.{Writes, Write, construct, grow, push, pop, test}

pub record Slot : Type 0 where
  pub slot : ℕ
  pub base : ℕ
  pub size : ℕ

pub record Region : Type 0 where
  pub region : ℕ
  pub base : ℕ
  pub size : ℕ

pub record SlotToRegion : Type 0 where
  pub region : ℕ
  pub offset : ℕ

pub record MessageSort : Type 0 where
  pub memslots : List Slot
  pub regions : List Region
  pub sorted_regions : List Region
  pub slot_to_region : List SlotToRegion
  pub writes : List Writes
  pub dirty : SparseSet
  pub grain_power : ℕ

-- The constructor, with the power that the configuration gives.
unfoldable pub init : ℕ → Option MessageSort
init grain_power = elim (SparseSet.construct true true 0 0) [
  | throws x d ↦ none
  | fault ↦ none
  | returns d ↦ some (record {
    memslots = [];
    regions = [];
    sorted_regions = [];
    slot_to_region = [];
    writes = [];
    dirty = d;
    grain_power = grain_power;
  })
]

unfoldable pub set_slot_range : ℕ → MessageSort → MessageSort
set_slot_range range s = record s {
  memslots = resized range (record { slot = 0; base = 0; size = 0 }) s.memslots;
  slot_to_region = resized range (record { region = 0; offset = 0 }) s.slot_to_region;
}

-- `CompareRegion`
abbrev pub compare_region : Region → Region → Bool
compare_region a b = ltb (a.base + a.size) b.base

abbrev pub overlaps : Region → Region → Bool
overlaps a b = not (compare_region a b) && not (compare_region b a)

-- `equal_range` of the multiset, and the regions that are left when it is erased.
unfoldable pub equal_range : Region → List Region → List Region
equal_range r [] = []
equal_range r (s ∷ rs) = if overlaps s r then s ∷ equal_range r rs else equal_range r rs

unfoldable pub erase_range : Region → List Region → List Region
erase_range r [] = []
erase_range r (s ∷ rs) = if overlaps s r then erase_range r rs else s ∷ erase_range r rs

-- `insert` of the multiset, before the first region that is greater.
unfoldable pub insert_region : Region → List Region → List Region
insert_region r [] = r ∷ []
insert_region r (s ∷ rs) = if compare_region r s then r ∷ s ∷ rs else s ∷ insert_region r rs

-- The loop over the regions that overlap: the lowest base, the highest end and the oldest region.
unfoldable pub extent : List Region → ℕ → ℕ → ℕ → Region
extent [] base end oldest = record { region = oldest; base = base; size = end - base }
extent (r ∷ rs) base end oldest =
    extent rs (min_of r.base base) (max_of (r.base + r.size) end) (min_of r.region oldest)

-- The loop that makes the list of dirty regions long enough, of at most as many rounds.
unfoldable pub extend_dirty : ℕ → ℕ → SparseSet → Option SparseSet
extend_dirty zero n d = if ltb d.max n then none else some d
extend_dirty (suc fuel) n d =
    if ltb d.max n
    then (elim (SparseSet.resize_range true true (max_of 1 ((2 * d.max) % size_mod)) d) [
      | returns e ↦ extend_dirty fuel n e
      | throws x e ↦ none
      | fault ↦ none
    ])
    else some d

-- `p - q` of two addresses, as a `size_t`.
abbrev pub distance : ℕ → ℕ → ℕ
distance p q = (p + size_mod - q) % size_mod

-- `m_writes[ i ].swap( empty )` for each other region that overlaps.
unfoldable pub discard : ℕ → List Region → List Writes → Option (List Writes)
discard keep [] ws = some ws
discard keep (r ∷ rs) ws =
    (if r.region == keep then some ws else set? ws r.region (construct 0)) >>= λ us.
    discard keep rs us

-- The loop over the regions for one slot, whose base is read from `memslots`.
unfoldable pub remap : Region → Option Slot → List Region → SlotToRegion → Option SlotToRegion
remap new slot [] e = some e
remap new slot (r ∷ rs) e =
    (if e.region == r.region
      then (slot >>= λ m. some (record { region = new.region; offset = distance m.base new.base }))
      else some e)
    >>= λ f. remap new slot rs f

-- The loop over the slots, from slot `s` on.
unfoldable pub remap_all :
    Region → List Region → List Slot → ℕ → List SlotToRegion → Option (List SlotToRegion)
unfolding remap
remap_all new rs memslots s [] = some []
remap_all new rs memslots s (e ∷ es) = remap new (get_elem? memslots s) rs e >>= λ f.
    remap_all new rs memslots (suc s) es >>= λ fs. some (f ∷ fs)

-- The array of the region that was found, new or extended.
unfoldable pub place : Region → List Region → MessageSort → Option MessageSort
place new [] s =
    assert (new.region == length s.regions)
    >> some (record s {
      writes = s.writes ++ construct (new.size / 2 ^ s.grain_power) ∷ [];
      regions = s.regions ++ new ∷ [];
    })
place new (r ∷ rs) s = get_elem? s.writes new.region >>= λ w.
    grow (new.size / 2 ^ s.grain_power) w >>= λ u. set? s.writes new.region u >>= λ writes.
    set? s.regions new.region new >>= λ regions.
    some (record s { writes = writes; regions = regions })

-- `MessageSort::addRegister`
unfoldable pub add_register : ℕ → ℕ → ℕ → MessageSort → Option MessageSort
unfolding extend_dirty equal_range extent place discard remap_all erase_range insert_region
add_register id base size s =
    let fresh : Region = record { region = length s.regions; base = base; size = size } in
    let old : List Region = equal_range fresh s.sorted_regions in
    let new : Region = extent old base (base + size) (length s.regions) in
    extend_dirty (suc (length s.regions)) (length s.regions) s.dirty >>= λ dirty.
    place new old s >>= λ t.
    set? t.memslots id (record { slot = id; base = base; size = size }) >>= λ memslots.
    discard new.region old t.writes >>= λ writes.
    remap_all new old memslots 0 t.slot_to_region >>= λ mapped.
    set? mapped id (record { region = new.region; offset = distance base new.base })
    >>= λ to_region. some (record t {
      dirty = dirty;
      memslots = memslots;
      writes = writes;
      slot_to_region = to_region;
      sorted_regions = insert_region new (erase_range fresh t.sorted_regions);
    })

-- `MessageSort::delRegister`
unfoldable pub del_register : ℕ → MessageSort → Option MessageSort
del_register id s =
    set? s.memslots id (record { slot = size_mod - 1; base = 0; size = 0 }) >>= λ memslots.
    set? s.slot_to_region id (record { region = size_mod - 1; offset = size_mod - 1 }) >>= λ mapped.
    some (record s { memslots = memslots; slot_to_region = mapped })

-- The bytes from `start` up to the next block.
abbrev pub to_grain : ℕ → ℕ → ℕ
to_grain grain start = grain - 1 - (start + (grain - 1)) % size_mod % grain

-- `MessageSort::pushWrite`: the offset and size that it sets, beside the state. A mask of low bits is
-- a remainder.
unfoldable pub push_write : ℕ → ℕ → ℕ → ℕ → MessageSort → Option ((ℕ × ℕ) × MessageSort)
push_write id slot offset size s =
    if size == 0
    then some ((offset, size), s)
    else (get_elem? s.slot_to_region slot >>= λ e.
        let grain : ℕ = 2 ^ s.grain_power in
        let start : ℕ = (e.offset + offset) % size_mod in
        let diff : ℕ = to_grain grain start in
        let rest : ℕ = (size + size_mod - diff) % size_mod in
        assert ((start + diff) % size_mod % grain == 0)
        >> (get_elem? s.writes e.region >>= λ w.
            push
              (record { id = id; start = (start + diff) % size_mod / grain; size = rest / grain }) w
            >>= λ u. set? s.writes e.region u >>= λ writes.
                SparseSet.insert e.region s.dirty >>= λ dirty. some (
                  ((offset + diff) % size_mod, rest - rest % grain),
                  record s { writes = writes; dirty = dirty },
                )))

-- The message of a region, its address and its bytes.
abbrev pub Popped : Type 0
Popped = ℕ × (ℕ × ℕ)

unfoldable pub locate : ℕ → Region → Write → Popped
locate grain r x = (x.id, (r.base + x.start * grain, x.size * grain))

-- `MessageSort::popWrite`, of at most as many rounds.
unfoldable pub pop_write : ℕ → MessageSort → Option (Option Popped × MessageSort)
unfolding locate
pop_write zero s = if SparseSet.is_empty s.dirty then some (none, s) else none
pop_write (suc fuel) s = elim (SparseSet.elements s.dirty) [
  | [] ↦ some (none, s)
  | region ∷ more ↦ get_elem? s.writes region >>= λ w. pop w >>= λ p.
      set? s.writes region p.1 >>= λ writes. elim p.0 [
        | some x ↦ get_elem? s.regions region >>= λ r.
            some (some (locate (2 ^ s.grain_power) r x), record s { writes = writes })
        | none ↦ SparseSet.erase region s.dirty >>= λ dirty.
            pop_write fuel (record s { writes = writes; dirty = dirty })
      ]
]

-- `MessageSort::canWrite`
unfoldable pub can_write : ℕ → ℕ → ℕ → MessageSort → Option Bool
can_write id slot offset s = get_elem? s.slot_to_region slot >>= λ e.
    get_elem? s.writes e.region >>= λ w.
    test id ((e.offset + offset) % size_mod / 2 ^ s.grain_power) w

unfoldable pub clear_all : List Writes → Option (List Writes)
clear_all [] = some []
clear_all (w ∷ ws) = Blocks.clear w >>= λ u. clear_all ws >>= λ us. some (u ∷ us)

-- `MessageSort::clear`
unfoldable pub clear : MessageSort → Option MessageSort
unfolding clear_all
clear s = clear_all s.writes >>= λ writes.
    some (record s { dirty = SparseSet.clear s.dirty; writes = writes })

-- `MessageSort::empty`
pub is_empty : MessageSort → Bool
is_empty s = SparseSet.is_empty s.dirty
