-- ===== src/MessageSort/Align.antt =====
-- What `pushWrite` of src/MPI/messagesort.cpp makes of the offset and the size of a write.
use talpf.Prelude.{
  ℕ, zero, suc, ◌+◌, ◌-◌, ◌*◌, ◌/◌, ◌%◌, ◌^◌, ◌≤◌, ◌<◌, ◌≡◌, refl, ap, ◌∙◌, true, ◌&&◌, some,
  length, get_elem?, set, set?, get_elem?-set, get_elem?-lt, leb, ltb, if◌then◌else◌, size_mod,
  arith,
}
use Prim.Native.Nat.{max as max_of}
use native.Mathlib.Nat.{mod-lt, div-add-mod', mul-mod_left, le-div_iff_mul-le, mul-div_cancel}
use talpf.SparseSet.Contents
use talpf.SparseSet.Contents.{Updates, insert-Updates}
use talpf.MessageSort.{MessageSort, SlotToRegion, to_grain, push_write}
use talpf.MessageSort.Blocks.{Writes, Write, id_mod}
use talpf.MessageSort.Blocks.Paint.{cell, IsWrites, push-IsWrites}

pub pow-pos : (p : ℕ) → 0 < 2 ^ p
pow-pos zero = omega arith
pow-pos (suc p) = grind (arith, pow-pos p)

mul-le_cancel : (a b g : ℕ) → 0 < g → a * g ≤ b * g → a ≤ b
mul-le_cancel a b g pos h = grind arith

-- A start and the next whole block of `g` bytes.
module _ (g start : ℕ) (pos : 0 < g) (fits : start + g < size_mod) where
  abbrev block : ℕ
  block = (start + (g - 1)) / g

  no_wrap : (start + (g - 1)) % size_mod ≡ start + (g - 1)
  no_wrap = omega (arith, fits)

  to_grain-lt : to_grain g start < g
  to_grain-lt = omega (arith, pos)

  to_grain-block : start + to_grain g start ≡ block * g
  to_grain-block =
      rw no_wrap
        (omega (arith, pos, div-add-mod' (start + (g - 1)) g, mod-lt (start + (g - 1)) pos))

-- The write of `size` bytes from `start`, without its ends that are no whole blocks.
module _ (g start size : ℕ) (pos : 0 < g) (fits : start + g < size_mod)
    (word : start + size < size_mod) (some_blocks : to_grain g start + g ≤ size) where
  abbrev rest : ℕ
  rest = size - to_grain g start

  abbrev blocks : ℕ
  blocks = rest / g

  blocks-pos : 0 < blocks
  blocks-pos =
      omega
        (arith, (le-div_iff_mul-le {k = g} {x = 1} {y = rest} pos).1 (omega (arith, some_blocks)))

  blocks-bytes : blocks * g ≡ rest - rest % g
  blocks-bytes = omega (arith, div-add-mod' rest g)

  blocks-end : (block g start pos fits + blocks) * g ≤ start + size
  blocks-end = grind (arith, to_grain-block g start pos fits, div-add-mod' rest g, some_blocks)

-- The write of a message with number `id` to a slot that lies in a region, whose array is valid.
module _ (id slot offset size : ℕ) (s : MessageSort) (e : SlotToRegion) (w : Writes)
    (located : get_elem? s.slot_to_region slot ≡ some e)
    (region_found : get_elem? s.writes e.region ≡ some w) (v : IsWrites w) (small : id + 1 < id_mod)
    (dirty : Contents.IsValid s.dirty) (from_zero : s.dirty.min ≡ 0)
    (listed : e.region ≤ s.dirty.max) where
  abbrev grain : ℕ
  grain = 2 ^ s.grain_power

  abbrev start : ℕ
  start = e.offset + offset

  -- `pushWrite` of a write that has a whole block, and that its region has room for, keeps of it just
  -- the whole blocks: offset and size are cut to them at both ends, by less than a block at each. The
  -- blocks get the higher number, and the region is on the list of dirty ones.
  pub push_write-aligns :
      start + grain < size_mod
      → start + size < size_mod
      → to_grain grain start + grain ≤ size
      → start + size ≤ length w.memory * grain
      → (offset' size' first blocks : ℕ) × (t : MessageSort) × (u : Writes) × (push_write id slot
            offset size s
          ≡ some ((offset', size'), t))
        × (offset ≤ offset')
        × (offset' < offset + grain)
        × (offset' + size' ≤ offset + size)
        × (offset + size < offset' + size' + grain)
        × (e.offset + offset' ≡ first * grain)
        × (size' ≡ blocks * grain)
        × (get_elem? t.writes e.region ≡ some u)
        × IsWrites u
        × ((j : ℕ)
            → cell j u ≡ (
                if leb first j && ltb j (first + blocks)
                then max_of (cell j w) (id + 1)
                else cell j w))
        × Updates e.region true s.dirty t.dirty
  unfolding push_write set?
  push_write-aligns fits word some_blocks room =
      let pos : 0 < grain = pow-pos s.grain_power in
      let d : ℕ = to_grain grain start in
      let less : d < grain = to_grain-lt grain start pos fits in
      let b : ℕ = block grain start pos fits in
      let n : ℕ = blocks grain start size pos fits word some_blocks in
      let at_block : start + d ≡ b * grain = to_grain-block grain start pos fits in
      let bytes : n * grain ≡ size - d - (size - d) % grain =
        blocks-bytes grain start size pos fits word some_blocks in
      let inside : b + n ≤ length w.memory =
        mul-le_cancel (b + n) (length w.memory) grain pos
          (omega (arith, blocks-end grain start size pos fits word some_blocks, room)) in
      let region_lt : e.region < length s.writes = get_elem?-lt s.writes e.region region_found in
      let whole : (start + d) % grain ≡ 0 = ap (λ k. k % grain) at_block ∙ mul-mod_left b grain in
      let number : (start + d) / grain ≡ b = ap (λ k. k / grain) at_block ∙ mul-div_cancel b pos in
      let x : Write = record { id = id; start = b; size = n } in
      let (u, pushes, still, l, c) =
        push-IsWrites x w v small (blocks-pos grain start size pos fits word some_blocks) inside in
      let (dirty', inserts, up) = insert-Updates e.region dirty (omega (arith, from_zero)) listed in
      (
        offset + d,
        n * grain,
        b,
        n,
        record s { writes = set s.writes e.region u; dirty = dirty' },
        u,
        ground (
          arith, located, region_found, region_lt, some_blocks, word, less, whole, number, bytes,
          pushes, inserts,
        ),
        omega arith,
        omega (arith, less),
        omega (arith, bytes, some_blocks),
        omega (arith, bytes, some_blocks, mod-lt (size - d) pos),
        omega (arith, at_block),
        refl,
        ground (arith, region_lt, get_elem?-set s.writes e.region e.region u),
        still,
        c,
        up,
      )
