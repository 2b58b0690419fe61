-- ===== src/MemReg/Counts.antt =====
-- How many slots of src/common/memreg.hpp are left after `add` and `update`.
use talpf.Prelude.{
  ℕ, suc, ◌-◌, ◌≤◌, ◌≡◌, refl, sym, ap, some, List, [], ◌∷◌, length, set?, length-set, get_elem?,
  bind-some, arith,
}
use talpf.MemReg.{MemoryRegister, deal, add, update}
use talpf.MemReg.Slots.{used_count}

module _ {ℓ} {R : Type ℓ} where
  abbrev pub left : MemoryRegister R → ℕ
  left r = length r.slots - used_count r

  set?-length : (xs ys : List R) (i : ℕ) (x : R) → set? xs i x ≡ some ys → length ys ≡ length xs
  unfolding set?
  set?-length xs ys i x e = ground (arith, e, length-set xs i x)

  deal-left :
      (fs : List ℕ) (r : MemoryRegister R) (slot : ℕ) (t : MemoryRegister R)
      → fs ≡ r.free
      → deal fs r ≡ some (slot, t)
      → (left r ≤ suc (left t)) × (length t.slots ≡ length r.slots)
  unfolding deal
  deal-left [] r slot t same e =
      let none_free : length r.free ≡ 0 = ap length (sym same) in ground (arith, e, none_free)
  deal-left (f ∷ fs) r slot t same e =
      let l : length r.free ≡ suc (length fs) = ap length (sym same) in ground (arith, e, l)

  -- `add` takes at most one slot.
  pub add-left :
      (rec : R) (r : MemoryRegister R) (slot : ℕ) (t : MemoryRegister R)
      → add rec r ≡ some (slot, t)
      → left r ≤ suc (left t)
  unfolding add
  add-left rec r slot t e =
      let (p, deals, rest) = bind-some (deal r.free r) _ (slot, t) e in
      let (slots, sets, gives) = bind-some (set? p.1.slots p.0 rec) _ (slot, t) rest in
      let same : length slots ≡ length p.1.slots = set?-length p.1.slots slots p.0 rec sets in
      let (one, size) = deal-left r.free r p.0 p.1 refl deals in
      ground (arith, gives, same, one, size)

  -- `update` takes none.
  pub update-left :
      (f : R → R) (slot : ℕ) (r t : MemoryRegister R) → update f slot r ≡ some t → left t ≡ left r
  unfolding update
  update-left f slot r t e =
      let (rec, found, rest) = bind-some (get_elem? r.slots slot) _ t e in
      let (slots, sets, gives) = bind-some (set? r.slots slot (f rec)) _ t rest in
      ground (arith, gives, set?-length r.slots slots slot (f rec) sets)
