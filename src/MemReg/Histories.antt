-- ===== src/MemReg/Histories.antt =====
-- The promise in the comment on `MemoryRegister` in src/common/memreg.hpp: processes that call `add`
-- and `remove` in the same order get the same slot numbers, whatever their calls of `reserve`.
use talpf.Prelude.{
  ℕ, ◌+◌, ◌-◌, ◌%◌, ◌≡◌, refl, Option, some, none, List, [], ◌∷◌, ◌++◌, ◌==◌, if◌then◌else◌,
  size_mod, arith, ◌>>=◌, Exec, returns, throws, fault, Option-cases, inl, inr,
}
use talpf.MemReg.{MemoryRegister, Memory, add, remove, reserve}

pub data Call {ℓ} (R : Type ℓ) : Type ℓ where
  adds : R → Call R
  removes : ℕ → Call R
  reserves : Memory → ℕ → R → Call R

-- A call as far as it bears on the slot numbers.
pub data Request : Type 0 where
  takes : Request
  gives_back : ℕ → Request

module _ {ℓ} {R : Type ℓ} where
  -- A caller that catches what `reserve` throws goes on with the register as it was left.
  unfoldable pub after_reserve : Exec (MemoryRegister R) → Option (List ℕ × MemoryRegister R)
  after_reserve (returns t) = some ([], t)
  after_reserve (throws e t) = some ([], t)
  after_reserve fault = none

  -- One call, with the slot numbers that it returns.
  unfoldable pub step : Call R → MemoryRegister R → Option (List ℕ × MemoryRegister R)
  unfolding after_reserve
  step (adds rec) r = add rec r >>= λ p. some (p.0 ∷ [], p.1)
  step (removes slot) r = remove slot r >>= λ t. some ([], t)
  step (reserves m n d) r = after_reserve (reserve m n d r)

  -- A history of calls: the slot numbers that it deals out, in order.
  unfoldable pub run : List (Call R) → MemoryRegister R → Option (List ℕ)
  run [] r = some []
  run (c ∷ cs) r = step c r >>= λ p. run cs p.1 >>= λ rest. some (p.0 ++ rest)

  unfoldable pub requests : List (Call R) → List Request
  requests [] = []
  requests (adds rec ∷ cs) = takes ∷ requests cs
  requests (removes slot ∷ cs) = gives_back slot ∷ requests cs
  requests (reserves m n d ∷ cs) = requests cs

-- What the requests alone make of a free list and a next new slot.
deals : List Request → List ℕ → ℕ → List ℕ
deals [] free new = []
deals (takes ∷ qs) [] new = new ∷ deals qs [] ((new + 1) % size_mod)
deals (takes ∷ qs) (x ∷ free) new = x ∷ deals qs free new
deals (gives_back s ∷ qs) free new =
    let top : ℕ = (new + size_mod - 1) % size_mod in
    deals qs (if s == top then free else s ∷ free) (if s == top then top else new)

module _ {ℓ} {R : Type ℓ} where
  -- What one call returns and leaves, in terms of its request.
  adds_deals :
      (rec : R) (fs : List ℕ) (r : MemoryRegister R) (qs : List Request) {slot : ℕ}
      {t : MemoryRegister R}
      → fs ≡ r.free
      → add rec r ≡ some (slot, t)
      → deals (takes ∷ qs) fs r.min_new_slot ≡ slot ∷ deals qs t.free t.min_new_slot
  unfolding add deals
  adds_deals rec [] r qs e h = ground arith
  adds_deals rec (f ∷ fs) r qs e h = ground arith

  removes_deals :
      (s : ℕ) (r : MemoryRegister R) (qs : List Request) {t : MemoryRegister R}
      → remove s r ≡ some t
      → deals (gives_back s ∷ qs) r.free r.min_new_slot ≡ deals qs t.free t.min_new_slot
  unfolding remove deals
  removes_deals s r qs h = ground arith

  reserve_keeps :
      (m : Memory) (n : ℕ) (d : R) (r : MemoryRegister R) {out : List ℕ} {t : MemoryRegister R}
      → after_reserve (reserve m n d r) ≡ some (out, t)
      → (out ≡ []) × (t.free ≡ r.free) × (t.min_new_slot ≡ r.min_new_slot)
  unfolding after_reserve reserve
  reserve_keeps m n d r h = ground arith

  step-deals :
      (c : Call R) (cs : List (Call R)) (r : MemoryRegister R) {out : List ℕ} {t : MemoryRegister R}
      → step c r ≡ some (out, t)
      → deals (requests (c ∷ cs)) r.free r.min_new_slot
        ≡ out ++ deals (requests cs) t.free t.min_new_slot
  unfolding step requests
  step-deals (adds rec) cs r h = elim (Option-cases (add rec r)) [
    | inl e ↦ ground (arith, e)
    | inr ((slot, t), e) ↦ ground (arith, e, adds_deals rec r.free r (requests cs) refl e)
  ]
  step-deals (removes s) cs r h = elim (Option-cases (remove s r)) [
    | inl e ↦ ground (arith, e)
    | inr (t, e) ↦ ground (arith, e, removes_deals s r (requests cs) e)
  ]
  step-deals (reserves m n d) cs r h = ground (arith, reserve_keeps m n d r h)

  -- The slot numbers of a history are those of its requests.
  run-deals :
      (cs : List (Call R)) (r : MemoryRegister R) {out : List ℕ}
      → run cs r ≡ some out
      → out ≡ deals (requests cs) r.free r.min_new_slot
  unfolding run requests deals
  run-deals [] r h = ground arith
  run-deals (c ∷ cs) r {out} h = elim (Option-cases (step c r)) [
    | inl e ↦ ground (arith, e)
    | inr ((now, t), e) ↦ elim (Option-cases (run cs t)) [
      | inl e' ↦ ground (arith, e, e')
      | inr (later, e') ↦ ground (arith, e, e', step-deals c cs r e, run-deals cs t e')
    ]
  ]

  -- If two processes make the same calls of `add` and `remove` in the same order, from registers
  -- with the same free list and the same next slot, with any records and any calls of `reserve`
  -- between them, and none of their calls fails an assertion, they get the same slot numbers.
  pub run-agree :
      (cs ds : List (Call R)) (r s : MemoryRegister R) (out out' : List ℕ)
      → requests cs ≡ requests ds
      → r.free ≡ s.free
      → r.min_new_slot ≡ s.min_new_slot
      → run cs r ≡ some out
      → run ds s ≡ some out'
      → out ≡ out'
  run-agree cs ds r s out out' q f n h k = cc (run-deals cs r h, run-deals ds s k)
