-- ===== src/SparseSet/Iterate.antt =====
-- The iteration from `begin()` to `end()` of src/common/sparseset.hpp.
use talpf.Prelude.{
  ℕ, ◌-◌, ◌≤◌, ◌<◌, ◌≡◌, ◌↔◌, true, some, length, take, get_or, get_elem?, get_elem?-get_or,
  get_elem?-lt, length-take, get_or-take, arith,
}
use talpf.SparseSet.{SparseSet, contains, elements}
use talpf.SparseSet.Contents.{IsValid, contains-has}

module _ {s : SparseSet} (v : IsValid s) where
  get_elem?-elements : (i : ℕ) → i < s.size → get_elem? (elements s) i ≡ some (get_or s.domain i 0)
  unfolding elements
  get_elem?-elements i h = ground (
    arith,
    v.filled,
    length-take s.size s.domain,
    get_elem?-get_or (take s.size s.domain) i 0,
    get_or-take s.size s.domain i 0,
  )

  -- On a valid set the iteration makes `m_size` steps.
  pub length-elements : length (elements s) ≡ s.size
  unfolding elements
  length-elements = omega (arith, v.filled, length-take s.size s.domain)

  -- On a valid set and at a value of its range, `contains` answers yes exactly if the iteration
  -- comes upon the value's distance from the minimum.
  pub contains-elements :
      (y : ℕ)
      → s.min ≤ y
      → y ≤ s.max
      → (contains y s ≡ some true) ↔ ((i : ℕ) × (get_elem? (elements s) i ≡ some (y - s.min)))
  contains-elements y lo hi = (there, back)
    where
      k : ℕ
      k = get_or s.map (y - s.min) 0

      at : (k < length s.domain) × (get_or s.domain k 0 ≡ y - s.min)
      at = v.inverse.from_map (y - s.min) (omega (arith, v.spanned))

      there : contains y s ≡ some true → (i : ℕ) × (get_elem? (elements s) i ≡ some (y - s.min))
      there h = (k, ground (arith, h, at, contains-has y v, get_elem?-elements k))

      back : (i : ℕ) × (get_elem? (elements s) i ≡ some (y - s.min)) → contains y s ≡ some true
      back (i, e) =
          let h : i < s.size = omega (arith, get_elem?-lt (elements s) i e, length-elements) in
          ground (
            arith,
            v.filled,
            contains-has y v,
            get_elem?-elements i h,
            v.inverse.from_domain i (omega (arith, v.filled)),
          )

  -- It comes upon no element twice.
  pub elements-injective :
      (i j x : ℕ) → get_elem? (elements s) i ≡ some x → get_elem? (elements s) j ≡ some x → i ≡ j
  elements-injective i j x e f =
      let h : i < s.size = omega (arith, get_elem?-lt (elements s) i e, length-elements) in
      let k : j < s.size = omega (arith, get_elem?-lt (elements s) j f, length-elements) in
      ground (
        arith,
        get_elem?-elements i h,
        get_elem?-elements j k,
        v.inverse.from_domain i (omega (arith, v.filled)),
        v.inverse.from_domain j (omega (arith, v.filled)),
      )
