-- ===== src/MessageSort/Register/Hull.antt =====
-- The extent of the regions that overlap in addRegister of src/MPI/messagesort.cpp.
use talpf.Prelude.{ℕ, ◌≤◌, ◌≡◌, refl, ◌⊎◌, inl, inr, List, [], ◌∷◌, arith, dec_le}
use Prim.Native.Nat.{max as max_of, min as min_of}
use talpf.MessageSort.{Region, extent}
use talpf.MessageSort.Merge.{All, finish, extent-contains}

abbrev pub Any : (Region → Type 0) → List Region → Type 0
Any P [] = ⊥
Any P (r ∷ rs) = P r ⊎ Any P rs

pub any_with_all :
    (P Q : Region → Type 0) (rs : List Region) → Any P rs → All Q rs → (r : Region) × P r × Q r
any_with_all P Q [] a h = absurd a
any_with_all P Q (r ∷ rs) (inl p) (q, h) = (r, p, q)
any_with_all P Q (r ∷ rs) (inr a) (q, h) = any_with_all P Q rs a h

min_of-cases : (x y z : ℕ) → z ≡ min_of x y → (z ≡ y) ⊎ (z ≡ x)
min_of-cases x y z h = elim (dec_le y x) [
  | yes l ↦ inl (omega (arith, h, l))
  | no l ↦ inr (omega (arith, h, l))
]

max_of-cases : (x y z : ℕ) → z ≡ max_of x y → (z ≡ y) ⊎ (z ≡ x)
max_of-cases x y z h = elim (dec_le x y) [
  | yes l ↦ inl (omega (arith, h, l))
  | no l ↦ inr (omega (arith, h, l))
]

reassociate : {A B C : Type 0} → (A ⊎ B) → (B → C) → (A → C) → C
reassociate (inl a) g f = f a
reassociate (inr b) g f = g b

-- Each bound of the new region is that of the fresh region or of one that it touches.
pub extent-attains :
    (old : List Region) (base end oldest : ℕ)
    → base ≤ end
    → let new : Region = extent old base end oldest in
      ((new.base ≡ base) ⊎ Any (λ o. new.base ≡ o.base) old)
      × ((finish new ≡ end) ⊎ Any (λ o. finish new ≡ finish o) old)
      × ((new.region ≡ oldest) ⊎ Any (λ o. new.region ≡ o.region) old)
unfolding extent
extent-attains [] base end oldest h = (inl refl, inl (omega (arith, h)), inl refl)
extent-attains (o ∷ old) base end oldest h =
    let (lo, hi, n) =
      extent-attains old (min_of o.base base) (max_of (finish o) end) (min_of o.region oldest)
        (omega (arith, h)) in
    let new : Region =
      extent old (min_of o.base base) (max_of (finish o) end) (min_of o.region oldest) in
    (
      elim lo [
        | inr a ↦ inr (inr a)
        | inl e ↦ elim (min_of-cases o.base base new.base e) [ inl f ↦ inl f | inr f ↦ inr (inl f) ]
      ],
      elim hi [
        | inr a ↦ inr (inr a)
        | inl e ↦ elim (max_of-cases (finish o) end (finish new) e) [
          | inl f ↦ inl f
          | inr f ↦ inr (inl f)
        ]
      ],
      elim n [
        | inr a ↦ inr (inr a)
        | inl e ↦ elim (min_of-cases o.region oldest new.region e) [
          | inl f ↦ inl f
          | inr f ↦ inr (inl f)
        ]
      ],
    )

-- The new region is the hull of the fresh one and of those that it touches, with the lowest number.
pub record IsHull (fresh : Region) (old : List Region) (new : Region) : Type 0 where
  pub covers : (new.base ≤ fresh.base) × (finish fresh ≤ finish new) × (new.region ≤ fresh.region)
  pub covers_all :
      All (λ o. (new.base ≤ o.base) × (finish o ≤ finish new) × (new.region ≤ o.region)) old
  pub begins : (new.base ≡ fresh.base) ⊎ Any (λ o. new.base ≡ o.base) old
  pub ends : (finish new ≡ finish fresh) ⊎ Any (λ o. finish new ≡ finish o) old
  pub oldest : (new.region ≡ fresh.region) ⊎ Any (λ o. new.region ≡ o.region) old

pub extent-IsHull :
    (fresh : Region) (old : List Region)
    → IsHull fresh old (extent old fresh.base (finish fresh) fresh.region)
extent-IsHull fresh old =
    let (lo, hi, n, all) =
      extent-contains fresh old fresh.base (finish fresh) fresh.region (omega arith) in
    let (a, b, c) = extent-attains old fresh.base (finish fresh) fresh.region (omega arith) in
    record { covers = (lo, hi, n); covers_all = all; begins = a; ends = b; oldest = c }
