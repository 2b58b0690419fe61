-- ===== src/Prelude/Swaps.antt =====
-- `swap` of an element of a vector with the last one, and `pop_back`.
use Prim.Native.Nat.{ℕ, zero, suc, ◌+◌, ◌-◌, ◌<◌}
use mathlib.Core.Path.{◌≡◌, refl, ap, ◌∙◌}
use mathlib.Core.Bool.{false}
use mathlib.Core.List.{List, [], ◌∷◌}
use native.Mathlib.Omega.{arith}
use talpf.Prelude.Tests.{◌==◌, if◌then◌else◌}
use talpf.Prelude.Vector.{
  length, get_or, set, take, length-set, length-take, get_or-set, get_or-take,
}
use talpf.Prelude.Sums.{total, total-set, total-take}

unfoldable pub swap_pop {ℓ} : {A : Type ℓ} → ℕ → A → List A → List A
swap_pop i l ls =
    let back : ℕ = length ls - 1 in take back (set (set ls i (get_or ls back l)) back l)

-- An element in range does not depend on the default.
pub get_or-same {ℓ} :
    {A : Type ℓ} (ls : List A) (i : ℕ) (d e : A) → i < length ls → get_or ls i d ≡ get_or ls i e
get_or-same [] i d e h = absurd (omega arith)
get_or-same (x ∷ xs) zero d e h = refl
get_or-same (x ∷ xs) (suc i) d e h = get_or-same xs i d e (omega arith)

module _ {ℓ} {A : Type ℓ} (i : ℕ) (l : A) (ls : List A) (inside : i < length ls) where
  abbrev back : ℕ
  back = length ls - 1

  pub length-swap_pop : length (swap_pop i l ls) ≡ back
  unfolding swap_pop
  length-swap_pop = ground (
    arith,
    length-take back (set (set ls i (get_or ls back l)) back l),
    length-set (set ls i (get_or ls back l)) back l,
    length-set ls i (get_or ls back l),
  )

  pub get_or-swap_pop :
      (j : ℕ) (d : A)
      → j < back
      → get_or (swap_pop i l ls) j d ≡ (if i == j then get_or ls back l else get_or ls j d)
  unfolding swap_pop
  get_or-swap_pop j d h =
      let ys : List A = set ls i (get_or ls back l) in
      let other : back == j ≡ false = ground (arith, h) in
      get_or-take back (set ys back l) j d h
      ∙ get_or-set ys back j l d (omega (arith, h, length-set ls i (get_or ls back l)))
      ∙ ap (λ b. if b then l else get_or ys j d) other
      ∙ get_or-set ls i j (get_or ls back l) d inside

  pub total-swap_pop : (f : A → ℕ) → total f (swap_pop i l ls) + f (get_or ls i l) ≡ total f ls
  unfolding swap_pop
  total-swap_pop f =
      let b : A = get_or ls back l in
      let ys : List A = set ls i b in
      let here : f (get_or ys back l) ≡ f b = ground (arith, get_or-set ls i back b l inside) in
      let there : f (get_or (set ys back l) back l) ≡ f l =
        ground (arith, get_or-set ys back back l l, length-set ls i b) in
      omega (
        arith,
        here,
        there,
        total-take f back (set ys back l) l
            (omega (arith, length-set ys back l, length-set ls i b)),
        total-set f ys back l l (omega (arith, length-set ls i b)),
        total-set f ls i b l inside,
      )
