-- ===== src/Prelude/Sums.antt =====
-- Sums over a vector, and what a write, a swap with the last element, and a pop make of them.
use Prim.Native.Nat.{ℕ, zero, suc, ◌+◌, ◌≤◌, ◌<◌}
use mathlib.Core.Path.{◌≡◌}
use mathlib.Core.List.{List, [], ◌∷◌, ◌++◌}
use native.Mathlib.Omega.{arith}
use talpf.Prelude.Vector.{length, get_or, set, take}

module _ {ℓ} {A : Type ℓ} where
  abbrev pub total : (A → ℕ) → List A → ℕ
  total f [] = 0
  total f (x ∷ xs) = f x + total f xs

  pub total-append : (f : A → ℕ) (xs ys : List A) → total f (xs ++ ys) ≡ total f xs + total f ys
  total-append f [] ys = omega arith
  total-append f (x ∷ xs) ys = omega (arith, total-append f xs ys)

  pub total-set :
      (f : A → ℕ) (xs : List A) (i : ℕ) (v d : A)
      → i < length xs
      → total f (set xs i v) + f (get_or xs i d) ≡ total f xs + f v
  total-set f [] i v d h = absurd (omega arith)
  total-set f (x ∷ xs) zero v d h = omega arith
  total-set f (x ∷ xs) (suc i) v d h = omega (arith, total-set f xs i v d (omega arith))

  pub total-take :
      (f : A → ℕ) (n : ℕ) (xs : List A) (d : A)
      → length xs ≡ suc n
      → total f (take n xs) + f (get_or xs n d) ≡ total f xs
  total-take f n [] d h = absurd (omega (arith, h))
  total-take f zero (x ∷ []) d h = omega arith
  total-take f zero (x ∷ y ∷ xs) d h = absurd (omega (arith, h))
  total-take f (suc n) (x ∷ xs) d h = omega (arith, total-take f n xs d (omega (arith, h)))

  pub total-at :
      (f : A → ℕ) (xs : List A) (i : ℕ) (d : A) → i < length xs → f (get_or xs i d) ≤ total f xs
  total-at f [] i d h = absurd (omega arith)
  total-at f (x ∷ xs) zero d h = omega arith
  total-at f (x ∷ xs) (suc i) d h = omega (arith, total-at f xs i d (omega arith))
