-- ===== src/Prelude/Resize.antt =====
-- What `resize` makes of a vector.
use Prim.Native.Nat.{ℕ, ◌-◌, ◌<◌}
use mathlib.Core.Path.{◌≡◌, refl, ap}
use mathlib.Core.Logic.{◌⊎◌, inl, inr}
use mathlib.Core.Bool.{Bool, true, false}
use mathlib.Core.List.{List, [], ◌∷◌, ◌++◌}
use mathlib.Core.Option.{some, none}
use native.Mathlib.Decide.{dec_le}
use native.Mathlib.Omega.{arith}
use talpf.Prelude.Tests.{leb, if◌then◌else◌}
use talpf.Prelude.Vector.{
  length, get_or, get_elem?, take, replicate, resize, length-append, length-take, length-replicate,
  get_or-take, get_or-append_left, get_elem?-take, get_elem?-append_left,
}

module _ {ℓ} {A : Type ℓ} where
  unfoldable pub resized : ℕ → A → List A → List A
  resized n d xs = if leb n (length xs) then take n xs else xs ++ replicate (n - length xs) d

  pub take-append_left : (xs ys : List A) → take (length xs) (xs ++ ys) ≡ xs
  take-append_left [] ys = refl
  take-append_left (x ∷ xs) ys = ap (◌∷◌ x) (take-append_left xs ys)

module _ {ℓ} {A : Type ℓ} (n : ℕ) (d : A) (xs : List A) where
  pub length-resized : length (resized n d xs) ≡ n
  unfolding resized
  length-resized = ground (
    arith,
    length-take n xs,
    length-append xs (replicate (n - length xs) d),
    length-replicate (n - length xs) d,
  )

  pub get_or-resized :
      (k : ℕ) (e : A) → k < n → k < length xs → get_or (resized n d xs) k e ≡ get_or xs k e
  unfolding resized
  get_or-resized k e h j =
      ground (arith, get_or-take n xs k e, get_or-append_left xs (replicate (n - length xs) d) k e)

  -- It fails only if the allocator has no memory and the vector grows; cut back to its old length,
  -- a vector that grew is what it was.
  pub resize_cases :
      (alloc : Bool)
      → (resize alloc n d xs ≡ some (resized n d xs))
        ⊎ ((alloc ≡ false) × (length xs < n) × (resize alloc n d xs ≡ none))
  unfolding resize resized
  resize_cases true = inl (ground arith)
  resize_cases false = elim (dec_le n (length xs)) [
    | yes h ↦ inl (ground arith)
    | no h ↦ inr (refl, omega arith, ground arith)
  ]

  pub take-resized : length xs < n → take (length xs) (resized n d xs) ≡ xs
  unfolding resized
  take-resized h = ground (arith, take-append_left xs (replicate (n - length xs) d))

  pub get_elem?-resized :
      (k : ℕ) → k < n → k < length xs → get_elem? (resized n d xs) k ≡ get_elem? xs k
  unfolding resized
  get_elem?-resized k h j =
      ground
        (arith, get_elem?-take n xs k, get_elem?-append_left xs (replicate (n - length xs) d) k)
