-- ===== src/Prelude/Calls.antt =====
-- What a call of a C++ function does: it returns, or throws, and leaves a state behind; or it runs
-- into a failed ASSERT or an access out of range, which is undefined in a release build.
use mathlib.Core.Bool.{Bool, true, false}
use mathlib.Core.Option.{Option, none, some}
use mathlib.Core.Path.{◌≡◌, refl}
use native.Mathlib.Omega.{arith}

-- `ASSERT(b)`, in code that does not throw: `none` is a failed assertion.
abbrev pub assert : Bool → Option (Unit {0})
assert true = some tt
assert false = none

infixl 5 ◌>>=◌ ◌>>◌
abbrev pub ◌>>=◌ {ℓ κ} : {A : Type ℓ} {B : Type κ} → Option A → (A → Option B) → Option B
none >>= f = none
some a >>= f = f a

abbrev pub ◌>>◌ {ℓ} : {B : Type ℓ} → Option (Unit {0}) → Option B → Option B
m >> k = m >>= λ _. k

pub data Exception : Type 0 where
  bad_alloc length_error verbs_error mpi_error : Exception

pub data Exec {ℓ} (S : Type ℓ) : Type ℓ where
  returns : S → Exec S
  throws : Exception → S → Exec S
  fault : Exec S

-- A call of code that does not throw.
abbrev pub nothrow {ℓ} : {S : Type ℓ} → Option S → Exec S
nothrow none = fault
nothrow (some s) = returns s

-- What runs after a call that returns; an exception passes by.
abbrev pub on_return {ℓ} : {S : Type ℓ} → Exec S → (S → Exec S) → Exec S
on_return (returns s) f = f s
on_return (throws e s) f = throws e s
on_return fault f = fault

-- A call on a part of the state, where `put` stores the part again, and what runs after it.
abbrev pub within {ℓ κ} : {A : Type ℓ} {S : Type κ} → Exec A → (A → S) → (S → Exec S) → Exec S
within (returns a) put f = f (put a)
within (throws e a) put f = throws e (put a)
within fault put f = fault

-- A chain that has a result has it at each step.
pub bind-some {ℓ κ} :
    {A : Type ℓ} {B : Type κ} (m : Option A) (f : A → Option B) (b : B)
    → m >>= f ≡ some b
    → (a : A) × (m ≡ some a) × (f a ≡ some b)
bind-some none f b e = absurd (ground (arith, e))
bind-some (some a) f b e = (a, refl, e)
