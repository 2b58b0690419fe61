-- ===== src/DynamicHook/Reads.antt =====
-- What `readAll` and `amIServer` of src/MPI/dynamichook.cpp find out.
use talpf.Prelude.{
  ℕ, zero, suc, ◌-◌, ◌≤◌, ◌≡◌, refl, ap, Bool-cases, inl, inr, Bool, true, false, not, ◌&&◌, ◌||◌,
  Option, some, List, [], ◌∷◌, ◌++◌, length, take, ltb, ◌==◌, arith,
}
use talpf.DynamicHook.{
  gives, Family, inet, inet6, other_family, is_family, is_supported, SockAddr, is_socket_equal,
  match_targets, match_interfaces, am_i_server, read_all,
}

-- The calls of read give no more bytes than they are asked for, until there are enough, or the
-- stream ends.
abbrev pub Delivers : ℕ → List (List ℕ) → Type 0
Delivers zero reads = Unit {0}
Delivers (suc n) [] = ⊥
Delivers (suc n) ([] ∷ reads) = Unit {0}
Delivers (suc n) ((b ∷ bs) ∷ reads) = (length bs ≤ n) × Delivers (n - length bs) reads

-- The bytes before the end of the stream.
abbrev pub stream : List (List ℕ) → List ℕ
stream [] = []
stream ([] ∷ reads) = []
stream ((b ∷ bs) ∷ reads) = b ∷ (bs ++ stream reads)

take-past :
    (n : ℕ) (xs ys : List ℕ) → length xs ≤ n → take n (xs ++ ys) ≡ xs ++ take (n - length xs) ys
take-past n [] ys h = ap (λ t. take t ys) (omega arith)
take-past zero (x ∷ xs) ys h = absurd (omega arith)
take-past (suc n) (x ∷ xs) ys h =
    let less : suc n - suc (length xs) ≡ n - length xs = omega arith in
    rw less (ap (λ t. x ∷ t) (take-past n xs ys (omega arith)))

-- readAll reads on over as many short reads as there are, and ends with just the bytes asked for, in
-- order, or with all there are before the end of the stream; it does not write behind the buffer.
-- Condition: no read gives more bytes than it is asked for, and reads come until there are enough or
-- the stream ends.
pub read_all-take :
    (n : ℕ) (reads : List (List ℕ))
    → Delivers n reads
    → read_all n reads ≡ gives (take n (stream reads))
unfolding read_all
read_all-take zero reads h = refl
read_all-take (suc n) [] h = absurd h
read_all-take (suc n) ([] ∷ reads) h = refl
read_all-take (suc n) ((b ∷ bs) ∷ reads) (small, h) =
    let fits : ltb n (length bs) ≡ false = ground (arith, small) in
    ground (arith, fits, read_all-take (n - length bs) reads h, take-past n bs (stream reads) small)

-- Two addresses that are compared are equal.
abbrev pub same_address : SockAddr → SockAddr → Bool
same_address a b =
    is_supported a.family && (is_family a.family b.family && (a.address == b.address))

abbrev pub any_target : SockAddr → List SockAddr → Bool
any_target mine [] = false
any_target mine (t ∷ targets) = same_address mine t || any_target mine targets

abbrev pub any_interface : List SockAddr → List SockAddr → Bool
any_interface targets [] = false
any_interface targets (mine ∷ rest) = any_target mine targets || any_interface targets rest

abbrev pub present : List SockAddr → List (Option SockAddr)
present [] = []
present (a ∷ rest) = some a ∷ present rest

equal_by :
    (f g : Family) (e : Bool)
    → is_supported f ≡ true
    → is_family f g && (not (is_family f inet) || e) && (not (is_family f inet6) || e)
      ≡ is_supported f && (is_family f g && e)
equal_by other_family g e h = absurd (ground (arith, h))
equal_by inet inet true h = refl
equal_by inet inet false h = refl
equal_by inet inet6 e h = refl
equal_by inet other_family e h = refl
equal_by inet6 inet e h = refl
equal_by inet6 inet6 true h = refl
equal_by inet6 inet6 false h = refl
equal_by inet6 other_family e h = refl

unsupported_by :
    (f g : Family) (e : Bool)
    → is_supported g ≡ false
    → is_supported f && (is_family f g && e) ≡ false
unsupported_by f inet e h = absurd (ground (arith, h))
unsupported_by f inet6 e h = absurd (ground (arith, h))
unsupported_by inet other_family e h = refl
unsupported_by inet6 other_family e h = refl
unsupported_by other_family other_family e h = refl

is_socket_equal-same_address :
    (a b : SockAddr) → is_supported a.family ≡ true → is_socket_equal a b ≡ some (same_address a b)
unfolding is_socket_equal
is_socket_equal-same_address a b h =
    ground (arith, h, equal_by a.family b.family (a.address == b.address) h)

match_targets-any_target :
    (mine : SockAddr) (targets : List SockAddr) (found : Bool)
    → is_supported mine.family ≡ true
    → match_targets mine targets found ≡ gives (found || any_target mine targets)
unfolding match_targets
match_targets-any_target mine [] found h = ground arith
match_targets-any_target mine (t ∷ targets) found h = elim (Bool-cases (is_supported t.family)) [
  | inl known ↦
      rw
        (
          known,
          is_socket_equal-same_address mine t h,
          match_targets-any_target mine targets (found || same_address mine t) h,
        )
        (ground arith)
  | inr strange ↦
      rw (strange, match_targets-any_target mine targets found h)
        (ground (arith, unsupported_by mine.family t.family (mine.address == t.address) strange))
]

unknown_any :
    (mine : SockAddr) (targets : List SockAddr)
    → is_supported mine.family ≡ false
    → any_target mine targets ≡ false
unknown_any mine [] h = refl
unknown_any mine (t ∷ targets) h = ground (arith, h, unknown_any mine targets h)

match_interfaces-any :
    (targets mine : List SockAddr) (found : Bool)
    → match_interfaces targets (present mine) found ≡ gives (found || any_interface targets mine)
unfolding match_interfaces
match_interfaces-any targets [] found = ground arith
match_interfaces-any targets (a ∷ rest) found = elim (Bool-cases (is_supported a.family)) [
  | inl known ↦
      rw
        (
          known,
          match_targets-any_target a targets found known,
          match_interfaces-any targets rest (found || any_target a targets),
        )
        (ground arith)
  | inr strange ↦
      rw (strange, match_interfaces-any targets rest found)
        (ground (arith, unknown_any a targets strange))
]

-- amIServer answers yes just if some interface has an address of the server, of the same family of
-- the internet, where each interface has an address.
pub am_i_server-any_interface :
    (targets mine : List SockAddr)
    → am_i_server (some targets) (some (present mine)) ≡ gives (any_interface targets mine)
unfolding am_i_server
am_i_server-any_interface targets mine = match_interfaces-any targets mine false
