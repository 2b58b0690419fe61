-- ===== src/DynamicHook.antt =====
-- The making of connections in src/MPI/dynamichook.cpp. What the system's calls on sockets answer is
-- an argument, and so is MPI. Addresses are numbers, descriptors of sockets too; bytes are numbers.
pub mod Reads
pub mod Server
pub mod Joining
pub mod Accepts
pub mod Growth
mod Tests
use talpf.Prelude.{
  ℕ, zero, suc, ◌+◌, ◌-◌, ◌≤◌, Bool, true, false, not, ◌&&◌, ◌||◌, Option, some, none, List, [],
  ◌∷◌, ◌++◌, length, get_elem?, replicate, set?, ltb, leb, ◌==◌, if◌then◌else◌, every, ◌>>=◌,
}

-- A function returns, throws a HookException, does not come back, or makes an invalid access or fails
-- an ASSERT.
pub data HookResult {ℓ} (A : Type ℓ) : Type ℓ where
  gives : A → HookResult A
  hook_exception : HookResult A
  waits : HookResult A
  fault : HookResult A

abbrev pub and_then : {A : Type 0} {B : Type 0} → HookResult A → (A → HookResult B) → HookResult B
and_then (gives x) f = f x
and_then hook_exception f = hook_exception
and_then waits f = waits
and_then fault f = fault

-- `sa_family`
pub data Family : Type 0 where
  inet inet6 other_family : Family

pub record SockAddr : Type 0 where
  pub family : Family
  pub address : ℕ

abbrev pub is_family : Family → Family → Bool
is_family inet inet = true
is_family inet6 inet6 = true
is_family other_family other_family = true
is_family _ _ = false

abbrev pub is_supported : Family → Bool
is_supported f = is_family f inet || is_family f inet6

-- `isSocketEqual`; there is no result for the exception.
unfoldable pub is_socket_equal : SockAddr → SockAddr → Option Bool
is_socket_equal a b =
    if not (is_supported a.family)
    then none
    else some (
        is_family a.family b.family
        && (not (is_family a.family inet) || (a.address == b.address))
        && (not (is_family a.family inet6) || (a.address == b.address)))

-- The inner loop of `amIServer`, over the addresses of the server.
unfoldable pub match_targets : SockAddr → List SockAddr → Bool → HookResult Bool
match_targets mine [] found = gives found
match_targets mine (target ∷ targets) found =
    let rest : Bool → HookResult Bool = match_targets mine targets in
    if is_supported target.family
    then elim (is_socket_equal mine target) [
      | none ↦ hook_exception
      | some equal ↦ rest (found || equal)
    ]
    else rest found

-- The outer loop, over the addresses of the interfaces; `none` is an interface without an address.
unfoldable pub match_interfaces : List SockAddr → List (Option SockAddr) → Bool → HookResult Bool
unfolding match_targets is_socket_equal
match_interfaces targets [] found = gives found
match_interfaces targets (none ∷ rest) found = fault
match_interfaces targets (some mine ∷ rest) found =
    let others : Bool → HookResult Bool = match_interfaces targets rest in
    if is_supported mine.family
    then elim (match_targets mine targets found) [
      | gives b ↦ others b
      | hook_exception ↦ hook_exception
      | waits ↦ waits
      | fault ↦ fault
    ]
    else others found

-- `amIServer`, with what getaddrinfo and getifaddrs give.
unfoldable pub am_i_server :
    Option (List SockAddr) → Option (List (Option SockAddr)) → HookResult Bool
unfolding match_interfaces
am_i_server none mine = hook_exception
am_i_server (some targets) none = hook_exception
am_i_server (some targets) (some mine) = match_interfaces targets mine false

-- `readAll` of so many bytes, with what each call of read gives: an empty list is the end of the
-- stream or an error. The bytes that are in the buffer then.
unfoldable pub read_all : ℕ → List (List ℕ) → HookResult (List ℕ)
read_all zero reads = gives []
read_all (suc n) [] = waits
read_all (suc n) ([] ∷ reads) = gives []
read_all (suc n) ((b ∷ bs) ∷ reads) =
    if ltb n (length bs) then fault else elim (read_all (n - length bs) reads) [
      | gives rest ↦ gives (b ∷ bs ++ rest)
      | hook_exception ↦ hook_exception
      | waits ↦ waits
      | fault ↦ fault
    ]

-- `magicClient` and `magicServer`, with the zero at the end.
abbrev pub magic_client : List ℕ
magic_client = 76 ∷ 80 ∷ 70 ∷ 95 ∷ 118 ∷ 48 ∷ 95 ∷ 99 ∷ 108 ∷ 105 ∷ 101 ∷ 110 ∷ 116 ∷ 0 ∷ []

abbrev pub magic_server : List ℕ
magic_server = 76 ∷ 80 ∷ 70 ∷ 95 ∷ 118 ∷ 48 ∷ 95 ∷ 115 ∷ 101 ∷ 114 ∷ 118 ∷ 101 ∷ 114 ∷ 0 ∷ []

-- `memcmp(...) == 0` for as many bytes.
unfoldable pub is_bytes : List ℕ → List ℕ → Bool
is_bytes [] [] = true
is_bytes (x ∷ xs) (y ∷ ys) = (x == y) && is_bytes xs ys
is_bytes _ _ = false

-- `buf`, which is cleared first, with the bytes that were read.
abbrev pub buffer : ℕ → List ℕ → List ℕ
buffer size got = got ++ replicate (size - length got) 0
