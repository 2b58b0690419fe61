-- ===== src/Verbs/Setup/Causes.antt =====
-- Why the constructor of `IBVerbs` in src/MPI/ibverbs.cpp throws, and which device it takes.
use talpf.Prelude.{
  ℕ_discrete, ◌*◌, ◌^◌, ℕ, zero, suc, ◌+◌, ◌≤◌, ◌<◌, ◌≡◌, ◌≢◌, inl, inr, refl, Bool, true, false,
  ◌&&◌, ◌||◌, Option, some, none, List, [], ◌∷◌, ltb, if◌then◌else◌, arith, Bool-cases, subst,
}
use Prim.Native.String.{String}
use talpf.Config.{is_text}
use talpf.Verbs.Setup.{
  SetupError, illegal_mtu, no_device_list, no_devices, device_not_found, cannot_open,
  cannot_query_device, too_few_completions, cannot_query_port, no_protection_domain,
  no_completion_queue, Queried, refused, queried, DeviceAttr, PortAttr, SetupAnswers, get_mtu,
  find_device, query_port, query_device, open_device, query,
}

-- A device of this name will do.
abbrev pub will_do : String → String → Bool
will_do wanted name = is_text wanted "" || is_text name wanted

-- The index is that of the first device that will do.
abbrev pub IsFirst : String → List String → ℕ → Type 0
IsFirst wanted [] i = ⊥
IsFirst wanted (n ∷ ns) zero = will_do wanted n ≡ true
IsFirst wanted (n ∷ ns) (suc i) = (will_do wanted n ≡ false) × IsFirst wanted ns i

abbrev pub NoneWillDo : String → List String → Type 0
NoneWillDo wanted [] = Unit {0}
NoneWillDo wanted (n ∷ ns) = (will_do wanted n ≡ false) × NoneWillDo wanted ns

abbrev pub Found : String → List String → ℕ → Option ℕ → Type 0
Found wanted ns i none = NoneWillDo wanted ns
Found wanted ns i (some j) = (k : ℕ) × (j ≡ i + k) × IsFirst wanted ns k

search_by_name :
    (wanted n : String) (ns : List String) (i : ℕ) (b : Bool) (o : Option ℕ)
    → will_do wanted n ≡ b
    → Found wanted ns (suc i) o
    → Found wanted (n ∷ ns) i (if b then some i else o)
search_by_name wanted n ns i true o e h = (0, omega arith, e)
search_by_name wanted n ns i false none e h = (e, h)
search_by_name wanted n ns i false (some j) e (k, f, h) = (suc k, omega (arith, f), (e, h))

find_device-Found :
    (wanted : String) (i : ℕ) (ns : List String) → Found wanted ns i (find_device wanted i ns)
unfolding find_device
find_device-Found wanted i [] = tt
find_device-Found wanted i (n ∷ ns) =
    search_by_name wanted n ns i (will_do wanted n) (find_device wanted (suc i) ns) refl
      (find_device-Found wanted (suc i) ns)

-- Why an exception is thrown.
abbrev pub Cause : ℕ → SetupAnswers → SetupError → Type 0
Cause nprocs a illegal_mtu =
    (a.mtu_size ≢ 256)
    × (a.mtu_size ≢ 512)
    × (a.mtu_size ≢ 1024)
    × (a.mtu_size ≢ 2048)
    × (a.mtu_size ≢ 4096)
Cause nprocs a no_device_list = a.device_names ≡ none
Cause nprocs a no_devices = a.device_names ≡ some []
Cause nprocs a device_not_found =
    (ns : List String) × (a.device_names ≡ some ns) × NoneWillDo a.wanted ns
Cause nprocs a cannot_open = a.opens ≡ false
Cause nprocs a cannot_query_device = a.device ≡ none
Cause nprocs a too_few_completions = (d : DeviceAttr) × (a.device ≡ some d) × (d.max_cqe < nprocs)
Cause nprocs a cannot_query_port = a.port ≡ none
Cause nprocs a no_protection_domain = a.makes_pd ≡ false
Cause nprocs a no_completion_queue = a.makes_cq_local && a.makes_cq_remote ≡ false

-- What the queries give.
abbrev pub WasQueried : ℕ → SetupAnswers → Queried → Type 0
WasQueried nprocs a (refused e) = Cause nprocs a e
WasQueried nprocs a (queried i d p) =
    (ns : List String) × (a.device_names ≡ some ns)
    × IsFirst a.wanted ns i
    × (a.device ≡ some d)
    × (nprocs ≤ d.max_cqe)
    × (a.port ≡ some p)

module _ (nprocs : ℕ) (a : SetupAnswers) where
  query_port-WasQueried :
      (ns : List String) (i : ℕ) (d : DeviceAttr) (o : Option PortAttr)
      → a.port ≡ o
      → a.device_names ≡ some ns
      → IsFirst a.wanted ns i
      → a.device ≡ some d
      → nprocs ≤ d.max_cqe
      → WasQueried nprocs a (query_port i d o)
  unfolding query_port
  query_port-WasQueried ns i d none e f g h k = e
  query_port-WasQueried ns i d (some p) e f g h k = (ns, f, g, h, k, e)

  query_device-WasQueried :
      (ns : List String) (i : ℕ) (o : Option DeviceAttr)
      → a.device ≡ o
      → a.device_names ≡ some ns
      → IsFirst a.wanted ns i
      → WasQueried nprocs a (query_device nprocs i a.port o)
  unfolding query_device
  query_device-WasQueried ns i none e f g = e
  query_device-WasQueried ns i (some d) e f g = elim (Bool-cases (ltb d.max_cqe nprocs)) [
    | inl few ↦ rw few (d, e, ground (arith, few))
    | inr enough ↦
        rw enough (query_port-WasQueried ns i d a.port refl f g e (ground (arith, enough)))
  ]

  opens-WasQueried :
      (ns : List String) (i : ℕ) (b : Bool)
      → a.opens ≡ b
      → a.device_names ≡ some ns
      → IsFirst a.wanted ns i
      → WasQueried nprocs a
          (if b then query_device nprocs i a.port a.device else refused cannot_open)
  opens-WasQueried ns i true e f g = query_device-WasQueried ns i a.device refl f g
  opens-WasQueried ns i false e f g = e

  open_device-WasQueried :
      (ns : List String) (o : Option ℕ)
      → a.device_names ≡ some ns
      → Found a.wanted ns 0 o
      → WasQueried nprocs a (open_device nprocs a o)
  unfolding open_device
  open_device-WasQueried ns none e h = (ns, e, h)
  open_device-WasQueried ns (some i) e (k, f, h) =
      opens-WasQueried ns i a.opens refl e (subst (IsFirst a.wanted ns) (omega (arith, f)) h)

  pub query-WasQueried :
      (o : Option (List String)) → a.device_names ≡ o → WasQueried nprocs a (query nprocs a o)
  unfolding query
  query-WasQueried none e = e
  query-WasQueried (some []) e = e
  query-WasQueried (some (n ∷ ns)) e =
      open_device-WasQueried (n ∷ ns) (find_device a.wanted 0 (n ∷ ns)) e
        (find_device-Found a.wanted 0 (n ∷ ns))

pub get_mtu-illegal :
    (n : ℕ) → get_mtu n ≡ none → (n ≢ 256) × (n ≢ 512) × (n ≢ 1024) × (n ≢ 2048) × (n ≢ 4096)
unfolding get_mtu
get_mtu-illegal n e = (
  λ f. ground (arith, e, f),
  λ f. ground (arith, e, f),
  λ f. ground (arith, e, f),
  λ f. ground (arith, e, f),
  λ f. ground (arith, e, f),
)

-- A size of 128 times a power of two, whose exponent is the number in the enumeration.
coded_by : (n m k : ℕ) → k ≡ m → 128 * 2 ^ k ≡ n → 128 * 2 ^ m ≡ n
coded_by n m k e f = subst (λ t. 128 * 2 ^ t ≡ n) e f

pub get_mtu-size : (n m : ℕ) → get_mtu n ≡ some m → 128 * 2 ^ m ≡ n
unfolding get_mtu
get_mtu-size n m e = elim (ℕ_discrete n 256) [
  | yes a ↦ coded_by n m 1 (ground (arith, e, a)) (omega (arith, a))
  | no a ↦ elim (ℕ_discrete n 512) [
    | yes b ↦ coded_by n m 2 (ground (arith, e, b)) (omega (arith, b))
    | no b ↦ elim (ℕ_discrete n 1024) [
      | yes c ↦ coded_by n m 3 (ground (arith, e, c)) (omega (arith, c))
      | no c ↦ elim (ℕ_discrete n 2048) [
        | yes d ↦ coded_by n m 4 (ground (arith, e, d)) (omega (arith, d))
        | no d ↦ elim (ℕ_discrete n 4096) [
          | yes f ↦ coded_by n m 5 (ground (arith, e, f)) (omega (arith, f))
          | no f ↦ absurd (ground (arith, e, a, b, c, d, f))
        ]
      ]
    ]
  ]
]
