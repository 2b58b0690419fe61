-- ===== src/Verbs/Setup.antt =====
-- The constructor of `IBVerbs` in src/MPI/ibverbs.cpp. What the verbs library, the configuration and
-- the allocator answer is an argument.
pub mod Causes
pub mod Fresh
mod Tests
use talpf.Prelude.{
  ℕ, zero, suc, ◌+◌, ◌/◌, ◌%◌, ◌^◌, Bool, true, false, ◌||◌, Option, some, none, List, [], ◌∷◌,
  length, replicate, ltb, ◌==◌, if◌then◌else◌, not, ◌&&◌,
}
use Prim.Native.Nat.{min as min_of}
use Prim.Native.String.{String}
use talpf.Config.{is_text}
use talpf.MemReg.Combined
use talpf.Verbs.{Verbs}
use talpf.Verbs.Progress.{epochs}
use talpf.Verbs.Connect.{Links}

-- What the exceptions say.
pub data SetupError : Type 0 where
  illegal_mtu no_device_list no_devices device_not_found cannot_open cannot_query_device
        too_few_completions cannot_query_port no_protection_domain no_completion_queue :
      SetupError

-- The constructor returns the index of its device and the members, or throws; `fault` is a division by zero or a null pointer.
pub data Built : Type 0 where
  built : ℕ → Verbs → Links → Built
  fails : SetupError → Built
  fault : Built

-- `struct ibv_device_attr` and `struct ibv_port_attr`, as far as they are used.
pub record DeviceAttr : Type 0 where
  pub max_mr_size : ℕ
  pub max_mr : ℕ
  pub max_qp_wr : ℕ
  pub max_cqe : ℕ

pub record PortAttr : Type 0 where
  pub max_msg_sz : ℕ
  pub lid : ℕ

pub data Queried : Type 0 where
  refused : SetupError → Queried
  queried : ℕ → DeviceAttr → PortAttr → Queried

-- The names of the devices, `none` without a list; the name that the configuration wants, with the
-- port, the index of the GID and the size of the MTU; the memory of the system; what is asked of the
-- device and the port, and whether what is made is not null.
pub record SetupAnswers : Type 0 where
  pub device_names : Option (List String)
  pub wanted : String
  pub ib_port : ℕ
  pub gid_idx : Option ℕ
  pub mtu_size : ℕ
  pub ram : ℕ
  pub opens : Bool
  pub device : Option DeviceAttr
  pub port : Option PortAttr
  pub makes_pd : Bool
  pub makes_cq_local : Bool
  pub makes_cq_remote : Bool
  pub makes_counters : Bool

-- `getMTU`; the enumeration `ibv_mtu` begins with 1.
unfoldable pub get_mtu : ℕ → Option ℕ
get_mtu size =
    if size == 256
    then some 1
    else if size == 512
    then some 2
    else if size == 1024
    then some 3
    else if size == 2048
    then some 4
    else if size == 4096
    then some 5
    else none

-- The loop over the devices, from index `i` on; any device will do if no name is wanted.
unfoldable pub find_device : String → ℕ → List String → Option ℕ
find_device wanted i [] = none
find_device wanted i (name ∷ names) =
    let rest : Option ℕ = find_device wanted (suc i) names in
    if is_text wanted "" || is_text name wanted then some i else rest

-- What is asked of the port.
unfoldable pub query_port : ℕ → DeviceAttr → Option PortAttr → Queried
query_port i d none = refused cannot_query_port
query_port i d (some p) = queried i d p

-- What is asked of the device, and of the port.
unfoldable pub query_device : ℕ → ℕ → Option PortAttr → Option DeviceAttr → Queried
query_device nprocs i port none = refused cannot_query_device
query_device nprocs i port (some d) =
    if ltb d.max_cqe nprocs then refused too_few_completions else query_port i d port

-- The device that was found is opened.
unfoldable pub open_device : ℕ → SetupAnswers → Option ℕ → Queried
open_device nprocs a none = refused device_not_found
open_device nprocs a (some i) =
    if a.opens then query_device nprocs i a.port a.device else refused cannot_open

-- From the list of devices to the port.
unfoldable pub query : ℕ → SetupAnswers → Option (List String) → Queried
query nprocs a none = refused no_device_list
query nprocs a (some []) = refused no_devices
query nprocs a (some (n ∷ ns)) = open_device nprocs a (find_device a.wanted 0 (n ∷ ns))

-- The members that the transfers, the polling task and sync use.
unfoldable pub members : ℕ → ℕ → ℕ → DeviceAttr → PortAttr → Verbs
members pid nprocs ram d p = record {
  pid = pid;
  nprocs = nprocs;
  max_msg_size = p.max_msg_sz;
  max_reg_size = d.max_mr_size;
  max_mr = d.max_mr;
  max_srs = min_of d.max_qp_wr d.max_cqe;
  min_nr_msgs = ram / p.max_msg_sz;
  cq_size = 1;
  post_count = 0;
  num_msgs = 0;
  num_msgs_sync = replicate nprocs 0;
  sync_counter = 0;
  recv_counts = replicate epochs 0;
  sync_cached = false;
  sync_cached_value = 0;
  sync_request = record {
    is_active = false;
    with_barrier = false;
    remote_msgs = 0;
    task = none;
    second_phase = false;
  };
  block_task = none;
  memreg = Combined.init;
  calls = [];
}

-- The members that `reconnectQPs` uses.
unfoldable pub links : ℕ → ℕ → ℕ → SetupAnswers → PortAttr → Links
links pid nprocs mtu a p = record {
  pid = pid;
  nprocs = nprocs;
  ib_port = a.ib_port;
  gid_idx = a.gid_idx;
  mtu = mtu;
  lid = p.lid;
  staged = replicate nprocs none;
  connected = replicate nprocs none;
  calls = [];
}

-- From the size of messages on.
unfoldable pub allocate : ℕ → ℕ → ℕ → ℕ → SetupAnswers → DeviceAttr → PortAttr → Built
unfolding members links
allocate pid nprocs mtu i a d p =
    if p.max_msg_sz == 0
    then fault
    else if not a.makes_pd
    then fails no_protection_domain
    else if not (a.makes_cq_local && a.makes_cq_remote)
    then fails no_completion_queue
    else if a.makes_counters
    then built i (members pid nprocs a.ram d p) (links pid nprocs mtu a p)
    else fault

-- `IBVerbs::IBVerbs`
unfoldable pub construct : ℕ → ℕ → SetupAnswers → Built
unfolding get_mtu query allocate
construct pid nprocs a = elim (get_mtu a.mtu_size) [
  | none ↦ fails illegal_mtu
  | some mtu ↦ elim (query nprocs a a.device_names) [
    | refused e ↦ fails e
    | queried i d p ↦ allocate pid nprocs mtu i a d p
  ]
]
