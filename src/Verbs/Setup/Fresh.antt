-- ===== src/Verbs/Setup/Fresh.antt =====
-- The state that the constructor of `IBVerbs` in src/MPI/ibverbs.cpp leaves.
use talpf.Prelude.{
  ℕ, ◌+◌, ◌-◌, ◌*◌, ◌^◌, ◌≤◌, ◌<◌, ◌≡◌, ◌⊎◌, false, some, none, List, [], replicate,
}
use Prim.Native.String.{String}
use Prim.Native.Nat.{min as min_of}
use talpf.MemReg
use talpf.MemReg.Combined
use talpf.MemReg.Combined.Slots
use talpf.Verbs.{Verbs}
use talpf.Verbs.Progress.Delivery.{HasRoom}
use talpf.Verbs.Sync.Asks.{IsIdle}
use talpf.Verbs.Connect.{Links}
use talpf.Verbs.Setup.{Built, built, fails, fault, queried, DeviceAttr, PortAttr, SetupAnswers}
use talpf.Verbs.Setup.Causes.{IsFirst, Cause}

-- The members as made for the first device that will do.
pub record IsFresh (pid nprocs i : ℕ) (a : SetupAnswers) (v : Verbs) (l : Links) : Type 0 where
  pub names : List String
  pub listed : a.device_names ≡ some names
  pub first : IsFirst a.wanted names i
  pub idle : IsIdle v
  pub room : HasRoom (2 ^ 31 - 1) v
  pub slots : Slots.IsValid v.memreg
  pub same_group : (v.pid ≡ pid) × (v.nprocs ≡ nprocs) × (l.pid ≡ pid) × (l.nprocs ≡ nprocs)
  pub fits :
      (v.min_nr_msgs * v.max_msg_size ≤ a.ram)
      × (a.ram < v.min_nr_msgs * v.max_msg_size + v.max_msg_size)
  pub device : DeviceAttr
  pub queried : a.device ≡ some device
  pub completes : nprocs ≤ device.max_cqe
  pub sends : v.max_srs ≡ min_of device.max_qp_wr device.max_cqe
  pub regions : (v.max_reg_size ≡ device.max_mr_size) × (v.max_mr ≡ device.max_mr)
  pub port : PortAttr
  pub port_queried : a.port ≡ some port
  pub messages : v.max_msg_size ≡ port.max_msg_sz
  pub address : (l.lid ≡ port.lid) × (l.ib_port ≡ a.ib_port) × (l.gid_idx ≡ a.gid_idx)
  pub mtu_size : 128 * 2 ^ l.mtu ≡ a.mtu_size
  pub no_posts : (v.cq_size ≡ 1) × (v.post_count ≡ 0) × (v.calls ≡ []) × (l.calls ≡ [])
  pub unlinked : (l.staged ≡ replicate nprocs none) × (l.connected ≡ replicate nprocs none)

abbrev pub Constructed : ℕ → ℕ → SetupAnswers → Built → Type 0
Constructed pid nprocs a (built i v l) = IsFresh pid nprocs i a v l
Constructed pid nprocs a (fails e) = Cause nprocs a e
Constructed pid nprocs a fault =
    (a.makes_counters ≡ false) ⊎ ((p : PortAttr) × (a.port ≡ some p) × (p.max_msg_sz ≡ 0))
