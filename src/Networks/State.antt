-- ===== src/Networks/State.antt =====
-- The state of NetworkContext (hypervisor/network.go), InterfaceCreated and RouteRule of
-- hypervisor/events.go, InterfaceDescription of api/descriptions.go and Settings of
-- hypervisor/network/network.go, with the fields that the operations of NetworkContext read.
use Prim.Native.String.{String}
use runv.Prelude.{ℕ, Bool, true, false, Option, none, some, List, [], ◌∷◌, get_elem?, set}

pub record Route : Type 0 where
  pub destination : String
  pub gateway : String
  pub via_this : Bool

-- `ip_addr` is the text's parts between its commas, at least one: those of strings.Split.
pub record Interface : Type 0 where
  pub id : String
  pub index : ℕ
  pub pci_addr : ℕ
  pub tap_fd : ℕ
  pub bridge : String
  pub host_device : String
  pub device_name : String
  pub mac_addr : String
  pub ip_addr : List String
  pub new_name : String
  pub mtu : ℕ
  pub route_table : List Route

pub record Description : Type 0 where
  pub id : String
  pub name : String
  pub lo : Bool
  pub ip : List String
  pub mtu : ℕ

pub record Settings : Type 0 where
  pub mac : String
  pub ip_address : List String
  pub gateway : String
  pub bridge : String
  pub device : String
  pub mtu : ℕ
  pub automatic : Bool

-- What is on `devChan` after an addition: NetDevInsertedEvent with its TapFd, DeviceFailed with the
-- index of its session, if it has one, or another event.
pub data Event : Type 0 where
  nic_inserted : ℕ → Event
  device_failed : Option ℕ → Event
  unknown : Event

-- The two goroutines of addInterface: the first has not run, it has called the driver, or it has
-- itself sent an event; and the goroutine of removeInterface, with its interface.
pub data Job : Type 0 where
  queued : Description → Job
  plugging : String → Job
  reporting : String → Event → Job
  unplugging : String → ℕ → Job
  ended : Job

-- Results, less their texts.
pub data Answer : Type 0 where
  without_ip added busy plugged plug_failed odd_event not_exist taken_off not_configured :
      String → Answer
  unplugged : String → Bool → Answer

-- A pointer to an interface is its place in `infs`; a slot of `eth` may hold nil. A job is known by
-- its place in `jobs`. `released` are the addresses given to ReleaseAddr, newest first. `panicked`
-- is set where the code reads a field through nil, or a character of an empty text.
pub record Networks : Type 0 where
  pub infs : List Interface
  pub eth : List (ℕ × Option ℕ)
  pub lo : List (List String × ℕ)
  pub id_map : List (String × ℕ)
  pub pci_addr : ℕ
  pub jobs : List Job
  pub answers : List Answer
  pub released : List (List String)
  pub panicked : Bool

unfoldable pub new_networks : Networks
new_networks = record {
  infs = [];
  eth = [];
  lo = [];
  id_map = [];
  pci_addr = 0;
  jobs = [];
  answers = [];
  released = [];
  panicked = false;
}

unfoldable pub reply : Answer → Networks → Networks
reply a n = record n { answers = a ∷ n.answers }

unfoldable pub panic : Networks → Networks
panic n = record n { panicked = true }

unfoldable pub set_job : ℕ → Job → Networks → Networks
set_job i j n = record n { jobs = set n.jobs i j }

-- The interface that a slot's pointer leads to: the outer `none` is a slot that is not taken, the
-- inner one a slot that holds nil.
abbrev pub follow : List Interface → Option ℕ → Option Interface
follow infs none = none
follow infs (some p) = get_elem? infs p
