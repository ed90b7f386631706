-- ===== src/Persistence.antt =====
-- A sandbox that is saved and restored: hypervisor/persistence.go, over the disks of Resources and
-- the interfaces of Networks. Its agent, driver and the file are left out.
pub mod Volumes
pub mod Restored
mod Tests
use Prim.Native.String.{String}
use text.Mathlib.Text.{◌==◌ as str_eq}
use runv.Prelude.{
  ℕ, Bool, true, false, ◌&&◌, not, Option, none, some, List, [], ◌∷◌, ◌++◌, if◌then◌else◌, ltb,
  ◌==◌, length, lookup, insert, string_eq, nat_eq, list_eq,
}
use runv.Resources.Disks.{Descriptor}
use runv.Networks.State.{Interface}

-- What the sandbox holds of a disk: `observers` are the containers that use it.
pub record Disk : Type 0 where
  pub descriptor : Descriptor
  pub ready : Bool
  pub is_root_vol : Bool
  pub observers : List String

-- A container, with the names of its volumes; what else describes it is kept as it is.
pub record Container : Type 0 where
  pub id : String
  pub volumes : List String
  pub root : Disk

-- The VmContext, as far as it is saved. A slot of `eth` may be reserved, with nil.
pub record Sandbox : Type 0 where
  pub id : String
  pub paused : Bool
  pub pci_addr : ℕ
  pub scsi_id : ℕ
  pub guest_cid : ℕ
  pub enable_vsock : Bool
  pub volumes : List (String × Disk)
  pub containers : List (String × Container)
  pub lo : List (List String × Interface)
  pub eth : List (ℕ × Option Interface)
  pub id_map : List (String × Interface)
  pub ports : List ℕ

-- PersistVolumeInfo; the mount points are never written.
pub record VolumeInfo : Type 0 where
  pub name : String
  pub filename : String
  pub format : String
  pub fstype : String
  pub device_name : String
  pub scsi_id : ℕ
  pub container_ids : List String
  pub is_root_vol : Bool

-- PersistNetworkInfo.
pub record NetworkInfo : Type 0 where
  pub id : String
  pub index : ℕ
  pub pci_addr : ℕ
  pub host_device : String
  pub device_name : String
  pub new_name : String
  pub ip_addr : List String
  pub mac : String
  pub mtu : ℕ

-- PersistInfo with VmHwStatus; of a container its id and the names of its volumes.
pub record PersistInfo : Type 0 where
  pub version : ℕ
  pub id : String
  pub paused : Bool
  pub pci_addr : ℕ
  pub scsi_id : ℕ
  pub guest_cid : ℕ
  pub volume_list : List VolumeInfo
  pub network_list : List NetworkInfo
  pub port_list : List ℕ
  pub containers : List (String × List String)

abbrev pub current_persist_version : ℕ
current_persist_version = 20171210

abbrev compatible_persist_version : ℕ
compatible_persist_version = 20171210

unfoldable pub dump_disk : Descriptor → VolumeInfo
dump_disk d = record {
  name = d.name;
  filename = d.filename;
  format = d.format;
  fstype = d.fstype;
  device_name = d.device_name;
  scsi_id = d.scsi_id;
  container_ids = [];
  is_root_vol = false;
}

unfoldable pub block_info : VolumeInfo → Descriptor
block_info v = record {
  name = v.name;
  filename = v.filename;
  format = v.format;
  fstype = v.fstype;
  device_name = v.device_name;
  scsi_id = v.scsi_id;
  scsi_addr = "";
  docker_volume = false;
  read_only = false;
  options = [];
}

unfoldable pub dump_volumes : List (String × Disk) → List VolumeInfo
unfolding dump_disk
dump_volumes [] = []
dump_volumes ((k, d) ∷ rest) =
    record (dump_disk d.descriptor) { container_ids = d.observers } ∷ dump_volumes rest

unfoldable pub dump_roots : List (String × Container) → List VolumeInfo
unfolding dump_disk
dump_roots [] = []
dump_roots ((k, c) ∷ rest) =
    record (dump_disk c.root.descriptor) { container_ids = c.id ∷ []; is_root_vol = true }
    ∷ dump_roots rest

unfoldable pub dump_descriptions : List (String × Container) → List (String × List String)
unfolding insert
dump_descriptions [] = []
dump_descriptions ((k, c) ∷ rest) = insert c.id c.volumes (dump_descriptions rest)

-- An interface of the loopback device is saved with less.
unfoldable pub dump_lo : List (List String × Interface) → List NetworkInfo
dump_lo [] = []
dump_lo ((k, nic) ∷ rest) =
    record {
      id = nic.id;
      index = nic.index;
      pci_addr = nic.pci_addr;
      host_device = nic.host_device;
      device_name = nic.device_name;
      new_name = "";
      ip_addr = nic.ip_addr;
      mac = "";
      mtu = 0;
    }
    ∷ dump_lo rest

-- None where the code follows the nil of a reserved slot.
unfoldable pub dump_eth : List (ℕ × Option Interface) → Option (List NetworkInfo)
dump_eth [] = some []
dump_eth ((k, none) ∷ rest) = none
dump_eth ((k, some nic) ∷ rest) =
    let info : NetworkInfo = record {
      id = nic.id;
      index = nic.index;
      pci_addr = nic.pci_addr;
      host_device = nic.host_device;
      device_name = nic.device_name;
      new_name = nic.new_name;
      ip_addr = nic.ip_addr;
      mac = nic.mac_addr;
      mtu = nic.mtu;
    } in
    elim (dump_eth rest) [ none ↦ none | some infos ↦ some (info ∷ infos) ]

unfoldable pub dump : Sandbox → Option PersistInfo
unfolding dump_volumes dump_roots dump_descriptions dump_lo dump_eth
dump s = elim (dump_eth s.eth) [
  | none ↦ none
  | some infos ↦ some record {
    version = current_persist_version;
    id = s.id;
    paused = s.paused;
    pci_addr = s.pci_addr;
    scsi_id = s.scsi_id;
    guest_cid = s.guest_cid;
    volume_list = dump_volumes s.volumes ++ dump_roots s.containers;
    network_list = dump_lo s.lo ++ infos;
    port_list = s.ports;
    containers = dump_descriptions s.containers;
  }
]

unfoldable pub new_sandbox : String → Sandbox
new_sandbox id = record {
  id = id;
  paused = false;
  pci_addr = 0;
  scsi_id = 0;
  guest_cid = 0;
  enable_vsock = false;
  volumes = [];
  containers = [];
  lo = [];
  eth = [];
  id_map = [];
  ports = [];
}

-- The loop of load over the interfaces; `fresh` is the id for one that has none.
unfoldable pub load_nics : String → List NetworkInfo → Sandbox → Sandbox
unfolding insert
load_nics fresh [] s = s
load_nics fresh (info ∷ rest) s =
    let nic : Interface = record {
      id = if str_eq info.id "" then fresh else info.id;
      index = info.index;
      pci_addr = info.pci_addr;
      tap_fd = 0;
      bridge = "";
      host_device = info.host_device;
      device_name = info.device_name;
      mac_addr = info.mac;
      ip_addr = info.ip_addr;
      new_name = info.new_name;
      mtu = info.mtu;
      route_table = [];
    } in
    let named : Sandbox = record s { id_map = insert info.id nic s.id_map } in
    load_nics fresh rest (
      if str_eq info.device_name "lo"
      then record named { lo = insert info.ip_addr nic s.lo }
      else record named { eth = insert info.index (some nic) s.eth })

-- imageMap, and volumeMap with the names of the volumes.
pub record Maps : Type 0 where
  pub images : List (String × Descriptor)
  pub volumes : List (String × List String)

unfoldable pub attach_all :
    List String → String → List (String × List String) → List (String × List String)
unfolding insert lookup
attach_all [] name m = m
attach_all (id ∷ ids) name m =
    let old : List String = elim (lookup id m) [ none ↦ [] | some names ↦ names ] in
    attach_all ids name (insert id (old ++ name ∷ []) m)

-- The loop over the volumes; none is the error of a root volume without its container.
unfoldable pub load_volumes :
    List VolumeInfo → Maps → List (String × Disk) → Option (Maps × List (String × Disk))
unfolding insert block_info attach_all
load_volumes [] m vols = some (m, vols)
load_volumes (v ∷ rest) m vols =
    let d = block_info v in
    let disk : Disk = record {
      descriptor = d;
      ready = true;
      is_root_vol = false;
      observers = [];
    } in
    let image : String → Maps = λ id. record m { images = insert id d m.images } in
    let attached : Maps = record m { volumes = attach_all v.container_ids d.name m.volumes } in
    elim v.is_root_vol [
      | true ↦ elim v.container_ids [
        | [] ↦ none
        | id ∷ [] ↦ load_volumes rest (image id) vols
        | id ∷ other ∷ ids ↦ none
      ]
      | false ↦ load_volumes rest attached (insert d.name disk vols)
    ]

-- wait, for the volumes of a container: they are ready, so nothing is counted.
unfoldable pub observe : String → List String → List (String × Disk) → List (String × Disk)
unfolding lookup insert
observe id [] vols = vols
observe id (name ∷ names) vols =
    let next : List (String × Disk) = elim (lookup name vols) [
      | none ↦ vols
      | some d ↦ insert name (record d { observers = id ∷ d.observers }) vols
    ] in
    observe id names next

-- The loop over the containers; none is the error of a container without its root volume.
unfoldable pub load_containers : List (String × List String) → Maps → Sandbox → Option Sandbox
unfolding lookup insert observe
load_containers [] m s = some s
load_containers ((id, names) ∷ rest) m s = elim (lookup id m.images) [
  | none ↦ none
  | some d ↦
      let used = lookup id m.volumes in
      let c : Container = record {
        id = id;
        volumes = elim used [ none ↦ names | some ns ↦ ns ];
        root = record { descriptor = d; ready = true; is_root_vol = true; observers = id ∷ [] };
      } in
      load_containers rest m record s {
        volumes = observe id (elim used [ none ↦ [] | some ns ↦ ns ]) s.volumes;
        containers = insert id c s.containers;
      }
]

pub data Outcome : Type 0 where
  newer_version older_version driver_error cid_in_use root_mismatch no_root_volume : Outcome
  panicked : Outcome
  restored : Sandbox → Outcome

-- The guest's cid, which must be free: `marks` is MarkCidInuse.
unfoldable pub load_hw_status : (ℕ → Bool) → PersistInfo → Sandbox → Option Sandbox
load_hw_status marks info s =
    let s' : Sandbox = record s {
      pci_addr = info.pci_addr;
      scsi_id = info.scsi_id;
      guest_cid = info.guest_cid;
    } in
    if info.guest_cid == 0
    then some s'
    else if marks info.guest_cid
    then some (record s' { enable_vsock = true })
    else none

-- `loads` is whether the driver takes its part of the data.
unfoldable pub vm_context : (ℕ → Bool) → Bool → String → PersistInfo → Outcome
unfolding load_hw_status load_nics load_volumes load_containers new_sandbox
vm_context marks loads fresh info =
    let hw = load_hw_status marks info (record (new_sandbox info.id) { paused = info.paused }) in
    if ltb current_persist_version info.version
    then newer_version
    else if ltb info.version compatible_persist_version
    then older_version
    else if not loads
    then driver_error
    else elim hw [
      | none ↦ cid_in_use
      | some s ↦
          let s' = load_nics fresh info.network_list s in
          let volumes = load_volumes info.volume_list record { images = []; volumes = [] } [] in
          if ltb 0 (length info.port_list) then panicked else elim volumes [
            | none ↦ root_mismatch
            | some (m, vols) ↦
                elim (load_containers info.containers m (record s' { volumes = vols })) [
                  | none ↦ no_root_volume
                  | some t ↦ restored t
                ]
          ]
    ]
