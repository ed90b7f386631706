-- ===== src/Persistence/Tests.antt =====
-- A concrete sandbox that is saved and restored (hypervisor/persistence.go).
use Prim.Native.String.{String}
use runv.Prelude.{
  ℕ, ◌≡◌, refl, Bool, true, false, none, some, [], ◌∷◌, ◌++◌, ◌==◌, lookup, insert, delete,
  string_eq,
}
use runv.Resources.Disks.{Descriptor}
use runv.Networks.State.{Interface}
use runv.Persistence.{
  Container, Sandbox, PersistInfo, VolumeInfo, dump_volumes, dump_roots, dump_descriptions, dump_lo,
  dump_eth, dump, load_hw_status, load_volumes, block_info, vm_context, root_mismatch, restored,
}
use runv.Persistence.Restored.{IsRestored, vm_context-dump}

abbrev disk : String → Descriptor
disk name = record {
  name = name;
  filename = "/dev/dm-3";
  format = "raw";
  fstype = "ext4";
  device_name = "sdb";
  scsi_id = 1;
  scsi_addr = "0:1";
  docker_volume = true;
  read_only = true;
  options = ("user", "admin") ∷ [];
}

abbrev nic : Interface
nic = record {
  id = "eth0";
  index = 0;
  pci_addr = 6;
  tap_fd = 9;
  bridge = "br0";
  host_device = "tap0";
  device_name = "eth0";
  mac_addr = "52:54:00";
  ip_addr = "10.0.0.2/24" ∷ [];
  new_name = "";
  mtu = 1500;
  route_table = [];
}

abbrev web : Container
web = record {
  id = "web";
  volumes = "data" ∷ [];
  root = record {
    descriptor = disk "root";
    ready = true;
    is_root_vol = true;
    observers = "web" ∷ [];
  };
}

abbrev sandbox : Sandbox
sandbox = record {
  id = "vm-1";
  paused = true;
  pci_addr = 7;
  scsi_id = 2;
  guest_cid = 1024;
  enable_vsock = true;
  volumes =
      (
        "data",
        record {
          descriptor = disk "data";
          ready = true;
          is_root_vol = false;
          observers = "web" ∷ [];
        },
      )
      ∷ [];
  containers = ("web", web) ∷ [];
  lo = [];
  eth = (0, some nic) ∷ [];
  id_map = ("eth0", nic) ∷ [];
  ports = [];
}

abbrev info : PersistInfo
info = record {
  version = 20171210;
  id = "vm-1";
  paused = true;
  pci_addr = 7;
  scsi_id = 2;
  guest_cid = 1024;
  volume_list = dump_volumes sandbox.volumes ++ dump_roots sandbox.containers;
  network_list =
      record {
        id = "eth0";
        index = 0;
        pci_addr = 6;
        host_device = "tap0";
        device_name = "eth0";
        new_name = "";
        ip_addr = "10.0.0.2/24" ∷ [];
        mac = "52:54:00";
        mtu = 1500;
      }
      ∷ [];
  port_list = [];
  containers = ("web", "data" ∷ []) ∷ [];
}

abbrev free : ℕ → Bool
free cid = cid == 1024

vm_context-dump_example :
    (t : Sandbox) × (vm_context free true "x" info ≡ restored t) × IsRestored sandbox t
unfolding dump dump_eth dump_lo dump_descriptions insert delete lookup
vm_context-dump_example =
    vm_context-dump free "x" sandbox info
      (record {
        dumped = refl;
        volumes = ((refl, tt), (refl, tt));
        containers = ((refl, tt), (refl, tt));
        no_ports = refl;
      })
      refl

-- A reserved slot makes dump panic.
reserved : dump (record sandbox { eth = (1, none) ∷ [] }) ≡ none
unfolding dump dump_eth
reserved = refl

-- A root volume of two containers is refused.
abbrev shared_root : VolumeInfo
shared_root = record {
  name = "root";
  filename = "";
  format = "raw";
  fstype = "ext4";
  device_name = "sda";
  scsi_id = 0;
  container_ids = "a" ∷ "b" ∷ [];
  is_root_vol = true;
}

refused : vm_context free true "x" (record info { volume_list = shared_root ∷ [] }) ≡ root_mismatch
unfolding vm_context load_hw_status load_volumes block_info
refused = refl
