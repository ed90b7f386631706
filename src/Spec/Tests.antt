-- ===== src/Spec/Tests.antt =====
-- A concrete container (hypervisor/container.go).
use Prim.Native.String.{String, ◌++◌ as concat}
use runv.Prelude.{◌≡◌, refl, true, false, none, [], ◌∷◌, inl, lookup, string_eq}
use runv.Resources.Disks.{Volume, volume_is_dir, is_dir, Disk}
use runv.Spec.{
  Storage, Container, volume_failed, Request, root_differs, root_storage, volume_storage, mount_all,
  add_volumes, agent_create,
}
use runv.Spec.Sources.{Has, agent_create-takes_root}

abbrev disk : String → String → Disk
disk name addr = record {
  descriptor = record {
    name = name;
    filename = "/dev/dm-1";
    format = "raw";
    fstype = "ext4";
    device_name = "sda";
    scsi_id = 0;
    scsi_addr = addr;
    docker_volume = false;
    read_only = false;
    options = [];
  };
  is_root_vol = false;
  ready = true;
  observers = [];
  inserting = false;
  landed = false;
  removing = false;
  reports = false;
}

abbrev image : Volume
image = record {
  name = "root";
  source = "/dev/dm-0";
  format = "raw";
  fstype = "xfs";
  options = record { user = ""; monitors = []; keyring = ""; bytes_per_sec = ""; iops = "" };
  docker_volume = false;
  read_only = false;
}

abbrev web : Container
web = record {
  id = "web";
  root = disk "root" "0:0";
  root_volume = image;
  root_path = "rootfs";
  spec_root = none;
  mounts = [];
  volumes = ("data", "/data" ∷ []) ∷ [];
}

abbrev share : Storage
share = record { driver = "9p"; source = "share"; fstype = "9p"; mount_point = "/share" }

abbrev request : Request
request = record {
  storages =
      record {
        driver = "scsi";
        source = "0:0";
        fstype = "xfs";
        mount_point = "/kata/storage/web/root_volume/";
      }
      ∷ record {
        driver = "scsi";
        source = "0:0";
        fstype = "ext4";
        mount_point = "/kata/storage/web/data/";
      }
      ∷ [];
  mounts = record { destination = "/data"; source = "/kata/storage/web/data/_data" } ∷ [];
  root = "/kata/storage/web/root_volume/rootfs";
  root_read_only = false;
}

agent_create-takes_root_example :
    (s : Storage) × Has s request.storages
    × (s.mount_point ≡ "/kata/storage/web/data/")
    × (s.driver ≡ "scsi")
    × (s.source ≡ "0:0")
unfolding agent_create root_differs root_storage volume_storage mount_all add_volumes volume_is_dir
    is_dir lookup
agent_create-takes_root_example =
    agent_create-takes_root concat (λ p. p) share web (("data", disk "data" "0:1") ∷ []) "data"
      (disk "data" "0:1") request (inl refl) refl refl refl refl

-- A volume that is not ready is an error.
unready : agent_create concat (λ p. p) share web [] ≡ inl volume_failed
unfolding agent_create root_differs root_storage add_volumes volume_is_dir lookup
unready = refl
