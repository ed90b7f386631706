-- ===== src/Resources/Disks.antt =====
-- DiskDescriptor and DiskContext of hypervisor/disk.go, VolumeDescription of api/descriptions.go and
-- its tests in api/helpers.go. The options of a volume are there (no nil pointer), with their numbers
-- as strconv.Itoa prints them.
use Prim.Native.String.{String, ◌++◌ as concat}
use text.Mathlib.Text.{◌==◌ as str_eq}
use runv.Prelude.{ℕ, Bool, true, false, List, [], ◌∷◌, if◌then◌else◌}

-- VolumeOption.
pub record VolumeOption : Type 0 where
  pub user : String
  pub monitors : List String
  pub keyring : String
  pub bytes_per_sec : String
  pub iops : String

pub record Volume : Type 0 where
  pub name : String
  pub source : String
  pub format : String
  pub fstype : String
  pub options : VolumeOption
  pub docker_volume : Bool
  pub read_only : Bool

unfoldable pub volume_is_dir : Volume → Bool
volume_is_dir v = str_eq v.format "vfs"

unfoldable pub volume_is_nas : Volume → Bool
volume_is_nas v = str_eq v.format "nas"

pub record Descriptor : Type 0 where
  pub name : String
  pub filename : String
  pub format : String
  pub fstype : String
  pub device_name : String
  pub scsi_id : ℕ
  pub scsi_addr : String
  pub docker_volume : Bool
  pub read_only : Bool
  pub options : List (String × String)

unfoldable pub is_dir : Descriptor → Bool
is_dir d = str_eq d.format "vfs"

unfoldable pub is_nas : Descriptor → Bool
is_nas d = str_eq d.format "nas"

-- `observers` maps a container's id to its WaitGroup. `inserting` and `removing` tell whether the
-- goroutine of `insert`, and that of `remove`, is at work for the disk, `landed` whether the former
-- has only its call of `inserted` left, and `reports` whether it answers a caller.
pub record Disk : Type 0 where
  pub descriptor : Descriptor
  pub is_root_vol : Bool
  pub ready : Bool
  pub observers : List (String × ℕ)
  pub inserting : Bool
  pub landed : Bool
  pub removing : Bool
  pub reports : Bool

-- What comes back from the driver: the session's channel was closed, an event of the wrong type
-- came, or the one that was waited for.
pub data Outcome : Type 0 where
  broken other : Outcome
  completed : String → String → Outcome

-- strings.Join(monitors, ";").
unfoldable pub join_monitors : List String → String
join_monitors [] = ""
join_monitors (m ∷ []) = m
join_monitors (m ∷ n ∷ ms) = concat m (concat ";" (join_monitors (n ∷ ms)))

-- What an rbd disk keeps of the options.
unfoldable pub rbd_options : VolumeOption → List (String × String)
unfolding join_monitors
rbd_options o =
    ("user", o.user)
    ∷ ("keyring", o.keyring)
    ∷ ("monitors", join_monitors o.monitors)
    ∷ ("bytespersec", o.bytes_per_sec)
    ∷ ("iops", o.iops)
    ∷ []

unfoldable pub new_disk_context : Volume → Disk
unfolding volume_is_dir volume_is_nas rbd_options
new_disk_context v = record {
  descriptor = record {
    name = v.name;
    filename = v.source;
    format = v.format;
    fstype = v.fstype;
    device_name = if volume_is_dir v then "" else if volume_is_nas v then v.source else "";
    scsi_id = 0;
    scsi_addr = "";
    docker_volume = v.docker_volume;
    read_only = v.read_only;
    options =
        if volume_is_dir v
        then []
        else if volume_is_nas v
        then []
        else if str_eq v.format "rbd"
        then rbd_options v.options
        else [];
  };
  is_root_vol = false;
  ready = if volume_is_dir v then true else volume_is_nas v;
  observers = [];
  inserting = false;
  landed = false;
  removing = false;
  reports = false;
}
