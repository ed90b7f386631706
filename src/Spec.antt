-- ===== src/Spec.antt =====
-- What a container's agent is told of its disks: agentCreate of hypervisor/container.go.
pub mod Sources
mod Tests
use Prim.Native.String.{String, ◌++◌ as concat}
use text.Mathlib.Text.{◌==◌ as str_eq}
use runv.Prelude.{
  Bool, true, false, ◌&&◌, ◌||◌, not, Option, none, some, List, [], ◌∷◌, ◌++◌, ◌⊎◌, inl, inr,
  if◌then◌else◌, lookup, string_eq,
}
use runv.Resources.Disks.{Volume, volume_is_dir, Descriptor, is_dir, Disk}

-- Storage of agent/sandbox_agent.go, and a mount of the OCI specification.
pub record Storage : Type 0 where
  pub driver : String
  pub source : String
  pub fstype : String
  pub mount_point : String

pub record Mount : Type 0 where
  pub destination : String
  pub source : String

-- The ContainerContext: `spec_root` is the path of the specification's root and whether it is read
-- only, and `volumes` has the paths of the mount points of each volume.
pub record Container : Type 0 where
  pub id : String
  pub root : Disk
  pub root_volume : Volume
  pub root_path : String
  pub spec_root : Option (String × Bool)
  pub mounts : List Mount
  pub volumes : List (String × List String)

pub data Failure : Type 0 where
  root_failed root_path_differs read_only_differs no_fstype volume_failed : Failure

-- What is passed to CreateContainer: the storages, the mounts, and the root's path and whether it
-- is read only.
pub record Request : Type 0 where
  pub storages : List Storage
  pub mounts : List Mount
  pub root : String
  pub root_read_only : Bool

unfoldable pub root_differs : Container → Option Failure
root_differs c = elim c.spec_root [
  | none ↦ none
  | some (path, read_only) ↦
      if not (str_eq path "") && not (str_eq path c.root_path)
      then some root_path_differs
      else if read_only && not c.root_volume.read_only
      then some read_only_differs
      else none
]

-- `join` and `clean` are those of path/filepath, and `share` is shareStorage.
module _ (join : String → String → String) (clean : String → String) (share : Storage) where
  unfoldable pub root_storage : Container → Storage
  unfolding volume_is_dir
  root_storage c =
      let disk : Storage = record {
        driver = "";
        source = c.root.descriptor.device_name;
        fstype = c.root_volume.fstype;
        mount_point = concat "/kata/storage/" (concat c.id "/root_volume/");
      } in
      if volume_is_dir c.root_volume
      then record share { mount_point = join share.mount_point c.root_volume.source }
      else if str_eq c.root.descriptor.scsi_addr ""
      then disk
      else record disk { source = c.root.descriptor.scsi_addr; driver = "scsi" }

  -- The storage of a volume's disk; the address is that of the root's disk, as in the code.
  unfoldable pub volume_storage : Container → String → Descriptor → Storage
  volume_storage c vn d =
      let disk : Storage = record {
        driver = "";
        source = d.device_name;
        fstype = d.fstype;
        mount_point = concat "/kata/storage/" (concat c.id (concat "/" (concat vn "/")));
      } in
      if str_eq d.scsi_addr ""
      then disk
      else record disk { source = c.root.descriptor.scsi_addr; driver = "scsi" }

  unfoldable pub mount_all : String → List String → List Mount
  mount_all source [] = []
  mount_all source (path ∷ paths) =
      record { destination = clean path; source = source } ∷ mount_all source paths

  -- The loop over the volumes.
  unfoldable pub add_volumes :
      Container → List (String × Disk) → List (String × List String) → Request → Failure ⊎ Request
  unfolding is_dir volume_storage mount_all lookup
  add_volumes c disks [] r = inr r
  add_volumes c disks ((vn, paths) ∷ rest) r = elim (lookup vn disks) [
    | none ↦ inl volume_failed
    | some vol ↦
        let d = vol.descriptor in
        let storage = volume_storage c vn d in
        let dir_mounts = mount_all (join share.mount_point d.filename) paths in
        let disk_mounts = mount_all (join storage.mount_point "_data") paths in
        let as_dir = add_volumes c disks rest (record r { mounts = r.mounts ++ dir_mounts }) in
        let as_disk =
          add_volumes c disks rest
            record r { storages = r.storages ++ storage ∷ []; mounts = r.mounts ++ disk_mounts } in
        if not vol.ready
        then inl volume_failed
        else if is_dir d
        then as_dir
        else if str_eq d.fstype ""
        then inl no_fstype
        else as_disk
  ]

  unfoldable pub agent_create : Container → List (String × Disk) → Failure ⊎ Request
  unfolding root_differs root_storage add_volumes volume_is_dir
  agent_create c disks =
      let root = root_storage c in
      let request : Request = record {
        storages = if volume_is_dir c.root_volume then [] else root ∷ [];
        mounts = c.mounts;
        root = join root.mount_point c.root_path;
        root_read_only = c.root_volume.read_only;
      } in
      let added = add_volumes c disks c.volumes request in
      let no_type = not (volume_is_dir c.root_volume) && str_eq c.root_volume.fstype "" in
      if not c.root.ready then inl root_failed else elim (root_differs c) [
        | some f ↦ inl f
        | none ↦ if no_type then inl no_fstype else added
      ]
