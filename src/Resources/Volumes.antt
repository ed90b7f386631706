-- ===== src/Resources/Volumes.antt =====
-- AddVolume and RemoveVolume of hypervisor/context.go, called for a channel with room for one message
-- that is read after they return, as Vm does.
use Prim.Native.String.{String, ◌++◌ as concat}
use runv.Resources.Disks.{Volume, new_disk_context, volume_is_dir, volume_is_nas}
use runv.Resources.State.{result_base, not_ready_error, Sandbox, reply, answer}
use runv.Resources.Methods.{insert_disk, remove_disk, new_disk}
use runv.Prelude.{
  ℕ, Bool, true, false, ◌||◌, not, none, some, if◌then◌else◌, get_elem?, length, lookup, insert,
  delete, has_key, ltb, string_eq,
}

abbrev pub name_volume : String → ℕ → Sandbox → Sandbox
name_volume name p s = record s { volumes = insert name p s.volumes }

-- AddVolume after its test of the state; `full` is whether the channel is.
unfoldable pub register_volume : Bool → Volume → Sandbox → Sandbox
unfolding answer insert_disk new_disk new_disk_context
register_volume full vol s =
    if has_key vol.name s.volumes
    then answer full (result_base vol.name true (concat "duplicate volume " vol.name)) s
    else let p = length s.disks in
      let d = new_disk_context vol in
      let s₁ = new_disk d s in
      if volume_is_dir vol || volume_is_nas vol
      then if full
        then answer full (result_base vol.name true "") s₁
        else name_volume vol.name p (answer full (result_base vol.name true "") s₁)
      else name_volume vol.name p (insert_disk p true d s₁)

-- The test does not return.
unfoldable pub add_volume : Volume → Sandbox → Sandbox
unfolding reply register_volume
add_volume vol s =
    register_volume (not s.running) vol (if s.running then s else reply (not_ready_error s.id) s)

-- RemoveVolume after its test of the state.
unfoldable pub drop_volume : Bool → String → Sandbox → Sandbox
unfolding answer remove_disk
drop_volume full name s = elim (lookup name s.volumes) [
  | none ↦ answer full (result_base name true "not exist") s
  | some p ↦ elim (get_elem? s.disks p) [
    | none ↦ s
    | some d ↦
        if ltb 0 (length d.observers)
        then answer full (result_base name false "in use") s
        else remove_disk full p d (record s { volumes = delete name s.volumes })
  ]
]

-- The test does not return.
unfoldable pub remove_volume : String → Sandbox → Sandbox
unfolding reply drop_volume
remove_volume name s =
    drop_volume (not s.running) name
      (if s.running then s else reply (result_base name true "pod not running") s)
