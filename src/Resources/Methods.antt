-- ===== src/Resources/Methods.antt =====
-- The methods of DiskContext (hypervisor/disk.go).
use Prim.Native.String.{String}
use runv.Resources.Disks.{Disk, Outcome, broken, other, completed, is_dir, is_nas}
use runv.Resources.State.{
  result_base, Sandbox, reply, answer, reply_to, group_add, group_done, set_disk, at,
}
use runv.Prelude.{
  ℕ, ◌+◌, Bool, true, false, ◌||◌, List, [], ◌∷◌, ◌++◌, if◌then◌else◌, insert, delete, has_key,
  string_eq,
}

-- The loop of `inserted` and `failed` over the observers.
unfoldable pub all_done : List (String × ℕ) → Sandbox → Sandbox
unfolding group_done
all_done [] s = s
all_done ((id, g) ∷ obs) s = all_done obs (group_done g s)

unfoldable pub wait_disk : ℕ → String → ℕ → Disk → Sandbox → Sandbox
unfolding set_disk group_add
wait_disk p id g d s =
    if has_key id d.observers
    then s
    else let s' = set_disk p (record d { observers = insert id g d.observers }) s in
      if d.ready then s' else group_add g s'

-- Each method is given the disk that its pointer leads to.
unfoldable pub wait : ℕ → String → ℕ → Sandbox → Sandbox
unfolding wait_disk
wait p id g = at p (wait_disk p id g)

unfoldable pub unwait_disk : ℕ → String → Disk → Sandbox → Sandbox
unfolding set_disk
unwait_disk p id d s =
    if has_key id d.observers
    then set_disk p (record d { observers = delete id d.observers }) s
    else s

unfoldable pub unwait : ℕ → String → Sandbox → Sandbox
unfolding unwait_disk
unwait p id = at p (unwait_disk p id)

unfoldable pub inserted : ℕ → Disk → Sandbox → Sandbox
unfolding set_disk all_done
inserted p d s = all_done d.observers (set_disk p (record d { ready = true }) s)

unfoldable pub failed : ℕ → Disk → Sandbox → Sandbox
unfolding set_disk all_done
failed p d s = all_done d.observers (set_disk p (record d { ready = false }) s)

-- `insert`, up to the start of its goroutine.
unfoldable pub insert_disk : ℕ → Bool → Disk → Sandbox → Sandbox
unfolding reply_to set_disk
insert_disk p reports d s =
    if d.ready
    then reply_to reports (result_base d.descriptor.name true "already inserted") s
    else set_disk p
        (record d {
          descriptor = record (d.descriptor) { scsi_id = s.scsi_id };
          inserting = true;
          landed = false;
          reports = reports;
        })
        (record s { scsi_id = s.scsi_id + 1 })

-- The rest of that goroutine, from the driver's answer on, but for a last call of `inserted`.
unfoldable pub insert_ends : ℕ → Outcome → Disk → Sandbox → Sandbox
unfolding reply_to set_disk failed
insert_ends p broken d s =
    reply_to d.reports (result_base d.descriptor.name false "disk insert session broken")
      (failed p (record d { inserting = false }) s)
insert_ends p other d s =
    reply_to d.reports (result_base d.descriptor.name false "disk insert failed")
      (failed p (record d { inserting = false }) s)
insert_ends p (completed device addr) d s =
    reply_to d.reports (result_base d.descriptor.name true "") (
      set_disk p
        (record d {
          descriptor = record (d.descriptor) { device_name = device; scsi_addr = addr };
          landed = true;
        })
        s)

unfoldable pub insert_lands : ℕ → Disk → Sandbox → Sandbox
unfolding inserted
insert_lands p d s = inserted p (record d { inserting = false; landed = false }) s

-- `remove`, up to the start of its goroutine; `full` is whether the channel is.
unfoldable pub remove_disk : Bool → ℕ → Disk → Sandbox → Sandbox
unfolding answer set_disk
remove_disk full p d s =
    if is_dir d.descriptor || is_nas d.descriptor
    then answer full (result_base d.descriptor.name true "no need to unplug") s
    else set_disk p (record d { removing = true }) s

unfoldable pub remove_ends : ℕ → Outcome → Disk → Sandbox → Sandbox
unfolding reply set_disk failed
remove_ends p broken d s =
    reply (result_base d.descriptor.name false "disk remove session broken")
      (failed p (record d { removing = false }) s)
remove_ends p other d s =
    reply (result_base d.descriptor.name false "disk remove failed")
      (failed p (record d { removing = false }) s)
remove_ends p (completed device addr) d s =
    reply (result_base d.descriptor.name true "") (set_disk p (record d { removing = false }) s)

-- Allocation of a disk: its pointer is the old length of `disks`.
unfoldable pub new_disk : Disk → Sandbox → Sandbox
new_disk d s = record s { disks = s.disks ++ d ∷ [] }
