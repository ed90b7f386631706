-- ===== src/Resources/Tests.antt =====
-- Runs of the model of a sandbox's volumes and containers at concrete requests.
use Prim.Native.String.{String}
use runv.Prelude.{
  ◌<◌, ◌≡◌, refl, true, false, List, [], ◌∷◌, lookup, has_key, inr, ◌⊎◌, string_eq, insert, delete,
  arith,
}
use runv.Resources.Disks.{
  Disk, Volume, completed, other, volume_is_dir, volume_is_nas, new_disk_context, is_dir, is_nas,
}
use runv.Resources.State.{
  Description, Sandbox, result_base, not_ready_error, reply, answer, reply_to, update, group_add,
  group_done, set_disk,
}
use runv.Resources.Methods.{
  all_done, wait_disk, wait, unwait_disk, unwait, inserted, failed, insert_disk, insert_ends,
  insert_lands, remove_disk, remove_ends, new_disk,
}
use runv.Resources.Volumes.{register_volume, add_volume, drop_volume, remove_volume}
use runv.Resources.Containers.{
  validate_volumes, wait_volumes, unwait_volumes, start_adding, admit_container, register_container,
  add_container, remove_container, all_ready, add_ends,
}
use runv.Resources.Moves.{
  state_changed, Move, answer_insert, land, answer_remove, step, run, new_sandbox, volume_added,
  volume_removed, container_added, container_removed, insert_answered, disk_landed, group_passed,
}
use runv.Resources.Histories.{run-calm}
use runv.Resources.Stuck.{Starts, add_container-stuck}
use runv.Resources.Stalls.{IsStuck, add_volume-stalls, remove_volume-in_use}
use runv.Resources.Requests.{Refused, IsForbidden, Entered, add_container-cases}

abbrev same_path : String → String
same_path p = p

abbrev data_volume : Volume
data_volume = record {
  name = "data";
  source = "/dev/sdb";
  format = "raw";
  fstype = "ext4";
  options = record { user = ""; monitors = []; keyring = ""; bytes_per_sec = ""; iops = "" };
  docker_volume = false;
  read_only = false;
}

abbrev web : Description
web = record {
  id = "c1";
  name = "web";
  root_volume = record (data_volume) { name = "root"; source = "/dev/sda" };
  volumes = ("data", "/srv" ∷ []) ∷ [];
}

-- A volume, a container on it, and the answers of the driver.
abbrev history : List Move
history =
    volume_added data_volume
    ∷ container_added web
    ∷ insert_answered 0 (completed "sdb" "0:1")
    ∷ disk_landed 0
    ∷ insert_answered 1 (completed "sda" "0:0")
    ∷ disk_landed 1
    ∷ group_passed 0
    ∷ volume_removed "data"
    ∷ container_removed "c1"
    ∷ volume_removed "data"
    ∷ []

history_answers :
    (run same_path (new_sandbox "vm") history).results
    ≡ result_base "data" false "in use" ∷ result_base "c1" true "" ∷ result_base "data" true "" ∷ []
unfolding run new_sandbox register_volume add_volume drop_volume remove_volume validate_volumes
    wait_volumes unwait_volumes start_adding admit_container register_container add_container
    remove_container all_ready add_ends step answer_insert land answer_remove all_done wait_disk
    wait unwait_disk unwait inserted failed insert_disk insert_ends insert_lands remove_disk
    remove_ends new_disk reply answer reply_to update group_add group_done set_disk volume_is_dir
    volume_is_nas new_disk_context is_dir is_nas lookup insert delete has_key
history_answers = refl

run-calm_example : (run same_path (new_sandbox "vm") history).panicked ≡ false
run-calm_example = run-calm same_path "vm" history

-- The driver fails to insert the volume's disk.
abbrev failure : List Move
failure = volume_added data_volume ∷ insert_answered 0 other ∷ []

abbrev failed_disk : Disk
failed_disk = record {
  descriptor = record {
    name = "data";
    filename = "/dev/sdb";
    format = "raw";
    fstype = "ext4";
    device_name = "";
    scsi_id = 0;
    scsi_addr = "";
    docker_volume = false;
    read_only = false;
    options = [];
  };
  is_root_vol = false;
  ready = false;
  observers = [];
  inserting = false;
  landed = false;
  removing = false;
  reports = true;
}

add_container-stuck_example :
    let s = run same_path (new_sandbox "vm") failure in
    Starts web s.next_group (add_container same_path web s)
    × ((later : List Move)
        → 0 < (run same_path (add_container same_path web s) later).groups s.next_group)
unfolding run new_sandbox register_volume add_volume drop_volume remove_volume validate_volumes
    wait_volumes unwait_volumes start_adding admit_container register_container add_container
    remove_container all_ready add_ends step answer_insert land answer_remove all_done wait_disk
    wait unwait_disk unwait inserted failed insert_disk insert_ends insert_lands remove_disk
    remove_ends new_disk reply answer reply_to update group_add group_done set_disk volume_is_dir
    volume_is_nas new_disk_context is_dir is_nas lookup insert delete has_key
add_container-stuck_example =
    add_container-stuck same_path "vm" failure web "data" 0 failed_disk refl refl refl refl refl
      refl refl refl refl

add_container-cases_example :
    let s = run same_path (new_sandbox "vm") failure in
    let t = add_container same_path web s in
    ((has_key "c1" s.containers ≡ true) × Refused "c1" s t)
    ⊎ (IsForbidden same_path s.volumes web.volumes × Refused "c1" s t)
    ⊎ ((has_key "c1" s.containers ≡ false)
        × (¬ IsForbidden same_path s.volumes web.volumes)
        × Entered web s t)
unfolding run new_sandbox register_volume add_volume drop_volume remove_volume validate_volumes
    wait_volumes unwait_volumes start_adding admit_container register_container add_container
    remove_container all_ready add_ends step answer_insert land answer_remove all_done wait_disk
    wait unwait_disk unwait inserted failed insert_disk insert_ends insert_lands remove_disk
    remove_ends new_disk reply answer reply_to update group_add group_done set_disk volume_is_dir
    volume_is_nas new_disk_context is_dir is_nas lookup insert delete has_key
add_container-cases_example =
    add_container-cases same_path web (run same_path (new_sandbox "vm") failure) refl

abbrev stopped : Sandbox
stopped = record (new_sandbox "vm") { running = false }

add_volume-stalls_example :
    let t = add_volume (record (data_volume) { format = "vfs" }) stopped in
    (t.results ≡ not_ready_error "vm" ∷ [])
    × IsStuck stopped t
    × IsStuck stopped (run same_path t (volume_added data_volume ∷ state_changed true ∷ []))
unfolding run new_sandbox register_volume add_volume drop_volume remove_volume validate_volumes
    wait_volumes unwait_volumes start_adding admit_container register_container add_container
    remove_container all_ready add_ends step answer_insert land answer_remove all_done wait_disk
    wait unwait_disk unwait inserted failed insert_disk insert_ends insert_lands remove_disk
    remove_ends new_disk reply answer reply_to update group_add group_done set_disk volume_is_dir
    volume_is_nas new_disk_context is_dir is_nas lookup insert delete has_key
add_volume-stalls_example =
    add_volume-stalls same_path (record (data_volume) { format = "vfs" }) stopped
      (volume_added data_volume ∷ state_changed true ∷ []) refl (inr refl)

abbrev paused_history : List Move
paused_history = volume_added data_volume ∷ container_added web ∷ state_changed false ∷ []

remove_volume-in_use_example :
    let s = run same_path (new_sandbox "vm") paused_history in
    let t = remove_volume "data" s in
    (t.volumes ≡ s.volumes)
    × (t.disks ≡ s.disks)
    × (s.running ≡ true → t.results ≡ result_base "data" false "in use" ∷ s.results)
    × (s.running ≡ false
        → (t.results ≡ result_base "data" true "pod not running" ∷ s.results)
          × IsStuck s (run same_path t (volume_removed "data" ∷ [])))
unfolding run new_sandbox register_volume add_volume drop_volume remove_volume validate_volumes
    wait_volumes unwait_volumes start_adding admit_container register_container add_container
    remove_container all_ready add_ends step answer_insert land answer_remove all_done wait_disk
    wait unwait_disk unwait inserted failed insert_disk insert_ends insert_lands remove_disk
    remove_ends new_disk reply answer reply_to update group_add group_done set_disk volume_is_dir
    volume_is_nas new_disk_context is_dir is_nas lookup insert delete has_key
remove_volume-in_use_example =
    remove_volume-in_use same_path "data" 0
      (record (new_disk_context data_volume) {
        descriptor = record ((new_disk_context data_volume).descriptor) { scsi_id = 0 };
        observers = ("c1", 0) ∷ [];
        inserting = true;
        reports = true;
      })
      (run same_path (new_sandbox "vm") paused_history) (volume_removed "data" ∷ []) refl refl
      (omega arith)
