-- ===== src/Lifecycle/Events.antt =====
-- The events of hypervisor/events.go and the codes of hypervisor/constants.go.
use Prim.Native.String.{String}
use runv.Prelude.{ℕ, Bool}

pub data Code : Type 0 where
  vm_exit_code vm_kill_code vm_timeout_code block_inserted_code block_ejected_code : Code
  interface_add_code interface_inserted_code interface_ejected_code : Code
  shutdown_code release_code pause_code : Code
  start_failed_code init_fail_code qmp_fail_code interrupted_code : Code

-- The payloads are cut down to names, indexes, flags and reasons: no handler of the loop reads more.
pub data Event : Type 0 where
  vm_exit vm_timeout release_vm_command device_failed : Event
  vm_start_fail init_failed interrupted : String → Event
  vm_killed shutdown_command : Bool → Event
  volume_unmounted : String → Bool → Event
  blockdev_inserted : String → String → Event
  interface_created : String → ℕ → Event
  netdev_inserted : String → ℕ → Event
  netdev_removed : ℕ → Event

unfoldable pub event_code : Event → Code
event_code vm_exit = vm_exit_code
event_code vm_timeout = vm_timeout_code
event_code release_vm_command = release_code
event_code device_failed = qmp_fail_code
event_code (vm_start_fail message) = start_failed_code
event_code (init_failed reason) = init_fail_code
event_code (interrupted reason) = interrupted_code
event_code (vm_killed success) = vm_kill_code
event_code (shutdown_command wait) = shutdown_code
event_code (volume_unmounted name success) = block_ejected_code
event_code (blockdev_inserted device addr) = block_inserted_code
event_code (interface_created id index) = interface_add_code
event_code (netdev_inserted id index) = interface_inserted_code
event_code (netdev_removed index) = interface_ejected_code
