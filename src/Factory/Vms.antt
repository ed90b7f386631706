-- ===== src/Factory/Vms.antt =====
-- Vm of hypervisor/vm.go: GetVm, Pause, SetCpus, AddMem, OnlineCpuMem and Kill. The sizes of virtual
-- machines are not negative.
use runv.Prelude.{
  ℕ, ◌-◌, Bool, true, false, ◌&&◌, not, Option, none, some, List, [], ◌∷◌, if◌then◌else◌, leb,
}

-- A call of the driver or of the agent.
pub data Call : Type 0 where
  pause_sync unpause online power_off : Call
  driver_pause : Bool → Call
  driver_set_cpus driver_add_mem : ℕ → Call

-- What those calls return: whether there is no error.
pub record Answers : Type 0 where
  pub launched : Bool
  pub api_version : Bool
  pub pause_synced : Bool
  pub driver_paused : Bool
  pub unpaused : Bool
  pub cpus_set : Bool
  pub mem_added : Bool

-- `running` tells the state of the context, and `paused` its PauseState. `calls` has the newest
-- first.
pub record Vm : Type 0 where
  pub cpu : ℕ
  pub mem : ℕ
  pub running : Bool
  pub paused : Bool
  pub calls : List Call

unfoldable pub new_vm : ℕ → ℕ → Vm
new_vm cpu memory = record { cpu = cpu; mem = memory; running = true; paused = false; calls = [] }

unfoldable pub call : Call → Vm → Vm
call c vm = record vm { calls = c ∷ vm.calls }

-- The answer is whether there is no error.
unfoldable pub pause : Answers → Bool → Vm → Bool × Vm
unfolding call
pause a true vm =
    if not vm.running
    then (false, vm)
    else if vm.paused
    then (true, vm)
    else if not a.pause_synced
    then (false, call pause_sync vm)
    else let v = call (driver_pause true) (call pause_sync vm) in
      if a.driver_paused then (true, record v { paused = true }) else (false, v)
pause a false vm =
    if not vm.running
    then (false, vm)
    else if not vm.paused
    then (true, vm)
    else let v = call (driver_pause false) vm in
      if a.driver_paused
      then if a.unpaused
        then (true, record (call unpause v) { paused = false })
        else (false, call unpause v)
      else (false, v)

unfoldable pub set_cpus : Answers → ℕ → Vm → Bool × Vm
unfolding call
set_cpus a cpus vm =
    if leb cpus vm.cpu
    then (true, vm)
    else if not vm.running
    then (false, vm)
    else let v = call (driver_set_cpus cpus) vm in
      if a.cpus_set then (true, record v { cpu = cpus }) else (false, v)

unfoldable pub add_mem : Answers → ℕ → Vm → Bool × Vm
unfolding call
add_mem a total_mem vm =
    if leb total_mem vm.mem
    then (true, vm)
    else if not vm.running
    then (false, vm)
    else let v = call (driver_add_mem (total_mem - vm.mem)) vm in
      if a.mem_added then (true, record v { mem = total_mem }) else (false, v)

unfoldable pub online_cpu_mem : Vm → Vm
unfolding call
online_cpu_mem vm = call online vm

-- poweroffVM calls the driver's Kill while the context has a handler.
unfoldable pub kill : Vm → Vm
unfolding call
kill vm = if vm.running then call power_off vm else vm

-- Launch: what is booted from a template is paused.
unfoldable pub launch_vm : Bool → Vm → Vm
launch_vm template vm = if template then record vm { paused = true } else vm

-- With a new id, which is not modelled.
unfoldable pub get_vm : Answers → Bool → ℕ → ℕ → Bool → Option Vm
unfolding new_vm launch_vm
get_vm a template cpu memory wait_started =
    if a.launched
    then if wait_started && not a.api_version
      then none
      else some (launch_vm template (new_vm cpu memory))
    else none
