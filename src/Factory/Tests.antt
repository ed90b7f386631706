-- ===== src/Factory/Tests.antt =====
-- Requests to factories, and the theorems at them.
use runv.Prelude.{◌≡◌, refl, false, true, some, [], ◌∷◌}
use runv.Factory.Vms.{Answers, Vm, new_vm}
use runv.Factory.Bases.{Config, got, single_get_vm, less, place, new_multi, choose}
use runv.Factory.Choice.{IsBest, choose-new_multi}
use runv.Factory.Sizes.{Starts, single_get_vm-Starts}

abbrev fine : Answers
fine = record {
  launched = true;
  api_version = true;
  pause_synced = true;
  driver_paused = true;
  unpaused = true;
  cpus_set = true;
  mem_added = true;
}

abbrev small : Config
small = record { cpu = 1; memory = 128; template = false }

abbrev large : Config
large = record { cpu = 4; memory = 1024; template = true }

-- What a direct factory makes.
abbrev waiting : Vm
waiting = record (new_vm 1 128) { paused = true }

choose-new_multi_example :
    IsBest (choose (new_multi (small ∷ large ∷ [])) 2 512) (small ∷ large ∷ []) 2 512
choose-new_multi_example = choose-new_multi (small ∷ large ∷ []) 2 512

chosen : choose (new_multi (small ∷ large ∷ [])) 2 512 ≡ some small
unfolding choose new_multi place less
chosen = refl

single_get_vm-Starts_example :
    (vm : Vm) × (single_get_vm fine large (some waiting) 2 512 ≡ got vm) × Starts true 2 512 vm
unfolding new_vm
single_get_vm-Starts_example =
    single_get_vm-Starts fine large waiting 2 512
      (record {
        launched = refl;
        resumed = refl;
        unpaused = refl;
        cpus_set = refl;
        mem_added = refl;
      })
      refl
