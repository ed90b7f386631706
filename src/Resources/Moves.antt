-- ===== src/Resources/Moves.antt =====
-- Histories of a sandbox's requests and goroutines (hypervisor/context.go, hypervisor/disk.go,
-- hypervisor/container.go).
use Prim.Native.String.{String}
use runv.Resources.Disks.{Disk, Volume, Outcome}
use runv.Resources.State.{Description, Adding, Sandbox, at}
use runv.Resources.Methods.{insert_ends, insert_lands, remove_ends}
use runv.Resources.Volumes.{add_volume, remove_volume}
use runv.Resources.Containers.{add_container, remove_container, add_ends}
use runv.Prelude.{
  ℕ, zero, suc, Bool, true, false, ◌&&◌, not, Option, none, some, List, [], ◌∷◌, if◌then◌else◌,
  get_elem?, ◌==◌, string_eq,
}

-- A request under the context's lock, a change of the context's state, or the next step of a
-- goroutine. A step that its goroutine cannot take changes nothing.
pub data Move : Type 0 where
  volume_added : Volume → Move
  volume_removed container_removed : String → Move
  container_added : Description → Move
  state_changed : Bool → Move
  insert_answered remove_answered : ℕ → Outcome → Move
  disk_landed : ℕ → Move
  -- The goroutine at place `n` of `adding` finds its WaitGroup at 0.
  group_passed : ℕ → Move

-- The gates of the goroutines.
unfoldable pub answer_insert : ℕ → Outcome → Disk → Sandbox → Sandbox
unfolding insert_ends
answer_insert p o d s = if d.inserting && not d.landed then insert_ends p o d s else s

unfoldable pub land : ℕ → Disk → Sandbox → Sandbox
unfolding insert_lands
land p d s = if d.inserting && d.landed then insert_lands p d s else s

unfoldable pub answer_remove : ℕ → Outcome → Disk → Sandbox → Sandbox
unfolding remove_ends
answer_remove p o d s = if d.removing then remove_ends p o d s else s

abbrev pub drop_at : ℕ → List Adding → List Adding
drop_at n [] = []
drop_at zero (a ∷ rest) = rest
drop_at (suc n) (a ∷ rest) = a ∷ drop_at n rest

abbrev pub pass : Option Adding → ℕ → Sandbox → Sandbox
pass none n s = s
pass (some a) n s =
    if s.groups a.group == 0
    then add_ends a.container (record s { adding = drop_at n s.adding })
    else s

-- What takes the context's lock does not get it when a request keeps it.
abbrev pub locking : (Sandbox → Sandbox) → Sandbox → Sandbox
locking f s = if s.stalled then s else f s

module _ (clean : String → String) where
  unfoldable pub step : Sandbox → Move → Sandbox
  unfolding answer_insert land answer_remove add_ends
  step s (volume_added vol) = locking (add_volume vol) s
  step s (volume_removed name) = locking (remove_volume name) s
  step s (container_added c) = locking (add_container clean c) s
  step s (container_removed id) = locking (remove_container id) s
  step s (state_changed running) = locking (λ t. record t { running = running }) s
  step s (insert_answered p o) = at p (answer_insert p o) s
  step s (disk_landed p) = at p (land p) s
  step s (remove_answered p o) = at p (answer_remove p o) s
  step s (group_passed n) = pass (get_elem? s.adding n) n s

  unfoldable pub run : Sandbox → List Move → Sandbox
  unfolding step
  run s [] = s
  run s (m ∷ ms) = run (step s m) ms

-- As InitContext leaves it.
unfoldable pub new_sandbox : String → Sandbox
new_sandbox id = record {
  id = id;
  running = true;
  scsi_id = 0;
  disks = [];
  groups = λ g. 0;
  next_group = 0;
  volumes = [];
  containers = [];
  adding = [];
  results = [];
  panicked = false;
  stalled = false;
}
