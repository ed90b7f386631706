-- ===== src/Resources/Histories.antt =====
-- Histories of a sandbox and the counters of its WaitGroups (hypervisor/context.go).
use Prim.Native.String.{String}
use runv.Prelude.{
  ℕ, ◌≡◌, refl, Bool, not, false, Option, none, some, List, [], ◌∷◌, get_elem?, lookup, has_key,
  ◌==◌, string_eq, arith, if_cases, Option-cases, inl, inr,
}
use runv.Resources.State.{Sandbox}
use runv.Resources.Moves.{answer_insert, land, answer_remove}
use runv.Resources.Groups.{owed}
use runv.Resources.Safety.{IsValid, same-IsValid, at-IsValid}
use runv.Resources.DiskSafety.{
  reply-IsValid, answer-IsValid, answer_insert-IsValid, land-IsValid, answer_remove-IsValid,
}
use runv.Resources.State.{Description, Container, Adding}
use runv.Resources.Containers.{
  validate_volumes, register_container, add_container, remove_container, is_ready, add_ends,
  all_ready,
}
use runv.Resources.Moves.{
  Move, step, run, locking, volume_added, volume_removed, container_removed, container_added,
  state_changed, insert_answered, remove_answered, disk_landed, group_passed, new_sandbox, pass,
}
use runv.Resources.Volumes.{add_volume, remove_volume}
use runv.Resources.VolumeSafety.{add_volume-IsValid, remove_volume-IsValid}
use runv.Resources.ContainerSafety.{admit_container-IsValid, remove_container-IsValid}

module _ (k : ℕ → ℕ) (clean : String → String) where
  register_container-IsValid :
      (full : Bool) (c : Description) (s : Sandbox)
      → IsValid k s
      → IsValid k (register_container clean full c s)
  unfolding register_container
  register_container-IsValid full c s v =
      if_cases (IsValid k) (has_key c.id s.containers) _ _ (λ h. answer-IsValid k full _ s v)
        (λ h. elim (Option-cases (validate_volumes clean s.volumes c.volumes)) [
          | inl e ↦ rw e (admit_container-IsValid k full c s v)
          | inr (cause, e) ↦ rw e (answer-IsValid k full _ s v)
        ])

  add_container-IsValid :
      (c : Description) (s : Sandbox) → IsValid k s → IsValid k (add_container clean c s)
  unfolding add_container
  add_container-IsValid c s v =
      register_container-IsValid (not s.running) c _
        (if_cases (IsValid k) s.running s _ (λ h. v) (λ h. reply-IsValid k _ s v))

  add_ends-IsValid : (c : Container) (s : Sandbox) → IsValid k s → IsValid k (add_ends c s)
  unfolding add_ends
  add_ends-IsValid c s v =
      if_cases (IsValid k) (all_ready s c.description.volumes) _ _
        (λ h.
          if_cases (IsValid k) (is_ready s c.root) _ _ (λ i. reply-IsValid k _ s v)
            (λ i. reply-IsValid k _ s v))
        (λ h. reply-IsValid k _ s v)

  pass-IsValid : (o : Option Adding) (n : ℕ) (s : Sandbox) → IsValid k s → IsValid k (pass o n s)
  pass-IsValid none n s v = v
  pass-IsValid (some a) n s v =
      if_cases (IsValid k) (s.groups a.group == 0) _ _
        (λ h. add_ends-IsValid a.container _ (same-IsValid k s _ refl refl refl refl refl refl v))
        (λ h. v)

  locking-IsValid :
      (f : Sandbox → Sandbox) (s : Sandbox)
      → IsValid k (f s)
      → IsValid k s
      → IsValid k (locking f s)
  locking-IsValid f s w v = if_cases (IsValid k) s.stalled s (f s) (λ y. v) (λ n. w)

  pub step-IsValid : (s : Sandbox) (m : Move) → IsValid k s → IsValid k (step clean s m)
  unfolding step
  step-IsValid s (volume_added vol) v =
      locking-IsValid (add_volume vol) s (add_volume-IsValid k vol s v) v
  step-IsValid s (volume_removed name) v =
      locking-IsValid (remove_volume name) s (remove_volume-IsValid k name s v) v
  step-IsValid s (container_added c) v =
      locking-IsValid (add_container clean c) s (add_container-IsValid c s v) v
  step-IsValid s (container_removed id) v =
      locking-IsValid (remove_container id) s (remove_container-IsValid k id s v) v
  step-IsValid s (state_changed b) v =
      locking-IsValid (λ t. record t { running = b }) s
        (same-IsValid k s _ refl refl refl refl refl refl v) v
  step-IsValid s (insert_answered p o) v =
      at-IsValid k p (answer_insert p o) s (λ d e. answer_insert-IsValid k p o d s e v) v
  step-IsValid s (disk_landed p) v = at-IsValid k p (land p) s (λ d e. land-IsValid k p d s e v) v
  step-IsValid s (remove_answered p o) v =
      at-IsValid k p (answer_remove p o) s (λ d e. answer_remove-IsValid k p o d s e v) v
  step-IsValid s (group_passed n) v = pass-IsValid (get_elem? s.adding n) n s v

  pub run-IsValid : (s : Sandbox) (ms : List Move) → IsValid k s → IsValid k (run clean s ms)
  unfolding run
  run-IsValid s [] v = v
  run-IsValid s (m ∷ ms) v = run-IsValid (step clean s m) ms (step-IsValid s m v)

pub new_sandbox-IsValid : (id : String) → IsValid (λ g. 0) (new_sandbox id)
unfolding new_sandbox owed lookup
new_sandbox-IsValid id = record {
  enough = λ g. omega arith;
  fresh = λ g l. refl;
  sound = λ p d e. cc;
  held = λ n p e. cc;
  rooted = λ i c e. cc;
  calm = refl;
}

-- No history of requests, driver answers and goroutines of a sandbox makes the counter of a
-- WaitGroup negative: the panic of WaitGroup.Done is out of reach.
pub run-calm :
    (clean : String → String) (id : String) (ms : List Move)
    → (run clean (new_sandbox id) ms).panicked ≡ false
run-calm clean id ms =
    (run-IsValid (λ g. 0) clean (new_sandbox id) ms (new_sandbox-IsValid id)).calm
