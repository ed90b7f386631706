-- ===== src/Resources/Stalls.antt =====
-- Requests on the volumes of a sandbox that is not running, on a channel with room for one message
-- (hypervisor/context.go).
use Prim.Native.String.{String}
use runv.Prelude.{
  subst, Bool-cases, ℕ, ◌<◌, ◌≡◌, refl, ap, ◌∙◌, sym, Bool, true, false, ◌||◌, not, Option, none,
  some, List, [], ◌∷◌, if◌then◌else◌, get_elem?, length, lookup, has_key, string_eq, arith,
  if_cases, option_cases, inl, inr, ltb, ◌⊎◌, ◌==◌,
}
use runv.Resources.State.{
  Result, Container, Adding, Sandbox, not_ready_error, result_base, reply, answer, reply_to,
  set_disk, group_done, at,
}
use runv.Resources.Disks.{
  Volume, Disk, Outcome, broken, other, completed, volume_is_dir, volume_is_nas,
}
use runv.Resources.Methods.{
  new_disk, all_done, failed, inserted, insert_ends, insert_lands, remove_ends,
}
use runv.Resources.Containers.{add_container, remove_container, add_ends, all_ready, is_ready}
use runv.Resources.Volumes.{register_volume, add_volume, drop_volume, remove_volume}
use runv.Resources.Moves.{
  Move, step, run, volume_added, volume_removed, container_removed, container_added, state_changed,
  insert_answered, remove_answered, disk_landed, group_passed, locking, pass, answer_insert, land,
  answer_remove,
}

-- A request keeps the lock, and what the lock guards is as it was.
pub record IsStuck (s t : Sandbox) : Type 0 where
  stalled : t.stalled ≡ true
  volumes : t.volumes ≡ s.volumes
  containers : t.containers ≡ s.containers
  running : t.running ≡ s.running

module _ (s : Sandbox) where
  same-IsStuck :
      (t u : Sandbox)
      → u.stalled ≡ t.stalled
      → u.volumes ≡ t.volumes
      → u.containers ≡ t.containers
      → u.running ≡ t.running
      → IsStuck s t
      → IsStuck s u
  same-IsStuck t u a b c d h = record {
    stalled = a ∙ h.stalled;
    volumes = b ∙ h.volumes;
    containers = c ∙ h.containers;
    running = d ∙ h.running;
  }

  all_done-IsStuck :
      (obs : List (String × ℕ)) (t : Sandbox) → IsStuck s t → IsStuck s (all_done obs t)
  unfolding all_done group_done
  all_done-IsStuck [] t h = h
  all_done-IsStuck ((id, g) ∷ obs) t h = all_done-IsStuck obs (group_done g t) (
      if_cases (IsStuck s) (ltb 0 (t.groups g)) _ _ (λ y. same-IsStuck t _ refl refl refl refl h)
        (λ n. same-IsStuck t _ refl refl refl refl h))

  failed-IsStuck : (p : ℕ) (d : Disk) (t : Sandbox) → IsStuck s t → IsStuck s (failed p d t)
  unfolding failed set_disk
  failed-IsStuck p d t h = all_done-IsStuck d.observers _ (same-IsStuck t _ refl refl refl refl h)

  inserted-IsStuck : (p : ℕ) (d : Disk) (t : Sandbox) → IsStuck s t → IsStuck s (inserted p d t)
  unfolding inserted set_disk
  inserted-IsStuck p d t h = all_done-IsStuck d.observers _ (same-IsStuck t _ refl refl refl refl h)

  reply-IsStuck : (r : Result) (t : Sandbox) → IsStuck s t → IsStuck s (reply r t)
  unfolding reply
  reply-IsStuck r t h = same-IsStuck t _ refl refl refl refl h

  reply_to-IsStuck :
      (b : Bool) (r : Result) (t : Sandbox) → IsStuck s t → IsStuck s (reply_to b r t)
  unfolding reply_to
  reply_to-IsStuck true r t h = reply-IsStuck r t h
  reply_to-IsStuck false r t h = h

  set_disk-IsStuck : (p : ℕ) (d : Disk) (t : Sandbox) → IsStuck s t → IsStuck s (set_disk p d t)
  unfolding set_disk
  set_disk-IsStuck p d t h = same-IsStuck t _ refl refl refl refl h

  insert_ends-IsStuck :
      (p : ℕ) (o : Outcome) (d : Disk) (t : Sandbox) → IsStuck s t → IsStuck s (insert_ends p o d t)
  unfolding insert_ends
  insert_ends-IsStuck p broken d t h =
      reply_to-IsStuck d.reports _ _ (failed-IsStuck p (record d { inserting = false }) t h)
  insert_ends-IsStuck p other d t h =
      reply_to-IsStuck d.reports _ _ (failed-IsStuck p (record d { inserting = false }) t h)
  insert_ends-IsStuck p (completed device addr) d t h = reply_to-IsStuck d.reports _ _ (
      set_disk-IsStuck p
        (record d {
          descriptor = record (d.descriptor) { device_name = device; scsi_addr = addr };
          landed = true;
        })
        t h)

  remove_ends-IsStuck :
      (p : ℕ) (o : Outcome) (d : Disk) (t : Sandbox) → IsStuck s t → IsStuck s (remove_ends p o d t)
  unfolding remove_ends
  remove_ends-IsStuck p broken d t h =
      reply-IsStuck _ _ (failed-IsStuck p (record d { removing = false }) t h)
  remove_ends-IsStuck p other d t h =
      reply-IsStuck _ _ (failed-IsStuck p (record d { removing = false }) t h)
  remove_ends-IsStuck p (completed device addr) d t h =
      reply-IsStuck _ _ (set_disk-IsStuck p (record d { removing = false }) t h)

  add_ends-IsStuck : (c : Container) (t : Sandbox) → IsStuck s t → IsStuck s (add_ends c t)
  unfolding add_ends
  add_ends-IsStuck c t h =
      if_cases (IsStuck s) (all_ready t c.description.volumes) _ _
        (λ y.
          if_cases (IsStuck s) (is_ready t c.root) _ _ (λ z. reply-IsStuck _ t h)
            (λ n. reply-IsStuck _ t h))
        (λ n. reply-IsStuck _ t h)

  at-IsStuck :
      (p : ℕ) (f : Disk → Sandbox → Sandbox) (t : Sandbox)
      → IsStuck s t
      → ((d : Disk) → IsStuck s (f d t))
      → IsStuck s (at p f t)
  at-IsStuck p f t h g =
      option_cases (IsStuck s) (get_elem? t.disks p) t (λ d. f d t) (λ n. h) (λ d e. g d)

  locking-IsStuck : (f : Sandbox → Sandbox) (t : Sandbox) → IsStuck s t → IsStuck s (locking f t)
  locking-IsStuck f t h =
      if_cases (IsStuck s) t.stalled t (f t) (λ y. h) (λ n. let w = h.stalled in cc)

  pass-IsStuck : (o : Option Adding) (n : ℕ) (t : Sandbox) → IsStuck s t → IsStuck s (pass o n t)
  pass-IsStuck none n t h = h
  pass-IsStuck (some a) n t h =
      if_cases (IsStuck s) (t.groups a.group == 0) _ t
        (λ y. add_ends-IsStuck a.container _ (same-IsStuck t _ refl refl refl refl h)) (λ z. h)

  step-IsStuck :
      (clean : String → String) (t : Sandbox) (m : Move) → IsStuck s t → IsStuck s (step clean t m)
  unfolding step answer_insert land answer_remove insert_lands
  step-IsStuck clean t (volume_added vol) h = locking-IsStuck (add_volume vol) t h
  step-IsStuck clean t (volume_removed name) h = locking-IsStuck (remove_volume name) t h
  step-IsStuck clean t (container_added c) h = locking-IsStuck (add_container clean c) t h
  step-IsStuck clean t (container_removed id) h = locking-IsStuck (remove_container id) t h
  step-IsStuck clean t (state_changed b) h = locking-IsStuck (λ u. record u { running = b }) t h
  step-IsStuck clean t (insert_answered p o) h =
      at-IsStuck p (answer_insert p o) t h
        (λ d. if_cases (IsStuck s) _ _ t (λ y. insert_ends-IsStuck p o d t h) (λ n. h))
  step-IsStuck clean t (disk_landed p) h = at-IsStuck p (land p) t h (λ d.
      if_cases (IsStuck s) _ _ t
        (λ y. inserted-IsStuck p (record d { inserting = false; landed = false }) t h) (λ n. h))
  step-IsStuck clean t (remove_answered p o) h =
      at-IsStuck p (answer_remove p o) t h
        (λ d. if_cases (IsStuck s) _ _ t (λ y. remove_ends-IsStuck p o d t h) (λ n. h))
  step-IsStuck clean t (group_passed n) h = pass-IsStuck (get_elem? t.adding n) n t h

  pub run-IsStuck :
      (clean : String → String) (ms : List Move) (t : Sandbox)
      → IsStuck s t
      → IsStuck s (run clean t ms)
  unfolding run
  run-IsStuck clean [] t h = h
  run-IsStuck clean (m ∷ ms) t h = run-IsStuck clean ms (step clean t m) (step-IsStuck clean t m h)

-- When a volume is added that a sandbox which is not running has already, or one that needs no disk,
-- then AddVolume never returns: the channel holds the error that the sandbox is not ready, and the
-- second send blocks. After every later history the request keeps the lock of the context, so that
-- the sandbox has the same volumes and containers and is still not running.
pub add_volume-stalls :
    (clean : String → String) (vol : Volume) (s : Sandbox) (later : List Move)
    → s.running ≡ false
    → (has_key vol.name s.volumes ≡ true) ⊎ ((volume_is_dir vol || volume_is_nas vol) ≡ true)
    → let t = add_volume vol s in
      (t.results ≡ not_ready_error s.id ∷ s.results) × IsStuck s t × IsStuck s (run clean t later)
unfolding add_volume register_volume reply answer new_disk
add_volume-stalls clean vol s later h k =
    let s' : Sandbox = record s { results = not_ready_error s.id ∷ s.results } in
    let P : Sandbox → Type 0 = λ t. (t.results ≡ s'.results) × IsStuck s t in
    let stuck : P (register_volume true vol s') =
      if_cases P (has_key vol.name s.volumes) _ _
        (λ y. (refl, record { stalled = refl; volumes = refl; containers = refl; running = refl }))
        (λ n.
          if_cases P (volume_is_dir vol || volume_is_nas vol) _ _
            (λ y.
              (refl, record { stalled = refl; volumes = refl; containers = refl; running = refl }))
            (λ m. elim k [ inl y ↦ cc | inr y ↦ cc ])) in
    let start : add_volume vol s ≡ register_volume true vol s' =
      ap (λ b. register_volume (not b) vol (if b then s else s')) h in
    let (r, w) = subst P (sym start) stuck in (r, w, run-IsStuck s clean later (add_volume vol s) w)

drop_in_use :
    (full : Bool) (name : String) (p : ℕ) (d : Disk) (s : Sandbox)
    → lookup name s.volumes ≡ some p
    → get_elem? s.disks p ≡ some d
    → 0 < length d.observers
    → drop_volume full name s ≡ answer full (result_base name false "in use") s
unfolding drop_volume
drop_in_use full name p d s e f l =
    let full_list : ltb 0 (length d.observers) ≡ true = ground arith in
    rw (e, f, full_list, drop_volume) refl

-- A volume whose disk a container observes is kept by RemoveVolume, with its disk. In a running
-- sandbox the caller is told that it is in use. In one that is not running the channel holds the
-- message that says so, the second send blocks, and the request keeps the lock for ever.
pub remove_volume-in_use :
    (clean : String → String) (name : String) (p : ℕ) (d : Disk) (s : Sandbox) (later : List Move)
    → lookup name s.volumes ≡ some p
    → get_elem? s.disks p ≡ some d
    → 0 < length d.observers
    → let t = remove_volume name s in
      (t.volumes ≡ s.volumes)
      × (t.disks ≡ s.disks)
      × (s.running ≡ true → t.results ≡ result_base name false "in use" ∷ s.results)
      × (s.running ≡ false
          → (t.results ≡ result_base name true "pod not running" ∷ s.results)
            × IsStuck s (run clean t later))
unfolding remove_volume reply answer
remove_volume-in_use clean name p d s later e f l =
    let told : Sandbox = record s {
      results = result_base name true "pod not running" ∷ s.results;
    } in
    let P : Sandbox → Type 0 = λ t.
      (t.volumes ≡ s.volumes)
      × (t.disks ≡ s.disks)
      × (s.running ≡ true → t.results ≡ result_base name false "in use" ∷ s.results)
      × (s.running ≡ false
          → (t.results ≡ result_base name true "pod not running" ∷ s.results)
            × IsStuck s (run clean t later)) in
    elim (Bool-cases s.running) [
      | inl y ↦
          subst P
            (sym (
              ap (λ b. drop_volume (not b) name (if b then s else told)) y
              ∙ drop_in_use false name p d s e f l))
            (refl, refl, λ _. refl, λ n. cc)
      | inr n ↦
          let t : Sandbox = record told { stalled = true } in
          subst P
            (sym (
              ap (λ b. drop_volume (not b) name (if b then s else told)) n
              ∙ drop_in_use true name p d told e f l))
            (
              refl,
              refl,
              λ y. cc,
              λ _. (
                refl,
                run-IsStuck s clean later t
                    (record { stalled = refl; volumes = refl; containers = refl; running = refl }),
              ),
            )
    ]
