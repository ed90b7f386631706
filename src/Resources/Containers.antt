-- ===== src/Resources/Containers.antt =====
-- AddContainer and RemoveContainer of hypervisor/context.go, and ContainerContext.add of
-- hypervisor/container.go.
use Prim.Native.String.{String, ◌++◌ as concat}
use text.Mathlib.Text.{◌==◌ as str_eq}
use runv.Resources.Disks.{new_disk_context}
use runv.Resources.State.{
  result_base, not_ready_error, spec_error, Description, Container, Sandbox, reply, answer, update,
  at,
}
use runv.Resources.Methods.{wait, unwait, insert_disk, remove_disk, new_disk}
use runv.Prelude.{
  ℕ, ◌+◌, Bool, true, false, ◌&&◌, ◌||◌, not, Option, none, some, List, [], ◌∷◌, if◌then◌else◌,
  get_elem?, length, lookup, insert, delete, has_key, map, string_eq,
}

-- The mount points of a volume: `clean` is filepath.Clean.
abbrev pub mounts_root : (String → String) → List String → Bool
mounts_root clean [] = false
mounts_root clean (path ∷ ps) = str_eq (clean path) "/" || mounts_root clean ps

unfoldable pub validate_volumes :
    (String → String) → List (String × ℕ) → List (String × List String) → Option String
validate_volumes clean volumes [] = none
validate_volumes clean volumes ((vn, paths) ∷ vs) =
    if has_key vn volumes
    then if mounts_root clean paths
      then some (concat (concat "mounting volume " vn) " to rootfs is forbidden")
      else validate_volumes clean volumes vs
    else some (concat (concat "volume " vn) " does not exist in volume map")

-- The loop of AddContainer over the volumes: the sandbox and `added` when it is through, or the
-- sandbox, `added` and the name of a volume that is not there.
unfoldable pub wait_volumes :
    String
    → ℕ
    → List (String × List String)
    → List String
    → Sandbox
    → Sandbox × List String × Option String
unfolding wait
wait_volumes id g [] added s = (s, added, none)
wait_volumes id g ((vn, paths) ∷ vs) added s = elim (lookup vn s.volumes) [
  | none ↦ (s, added, some vn)
  | some p ↦ wait_volumes id g vs (vn ∷ added) (wait p id g s)
]

-- `rollback`, and the loop of RemoveContainer: names that are not volumes are passed over.
unfoldable pub unwait_volumes : String → List String → Sandbox → Sandbox
unfolding unwait
unwait_volumes id [] s = s
unwait_volumes id (vn ∷ vns) s = elim (lookup vn s.volumes) [
  | none ↦ unwait_volumes id vns s
  | some p ↦ unwait_volumes id vns (unwait p id s)
]

-- From `cc.root = NewDiskContext(…)` on.
unfoldable pub start_adding : Description → ℕ → Sandbox → Sandbox
unfolding new_disk new_disk_context insert_disk wait
start_adding c g s =
    let p = length s.disks in
    let root = record (new_disk_context c.root_volume) { is_root_vol = true } in
    let s' = wait p c.id g (insert_disk p false root (new_disk root s)) in
    let entry : Container = record { description = c; root = p } in
    record s' {
      containers = insert c.id entry s'.containers;
      adding = record { container = entry; group = g } ∷ s'.adding;
    }

unfoldable pub admit_container : Bool → Description → Sandbox → Sandbox
unfolding answer wait_volumes unwait_volumes start_adding
admit_container full c s =
    let g = s.next_group in
    let (s', added, missing) =
      wait_volumes c.id g c.volumes []
        (record s { next_group = g + 1; groups = update s.groups g 0 }) in
    elim missing [
      | none ↦ start_adding c g s'
      | some vn ↦
          answer full
            (spec_error c.id (concat (concat "volume " vn) " does not exist in volume map"))
            (unwait_volumes c.id added s')
    ]

-- `clean` is filepath.Clean.
module _ (clean : String → String) where
  -- AddContainer after its test of the state.
  unfoldable pub register_container : Bool → Description → Sandbox → Sandbox
  unfolding answer admit_container validate_volumes
  register_container full c s =
      if has_key c.id s.containers
      then answer full (spec_error c.id (concat "duplicate container " c.name)) s
      else elim (validate_volumes clean s.volumes c.volumes) [
        | some cause ↦ answer full (spec_error c.id cause) s
        | none ↦ admit_container full c s
      ]

  -- The test does not return.
  unfoldable pub add_container : Description → Sandbox → Sandbox
  unfolding reply register_container
  add_container c s =
      register_container (not s.running) c (if s.running then s else reply (not_ready_error s.id) s)

abbrev pub names {ℓ} : {V : Type ℓ} → List (String × V) → List String
names = map λ e. e.0

unfoldable pub remove_container : String → Sandbox → Sandbox
unfolding reply unwait_volumes unwait remove_disk
remove_container id s =
    if s.running
    then elim (lookup id s.containers) [
      | none ↦ reply (result_base id true "not exist") s
      | some found ↦
          let s₁ = unwait found.root id (unwait_volumes id (names found.description.volumes) s) in
          at found.root (remove_disk false found.root)
            (record s₁ { containers = delete id s₁.containers })
    ]
    else reply (result_base id true "pod not running") s

abbrev pub is_ready : Sandbox → ℕ → Bool
is_ready s p = elim (get_elem? s.disks p) [ none ↦ false | some d ↦ d.ready ]

unfoldable pub all_ready : Sandbox → List (String × List String) → Bool
all_ready s [] = true
all_ready s ((vn, paths) ∷ vs) = elim (lookup vn s.volumes) [
  | none ↦ false
  | some p ↦ is_ready s p && all_ready s vs
]

-- The rest of ContainerContext.add, from its Wait on.
unfoldable pub add_ends : Container → Sandbox → Sandbox
unfolding reply all_ready
add_ends entry s =
    let id = entry.description.id in
    if all_ready s entry.description.volumes
    then if is_ready s entry.root
      then reply (result_base id true "") s
      else reply (result_base id false "root volume insert failed") s
    else reply (result_base id false "volume failed") s
