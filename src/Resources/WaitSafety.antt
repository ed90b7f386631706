-- ===== src/Resources/WaitSafety.antt =====
-- The waits of AddContainer and the unwaits of RemoveContainer and the counters of a sandbox's
-- WaitGroups (hypervisor/context.go, hypervisor/disk.go).
use Prim.Native.String.{String}
use runv.Prelude.{
  ℕ, ◌+◌, ◌<◌, ◌≡◌, refl, ap, sym, ◌∙◌, some, List, [], ◌∷◌, get_elem?, length, insert, lookup,
  string_eq, arith, Option-cases, inl, inr, length-set,
}
use runv.Resources.Disks.{Disk}
use runv.Resources.State.{Sandbox, update, at}
use runv.Resources.Methods.{wait_disk, wait, unwait}
use runv.Resources.Safety.{IsValid, at-IsValid}
use runv.Resources.DiskSafety.{wait_disk-IsValid, unwait-IsValid}
use runv.Resources.Containers.{wait_volumes, unwait_volumes}

module _ (k : ℕ → ℕ) where
  -- Every disk that AddContainer waits for under a volume's name is there and is kept.
  pub wait_volume-IsValid :
      (p : ℕ) (vn id : String) (g : ℕ) (s : Sandbox)
      → lookup vn s.volumes ≡ some p
      → g < s.next_group
      → IsValid k s
      → IsValid k (wait p id g s)
  unfolding wait
  wait_volume-IsValid p vn id g s e l v =
      let (d, a, b, c, f) = v.held vn p e in
      at-IsValid k p (wait_disk p id g) s
        (λ x h.
          let same : d ≡ x = cc in
          wait_disk-IsValid k p id g x s h l (sym (ap (λ (y : Disk). y.removing) same) ∙ c)
            (sym (ap (λ (y : Disk). y.is_root_vol) same) ∙ f) v)
        v

  -- What `wait` leaves alone.
  pub record Alike (s t : Sandbox) : Type 0 where
    pub same_volumes : t.volumes ≡ s.volumes
    pub same_next : t.next_group ≡ s.next_group
    pub same_containers : t.containers ≡ s.containers
    pub same_length : length t.disks ≡ length s.disks

  pub Alike-refl : (s : Sandbox) → Alike s s
  Alike-refl s = record {
    same_volumes = refl;
    same_next = refl;
    same_containers = refl;
    same_length = refl;
  }

  pub Alike-trans : (s t u : Sandbox) → Alike s t → Alike t u → Alike s u
  Alike-trans s t u a b = record {
    same_volumes = b.same_volumes ∙ a.same_volumes;
    same_next = b.same_next ∙ a.same_next;
    same_containers = b.same_containers ∙ a.same_containers;
    same_length = b.same_length ∙ a.same_length;
  }

  wait_disk-Alike :
      (p : ℕ) (id : String) (g : ℕ) (d : Disk) (s : Sandbox) → Alike s (wait_disk p id g d s)
  unfolding wait_disk
  wait_disk-Alike p id g d s =
      ground (arith, length-set s.disks p (record d { observers = insert id g d.observers }))

  pub wait-Alike : (p : ℕ) (id : String) (g : ℕ) (s : Sandbox) → Alike s (wait p id g s)
  unfolding wait
  wait-Alike p id g s = elim (Option-cases (get_elem? s.disks p)) [
    | inl e ↦
        rw (e, wait, at)
          (record {
            same_volumes = refl;
            same_next = refl;
            same_containers = refl;
            same_length = refl;
          })
    | inr (d, e) ↦ rw (e, wait, at) (wait_disk-Alike p id g d s)
  ]

  -- The names that are waited for need not be volumes: then the loop stops early.
  pub wait_volumes-IsValid :
      (id : String) (g : ℕ) (vs : List (String × List String)) (added : List String) (s : Sandbox)
      → g < s.next_group
      → IsValid k s
      → IsValid k (wait_volumes id g vs added s).0 × Alike s (wait_volumes id g vs added s).0
  unfolding wait_volumes
  wait_volumes-IsValid id g [] added s l v = (v, Alike-refl s)
  wait_volumes-IsValid id g ((vn, paths) ∷ vs) added s l v =
      elim (Option-cases (lookup vn s.volumes)) [
        | inl e ↦ rw (e, wait_volumes) (v, Alike-refl s)
        | inr (p, e) ↦
            let a = wait-Alike p id g s in
            let (w, b) =
              wait_volumes-IsValid id g vs (vn ∷ added) (wait p id g s) (omega (arith, a.same_next))
                (wait_volume-IsValid p vn id g s e l v) in
            rw (e, wait_volumes) (w, Alike-trans s _ _ a b)
      ]

  pub unwait_volumes-IsValid :
      (id : String) (vns : List String) (s : Sandbox)
      → IsValid k s
      → IsValid k (unwait_volumes id vns s)
  unfolding unwait_volumes
  unwait_volumes-IsValid id [] s v = v
  unwait_volumes-IsValid id (vn ∷ vns) s v = elim (Option-cases (lookup vn s.volumes)) [
    | inl e ↦ rw (e, unwait_volumes) (unwait_volumes-IsValid id vns s v)
    | inr (p, e) ↦
        rw (e, unwait_volumes)
          (unwait_volumes-IsValid id vns (unwait p id s) (unwait-IsValid k p id s v))
  ]

  -- A new WaitGroup owes nothing and is owed nothing.
  pub new_group-IsValid :
      (s : Sandbox)
      → IsValid k s
      → IsValid k
          (record s { next_group = s.next_group + 1; groups = update s.groups s.next_group 0 })
  new_group-IsValid s v = record {
    enough = λ j. unfold update in ground (arith, v.enough j, v.fresh j);
    fresh = λ j l. v.fresh j (omega arith);
    sound = v.sound;
    held = v.held;
    rooted = v.rooted;
    calm = v.calm;
  }
