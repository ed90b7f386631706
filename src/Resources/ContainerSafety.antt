-- ===== src/Resources/ContainerSafety.antt =====
-- AddContainer and RemoveContainer and the counters of a sandbox's WaitGroups
-- (hypervisor/context.go).
use Prim.Native.String.{String}
use runv.Prelude.{
  Bool, get_elem?-snoc, get_elem?_bound, ℕ, ◌+◌, ◌<◌, ◌≡◌, refl, ap, sym, ◌∙◌, true, false, some,
  List, [], ◌∷◌, get_elem?, set, length, insert, delete, lookup, has_key, string_eq, ◌=?◌, arith,
  if_cases, Bool-cases, Option-cases, inl, inr, lookup-insert, lookup-delete, delete_absent,
  get_elem?-set_self, ◌≢◌, subst, length-set,
}
use runv.Resources.Disks.{Disk}
use runv.Resources.State.{Sandbox, reply_to, update, set_disk, at}
use runv.Resources.Methods.{wait_disk, wait, unwait, insert_disk, remove_disk, new_disk}
use runv.Resources.Safety.{Rooted, IsValid}
use runv.Resources.DiskSafety.{answer-IsValid, wait_root-IsValid, unwait-IsValid, reply-IsValid}
use runv.Resources.Disks.{new_disk_context}
use runv.Resources.State.{Description, Container, Adding}
use runv.Resources.Containers.{
  wait_volumes, unwait_volumes, start_adding, admit_container, remove_container, names,
}
use runv.Resources.VolumeSafety.{IsNew, new_disk-IsValid, insert_disk-IsValid, remove_disk-IsValid}
use runv.Resources.WaitSafety.{
  Alike, Alike-refl, Alike-trans, wait_volumes-IsValid, unwait_volumes-IsValid, new_group-IsValid,
}

module _ (k : ℕ → ℕ) where
  record Inserts (p : ℕ) (d : Disk) (s t : Sandbox) : Type 0 where
    disk : Disk
    there : get_elem? t.disks p ≡ some disk
    kept : disk.removing ≡ d.removing
    same_kind : disk.is_root_vol ≡ d.is_root_vol
    unseen : disk.observers ≡ d.observers
    alike : Alike k s t

  insert_disk-Inserts :
      (p : ℕ) (d : Disk) (s : Sandbox)
      → get_elem? s.disks p ≡ some d
      → Inserts p d s (insert_disk p false d s)
  unfolding insert_disk set_disk reply_to
  insert_disk-Inserts p d s e =
      if_cases (Inserts p d s) d.ready _ _
        (λ h. record {
          disk = d;
          there = e;
          kept = refl;
          same_kind = refl;
          unseen = refl;
          alike = Alike-refl k s;
        })
        (λ h. record {
          disk = record d {
            descriptor = record (d.descriptor) { scsi_id = s.scsi_id };
            inserting = true;
            landed = false;
            reports = false;
          };
          there = get_elem?-set_self s.disks p _ (get_elem?_bound s.disks p e);
          kept = refl;
          same_kind = refl;
          unseen = refl;
          alike = record {
            same_volumes = refl;
            same_next = refl;
            same_containers = refl;
            same_length = length-set s.disks p _;
          };
        })

  wait_root-Rooted :
      (p : ℕ) (id : String) (g : ℕ) (d : Disk) (s : Sandbox)
      → get_elem? s.disks p ≡ some d
      → d.is_root_vol ≡ true
      → d.observers ≡ []
      → Rooted id p (wait_disk p id g d s).disks
  unfolding wait_disk has_key
  wait_root-Rooted p id g d s e r o =
      let d' : Disk = record d { observers = insert id g d.observers } in
      let alone : delete id (insert id g d.observers) ≡ [] =
        rw o (unfold insert delete in ground (arith, string_eq.same_iff id id)) in
      let done : Rooted id p (set s.disks p d') =
        (d', get_elem?-set_self s.disks p d' (get_elem?_bound s.disks p e), r, alone) in
      if_cases {A = Sandbox} (λ t. Rooted id p t.disks) (has_key id d.observers) _ _
        (λ h. cc (sym (ap (has_key id) o) ∙ h))
        (λ h. if_cases {A = Sandbox} (λ t. Rooted id p t.disks) d.ready _ _ (λ y. done) (λ n. done))

  wait_new-IsValid :
      (p : ℕ) (id : String) (g : ℕ) (d : Disk) (s : Sandbox)
      → get_elem? s.disks p ≡ some d
      → g < s.next_group
      → d.removing ≡ false
      → d.is_root_vol ≡ true
      → d.observers ≡ []
      → ((j : String) (c : Container)
          → lookup j s.containers ≡ some c
          → (p ≢ c.root) × Rooted j c.root s.disks)
      → IsValid k s
      → IsValid k (wait p id g s) × Rooted id p (wait p id g s).disks
  unfolding wait
  wait_new-IsValid p id g d s e l r t o u v =
      rw (e, wait, at) (wait_root-IsValid k p id g d s e l r u v, wait_root-Rooted p id g d s e t o)

  -- A container is entered whose root disk only it observes.
  enter-IsValid :
      (id : String) (entry : Container) (later : List Adding) (s : Sandbox)
      → Rooted id entry.root s.disks
      → IsValid k s
      → IsValid k (record s { containers = insert id entry s.containers; adding = later })
  enter-IsValid id entry later s r v = record {
    enough = v.enough;
    fresh = v.fresh;
    sound = v.sound;
    held = v.held;
    rooted = λ j c e. elim (Bool-cases (id =? j)) [
      | inl t ↦
          let a : id ≡ j = (string_eq.same_iff id j).0 t in
          let b : entry ≡ c = ground (arith, e, lookup-insert id j entry s.containers, t) in
          subst (λ i. Rooted i c.root s.disks) a
            (subst (λ (x : Container). Rooted id x.root s.disks) b r)
      | inr f ↦ v.rooted j c (ground (arith, e, lookup-insert id j entry s.containers, f))
    ];
    calm = v.calm;
  }

  pub start_adding-IsValid :
      (c : Description) (g : ℕ) (s : Sandbox)
      → g < s.next_group
      → IsValid k s
      → IsValid k (start_adding c g s)
  unfolding start_adding
  start_adding-IsValid c g s l v =
      let p = length s.disks in
      let root : Disk = record (new_disk_context c.root_volume) { is_root_vol = true } in
      let n : IsNew root = record { idle = refl; kept = refl; unseen = refl } in
      let s₁ = new_disk root s in
      let s₂ = insert_disk p false root s₁ in
      let there : get_elem? s₁.disks p ≡ some root = get_elem?-snoc s.disks root in
      let v₂ = insert_disk-IsValid k p false root s₁ there n (new_disk-IsValid k root s n v) in
      let i = insert_disk-Inserts p root s₁ there in
      let others : (j : String) (x : Container)
          → lookup j s₂.containers ≡ some x
          → (p ≢ x.root) × Rooted j x.root s₂.disks =
        λ j x e.
          let f : lookup j s.containers ≡ some x =
            sym (ap (lookup j) i.alike.same_containers) ∙ e in
          let (y, a, b, o) = v.rooted j x f in
          let far : p ≢ x.root = λ q. omega (arith, get_elem?_bound s.disks x.root a, q) in
          (far, v₂.rooted j x e) in
      let (v₃, r) =
        wait_new-IsValid p c.id g i.disk s₂ i.there (omega (arith, i.alike.same_next)) i.kept
          i.same_kind i.unseen others v₂ in
      enter-IsValid c.id (record { description = c; root = p }) _ (wait p c.id g s₂) r v₃

  pub admit_container-IsValid :
      (full : Bool) (c : Description) (s : Sandbox)
      → IsValid k s
      → IsValid k (admit_container full c s)
  unfolding admit_container
  admit_container-IsValid full c s v =
      let g = s.next_group in
      let s₀ = record s { next_group = g + 1; groups = update s.groups g 0 } in
      let r = wait_volumes c.id g c.volumes [] s₀ in
      let (w, a) =
        wait_volumes-IsValid k c.id g c.volumes [] s₀ (omega arith) (new_group-IsValid k s v) in
      elim (Option-cases r.2) [
        | inl e ↦
            rw (e, admit_container) (start_adding-IsValid c g r.0 (omega (arith, a.same_next)) w)
        | inr (vn, e) ↦
            rw (e, admit_container)
              (answer-IsValid k full _ _ (unwait_volumes-IsValid k c.id r.1 r.0 w))
      ]

  unwait-Alike : (p : ℕ) (id : String) (s : Sandbox) → Alike k s (unwait p id s)
  unfolding unwait set_disk
  unwait-Alike p id s = elim (Option-cases (get_elem? s.disks p)) [
    | inl e ↦ rw (e, unwait, at) (Alike-refl k s)
    | inr (d, e) ↦
        rw (e, unwait, at)
          (if_cases (Alike k s) (has_key id d.observers) _ _
            (λ h. record {
              same_volumes = refl;
              same_next = refl;
              same_containers = refl;
              same_length = length-set s.disks p _;
            })
            (λ h. Alike-refl k s))
  ]

  unwait_volumes-Alike :
      (id : String) (vns : List String) (s : Sandbox) → Alike k s (unwait_volumes id vns s)
  unfolding unwait_volumes
  unwait_volumes-Alike id [] s = Alike-refl k s
  unwait_volumes-Alike id (vn ∷ vns) s = elim (Option-cases (lookup vn s.volumes)) [
    | inl e ↦ rw (e, unwait_volumes) (unwait_volumes-Alike id vns s)
    | inr (p, e) ↦
        rw (e, unwait_volumes)
          (Alike-trans k s (unwait p id s) _ (unwait-Alike p id s)
            (unwait_volumes-Alike id vns (unwait p id s)))
  ]

  -- Nobody is left at the root disk of a container that gives it up.
  abbrev Abandoned : ℕ → List Disk → Type 0
  Abandoned p ds =
      (d : Disk) × (get_elem? ds p ≡ some d) × (d.is_root_vol ≡ true) × (d.observers ≡ [])

  unwait-Abandoned :
      (p : ℕ) (id : String) (s : Sandbox) → Rooted id p s.disks → Abandoned p (unwait p id s).disks
  unfolding unwait set_disk
  unwait-Abandoned p id s (d, e, r, o) =
      rw (e, unwait, at)
        (if_cases {A = Sandbox} (λ t. Abandoned p t.disks) (has_key id d.observers) _ _
          (λ h. (
            record d { observers = delete id d.observers },
            get_elem?-set_self s.disks p _ (get_elem?_bound s.disks p e),
            r,
            o,
          ))
          (λ h. (d, e, r, sym (delete_absent id d.observers h) ∙ o)))

  leave-IsValid :
      (id : String) (s : Sandbox)
      → IsValid k s
      → IsValid k (record s { containers = delete id s.containers })
  leave-IsValid id s v = record {
    enough = v.enough;
    fresh = v.fresh;
    sound = v.sound;
    held = v.held;
    rooted = λ j c e. v.rooted j c (ground (arith, e, lookup-delete id j s.containers));
    calm = v.calm;
  }

  remove_root-IsValid :
      (p : ℕ) (s : Sandbox)
      → Abandoned p s.disks
      → IsValid k s
      → IsValid k (at p (remove_disk false p) s)
  remove_root-IsValid p s (d, e, r, o) v =
      rw (e, at)
        (remove_disk-IsValid k false p d s e o
          (λ m h.
            let (x, a, b, c, f) = v.held m p h in
            let same : d ≡ x = cc in cc (sym r ∙ ap (λ (y : Disk). y.is_root_vol) same ∙ f))
          v)

  pub remove_container-IsValid :
      (id : String) (s : Sandbox) → IsValid k s → IsValid k (remove_container id s)
  unfolding remove_container
  remove_container-IsValid id s v =
      if_cases (IsValid k) s.running _ _
        (λ h. elim (Option-cases (lookup id s.containers)) [
          | inl e ↦ rw e (reply-IsValid k _ s v)
          | inr (c, e) ↦
              let s₁ = unwait_volumes id (names c.description.volumes) s in
              let v₁ = unwait_volumes-IsValid k id (names c.description.volumes) s v in
              let a = unwait_volumes-Alike id (names c.description.volumes) s in
              let r = v₁.rooted id c (ap (lookup id) a.same_containers ∙ e) in
              let s₂ = unwait c.root id s₁ in
              rw e (
                remove_root-IsValid c.root (record s₂ { containers = delete id s₂.containers })
                  (unwait-Abandoned c.root id s₁ r)
                  (leave-IsValid id s₂ (unwait-IsValid k c.root id s₁ v₁)))
        ])
        (λ h. reply-IsValid k _ s v)
