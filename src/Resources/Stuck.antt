-- ===== src/Resources/Stuck.antt =====
-- Containers on a volume whose disk failed (hypervisor/disk.go, hypervisor/context.go).
use Prim.Native.String.{String}
use runv.Prelude.{
  not, ℕ, ◌+◌, ◌<◌, ◌≡◌, refl, ap, sym, ◌∙◌, true, false, none, some, List, [], ◌∷◌, if◌then◌else◌,
  get_elem?, length, insert, lookup, has_key, ◌==◌, string_eq, ◌=?◌, arith, if_cases, Bool-cases,
  Option-cases, inl, inr, get_elem?-set_ne, ℕ_discrete, ◌≢◌, subst,
}
use runv.Resources.Disks.{Disk}
use runv.Resources.State.{Description, Adding, Sandbox, update, at, reply, not_ready_error}
use runv.Resources.Methods.{wait_disk, wait}
use runv.Resources.Containers.{
  validate_volumes, wait_volumes, start_adding, admit_container, register_container, add_container,
}
use runv.Resources.Moves.{Move, run, new_sandbox}
use runv.Resources.Safety.{IsSound, IsValid, adjust}
use runv.Resources.WaitSafety.{
  wait-Alike, wait_volume-IsValid, wait_volumes-IsValid, new_group-IsValid,
}
use runv.Resources.ContainerSafety.{start_adding-IsValid}
use runv.Resources.Histories.{run-IsValid, new_sandbox-IsValid}

-- The disk of a volume whose insertion is over without success.
pub record IsFailed (p : ℕ) (d : Disk) (id : String) (s : Sandbox) : Type 0 where
  pub there : get_elem? s.disks p ≡ some d
  pub unready : d.ready ≡ false
  pub idle : d.inserting ≡ false
  pub kept : d.removing ≡ false
  pub no_root : d.is_root_vol ≡ false
  pub unseen : has_key id d.observers ≡ false

abbrev pub more : (ℕ → ℕ) → ℕ → ℕ → ℕ
more k g j = k j + (if g == j then 1 else 0)

module _ (k : ℕ → ℕ) (id : String) (g : ℕ) where
  spare-IsValid :
      (s : Sandbox)
      → g < s.next_group
      → IsValid k s
      → IsValid (more k g) (record s { groups = update s.groups g (s.groups g + 1) })
  spare-IsValid s l v = record {
    enough = λ j. unfold update in ground (arith, v.enough j);
    fresh = λ j h. ground (arith, v.fresh j h);
    sound = v.sound;
    held = v.held;
    rooted = v.rooted;
    calm = v.calm;
  }

  wait_failed-IsValid :
      (p : ℕ) (d : Disk) (s : Sandbox)
      → IsFailed p d id s
      → g < s.next_group
      → IsValid k s
      → IsValid (more k g) (wait p id g s)
  unfolding wait wait_disk
  wait_failed-IsValid p d s f l v =
      let s' = record s { groups = update s.groups g (s.groups g + 1) } in
      let d' : Disk = record d { observers = insert id g d.observers } in
      let i : IsSound d' = record { unready = λ t. f.unready; unobserved = λ t. cc (f.kept) } in
      let w =
        adjust (more k g) s' p d d' s'.groups f.there i refl refl (λ t. inl t) (λ t. cc (f.no_root))
          (λ j. ground (arith, f.idle)) (λ j h. ground (arith, f.idle)) (spare-IsValid s l v) in
      rw (f.there, wait, at)
        (if_cases (IsValid (more k g)) (has_key id d.observers) _ _ (λ h. cc (f.unseen))
          λ h. if_cases (IsValid (more k g)) d.ready _ _ (λ y. cc (f.unready)) (λ n. w))

  wait-there :
      (p q : ℕ) (s : Sandbox) → q ≢ p → get_elem? (wait q id g s).disks p ≡ get_elem? s.disks p
  unfolding wait wait_disk
  wait-there p q s n = elim (Option-cases (get_elem? s.disks q)) [
    | inl e ↦ rw (e, wait, at) refl
    | inr (x, e) ↦
        let x' : Disk = record x { observers = insert id g x.observers } in
        let P : Sandbox → Type 0 = λ t. get_elem? t.disks p ≡ get_elem? s.disks p in
        rw (e, wait, at)
          (if_cases P (has_key id x.observers) _ _ (λ h. refl)
            λ h.
              if_cases P x.ready _ _ (λ y. get_elem?-set_ne s.disks x' n)
                (λ z. get_elem?-set_ne s.disks x' n))
  ]

  -- When the volumes are validated, the loop of AddContainer gets through.
  pub validated :
      (clean : String → String) (vs : List (String × List String)) (added : List String)
      (s : Sandbox)
      → validate_volumes clean s.volumes vs ≡ none
      → (wait_volumes id g vs added s).2 ≡ none
  unfolding wait_volumes validate_volumes has_key
  validated clean [] added s e = refl
  validated clean ((vn, paths) ∷ vs) added s e = elim (Option-cases (lookup vn s.volumes)) [
    | inl h ↦ ground (arith, e, h)
    | inr (p, h) ↦
        let rest : validate_volumes clean s.volumes vs ≡ none = ground (arith, e, h) in
        let same = (wait-Alike k p id g s).same_volumes in
        rw (h, wait_volumes)
          (validated clean vs (vn ∷ added) (wait p id g s)
            (ap (λ m. validate_volumes clean m vs) same ∙ rest))
  ]

  waits_failed-IsValid :
      (vn : String) (p : ℕ) (d : Disk) (vs : List (String × List String)) (added : List String)
      (s : Sandbox)
      → has_key vn vs ≡ true
      → lookup vn s.volumes ≡ some p
      → IsFailed p d id s
      → (wait_volumes id g vs added s).2 ≡ none
      → g < s.next_group
      → IsValid k s
      → IsValid (more k g) (wait_volumes id g vs added s).0
  unfolding wait_volumes has_key lookup
  waits_failed-IsValid vn p d [] added s m e f c l v = cc
  waits_failed-IsValid vn p d ((n, paths) ∷ vs) added s m e f c l v =
      elim (Option-cases (lookup n s.volumes)) [
        | inl h ↦ cc (rw (h, wait_volumes) at c)
        | inr (q, h) ↦
            let a = wait-Alike k q id g s in
            let l' : g < (wait q id g s).next_group = omega (arith, a.same_next) in
            rw (h, wait_volumes)
              (elim (ℕ_discrete q p) [
                | yes w ↦
                    let w' : IsValid (more k g) (wait q id g s) =
                      subst (λ x. IsValid (more k g) (wait x id g s)) (sym w)
                        (wait_failed-IsValid p d s f l v) in
                    (wait_volumes-IsValid (more k g) id g vs (n ∷ added) (wait q id g s) l' w').0
                | no w ↦
                    let other : (n =? vn) ≡ false = elim (Bool-cases (n =? vn)) [
                      | inr z ↦ z
                      | inl z ↦ absurd (w (cc ((string_eq.same_iff n vn).0 z)))
                    ] in
                    waits_failed-IsValid vn p d vs (n ∷ added) (wait q id g s)
                      (ground (arith, m, other)) (ap (lookup vn) a.same_volumes ∙ e)
                      (record {
                        there = wait-there p q s w ∙ f.there;
                        unready = f.unready;
                        idle = f.idle;
                        kept = f.kept;
                        no_root = f.no_root;
                        unseen = f.unseen;
                      })
                      (rw (h, wait_volumes) at c) l' (wait_volume-IsValid k q n id g s h l v)
              ])
      ]

-- The goroutine of `add` that AddContainer starts waits on this WaitGroup.
abbrev pub Starts : Description → ℕ → Sandbox → Type 0
Starts c g t =
    (a : Adding) × (rest : List Adding) × (t.adding ≡ a ∷ rest)
    × (a.group ≡ g)
    × (a.container.description ≡ c)

pub start_adding-Starts : (c : Description) (g : ℕ) (s : Sandbox) → Starts c g (start_adding c g s)
unfolding start_adding
start_adding-Starts c g s = (
  record { container = record { description = c; root = length s.disks }; group = g },
  _,
  refl,
  refl,
  refl,
)

admit_failed :
    (clean : String → String) (c : Description) (vn : String) (p : ℕ) (d : Disk) (s : Sandbox)
    → has_key vn c.volumes ≡ true
    → lookup vn s.volumes ≡ some p
    → IsFailed p d c.id s
    → validate_volumes clean s.volumes c.volumes ≡ none
    → IsValid (λ g. 0) s
    → Starts c s.next_group (admit_container false c s)
      × IsValid (more (λ g. 0) s.next_group) (admit_container false c s)
unfolding admit_container
admit_failed clean c vn p d s m e f z v =
    let g = s.next_group in
    let none_owed : ℕ → ℕ = λ g. 0 in
    let s₀ = record s { next_group = g + 1; groups = update s.groups g 0 } in
    let r = wait_volumes c.id g c.volumes [] s₀ in
    let v₀ = new_group-IsValid none_owed s v in
    let f₀ : IsFailed p d c.id s₀ = record {
      there = f.there;
      unready = f.unready;
      idle = f.idle;
      kept = f.kept;
      no_root = f.no_root;
      unseen = f.unseen;
    } in
    let through = validated none_owed c.id g clean c.volumes [] s₀ z in
    let (_, a) = wait_volumes-IsValid none_owed c.id g c.volumes [] s₀ (omega arith) v₀ in
    let w =
      waits_failed-IsValid none_owed c.id g vn p d c.volumes [] s₀ m e f₀ through (omega arith)
        v₀ in
    rw (through, admit_container)
      (
        start_adding-Starts c g r.0,
        start_adding-IsValid (more none_owed g) c g r.0 (omega (arith, a.same_next)) w,
      )

pub accepted :
    (clean : String → String) (c : Description) (s : Sandbox)
    → s.running ≡ true
    → has_key c.id s.containers ≡ false
    → validate_volumes clean s.volumes c.volumes ≡ none
    → add_container clean c s ≡ admit_container false c s
unfolding add_container
accepted clean c s run_on new z =
    let quiet : (if s.running then s else reply (not_ready_error s.id) s) ≡ s =
      if_cases (λ t. t ≡ s) s.running s _ (λ h. refl) (λ h. cc) in
    let registered : register_container clean false c s ≡ admit_container false c s =
      unfold register_container in
      if_cases (λ t. t ≡ admit_container false c s) (has_key c.id s.containers) _ _ (λ h. cc)
        (λ h. rw z refl) in
    let room : not s.running ≡ false = ap not run_on in
    ap (λ t. register_container clean (not s.running) c t) quiet
    ∙ ap (λ f. register_container clean f c s) room
    ∙ registered

-- In a sandbox that any history of requests and goroutines led to, let the insertion of a volume's
-- disk be over without success, and let a running sandbox accept a container, a new one, that uses
-- that volume and has not observed its disk. Then AddContainer starts the goroutine of `add` with a
-- WaitGroup whose counter is positive after every later history: the goroutine never goes on.
pub add_container-stuck :
    (clean : String → String) (id : String) (before : List Move) (c : Description) (vn : String)
    (p : ℕ) (d : Disk)
    → let s = run clean (new_sandbox id) before in
      s.running ≡ true
      → has_key c.id s.containers ≡ false
      → validate_volumes clean s.volumes c.volumes ≡ none
      → has_key vn c.volumes ≡ true
      → lookup vn s.volumes ≡ some p
      → get_elem? s.disks p ≡ some d
      → d.ready ≡ false
      → d.inserting ≡ false
      → has_key c.id d.observers ≡ false
      → Starts c s.next_group (add_container clean c s)
        × ((later : List Move)
            → 0 < (run clean (add_container clean c s) later).groups s.next_group)
add_container-stuck clean id before c vn p d run_on new z m e there unready idle unseen =
    let s = run clean (new_sandbox id) before in
    let v = run-IsValid (λ g. 0) clean (new_sandbox id) before (new_sandbox-IsValid id) in
    let (x, a, _, b, o) = v.held vn p e in
    let same : x ≡ d = cc in
    let f : IsFailed p d c.id s = record {
      there = there;
      unready = unready;
      idle = idle;
      kept = sym (ap (λ (y : Disk). y.removing) same) ∙ b;
      no_root = sym (ap (λ (y : Disk). y.is_root_vol) same) ∙ o;
      unseen = unseen;
    } in
    let (h, w) = admit_failed clean c vn p d s m e f z v in
    rw (accepted clean c s run_on new z) (
      h,
      λ later.
          let u = run-IsValid (more (λ g. 0) s.next_group) clean _ later w in
          ground (arith, u.enough s.next_group),
    )
