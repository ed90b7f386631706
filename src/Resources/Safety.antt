-- ===== src/Resources/Safety.antt =====
-- When the counters of a sandbox's WaitGroups are in order (hypervisor/disk.go,
-- hypervisor/context.go).
use Prim.Native.String.{String}
use runv.Prelude.{
  get_elem?_bound, ℕ, ◌+◌, ◌≤◌, ◌≡◌, ap, sym, ◌∙◌, true, false, some, List, [], get_elem?, set,
  delete, lookup, string_eq, arith, Bool-cases, Option-cases, inl, inr, get_elem?-set_self,
  get_elem?-set_ne, ◌≢◌, ◌⊎◌, ℕ_discrete,
}
use runv.Resources.Disks.{Disk}
use runv.Resources.State.{Container, Sandbox, set_disk, at}
use runv.Resources.Methods.{all_done}
use runv.Resources.Groups.{count, owed_by, owed, owed-set, all_done_lem}

-- A disk that is being inserted is not ready yet, and nobody observes one that is being removed.
pub record IsSound (d : Disk) : Type 0 where
  pub unready : d.inserting ≡ true → d.ready ≡ false
  pub unobserved : d.removing ≡ true → d.observers ≡ []

-- A volume's pointer leads to a disk of its name that is not being removed.
abbrev pub Held : String → ℕ → List Disk → Type 0
Held n p ds =
    (d : Disk) × (get_elem? ds p ≡ some d)
    × (d.descriptor.name ≡ n)
    × (d.removing ≡ false)
    × (d.is_root_vol ≡ false)

-- A container's root pointer leads to a root disk that no other container observes.
abbrev pub Rooted : String → ℕ → List Disk → Type 0
Rooted id p ds =
    (d : Disk) × (get_elem? ds p ≡ some d) × (d.is_root_vol ≡ true) × (delete id d.observers ≡ [])

-- Every counter covers what the disks owe to it, and `k` of them to spare.
pub record IsValid (k : ℕ → ℕ) (s : Sandbox) : Type 0 where
  pub enough : (g : ℕ) → owed g s.disks + k g ≤ s.groups g
  pub fresh : (g : ℕ) → s.next_group ≤ g → owed g s.disks + k g ≡ 0
  pub sound : (p : ℕ) (d : Disk) → get_elem? s.disks p ≡ some d → IsSound d
  pub held : (n : String) (p : ℕ) → lookup n s.volumes ≡ some p → Held n p s.disks
  pub rooted :
      (id : String) (c : Container) → lookup id s.containers ≡ some c → Rooted id c.root s.disks
  pub calm : s.panicked ≡ false

module _ (k : ℕ → ℕ) where
  pub same-IsValid :
      (s t : Sandbox)
      → t.disks ≡ s.disks
      → t.groups ≡ s.groups
      → t.next_group ≡ s.next_group
      → t.volumes ≡ s.volumes
      → t.containers ≡ s.containers
      → t.panicked ≡ s.panicked
      → IsValid k s
      → IsValid k t
  same-IsValid s t d g n w u p v = record {
    enough = λ j. rw (d, g) (v.enough j);
    fresh = λ j l. rw d (v.fresh j (rw n at l));
    sound = λ q x e. v.sound q x (sym (ap (λ ds. get_elem? ds q) d) ∙ e);
    held = λ m q e. rw d (v.held m q (sym (ap (lookup m) w) ∙ e));
    rooted = λ i c e. rw d (v.rooted i c (sym (ap (lookup i) u) ∙ e));
    calm = p ∙ v.calm;
  }

  set_cases :
      (ds : List Disk) (p q : ℕ) (d₀ d x : Disk)
      → get_elem? ds p ≡ some d₀
      → get_elem? (set ds p d) q ≡ some x
      → ((p ≡ q) × (x ≡ d)) ⊎ ((p ≢ q) × (get_elem? ds q ≡ some x))
  set_cases ds p q d₀ d x e f = elim (ℕ_discrete p q) [
    | yes h ↦
        let g = get_elem?-set_self ds p d (get_elem?_bound ds p e) in inl (h, ground (arith, g))
    | no h ↦ inr (h, sym (get_elem?-set_ne ds d h) ∙ f)
  ]

  Held-set :
      (s : Sandbox) (m : String) (p q : ℕ) (d₀ d : Disk)
      → get_elem? s.disks p ≡ some d₀
      → d.descriptor.name ≡ d₀.descriptor.name
      → d.is_root_vol ≡ d₀.is_root_vol
      → (d.removing ≡ true → (d₀.removing ≡ true) ⊎ ((m : String) → lookup m s.volumes ≢ some p))
      → lookup m s.volumes ≡ some q
      → Held m q s.disks
      → Held m q (set s.disks p d)
  Held-set s m p q d₀ d e n t r l (x, a, b, c, f) = elim (ℕ_discrete p q) [
    | yes h ↦
        let same : x ≡ d₀ = cc in
        let here = get_elem?-set_self s.disks p d (get_elem?_bound s.disks p e) in
        (
          d,
          rw (← h) here,
          n ∙ sym (ap (λ y. y.descriptor.name) same) ∙ b,
          kept (Bool-cases d.removing) same h,
          t ∙ sym (ap (λ (y : Disk). y.is_root_vol) same) ∙ f,
        )
    | no h ↦ (x, get_elem?-set_ne s.disks d h ∙ a, b, c, f)
  ]
    where
      kept : (d.removing ≡ true) ⊎ (d.removing ≡ false) → x ≡ d₀ → p ≡ q → d.removing ≡ false
      kept (inr f) same h = f
      kept (inl t) same h = elim (r t) [
        | inl u ↦ cc (ap (λ (y : Disk). y.removing) same)
        | inr u ↦ absurd (u m (l ∙ ap some (sym h)))
      ]

  Rooted-set :
      (s : Sandbox) (id : String) (p q : ℕ) (d₀ d : Disk)
      → get_elem? s.disks p ≡ some d₀
      → d.is_root_vol ≡ d₀.is_root_vol
      → (d₀.is_root_vol ≡ true
          → (id : String) → delete id d₀.observers ≡ []
          → delete id d.observers ≡ [])
      → Rooted id q s.disks
      → Rooted id q (set s.disks p d)
  Rooted-set s id p q d₀ d e t o (x, a, b, c) = elim (ℕ_discrete p q) [
    | yes h ↦
        let same : x ≡ d₀ = cc in
        let here = get_elem?-set_self s.disks p d (get_elem?_bound s.disks p e) in
        let is_root : d₀.is_root_vol ≡ true = sym (ap (λ (y : Disk). y.is_root_vol) same) ∙ b in
        let gone = sym (ap (λ (y : Disk). delete id y.observers) same) ∙ c in
        (d, rw (← h) here, t ∙ is_root, o is_root id gone)
    | no h ↦ (x, get_elem?-set_ne s.disks d h ∙ a, b, c)
  ]

  pub elsewhere :
      (id : String) (q p : ℕ) (d : Disk) (s : Sandbox)
      → p ≢ q
      → Rooted id q s.disks
      → Rooted id q (set s.disks p d)
  elsewhere id q p d s n (x, a, b, c) = (x, get_elem?-set_ne s.disks d n ∙ a, b, c)

  -- A disk and the counters change together; what becomes of root disks is given.
  pub adjust_with :
      (s : Sandbox) (p : ℕ) (d₀ d : Disk) (gs : ℕ → ℕ)
      → get_elem? s.disks p ≡ some d₀
      → IsSound d
      → d.descriptor.name ≡ d₀.descriptor.name
      → d.is_root_vol ≡ d₀.is_root_vol
      → (d.removing ≡ true → (d₀.removing ≡ true) ⊎ ((m : String) → lookup m s.volumes ≢ some p))
      → ((id : String) (c : Container)
          → lookup id s.containers ≡ some c
          → Rooted id c.root (set s.disks p d))
      → ((g : ℕ) → owed_by g d + s.groups g ≤ owed_by g d₀ + gs g)
      → ((g : ℕ) → s.next_group ≤ g → owed_by g d ≤ owed_by g d₀)
      → IsValid k s
      → IsValid k (record s { disks = set s.disks p d; groups = gs })
  adjust_with s p d₀ d gs e i n t r o c f v = record {
    enough = λ g. omega (arith, owed-set g p d₀ d s.disks e, v.enough g, c g);
    fresh = λ g l. omega (arith, owed-set g p d₀ d s.disks e, v.fresh g l, f g l);
    sound = λ q x h. elim (set_cases s.disks p q d₀ d x e h) [
      | inl (_, y) ↦ rw y i
      | inr (_, y) ↦ v.sound q x y
    ];
    held = λ m q h. Held-set s m p q d₀ d e n t r h (v.held m q h);
    rooted = o;
    calm = v.calm;
  }

  -- The same, where whoever alone observes a root disk goes on doing so.
  pub adjust :
      (s : Sandbox) (p : ℕ) (d₀ d : Disk) (gs : ℕ → ℕ)
      → get_elem? s.disks p ≡ some d₀
      → IsSound d
      → d.descriptor.name ≡ d₀.descriptor.name
      → d.is_root_vol ≡ d₀.is_root_vol
      → (d.removing ≡ true → (d₀.removing ≡ true) ⊎ ((m : String) → lookup m s.volumes ≢ some p))
      → (d₀.is_root_vol ≡ true
          → (id : String) → delete id d₀.observers ≡ []
          → delete id d.observers ≡ [])
      → ((g : ℕ) → owed_by g d + s.groups g ≤ owed_by g d₀ + gs g)
      → ((g : ℕ) → s.next_group ≤ g → owed_by g d ≤ owed_by g d₀)
      → IsValid k s
      → IsValid k (record s { disks = set s.disks p d; groups = gs })
  adjust s p d₀ d gs e i n t r o c f v =
      adjust_with s p d₀ d gs e i n t r
        (λ id x h. Rooted-set s id p x.root d₀ d e t o (v.rooted id x h)) c f v

  pub at-IsValid :
      (p : ℕ) (f : Disk → Sandbox → Sandbox) (s : Sandbox)
      → ((d : Disk) → get_elem? s.disks p ≡ some d → IsValid k (f d s))
      → IsValid k s
      → IsValid k (at p f s)
  at-IsValid p f s h v = elim (Option-cases (get_elem? s.disks p)) [
    | inl e ↦ rw (e, at) v
    | inr (d, e) ↦ rw (e, at) (h d e)
  ]

  -- A disk changes, and then all of its observers are told.
  pub done-IsValid :
      (s : Sandbox) (p : ℕ) (d₀ d : Disk)
      → get_elem? s.disks p ≡ some d₀
      → IsSound d
      → d.descriptor.name ≡ d₀.descriptor.name
      → d.is_root_vol ≡ d₀.is_root_vol
      → (d.removing ≡ true → (d₀.removing ≡ true) ⊎ ((m : String) → lookup m s.volumes ≢ some p))
      → d.observers ≡ d₀.observers
      → ((g : ℕ) → count g d.observers + owed_by g d ≤ owed_by g d₀)
      → IsValid k s
      → IsValid k (all_done d.observers (set_disk p d s))
  unfolding set_disk
  done-IsValid s p d₀ d e i n t r o c v =
      let s' = set_disk p d s in
      let (gs, f, h) =
        all_done_lem d.observers s'
          (λ g. omega (arith, owed-set g p d₀ d s.disks e, v.enough g, c g)) in
      rw f (
        adjust s p d₀ d gs e i n t r (λ _ id z. ap (delete id) o ∙ z) (λ g. omega (arith, h g, c g))
          (λ g l. omega (arith, c g)) v)
