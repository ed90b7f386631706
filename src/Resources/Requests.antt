-- ===== src/Resources/Requests.antt =====
-- What a sandbox answers to the requests on its volumes and containers (hypervisor/context.go).
use Prim.Native.String.{String}
use text.Mathlib.Text.{◌==◌ as str_eq}
use runv.Prelude.{
  sym, ◌∙◌, not, Option, ℕ, ◌+◌, ◌≡◌, refl, ap, true, false, ◌||◌, none, some, List, [], ◌∷◌,
  if◌then◌else◌, length, lookup, has_key, string_eq, if_cases, Bool-cases, Option-cases, inl, inr,
  lookup-insert_self, ◌⊎◌,
}
use runv.Resources.State.{
  answer, Description, Container, Result, Sandbox, update, reply, not_ready_error,
}
use runv.Resources.Containers.{
  mounts_root, validate_volumes, wait_volumes, start_adding, admit_container, register_container,
  add_container,
}
use runv.Resources.Stuck.{Starts, start_adding-Starts, validated}

-- What a refusal leaves: one answer more, with an error, and nothing else.
abbrev pub Refused : String → Sandbox → Sandbox → Type 0
Refused id s t =
    (r : Result) × (r.success ≡ false) × (r.id ≡ id) × (t ≡ record s { results = r ∷ s.results })

-- A volume reference of a container that may not be: the volume does not exist, or one of its mount
-- points is the root directory. `clean` is filepath.Clean.
abbrev pub MountsRoot : (String → String) → List String → Type 0
MountsRoot clean [] = ⊥
MountsRoot clean (path ∷ paths) = (clean path ≡ "/") ⊎ MountsRoot clean paths

abbrev pub IsForbidden :
    (String → String) → List (String × ℕ) → List (String × List String) → Type 0
IsForbidden clean volumes [] = ⊥
IsForbidden clean volumes ((vn, paths) ∷ vs) =
    (lookup vn volumes ≡ none) ⊎ MountsRoot clean paths ⊎ IsForbidden clean volumes vs

-- A container that is entered, with its goroutine.
abbrev pub Entered : Description → Sandbox → Sandbox → Type 0
Entered c s t =
    Starts c s.next_group t
    × (x : Container) × (lookup c.id t.containers ≡ some x)
    × (x.description ≡ c)

true_is_false : true ≡ false → ⊥
true_is_false e = cc

start_adding-Entered :
    (c : Description) (s s' : Sandbox) → Entered c s (start_adding c s.next_group s')
unfolding start_adding
start_adding-Entered c s s' =
    let entry : Container = record { description = c; root = length s'.disks } in
    (start_adding-Starts c s.next_group s', entry, lookup-insert_self c.id entry _, refl)

mounts_root-MountsRoot :
    (clean : String → String) (paths : List String)
    → mounts_root clean paths ≡ true
    → MountsRoot clean paths
mounts_root-MountsRoot clean [] h = absurd (true_is_false (sym h))
mounts_root-MountsRoot clean (path ∷ paths) h = elim (Bool-cases (str_eq (clean path) "/")) [
  | inl y ↦ inl ((string_eq.same_iff (clean path) "/").0 y)
  | inr n ↦
      inr (mounts_root-MountsRoot clean paths (ap (λ b. b || mounts_root clean paths) (sym n) ∙ h))
]

mounts_root_absent :
    (clean : String → String) (paths : List String)
    → mounts_root clean paths ≡ false
    → ¬ MountsRoot clean paths
mounts_root_absent clean [] h = λ m. m
mounts_root_absent clean (path ∷ paths) h = λ m. elim (Bool-cases (str_eq (clean path) "/")) [
  | inl y ↦ true_is_false (sym (ap (λ b. b || mounts_root clean paths) y) ∙ h)
  | inr n ↦ elim m [
    | inl e ↦ true_is_false (sym ((string_eq.same_iff (clean path) "/").1 e) ∙ n)
    | inr t ↦ mounts_root_absent clean paths (ap (λ b. b || mounts_root clean paths) (sym n) ∙ h) t
  ]
]

-- What validateContainer answers, whatever the texts of its errors.
validate_volumes-IsForbidden :
    (clean : String → String) (volumes : List (String × ℕ)) (vs : List (String × List String))
    (cause : String)
    → validate_volumes clean volumes vs ≡ some cause
    → IsForbidden clean volumes vs
unfolding validate_volumes has_key
validate_volumes-IsForbidden clean volumes [] cause e = cc
validate_volumes-IsForbidden clean volumes ((vn, paths) ∷ vs) cause e =
    let P : Option String → Type 0 =
      λ r. r ≡ some cause → IsForbidden clean volumes ((vn, paths) ∷ vs) in
    elim (Option-cases (lookup vn volumes)) [
      | inl n ↦ inl n
      | inr (p, y) ↦
          let there : has_key vn volumes ≡ true = rw (y, has_key) refl in
          if_cases P (has_key vn volumes) _ _
            (λ h.
              if_cases P (mounts_root clean paths) _ _
                (λ m q. inr (inl (mounts_root-MountsRoot clean paths m)))
                (λ m q. inr (inr (validate_volumes-IsForbidden clean volumes vs cause q))))
            (λ h. absurd (true_is_false (sym there ∙ h))) e
    ]

validate_allows :
    (clean : String → String) (volumes : List (String × ℕ)) (vs : List (String × List String))
    → validate_volumes clean volumes vs ≡ none
    → ¬ IsForbidden clean volumes vs
unfolding validate_volumes has_key
validate_allows clean volumes [] e = λ f. f
validate_allows clean volumes ((vn, paths) ∷ vs) e =
    let P : Option String → Type 0 =
      λ r. r ≡ none → ¬ IsForbidden clean volumes ((vn, paths) ∷ vs) in
    if_cases P (has_key vn volumes) _ _
      (λ h.
        if_cases P (mounts_root clean paths) _ _ (λ m q. cc)
          (λ m q f. elim f [
            | inl n ↦
                let gone : has_key vn volumes ≡ false = rw (n, has_key) refl in
                true_is_false (sym h ∙ gone)
            | inr (inl t) ↦ mounts_root_absent clean paths m t
            | inr (inr t) ↦ validate_allows clean volumes vs q t
          ]))
      (λ h q. cc) e

admit-Entered :
    (clean : String → String) (c : Description) (s : Sandbox)
    → validate_volumes clean s.volumes c.volumes ≡ none
    → Entered c s (admit_container false c s)
unfolding admit_container
admit-Entered clean c s z =
    let g = s.next_group in
    let s₀ = record s { next_group = g + 1; groups = update s.groups g 0 } in
    let through = validated (λ j. 0) c.id g clean c.volumes [] s₀ z in
    rw (through, admit_container) (start_adding-Entered c s (wait_volumes c.id g c.volumes [] s₀).0)

register-cases :
    (clean : String → String) (c : Description) (s : Sandbox)
    → let t = register_container clean false c s in
      ((has_key c.id s.containers ≡ true) × Refused c.id s t)
      ⊎ (IsForbidden clean s.volumes c.volumes × Refused c.id s t)
      ⊎ ((has_key c.id s.containers ≡ false)
          × (¬ IsForbidden clean s.volumes c.volumes)
          × Entered c s t)
unfolding register_container answer reply
register-cases clean c s = elim (Bool-cases (has_key c.id s.containers)) [
  | inl h ↦ inl (h, rw h (_, refl, refl, refl))
  | inr h ↦ elim (Option-cases (validate_volumes clean s.volumes c.volumes)) [
    | inl z ↦ inr (
        inr (h, validate_allows clean s.volumes c.volumes z, rw (h, z) (admit-Entered clean c s z)))
    | inr (cause, z) ↦ inr (
        inl (
          validate_volumes-IsForbidden clean s.volumes c.volumes cause z,
          rw (h, z) (_, refl, refl, refl),
        ))
  ]
]

add_running :
    (clean : String → String) (c : Description) (s : Sandbox)
    → s.running ≡ true
    → add_container clean c s ≡ register_container clean false c s
unfolding add_container
add_running clean c s h =
    ap (λ f. register_container clean f c (if s.running then s else reply (not_ready_error s.id) s))
      (ap not h)
    ∙ ap (register_container clean false c)
        (if_cases (λ t. t ≡ s) s.running s _ (λ _. refl) (λ n. cc))

-- In a running sandbox AddContainer refuses a container with one error and changes nothing else,
-- and then its id is in use, or one of its volumes does not exist or is mounted at a path that
-- filepath.Clean makes `/`; or it enters the container and starts its goroutine of `add`, and then
-- its id is new, its volumes exist and none is mounted there.
pub add_container-cases :
    (clean : String → String) (c : Description) (s : Sandbox)
    → s.running ≡ true
    → ((has_key c.id s.containers ≡ true) × Refused c.id s (add_container clean c s))
      ⊎ (IsForbidden clean s.volumes c.volumes × Refused c.id s (add_container clean c s))
      ⊎ ((has_key c.id s.containers ≡ false)
          × (¬ IsForbidden clean s.volumes c.volumes)
          × Entered c s (add_container clean c s))
add_container-cases clean c s h = rw (add_running clean c s h) (register-cases clean c s)
