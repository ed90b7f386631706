-- ===== src/Resources/VolumeSafety.antt =====
-- New disks, AddVolume and RemoveVolume and the counters of a sandbox's WaitGroups
-- (hypervisor/context.go, hypervisor/disk.go).
use Prim.Native.String.{String}
use runv.Prelude.{
  not, get_elem?-snoc, get_elem?-append, get_elem?_bound, ℕ, zero, suc, ◌+◌, ◌≡◌, refl, ap, sym,
  ◌∙◌, Bool, true, false, none, some, List, [], ◌∷◌, ◌++◌, get_elem?, length, insert, delete,
  lookup, has_key, string_eq, ◌=?◌, arith, ltb, if_cases, Bool-cases, Option-cases, inl, inr,
  lookup-insert, lookup-delete, get_elem?-set_self, ◌≢◌, ◌⊎◌, subst, ◌||◌,
}
use runv.Resources.Disks.{Disk, is_dir, is_nas}
use runv.Resources.State.{answer, result_base, Sandbox, Result, reply, reply_to, set_disk}
use runv.Resources.Methods.{insert_disk, remove_disk, new_disk}
use runv.Resources.Groups.{count, count-nil, owed-snoc}
use runv.Resources.Safety.{Held, Rooted, IsValid, same-IsValid, adjust}
use runv.Resources.DiskSafety.{answer-IsValid, reply-IsValid, reply_to-IsValid}
use runv.Resources.Disks.{Volume, new_disk_context, volume_is_dir, volume_is_nas}
use runv.Resources.Volumes.{name_volume, register_volume, add_volume, drop_volume, remove_volume}

-- A disk that only its creator knows.
pub record IsNew (d : Disk) : Type 0 where
  pub idle : d.inserting ≡ false
  pub kept : d.removing ≡ false
  pub unseen : d.observers ≡ []

pub new_disk_context-IsNew : (v : Volume) → IsNew (new_disk_context v)
unfolding new_disk_context
new_disk_context-IsNew v = record { idle = refl; kept = refl; unseen = refl }

module _ (k : ℕ → ℕ) where
  Held-append :
      (n : String) (p : ℕ) (ds : List Disk) (d : Disk) → Held n p ds → Held n p (ds ++ d ∷ [])
  Held-append n p ds d (x, a, b, c, f) = (x, get_elem?-append ds (d ∷ []) p a, b, c, f)

  Rooted-append :
      (id : String) (p : ℕ) (ds : List Disk) (d : Disk)
      → Rooted id p ds
      → Rooted id p (ds ++ d ∷ [])
  Rooted-append id p ds d (x, a, b, c) = (x, get_elem?-append ds (d ∷ []) p a, b, c)

  append-cases :
      (ds : List Disk) (d x : Disk) (p : ℕ)
      → get_elem? (ds ++ d ∷ []) p ≡ some x
      → (get_elem? ds p ≡ some x) ⊎ (x ≡ d)
  append-cases [] d x zero e = inr cc
  append-cases [] d x (suc p) e = cc
  append-cases (y ∷ ds) d x zero e = inl e
  append-cases (y ∷ ds) d x (suc p) e = append-cases ds d x p e

  pub new_disk-IsValid : (d : Disk) (s : Sandbox) → IsNew d → IsValid k s → IsValid k (new_disk d s)
  unfolding new_disk
  new_disk-IsValid d s n v = record {
    enough = λ g. ground (arith, owed-snoc g s.disks d, v.enough g, n.idle);
    fresh = λ g l. ground (arith, owed-snoc g s.disks d, v.fresh g l, n.idle);
    sound = λ p x e. elim (append-cases s.disks d x p e) [
      | inl f ↦ v.sound p x f
      | inr f ↦ rw f (record { unready = λ t. ground (arith, n.idle); unobserved = λ t. n.unseen })
    ];
    held = λ m p e. Held-append m p s.disks d (v.held m p e);
    rooted = λ id c e. Rooted-append id c.root s.disks d (v.rooted id c e);
    calm = v.calm;
  }

  pub insert_disk-IsValid :
      (p : ℕ) (b : Bool) (d : Disk) (s : Sandbox)
      → get_elem? s.disks p ≡ some d
      → IsNew d
      → IsValid k s
      → IsValid k (insert_disk p b d s)
  unfolding insert_disk set_disk
  insert_disk-IsValid p b d s e n v =
      if_cases (IsValid k) d.ready _ _ (λ h. reply_to-IsValid k b _ s v)
        (λ h.
          adjust k (record s { scsi_id = s.scsi_id + 1 }) p d
            (record d {
              descriptor = record (d.descriptor) { scsi_id = s.scsi_id };
              inserting = true;
              landed = false;
              reports = b;
            })
            s.groups e (record { unready = λ t. h; unobserved = λ t. n.unseen }) refl refl
            (λ t. inl t) (λ _ id z. z) (λ g. omega (arith, ap (count g) n.unseen, count-nil g))
            (λ g l. omega (arith, ap (count g) n.unseen, count-nil g))
            (same-IsValid k s _ refl refl refl refl refl refl v))

  -- A name of the map is given to a disk that bears it.
  name_volume-IsValid :
      (n : String) (p : ℕ) (s : Sandbox)
      → Held n p s.disks
      → IsValid k s
      → IsValid k (record s { volumes = insert n p s.volumes })
  name_volume-IsValid n p s h v = record {
    enough = v.enough;
    fresh = v.fresh;
    sound = v.sound;
    rooted = v.rooted;
    held = λ m q e. elim (Bool-cases (n =? m)) [
      | inl t ↦
          let a : n ≡ m = (string_eq.same_iff n m).0 t in
          let b : p ≡ q = ground (arith, e, lookup-insert n m p s.volumes, t) in
          subst (λ j. Held j q s.disks) a (subst (λ j. Held n j s.disks) b h)
      | inr f ↦ v.held m q (ground (arith, e, lookup-insert n m p s.volumes, f))
    ];
    calm = v.calm;
  }

  -- An answer touches no disk.
  reply_to-disks : (b : Bool) (r : Result) (s : Sandbox) → (reply_to b r s).disks ≡ s.disks
  unfolding reply_to
  reply_to-disks true r s = refl
  reply_to-disks false r s = refl

  insert_disk-Held :
      (n : String) (p : ℕ) (b : Bool) (d : Disk) (s : Sandbox)
      → get_elem? s.disks p ≡ some d
      → d.removing ≡ false
      → d.is_root_vol ≡ false
      → d.descriptor.name ≡ n
      → Held n p (insert_disk p b d s).disks
  unfolding insert_disk set_disk
  insert_disk-Held n p b d s e r o m =
      if_cases {A = Sandbox} (λ t. Held n p t.disks) d.ready _ _
        (λ h. rw (reply_to-disks b _ s) (d, e, m, r, o))
        (λ h. (
          record d {
            descriptor = record (d.descriptor) { scsi_id = s.scsi_id };
            inserting = true;
            landed = false;
            reports = b;
          },
          get_elem?-set_self s.disks p _ (get_elem?_bound s.disks p e),
          m,
          r,
          o,
        ))

  answer-disks : (full : Bool) (r : Result) (s : Sandbox) → (answer full r s).disks ≡ s.disks
  unfolding answer reply
  answer-disks true r s = refl
  answer-disks false r s = refl

  register_volume-IsValid :
      (full : Bool) (vol : Volume) (s : Sandbox)
      → IsValid k s
      → IsValid k (register_volume full vol s)
  unfolding register_volume
  register_volume-IsValid full vol s v =
      let d = new_disk_context vol in
      let p = length s.disks in
      let s₁ = new_disk d s in
      let told = answer full (result_base vol.name true "") s₁ in
      let new = new_disk_context-IsNew vol in
      let v₁ = new_disk-IsValid d s new v in
      let at_end : get_elem? s₁.disks p ≡ some d = get_elem?-snoc s.disks d in
      let v₂ = answer-IsValid k full (result_base vol.name true "") s₁ v₁ in
      if_cases (IsValid k) (has_key vol.name s.volumes) _ _ (λ h. answer-IsValid k full _ s v)
        (λ h.
          if_cases (IsValid k) (volume_is_dir vol || volume_is_nas vol) _ _
            (λ i.
              if_cases (IsValid k) full told (name_volume vol.name p told) (λ y. v₂)
                (λ n.
                  name_volume-IsValid vol.name p told
                    (subst (Held vol.name p) (sym (answer-disks full _ s₁))
                      (d, at_end, refl, refl, refl))
                    v₂))
            (λ i.
              name_volume-IsValid vol.name p (insert_disk p true d s₁)
                (insert_disk-Held vol.name p true d s₁ at_end refl refl refl)
                (insert_disk-IsValid p true d s₁ at_end new v₁)))

  pub add_volume-IsValid : (vol : Volume) (s : Sandbox) → IsValid k s → IsValid k (add_volume vol s)
  unfolding add_volume
  add_volume-IsValid vol s v =
      register_volume-IsValid (not s.running) vol _
        (if_cases (IsValid k) s.running s _ (λ h. v) (λ h. reply-IsValid k _ s v))

  -- A volume that nobody observes leaves the map, and then its disk is removed.
  unname :
      (n : String) (s : Sandbox)
      → IsValid k s
      → IsValid k (record s { volumes = delete n s.volumes })
  unname n s v = record {
    enough = v.enough;
    fresh = v.fresh;
    sound = v.sound;
    rooted = v.rooted;
    held = λ m q e. v.held m q (ground (arith, e, lookup-delete n m s.volumes));
    calm = v.calm;
  }

  -- A disk that no volume's name leads to, and that nobody observes, may be removed.
  pub remove_disk-IsValid :
      (full : Bool) (p : ℕ) (d : Disk) (s : Sandbox)
      → get_elem? s.disks p ≡ some d
      → d.observers ≡ []
      → ((m : String) → lookup m s.volumes ≢ some p)
      → IsValid k s
      → IsValid k (remove_disk full p d s)
  unfolding remove_disk set_disk
  remove_disk-IsValid full p d s e o u v =
      if_cases (IsValid k) (is_dir d.descriptor || is_nas d.descriptor) _ _
        (λ h. answer-IsValid k full _ s v)
        (λ h.
          adjust k s p d (record d { removing = true }) s.groups e
            (record { unready = (v.sound p d e).unready; unobserved = λ t. o }) refl refl
            (λ t. inr u) (λ _ id z. z) (λ g. omega arith) (λ g l. omega arith) v)

  no_length : (xs : List (String × ℕ)) → ltb 0 (length xs) ≡ false → xs ≡ []
  no_length [] h = refl
  no_length (x ∷ xs) h = ground arith

  -- Two names of the map lead to two disks.
  unreached :
      (n : String) (p : ℕ) (s : Sandbox)
      → IsValid k s
      → Held n p s.disks
      → (m : String) → lookup m (delete n s.volumes) ≢ some p
  unreached n p s v (d, a, b, c, f) m e = elim (Bool-cases (n =? m)) [
    | inl t ↦
        let gone : lookup m (delete n s.volumes) ≡ none =
          ground (arith, lookup-delete n m s.volumes, t) in
        cc
    | inr t ↦
        let (d', a', b', c', f') = v.held m p (ground (arith, lookup-delete n m s.volumes, t, e)) in
        let same : d ≡ d' = cc in
        let names : n ≡ m = sym b ∙ ap (λ (x : Disk). x.descriptor.name) same ∙ b' in
        cc ((string_eq.same_iff n m).1 names)
  ]

  drop_volume-IsValid :
      (full : Bool) (n : String) (s : Sandbox) → IsValid k s → IsValid k (drop_volume full n s)
  unfolding drop_volume
  drop_volume-IsValid full n s v = elim (Option-cases (lookup n s.volumes)) [
    | inl e ↦ rw (e, drop_volume) (answer-IsValid k full _ s v)
    | inr (p, e) ↦
        let (d, a, b, c, f) = v.held n p e in
        rw (e, a, drop_volume)
          (if_cases (IsValid k) (ltb 0 (length d.observers)) _ _ (λ h. answer-IsValid k full _ s v)
            (λ z.
              remove_disk-IsValid full p d (record s { volumes = delete n s.volumes }) a
                (no_length d.observers z) (unreached n p s v (v.held n p e)) (unname n s v)))
  ]

  pub remove_volume-IsValid :
      (n : String) (s : Sandbox) → IsValid k s → IsValid k (remove_volume n s)
  unfolding remove_volume
  remove_volume-IsValid n s v =
      drop_volume-IsValid (not s.running) n _
        (if_cases (IsValid k) s.running s _ (λ h. v) (λ h. reply-IsValid k _ s v))
