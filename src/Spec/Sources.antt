-- ===== src/Spec/Sources.antt =====
-- Which disk a container's volume is taken from (hypervisor/container.go).
use Prim.Native.String.{String, ◌++◌ as concat}
use text.Mathlib.Text.{◌==◌ as str_eq}
use runv.Prelude.{
  ◌≡◌, refl, ap, subst, ◌∙◌, sym, true, false, ◌&&◌, not, some, List, [], ◌∷◌, ◌++◌, ◌⊎◌, inl, inr,
  lookup, string_eq, if_cases, option_cases,
}
use runv.Resources.Disks.{volume_is_dir, is_dir, Disk}
use runv.Spec.{
  Storage, Container, Failure, root_failed, no_fstype, volume_failed, Request, root_differs,
  volume_storage, add_volumes, agent_create,
}

abbrev pub Has : Storage → List Storage → Type 0
Has s [] = true ≡ false
Has s (t ∷ ts) = (s ≡ t) ⊎ Has s ts

-- The request, if there is one, has the storage.
abbrev Asks : Storage → Failure ⊎ Request → Type 0
Asks s (inl f) = Unit
Asks s (inr r) = Has s r.storages

-- A volume of the container, with its paths.
abbrev pub HasVolume : String → List (String × List String) → Type 0
HasVolume vn [] = true ≡ false
HasVolume vn ((n, paths) ∷ rest) = (vn ≡ n) ⊎ HasVolume vn rest

Has-append : (s : Storage) (xs ys : List Storage) → Has s xs → Has s (xs ++ ys)
Has-append s [] ys h = cc
Has-append s (x ∷ xs) ys (inl q) = inl q
Has-append s (x ∷ xs) ys (inr h) = inr (Has-append s xs ys h)

Has-last : (s : Storage) (xs : List Storage) → Has s (xs ++ s ∷ [])
Has-last s [] = inl refl
Has-last s (x ∷ xs) = inr (Has-last s xs)

module _ (join : String → String → String) (clean : String → String) (share : Storage)
    (c : Container) (disks : List (String × Disk)) where
  -- The loop keeps the storages that it has.
  add_volumes-keeps :
      (s : Storage) (vols : List (String × List String)) (r : Request)
      → Has s r.storages
      → Asks s (add_volumes join clean share c disks vols r)
  unfolding add_volumes
  add_volumes-keeps s [] r h = h
  add_volumes-keeps s ((vn, paths) ∷ rest) r h =
      let P : Failure ⊎ Request → Type 0 = Asks s in
      option_cases P (lookup vn disks) (inl volume_failed) _ (λ e. tt)
        (λ vol e.
          if_cases P (not vol.ready) (inl volume_failed) _ (λ y. tt)
            (λ n.
              if_cases P (is_dir vol.descriptor) _ _ (λ y. add_volumes-keeps s rest _ h)
                (λ m.
                  if_cases P (str_eq vol.descriptor.fstype "") (inl no_fstype) _ (λ y. tt)
                    (λ k. add_volumes-keeps s rest _ (Has-append s r.storages _ h)))))

  -- A volume of a disk gets its storage.
  add_volumes-adds :
      (vn : String) (vol : Disk) (vols : List (String × List String)) (r : Request)
      → HasVolume vn vols
      → lookup vn disks ≡ some vol
      → is_dir vol.descriptor ≡ false
      → Asks
          (volume_storage join clean share c vn vol.descriptor)
          (add_volumes join clean share c disks vols r)
  unfolding add_volumes
  add_volumes-adds vn vol [] r h e n = cc
  add_volumes-adds vn vol ((vm, paths) ∷ rest) r (inl q) e n =
      let s = volume_storage join clean share c vn vol.descriptor in
      let P : Failure ⊎ Request → Type 0 = Asks s in
      option_cases P (lookup vm disks) (inl volume_failed) _ (λ x. tt)
        (λ other x.
          if_cases P (not other.ready) (inl volume_failed) _ (λ y. tt)
            (λ z.
              let found : some vol ≡ some other = sym e ∙ ap (λ k. lookup k disks) q ∙ x in
              let same : vol ≡ other = cc in
              if_cases P (is_dir other.descriptor) _ _
                (λ y.
                  let m : is_dir other.descriptor ≡ false =
                    ap (λ (d : Disk). is_dir d.descriptor) (sym same) ∙ n in
                  cc)
                (λ m.
                  if_cases P (str_eq other.descriptor.fstype "") (inl no_fstype) _ (λ y. tt)
                    (λ k. add_volumes-keeps s rest _ (
                      subst (λ t. Has s (r.storages ++ t ∷ []))
                        (ap (λ k. volume_storage join clean share c k vol.descriptor) q
                          ∙ ap (λ (d : Disk). volume_storage join clean share c vm d.descriptor)
                              same)
                        (Has-last s r.storages))))))
  add_volumes-adds vn vol ((vm, paths) ∷ rest) r (inr h) e n =
      let P : Failure ⊎ Request → Type 0 =
        Asks (volume_storage join clean share c vn vol.descriptor) in
      option_cases P (lookup vm disks) (inl volume_failed) _ (λ x. tt)
        (λ other x.
          if_cases P (not other.ready) (inl volume_failed) _ (λ y. tt)
            (λ z.
              if_cases P (is_dir other.descriptor) _ _ (λ y. add_volumes-adds vn vol rest _ h e n)
                (λ m.
                  if_cases P (str_eq other.descriptor.fstype "") (inl no_fstype) _ (λ y. tt)
                    (λ k. add_volumes-adds vn vol rest _ h e n))))

  agent_create-adds :
      (vn : String) (vol : Disk)
      → HasVolume vn c.volumes
      → lookup vn disks ≡ some vol
      → is_dir vol.descriptor ≡ false
      → Asks
          (volume_storage join clean share c vn vol.descriptor)
          (agent_create join clean share c disks)
  unfolding agent_create
  agent_create-adds vn vol h e n =
      let P : Failure ⊎ Request → Type 0 =
        Asks (volume_storage join clean share c vn vol.descriptor) in
      if_cases P (not c.root.ready) (inl root_failed) _ (λ y. tt)
        (λ z.
          option_cases P (root_differs c) _ (λ f. inl f)
            (λ x.
              if_cases P (not (volume_is_dir c.root_volume) && str_eq c.root_volume.fstype "")
                (inl no_fstype) _ (λ y. tt) (λ k. add_volumes-adds vn vol c.volumes _ h e n))
            (λ f x. tt))

  -- When a container is accepted that uses a volume on a disk with a SCSI address, its agent is told
  -- to mount, at the volume's place, the disk of the container's root.
  pub agent_create-takes_root :
      (vn : String) (vol : Disk) (r : Request)
      → HasVolume vn c.volumes
      → lookup vn disks ≡ some vol
      → is_dir vol.descriptor ≡ false
      → str_eq vol.descriptor.scsi_addr "" ≡ false
      → agent_create join clean share c disks ≡ inr r
      → (s : Storage) × Has s r.storages
        × (s.mount_point ≡ concat "/kata/storage/" (concat c.id (concat "/" (concat vn "/"))))
        × (s.driver ≡ "scsi")
        × (s.source ≡ c.root.descriptor.scsi_addr)
  unfolding volume_storage
  agent_create-takes_root vn vol r h e n a accepted =
      let s = volume_storage join clean share c vn vol.descriptor in
      let P : Storage → Type 0 = λ s.
        (s.mount_point ≡ concat "/kata/storage/" (concat c.id (concat "/" (concat vn "/"))))
        × (s.driver ≡ "scsi")
        × (s.source ≡ c.root.descriptor.scsi_addr) in
      let told : P s =
        if_cases P (str_eq vol.descriptor.scsi_addr "") _ _ (λ y. cc) (λ m. (refl, refl, refl)) in
      (s, subst (Asks s) accepted (agent_create-adds vn vol h e n), told.0, told.1, told.2)
