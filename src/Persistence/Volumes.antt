-- ===== src/Persistence/Volumes.antt =====
-- The volumes and the root volumes that are saved are found again (hypervisor/persistence.go).
use Prim.Native.String.{String}
use runv.Prelude.{
  ◌≡◌, refl, ap, subst, ◌∙◌, true, false, Option, none, some, List, [], ◌∷◌, ◌++◌, lookup, insert,
  IsUnique, string_eq, ◌=?◌, lookup-insert, Bool-cases, inl, inr,
}
use runv.Resources.Disks.{Descriptor}
use runv.Persistence.{
  Disk, Container, VolumeInfo, dump_disk, block_info, dump_volumes, dump_roots, Maps, attach_all,
  load_volumes,
}

-- What is left of a disk's description when it has been saved and restored.
abbrev pub saved : Descriptor → Descriptor
saved d = record d { scsi_addr = ""; docker_volume = false; read_only = false; options = [] }

abbrev pub restored_disk : Descriptor → Disk
restored_disk d = record { descriptor = saved d; ready = true; is_root_vol = false; observers = [] }

-- The keys of the maps are the names of the volumes and the ids of the containers.
abbrev pub IsNamed : List (String × Disk) → Type 0
IsNamed [] = Unit
IsNamed ((k, d) ∷ rest) = (d.descriptor.name ≡ k) × IsNamed rest

abbrev pub IsKeyed : List (String × Container) → Type 0
IsKeyed [] = Unit
IsKeyed ((k, c) ∷ rest) = (c.id ≡ k) × IsKeyed rest

-- What the loop over the saved volumes finds.
abbrev pub volume_found : String → List (String × Disk) → List (String × Disk) → Option Disk
volume_found k saved_volumes before = elim (lookup k saved_volumes) [
  | none ↦ lookup k before
  | some d ↦ some (restored_disk d.descriptor)
]

abbrev pub image_found :
    String → List (String × Container) → List (String × Descriptor) → Option Descriptor
image_found k cs before = elim (lookup k cs) [
  | none ↦ lookup k before
  | some c ↦ some (saved c.root.descriptor)
]

pub record Loads (vols : List (String × Disk)) (cs : List (String × Container)) (m : Maps)
    (acc : List (String × Disk)) (infos : List VolumeInfo) : Type 0 where
  pub maps : Maps
  pub volumes : List (String × Disk)
  pub loads : load_volumes infos m acc ≡ some (maps, volumes)
  pub found : (k : String) → lookup k volumes ≡ volume_found k vols acc
  pub images : (k : String) → lookup k maps.images ≡ image_found k cs m.images

-- An entry that comes first is found after the others, which have other keys.
found_first {ℓ κ} :
    {V : Type ℓ} {W : Type κ} (k j : String) (v : V) (w : W) (rest : List (String × V))
    (before : List (String × W)) (f : V → W)
    → lookup j rest ≡ none
    → w ≡ f v
    → elim (lookup k rest) [ none ↦ lookup k (insert j w before) | some x ↦ some (f x) ]
      ≡ elim (lookup k ((j, v) ∷ rest)) [ none ↦ lookup k before | some x ↦ some (f x) ]
unfolding lookup
found_first {W = W} k j v w rest before f n e = elim (Bool-cases (j =? k)) [
  | inl y ↦
      let q : j ≡ k = (string_eq.same_iff j k).0 y in
      let absent : lookup k rest ≡ none = subst (λ k. lookup k rest ≡ none) q n in
      rw (absent, y) (lookup-insert j k w before ∙ rw y (ap some e))
  | inr m ↦
      let kept : lookup k (insert j w before) ≡ lookup k before =
        lookup-insert j k w before ∙ rw m refl in
      let pick : Option W → Option W =
        λ o. elim (lookup k rest) [ none ↦ o | some x ↦ some (f x) ] in
      rw m (ap pick kept)
]

roots_load :
    (cs : List (String × Container)) (m : Maps) (acc : List (String × Disk))
    → IsUnique cs
    → IsKeyed cs
    → Loads [] cs m acc (dump_roots cs)
unfolding load_volumes dump_roots dump_disk block_info lookup
roots_load [] m acc u y = record {
  maps = m;
  volumes = acc;
  loads = refl;
  found = λ k. refl;
  images = λ k. refl;
}
roots_load ((j, c) ∷ rest) m acc (n, u) (q, y) =
    let d = saved c.root.descriptor in
    let next : Maps = record m { images = insert c.id d m.images } in
    let l = roots_load rest next acc u y in
    let named : insert c.id d m.images ≡ insert j d m.images = ap (λ i. insert i d m.images) q in
    record {
      maps = l.maps;
      volumes = l.volumes;
      loads = l.loads;
      found = l.found;
      images = λ k.
          l.images k
          ∙ ap (image_found k rest) named
          ∙ found_first k j c d rest m.images (λ (c : Container). saved c.root.descriptor) n refl;
    }

pub volumes_load :
    (vols : List (String × Disk)) (cs : List (String × Container)) (m : Maps)
    (acc : List (String × Disk))
    → IsUnique vols
    → IsNamed vols
    → IsUnique cs
    → IsKeyed cs
    → Loads vols cs m acc (dump_volumes vols ++ dump_roots cs)
unfolding load_volumes dump_volumes dump_disk block_info
volumes_load [] cs m acc u y z x =
    let l = roots_load cs m acc z x in
    record {
      maps = l.maps;
      volumes = l.volumes;
      loads = l.loads;
      found = l.found;
      images = l.images;
    }
volumes_load ((j, d) ∷ rest) cs m acc (n, u) (q, y) z x =
    let disk = restored_disk d.descriptor in
    let name = d.descriptor.name in
    let next : Maps = record m { volumes = attach_all d.observers name m.volumes } in
    let l = volumes_load rest cs next (insert name disk acc) u y z x in
    let named : insert name disk acc ≡ insert j disk acc = ap (λ i. insert i disk acc) q in
    record {
      maps = l.maps;
      volumes = l.volumes;
      loads = l.loads;
      found = λ k.
          l.found k
          ∙ ap (volume_found k rest) named
          ∙ found_first k j d disk rest acc (λ (d : Disk). restored_disk d.descriptor) n refl;
      images = l.images;
    }
