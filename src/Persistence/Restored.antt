-- ===== src/Persistence/Restored.antt =====
-- What of a sandbox is there again when it has been saved and restored (hypervisor/persistence.go).
use Prim.Native.String.{String}
use text.Mathlib.Text.{◌==◌ as str_eq}
use runv.Prelude.{
  ℕ, ◌≡◌, refl, ap, subst, ◌∙◌, sym, Bool, true, ◌||◌, Option, none, some, List, [], ◌∷◌, ◌++◌,
  if◌then◌else◌, ◌==◌, lookup, insert, delete, IsUnique, string_eq, ◌=?◌, lookup-insert, arith,
  Bool-cases, lookup-cons_self, lookup-cons_some, inl, inr, if_cases, option_cases,
}
use runv.Resources.Disks.{Descriptor}
use runv.Persistence.{
  Disk, Container, Sandbox, NetworkInfo, PersistInfo, dump_descriptions, dump_eth, dump_lo, dump,
  new_sandbox, load_nics, Maps, load_volumes, observe, load_containers, restored, load_hw_status,
  vm_context, dump_volumes, dump_roots,
}
use runv.Persistence.Volumes.{
  saved, restored_disk, IsNamed, IsKeyed, volume_found, image_found, volumes_load,
}

-- What is compared of a volume: its description, and whether it is ready.
abbrev pub state_of : Option Disk → Option (Descriptor × Bool)
state_of none = none
state_of (some d) = some (d.descriptor, d.ready)

abbrev pub saved_of : Option (Descriptor × Bool) → Option (Descriptor × Bool)
saved_of none = none
saved_of (some (d, ready)) = some (saved d, true)

-- Containers observe the disks, and leave their descriptions as they are.
observe-descriptor :
    (id k : String) (names : List String) (vols : List (String × Disk))
    → state_of (lookup k (observe id names vols)) ≡ state_of (lookup k vols)
unfolding observe
observe-descriptor id k [] vols = refl
observe-descriptor id k (name ∷ names) vols =
    let seen : Disk → List (String × Disk) =
      λ d. insert name (record d { observers = id ∷ d.observers }) vols in
    let P : List (String × Disk) → Type 0 =
      λ v. state_of (lookup k (observe id names v)) ≡ state_of (lookup k vols) in
    option_cases P (lookup name vols) vols seen (λ e. observe-descriptor id k names vols)
      (λ d e.
        observe-descriptor id k names (seen d)
        ∙ ap state_of (lookup-insert name k (record d { observers = id ∷ d.observers }) vols)
        ∙ seen_same d e)
  where
    seen_same :
        (d : Disk)
        → lookup name vols ≡ some d
        → state_of
            (if name =? k then some (record d { observers = id ∷ d.observers }) else lookup k vols)
          ≡ state_of (lookup k vols)
    seen_same d e = elim (Bool-cases (name =? k)) [
      | inl y ↦
          let q : name ≡ k = (string_eq.same_iff name k).0 y in
          rw y (ap state_of (sym e ∙ ap (λ n. lookup n vols) q))
      | inr n ↦ rw n refl
    ]

-- A container of the table has an image, and the loop over the containers goes through.
record Restores (descs : List (String × List String)) (m : Maps) (s : Sandbox) : Type 0 where
  result : Sandbox
  loads : load_containers descs m s ≡ some result
  volumes : (k : String) → state_of (lookup k result.volumes) ≡ state_of (lookup k s.volumes)
  same :
      (result.id ≡ s.id)
      × (result.paused ≡ s.paused)
      × (result.pci_addr ≡ s.pci_addr)
      × (result.scsi_id ≡ s.scsi_id)
      × (result.guest_cid ≡ s.guest_cid)

abbrev HasImages : List (String × List String) → Maps → Type 0
HasImages [] m = Unit
HasImages ((id, names) ∷ rest) m =
    ((d : Descriptor) × (lookup id m.images ≡ some d)) × HasImages rest m

containers_load :
    (descs : List (String × List String)) (m : Maps) (s : Sandbox)
    → HasImages descs m
    → Restores descs m s
unfolding load_containers
containers_load [] m s h = record {
  result = s;
  loads = refl;
  volumes = λ k. refl;
  same = (refl, refl, refl, refl, refl);
}
containers_load ((id, names) ∷ rest) m s ((d, e), h) =
    let used = lookup id m.volumes in
    let observed : List String = elim used [ none ↦ [] | some ns ↦ ns ] in
    let c : Container = record {
      id = id;
      volumes = elim used [ none ↦ names | some ns ↦ ns ];
      root = record { descriptor = d; ready = true; is_root_vol = true; observers = id ∷ [] };
    } in
    let t : Sandbox = record s {
      volumes = observe id observed s.volumes;
      containers = insert id c s.containers;
    } in
    let r = containers_load rest m t h in
    record {
      result = r.result;
      loads = rw (e, load_containers) (r.loads);
      volumes = λ k. r.volumes k ∙ observe-descriptor id k observed s.volumes;
      same = r.same;
    }

delete-HasImages :
    (k : String) (descs : List (String × List String)) (m : Maps)
    → HasImages descs m
    → HasImages (delete k descs) m
unfolding delete
delete-HasImages k [] m h = h
delete-HasImages k ((id, names) ∷ rest) m (e, h) =
    let behind = delete-HasImages k rest m h in
    if_cases (λ l. HasImages l m) (id =? k) (delete k rest) ((id, names) ∷ delete k rest)
      (λ y. behind) (λ n. (e, behind))

-- Every container that is saved has its image.
descriptions-HasImages :
    (cs : List (String × Container)) (m : Maps)
    → IsUnique cs
    → IsKeyed cs
    → ((k : String) (c : Container)
        → lookup k cs ≡ some c
        → (d : Descriptor) × (lookup k m.images ≡ some d))
    → HasImages (dump_descriptions cs) m
unfolding dump_descriptions insert
descriptions-HasImages [] m u y h = tt
descriptions-HasImages ((j, c) ∷ rest) m (n, u) (q, y) h =
    let (d, e) = h j c (lookup-cons_self j c rest) in
    let behind =
      descriptions-HasImages rest m u y (λ k b x. h k b (lookup-cons_some j k c b rest n x)) in
    (
      (d, ap (λ i. lookup i m.images) q ∙ e),
      delete-HasImages c.id (dump_descriptions rest) m behind,
    )

abbrev SameHw : Sandbox → Sandbox → Type 0
SameHw s t =
    (t.id ≡ s.id)
    × (t.paused ≡ s.paused)
    × (t.pci_addr ≡ s.pci_addr)
    × (t.scsi_id ≡ s.scsi_id)
    × (t.guest_cid ≡ s.guest_cid)

load_nics-SameHw :
    (fresh : String) (infos : List NetworkInfo) (s t : Sandbox)
    → SameHw s t
    → SameHw s (load_nics fresh infos t)
unfolding load_nics
load_nics-SameHw fresh [] s t h = h
load_nics-SameHw fresh (info ∷ rest) s t h =
    if_cases (λ u. SameHw s (load_nics fresh rest u)) (str_eq info.device_name "lo") _ _
      (λ y. load_nics-SameHw fresh rest s _ h) (λ n. load_nics-SameHw fresh rest s _ h)

-- A sandbox that can be saved: its maps are keyed as the code keys them, no slot of an interface is
-- reserved, and it has no port that is mapped.
pub record IsSavable (s : Sandbox) (info : PersistInfo) : Type 0 where
  pub dumped : dump s ≡ some info
  pub volumes : IsUnique s.volumes × IsNamed s.volumes
  pub containers : IsUnique s.containers × IsKeyed s.containers
  pub no_ports : s.ports ≡ []

-- What comes back: the id, whether it was paused and its counters are the same, and of each volume
-- there is what is saved of its description, and it is ready.
pub record IsRestored (s t : Sandbox) : Type 0 where
  hw : SameHw s t
  volumes : (k : String) → state_of (lookup k t.volumes) ≡ saved_of (state_of (lookup k s.volumes))

load_hw_status-marked :
    (marks : ℕ → Bool) (info : PersistInfo) (s : Sandbox)
    → (info.guest_cid == 0) || marks info.guest_cid ≡ true
    → (t : Sandbox) × (load_hw_status marks info s ≡ some t)
      × (t.id ≡ s.id)
      × (t.paused ≡ s.paused)
      × (t.pci_addr ≡ info.pci_addr)
      × (t.scsi_id ≡ info.scsi_id)
      × (t.guest_cid ≡ info.guest_cid)
unfolding load_hw_status
load_hw_status-marked marks info s m =
    let loaded : Sandbox = record s {
      pci_addr = info.pci_addr;
      scsi_id = info.scsi_id;
      guest_cid = info.guest_cid;
    } in
    let P : Option Sandbox → Type 0 = λ o.
      (t : Sandbox) × (o ≡ some t)
      × (t.id ≡ s.id)
      × (t.paused ≡ s.paused)
      × (t.pci_addr ≡ info.pci_addr)
      × (t.scsi_id ≡ info.scsi_id)
      × (t.guest_cid ≡ info.guest_cid) in
    if_cases P (info.guest_cid == 0) (some loaded) _
      (λ y. (loaded, refl, refl, refl, refl, refl, refl))
      (λ n.
        if_cases P (marks info.guest_cid) (some (record loaded { enable_vsock = true })) none
          (λ y. (record loaded { enable_vsock = true }, refl, refl, refl, refl, refl, refl))
          (λ k. absurd (ground (arith, m, n, k))))

-- The order in which vmContext goes through the data.
vm_context-restores :
    (marks : ℕ → Bool) (fresh : String) (info : PersistInfo) (s t : Sandbox) (m : Maps)
    (vols : List (String × Disk))
    → info.version ≡ 20171210
    → info.port_list ≡ []
    → load_hw_status marks info (record (new_sandbox info.id) { paused = info.paused }) ≡ some s
    → load_volumes info.volume_list (record { images = []; volumes = [] }) [] ≡ some (m, vols)
    → load_containers info.containers m
        (record (load_nics fresh info.network_list s) { volumes = vols })
      ≡ some t
    → vm_context marks true fresh info ≡ restored t
unfolding vm_context
vm_context-restores marks fresh info s t m vols v p h l c = ground (arith, v, p, h, l, c)

-- What dump makes when no slot is reserved.
abbrev written : Sandbox → List NetworkInfo → PersistInfo
written s nics = record {
  version = 20171210;
  id = s.id;
  paused = s.paused;
  pci_addr = s.pci_addr;
  scsi_id = s.scsi_id;
  guest_cid = s.guest_cid;
  volume_list = dump_volumes s.volumes ++ dump_roots s.containers;
  network_list = nics;
  port_list = s.ports;
  containers = dump_descriptions s.containers;
}

dump-written :
    (s : Sandbox) (info : PersistInfo)
    → dump s ≡ some info
    → (nics : List NetworkInfo) × (info ≡ written s nics)
unfolding dump
dump-written s info e =
    let P : Option PersistInfo → Type 0 =
      λ o. o ≡ some info → (nics : List NetworkInfo) × (info ≡ written s nics) in
    option_cases P (dump_eth s.eth) none (λ infos. some (written s (dump_lo s.lo ++ infos)))
      (λ n x. absurd (ground (arith, x))) (λ infos n x. (dump_lo s.lo ++ infos, cc)) e

image_some :
    (k : String) (c : Container) (cs : List (String × Container))
    → lookup k cs ≡ some c
    → image_found k cs [] ≡ some (saved c.root.descriptor)
image_some k c cs e =
    let pick : Option Container → Option Descriptor =
      λ o. elim o [ none ↦ lookup k [] | some c ↦ some (saved c.root.descriptor) ] in
    ap pick e

new_sandbox-id : (id : String) → (new_sandbox id).id ≡ id
unfolding new_sandbox
new_sandbox-id id = refl

state_of-restored :
    (o : Option Disk)
    → state_of (elim o [ none ↦ none | some d ↦ some (restored_disk d.descriptor) ])
      ≡ saved_of (state_of o)
state_of-restored none = refl
state_of-restored (some d) = refl

saved_of-found :
    (k : String) (vols : List (String × Disk))
    → state_of (volume_found k vols []) ≡ saved_of (state_of (lookup k vols))
unfolding lookup
saved_of-found k vols = state_of-restored (lookup k vols)

written-restores :
    (marks : ℕ → Bool) (fresh : String) (s : Sandbox) (nics : List NetworkInfo)
    → IsUnique s.volumes × IsNamed s.volumes
    → IsUnique s.containers × IsKeyed s.containers
    → s.ports ≡ []
    → (s.guest_cid == 0) || marks s.guest_cid ≡ true
    → (t : Sandbox) × (vm_context marks true fresh (written s nics) ≡ restored t) × IsRestored s t
written-restores marks fresh s nics (u, y) (v, z) p m =
    let info = written s nics in
    let (h, loaded, same_id, same_paused, same_pci, same_scsi, same_cid) =
      load_hw_status-marked marks info (record (new_sandbox s.id) { paused = s.paused }) m in
    let l = volumes_load s.volumes s.containers (record { images = []; volumes = [] }) [] u y v z in
    let n : Sandbox = record (load_nics fresh nics h) { volumes = l.volumes } in
    let first : SameHw s h =
      (same_id ∙ new_sandbox-id s.id, same_paused, same_pci, same_scsi, same_cid) in
    let image : (k : String) (c : Container)
        → lookup k s.containers ≡ some c
        → (d : Descriptor) × (lookup k l.maps.images ≡ some d) =
      λ k c e. (saved c.root.descriptor, l.images k ∙ image_some k c s.containers e) in
    let r =
      containers_load (dump_descriptions s.containers) l.maps n
        (descriptions-HasImages s.containers l.maps v z image) in
    let same = load_nics-SameHw fresh nics s h first in
    (
      r.result,
      vm_context-restores marks fresh info h r.result l.maps l.volumes refl p loaded l.loads
          r.loads,
      record {
        hw = (
          r.same.0 ∙ same.0,
          r.same.1 ∙ same.1,
          r.same.2 ∙ same.2,
          r.same.3 ∙ same.3,
          r.same.4 ∙ same.4,
        );
        volumes = λ k. r.volumes k ∙ ap state_of (l.found k) ∙ saved_of-found k s.volumes;
      },
    )

pub vm_context-dump :
    (marks : ℕ → Bool) (fresh : String) (s : Sandbox) (info : PersistInfo)
    → IsSavable s info
    → (s.guest_cid == 0) || marks s.guest_cid ≡ true
    → (t : Sandbox) × (vm_context marks true fresh info ≡ restored t) × IsRestored s t
vm_context-dump marks fresh s info a m =
    let (nics, q) = dump-written s info a.dumped in
    subst (λ info. (t : Sandbox) × (vm_context marks true fresh info ≡ restored t) × IsRestored s t)
      (sym q) (written-restores marks fresh s nics a.volumes a.containers a.no_ports m)
