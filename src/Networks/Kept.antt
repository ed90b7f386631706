-- ===== src/Networks/Kept.antt =====
-- The operations on a sandbox's interfaces that place none in a slot (hypervisor/network.go).
use Prim.Native.String.{String}
use text.Mathlib.Text.{◌==◌ as str_eq}
use runv.Prelude.{
  none, ℕ, zero, suc, ◌<◌, ◌≡◌, refl, ap, sym, ◌∙◌, subst, Bool, Option, some, List, [], ◌∷◌, ◌++◌,
  length, lookup, has_key, nat_eq, string_eq, arith, if_cases, Option-cases, inl, inr, get_elem?,
  set, length-set, length-append, get_elem?-set_self, get_elem?-set_ne, ℕ_discrete,
}
use runv.Networks.State.{
  Interface, Description, Event, nic_inserted, device_failed, unknown, ended, Networks, reply,
  panic, set_job, follow,
}
use runv.Networks.Slots.{free_slot}
use runv.Networks.Addresses.{Ending, through, not_found, out_of_range, update_addrs, join}
use runv.Networks.Methods.{
  add_lo, add_interface, netdev_insert_failed, plug_ends, remove_interface, cleanup_inf,
  unplug_ends, update_fields, settle_addrs, update_interface, cleanup_all, no_text,
}
use runv.Networks.Keeps.{Keeps, Keeps-trans, kept, same, given_up}

free_slot-Keeps : (i : ℕ) (n : Networks) → Keeps n (free_slot i n)
unfolding free_slot
free_slot-Keeps i n = elim (Option-cases (lookup i n.eth)) [
  | inl e ↦ rw (e, free_slot) (same n n refl refl refl)
  | inr (slot, e) ↦ elim (Option-cases (follow n.infs slot)) [
    | inl f ↦ rw (e, f, free_slot) (kept n _ (λ j p h. given_up i j p n.eth h) refl refl)
    | inr (inf, f) ↦ rw (e, f, free_slot) (kept n _ (λ j p h. given_up i j p n.eth h) refl refl)
  ]
]

-- An interface changes in fields other than its index and its PCI address.
set_inf-Keeps :
    (p : ℕ) (x x' : Interface) (n : Networks)
    → get_elem? n.infs p ≡ some x
    → x'.index ≡ x.index
    → x'.pci_addr ≡ x.pci_addr
    → Keeps n (record n { infs = set n.infs p x' })
set_inf-Keeps p x x' n e i a = record {
  slots = λ j q h. h;
  older = λ q y l h. elim (ℕ_discrete p q) [
    | yes s ↦
        let there : get_elem? (set n.infs p x') q ≡ some x' =
          subst (λ r. get_elem? (set n.infs p x') r ≡ some x') s
            (get_elem?-set_self n.infs p x' (omega (arith, l, s))) in
        let found : y ≡ x' = cc in
        (
          x,
          sym (ap (get_elem? n.infs) s) ∙ e,
          sym i ∙ sym (ap (λ (z : Interface). z.index) found),
          sym a ∙ sym (ap (λ (z : Interface). z.pci_addr) found),
        )
    | no s ↦ (y, sym (get_elem?-set_ne n.infs x' s) ∙ h, refl, refl)
  ];
  longer = omega (arith, length-set n.infs p x');
  later = omega arith;
}

pub get_elem?-prefix :
    (xs : List Interface) (y z : Interface) (p : ℕ)
    → p < length xs
    → get_elem? (xs ++ y ∷ []) p ≡ some z
    → get_elem? xs p ≡ some z
get_elem?-prefix [] y z p l h = elim l [ ]
get_elem?-prefix (x ∷ xs) y z zero l h = h
get_elem?-prefix (x ∷ xs) y z (suc p) l h = get_elem?-prefix xs y z p (omega (arith, l)) h

append-Keeps : (y : Interface) (n : Networks) → Keeps n (record n { infs = n.infs ++ y ∷ [] })
append-Keeps y n = record {
  slots = λ j q h. h;
  older = λ q z l h. (z, get_elem?-prefix n.infs y z q l h, refl, refl);
  longer = omega (arith, length-append n.infs (y ∷ []));
  later = omega arith;
}

add_lo-Keeps : (inf : Description) (n : Networks) → Keeps n (add_lo inf n)
unfolding add_lo reply
add_lo-Keeps inf n =
    let k = append-Keeps _ n in
    record { slots = k.slots; older = k.older; longer = k.longer; later = k.later }

pub add_interface-Keeps : (inf : Description) (n : Networks) → Keeps n (add_interface inf n)
unfolding add_interface reply
add_interface-Keeps inf n =
    if_cases (Keeps n) inf.lo _ _
      (λ h.
        if_cases (Keeps n) (no_text inf.ip) _ _ (λ e. same n _ refl refl refl)
          (λ e. add_lo-Keeps inf n))
      (λ h. same n _ refl refl refl)

pub plug_ends-Keeps :
    (j : ℕ) (id : String) (ev : Event) (n : Networks) → Keeps n (plug_ends j id ev n)
unfolding plug_ends netdev_insert_failed reply panic set_job
plug_ends-Keeps j id (device_failed none) n = same n _ refl refl refl
plug_ends-Keeps j id (device_failed (some i)) n =
    let n' = set_job j ended n in
    let k : Keeps n n' = same n n' refl refl refl in
    let f = free_slot-Keeps i n' in
    let m = free_slot i n' in Keeps-trans n m _ (Keeps-trans n n' m k f) (same m _ refl refl refl)
plug_ends-Keeps j id unknown n = same n _ refl refl refl
plug_ends-Keeps j id (nic_inserted fd) n = elim (Option-cases (lookup id n.id_map)) [
  | inl e ↦ rw (e, plug_ends) (same n _ refl refl refl)
  | inr (p, e) ↦ elim (Option-cases (get_elem? n.infs p)) [
    | inl f ↦ rw (e, f, plug_ends) (same n n refl refl refl)
    | inr (x, f) ↦
        let k = set_inf-Keeps p x (record x { tap_fd = fd }) n f refl refl in
        rw (e, f, plug_ends)
          (record { slots = k.slots; older = k.older; longer = k.longer; later = k.later })
  ]
]

pub remove_interface-Keeps : (id : String) (n : Networks) → Keeps n (remove_interface id n)
unfolding remove_interface reply
remove_interface-Keeps id n = elim (Option-cases (lookup id n.id_map)) [
  | inl e ↦ rw (e, remove_interface) (same n _ refl refl refl)
  | inr (p, e) ↦ elim (Option-cases (get_elem? n.infs p)) [
    | inl f ↦ rw (e, f, remove_interface) (same n n refl refl refl)
    | inr (x, f) ↦
        rw (e, f, remove_interface)
          (if_cases (Keeps n) (str_eq x.host_device "") _ _ (λ h. same n _ refl refl refl)
            λ h.
              if_cases (Keeps n) (has_key x.index n.eth) _ _ (λ g. same n _ refl refl refl)
                (λ g. same n _ refl refl refl))
  ]
]

pub unplug_ends-Keeps :
    (j : ℕ) (id : String) (p : ℕ) (b : Bool) (n : Networks) → Keeps n (unplug_ends j id p b n)
unfolding unplug_ends set_job reply cleanup_inf
unplug_ends-Keeps j id p b n = elim (Option-cases (get_elem? n.infs p)) [
  | inl e ↦ rw (e, unplug_ends) (same n n refl refl refl)
  | inr (x, e) ↦
      let n' = set_job j ended n in
      let k : Keeps n n' = same n n' refl refl refl in
      let m = free_slot x.index n' in
      let f : Keeps n m = Keeps-trans n n' m k (free_slot-Keeps x.index n') in
      rw (e, unplug_ends) (Keeps-trans n m _ f (same m _ refl refl refl))
]

settle_addrs-Keeps :
    (p : ℕ) (x changed : Interface) (e : Ending) (n : Networks)
    → get_elem? n.infs p ≡ some x
    → changed.index ≡ x.index
    → changed.pci_addr ≡ x.pci_addr
    → Keeps n (settle_addrs p changed e n).1
unfolding settle_addrs panic
settle_addrs-Keeps p x changed (through addrs) n f i a =
    set_inf-Keeps p x (record changed { ip_addr = join addrs }) n f i a
settle_addrs-Keeps p x changed (not_found ip) n f i a = set_inf-Keeps p x changed n f i a
settle_addrs-Keeps p x changed out_of_range n f i a =
    let k = set_inf-Keeps p x changed n f i a in
    record { slots = k.slots; older = k.older; longer = k.longer; later = k.later }

pub update_interface-Keeps : (inf : Description) (n : Networks) → Keeps n (update_interface inf n).1
unfolding update_interface update_fields
update_interface-Keeps inf n = elim (Option-cases (lookup inf.id n.id_map)) [
  | inl e ↦ rw (e, update_interface) (same n n refl refl refl)
  | inr (p, e) ↦ elim (Option-cases (get_elem? n.infs p)) [
    | inl f ↦ rw (e, f, update_interface) (same n n refl refl refl)
    | inr (x, f) ↦
        let changed = update_fields inf x in
        let k = set_inf-Keeps p x changed n f refl refl in
        rw (e, f, update_interface)
          (if_cases {A = Bool × Networks} (λ r. Keeps n r.1) (no_text inf.ip) _ _ (λ h. k)
            (λ h. settle_addrs-Keeps p x changed (update_addrs inf.ip x.ip_addr) n f refl refl))
  ]
]

pub cleanup_all-Keeps : (eth : List (ℕ × Option ℕ)) (n : Networks) → Keeps n (cleanup_all eth n)
unfolding cleanup_all panic cleanup_inf lookup
cleanup_all-Keeps [] n =
    kept n (record n { eth = []; lo = []; id_map = [] }) (λ i p h. cc) refl refl
cleanup_all-Keeps ((i, slot) ∷ eth) n = elim (Option-cases (follow n.infs slot)) [
  | inl e ↦ rw (e, cleanup_all) (same n _ refl refl refl)
  | inr (x, e) ↦
      let n' = cleanup_inf x n in
      rw (e, cleanup_all) (Keeps-trans n n' _ (same n n' refl refl refl) (cleanup_all-Keeps eth n'))
]
