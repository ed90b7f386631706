-- ===== src/Networks/Updates.antt =====
-- Updates of an interface's addresses (hypervisor/network.go).
use Prim.Native.String.{String, ◌∷◌ as cons}
use text.Mathlib.TextEquality.{eq_iff}
use runv.Prelude.{
  ℕ, ◌≡◌, refl, ap, sym, ◌∙◌, subst, Bool, true, false, none, some, List, [], ◌∷◌, ◌++◌, lookup,
  string_eq, arith, if◌then◌else◌, if_cases, Option-cases, inl, inr, get_elem?, set,
  get_elem?-set_self, get_elem?-set_ne, get_elem?_bound, ℕ_discrete,
}
use runv.Networks.State.{Interface, Description, Networks, panic}
use runv.Networks.Addresses.{
  Ending, through, not_found, out_of_range, update_addrs, take_off, is_empty, starts_minus,
}
use runv.Networks.Methods.{update_fields, settle_addrs, update_interface, no_text}

-- What is added last is found first if it was not there.
take_off-snoc :
    (ip : String) (old : List String)
    → take_off ip old ≡ none
    → take_off ip (old ++ ip ∷ []) ≡ some old
unfolding take_off
take_off-snoc ip [] h = ground (arith, eq_iff ip ip)
take_off-snoc ip (a ∷ old) h = elim (Option-cases (take_off ip old)) [
  | inl e ↦ ground (arith, take_off-snoc ip old e, h, e)
  | inr (left, e) ↦ ground (arith, h, e)
]

-- Adding an address that an interface does not have, and taking it off in the same update, leaves
-- its addresses as they were.
pub update_addrs-undone :
    (ip : String) (old : List String)
    → is_empty ip ≡ false
    → starts_minus ip ≡ false
    → take_off ip old ≡ none
    → update_addrs (ip ∷ cons "-" ip ∷ []) old ≡ through old
unfolding update_addrs
update_addrs-undone ip old a b h =
    let gone = take_off-snoc ip old h in rw (a, b) (rw (gone, update_addrs) refl)

abbrev SameAddrs : Networks → Networks → Type 0
SameAddrs n m =
    (q : ℕ) (y : Interface)
    → get_elem? m.infs q ≡ some y
    → (x : Interface) × (get_elem? n.infs q ≡ some x) × (y.ip_addr ≡ x.ip_addr)

changed-SameAddrs :
    (p : ℕ) (x x' : Interface) (n : Networks)
    → get_elem? n.infs p ≡ some x
    → x'.ip_addr ≡ x.ip_addr
    → SameAddrs n (record n { infs = set n.infs p x' })
changed-SameAddrs p x x' n e a q y h = elim (ℕ_discrete p q) [
  | yes s ↦
      let there : get_elem? (set n.infs p x') q ≡ some x' =
        subst (λ r. get_elem? (set n.infs p x') r ≡ some x') s
          (get_elem?-set_self n.infs p x' (get_elem?_bound n.infs p e)) in
      let found : y ≡ x' = cc in
      (x, sym (ap (get_elem? n.infs) s) ∙ e, ap (λ (z : Interface). z.ip_addr) found ∙ a)
  | no s ↦ (y, sym (get_elem?-set_ne n.infs x' s) ∙ h, refl)
]

settle-SameAddrs :
    (p : ℕ) (x changed : Interface) (e : Ending) (n : Networks)
    → get_elem? n.infs p ≡ some x
    → changed.ip_addr ≡ x.ip_addr
    → (settle_addrs p changed e n).0 ≡ false
    → SameAddrs n (settle_addrs p changed e n).1
unfolding settle_addrs panic
settle-SameAddrs p x changed (through addrs) n f a h = cc
settle-SameAddrs p x changed (not_found ip) n f a h = changed-SameAddrs p x changed n f a
settle-SameAddrs p x changed out_of_range n f a h = changed-SameAddrs p x changed n f a

-- An update that returns an error leaves the addresses of every interface as they were.
pub update_interface-SameAddrs :
    (inf : Description) (n : Networks)
    → (update_interface inf n).0 ≡ false
    → (q : ℕ) (y : Interface) → get_elem? (update_interface inf n).1.infs q ≡ some y
    → (x : Interface) × (get_elem? n.infs q ≡ some x) × (y.ip_addr ≡ x.ip_addr)
unfolding update_interface update_fields
update_interface-SameAddrs inf n h = elim (Option-cases (lookup inf.id n.id_map)) [
  | inl e ↦ rw (e, update_interface) (λ q y g. (y, g, refl))
  | inr (p, e) ↦ elim (Option-cases (get_elem? n.infs p)) [
    | inl f ↦ rw (e, f, update_interface) (λ q y g. (y, g, refl))
    | inr (x, f) ↦
        let changed = update_fields inf x in
        let ends = settle_addrs p changed (update_addrs inf.ip x.ip_addr) n in
        let failed : (if no_text inf.ip
              then (true, record n { infs = set n.infs p changed })
              else ends).0
            ≡ false =
          rw (e, f, update_interface) at h in
        rw (e, f, update_interface)
          (if_cases {A = Bool × Networks} (λ r. r.0 ≡ false → SameAddrs n r.1) (no_text inf.ip) _ _
            (λ _ w. cc) (λ _ w. settle-SameAddrs p x changed _ n f refl w) failed)
  ]
]
