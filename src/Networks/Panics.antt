-- ===== src/Networks/Panics.antt =====
-- Requests on a sandbox's interfaces that panic (hypervisor/network.go).
use Prim.Native.String.{String}
use runv.Prelude.{
  ℕ, ◌≤◌, ◌<◌, ◌≡◌, refl, ap, sym, ◌∙◌, true, false, Option, none, some, List, [], ◌∷◌, length,
  lookup, insert, nat_eq, string_eq, ◌=?◌, arith, Bool-cases, Option-cases, inl, inr,
  lookup-insert_self,
}
use runv.Networks.State.{Interface, Description, Networks, panic, set_job, follow}
use runv.Networks.Slots.{max_nic}
use runv.Networks.Free.{apply_slot-IsFirstFree, next_available_dev_name-IsFirst, length-insert}
use runv.Networks.Methods.{
  configure_interface, use_slot, set_up, cleanup_inf, ip_addrs, get_ip_addrs, cleanup_all, close,
}

-- The read of a slot that holds nil is a panic, wherever the loop over the slots meets it.
ip_addrs-nil :
    (i : ℕ) (infs : List Interface) (eth : List (ℕ × Option ℕ))
    → lookup i eth ≡ some none
    → ip_addrs infs eth ≡ none
unfolding ip_addrs lookup
ip_addrs-nil i infs [] h = cc
ip_addrs-nil i infs ((k, slot) ∷ eth) h = elim (Option-cases (follow infs slot)) [
  | inl e ↦ rw (e, ip_addrs) refl
  | inr (x, e) ↦
      let other : (k =? i) ≡ false = elim (Bool-cases (k =? i)) [
        | inr n ↦ n
        | inl y ↦ let nil : slot ≡ none = ground (arith, h, y) in cc (sym e ∙ ap (follow infs) nil)
      ] in
      rw (e, ip_addrs-nil i infs eth (ground (arith, h, other)), ip_addrs) refl
]

cleanup_all-nil :
    (i : ℕ) (eth : List (ℕ × Option ℕ)) (n : Networks)
    → lookup i eth ≡ some none
    → (cleanup_all eth n).panicked ≡ true
unfolding cleanup_all lookup panic cleanup_inf
cleanup_all-nil i [] n h = cc
cleanup_all-nil i ((k, slot) ∷ eth) n h = elim (Option-cases (follow n.infs slot)) [
  | inl e ↦ rw (e, cleanup_all) refl
  | inr (x, e) ↦
      let other : (k =? i) ≡ false = elim (Bool-cases (k =? i)) [
        | inr m ↦ m
        | inl y ↦
            let nil : slot ≡ none = ground (arith, h, y) in cc (sym e ∙ ap (follow n.infs) nil)
      ] in
      rw (e, cleanup_all) (cleanup_all-nil i eth (cleanup_inf x n) (ground (arith, h, other)))
]

after_failure :
    (decimal eth_name : ℕ → String) (distinct : (i j : ℕ) → eth_name i ≡ eth_name j → i ≡ j)
    (j i : ℕ) (inf : Description) (n : Networks)
    → length n.eth ≤ max_nic
    → (use_slot decimal eth_name j inf none (some i) n).eth ≡ n.eth
unfolding use_slot configure_interface set_job
after_failure decimal eth_name distinct j i inf n l =
    let (k, g, _, _) = next_available_dev_name-IsFirst eth_name distinct n l in
    rw (g, use_slot) refl

-- When network.Configure fails, the slot that was taken holds nil.
configure_failed :
    (decimal eth_name : ℕ → String) (distinct : (i j : ℕ) → eth_name i ≡ eth_name j → i ≡ j) (j : ℕ)
    (inf : Description) (n : Networks)
    → length n.eth < max_nic
    → (i : ℕ) × (lookup i (set_up decimal eth_name j inf none n).eth ≡ some none)
unfolding set_up
configure_failed decimal eth_name distinct j inf n l =
    let (i, e, _, _) = apply_slot-IsFirstFree n (omega (arith, l)) in
    let n' = record n { eth = insert i none n.eth } in
    let start : set_up decimal eth_name j inf none n
        ≡ use_slot decimal eth_name j inf none (some i) n' =
      ap (λ (r : Option ℕ × Networks). use_slot decimal eth_name j inf none r.0 r.1) e in
    let kept =
      after_failure decimal eth_name distinct j i inf n'
        (omega (arith, l, length-insert i none n.eth)) in
    let there = ap (λ (m : Networks). lookup i m.eth) start in
    (i, there ∙ ap (lookup i) kept ∙ lookup-insert_self i none n.eth)

-- Whatever the sandbox's interfaces, less than MAX_NIC of them, in the state that the first goroutine
-- of addInterface leaves when network.Configure fails, both getIPAddrs and close panic: the slot that
-- it took holds nil, and each of them reads a field of every interface in a slot.
pub set_up-panics :
    (decimal eth_name : ℕ → String) (distinct : (i j : ℕ) → eth_name i ≡ eth_name j → i ≡ j) (j : ℕ)
    (inf : Description) (n : Networks)
    → length n.eth < max_nic
    → (get_ip_addrs (set_up decimal eth_name j inf none n) ≡ none)
      × ((close (set_up decimal eth_name j inf none n)).panicked ≡ true)
unfolding get_ip_addrs close
set_up-panics decimal eth_name distinct j inf n l =
    let (i, e) = configure_failed decimal eth_name distinct j inf n l in
    let m = set_up decimal eth_name j inf none n in
    (ip_addrs-nil i m.infs m.eth e, cleanup_all-nil i m.eth m e)
