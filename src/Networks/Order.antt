-- ===== src/Networks/Order.antt =====
-- The slots of the interfaces, their indexes and their PCI addresses (hypervisor/network.go).
use Prim.Native.String.{String}
use runv.Prelude.{
  ℕ, suc, ◌+◌, ◌≡◌, ◌≢◌, refl, ap, sym, ◌∙◌, Option, none, some, List, [], ◌∷◌, ◌++◌, length,
  lookup, insert, nat_eq, string_eq, arith, Option-cases, inl, inr, ◌⊎◌, lookup-insert, get_elem?,
  get_elem?-snoc, set, length-append, ℕ_discrete,
}
use runv.Networks.State.{
  Interface, Description, Settings, device_failed, Job, queued, plugging, reporting, unplugging,
  ended, Networks, new_networks, reply, set_job,
}
use runv.Networks.Slots.{first_free, apply_slot, next_available_dev_name}
use runv.Networks.Methods.{interface_got, configure_interface, use_slot, set_up, close, or_else}
use runv.Networks.Moves.{
  Move, interface_added, interface_updated, interface_removed, slot_taken, plug_answered,
  event_read, unplug_answered, networks_closed, take_slot, answer_plug, read_event, answer_unplug,
  step, run,
}
use runv.Networks.Keeps.{Placed, IsValid, Keeps, Keeps-IsValid, kept, same}
use runv.Networks.Kept.{
  get_elem?-prefix, add_interface-Keeps, plug_ends-Keeps, remove_interface-Keeps, unplug_ends-Keeps,
  update_interface-Keeps, cleanup_all-Keeps,
}

abbrev place_at : ℕ → Interface → Networks → Networks
place_at i y n = record n {
  infs = n.infs ++ y ∷ [];
  eth = insert i (some (length n.infs)) n.eth;
  pci_addr = n.pci_addr + 1;
}

some_eq : {x y : Interface} → some x ≡ some y → x ≡ y
some_eq e = cc

Placed-cases :
    (i : ℕ) (y : Interface) (n : Networks) (j : ℕ) (z : Interface)
    → IsValid n
    → Placed (place_at i y n) j z
    → ((j ≡ i) × (z ≡ y)) ⊎ ((j ≢ i) × Placed n j z)
Placed-cases i y n j z v (p, b, c) = elim (ℕ_discrete i j) [
  | yes h ↦
      let q : p ≡ length n.infs =
        ground (arith, lookup-insert i j (some (length n.infs)) n.eth, nat_eq.same_iff i j, b, h) in
      let d : get_elem? (n.infs ++ y ∷ []) (length n.infs) ≡ some z =
        sym (ap (get_elem? (n.infs ++ y ∷ [])) q) ∙ c in
      let found : z ≡ y = some_eq (sym d ∙ get_elem?-snoc n.infs y) in inl (sym h, found)
  | no h ↦
      let old : lookup j n.eth ≡ some (some p) =
        ground (arith, lookup-insert i j (some (length n.infs)) n.eth, nat_eq.same_iff i j, b, h) in
      inr (λ e. h (sym e), (p, old, get_elem?-prefix n.infs y z p (v.solid j p old) c))
]

-- A slot gets an interface with its number and a new PCI address.
place-IsValid :
    (i : ℕ) (y : Interface) (n : Networks)
    → y.index ≡ i
    → y.pci_addr ≡ n.pci_addr
    → IsValid n
    → IsValid (place_at i y n)
place-IsValid i y n e a v = record {
  indexed = λ j z h. elim (Placed-cases i y n j z v h) [
    | inl (b, c) ↦ ap (λ (w : Interface). w.index) c ∙ e ∙ sym b
    | inr (_, p) ↦ v.indexed j z p
  ];
  used = λ j z h. elim (Placed-cases i y n j z v h) [
    | inl (b, c) ↦ omega (arith, ap (λ (w : Interface). w.pci_addr) c, a)
    | inr (_, p) ↦ omega (arith, v.used j z p)
  ];
  apart = λ j k z w h g q. elim (Placed-cases i y n j z v h) [
    | inl (b, c) ↦ elim (Placed-cases i y n k w v g) [
      | inl (d, _) ↦ b ∙ sym d
      | inr (_, p) ↦
          absurd (omega (arith, ap (λ (x : Interface). x.pci_addr) c, a, q, v.used k w p))
    ]
    | inr (_, p) ↦ elim (Placed-cases i y n k w v g) [
      | inl (_, d) ↦
          absurd (omega (arith, ap (λ (x : Interface). x.pci_addr) d, a, q, v.used j z p))
      | inr (_, r) ↦ v.apart j k z w p r q
    ]
  ];
  solid = λ j p h. elim (ℕ_discrete i j) [
    | yes s ↦
        let r : p ≡ length n.infs =
          ground
            (arith, lookup-insert i j (some (length n.infs)) n.eth, nat_eq.same_iff i j, h, s) in
        omega (arith, r, length-append n.infs (y ∷ []))
    | no s ↦
        let old : lookup j n.eth ≡ some (some p) =
          ground
            (arith, lookup-insert i j (some (length n.infs)) n.eth, nat_eq.same_iff i j, h, s) in
        omega (arith, v.solid j p old, length-append n.infs (y ∷ []))
  ];
}

reserve-Keeps : (i : ℕ) (n : Networks) → Keeps n (record n { eth = insert i none n.eth })
reserve-Keeps i n =
    kept n (record n { eth = insert i none n.eth })
      (λ j p h. ground (arith, lookup-insert i j none n.eth, h)) refl refl

configure-IsValid :
    (j index : ℕ) (name id : String) (inf : Description) (settings : Option Settings) (n : Networks)
    → IsValid n
    → IsValid (
        configure_interface j index n.pci_addr name id inf settings
          (record n { pci_addr = n.pci_addr + 1 }))
unfolding configure_interface set_job interface_got
configure-IsValid j index name id inf none n v =
    let m = record n {
      pci_addr = n.pci_addr + 1;
      jobs = set n.jobs j (reporting id (device_failed (some index)));
    } in
    Keeps-IsValid n m
      (record {
        slots = λ i p h. h;
        older = λ p y l h. (y, h, refl, refl);
        longer = omega arith;
        later = omega arith;
      })
      v
configure-IsValid j index name id inf (some settings) n v =
    let created = interface_got id index n.pci_addr name (or_else inf.name name) settings in
    let m = place_at index created n in
    Keeps-IsValid m _ (same m _ refl refl refl) (place-IsValid index created n refl refl v)

apply_slot-Keeps : (n : Networks) → Keeps n (apply_slot n).1
unfolding apply_slot
apply_slot-Keeps n = elim (Option-cases (first_free (suc (length n.eth)) 0 n.eth)) [
  | inl e ↦ rw (e, apply_slot) (same n n refl refl refl)
  | inr (i, e) ↦ rw (e, apply_slot) (reserve-Keeps i n)
]

module _ (decimal eth_name : ℕ → String) where
  use_slot-IsValid :
      (j : ℕ) (inf : Description) (settings : Option Settings) (slot : Option ℕ) (n : Networks)
      → IsValid n
      → IsValid (use_slot decimal eth_name j inf settings slot n)
  unfolding use_slot reply set_job
  use_slot-IsValid j inf settings none n v = Keeps-IsValid n _ (same n _ refl refl refl) v
  use_slot-IsValid j inf settings (some i) n v =
      elim (Option-cases (next_available_dev_name eth_name n)) [
        | inl f ↦ rw (f, use_slot) (Keeps-IsValid n _ (same n _ refl refl refl) v)
        | inr (name, f) ↦
            rw (f, use_slot)
              (configure-IsValid j i name (or_else inf.id (decimal i)) inf settings n v)
      ]

  set_up-IsValid :
      (j : ℕ) (inf : Description) (settings : Option Settings) (n : Networks)
      → IsValid n
      → IsValid (set_up decimal eth_name j inf settings n)
  unfolding set_up
  set_up-IsValid j inf settings n v =
      use_slot-IsValid j inf settings (apply_slot n).0 (apply_slot n).1
        (Keeps-IsValid n _ (apply_slot-Keeps n) v)

  step-IsValid : (n : Networks) (m : Move) → IsValid n → IsValid (step decimal eth_name n m)
  unfolding step take_slot answer_plug read_event answer_unplug close
  step-IsValid n (interface_added inf) v = Keeps-IsValid n _ (add_interface-Keeps inf n) v
  step-IsValid n (interface_updated inf) v = Keeps-IsValid n _ (update_interface-Keeps inf n) v
  step-IsValid n (interface_removed id) v = Keeps-IsValid n _ (remove_interface-Keeps id n) v
  step-IsValid n (slot_taken j settings) v = taking (get_elem? n.jobs j)
    where
      taking : (o : Option Job) → IsValid (take_slot decimal eth_name j settings o n)
      taking (some (queued inf)) = set_up-IsValid j inf settings n v
      taking (some (plugging id)) = v
      taking (some (reporting id ev)) = v
      taking (some (unplugging id p)) = v
      taking (some ended) = v
      taking none = v
  step-IsValid n (plug_answered j ev) v = answering (get_elem? n.jobs j)
    where
      answering : (o : Option Job) → IsValid (answer_plug decimal eth_name j ev o n)
      answering (some (plugging id)) = Keeps-IsValid n _ (plug_ends-Keeps j id ev n) v
      answering (some (queued inf)) = v
      answering (some (reporting id e)) = v
      answering (some (unplugging id p)) = v
      answering (some ended) = v
      answering none = v
  step-IsValid n (event_read j) v = reading (get_elem? n.jobs j)
    where
      reading : (o : Option Job) → IsValid (read_event decimal eth_name j o n)
      reading (some (reporting id ev)) = Keeps-IsValid n _ (plug_ends-Keeps j id ev n) v
      reading (some (queued inf)) = v
      reading (some (plugging id)) = v
      reading (some (unplugging id p)) = v
      reading (some ended) = v
      reading none = v
  step-IsValid n (unplug_answered j b) v = answering (get_elem? n.jobs j)
    where
      answering : (o : Option Job) → IsValid (answer_unplug decimal eth_name j b o n)
      answering (some (unplugging id p)) = Keeps-IsValid n _ (unplug_ends-Keeps j id p b n) v
      answering (some (queued inf)) = v
      answering (some (plugging id)) = v
      answering (some (reporting id e)) = v
      answering (some ended) = v
      answering none = v
  step-IsValid n networks_closed v = Keeps-IsValid n _ (cleanup_all-Keeps n.eth n) v

  pub run-IsValid :
      (n : Networks) (ms : List Move) → IsValid n → IsValid (run decimal eth_name n ms)
  unfolding run
  run-IsValid n [] v = v
  run-IsValid n (m ∷ ms) v = run-IsValid (step decimal eth_name n m) ms (step-IsValid n m v)

new_networks-IsValid : IsValid new_networks
unfolding new_networks lookup
new_networks-IsValid = record {
  indexed = λ i x h. cc (h.1);
  used = λ i x h. cc (h.1);
  apart = λ i j x y h g e. cc (h.1);
  solid = λ i p h. cc;
}

-- Over every history of requests, goroutines and answers of the driver, the interfaces in two
-- different slots have the slots' numbers for their indexes, and different PCI addresses.
pub run-apart :
    (decimal eth_name : ℕ → String) (ms : List Move) (i j : ℕ) (x y : Interface)
    → let n = run decimal eth_name new_networks ms in
      Placed n i x
      → Placed n j y
      → i ≢ j
      → (x.index ≡ i) × (y.index ≡ j) × (x.pci_addr ≢ y.pci_addr)
run-apart decimal eth_name ms i j x y a b far =
    let v = run-IsValid decimal eth_name new_networks ms new_networks-IsValid in
    (v.indexed i x a, v.indexed j y b, λ e. far (v.apart i j x y a b e))
