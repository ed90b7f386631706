-- ===== src/Networks/Keeps.antt =====
-- When the slots and the interfaces of a sandbox are in order (hypervisor/network.go).
use runv.Prelude.{
  ℕ, ◌≤◌, ◌<◌, ◌≡◌, refl, ap, sym, ◌∙◌, Option, some, List, length, lookup, delete, nat_eq,
  string_eq, arith, lookup-delete, get_elem?,
}
use runv.Networks.State.{Interface, Networks}

-- The interface that a slot leads to.
abbrev pub Placed : Networks → ℕ → Interface → Type 0
Placed n i inf = (p : ℕ) × (lookup i n.eth ≡ some (some p)) × (get_elem? n.infs p ≡ some inf)

-- An interface in a slot has the slot's number for its index, and its PCI address is used up and is
-- no other slot's; no slot's pointer is dangling.
pub record IsValid (n : Networks) : Type 0 where
  pub indexed : (i : ℕ) (x : Interface) → Placed n i x → x.index ≡ i
  pub used : (i : ℕ) (x : Interface) → Placed n i x → x.pci_addr < n.pci_addr
  pub apart :
      (i j : ℕ) (x y : Interface) → Placed n i x → Placed n j y → x.pci_addr ≡ y.pci_addr → i ≡ j
  pub solid : (i p : ℕ) → lookup i n.eth ≡ some (some p) → p < length n.infs

-- Slots are given up, and interfaces change, if at all, in other fields, and are added.
pub record Keeps (n m : Networks) : Type 0 where
  pub slots : (i p : ℕ) → lookup i m.eth ≡ some (some p) → lookup i n.eth ≡ some (some p)
  pub older :
      (p : ℕ) (y : Interface)
      → p < length n.infs
      → get_elem? m.infs p ≡ some y
      → (x : Interface) × (get_elem? n.infs p ≡ some x)
        × (x.index ≡ y.index)
        × (x.pci_addr ≡ y.pci_addr)
  pub longer : length n.infs ≤ length m.infs
  pub later : n.pci_addr ≤ m.pci_addr

Placed-before :
    (n m : Networks) (i : ℕ) (y : Interface)
    → Keeps n m
    → IsValid n
    → Placed m i y
    → (x : Interface) × Placed n i x × (x.index ≡ y.index) × (x.pci_addr ≡ y.pci_addr)
Placed-before n m i y k v (p, a, b) =
    let (x, c, d, e) = k.older p y (v.solid i p (k.slots i p a)) b in
    (x, (p, k.slots i p a, c), d, e)

pub Keeps-IsValid : (n m : Networks) → Keeps n m → IsValid n → IsValid m
Keeps-IsValid n m k v = record {
  indexed = λ i y h. let (x, a, d, e) = Placed-before n m i y k v h in sym d ∙ v.indexed i x a;
  used = λ i y h.
      let (x, a, d, e) = Placed-before n m i y k v h in omega (arith, v.used i x a, e, k.later);
  apart = λ i j y z h g e.
      let (x, a, _, c) = Placed-before n m i y k v h in
      let (w, b, _, d) = Placed-before n m j z k v g in v.apart i j x w a b (c ∙ e ∙ sym d);
  solid = λ i p h. omega (arith, v.solid i p (k.slots i p h), k.longer);
}

pub Keeps-trans : (n m o : Networks) → Keeps n m → Keeps m o → Keeps n o
Keeps-trans n m o a b = record {
  slots = λ i p h. a.slots i p (b.slots i p h);
  older = λ p z l h.
      let (y, c, d, e) = b.older p z (omega (arith, l, a.longer)) h in
      let (x, f, g, k) = a.older p y l c in (x, f, g ∙ d, k ∙ e);
  longer = omega (arith, a.longer, b.longer);
  later = omega (arith, a.later, b.later);
}

-- Only other fields change, or slots are given up.
pub kept :
    (n m : Networks)
    → ((i p : ℕ) → lookup i m.eth ≡ some (some p) → lookup i n.eth ≡ some (some p))
    → m.infs ≡ n.infs
    → m.pci_addr ≡ n.pci_addr
    → Keeps n m
kept n m s i a = record {
  slots = s;
  older = λ p y l h. (y, sym (ap (λ xs. get_elem? xs p) i) ∙ h, refl, refl);
  longer = omega (arith, ap (λ (xs : List Interface). length xs) i);
  later = omega (arith, a);
}

pub same : (n m : Networks) → m.eth ≡ n.eth → m.infs ≡ n.infs → m.pci_addr ≡ n.pci_addr → Keeps n m
same n m e i a = kept n m (λ j p h. sym (ap (lookup j) e) ∙ h) i a

pub given_up :
    (i j p : ℕ) (eth : List (ℕ × Option ℕ))
    → lookup j (delete i eth) ≡ some (some p)
    → lookup j eth ≡ some (some p)
given_up i j p eth h = ground (arith, lookup-delete i j eth, h)
