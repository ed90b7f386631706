-- ===== src/Networks/Free.antt =====
-- Which slot and which device name a new interface gets (hypervisor/network.go).
use Prim.Native.String.{String}
use text.Mathlib.TextEquality.{eq_iff}
use runv.Prelude.{
  ℕ, zero, suc, ◌+◌, ◌≤◌, ◌<◌, ◌≡◌, ◌≢◌, refl, ap, sym, ◌∙◌, true, false, ◌||◌, Option, none, some,
  List, [], ◌∷◌, length, lookup, insert, delete, has_key, nat_eq, ◌==◌, arith, leb, if_cases,
  Bool-cases, Option-cases, inl, inr, lookup-delete, if◌then◌else◌,
}
use runv.Networks.State.{Interface, Networks, follow}
use runv.Networks.Slots.{
  max_nic, first_free, apply_slot, has_name, name_taken, first_name, next_available_dev_name,
}

length-delete : (i : ℕ) (eth : List (ℕ × Option ℕ)) → length (delete i eth) ≤ length eth
unfolding delete
length-delete i [] = omega arith
length-delete i ((j, s) ∷ eth) = ground (arith, length-delete i eth)

pub length-insert :
    (i : ℕ) (s : Option ℕ) (eth : List (ℕ × Option ℕ)) → length (insert i s eth) ≤ suc (length eth)
unfolding insert
length-insert i s eth = omega (arith, length-delete i eth)

length-delete_key :
    (i : ℕ) (eth : List (ℕ × Option ℕ)) → has_key i eth ≡ true → length (delete i eth) < length eth
unfolding delete has_key lookup
length-delete_key i [] h = cc
length-delete_key i ((j, s) ∷ eth) h = ground (arith, length-delete_key i eth, length-delete i eth)

has_key-delete :
    (i k : ℕ) (eth : List (ℕ × Option ℕ)) → i ≢ k → has_key k (delete i eth) ≡ has_key k eth
unfolding has_key
has_key-delete i k eth n = ground (arith, lookup-delete i k eth, nat_eq.same_iff i k)

-- Taking a taken place away does not change what is found behind it.
first_free-delete :
    (fuel i k : ℕ) (eth : List (ℕ × Option ℕ))
    → i < k
    → first_free fuel k (delete i eth) ≡ first_free fuel k eth
unfolding first_free
first_free-delete zero i k eth l = refl
first_free-delete (suc fuel) i k eth l =
    rw
      (
        has_key-delete i k eth (λ e. omega (arith, e)),
        first_free-delete fuel i (suc k) eth (omega arith),
      )
      refl

abbrev pub IsFirstFree : ℕ → ℕ → List (ℕ × Option ℕ) → Type 0
IsFirstFree i k eth =
    (has_key k eth ≡ false)
    × ((j : ℕ) → i ≤ j → j < k → has_key j eth ≡ true)
    × (k ≤ i + length eth)

pub first_free_lem :
    (fuel i : ℕ) (eth : List (ℕ × Option ℕ))
    → length eth < fuel
    → i + length eth ≤ max_nic
    → (k : ℕ) × (first_free fuel i eth ≡ some k) × (i ≤ k) × IsFirstFree i k eth
unfolding first_free
first_free_lem zero i eth l m = elim l [ ]
first_free_lem (suc fuel) i eth l m =
    let in_range : leb i max_nic ≡ true = ground arith in
    elim (Bool-cases (has_key i eth)) [
      | inr h ↦ (
        i,
        rw (in_range, h) refl,
        omega arith,
        (h, λ j a b. absurd (omega (arith, a, b)), omega arith),
      )
      | inl h ↦
          let less = length-delete_key i eth h in
          let (k, e, a, (f, before, top)) =
            first_free_lem fuel (suc i) (delete i eth) (omega (arith, less))
              (omega (arith, less)) in
          (
            k,
            rw (in_range, h) (sym (first_free-delete fuel i (suc i) eth (omega arith)) ∙ e),
            omega (arith, a),
            (
              sym (has_key-delete i k eth (λ x. omega (arith, x, a))) ∙ f,
              λ j b c. elim (Bool-cases (i == j)) [
                | inl y ↦ ground (arith, h, y)
                | inr n ↦
                    let far : i ≢ j = λ x. ground (arith, n, x) in
                    sym (has_key-delete i j eth far) ∙ before j (omega (arith, far, b)) c
              ],
              omega (arith, top, less),
            ),
          )
    ]

-- As long as no more slots are taken than MAX_NIC, applySlot takes one: the first that is free,
-- and it holds nil for now, and the other slots are as before.
pub apply_slot-IsFirstFree :
    (n : Networks)
    → length n.eth ≤ max_nic
    → (k : ℕ) × (apply_slot n ≡ (some k, record n { eth = insert k none n.eth }))
      × (has_key k n.eth ≡ false)
      × ((j : ℕ) → j < k → has_key j n.eth ≡ true)
unfolding apply_slot
apply_slot-IsFirstFree n m =
    let (k, e, _, (f, before, _)) =
      first_free_lem (suc (length n.eth)) 0 n.eth (omega arith) (omega (arith, m)) in
    (k, rw (e, apply_slot) refl, f, λ j l. before j (omega arith) l)

-- The slots whose interface has not this name.
without : List Interface → String → List (ℕ × Option ℕ) → List (ℕ × Option ℕ)
without infs name [] = []
without infs name ((i, s) ∷ eth) =
    if has_name infs name s then without infs name eth else (i, s) ∷ without infs name eth

module _ (infs : List Interface) where
  length-without :
      (name : String) (eth : List (ℕ × Option ℕ)) → length (without infs name eth) ≤ length eth
  unfolding without
  length-without name [] = omega arith
  length-without name ((i, s) ∷ eth) =
      if_cases (λ xs. length xs ≤ suc (length eth)) (has_name infs name s) (without infs name eth)
        ((i, s) ∷ without infs name eth) (λ h. omega (arith, length-without name eth))
        (λ h. omega (arith, length-without name eth))

  length-without_taken :
      (name : String) (eth : List (ℕ × Option ℕ))
      → name_taken infs name eth ≡ true
      → length (without infs name eth) < length eth
  unfolding without
  length-without_taken name [] h = cc
  length-without_taken name ((i, s) ∷ eth) h =
      if_cases (λ xs. length xs < suc (length eth)) (has_name infs name s) (without infs name eth)
        ((i, s) ∷ without infs name eth) (λ y. omega (arith, length-without name eth))
        (λ n. omega (arith, length-without_taken name eth (ground (arith, n, h))))

  -- An interface has one name.
  has_one_name :
      (a b : String) (s : Option ℕ) → a ≢ b → has_name infs a s ≡ true → has_name infs b s ≡ false
  has_one_name a b s n h = elim (Option-cases (follow infs s)) [
    | inl e ↦ cc (rw (e, has_name) at h)
    | inr (inf, e) ↦
        rw (e, has_name)
          (ground (arith, eq_iff inf.new_name a, eq_iff inf.new_name b, rw (e, has_name) at h))
  ]

  name_taken-without :
      (a b : String) (eth : List (ℕ × Option ℕ))
      → a ≢ b
      → name_taken infs b (without infs a eth) ≡ name_taken infs b eth
  unfolding without
  name_taken-without a b [] n = refl
  name_taken-without a b ((i, s) ∷ eth) n =
      if_cases (λ xs. name_taken infs b xs ≡ (has_name infs b s || name_taken infs b eth))
        (has_name infs a s) _ _ (λ h. rw (has_one_name a b s n h) (name_taken-without a b eth n))
        (λ h. rw (name_taken-without a b eth n) refl)

module _ (eth_name : ℕ → String) (distinct : (i j : ℕ) → eth_name i ≡ eth_name j → i ≡ j)
    (infs : List Interface) where
  first_name-without :
      (fuel i k : ℕ) (eth : List (ℕ × Option ℕ))
      → i < k
      → first_name eth_name fuel k infs (without infs (eth_name i) eth)
        ≡ first_name eth_name fuel k infs eth
  unfolding first_name
  first_name-without zero i k eth l = refl
  first_name-without (suc fuel) i k eth l =
      rw
        (
          name_taken-without infs (eth_name i) (eth_name k) eth
              (λ e. omega (arith, distinct i k e)),
          first_name-without fuel i (suc k) eth (omega arith),
        )
        refl

  first_name_lem :
      (fuel i : ℕ) (eth : List (ℕ × Option ℕ))
      → length eth < fuel
      → i + length eth ≤ max_nic
      → (k : ℕ) × (first_name eth_name fuel i infs eth ≡ some (eth_name k))
        × (i ≤ k)
        × (name_taken infs (eth_name k) eth ≡ false)
        × ((j : ℕ) → i ≤ j → j < k → name_taken infs (eth_name j) eth ≡ true)
  unfolding first_name
  first_name_lem zero i eth l m = elim l [ ]
  first_name_lem (suc fuel) i eth l m =
      let in_range : leb i max_nic ≡ true = ground arith in
      elim (Bool-cases (name_taken infs (eth_name i) eth)) [
        | inr h ↦ (i, rw (in_range, h) refl, omega arith, h, λ j a b. absurd (omega (arith, a, b)))
        | inl h ↦
            let eth' = without infs (eth_name i) eth in
            let less = length-without_taken infs (eth_name i) eth h in
            let (k, e, a, f, before) =
              first_name_lem fuel (suc i) eth' (omega (arith, less)) (omega (arith, less)) in
            let far : (j : ℕ) → i < j → eth_name i ≢ eth_name j =
              λ j b x. omega (arith, distinct i j x, b) in
            (
              k,
              rw (in_range, h) (sym (first_name-without fuel i (suc i) eth (omega arith)) ∙ e),
              omega (arith, a),
              sym (name_taken-without infs (eth_name i) (eth_name k) eth (far k (omega (arith, a))))
                  ∙ f,
              λ j b c. elim (Bool-cases (i == j)) [
                | inl y ↦
                    let same : i ≡ j = ground (arith, y) in
                    ap (λ x. name_taken infs (eth_name x) eth) (sym same) ∙ h
                | inr n ↦
                    let up : i < j = ground (arith, n, b) in
                    sym (name_taken-without infs (eth_name i) (eth_name j) eth (far j up))
                    ∙ before j up c
              ],
            )
      ]

-- As long as no more slots are taken than MAX_NIC, nextAvailableDevName finds the first of the
-- names eth0, eth1, … that no interface in a slot has.
pub next_available_dev_name-IsFirst :
    (eth_name : ℕ → String) (distinct : (i j : ℕ) → eth_name i ≡ eth_name j → i ≡ j) (n : Networks)
    → length n.eth ≤ max_nic
    → (k : ℕ) × (next_available_dev_name eth_name n ≡ some (eth_name k))
      × (name_taken n.infs (eth_name k) n.eth ≡ false)
      × ((j : ℕ) → j < k → name_taken n.infs (eth_name j) n.eth ≡ true)
unfolding next_available_dev_name
next_available_dev_name-IsFirst eth_name distinct n m =
    let (k, e, _, f, before) =
      first_name_lem eth_name distinct n.infs (suc (length n.eth)) 0 n.eth (omega arith)
        (omega (arith, m)) in
    (k, e, f, λ j l. before j (omega arith) l)
