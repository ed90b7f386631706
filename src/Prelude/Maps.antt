-- ===== src/Prelude/Maps.antt =====
-- Go's maps as association lists: a key that is written replaces its older entry. Go ranges over a
-- map in any order, so nothing is claimed of the order of a map's entries.
use Prim.Native.String.{String}
use Prim.Native.Nat.{ℕ}
use mathlib.Core.Path.{◌≡◌, refl}
use mathlib.Core.Logic.{◌≢◌, ◌⊎◌, inl, inr}
use mathlib.Core.Logic.{◌↔◌}
use mathlib.Core.Bool.{Bool, true, false}
use mathlib.Core.Option.{Option, none, some}
use mathlib.Core.List.{List, [], ◌∷◌}
use native.Mathlib.Omega.{arith}
use text.Mathlib.Text.{◌==◌ as str_eq}
use text.Mathlib.TextEquality.{eq_iff}
use runv.Prelude.Tests.{◌==◌, ==_iff, if◌then◌else◌, if_cases, Bool-cases}

-- A type with a decidable equality, as every key of a map has.
pub record Eq {ℓ} (A : Type ℓ) : Type ℓ where
  pub same : A → A → Bool
  pub same_iff : (a b : A) → (same a b ≡ true) ↔ (a ≡ b)

instance abbrev pub nat_eq : Eq ℕ
nat_eq = record { same = ◌==◌; same_iff = ==_iff }

instance abbrev pub string_eq : Eq String
string_eq = record { same = str_eq; same_iff = eq_iff }

infix 50 ◌=?◌
abbrev pub ◌=?◌ {ℓ} : {A : Type ℓ} ⦃e : Eq A⦄ → A → A → Bool
◌=?◌ ⦃e⦄ = e.same

module _ {ℓ} {A : Type ℓ} ⦃e : Eq A⦄ where
  pub same_refl : (a : A) → (a =? a) ≡ true
  same_refl a = (e.same_iff a a).1 refl

module _ {ℓ κ} {K : Type ℓ} {V : Type κ} ⦃e : Eq K⦄ where
  unfoldable pub lookup : K → List (K × V) → Option V
  lookup k [] = none
  lookup k ((j, v) ∷ m) = if j =? k then some v else lookup k m

  unfoldable pub delete : K → List (K × V) → List (K × V)
  delete k [] = []
  delete k ((j, v) ∷ m) = if j =? k then delete k m else (j, v) ∷ delete k m

  unfoldable pub insert : K → V → List (K × V) → List (K × V)
  unfolding delete
  insert k v m = (k, v) ∷ delete k m

  unfoldable pub has_key : K → List (K × V) → Bool
  unfolding lookup
  has_key k m = elim (lookup k m) [ none ↦ false | some v ↦ true ]

  pub delete-nil : (k : K) → delete k [] ≡ []
  unfolding delete
  delete-nil k = refl

  -- What is gone stays gone when another key is deleted first.
  pub delete-delete_nil :
      (k j : K) (m : List (K × V)) → delete k m ≡ [] → delete k (delete j m) ≡ []
  unfolding delete
  delete-delete_nil k j [] h = refl
  delete-delete_nil k j ((i, w) ∷ m) h = ground (arith, delete-delete_nil k j m)

  pub lookup-delete :
      (k j : K) (m : List (K × V)) → lookup j (delete k m) ≡ (if k =? j then none else lookup j m)
  unfolding lookup delete
  lookup-delete k j [] = ground arith
  lookup-delete k j ((i, w) ∷ m) =
      ground (arith, e.same_iff k j, e.same_iff i k, e.same_iff i j, lookup-delete k j m)

  -- Deleting a key that is not there changes nothing.
  pub delete_absent : (k : K) (m : List (K × V)) → has_key k m ≡ false → delete k m ≡ m
  unfolding has_key lookup delete
  delete_absent k [] h = refl
  delete_absent k ((i, w) ∷ m) h = ground (arith, delete_absent k m)

  pub lookup-insert :
      (k j : K) (v : V) (m : List (K × V))
      → lookup j (insert k v m) ≡ (if k =? j then some v else lookup j m)
  unfolding lookup insert
  lookup-insert k j v m = ground (arith, lookup-delete k j m)

  pub lookup-insert_self : (k : K) (v : V) (m : List (K × V)) → lookup k (insert k v m) ≡ some v
  lookup-insert_self k v m = ground (arith, lookup-insert k k v m, e.same_iff k k)

-- Lists of keys are keys.
module _ {ℓ} {A : Type ℓ} ⦃e : Eq A⦄ where
  abbrev pub same_list : List A → List A → Bool
  same_list [] [] = true
  same_list [] (b ∷ ys) = false
  same_list (a ∷ xs) [] = false
  same_list (a ∷ xs) (b ∷ ys) = if a =? b then same_list xs ys else false

  pub same_list_iff : (xs ys : List A) → (same_list xs ys ≡ true) ↔ (xs ≡ ys)
  same_list_iff [] [] = ground arith
  same_list_iff [] (b ∷ ys) = ground arith
  same_list_iff (a ∷ xs) [] = ground arith
  same_list_iff (a ∷ xs) (b ∷ ys) = ground (arith, e.same_iff a b, same_list_iff xs ys)

  instance abbrev pub list_eq : Eq (List A)
  list_eq = record { same = same_list; same_iff = same_list_iff }

-- Pairs of keys are keys.
module _ {ℓ κ} {A : Type ℓ} {B : Type κ} ⦃e : Eq A⦄ ⦃f : Eq B⦄ where
  abbrev pub same_pair : A × B → A × B → Bool
  same_pair (a, b) (c, d) = if a =? c then b =? d else false

  pub same_pair_iff : (p q : A × B) → (same_pair p q ≡ true) ↔ (p ≡ q)
  same_pair_iff (a, b) (c, d) = ground (arith, e.same_iff a c, f.same_iff b d)

  instance abbrev pub pair_eq : Eq (A × B)
  pair_eq = record { same = same_pair; same_iff = same_pair_iff }

-- A map is well formed when no key has two entries.
module _ {ℓ κ} {K : Type ℓ} {V : Type κ} ⦃e : Eq K⦄ where
  abbrev pub IsUnique : List (K × V) → Type κ
  IsUnique [] = Unit
  IsUnique ((k, v) ∷ m) = (lookup k m ≡ none) × IsUnique m

  pub delete-IsUnique : (k : K) (m : List (K × V)) → IsUnique m → IsUnique (delete k m)
  unfolding delete
  delete-IsUnique k [] u = u
  delete-IsUnique k ((j, v) ∷ m) (n, u) =
      let rest = delete-IsUnique k m u in
      if_cases IsUnique (j =? k) (delete k m) ((j, v) ∷ delete k m) (λ y. rest)
        (λ z. (ground (arith, lookup-delete k j m, n), rest))

  pub lookup-delete_self : (k : K) (m : List (K × V)) → lookup k (delete k m) ≡ none
  lookup-delete_self k m = ground (arith, lookup-delete k k m, same_refl k)

  pub insert-IsUnique : (k : K) (v : V) (m : List (K × V)) → IsUnique m → IsUnique (insert k v m)
  unfolding insert
  insert-IsUnique k v m u = (lookup-delete_self k m, delete-IsUnique k m u)

  pub lookup-delete_ne : (k j : K) (m : List (K × V)) → j ≢ k → lookup j (delete k m) ≡ lookup j m
  lookup-delete_ne k j m n = ground (arith, lookup-delete k j m, e.same_iff k j, n)

  pub lookup-insert_ne :
      (k j : K) (v : V) (m : List (K × V)) → j ≢ k → lookup j (insert k v m) ≡ lookup j m
  lookup-insert_ne k j v m n = ground (arith, lookup-insert k j v m, e.same_iff k j, n)

  pub lookup-delete_found :
      (k j : K) (m : List (K × V)) {w : V}
      → lookup j (delete k m) ≡ some w
      → (j ≢ k) × (lookup j m ≡ some w)
  lookup-delete_found k j m h = (
    λ q. ground (arith, lookup-delete k j m, e.same_iff k j, h, q),
    ground (arith, lookup-delete k j m, h),
  )

  pub lookup-insert_found :
      (k j : K) (v : V) (m : List (K × V)) {w : V}
      → lookup j (insert k v m) ≡ some w
      → ((j ≡ k) × (w ≡ v)) ⊎ ((j ≢ k) × (lookup j m ≡ some w))
  lookup-insert_found k j v m h = elim (Bool-cases (k =? j)) [
    | inl y ↦ inl (ground (arith, lookup-insert k j v m, e.same_iff k j, h, y))
    | inr n ↦ inr (ground (arith, lookup-insert k j v m, e.same_iff k j, h, n))
  ]

  pub lookup-cons_none :
      (k j : K) (v : V) (m : List (K × V))
      → lookup k ((j, v) ∷ m) ≡ none
      → (k ≢ j) × (lookup k m ≡ none)
  unfolding lookup
  lookup-cons_none k j v m h =
      (λ q. ground (arith, e.same_iff j k, h, q), ground (arith, e.same_iff j k, h))

  pub lookup-cons_self : (k : K) (v : V) (m : List (K × V)) → lookup k ((k, v) ∷ m) ≡ some v
  unfolding lookup
  lookup-cons_self k v m = ground (arith, same_refl k)

  -- An entry that a well-formed map has behind its first one.
  pub lookup-cons_some :
      (k j : K) (v w : V) (m : List (K × V))
      → lookup k m ≡ none
      → lookup j m ≡ some w
      → lookup j ((k, v) ∷ m) ≡ some w
  unfolding lookup
  lookup-cons_some k j v w m n h = elim (Bool-cases (k =? j)) [
    | inl y ↦ let q : k ≡ j = (e.same_iff k j).0 y in cc
    | inr z ↦ rw (z, lookup) h
  ]

  pub lookup-cons_cases :
      (k j : K) (v : V) (m : List (K × V)) {w : V}
      → lookup k ((j, v) ∷ m) ≡ some w
      → ((j ≡ k) × (w ≡ v)) ⊎ (lookup k m ≡ some w)
  unfolding lookup
  lookup-cons_cases k j v m h = elim (Bool-cases (j =? k)) [
    | inl y ↦ inl ((e.same_iff j k).0 y, ground (arith, y, h))
    | inr n ↦ inr (ground (arith, n, h))
  ]
