-- ===== src/Vsock/Roaring.antt =====
-- The bitmap that vsock.go takes from package roaring: a set of numbers. `checked_add` reports
-- whether the number was added, that is, whether it was absent.
use runv.Prelude.{ℕ, ◌≡◌, Bool, true, false, not, ◌==◌, if◌then◌else◌, refl}

pub record Bitmap : Type 1 where
  pub Carrier : Type 0
  pub empty : Carrier
  pub contains : Carrier → ℕ → Bool
  pub checked_add : Carrier → ℕ → Carrier × Bool
  pub remove : Carrier → ℕ → Carrier
  pub contains-empty : (x : ℕ) → contains empty x ≡ false
  pub checked_add_fresh : (b : Carrier) (x : ℕ) → (checked_add b x).1 ≡ not (contains b x)
  pub contains-checked_add :
      (b : Carrier) (x y : ℕ)
      → contains (checked_add b x).0 y ≡ (if x == y then true else contains b y)
  pub contains-remove :
      (b : Carrier) (x y : ℕ) → contains (remove b x) y ≡ (if x == y then false else contains b y)

-- A set as its characteristic function meets the interface.
abbrev pub function_bitmap : Bitmap
function_bitmap = record {
  Carrier = ℕ → Bool;
  empty = λ x. false;
  contains = λ b. b;
  checked_add = λ b x. (λ y. if x == y then true else b y, not (b x));
  remove = λ b x y. if x == y then false else b y;
  contains-empty = λ x. refl;
  checked_add_fresh = λ b x. refl;
  contains-checked_add = λ b x y. refl;
  contains-remove = λ b x y. refl;
}
