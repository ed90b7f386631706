-- ===== src/Networks/Slots.antt =====
-- applySlot, nextAvailableDevName and freeSlot of hypervisor/network.go. The two loops run up to
-- MAX_NIC in the code; here they run on fuel, one step more than there are slots taken.
use Prim.Native.String.{String}
use text.Mathlib.Text.{◌==◌ as str_eq}
use runv.Prelude.{
  ℕ, zero, suc, Bool, false, ◌||◌, Option, none, some, List, [], ◌∷◌, length, lookup, insert,
  delete, has_key, nat_eq, string_eq, if◌then◌else◌, leb,
}
use runv.Networks.State.{Interface, Networks, follow}

abbrev pub max_nic : ℕ
max_nic = 9223372036854775807

unfoldable pub first_free : ℕ → ℕ → List (ℕ × Option ℕ) → Option ℕ
first_free zero i eth = none
first_free (suc fuel) i eth =
    let rest = first_free fuel (suc i) eth in
    if leb i max_nic then if has_key i eth then rest else some i else none

-- The slot, or none where the code returns -1.
unfoldable pub apply_slot : Networks → Option ℕ × Networks
unfolding first_free
apply_slot n = elim (first_free (suc (length n.eth)) 0 n.eth) [
  | none ↦ (none, n)
  | some i ↦ (some i, record n { eth = insert i none n.eth })
]

abbrev pub has_name : List Interface → String → Option ℕ → Bool
has_name infs name slot = elim (follow infs slot) [
  | none ↦ false
  | some inf ↦ str_eq inf.new_name name
]

-- The inner loop of nextAvailableDevName.
abbrev pub name_taken : List Interface → String → List (ℕ × Option ℕ) → Bool
name_taken infs name [] = false
name_taken infs name ((i, slot) ∷ eth) = has_name infs name slot || name_taken infs name eth

-- `eth_name i` is fmt.Sprintf("eth%d", i).
module _ (eth_name : ℕ → String) where
  unfoldable pub first_name : ℕ → ℕ → List Interface → List (ℕ × Option ℕ) → Option String
  first_name zero i infs eth = none
  first_name (suc fuel) i infs eth =
      let rest = first_name fuel (suc i) infs eth in
      if leb i max_nic
      then if name_taken infs (eth_name i) eth then rest else some (eth_name i)
      else none

  -- The name, or none where the code returns "".
  unfoldable pub next_available_dev_name : Networks → Option String
  unfolding first_name
  next_available_dev_name n = first_name (suc (length n.eth)) 0 n.infs n.eth

unfoldable pub free_slot : ℕ → Networks → Networks
free_slot i n = elim (lookup i n.eth) [
  | none ↦ n
  | some slot ↦ elim (follow n.infs slot) [
    | none ↦ record n { eth = delete i n.eth }
    | some inf ↦ record n { id_map = delete inf.id n.id_map; eth = delete i n.eth }
  ]
]
