-- ===== src/Networks/Addresses.antt =====
-- The loop over addresses of updateInterface (hypervisor/network.go).
use Prim.Native.String.{String, ◌∷◌ as cons, [] as empty}
use Prim.Native.Char.{code}
use text.Mathlib.Text.{◌==◌ as str_eq}
use runv.Prelude.{Bool, true, false, Option, none, some, List, [], ◌∷◌, ◌++◌, if◌then◌else◌, ◌==◌}

-- How the loop ends: it is through, it returns an error, or it reads the first character of an
-- empty text, which is a panic.
pub data Ending : Type 0 where
  through : List String → Ending
  not_found : String → Ending
  out_of_range : Ending

-- The first address that is the given one is taken off, if there is one.
unfoldable pub take_off : String → List String → Option (List String)
take_off ip [] = none
take_off ip (a ∷ addrs) =
    let rest = take_off ip addrs in
    if str_eq a ip then some addrs else elim rest [ none ↦ none | some left ↦ some (a ∷ left) ]

abbrev pub is_empty : String → Bool
is_empty empty = true
is_empty (cons c s) = false

-- Whether the first character is "-".
abbrev pub starts_minus : String → Bool
starts_minus empty = false
starts_minus (cons c s) = code c == 45

abbrev pub tail : String → String
tail empty = empty
tail (cons c s) = s

unfoldable pub update_addrs : List String → List String → Ending
unfolding take_off
update_addrs [] old = through old
update_addrs (ip ∷ ips) old =
    if is_empty ip
    then out_of_range
    else if starts_minus ip
    then elim (take_off (tail ip) old) [
      | none ↦ not_found (tail ip)
      | some left ↦ update_addrs ips left
    ]
    else update_addrs ips (old ++ ip ∷ [])

-- The parts of the text that strings.Join makes of addresses: none make the empty text.
abbrev pub join : List String → List String
join [] = "" ∷ []
join (a ∷ addrs) = a ∷ addrs
