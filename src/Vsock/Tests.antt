-- ===== src/Vsock/Tests.antt =====
-- Runs of the cid allocator of lib/vsock/vsock.go, and the theorems at concrete allocators.
use mathlib.Core.List.{Memᴰ}
use runv.Prelude.{◌≡◌, refl, true, false, [], ◌∷◌, arith}
use runv.Vsock.Roaring.{function_bitmap}
use runv.Vsock.{Allocator, cid, scan, candidate, get_cid, release_cid, mark_cid_inuse}
use runv.Vsock.Usage.{IsValid, in_use, Gets, get_cid-Gets}
use runv.Vsock.Traces.{get, release, run, run-in_use}

abbrev small : Allocator function_bitmap
small = record { bitmap = λ x. false; start = 3; size = 2; pivot = 4 }

small-IsValid : IsValid function_bitmap small
small-IsValid = omega arith

-- The pivot wraps to the start of the range, a released cid comes back, and then none is left.
small_history :
    (run function_bitmap small (get ∷ get ∷ get ∷ release 4 ∷ get ∷ [])).1 ≡ 4 ∷ 3 ∷ 4 ∷ []
unfolding run get_cid scan candidate release_cid
small_history = refl

get_cid-Gets_example : Gets function_bitmap small (get_cid function_bitmap small)
get_cid-Gets_example = get_cid-Gets function_bitmap small small-IsValid

abbrev marked : Allocator function_bitmap
marked = (mark_cid_inuse function_bitmap small 3).0

marked-IsValid : IsValid function_bitmap marked
unfolding mark_cid_inuse
marked-IsValid = omega arith

third_taken : in_use function_bitmap marked 3 ≡ true
unfolding mark_cid_inuse
third_taken = refl

run-in_use_example :
    (¬ Memᴰ 3 (run function_bitmap marked (get ∷ release 4 ∷ get ∷ [])).1)
    × (in_use function_bitmap (run function_bitmap marked (get ∷ release 4 ∷ get ∷ [])).0 3 ≡ true)
run-in_use_example =
    run-in_use function_bitmap marked (get ∷ release 4 ∷ get ∷ []) 3 marked-IsValid third_taken
      ((λ e. omega (arith, e)), tt)

got_four : (get_cid function_bitmap small).1 ≡ cid 4
unfolding get_cid scan candidate
got_four = refl
