-- ===== src/Resources/Groups.antt =====
-- How many calls of Done a sandbox's disks still owe to a WaitGroup (hypervisor/disk.go).
use Prim.Native.String.{String}
use runv.Prelude.{
  ℕ, zero, suc, ◌+◌, ◌-◌, ◌≤◌, ◌<◌, ◌≡◌, refl, some, List, [], ◌∷◌, ◌++◌, if◌then◌else◌, get_elem?,
  set, insert, delete, ◌==◌, string_eq, arith,
}
use runv.Resources.Disks.{Disk}
use runv.Resources.State.{Sandbox, update, group_done}
use runv.Resources.Methods.{all_done}

-- How often a WaitGroup stands among the observers of a disk.
unfoldable pub count : ℕ → List (String × ℕ) → ℕ
count g [] = 0
count g ((id, h) ∷ obs) = (if h == g then 1 else 0) + count g obs

abbrev pub owed_by : ℕ → Disk → ℕ
owed_by g d = if d.inserting then count g d.observers else 0

unfoldable pub owed : ℕ → List Disk → ℕ
owed g [] = 0
owed g (d ∷ ds) = owed_by g d + owed g ds

pub count-nil : (g : ℕ) → count g [] ≡ 0
unfolding count
count-nil g = refl

pub count-delete :
    (g : ℕ) (id : String) (obs : List (String × ℕ)) → count g (delete id obs) ≤ count g obs
unfolding count delete
count-delete g id [] = omega arith
count-delete g id ((j, h) ∷ obs) = ground (arith, count-delete g id obs)

pub count-insert :
    (g h : ℕ) (id : String) (obs : List (String × ℕ))
    → count g (insert id h obs) ≤ (if h == g then 1 else 0) + count g obs
unfolding count insert
count-insert g h id obs = ground (arith, count-delete g id obs)

pub owed-set :
    (g p : ℕ) (d₀ d : Disk) (ds : List Disk)
    → get_elem? ds p ≡ some d₀
    → owed g (set ds p d) + owed_by g d₀ ≡ owed g ds + owed_by g d
unfolding owed
owed-set g p d₀ d [] e = cc
owed-set g zero d₀ d (x ∷ ds) e = ground arith
owed-set g (suc p) d₀ d (x ∷ ds) e = omega (arith, owed-set g p d₀ d ds e)

pub owed-snoc :
    (g : ℕ) (ds : List Disk) (d : Disk) → owed g (ds ++ d ∷ []) ≡ owed g ds + owed_by g d
unfolding owed
owed-snoc g [] d = omega arith
owed-snoc g (x ∷ ds) d = omega (arith, owed-snoc g ds d)

group_done_lem :
    (g : ℕ) (s : Sandbox)
    → 0 < s.groups g
    → group_done g s ≡ record s { groups = update s.groups g (s.groups g - 1) }
unfolding group_done
group_done_lem g s h = ground arith

-- What a run of Done over observers does, when no counter is too low.
pub all_done_lem :
    (obs : List (String × ℕ)) (s : Sandbox)
    → ((g : ℕ) → count g obs ≤ s.groups g)
    → (gs : ℕ → ℕ) × (all_done obs s ≡ record s { groups = gs })
      × ((g : ℕ) → gs g + count g obs ≡ s.groups g)
unfolding all_done count
all_done_lem [] s h = (s.groups, refl, λ g. omega arith)
all_done_lem ((id, g) ∷ obs) s h =
    let e = group_done_lem g s (ground (arith, h g)) in
    let s' = record s { groups = update s.groups g (s.groups g - 1) } in
    let (gs, f, c) = all_done_lem obs s' (λ j. unfold update in ground (arith, h j)) in
    (gs, rw e f, λ j. unfold update in ground (arith, c j, h j))
