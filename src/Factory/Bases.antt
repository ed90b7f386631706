-- ===== src/Factory/Bases.antt =====
-- The factories: direct, single and multi (factory/direct, factory/single, factory/multi).
use runv.Prelude.{
  ℕ, Bool, true, false, ◌&&◌, ◌||◌, Option, none, some, List, [], ◌∷◌, if◌then◌else◌, leb, ltb,
  ◌==◌,
}
use runv.Factory.Vms.{Answers, Vm, pause, set_cpus, add_mem, online_cpu_mem, kill, get_vm}

-- The sizes in a BootConfig, and BootFromTemplate.
pub record Config : Type 0 where
  pub cpu : ℕ
  pub memory : ℕ
  pub template : Bool

-- A virtual machine, an error after which it was killed, or an error without one.
pub data Got : Type 0 where
  got killed : Vm → Got
  failed : Got

unfoldable pub kept_or_killed : Bool × Vm → Got
unfolding kill
kept_or_killed (true, vm) = got vm
kept_or_killed (false, vm) = killed (kill vm)

-- directFactory.GetBaseVm.
unfoldable pub get_base_vm : Answers → Config → Got
unfolding get_vm pause kept_or_killed
get_base_vm a config = elim (get_vm a config.template config.cpu config.memory true) [
  | none ↦ failed
  | some vm ↦ kept_or_killed (pause a true vm)
]

-- Dummy.GetVm. It keeps BootFromTemplate.
unfoldable pub dummy_get_vm : Answers → Bool → ℕ → ℕ → Got
unfolding get_vm
dummy_get_vm a template cpu mem = elim (get_vm a template cpu mem false) [
  | none ↦ failed
  | some vm ↦ got vm
]

-- What Factory.GetVm of factory/single does with the base's virtual machine. `err` is that of the
-- last of the two calls that is made.
unfoldable pub grow : Answers → ℕ → ℕ → Vm → Bool × Vm
unfolding pause set_cpus add_mem online_cpu_mem
grow a cpu mem base =
    let vm = (pause a false base).1 in
    let (ok₁, vm₁) = if ltb vm.cpu cpu then set_cpus a cpu vm else (true, vm) in
    let (ok₂, vm₂) = if ltb vm₁.mem mem then add_mem a mem vm₁ else (ok₁, vm₁) in
    (ok₂, if ltb vm.cpu cpu || ltb vm₁.mem mem then online_cpu_mem vm₂ else vm₂)

-- Factory.GetVm of factory/single, over a base factory with what its GetBaseVm returns.
unfoldable pub single_get_vm : Answers → Config → Option Vm → ℕ → ℕ → Got
unfolding dummy_get_vm grow kept_or_killed
single_get_vm a config base cpu mem =
    if ltb cpu config.cpu || ltb mem config.memory
    then dummy_get_vm a config.template cpu mem
    else elim base [ none ↦ failed | some vm ↦ kept_or_killed (grow a cpu mem vm) ]

-- sortingFactory.Less.
unfoldable pub less : Config → Config → Bool
less c d = ltb c.cpu d.cpu || ((c.cpu == d.cpu) && ltb c.memory d.memory)

-- sort.Sort(sort.Reverse(…)): the greatest first. Nothing is relied on but that the result is sorted
-- and has the same elements.
unfoldable pub place : Config → List Config → List Config
unfolding less
place c [] = c ∷ []
place c (d ∷ ds) = let rest = place c ds in if less c d then d ∷ rest else c ∷ d ∷ ds

unfoldable pub new_multi : List Config → List Config
unfolding place
new_multi [] = []
new_multi (c ∷ cs) = place c (new_multi cs)

abbrev pub fits : Config → ℕ → ℕ → Bool
fits c cpu mem = leb c.cpu cpu && leb c.memory mem

-- The base that Factory.GetVm of factory/multi takes, or none where it starts a virtual machine of
-- its own.
unfoldable pub choose : List Config → ℕ → ℕ → Option Config
choose [] cpu mem = none
choose (c ∷ cs) cpu mem = let rest = choose cs cpu mem in if fits c cpu mem then some c else rest
