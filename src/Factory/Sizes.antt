-- ===== src/Factory/Sizes.antt =====
-- The size of the virtual machine that a factory hands out (factory/single/single.go).
use runv.Prelude.{
  ℕ, ◌≤◌, ◌<◌, ◌≡◌, refl, sym, subst, true, false, Bool, ◌&&◌, ◌||◌, some, if◌then◌else◌, ltb,
  arith, if_cases,
}
use runv.Factory.Vms.{
  Answers, Vm, new_vm, launch_vm, call, pause, set_cpus, add_mem, online_cpu_mem, get_vm,
}
use runv.Factory.Bases.{Config, Got, got, kept_or_killed, dummy_get_vm, grow, single_get_vm}

-- A virtual machine that runs, is as large as was asked for, and is not paused.
pub record Serves (cpu mem : ℕ) (vm : Vm) : Type 0 where
  pub enough_cpu : cpu ≤ vm.cpu
  pub enough_mem : mem ≤ vm.mem
  pub unpaused : vm.paused ≡ false
  pub up : vm.running ≡ true

unpause_lem :
    (a : Answers) (vm : Vm)
    → vm.running ≡ true
    → a.driver_paused ≡ true
    → a.unpaused ≡ true
    → let v = (pause a false vm).1 in
      (v.paused ≡ false) × (v.running ≡ true) × (v.cpu ≡ vm.cpu) × (v.mem ≡ vm.mem)
unfolding pause call
unpause_lem a vm r d u = ground arith

set_cpus_lem :
    (a : Answers) (cpu : ℕ) (vm : Vm)
    → vm.running ≡ true
    → a.cpus_set ≡ true
    → let (ok, v) = set_cpus a cpu vm in
      (ok ≡ true) × (cpu ≤ v.cpu) × (v.mem ≡ vm.mem) × (v.paused ≡ vm.paused) × (v.running ≡ true)
unfolding set_cpus call
set_cpus_lem a cpu vm r d = ground arith

add_mem_lem :
    (a : Answers) (mem : ℕ) (vm : Vm)
    → vm.running ≡ true
    → a.mem_added ≡ true
    → let (ok, v) = add_mem a mem vm in
      (ok ≡ true) × (mem ≤ v.mem) × (v.cpu ≡ vm.cpu) × (v.paused ≡ vm.paused) × (v.running ≡ true)
unfolding add_mem call
add_mem_lem a mem vm r d = ground arith

-- Every call of the driver and of the agent succeeds.
pub record Succeeds (a : Answers) : Type 0 where
  pub launched : a.launched ≡ true
  pub resumed : a.driver_paused ≡ true
  pub unpaused : a.unpaused ≡ true
  pub cpus_set : a.cpus_set ≡ true
  pub mem_added : a.mem_added ≡ true

grow-Serves :
    (a : Answers) (cpu mem : ℕ) (base : Vm)
    → Succeeds a
    → base.running ≡ true
    → ((grow a cpu mem base).0 ≡ true) × Serves cpu mem (grow a cpu mem base).1
unfolding grow online_cpu_mem call
grow-Serves a cpu mem base s r =
    let vm = (pause a false base).1 in
    let (p, q, _, _) = unpause_lem a base r s.resumed s.unpaused in
    let (c₁, c₂, c₃, c₄, c₅) = set_cpus_lem a cpu vm q s.cpus_set in
    let vm₁ = if ltb vm.cpu cpu then (set_cpus a cpu vm).1 else vm in
    let r₁ : vm₁.running ≡ true = ground arith in
    let (m₁, m₂, m₃, m₄, m₅) = add_mem_lem a mem vm₁ r₁ s.mem_added in
    (
      ground arith,
      record {
        enough_cpu = ground arith;
        enough_mem = ground arith;
        unpaused = ground arith;
        up = ground arith;
      },
    )

-- A virtual machine that runs, is as large as was asked for, and is paused exactly when it is a fresh
-- one that was booted from a template.
pub record Starts (template : Bool) (cpu mem : ℕ) (vm : Vm) : Type 0 where
  pub enough_cpu : cpu ≤ vm.cpu
  pub enough_mem : mem ≤ vm.mem
  pub same_pause : vm.paused ≡ template
  pub up : vm.running ≡ true

launch_vm-Starts :
    (template : Bool) (cpu mem : ℕ)
    → Starts (template && true) cpu mem (launch_vm template (new_vm cpu mem))
unfolding launch_vm new_vm
launch_vm-Starts true cpu mem = record {
  enough_cpu = omega arith;
  enough_mem = omega arith;
  same_pause = refl;
  up = refl;
}
launch_vm-Starts false cpu mem = record {
  enough_cpu = omega arith;
  enough_mem = omega arith;
  same_pause = refl;
  up = refl;
}

-- When every call succeeds, a single factory hands out a virtual machine that runs and is as large as
-- was asked for, from a base whose virtual machine runs, of whatever size, and also for a request
-- that is smaller than the base. It is paused exactly when the request is smaller than the base and
-- the base boots from a template.
pub single_get_vm-Starts :
    (a : Answers) (config : Config) (base : Vm) (cpu mem : ℕ)
    → Succeeds a
    → base.running ≡ true
    → (vm : Vm) × (single_get_vm a config (some base) cpu mem ≡ got vm)
      × Starts (config.template && (ltb cpu config.cpu || ltb mem config.memory)) cpu mem vm
unfolding single_get_vm
single_get_vm-Starts a config base cpu mem s r =
    let smaller = ltb cpu config.cpu || ltb mem config.memory in
    let P : Got → Type 0 =
      λ g. (vm : Vm) × (g ≡ got vm) × Starts (config.template && smaller) cpu mem vm in
    if_cases P smaller (dummy_get_vm a config.template cpu mem)
      (kept_or_killed (grow a cpu mem base))
      (λ y.
        unfold dummy_get_vm get_vm in
        (
          launch_vm config.template (new_vm cpu mem),
          rw (s.launched) refl,
          subst
              (λ b.
                Starts (config.template && b) cpu mem (launch_vm config.template (new_vm cpu mem)))
              (sym y) (launch_vm-Starts config.template cpu mem),
        ))
      (λ n.
        let (ok, serves) = grow-Serves a cpu mem base s r in
        unfold kept_or_killed in
        (
          (grow a cpu mem base).1,
          ground arith,
          record {
            enough_cpu = serves.enough_cpu;
            enough_mem = serves.enough_mem;
            same_pause = ground (arith, n, serves.unpaused);
            up = serves.up;
          },
        ))

grow_short :
    (a : Answers) (cpu mem : ℕ) (base : Vm)
    → a.cpus_set ≡ false
    → a.mem_added ≡ true
    → base.running ≡ true
    → base.cpu < cpu
    → base.mem < mem
    → ((grow a cpu mem base).0 ≡ true) × ((grow a cpu mem base).1.cpu ≡ base.cpu)
unfolding grow pause set_cpus add_mem online_cpu_mem call
grow_short a cpu mem base c m r l h = ground arith

-- When processors and memory both have to be added to the base's virtual machine and only the
-- processors cannot be, a single factory hands out the virtual machine all the same, without an
-- error and with fewer processors than were asked for.
pub single_get_vm-short :
    (a : Answers) (config : Config) (base : Vm) (cpu mem : ℕ)
    → config.cpu ≤ cpu
    → config.memory ≤ mem
    → a.cpus_set ≡ false
    → a.mem_added ≡ true
    → base.running ≡ true
    → base.cpu < cpu
    → base.mem < mem
    → (vm : Vm) × (single_get_vm a config (some base) cpu mem ≡ got vm) × (vm.cpu < cpu)
unfolding single_get_vm kept_or_killed
single_get_vm-short a config base cpu mem u w c m r l h =
    let (ok, same) = grow_short a cpu mem base c m r l h in
    let small : (ltb cpu config.cpu || ltb mem config.memory) ≡ false = ground arith in
    ((grow a cpu mem base).1, ground arith, omega (arith, same, l))

grow_paused :
    (a : Answers) (cpu mem : ℕ) (base : Vm)
    → a.driver_paused ≡ false
    → a.cpus_set ≡ true
    → a.mem_added ≡ true
    → base.running ≡ true
    → base.paused ≡ true
    → ((grow a cpu mem base).0 ≡ true) × ((grow a cpu mem base).1.paused ≡ true)
unfolding grow pause set_cpus add_mem online_cpu_mem call
grow_paused a cpu mem base d c m r p = ground arith

-- When the base's virtual machine, which is paused, cannot be resumed, and all else succeeds, a
-- single factory hands it out paused, without an error.
pub single_get_vm-paused :
    (a : Answers) (config : Config) (base : Vm) (cpu mem : ℕ)
    → config.cpu ≤ cpu
    → config.memory ≤ mem
    → a.driver_paused ≡ false
    → a.cpus_set ≡ true
    → a.mem_added ≡ true
    → base.running ≡ true
    → base.paused ≡ true
    → (vm : Vm) × (single_get_vm a config (some base) cpu mem ≡ got vm) × (vm.paused ≡ true)
unfolding single_get_vm kept_or_killed
single_get_vm-paused a config base cpu mem u w d c m r p =
    let (ok, still) = grow_paused a cpu mem base d c m r p in
    let small : (ltb cpu config.cpu || ltb mem config.memory) ≡ false = ground arith in
    ((grow a cpu mem base).1, ground arith, still)
