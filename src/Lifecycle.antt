-- ===== src/Lifecycle.antt =====
-- hypervisor/vm_states.go, the event loop of hypervisor/hypervisor.go and the life of a VmContext in
-- hypervisor/context.go: its state handlers, timer, Become and Close, and the goroutine of
-- shutdownVM. What the code does to the agent, the driver and the client's channel is an `Action`.
pub mod Events
pub mod Once
pub mod Single
pub mod Closing
pub mod Races
mod Tests
use Prim.Native.String.{String}
use Events.{
  Event, Code, event_code, vm_exit_code, vm_kill_code, vm_timeout_code, shutdown_code, release_code,
  pause_code, start_failed_code, init_fail_code, interrupted_code, vm_timeout,
}
use runv.Prelude.{
  ℕ, zero, suc, ◌+◌, ◌-◌, Bool, true, false, ◌&&◌, Option, none, some, List, [], ◌∷◌, ◌++◌, ltb,
  if◌then◌else◌,
}

-- `ctx.current`. `closed` is the string "None" that Close writes, beside StateNone, "NONE".
pub data Current : Type 0 where
  running terminating released closed : Current

pub data Handler : Type 0 where
  state_running state_terminating : Handler

pub data Action : Type 0 where
  report_shutdown report_fault kill close_agent stop_timer close_networks close_driver : Action
  close_client remove_share_dir spawn_shutdown : Action
  report_success : String → Action
  report_unexpected : Code → String → Action
  start_timer : ℕ → Action
  release_cid : ℕ → Action

-- The fields of VmContext that its life turns on. `timer` tells whether `ctx.timer` is set, `armed`
-- whether that timer has still to fire. `actions` has the newest first.
pub record Context : Type 0 where
  pub handler : Option Handler
  pub current : Current
  pub timer : Bool
  pub armed : Bool
  pub close_done : Bool
  pub enable_vsock : Bool
  pub guest_cid : ℕ
  pub actions : List Action

unfoldable pub act : Action → Context → Context
act a c = record c { actions = a ∷ c.actions }

-- As InitContext leaves it.
unfoldable pub init_context : Bool → ℕ → Context
init_context vsock cid = record {
  handler = some state_running;
  current = running;
  timer = false;
  armed = false;
  close_done = false;
  enable_vsock = vsock;
  guest_cid = cid;
  actions = [];
}

unfoldable pub unset_timeout : Context → Context
unfolding act
unset_timeout c = if c.timer then record (act stop_timer c) { timer = false; armed = false } else c

unfoldable pub set_timeout : ℕ → Context → Context
unfolding unset_timeout act
set_timeout seconds c =
    let c' = if c.timer then unset_timeout c else c in
    record (act (start_timer seconds) c') { timer = true; armed = true }

unfoldable pub release_guest_cid : Context → Context
unfolding act
release_guest_cid c =
    if c.enable_vsock && ltb 0 c.guest_cid
    then record (act (release_cid c.guest_cid) c) { guest_cid = 0 }
    else c

-- The function that closeOnce runs.
unfoldable pub close_body : Context → Context
unfolding act unset_timeout release_guest_cid
close_body c =
    let c₁ = unset_timeout (act close_agent c) in
    let c₂ = act remove_share_dir (act close_client (act close_driver (act close_networks c₁))) in
    release_guest_cid (record c₂ { handler = none; current = closed })

unfoldable pub close : Context → Context
unfolding close_body
close c = if c.close_done then c else record (close_body c) { close_done = true }

unfoldable pub become : Option Handler → Current → Context → Context
become h d c = record c { handler = h; current = d }

unfoldable pub is_running : Context → Bool
is_running c = elim c.current [ running ↦ true | _ ↦ false ]

unfoldable pub poweroff_vm : Context → Context
unfolding act
poweroff_vm c = elim c.handler [ none ↦ c | some h ↦ act kill c ]

unfoldable pub unexpected_event_handler : Code → String → Context → Context
unfolding act
unexpected_event_handler shutdown_code state c = act (report_unexpected shutdown_code state) c
unexpected_event_handler release_code state c = act (report_unexpected release_code state) c
unexpected_event_handler pause_code state c = act (report_unexpected pause_code state) c
unexpected_event_handler _ state c = c

-- A handler runs up to its call of Become, whose arguments it hands over: another goroutine may run
-- before that call. `stay` is for the branches that do not call it, and `go_shutdown` for the one
-- that first starts a goroutine of shutdownVM.
pub data Next : Type 0 where
  stay : Next
  go_shutdown : Option Handler → Current → Next
  then_become : Option Handler → Current → List Action → Next

unfoldable pub state_running_on : Code → Context → Context × Next
unfolding act close poweroff_vm unexpected_event_handler
state_running_on shutdown_code c =
    (act spawn_shutdown c, go_shutdown (some state_terminating) terminating)
state_running_on release_code c = (c, then_become none released (report_success "" ∷ []))
state_running_on vm_exit_code c = (close (act report_shutdown c), stay)
state_running_on start_failed_code c = (close (act report_shutdown c), stay)
state_running_on vm_kill_code c = (close (act report_shutdown c), stay)
state_running_on vm_timeout_code c = (c, stay)
state_running_on init_fail_code c = (close (poweroff_vm c), stay)
state_running_on interrupted_code c = (close (poweroff_vm c), stay)
state_running_on code c = (unexpected_event_handler code "pod running" c, stay)

unfoldable pub state_terminating_on : Code → Context → Context × Next
unfolding act close poweroff_vm unexpected_event_handler
state_terminating_on vm_exit_code c = (close (act report_shutdown c), stay)
state_terminating_on vm_kill_code c = (close (act report_shutdown c), stay)
state_terminating_on release_code c = (c, stay)
state_terminating_on vm_timeout_code c = (close (poweroff_vm c), stay)
state_terminating_on interrupted_code c = (c, stay)
state_terminating_on code c = (unexpected_event_handler code "terminating" c, stay)

unfoldable pub handle : Handler → Code → Context → Context × Next
unfolding state_running_on state_terminating_on
handle state_running code c = state_running_on code c
handle state_terminating code c = state_terminating_on code c

-- Where the goroutine of `loop` stands: before the test of its `for`, at the receive, before the
-- Become of a handler, after the loop, or dead from a call of a nil handler.
pub data Position : Type 0 where
  testing receiving exited crashed : Position
  becoming : Option Handler → Current → List Action → Position

-- A sandbox: the context, the loop, the channel Hub, and how many goroutines of shutdownVM stand
-- before setTimeout, in DestroySandbox, before the poweroff and before the Close of a failure.
pub record System : Type 0 where
  pub ctx : Context
  pub position : Position
  pub hub : List Event
  pub spawned : ℕ
  pub destroying : ℕ
  pub failing : ℕ
  pub failed : ℕ

unfoldable pub launch : Context → System
launch c = record {
  ctx = c;
  position = testing;
  hub = [];
  spawned = 0;
  destroying = 0;
  failing = 0;
  failed = 0;
}

-- A step of one goroutine. A step that its goroutine cannot take changes nothing.
pub data Move : Type 0 where
  -- The loop: the test of its `for`, the receive with the handler, and the rest from Become on.
  test receive finish : Move
  -- SendVmEvent, a driver's write to the Hub, and the timer's function.
  send driver_send : Event → Move
  timer_fires : Move
  -- shutdownVM: its setTimeout, the answer of DestroySandbox, poweroffVM after an error, and Close.
  arm : Move
  destroyed : Bool → Move
  fail_poweroff fail_close : Move
  -- Vm.Kill.
  kill_vm : Move

abbrev perform : List Action → Context → Context
perform later c = record c { actions = later ++ c.actions }

-- The loop after a handler that left the context `c`.
settle : Next → Context → System → System
settle stay c s = record s { ctx = c; position = testing }
settle (go_shutdown h d) c s = record s {
  ctx = c;
  position = becoming h d [];
  spawned = s.spawned + 1;
}
settle (then_become h d later) c s = record s { ctx = c; position = becoming h d later }

dispatch : Option Handler → Event → System → System
unfolding handle event_code settle
dispatch none ev s = record s { position = crashed }
dispatch (some h) ev s = let (c, next) = handle h (event_code ev) s.ctx in settle next c s

loop_test : Position → System → System
loop_test testing s = record s {
  position = elim s.ctx.handler [ none ↦ exited | some h ↦ receiving ];
}
loop_test _ s = s

loop_receive : Position → List Event → System → System
unfolding dispatch
loop_receive receiving (ev ∷ hub) s = dispatch s.ctx.handler ev (record s { hub = hub })
loop_receive _ hub s = s

loop_finish : Position → System → System
unfolding become
loop_finish (becoming h d later) s = record s {
  ctx = perform later (become h d s.ctx);
  position = testing;
}
loop_finish _ s = s

send_vm_event : Event → Option Handler → System → System
send_vm_event ev none s = s
send_vm_event ev (some h) s = record s { hub = s.hub ++ ev ∷ [] }

unfoldable pub step : System → Move → System
unfolding loop_test loop_receive loop_finish send_vm_event set_timeout poweroff_vm close
step s test = loop_test s.position s
step s receive = loop_receive s.position s.hub s
step s finish = loop_finish s.position s
step s (send ev) = send_vm_event ev s.ctx.handler s
step s (driver_send ev) = record s { hub = s.hub ++ ev ∷ [] }
step s timer_fires =
    if s.ctx.armed
    then record s { ctx = record (s.ctx) { armed = false }; hub = s.hub ++ vm_timeout ∷ [] }
    else s
step s arm =
    if ltb 0 s.spawned
    then record s {
      ctx = set_timeout 10 s.ctx;
      spawned = s.spawned - 1;
      destroying = s.destroying + 1;
    }
    else s
step s (destroyed true) =
    if ltb 0 s.destroying
    then record s { ctx = poweroff_vm s.ctx; destroying = s.destroying - 1 }
    else s
step s (destroyed false) =
    if ltb 0 s.destroying
    then record s { destroying = s.destroying - 1; failing = s.failing + 1 }
    else s
step s fail_poweroff =
    if ltb 0 s.failing
    then record s { ctx = poweroff_vm s.ctx; failing = s.failing - 1; failed = s.failed + 1 }
    else s
step s fail_close =
    if ltb 0 s.failed then record s { ctx = close s.ctx; failed = s.failed - 1 } else s
step s kill_vm = record s { ctx = poweroff_vm s.ctx }

unfoldable pub run : System → List Move → System
unfolding step
run s [] = s
run s (m ∷ ms) = run (step s m) ms
