-- ===== src/Lifecycle/Tests.antt =====
-- Lives of a sandbox, and the theorems at them.
use runv.Prelude.{
  arith, ◌≤◌, ◌≡◌, ◌≢◌, refl, ◌↔◌, true, false, some, none, List, [], ◌∷◌, ltb, if◌then◌else◌, ◌&&◌,
  inl,
}
use runv.Lifecycle.Events.{vm_exit, vm_timeout, shutdown_command, event_code}
use runv.Lifecycle.{
  fail_close, settle, dispatch, loop_receive, loop_test, fail_poweroff, step, Move, System,
  state_running, terminating, state_terminating, testing, receiving, exited, crashed, close, act,
  report_shutdown, init_context, launch, run, is_running, test, receive, finish, send, driver_send,
  arm, destroyed, fail_poweroff, fail_close, step, loop_test, loop_receive, dispatch, settle,
}
use runv.Lifecycle.Once.{teardown, freed, whole_teardown, run-teardown}
use runv.Lifecycle.Single.{starts, run-starts, run-is_running}
use runv.Lifecycle.Closing.{loop_ends, run-up}
use runv.Lifecycle.Races.{closed_beside-crashed, closed_before-revived}

-- A shutdown whose guest destroys its sandbox, and whose VM then exits.
abbrev clean : List Move
clean =
    test
    ∷ send (shutdown_command true)
    ∷ receive
    ∷ arm
    ∷ finish
    ∷ test
    ∷ destroyed true
    ∷ driver_send vm_exit
    ∷ receive
    ∷ test
    ∷ []

run-teardown_example :
    let c = (run (launch (init_context true 1024)) clean).ctx in
    (teardown c.actions ≡ (if c.close_done then whole_teardown else []))
    × (freed c.actions
        ≡ (if c.close_done then (if true && ltb 0 1024 then 1024 ∷ [] else []) else []))
run-teardown_example = run-teardown true 1024 clean

-- It did close.
clean_closes : (run (launch (init_context true 1024)) clean).ctx.close_done ≡ true
unfolding run launch init_context
clean_closes = refl

run-starts_example : starts (run (launch (init_context true 1024)) clean).ctx.actions ≤ 1
run-starts_example = run-starts true 1024 clean

run-is_running_example :
    let c = (run (launch (init_context false 0)) clean).ctx in
    (is_running c ≡ true) ↔ (c.handler ≡ some state_running)
run-is_running_example = run-is_running false 0 clean

abbrev exiting : System
exiting = record {
  ctx = record {
    handler = some state_terminating;
    current = terminating;
    timer = true;
    armed = true;
    close_done = false;
    enable_vsock = false;
    guest_cid = 0;
    actions = [];
  };
  position = testing;
  hub = vm_exit ∷ vm_timeout ∷ [];
  spawned = 0;
  destroying = 0;
  failing = 0;
  failed = 0;
}

loop_ends_example :
    let t = run exiting (test ∷ receive ∷ test ∷ []) in
    (t.position ≡ exited)
    × (t.ctx ≡ close (act report_shutdown exiting.ctx))
    × (t.ctx.close_done ≡ true)
    × (t.ctx.handler ≡ none)
    × (t.hub ≡ vm_timeout ∷ [])
unfolding event_code
loop_ends_example =
    loop_ends exiting state_terminating vm_exit (vm_timeout ∷ []) refl refl refl refl (inl refl)

run-up_example : (run (launch (init_context false 0)) clean).position ≢ crashed
run-up_example = run-up false 0 clean tt

-- A shutdown whose DestroySandbox fails while the loop waits, up to the Close.
abbrev waiting_loop : System
waiting_loop = run (launch (init_context false 0)) (
    send (shutdown_command true)
    ∷ test
    ∷ receive
    ∷ finish
    ∷ arm
    ∷ test
    ∷ destroyed false
    ∷ fail_poweroff
    ∷ [])

closed_beside-crashed_example :
    (run waiting_loop (fail_close ∷ driver_send vm_exit ∷ receive ∷ [])).position ≡ crashed
unfolding run step launch init_context loop_test loop_receive dispatch settle
closed_beside-crashed_example = closed_beside-crashed waiting_loop vm_exit refl (omega arith) refl

-- And one whose DestroySandbox fails before stateRunning calls Become.
abbrev becoming_loop : System
becoming_loop =
    run (launch (init_context true 1024))
      (send (shutdown_command true) ∷ test ∷ receive ∷ arm ∷ destroyed false ∷ fail_poweroff ∷ [])

closed_before-revived_example :
    let t = run becoming_loop (fail_close ∷ finish ∷ test ∷ []) in
    (t.ctx.close_done ≡ true)
    × (t.ctx.handler ≡ some state_terminating)
    × (t.position ≡ receiving)
    × (close t.ctx ≡ t.ctx)
unfolding run step launch init_context loop_test loop_receive dispatch settle
closed_before-revived_example =
    closed_before-revived becoming_loop state_terminating terminating [] refl (omega arith) refl
