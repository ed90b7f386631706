-- ===== src/Qmp/Unanswered.antt =====
-- What becomes of the sessions when the handler stops (hypervisor/qemu/qmp_handler.go).
use runv.Prelude.{
  true, false, some, none, some, list_cases, ℕ, ◌≡◌, refl, Bool, List, [], ◌∷◌, arith,
}
use runv.Qmp.{
  Handler, initializing, looping, Message, init, timeout, quit, shutdown, event, session, finish,
  feedback, succeeded, refused, broken, handle_loop, handle_initializing, handle_session,
  handle_finish, start_commander, feedback, finish, session, Handler, notify, start_commander,
  handle_finish, handle_session, handle_initializing, Message, handle_loop, stopped, Qmp,
  qmp_handler, push, handle_message, handle, next_command, handle_feedback, go_on, command, Move,
  submitted, quitted, timed_out, initialized, received, received_event, handled, commanded, receive,
  receive_event, initialize, step, run,
}

-- The handler has stopped, and nothing was answered since.
abbrev IsOver : Qmp → Qmp → Type 0
IsOver q t = (t.handler ≡ stopped) × (t.responded ≡ q.responded) × (t.buf ≡ q.buf)

step-IsOver :
    (marshals : ℕ → Bool) (q t : Qmp) (m : Move) → IsOver q t → IsOver q (step marshals t m)
unfolding step push handle handle_message command go_on next_command handle_feedback receive
    receive_event initialize
step-IsOver marshals q t (submitted s) o = ground (arith, o)
step-IsOver marshals q t quitted o = ground (arith, o)
step-IsOver marshals q t timed_out o = ground (arith, o)
step-IsOver marshals q t (initialized ok) o = ground (arith, o)
step-IsOver marshals q t (received f) o = ground (arith, o)
step-IsOver marshals q t (received_event stops) o = ground (arith, o)
step-IsOver marshals q t handled o = ground (arith, o)
step-IsOver marshals q t commanded o = ground (arith, o)

run-IsOver :
    (marshals : ℕ → Bool) (q t : Qmp) (ms : List Move) → IsOver q t → IsOver q (run marshals t ms)
unfolding run
run-IsOver marshals q t [] o = o
run-IsOver marshals q t (m ∷ ms) o =
    run-IsOver marshals q (step marshals t m) ms (step-IsOver marshals q t m o)

-- The message at which the handler stops leaves the sessions as they are.
handle_message-Stops :
    (h : Handler) (m : Message) (behind q : Qmp)
    → (h ≡ stopped → ⊥)
    → behind.handler ≡ h
    → (handle_message h m behind q).handler ≡ stopped
    → IsOver behind (handle_message h m behind q)
unfolding handle_message handle_loop handle_initializing handle_session handle_finish
    start_commander notify
handle_message-Stops initializing init b q n e s = ground (arith, n, e, s)
handle_message-Stops initializing timeout b q n e s = ground (arith, n, e, s)
handle_message-Stops initializing quit b q n e s = ground (arith, n, e, s)
handle_message-Stops initializing shutdown b q n e s = ground (arith, n, e, s)
handle_message-Stops initializing event b q n e s = ground (arith, n, e, s)
handle_message-Stops initializing (session x) b q n e s = ground (arith, n, e, s)
handle_message-Stops initializing (finish r true) b q n e s = ground (arith, n, e, s)
handle_message-Stops initializing (finish r false) b q n e s = (refl, refl, refl)
handle_message-Stops initializing (feedback f) b q n e s = ground (arith, n, e, s)
handle_message-Stops looping init b q n e s = ground (arith, n, e, s)
handle_message-Stops looping timeout b q n e s = ground (arith, n, e, s)
handle_message-Stops looping quit b q n e s = (refl, refl, refl)
handle_message-Stops looping shutdown b q n e s = (refl, refl, refl)
handle_message-Stops looping event b q n e s = ground (arith, n, e, s)
handle_message-Stops looping (session x) b q n e s = ground (arith, n, e, s)
handle_message-Stops looping (finish none ok) b q n e s = ground (arith, n, e, s)
handle_message-Stops looping (finish (some c) ok) b q n e s = ground (arith, n, e, s)
handle_message-Stops looping (feedback succeeded) b q n e s = ground (arith, n, e, s)
handle_message-Stops looping (feedback refused) b q n e s = ground (arith, n, e, s)
handle_message-Stops looping (feedback broken) b q n e s = (refl, refl, refl)
handle_message-Stops stopped m b q n e s = absurd (n refl)

handle-Stops :
    (q : Qmp) → (q.handler ≡ stopped → ⊥) → (handle q).handler ≡ stopped → IsOver q (handle q)
unfolding handle
handle-Stops q n =
    list_cases (λ (t : Qmp). t.handler ≡ stopped → IsOver q t) q.queue q
      (λ m rest. handle_message q.handler m (record q { queue = rest }) q) (λ e s. absurd (n s))
      (λ m rest e s. handle_message-Stops q.handler m (record q { queue = rest }) q n refl s)

-- Only the handler stops itself.
step-Stops :
    (marshals : ℕ → Bool) (q : Qmp) (m : Move)
    → (q.handler ≡ stopped → ⊥)
    → (step marshals q m).handler ≡ stopped
    → IsOver q (step marshals q m)
unfolding step push command go_on next_command handle_feedback receive receive_event initialize
step-Stops marshals q (submitted x) n s = absurd (n s)
step-Stops marshals q quitted n s = absurd (n s)
step-Stops marshals q timed_out n s = absurd (n s)
step-Stops marshals q (initialized ok) n s = ground (arith, n, s)
step-Stops marshals q (received f) n s = ground (arith, n, s)
step-Stops marshals q (received_event stops) n s = ground (arith, n, s)
step-Stops marshals q handled n s = handle-Stops q n s
step-Stops marshals q commanded n s = ground (arith, n, s)

-- Whatever history led there and whatever makes the handler stop, the end of the process, a broken
-- connection, the driver's request to quit or a failed start, no session is answered by that step
-- or after it: `buf` holds the sessions that it held before, for ever.
pub run-unanswered :
    (marshals : ℕ → Bool) (ms later : List Move) (m : Move)
    → let q = run marshals qmp_handler ms in
      let t = step marshals q m in
      let u = run marshals t later in
      (q.handler ≡ stopped → ⊥)
      → t.handler ≡ stopped
      → (u.responded ≡ q.responded) × (u.buf ≡ q.buf)
run-unanswered marshals ms later m n h =
    let q = run marshals qmp_handler ms in
    let o = run-IsOver marshals q (step marshals q m) later (step-Stops marshals q m n h) in
    (o.1, o.2)
