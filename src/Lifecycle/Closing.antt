-- ===== src/Lifecycle/Closing.antt =====
-- How the event loop of hypervisor/hypervisor.go ends, and when it stays alive.
use runv.Prelude.{
  ◌≢◌, sym, ℕ, ◌≡◌, refl, ap, ◌∙◌, Bool, true, false, Option, none, some, List, [], ◌∷◌, ltb,
  if◌then◌else◌, arith, ◌⊎◌,
}
use runv.Lifecycle.Events.{Event, Code, event_code, vm_exit_code, vm_kill_code}
use runv.Lifecycle.{
  Handler, Context, System, Position, Move, Next, report_shutdown, stay, go_shutdown, then_become,
  testing, receiving, exited, crashed, becoming, act, init_context, set_timeout, close, poweroff_vm,
  handle, settle, dispatch, loop_test, loop_receive, loop_finish, send_vm_event, step, run, launch,
  test, receive, finish, send, driver_send, timer_fires, arm, destroyed, fail_poweroff, fail_close,
  kill_vm,
}

-- Of the VM's own end, and of its being killed, the loop learns by these.
abbrev pub IsEnd : Event → Type 0
IsEnd ev = (event_code ev ≡ vm_exit_code) ⊎ (event_code ev ≡ vm_kill_code)

handle_end :
    (h : Handler) (k : Code) (c : Context)
    → (k ≡ vm_exit_code) ⊎ (k ≡ vm_kill_code)
    → handle h k c ≡ (close (act report_shutdown c), stay)
unfolding handle close act
handle_end h k c e = ground arith

two_steps :
    (s : System) (h : Handler) (ev : Event) (rest : List Event)
    → s.position ≡ testing
    → s.ctx.handler ≡ some h
    → s.hub ≡ ev ∷ rest
    → IsEnd ev
    → run s (test ∷ receive ∷ [])
      ≡ record s { ctx = close (act report_shutdown s.ctx); position = testing; hub = rest }
unfolding run loop_test loop_receive dispatch settle
two_steps s h ev rest p e b x = ground (arith, handle_end h (event_code ev) s.ctx x)

closes :
    (c : Context)
    → c.close_done ≡ false
    → ((close c).close_done ≡ true) × ((close c).handler ≡ none)
unfolding close
closes c o = ground arith

-- When the VM has exited or was killed and the loop is at its test with that event next in the Hub
-- of an open context, one round closes the context, with the report to the client, the agent
-- and the driver among what it does, and the next test ends the loop.
pub loop_ends :
    (s : System) (h : Handler) (ev : Event) (rest : List Event)
    → s.position ≡ testing
    → s.ctx.handler ≡ some h
    → s.ctx.close_done ≡ false
    → s.hub ≡ ev ∷ rest
    → IsEnd ev
    → let t = run s (test ∷ receive ∷ test ∷ []) in
      (t.position ≡ exited)
      × (t.ctx ≡ close (act report_shutdown s.ctx))
      × (t.ctx.close_done ≡ true)
      × (t.ctx.handler ≡ none)
      × (t.hub ≡ rest)
unfolding run
loop_ends s h ev rest p e o b x =
    let c = close (act report_shutdown s.ctx) in
    let u = record s { ctx = c; position = testing; hub = rest } in
    let r : run s (test ∷ receive ∷ []) ≡ u = two_steps s h ev rest p e b x in
    let (d, n) = closes (act report_shutdown s.ctx) o in
    rw (ap (λ v. step v test) r) (ground (arith, d, n))

-- No step of the schedule is shutdownVM's own call of Close.
abbrev pub NoFailClose : List Move → Type 0
NoFailClose [] = Unit {0}
NoFailClose (fail_close ∷ ms) = ⊥
NoFailClose (_ ∷ ms) = NoFailClose ms

record IsAlive (s : System) : Type 0 where
  ready : s.position ≡ receiving → s.ctx.handler ≢ none
  up : s.position ≢ crashed

same_handler :
    (s t : System)
    → (t.ctx.handler ≡ none → s.ctx.handler ≡ none)
    → t.position ≡ s.position
    → IsAlive s
    → IsAlive t
same_handler s t h p a = record {
  ready = λ q e. a.ready (sym p ∙ q) (h e);
  up = λ q. a.up (sym p ∙ q);
}

set_timeout-handler : (n : ℕ) (c : Context) → (set_timeout n c).handler ≡ c.handler
unfolding set_timeout
set_timeout-handler n c = ground arith

poweroff_vm-handler : (c : Context) → (poweroff_vm c).handler ≡ c.handler
unfolding poweroff_vm
poweroff_vm-handler c = ground arith

settle-IsAlive : (n : Next) (c : Context) (s : System) → IsAlive (settle n c s)
unfolding settle
settle-IsAlive stay c s = record { ready = λ q. cc; up = λ q. cc }
settle-IsAlive (go_shutdown h d) c s = record { ready = λ q. cc; up = λ q. cc }
settle-IsAlive (then_become h d later) c s = record { ready = λ q. cc; up = λ q. cc }

dispatch-IsAlive :
    (h : Option Handler) (ev : Event) (s : System) → h ≢ none → IsAlive (dispatch h ev s)
unfolding dispatch
dispatch-IsAlive none ev s n = absurd (n refl)
dispatch-IsAlive (some h) ev s n =
    settle-IsAlive (handle h (event_code ev) s.ctx).1 (handle h (event_code ev) s.ctx).0 s

loop_receive-IsAlive :
    (p : Position) (hub : List Event) (s : System)
    → s.position ≡ p
    → IsAlive s
    → IsAlive (loop_receive p hub s)
unfolding loop_receive
loop_receive-IsAlive receiving (ev ∷ hub) s e a =
    dispatch-IsAlive s.ctx.handler ev (record s { hub = hub }) (a.ready e)
loop_receive-IsAlive _ _ s e a = a

loop_test-IsAlive :
    (p : Position) (s : System) → s.position ≡ p → IsAlive s → IsAlive (loop_test p s)
unfolding loop_test
loop_test-IsAlive testing s e a = ground arith
loop_test-IsAlive _ s e a = a

loop_finish-IsAlive :
    (p : Position) (s : System) → s.position ≡ p → IsAlive s → IsAlive (loop_finish p s)
unfolding loop_finish
loop_finish-IsAlive (becoming h d later) s e a = record { ready = λ q. cc; up = λ q. cc }
loop_finish-IsAlive _ s e a = a

send-IsAlive :
    (ev : Event) (h : Option Handler) (s : System) → IsAlive s → IsAlive (send_vm_event ev h s)
unfolding send_vm_event
send-IsAlive ev none s a = a
send-IsAlive ev (some h) s a = same_handler s _ (λ e. e) refl a

guarded :
    (b : Bool) (s t : System)
    → (t.ctx.handler ≡ none → s.ctx.handler ≡ none)
    → t.position ≡ s.position
    → IsAlive s
    → IsAlive (if b then t else s)
guarded true s t h p a = same_handler s t h p a
guarded false s t h p a = a

abbrev IsFailClose : Move → Type 0
IsFailClose fail_close = Unit {0}
IsFailClose _ = ⊥

step-IsAlive : (s : System) (m : Move) → ¬ IsFailClose m → IsAlive s → IsAlive (step s m)
unfolding step
step-IsAlive s test n a = loop_test-IsAlive s.position s refl a
step-IsAlive s receive n a = loop_receive-IsAlive s.position s.hub s refl a
step-IsAlive s finish n a = loop_finish-IsAlive s.position s refl a
step-IsAlive s (send ev) n a = send-IsAlive ev s.ctx.handler s a
step-IsAlive s (driver_send ev) n a = same_handler s _ (λ e. e) refl a
step-IsAlive s timer_fires n a = guarded s.ctx.armed s _ (λ e. e) refl a
step-IsAlive s arm n a =
    guarded (ltb 0 s.spawned) s _ (λ e. sym (set_timeout-handler 10 s.ctx) ∙ e) refl a
step-IsAlive s (destroyed true) n a =
    guarded (ltb 0 s.destroying) s _ (λ e. sym (poweroff_vm-handler s.ctx) ∙ e) refl a
step-IsAlive s (destroyed false) n a = guarded (ltb 0 s.destroying) s _ (λ e. e) refl a
step-IsAlive s fail_poweroff n a =
    guarded (ltb 0 s.failing) s _ (λ e. sym (poweroff_vm-handler s.ctx) ∙ e) refl a
step-IsAlive s fail_close n a = absurd (n tt)
step-IsAlive s kill_vm n a = same_handler s _ (λ e. sym (poweroff_vm-handler s.ctx) ∙ e) refl a

head_tail : (m : Move) (ms : List Move) → NoFailClose (m ∷ ms) → (¬ IsFailClose m) × NoFailClose ms
head_tail fail_close ms h = absurd h
head_tail test ms h = ((λ x. x), h)
head_tail _ ms h = ((λ x. x), h)

run-IsAlive : (s : System) (ms : List Move) → NoFailClose ms → IsAlive s → IsAlive (run s ms)
unfolding run
run-IsAlive s [] n a = a
run-IsAlive s (m ∷ ms) n a =
    let (x, y) = head_tail m ms n in run-IsAlive (step s m) ms y (step-IsAlive s m x a)

launched : (vsock : Bool) (cid : ℕ) → IsAlive (launch (init_context vsock cid))
unfolding launch init_context
launched vsock cid = record { ready = λ q. cc; up = λ q. cc }

-- The event loop never calls a nil handler under an interleaving in which the goroutine of
-- shutdownVM does not itself call Close.
pub run-up :
    (vsock : Bool) (cid : ℕ) (ms : List Move)
    → NoFailClose ms
    → (run (launch (init_context vsock cid)) ms).position ≢ crashed
run-up vsock cid ms n = (run-IsAlive _ ms n (launched vsock cid)).up
