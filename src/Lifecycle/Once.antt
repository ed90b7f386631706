-- ===== src/Lifecycle/Once.antt =====
-- What the goroutines of a sandbox do at most once: the teardown of Close and the start of
-- shutdownVM (hypervisor/context.go, hypervisor/vm_states.go).
use runv.Prelude.{
  ℕ, ◌≡◌, refl, ◌∙◌, Bool, true, false, ◌&&◌, Option, none, some, List, [], ◌∷◌, ◌++◌, ltb,
  if◌then◌else◌, arith,
}
use runv.Lifecycle.Events.{Event, Code, event_code}
use runv.Lifecycle.{
  Current, Handler, Action, Context, System, Position, Move, Next, report_shutdown, close_agent,
  close_networks, close_driver, close_client, remove_share_dir, release_cid, stay, go_shutdown,
  then_become, testing, receiving, becoming, act, init_context, set_timeout, close, become,
  poweroff_vm, handle, perform, settle, dispatch, loop_test, loop_receive, loop_finish,
  send_vm_event, step, run, launch, test, receive, finish, send, driver_send, timer_fires, arm,
  destroyed, fail_poweroff, fail_close, kill_vm,
}

-- The actions of Close but the timer and the cid, the newest first.
abbrev pub teardown : List Action → List Action
teardown [] = []
teardown (close_agent ∷ r) = close_agent ∷ teardown r
teardown (close_networks ∷ r) = close_networks ∷ teardown r
teardown (close_driver ∷ r) = close_driver ∷ teardown r
teardown (close_client ∷ r) = close_client ∷ teardown r
teardown (remove_share_dir ∷ r) = remove_share_dir ∷ teardown r
teardown (_ ∷ r) = teardown r

-- The cids given back.
abbrev pub freed : List Action → List ℕ
freed [] = []
freed (release_cid c ∷ r) = c ∷ freed r
freed (_ ∷ r) = freed r

abbrev pub whole_teardown : List Action
whole_teardown = remove_share_dir ∷ close_client ∷ close_driver ∷ close_networks ∷ close_agent ∷ []

pub record IsOnce (vsock : Bool) (cid : ℕ) (c : Context) : Type 0 where
  pub torn : teardown c.actions ≡ (if c.close_done then whole_teardown else [])
  pub given_back :
      freed c.actions ≡ (if c.close_done then (if vsock && ltb 0 cid then cid ∷ [] else []) else [])
  pub same_vsock : c.enable_vsock ≡ vsock
  pub same_cid : c.close_done ≡ false → c.guest_cid ≡ cid

abbrev Quiet : List Action → Type 0
Quiet later = (teardown later ≡ []) × (freed later ≡ [])

abbrev QuietNext : Next → Type 0
QuietNext stay = Unit {0}
QuietNext (go_shutdown h d) = Unit {0}
QuietNext (then_become h d later) = Quiet later

abbrev QuietPosition : Position → Type 0
QuietPosition (becoming h d later) = Quiet later
QuietPosition _ = Unit {0}

teardown-append : (xs ys : List Action) → teardown xs ≡ [] → teardown (xs ++ ys) ≡ teardown ys
teardown-append [] ys e = refl
teardown-append (x ∷ xs) ys e = ground (arith, teardown-append xs ys)

freed-append : (xs ys : List Action) → freed xs ≡ [] → freed (xs ++ ys) ≡ freed ys
freed-append [] ys e = refl
freed-append (x ∷ xs) ys e = ground (arith, freed-append xs ys)

module _ (vsock : Bool) (cid : ℕ) where
  set_timeout-IsOnce :
      (n : ℕ) (c : Context) → IsOnce vsock cid c → IsOnce vsock cid (set_timeout n c)
  unfolding set_timeout
  set_timeout-IsOnce n c o = ground arith

  poweroff_vm-IsOnce : (c : Context) → IsOnce vsock cid c → IsOnce vsock cid (poweroff_vm c)
  unfolding poweroff_vm
  poweroff_vm-IsOnce c o = ground arith

  close-IsOnce : (c : Context) → IsOnce vsock cid c → IsOnce vsock cid (close c)
  unfolding close
  close-IsOnce c o = ground arith

  report-IsOnce : (c : Context) → IsOnce vsock cid c → IsOnce vsock cid (act report_shutdown c)
  unfolding act
  report-IsOnce c o = ground arith

  become-IsOnce :
      (h : Option Handler) (d : Current) (later : List Action) (c : Context)
      → Quiet later
      → IsOnce vsock cid c
      → IsOnce vsock cid (perform later (become h d c))
  unfolding become
  become-IsOnce h d later c q o = record {
    torn = teardown-append later c.actions q.0 ∙ o.torn;
    given_back = freed-append later c.actions q.1 ∙ o.given_back;
    same_vsock = o.same_vsock;
    same_cid = o.same_cid;
  }

  handle-IsOnce :
      (h : Handler) (k : Code) (c : Context)
      → IsOnce vsock cid c
      → IsOnce vsock cid (handle h k c).0 × QuietNext (handle h k c).1
  unfolding handle
  handle-IsOnce h k c o = ground (arith, close-IsOnce c o)

  record IsOnceSystem (s : System) : Type 0 where
    once : IsOnce vsock cid s.ctx
    quiet : QuietPosition s.position

  settle-IsOnce :
      (n : Next) (c : Context) (s : System)
      → IsOnce vsock cid c
      → QuietNext n
      → IsOnceSystem (settle n c s)
  unfolding settle
  settle-IsOnce stay c s o q = record { once = o; quiet = tt }
  settle-IsOnce (go_shutdown h d) c s o q = record { once = o; quiet = (refl, refl) }
  settle-IsOnce (then_become h d later) c s o q = record { once = o; quiet = q }

  dispatch-IsOnce :
      (h : Option Handler) (ev : Event) (s : System)
      → IsOnceSystem s
      → IsOnceSystem (dispatch h ev s)
  unfolding dispatch
  dispatch-IsOnce none ev s o = record { once = o.once; quiet = tt }
  dispatch-IsOnce (some h) ev s o =
      let (o', q) = handle-IsOnce h (event_code ev) s.ctx o.once in
      settle-IsOnce (handle h (event_code ev) s.ctx).1 (handle h (event_code ev) s.ctx).0 s o' q

  loop_test-IsOnce : (p : Position) (s : System) → IsOnceSystem s → IsOnceSystem (loop_test p s)
  unfolding loop_test
  loop_test-IsOnce testing s o = record { once = o.once; quiet = ground arith }
  loop_test-IsOnce _ s o = o

  loop_receive-IsOnce :
      (p : Position) (hub : List Event) (s : System)
      → IsOnceSystem s
      → IsOnceSystem (loop_receive p hub s)
  unfolding loop_receive
  loop_receive-IsOnce receiving (ev ∷ hub) s o =
      dispatch-IsOnce s.ctx.handler ev (record s { hub = hub })
        (record { once = o.once; quiet = o.quiet })
  loop_receive-IsOnce _ _ s o = o

  loop_finish-IsOnce :
      (p : Position) (s : System)
      → QuietPosition p
      → IsOnceSystem s
      → IsOnceSystem (loop_finish p s)
  unfolding loop_finish
  loop_finish-IsOnce (becoming h d later) s q o = record {
    once = become-IsOnce h d later s.ctx q o.once;
    quiet = tt;
  }
  loop_finish-IsOnce _ s q o = o

  send-IsOnce :
      (ev : Event) (h : Option Handler) (s : System)
      → IsOnceSystem s
      → IsOnceSystem (send_vm_event ev h s)
  unfolding send_vm_event
  send-IsOnce ev none s o = o
  send-IsOnce ev (some h) s o = record { once = o.once; quiet = o.quiet }

  step-IsOnce : (s : System) (m : Move) → IsOnceSystem s → IsOnceSystem (step s m)
  unfolding step
  step-IsOnce s test o = loop_test-IsOnce s.position s o
  step-IsOnce s receive o = loop_receive-IsOnce s.position s.hub s o
  step-IsOnce s finish o = loop_finish-IsOnce s.position s o.quiet o
  step-IsOnce s (send ev) o = send-IsOnce ev s.ctx.handler s o
  step-IsOnce s (driver_send ev) o = record { once = o.once; quiet = o.quiet }
  step-IsOnce s timer_fires o = ground arith
  step-IsOnce s arm o = ground (arith, set_timeout-IsOnce 10 s.ctx o.once)
  step-IsOnce s (destroyed true) o = ground (arith, poweroff_vm-IsOnce s.ctx o.once)
  step-IsOnce s (destroyed false) o = ground arith
  step-IsOnce s fail_poweroff o = ground (arith, poweroff_vm-IsOnce s.ctx o.once)
  step-IsOnce s fail_close o = ground (arith, close-IsOnce s.ctx o.once)
  step-IsOnce s kill_vm o = record { once = poweroff_vm-IsOnce s.ctx o.once; quiet = o.quiet }

  run-IsOnce : (s : System) (ms : List Move) → IsOnceSystem s → IsOnceSystem (run s ms)
  unfolding run
  run-IsOnce s [] o = o
  run-IsOnce s (m ∷ ms) o = run-IsOnce (step s m) ms (step-IsOnce s m o)

fresh : (vsock : Bool) (cid : ℕ) → IsOnceSystem vsock cid (launch (init_context vsock cid))
unfolding launch init_context
fresh vsock cid = ground arith

-- Under every interleaving of the loop, the drivers, the timer, the API and shutdownVM, Close does
-- each part of its teardown in its order and at most once, and gives the guest's cid back exactly
-- once if it ran, vsock is enabled and the cid is not 0, and never otherwise.
pub run-teardown :
    (vsock : Bool) (cid : ℕ) (ms : List Move)
    → let c = (run (launch (init_context vsock cid)) ms).ctx in
      (teardown c.actions ≡ (if c.close_done then whole_teardown else []))
      × (freed c.actions
          ≡ (if c.close_done then (if vsock && ltb 0 cid then cid ∷ [] else []) else []))
run-teardown vsock cid ms =
    let o = run-IsOnce vsock cid (launch (init_context vsock cid)) ms (fresh vsock cid) in
    (o.once.torn, o.once.given_back)
