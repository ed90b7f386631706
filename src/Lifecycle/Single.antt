-- ===== src/Lifecycle/Single.antt =====
-- How many goroutines of shutdownVM are started, and how the state of a VmContext and its handler go
-- together (hypervisor/vm_states.go, hypervisor/context.go).
use runv.Prelude.{
  ◌-◌, ◌↔◌, ltb→lt, ℕ, suc, ◌+◌, ◌≤◌, ◌<◌, ◌≡◌, refl, Bool, true, false, ◌&&◌, Option, none, some,
  List, [], ◌∷◌, ◌++◌, ltb, if◌then◌else◌, arith,
}
use runv.Lifecycle.Events.{Event, Code, event_code, vm_timeout}
use runv.Lifecycle.{
  Current, running, terminating, released, closed, Handler, Action, Context, System, Position, Move,
  Next, state_running, state_terminating, spawn_shutdown, stay, go_shutdown, then_become, testing,
  receiving, becoming, init_context, is_running, set_timeout, close, become, poweroff_vm, handle,
  settle, dispatch, loop_test, loop_receive, loop_finish, send_vm_event, step, run, launch, test,
  receive, finish, send, driver_send, timer_fires, arm, destroyed, fail_poweroff, fail_close,
  kill_vm,
}

pub starts : List Action → ℕ
starts [] = 0
starts (spawn_shutdown ∷ r) = suc (starts r)
starts (_ ∷ r) = starts r

abbrev runs : Option Handler → Bool
runs (some state_running) = true
runs _ = false

abbrev reads : Position → Bool
reads (becoming h d later) = false
reads _ = true

-- A handler and a state that belong together.
abbrev pub Agrees : Option Handler → Current → Type 0
Agrees (some state_running) running = Unit {0}
Agrees (some state_terminating) terminating = Unit {0}
Agrees none released = Unit {0}
Agrees none closed = Unit {0}
Agrees _ _ = ⊥

abbrev Ahead : Position → Type 0
Ahead (becoming h d later) = (runs h ≡ false) × (starts later ≡ 0) × Agrees h d
Ahead _ = Unit {0}

abbrev AheadNext : Next → Type 0
AheadNext stay = Unit {0}
AheadNext (go_shutdown h d) = (runs h ≡ false) × Agrees h d
AheadNext (then_become h d later) = (runs h ≡ false) × (starts later ≡ 0) × Agrees h d

abbrev spawns : Next → ℕ
spawns (go_shutdown h d) = 1
spawns _ = 0

pub record IsSingle (s : System) : Type 0 where
  pub bounded : starts s.ctx.actions ≤ 1
  pub alive : s.spawned + s.destroying + s.failing + s.failed ≤ starts s.ctx.actions
  pub early : (reads s.position && runs s.ctx.handler) ≡ true → starts s.ctx.actions ≡ 0
  pub ahead : Ahead s.position
  pub agrees : Agrees s.ctx.handler s.ctx.current

-- What a call on the context keeps: no new start, and no way back to stateRunning.
record Keeps (c d : Context) : Type 0 where
  same_starts : starts d.actions ≡ starts c.actions
  not_back : runs d.handler ≡ true → runs c.handler ≡ true
  agrees : Agrees c.handler c.current → Agrees d.handler d.current

set_timeout-Keeps : (n : ℕ) (c : Context) → Keeps c (set_timeout n c)
unfolding set_timeout starts
set_timeout-Keeps n c = ground arith

poweroff_vm-Keeps : (c : Context) → Keeps c (poweroff_vm c)
unfolding poweroff_vm starts
poweroff_vm-Keeps c = ground arith

close-Keeps : (c : Context) → Keeps c (close c)
unfolding close starts
close-Keeps c = ground arith

starts-append : (xs ys : List Action) → starts (xs ++ ys) ≡ starts xs + starts ys
unfolding starts
starts-append [] ys = omega arith
starts-append (x ∷ xs) ys = ground (arith, starts-append xs ys)

record Handles (h : Handler) (c d : Context) (n : Next) : Type 0 where
  new_starts : starts d.actions ≡ starts c.actions + spawns n
  from_running : 0 < spawns n → h ≡ state_running
  not_back : runs d.handler ≡ true → runs c.handler ≡ true
  ahead : AheadNext n
  agrees : Agrees c.handler c.current → Agrees d.handler d.current

handle-Handles :
    (h : Handler) (k : Code) (c : Context) → Handles h c (handle h k c).0 (handle h k c).1
unfolding handle starts
handle-Handles state_running k c = ground arith
handle-Handles state_terminating k c = ground arith

settle-IsSingle :
    (n : Next) (h : Handler) (c : Context) (s : System)
    → s.ctx.handler ≡ some h
    → s.position ≡ receiving
    → Handles h s.ctx c n
    → IsSingle s
    → IsSingle (settle n c s)
unfolding settle starts
settle-IsSingle stay h c s e p t v = ground (arith, v.early, t.agrees v.agrees, t.not_back)
settle-IsSingle (go_shutdown h' d) h c s e p t v =
    ground (arith, v.early, t.agrees v.agrees, t.from_running)
settle-IsSingle (then_become h' d later) h c s e p t v = ground (arith, v.early, t.agrees v.agrees)

dispatch-IsSingle :
    (h : Option Handler) (ev : Event) (s : System)
    → s.ctx.handler ≡ h
    → s.position ≡ receiving
    → IsSingle s
    → IsSingle (dispatch h ev s)
unfolding dispatch
dispatch-IsSingle none ev s e p v = record {
  bounded = v.bounded;
  alive = v.alive;
  early = λ r. ground (arith, e);
  ahead = tt;
  agrees = v.agrees;
}
dispatch-IsSingle (some h) ev s e p v =
    settle-IsSingle (handle h (event_code ev) s.ctx).1 h (handle h (event_code ev) s.ctx).0 s e p
      (handle-Handles h (event_code ev) s.ctx) v

loop_test-IsSingle :
    (p : Position) (s : System) → s.position ≡ p → IsSingle s → IsSingle (loop_test p s)
unfolding loop_test
loop_test-IsSingle testing s e v = ground (arith, v.early)
loop_test-IsSingle _ s e v = v

loop_receive-IsSingle :
    (p : Position) (hub : List Event) (s : System)
    → s.position ≡ p
    → IsSingle s
    → IsSingle (loop_receive p hub s)
unfolding loop_receive
loop_receive-IsSingle receiving (ev ∷ hub) s e v =
    dispatch-IsSingle s.ctx.handler ev (record s { hub = hub }) refl e
      (record {
        bounded = v.bounded;
        alive = v.alive;
        early = v.early;
        ahead = v.ahead;
        agrees = v.agrees;
      })
loop_receive-IsSingle _ _ s e v = v

loop_finish-IsSingle :
    (p : Position) (s : System) → s.position ≡ p → Ahead p → IsSingle s → IsSingle (loop_finish p s)
unfolding loop_finish become
loop_finish-IsSingle (becoming h d later) s e a v =
    ground (arith, starts-append later s.ctx.actions)
loop_finish-IsSingle _ s e a v = v

-- A call on the context, and the goroutine that made it goes on.
calls :
    (s t : System)
    → Keeps s.ctx t.ctx
    → t.position ≡ s.position
    → t.spawned + t.destroying + t.failing + t.failed
      ≤ s.spawned + s.destroying + s.failing + s.failed
    → IsSingle s
    → IsSingle t
calls s t k p n v = record {
  bounded = omega (arith, k.same_starts);
  alive = omega (arith, k.same_starts, v.alive);
  early = λ r. ground (arith, v.early, k.not_back, k.same_starts);
  ahead = rw p v.ahead;
  agrees = k.agrees v.agrees;
}

same :
    (c d : Context)
    → d.handler ≡ c.handler
    → d.current ≡ c.current
    → d.actions ≡ c.actions
    → Keeps c d
unfolding starts
same c d h k a = ground arith

guarded :
    (b : Bool) (s t : System) → (b ≡ true → IsSingle t) → IsSingle s → IsSingle (if b then t else s)
guarded true s t h v = h refl
guarded false s t h v = v

send-IsSingle :
    (ev : Event) (h : Option Handler) (s : System) → IsSingle s → IsSingle (send_vm_event ev h s)
unfolding send_vm_event
send-IsSingle ev none s v = v
send-IsSingle ev (some h) s v =
    calls s (record s { hub = s.hub ++ ev ∷ [] }) (same s.ctx s.ctx refl refl refl) refl
      (omega arith) v

step-IsSingle : (s : System) (m : Move) → IsSingle s → IsSingle (step s m)
unfolding step send_vm_event
step-IsSingle s test v = loop_test-IsSingle s.position s refl v
step-IsSingle s receive v = loop_receive-IsSingle s.position s.hub s refl v
step-IsSingle s finish v = loop_finish-IsSingle s.position s refl v.ahead v
step-IsSingle s (send ev) v = send-IsSingle ev s.ctx.handler s v
step-IsSingle s (driver_send ev) v =
    calls s (step s (driver_send ev)) (same s.ctx s.ctx refl refl refl) refl (omega arith) v
step-IsSingle s timer_fires v =
    guarded s.ctx.armed s _
      (λ b.
        calls s
          (record s { ctx = record (s.ctx) { armed = false }; hub = s.hub ++ vm_timeout ∷ [] })
          (same s.ctx (record (s.ctx) { armed = false }) refl refl refl) refl (omega arith) v)
      v
step-IsSingle s arm v =
    guarded (ltb 0 s.spawned) s _
      (λ b.
        calls s
          (record s {
            ctx = set_timeout 10 s.ctx;
            spawned = s.spawned - 1;
            destroying = s.destroying + 1;
          })
          (set_timeout-Keeps 10 s.ctx) refl (omega (arith, ltb→lt 0 s.spawned b)) v)
      v
step-IsSingle s (destroyed true) v =
    guarded (ltb 0 s.destroying) s _
      (λ b.
        calls s (record s { ctx = poweroff_vm s.ctx; destroying = s.destroying - 1 })
          (poweroff_vm-Keeps s.ctx) refl (omega arith) v)
      v
step-IsSingle s (destroyed false) v =
    guarded (ltb 0 s.destroying) s _
      (λ b.
        calls s (record s { destroying = s.destroying - 1; failing = s.failing + 1 })
          (same s.ctx s.ctx refl refl refl) refl (omega (arith, ltb→lt 0 s.destroying b)) v)
      v
step-IsSingle s fail_poweroff v =
    guarded (ltb 0 s.failing) s _
      (λ b.
        calls s
          (record s { ctx = poweroff_vm s.ctx; failing = s.failing - 1; failed = s.failed + 1 })
          (poweroff_vm-Keeps s.ctx) refl (omega (arith, ltb→lt 0 s.failing b)) v)
      v
step-IsSingle s fail_close v =
    guarded (ltb 0 s.failed) s _
      (λ b.
        calls s (record s { ctx = close s.ctx; failed = s.failed - 1 }) (close-Keeps s.ctx) refl
          (omega arith) v)
      v
step-IsSingle s kill_vm v = calls s (step s kill_vm) (poweroff_vm-Keeps s.ctx) refl (omega arith) v

run-IsSingle : (s : System) (ms : List Move) → IsSingle s → IsSingle (run s ms)
unfolding run
run-IsSingle s [] v = v
run-IsSingle s (m ∷ ms) v = run-IsSingle (step s m) ms (step-IsSingle s m v)

launched : (vsock : Bool) (cid : ℕ) → IsSingle (launch (init_context vsock cid))
unfolding launch init_context starts
launched vsock cid = ground arith

-- Under every interleaving at most one goroutine of shutdownVM is started.
pub run-starts :
    (vsock : Bool) (cid : ℕ) (ms : List Move)
    → starts (run (launch (init_context vsock cid)) ms).ctx.actions ≤ 1
run-starts vsock cid ms = (run-IsSingle _ ms (launched vsock cid)).bounded

-- Under every interleaving the handler and the state agree: IsRunning holds exactly when the
-- handler is stateRunning.
pub run-is_running :
    (vsock : Bool) (cid : ℕ) (ms : List Move)
    → let c = (run (launch (init_context vsock cid)) ms).ctx in
      (is_running c ≡ true) ↔ (c.handler ≡ some state_running)
unfolding is_running
run-is_running vsock cid ms =
    let v = (run-IsSingle (launch (init_context vsock cid)) ms (launched vsock cid)).agrees in
    (λ r. ground (arith, v), λ h. ground (arith, v))
