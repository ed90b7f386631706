-- ===== src/Qmp/Safety.antt =====
-- One commander at a time, and answers in order, over every history
-- (hypervisor/qemu/qmp_handler.go).
use runv.Prelude.{
  ℕ, ◌+◌, ◌≤◌, ◌≡◌, refl, ap, subst, ◌∙◌, Bool, true, false, none, List, [], ◌∷◌, ◌++◌, length,
  arith, append_nil, length-append, if_cases, list_cases,
}
use runv.Qmp.{
  Feedback, succeeded, refused, broken, Message, init, timeout, quit, shutdown, event, finish,
  feedback, Handler, initializing, looping, stopped, Qmp, qmp_handler, push, handle_message, handle,
  Move, submitted, quitted, timed_out, initialized, received, received_event, handled, commanded,
  receive, receive_event, initialize, step, run,
}
use runv.Qmp.Orders.{ids, firsts, pending, workers, ends, inits, fails, queue-Adds}
use runv.Qmp.Phases.{busy, Phase, IsValid, same-Phase, push-IsValid, submitted-IsValid}
use runv.Qmp.Commands.{command-IsValid, front_bound}
use runv.Qmp.Handling.{behead-IsValid, handle_initializing-IsValid, handle_loop-IsValid}

handle_message-IsValid :
    (h : Handler) (m : Message) (rest : List Message) (q : Qmp)
    → q.handler ≡ h
    → IsValid q
    → IsValid (record q { queue = m ∷ rest })
    → IsValid (handle_message h m (record q { queue = rest }) q)
unfolding handle_message
handle_message-IsValid initializing m rest q e v w =
    handle_initializing-IsValid rest q m e w.order w.calm
      (subst (λ h. Phase h (record q { queue = m ∷ rest })) e w.phase)
handle_message-IsValid looping m rest q e v w =
    handle_loop-IsValid rest q m e w.order w.calm
      (subst (λ h. Phase h (record q { queue = m ∷ rest })) e w.phase)
handle_message-IsValid stopped m rest q e v w = v

handle-IsValid : (q : Qmp) → IsValid q → IsValid (handle q)
unfolding handle
handle-IsValid q v =
    list_cases IsValid q.queue q
      (λ m rest. handle_message q.handler m (record q { queue = rest }) q) (λ e. v)
      (λ m rest e. handle_message-IsValid q.handler m rest q refl v (behead-IsValid m rest q e v))

other-IsValid : (r : Bool) (q : Qmp) → IsValid q → IsValid (record q { receiving = r })
other-IsValid r q v = record {
  order = v.order;
  calm = v.calm;
  phase = same-Phase q.handler q (record q { receiving = r }) refl refl refl refl refl v.phase;
}

receive-IsValid : (f : Feedback) (q : Qmp) → IsValid q → IsValid (receive f q)
unfolding receive
receive-IsValid succeeded q v =
    if_cases IsValid q.receiving _ q
      (λ y. push-IsValid (feedback succeeded) q refl refl refl refl v) (λ n. v)
receive-IsValid refused q v =
    if_cases IsValid q.receiving _ q (λ y. push-IsValid (feedback refused) q refl refl refl refl v)
      (λ n. v)
receive-IsValid broken q v =
    if_cases IsValid q.receiving _ q
      (λ y.
        push-IsValid (feedback broken) (record q { receiving = false }) refl refl refl refl
          (other-IsValid false q v))
      (λ n. v)

receive_event-IsValid : (stops : Bool) (q : Qmp) → IsValid q → IsValid (receive_event stops q)
unfolding receive_event
receive_event-IsValid true q v =
    if_cases IsValid q.receiving _ q
      (λ y.
        push-IsValid shutdown (record q { receiving = false }) refl refl refl refl
          (other-IsValid false q v))
      (λ n. v)
receive_event-IsValid false q v =
    if_cases IsValid q.receiving _ q (λ y. push-IsValid event q refl refl refl refl v) (λ n. v)

-- The initializer's message, of which there is one.
initialize-Phase :
    (h : Handler) (m : Message) (q : Qmp)
    → q.starting ≡ true
    → ends (m ∷ []) ≡ []
    → fails (m ∷ []) + inits (m ∷ []) ≤ 1
    → Phase h q
    → Phase h (record q { queue = q.queue ++ m ∷ []; starting = false })
initialize-Phase initializing m q s e n (c, d, k, b) =
    let a = queue-Adds q.queue m in
    (
      c,
      a.ends ∙ ap (◌++◌ (ends q.queue)) e ∙ append_nil (ends q.queue) ∙ d,
      ground (arith, a.fails, a.inits, k, n, s),
      b,
    )
initialize-Phase looping m q s e n (x, i, f, b, w) = cc
initialize-Phase stopped m q s e n l =
    let a = queue-Adds q.queue m in
    let same : ends (q.queue ++ m ∷ []) ≡ ends q.queue =
      a.ends ∙ ap (◌++◌ (ends q.queue)) e ∙ append_nil (ends q.queue) in
    let kept = ap (λ xs. length (workers q.commanders ++ xs)) same in omega (arith, l, kept)

initialize_with-IsValid :
    (m : Message) (q : Qmp)
    → q.starting ≡ true
    → pending (m ∷ []) ≡ []
    → ends (m ∷ []) ≡ []
    → fails (m ∷ []) + inits (m ∷ []) ≤ 1
    → IsValid q
    → IsValid (push m (record q { starting = false }))
unfolding push
initialize_with-IsValid m q s d e n v =
    let a = queue-Adds q.queue m in
    let same : pending (q.queue ++ m ∷ []) ≡ pending q.queue =
      a.pending ∙ ap (◌++◌ (pending q.queue)) d ∙ append_nil (pending q.queue) in
    record {
      order = ap (λ xs. firsts q.responded ++ (ids q.buf ++ xs)) same ∙ v.order;
      calm = v.calm;
      phase = initialize-Phase q.handler m q s e n v.phase;
    }

initialize-IsValid : (ok : Bool) (q : Qmp) → IsValid q → IsValid (initialize ok q)
unfolding initialize
initialize-IsValid true q v =
    if_cases IsValid q.starting _ q
      (λ y. initialize_with-IsValid init q y refl refl (omega arith) v) (λ n. v)
initialize-IsValid false q v =
    if_cases IsValid q.starting _ q
      (λ y. initialize_with-IsValid (finish none false) q y refl refl (omega arith) v) (λ n. v)

module _ (marshals : ℕ → Bool) where
  run-IsValid : (ms : List Move) (q : Qmp) → IsValid q → IsValid (run marshals q ms)
  unfolding run step
  run-IsValid [] q v = v
  run-IsValid (submitted s ∷ ms) q v = run-IsValid ms _ (submitted-IsValid s q v)
  run-IsValid (quitted ∷ ms) q v = run-IsValid ms _ (push-IsValid quit q refl refl refl refl v)
  run-IsValid (timed_out ∷ ms) q v = run-IsValid ms _ (push-IsValid timeout q refl refl refl refl v)
  run-IsValid (initialized ok ∷ ms) q v = run-IsValid ms _ (initialize-IsValid ok q v)
  run-IsValid (received f ∷ ms) q v = run-IsValid ms _ (receive-IsValid f q v)
  run-IsValid (received_event stops ∷ ms) q v = run-IsValid ms _ (receive_event-IsValid stops q v)
  run-IsValid (handled ∷ ms) q v = run-IsValid ms _ (handle-IsValid q v)
  run-IsValid (commanded ∷ ms) q v = run-IsValid ms _ (command-IsValid marshals q v)

qmp_handler-IsValid : IsValid qmp_handler
unfolding qmp_handler
qmp_handler-IsValid = record { order = refl; calm = refl; phase = (refl, refl, omega arith, refl) }

busy_bound : (h : Handler) (q : Qmp) → Phase h q → length (busy q) ≤ 1
busy_bound initializing q (c, e, n, b) =
    let l : length (busy q) ≡ 0 = ap length (ap (λ cs. workers cs ++ ends q.queue) c ∙ e) in
    omega (arith, l)
busy_bound looping q (x, i, f, b, w) = let l = ap length w in omega (arith, l, front_bound q.buf)
busy_bound stopped q l = l

-- Over every history, the sessions whose `respond` was called, those in `buf`, and those in the
-- channel are together the submitted ones, in their order and each once; at most one commander is at
-- work; and no nil function is called and `buf` is not sliced when it is empty.
pub run-in_order :
    (marshals : ℕ → Bool) (ms : List Move)
    → let q = run marshals qmp_handler ms in
      (firsts q.responded ++ (ids q.buf ++ pending q.queue) ≡ q.submitted)
      × (length (workers q.commanders) ≤ 1)
      × (q.panicked ≡ false)
run-in_order marshals ms =
    let q = run marshals qmp_handler ms in
    let v = run-IsValid marshals ms qmp_handler qmp_handler-IsValid in
    let l = busy_bound q.handler q v.phase in
    (v.order, omega (arith, l, length-append (workers q.commanders) (ends q.queue)), v.calm)
