-- ===== src/Qmp/Commands.antt =====
-- What a commander does to the monitor (hypervisor/qemu/qmp_handler.go).
use runv.Prelude.{
  ℕ, ◌+◌, ◌≤◌, ◌≡◌, refl, ap, subst, ◌∙◌, sym, Bool, true, false, some, List, [], ◌∷◌, ◌++◌, ltb,
  length, arith, append_nil, if_cases, list_cases,
}
use runv.Qmp.{
  Session, Feedback, succeeded, refused, broken, finish, Handler, initializing, looping, stopped,
  Commander, beginning, waiting, Qmp, push, next_command, handle_feedback, go_on, command,
}
use runv.Qmp.Orders.{
  ids, firsts, pending, workers, ends, inits, fails, breaks, front, workers-append, queue-Adds,
}
use runv.Qmp.Phases.{busy, Phase, IsValid}

-- A commander goes on for the session of `c`, and nobody else works.
pub record Works (c : ℕ) (q t : Qmp) : Type 0 where
  pub handler : t.handler ≡ q.handler
  pub buf : t.buf ≡ q.buf
  pub starting : t.starting ≡ q.starting
  pub responded : t.responded ≡ q.responded
  pub submitted : t.submitted ≡ q.submitted
  pub panicked : t.panicked ≡ q.panicked
  pub res : t.res ≡ q.res
  pub inits : inits t.queue ≡ inits q.queue
  pub fails : fails t.queue ≡ fails q.queue
  pub pending : pending t.queue ≡ pending q.queue
  pub works : workers t.commanders ++ ends t.queue ≡ c ∷ []

-- The ways to go on: another round, or the end of the session.
pub commander-Works :
    (x : Commander) (c : ℕ) (q : Qmp) (w : List ℕ)
    → workers (x ∷ []) ≡ c ∷ []
    → workers q.commanders ≡ []
    → ends q.queue ≡ []
    → Works c q (record q { written = w; commanders = q.commanders ++ x ∷ [] })
commander-Works x c q w y n e = record {
  handler = refl;
  buf = refl;
  starting = refl;
  responded = refl;
  submitted = refl;
  panicked = refl;
  res = refl;
  inits = refl;
  fails = refl;
  pending = refl;
  works =
      ap (λ xs. xs ++ ends q.queue)
        (workers-append q.commanders (x ∷ []) ∙ ap (λ xs. xs ++ workers (x ∷ [])) n ∙ y)
      ∙ ap (λ xs. c ∷ xs) e;
}

pub finish-Works :
    (c : ℕ) (ok : Bool) (q : Qmp)
    → workers q.commanders ≡ []
    → ends q.queue ≡ []
    → Works c q (push (finish (some c) ok) q)
unfolding push
finish-Works c ok q n e =
    let a = queue-Adds q.queue (finish (some c) ok) in
    record {
      handler = refl;
      buf = refl;
      starting = refl;
      responded = refl;
      submitted = refl;
      panicked = refl;
      res = refl;
      inits = omega (arith, a.inits);
      fails = omega (arith, a.fails);
      pending = a.pending ∙ append_nil (pending q.queue);
      works =
          ap (λ xs. xs ++ ends (q.queue ++ finish (some c) ok ∷ [])) n
          ∙ a.ends
          ∙ ap (λ xs. xs ++ c ∷ []) e;
    }

pub next_command-Works :
    (marshals : ℕ → Bool) (s : Session) (cs : List ℕ) (q : Qmp)
    → workers q.commanders ≡ []
    → ends q.queue ≡ []
    → Works s.respond q (next_command marshals s cs q)
unfolding next_command
next_command-Works marshals s [] q n e = finish-Works s.respond true q n e
next_command-Works marshals s (c ∷ cs) q n e =
    if_cases (Works s.respond q) (marshals c) _ _
      (λ y. commander-Works (waiting s c cs 1) s.respond q _ refl n e)
      (λ y. finish-Works s.respond false q n e)

-- A commander has at most one session to work for.
alone :
    (c : ℕ) (xs ys zs : List ℕ)
    → c ∷ (xs ++ ys) ≡ zs
    → length zs ≤ 1
    → (xs ≡ []) × (ys ≡ []) × (zs ≡ c ∷ [])
alone c [] [] zs e l = (refl, refl, sym e)
alone c [] (y ∷ ys) zs e l =
    let n = ap (λ (xs : List ℕ). length xs) e in absurd (omega (arith, l, n))
alone c (x ∷ xs) ys zs e l =
    let n = ap (λ (xs : List ℕ). length xs) e in absurd (omega (arith, l, n))

-- A commander of the session of `c` goes on, and is taken out of `q` meanwhile.
abbrev Held : Handler → ℕ → Qmp → Type 0
Held initializing c q = true ≡ false
Held looping c q =
    (q.starting ≡ false)
    × (inits q.queue ≡ 0)
    × (fails q.queue ≡ 0)
    × (breaks q.res ≡ 0)
    × (c ∷ busy q ≡ front q.buf)
Held stopped c q = length (c ∷ busy q) ≤ 1

pub front_bound : (ss : List Session) → length (front ss) ≤ 1
front_bound [] = omega arith
front_bound (s ∷ ss) = omega arith

take_out-Held :
    (h : Handler) (c : ℕ) (x : Commander) (others : List Commander) (q : Qmp)
    → workers (x ∷ others) ≡ c ∷ workers others
    → q.commanders ≡ x ∷ others
    → Phase h q
    → Held h c (record q { commanders = others })
take_out-Held initializing c x others q e y (n, k, m, b) = cc
take_out-Held looping c x others q e y (s, i, f, b, w) = (
  s,
  i,
  f,
  b,
  ap (λ xs. xs ++ ends q.queue) (sym e) ∙ ap (λ cs. workers cs ++ ends q.queue) (sym y) ∙ w,
)
take_out-Held stopped c x others q e y l =
    let same : c ∷ (workers others ++ ends q.queue) ≡ busy q =
      ap (λ xs. xs ++ ends q.queue) (sym e) ∙ ap (λ cs. workers cs ++ ends q.queue) (sym y) in
    let n = ap (λ (xs : List ℕ). length xs) same in omega (arith, l, n)

Held-alone :
    (h : Handler) (c : ℕ) (q : Qmp) → Held h c q → (workers q.commanders ≡ []) × (ends q.queue ≡ [])
Held-alone initializing c q n = cc
Held-alone looping c q (s, i, f, b, w) =
    let a = alone c (workers q.commanders) (ends q.queue) (front q.buf) w (front_bound q.buf) in
    (a.0, a.1)
Held-alone stopped c q l =
    let a = alone c (workers q.commanders) (ends q.queue) (c ∷ busy q) refl l in (a.0, a.1)

Works-Phase : (h : Handler) (c : ℕ) (q t : Qmp) → Held h c q → Works c q t → Phase h t
Works-Phase initializing c q t n w = cc
Works-Phase looping c q t (s, i, f, b, e) w =
    let a = alone c (workers q.commanders) (ends q.queue) (front q.buf) e (front_bound q.buf) in
    (
      w.starting ∙ s,
      w.inits ∙ i,
      w.fails ∙ f,
      ap breaks w.res ∙ b,
      w.works ∙ sym a.2 ∙ ap front (sym w.buf),
    )
Works-Phase stopped c q t l w = let n = ap length w.works in omega (arith, n)

Works-IsValid :
    (c : ℕ) (q t : Qmp)
    → Works c q t
    → firsts q.responded ++ (ids q.buf ++ pending q.queue) ≡ q.submitted
    → q.panicked ≡ false
    → Held q.handler c q
    → IsValid t
Works-IsValid c q t w o p l = record {
  order = rw (w.responded, w.buf, w.pending, w.submitted) o;
  calm = w.panicked ∙ p;
  phase = subst (λ h. Phase h t) (sym w.handler) (Works-Phase q.handler c q t l w);
}

breaks-cons : (f : Feedback) (fs : List Feedback) → breaks (f ∷ fs) ≡ breaks (f ∷ []) + breaks fs
breaks-cons succeeded fs = omega arith
breaks-cons refused fs = omega arith
breaks-cons broken fs = omega arith

module _ (marshals : ℕ → Bool) where
  handle_feedback-Works :
      (s : Session) (c : ℕ) (cs : List ℕ) (tries : ℕ) (f : Feedback) (q : Qmp)
      → breaks (f ∷ []) ≡ 0
      → workers q.commanders ≡ []
      → ends q.queue ≡ []
      → Works s.respond q (handle_feedback marshals s c cs tries f q)
  unfolding handle_feedback
  handle_feedback-Works s c cs tries succeeded q b n e = next_command-Works marshals s cs q n e
  handle_feedback-Works s c cs tries refused q b n e =
      if_cases (Works s.respond q) (ltb tries 3) _ _
        (λ y. commander-Works (waiting s c cs (tries + 1)) s.respond q _ refl n e)
        (λ y. finish-Works s.respond false q n e)
  handle_feedback-Works s c cs tries broken q b n e = absurd (omega (arith, b))

  -- It takes a result from the channel of results.
  take_result-Held :
      (h : Handler) (c : ℕ) (f : Feedback) (rest : List Feedback) (q : Qmp)
      → q.res ≡ f ∷ rest
      → Held h c q
      → Held h c (record q { res = rest })
  take_result-Held initializing c f rest q r n = n
  take_result-Held looping c f rest q r (s, i, g, b, e) =
      let n = breaks-cons f rest in
      let all : breaks (f ∷ rest) ≡ 0 = ap breaks (sym r) ∙ b in (s, i, g, omega (arith, n, all), e)
  take_result-Held stopped c f rest q r l = l

  answered-IsValid :
      (h : Handler) (s : Session) (c : ℕ) (cs : List ℕ) (tries : ℕ) (f : Feedback)
      (rest : List Feedback) (others : List Commander) (q : Qmp)
      → q.handler ≡ h
      → breaks (f ∷ []) ≡ 0
      → q.res ≡ f ∷ rest
      → IsValid q
      → Held h s.respond (record q { commanders = others })
      → IsValid
          (handle_feedback marshals s c cs tries f (record q { commanders = others; res = rest }))
  answered-IsValid h s c cs tries f rest others q y b r v l =
      let t : Qmp = record q { commanders = others } in
      let u : Qmp = record q { commanders = others; res = rest } in
      let a = Held-alone h s.respond t l in
      Works-IsValid s.respond u _ (handle_feedback-Works s c cs tries f u b a.0 a.1) v.order v.calm
        (subst (λ h. Held h s.respond u) (sym y) (take_result-Held h s.respond f rest t r l))

  -- The result that a commander takes ends it only when the handler has stopped.
  handle_feedback-IsValid :
      (h : Handler) (s : Session) (c : ℕ) (cs : List ℕ) (tries : ℕ) (f : Feedback)
      (rest : List Feedback) (others : List Commander) (q : Qmp)
      → q.handler ≡ h
      → q.res ≡ f ∷ rest
      → IsValid q
      → Held h s.respond (record q { commanders = others })
      → IsValid
          (handle_feedback marshals s c cs tries f (record q { commanders = others; res = rest }))
  unfolding handle_feedback
  handle_feedback-IsValid h s c cs tries succeeded rest others q y r v l =
      answered-IsValid h s c cs tries succeeded rest others q y refl r v l
  handle_feedback-IsValid h s c cs tries refused rest others q y r v l =
      answered-IsValid h s c cs tries refused rest others q y refl r v l
  handle_feedback-IsValid initializing s c cs tries broken rest others q y r v l = cc
  handle_feedback-IsValid looping s c cs tries broken rest others q y r v (x, i, f, b, e) =
      let n : breaks (broken ∷ rest) ≡ 0 = ap breaks (sym r) ∙ b in absurd (omega (arith, n))
  handle_feedback-IsValid stopped s c cs tries broken rest others q y r v l = record {
    order = v.order;
    calm = v.calm;
    phase =
        subst (λ h. Phase h (record q { commanders = others; res = rest })) (sym y)
          (omega (arith, l));
  }

  go_on-IsValid :
      (x : Commander) (others : List Commander) (q : Qmp)
      → q.commanders ≡ x ∷ others
      → IsValid q
      → IsValid (go_on marshals x others q)
  unfolding go_on
  go_on-IsValid (beginning s) others q e v =
      let t : Qmp = record q { commanders = others } in
      let l = take_out-Held q.handler s.respond (beginning s) others q refl e v.phase in
      let a = Held-alone q.handler s.respond t l in
      Works-IsValid s.respond t _ (next_command-Works marshals s s.commands t a.0 a.1) v.order
        v.calm l
  go_on-IsValid (waiting s c cs tries) others q e v =
      let t : Qmp = record q { commanders = others } in
      let l = take_out-Held q.handler s.respond (waiting s c cs tries) others q refl e v.phase in
      list_cases IsValid q.res q
        (λ f rest.
          handle_feedback marshals s c cs tries f (record q { commanders = others; res = rest }))
        (λ n. v)
        (λ f rest r. handle_feedback-IsValid q.handler s c cs tries f rest others q refl r v l)

  pub command-IsValid : (q : Qmp) → IsValid q → IsValid (command marshals q)
  unfolding command
  command-IsValid q v =
      list_cases IsValid q.commanders q (λ x others. go_on marshals x others q) (λ n. v)
        (λ x others e. go_on-IsValid x others q e v)
