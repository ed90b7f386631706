-- ===== src/Qmp/Handling.antt =====
-- What the handler does to the monitor with each message (hypervisor/qemu/qmp_handler.go).
use runv.Prelude.{
  ℕ, ◌+◌, ◌≡◌, refl, ap, subst, ◌∙◌, sym, Bool, true, false, none, some, List, [], ◌∷◌, ◌++◌,
  length, arith, append_assoc, append_empty, list_cases,
}
use runv.Qmp.{
  Session, Feedback, succeeded, refused, broken, Message, init, timeout, quit, shutdown, event,
  session, finish, feedback, initializing, looping, stopped, beginning, Notice, init_timeout,
  vm_exit, interrupted, Qmp, notify, start_commander, handle_session, handle_finish, handle_loop,
  handle_initializing,
}
use runv.Qmp.Orders.{
  ids, firsts, pending, workers, ends, inits, fails, breaks, front, ids-append, firsts-append,
  workers-append,
}
use runv.Qmp.Phases.{busy, Phase, IsValid, same-Phase}
use runv.Qmp.Commands.{front_bound}

-- The same, with the first message of the channel in sight.
pub behead-IsValid :
    (m : Message) (rest : List Message) (q : Qmp)
    → q.queue ≡ m ∷ rest
    → IsValid q
    → IsValid (record q { queue = m ∷ rest })
behead-IsValid m rest q e v = record {
  order = ap (λ xs. firsts q.responded ++ (ids q.buf ++ pending xs)) (sym e) ∙ v.order;
  calm = v.calm;
  phase =
      same-Phase q.handler q (record q { queue = m ∷ rest }) refl (sym e) refl refl refl v.phase;
}

-- Nobody works, and the first session gets a commander.
start_commander-busy : (q : Qmp) → busy q ≡ [] → busy (start_commander q) ≡ front q.buf
unfolding start_commander
start_commander-busy q n =
    let P : Qmp → Type 0 = λ t. busy t ≡ front q.buf in
    list_cases P q.buf q (λ s rest. record q { commanders = q.commanders ++ beginning s ∷ [] })
      (λ e. n ∙ ap front (sym e))
      (λ s rest e.
        let (a, b) = append_empty (workers q.commanders) (ends q.queue) n in
        ap (λ xs. xs ++ ends q.queue)
          (workers-append q.commanders (beginning s ∷ []) ∙ ap (λ xs. xs ++ s.respond ∷ []) a)
        ∙ ap (λ xs. s.respond ∷ xs) b
        ∙ ap front (sym e))

-- Starting a commander changes only the commanders.
record Starts (q t : Qmp) : Type 0 where
  handler : t.handler ≡ q.handler
  buf : t.buf ≡ q.buf
  starting : t.starting ≡ q.starting
  responded : t.responded ≡ q.responded
  submitted : t.submitted ≡ q.submitted
  panicked : t.panicked ≡ q.panicked
  res : t.res ≡ q.res
  queue : t.queue ≡ q.queue

start_commander-Starts : (q : Qmp) → Starts q (start_commander q)
unfolding start_commander
start_commander-Starts q =
    let same : Starts q q = record {
      handler = refl;
      buf = refl;
      starting = refl;
      responded = refl;
      submitted = refl;
      panicked = refl;
      res = refl;
      queue = refl;
    } in
    list_cases (Starts q) q.buf q
      (λ s rest. record q { commanders = q.commanders ++ beginning s ∷ [] }) (λ e. same)
      (λ s rest e. record {
        handler = refl;
        buf = refl;
        starting = refl;
        responded = refl;
        submitted = refl;
        panicked = refl;
        res = refl;
        queue = refl;
      })

-- A looping handler, for whose first session a commander is started.
start_commander-IsValid :
    (q : Qmp)
    → q.handler ≡ looping
    → firsts q.responded ++ (ids q.buf ++ pending q.queue) ≡ q.submitted
    → q.panicked ≡ false
    → q.starting ≡ false
    → inits q.queue ≡ 0
    → fails q.queue ≡ 0
    → breaks q.res ≡ 0
    → busy q ≡ []
    → IsValid (start_commander q)
start_commander-IsValid q h o p s i f b n =
    let t = start_commander q in
    let w = start_commander-Starts q in
    let phase : Phase looping t = (
      w.starting ∙ s,
      ap inits w.queue ∙ i,
      ap fails w.queue ∙ f,
      ap breaks w.res ∙ b,
      start_commander-busy q n ∙ ap front (sym w.buf),
    ) in
    record {
      order = rw (w.responded, w.buf, w.queue, w.submitted) o;
      calm = w.panicked ∙ p;
      phase = subst (λ h. Phase h t) (sym (w.handler ∙ h)) phase;
    }

-- The only session at work is the one whose end is handled.
one_end : (c d : ℕ) (xs ys : List ℕ) → xs ++ c ∷ ys ≡ d ∷ [] → (xs ≡ []) × (c ≡ d) × (ys ≡ [])
one_end c d [] ys e = (refl, cc, cc)
one_end c d (x ∷ []) ys e = cc
one_end c d (x ∷ y ∷ xs) ys e = cc

breaks-append : (xs ys : List Feedback) → breaks (xs ++ ys) ≡ breaks xs + breaks ys
breaks-append [] ys = omega arith
breaks-append (succeeded ∷ xs) ys = breaks-append xs ys
breaks-append (refused ∷ xs) ys = breaks-append xs ys
breaks-append (broken ∷ xs) ys = omega (arith, breaks-append xs ys)

module _ (rest : List Message) (q : Qmp) where
  -- The handler goes on to wait for the initializer.
  still-IsValid :
      (b : List Session) (n : List Notice)
      → q.handler ≡ initializing
      → firsts q.responded ++ (ids b ++ pending rest) ≡ q.submitted
      → q.panicked ≡ false
      → Phase initializing (record q { queue = rest })
      → IsValid (record q { queue = rest; buf = b; hub = n })
  still-IsValid b n h o p f = record {
    order = o;
    calm = p;
    phase = subst (λ h. Phase h (record q { queue = rest; buf = b; hub = n })) (sym h) f;
  }

  pub handle_initializing-IsValid :
      (m : Message)
      → q.handler ≡ initializing
      → firsts q.responded ++ (ids q.buf ++ pending (m ∷ rest)) ≡ q.submitted
      → q.panicked ≡ false
      → Phase initializing (record q { queue = m ∷ rest })
      → IsValid (handle_initializing m (record q { queue = rest }))
  unfolding handle_initializing notify
  handle_initializing-IsValid init h o p (c, e, n, b) =
      let quiet : busy (record q { queue = rest; handler = looping; receiving = true }) ≡ [] =
        ap (λ cs. workers cs ++ ends rest) c ∙ e in
      start_commander-IsValid (record q { queue = rest; handler = looping; receiving = true }) refl
        o p (ground (arith, n)) (omega (arith, n)) (omega (arith, n)) b quiet
  handle_initializing-IsValid (finish none true) h o p (c, e, n, b) =
      still-IsValid q.buf q.hub h o p (c, e, omega (arith, n), b)
  handle_initializing-IsValid (finish none false) h o p (c, e, n, b) = record {
    order = o;
    calm = p;
    phase =
        let z : length (workers q.commanders ++ ends rest) ≡ 0 =
          ap length (ap (λ cs. workers cs ++ ends rest) c ∙ e) in
        omega (arith, z);
  }
  handle_initializing-IsValid (finish (some d) ok) h o p (c, e, n, b) = cc
  handle_initializing-IsValid timeout h o p f =
      still-IsValid q.buf (q.hub ++ init_timeout ∷ []) h o p f
  handle_initializing-IsValid (session s) h o p f =
      let r = firsts q.responded in
      let order : r ++ (ids (q.buf ++ s ∷ []) ++ pending rest) ≡ q.submitted =
        ap (λ xs. r ++ (xs ++ pending rest)) (ids-append q.buf (s ∷ []))
        ∙ ap (◌++◌ r) (append_assoc (ids q.buf) (s.respond ∷ []) (pending rest))
        ∙ o in
      still-IsValid (q.buf ++ s ∷ []) q.hub h order p f
  handle_initializing-IsValid (feedback f) h o p g = still-IsValid q.buf q.hub h o p g
  handle_initializing-IsValid shutdown h o p f = still-IsValid q.buf q.hub h o p f
  handle_initializing-IsValid event h o p f = still-IsValid q.buf q.hub h o p f
  handle_initializing-IsValid quit h o p f = still-IsValid q.buf q.hub h o p f

  -- The handler stops, or it goes on with results that the commander has not taken.
  stop-IsValid :
      (r : List Feedback) (n : List Notice)
      → firsts q.responded ++ (ids q.buf ++ pending rest) ≡ q.submitted
      → q.panicked ≡ false
      → busy (record q { queue = rest }) ≡ front q.buf
      → IsValid (record q { queue = rest; res = r; handler = stopped; hub = n })
  stop-IsValid r n o p w = record {
    order = o;
    calm = p;
    phase = let l = ap length w in omega (arith, l, front_bound q.buf);
  }

  on-IsValid :
      (r : List Feedback) (b : List Session)
      → q.handler ≡ looping
      → firsts q.responded ++ (ids b ++ pending rest) ≡ q.submitted
      → q.panicked ≡ false
      → Phase looping (record q { queue = rest; res = r; buf = b })
      → IsValid (record q { queue = rest; res = r; buf = b })
  on-IsValid r b h o p f = record {
    order = o;
    calm = p;
    phase = subst (λ h. Phase h (record q { queue = rest; res = r; buf = b })) (sym h) f;
  }

  handle_session-IsValid :
      (s : Session)
      → q.handler ≡ looping
      → firsts q.responded ++ (ids q.buf ++ (s.respond ∷ pending rest)) ≡ q.submitted
      → q.panicked ≡ false
      → Phase looping (record q { queue = rest })
      → IsValid (handle_session s (record q { queue = rest }))
  unfolding handle_session
  handle_session-IsValid s h o p (x, i, f, b, w) =
      let r = firsts q.responded in
      let more : r ++ (ids (q.buf ++ s ∷ []) ++ pending rest) ≡ q.submitted =
        ap (λ xs. r ++ (xs ++ pending rest)) (ids-append q.buf (s ∷ []))
        ∙ ap (◌++◌ r) (append_assoc (ids q.buf) (s.respond ∷ []) (pending rest))
        ∙ o in
      let only : Qmp = record q { queue = rest; buf = s ∷ [] } in
      list_cases IsValid q.buf (start_commander only)
        (λ t ts. record q { queue = rest; buf = q.buf ++ s ∷ [] })
        (λ e.
          start_commander-IsValid only h
            (ap (λ ss. r ++ (ids (ss ++ s ∷ []) ++ pending rest)) (sym e) ∙ more) p x i f b
            (w ∙ ap front e))
        (λ t ts e.
          let same : front q.buf ≡ front (q.buf ++ s ∷ []) =
            ap front e ∙ ap (λ ss. front (ss ++ s ∷ [])) (sym e) in
          on-IsValid q.res (q.buf ++ s ∷ []) h more p (x, i, f, b, w ∙ same))

  handle_finish-IsValid :
      (c : ℕ) (ok : Bool)
      → q.handler ≡ looping
      → firsts q.responded ++ (ids q.buf ++ pending rest) ≡ q.submitted
      → q.panicked ≡ false
      → Phase looping (record q { queue = finish (some c) ok ∷ rest })
      → IsValid (handle_finish (some c) ok (record q { queue = rest }))
  unfolding handle_finish
  handle_finish-IsValid c ok h o p (x, i, f, b, w) =
      let answered : List (ℕ × Bool) = q.responded ++ (c, ok) ∷ [] in
      let t : List Session → Qmp =
        λ ss. record q { queue = rest; buf = ss; responded = answered } in
      list_cases IsValid q.buf (record q { queue = rest; panicked = true })
        (λ s ss. start_commander (t ss))
        (λ e.
          let (n, l) = append_empty (workers q.commanders) (c ∷ ends rest) (w ∙ ap front e) in cc)
        (λ s ss e.
          let only : workers q.commanders ++ (c ∷ ends rest) ≡ s.respond ∷ [] = w ∙ ap front e in
          let (none_works, same, none_ends) =
            one_end c s.respond (workers q.commanders) (ends rest) only in
          let order : firsts answered ++ (ids ss ++ pending rest) ≡ q.submitted =
            ap (λ xs. xs ++ (ids ss ++ pending rest)) (firsts-append q.responded ((c, ok) ∷ []))
            ∙ append_assoc (firsts q.responded) (c ∷ []) (ids ss ++ pending rest)
            ∙ ap (λ d. firsts q.responded ++ (d ∷ (ids ss ++ pending rest))) same
            ∙ ap (λ ts. firsts q.responded ++ (ids ts ++ pending rest)) (sym e)
            ∙ o in
          start_commander-IsValid (t ss) h order p x i f b
            (ap (λ xs. xs ++ ends rest) none_works ∙ none_ends))

  pub handle_loop-IsValid :
      (m : Message)
      → q.handler ≡ looping
      → firsts q.responded ++ (ids q.buf ++ pending (m ∷ rest)) ≡ q.submitted
      → q.panicked ≡ false
      → Phase looping (record q { queue = m ∷ rest })
      → IsValid (handle_loop m (record q { queue = rest }))
  unfolding handle_loop notify
  handle_loop-IsValid (session s) h o p f = handle_session-IsValid s h o p f
  handle_loop-IsValid (finish none ok) h o p (x, i, f, b, w) = absurd (omega (arith, f))
  handle_loop-IsValid (finish (some c) ok) h o p f = handle_finish-IsValid c ok h o p f
  handle_loop-IsValid (feedback broken) h o p (x, i, f, b, w) =
      stop-IsValid (q.res ++ broken ∷ []) (q.hub ++ interrupted ∷ []) o p w
  handle_loop-IsValid (feedback succeeded) h o p (x, i, f, b, w) =
      on-IsValid (q.res ++ succeeded ∷ []) q.buf h o p
        (x, i, f, omega (arith, b, breaks-append q.res (succeeded ∷ [])), w)
  handle_loop-IsValid (feedback refused) h o p (x, i, f, b, w) =
      on-IsValid (q.res ++ refused ∷ []) q.buf h o p
        (x, i, f, omega (arith, b, breaks-append q.res (refused ∷ [])), w)
  handle_loop-IsValid shutdown h o p (x, i, f, b, w) =
      stop-IsValid q.res (q.hub ++ vm_exit ∷ []) o p w
  handle_loop-IsValid quit h o p (x, i, f, b, w) = stop-IsValid q.res q.hub o p w
  handle_loop-IsValid event h o p f = on-IsValid q.res q.buf h o p f
  handle_loop-IsValid timeout h o p f = on-IsValid q.res q.buf h o p f
  handle_loop-IsValid init h o p (x, i, f, b, w) = absurd (omega (arith, i))
