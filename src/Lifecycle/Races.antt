-- ===== src/Lifecycle/Races.antt =====
-- Close in the goroutine of shutdownVM while the event loop of hypervisor/hypervisor.go is still at
-- work.
use runv.Prelude.{
  ◌<◌, ◌-◌, ◌≡◌, refl, ap, sym, subst, true, false, none, some, List, [], ◌∷◌, ◌++◌, ltb, lt→ltb,
  if_cases,
}
use runv.Lifecycle.Events.{Event}
use runv.Lifecycle.{
  release_guest_cid, Current, Handler, Context, Action, Position, System, testing, receiving,
  exited, crashed, becoming, close_body, close, become, dispatch, loop_test, loop_receive,
  loop_finish, step, run, test, receive, finish, driver_send, fail_close,
}

close-opens :
    (c : Context) → c.close_done ≡ false → close c ≡ record (close_body c) { close_done = true }
unfolding close
close-opens c n =
    if_cases (λ t. t ≡ record (close_body c) { close_done = true }) c.close_done c _ (λ y. cc)
      (λ m. refl)

close_body-handler : (c : Context) → (close_body c).handler ≡ none
unfolding close_body release_guest_cid
close_body-handler c = if_cases (λ (t : Context). t.handler ≡ none) _ _ _ (λ y. refl) (λ n. refl)

-- The step in which the goroutine of shutdownVM closes the context.
fail_close_lem :
    (s : System)
    → 0 < s.failed
    → s.ctx.close_done ≡ false
    → step s fail_close
      ≡ record s { ctx = record (close_body s.ctx) { close_done = true }; failed = s.failed - 1 }
unfolding step
fail_close_lem s l n =
    let t : System = record s {
      ctx = record (close_body s.ctx) { close_done = true };
      failed = s.failed - 1;
    } in
    if_cases (λ u. u ≡ t) (ltb 0 s.failed) _ s
      (λ y. ap (λ c. record s { ctx = c; failed = s.failed - 1 }) (close-opens s.ctx n))
      (λ m. let w = lt→ltb 0 s.failed l in cc)

-- The receive of a loop whose handler is nil.
loop_receive-crashed :
    (p : Position) (hub : List Event) (ev : Event) (s : System)
    → p ≡ receiving
    → s.ctx.handler ≡ none
    → (loop_receive p (hub ++ ev ∷ []) s).position ≡ crashed
unfolding loop_receive dispatch
loop_receive-crashed receiving [] ev s e n = rw (n, dispatch) refl
loop_receive-crashed receiving (x ∷ hub) ev s e n = rw (n, dispatch) refl
loop_receive-crashed testing hub ev s e n = cc
loop_receive-crashed exited hub ev s e n = cc
loop_receive-crashed crashed hub ev s e n = cc
loop_receive-crashed (becoming h d later) hub ev s e n = cc

-- In every state in which the loop waits at the Hub and a goroutine of shutdownVM that failed has
-- still to call Close, which has not run, let it run: then the next event that the loop receives,
-- one that was in the Hub or the one that a driver writes, is a call of the nil handler.
pub closed_beside-crashed :
    (s : System) (ev : Event)
    → s.position ≡ receiving
    → 0 < s.failed
    → s.ctx.close_done ≡ false
    → (run s (fail_close ∷ driver_send ev ∷ receive ∷ [])).position ≡ crashed
unfolding run step close_body
closed_beside-crashed s ev p l n =
    let shut : System = record s {
      ctx = record (close_body s.ctx) { close_done = true };
      failed = s.failed - 1;
    } in
    let sent : System = record shut { hub = s.hub ++ ev ∷ [] } in
    subst (λ t. (run t (driver_send ev ∷ receive ∷ [])).position ≡ crashed)
      (sym (fail_close_lem s l n))
      (loop_receive-crashed s.position s.hub ev sent p (close_body-handler s.ctx))

loop_finish_lem :
    (p : Position) (h : Handler) (d : Current) (later : List Action) (s : System)
    → p ≡ becoming (some h) d later
    → loop_finish p s ≡ record s {
      ctx = record (s.ctx) { handler = some h; current = d; actions = later ++ s.ctx.actions };
      position = testing;
    }
unfolding loop_finish become
loop_finish_lem p h d later s e = rw (e, loop_finish) refl

-- In every state in which the loop is about to call Become with a handler and a goroutine of
-- shutdownVM that failed has still to call Close, which has not run, let it run before that call:
-- then Become revives the context. Close has run and will not run again, while there is a handler and
-- the loop waits for events.
pub closed_before-revived :
    (s : System) (h : Handler) (d : Current) (later : List Action)
    → s.position ≡ becoming (some h) d later
    → 0 < s.failed
    → s.ctx.close_done ≡ false
    → let t = run s (fail_close ∷ finish ∷ test ∷ []) in
      (t.ctx.close_done ≡ true)
      × (t.ctx.handler ≡ some h)
      × (t.position ≡ receiving)
      × (close t.ctx ≡ t.ctx)
unfolding run step loop_test close
closed_before-revived s h d later p l n =
    let P : System → Type 0 = λ t.
      (t.ctx.close_done ≡ true)
      × (t.ctx.handler ≡ some h)
      × (t.position ≡ receiving)
      × (close t.ctx ≡ t.ctx) in
    let shut : System = record s {
      ctx = record (close_body s.ctx) { close_done = true };
      failed = s.failed - 1;
    } in
    subst (λ t. P (run t (finish ∷ test ∷ []))) (sym (fail_close_lem s l n))
      (subst (λ t. P (run t (test ∷ []))) (sym (loop_finish_lem s.position h d later shut p))
        (refl, refl, refl, refl))
