-- ===== src/Hyperstart/Streams/Waiting.antt =====
-- What the callers of WaitProcess get, over every history (agent/hyperstart.go).
use runv.Prelude.{
  ℕ, ◌≡◌, refl, ap, subst, ◌∙◌, sym, Bool, true, false, not, Option, none, some, List, [], ◌∷◌,
  ◌++◌, if◌then◌else◌, inl, inr, length, get_elem?, set, lookup, delete, has_key, ltb, ◌==◌,
  pair_eq, string_eq, nat_eq, if_cases, option_cases, ==_iff, get_elem?-set_self, get_elem?_bound,
  IsUnique, lookup-delete_self, lookup-cons_none, lookup-cons_cases,
}
use runv.Hyperstart.Streams.{
  send_process_async_event_4242, leb, exit_code, Key, Process, Out, Agent, new_agent,
  handle_wait_process, update_each, send_process_async_event, close_pipe, close_outs, remove_stderr,
  remove_stream_out, handle_stream,
}
use runv.Hyperstart.Streams.Calls.{
  wait_process, wait_ends, Move, waited, exited, received, step, run,
}
use runv.Hyperstart.Streams.Table.{
  IsValid, IsFree, handle_wait_process-cases, handle_wait_process-others,
  handle_wait_process-Agrees, handle_wait_process-Goes, entry-IsFree, same-Goes, Agrees,
  procs-Agrees, update_each-Goes,
}
use runv.Hyperstart.Streams.Steps.{new_channel-IsFree, step-Goes, run-Goes, new_agent-IsValid}

-- The status is in the channel, and the process has left the table.
abbrev IsTold : Key → ℕ → ℕ → Agent → Type 0
IsTold k c status a = (get_elem? a.wait_chans c ≡ some (status ∷ [])) × (lookup k a.procs ≡ none)

handle_wait_process-IsTold :
    (k : Key) (ps : Process) (c status : ℕ) (a : Agent)
    → IsFree k a ps.wait_chan
    → ps.wait_chan ≡ some c
    → ps.exit_status ≡ some status
    → ps.out_closed ≡ true
    → IsTold k c status (handle_wait_process k ps a)
handle_wait_process-IsTold k ps c status a free w x y =
    handle_wait_process-cases k ps a (IsTold k c status) free
      (λ new. let n = new c status w x in cc)
      (λ d s v u z.
        let q : d ≡ c = cc in
        let r : s ≡ status = cc in
        (
          subst (λ d. get_elem? (set a.wait_chans d (s ∷ [])) c ≡ some (status ∷ [])) (sym q)
              (subst (λ s. get_elem? (set a.wait_chans c (s ∷ [])) c ≡ some (status ∷ [])) (sym r)
                (get_elem?-set_self a.wait_chans c (status ∷ [])
                  (get_elem?_bound a.wait_chans c (free c w).0))),
          lookup-delete_self k a.procs,
        ))

-- The loop over the table leaves the entry of a key that it does not meet.
update_each-others :
    (test : Process → Bool) (change : Process → Process) (k : Key) (rest : List (Key × Process))
    (a : Agent)
    → lookup k rest ≡ none
    → lookup k (update_each test change rest a).procs ≡ lookup k a.procs
unfolding update_each
update_each-others test change k [] a n = refl
update_each-others test change k ((j, p) ∷ rest) a n =
    let (other, behind) = lookup-cons_none k j p rest n in
    let t = handle_wait_process j (change p) a in
    if_cases (λ (b : Agent). lookup k (update_each test change rest b).procs ≡ lookup k a.procs)
      (test p) t a
      (λ y.
        update_each-others test change k rest t behind
        ∙ handle_wait_process-others j k (change p) a other)
      (λ z. update_each-others test change k rest a behind)

module _ (test : Process → Bool) (change : Process → Process) (k : Key) (ps : Process)
    (c status : ℕ) (same : (ps : Process) → (change ps).wait_chan ≡ ps.wait_chan)
    (y : test ps ≡ true) (w : ps.wait_chan ≡ some c) (x : (change ps).exit_status ≡ some status)
    (o : (change ps).out_closed ≡ true) where
  update_each-IsTold :
      (rest : List (Key × Process)) (a : Agent)
      → lookup k rest ≡ some ps
      → IsUnique rest
      → Agrees rest a
      → IsValid a
      → IsTold k c status (update_each test change rest a)
  unfolding update_each lookup
  update_each-IsTold [] a h u g v = cc
  update_each-IsTold ((j, p) ∷ rest) a h (n, u) (e, g) v =
      let t = handle_wait_process j (change p) a in
      let free : IsFree j a (change p).wait_chan =
        subst (IsFree j a) (sym (same p)) (entry-IsFree j p a e v) in
      let first = handle_wait_process-Goes j (change p) a free v in
      let agrees = handle_wait_process-Agrees j (change p) rest a n g in
      let P : Agent → Type 0 = λ b. IsTold k c status (update_each test change rest b) in
      let here : j ≡ k → p ≡ ps → P t = λ q r.
        let told : IsTold j c status t =
          handle_wait_process-IsTold j (change p) c status a free
            (same p ∙ ap (λ (p : Process). p.wait_chan) r ∙ w)
            (ap (λ p. (change p).exit_status) r ∙ x) (ap (λ p. (change p).out_closed) r ∙ o) in
        let gone : lookup k t.procs ≡ none = subst (λ k. lookup k t.procs ≡ none) q told.1 in
        let absent : lookup k rest ≡ none = subst (λ k. lookup k rest ≡ none) q n in
        (
          (update_each-Goes test change rest t same u agrees first.valid).keeps c status told.0,
          update_each-others test change k rest t absent ∙ gone,
        ) in
      elim (lookup-cons_cases k j p rest h) [
        | inl (q, r) ↦
            let met : test p ≡ true = ap test (sym r) ∙ y in
            if_cases P (test p) t a (λ z. here q (sym r)) (λ z. cc)
        | inr later ↦
            if_cases P (test p) t a (λ z. update_each-IsTold rest t later u agrees first.valid)
              (λ z. update_each-IsTold rest a later u g v)
      ]

-- The ways in which the last of three things happens to a process: it exits, its output ends, and a
-- caller waits for it. An agent of a version up to 4242 tells the exit on the stream, after its end.
-- The end of the output may be the last only if it does not make the agent panic, as it does when
-- the error stream of a process has ended before. `c` is the caller's channel.
pub data Completes (a : Agent) (k : Key) (c status : ℕ) : Move → Type 0 where
  by_exit :
      (ps : Process)
      → lookup k a.procs ≡ some ps
      → ps.wait_chan ≡ some c
      → ps.out_closed ≡ true
      → Completes a k c status (exited k status)
  by_old_exit :
      (ps : Process) (version : ℕ) (taken : Bool) (message : List ℕ)
      → lookup k a.procs ≡ some ps
      → ps.wait_chan ≡ some c
      → ps.out_closed ≡ true
      → lookup ps.stdio_seq a.stream_outs ≡ none
      → leb version 4242 ≡ true
      → status ≡ exit_code message
      → Completes a k c status (received version taken ps.stdio_seq message)
  by_output :
      (ps : Process) (out : Out) (version : ℕ) (taken : Bool)
      → lookup k a.procs ≡ some ps
      → ps.wait_chan ≡ some c
      → ps.exit_status ≡ some status
      → lookup ps.stdio_seq a.stream_outs ≡ some out
      → out.stdio ≡ ps.stdio_seq
      → (step a (received version taken ps.stdio_seq [])).panicked ≡ false
      → Completes a k c status (received version taken ps.stdio_seq [])
  by_waiter :
      (ps : Process)
      → lookup k a.procs ≡ some ps
      → ps.exit_status ≡ some status
      → ps.out_closed ≡ true
      → ps.wait_chan ≡ none
      → c ≡ length a.wait_chans
      → Completes a k c status (waited k)

-- What is left of the table when the error stream has ended with the output.
err_ended : Out → Agent → Agent
unfolding remove_stderr
err_ended out t = if ltb 0 out.stderr then remove_stderr out.stderr t else t

err_ended-Same :
    (out : Out) (t : Agent)
    → let u = err_ended out t in
      (u.procs ≡ t.procs) × (u.wait_chans ≡ t.wait_chans) × (u.blocked ≡ t.blocked)
unfolding err_ended remove_stderr close_pipe
err_ended-Same out t =
    let P : Agent → Type 0 =
      λ u. (u.procs ≡ t.procs) × (u.wait_chans ≡ t.wait_chans) × (u.blocked ≡ t.blocked) in
    if_cases P (ltb 0 out.stderr) (remove_stderr out.stderr t) t
      (λ y.
        if_cases P (has_key out.stderr t.stream_outs) _ _ (λ z. (refl, refl, refl))
          (λ z. (refl, refl, refl)))
      (λ y. (refl, refl, refl))

-- `t` differs from `a`, where the process is, in other fields.
close_outs-IsTold :
    (k : Key) (ps : Process) (c status : ℕ) (a t : Agent)
    → IsValid a
    → t.procs ≡ a.procs
    → t.wait_chans ≡ a.wait_chans
    → t.blocked ≡ a.blocked
    → lookup k a.procs ≡ some ps
    → ps.wait_chan ≡ some c
    → ps.exit_status ≡ some status
    → IsTold k c status (close_outs ps.stdio_seq t)
unfolding close_outs
close_outs-IsTold k ps c status a t v p ch b e w x =
    let u = (same-Goes a t p ch b v).valid in
    update_each-IsTold (λ q. q.stdio_seq == ps.stdio_seq) (λ q. record q { out_closed = true }) k ps
      c status (λ q. refl) ((==_iff ps.stdio_seq ps.stdio_seq).1 refl) w x refl t.procs t
      (ap (lookup k) p ∙ e) u.unique (procs-Agrees t u.unique) u

remove_stream_out-IsTold :
    (k : Key) (ps : Process) (out : Out) (c status : ℕ) (a : Agent)
    → IsValid a
    → lookup k a.procs ≡ some ps
    → ps.wait_chan ≡ some c
    → ps.exit_status ≡ some status
    → lookup ps.stdio_seq a.stream_outs ≡ some out
    → out.stdio ≡ ps.stdio_seq
    → (remove_stream_out ps.stdio_seq a).panicked ≡ false
    → IsTold k c status (remove_stream_out ps.stdio_seq a)
unfolding remove_stream_out err_ended
remove_stream_out-IsTold k ps out c status a v e w x l s =
    let seq = ps.stdio_seq in
    let P : Agent → Type 0 = λ b. b.panicked ≡ false → IsTold k c status b in
    let t : Agent = record a { stream_outs = delete seq a.stream_outs } in
    let all : Out → Agent = λ out.
      if not (seq == out.stdio)
      then t
      else if (err_ended out t).panicked
      then err_ended out t
      else close_outs seq (err_ended out t) in
    let met : (seq == out.stdio) ≡ true = (==_iff seq out.stdio).1 (sym s) in
    let found : P (all out) =
      if_cases P (not (seq == out.stdio)) t _ (λ y. cc)
        (λ n.
          if_cases P (err_ended out t).panicked (err_ended out t) (close_outs seq (err_ended out t))
            (λ y z. cc)
            (λ m z.
              let kept = err_ended-Same out t in
              close_outs-IsTold k ps c status a (err_ended out t) v kept.0 kept.1 kept.2 e w x)) in
    option_cases P (lookup seq a.stream_outs) a all (λ n. cc)
      (λ o f. let r : out ≡ o = cc in subst (λ o. P (all o)) r found)

step-IsTold :
    (a : Agent) (k : Key) (c status : ℕ) {m : Move}
    → IsValid a
    → Completes a k c status m
    → IsTold k c status (step a m)
unfolding step send_process_async_event wait_process handle_stream has_key close_pipe
step-IsTold a k c status v (by_exit ps e w o) =
    rw (e, send_process_async_event)
      (handle_wait_process-IsTold k (record ps { exit_status = some status }) c status a
        (entry-IsFree k ps a e v) w refl o)
step-IsTold a k c status v (by_old_exit ps version taken message e w o l old q) =
    let code = exit_code message in
    let absent : has_key ps.stdio_seq a.stream_outs ≡ false = rw (l, has_key) refl in
    let all = send_process_async_event_4242 ps.stdio_seq code a in
    let told : IsTold k c code all =
      unfold send_process_async_event_4242 in
      update_each-IsTold (λ q. q.stdio_seq == ps.stdio_seq)
        (λ q. record q { exit_status = some code }) k ps c code (λ q. refl)
        ((==_iff ps.stdio_seq ps.stdio_seq).1 refl) w refl o a.procs a e v.unique
        (procs-Agrees a v.unique) v in
    if_cases (IsTold k c status) (has_key ps.stdio_seq a.stream_outs) _ _ (λ y. cc)
      (λ n.
        if_cases (IsTold k c status) (leb version 4242) all a
          (λ y. subst (λ x. IsTold k c x all) (sym q) told) (λ m. cc))
step-IsTold a k c status v (by_output ps out version taken e w x l s p) =
    let t = close_pipe ps.stdio_seq a in
    let P : Agent → Type 0 = λ b. b.panicked ≡ false → IsTold k c status b in
    let there : has_key ps.stdio_seq a.stream_outs ≡ true = rw (l, has_key) refl in
    let u = (same-Goes a t refl refl refl v).valid in
    if_cases P (has_key ps.stdio_seq a.stream_outs) _ _
      (λ y. remove_stream_out-IsTold k ps out c status t u e w x l s) (λ n. cc) p
step-IsTold a k c status v (by_waiter ps e x o w q) =
    let d = length a.wait_chans in
    let t : Agent = record a { wait_chans = a.wait_chans ++ [] ∷ [] } in
    let P : Option ℕ × Agent → Type 0 = λ r. IsTold k c status r.1 in
    let new : Process → Option ℕ × Agent =
      λ ps. (some d, handle_wait_process k (record ps { wait_chan = some d }) t) in
    let waits : Process → Option ℕ × Agent =
      λ ps. elim ps.wait_chan [ some c ↦ (some c, a) | none ↦ new ps ] in
    let told : P (new ps) =
      subst (λ c. IsTold k c status (new ps).1) (sym q)
        (handle_wait_process-IsTold k (record ps { wait_chan = some d }) d status t
          (new_channel-IsFree k a v) refl x o) in
    let found : P (waits ps) =
      option_cases P ps.wait_chan (new ps) (λ c. (some c, a)) (λ n. told) (λ b y. cc) in
    option_cases P (lookup k a.procs) (none, a) waits (λ n. cc)
      (λ p f. let r : ps ≡ p = cc in subst (λ p. P (waits p)) r found)

-- Over every history, whichever comes last of these three, the exit of a process, the end of its
-- output, if that does not make the agent panic, and the call of a caller who waits for it, the
-- process then leaves the table, and after any further history the caller gets the status that the
-- process exited with. No send on a caller's channel has blocked by then, with the lock held. (The
-- exit may be told by a notice or, by an agent of a version up to 4242, on the stream.)
pub run-told :
    (seq : ℕ) (ms later : List Move) (k : Key) (c status : ℕ) (m : Move)
    → Completes (run (new_agent seq) ms) k c status m
    → let a = step (run (new_agent seq) ms) m in
      let t = run a later in
      (lookup k a.procs ≡ none) × (wait_ends c t ≡ some status) × (t.blocked ≡ false)
unfolding wait_ends
run-told seq ms later k c status m h =
    let a = run (new_agent seq) ms in
    let v = (run-Goes ms (new_agent seq) (new_agent-IsValid seq)).valid in
    let told = step-IsTold a k c status v h in
    let b = (step-Goes a m v).valid in
    let g = run-Goes later (step a m) b in
    let e = g.keeps c status told.0 in (told.1, rw (e, wait_ends) refl, g.valid.calm)
