-- ===== src/Hyperstart/Streams/Steps.antt =====
-- What every call and every message keeps of the table of processes (agent/hyperstart.go).
use Prim.Native.String.{String}
use runv.Prelude.{
  ℕ, ◌≡◌, refl, ap, ◌∙◌, sym, Bool, true, false, not, Option, none, some, List, [], ◌∷◌, ◌++◌,
  if◌then◌else◌, length, get_elem?, lookup, insert, delete, has_key, ltb, leb, ◌==◌, pair_eq,
  string_eq, nat_eq, arith, if_cases, option_cases, get_elem?_bound, get_elem?-append,
  get_elem?-snoc,
}
use runv.Hyperstart.Streams.{
  Key, Process, Out, Agent, new_agent, handle_wait_process, send_process_async_event,
  send_process_async_event_4242, close_pipe, close_outs, remove_stderr, remove_stream_out,
  handle_stream,
}
use runv.Hyperstart.Streams.Calls.{
  Result, setup_process_io, alloc_stream_seq, remove_process, enter_process, create_container,
  start_container, exec_process, exec_ends, wait_process, write_stdin, close_stdin, close_pipes,
  end_all, close, Move, created, started, executed, exec_ended, waited, stdin_closed, stdin_written,
  exited, received, closed, step, run, ok, conflict, already_created, not_created, command_failed,
  closed_error, no_process,
}
use runv.Hyperstart.Streams.Table.{
  IsValid, IsFree, insert-IsValid, delete-IsValid, handle_wait_process-Goes, entry-IsFree, Goes,
  Goes-trans, Goes-refl, update_table-Goes, same-Goes,
}

insert-Goes :
    (k : Key) (ps : Process) (a : Agent)
    → IsFree k a ps.wait_chan
    → ((c s : ℕ) → ps.wait_chan ≡ some c → ps.exit_status ≡ some s → ps.out_closed ≡ false)
    → IsValid a
    → Goes a (record a { procs = insert k ps a.procs })
insert-Goes k ps a free new v = record {
  valid = insert-IsValid k ps a free new v;
  keeps = λ c s h. h;
}

delete-Goes : (k : Key) (a : Agent) → IsValid a → Goes a (record a { procs = delete k a.procs })
delete-Goes k a v = record { valid = delete-IsValid k a v; keeps = λ c s h. h }

enter_process-Goes :
    (k : Key) (terminal : Bool) (a : Agent) → IsValid a → Goes a (enter_process k terminal a)
unfolding enter_process setup_process_io alloc_stream_seq
enter_process-Goes k true a v =
    let io = setup_process_io true a in
    let first = same-Goes a io.1 refl refl refl v in
    Goes-trans a io.1 _ first (insert-Goes k io.0 io.1 (λ c w. cc) (λ c s w. cc) first.valid)
enter_process-Goes k false a v =
    let io = setup_process_io false a in
    let first = same-Goes a io.1 refl refl refl v in
    Goes-trans a io.1 _ first (insert-Goes k io.0 io.1 (λ c w. cc) (λ c s w. cc) first.valid)

create_container-Goes :
    (container : String) (terminal : Bool) (a : Agent)
    → IsValid a
    → Goes a (create_container container terminal a).1
unfolding create_container
create_container-Goes container terminal a v =
    let k : Key = (container, "init") in
    let t = enter_process k terminal a in
    let entered = enter_process-Goes k terminal a v in
    let u : Agent = record t { created = insert container k t.created } in
    let P : Result × Agent → Type 0 = λ r. Goes a r.1 in
    if_cases P (has_key container a.created) (already_created, a) _ (λ y. Goes-refl a v)
      (λ n.
        if_cases P (has_key k a.procs) (conflict, a) (ok, u) (λ y. Goes-refl a v)
          (λ m. Goes-trans a t u entered (same-Goes t u refl refl refl entered.valid)))

remove_process-Goes : (k : Key) (a : Agent) → IsValid a → Goes a (remove_process k a)
unfolding remove_process
remove_process-Goes k a v =
    option_cases (Goes a) (lookup k a.procs) a _ (λ e. Goes-refl a v)
      (λ ps e.
        let t : Agent = record a { procs = delete k a.procs } in
        Goes-trans a t _ (delete-Goes k a v) (same-Goes t _ refl refl refl (delete-IsValid k a v)))

start_container-Goes :
    (container : String) (answered : Bool) (a : Agent)
    → IsValid a
    → Goes a (start_container container answered a).1
unfolding start_container
start_container-Goes container answered a v =
    let t : Agent = record a { created = delete container a.created } in
    let first = same-Goes a t refl refl refl v in
    let P : Result × Agent → Type 0 = λ r. Goes a r.1 in
    option_cases P (lookup container a.created) (not_created, a) _ (λ e. Goes-refl a v)
      (λ k e.
        if_cases P answered (ok, t) (command_failed, remove_process k t) (λ y. first)
          (λ n. Goes-trans a t _ first (remove_process-Goes k t first.valid)))

exec_process-Goes :
    (k : Key) (terminal : Bool) (a : Agent) → IsValid a → Goes a (exec_process k terminal a).1
unfolding exec_process
exec_process-Goes k terminal a v =
    if_cases (λ (r : Result × Agent). Goes a r.1) (has_key k a.procs) (conflict, a)
      (ok, enter_process k terminal a) (λ y. Goes-refl a v) (λ n. enter_process-Goes k terminal a v)

exec_ends-Goes :
    (k : Key) (answered : Bool) (a : Agent) → IsValid a → Goes a (exec_ends k answered a).1
unfolding exec_ends
exec_ends-Goes k answered a v =
    if_cases (λ (r : Result × Agent). Goes a r.1) answered (ok, a)
      (command_failed, remove_process k a) (λ y. Goes-refl a v) (λ n. remove_process-Goes k a v)

-- A new channel: those in use stay as they are, and it is free.
new_channel-Goes :
    (a : Agent) → IsValid a → Goes a (record a { wait_chans = a.wait_chans ++ [] ∷ [] })
new_channel-Goes a v =
    let old : (c : ℕ) (xs : List ℕ)
        → get_elem? a.wait_chans c ≡ some xs
        → get_elem? (a.wait_chans ++ [] ∷ []) c ≡ some xs =
      λ c xs e. get_elem?-append a.wait_chans ([] ∷ []) c e in
    record {
      valid = record {
        unique = v.unique;
        empty = λ k ps c e w. old c [] (v.empty k ps c e w);
        apart = v.apart;
        pending = v.pending;
        calm = v.calm;
      };
      keeps = λ c s h. old c (s ∷ []) h;
    }

pub new_channel-IsFree :
    (k : Key) (a : Agent)
    → IsValid a
    → IsFree k (record a { wait_chans = a.wait_chans ++ [] ∷ [] }) (some (length a.wait_chans))
new_channel-IsFree k a v c w =
    let q : length a.wait_chans ≡ c = ap (λ o. elim o [ none ↦ 0 | some n ↦ n ]) w in
    (
      ap (get_elem? (a.wait_chans ++ [] ∷ [])) (sym q) ∙ get_elem?-snoc a.wait_chans [],
      λ j p e x. absurd (omega (arith, get_elem?_bound a.wait_chans c (v.empty j p c e x), q)),
    )

wait_process-Goes : (k : Key) (a : Agent) → IsValid a → Goes a (wait_process k a).1
unfolding wait_process
wait_process-Goes k a v =
    let c = length a.wait_chans in
    let t : Agent = record a { wait_chans = a.wait_chans ++ [] ∷ [] } in
    let first = new_channel-Goes a v in
    let P : Option ℕ × Agent → Type 0 = λ r. Goes a r.1 in
    let told : Process → Option ℕ × Agent =
      λ ps. (some c, handle_wait_process k (record ps { wait_chan = some c }) t) in
    let there : Process → ℕ → Option ℕ × Agent = λ ps d. (some d, a) in
    option_cases P (lookup k a.procs) (none, a)
      (λ ps. elim ps.wait_chan [ some d ↦ (some d, a) | none ↦ told ps ]) (λ e. Goes-refl a v)
      (λ ps e.
        option_cases P ps.wait_chan (told ps) (there ps)
          (λ n. Goes-trans a t _ first (
            handle_wait_process-Goes k (record ps { wait_chan = some c }) t
              (new_channel-IsFree k a v) first.valid))
          (λ d w. Goes-refl a v))

close_stdin-Goes : (k : Key) (a : Agent) → IsValid a → Goes a (close_stdin k a).1
unfolding close_stdin
close_stdin-Goes k a v =
    let P : Result × Agent → Type 0 = λ r. Goes a r.1 in
    option_cases P (lookup k a.procs) (no_process, a) _ (λ e. Goes-refl a v)
      (λ ps e.
        let shut : Process = record ps { stdin_open = false } in
        let t : Agent = record a { procs = insert k shut a.procs } in
        let first =
          insert-Goes k shut a (entry-IsFree k ps a e v) (λ c s w x. v.pending k ps c s e w x) v in
        let u : Agent = record t { stream_chan = a.stream_chan ++ (ps.stdio_seq, []) ∷ [] } in
        if_cases P ps.stdin_open _ (closed_error, a)
          (λ y.
            if_cases P a.closed (closed_error, a) (ok, u) (λ z. Goes-refl a v)
              (λ z. Goes-trans a t u first (same-Goes t u refl refl refl first.valid)))
          (λ n. Goes-refl a v))

write_stdin-Goes :
    (k : Key) (bytes : List ℕ) (a : Agent) → IsValid a → Goes a (write_stdin k bytes a).1
unfolding write_stdin
write_stdin-Goes k bytes a v =
    let P : (Result × ℕ) × Agent → Type 0 = λ r. Goes a r.1 in
    option_cases P (lookup k a.procs) ((no_process, 0), a) _ (λ e. Goes-refl a v)
      (λ ps e.
        if_cases P (length bytes == 0) ((ok, 0), a) _ (λ y. Goes-refl a v)
          (λ n.
            if_cases P ps.stdin_open _ ((closed_error, 0), a)
              (λ y.
                if_cases P a.closed ((closed_error, 0), a) _ (λ z. Goes-refl a v)
                  (λ z. same-Goes a _ refl refl refl v))
              (λ z. Goes-refl a v)))

exited-Goes :
    (k : Key) (status : ℕ) (a : Agent) → IsValid a → Goes a (send_process_async_event k status a)
unfolding send_process_async_event
exited-Goes k status a v =
    option_cases (Goes a) (lookup k a.procs) a
      (λ ps. handle_wait_process k (record ps { exit_status = some status }) a) (λ e. Goes-refl a v)
      (λ ps e.
        handle_wait_process-Goes k (record ps { exit_status = some status }) a
          (entry-IsFree k ps a e v) v)

exit_4242-Goes :
    (seq code : ℕ) (a : Agent) → IsValid a → Goes a (send_process_async_event_4242 seq code a)
unfolding send_process_async_event_4242
exit_4242-Goes seq code a v =
    update_table-Goes (λ ps. ps.stdio_seq == seq) (λ ps. record ps { exit_status = some code }) a
      (λ ps. refl) v

close_outs-Goes : (seq : ℕ) (a : Agent) → IsValid a → Goes a (close_outs seq a)
unfolding close_outs
close_outs-Goes seq a v =
    update_table-Goes (λ ps. ps.stdio_seq == seq) (λ ps. record ps { out_closed = true }) a
      (λ ps. refl) v

remove_stderr-Goes : (seq : ℕ) (a : Agent) → IsValid a → Goes a (remove_stderr seq a)
unfolding remove_stderr close_pipe
remove_stderr-Goes seq a v =
    if_cases (Goes a) (has_key seq a.stream_outs) _ _ (λ y. same-Goes a _ refl refl refl v)
      (λ n. same-Goes a _ refl refl refl v)

remove_stream_out-Goes : (seq : ℕ) (a : Agent) → IsValid a → Goes a (remove_stream_out seq a)
unfolding remove_stream_out
remove_stream_out-Goes seq a v =
    let t : Agent = record a { stream_outs = delete seq a.stream_outs } in
    let first = same-Goes a t refl refl refl v in
    let err : Out → Agent = λ out. if ltb 0 out.stderr then remove_stderr out.stderr t else t in
    let all : Out → Agent = λ out.
      if not (seq == out.stdio)
      then t
      else if (err out).panicked
      then err out
      else close_outs seq (err out) in
    option_cases (Goes a) (lookup seq a.stream_outs) a all (λ e. Goes-refl a v)
      (λ out e.
        let second : Goes a (err out) =
          if_cases (Goes a) (ltb 0 out.stderr) (remove_stderr out.stderr t) t
            (λ y. Goes-trans a t _ first (remove_stderr-Goes out.stderr t first.valid))
            (λ n. first) in
        if_cases (Goes a) (not (seq == out.stdio)) t _ (λ y. first)
          (λ n.
            if_cases (Goes a) (err out).panicked (err out) (close_outs seq (err out)) (λ y. second)
              (λ m. Goes-trans a (err out) _ second (close_outs-Goes seq (err out) second.valid))))

handle_stream-Goes :
    (version : ℕ) (taken : Bool) (seq : ℕ) (message : List ℕ) (a : Agent)
    → IsValid a
    → Goes a (handle_stream version taken seq message a)
unfolding handle_stream close_pipe send_process_async_event_4242
handle_stream-Goes version taken seq message a v =
    let t = close_pipe seq a in
    let ended : Goes a (remove_stream_out seq t) =
      Goes-trans a t _ (same-Goes a t refl refl refl v)
        (remove_stream_out-Goes seq t (same-Goes a t refl refl refl v).valid) in
    if_cases (Goes a) (has_key seq a.stream_outs) _ _
      (λ y.
        if_cases (Goes a) (ltb 0 (length message)) _ (remove_stream_out seq t)
          (λ z.
            if_cases (Goes a) taken _ (remove_stream_out seq t)
              (λ x. same-Goes a _ refl refl refl v) (λ x. ended))
          (λ z. ended))
      (λ n.
        if_cases (Goes a) (leb version 4242) _ a (λ y. exit_4242-Goes seq _ a v)
          (λ y. Goes-refl a v))

close_pipes-Goes : (outs : List (ℕ × Out)) (a : Agent) → IsValid a → Goes a (close_pipes outs a)
unfolding close_pipes close_pipe
close_pipes-Goes [] a v = Goes-refl a v
close_pipes-Goes ((seq, out) ∷ rest) a v =
    let t = close_pipe seq a in
    let first = same-Goes a t refl refl refl v in
    Goes-trans a t (close_pipes rest t) first (close_pipes-Goes rest t first.valid)

no_procs-IsValid : (a : Agent) → a.procs ≡ [] → a.blocked ≡ false → IsValid a
unfolding lookup
no_procs-IsValid a p b =
    let gone : (k : Key) → lookup k a.procs ≡ none = λ k. rw p refl in
    record {
      unique = rw p tt;
      empty = λ k ps c e. let n = gone k in cc;
      apart = λ j k q r c e. let n = gone j in cc;
      pending = λ k ps c s e. let n = gone k in cc;
      calm = b;
    }

close-Goes : (a : Agent) → IsValid a → Goes a (close a)
unfolding close end_all
close-Goes a v =
    let pipes = close_pipes a.stream_outs a in
    let t : Agent = record pipes { stream_outs = [] } in
    let x = close_pipes-Goes a.stream_outs a v in
    let y = same-Goes pipes t refl refl refl x.valid in
    let z =
      update_table-Goes (λ ps. true) (λ ps. record ps { out_closed = true; exit_status = some 255 })
        t (λ ps. refl) y.valid in
    let u = end_all t in
    let to_u = Goes-trans a pipes u x (Goes-trans pipes t u y z) in
    let emptied : Goes u (record u { procs = []; closed = true }) = record {
      valid = no_procs-IsValid (record u { procs = []; closed = true }) refl z.valid.calm;
      keeps = λ c s h. h;
    } in
    if_cases (Goes a) a.closed a (record u { procs = []; closed = true }) (λ y. Goes-refl a v)
      (λ n. Goes-trans a u _ to_u emptied)

pub step-Goes : (a : Agent) (m : Move) → IsValid a → Goes a (step a m)
unfolding step
step-Goes a (created container terminal) v = create_container-Goes container terminal a v
step-Goes a (started container answered) v = start_container-Goes container answered a v
step-Goes a (executed k terminal) v = exec_process-Goes k terminal a v
step-Goes a (exec_ended k answered) v = exec_ends-Goes k answered a v
step-Goes a (waited k) v = wait_process-Goes k a v
step-Goes a (stdin_closed k) v = close_stdin-Goes k a v
step-Goes a (stdin_written k bytes) v = write_stdin-Goes k bytes a v
step-Goes a (exited k status) v = exited-Goes k status a v
step-Goes a (received version taken seq message) v =
    handle_stream-Goes version taken seq message a v
step-Goes a closed v = close-Goes a v

pub run-Goes : (ms : List Move) (a : Agent) → IsValid a → Goes a (run a ms)
unfolding run
run-Goes [] a v = Goes-refl a v
run-Goes (m ∷ ms) a v =
    let first = step-Goes a m v in
    Goes-trans a (step a m) _ first (run-Goes ms (step a m) first.valid)

pub new_agent-IsValid : (seq : ℕ) → IsValid (new_agent seq)
unfolding new_agent
new_agent-IsValid seq = no_procs-IsValid (new_agent seq) refl refl
