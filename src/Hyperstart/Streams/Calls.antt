-- ===== src/Hyperstart/Streams/Calls.antt =====
-- The calls of the agent on processes and their streams (agent/hyperstart.go), under its lock.
use Prim.Native.String.{String}
use runv.Prelude.{
  ℕ, zero, suc, ◌+◌, Bool, true, false, Option, none, some, List, [], ◌∷◌, ◌++◌, if◌then◌else◌, ltb,
  ◌==◌, pair_eq, string_eq, nat_eq, length, take, drop, get_elem?, lookup, insert, delete, has_key,
}
use runv.Hyperstart.{at_most}
use runv.Hyperstart.Streams.{
  Key, Process, Out, Agent, handle_wait_process, update_each, send_process_async_event, close_pipe,
  handle_stream,
}

-- What a call returns.
pub data Result : Type 0 where
  ok already_created not_created conflict command_failed no_process closed_error : Result

unfoldable pub alloc_stream_seq : Agent → ℕ × Agent
alloc_stream_seq a = (a.last_stream_seq, record a { last_stream_seq = a.last_stream_seq + 1 })

abbrev no_streams : Process
no_streams = record {
  stdio_seq = 0;
  stderr_seq = 0;
  stdin_open = false;
  exit_status = none;
  out_closed = false;
  wait_chan = none;
}

-- The streams of a new process. Its entries in streamOuts have both numbers, which are known when a
-- stream can end.
unfoldable pub setup_process_io : Bool → Agent → Process × Agent
unfolding alloc_stream_seq insert
setup_process_io terminal a =
    let (stdio, a1) = alloc_stream_seq a in
    let (stderr, a2) = alloc_stream_seq a1 in
    let single : Process = record no_streams { stdio_seq = stdio; stdin_open = true } in
    let double : Process = record single { stderr_seq = stderr } in
    let out : Out = record { stdio = stdio; stderr = stderr } in
    if terminal
    then (
      single,
      record a1 { stream_outs = insert stdio (record out { stderr = 0 }) a1.stream_outs },
    )
    else (double, record a2 { stream_outs = insert stderr out (insert stdio out a2.stream_outs) })

unfoldable pub remove_process : Key → Agent → Agent
unfolding lookup delete
remove_process k a = elim (lookup k a.procs) [
  | none ↦ a
  | some ps ↦
      let outs1 = if ltb 0 ps.stdio_seq then delete ps.stdio_seq a.stream_outs else a.stream_outs in
      let outs2 = if ltb 0 ps.stderr_seq then delete ps.stderr_seq outs1 else outs1 in
      record a { procs = delete k a.procs; stream_outs = outs2 }
]

unfoldable pub enter_process : Key → Bool → Agent → Agent
unfolding setup_process_io insert
enter_process k terminal a =
    let (ps, a') = setup_process_io terminal a in record a' { procs = insert k ps a'.procs }

-- CreateContainer after convertContainer; the process of a container is "init".
unfoldable pub create_container : String → Bool → Agent → Result × Agent
unfolding has_key enter_process insert
create_container container terminal a =
    let k : Key = (container, "init") in
    let a' = enter_process k terminal a in
    if has_key container a.created
    then (already_created, a)
    else if has_key k a.procs
    then (conflict, a)
    else (ok, record a' { created = insert container k a'.created })

-- `answered` is whether the command succeeds.
unfoldable pub start_container : String → Bool → Agent → Result × Agent
unfolding lookup delete remove_process
start_container container answered a = elim (lookup container a.created) [
  | none ↦ (not_created, a)
  | some k ↦
      let a' : Agent = record a { created = delete container a.created } in
      if answered then (ok, a') else (command_failed, remove_process k a')
]

-- The two parts of ExecProcess, before its command and after.
unfoldable pub exec_process : Key → Bool → Agent → Result × Agent
unfolding has_key enter_process
exec_process k terminal a =
    if has_key k a.procs then (conflict, a) else (ok, enter_process k terminal a)

unfoldable pub exec_ends : Key → Bool → Agent → Result × Agent
unfolding remove_process
exec_ends k answered a = if answered then (ok, a) else (command_failed, remove_process k a)

-- WaitProcess up to its receive: the channel to wait at; without one it returns -1.
unfoldable pub wait_process : Key → Agent → Option ℕ × Agent
unfolding lookup handle_wait_process
wait_process k a = elim (lookup k a.procs) [
  | none ↦ (none, a)
  | some ps ↦
      let c = length a.wait_chans in
      let a' : Agent = record a { wait_chans = a.wait_chans ++ [] ∷ [] } in
      elim ps.wait_chan [
        | some d ↦ (some d, a)
        | none ↦ (some c, handle_wait_process k (record ps { wait_chan = some c }) a')
      ]
]

-- The receive: what is received is sent again, so that other callers get it as well.
unfoldable pub wait_ends : ℕ → Agent → Option ℕ
wait_ends c a = elim (get_elem? a.wait_chans c) [ some (status ∷ _) ↦ some status | _ ↦ none ]

-- The messages that Write of streamIn makes of `data`, of at most 16 bytes each; an empty one would
-- end the stream.
unfoldable pub split_messages : ℕ → ℕ → List ℕ → List (ℕ × List ℕ)
split_messages zero seq bytes = []
split_messages (suc fuel) seq bytes =
    let nr = at_most (length bytes) 16 in
    let rest = split_messages fuel seq (drop nr bytes) in
    if ltb 0 (length bytes) then (seq, take nr bytes) ∷ rest else []

-- WriteStdin and Write of streamIn: the number of bytes that it took. A send on the closed channel
-- panics, which Write recovers.
unfoldable pub write_stdin : Key → List ℕ → Agent → (Result × ℕ) × Agent
unfolding lookup split_messages
write_stdin k bytes a = elim (lookup k a.procs) [
  | none ↦ ((no_process, 0), a)
  | some ps ↦
      let messages = split_messages (length bytes) ps.stdio_seq bytes in
      if length bytes == 0
      then ((ok, 0), a)
      else if ps.stdin_open
      then if a.closed
        then ((closed_error, 0), a)
        else ((ok, length bytes), record a { stream_chan = a.stream_chan ++ messages })
      else ((closed_error, 0), a)
]

-- CloseStdin and Close of streamIn; a second one follows a nil pointer, which is recovered too.
unfoldable pub close_stdin : Key → Agent → Result × Agent
unfolding lookup insert
close_stdin k a = elim (lookup k a.procs) [
  | none ↦ (no_process, a)
  | some ps ↦
      if ps.stdin_open
      then if a.closed then (closed_error, a) else (
        ok,
        record a {
          stream_chan = a.stream_chan ++ (ps.stdio_seq, []) ∷ [];
          procs = insert k (record ps { stdin_open = false }) a.procs;
        },
      )
      else (closed_error, a)
]

unfoldable pub close_pipes : List (ℕ × Out) → Agent → Agent
unfolding close_pipe
close_pipes [] a = a
close_pipes ((seq, out) ∷ rest) a = close_pipes rest (close_pipe seq a)

unfoldable pub end_all : Agent → Agent
unfolding update_each
end_all a =
    update_each (λ ps. true) (λ ps. record ps { out_closed = true; exit_status = some 255 }) a.procs
      a

-- Close, but for the commands.
unfoldable pub close : Agent → Agent
unfolding close_pipes end_all
close a =
    let a1 : Agent = record (close_pipes a.stream_outs a) { stream_outs = [] } in
    let a2 : Agent = record (end_all a1) { procs = []; closed = true } in if a.closed then a else a2

-- What happens to the agent: a call, a report or a message of the guest.
pub data Move : Type 0 where
  created : String → Bool → Move
  started : String → Bool → Move
  executed : Key → Bool → Move
  exec_ended : Key → Bool → Move
  waited : Key → Move
  stdin_closed : Key → Move
  stdin_written : Key → List ℕ → Move
  exited : Key → ℕ → Move
  received : ℕ → Bool → ℕ → List ℕ → Move
  closed : Move

unfoldable pub step : Agent → Move → Agent
unfolding create_container start_container exec_process exec_ends wait_process close_stdin
    write_stdin send_process_async_event handle_stream close
step a (created container terminal) = (create_container container terminal a).1
step a (started container answered) = (start_container container answered a).1
step a (executed k terminal) = (exec_process k terminal a).1
step a (exec_ended k answered) = (exec_ends k answered a).1
step a (waited k) = (wait_process k a).1
step a (stdin_closed k) = (close_stdin k a).1
step a (stdin_written k bytes) = (write_stdin k bytes a).1
step a (exited k status) = send_process_async_event k status a
step a (received version taken seq message) = handle_stream version taken seq message a
step a closed = close a

unfoldable pub run : Agent → List Move → Agent
unfolding step
run a [] = a
run a (m ∷ ms) = run (step a m) ms
