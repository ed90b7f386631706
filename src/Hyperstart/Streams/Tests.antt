-- ===== src/Hyperstart/Streams/Tests.antt =====
-- Concrete histories of an agent's processes and streams (agent/hyperstart.go).
use runv.Prelude.{
  ℕ, ◌≡◌, refl, true, false, none, some, List, [], ◌∷◌, ◌++◌, length, replicate, lookup, insert,
  delete, has_key, pair_eq, string_eq, nat_eq,
}
use runv.Hyperstart.Streams.{
  Key, Process, new_agent, send_status, handle_wait_process, update_each, send_process_async_event,
  close_pipe, close_outs, remove_stderr, remove_stream_out, handle_stream,
}
use runv.Hyperstart.Streams.Calls.{
  ok, setup_process_io, alloc_stream_seq, remove_process, enter_process, create_container,
  start_container, exec_process, wait_process, wait_ends, write_stdin, close_pipes, end_all, close,
  Move, created, started, executed, waited, exited, received, closed, step, run,
}
use runv.Hyperstart.Streams.Waiting.{run-told, by_exit}
use runv.Hyperstart.Streams.Ends.{stderr_first-panics, write_stdin-splits, bytes_of, IsSmall}

abbrev init : Key
init = ("web", "init")

abbrev shell : Key
shell = ("web", "shell")

-- A container is created, started and waited for, another process too; the output of the first ends.
abbrev history : List Move
history =
    created "web" true
    ∷ started "web" true
    ∷ executed shell false
    ∷ waited shell
    ∷ waited init
    ∷ received 4244 true 1 (104 ∷ [])
    ∷ received 4244 true 1 []
    ∷ []

abbrev init_process : Process
init_process = record {
  stdio_seq = 1;
  stderr_seq = 0;
  stdin_open = true;
  exit_status = none;
  out_closed = true;
  wait_chan = some 1;
}

run-told_example :
    let a = step (run (new_agent 1) history) (exited init 7) in
    let b = run a (waited shell ∷ closed ∷ []) in
    (lookup init a.procs ≡ none) × (wait_ends 1 b ≡ some 7) × (b.blocked ≡ false)
unfolding run step new_agent create_container start_container exec_process enter_process
    setup_process_io alloc_stream_seq wait_process handle_wait_process handle_stream close_pipe
    remove_stream_out remove_stderr close_outs update_each send_status lookup insert delete has_key
run-told_example =
    run-told 1 history (waited shell ∷ closed ∷ []) init 1 7 (exited init 7)
      (by_exit init_process refl refl refl)

stderr_first-panics_example :
    let b = step (new_agent 1) (executed shell false) in
    let c = step b (received 4244 true 2 []) in (step c (received 4244 true 1 [])).panicked ≡ true
unfolding new_agent has_key lookup
stderr_first-panics_example = stderr_first-panics shell 4244 true (new_agent 1) refl

write_stdin-splits_example :
    let a = step (new_agent 1) (executed shell false) in
    let bytes : List ℕ = replicate 20 5 in
    (messages : List (ℕ × List ℕ)) × (write_stdin shell bytes a
      ≡ ((ok, length bytes), record a { stream_chan = a.stream_chan ++ messages }))
    × (bytes_of messages ≡ bytes)
    × IsSmall 1 messages
unfolding step new_agent exec_process enter_process setup_process_io alloc_stream_seq lookup insert
    delete has_key
write_stdin-splits_example =
    write_stdin-splits shell
      (record init_process { stderr_seq = 2; out_closed = false; wait_chan = none })
      (replicate 20 5) (step (new_agent 1) (executed shell false)) refl refl refl

-- A caller that waits for a process whose start fails is not told anything.
start_failed :
    let a =
      run
        (new_agent 1)
        (created "web" true ∷ waited init ∷ started "web" false ∷ exited init 0 ∷ closed ∷ []) in
    wait_ends 0 a ≡ none
unfolding run step new_agent create_container start_container remove_process enter_process
    setup_process_io alloc_stream_seq wait_process handle_wait_process send_process_async_event
    close close_pipes end_all update_each wait_ends lookup insert delete has_key
start_failed = refl
