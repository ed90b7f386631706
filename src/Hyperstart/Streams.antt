-- ===== src/Hyperstart/Streams.antt =====
-- The processes of a guest and their streams: the tables of jsonBasedHyperstart, under its lock, in
-- agent/hyperstart.go. The channel of a caller of WaitProcess is known by its place in `wait_chans`.
pub mod Calls
pub mod Table
pub mod Steps
pub mod Waiting
pub mod Ends
mod Tests
use Prim.Native.String.{String}
use runv.Prelude.{
  ℕ, suc, ◌+◌, Bool, true, false, ◌&&◌, not, Option, none, some, List, [], ◌∷◌, ◌++◌, if◌then◌else◌,
  leb, ltb, ◌==◌, ◌=?◌, pair_eq, string_eq, nat_eq, length, take, drop, get_elem?, set, lookup,
  insert, delete, has_key,
}

-- pKey: a container and a process.
abbrev pub Key : Type 0
Key = String × String

-- pState. `stdin_open` is whether stdinPipe has its agent still; a pipe is known by its stream.
pub record Process : Type 0 where
  pub stdio_seq : ℕ
  pub stderr_seq : ℕ
  pub stdin_open : Bool
  pub exit_status : Option ℕ
  pub out_closed : Bool
  pub wait_chan : Option ℕ

-- streamOut: of its process only the streams are read, which do not change any more.
pub record Out : Type 0 where
  pub stdio : ℕ
  pub stderr : ℕ

-- `wait_chans` has what is in each channel, `piped` what was written to a stream's pipe, and
-- `piped_out` the streams whose pipes were closed. A send on a full channel, under the lock, is
-- `blocked`.
pub record Agent : Type 0 where
  pub procs : List (Key × Process)
  pub stream_outs : List (ℕ × Out)
  pub last_stream_seq : ℕ
  pub created : List (String × Key)
  pub wait_chans : List (List ℕ)
  pub stream_chan : List (ℕ × List ℕ)
  pub piped : List (ℕ × List ℕ)
  pub piped_out : List ℕ
  pub closed : Bool
  pub panicked : Bool
  pub blocked : Bool

unfoldable pub new_agent : ℕ → Agent
new_agent seq = record {
  procs = [];
  stream_outs = [];
  last_stream_seq = seq;
  created = [];
  wait_chans = [];
  stream_chan = [];
  piped = [];
  piped_out = [];
  closed = false;
  panicked = false;
  blocked = false;
}

-- A channel for one status.
unfoldable pub send_status : ℕ → ℕ → Agent → Agent
send_status c status a = elim (get_elem? a.wait_chans c) [
  | some [] ↦ record a { wait_chans = set a.wait_chans c (status ∷ []) }
  | _ ↦ record a { blocked = true }
]

-- The process `ps` of the key, with its changes, is what the table has for it before.
unfoldable pub handle_wait_process : Key → Process → Agent → Agent
unfolding send_status insert delete
handle_wait_process k ps a =
    let kept : Agent = record a { procs = insert k ps a.procs } in
    let gone : Agent = record a { procs = delete k a.procs } in
    elim ps.exit_status [
      | none ↦ kept
      | some status ↦ elim ps.wait_chan [
        | none ↦ kept
        | some c ↦ if ps.out_closed then send_status c status gone else kept
      ]
    ]

unfoldable pub send_process_async_event : Key → ℕ → Agent → Agent
unfolding lookup handle_wait_process
send_process_async_event k status a = elim (lookup k a.procs) [
  | none ↦ a
  | some ps ↦ handle_wait_process k (record ps { exit_status = some status }) a
]

-- The loops of sendProcessAsyncEvent4242, removeStreamOut and Close over the table: `test` chooses
-- the processes, and `change` is what happens to one before handleWaitProcess.
unfoldable pub update_each :
    (Process → Bool) → (Process → Process) → List (Key × Process) → Agent → Agent
unfolding handle_wait_process
update_each test change [] a = a
update_each test change ((k, ps) ∷ rest) a =
    let next = if test ps then handle_wait_process k (change ps) a else a in
    update_each test change rest next

unfoldable pub send_process_async_event_4242 : ℕ → ℕ → Agent → Agent
unfolding update_each
send_process_async_event_4242 seq code a =
    update_each (λ ps. ps.stdio_seq == seq) (λ ps. record ps { exit_status = some code }) a.procs a

unfoldable pub close_pipe : ℕ → Agent → Agent
close_pipe seq a = record a { piped_out = a.piped_out ++ seq ∷ [] }

unfoldable pub close_outs : ℕ → Agent → Agent
unfolding update_each
close_outs seq a =
    update_each (λ ps. ps.stdio_seq == seq) (λ ps. record ps { out_closed = true }) a.procs a

-- The error stream goes with the output: to close the pipe of a stream that is gone is to follow a
-- nil pointer.
unfoldable pub remove_stderr : ℕ → Agent → Agent
unfolding has_key delete close_pipe
remove_stderr seq a =
    if has_key seq a.stream_outs
    then record (close_pipe seq a) { stream_outs = delete seq a.stream_outs }
    else record a { panicked = true }

unfoldable pub remove_stream_out : ℕ → Agent → Agent
unfolding lookup delete remove_stderr close_outs
remove_stream_out seq a = elim (lookup seq a.stream_outs) [
  | none ↦ a
  | some out ↦
      let a1 : Agent = record a { stream_outs = delete seq a.stream_outs } in
      let a2 = if ltb 0 out.stderr then remove_stderr out.stderr a1 else a1 in
      if not (seq == out.stdio) then a1 else if a2.panicked then a2 else close_outs seq a2
]

-- What handleStreamFromHyperstart does with one message; `taken` is whether the pipe takes a write.
-- The status in a message that follows the end of a stream.
abbrev pub exit_code : List ℕ → ℕ
exit_code (b ∷ []) = b
exit_code _ = 255

unfoldable pub handle_stream : ℕ → Bool → ℕ → List ℕ → Agent → Agent
unfolding has_key close_pipe remove_stream_out send_process_async_event_4242
handle_stream version taken seq message a =
    let ended = remove_stream_out seq (close_pipe seq a) in
    if has_key seq a.stream_outs
    then if ltb 0 (length message)
      then if taken then record a { piped = a.piped ++ (seq, message) ∷ [] } else ended
      else ended
    else if leb version 4242
    then send_process_async_event_4242 seq (exit_code message) a
    else a
