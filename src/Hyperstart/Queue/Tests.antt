-- ===== src/Hyperstart/Queue/Tests.antt =====
-- Concrete histories of the goroutine of the control channel (agent/hyperstart.go).
use runv.Prelude.{
  ℕ, ◌+◌, ◌≡◌, ◌≤◌, refl, true, false, some, List, [], ◌∷◌, ◌++◌, length, drop, arith, replicate,
}
use runv.Prelude.{inr}
use runv.Hyperstart.{put_uint32, uint32, new_vm_message}
use runv.Hyperstart.Commands.{
  Json, object, other_value, Members, no_members, member, Codec, raw, value, Command, answered,
  next, pause_sync, call, acked, closed_error, prepare, old_message, marshal_message,
  delete_process_id, delete_member,
}
use runv.Hyperstart.Queue.{
  Queue, Input, initial, reply, end_pausing, end_pausing_if_idle, handle_answer, write_data,
  handle_next, handle_pause, handle_call, on_command, step, loop, give_up, drain, commands, serve,
}
use runv.Hyperstart.Queue.Counts.{answers}
use runv.Hyperstart.Queue.Answers.{serve-once, serve-pause_lost}
use runv.Hyperstart.Queue.Valid.{frames, callers, results, served}
use runv.Hyperstart.Queue.Writes.{loop-in_order, loop_bounds}
use runv.Hyperstart.Queue.Pauses.{any_empty, loop-quiet, loop-panicked}
use runv.Hyperstart.Queue.Flow.{guest_reads, loop-delivers}

-- Encodes an object by its number of members, and reads a process with an id.
abbrev count_members : Members → ℕ
count_members no_members = 0
count_members (member k (object ms) rest) = 1 + (count_members ms + count_members rest)
count_members (member k (other_value t) rest) = 1 + count_members rest

abbrev encode : Json → List ℕ
encode (object ms) = count_members ms ∷ []
encode (other_value t) = 0 ∷ []

abbrev codec : Codec
codec = record {
  marshal = λ v. some (encode v);
  unmarshal = λ bytes. some (
      member "process"
        (object (member "id" (other_value "1") (member "args" (other_value "2") no_members)))
        no_members);
}

abbrev input : Command → Input
input x = record { command = x; version = 4244; accepts = 300 }

-- Two commands, of which the guest answers one, and an error of the other's message is not the guest's.
abbrev history : List Input
history =
    input (call 1 1 (raw (replicate 600 7)))
    ∷ input (next (put_uint32 300))
    ∷ input (call 2 19 (value (other_value "null")))
    ∷ input (answered true (5 ∷ []))
    ∷ input (pause_sync 3)
    ∷ input (call 4 20 (raw []))
    ∷ []

abbrev closing : List Input
closing = input (call 1 4 (raw [])) ∷ input (answered true []) ∷ input (call 2 20 (raw [])) ∷ []

serve-once_example : answers 2 (serve codec (initial false) history).sent ≡ 1
unfolding serve initial loop step on_command handle_answer handle_next handle_pause handle_call
    write_data end_pausing_if_idle end_pausing reply give_up drain prepare marshal_message
    old_message new_vm_message put_uint32 uint32
serve-once_example = serve-once codec false history 2 refl refl refl refl

abbrev one_sent : Queue
one_sent = (loop codec (initial false) (input (call 1 1 (raw [])) ∷ [])).0

serve-pause_lost_example :
    answers 7
      (serve codec one_sent
        (input (pause_sync 7) ∷ input (pause_sync 8) ∷ input (answered true []) ∷ [])).sent
    ≡ 0
unfolding initial loop step on_command handle_call write_data reply prepare marshal_message
    old_message new_vm_message put_uint32
serve-pause_lost_example =
    serve-pause_lost codec one_sent (input (pause_sync 7)) (input (pause_sync 8))
      (input (answered true []) ∷ []) 7 8 refl refl refl refl refl refl refl refl

loop-in_order_example :
    let q = (loop codec (initial false) history).0 in
    (q.written ++ drop q.index q.data_left ≡ frames q.taken)
    × (served q.sent ++ results q.cmds ≡ callers q.taken)
loop-in_order_example = loop-in_order codec false history

loop_bounds_example :
    let q = (loop codec (initial false) history).0 in
    (q.index ≤ 512) × (q.index ≤ length q.data_left)
loop_bounds_example = loop_bounds codec false history

-- The goroutine is paused when it begins, and a call is refused until it is told otherwise.
loop-quiet_example :
    let q = (loop codec (initial true) (input (pause_sync 1) ∷ [])).0 in
    (q.cmds ≡ [])
    × ((loop codec q (input (call 2 1 (raw [])) ∷ [])).0.cmds ≡ [])
    × ((loop codec q (input (call 2 1 (raw [])) ∷ [])).0.taken ≡ q.taken)
unfolding initial loop step on_command handle_pause write_data end_pausing_if_idle end_pausing reply
loop-quiet_example =
    loop-quiet codec true (input (pause_sync 1) ∷ []) (input (call 2 1 (raw [])) ∷ []) refl refl
      refl

loop-panicked_example :
    let is = input (next []) ∷ input (pause_sync 2) ∷ [] in
    (received : List Command) × (commands is
      ≡ received ++ commands (loop codec (initial false) is).1)
    × ((loop codec (initial false) is).0.panicked ≡ any_empty received)
unfolding initial
loop-panicked_example =
    loop-panicked codec (input (next []) ∷ input (pause_sync 2) ∷ []) (initial false) refl

abbrev filled : List Input
filled = record (input (call 1 1 (raw (replicate 600 7)))) { accepts = 512 } ∷ []

loop-delivers_example :
    (guest_reads codec 2 (loop codec (initial false) filled).0).written
    ≡ frames (loop codec (initial false) filled).0.taken
unfolding initial loop step on_command handle_call write_data reply prepare marshal_message
    old_message new_vm_message put_uint32
loop-delivers_example =
    loop-delivers codec false filled 2
      (record { looping = refl; got = refl; index = refl; panicked = refl }) (omega arith)

-- A PauseSync whose caller waits when the loop ends is not answered, while a command is.
pause_unanswered :
    let is =
      input (call 1 4 (raw []))
      ∷ input (call 2 20 (raw []))
      ∷ input (pause_sync 3)
      ∷ input (answered true [])
      ∷ [] in
    (serve codec (initial false) is).sent ≡ (1, acked []) ∷ (2, closed_error) ∷ []
unfolding serve initial loop step on_command handle_answer handle_pause handle_call write_data
    end_pausing_if_idle end_pausing reply give_up drain prepare marshal_message old_message
    new_vm_message put_uint32
pause_unanswered = refl

-- A notice of progress that is left in the channel keeps Close from its end.
close_stuck :
    let is =
      input (call 1 4 (raw []))
      ∷ input (answered true [])
      ∷ input (next (put_uint32 8))
      ∷ input (call 2 20 (raw []))
      ∷ [] in
    let q = serve codec (initial false) is in (q.sent ≡ (1, acked []) ∷ []) × (q.stuck ≡ true)
unfolding serve initial loop step on_command handle_answer handle_call write_data
    end_pausing_if_idle end_pausing reply give_up drain prepare marshal_message old_message
    new_vm_message put_uint32
close_stuck = (refl, refl)

-- An old agent gets no id of a process to execute.
old_exec : prepare codec 4242 6 (raw (9 ∷ [])) ≡ inr (2 ∷ [])
unfolding prepare marshal_message old_message delete_process_id delete_member
old_exec = refl
