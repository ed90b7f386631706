-- ===== src/Hyperstart/Queue.antt =====
-- The goroutine of the control channel: handleMsgToHyperstart of agent/hyperstart.go, and what Close
-- does with the commands that it left in the channel.
pub mod Counts
pub mod Answers
pub mod Valid
pub mod Writes
pub mod Pauses
pub mod Flow
mod Tests
use runv.Prelude.{
  ℕ, ◌+◌, Bool, true, false, ◌&&◌, not, Option, none, some, List, [], ◌∷◌, ◌++◌, inl, inr,
  if◌then◌else◌, ltb, ◌==◌, length, take, drop,
}
use runv.Hyperstart.{uint32, new_vm_message, at_most}
use runv.Hyperstart.Commands.{
  Codec, Message, Command, answered, next, pause_sync, unpause, call, Answer, acked, refused, done,
  pausing_error, closed_error, init_destroypod, prepare,
}

-- A command in `cmds`: its result channel and its code.
pub record Queued : Type 0 where
  pub result : ℕ
  pub code : ℕ

-- The goroutine's variables, and what it did: `taken` holds the commands that it put into `cmds`,
-- with their frames, `sent` what it sent on result channels, and `written` the bytes that the
-- connection took. A panic ends the process; `stuck` is set when a send can never be received.
pub record Queue : Type 0 where
  pub looping : Bool
  pub paused : Bool
  pub pausing : Option ℕ
  pub cmds : List Queued
  pub data_left : List ℕ
  pub index : ℕ
  pub got : ℕ
  pub taken : List (ℕ × List ℕ)
  pub sent : List (ℕ × Answer)
  pub written : List ℕ
  pub panicked : Bool
  pub stuck : Bool

-- What the loop receives, with the agent's version at that time, and how many bytes the connection
-- would take.
pub record Input : Type 0 where
  pub command : Command
  pub version : ℕ
  pub accepts : ℕ

unfoldable pub initial : Bool → Queue
initial paused = record {
  looping = true;
  paused = paused;
  pausing = none;
  cmds = [];
  data_left = [];
  index = 0;
  got = 0;
  taken = [];
  sent = [];
  written = [];
  panicked = false;
  stuck = false;
}

unfoldable pub reply : ℕ → Answer → Queue → Queue
reply c a q = record q { sent = q.sent ++ (c, a) ∷ [] }

-- The caller of PauseSync, if one waits, is told.
unfoldable pub end_pausing : Queue → Queue
unfolding reply
end_pausing q = elim q.pausing [ none ↦ q | some c ↦ record (reply c done q) { pausing = none } ]

unfoldable pub end_pausing_if_idle : Queue → Queue
unfolding end_pausing
end_pausing_if_idle q = elim q.cmds [ [] ↦ end_pausing q | c ∷ cs ↦ q ]

unfoldable pub handle_answer : Bool → List ℕ → Queue → Queue
unfolding reply end_pausing_if_idle
handle_answer ok ret_msg q = elim q.cmds [
  | [] ↦ q
  | c ∷ cs ↦
      let a : Answer = if ok then acked ret_msg else refused ret_msg in
      let last : Bool = c.code == init_destroypod in
      end_pausing_if_idle
        (record (reply c.result a q) { looping = q.looping && not last; cmds = cs })
]

-- At most 512 bytes, and only when all that was written before has been received.
unfoldable pub write_data : ℕ → Queue → Queue
write_data accepts q =
    let wrote = at_most accepts (at_most (length q.data_left) 512) in
    if (q.index == 0) && ltb 0 (length q.data_left)
    then record q { index = q.index + wrote; written = q.written ++ take wrote q.data_left }
    else q

-- The slice of four bytes is bounded by the capacity. Behind the header in readVmMessage's buffer,
-- which grows from 8 bytes to 16, it is 0 for a message without bytes; a shorter message than four
-- bytes is read with the zeros behind it.
unfoldable pub handle_next : List ℕ → Queue → Queue
unfolding uint32
handle_next ret_msg q =
    let got = q.got + uint32 (ret_msg ++ 0 ∷ 0 ∷ 0 ∷ []) in
    if length ret_msg == 0
    then record q { panicked = true }
    else if q.index == got
    then record q { data_left = drop q.index q.data_left; index = 0; got = 0 }
    else record q { got = got }

unfoldable pub handle_pause : ℕ → Queue → Queue
unfolding end_pausing_if_idle
handle_pause c q = end_pausing_if_idle (record q { paused = true; pausing = some c })

unfoldable pub handle_unpause : ℕ → Queue → Queue
unfolding end_pausing reply
handle_unpause c q = reply c done (end_pausing (record q { paused = false }))

unfoldable pub handle_call : Codec → ℕ → ℕ → ℕ → ℕ → Message → Queue → Queue
unfolding reply prepare write_data
handle_call codec version accepts c code m q =
    let ready = prepare codec version code m in
    if q.paused then reply c pausing_error q else elim ready [
      | inl e ↦ reply c e q
      | inr bytes ↦
          let frame = new_vm_message code bytes in
          write_data accepts (record q {
            cmds = q.cmds ++ record { result = c; code = code } ∷ [];
            data_left = q.data_left ++ frame;
            taken = q.taken ++ (c, frame) ∷ [];
          })
    ]

unfoldable pub on_command : Codec → ℕ → ℕ → Command → Queue → Queue
unfolding handle_answer handle_next handle_pause handle_unpause handle_call
on_command codec version accepts (answered ok ret_msg) q = handle_answer ok ret_msg q
on_command codec version accepts (next ret_msg) q =
    let q' = handle_next ret_msg q in if q'.panicked then q' else write_data accepts q'
on_command codec version accepts (pause_sync c) q = write_data accepts (handle_pause c q)
on_command codec version accepts (unpause c) q = write_data accepts (handle_unpause c q)
on_command codec version accepts (call c code m) q = handle_call codec version accepts c code m q

unfoldable pub step : Codec → Queue → Input → Queue
unfolding on_command
step codec q i = on_command codec i.version i.accepts i.command q

-- The loop, with the commands that it leaves in the channel; the list's end is the channel's close.
unfoldable pub loop : Codec → Queue → List Input → Queue × List Input
unfolding step
loop codec q [] = (q, [])
loop codec q (i ∷ is) =
    let rest = loop codec (step codec q i) is in
    if q.looping && not q.panicked then rest else (q, i ∷ is)

-- What waits for an answer of the guest when the loop has ended.
unfoldable pub give_up : List Queued → Queue → Queue
unfolding reply
give_up [] q = q
give_up (c ∷ cs) q = give_up cs (reply c.result closed_error q)

-- The loop of Close over what is left in the channel. INIT_NEXT is not passed over, and has no
-- result channel: to send on a nil channel blocks for ever.
unfoldable pub drain : List Command → Queue → Queue
unfolding reply
drain [] q = q
drain (answered ok ret_msg ∷ xs) q = drain xs q
drain (next ret_msg ∷ xs) q = record q { stuck = true }
drain (pause_sync c ∷ xs) q = drain xs (reply c closed_error q)
drain (unpause c ∷ xs) q = drain xs (reply c closed_error q)
drain (call c code m ∷ xs) q = drain xs (reply c closed_error q)

abbrev pub commands : List Input → List Command
commands [] = []
commands (i ∷ is) = i.command ∷ commands is

-- The whole goroutine: the loop, its end, and the Close that follows.
unfoldable pub serve : Codec → Queue → List Input → Queue
unfolding loop give_up drain
serve codec q is =
    let (q', left) = loop codec q is in
    if q'.panicked then q' else drain (commands left) (give_up q'.cmds q')
