-- ===== src/Qmp.antt =====
-- The monitor of a qemu process: the goroutines qmpInitializer, qmpReceiver, qmpCommander and
-- qmpHandler of hypervisor/qemu/qmp_handler.go, over the channel that they share.
pub mod Orders
pub mod Phases
pub mod Commands
pub mod Handling
pub mod Safety
pub mod Unanswered
mod Tests
use runv.Prelude.{
  ℕ, suc, ◌+◌, Bool, true, false, Option, none, some, List, [], ◌∷◌, ◌++◌, if◌then◌else◌, ltb,
}

-- A session, known by its function `respond`, and its commands by numbers.
pub record Session : Type 0 where
  pub respond : ℕ
  pub commands : List ℕ

-- What goes to the commander: `succeeded` is QMP_RESULT, `refused` QMP_ERROR, and `broken`
-- QMP_INTERNAL_ERROR.
pub data Feedback : Type 0 where
  succeeded refused broken : Feedback

-- The messages of the channel. The initializer's QmpFinish has no `respond`. `shutdown` is the event
-- of that name, and `event` any other.
pub data Message : Type 0 where
  init timeout quit shutdown event : Message
  session : Session → Message
  finish : Option ℕ → Bool → Message
  feedback : Feedback → Message

pub data Handler : Type 0 where
  initializing looping stopped : Handler

-- A goroutine of qmpCommander: it has not begun, or it waits for the result of a command, which it
-- has sent as often as the number says, with those commands behind it.
pub data Commander : Type 0 where
  beginning : Session → Commander
  waiting : Session → ℕ → List ℕ → ℕ → Commander

-- What the context's Hub gets.
pub data Notice : Type 0 where
  vm_exit interrupted init_failed init_timeout : Notice

-- `starting` is whether the initializer has still to send its message, `receiving` whether the
-- receiver is at work. `submitted` are the sessions that the driver sent, `responded` the calls of
-- `respond`, and `written` the commands on the connection.
pub record Qmp : Type 0 where
  pub handler : Handler
  pub buf : List Session
  pub res : List Feedback
  pub queue : List Message
  pub commanders : List Commander
  pub starting : Bool
  pub receiving : Bool
  pub submitted : List ℕ
  pub responded : List (ℕ × Bool)
  pub written : List ℕ
  pub hub : List Notice
  pub panicked : Bool

unfoldable pub qmp_handler : Qmp
qmp_handler = record {
  handler = initializing;
  buf = [];
  res = [];
  queue = [];
  commanders = [];
  starting = true;
  receiving = false;
  submitted = [];
  responded = [];
  written = [];
  hub = [];
  panicked = false;
}

unfoldable pub push : Message → Qmp → Qmp
push m q = record q { queue = q.queue ++ m ∷ [] }

unfoldable pub notify : Notice → Qmp → Qmp
notify n q = record q { hub = q.hub ++ n ∷ [] }

-- `go qmpCommander` for the first session of `buf`.
unfoldable pub start_commander : Qmp → Qmp
start_commander q = elim q.buf [
  | [] ↦ q
  | s ∷ rest ↦ record q { commanders = q.commanders ++ beginning s ∷ [] }
]

unfoldable pub handle_session : Session → Qmp → Qmp
unfolding start_commander
handle_session s q = elim q.buf [
  | [] ↦ start_commander (record q { buf = s ∷ [] })
  | t ∷ rest ↦ record q { buf = q.buf ++ s ∷ [] }
]

-- To call a nil function, or to slice an empty `buf` from 1, is a panic.
unfoldable pub handle_finish : Option ℕ → Bool → Qmp → Qmp
unfolding start_commander
handle_finish none ok q = record q { panicked = true }
handle_finish (some c) ok q = elim q.buf [
  | [] ↦ record q { panicked = true }
  | s ∷ rest ↦ start_commander (record q { buf = rest; responded = q.responded ++ (c, ok) ∷ [] })
]

-- The function `loop`.
unfoldable pub handle_loop : Message → Qmp → Qmp
unfolding handle_session handle_finish notify
handle_loop (session s) q = handle_session s q
handle_loop (finish respond ok) q = handle_finish respond ok q
handle_loop (feedback broken) q =
    notify interrupted (record q { res = q.res ++ broken ∷ []; handler = stopped })
handle_loop (feedback f) q = record q { res = q.res ++ f ∷ [] }
handle_loop shutdown q = notify vm_exit (record q { handler = stopped })
handle_loop event q = q
handle_loop quit q = record q { handler = stopped }
handle_loop init q = q
handle_loop timeout q = q

-- The function `initializing`.
unfoldable pub handle_initializing : Message → Qmp → Qmp
unfolding start_commander notify
handle_initializing init q = start_commander (record q { handler = looping; receiving = true })
handle_initializing (finish respond true) q = q
handle_initializing (finish respond false) q = notify init_failed (record q { handler = stopped })
handle_initializing timeout q = notify init_timeout q
handle_initializing (session s) q = record q { buf = q.buf ++ s ∷ [] }
handle_initializing (feedback f) q = q
handle_initializing shutdown q = q
handle_initializing event q = q
handle_initializing quit q = q

-- One round of the loop of qmpHandler, which ends when there is no handler.
unfoldable pub handle_message : Handler → Message → Qmp → Qmp → Qmp
unfolding handle_loop handle_initializing
handle_message initializing m behind q = handle_initializing m behind
handle_message looping m behind q = handle_loop m behind
handle_message stopped m behind q = q

unfoldable pub handle : Qmp → Qmp
unfolding handle_message
handle q = elim q.queue [
  | [] ↦ q
  | m ∷ rest ↦ handle_message q.handler m (record q { queue = rest }) q
]

-- qmpCommander at its next command; `marshals` is whether encoding/json takes a command.
module _ (marshals : ℕ → Bool) where
  unfoldable pub next_command : Session → List ℕ → Qmp → Qmp
  unfolding push
  next_command s [] q = push (finish (some s.respond) true) q
  next_command s (c ∷ cs) q =
      if marshals c
      then record q {
        written = q.written ++ c ∷ [];
        commanders = q.commanders ++ waiting s c cs 1 ∷ [];
      }
      else push (finish (some s.respond) false) q

  -- It takes a result of its command: it goes on, tries again, at most three times in all, or ends.
  unfoldable pub handle_feedback : Session → ℕ → List ℕ → ℕ → Feedback → Qmp → Qmp
  unfolding next_command push
  handle_feedback s c cs tries succeeded q = next_command s cs q
  handle_feedback s c cs tries refused q =
      if ltb tries 3
      then record q {
        written = q.written ++ c ∷ [];
        commanders = q.commanders ++ waiting s c cs (tries + 1) ∷ [];
      }
      else push (finish (some s.respond) false) q
  handle_feedback s c cs tries broken q = q

  -- A commander goes on, if it can, with the others behind it.
  unfoldable pub go_on : Commander → List Commander → Qmp → Qmp
  unfolding next_command handle_feedback
  go_on (beginning s) others q = next_command s s.commands (record q { commanders = others })
  go_on (waiting s c cs tries) others q = elim q.res [
    | [] ↦ q
    | f ∷ rest ↦ handle_feedback s c cs tries f (record q { commanders = others; res = rest })
  ]

  unfoldable pub command : Qmp → Qmp
  unfolding go_on
  command q = elim q.commanders [ [] ↦ q | x ∷ others ↦ go_on x others q ]

-- What happens: the driver sends a session or asks to quit, the timer fires, the initializer ends
-- well or not, the receiver reads a result or an event (`true` is the event SHUTDOWN), and the handler
-- or a commander goes on.
pub data Move : Type 0 where
  submitted : Session → Move
  quitted timed_out : Move
  initialized : Bool → Move
  received : Feedback → Move
  received_event : Bool → Move
  handled commanded : Move

-- The receiver ends when it cannot read any more and after SHUTDOWN.
unfoldable pub receive : Feedback → Qmp → Qmp
unfolding push
receive broken q =
    if q.receiving then push (feedback broken) (record q { receiving = false }) else q
receive f q = if q.receiving then push (feedback f) q else q

unfoldable pub receive_event : Bool → Qmp → Qmp
unfolding push
receive_event true q = if q.receiving then push shutdown (record q { receiving = false }) else q
receive_event false q = if q.receiving then push event q else q

unfoldable pub initialize : Bool → Qmp → Qmp
unfolding push
initialize ok q =
    if q.starting
    then push (if ok then init else finish none false) (record q { starting = false })
    else q

unfoldable pub step : (ℕ → Bool) → Qmp → Move → Qmp
unfolding push handle command receive receive_event initialize
step marshals q (submitted s) =
    push (session s) (record q { submitted = q.submitted ++ s.respond ∷ [] })
step marshals q quitted = push quit q
step marshals q timed_out = push timeout q
step marshals q (initialized ok) = initialize ok q
step marshals q (received f) = receive f q
step marshals q (received_event stops) = receive_event stops q
step marshals q handled = handle q
step marshals q commanded = command marshals q

unfoldable pub run : (ℕ → Bool) → Qmp → List Move → Qmp
unfolding step
run marshals q [] = q
run marshals q (m ∷ ms) = run marshals (step marshals q m) ms
