-- ===== src/Qmp/Tests.antt =====
-- Concrete histories of the monitor (hypervisor/qemu/qmp_handler.go).
use runv.Prelude.{ℕ, ◌≡◌, ◌≤◌, refl, Bool, true, false, List, [], ◌∷◌, ◌++◌, length}
use runv.Qmp.{
  Session, succeeded, refused, qmp_handler, push, notify, start_commander, handle_session,
  handle_finish, handle_loop, handle_initializing, handle_message, handle, next_command,
  handle_feedback, go_on, command, Move, submitted, quitted, initialized, received, received_event,
  handled, commanded, receive, receive_event, initialize, step, run,
}
use runv.Qmp.Orders.{ids, firsts, pending, workers}
use runv.Qmp.Safety.{run-in_order}
use runv.Qmp.Unanswered.{run-unanswered}

abbrev all : ℕ → Bool
all c = true

abbrev first_session : Session
first_session = record { respond = 1; commands = 10 ∷ 11 ∷ [] }

abbrev second_session : Session
second_session = record { respond = 2; commands = 20 ∷ [] }

-- Two sessions, the first one before the monitor is there; its second command is refused once.
abbrev history : List Move
history =
    submitted first_session
    ∷ handled
    ∷ initialized true
    ∷ handled
    ∷ submitted second_session
    ∷ handled
    ∷ commanded
    ∷ received succeeded
    ∷ handled
    ∷ commanded
    ∷ received refused
    ∷ handled
    ∷ commanded
    ∷ received succeeded
    ∷ handled
    ∷ commanded
    ∷ handled
    ∷ commanded
    ∷ []

run-in_order_example :
    let q = run all qmp_handler history in
    (firsts q.responded ++ (ids q.buf ++ pending q.queue) ≡ q.submitted)
    × (length (workers q.commanders) ≤ 1)
    × (q.panicked ≡ false)
run-in_order_example = run-in_order all history

written_in_turn :
    let q = run all qmp_handler history in
    (q.written ≡ 10 ∷ 11 ∷ 11 ∷ 20 ∷ []) × (q.responded ≡ (1, true) ∷ [])
unfolding run step qmp_handler push notify start_commander handle_session handle_finish handle_loop
    handle_initializing handle_message handle next_command handle_feedback go_on command receive
    receive_event initialize
written_in_turn = (refl, refl)

abbrev shutting_down : List Move
shutting_down =
    initialized true
    ∷ handled
    ∷ submitted first_session
    ∷ handled
    ∷ commanded
    ∷ received_event true
    ∷ []

run-unanswered_example :
    let q = run all qmp_handler shutting_down in
    let u = run all (step all q handled) (quitted ∷ handled ∷ commanded ∷ []) in
    (u.responded ≡ q.responded) × (u.buf ≡ q.buf)
unfolding run step qmp_handler push notify start_commander handle_session handle_finish handle_loop
    handle_initializing handle_message handle next_command handle_feedback go_on command receive
    receive_event initialize
run-unanswered_example =
    run-unanswered all shutting_down (quitted ∷ handled ∷ commanded ∷ []) handled (λ e. cc) refl
