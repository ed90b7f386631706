-- ===== src/Fanout/Tests.antt =====
-- Histories of a fanout, and the theorems at them.
use runv.Prelude.{◌≡◌, ◌↔◌, refl, true, false, some, List, [], ◌∷◌, ◌++◌, get_elem?, arith}
use runv.Fanout.Channels.{close_chan, unblock_send}
use runv.Fanout.{
  start, create_fanout, acquire, release_loop, release, close, send_all, close_all, finish, Move,
  acquired, released, closed, responded, stopped, ended, step, run,
}
use runv.Fanout.Closing.{Has, IsOpen}
use runv.Fanout.Histories.{run-tidy}
use runv.Fanout.Delivery.{offered, responded-offered}

-- Two clients come, one goes, and responses arrive.
abbrev before : List Move
before = acquired ∷ responded 7 ∷ acquired ∷ responded 8 ∷ released 0 ∷ []

abbrev history : List Move
history = before ++ responded 9 ∷ closed ∷ stopped ∷ acquired ∷ ended ∷ []

run-tidy_example :
    let fo = run (create_fanout 128 false) history in
    (fo.panicked ≡ false) × (Has 1 fo.clients ↔ IsOpen fo.chans 1)
run-tidy_example = run-tidy 128 false history 1 (omega arith)

-- All three channels are closed at the end, with what was sent to them.
history_ends :
    (run (create_fanout 128 false) history).chans
    ≡ record { buffer = 7 ∷ 8 ∷ []; closed = true }
      ∷ record { buffer = 8 ∷ 9 ∷ []; closed = true }
      ∷ record { buffer = []; closed = true }
      ∷ []
unfolding run step create_fanout start acquire release release_loop close send_all close_all finish
    close_chan unblock_send
history_ends = refl

responded-offered_example :
    let fo = run (create_fanout 128 false) before in
    get_elem? (step fo (responded 9)).chans 1
    ≡ some (offered 128 9 (record { buffer = 8 ∷ []; closed = false }))
unfolding run step create_fanout start acquire release release_loop close send_all close_all finish
    close_chan unblock_send
responded-offered_example =
    responded-offered 128 false before 9 1 (record { buffer = 8 ∷ []; closed = false })
      (omega arith) (omega arith) refl
