-- ===== src/Hyperstart/Queue/Answers.antt =====
-- How often each call to the agent is answered (agent/hyperstart.go).
use runv.Prelude.{
  ℕ, ◌+◌, ◌≡◌, refl, ap, subst, ◌∙◌, sym, Bool, true, false, some, List, ◌∷◌, ltb, ◌==◌, length,
  arith, if_cases, list_cases,
}
use runv.Hyperstart.Commands.{Codec, pause_sync}
use runv.Hyperstart.Queue.{
  Queue, Input, end_pausing, end_pausing_if_idle, write_data, handle_pause, on_command, step, loop,
  commands, serve, initial,
}
use runv.Hyperstart.Queue.Counts.{answers, waiting, asked, pauses_none, pausing_is, serve-answers}

-- What asks once, and not by PauseSync, is answered exactly once, whatever the guest, the connection
-- and the other callers do, and whenever the channel closes: unless the loop panics, or Close meets
-- an INIT_NEXT in the channel.
pub serve-once :
    (codec : Codec) (paused : Bool) (is : List Input) (c : ℕ)
    → asked c (commands is) ≡ 1
    → pauses_none c (commands is) ≡ true
    → (serve codec (initial paused) is).panicked ≡ false
    → (serve codec (initial paused) is).stuck ≡ false
    → answers c (serve codec (initial paused) is).sent ≡ 1
unfolding initial
serve-once codec paused is c a p f s =
    omega (arith, a, (serve-answers c codec is (initial paused) p refl).1 f s)

serve-step :
    (codec : Codec) (q : Queue) (i : Input) (is : List Input)
    → q.looping ≡ true
    → q.panicked ≡ false
    → serve codec q (i ∷ is) ≡ serve codec (step codec q i) is
unfolding serve loop
serve-step codec q i is l n = rw (l, n) refl

-- While the guest has not answered everything, PauseSync only notes its caller.
handle_pause-waits :
    (c : ℕ) (q : Queue)
    → ltb 0 (length q.cmds) ≡ true
    → handle_pause c q ≡ record q { paused = true; pausing = some c }
unfolding handle_pause end_pausing_if_idle
handle_pause-waits c q b =
    let t : Queue = record q { paused = true; pausing = some c } in
    list_cases (λ u. u ≡ t) q.cmds (end_pausing t) (λ d ds. t)
      (λ e. let n : ltb 0 (length q.cmds) ≡ false = rw e refl in cc) (λ d ds e. refl)

record Kept (q t : Queue) : Type 0 where
  sent : t.sent ≡ q.sent
  cmds : t.cmds ≡ q.cmds
  looping : t.looping ≡ q.looping
  panicked : t.panicked ≡ q.panicked

-- What PauseSync does to a queue that is not idle.
pausing-Kept :
    (codec : Codec) (q : Queue) (i : Input) (c : ℕ)
    → i.command ≡ pause_sync c
    → ltb 0 (length q.cmds) ≡ true
    → Kept q (step codec q i) × ((step codec q i).pausing ≡ some c)
unfolding step on_command write_data
pausing-Kept codec q i c x b =
    let t : Queue = record q { paused = true; pausing = some c } in
    let P : Queue → Type 0 = λ u. Kept q u × (u.pausing ≡ some c) in
    let same : P t = (record { sent = refl; cmds = refl; looping = refl; panicked = refl }, refl) in
    let written : P (write_data i.accepts t) =
      if_cases P _ _ t
        (λ y. (record { sent = refl; cmds = refl; looping = refl; panicked = refl }, refl))
        (λ n. same) in
    let waits : P (write_data i.accepts (handle_pause c q)) =
      subst (λ u. P (write_data i.accepts u)) (sym (handle_pause-waits c q b)) written in
    subst (λ x. P (on_command codec i.version i.accepts x q)) (sym x) waits

-- Of two callers of PauseSync, while the guest has not answered every command, the first is never
-- answered, whatever follows; the calls' result channels are distinct.
pub serve-pause_lost :
    (codec : Codec) (q : Queue) (i j : Input) (is : List Input) (c d : ℕ)
    → q.looping ≡ true
    → q.panicked ≡ false
    → ltb 0 (length q.cmds) ≡ true
    → i.command ≡ pause_sync c
    → j.command ≡ pause_sync d
    → (d == c) ≡ false
    → answers c q.sent + waiting c q.cmds + asked c (commands is) ≡ 0
    → pauses_none c (commands is) ≡ true
    → answers c (serve codec q (i ∷ j ∷ is)).sent ≡ 0
serve-pause_lost codec q i j is c d l n b x y o k p =
    let (a, w) = pausing-Kept codec q i c x b in
    let t = step codec q i in
    let b' : ltb 0 (length t.cmds) ≡ true = ap (λ cs. ltb 0 (length cs)) a.cmds ∙ b in
    let (e, v) = pausing-Kept codec t j d y b' in
    let u = step codec t j in
    let twice : serve codec q (i ∷ j ∷ is) ≡ serve codec u is =
      serve-step codec q i (j ∷ is) l n
      ∙ serve-step codec t j is (a.looping ∙ l) (a.panicked ∙ n) in
    let s = (serve-answers c codec is u p (ap (pausing_is c) v ∙ o)).0 in
    let sent : answers c u.sent ≡ answers c q.sent = ap (answers c) (e.sent ∙ a.sent) in
    let cmds : waiting c u.cmds ≡ waiting c q.cmds = ap (waiting c) (e.cmds ∙ a.cmds) in
    ap (λ (r : Queue). answers c r.sent) twice ∙ omega (arith, s, sent, cmds, k)
