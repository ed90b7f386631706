-- ===== src/Hyperstart/Queue/Pauses.antt =====
-- What PauseSync promises, and what ends the process (agent/hyperstart.go).
use runv.Prelude.{
  ◌+◌, ◌==◌, drop, if◌then◌else◌, ℕ, ◌≡◌, refl, ap, ◌∙◌, sym, subst, Bool-cases, Bool, true, false,
  ◌&&◌, ◌||◌, not, Option, none, some, List, [], ◌∷◌, ◌++◌, inl, inr, length, arith, if_cases,
}
use runv.Hyperstart.Commands.{Codec, Command, answered, next, pause_sync, unpause, call}
use runv.Hyperstart.Queue.{
  uint32, Queued, Queue, Input, reply, end_pausing, end_pausing_if_idle, handle_answer, write_data,
  handle_next, handle_pause, handle_unpause, handle_call, on_command, step, loop, initial, commands,
}

abbrev pub resumes : List Command → Bool
resumes [] = false
resumes (unpause c ∷ xs) = true
resumes (_ ∷ xs) = resumes xs

abbrev waits : Option ℕ → Bool
waits none = false
waits (some c) = true

abbrev idle : List Queued → Bool
idle [] = true
idle (c ∷ cs) = false

-- Paused, with no caller of PauseSync that waits, the queue is idle.
abbrev IsQuiet : Queue → Type 0
IsQuiet q = q.paused ≡ true → waits q.pausing ≡ false → idle q.cmds ≡ true

on_command-IsQuiet :
    (codec : Codec) (version accepts : ℕ) (x : Command) (q : Queue)
    → IsQuiet q
    → IsQuiet (on_command codec version accepts x q)
unfolding on_command handle_answer handle_next handle_pause handle_unpause handle_call write_data
    end_pausing_if_idle end_pausing reply
on_command-IsQuiet codec version accepts (answered ok ret_msg) q h = ground (arith, h)
on_command-IsQuiet codec version accepts (next ret_msg) q h = ground (arith, h)
on_command-IsQuiet codec version accepts (pause_sync c) q h = ground (arith, h)
on_command-IsQuiet codec version accepts (unpause c) q h = ground (arith, h)
on_command-IsQuiet codec version accepts (call c code m) q h = ground (arith, h)

loop-IsQuiet :
    (codec : Codec) (is : List Input) (q : Queue) → IsQuiet q → IsQuiet (loop codec q is).0
unfolding loop step
loop-IsQuiet codec [] q h = h
loop-IsQuiet codec (i ∷ is) q h =
    let t = step codec q i in
    let w = on_command-IsQuiet codec i.version i.accepts i.command q h in
    if_cases (λ (u : Queue × List Input). IsQuiet u.0) (q.looping && not q.panicked)
      (loop codec t is) (q, i ∷ is) (λ y. loop-IsQuiet codec is t w) (λ n. h)

-- Idle and paused, and nothing taken since `q`.
record Rests (q t : Queue) : Type 0 where
  paused : t.paused ≡ true
  pausing : waits t.pausing ≡ false
  cmds : idle t.cmds ≡ true
  taken : t.taken ≡ q.taken

on_command-Rests :
    (codec : Codec) (version accepts : ℕ) (x : Command) (q t : Queue)
    → resumes (x ∷ []) ≡ false
    → Rests q t
    → Rests q (on_command codec version accepts x t)
unfolding on_command handle_answer handle_next handle_pause handle_unpause handle_call write_data
    end_pausing_if_idle end_pausing reply
on_command-Rests codec version accepts (answered ok ret_msg) q t n h = ground (arith, h)
on_command-Rests codec version accepts (next ret_msg) q t n h = ground (arith, h)
on_command-Rests codec version accepts (pause_sync c) q t n h = ground (arith, h)
on_command-Rests codec version accepts (unpause c) q t n h = cc
on_command-Rests codec version accepts (call c code m) q t n h = ground (arith, h)

resumes-cons :
    (x : Command) (xs : List Command)
    → resumes (x ∷ xs) ≡ false
    → (resumes (x ∷ []) ≡ false) × (resumes xs ≡ false)
resumes-cons (answered ok ret_msg) xs n = (refl, n)
resumes-cons (next ret_msg) xs n = (refl, n)
resumes-cons (pause_sync c) xs n = (refl, n)
resumes-cons (unpause c) xs n = cc
resumes-cons (call c code m) xs n = (refl, n)

loop-Rests :
    (codec : Codec) (is : List Input) (q t : Queue)
    → resumes (commands is) ≡ false
    → Rests q t
    → Rests q (loop codec t is).0
unfolding loop step
loop-Rests codec [] q t n h = h
loop-Rests codec (i ∷ is) q t n h =
    let (one, others) = resumes-cons i.command (commands is) n in
    let u = step codec t i in
    let w = on_command-Rests codec i.version i.accepts i.command q t one h in
    if_cases (λ (z : Queue × List Input). Rests q z.0) (t.looping && not t.panicked)
      (loop codec u is) (t, i ∷ is) (λ y. loop-Rests codec is q u others w) (λ m. h)

-- Over every history, once the queue is paused and no caller of PauseSync waits, no command waits for
-- the guest, and until the next Unpause no command is taken, whatever is received.
pub loop-quiet :
    (codec : Codec) (paused : Bool) (is js : List Input)
    → let q = (loop codec (initial paused) is).0 in
      q.paused ≡ true
      → q.pausing ≡ none
      → resumes (commands js) ≡ false
      → (q.cmds ≡ []) × ((loop codec q js).0.cmds ≡ []) × ((loop codec q js).0.taken ≡ q.taken)
unfolding initial
loop-quiet codec paused is js p n r =
    let q = (loop codec (initial paused) is).0 in
    let quiet = loop-IsQuiet codec is (initial paused) (λ y z. refl) in
    let start : Rests q q = record {
      paused = p;
      pausing = ap waits n;
      cmds = quiet p (ap waits n);
      taken = refl;
    } in
    let end = loop-Rests codec js q q r start in
    let empty : (cs : List Queued) → idle cs ≡ true → cs ≡ [] = λ cs h. ground (arith, h) in
    (empty q.cmds start.cmds, empty _ end.cmds, end.taken)

-- A notice of the guest's progress without bytes.
abbrev is_empty : Command → Bool
is_empty (next ret_msg) = length ret_msg == 0
is_empty _ = false

abbrev pub any_empty : List Command → Bool
any_empty [] = false
any_empty (x ∷ xs) = is_empty x || any_empty xs

next-panicked :
    (accepts : ℕ) (empty : Bool) (n : ℕ) (q : Queue)
    → let got = q.got + n in
      let t =
        if empty
        then record q { panicked = true }
        else if q.index == got
        then record q { data_left = drop q.index q.data_left; index = 0; got = 0 }
        else record q { got = got } in
      (if t.panicked then t else write_data accepts t).panicked ≡ (q.panicked || empty)
unfolding write_data
next-panicked accepts empty n q = ground arith

on_command-panicked :
    (codec : Codec) (version accepts : ℕ) (x : Command) (q : Queue)
    → (on_command codec version accepts x q).panicked ≡ (q.panicked || is_empty x)
unfolding on_command handle_answer handle_next handle_pause handle_unpause handle_call write_data
    end_pausing_if_idle end_pausing reply
on_command-panicked codec version accepts (answered ok ret_msg) q = ground arith
on_command-panicked codec version accepts (next ret_msg) q =
    next-panicked accepts (length ret_msg == 0) (uint32 (ret_msg ++ 0 ∷ 0 ∷ 0 ∷ [])) q
on_command-panicked codec version accepts (pause_sync c) q = ground arith
on_command-panicked codec version accepts (unpause c) q = ground arith
on_command-panicked codec version accepts (call c code m) q = ground arith

loop-stopped :
    (codec : Codec) (is : List Input) (q : Queue) → q.panicked ≡ true → loop codec q is ≡ (q, is)
unfolding loop
loop-stopped codec [] q y = refl
loop-stopped codec (i ∷ is) q y = ground (arith, y)

-- The loop panics exactly when a notice of the guest's progress without bytes is among
-- the commands that it received before it ended.
pub loop-panicked :
    (codec : Codec) (is : List Input) (q : Queue)
    → q.panicked ≡ false
    → (received : List Command) × (commands is ≡ received ++ commands (loop codec q is).1)
      × ((loop codec q is).0.panicked ≡ any_empty received)
unfolding loop step
loop-panicked codec [] q n = ([], refl, n)
loop-panicked codec (i ∷ is) q n =
    let x = i.command in
    let t = step codec q i in
    let here : t.panicked ≡ is_empty x =
      on_command-panicked codec i.version i.accepts x q ∙ ap (λ b. b || is_empty x) n in
    let P : Queue × List Input → Type 0 = λ u.
      (received : List Command) × (x ∷ commands is ≡ received ++ commands u.1)
      × (u.0.panicked ≡ any_empty received) in
    let last : is_empty x ≡ true → P (loop codec t is) = λ y.
      subst P (sym (loop-stopped codec is t (here ∙ y))) (x ∷ [], refl, ground (arith, here, y)) in
    let more : is_empty x ≡ false → P (loop codec t is) = λ y.
      let (r, e, p) = loop-panicked codec is t (here ∙ y) in
      (x ∷ r, ap (◌∷◌ x) e, p ∙ ap (λ b. b || any_empty r) (sym y)) in
    let rest : P (loop codec t is) = elim (Bool-cases (is_empty x)) [
      | inl y ↦ last y
      | inr y ↦ more y
    ] in
    if_cases P (q.looping && not q.panicked) (loop codec t is) (q, i ∷ is) (λ y. rest)
      (λ y. ([], refl, n))
