-- ===== src/Hyperstart/Queue/Counts.antt =====
-- How answers, and calls that wait for one, add up (agent/hyperstart.go).
use runv.Prelude.{
  ℕ, ◌+◌, ◌≤◌, ◌≡◌, refl, ap, ◌∙◌, sym, Bool, true, false, ◌&&◌, not, Option, none, some, List, [],
  ◌∷◌, ◌++◌, if◌then◌else◌, ltb, ◌==◌, length, arith, if_cases, option_cases, list_cases, sum_cases,
}
use runv.Hyperstart.{uint32, new_vm_message}
use runv.Hyperstart.Commands.{
  Codec, Message, Command, answered, next, pause_sync, unpause, call, pausing_error, Answer, acked,
  refused, done, closed_error, init_destroypod, prepare,
}
use runv.Hyperstart.Queue.{
  Queued, Queue, Input, reply, end_pausing, end_pausing_if_idle, handle_answer, write_data,
  handle_next, handle_pause, handle_unpause, handle_call, on_command, step, loop, commands, give_up,
  drain, serve,
}

-- How often `c` is answered in what was sent, waits in `cmds`, and asks in what is received by
-- something else than PauseSync and by PauseSync.
abbrev pub answers : ℕ → List (ℕ × Answer) → ℕ
answers c [] = 0
answers c ((d, a) ∷ xs) = (if d == c then 1 else 0) + answers c xs

abbrev pub waiting : ℕ → List Queued → ℕ
waiting c [] = 0
waiting c (d ∷ cs) = (if d.result == c then 1 else 0) + waiting c cs

abbrev pub asks : ℕ → Command → ℕ
asks c (call d code m) = if d == c then 1 else 0
asks c (unpause d) = if d == c then 1 else 0
asks c _ = 0

abbrev pub asked : ℕ → List Command → ℕ
asked c [] = 0
asked c (x ∷ xs) = asks c x + asked c xs

abbrev pub pauses : ℕ → Command → Bool
pauses c (pause_sync d) = d == c
pauses c _ = false

abbrev pub pauses_none : ℕ → List Command → Bool
pauses_none c [] = true
pauses_none c (x ∷ xs) = not (pauses c x) && pauses_none c xs

abbrev pub pausing_is : ℕ → Option ℕ → Bool
pausing_is c none = false
pausing_is c (some d) = d == c

answers-append :
    (c : ℕ) (xs ys : List (ℕ × Answer)) → answers c (xs ++ ys) ≡ answers c xs + answers c ys
answers-append c [] ys = omega arith
answers-append c ((d, a) ∷ xs) ys = omega (arith, answers-append c xs ys)

waiting-append : (c : ℕ) (xs ys : List Queued) → waiting c (xs ++ ys) ≡ waiting c xs + waiting c ys
waiting-append c [] ys = omega arith
waiting-append c (d ∷ xs) ys = omega (arith, waiting-append c xs ys)

-- `n` calls of `c` are received between `q` and `t`.
record Counts (c n : ℕ) (q t : Queue) : Type 0 where
  balance : answers c t.sent + waiting c t.cmds ≡ answers c q.sent + waiting c q.cmds + n
  calm : pausing_is c t.pausing ≡ false

same-Counts :
    (c : ℕ) (q t : Queue)
    → t.sent ≡ q.sent
    → t.cmds ≡ q.cmds
    → pausing_is c t.pausing ≡ false
    → Counts c 0 q t
same-Counts c q t s w h = record { balance = rw (s, w) (omega arith); calm = h }

Counts-trans : (c m n : ℕ) (q t u : Queue) → Counts c m q t → Counts c n t u → Counts c (m + n) q u
Counts-trans c m n q t u a b = record {
  balance = omega (arith, a.balance, b.balance);
  calm = b.calm;
}

module _ (c : ℕ) where
  reply-Counts :
      (d : ℕ) (a : Answer) (q : Queue)
      → pausing_is c q.pausing ≡ false
      → Counts c (if d == c then 1 else 0) q (reply d a q)
  unfolding reply
  reply-Counts d a q h = record {
    balance = omega (arith, answers-append c q.sent ((d, a) ∷ []));
    calm = h;
  }

  end_pausing-Counts : (q : Queue) → pausing_is c q.pausing ≡ false → Counts c 0 q (end_pausing q)
  unfolding end_pausing reply
  end_pausing-Counts q h =
      let told : (d : ℕ) → Queue = λ d. record (reply d done q) { pausing = none } in
      option_cases (Counts c 0 q) q.pausing q told (λ e. same-Counts c q q refl refl h)
        (λ d e.
          let other : (d == c) ≡ false = sym (ap (pausing_is c) e) ∙ h in
          record {
            balance = ground (arith, other, answers-append c q.sent ((d, done) ∷ []));
            calm = refl;
          })

  end_pausing_if_idle-Counts :
      (q : Queue) → pausing_is c q.pausing ≡ false → Counts c 0 q (end_pausing_if_idle q)
  unfolding end_pausing_if_idle
  end_pausing_if_idle-Counts q h =
      list_cases (Counts c 0 q) q.cmds (end_pausing q) (λ d ds. q) (λ e. end_pausing-Counts q h)
        (λ d ds e. same-Counts c q q refl refl h)

  handle_answer-Counts :
      (ok : Bool) (ret_msg : List ℕ) (q : Queue)
      → pausing_is c q.pausing ≡ false
      → Counts c 0 q (handle_answer ok ret_msg q)
  unfolding handle_answer reply
  handle_answer-Counts ok ret_msg q h =
      let a : Answer = if ok then acked ret_msg else refused ret_msg in
      let told : Queued → List Queued → Queue = λ d ds. record (reply d.result a q) {
        looping = q.looping && not (d.code == init_destroypod);
        cmds = ds;
      } in
      list_cases (Counts c 0 q) q.cmds q (λ d ds. end_pausing_if_idle (told d ds))
        (λ e. same-Counts c q q refl refl h)
        (λ d ds e.
          let first : Counts c 0 q (told d ds) = record {
            balance = rw e (omega (arith, answers-append c q.sent ((d.result, a) ∷ [])));
            calm = h;
          } in
          Counts-trans c 0 0 q (told d ds) _ first (end_pausing_if_idle-Counts (told d ds) h))

  write_data-Counts :
      (accepts : ℕ) (q : Queue)
      → pausing_is c q.pausing ≡ false
      → Counts c 0 q (write_data accepts q)
  unfolding write_data
  write_data-Counts accepts q h =
      if_cases (Counts c 0 q) ((q.index == 0) && ltb 0 (length q.data_left)) _ q
        (λ y. same-Counts c q _ refl refl h) (λ n. same-Counts c q q refl refl h)

  handle_next-Counts :
      (ret_msg : List ℕ) (q : Queue)
      → pausing_is c q.pausing ≡ false
      → Counts c 0 q (handle_next ret_msg q)
  unfolding handle_next
  handle_next-Counts ret_msg q h =
      if_cases (Counts c 0 q) (length ret_msg == 0) _ _ (λ y. same-Counts c q _ refl refl h)
        (λ n.
          if_cases (Counts c 0 q) (q.index == q.got + uint32 (ret_msg ++ 0 ∷ 0 ∷ 0 ∷ [])) _ _
            (λ y. same-Counts c q _ refl refl h) (λ m. same-Counts c q _ refl refl h))

  handle_call-Counts :
      (codec : Codec) (version accepts d code : ℕ) (m : Message) (q : Queue)
      → pausing_is c q.pausing ≡ false
      → Counts c (if d == c then 1 else 0) q (handle_call codec version accepts d code m q)
  unfolding handle_call
  handle_call-Counts codec version accepts d code m q h =
      let n : ℕ = if d == c then 1 else 0 in
      let taken : List ℕ → Queue = λ bytes. record q {
        cmds = q.cmds ++ record { result = d; code = code } ∷ [];
        data_left = q.data_left ++ new_vm_message code bytes;
        taken = q.taken ++ (d, new_vm_message code bytes) ∷ [];
      } in
      let accept : (bytes : List ℕ) → Counts c n q (write_data accepts (taken bytes)) = λ bytes.
        let w = write_data-Counts accepts (taken bytes) h in
        record {
          balance =
              omega (
                arith,
                w.balance,
                waiting-append c q.cmds (record { result = d; code = code } ∷ []),
              );
          calm = w.calm;
        } in
      if_cases (Counts c n q) q.paused _ _ (λ y. reply-Counts d pausing_error q h)
        (λ y.
          sum_cases (Counts c n q) (prepare codec version code m) (λ e. reply d e q)
            (λ bytes. write_data accepts (taken bytes)) (λ e r. reply-Counts d e q h)
            (λ bytes r. accept bytes))

  on_command-Counts :
      (codec : Codec) (version accepts : ℕ) (x : Command) (q : Queue)
      → pauses c x ≡ false
      → pausing_is c q.pausing ≡ false
      → Counts c (asks c x) q (on_command codec version accepts x q)
  unfolding on_command handle_pause handle_unpause
  on_command-Counts codec version accepts (answered ok ret_msg) q p h =
      handle_answer-Counts ok ret_msg q h
  on_command-Counts codec version accepts (next ret_msg) q p h =
      let t = handle_next ret_msg q in
      let a = handle_next-Counts ret_msg q h in
      if_cases (Counts c 0 q) t.panicked t (write_data accepts t) (λ y. a)
        (λ n. Counts-trans c 0 0 q t _ a (write_data-Counts accepts t a.calm))
  on_command-Counts codec version accepts (pause_sync d) q p h =
      let t : Queue = record q { paused = true; pausing = some d } in
      let u = end_pausing_if_idle t in
      let a = end_pausing_if_idle-Counts t p in
      let b = write_data-Counts accepts u a.calm in
      record { balance = omega (arith, a.balance, b.balance); calm = b.calm }
  on_command-Counts codec version accepts (unpause d) q p h =
      let t : Queue = record q { paused = false } in
      let u = end_pausing t in
      let a = end_pausing-Counts t h in
      let r = reply-Counts d done u a.calm in
      let b = write_data-Counts accepts (reply d done u) r.calm in
      record { balance = omega (arith, a.balance, r.balance, b.balance); calm = b.calm }
  on_command-Counts codec version accepts (call d code m) q p h =
      handle_call-Counts codec version accepts d code m q h

  -- What the loop leaves in the channel is not answered yet.
  loop-Counts :
      (codec : Codec) (is : List Input) (q : Queue)
      → pauses_none c (commands is) ≡ true
      → pausing_is c q.pausing ≡ false
      → let (t, left) = loop codec q is in
        (answers c t.sent + waiting c t.cmds + asked c (commands left)
          ≡ answers c q.sent + waiting c q.cmds + asked c (commands is))
        × (pauses_none c (commands left) ≡ true)
  unfolding loop step
  loop-Counts codec [] q p h = (refl, refl)
  loop-Counts codec (i ∷ is) q p h =
      let first : pauses c i.command ≡ false = ground (arith, p) in
      let others : pauses_none c (commands is) ≡ true = ground (arith, p) in
      let a = on_command-Counts codec i.version i.accepts i.command q first h in
      let (b, r) = loop-Counts codec is (step codec q i) others a.calm in
      if_cases
        (λ (u : Queue × List Input).
          (answers c u.0.sent + waiting c u.0.cmds + asked c (commands u.1)
            ≡ answers c q.sent + waiting c q.cmds + (asks c i.command + asked c (commands is)))
          × (pauses_none c (commands u.1) ≡ true))
        (q.looping && not q.panicked) (loop codec (step codec q i) is) (q, i ∷ is)
        (λ y. (omega (arith, a.balance, b), r)) (λ n. (omega arith, p))

  give_up-answers :
      (cs : List Queued) (q : Queue)
      → answers c (give_up cs q).sent ≡ answers c q.sent + waiting c cs
  unfolding give_up reply
  give_up-answers [] q = omega arith
  give_up-answers (d ∷ cs) q = omega (
    arith,
    give_up-answers cs (reply d.result closed_error q),
    answers-append c q.sent ((d.result, closed_error) ∷ []),
  )

  drain-answers :
      (xs : List Command) (q : Queue)
      → pauses_none c xs ≡ true
      → (answers c (drain xs q).sent ≤ answers c q.sent + asked c xs)
        × ((drain xs q).stuck ≡ false → answers c (drain xs q).sent ≡ answers c q.sent + asked c xs)
  unfolding drain reply
  drain-answers [] q p = (omega arith, λ s. omega arith)
  drain-answers (answered ok ret_msg ∷ xs) q p =
      let (a, b) = drain-answers xs q p in (omega (arith, a), λ s. omega (arith, b s))
  drain-answers (next ret_msg ∷ xs) q p = (omega arith, λ s. cc)
  drain-answers (pause_sync d ∷ xs) q p =
      let others : pauses_none c xs ≡ true = ground (arith, p) in
      let other : (d == c) ≡ false = ground (arith, p) in
      let (a, b) = drain-answers xs (reply d closed_error q) others in
      let r = answers-append c q.sent ((d, closed_error) ∷ []) in
      (ground (arith, a, r, other), λ s. ground (arith, b s, r, other))
  drain-answers (unpause d ∷ xs) q p =
      let (a, b) = drain-answers xs (reply d closed_error q) p in
      let r = answers-append c q.sent ((d, closed_error) ∷ []) in
      (omega (arith, a, r), λ s. omega (arith, b s, r))
  drain-answers (call d code m ∷ xs) q p =
      let (a, b) = drain-answers xs (reply d closed_error q) p in
      let r = answers-append c q.sent ((d, closed_error) ∷ []) in
      (omega (arith, a, r), λ s. omega (arith, b s, r))

  -- What is received of one call, not a PauseSync, is answered at most as often, and exactly as often
  -- when nothing fails.
  pub serve-answers :
      (codec : Codec) (is : List Input) (q : Queue)
      → pauses_none c (commands is) ≡ true
      → pausing_is c q.pausing ≡ false
      → let t = serve codec q is in
        let n = answers c q.sent + waiting c q.cmds + asked c (commands is) in
        (answers c t.sent ≤ n) × (t.panicked ≡ false → t.stuck ≡ false → answers c t.sent ≡ n)
  unfolding serve
  serve-answers codec is q p h =
      let u = (loop codec q is).0 in
      let left = commands (loop codec q is).1 in
      let (b, r) = loop-Counts codec is q p h in
      let g = give_up-answers u.cmds u in
      let (d, e) = drain-answers left (give_up u.cmds u) r in
      let n = answers c q.sent + waiting c q.cmds + asked c (commands is) in
      if_cases
        (λ (t : Queue).
          (answers c t.sent ≤ n) × (t.panicked ≡ false → t.stuck ≡ false → answers c t.sent ≡ n))
        u.panicked u (drain left (give_up u.cmds u)) (λ y. (omega (arith, b), λ x z. cc))
        (λ y. (omega (arith, b, g, d), λ x z. omega (arith, b, g, e z)))
