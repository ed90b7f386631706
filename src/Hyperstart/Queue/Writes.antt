-- ===== src/Hyperstart/Queue/Writes.antt =====
-- What the goroutine of the control channel writes, and in which order the guest's answers go to the
-- callers (agent/hyperstart.go).
use runv.Prelude.{
  ℕ, ◌+◌, ◌≤◌, ◌≡◌, refl, ap, ◌∙◌, sym, Bool, true, false, ◌&&◌, not, Option, none, some, List, [],
  ◌∷◌, ◌++◌, inl, inr, ◌⊎◌, if◌then◌else◌, leb, ◌==◌, length, drop, arith, if_cases, option_cases,
  sum_cases, append_assoc, append_nil, drop_prefix, length-append,
}
use runv.Hyperstart.{uint32, new_vm_message}
use runv.Hyperstart.Commands.{
  Codec, Message, Command, answered, next, pause_sync, unpause, call, Answer, done, pausing_error,
  marshal_error, old_error, prepare, marshal_message, old_message,
}
use runv.Hyperstart.Queue.{
  Queue, Input, reply, write_data, handle_next, handle_pause, handle_unpause, handle_call,
  on_command, step, loop, initial,
}
use runv.Hyperstart.Queue.Valid.{
  frames, callers, results, served, frames-append, callers-append, results-append, IsValid,
  same-IsValid, is_own, reply-IsValid, end_pausing-IsValid, end_pausing_if_idle-IsValid,
  handle_answer-IsValid, write_data-IsValid,
}

handle_next-IsValid : (ret_msg : List ℕ) (q : Queue) → IsValid q → IsValid (handle_next ret_msg q)
unfolding handle_next
handle_next-IsValid ret_msg q v =
    let got = q.got + uint32 (ret_msg ++ 0 ∷ 0 ∷ 0 ∷ []) in
    if_cases IsValid (length ret_msg == 0) (record q { panicked = true }) _
      (λ y. same-IsValid q _ refl refl refl refl refl refl v)
      (λ n.
        if_cases IsValid (q.index == got)
          (record q { data_left = drop q.index q.data_left; index = 0; got = 0 })
          (record q { got = got })
          (λ y. record {
            stream = v.stream;
            inside = omega arith;
            small = omega arith;
            order = v.order;
          })
          (λ m. same-IsValid q _ refl refl refl refl refl refl v))

prepare-is_own :
    (codec : Codec) (version code : ℕ) (m : Message) (e : Answer)
    → prepare codec version code m ≡ inl e
    → is_own e ≡ true
unfolding prepare
prepare-is_own codec version code m e =
    let P : Answer ⊎ List ℕ → Type 0 = λ r. r ≡ inl e → is_own e ≡ true in
    let old : Option (List ℕ) → Answer ⊎ List ℕ =
      λ o. elim o [ none ↦ inl old_error | some b ↦ inr b ] in
    let ready : List ℕ → Answer ⊎ List ℕ =
      λ bytes. if leb version 4242 then old (old_message codec code bytes) else inr bytes in
    option_cases P (marshal_message codec m) (inl marshal_error) ready (λ n r. cc)
      (λ bytes n.
        if_cases P (leb version 4242) (old (old_message codec code bytes)) (inr bytes)
          (λ y.
            option_cases P (old_message codec code bytes) (inl old_error) (λ b. inr b) (λ z r. cc)
              (λ b z r. cc))
          (λ y r. cc))

taken-IsValid :
    (c code : ℕ) (frame : List ℕ) (q : Queue)
    → IsValid q
    → IsValid (record q {
      cmds = q.cmds ++ record { result = c; code = code } ∷ [];
      data_left = q.data_left ++ frame;
      taken = q.taken ++ (c, frame) ∷ [];
    })
taken-IsValid c code frame q v = record {
  stream =
      ap (◌++◌ q.written) (drop_prefix q.index q.data_left frame v.inside)
      ∙ sym (append_assoc q.written (drop q.index q.data_left) frame)
      ∙ ap (λ xs. xs ++ frame) v.stream
      ∙ ap (◌++◌ (frames q.taken)) (sym (append_nil frame))
      ∙ sym (frames-append q.taken ((c, frame) ∷ []));
  inside = omega (arith, v.inside, length-append q.data_left frame);
  small = v.small;
  order =
      ap (◌++◌ (served q.sent)) (results-append q.cmds (record { result = c; code = code } ∷ []))
      ∙ sym (append_assoc (served q.sent) (results q.cmds) (c ∷ []))
      ∙ ap (λ xs. xs ++ c ∷ []) v.order
      ∙ sym (callers-append q.taken ((c, frame) ∷ []));
}

handle_call-IsValid :
    (codec : Codec) (version accepts c code : ℕ) (m : Message) (q : Queue)
    → IsValid q
    → IsValid (handle_call codec version accepts c code m q)
unfolding handle_call
handle_call-IsValid codec version accepts c code m q v =
    let taken : List ℕ → Queue = λ bytes. record q {
      cmds = q.cmds ++ record { result = c; code = code } ∷ [];
      data_left = q.data_left ++ new_vm_message code bytes;
      taken = q.taken ++ (c, new_vm_message code bytes) ∷ [];
    } in
    if_cases IsValid q.paused _ _ (λ y. reply-IsValid c pausing_error q refl v)
      (λ y.
        sum_cases IsValid (prepare codec version code m) (λ e. reply c e q)
          (λ bytes. write_data accepts (taken bytes))
          (λ e r. reply-IsValid c e q (prepare-is_own codec version code m e r) v)
          (λ bytes r.
            write_data-IsValid accepts (taken bytes)
              (taken-IsValid c code (new_vm_message code bytes) q v)))

pub on_command-IsValid :
    (codec : Codec) (version accepts : ℕ) (x : Command) (q : Queue)
    → IsValid q
    → IsValid (on_command codec version accepts x q)
unfolding on_command handle_pause handle_unpause
on_command-IsValid codec version accepts (answered ok ret_msg) q v =
    handle_answer-IsValid ok ret_msg q v
on_command-IsValid codec version accepts (next ret_msg) q v =
    let t = handle_next ret_msg q in
    let w = handle_next-IsValid ret_msg q v in
    if_cases IsValid t.panicked t (write_data accepts t) (λ y. w)
      (λ n. write_data-IsValid accepts t w)
on_command-IsValid codec version accepts (pause_sync c) q v =
    let t : Queue = record q { paused = true; pausing = some c } in
    let w = same-IsValid q t refl refl refl refl refl refl v in
    write_data-IsValid accepts _ (end_pausing_if_idle-IsValid t w)
on_command-IsValid codec version accepts (unpause c) q v =
    let t : Queue = record q { paused = false } in
    let w = same-IsValid q t refl refl refl refl refl refl v in
    write_data-IsValid accepts _ (reply-IsValid c done _ refl (end_pausing-IsValid t w))
on_command-IsValid codec version accepts (call c code m) q v =
    handle_call-IsValid codec version accepts c code m q v

pub loop-IsValid :
    (codec : Codec) (is : List Input) (q : Queue) → IsValid q → IsValid (loop codec q is).0
unfolding loop step
loop-IsValid codec [] q v = v
loop-IsValid codec (i ∷ is) q v =
    let t = step codec q i in
    let w = on_command-IsValid codec i.version i.accepts i.command q v in
    if_cases (λ (u : Queue × List Input). IsValid u.0) (q.looping && not q.panicked)
      (loop codec t is) (q, i ∷ is) (λ y. loop-IsValid codec is t w) (λ n. v)

pub loop_from_initial-IsValid :
    (codec : Codec) (paused : Bool) (is : List Input) → IsValid (loop codec (initial paused) is).0
unfolding initial
loop_from_initial-IsValid codec paused is =
    loop-IsValid codec is (initial paused)
      record { stream = refl; inside = omega arith; small = omega arith; order = refl }

-- Whatever the connection takes of each write and the guest sends, the bytes that were written and
-- those that are still to be written are together the frames of the commands that were taken, in
-- their order; and the callers whom the guest's answers went to, with those that still wait, are
-- those of the commands that were taken, in their order.
pub loop-in_order :
    (codec : Codec) (paused : Bool) (is : List Input)
    → let q = (loop codec (initial paused) is).0 in
      (q.written ++ drop q.index q.data_left ≡ frames q.taken)
      × (served q.sent ++ results q.cmds ≡ callers q.taken)
loop-in_order codec paused is =
    let v = loop_from_initial-IsValid codec paused is in (v.stream, v.order)

-- Over every history, what was written and is not acknowledged is at most 512 bytes long and within
-- `data`, so that no slice of `data` is out of range.
pub loop_bounds :
    (codec : Codec) (paused : Bool) (is : List Input)
    → let q = (loop codec (initial paused) is).0 in (q.index ≤ 512) × (q.index ≤ length q.data_left)
loop_bounds codec paused is =
    let v = loop_from_initial-IsValid codec paused is in (v.small, v.inside)
