-- ===== src/Hyperstart/Streams/Ends.antt =====
-- How streams end, and what is written to one (agent/hyperstart.go).
use runv.Prelude.{
  ℕ, zero, suc, ◌+◌, ◌≤◌, ◌≡◌, ◌≢◌, refl, ap, ◌∙◌, sym, Bool, true, false, none, some, List, [],
  ◌∷◌, ◌++◌, length, lookup, insert, delete, has_key, ltb, ◌==◌, take, drop, pair_eq, string_eq,
  nat_eq, arith, if_cases, lookup-insert_self, lookup-insert_ne, lookup-delete_ne,
  lookup-delete_self, length-drop, length-take, take-append-drop, append_nil,
}
use runv.Hyperstart.{at_most}
use runv.Hyperstart.Streams.{
  Key, Process, Out, Agent, close_pipe, remove_stderr, remove_stream_out, handle_stream,
}
use runv.Hyperstart.Streams.Calls.{
  ok, setup_process_io, alloc_stream_seq, enter_process, exec_process, split_messages, write_stdin,
  executed, received, step,
}

-- A stream that is not its process's output ends, and nothing else does.
handle_stream-stderr :
    (version : ℕ) (taken : Bool) (seq : ℕ) (out : Out) (a : Agent)
    → lookup seq a.stream_outs ≡ some out
    → (seq == out.stdio) ≡ false
    → (handle_stream version taken seq [] a).stream_outs ≡ delete seq a.stream_outs
unfolding handle_stream has_key close_pipe remove_stream_out
handle_stream-stderr version taken seq out a l n = ground (arith, l, n)

handle_stream-broken :
    (version : ℕ) (taken : Bool) (seq : ℕ) (out : Out) (a : Agent)
    → lookup seq a.stream_outs ≡ some out
    → (seq == out.stdio) ≡ true
    → ltb 0 out.stderr ≡ true
    → lookup out.stderr (delete seq a.stream_outs) ≡ none
    → (handle_stream version taken seq [] a).panicked ≡ true
unfolding handle_stream has_key close_pipe remove_stream_out remove_stderr
handle_stream-broken version taken seq out a l y p n = ground (arith, l, y, p, n)

exec_process-outs :
    (k : Key) (a : Agent)
    → has_key k a.procs ≡ false
    → let n = a.last_stream_seq in
      let out : Out = record { stdio = n; stderr = n + 1 } in
      (exec_process k false a).1.stream_outs ≡ insert (n + 1) out (insert n out a.stream_outs)
unfolding exec_process enter_process setup_process_io alloc_stream_seq
exec_process-outs k a n = rw n refl

-- When a guest ends the error stream of a process without a terminal before its output, the end of
-- its output makes the agent follow a nil pointer.
pub stderr_first-panics :
    (k : Key) (version : ℕ) (taken : Bool) (a : Agent)
    → has_key k a.procs ≡ false
    → let n = a.last_stream_seq in
      let b = step a (executed k false) in
      let c = step b (received version taken (n + 1) []) in
      (step c (received version taken n [])).panicked ≡ true
unfolding step
stderr_first-panics k version taken a h =
    let n = a.last_stream_seq in
    let out : Out = record { stdio = n; stderr = n + 1 } in
    let b = (exec_process k false a).1 in
    let outs = insert n out a.stream_outs in
    let e : b.stream_outs ≡ insert (n + 1) out outs = exec_process-outs k a h in
    let other : n ≢ n + 1 = λ q. omega (arith, q) in
    let first : lookup (n + 1) b.stream_outs ≡ some out =
      ap (lookup (n + 1)) e ∙ lookup-insert_self (n + 1) out outs in
    let c = handle_stream version taken (n + 1) [] b in
    let left : c.stream_outs ≡ delete (n + 1) b.stream_outs =
      handle_stream-stderr version taken (n + 1) out b first (ground arith) in
    let second : lookup n c.stream_outs ≡ some out =
      ap (lookup n) (left ∙ ap (delete (n + 1)) e)
      ∙ lookup-delete_ne (n + 1) n (insert (n + 1) out outs) other
      ∙ lookup-insert_ne (n + 1) n out outs other
      ∙ lookup-insert_self n out a.stream_outs in
    let gone : lookup (n + 1) (delete n c.stream_outs) ≡ none =
      lookup-delete_ne n (n + 1) c.stream_outs (λ q. other (sym q))
      ∙ ap (lookup (n + 1)) left
      ∙ lookup-delete_self (n + 1) b.stream_outs in
    handle_stream-broken version taken n out c second (ground arith) (ground arith) gone

-- The bytes of messages, and whether each is for the stream and of 1 to 16 bytes.
abbrev pub bytes_of : List (ℕ × List ℕ) → List ℕ
bytes_of [] = []
bytes_of ((seq, bs) ∷ ms) = bs ++ bytes_of ms

abbrev pub IsSmall : ℕ → List (ℕ × List ℕ) → Type 0
IsSmall seq [] = Unit
IsSmall seq ((s, bs) ∷ ms) = (s ≡ seq) × (1 ≤ length bs) × (length bs ≤ 16) × IsSmall seq ms

split_messages_lem :
    (fuel seq : ℕ) (bytes : List ℕ)
    → length bytes ≤ fuel
    → (bytes_of (split_messages fuel seq bytes) ≡ bytes)
      × IsSmall seq (split_messages fuel seq bytes)
unfolding split_messages
split_messages_lem zero seq [] l = (refl, tt)
split_messages_lem zero seq (b ∷ bytes) l = absurd (omega (arith, l))
split_messages_lem (suc fuel) seq [] l = (refl, tt)
split_messages_lem (suc fuel) seq (b ∷ bytes) l =
    let all = b ∷ bytes in
    let nr = at_most (length all) 16 in
    let some_taken : (1 ≤ nr) × (nr ≤ 16) × (nr ≤ length all) =
      (ground arith, ground arith, ground arith) in
    let rest =
      split_messages_lem fuel seq (drop nr all)
        (omega (arith, length-drop nr all, l, some_taken.0)) in
    let t = length-take nr all in
    let P : List (ℕ × List ℕ) → Type 0 = λ ms. (bytes_of ms ≡ all) × IsSmall seq ms in
    if_cases P (ltb 0 (length all)) ((seq, take nr all) ∷ split_messages fuel seq (drop nr all)) []
      (λ y. (
        ap (◌++◌ (take nr all)) rest.0 ∙ take-append-drop nr all,
        (
          refl,
          omega (arith, t, some_taken.0, some_taken.2),
          omega (arith, t, some_taken.1),
          rest.1,
        ),
      ))
      (λ n. absurd (ground (arith, n)))

write_stdin-sends :
    (k : Key) (ps : Process) (bytes : List ℕ) (a : Agent)
    → lookup k a.procs ≡ some ps
    → ps.stdin_open ≡ true
    → a.closed ≡ false
    → let messages = split_messages (length bytes) ps.stdio_seq bytes in
      write_stdin k bytes a
      ≡ ((ok, length bytes), record a { stream_chan = a.stream_chan ++ messages })
unfolding write_stdin split_messages
write_stdin-sends k ps [] a e o c =
    rw (e, write_stdin)
      (ap (λ xs. ((ok, 0), record a { stream_chan = xs })) (sym (append_nil a.stream_chan)))
write_stdin-sends k ps (b ∷ bytes) a e o c = ground (arith, e, o, c)

-- WriteStdin on an open stream of an agent that is not closed takes all the bytes: it sends messages
-- for that stream which hold them in their order, each of 1 to 16 bytes, so that none ends the
-- stream; and of the agent nothing else changes.
pub write_stdin-splits :
    (k : Key) (ps : Process) (bytes : List ℕ) (a : Agent)
    → lookup k a.procs ≡ some ps
    → ps.stdin_open ≡ true
    → a.closed ≡ false
    → let r = write_stdin k bytes a in
      (messages : List (ℕ × List ℕ)) × (r
        ≡ ((ok, length bytes), record a { stream_chan = a.stream_chan ++ messages }))
      × (bytes_of messages ≡ bytes)
      × IsSmall ps.stdio_seq messages
unfolding write_stdin
write_stdin-splits k ps bytes a e o c =
    let (same, small) = split_messages_lem (length bytes) ps.stdio_seq bytes (omega arith) in
    (
      split_messages (length bytes) ps.stdio_seq bytes,
      write_stdin-sends k ps bytes a e o c,
      same,
      small,
    )
