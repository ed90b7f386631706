-- ===== src/Hyperstart/Queue/Flow.antt =====
-- What reaches a guest that acknowledges what it gets (agent/hyperstart.go).
use runv.Prelude.{
  ℕ, zero, suc, ◌-◌, ◌*◌, ◌<◌, ◌≤◌, ◌≡◌, refl, ap, subst, ◌∙◌, sym, true, false, ◌&&◌, not, List,
  [], ◌∷◌, ◌++◌, if◌then◌else◌, length, drop, arith, length-drop, append_nil, length_zero, if_cases,
  Bool,
}
use runv.Hyperstart.{put_uint32, at_most}
use runv.Hyperstart.RoundTrip.{uint32-put_uint32}
use runv.Hyperstart.Commands.{Codec, next}
use runv.Hyperstart.Queue.{Queue, Input, write_data, handle_next, on_command, step, loop, initial}
use runv.Hyperstart.Queue.Valid.{frames, IsValid}
use runv.Hyperstart.Queue.Writes.{loop-IsValid, loop_from_initial-IsValid}

-- The guest acknowledges the bytes that were written, and the connection takes the next ones whole.
abbrev acknowledged : Queue → Input
acknowledged q = record { command = next (put_uint32 q.index); version = 0; accepts = 512 }

-- That, `n` times over.
abbrev pub guest_reads : Codec → ℕ → Queue → Queue
guest_reads codec zero q = q
guest_reads codec (suc n) q = guest_reads codec n (loop codec q (acknowledged q ∷ [])).0

-- The loop is at work, all that may be written is, and nothing of it is acknowledged.
pub record IsFlowing (q : Queue) : Type 0 where
  pub looping : q.looping ≡ true
  pub got : q.got ≡ 0
  pub index : q.index ≡ at_most (length q.data_left) 512
  pub panicked : q.panicked ≡ false

handle_next-all :
    (q : Queue)
    → IsFlowing q
    → handle_next (put_uint32 q.index) q
      ≡ record q { data_left = drop q.index q.data_left; index = 0; got = 0 }
unfolding handle_next put_uint32
handle_next-all q f =
    let small : q.index < 4294967296 = ground (arith, f.index) in
    let e = uint32-put_uint32 q.index (0 ∷ 0 ∷ 0 ∷ []) small in ground (arith, f.got, e)

record Moves (q t : Queue) : Type 0 where
  flowing : IsFlowing t
  left : length t.data_left ≡ length q.data_left - 512
  taken : t.taken ≡ q.taken

write_data-Moves :
    (q : Queue)
    → IsFlowing q
    → Moves q
        (write_data 512 (record q { data_left = drop q.index q.data_left; index = 0; got = 0 }))
unfolding write_data
write_data-Moves q f =
    let l = length-drop q.index q.data_left in
    let i = f.index in
    record {
      flowing = record {
        looping = ground (arith, f.looping);
        got = ground (arith, l);
        index = ground (arith, l);
        panicked = ground (arith, f.panicked);
      };
      left = ground (arith, l, i);
      taken = ground arith;
    }

step-acknowledged :
    (codec : Codec) (q : Queue) → IsFlowing q → Moves q (step codec q (acknowledged q))
unfolding step on_command
step-acknowledged codec q f =
    let u : Queue = record q { data_left = drop q.index q.data_left; index = 0; got = 0 } in
    let P : Queue → Type 0 = λ t. Moves q (if t.panicked then t else write_data 512 t) in
    let calm = f.panicked in
    let go : P u =
      if_cases (Moves q) u.panicked u (write_data 512 u) (λ y. cc) (λ n. write_data-Moves q f) in
    subst P (sym (handle_next-all q f)) go

-- The loop takes the acknowledgement, since it is at work.
round-Moves :
    (codec : Codec) (q : Queue) → IsFlowing q → Moves q (loop codec q (acknowledged q ∷ [])).0
unfolding loop
round-Moves codec q f =
    let awake : (q.looping && not q.panicked) ≡ true = ground (arith, f.looping, f.panicked) in
    if_cases (λ (r : Queue × List Input). Moves q r.0) (q.looping && not q.panicked)
      (step codec q (acknowledged q), []) _ (λ y. step-acknowledged codec q f) (λ n. cc)

guest_reads-Moves :
    (codec : Codec) (n : ℕ) (q : Queue)
    → IsFlowing q
    → IsFlowing (guest_reads codec n q)
      × (length (guest_reads codec n q).data_left ≡ length q.data_left - 512 * n)
      × ((guest_reads codec n q).taken ≡ q.taken)
guest_reads-Moves codec zero q f = (f, omega arith, refl)
guest_reads-Moves codec (suc n) q f =
    let m = round-Moves codec q f in
    let (g, l, k) = guest_reads-Moves codec n (loop codec q (acknowledged q ∷ [])).0 m.flowing in
    (g, omega (arith, l, m.left), k ∙ m.taken)

guest_reads-IsValid :
    (codec : Codec) (n : ℕ) (q : Queue) → IsValid q → IsValid (guest_reads codec n q)
guest_reads-IsValid codec zero q v = v
guest_reads-IsValid codec (suc n) q v =
    guest_reads-IsValid codec n (loop codec q (acknowledged q ∷ [])).0
      (loop-IsValid codec (acknowledged q ∷ []) q v)

-- After any history that leaves the loop at work, with all written that may be and nothing of it
-- acknowledged, if the guest acknowledges what it was sent and the connection takes each write
-- whole, every frame that was taken has been written after one round for each 512 bytes that the
-- queue holds, in order and once.
pub loop-delivers :
    (codec : Codec) (paused : Bool) (is : List Input) (n : ℕ)
    → let q = (loop codec (initial paused) is).0 in
      IsFlowing q → length q.data_left ≤ 512 * n → (guest_reads codec n q).written ≡ frames q.taken
loop-delivers codec paused is n f l =
    let q = (loop codec (initial paused) is).0 in
    let t = guest_reads codec n q in
    let v = guest_reads-IsValid codec n q (loop_from_initial-IsValid codec paused is) in
    let (g, m, k) = guest_reads-Moves codec n q f in
    let none_left : drop t.index t.data_left ≡ [] =
      length_zero (drop t.index t.data_left)
        (omega (arith, length-drop t.index t.data_left, m, l)) in
    sym (append_nil t.written) ∙ ap (◌++◌ t.written) (sym none_left) ∙ v.stream ∙ ap frames k
