-- ===== src/Qmp/Orders.antt =====
-- Who is at work for which session of the monitor, and the messages that are still to be handled
-- (hypervisor/qemu/qmp_handler.go).
use runv.Prelude.{ℕ, ◌+◌, ◌≡◌, refl, ap, Bool, none, some, List, [], ◌∷◌, ◌++◌, arith}
use runv.Qmp.{
  Session, Feedback, broken, Message, init, timeout, quit, shutdown, event, session, finish,
  feedback, Commander, beginning, waiting,
}

abbrev pub ids : List Session → List ℕ
ids [] = []
ids (s ∷ ss) = s.respond ∷ ids ss

abbrev pub firsts : List (ℕ × Bool) → List ℕ
firsts [] = []
firsts ((c, ok) ∷ xs) = c ∷ firsts xs

-- The sessions in the channel that the handler has not taken.
abbrev pub pending : List Message → List ℕ
pending [] = []
pending (session s ∷ ms) = s.respond ∷ pending ms
pending (_ ∷ ms) = pending ms

-- The sessions that the commanders work for, and those whose end is in the channel.
abbrev pub workers : List Commander → List ℕ
workers [] = []
workers (beginning s ∷ cs) = s.respond ∷ workers cs
workers (waiting s c rest tries ∷ cs) = s.respond ∷ workers cs

abbrev pub ends : List Message → List ℕ
ends [] = []
ends (finish (some c) ok ∷ ms) = c ∷ ends ms
ends (_ ∷ ms) = ends ms

-- How often the initializer's message is in the channel: its good one, and its bad one.
abbrev pub inits : List Message → ℕ
inits [] = 0
inits (init ∷ ms) = 1 + inits ms
inits (_ ∷ ms) = inits ms

abbrev pub fails : List Message → ℕ
fails [] = 0
fails (finish none ok ∷ ms) = 1 + fails ms
fails (_ ∷ ms) = fails ms

abbrev pub breaks : List Feedback → ℕ
breaks [] = 0
breaks (broken ∷ fs) = 1 + breaks fs
breaks (_ ∷ fs) = breaks fs

-- The first session, for which the commander works.
abbrev pub front : List Session → List ℕ
front [] = []
front (s ∷ ss) = s.respond ∷ []

pub ids-append : (xs ys : List Session) → ids (xs ++ ys) ≡ ids xs ++ ids ys
ids-append [] ys = refl
ids-append (s ∷ xs) ys = ap (◌∷◌ s.respond) (ids-append xs ys)

pub firsts-append : (xs ys : List (ℕ × Bool)) → firsts (xs ++ ys) ≡ firsts xs ++ firsts ys
firsts-append [] ys = refl
firsts-append ((c, ok) ∷ xs) ys = ap (◌∷◌ c) (firsts-append xs ys)

pub workers-append : (xs ys : List Commander) → workers (xs ++ ys) ≡ workers xs ++ workers ys
workers-append [] ys = refl
workers-append (beginning s ∷ xs) ys = ap (◌∷◌ s.respond) (workers-append xs ys)
workers-append (waiting s c rest tries ∷ xs) ys = ap (◌∷◌ s.respond) (workers-append xs ys)

-- What a message adds at the end of the channel.
pub record Adds (ms : List Message) (m : Message) : Type 0 where
  pub pending : pending (ms ++ m ∷ []) ≡ pending ms ++ pending (m ∷ [])
  pub ends : ends (ms ++ m ∷ []) ≡ ends ms ++ ends (m ∷ [])
  pub inits : inits (ms ++ m ∷ []) ≡ inits ms + inits (m ∷ [])
  pub fails : fails (ms ++ m ∷ []) ≡ fails ms + fails (m ∷ [])

pub queue-Adds : (ms : List Message) (m : Message) → Adds ms m
queue-Adds [] m = record { pending = refl; ends = refl; inits = omega arith; fails = omega arith }
queue-Adds (init ∷ ms) m =
    let a = queue-Adds ms m in
    record { pending = a.pending; ends = a.ends; inits = omega (arith, a.inits); fails = a.fails }
queue-Adds (timeout ∷ ms) m =
    let a = queue-Adds ms m in
    record { pending = a.pending; ends = a.ends; inits = a.inits; fails = a.fails }
queue-Adds (quit ∷ ms) m =
    let a = queue-Adds ms m in
    record { pending = a.pending; ends = a.ends; inits = a.inits; fails = a.fails }
queue-Adds (shutdown ∷ ms) m =
    let a = queue-Adds ms m in
    record { pending = a.pending; ends = a.ends; inits = a.inits; fails = a.fails }
queue-Adds (event ∷ ms) m =
    let a = queue-Adds ms m in
    record { pending = a.pending; ends = a.ends; inits = a.inits; fails = a.fails }
queue-Adds (session s ∷ ms) m =
    let a = queue-Adds ms m in
    record {
      pending = ap (◌∷◌ s.respond) a.pending;
      ends = a.ends;
      inits = a.inits;
      fails = a.fails;
    }
queue-Adds (finish none ok ∷ ms) m =
    let a = queue-Adds ms m in
    record { pending = a.pending; ends = a.ends; inits = a.inits; fails = omega (arith, a.fails) }
queue-Adds (finish (some c) ok ∷ ms) m =
    let a = queue-Adds ms m in
    record { pending = a.pending; ends = ap (◌∷◌ c) a.ends; inits = a.inits; fails = a.fails }
queue-Adds (feedback f ∷ ms) m =
    let a = queue-Adds ms m in
    record { pending = a.pending; ends = a.ends; inits = a.inits; fails = a.fails }
