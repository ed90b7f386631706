-- ===== src/Factory/Workers.antt =====
-- What becomes of the cache's virtual machines and workers (factory/cache).
use runv.Prelude.{
  ℕ, zero, suc, ◌+◌, ◌-◌, ◌≤◌, ◌≡◌, refl, ap, subst, false, Option, none, some, List, [], ◌∷◌,
  if◌then◌else◌, ltb, ◌==◌, ltb→lt, ==_iff, get_elem?, length, length_zero, arith, if_cases,
  option_cases,
}
use runv.Factory.Cache.{
  Stage, opened, filling, waiting, shut, Cache, start, new_cache, remove_at, close_once,
  close_factory, close_next, base_got, base_failed, client_takes, worker_ends, Move, got, failed,
  took, ended, closed, closing, step, run,
}

-- How often a virtual machine is in a list.
abbrev pub count : ℕ → List ℕ → ℕ
count v [] = 0
count v (w ∷ ws) = (if v == w then 1 else 0) + count v ws

count-remove_at :
    (v : ℕ) (ws : List ℕ) (i w : ℕ)
    → get_elem? ws i ≡ some w
    → count v ws ≡ count v (w ∷ remove_at ws i)
count-remove_at v [] i w h = cc
count-remove_at v (x ∷ ws) zero w h = ap (λ k. count v (k ∷ ws)) (let e : x ≡ w = cc in e)
count-remove_at v (x ∷ ws) (suc i) w h = omega (arith, count-remove_at v ws i w h)

pub length-remove_at :
    (ws : List ℕ) (i w : ℕ) → get_elem? ws i ≡ some w → length ws ≡ suc (length (remove_at ws i))
length-remove_at [] i w h = cc
length-remove_at (x ∷ ws) zero w h = refl
length-remove_at (x ∷ ws) (suc i) w h = ap suc (length-remove_at ws i w h)

pub not_ltb→le : (a b : ℕ) → ltb a b ≡ false → b ≤ a
not_ltb→le a b h = ground arith

-- What is so of a cache at all times.
pub record IsSound (c : Cache) : Type 0 where
  pub members : c.counter ≡ c.getting + length c.holding
  pub bounded : c.counter ≤ c.size
  pub enough : c.stage ≡ waiting → c.counter ≤ c.signals
  pub over : c.stage ≡ shut → c.counter ≡ 0
  pub accounted :
      (v : ℕ) → count v c.given ≡ count v c.handed + count v c.killed + count v c.holding

close_once-waiting : (s : Stage) → close_once s ≡ waiting → s ≡ waiting
unfolding close_once
close_once-waiting opened e = cc
close_once-waiting filling e = e
close_once-waiting waiting e = e
close_once-waiting shut e = e

close_once-shut : (s : Stage) → close_once s ≡ shut → s ≡ shut
unfolding close_once
close_once-shut opened e = cc
close_once-shut filling e = e
close_once-shut waiting e = e
close_once-shut shut e = e

close_factory-IsSound : (c : Cache) → IsSound c → IsSound (close_factory c)
unfolding close_factory
close_factory-IsSound c s = record {
  members = s.members;
  bounded = s.bounded;
  enough = λ e. s.enough (close_once-waiting c.stage e);
  over = λ e. s.over (close_once-shut c.stage e);
  accounted = s.accounted;
}

base_got-IsSound : (vm : ℕ) (c : Cache) → IsSound c → IsSound (base_got vm c)
unfolding base_got
base_got-IsSound vm c s =
    if_cases IsSound (ltb 0 c.getting) _ c
      (λ y. record {
        members = omega (arith, s.members, ltb→lt 0 c.getting y);
        bounded = s.bounded;
        enough = s.enough;
        over = s.over;
        accounted = λ v. omega (arith, s.accounted v);
      })
      (λ n. s)

pub base_failed-IsSound : (c : Cache) → IsSound c → IsSound (base_failed c)
unfolding base_failed
base_failed-IsSound c s =
    let d : Cache = record c { getting = c.getting - 1; counter = c.counter - 1 } in
    if_cases IsSound (ltb 0 c.getting) (close_factory d) c
      (λ y.
        let t : IsSound d = record {
          members = omega (arith, s.members, ltb→lt 0 c.getting y);
          bounded = omega (arith, s.bounded);
          enough = λ e. omega (arith, s.enough e);
          over = λ e. omega (arith, s.over e);
          accounted = s.accounted;
        } in
        close_factory-IsSound d t)
      (λ n. s)

client_takes-IsSound : (i : ℕ) (c : Cache) → IsSound c → IsSound (client_takes i c)
unfolding client_takes
client_takes-IsSound i c s =
    option_cases IsSound (get_elem? c.holding i) c _ (λ n. s)
      (λ vm e. record {
        members = omega (arith, s.members, length-remove_at c.holding i vm e);
        bounded = s.bounded;
        enough = s.enough;
        over = s.over;
        accounted = λ v. omega (arith, s.accounted v, count-remove_at v c.holding i vm e);
      })

pub worker_ends-IsSound : (i : ℕ) (c : Cache) → IsSound c → IsSound (worker_ends i c)
unfolding worker_ends
worker_ends-IsSound i c s =
    option_cases IsSound (get_elem? c.holding i) c _ (λ n. s)
      (λ vm e.
        if_cases IsSound (ltb 0 c.signals) _ c
          (λ y. record {
            members = omega (arith, s.members, length-remove_at c.holding i vm e);
            bounded = omega (arith, s.bounded);
            enough = λ w. omega (
              arith,
              s.enough w,
              s.members,
              length-remove_at c.holding i vm e,
              ltb→lt 0 c.signals y,
            );
            over = λ w. omega (arith, s.over w);
            accounted = λ v. omega (arith, s.accounted v, count-remove_at v c.holding i vm e);
          })
          (λ n. s))

close_next-IsSound : (t : Stage) (c : Cache) → c.stage ≡ t → IsSound c → IsSound (close_next t c)
unfolding close_next
close_next-IsSound opened c e s = s
close_next-IsSound filling c e s =
    if_cases IsSound (ltb c.signals c.size) _ _
      (λ y. record {
        members = s.members;
        bounded = s.bounded;
        enough = λ w. omega (arith, s.enough w);
        over = s.over;
        accounted = s.accounted;
      })
      (λ n. record {
        members = s.members;
        bounded = s.bounded;
        enough = λ w. omega (arith, s.bounded, not_ltb→le c.signals c.size n);
        over = λ w. cc;
        accounted = s.accounted;
      })
close_next-IsSound waiting c e s =
    if_cases IsSound (c.counter == 0) _ c
      (λ y. record {
        members = s.members;
        bounded = s.bounded;
        enough = λ w. s.enough e;
        over = λ w. (==_iff c.counter 0).0 y;
        accounted = s.accounted;
      })
      (λ n. s)
close_next-IsSound shut c e s = s

step-IsSound : (m : Move) (c : Cache) → IsSound c → IsSound (step m c)
unfolding step
step-IsSound (got vm) c s = base_got-IsSound vm c s
step-IsSound failed c s = base_failed-IsSound c s
step-IsSound (took i) c s = client_takes-IsSound i c s
step-IsSound (ended i) c s = worker_ends-IsSound i c s
step-IsSound closed c s = close_factory-IsSound c s
step-IsSound closing c s = close_next-IsSound c.stage c refl s

pub run-IsSound : (ms : List Move) (c : Cache) → IsSound c → IsSound (run ms c)
unfolding run
run-IsSound [] c s = s
run-IsSound (m ∷ ms) c s = run-IsSound ms (step m c) (step-IsSound m c s)

pub new_cache-IsSound : (n : ℕ) (c : Cache) → new_cache n ≡ some c → IsSound c
unfolding new_cache start
new_cache-IsSound n c h =
    if_cases (λ (r : Option Cache). r ≡ some c → IsSound c) (ltb n 1) none (some (start n))
      (λ y e. cc)
      (λ m e. subst IsSound (let q : start n ≡ c = cc in q) record {
        members = omega arith;
        bounded = omega arith;
        enough = λ w. cc;
        over = λ w. cc;
        accounted = λ v. refl;
      })
      h

-- Over every history of a cache's workers, clients and closing, each virtual machine that the lower
-- layer gave was handed out, was killed or is held by a worker, once for each time it was given;
-- when CloseFactory waits for the workers, there is a signal for each that has not ended; and when
-- it is through, all have ended and none holds a virtual machine.
pub run-accounts :
    (n : ℕ) (c : Cache) (ms : List Move)
    → new_cache n ≡ some c
    → let d = run ms c in
      ((v : ℕ) → count v d.given ≡ count v d.handed + count v d.killed + count v d.holding)
      × (d.stage ≡ waiting → d.getting + length d.holding ≤ d.signals)
      × (d.stage ≡ shut → (d.getting ≡ 0) × (d.holding ≡ []))
run-accounts n c ms h =
    let s = run-IsSound ms c (new_cache-IsSound n c h) in
    let d = run ms c in
    (
      s.accounted,
      λ w. omega (arith, s.enough w, s.members),
      λ w. (
        omega (arith, s.over w, s.members),
        length_zero d.holding (omega (arith, s.over w, s.members)),
      ),
    )
