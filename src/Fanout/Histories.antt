-- ===== src/Fanout/Histories.antt =====
-- Histories of a fanout: its clients and their channels (hypervisor/fanout.go).
use runv.Prelude.{
  ℕ, zero, suc, ◌+◌, ◌-◌, ◌≤◌, ◌≡◌, ◌≢◌, refl, ap, sym, ◌∙◌, subst, Bool, true, false, some, List,
  [], ◌∷◌, ◌++◌, if◌then◌else◌, ◌||◌, ◌↔◌, ltb, ◌==◌, ==_iff, length, get_elem?, set, arith,
  if_cases, Bool-cases, Option-cases, inl, inr, ◌⊎◌, get_elem?-set_self, get_elem?-set_ne,
  get_elem?_bound, get_elem?-snoc, get_elem?-append, ℕ_discrete,
}
use runv.Fanout.Channels.{Channel, Fanout, close_chan, unblock_send}
use runv.Fanout.{
  start, create_fanout, acquire, release_loop, release, close, send_all, finish, Move, acquired,
  released, closed, upstream_ended, responded, stopped, ended, step, run,
}
use runv.Fanout.Closing.{Has, IsDistinct, IsOpen, IsValid, close_chan-Closes, finish-IsValid}

-- Release passes over a channel that is not among the clients.
loop_absent :
    (client : ℕ) (cs : List ℕ) (fo : Fanout)
    → (Has client cs → true ≡ false)
    → release_loop client cs fo ≡ (cs, fo)
unfolding release_loop
loop_absent client [] fo h = refl
loop_absent client (c ∷ cs) fo h =
    let rest = loop_absent client cs fo (λ w. h (inr w)) in
    let other : (c == client) ≡ false = elim (Bool-cases (c == client)) [
      | inr n ↦ n
      | inl y ↦ y ∙ h (inl (sym ((==_iff c client).0 y)))
    ] in
    rw (other, rest, release_loop) refl

-- What the loop of Release leaves: `r` of the clients `cs`, and `t`.
record Releases (client : ℕ) (cs : List ℕ) (fo : Fanout) (r : List ℕ) (t : Fanout) : Type 0 where
  calm : t.panicked ≡ fo.panicked
  signal : t.signal_closed ≡ fo.signal_closed
  rest : (d : ℕ) → Has d r → Has d cs × (d ≢ client)
  keeps : (d : ℕ) → Has d cs → d ≢ client → Has d r
  distinct : IsDistinct r
  others : (d : ℕ) → d ≢ client → IsOpen fo.chans d → IsOpen t.chans d
  left :
      (d : ℕ) → IsOpen t.chans d → IsOpen fo.chans d × (d ≡ client → Has client cs → true ≡ false)

release_loop-Releases :
    (client : ℕ) (cs : List ℕ) (fo : Fanout)
    → IsDistinct cs
    → ((c : ℕ) → Has c cs → IsOpen fo.chans c)
    → Releases client cs fo (release_loop client cs fo).0 (release_loop client cs fo).1
unfolding release_loop
release_loop-Releases client [] fo n o = record {
  calm = refl;
  signal = refl;
  rest = λ d h. cc;
  keeps = λ d h q. h;
  distinct = refl;
  others = λ d q p. p;
  left = λ d p. (p, λ q h. h);
}
release_loop-Releases client (c ∷ cs) fo (far, n) o = elim (ℕ_discrete c client) [
  | yes q ↦
      let test : (c == client) ≡ true = (==_iff c client).1 q in
      let t = close_chan client fo in
      let a = close_chan-Closes client fo (subst (λ k. IsOpen fo.chans k) q (o c (inl refl))) in
      let absent : Has client cs → true ≡ false = λ w. absurd (far client w q) in
      let done : Releases client (c ∷ cs) fo cs t = record {
        calm = a.calm;
        signal = a.signal;
        rest = λ d h. (inr h, λ e. far d h (q ∙ sym e));
        keeps = λ d h e. elim h [ inl z ↦ absurd (e (z ∙ q)) | inr z ↦ z ];
        distinct = n;
        others = λ d e p. a.others d (λ w. elim w [ inl z ↦ absurd (e z) | inr z ↦ z ]) p;
        left = λ d p. let (gone, old) = a.left d p in (old, λ e w. gone (inl e));
      } in
      rw (test, loop_absent client cs t absent, release_loop) done
  | no q ↦
      let test : (c == client) ≡ false = elim (Bool-cases (c == client)) [
        | inr m ↦ m
        | inl y ↦ absurd (q ((==_iff c client).0 y))
      ] in
      let a = release_loop-Releases client cs fo n (λ d h. o d (inr h)) in
      let r = (release_loop client cs fo).0 in
      let t = (release_loop client cs fo).1 in
      let done : Releases client (c ∷ cs) fo (c ∷ r) t = record {
        calm = a.calm;
        signal = a.signal;
        rest = λ d h. elim h [
          | inl z ↦ (inl z, λ e. q (sym z ∙ e))
          | inr z ↦ (inr (a.rest d z).0, (a.rest d z).1)
        ];
        keeps = λ d h e. elim h [ inl z ↦ inl z | inr z ↦ inr (a.keeps d z e) ];
        distinct = (λ d h. far d (a.rest d h).0, a.distinct);
        others = a.others;
        left = λ d p.
            let (old, gone) = a.left d p in
            (old, λ e w. elim w [ inl z ↦ absurd (q (sym z)) | inr z ↦ gone e z ]);
      } in
      rw (test, release_loop) done
]

release-IsValid :
    (client : ℕ) (fo : Fanout)
    → IsValid fo
    → IsValid (release client fo)
      × ((release client fo).panicked ≡ fo.panicked)
      × ((release client fo).signal_closed ≡ fo.signal_closed)
unfolding release
release-IsValid client fo v =
    let a = release_loop-Releases client fo.clients fo v.distinct v.opened in
    (
      record {
        opened = λ d h. let (old, e) = a.rest d h in a.others d e (v.opened d old);
        distinct = a.distinct;
        known = λ d p.
            let (old, gone) = a.left d p in
            let there = v.known d old in
            a.keeps d there (λ e. cc (gone e (subst (λ k. Has k fo.clients) e there)));
      },
      a.calm,
      a.signal,
    )

-- Channels may be written to, and nothing else happens.
record Sends (fo t : Fanout) : Type 0 where
  calm : t.panicked ≡ fo.panicked
  signal : t.signal_closed ≡ fo.signal_closed
  clients : t.clients ≡ fo.clients
  forth : (c : ℕ) → IsOpen fo.chans c → IsOpen t.chans c
  back : (c : ℕ) → IsOpen t.chans c → IsOpen fo.chans c

Sends-refl : (fo : Fanout) → Sends fo fo
Sends-refl fo = record {
  calm = refl;
  signal = refl;
  clients = refl;
  forth = λ c o. o;
  back = λ c o. o;
}

unblock_send-Sends : (c rsp : ℕ) (fo : Fanout) → Sends fo (unblock_send c rsp fo)
unfolding unblock_send
unblock_send-Sends c rsp fo = elim (Option-cases (get_elem? fo.chans c)) [
  | inl e ↦ rw (e, unblock_send) (Sends-refl fo)
  | inr (ch, e) ↦
      let more : Channel = record ch { buffer = ch.buffer ++ rsp ∷ [] } in
      let t : Fanout = record fo { chans = set fo.chans c more } in
      let there : get_elem? (set fo.chans c more) c ≡ some more =
        get_elem?-set_self fo.chans c more (get_elem?_bound fo.chans c e) in
      let sent : ch.closed ≡ false → Sends fo t = λ o. record {
        calm = refl;
        signal = refl;
        clients = refl;
        forth = λ d (x, f, p). elim (ℕ_discrete c d) [
          | yes q ↦ (more, ap (λ k. get_elem? (set fo.chans c more) k) (sym q) ∙ there, o)
          | no q ↦ (x, get_elem?-set_ne fo.chans more q ∙ f, p)
        ];
        back = λ d (x, f, p). elim (ℕ_discrete c d) [
          | yes q ↦ (ch, ap (get_elem? fo.chans) (sym q) ∙ e, o)
          | no q ↦ (x, sym (get_elem?-set_ne fo.chans more q) ∙ f, p)
        ];
      } in
      rw (e, unblock_send)
        (if_cases (Sends fo) ch.closed fo _ (λ h. Sends-refl fo)
          λ h.
            if_cases (Sends fo) (ltb (length ch.buffer) fo.size) t fo (λ g. sent h)
              (λ g. Sends-refl fo))
]

send_all-Sends : (rsp : ℕ) (cs : List ℕ) (fo : Fanout) → Sends fo (send_all rsp cs fo)
unfolding send_all
send_all-Sends rsp [] fo = Sends-refl fo
send_all-Sends rsp (c ∷ cs) fo =
    let t = unblock_send c rsp fo in
    let a = unblock_send-Sends c rsp fo in
    let b = send_all-Sends rsp cs t in
    record {
      calm = b.calm ∙ a.calm;
      signal = b.signal ∙ a.signal;
      clients = b.clients ∙ a.clients;
      forth = λ d o. b.forth d (a.forth d o);
      back = λ d o. a.back d (b.back d o);
    }

Sends-IsValid : (fo t : Fanout) → Sends fo t → IsValid fo → IsValid t
Sends-IsValid fo t s v = record {
  opened = λ c h. s.forth c (v.opened c (subst (Has c) s.clients h));
  distinct = subst IsDistinct (sym s.clients) v.distinct;
  known = λ c o. subst (Has c) (sym s.clients) (v.known c (s.back c o));
}

Has-snoc : (c n : ℕ) (cs : List ℕ) → Has c (cs ++ n ∷ []) → Has c cs ⊎ (c ≡ n)
Has-snoc c n [] (inl q) = inr q
Has-snoc c n [] (inr q) = inl q
Has-snoc c n (d ∷ cs) (inl q) = inl (inl q)
Has-snoc c n (d ∷ cs) (inr q) = elim (Has-snoc c n cs q) [ inl z ↦ inl (inr z) | inr z ↦ inr z ]

snoc-Has : (c n : ℕ) (cs : List ℕ) → Has c cs ⊎ (c ≡ n) → Has c (cs ++ n ∷ [])
snoc-Has c n [] (inl q) = cc
snoc-Has c n [] (inr q) = inl q
snoc-Has c n (d ∷ cs) (inl (inl q)) = inl q
snoc-Has c n (d ∷ cs) (inl (inr q)) = inr (snoc-Has c n cs (inl q))
snoc-Has c n (d ∷ cs) (inr q) = inr (snoc-Has c n cs (inr q))

snoc-IsDistinct :
    (n : ℕ) (cs : List ℕ) → ((c : ℕ) → Has c cs → c ≢ n) → IsDistinct cs → IsDistinct (cs ++ n ∷ [])
snoc-IsDistinct n [] h s = (λ d w. cc, refl)
snoc-IsDistinct n (c ∷ cs) h (far, s) = (
  λ d w. elim (Has-snoc d n cs w) [ inl z ↦ far d z | inr z ↦ λ q. h c (inl refl) (q ∙ z) ],
  snoc-IsDistinct n cs (λ d w. h d (inr w)) s,
)

get_elem?-last :
    (xs : List Channel) (y z : Channel) (c : ℕ)
    → get_elem? (xs ++ y ∷ []) c ≡ some z
    → (get_elem? xs c ≡ some z) ⊎ (c ≡ length xs)
get_elem?-last [] y z zero h = inr refl
get_elem?-last [] y z (suc c) h = cc
get_elem?-last (x ∷ xs) y z zero h = inl h
get_elem?-last (x ∷ xs) y z (suc c) h = elim (get_elem?-last xs y z c h) [
  | inl q ↦ inl q
  | inr q ↦ inr (ap suc q)
]

unread : Channel
unread = record { buffer = []; closed = false }

acquired_clients-IsValid :
    (fo t : Fanout)
    → t.chans ≡ fo.chans ++ unread ∷ []
    → t.clients ≡ fo.clients ++ length fo.chans ∷ []
    → IsValid fo
    → IsValid t
unfolding unread
acquired_clients-IsValid fo t x c v =
    let n = length fo.chans in
    let older : (d : ℕ) → IsOpen fo.chans d → IsOpen (fo.chans ++ unread ∷ []) d =
      λ d (ch, f, p). (ch, get_elem?-append fo.chans (unread ∷ []) d f, p) in
    let opened : (d : ℕ) → Has d (fo.clients ++ n ∷ []) → IsOpen (fo.chans ++ unread ∷ []) d =
      λ d h. elim (Has-snoc d n fo.clients h) [
        | inl z ↦ older d (v.opened d z)
        | inr z ↦
            subst (IsOpen (fo.chans ++ unread ∷ [])) (sym z)
              (unread, get_elem?-snoc fo.chans unread, refl)
      ] in
    let new : (d : ℕ) → Has d fo.clients → d ≢ n =
      λ d h q. let (ch, f, p) = v.opened d h in omega (arith, get_elem?_bound fo.chans d f, q) in
    record {
      opened = λ d h. subst (λ ys. IsOpen ys d) (sym x) (opened d (subst (Has d) c h));
      distinct = subst IsDistinct (sym c) (snoc-IsDistinct n fo.clients new v.distinct);
      known = λ d o.
          let (ch, f, p) = subst (λ ys. IsOpen ys d) x o in
          subst (Has d) (sym c) (
            snoc-Has d n fo.clients (elim (get_elem?-last fo.chans unread ch d f) [
              | inl z ↦ inl (v.known d (ch, z, p))
              | inr z ↦ inr z
            ]));
    }

-- How often Close is called in a history.
abbrev pub closes : List Move → ℕ
closes [] = 0
closes (closed ∷ ms) = suc (closes ms)
closes (_ ∷ ms) = closes ms

-- `k` calls of Close are left, of one.
pub record IsCalm (k : ℕ) (fo : Fanout) : Type 0 where
  pub valid : IsValid fo
  calm : fo.panicked ≡ false
  once : k + (if fo.signal_closed then 1 else 0) ≤ 1

kept-IsCalm :
    (k : ℕ) (fo t : Fanout)
    → IsValid t
    → t.panicked ≡ fo.panicked
    → t.signal_closed ≡ fo.signal_closed
    → IsCalm k fo
    → IsCalm k t
kept-IsCalm k fo t v p s c = record { valid = v; calm = p ∙ c.calm; once = rw s (c.once) }

-- Only other fields change.
same-IsValid :
    (fo t : Fanout) → t.chans ≡ fo.chans → t.clients ≡ fo.clients → IsValid fo → IsValid t
same-IsValid fo t x c v = record {
  opened = λ d h. subst (λ ys. IsOpen ys d) (sym x) (v.opened d (subst (Has d) c h));
  distinct = subst IsDistinct (sym c) v.distinct;
  known = λ d o. subst (Has d) (sym c) (v.known d (subst (λ ys. IsOpen ys d) x o));
}

same-IsCalm :
    (k : ℕ) (fo t : Fanout)
    → t.chans ≡ fo.chans
    → t.clients ≡ fo.clients
    → t.panicked ≡ fo.panicked
    → t.signal_closed ≡ fo.signal_closed
    → IsCalm k fo
    → IsCalm k t
same-IsCalm k fo t x c p s v = kept-IsCalm k fo t (same-IsValid fo t x c v.valid) p s v

acquire-IsCalm : (k : ℕ) (fo : Fanout) → IsCalm k fo → IsCalm k (acquire fo)
unfolding acquire start unread
acquire-IsCalm k fo c =
    if_cases (IsCalm k) fo.running _ _
      (λ h. kept-IsCalm k fo _ (acquired_clients-IsValid fo _ refl refl c.valid) refl refl c)
      (λ h. kept-IsCalm k fo _ (acquired_clients-IsValid fo _ refl refl c.valid) refl refl c)

close-IsCalm : (k : ℕ) (fo : Fanout) → IsCalm (suc k) fo → IsCalm k (close fo)
unfolding close
close-IsCalm k fo c =
    let first : fo.signal_closed ≡ false = ground (arith, c.once) in
    let t : Fanout = record fo { signalled = true; signal_closed = true } in
    let once : k + (if true then 1 else 0) ≤ 1 = omega (arith, c.once) in
    if_cases (IsCalm k) fo.signal_closed _ t (λ h. cc)
      (λ h. record { valid = same-IsValid fo t refl refl c.valid; calm = c.calm; once = once })

ended-IsCalm :
    (k : ℕ) (fo : Fanout) → IsCalm k fo → IsCalm k (record (finish fo) { ending = fo.ending - 1 })
ended-IsCalm k fo c =
    let (v, p, s) = finish-IsValid fo c.valid in
    same-IsCalm k (finish fo) _ refl refl refl refl (kept-IsCalm k fo (finish fo) v p s c)

responded-IsCalm : (k rsp : ℕ) (fo : Fanout) → IsCalm k fo → IsCalm k (send_all rsp fo.clients fo)
responded-IsCalm k rsp fo c =
    let s = send_all-Sends rsp fo.clients fo in
    kept-IsCalm k fo _ (Sends-IsValid fo _ s c.valid) s.calm s.signal c

pub run-IsCalm : (ms : List Move) (fo : Fanout) → IsCalm (closes ms) fo → IsCalm 0 (run fo ms)
unfolding run step
run-IsCalm [] fo c = c
run-IsCalm (acquired ∷ ms) fo c = run-IsCalm ms _ (acquire-IsCalm (closes ms) fo c)
run-IsCalm (released client ∷ ms) fo c =
    let (v, p, s) = release-IsValid client fo c.valid in
    run-IsCalm ms _ (kept-IsCalm (closes ms) fo _ v p s c)
run-IsCalm (closed ∷ ms) fo c = run-IsCalm ms _ (close-IsCalm (closes ms) fo c)
run-IsCalm (upstream_ended ∷ ms) fo c =
    run-IsCalm ms (record fo { upstream_closed = true })
      (same-IsCalm (closes ms) fo _ refl refl refl refl c)
run-IsCalm (responded rsp ∷ ms) fo c =
    run-IsCalm ms (if ltb 0 fo.workers then send_all rsp fo.clients fo else fo) (
      if_cases (IsCalm (closes ms)) (ltb 0 fo.workers) (send_all rsp fo.clients fo) fo
        (λ h. responded-IsCalm (closes ms) rsp fo c) (λ h. c))
run-IsCalm (stopped ∷ ms) fo c = run-IsCalm ms _ (
    if_cases (IsCalm (closes ms)) (ltb 0 fo.workers) _ _
      (λ h.
        if_cases (IsCalm (closes ms)) (fo.upstream_closed || (fo.signalled || fo.signal_closed)) _ _
          (λ g. same-IsCalm (closes ms) fo _ refl refl refl refl c) (λ g. c))
      (λ h. c))
run-IsCalm (ended ∷ ms) fo c =
    run-IsCalm ms (if ltb 0 fo.ending then record (finish fo) { ending = fo.ending - 1 } else fo) (
      if_cases (IsCalm (closes ms)) (ltb 0 fo.ending) _ fo (λ h. ended-IsCalm (closes ms) fo c)
        (λ h. c))

pub create_fanout-IsCalm : (k size : ℕ) (block : Bool) → k ≤ 1 → IsCalm k (create_fanout size block)
unfolding create_fanout start
create_fanout-IsCalm k size true l = record {
  valid = record { opened = λ c h. cc; distinct = refl; known = λ c (ch, e, o). cc };
  calm = refl;
  once = omega arith;
}
create_fanout-IsCalm k size false l = record {
  valid = record { opened = λ c h. cc; distinct = refl; known = λ c (ch, e, o). cc };
  calm = refl;
  once = omega arith;
}

-- Over every history of calls and goroutines in which Close is called once at most, no channel is
-- closed twice, by Release, by Close or by a goroutine; and the clients are just the channels that
-- Acquire made and that are open, so that a channel that is no client's any more has been closed.
pub run-tidy :
    (size : ℕ) (block : Bool) (ms : List Move) (c : ℕ)
    → closes ms ≤ 1
    → let fo = run (create_fanout size block) ms in
      (fo.panicked ≡ false) × (Has c fo.clients ↔ IsOpen fo.chans c)
run-tidy size block ms c l =
    let v =
      run-IsCalm ms (create_fanout size block) (create_fanout-IsCalm (closes ms) size block l) in
    (v.calm, (v.valid.opened c, v.valid.known c))
