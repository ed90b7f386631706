-- ===== src/Fanout/Delivery.antt =====
-- What a client of a fanout gets (hypervisor/fanout.go).
use runv.Prelude.{
  ℕ, ◌≤◌, ◌<◌, ◌≡◌, ◌≢◌, refl, ap, sym, ◌∙◌, subst, Bool, true, false, some, List, [], ◌∷◌, ◌++◌,
  if◌then◌else◌, ltb, length, get_elem?, set, arith, if_cases, Bool-cases, Option-cases, inl, inr,
  get_elem?-set_self, get_elem?-set_ne, get_elem?_bound,
}
use runv.Fanout.Channels.{Channel, Fanout, unblock_send}
use runv.Fanout.{create_fanout, send_all, Move, responded, step, run}
use runv.Fanout.Closing.{Has, IsDistinct}
use runv.Fanout.Histories.{closes, run-IsCalm, create_fanout-IsCalm}

-- A channel after a response: it is dropped if there is no room.
abbrev pub offered : ℕ → ℕ → Channel → Channel
offered size rsp ch =
    if ltb (length ch.buffer) size then record ch { buffer = ch.buffer ++ rsp ∷ [] } else ch

send_other :
    (c d rsp : ℕ) (fo : Fanout)
    → d ≢ c
    → (get_elem? (unblock_send d rsp fo).chans c ≡ get_elem? fo.chans c)
      × ((unblock_send d rsp fo).size ≡ fo.size)
unfolding unblock_send
send_other c d rsp fo n = elim (Option-cases (get_elem? fo.chans d)) [
  | inl e ↦ rw (e, unblock_send) (refl, refl)
  | inr (ch, e) ↦
      let more : Channel = record ch { buffer = ch.buffer ++ rsp ∷ [] } in
      let P : Fanout → Type 0 =
        λ t. (get_elem? t.chans c ≡ get_elem? fo.chans c) × (t.size ≡ fo.size) in
      rw (e, unblock_send)
        (if_cases P ch.closed fo _ (λ h. (refl, refl))
          λ h.
            if_cases P (ltb (length ch.buffer) fo.size) (record fo { chans = set fo.chans d more })
              fo (λ g. (get_elem?-set_ne fo.chans more n, refl)) (λ g. (refl, refl)))
]

send_all_absent :
    (c rsp : ℕ) (cs : List ℕ) (fo : Fanout)
    → (Has c cs → true ≡ false)
    → get_elem? (send_all rsp cs fo).chans c ≡ get_elem? fo.chans c
unfolding send_all
send_all_absent c rsp [] fo h = refl
send_all_absent c rsp (d ∷ cs) fo h =
    send_all_absent c rsp cs (unblock_send d rsp fo) (λ w. h (inr w))
    ∙ (send_other c d rsp fo (λ q. cc (h (inl (sym q))))).0

send_here :
    (c rsp : ℕ) (ch : Channel) (fo : Fanout)
    → get_elem? fo.chans c ≡ some ch
    → ch.closed ≡ false
    → get_elem? (unblock_send c rsp fo).chans c ≡ some (offered fo.size rsp ch)
unfolding unblock_send
send_here c rsp ch fo e o =
    let more : Channel = record ch { buffer = ch.buffer ++ rsp ∷ [] } in
    let there = get_elem?-set_self fo.chans c more (get_elem?_bound fo.chans c e) in
    let t : Fanout = record fo { chans = set fo.chans c more } in
    let room = ltb (length ch.buffer) fo.size in
    let P : Fanout → Type 0 = λ u. get_elem? u.chans c ≡ some (offered fo.size rsp ch) in
    rw (e, unblock_send)
      (if_cases P ch.closed fo (if room then t else fo) (λ h. cc)
        (λ _. elim (Bool-cases room) [ inl y ↦ rw y there | inr n ↦ rw n e ]))

send_all_lem :
    (c rsp : ℕ) (ch : Channel) (cs : List ℕ) (fo : Fanout)
    → IsDistinct cs
    → Has c cs
    → get_elem? fo.chans c ≡ some ch
    → ch.closed ≡ false
    → get_elem? (send_all rsp cs fo).chans c ≡ some (offered fo.size rsp ch)
unfolding send_all
send_all_lem c rsp ch [] fo n h e o = cc
send_all_lem c rsp ch (d ∷ cs) fo (far, n) (inl q) e o =
    send_all_absent c rsp cs (unblock_send d rsp fo) (λ w. absurd (far c w (sym q)))
    ∙ subst (λ k. get_elem? (unblock_send k rsp fo).chans c ≡ some (offered fo.size rsp ch)) q
        (send_here c rsp ch fo e o)
send_all_lem c rsp ch (d ∷ cs) fo (far, n) (inr h) e o =
    let (same, size) = send_other c d rsp fo (far c h) in
    send_all_lem c rsp ch cs (unblock_send d rsp fo) n h (same ∙ e) o
    ∙ ap (λ k. some (offered k rsp ch)) size

-- In a fanout that any history led to in which Close is called once at most, a response that a
-- goroutine takes reaches each client whose channel has room for it, once and behind what it has not
-- read, leaves the channels of the other clients as they are, and reaches no other channel.
pub responded-offered :
    (size : ℕ) (block : Bool) (before : List Move) (rsp c : ℕ) (ch : Channel)
    → closes before ≤ 1
    → let fo = run (create_fanout size block) before in
      let fo' = step fo (responded rsp) in
      0 < fo.workers
      → get_elem? fo.chans c ≡ some ch
      → get_elem? fo'.chans c ≡ some (if ch.closed then ch else offered fo.size rsp ch)
unfolding step
responded-offered size block before rsp c ch l w e =
    let fo = run (create_fanout size block) before in
    let v =
      (run-IsCalm before (create_fanout size block)
        (create_fanout-IsCalm (closes before) size block l)).valid in
    let awake : (if ltb 0 fo.workers then send_all rsp fo.clients fo else fo)
        ≡ send_all rsp fo.clients fo =
      if_cases (λ t. t ≡ send_all rsp fo.clients fo) (ltb 0 fo.workers) _ fo (λ _. refl)
        (λ n. ground arith) in
    let sent : get_elem? (send_all rsp fo.clients fo).chans c
        ≡ some (if ch.closed then ch else offered fo.size rsp ch) =
      elim (Bool-cases ch.closed) [
        | inr o ↦
            if_cases (λ x. get_elem? (send_all rsp fo.clients fo).chans c ≡ some x) ch.closed ch
              (offered fo.size rsp ch) (λ h. cc)
              (λ _. send_all_lem c rsp ch fo.clients fo v.distinct (v.known c (ch, e, o)) e o)
        | inl s ↦
            let gone : Has c fo.clients → true ≡ false =
              λ h. let (x, f, p) = v.opened c h in shut x f p s in
            if_cases (λ x. get_elem? (send_all rsp fo.clients fo).chans c ≡ some x) ch.closed ch
              (offered fo.size rsp ch) (λ _. send_all_absent c rsp fo.clients fo gone ∙ e) (λ h. cc)
      ] in
    ap (λ (t : Fanout). get_elem? t.chans c) awake ∙ sent
  where
    shut :
        (x : Channel)
        → get_elem? (run (create_fanout size block) before).chans c ≡ some x
        → x.closed ≡ false
        → ch.closed ≡ true
        → true ≡ false
    shut x f p s = let found : x ≡ ch = cc in sym s ∙ sym (ap (λ (y : Channel). y.closed) found) ∙ p
