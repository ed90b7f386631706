-- ===== src/Qmp/Phases.antt =====
-- What holds of the monitor in each phase of its handler (hypervisor/qemu/qmp_handler.go).
use runv.Prelude.{
  ℕ, ◌+◌, ◌≤◌, ◌≡◌, refl, ap, ◌∙◌, sym, false, List, [], ◌∷◌, ◌++◌, if◌then◌else◌, length, arith,
  append_assoc, append_nil,
}
use runv.Qmp.{Session, Message, session, Handler, initializing, looping, stopped, Qmp, push}
use runv.Qmp.Orders.{ids, firsts, pending, workers, ends, inits, fails, breaks, front, queue-Adds}

-- The sessions that a commander works for, or whose end is in the channel.
abbrev pub busy : Qmp → List ℕ
busy q = workers q.commanders ++ ends q.queue

abbrev pub Phase : Handler → Qmp → Type 0
Phase initializing q =
    (q.commanders ≡ [])
    × (ends q.queue ≡ [])
    × (fails q.queue + inits q.queue + (if q.starting then 1 else 0) ≤ 1)
    × (breaks q.res ≡ 0)
Phase looping q =
    (q.starting ≡ false)
    × (inits q.queue ≡ 0)
    × (fails q.queue ≡ 0)
    × (breaks q.res ≡ 0)
    × (busy q ≡ front q.buf)
Phase stopped q = length (busy q) ≤ 1

pub record IsValid (q : Qmp) : Type 0 where
  pub order : firsts q.responded ++ (ids q.buf ++ pending q.queue) ≡ q.submitted
  pub calm : q.panicked ≡ false
  pub phase : Phase q.handler q

-- Only other fields change.
pub same-Phase :
    (h : Handler) (q t : Qmp)
    → t.commanders ≡ q.commanders
    → t.queue ≡ q.queue
    → t.res ≡ q.res
    → t.starting ≡ q.starting
    → t.buf ≡ q.buf
    → Phase h q
    → Phase h t
same-Phase initializing q t c u r s b (x, e, n, k) =
    (c ∙ x, ap ends u ∙ e, rw (u, s) n, ap breaks r ∙ k)
same-Phase looping q t c u r s b (x, i, f, k, w) =
    (s ∙ x, ap inits u ∙ i, ap fails u ∙ f, ap breaks r ∙ k, rw (c, u, b) w)
same-Phase stopped q t c u r s b l = rw (c, u) l

-- A message that neither starts nor ends anything.
pub push-Phase :
    (h : Handler) (m : Message) (q : Qmp)
    → ends (m ∷ []) ≡ []
    → inits (m ∷ []) ≡ 0
    → fails (m ∷ []) ≡ 0
    → Phase h q
    → Phase h (push m q)
unfolding push
push-Phase h m q e i f p =
    let a = queue-Adds q.queue m in
    let same : ends (q.queue ++ m ∷ []) ≡ ends q.queue =
      a.ends ∙ ap (◌++◌ (ends q.queue)) e ∙ append_nil (ends q.queue) in
    let kept : busy (push m q) ≡ busy q = ap (◌++◌ (workers q.commanders)) same in
    go h p same kept (omega (arith, a.inits, i)) (omega (arith, a.fails, f))
  where
    go :
        (h : Handler)
        → Phase h q
        → ends (q.queue ++ m ∷ []) ≡ ends q.queue
        → busy (record q { queue = q.queue ++ m ∷ [] }) ≡ busy q
        → inits (q.queue ++ m ∷ []) ≡ inits q.queue
        → fails (q.queue ++ m ∷ []) ≡ fails q.queue
        → Phase h (record q { queue = q.queue ++ m ∷ [] })
    go initializing (c, e, n, b) same kept i f = (c, same ∙ e, omega (arith, n, i, f), b)
    go looping (s, n, k, b, w) same kept i f = (s, i ∙ n, f ∙ k, b, kept ∙ w)
    go stopped l same kept i f = omega (arith, l, ap length kept)

pub push-IsValid :
    (m : Message) (q : Qmp)
    → pending (m ∷ []) ≡ []
    → ends (m ∷ []) ≡ []
    → inits (m ∷ []) ≡ 0
    → fails (m ∷ []) ≡ 0
    → IsValid q
    → IsValid (push m q)
unfolding push
push-IsValid m q n e i f v =
    let a = queue-Adds q.queue m in
    let same : pending (q.queue ++ m ∷ []) ≡ pending q.queue =
      a.pending ∙ ap (◌++◌ (pending q.queue)) n ∙ append_nil (pending q.queue) in
    record {
      order = ap (λ xs. firsts q.responded ++ (ids q.buf ++ xs)) same ∙ v.order;
      calm = v.calm;
      phase = push-Phase q.handler m q e i f v.phase;
    }

pub submitted-IsValid :
    (s : Session) (q : Qmp)
    → IsValid q
    → IsValid (push (session s) (record q { submitted = q.submitted ++ s.respond ∷ [] }))
unfolding push
submitted-IsValid s q v =
    let a = queue-Adds q.queue (session s) in
    let r = firsts q.responded in
    let b = ids q.buf in
    let t : Qmp = record q { submitted = q.submitted ++ s.respond ∷ [] } in
    record {
      order =
          ap (λ xs. r ++ (b ++ xs)) a.pending
          ∙ ap (◌++◌ r) (sym (append_assoc b (pending q.queue) (s.respond ∷ [])))
          ∙ sym (append_assoc r (b ++ pending q.queue) (s.respond ∷ []))
          ∙ ap (λ xs. xs ++ s.respond ∷ []) v.order;
      calm = v.calm;
      phase =
          push-Phase q.handler (session s) t refl refl refl
            (same-Phase q.handler q t refl refl refl refl refl v.phase);
    }
