-- ===== src/Fanout/Closing.antt =====
-- When channels of a fanout are closed (hypervisor/fanout.go).
use runv.Prelude.{
  ℕ, ◌≡◌, ◌≢◌, refl, ap, sym, ◌∙◌, subst, true, false, some, List, [], ◌∷◌, get_elem?, set,
  if_cases, inl, inr, ◌⊎◌, get_elem?-set_self, get_elem?-set_ne, get_elem?_bound, ℕ_discrete,
}
use runv.Fanout.Channels.{Channel, Fanout, close_chan}
use runv.Fanout.{close_all, finish}

abbrev pub Has : ℕ → List ℕ → Type 0
Has c [] = true ≡ false
Has c (d ∷ ds) = (c ≡ d) ⊎ Has c ds

abbrev pub IsDistinct : List ℕ → Type 0
IsDistinct [] = true ≡ true
IsDistinct (c ∷ cs) = ((d : ℕ) → Has d cs → c ≢ d) × IsDistinct cs

abbrev pub IsOpen : List Channel → ℕ → Type 0
IsOpen chans c = (ch : Channel) × (get_elem? chans c ≡ some ch) × (ch.closed ≡ false)

-- The clients are distinct and just those whose channels are open.
pub record IsValid (fo : Fanout) : Type 0 where
  pub opened : (c : ℕ) → Has c fo.clients → IsOpen fo.chans c
  pub distinct : IsDistinct fo.clients
  pub known : (c : ℕ) → IsOpen fo.chans c → Has c fo.clients

-- Some fields change that the channels do not depend on; a channel may be written to.
abbrev Same : List Channel → List Channel → Type 0
Same xs ys = ((c : ℕ) → IsOpen xs c → IsOpen ys c) × ((c : ℕ) → IsOpen ys c → IsOpen xs c)

-- What is left when the channels of distinct, open clients are closed.
pub record Closes (cs : List ℕ) (fo t : Fanout) : Type 0 where
  pub calm : t.panicked ≡ fo.panicked
  pub clients : t.clients ≡ fo.clients
  pub signal : t.signal_closed ≡ fo.signal_closed
  pub others : (c : ℕ) → (Has c cs → true ≡ false) → IsOpen fo.chans c → IsOpen t.chans c
  pub left : (c : ℕ) → IsOpen t.chans c → (Has c cs → true ≡ false) × IsOpen fo.chans c

pub close_chan-Closes :
    (c : ℕ) (fo : Fanout) → IsOpen fo.chans c → Closes (c ∷ []) fo (close_chan c fo)
unfolding close_chan
close_chan-Closes c fo (ch, e, o) =
    let shut : Channel = record ch { closed = true } in
    let t : Fanout = record fo { chans = set fo.chans c shut } in
    let done : Closes (c ∷ []) fo t = record {
      calm = refl;
      clients = refl;
      signal = refl;
      others =
          λ d h (x, f, p). (x, get_elem?-set_ne fo.chans shut (λ q. cc (h (inl (sym q)))) ∙ f, p);
      left = λ d (x, f, p). elim (ℕ_discrete c d) [
        | yes q ↦
            let there : get_elem? (set fo.chans c shut) d ≡ some shut =
              subst (λ k. get_elem? (set fo.chans c shut) k ≡ some shut) q
                (get_elem?-set_self fo.chans c shut (get_elem?_bound fo.chans c e)) in
            let found : x ≡ shut = cc in cc (sym p ∙ ap (λ (y : Channel). y.closed) found)
        | no q ↦ (
          λ w. elim w [ inl z ↦ absurd (q (sym z)) | inr z ↦ z ],
          (x, sym (get_elem?-set_ne fo.chans shut q) ∙ f, p),
        )
      ];
    } in
    rw (e, close_chan) (if_cases (Closes (c ∷ []) fo) ch.closed _ t (λ h. cc) (λ h. done))

Closes-trans :
    (c : ℕ) (cs : List ℕ) (fo t u : Fanout)
    → Closes (c ∷ []) fo t
    → Closes cs t u
    → Closes (c ∷ cs) fo u
Closes-trans c cs fo t u a b = record {
  calm = b.calm ∙ a.calm;
  clients = b.clients ∙ a.clients;
  signal = b.signal ∙ a.signal;
  others = λ d h o.
      b.others d (λ w. h (inr w)) (a.others d (λ w. elim w [ inl z ↦ h (inl z) | inr z ↦ z ]) o);
  left = λ d o.
      let (far, mid) = b.left d o in
      let (near, old) = a.left d mid in (λ w. elim w [ inl z ↦ near (inl z) | inr z ↦ far z ], old);
}

pub close_all-Closes :
    (cs : List ℕ) (fo : Fanout)
    → IsDistinct cs
    → ((c : ℕ) → Has c cs → IsOpen fo.chans c)
    → Closes cs fo (close_all cs fo)
unfolding close_all
close_all-Closes [] fo n o = record {
  calm = refl;
  clients = refl;
  signal = refl;
  others = λ c h p. p;
  left = λ c p. (λ w. w, p);
}
close_all-Closes (c ∷ cs) fo (far, n) o =
    let t = close_chan c fo in
    let a = close_chan-Closes c fo (o c (inl refl)) in
    let still : (d : ℕ) → Has d cs → IsOpen t.chans d = λ d h.
      a.others d (λ w. elim w [ inl z ↦ absurd (far d h (sym z)) | inr z ↦ z ]) (o d (inr h)) in
    Closes-trans c cs fo t _ a (close_all-Closes cs t n still)

pub finish-IsValid :
    (fo : Fanout)
    → IsValid fo
    → IsValid (finish fo)
      × ((finish fo).panicked ≡ fo.panicked)
      × ((finish fo).signal_closed ≡ fo.signal_closed)
unfolding finish
finish-IsValid fo v =
    let a = close_all-Closes fo.clients fo v.distinct v.opened in
    (
      record {
        opened = λ c h. cc;
        distinct = refl;
        known = λ c o. let (far, old) = a.left c o in cc (far (v.known c old));
      },
      a.calm,
      a.signal,
    )
