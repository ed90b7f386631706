-- ===== src/Hyperstart/Streams/Table.antt =====
-- The table of processes and the channels of those who wait for them (agent/hyperstart.go).
use runv.Prelude.{
  ℕ, ◌≡◌, ◌≢◌, refl, ap, subst, ◌∙◌, sym, Bool, true, false, Option, none, some, List, [], ◌∷◌,
  if◌then◌else◌, inl, inr, get_elem?, set, lookup, insert, delete, pair_eq, string_eq, nat_eq,
  arith, if_cases, option_cases, IsUnique, delete-IsUnique, insert-IsUnique, lookup-delete_found,
  lookup-insert_found, lookup-delete_ne, lookup-insert_ne, lookup-cons_none, lookup-cons_self,
  lookup-cons_some, get_elem?-set_ne,
}
use runv.Hyperstart.Streams.{Key, Process, Agent, send_status, handle_wait_process, update_each}

-- A process in the table has a channel of its own, if any, which is empty; and one that is waited for
-- has not both exited and closed its output. No send is blocked.
pub record IsValid (a : Agent) : Type 0 where
  pub unique : IsUnique a.procs
  pub empty :
      (k : Key) (ps : Process) (c : ℕ)
      → lookup k a.procs ≡ some ps
      → ps.wait_chan ≡ some c
      → get_elem? a.wait_chans c ≡ some []
  pub apart :
      (j k : Key) (p q : Process) (c : ℕ)
      → lookup j a.procs ≡ some p
      → lookup k a.procs ≡ some q
      → p.wait_chan ≡ some c
      → q.wait_chan ≡ some c
      → j ≡ k
  pub pending :
      (k : Key) (ps : Process) (c status : ℕ)
      → lookup k a.procs ≡ some ps
      → ps.wait_chan ≡ some c
      → ps.exit_status ≡ some status
      → ps.out_closed ≡ false
  pub calm : a.blocked ≡ false

-- A channel for the process `k`: empty, and no other process has it.
abbrev pub IsFree : Key → Agent → Option ℕ → Type 0
IsFree k a o =
    (c : ℕ)
    → o ≡ some c
    → (get_elem? a.wait_chans c ≡ some [])
      × ((j : Key) (p : Process) → lookup j a.procs ≡ some p → p.wait_chan ≡ some c → j ≡ k)

-- The table loses an entry.
pub delete-IsValid :
    (k : Key) (a : Agent) → IsValid a → IsValid (record a { procs = delete k a.procs })
delete-IsValid k a v = record {
  unique = delete-IsUnique k a.procs v.unique;
  empty = λ j p c e. v.empty j p c (lookup-delete_found k j a.procs e).1;
  apart = λ i j p q c e f.
      v.apart i j p q c (lookup-delete_found k i a.procs e).1 (lookup-delete_found k j a.procs f).1;
  pending = λ j p c s e. v.pending j p c s (lookup-delete_found k j a.procs e).1;
  calm = v.calm;
}

-- The table gets an entry.
pub insert-IsValid :
    (k : Key) (ps : Process) (a : Agent)
    → IsFree k a ps.wait_chan
    → ((c s : ℕ) → ps.wait_chan ≡ some c → ps.exit_status ≡ some s → ps.out_closed ≡ false)
    → IsValid a
    → IsValid (record a { procs = insert k ps a.procs })
insert-IsValid k ps a free new v = record {
  unique = insert-IsUnique k ps a.procs v.unique;
  empty = λ j p c e w. elim (lookup-insert_found k j ps a.procs e) [
    | inl (q, x) ↦ (free c (sym (ap (λ (p : Process). p.wait_chan) x) ∙ w)).0
    | inr (q, x) ↦ v.empty j p c x w
  ];
  apart = λ i j p q c e f w z. elim (lookup-insert_found k i ps a.procs e) [
    | inl (r, x) ↦ elim (lookup-insert_found k j ps a.procs f) [
      | inl (t, y) ↦ r ∙ sym t
      | inr (t, y) ↦ r ∙ sym ((free c (sym (ap (λ (p : Process). p.wait_chan) x) ∙ w)).1 j q y z)
    ]
    | inr (r, x) ↦ elim (lookup-insert_found k j ps a.procs f) [
      | inl (t, y) ↦ (free c (sym (ap (λ (p : Process). p.wait_chan) y) ∙ z)).1 i p x w ∙ sym t
      | inr (t, y) ↦ v.apart i j p q c x y w z
    ]
  ];
  pending = λ j p c s e w x. elim (lookup-insert_found k j ps a.procs e) [
    | inl (q, y) ↦
        ap (λ (p : Process). p.out_closed) y
        ∙ new c s (sym (ap (λ (p : Process). p.wait_chan) y) ∙ w)
            (sym (ap (λ (p : Process). p.exit_status) y) ∙ x)
    | inr (q, y) ↦ v.pending j p c s y w x
  ];
  calm = v.calm;
}

-- A status goes to the channel of a process that leaves the table.
served-IsValid :
    (k : Key) (c status : ℕ) (a : Agent)
    → IsFree k a (some c)
    → IsValid a
    → IsValid (record a { procs = delete k a.procs; wait_chans = set a.wait_chans c (status ∷ []) })
served-IsValid k c status a free v =
    let w = delete-IsValid k a v in
    record {
      unique = w.unique;
      empty = λ j p d e f.
          let (n, x) = lookup-delete_found k j a.procs e in
          let other : c ≢ d = λ q. n ((free c refl).1 j p x (f ∙ ap some (sym q))) in
          get_elem?-set_ne a.wait_chans (status ∷ []) other ∙ v.empty j p d x f;
      apart = w.apart;
      pending = w.pending;
      calm = v.calm;
    }

send_status-sends :
    (c status : ℕ) (a : Agent)
    → get_elem? a.wait_chans c ≡ some []
    → send_status c status a ≡ record a { wait_chans = set a.wait_chans c (status ∷ []) }
unfolding send_status
send_status-sends c status a e = rw (e, send_status) refl

-- All branches of handleWaitProcess, for a process whose channel is free.
pub handle_wait_process-cases {κ} :
    (k : Key) (ps : Process) (a : Agent) (P : Agent → Type κ)
    → IsFree k a ps.wait_chan
    → (((c s : ℕ) → ps.wait_chan ≡ some c → ps.exit_status ≡ some s → ps.out_closed ≡ false)
        → P (record a { procs = insert k ps a.procs }))
    → ((c s : ℕ)
        → ps.wait_chan ≡ some c
        → ps.exit_status ≡ some s
        → ps.out_closed ≡ true
        → P (record a { procs = delete k a.procs; wait_chans = set a.wait_chans c (s ∷ []) }))
    → P (handle_wait_process k ps a)
unfolding handle_wait_process
handle_wait_process-cases k ps a P free kept served =
    let stays : Agent = record a { procs = insert k ps a.procs } in
    let gone : Agent = record a { procs = delete k a.procs } in
    let told : ℕ → ℕ → Agent = λ s c. if ps.out_closed then send_status c s gone else stays in
    option_cases P ps.exit_status stays
      (λ s. elim ps.wait_chan [ none ↦ stays | some c ↦ told s c ]) (λ n. kept (λ c s w x. cc))
      (λ s e.
        option_cases P ps.wait_chan stays (told s) (λ n. kept (λ c t w x. cc))
          (λ c w.
            if_cases P ps.out_closed (send_status c s gone) stays
              (λ y. subst P (sym (send_status-sends c s gone (free c w).0)) (served c s w e y))
              (λ z. kept (λ d t x y. z))))

-- `t` is valid, and a channel with a status keeps it.
pub record Goes (a t : Agent) : Type 0 where
  pub valid : IsValid t
  pub keeps :
      (c status : ℕ)
      → get_elem? a.wait_chans c ≡ some (status ∷ [])
      → get_elem? t.wait_chans c ≡ some (status ∷ [])

pub Goes-trans : (a t u : Agent) → Goes a t → Goes t u → Goes a u
Goes-trans a t u x y = record { valid = y.valid; keeps = λ c s h. y.keeps c s (x.keeps c s h) }

pub Goes-refl : (a : Agent) → IsValid a → Goes a a
Goes-refl a v = record { valid = v; keeps = λ c s h. h }

pub handle_wait_process-Goes :
    (k : Key) (ps : Process) (a : Agent)
    → IsFree k a ps.wait_chan
    → IsValid a
    → Goes a (handle_wait_process k ps a)
handle_wait_process-Goes k ps a free v =
    handle_wait_process-cases k ps a (Goes a) free
      (λ new. record { valid = insert-IsValid k ps a free new v; keeps = λ c s h. h })
      (λ c s w x y. record {
        valid = served-IsValid k c s a (subst (IsFree k a) w free) v;
        keeps = λ d t h.
            let other : c ≢ d =
              λ q. let e = (free c w).0 in cc (sym (ap (get_elem? a.wait_chans) q) ∙ e) in
            get_elem?-set_ne a.wait_chans (s ∷ []) other ∙ h;
      })

-- The channel of a process in the table is its own.
pub entry-IsFree :
    (k : Key) (ps : Process) (a : Agent)
    → lookup k a.procs ≡ some ps
    → IsValid a
    → IsFree k a ps.wait_chan
entry-IsFree k ps a e v = λ c w. (v.empty k ps c e w, λ j p f x. v.apart j k p ps c f e x w)

-- handleWaitProcess leaves the other entries as they are.
pub handle_wait_process-others :
    (k j : Key) (ps : Process) (a : Agent)
    → j ≢ k
    → lookup j (handle_wait_process k ps a).procs ≡ lookup j a.procs
unfolding handle_wait_process send_status
handle_wait_process-others k j ps a n =
    ground (arith, lookup-insert_ne k j ps a.procs n, lookup-delete_ne k j a.procs n)

-- What a loop over the table has still to go through is in the table as it was.
abbrev pub Agrees : List (Key × Process) → Agent → Type 0
Agrees [] a = Unit
Agrees ((k, ps) ∷ rest) a = (lookup k a.procs ≡ some ps) × Agrees rest a

pub handle_wait_process-Agrees :
    (k : Key) (ps : Process) (rest : List (Key × Process)) (a : Agent)
    → lookup k rest ≡ none
    → Agrees rest a
    → Agrees rest (handle_wait_process k ps a)
unfolding lookup
handle_wait_process-Agrees k ps [] a n g = g
handle_wait_process-Agrees k ps ((j, p) ∷ rest) a n (e, g) =
    let (other, behind) = lookup-cons_none k j p rest n in
    (
      handle_wait_process-others k j ps a (λ q. other (sym q)) ∙ e,
      handle_wait_process-Agrees k ps rest a behind g,
    )

pub update_each-Goes :
    (test : Process → Bool) (change : Process → Process) (rest : List (Key × Process)) (a : Agent)
    → ((ps : Process) → (change ps).wait_chan ≡ ps.wait_chan)
    → IsUnique rest
    → Agrees rest a
    → IsValid a
    → Goes a (update_each test change rest a)
unfolding update_each
update_each-Goes test change [] a w u g v = Goes-refl a v
update_each-Goes test change ((k, ps) ∷ rest) a w (n, u) (e, g) v =
    let t = handle_wait_process k (change ps) a in
    let free : IsFree k a (change ps).wait_chan =
      subst (IsFree k a) (sym (w ps)) (entry-IsFree k ps a e v) in
    let first = handle_wait_process-Goes k (change ps) a free v in
    if_cases (λ b. Goes a (update_each test change rest b)) (test ps) t a
      (λ y. Goes-trans a t (update_each test change rest t) first (
        update_each-Goes test change rest t w u
          (handle_wait_process-Agrees k (change ps) rest a n g) first.valid))
      (λ z. update_each-Goes test change rest a w u g v)

part-Agrees :
    (rest : List (Key × Process)) (a : Agent)
    → IsUnique rest
    → ((j : Key) (p : Process) → lookup j rest ≡ some p → lookup j a.procs ≡ some p)
    → Agrees rest a
part-Agrees [] a u h = tt
part-Agrees ((k, ps) ∷ rest) a (n, u) h = (
  h k ps (lookup-cons_self k ps rest),
  part-Agrees rest a u (λ j p e. h j p (lookup-cons_some k j ps p rest n e)),
)

pub procs-Agrees : (a : Agent) → IsUnique a.procs → Agrees a.procs a
procs-Agrees a u = part-Agrees a.procs a u (λ j p e. e)

pub update_table-Goes :
    (test : Process → Bool) (change : Process → Process) (a : Agent)
    → ((ps : Process) → (change ps).wait_chan ≡ ps.wait_chan)
    → IsValid a
    → Goes a (update_each test change a.procs a)
update_table-Goes test change a w v =
    update_each-Goes test change a.procs a w v.unique (procs-Agrees a v.unique) v

-- Only other fields change.
pub same-Goes :
    (a t : Agent)
    → t.procs ≡ a.procs
    → t.wait_chans ≡ a.wait_chans
    → t.blocked ≡ a.blocked
    → IsValid a
    → Goes a t
same-Goes a t p w b v = record {
  valid = record {
    unique = subst IsUnique (sym p) v.unique;
    empty =
        λ k ps c e x. ap (λ ch. get_elem? ch c) w ∙ v.empty k ps c (sym (ap (lookup k) p) ∙ e) x;
    apart =
        λ j k q r c e f. v.apart j k q r c (sym (ap (lookup j) p) ∙ e) (sym (ap (lookup k) p) ∙ f);
    pending = λ k ps c s e. v.pending k ps c s (sym (ap (lookup k) p) ∙ e);
    calm = b ∙ v.calm;
  };
  keeps = λ c s h. ap (λ ch. get_elem? ch c) w ∙ h;
}
