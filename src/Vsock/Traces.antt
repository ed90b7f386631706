-- ===== src/Vsock/Traces.antt =====
-- Histories of calls of the cid allocator of lib/vsock/vsock.go.
use runv.Prelude.{ℕ, ◌≡◌, ◌≢◌, ◌∙◌, true, List, [], ◌∷◌, arith}
use mathlib.Core.List.{Memᴰ}
use runv.Vsock.Roaring.{Bitmap}
use runv.Vsock.{Allocator, CidResult, cid, no_more, get_cid, mark_cid_inuse, release_cid}
use runv.Vsock.Usage.{in_use, IsValid, Gets, get_cid-Gets}

pub data Call : Type 0 where
  get : Call
  mark release : ℕ → Call

module _ (m : Bitmap) where
  open m use {contains, checked_add, contains-checked_add, contains-remove}

  -- The cid that a call hands out goes in front of `out`.
  abbrev granted : CidResult → List ℕ → List ℕ
  granted (cid c) out = c ∷ out
  granted (no_more c) out = out

  unfoldable pub run : Allocator m → List Call → Allocator m × List ℕ
  run a [] = (a, [])
  run a (get ∷ cs) = let (b, r) = get_cid m a in let (d, out) = run b cs in (d, granted r out)
  run a (mark c ∷ cs) = run (mark_cid_inuse m a c).0 cs
  run a (release c ∷ cs) = run (release_cid m a c) cs

  -- No call of the history gives `c` back.
  abbrev pub Keeps : ℕ → List Call → Type 0
  Keeps c [] = Unit {0}
  Keeps c (get ∷ cs) = Keeps c cs
  Keeps c (mark d ∷ cs) = Keeps c cs
  Keeps c (release d ∷ cs) = (d ≢ c) × Keeps c cs

  Gets-IsValid : (a b : Allocator m) (r : CidResult) → IsValid m a → Gets m a (b, r) → IsValid m b
  Gets-IsValid a b (cid c) v g = omega arith
  Gets-IsValid a b (no_more c) v g = omega arith

  -- `GetCid` keeps the allocator valid.
  pub get_cid-IsValid : (a : Allocator m) → IsValid m a → IsValid m (get_cid m a).0
  get_cid-IsValid a v = Gets-IsValid a (get_cid m a).0 (get_cid m a).1 v (get_cid-Gets m a v)

  pub mark-IsValid : (a : Allocator m) (c : ℕ) → IsValid m a → IsValid m (mark_cid_inuse m a c).0
  unfolding mark_cid_inuse
  mark-IsValid a c v = omega arith

  pub release-IsValid : (a : Allocator m) (c : ℕ) → IsValid m a → IsValid m (release_cid m a c)
  unfolding release_cid
  release-IsValid a c v = omega arith

  -- Any history of calls keeps the allocator valid.
  pub run-IsValid : (a : Allocator m) (cs : List Call) → IsValid m a → IsValid m (run a cs).0
  unfolding run
  run-IsValid a [] v = v
  run-IsValid a (get ∷ cs) v = run-IsValid (get_cid m a).0 cs (get_cid-IsValid a v)
  run-IsValid a (mark c ∷ cs) v = run-IsValid (mark_cid_inuse m a c).0 cs (mark-IsValid a c v)
  run-IsValid a (release c ∷ cs) v = run-IsValid (release_cid m a c) cs (release-IsValid a c v)

  Gets-in_use :
      (a b : Allocator m) (r : CidResult) (d : ℕ)
      → Gets m a (b, r)
      → in_use m a d ≡ true
      → in_use m b d ≡ true
  Gets-in_use a b (cid c) d g u = ground (arith, g.taken d)
  Gets-in_use a b (no_more c) d g u = g.same_use d ∙ u

  mark-in_use :
      (a : Allocator m) (c d : ℕ) → in_use m a d ≡ true → in_use m (mark_cid_inuse m a c).0 d ≡ true
  unfolding mark_cid_inuse
  mark-in_use a c d u = ground (arith, contains-checked_add a.bitmap c d)

  release-in_use :
      (a : Allocator m) (c d : ℕ)
      → c ≢ d
      → in_use m a d ≡ true
      → in_use m (release_cid m a c) d ≡ true
  unfolding release_cid
  release-in_use a c d n u = ground (arith, contains-remove a.bitmap c d)

  ungranted :
      (a b : Allocator m) (r : CidResult) (d : ℕ) (out : List ℕ)
      → Gets m a (b, r)
      → in_use m a d ≡ true
      → ¬ Memᴰ d out
      → ¬ Memᴰ d (granted r out)
  ungranted a b (cid c) d out g u n (Memᴰ.head e) = ground (arith, g.was_free)
  ungranted a b (cid c) d out g u n (Memᴰ.tail t) = n t
  ungranted a b (no_more c) d out g u n t = n t

  -- A cid in use that no call of a history gives back is not handed out by any call of it, and is
  -- in use at its end.
  pub run-in_use :
      (a : Allocator m) (cs : List Call) (d : ℕ)
      → IsValid m a
      → in_use m a d ≡ true
      → Keeps d cs
      → (¬ Memᴰ d (run a cs).1) × (in_use m (run a cs).0 d ≡ true)
  unfolding run
  run-in_use a [] d v u k = ((λ t. elim t [ ]), u)
  run-in_use a (get ∷ cs) d v u k =
      let g = get_cid-Gets m a v in
      let b = (get_cid m a).0 in
      let ih = run-in_use b cs d (get_cid-IsValid a v) (Gets-in_use a b (get_cid m a).1 d g u) k in
      (ungranted a b (get_cid m a).1 d (run b cs).1 g u ih.0, ih.1)
  run-in_use a (mark c ∷ cs) d v u k =
      run-in_use (mark_cid_inuse m a c).0 cs d (mark-IsValid a c v) (mark-in_use a c d u) k
  run-in_use a (release c ∷ cs) d v u k =
      run-in_use (release_cid m a c) cs d (release-IsValid a c v) (release-in_use a c d k.0 u) k.1

  release-Gets :
      (a b : Allocator m) (r : CidResult) (c d : ℕ)
      → Gets m a (b, r)
      → r ≡ cid c
      → in_use m (release_cid m b c) d ≡ in_use m a d
  unfolding release_cid
  release-Gets a b (cid x) c d g e =
      ground (arith, contains-remove b.bitmap c d, g.taken d, g.was_free)
  release-Gets a b (no_more x) c d g e = cc

  -- A cid that `GetCid` returned is free again after `ReleaseCid`, and then every cid is in use
  -- exactly when it was before the two calls.
  pub release_cid-get_cid :
      (a : Allocator m) (c : ℕ)
      → IsValid m a
      → (get_cid m a).1 ≡ cid c
      → (d : ℕ) → in_use m (release_cid m (get_cid m a).0 c) d ≡ in_use m a d
  release_cid-get_cid a c v e d =
      release-Gets a (get_cid m a).0 (get_cid m a).1 c d (get_cid-Gets m a v) e
