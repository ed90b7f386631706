-- ===== src/Vsock/Usage.antt =====
-- Which cids `GetCid` of lib/vsock/vsock.go takes, and when it fails.
use runv.Prelude.{
  ℕ, zero, suc, ◌+◌, ◌-◌, ◌%◌, ◌≤◌, ◌<◌, ◌≡◌, refl, Bool, true, false, inl, inr, ◌==◌, leb,
  if◌then◌else◌, arith, Bool-cases, sym, ◌∙◌,
}
use runv.Vsock.Roaring.{Bitmap}
use runv.Vsock.{
  Allocator, CidResult, cid, no_more, candidate, scan, get_cid, new_allocator, u32_mod,
}

module _ (m : Bitmap) where
  open m use {contains, checked_add, checked_add_fresh, contains-checked_add, contains-remove}

  abbrev pub in_use : Allocator m → ℕ → Bool
  in_use a c = contains a.bitmap c

  -- The pivot lies in the range or just behind it, and no sum of the loop wraps.
  pub record IsValid (a : Allocator m) : Type 0 where
    pub pivot_above : a.start ≤ a.pivot
    pub pivot_below : a.pivot ≤ a.start + a.size
    pub no_wrap : a.start + a.size + a.size ≤ u32_mod
    pub inside : a.start + a.size < u32_mod

  pub new_allocator-IsValid : IsValid (new_allocator m)
  unfolding new_allocator
  new_allocator-IsValid = omega arith

  abbrev InRange : Allocator m → ℕ → Type 0
  InRange a c = (a.start ≤ c) × (c < a.start + a.size)

  -- What round `i` tries, without the arithmetic of a machine word.
  abbrev rotated : Allocator m → ℕ → ℕ
  rotated a i = if leb (a.start + a.size) (a.pivot + i) then a.pivot + i - a.size else a.pivot + i

  candidate_lem : (a : Allocator m) (i : ℕ) → IsValid a → i < a.size → candidate m a i ≡ rotated a i
  unfolding candidate
  candidate_lem a i v h = ground arith

  -- The loop finds a free cid that round `i` or a later one tries.
  pub record Took (a b : Allocator m) (c : ℕ) : Type 0 where
    pub above : a.start ≤ c
    pub below : c < a.start + a.size
    pub was_free : in_use a c ≡ false
    pub taken : (d : ℕ) → in_use b d ≡ (if c == d then true else in_use a d)
    pub same_start : b.start ≡ a.start
    pub same_size : b.size ≡ a.size
    pub next_pivot : b.pivot ≡ c + 1

  -- The loop tried all of its rounds in vain.
  pub record Exhausted (a b : Allocator m) (rounds i : ℕ) : Type 0 where
    pub all_taken : (j : ℕ) → i ≤ j → j < i + rounds → in_use a (candidate m a j) ≡ true
    pub same_use : (d : ℕ) → in_use b d ≡ in_use a d
    pub same_start : b.start ≡ a.start
    pub same_size : b.size ≡ a.size
    pub same_pivot : b.pivot ≡ a.pivot

  abbrev pub Outcome : Allocator m → ℕ → ℕ → Allocator m × CidResult → Type 0
  Outcome a rounds i (b, cid c) = Took a b c
  Outcome a rounds i (b, no_more c) = Exhausted a b rounds i

  same_of_taken :
      (a : Allocator m) (c d : ℕ)
      → in_use a c ≡ true
      → contains (checked_add a.bitmap c).0 d ≡ in_use a d
  same_of_taken a c d t = ground (arith, contains-checked_add a.bitmap c d)

  candidate_same :
      (a b : Allocator m) (j : ℕ)
      → b.start ≡ a.start
      → b.size ≡ a.size
      → b.pivot ≡ a.pivot
      → candidate m b j ≡ candidate m a j
  unfolding candidate
  candidate_same a b j s z p = rw (s, z, p) refl

  scan_taken :
      (rounds i last : ℕ) (a : Allocator m)
      → in_use a (candidate m a i) ≡ true
      → scan m (suc rounds) i last a
        ≡ scan m rounds
            (i + 1)
            (candidate m a i)
            (record a { bitmap = (checked_add a.bitmap (candidate m a i)).0 })
  unfolding scan
  scan_taken rounds i last a t = ground (arith, checked_add_fresh a.bitmap (candidate m a i))

  scan_free :
      (rounds i last : ℕ) (a : Allocator m)
      → in_use a (candidate m a i) ≡ false
      → let c = candidate m a i in
        scan m (suc rounds) i last a
        ≡ (record a { bitmap = (checked_add a.bitmap c).0; pivot = (c + 1) % u32_mod }, cid c)
  unfolding scan
  scan_free rounds i last a f = ground (arith, checked_add_fresh a.bitmap (candidate m a i))

  candidate-InRange :
      (a : Allocator m) (i : ℕ) → IsValid a → i < a.size → InRange a (candidate m a i)
  candidate-InRange a i v h = ground (arith, candidate_lem a i v h)

  -- One more round in vain in front of an outcome.
  widen :
      (a b : Allocator m) (rounds i : ℕ) (r : Allocator m × CidResult)
      → ((d : ℕ) → in_use b d ≡ in_use a d)
      → b.start ≡ a.start
      → b.size ≡ a.size
      → b.pivot ≡ a.pivot
      → in_use a (candidate m a i) ≡ true
      → Outcome b rounds (i + 1) r
      → Outcome a (suc rounds) i r
  widen a b rounds i (c, cid x) u s z p t o = record {
    above = omega arith;
    below = omega arith;
    was_free = sym (u x) ∙ o.was_free;
    taken = λ d. o.taken d ∙ ground (arith, u d);
    same_start = o.same_start ∙ s;
    same_size = o.same_size ∙ z;
    next_pivot = o.next_pivot;
  }
  widen a b rounds i (c, no_more x) u s z p t o = record {
    all_taken =
        λ j l h. ground (arith, o.all_taken j, u (candidate m a j), candidate_same a b j s z p);
    same_use = λ d. o.same_use d ∙ u d;
    same_start = o.same_start ∙ s;
    same_size = o.same_size ∙ z;
    same_pivot = o.same_pivot ∙ p;
  }

  scan-Outcome :
      (rounds i last : ℕ) (a : Allocator m)
      → IsValid a
      → i + rounds ≤ a.size
      → Outcome a rounds i (scan m rounds i last a)
  unfolding scan
  scan-Outcome zero i last a v h = record {
    all_taken = λ j l k. absurd (omega arith);
    same_use = λ d. refl;
    same_start = refl;
    same_size = refl;
    same_pivot = refl;
  }
  scan-Outcome (suc rounds) i last a v h = elim (Bool-cases (in_use a (candidate m a i))) [
    | inl t ↦
        let c = candidate m a i in
        let b = record a { bitmap = (checked_add a.bitmap c).0 } in
        rw (scan_taken rounds i last a t) (
          widen a b rounds i (scan m rounds (i + 1) c b) (λ d. same_of_taken a c d t) refl refl refl
            t
            (scan-Outcome rounds (i + 1) c b
              (record {
                pivot_above = v.pivot_above;
                pivot_below = v.pivot_below;
                no_wrap = v.no_wrap;
                inside = v.inside;
              })
              (omega arith)))
    | inr f ↦
        let (above, below) = candidate-InRange a i v (omega arith) in
        rw (scan_free rounds i last a f) (record {
          above = above;
          below = below;
          was_free = f;
          taken = λ d. contains-checked_add a.bitmap (candidate m a i) d;
          same_start = refl;
          same_size = refl;
          next_pivot = omega (arith, v.inside, below);
        })
  ]

  -- Every cid of the range is tried in some round.
  round_of : Allocator m → ℕ → ℕ
  round_of a c = if leb a.pivot c then c - a.pivot else c + a.size - a.pivot

  candidate-round_of :
      (a : Allocator m) (c : ℕ)
      → IsValid a
      → InRange a c
      → (round_of a c < a.size) × (candidate m a (round_of a c) ≡ c)
  unfolding round_of
  candidate-round_of a c v r = ground (arith, candidate_lem a (round_of a c) v)

  -- No cid of the range is free, and nothing changed.
  pub record Full (a b : Allocator m) : Type 0 where
    pub all_taken : (d : ℕ) → a.start ≤ d → d < a.start + a.size → in_use a d ≡ true
    pub same_use : (d : ℕ) → in_use b d ≡ in_use a d
    pub same_start : b.start ≡ a.start
    pub same_size : b.size ≡ a.size
    pub same_pivot : b.pivot ≡ a.pivot

  abbrev pub Gets : Allocator m → Allocator m × CidResult → Type 0
  Gets a (b, cid c) = Took a b c
  Gets a (b, no_more c) = Full a b

  Outcome→Gets :
      (a : Allocator m) (r : Allocator m × CidResult) → IsValid a → Outcome a a.size 0 r → Gets a r
  Outcome→Gets a (b, cid c) v o = o
  Outcome→Gets a (b, no_more c) v o = record {
    all_taken = λ d l h.
        let (lt, e) = candidate-round_of a d v (l, h) in
        rw e at (o.all_taken (round_of a d) (omega arith) (omega (arith, lt)));
    same_use = o.same_use;
    same_start = o.same_start;
    same_size = o.same_size;
    same_pivot = o.same_pivot;
  }

  -- From a valid allocator, `GetCid` either returns a cid of the range that was free, takes that
  -- cid and no other, and moves the pivot just behind it; or it returns the error, and then every
  -- cid of the range is in use, and the cids in use, the range and the pivot are as before.
  pub get_cid-Gets : (a : Allocator m) → IsValid a → Gets a (get_cid m a)
  unfolding get_cid
  get_cid-Gets a v =
      Outcome→Gets a (scan m a.size 0 0 a) v (scan-Outcome a.size 0 0 a v (omega arith))
