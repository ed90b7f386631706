-- ===== src/Hyperstart/RoundTrip.antt =====
-- Frames and how the reads of a stream cut them (agent/hyperstart.go).
use runv.Prelude.{
  ℕ, zero, suc, ◌+◌, ◌-◌, ◌≤◌, ◌<◌, ◌≡◌, refl, ap, sym, ◌∙◌, List, [], ◌∷◌, ◌++◌, if◌then◌else◌,
  leb, ◌==◌, length, take, drop, arith, if_cases, Bool-cases, inl, inr, ◌⊎◌, length-append,
  append_assoc, append_nil, drop_prefix, length_zero, length-drop, take-append-drop,
}
use runv.Hyperstart.{
  put_uint32, uint32, new_vm_message, message, at_most, learn, read_loop, read_vm_message, Read,
  frame, failed, put_uint64, uint64, to_buffer, read_tty_message,
}

take_prefix : (n : ℕ) (xs ys : List ℕ) → n ≤ length xs → take n (xs ++ ys) ≡ take n xs
take_prefix zero xs ys h = refl
take_prefix (suc n) [] ys h = absurd (omega (arith, h))
take_prefix (suc n) (x ∷ xs) ys h = ap (◌∷◌ x) (take_prefix n xs ys (omega (arith, h)))

-- The length in the header of what has been read is that of the frame.
uint32_prefix : (xs ys : List ℕ) → 4 ≤ length xs → uint32 (xs ++ ys) ≡ uint32 xs
unfolding uint32
uint32_prefix (a ∷ b ∷ c ∷ d ∷ xs) ys l = refl
uint32_prefix (a ∷ b ∷ c ∷ []) ys l = absurd (omega (arith, l))
uint32_prefix (a ∷ b ∷ []) ys l = absurd (omega (arith, l))
uint32_prefix (a ∷ []) ys l = absurd (omega (arith, l))
uint32_prefix [] ys l = absurd (omega (arith, l))

header_prefix :
    (k : ℕ) (xs ys : List ℕ) → k + 4 ≤ length xs → uint32 (drop k (xs ++ ys)) ≡ uint32 (drop k xs)
header_prefix k xs ys l =
    ap uint32 (drop_prefix k xs ys (omega (arith, l)))
    ∙ uint32_prefix (drop k xs) ys (omega (arith, l, length-drop k xs))

pub uint32-put_uint32 : (n : ℕ) (rest : List ℕ) → n < 4294967296 → uint32 (put_uint32 n ++ rest) ≡ n
unfolding uint32 put_uint32
uint32-put_uint32 n rest l = omega (arith, l)

-- A frame whose header tells its length.
module _ (header : ℕ) (four : 4 ≤ header) (more : ℕ → ℕ) (bytes rest : List ℕ)
    (long : header ≤ length bytes) (head : uint32 (drop (header - 4) bytes) ≡ length bytes) where
  -- `needRead` and `length`, before the header is there and after.
  abbrev Knows : ℕ → ℕ → List ℕ → Type 0
  Knows len need res =
      ((length res < header) × (need ≡ header) × (len ≡ 0))
      ⊎ ((header ≤ length res) × (need ≡ length bytes) × (len ≡ length bytes))

  learn-Knows :
      (len need : ℕ) (res res' tail : List ℕ)
      → length res ≤ length res'
      → res' ++ tail ≡ bytes
      → Knows len need res
      → Knows (learn header len need res').0 (learn header len need res').1 res'
  unfolding learn
  learn-Knows len need res res' tail l e k =
      let told : header ≤ length res' → uint32 (drop (header - 4) res') ≡ length bytes = λ h.
        sym (header_prefix (header - 4) res' tail (omega (arith, h, four)))
        ∙ ap (λ xs. uint32 (drop (header - 4) xs)) e
        ∙ head in
      elim k [
        | inl (a, b, c) ↦ elim (Bool-cases (leb header (length res'))) [
          | inl y ↦
              let t = told (ground arith) in
              let sum : length res' + length tail ≡ length bytes =
                sym (length-append res' tail) ∙ ap (λ (xs : List ℕ). length xs) e in
              inr (ground arith, ground arith, ground arith)
          | inr n ↦ inl (ground arith, ground arith, ground arith)
        ]
        | inr (a, b, c) ↦ inr (omega (arith, a, l), ground arith, ground arith)
      ]

  loop_lem :
      (fuel len need : ℕ) (res tail : List ℕ)
      → res ++ tail ≡ bytes
      → Knows len need res
      → length tail < fuel
      → read_loop header more fuel len need res (tail ++ rest) ≡ frame bytes rest
  unfolding read_loop
  loop_lem zero len need res tail e k l = elim l [ ]
  loop_lem (suc fuel) len need res tail e k l =
      let sum : length res + length tail ≡ length bytes =
        sym (length-append res tail) ∙ ap (λ (xs : List ℕ). length xs) e in
      let stream = tail ++ rest in
      let there : length stream ≡ length tail + length rest = length-append tail rest in
      let want = at_most (need - length res) 512 in
      let nr = at_most (at_most want (suc (more (length res)))) (length stream) in
      let res' = res ++ take nr stream in
      let next = learn header len need res' in
      let goal : Read = frame bytes rest in
      let go_on = read_loop header more fuel next.0 next.1 res' (drop nr stream) in
      let needed : length res < need → need - length res ≤ length tail = λ h. elim k [
        | inl (a, b, c) ↦ omega (arith, sum, b, long)
        | inr (a, b, c) ↦ omega (arith, sum, b)
      ] in
      if_cases (λ o. o ≡ goal) (leb need (length res)) (frame res stream)
        (if length stream == 0 then failed else go_on)
        (λ y.
          let none_left : length tail ≡ 0 = elim k [
            | inl (a, b, c) ↦ ground (arith, y, a, b)
            | inr (a, b, c) ↦ ground (arith, y, b, sum)
          ] in
          let t = length_zero tail none_left in
          let whole : res ≡ bytes = sym (append_nil res) ∙ ap (λ xs. res ++ xs) (sym t) ∙ e in
          ap (λ xs. frame xs stream) whole ∙ ap (λ xs. frame bytes (xs ++ rest)) t)
        (λ n.
          let behind : length res < need = ground (arith, n) in
          let wanted = needed behind in
          let some_left : (1 ≤ nr) × (nr ≤ length tail) =
            (ground (arith, wanted, there, behind), ground (arith, wanted, there)) in
          let cut : drop nr stream ≡ drop nr tail ++ rest = drop_prefix nr tail rest some_left.1 in
          let got : take nr stream ≡ take nr tail = take_prefix nr tail rest some_left.1 in
          let joined : res' ++ drop nr tail ≡ bytes =
            append_assoc res (take nr stream) (drop nr tail)
            ∙ ap (λ xs. res ++ (xs ++ drop nr tail)) got
            ∙ ap (λ xs. res ++ xs) (take-append-drop nr tail)
            ∙ e in
          let longer : length res ≤ length res' =
            omega (arith, length-append res (take nr stream)) in
          let less : length (drop nr tail) < fuel =
            omega (arith, length-drop nr tail, l, some_left.0, some_left.1) in
          if_cases (λ o. o ≡ goal) (length stream == 0) failed go_on
            (λ z. absurd (ground (arith, z, there, some_left.0, some_left.1)))
            (λ _.
              ap (read_loop header more fuel next.0 next.1 res') cut
              ∙ loop_lem fuel next.0 next.1 res' (drop nr tail) joined
                  (learn-Knows len need res res' (drop nr tail) longer joined k) less))

uint64-put_uint64 :
    (n : ℕ) (rest : List ℕ) → n < 18446744073709551616 → uint64 (put_uint64 n ++ rest) ≡ n
unfolding uint64 put_uint64 put_uint32 uint32
uint64-put_uint64 n rest l = omega (arith, l)

-- Whatever a read returns of the bytes that are wanted and there, one at least, readVmMessage reads
-- the code and the bytes of a message back that newVmMessage framed, and leaves what follows the
-- frame unread. (The code has 32 bits, and the frame is shorter than 4 GiB.)
pub read_vm_message-new_vm_message :
    (more : ℕ → ℕ) (code : ℕ) (text rest : List ℕ)
    → code < 4294967296
    → length text + 8 < 4294967296
    → read_vm_message more (new_vm_message code text ++ rest) ≡ message code text rest
unfolding read_vm_message new_vm_message put_uint32
read_vm_message-new_vm_message more code text rest c l =
    let bytes = new_vm_message code text in
    let size : length bytes ≡ length text + 8 = omega arith in
    let head : uint32 (drop 4 bytes) ≡ length bytes =
      uint32-put_uint32 (length text + 8) text l ∙ sym size in
    let first : uint32 bytes ≡ code =
      uint32-put_uint32 code (put_uint32 (length text + 8) ++ text) c in
    let whole =
      loop_lem 8 (omega arith) more bytes rest (omega arith) head (suc (length (bytes ++ rest))) 0 8
        [] bytes refl (inl (omega arith, refl, refl)) (omega (arith, length-append bytes rest)) in
    rw (whole, read_vm_message) (ap (λ n. message n text rest) first)

-- Whatever a read returns of the bytes that are wanted and there, one at least, readTtyMessage reads
-- the stream's number and the bytes of a message back that ToBuffer framed, and leaves what follows
-- the frame unread. (The number has 64 bits, and the frame is shorter than 4 GiB.)
pub read_tty_message-to_buffer :
    (more : ℕ → ℕ) (session : ℕ) (text rest : List ℕ)
    → session < 18446744073709551616
    → length text + 12 < 4294967296
    → read_tty_message more (to_buffer session text ++ rest) ≡ message session text rest
unfolding read_tty_message to_buffer put_uint64 put_uint32
read_tty_message-to_buffer more session text rest c l =
    let bytes = to_buffer session text in
    let size : length bytes ≡ length text + 12 = omega arith in
    let head : uint32 (drop 8 bytes) ≡ length bytes =
      uint32-put_uint32 (length text + 12) text l ∙ sym size in
    let first : uint64 bytes ≡ session =
      uint64-put_uint64 session (put_uint32 (length text + 12) ++ text) c in
    let whole =
      loop_lem 12 (omega arith) more bytes rest (omega arith) head (suc (length (bytes ++ rest))) 0
        12 [] bytes refl (inl (omega arith, refl, refl))
        (omega (arith, length-append bytes rest)) in
    rw (whole, read_tty_message) (ap (λ n. message n text rest) first)
