-- ===== src/Hyperstart/Queue/Valid.antt =====
-- The frames and the callers of a queue, and operations that keep them in order
-- (agent/hyperstart.go).
use runv.Prelude.{
  ℕ, ◌+◌, ◌≤◌, ◌≡◌, refl, ap, ◌∙◌, sym, Bool, true, false, ◌&&◌, not, none, List, [], ◌∷◌, ◌++◌,
  if◌then◌else◌, ltb, ◌==◌, ==_iff, length, take, drop, arith, if_cases, option_cases, list_cases,
  append_assoc, append_nil, take-append-drop,
}
use runv.Hyperstart.{at_most}
use runv.Hyperstart.Commands.{
  Answer, acked, refused, done, pausing_error, marshal_error, old_error, closed_error,
  init_destroypod,
}
use runv.Hyperstart.Queue.{
  Queued, Queue, reply, end_pausing, end_pausing_if_idle, handle_answer, write_data,
}

-- The frames of the commands that were taken, one after the other, and their callers.
abbrev pub frames : List (ℕ × List ℕ) → List ℕ
frames [] = []
frames ((c, f) ∷ xs) = f ++ frames xs

abbrev pub callers : List (ℕ × List ℕ) → List ℕ
callers [] = []
callers ((c, f) ∷ xs) = c ∷ callers xs

abbrev pub results : List Queued → List ℕ
results [] = []
results (d ∷ cs) = d.result ∷ results cs

-- The callers whom an answer of the guest was given to.
abbrev pub served : List (ℕ × Answer) → List ℕ
served [] = []
served ((c, acked m) ∷ xs) = c ∷ served xs
served ((c, refused m) ∷ xs) = c ∷ served xs
served ((c, _) ∷ xs) = served xs

pub frames-append : (xs ys : List (ℕ × List ℕ)) → frames (xs ++ ys) ≡ frames xs ++ frames ys
frames-append [] ys = refl
frames-append ((c, f) ∷ xs) ys =
    ap (◌++◌ f) (frames-append xs ys) ∙ sym (append_assoc f (frames xs) (frames ys))

pub callers-append : (xs ys : List (ℕ × List ℕ)) → callers (xs ++ ys) ≡ callers xs ++ callers ys
callers-append [] ys = refl
callers-append ((c, f) ∷ xs) ys = ap (◌∷◌ c) (callers-append xs ys)

pub results-append : (xs ys : List Queued) → results (xs ++ ys) ≡ results xs ++ results ys
results-append [] ys = refl
results-append (d ∷ xs) ys = ap (◌∷◌ d.result) (results-append xs ys)

served-append : (xs ys : List (ℕ × Answer)) → served (xs ++ ys) ≡ served xs ++ served ys
served-append [] ys = refl
served-append ((c, acked m) ∷ xs) ys = ap (◌∷◌ c) (served-append xs ys)
served-append ((c, refused m) ∷ xs) ys = ap (◌∷◌ c) (served-append xs ys)
served-append ((c, done) ∷ xs) ys = served-append xs ys
served-append ((c, pausing_error) ∷ xs) ys = served-append xs ys
served-append ((c, marshal_error) ∷ xs) ys = served-append xs ys
served-append ((c, old_error) ∷ xs) ys = served-append xs ys
served-append ((c, closed_error) ∷ xs) ys = served-append xs ys

pub record IsValid (q : Queue) : Type 0 where
  pub stream : q.written ++ drop q.index q.data_left ≡ frames q.taken
  pub inside : q.index ≤ length q.data_left
  pub small : q.index ≤ 512
  pub order : served q.sent ++ results q.cmds ≡ callers q.taken

-- Only other fields change.
pub same-IsValid :
    (q t : Queue)
    → t.written ≡ q.written
    → t.data_left ≡ q.data_left
    → t.index ≡ q.index
    → t.taken ≡ q.taken
    → served t.sent ≡ served q.sent
    → t.cmds ≡ q.cmds
    → IsValid q
    → IsValid t
same-IsValid q t w d i k s c v = record {
  stream = rw (w, d, i, k) (v.stream);
  inside = omega (arith, v.inside, i, ap length d);
  small = omega (arith, v.small, i);
  order = rw (s, c, k) (v.order);
}

-- An answer that is not the guest's.
abbrev pub is_own : Answer → Bool
is_own (acked m) = false
is_own (refused m) = false
is_own _ = true

served-own :
    (xs : List (ℕ × Answer)) (c : ℕ) (a : Answer)
    → is_own a ≡ true
    → served (xs ++ (c, a) ∷ []) ≡ served xs
served-own xs c (acked m) h = cc
served-own xs c (refused m) h = cc
served-own xs c done h = served-append xs ((c, done) ∷ []) ∙ append_nil (served xs)
served-own xs c pausing_error h =
    served-append xs ((c, pausing_error) ∷ []) ∙ append_nil (served xs)
served-own xs c marshal_error h =
    served-append xs ((c, marshal_error) ∷ []) ∙ append_nil (served xs)
served-own xs c old_error h = served-append xs ((c, old_error) ∷ []) ∙ append_nil (served xs)
served-own xs c closed_error h = served-append xs ((c, closed_error) ∷ []) ∙ append_nil (served xs)

pub reply-IsValid :
    (c : ℕ) (a : Answer) (q : Queue) → is_own a ≡ true → IsValid q → IsValid (reply c a q)
unfolding reply
reply-IsValid c a q h v = same-IsValid q _ refl refl refl refl (served-own q.sent c a h) refl v

pub end_pausing-IsValid : (q : Queue) → IsValid q → IsValid (end_pausing q)
unfolding end_pausing
end_pausing-IsValid q v =
    option_cases IsValid q.pausing q (λ c. record (reply c done q) { pausing = none }) (λ e. v)
      (λ c e.
        same-IsValid (reply c done q) _ refl refl refl refl refl refl
          (reply-IsValid c done q refl v))

pub end_pausing_if_idle-IsValid : (q : Queue) → IsValid q → IsValid (end_pausing_if_idle q)
unfolding end_pausing_if_idle
end_pausing_if_idle-IsValid q v =
    list_cases IsValid q.cmds (end_pausing q) (λ c cs. q) (λ e. end_pausing-IsValid q v)
      (λ c cs e. v)

pub handle_answer-IsValid :
    (ok : Bool) (ret_msg : List ℕ) (q : Queue) → IsValid q → IsValid (handle_answer ok ret_msg q)
unfolding handle_answer reply
handle_answer-IsValid ok ret_msg q v =
    let a : Answer = if ok then acked ret_msg else refused ret_msg in
    let guest : (c : ℕ) → served ((c, a) ∷ []) ≡ c ∷ [] = λ c.
      if_cases (λ (a : Answer). served ((c, a) ∷ []) ≡ c ∷ []) ok _ _ (λ y. refl) (λ n. refl) in
    let told : Queued → List Queued → Queue = λ d ds. record (reply d.result a q) {
      looping = q.looping && not (d.code == init_destroypod);
      cmds = ds;
    } in
    list_cases IsValid q.cmds q (λ d ds. end_pausing_if_idle (told d ds)) (λ e. v)
      (λ d ds e.
        let order : served (q.sent ++ (d.result, a) ∷ []) ++ results ds ≡ callers q.taken =
          ap (λ xs. xs ++ results ds)
            (served-append q.sent ((d.result, a) ∷ []) ∙ ap (◌++◌ (served q.sent)) (guest d.result))
          ∙ append_assoc (served q.sent) (d.result ∷ []) (results ds)
          ∙ ap (λ cs. served q.sent ++ results cs) (sym e)
          ∙ v.order in
        end_pausing_if_idle-IsValid (told d ds)
          record { stream = v.stream; inside = v.inside; small = v.small; order = order })

pub write_data-IsValid : (accepts : ℕ) (q : Queue) → IsValid q → IsValid (write_data accepts q)
unfolding write_data
write_data-IsValid accepts q v =
    let w = at_most accepts (at_most (length q.data_left) 512) in
    let t : Queue = record q { index = q.index + w; written = q.written ++ take w q.data_left } in
    let wrote : q.index ≡ 0 → IsValid t = λ z.
      let here : q.index + w ≡ w = omega (arith, z) in
      record {
        stream =
            append_assoc q.written (take w q.data_left) (drop (q.index + w) q.data_left)
            ∙ ap (λ i. q.written ++ (take w q.data_left ++ drop i q.data_left)) here
            ∙ ap (◌++◌ q.written) (take-append-drop w q.data_left)
            ∙ ap (λ i. q.written ++ drop i q.data_left) (sym z)
            ∙ v.stream;
        inside = ground (arith, z);
        small = ground (arith, z);
        order = v.order;
      } in
    if_cases IsValid ((q.index == 0) && ltb 0 (length q.data_left)) t q
      (λ y. wrote ((==_iff q.index 0).0 (ground (arith, y)))) (λ n. v)
