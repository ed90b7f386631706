-- ===== src/Factory/Drained.antt =====
-- The end of the cache's closing (factory/cache).
use runv.Prelude.{
  ℕ, zero, suc, ◌<◌, ◌≡◌, refl, ap, sym, ◌∙◌, true, false, none, some, List, [], ◌∷◌, ltb, ◌==◌,
  ==_iff, get_elem?, length, arith, if_cases, option_cases,
}
use runv.Factory.Cache.{
  waiting, shut, Cache, new_cache, close_once, close_factory, close_next, base_failed, worker_ends,
  Move, failed, ended, closing, step, run,
}
use runv.Factory.Workers.{
  IsSound, not_ltb→le, length-remove_at, base_failed-IsSound, worker_ends-IsSound, run-IsSound,
  new_cache-IsSound,
}

true_is_false : true ≡ false → ⊥
true_is_false e = cc

-- The rest of the closing: `g` failures of the lower layer, `h` workers that take a signal, and
-- wg.Wait.
abbrev pub last_moves : ℕ → ℕ → List Move
last_moves zero zero = closing ∷ []
last_moves zero (suc h) = ended 0 ∷ last_moves zero h
last_moves (suc g) h = failed ∷ last_moves g h

first : (ws : List ℕ) (h : ℕ) → length ws ≡ suc h → get_elem? ws 0 ≡ none → true ≡ false
first [] h e n = let q : ⊥ = omega (arith, e) in absurd q
first (w ∷ ws) h e n = cc

-- The state reaches its end.
abbrev Shuts : List Move → Cache → Type 0
Shuts ms c = (run ms c).stage ≡ shut

last_moves-Shuts :
    (g h : ℕ) (c : Cache)
    → IsSound c
    → c.getting ≡ g
    → length c.holding ≡ h
    → c.stage ≡ waiting
    → Shuts (last_moves g h) c
unfolding run step base_failed close_factory close_once worker_ends close_next
last_moves-Shuts zero zero c s p q e =
    let zeroed : c.counter ≡ 0 = omega (arith, s.members) in
    ap (λ t. (close_next t c).stage) e
    ∙ if_cases (λ (d : Cache). d.stage ≡ shut) (c.counter == 0) _ c (λ y. refl)
        (λ n. absurd (true_is_false (sym ((==_iff c.counter 0).1 zeroed) ∙ n)))
last_moves-Shuts zero (suc h) c s p q e =
    let sound = worker_ends-IsSound 0 c s in
    let due : 0 < c.signals = omega (arith, s.members, s.enough e) in
    option_cases (λ (d : Cache). IsSound d → Shuts (last_moves zero h) d) (get_elem? c.holding 0) c
      _ (λ n. absurd (true_is_false (first c.holding h q n)))
      (λ vm w.
        if_cases (λ (d : Cache). IsSound d → Shuts (last_moves zero h) d) (ltb 0 c.signals) _ c
          (λ y t.
            last_moves-Shuts zero h _ t p (omega (arith, length-remove_at c.holding 0 vm w)) e)
          (λ n. absurd (omega (arith, not_ltb→le 0 c.signals n))))
      sound
last_moves-Shuts (suc g) h c s p q e =
    let sound = base_failed-IsSound c s in
    if_cases (λ (d : Cache). IsSound d → Shuts (last_moves g h) d) (ltb 0 c.getting) _ c
      (λ y t. last_moves-Shuts g h _ t (omega arith) q (ap close_once e))
      (λ n. absurd (omega (arith, not_ltb→le 0 c.getting n))) sound

-- Whatever history of a cache led to the wait of CloseFactory for the workers, it is through once
-- the lower layer has failed for each worker that calls it and each other worker has taken a signal.
pub run-shuts :
    (n : ℕ) (c : Cache) (ms : List Move)
    → new_cache n ≡ some c
    → (run ms c).stage ≡ waiting
    → let d = run ms c in (run (last_moves d.getting (length d.holding)) d).stage ≡ shut
run-shuts n c ms h w =
    let d = run ms c in
    last_moves-Shuts d.getting (length d.holding) d (run-IsSound ms c (new_cache-IsSound n c h))
      refl refl w
