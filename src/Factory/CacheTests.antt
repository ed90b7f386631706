-- ===== src/Factory/CacheTests.antt =====
-- A cache of two workers that is closed (factory/cache).
use runv.Prelude.{ℕ, ◌+◌, ◌≤◌, ◌≡◌, refl, some, [], ◌∷◌, List, length}
use runv.Factory.Cache.{
  waiting, shut, start, new_cache, Move, got, failed, took, ended, closed, closing, run,
}
use runv.Factory.Workers.{count, run-accounts}
use runv.Factory.Drained.{last_moves, run-shuts}

-- Of two workers one gives its virtual machine to a client and fails, which closes the cache; the
-- other one holds the second virtual machine and is ended.
abbrev closed_history : List Move
closed_history =
    got 7 ∷ got 8 ∷ took 1 ∷ failed ∷ closing ∷ closing ∷ closing ∷ ended 0 ∷ closing ∷ []

closed_cache :
    let d = run closed_history (start 2) in
    (d.stage ≡ shut) × (d.handed ≡ 7 ∷ []) × (d.killed ≡ 8 ∷ [])
unfolding run start
closed_cache = (refl, refl, refl)

two_workers : new_cache 2 ≡ some (start 2)
unfolding new_cache
two_workers = refl

run-accounts_example :
    let d = run closed_history (start 2) in
    ((v : ℕ) → count v d.given ≡ count v d.handed + count v d.killed + count v d.holding)
    × (d.stage ≡ waiting → d.getting + length d.holding ≤ d.signals)
    × (d.stage ≡ shut → (d.getting ≡ 0) × (d.holding ≡ []))
run-accounts_example = run-accounts 2 (start 2) closed_history two_workers

-- CloseFactory waits for a worker that holds a virtual machine and for one that calls the lower
-- layer.
abbrev waiting_history : List Move
waiting_history = got 7 ∷ closed ∷ closing ∷ closing ∷ closing ∷ []

waits : (run waiting_history (start 2)).stage ≡ waiting
unfolding run start
waits = refl

run-shuts_example :
    let d = run waiting_history (start 2) in
    (run (last_moves d.getting (length d.holding)) d).stage ≡ shut
run-shuts_example = run-shuts 2 (start 2) waiting_history two_workers waits
