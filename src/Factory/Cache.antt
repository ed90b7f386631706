-- ===== src/Factory/Cache.antt =====
-- The cache of virtual machines: its workers, its clients and its closing (factory/cache).
use runv.Prelude.{
  ℕ, zero, suc, ◌+◌, ◌-◌, Option, none, some, List, [], ◌∷◌, if◌then◌else◌, ltb, ◌==◌, get_elem?,
}

-- Where CloseFactory is: not called, sending on `closed`, at wg.Wait, and through.
pub data Stage : Type 0 where
  opened filling waiting shut : Stage

-- cacheFactory with its goroutines. `getting` of them are in GetBaseVm and `holding` has the virtual
-- machine of each that is at its select; `signals` are in the channel `closed`, whose capacity is
-- `size`, and `counter` is that of `wg`. The last three lists are what the lower layer gave, what
-- the clients got, and what was killed.
pub record Cache : Type 0 where
  pub size : ℕ
  pub getting : ℕ
  pub holding : List ℕ
  pub counter : ℕ
  pub signals : ℕ
  pub stage : Stage
  pub given : List ℕ
  pub handed : List ℕ
  pub killed : List ℕ

-- The cache with the goroutines that New starts, which are taken to be all started before one of
-- them fails.
unfoldable pub start : ℕ → Cache
start n = record {
  size = n;
  getting = n;
  holding = [];
  counter = n;
  signals = 0;
  stage = opened;
  given = [];
  handed = [];
  killed = [];
}

-- New. Nothing is made where the lower layer itself is returned.
unfoldable pub new_cache : ℕ → Option Cache
unfolding start
new_cache n = if ltb n 1 then none else some (start n)

abbrev pub remove_at {ℓ} : {A : Type ℓ} → List A → ℕ → List A
remove_at [] i = []
remove_at (x ∷ xs) zero = xs
remove_at (x ∷ xs) (suc i) = x ∷ remove_at xs i

-- closeOnce.
unfoldable pub close_once : Stage → Stage
close_once opened = filling
close_once s = s

-- The call of CloseFactory, and what its body does next.
unfoldable pub close_factory : Cache → Cache
unfolding close_once
close_factory c = record c { stage = close_once c.stage }

unfoldable pub close_next : Stage → Cache → Cache
close_next filling c =
    if ltb c.signals c.size
    then record c { signals = c.signals + 1 }
    else record c { stage = waiting }
close_next waiting c = if c.counter == 0 then record c { stage = shut } else c
close_next s c = c

-- GetBaseVm of the lower layer returns to a worker.
unfoldable pub base_got : ℕ → Cache → Cache
base_got vm c =
    if ltb 0 c.getting
    then record c { getting = c.getting - 1; holding = vm ∷ c.holding; given = vm ∷ c.given }
    else c

unfoldable pub base_failed : Cache → Cache
unfolding close_factory
base_failed c =
    if ltb 0 c.getting
    then close_factory (record c { getting = c.getting - 1; counter = c.counter - 1 })
    else c

-- A client's GetBaseVm takes the virtual machine of the worker at this place.
unfoldable pub client_takes : ℕ → Cache → Cache
client_takes i c = elim (get_elem? c.holding i) [
  | none ↦ c
  | some vm ↦ record c {
    getting = c.getting + 1;
    holding = remove_at c.holding i;
    handed = vm ∷ c.handed;
  }
]

-- The worker at this place takes a signal.
unfoldable pub worker_ends : ℕ → Cache → Cache
worker_ends i c = elim (get_elem? c.holding i) [
  | none ↦ c
  | some vm ↦
      if ltb 0 c.signals
      then record c {
        holding = remove_at c.holding i;
        counter = c.counter - 1;
        signals = c.signals - 1;
        killed = vm ∷ c.killed;
      }
      else c
]

pub data Move : Type 0 where
  got : ℕ → Move
  failed : Move
  took ended : ℕ → Move
  closed closing : Move

unfoldable pub step : Move → Cache → Cache
unfolding base_got base_failed client_takes worker_ends close_factory close_next
step (got vm) c = base_got vm c
step failed c = base_failed c
step (took i) c = client_takes i c
step (ended i) c = worker_ends i c
step closed c = close_factory c
step closing c = close_next c.stage c

unfoldable pub run : List Move → Cache → Cache
unfolding step
run [] c = c
run (m ∷ ms) c = run ms (step m c)
