-- ===== src/Fanout/Channels.antt =====
-- The state of a Fanout and its channels (hypervisor/fanout.go). A response is a number.
use runv.Prelude.{
  ℕ, Bool, true, ◌++◌, none, some, List, [], ◌∷◌, if◌then◌else◌, ltb, length, get_elem?, set,
}

-- What a client has not read yet, the oldest first.
pub record Channel : Type 0 where
  pub buffer : List ℕ
  pub closed : Bool

-- `closeSignal` is `signalled` and `signal_closed`. `workers` counts the goroutines of `start` that
-- stand at their select, and `ending` those behind it that are to end. `panicked` is set when a
-- closed channel is closed.
pub record Fanout : Type 0 where
  pub size : ℕ
  pub chans : List Channel
  pub clients : List ℕ
  pub signalled : Bool
  pub signal_closed : Bool
  pub running : Bool
  pub workers : ℕ
  pub ending : ℕ
  pub upstream_closed : Bool
  pub panicked : Bool

unfoldable pub close_chan : ℕ → Fanout → Fanout
close_chan c fo = elim (get_elem? fo.chans c) [
  | none ↦ fo
  | some ch ↦
      if ch.closed
      then record fo { panicked = true }
      else record fo { chans = set fo.chans c (record ch { closed = true }) }
]

-- A response is lost when there is no room for it, and the panic at a closed channel is recovered.
unfoldable pub unblock_send : ℕ → ℕ → Fanout → Fanout
unblock_send c rsp fo = elim (get_elem? fo.chans c) [
  | none ↦ fo
  | some ch ↦
      if ch.closed
      then fo
      else if ltb (length ch.buffer) fo.size
      then record fo { chans = set fo.chans c (record ch { buffer = ch.buffer ++ rsp ∷ [] }) }
      else fo
]
