-- ===== src/Fanout.antt =====
-- The distribution of a sandbox's responses to its clients: Fanout of hypervisor/fanout.go. A step is
-- what one goroutine does under the lock. A channel is known by its place in `chans`.
pub mod Channels
pub mod Closing
pub mod Histories
pub mod Delivery
mod Tests
use runv.Prelude.{
  ℕ, suc, ◌+◌, ◌-◌, Bool, true, false, ◌||◌, not, Option, none, some, List, [], ◌∷◌, ◌++◌,
  if◌then◌else◌, ltb, ◌==◌, length, get_elem?, set,
}
use runv.Fanout.Channels.{Channel, Fanout, close_chan, unblock_send}

-- The goroutine of `start` is begun.
unfoldable pub start : Fanout → Fanout
start fo = record fo { workers = fo.workers + 1 }

unfoldable pub create_fanout : ℕ → Bool → Fanout
unfolding start
create_fanout size block =
    let fo : Fanout = record {
      size = size;
      chans = [];
      clients = [];
      signalled = false;
      signal_closed = false;
      running = not block;
      workers = 0;
      ending = 0;
      upstream_closed = false;
      panicked = false;
    } in
    if block then fo else start fo

-- The client's channel is the last one afterwards.
unfoldable pub acquire : Fanout → Fanout
unfolding start
acquire fo =
    let fo' = record fo {
      running = true;
      chans = fo.chans ++ record { buffer = []; closed = false } ∷ [];
      clients = fo.clients ++ length fo.chans ∷ [];
    } in
    if fo.running then fo' else start fo'

-- The loop of Release: the clients that remain.
unfoldable pub release_loop : ℕ → List ℕ → Fanout → List ℕ × Fanout
unfolding close_chan
release_loop client [] fo = ([], fo)
release_loop client (c ∷ cs) fo =
    if c == client
    then release_loop client cs (close_chan client fo)
    else (c ∷ (release_loop client cs fo).0, (release_loop client cs fo).1)

unfoldable pub release : ℕ → Fanout → Fanout
unfolding release_loop
release client fo =
    let (remains, fo') = release_loop client fo.clients fo in record fo' { clients = remains }

-- Close: UnblockSend leaves a signal if there is room for one, and recovers if the channel is
-- closed; to close a closed channel is a panic.
unfoldable pub close : Fanout → Fanout
close fo =
    if fo.signal_closed
    then record fo { panicked = true }
    else record fo { signalled = true; signal_closed = true }

-- The loop of `start` over the clients, with a response.
unfoldable pub send_all : ℕ → List ℕ → Fanout → Fanout
unfolding unblock_send
send_all rsp [] fo = fo
send_all rsp (c ∷ cs) fo = send_all rsp cs (unblock_send c rsp fo)

unfoldable pub close_all : List ℕ → Fanout → Fanout
unfolding close_chan
close_all [] fo = fo
close_all (c ∷ cs) fo = close_all cs (close_chan c fo)

-- What the goroutine of `start` does under the lock when its loop is to end.
unfoldable pub finish : Fanout → Fanout
unfolding close_all
finish fo = record (close_all fo.clients fo) { clients = []; running = false }

-- A call, or a step of a goroutine of `start`: it takes a response, it learns that it is to end, or
-- it ends. A step that no goroutine can take changes nothing.
pub data Move : Type 0 where
  acquired : Move
  released : ℕ → Move
  closed upstream_ended : Move
  responded : ℕ → Move
  stopped ended : Move

unfoldable pub step : Fanout → Move → Fanout
unfolding acquire release close send_all finish
step fo acquired = acquire fo
step fo (released client) = release client fo
step fo closed = close fo
step fo upstream_ended = record fo { upstream_closed = true }
step fo (responded rsp) = if ltb 0 fo.workers then send_all rsp fo.clients fo else fo
step fo stopped =
    if ltb 0 fo.workers
    then if fo.upstream_closed || (fo.signalled || fo.signal_closed)
      then record fo { workers = fo.workers - 1; ending = fo.ending + 1; signalled = false }
      else fo
    else fo
step fo ended = if ltb 0 fo.ending then record (finish fo) { ending = fo.ending - 1 } else fo

unfoldable pub run : Fanout → List Move → Fanout
unfolding step
run fo [] = fo
run fo (m ∷ ms) = run (step fo m) ms
