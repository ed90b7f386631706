-- ===== src/Networks/Moves.antt =====
-- Histories of a sandbox's requests on its interfaces and of their goroutines
-- (hypervisor/network.go).
use Prim.Native.String.{String}
use runv.Prelude.{ℕ, Bool, Option, some, List, [], ◌∷◌, get_elem?}
use runv.Networks.State.{
  Description, Settings, Event, Job, queued, plugging, reporting, unplugging, Networks,
}
use runv.Networks.Methods.{
  add_interface, remove_interface, update_interface, set_up, plug_ends, unplug_ends, close,
}

-- A request, or the next step of the job at a place. A step that a job cannot take changes nothing.
pub data Move : Type 0 where
  interface_added interface_updated : Description → Move
  interface_removed : String → Move
  -- The first goroutine of an addition runs; network.Configure returns this.
  slot_taken : ℕ → Option Settings → Move
  -- The driver answers an addition.
  plug_answered : ℕ → Event → Move
  -- The second goroutine reads the event that the first one left.
  event_read : ℕ → Move
  -- The driver answers a removal.
  unplug_answered : ℕ → Bool → Move
  networks_closed : Move

module _ (decimal eth_name : ℕ → String) where
  unfoldable pub take_slot : ℕ → Option Settings → Option Job → Networks → Networks
  unfolding set_up
  take_slot j settings (some (queued inf)) n = set_up decimal eth_name j inf settings n
  take_slot j settings _ n = n

  unfoldable pub answer_plug : ℕ → Event → Option Job → Networks → Networks
  unfolding plug_ends
  answer_plug j ev (some (plugging id)) n = plug_ends j id ev n
  answer_plug j ev _ n = n

  unfoldable pub read_event : ℕ → Option Job → Networks → Networks
  unfolding plug_ends
  read_event j (some (reporting id ev)) n = plug_ends j id ev n
  read_event j _ n = n

  unfoldable pub answer_unplug : ℕ → Bool → Option Job → Networks → Networks
  unfolding unplug_ends
  answer_unplug j success (some (unplugging id p)) n = unplug_ends j id p success n
  answer_unplug j success _ n = n

  unfoldable pub step : Networks → Move → Networks
  unfolding take_slot answer_plug read_event answer_unplug
  step n (interface_added inf) = add_interface inf n
  step n (interface_updated inf) = (update_interface inf n).1
  step n (interface_removed id) = remove_interface id n
  step n (slot_taken j settings) = take_slot j settings (get_elem? n.jobs j) n
  step n (plug_answered j ev) = answer_plug j ev (get_elem? n.jobs j) n
  step n (event_read j) = read_event j (get_elem? n.jobs j) n
  step n (unplug_answered j success) = answer_unplug j success (get_elem? n.jobs j) n
  step n networks_closed = close n

  unfoldable pub run : Networks → List Move → Networks
  unfolding step
  run n [] = n
  run n (m ∷ ms) = run (step n m) ms
