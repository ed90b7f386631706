-- ===== src/Networks/Tests.antt =====
-- Runs of the model of a sandbox's interfaces at concrete requests.
use Prim.Native.String.{String, [] as empty, ◌∷◌ as cons}
use runv.Prelude.{
  ℕ, zero, suc, ◌<◌, ◌≡◌, ◌≢◌, refl, ap, true, false, none, some, List, [], ◌∷◌, lookup, insert,
  delete, has_key, nat_eq, string_eq, arith, get_elem?,
}
use runv.Networks.State.{
  Interface, Description, Settings, nic_inserted, Networks, new_networks, reply, panic, set_job,
}
use runv.Networks.Slots.{
  name_taken, first_free, apply_slot, first_name, next_available_dev_name, free_slot,
}
use runv.Networks.Addresses.{update_addrs, take_off}
use runv.Networks.Methods.{
  add_lo, add_interface, interface_got, configure_interface, use_slot, set_up, netdev_insert_failed,
  plug_ends, remove_interface, cleanup_inf, unplug_ends, update_fields, settle_addrs,
  update_interface, cleanup_all, close, no_text, get_ip_addrs,
}
use runv.Networks.Moves.{
  Move, interface_added, interface_removed, slot_taken, plug_answered, unplug_answered, take_slot,
  answer_plug, read_event, answer_unplug, step, run,
}
use runv.Networks.Free.{next_available_dev_name-IsFirst, apply_slot-IsFirstFree}
use runv.Networks.Order.{run-apart}
use runv.Networks.Panics.{set_up-panics}
use runv.Networks.Updates.{update_interface-SameAddrs}

-- Names that tell numbers apart.
tally : ℕ → String
tally zero = empty
tally (suc n) = cons "i" (tally n)

shorter : String → String
shorter empty = empty
shorter (cons c s) = s

tally-distinct : (i j : ℕ) → tally i ≡ tally j → i ≡ j
unfolding tally shorter
tally-distinct zero zero e = refl
tally-distinct zero (suc j) e = cc
tally-distinct (suc i) zero e = cc
tally-distinct (suc i) (suc j) e = ap suc (tally-distinct i j (ap shorter e))

abbrev nic : String → Description
nic id = record { id = id; name = ""; lo = false; ip = "10.0.0.2" ∷ []; mtu = 0 }

abbrev bridged : Settings
bridged = record {
  mac = "52:54";
  ip_address = "10.0.0.2" ∷ [];
  gateway = "";
  bridge = "hyper0";
  device = "tap0";
  mtu = 1500;
  automatic = false;
}

-- An interface is added and removed twice, and another one takes its slot in between.
abbrev history : List Move
history =
    interface_added (nic "a")
    ∷ slot_taken 0 (some bridged)
    ∷ plug_answered 0 (nic_inserted 7)
    ∷ interface_removed "a"
    ∷ interface_removed "a"
    ∷ unplug_answered 1 true
    ∷ interface_added (nic "b")
    ∷ slot_taken 3 (some bridged)
    ∷ []

abbrev now : Networks
now = run tally tally new_networks history

abbrev placed : String → ℕ → ℕ → Interface
placed id pci_addr tap_fd = record {
  id = id;
  index = 0;
  pci_addr = pci_addr;
  tap_fd = tap_fd;
  bridge = "hyper0";
  host_device = "tap0";
  device_name = "";
  mac_addr = "52:54";
  ip_addr = "10.0.0.2" ∷ [];
  new_name = "";
  mtu = 1500;
  route_table = [];
}

-- Two interfaces in two slots.
abbrev two : List Move
two =
    interface_added (nic "a")
    ∷ interface_added (nic "b")
    ∷ slot_taken 0 (some bridged)
    ∷ slot_taken 1 (some bridged)
    ∷ []

abbrev second : Interface
second = record (placed "b" 1 0) { index = 1; device_name = "i"; new_name = "i" }

run-apart_example :
    ((placed "a" 0 0).index ≡ 0)
    × (second.index ≡ 1)
    × ((placed "a" 0 0).pci_addr ≢ second.pci_addr)
unfolding run step take_slot answer_plug read_event answer_unplug new_networks add_interface add_lo
    set_up use_slot apply_slot first_free next_available_dev_name first_name configure_interface
    interface_got plug_ends netdev_insert_failed free_slot remove_interface unplug_ends cleanup_inf
    update_interface update_fields settle_addrs update_addrs take_off close cleanup_all no_text
    reply panic set_job lookup insert delete has_key tally
run-apart_example =
    run-apart tally tally two 0 1 (placed "a" 0 0) second (0, refl, refl) (1, refl, refl)
      (λ e. omega (arith, e))

apply_slot-IsFirstFree_example :
    (k : ℕ) × (apply_slot now ≡ (some k, record now { eth = insert k none now.eth }))
    × (has_key k now.eth ≡ false)
    × ((j : ℕ) → j < k → has_key j now.eth ≡ true)
unfolding run step take_slot answer_plug read_event answer_unplug new_networks add_interface add_lo
    set_up use_slot apply_slot first_free next_available_dev_name first_name configure_interface
    interface_got plug_ends netdev_insert_failed free_slot remove_interface unplug_ends cleanup_inf
    update_interface update_fields settle_addrs update_addrs take_off close cleanup_all no_text
    reply panic set_job lookup insert delete has_key tally
apply_slot-IsFirstFree_example = apply_slot-IsFirstFree now (omega arith)

next_available_dev_name-IsFirst_example :
    (k : ℕ) × (next_available_dev_name tally now ≡ some (tally k))
    × (name_taken now.infs (tally k) now.eth ≡ false)
    × ((j : ℕ) → j < k → name_taken now.infs (tally j) now.eth ≡ true)
unfolding run step take_slot answer_plug read_event answer_unplug new_networks add_interface add_lo
    set_up use_slot apply_slot first_free next_available_dev_name first_name configure_interface
    interface_got plug_ends netdev_insert_failed free_slot remove_interface unplug_ends cleanup_inf
    update_interface update_fields settle_addrs update_addrs take_off close cleanup_all no_text
    reply panic set_job lookup insert delete has_key tally
next_available_dev_name-IsFirst_example =
    next_available_dev_name-IsFirst tally tally-distinct now (omega arith)

set_up-panics_example :
    (get_ip_addrs (set_up tally tally 4 (nic "c") none now) ≡ none)
    × ((close (set_up tally tally 4 (nic "c") none now)).panicked ≡ true)
unfolding run step take_slot answer_plug read_event answer_unplug new_networks add_interface add_lo
    set_up use_slot apply_slot first_free next_available_dev_name first_name configure_interface
    interface_got plug_ends netdev_insert_failed free_slot remove_interface unplug_ends cleanup_inf
    update_interface update_fields settle_addrs update_addrs take_off close cleanup_all no_text
    reply panic set_job lookup insert delete has_key tally
set_up-panics_example = set_up-panics tally tally tally-distinct 4 (nic "c") now (omega arith)

-- The second of two removals of an interface frees the slot of the one that was added in between.
taken_away :
    let m = unplug_ends 2 "a" 0 true now in (lookup 0 m.eth ≡ none) × (lookup "b" m.id_map ≡ none)
unfolding run step take_slot answer_plug read_event answer_unplug new_networks add_interface add_lo
    set_up use_slot apply_slot first_free next_available_dev_name first_name configure_interface
    interface_got plug_ends netdev_insert_failed free_slot remove_interface unplug_ends cleanup_inf
    update_interface update_fields settle_addrs update_addrs take_off close cleanup_all no_text
    reply panic set_job lookup insert delete has_key tally
taken_away = (refl, refl)

-- An address that the interface does not have cannot be deleted.
abbrev mistaken : Description
mistaken = record { id = "b"; name = "lan"; lo = false; ip = "-10.0.0.9" ∷ []; mtu = 0 }

update_interface-SameAddrs_example :
    (x : Interface) × (get_elem? now.infs 1 ≡ some x) × (("10.0.0.2" ∷ []) ≡ x.ip_addr)
unfolding run step take_slot answer_plug read_event answer_unplug new_networks add_interface add_lo
    set_up use_slot apply_slot first_free next_available_dev_name first_name configure_interface
    interface_got plug_ends netdev_insert_failed free_slot remove_interface unplug_ends cleanup_inf
    update_interface update_fields settle_addrs update_addrs take_off close cleanup_all no_text
    reply panic set_job lookup insert delete has_key tally
update_interface-SameAddrs_example =
    update_interface-SameAddrs mistaken now refl 1 (record (placed "b" 1 0) { new_name = "lan" })
      refl
