-- ===== src/Networks/Methods.antt =====
-- The operations of NetworkContext (hypervisor/network.go).
use Prim.Native.String.{String}
use text.Mathlib.Text.{◌==◌ as str_eq}
use runv.Prelude.{
  ℕ, ◌+◌, Bool, true, false, ◌&&◌, ◌||◌, not, Option, none, some, List, [], ◌∷◌, ◌++◌, length,
  lookup, insert, delete, has_key, nat_eq, string_eq, list_eq, ◌=?◌, ◌==◌, ltb, get_elem?, set,
  if◌then◌else◌,
}
use runv.Networks.State.{
  Route, Interface, Description, Settings, Event, nic_inserted, device_failed, unknown, queued,
  plugging, reporting, unplugging, ended, without_ip, added, busy, plugged, plug_failed, odd_event,
  not_exist, taken_off, not_configured, unplugged, Networks, reply, panic, set_job, follow,
}
use runv.Networks.Slots.{apply_slot, next_available_dev_name, free_slot}
use runv.Networks.Addresses.{Ending, through, not_found, out_of_range, update_addrs, join}

unfoldable pub no_text : List String → Bool
no_text parts = parts =? "" ∷ []

-- The first interface without an id becomes "lo", an Ethernet one gets its slot's number.
abbrev pub or_else : String → String → String
or_else text other = if str_eq text "" then other else text

-- `addInterface` of a loopback interface with an address.
unfoldable pub add_lo : Description → Networks → Networks
unfolding reply
add_lo inf n =
    let id = or_else inf.id "lo" in
    let p = length n.infs in
    let i : Interface = record {
      id = id;
      index = 0;
      pci_addr = 0;
      tap_fd = 0;
      bridge = "";
      host_device = "";
      device_name = "lo";
      mac_addr = "";
      ip_addr = inf.ip;
      new_name = "";
      mtu = inf.mtu;
      route_table = [];
    } in
    reply (added id) (record n {
      infs = n.infs ++ i ∷ [];
      lo = insert inf.ip p n.lo;
      id_map = insert id p n.id_map;
    })

-- `addInterface`, up to the start of its two goroutines.
unfoldable pub add_interface : Description → Networks → Networks
unfolding reply no_text add_lo
add_interface inf n =
    if inf.lo
    then if no_text inf.ip then reply (without_ip inf.id) n else add_lo inf n
    else record n { jobs = n.jobs ++ queued inf ∷ [] }

unfoldable pub interface_got : String → ℕ → ℕ → String → String → Settings → Interface
interface_got id index pci_addr device_name new_name inf = record {
  id = id;
  index = index;
  pci_addr = pci_addr;
  tap_fd = 0;
  bridge = inf.bridge;
  host_device = inf.device;
  device_name = device_name;
  mac_addr = inf.mac;
  ip_addr = inf.ip_address;
  new_name = new_name;
  mtu = inf.mtu;
  route_table =
      if ((index == 0) && inf.automatic) || (not inf.automatic && not (str_eq inf.gateway ""))
      then record { destination = "0.0.0.0/0"; gateway = inf.gateway; via_this = true } ∷ []
      else [];
}

-- `configureInterface`, with what network.Configure returned: the settings, or an error.
unfoldable pub configure_interface :
    ℕ → ℕ → ℕ → String → String → Description → Option Settings → Networks → Networks
unfolding set_job interface_got
configure_interface j index pci_addr name id inf none n =
    set_job j (reporting id (device_failed (some index))) n
configure_interface j index pci_addr name id inf (some settings) n =
    let p = length n.infs in
    let created = interface_got id index pci_addr name (or_else inf.name name) settings in
    set_job j (plugging id) (record n {
      infs = n.infs ++ created ∷ [];
      eth = insert index (some p) n.eth;
      id_map = insert id p n.id_map;
    })

-- `decimal` is fmt.Sprintf("%d"), and `eth_name` is fmt.Sprintf("eth%d").
module _ (decimal eth_name : ℕ → String) where
  -- What follows the call of applySlot.
  unfoldable pub use_slot : ℕ → Description → Option Settings → Option ℕ → Networks → Networks
  unfolding next_available_dev_name reply set_job configure_interface
  use_slot j inf settings none n = reply (busy (or_else inf.id "-1")) (set_job j ended n)
  use_slot j inf settings (some index) n = elim (next_available_dev_name eth_name n) [
    | none ↦ reply (busy (or_else inf.id (decimal index))) (set_job j ended n)
    | some name ↦
        configure_interface j index n.pci_addr name (or_else inf.id (decimal index)) inf settings
          (record n { pci_addr = n.pci_addr + 1 })
  ]

  -- The first goroutine of addInterface.
  unfoldable pub set_up : ℕ → Description → Option Settings → Networks → Networks
  unfolding apply_slot use_slot
  set_up j inf settings n = use_slot j inf settings (apply_slot n).0 (apply_slot n).1

-- `netdevInsertFailed`: freeSlot passes over a slot that is not taken.
unfoldable pub netdev_insert_failed : ℕ → Networks → Networks
unfolding free_slot
netdev_insert_failed i n = free_slot i n

-- The second goroutine of addInterface, from its event on.
unfoldable pub plug_ends : ℕ → String → Event → Networks → Networks
unfolding reply panic set_job netdev_insert_failed
plug_ends j id (device_failed none) n = reply (plug_failed id) (set_job j ended n)
plug_ends j id (device_failed (some index)) n =
    reply (plug_failed id) (netdev_insert_failed index (set_job j ended n))
plug_ends j id unknown n = reply (odd_event id) (set_job j ended n)
plug_ends j id (nic_inserted fd) n = elim (lookup id n.id_map) [
  | none ↦ panic n
  | some p ↦ elim (get_elem? n.infs p) [
    | none ↦ n
    | some inf ↦
        reply (plugged id)
          (set_job j ended (record n { infs = set n.infs p (record inf { tap_fd = fd }) }))
  ]
]

-- `removeInterface`, up to the start of its goroutine.
unfoldable pub remove_interface : String → Networks → Networks
unfolding reply
remove_interface id n = elim (lookup id n.id_map) [
  | none ↦ reply (not_exist id) n
  | some p ↦ elim (get_elem? n.infs p) [
    | none ↦ n
    | some inf ↦
        if str_eq inf.host_device ""
        then reply (taken_off id)
            (record n { id_map = delete id n.id_map; lo = delete inf.ip_addr n.lo })
        else if has_key inf.index n.eth
        then record n { jobs = n.jobs ++ unplugging id p ∷ [] }
        else reply (not_configured id) (record n { id_map = delete id n.id_map })
  ]
]

unfoldable pub cleanup_inf : Interface → Networks → Networks
cleanup_inf inf n = record n { released = inf.ip_addr ∷ n.released }

-- Its goroutine, from its event on: the removal took place, or the driver failed.
unfoldable pub unplug_ends : ℕ → String → ℕ → Bool → Networks → Networks
unfolding reply set_job free_slot cleanup_inf
unplug_ends j id p success n = elim (get_elem? n.infs p) [
  | none ↦ n
  | some inf ↦
      reply (unplugged id success) (cleanup_inf inf (free_slot inf.index (set_job j ended n)))
]

-- The fields of `oldInf` that are given are changed one after the other, the addresses last; the
-- answer is whether there is no error.
unfoldable pub update_fields : Description → Interface → Interface
update_fields inf old = record old {
  new_name = or_else inf.name old.new_name;
  mtu = if ltb 0 inf.mtu then inf.mtu else old.mtu;
}

-- What the loop over the addresses ends with, for the interface at `p`.
unfoldable pub settle_addrs : ℕ → Interface → Ending → Networks → Bool × Networks
unfolding panic
settle_addrs p changed (through addrs) n =
    (true, record n { infs = set n.infs p (record changed { ip_addr = join addrs }) })
settle_addrs p changed (not_found ip) n = (false, record n { infs = set n.infs p changed })
settle_addrs p changed out_of_range n = (false, panic (record n { infs = set n.infs p changed }))

unfoldable pub update_interface : Description → Networks → Bool × Networks
unfolding update_fields update_addrs settle_addrs no_text
update_interface inf n = elim (lookup inf.id n.id_map) [
  | none ↦ (false, n)
  | some p ↦ elim (get_elem? n.infs p) [
    | none ↦ (false, n)
    | some old ↦
        let changed = update_fields inf old in
        if no_text inf.ip
        then (true, record n { infs = set n.infs p changed })
        else settle_addrs p changed (update_addrs inf.ip old.ip_addr) n
  ]
]

-- The loops over `eth` of getIPAddrs and close: none is a panic at a slot that holds nil.
unfoldable pub ip_addrs : List Interface → List (ℕ × Option ℕ) → Option (List String)
unfolding no_text
ip_addrs infs [] = some []
ip_addrs infs ((i, slot) ∷ eth) = elim (follow infs slot) [
  | none ↦ none
  | some inf ↦ elim (ip_addrs infs eth) [
    | none ↦ none
    | some res ↦ some (if no_text inf.ip_addr then res else inf.ip_addr ++ res)
  ]
]

unfoldable pub get_ip_addrs : Networks → Option (List String)
unfolding ip_addrs
get_ip_addrs n = ip_addrs n.infs n.eth

unfoldable pub cleanup_all : List (ℕ × Option ℕ) → Networks → Networks
unfolding panic cleanup_inf
cleanup_all [] n = record n { eth = []; lo = []; id_map = [] }
cleanup_all ((i, slot) ∷ eth) n = elim (follow n.infs slot) [
  | none ↦ panic n
  | some inf ↦ cleanup_all eth (cleanup_inf inf n)
]

unfoldable pub close : Networks → Networks
unfolding cleanup_all
close n = cleanup_all n.eth n

-- The interfaces that allInterfaces returns.
unfoldable pub interfaces : List Interface → List (ℕ × Option ℕ) → List Interface
interfaces infs [] = []
interfaces infs ((i, slot) ∷ eth) = elim (follow infs slot) [
  | none ↦ interfaces infs eth
  | some inf ↦ inf ∷ interfaces infs eth
]

unfoldable pub all_interfaces : Networks → List Interface
unfolding interfaces
all_interfaces n = interfaces n.infs n.eth

abbrev pub routes_of : Interface → List Route → List (String × String × String)
routes_of inf [] = []
routes_of inf (r ∷ rs) = (r.destination, r.gateway, inf.new_name) ∷ routes_of inf rs

unfoldable pub routes : List Interface → List (String × ℕ) → List (String × String × String)
routes infs [] = []
routes infs ((id, p) ∷ ids) = elim (get_elem? infs p) [
  | none ↦ routes infs ids
  | some inf ↦ routes_of inf inf.route_table ++ routes infs ids
]

unfoldable pub get_routes : Networks → List (String × String × String)
unfolding routes
get_routes n = routes n.infs n.id_map

unfoldable pub get_interface : String → Networks → Option Interface
get_interface id n = elim (lookup id n.id_map) [ none ↦ none | some p ↦ get_elem? n.infs p ]
