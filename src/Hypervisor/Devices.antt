-- ===== src/Hypervisor/Devices.antt =====
-- The network device that a hypervisor's machines share (resource_managers/utils/net.py, and
-- `_setup_macvlan_device` of resource_managers/hypervisor/__main__.py), as the commands that are run.
-- Whether a command succeeds, what `netifaces` knows and what `ipaddress` reads are parameters.
pub mod SetUp
pub mod Tests
use Prim.Native.String.{◌++◌}
use habertest_backend.Base.{
  String, Option, none, some, List, [], ◌∷◌, if◌then◌else◌, ◌&&◌, Bool, string_eq, ◌==◌, true,
  false,
}
use habertest_backend.Base.Exec.{Result, ok, err, Exec, ◌>>=◌, ◌>>◌, pure, raise}

-- A command fails, an interface is unknown or has no address, an address is malformed, no gateway fits,
-- or a list has no first item.
pub data NetError : Type 0 where
  command_failed unknown_interface no_inet value_error : String → NetError
  index_error : NetError

-- A gateway with its device, and whether it is the default; an address with its netmask; an interface
-- with its address and its network, both compressed.
pub record Gateway : Type 0 where
  pub address : String
  pub device : String
  pub is_default : Bool

pub record InetInfo : Type 0 where
  pub addr : String
  pub netmask : String

pub record IpInterface : Type 0 where
  pub compressed : String
  pub network : String

-- The commands that have been run, the last one first
abbrev pub NetStep : Type 0 → Type 0
NetStep A = Exec NetError (List String) A

module _ (succeeds : List String → String → Bool) where
  -- `shell.run_cmd`, which raises when a command fails
  pub run_cmd : String → NetStep (Unit {0})
  run_cmd cmd ran = (if succeeds ran cmd then ok tt else err (command_failed cmd), cmd ∷ ran)

  pub device_exists : String → NetStep Bool
  unfolding run_cmd
  device_exists device ran =
      let (r, t) = run_cmd ("ip link show " ++ device) ran in
      (elim r [ ok done ↦ ok true | err e ↦ ok false ], t)

  pub delete_net_device : String → NetStep (Unit {0})
  unfolding run_cmd
  delete_net_device device = run_cmd ("ip link del " ++ device)

  pub delete_routes : String → NetStep (Unit {0})
  unfolding run_cmd
  delete_routes device = run_cmd ("ip route flush dev " ++ device)

  add_macvlan_device : String → String → NetStep (Unit {0})
  unfolding run_cmd
  add_macvlan_device link_dev macvlan_dev =
      run_cmd
        ("ip link add link " ++ (link_dev ++ (" " ++ (macvlan_dev ++ " type macvlan mode bridge"))))

  add_ip_to_device : String → String → NetStep (Unit {0})
  unfolding run_cmd
  add_ip_to_device device ip_cidr = run_cmd ("ip address add " ++ (ip_cidr ++ (" dev " ++ device)))

  start_device : String → NetStep (Unit {0})
  unfolding run_cmd
  start_device device = run_cmd ("ip link set dev " ++ (device ++ " up"))

  -- `change_route_metric_for_device`, with the metric as it is written
  change_route_metric_for_device : String → String → NetStep (Unit {0})
  unfolding run_cmd
  change_route_metric_for_device device metric =
      run_cmd ("ifmetric " ++ (device ++ (" " ++ metric)))

  -- `cmd = f"{cmd} metric {metric}"`
  with_metric : String → Option String → String
  with_metric cmd none = cmd
  with_metric cmd (some metric) = cmd ++ (" metric " ++ metric)

  add_route : String → String → Option String → NetStep (Unit {0})
  unfolding run_cmd with_metric
  add_route network device metric =
      run_cmd (with_metric ("ip route add " ++ (network ++ (" dev " ++ device))) metric)

  -- The `try` of `setup_macvlan_device`; the metrics are 101 and 100.
  pub build : String → IpInterface → String → NetStep (Unit {0})
  unfolding add_macvlan_device add_ip_to_device start_device delete_routes
      change_route_metric_for_device add_route
  build eth_device ip_iface device = do
    add_macvlan_device eth_device device
    add_ip_to_device device ip_iface.compressed
    start_device device
    delete_routes device
    change_route_metric_for_device eth_device "101"
    add_route ip_iface.network device (some "100")

  -- The inner `try` of the handler, whose failure is logged
  take_down : String → NetStep (Unit {0})
  unfolding delete_routes delete_net_device
  take_down device ran = (ok tt, ((delete_routes device >> delete_net_device device) ran).1)

  clean_up : String → NetStep (Unit {0})
  unfolding device_exists take_down
  clean_up device =
      device_exists device >>= λ exists_. if exists_ then take_down device else pure tt

  pub setup_macvlan_device : String → IpInterface → String → NetStep (Unit {0})
  unfolding build clean_up
  setup_macvlan_device eth_device ip_iface device ran =
      let (r, t) = build eth_device ip_iface device ran in
      elim r [ ok done ↦ (ok tt, t) | err e ↦ clean_up device t ]

  -- `_setup_macvlan_device` first removes the device that is there.
  remove_existing : String → NetStep (Unit {0})
  unfolding device_exists delete_routes delete_net_device
  remove_existing device = device_exists device >>= λ exists_.
      if exists_ then delete_routes device >> delete_net_device device else pure tt

  -- The first address is taken; a list without one has no item 0.
  with_first : String → Result NetError (List IpInterface) → NetStep (Unit {0})
  unfolding setup_macvlan_device
  with_first paravirt_device (err e) = raise e
  with_first paravirt_device (ok []) = raise index_error
  with_first paravirt_device (ok (ip_info ∷ ip_infos)) =
      setup_macvlan_device paravirt_device ip_info "vm-macvlan"

-- `[gw for gw in gateways if ...][0]`
pub default_gateway : List Gateway → String → Result NetError Gateway
default_gateway [] device_name = err index_error
default_gateway (gw ∷ gateways) device_name =
    let rest = default_gateway gateways device_name in
    if gw.device == device_name && gw.is_default then ok gw else rest

module _ (ip_interface : String → Option IpInterface) where
  interfaces : List InetInfo → Result NetError (List IpInterface)
  interfaces [] = ok []
  interfaces (info ∷ infos) =
      let rest = interfaces infos in
      elim (ip_interface (info.addr ++ ("/" ++ info.netmask))) [
        | none ↦ err (value_error info.addr)
        | some first ↦ elim rest [ ok ip_infos ↦ ok (first ∷ ip_infos) | err e ↦ err e ]
      ]

  inet_interfaces : String → Option (List InetInfo) → Result NetError (List IpInterface)
  unfolding interfaces
  inet_interfaces device_name none = err (no_inet device_name)
  inet_interfaces device_name (some infos) = interfaces infos

  -- `network_info`; `ifaddresses` gives the entries of `AF_INET` of an interface, if it has any.
  pub network_info :
      (String → Option (Option (List InetInfo))) → String → Result NetError (List IpInterface)
  unfolding inet_interfaces
  network_info ifaddresses device_name = elim (ifaddresses device_name) [
    | none ↦ err (unknown_interface device_name)
    | some inet ↦ inet_interfaces device_name inet
  ]

  -- `_setup_macvlan_device`
  pub setup :
      (List String → String → Bool)
      → (String → Option (Option (List InetInfo)))
      → String
      → NetStep (Unit {0})
  unfolding remove_existing with_first network_info
  setup succeeds ifaddresses paravirt_device =
      remove_existing succeeds "vm-macvlan"
      >> with_first succeeds paravirt_device (network_info ifaddresses paravirt_device)
