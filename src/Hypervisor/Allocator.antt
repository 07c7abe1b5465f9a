-- ===== src/Hypervisor/Allocator.antt =====
-- `class Allocator` (resource_managers/hypervisor/vms/allocator.py): the pools of MAC addresses, GPUs
-- and serial ports, and the machines that hold items of them.
pub mod Names
pub mod Ports
pub mod Begin
pub mod Accounts
pub mod Keeps
pub mod Machines
pub mod Restore
pub mod Runs
pub mod Checks
pub mod Tests
use habertest_backend.Base.{
  ℕ, zero, suc, ◌+◌, String, Bool, true, false, not, ◌&&◌, ◌||◌, Option, none, some, List, [], ◌∷◌,
  ◌++◌, ◌==◌, string_eq, ltb, nat_beq, if◌then◌else◌, length, take, drop,
}
use habertest_backend.Base.Counts.{contains, remove}
use habertest_backend.Base.Dict.{Dict, lookup, has_key, insert, erase}
use habertest_backend.Base.Exec.{
  Result, ok, err, Exec, pure, raise, raise_if, gets, modify, ◌>>=◌, ◌>>◌,
}
use habertest_backend.Hypervisor.Vm.{
  Device, NetIface, Disk, Vm, Port, number, macs_of_nets, port_eq,
}
use Names.{find_name}

pub record Allocator : Type 0 where
  pub mac_addresses : List String
  pub total_mac_addresses : ℕ
  pub gpus_list : List Device
  pub total_gpus : ℕ
  pub vms : Dict String Vm
  pub server_name : String
  pub max_vms : ℕ
  pub paravirt_net_device : String
  pub private_network : String
  pub sol_base_port : ℕ
  pub sol_used_ports : List Port

-- `networks`: a list of network names, or one name.
pub data Networks : Type 0 where
  one : String → Networks
  many : List String → Networks

abbrev pub as_list : Networks → List String
as_list (one net) = net ∷ []
as_list (many nets) = nets

-- The arguments of `check_allocate` and `allocate_vm`.
pub record VmRequest : Type 0 where
  pub base_image : String
  pub base_image_size : Option ℕ
  pub memory_gb : ℕ
  pub networks : Networks
  pub num_gpus : ℕ
  pub num_cpus : ℕ
  pub disks : Option (List Disk)
  pub allocation_id : Option String
  pub requestor : Option (Dict String String)

pub data AllocError : Type 0 where
  not_enough_resource value_error socket_error key_error name_loop : AllocError
  manager_error : String → AllocError

-- What `sock.bind` answers at a port: success, `EADDRINUSE`, or another error.
pub data Bind : Type 0 where
  bound in_use failed : Bind

-- `__init__`
pub init : List String → List Device → String → ℕ → ℕ → String → String → Allocator
init macs gpus server max_vms sol_base_port paravirt_device private_network = record {
  mac_addresses = macs;
  total_mac_addresses = length macs;
  gpus_list = gpus;
  total_gpus = length gpus;
  vms = [];
  server_name = server;
  max_vms = max_vms;
  paravirt_net_device = paravirt_device;
  private_network = private_network;
  sol_base_port = sol_base_port;
  sol_used_ports = [];
}

-- `_validate_networks_params`; `false` is its `ValueError`.
pub validate_networks_params : List String → Bool
validate_networks_params [] = true
validate_networks_params (net ∷ nets) =
    (net == "bridge" || net == "isolated") && validate_networks_params nets

-- `check_allocate`
pub check_allocate : VmRequest → Allocator → Bool
check_allocate req s =
    let networks = as_list req.networks in
    if ltb s.total_mac_addresses (length networks)
    then false
    else if ltb s.total_gpus req.num_gpus
    then false
    else validate_networks_params networks

-- `_reserve_free_port`, at what `bind` answers for each port
pub reserve_free_port : (ℕ → Bind) → ℕ → ℕ → Exec AllocError Allocator ℕ
reserve_free_port bind port zero s = (err socket_error, s)
reserve_free_port bind port (suc attempts) s =
    let rest = reserve_free_port bind (port + 1) attempts s in
    if contains (number port) s.sol_used_ports then rest else elim (bind port) [
      | bound ↦ (ok port, record s { sol_used_ports = s.sol_used_ports ++ number port ∷ [] })
      | in_use ↦ rest
      | failed ↦ (err socket_error, s)
    ]

-- `_reserve_gpus`
reserve_gpus : ℕ → Exec AllocError Allocator (List Device)
reserve_gpus num_gpus s =
    (ok (take num_gpus s.gpus_list), record s { gpus_list = drop num_gpus s.gpus_list })

-- `_reserve_macs`
reserve_macs : List String → Exec AllocError Allocator (List String)
reserve_macs networks s = (
  ok (take (length networks) s.mac_addresses),
  record s { mac_addresses = drop (length networks) s.mac_addresses },
)

-- the comprehension over `zip(required_macs, networks)`
pub zip_networks : Allocator → List String → List String → List NetIface
zip_networks s [] networks = []
zip_networks s (mac ∷ macs) [] = []
zip_networks s (mac ∷ macs) (network_type ∷ networks) =
    record {
      macaddress = mac;
      mode = network_type;
      source = if network_type == "bridge" then s.paravirt_net_device else s.private_network;
      ip = none;
    }
    ∷ zip_networks s macs networks

-- `_reserve_networks`
reserve_networks : List String → Exec AllocError Allocator (List NetIface)
unfolding reserve_macs
reserve_networks networks = do
  required_macs ← reserve_macs networks
  gets (λ s. zip_networks s required_macs networks)

-- `_free_vm_resources`; `sol_used_ports.remove` raises when the port is not in the list.
pub free_vm_resources : List Device → List NetIface → Port → Exec AllocError Allocator (Unit {0})
free_vm_resources gpus networks sol_port s =
    let s' : Allocator = record s {
      gpus_list = s.gpus_list ++ gpus;
      mac_addresses = s.mac_addresses ++ macs_of_nets networks;
    } in
    elim (remove sol_port s.sol_used_ports) [
      | none ↦ (err value_error, s')
      | some ports ↦ (ok tt, record s' { sol_used_ports = ports })
    ]

-- The GPUs, networks and serial port that a new machine gets.
pub record Reserved : Type 0 where
  pub gpus : List Device
  pub networks : List NetIface
  pub sol_port : ℕ

-- `allocate_vm`, the part under `self.lock`
pub reserve : (ℕ → Bind) → VmRequest → Exec AllocError Allocator Reserved
unfolding reserve_gpus reserve_networks
reserve bind req = do
  let networks = as_list req.networks
  s ← gets (λ s. s)
  raise_if (ltb (length s.mac_addresses) (length networks)) not_enough_resource
  raise_if (ltb (length s.gpus_list) req.num_gpus) not_enough_resource
  raise_if (not (validate_networks_params networks)) value_error
  raise_if (nat_beq s.max_vms (length s.vms)) not_enough_resource
  gpus ← reserve_gpus req.num_gpus
  nets ← reserve_networks networks
  sol_port ← reserve_free_port bind (s.sol_base_port + length s.vms) 500
  pure (record { gpus = gpus; networks = nets; sol_port = sol_port })

-- `VM(name=vm_name, …)`, which only stores its arguments: it does not raise, so the handler around it, which
-- would give the resources back, is not reached.
abbrev pub new_vm : String → String → VmRequest → Reserved → Vm
new_vm uuid vm_name req r = record {
  name = vm_name;
  num_cpus = req.num_cpus;
  memsize = req.memory_gb;
  base_image = req.base_image;
  user = "root";
  password = "root";
  sol_port = number r.sol_port;
  base_image_size = req.base_image_size;
  net_ifaces = r.networks;
  pcis = r.gpus;
  disks = elim req.disks [ none ↦ [] | some ds ↦ ds ];
  api_version = "v1";
  image = none;
  cloud_init_iso = none;
  uuid = uuid;
  allocation_id = req.allocation_id;
  requestor = req.requestor;
}

-- The machine under its new name, `self.vms[vm_name] = machine`.
create : String → VmRequest → Reserved → Option String → Exec AllocError Allocator Vm
create uuid req r none = raise name_loop
create uuid req r (some vm_name) = do
  let vm : Vm = new_vm uuid vm_name req r
  modify (λ s. record s { vms = insert vm_name vm s.vms })
  pure vm

-- `allocate_vm`, from its lock to `self.vms[vm_name] = machine`: no other task runs in between. The
-- loop over names gets one round more than there are machines.
pub begin_allocate : (ℕ → Bind) → String → VmRequest → Exec AllocError Allocator Vm
unfolding create reserve
begin_allocate bind uuid req = do
  r ← reserve bind req
  s ← gets (λ s. s)
  create uuid req r (find_name s.server_name (length s.vms + 1) (length s.vms) s.vms)

-- `del self.vms[name]`
pub delete : String → Exec AllocError Allocator (Unit {0})
delete name s =
    if has_key name s.vms then (ok tt, record s { vms = erase name s.vms }) else (err key_error, s)

-- `allocate_vm`, after `vm_manager.allocate_vm(machine)`: the machine that it completed, or the error
-- that it raised. The manager completes the machine that stands in `vms`.
pub finish_allocate : Vm → Result String Vm → Exec AllocError Allocator Vm
unfolding delete
finish_allocate machine (ok vm) = do
  modify (λ s. record s { vms = insert machine.name vm s.vms })
  pure vm
finish_allocate machine (err e) = do
  free_vm_resources machine.pcis machine.net_ifaces machine.sol_port
  delete machine.name
  raise (manager_error e)

-- `allocate_vm`, with no other task in between
pub allocate_vm :
    (ℕ → Bind) → String → (Vm → Result String Vm) → VmRequest → Exec AllocError Allocator Vm
allocate_vm bind uuid manager req = do
  machine ← begin_allocate bind uuid req
  finish_allocate machine (manager machine)

-- `destroy_vm`, its lookup of the machine
pub find_vm : String → Exec AllocError Allocator Vm
find_vm name s = elim (lookup name s.vms) [ none ↦ (err key_error, s) | some vm ↦ (ok vm, s) ]

-- `destroy_vm`, under the lock of the machine that the lookup found
pub destroy_locked : String → Vm → Result String (Unit {0}) → Exec AllocError Allocator (Unit {0})
unfolding delete
destroy_locked name vm (ok _) = do
  s ← gets (λ s. s)
  raise_if (not (has_key name s.vms)) key_error
  delete name
  free_vm_resources vm.pcis vm.net_ifaces vm.sol_port
destroy_locked name vm (err e) = do
  s ← gets (λ s. s)
  raise_if (not (has_key name s.vms)) key_error
  raise (manager_error e)

-- `destroy_vm`, with no other task in between
pub destroy_vm : String → (Vm → Result String (Unit {0})) → Exec AllocError Allocator (Unit {0})
unfolding find_vm
destroy_vm name manager = do vm ← find_vm name; destroy_locked name vm (manager vm)
