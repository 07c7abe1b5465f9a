-- ===== src/Hypervisor/Allocator/Tests.antt =====
-- Runs of the allocator and of the requests for machines at concrete inputs.
use habertest_backend.Base.{
  beq_refl, ℕ, string_eq, ◌≡◌, ◌≢◌, refl, String, true, none, some, List, [], ◌∷◌, arith, length,
  take, ◌+◌, Bool, if◌then◌else◌, ◌≤◌, ◌<◌, ◌&&◌,
}
use habertest_backend.Base.Dict.{lookup, insert, Dict, has_key}
use habertest_backend.Base.Exec.{Result, ok, err}
use habertest_backend.Hypervisor.Vm.{port_eq, Vm, Device, macs_of, Port}
use habertest_backend.Hypervisor.Allocator.{
  zip_networks, Allocator, VmRequest, Bind, bound, init, many, begin_allocate, allocate_vm,
  check_allocate, reserve_free_port, destroy_vm, manager_error, socket_error, new_vm, as_list,
  AllocError, validate_networks_params, free_vm_resources, finish_allocate, destroy_locked, delete,
}
use habertest_backend.Hypervisor.Allocator.Names.{find_name, vm_name}
use habertest_backend.Hypervisor.Allocator.Names.Fresh.{find_name_first}
use habertest_backend.Hypervisor.Allocator.Ports.{Search, reserve_free_port-Search}
use habertest_backend.Hypervisor.Allocator.Begin.{Begins, begin_allocate-Begins, taken, extended}
use habertest_backend.Hypervisor.Allocator.Accounts.{
  IsAccounted, SameResources, macs_in, gpus_in, ports_in,
}
use habertest_backend.Hypervisor.Allocator.Runs.{
  here, later, begins, Reach-IsAccounted, no_port_leaks, destroy_stale,
}
use habertest_backend.Hypervisor.Allocator.Checks.{
  SamePools, allocate_vm_failed, destroy-allocate, check_allocate-of-created,
  created-of-check_allocate,
}
use habertest_backend.Base.Counts.{remove, count, contains}
use habertest_backend.Hypervisor.Allocator.Restore.{
  VmData, RestoreWorld, full_address, reallocated, try_restore_vm, macs_to_reserve, gpus_to_reserve,
  find_gpu, try_restore_ip, is_broken, take_macs, take_mac, take_gpus, take_gpu,
}
use habertest_backend.Hypervisor.Allocator.Restore.Pools.{try_restore_vm_moves}
use habertest_backend.Hypervisor.Rest.{
  HostReqs, vm_args, translate_to_vm_params, Demand, World, allocate_all, has_exception, fulfill,
  settle,
}
use habertest_backend.Hypervisor.Rest.Rollback.{Unchanged, HavePorts, fulfill_failed}

abbrev gpu : Device
gpu = record { domain = "0000"; bus = "01"; slot = "00"; function = "0" }

abbrev macs : List String
macs = "52:54:00:8d:c0:07" ∷ "52:54:00:8d:c0:08" ∷ []

abbrev start : Allocator
start = init macs (gpu ∷ []) "server" 2 8000 "eth0" "default"

abbrev one_gpu : VmRequest
one_gpu = record {
  base_image = "ubuntu";
  base_image_size = none;
  memory_gb = 20;
  networks = many ("bridge" ∷ []);
  num_gpus = 1;
  num_cpus = 10;
  disks = none;
  allocation_id = some "id";
  requestor = none;
}

abbrev all_bound : ℕ → Bind
all_bound port = bound

abbrev all_taken : ℕ → Bind
all_taken port = Bind.failed

abbrev builds : Vm → Result String Vm
builds vm = ok vm

abbrev breaks : Vm → Result String Vm
breaks vm = err "no space left"

abbrev first : Vm
first = new_vm "uuid" (vm_name "server" 0) one_gpu (taken one_gpu start 8000)

begun :
    begin_allocate all_bound "uuid" one_gpu start
    ≡ (ok first, extended one_gpu start 8000 (vm_name "server" 0) first)
unfolding begin_allocate init reserve_free_port find_name validate_networks_params lookup
begun = refl

has_port : (begin_allocate all_bound "uuid" one_gpu start).0 ≢ err socket_error
has_port e = ground (arith, begun, e)

Reach-IsAccounted_example :
    IsAccounted macs (gpu ∷ []) (begin_allocate all_bound "uuid" one_gpu start).1
Reach-IsAccounted_example =
    Reach-IsAccounted macs (gpu ∷ []) "server" 2 8000 "eth0" "default"
      (later here (begins all_bound "uuid" one_gpu has_port refl))

begin_allocate-Begins_example :
    Begins all_bound "uuid" one_gpu start (begin_allocate all_bound "uuid" one_gpu start)
begin_allocate-Begins_example = begin_allocate-Begins all_bound "uuid" one_gpu start

reserve_free_port-Search_example :
    Search all_bound 8000 500 start (reserve_free_port all_bound 8000 500 start)
reserve_free_port-Search_example = reserve_free_port-Search all_bound start 8000 500

failed : (allocate_vm all_bound "uuid" breaks one_gpu start).0 ≡ err (manager_error "no space left")
unfolding allocate_vm init finish_allocate free_vm_resources delete lookup insert remove
failed = ground (arith, begun, beq_refl (vm_name "server" 0))

allocate_vm_failed_example : SamePools start (allocate_vm all_bound "uuid" breaks one_gpu start).1
allocate_vm_failed_example =
    allocate_vm_failed all_bound "uuid" breaks one_gpu start "no space left" failed

allocated : (allocate_vm all_bound "uuid" builds one_gpu start).0 ≡ ok first
unfolding allocate_vm init finish_allocate
allocated = ground (arith, begun)

kept : (m m' : Vm) → builds m ≡ ok m' → SameResources m m' × (m'.name ≡ m.name)
kept m m' e =
    let same : m ≡ m' = ground (arith, e) in
    rw same (record { macs = refl; pcis = refl; sol_port = refl }, refl)

destroy-allocate_example :
    SamePools start
      (destroy_vm first.name (λ _. ok tt) (allocate_vm all_bound "uuid" builds one_gpu start).1).1
destroy-allocate_example =
    destroy-allocate all_bound "uuid" builds one_gpu start first kept allocated

check_allocate-of-created_example : check_allocate one_gpu start ≡ true
unfolding init
check_allocate-of-created_example =
    check_allocate-of-created all_bound "uuid" one_gpu start first (omega arith) (omega arith)
      (ground (arith, begun))

promised : check_allocate one_gpu start ≡ true
unfolding check_allocate init validate_networks_params
promised = refl

created-of-check_allocate_example :
    (vm : Vm) × ((begin_allocate all_bound "uuid" one_gpu start).0 ≡ ok vm)
created-of-check_allocate_example =
    created-of-check_allocate all_bound "uuid" one_gpu macs (gpu ∷ []) "server" 2 8000 "eth0"
      "default" (λ port. refl) (omega arith) promised

-- The first two names are taken.
abbrev two_taken : Dict String ℕ
two_taken = (vm_name "server" 1, 1) ∷ (vm_name "server" 2, 2) ∷ []

find_name_first_example :
    (m : ℕ) × (1 ≤ m)
    × (find_name "server" 3 1 two_taken ≡ some (vm_name "server" m))
    × (lookup (vm_name "server" m) two_taken ≡ none)
    × ((j : ℕ) → 1 ≤ j → j < m → has_key (vm_name "server" j) two_taken ≡ true)
find_name_first_example = find_name_first "server" 3 1 two_taken (omega arith)

-- No port can be bound.
unreserved : (begin_allocate all_taken "uuid" one_gpu start).0 ≡ err socket_error
unfolding begin_allocate init reserve_free_port find_name validate_networks_params lookup
unreserved = refl

init_books : IsAccounted macs (gpu ∷ []) start
init_books = Reach-IsAccounted macs (gpu ∷ []) "server" 2 8000 "eth0" "default" here

no_port_leaks_example :
    let t = (begin_allocate all_taken "uuid" one_gpu start).1 in
    (t.vms ≡ start.vms)
    × ((p : String → Bool)
        → count p t.mac_addresses
            + macs_in p t.vms
            + count p (take (length (as_list one_gpu.networks)) start.mac_addresses)
          ≡ count p macs)
    × ((p : Device → Bool)
        → count p t.gpus_list + gpus_in p t.vms + count p (take one_gpu.num_gpus start.gpus_list)
          ≡ count p (gpu ∷ []))
no_port_leaks_example = no_port_leaks all_taken "uuid" one_gpu start unreserved init_books

abbrev running : Allocator
running = (begin_allocate all_bound "uuid" one_gpu start).1

-- A machine of the same name that another request destroyed before.
abbrev stale : Vm
stale = new_vm "other" (vm_name "server" 0) one_gpu (taken one_gpu start 8000)

is_running : lookup (vm_name "server" 0) running.vms ≡ some first
unfolding lookup insert init
is_running = ground (arith, begun, beq_refl (vm_name "server" 0))

running_books : IsAccounted macs (gpu ∷ []) running
running_books =
    Reach-IsAccounted macs (gpu ∷ []) "server" 2 8000 "eth0" "default"
      (later here (begins all_bound "uuid" one_gpu has_port refl))

destroy_stale_example :
    let t = (destroy_locked (vm_name "server" 0) stale (ok tt) running).1 in
    ((p : String → Bool)
      → count p t.mac_addresses + macs_in p t.vms + count p (macs_of first)
        ≡ count p macs + count p (macs_of stale))
    × ((p : Device → Bool)
        → count p t.gpus_list + gpus_in p t.vms + count p first.pcis
          ≡ count p (gpu ∷ []) + count p stale.pcis)
    × ((p : Port → Bool)
        → count p t.sol_used_ports
            + (if contains stale.sol_port running.sol_used_ports && p stale.sol_port then 1 else 0)
          ≡ ports_in p t.vms + (if p first.sol_port then 1 else 0))
destroy_stale_example =
    destroy_stale (vm_name "server" 0) stale first running is_running running_books

-- A request for two machines on a hypervisor with one GPU.
abbrev no_reqs : HostReqs
no_reqs = record {
  networks = none;
  cpus = none;
  gpus = none;
  image = none;
  size = none;
  ram = none;
  disks = none;
}

abbrev two_hosts : Demand
two_hosts = record {
  demands = ("a", no_reqs) ∷ ("b", no_reqs) ∷ [];
  allocation_id = some "id";
  requestor = none;
}

abbrev world : World
world = record { bind = all_bound; uuid = λ req. "uuid"; build = builds; demolish = λ vm. ok tt }

abbrev half_done : List (Result AllocError Vm) × Allocator
half_done = allocate_all world (translate_to_vm_params two_hosts) start

ports_found : HavePorts half_done.0
unfolding allocate_all translate_to_vm_params vm_args allocate_vm begin_allocate init
    reserve_free_port find_name validate_networks_params lookup finish_allocate insert
ports_found = (λ e. ground (arith, e), (λ e. ground (arith, e), tt))

refused_half : (fulfill world two_hosts start).0.status ≡ 500
unfolding fulfill settle has_exception allocate_all translate_to_vm_params vm_args allocate_vm
    begin_allocate init reserve_free_port find_name validate_networks_params lookup finish_allocate
    insert
refused_half = refl

fulfill_failed_example : Unchanged start (fulfill world two_hosts start).1
fulfill_failed_example =
    fulfill_failed world two_hosts start kept (λ vm. refl) ports_found init_books refused_half

-- A machine that libvirt remembers.
abbrev remembered : VmData
remembered = record { machine = record first { pcis = [] }; pcis = full_address gpu ∷ [] }

abbrev libvirt : RestoreWorld
libvirt = record {
  storage_valid = λ vm. true;
  reallocate_ip = λ net i. reallocated;
  destroy = λ vm. true;
}

restored : (try_restore_vm libvirt remembered start).0 ≡ ok tt
unfolding try_restore_vm init macs_to_reserve gpus_to_reserve find_gpu try_restore_ip is_broken
    take_macs take_mac take_gpus take_gpu remove zip_networks
restored = ground (arith, beq_refl (full_address gpu))

no_machine : lookup (vm_name "server" 0) start.vms ≡ none
unfolding init lookup
no_machine = refl

try_restore_vm_moves_example :
    let t = (try_restore_vm libvirt remembered start).1 in
    ((p : String → Bool)
      → count p t.mac_addresses + macs_in p t.vms
        ≡ count p start.mac_addresses + macs_in p start.vms)
    × ((p : Device → Bool)
        → count p t.gpus_list + gpus_in p t.vms ≡ count p start.gpus_list + gpus_in p start.vms)
try_restore_vm_moves_example = try_restore_vm_moves libvirt remembered start restored no_machine
