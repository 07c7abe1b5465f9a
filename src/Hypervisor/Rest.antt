-- ===== src/Hypervisor/Rest.antt =====
-- `class HyperVisor` (resource_managers/hypervisor/vms/rest.py). The tasks of one request run one after
-- the other here; their interleavings are those of the allocator's steps. Numbers in a request are
-- numbers already, and a set of results keeps the order of the requests.
pub mod Rollback
pub mod Single
use habertest_backend.Base.{
  ◌==◌, string_eq, ℕ, Bool, true, false, ◌&&◌, String, Option, none, some, List, [], ◌∷◌, map,
  if◌then◌else◌,
}
use habertest_backend.Base.Dict.{Dict, values}
use habertest_backend.Base.Exec.{Result, ok, err}
use habertest_backend.Hypervisor.Vm.{Vm, Disk}
use habertest_backend.Hypervisor.Allocator.{
  Allocator, AllocError, key_error, Bind, VmRequest, Networks, many, check_allocate, allocate_vm,
  destroy_vm,
}

-- The requirements of one host.
pub record HostReqs : Type 0 where
  pub networks : Option Networks
  pub cpus : Option ℕ
  pub gpus : Option ℕ
  pub image : Option String
  pub size : Option ℕ
  pub ram : Option ℕ
  pub disks : Option (List Disk)

-- The body of a request for machines.
pub record Demand : Type 0 where
  pub demands : Dict String HostReqs
  pub allocation_id : Option String
  pub requestor : Option (Dict String String)

module _ {A : Type 0} where
  -- `d.get(key, default)`
  abbrev pub or_default : Option A → A → A
  or_default none x = x
  or_default (some y) x = y

unfoldable pub vm_args : Demand → HostReqs → VmRequest
vm_args d reqs = record {
  networks = or_default reqs.networks (many ("bridge" ∷ []));
  num_cpus = or_default reqs.cpus 10;
  num_gpus = or_default reqs.gpus 1;
  base_image = or_default reqs.image "ubuntu-compose_v2";
  base_image_size = some (or_default reqs.size 150);
  memory_gb = or_default reqs.ram 20;
  disks = reqs.disks;
  allocation_id = d.allocation_id;
  requestor = d.requestor;
}

-- `translate_to_vm_params`
unfoldable pub translate_to_vm_params : Demand → List VmRequest
unfolding vm_args
translate_to_vm_params d = map (vm_args d) (values d.demands)

-- `all(possible)`
all_possible : List VmRequest → Allocator → Bool
all_possible [] s = true
all_possible (req ∷ reqs) s = check_allocate req s && all_possible reqs s

-- A reply: its status and, of its body, the machines under `info`.
pub record Response : Type 0 where
  pub status : ℕ
  pub info : Option (List Vm)

-- `check_fulfill`
pub check_fulfill : Demand → Allocator → Response
unfolding all_possible translate_to_vm_params
check_fulfill d s =
    if all_possible (translate_to_vm_params d) s
    then record { status = 200; info = none }
    else record { status = 406; info = none }

-- The world of a request: what `bind` answers, the id and the completion of the machine of a request.
pub record World : Type 0 where
  pub bind : ℕ → Bind
  pub uuid : VmRequest → String
  pub build : Vm → Result String Vm
  pub demolish : Vm → Result String (Unit {0})

-- the gathered `allocate_vm` of all requests
unfoldable pub allocate_all :
    World → List VmRequest → Allocator → List (Result AllocError Vm) × Allocator
allocate_all w [] s = ([], s)
allocate_all w (req ∷ reqs) s =
    let (result, t) = allocate_vm w.bind (w.uuid req) w.build req s in
    let (results, u) = allocate_all w reqs t in (result ∷ results, u)

unfoldable pub completed : List (Result AllocError Vm) → List Vm
completed [] = []
completed (ok vm ∷ results) = vm ∷ completed results
completed (err _ ∷ results) = completed results

unfoldable pub has_exception : List (Result AllocError Vm) → Bool
has_exception [] = false
has_exception (ok _ ∷ results) = has_exception results
has_exception (err _ ∷ results) = true

-- the gathered `destroy_vm`
unfoldable pub destroy_all : World → List Vm → Allocator → Allocator
destroy_all w [] s = s
destroy_all w (vm ∷ vms) s = destroy_all w vms (destroy_vm vm.name w.demolish s).1

-- The end of `fulfill`, at the results of its requests.
unfoldable pub settle : World → List (Result AllocError Vm) × Allocator → Response × Allocator
unfolding completed has_exception destroy_all
settle w (results, s) =
    if has_exception results
    then (record { status = 500; info = none }, destroy_all w (completed results) s)
    else (record { status = 200; info = some (completed results) }, s)

-- `fulfill`
unfoldable pub fulfill : World → Demand → Allocator → Response × Allocator
unfolding allocate_all settle translate_to_vm_params
fulfill w d s = settle w (allocate_all w (translate_to_vm_params d) s)

-- `handle_destroy_vm`
destroy_status : Result AllocError (Unit {0}) → ℕ
destroy_status (ok _) = 200
destroy_status (err key_error) = 404
destroy_status (err _) = 500

pub handle_destroy_vm : World → String → Allocator → ℕ × Allocator
unfolding destroy_status
handle_destroy_vm w name s =
    let (result, t) = destroy_vm name w.demolish s in (destroy_status result, t)

-- `handle_get_allocation`
has_allocation : String → Vm → Bool
has_allocation id vm = elim vm.allocation_id [ none ↦ false | some own ↦ own == id ]

vms_of : String → List Vm → List Vm
unfolding has_allocation
vms_of id [] = []
vms_of id (vm ∷ vms) = let rest = vms_of id vms in if has_allocation id vm then vm ∷ rest else rest

pub handle_get_allocation : String → Allocator → Response
unfolding vms_of
handle_get_allocation id s = record { status = 200; info = some (vms_of id (values s.vms)) }
