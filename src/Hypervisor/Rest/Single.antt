-- ===== src/Hypervisor/Rest/Single.antt =====
-- The handlers for one machine: `handle_allocate_vm`, `handle_vm_update` and the two that read
-- (resource_managers/hypervisor/vms/rest.py). A missing key of a body is a `KeyError` that no handler
-- catches.
use habertest_backend.Base.{
  ℕ, string_eq, ◌==◌, String, Option, none, some, List, [], ◌∷◌, if◌then◌else◌,
}
use habertest_backend.Base.Dict.{lookup, values}
use habertest_backend.Base.Exec.{Result, ok, err}
use habertest_backend.Hypervisor.Vm.{Vm, Disk}
use habertest_backend.Hypervisor.Allocator.{Allocator, AllocError, VmRequest, Networks, allocate_vm}
use habertest_backend.Hypervisor.Rest.{World, or_default}

-- The body of a request for one machine. `disks` may be there and null.
pub record VmBody : Type 0 where
  pub networks : Option Networks
  pub num_cpus : Option ℕ
  pub num_gpus : Option ℕ
  pub base_image : Option String
  pub base_image_size : Option ℕ
  pub ram : Option ℕ
  pub disks : Option (Option (List Disk))
  pub allocation_id : Option String

-- A reply, or the exception that the handler lets out.
pub data SingleReply : Type 0 where
  key_missing : SingleReply
  created : Vm → SingleReply
  failed : AllocError → SingleReply

-- The arguments of `allocate_vm`, once the keys that must be there are.
body_args : VmBody → Networks → String → ℕ → Option (List Disk) → VmRequest
body_args b networks base_image ram disks = record {
  base_image = base_image;
  base_image_size = b.base_image_size;
  memory_gb = ram;
  networks = networks;
  num_gpus = or_default b.num_gpus 0;
  num_cpus = or_default b.num_cpus 1;
  disks = disks;
  allocation_id = b.allocation_id;
  requestor = none;
}

pub request_of : VmBody → Option VmRequest
unfolding body_args
request_of b = elim b.networks [
  | none ↦ none
  | some networks ↦ elim b.base_image [
    | none ↦ none
    | some base_image ↦ elim b.ram [
      | none ↦ none
      | some ram ↦ elim b.disks [
        | none ↦ none
        | some disks ↦ some (body_args b networks base_image ram disks)
      ]
    ]
  ]
]

reply_of : Result AllocError Vm × Allocator → SingleReply × Allocator
reply_of (ok vm, s) = (created vm, s)
reply_of (err e, s) = (failed e, s)

-- `handle_allocate_vm`
pub handle_allocate_vm : World → VmBody → Allocator → SingleReply × Allocator
unfolding request_of reply_of
handle_allocate_vm w b s = elim (request_of b) [
  | none ↦ (key_missing, s)
  | some req ↦ reply_of (allocate_vm w.bind (w.uuid req) w.build req s)
]

-- What a power request makes the vm manager do.
pub data PowerAction : Type 0 where
  not_found key_missing_power : PowerAction
  starts stops : Vm → PowerAction
  nothing_to_do : PowerAction

-- `handle_vm_update`, with no other task in between; `power` is `data['power']`, if it is there.
pub handle_vm_update : String → Option String → Allocator → PowerAction
handle_vm_update name power s = elim (lookup name s.vms) [
  | none ↦ not_found
  | some vm ↦ elim power [
    | none ↦ key_missing_power
    | some p ↦ if p == "on" then starts vm else if p == "off" then stops vm else nothing_to_do
  ]
]

-- `handle_list_vms`: every machine with the status that the vm manager gives it.
pub list_vms : (Vm → String) → List Vm → List (Vm × String)
list_vms status [] = []
list_vms status (vm ∷ vms) = (vm, status vm) ∷ list_vms status vms

pub handle_list_vms : (Vm → String) → Allocator → List (Vm × String)
unfolding list_vms
handle_list_vms status s = list_vms status (values s.vms)
