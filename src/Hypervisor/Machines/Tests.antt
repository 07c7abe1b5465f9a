-- ===== src/Hypervisor/Machines/Tests.antt =====
-- A machine with one disk: once its file system cannot be made, once all calls succeed.
use habertest_backend.Hypervisor.Machines.Destroyed.{IsCleaned, CanKill}
use habertest_backend.Hypervisor.Machines.Filled.{allocate_vm_complete, HasImage}
use habertest_backend.Hypervisor.Machines.Cleanup.{allocate_vm_cleans}
use habertest_backend.Hypervisor.Calls.Quiet.{Called}
use habertest_backend.Hypervisor.Allocator.Restore.{VmData}
use habertest_backend.Hypervisor.Machines.Leftovers.{
  delete_all_dangling_vms, delete_all_dangling_vms-Called,
}
use Prim.Native.String.{◌++◌}
use habertest_backend.Base.{
  List, inl, inr, string_eq, true, String, none, some, [], ◌∷◌, ◌≡◌, refl, if◌then◌else◌, ◌==◌, All,
}
use habertest_backend.Base.Exec.{Result, ok, err}
use habertest_backend.Hypervisor.Machines.{Manager, all_tasks, allocate_vm, name_disks}
use habertest_backend.Hypervisor.Calls.{
  remove_file, Session, kill_by_name, Call, Os, failed, provision, libvirt, define_vm, start_vm,
  allocate_ip, with_connection,
}
use habertest_backend.Hypervisor.Vm.{NetIface, Disk, Vm, number}
use habertest_backend.Hypervisor.CloudInit.{generate_iso}
use habertest_backend.Hypervisor.Machines.Recorded.{all_tasks-IsSchedule}
use habertest_backend.Hypervisor.Images.{clone_qcow, create_qcow}

abbrev pub disk : Disk
disk = record {
  type = "ssd";
  size = 10;
  fs = some "ext4";
  mount = none;
  serial = none;
  device_name = none;
  image = none;
}

abbrev pub net : NetIface
net = record { macaddress = "52:54:00:00:00:01"; mode = "isolated"; source = "default"; ip = none }

abbrev pub machine : Vm
machine = record {
  name = "host-vm-0";
  num_cpus = 2;
  memsize = 4;
  base_image = "ubuntu";
  user = "root";
  password = "root";
  sol_port = number 1000;
  base_image_size = none;
  net_ifaces = net ∷ [];
  pcis = [];
  disks = disk ∷ [];
  api_version = "v1";
  image = none;
  cloud_init_iso = none;
  uuid = "1";
  allocation_id = none;
  requestor = none;
}

abbrev answers : String → Call → Result String String
answers fails (provision path fs serial) = if fails == "provision" then err "mkfs" else ok ""
answers fails (libvirt operation args) =
    if operation == "lookupByName" then err "no domain" else ok ""
answers fails c = ok "10.0.0.2"

abbrev os : String → Os
os fails = record {
  answer = λ n. answers fails;
  exists_file = λ n path. true;
  time = λ n. "1";
  uuid4 = λ n. "2";
  abspath = λ path. path;
  join = λ directory file. directory ++ ("/" ++ file);
}

abbrev manager : Manager
manager = record {
  images = record {
    base_qcow_path = "base";
    run_qcow_path = "run";
    ssd_path = "ssd";
    hdd_path = "hdd";
  };
  iso_base_path = "run";
  uri = "qemu";
  handlers = "isolated" ∷ [];
  metadata = λ vm. "";
}

abbrev fresh : Session
fresh = record { calls = []; vm = machine }

can_kill : CanKill (os "provision") manager
unfolding kill_by_name
can_kill s = ("", refl)

failure : (allocate_vm (os "provision") manager all_tasks fresh).0 ≡ err (failed "mkfs")
unfolding allocate_vm all_tasks clone_qcow create_qcow generate_iso
failure = refl

allocate_vm_cleans_example :
    IsCleaned (os "provision") manager (allocate_vm (os "provision") manager all_tasks fresh).2
allocate_vm_cleans_example =
    allocate_vm_cleans (os "provision") manager all_tasks fresh (failed "mkfs") can_kill
      all_tasks-IsSchedule refl failure

abbrev made_machine : Vm
made_machine = record machine {
  image = some "run/host-vm-0_1.qcow2";
  cloud_init_iso = some "run/host-vm-0_1.iso";
  disks =
      record disk {
        serial = some "2";
        device_name = some "sdb";
        image = some "ssd/host-vm-0_ssd_2.qcow2";
      }
      ∷ [];
  net_ifaces = record net { ip = some "10.0.0.2" } ∷ [];
}

abbrev willing : Os
willing = record (os "nothing") { answer = λ n c. ok "10.0.0.2" }

success : (allocate_vm willing manager all_tasks fresh).0 ≡ ok made_machine
unfolding allocate_vm all_tasks clone_qcow create_qcow generate_iso allocate_ip define_vm start_vm
    with_connection
success = refl

allocate_vm_complete_example : All (HasImage willing made_machine) (0 ∷ 1 ∷ [])
unfolding all_tasks name_disks
allocate_vm_complete_example =
    allocate_vm_complete willing manager all_tasks fresh made_machine all_tasks-IsSchedule success

-- Two machines that were left behind, of which the first has no images
abbrev left_over : VmData
left_over = record { machine = made_machine; pcis = "0000:01:00.0" ∷ [] }

abbrev found : List VmData
found = record { machine = machine; pcis = [] } ∷ left_over ∷ []

delete_all_dangling_vms-Called_example :
    Called
      (remove_file "ssd/host-vm-0_ssd_2.qcow2")
      (delete_all_dangling_vms (os "provision") manager found fresh).1.calls
delete_all_dangling_vms-Called_example =
    delete_all_dangling_vms-Called (os "provision") manager found left_over 1
      "ssd/host-vm-0_ssd_2.qcow2" fresh can_kill (inr (inl refl)) refl
