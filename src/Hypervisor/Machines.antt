-- ===== src/Hypervisor/Machines.antt =====
-- `VMManager` (resource_managers/hypervisor/vms/vm_manager.py): what it calls to make, start, stop and
-- destroy a machine. The tasks that `asyncio.gather` runs at the same time are taken one after another,
-- in any order; those that come after a failure run when the failure has been handled.
pub mod Made
pub mod Harmless
pub mod Removed
pub mod Recorded
pub mod Destroyed
pub mod Cleanup
pub mod Filled
pub mod Leftovers
pub mod Tests
use habertest_backend.Base.{
  ℕ, zero, suc, ◌+◌, Bool, true, false, String, Option, none, some, List, [], ◌∷◌, ◌++◌ as append,
  string_eq, length,
}
use habertest_backend.Base.Exec.{Result, ok, err, ◌>>=◌, ◌>>◌, pure, gets, modify, raise}
use habertest_backend.Hypervisor.Vm.{Vm, Disk, NetIface}
use habertest_backend.Hypervisor.Calls.{
  Os, Step, Session, MachineError, failed, too_many_disks, perform, no_exception, provision,
  define_vm, start_vm, poweroff_vm, kill_by_name, allocate_ip, deallocate_ip,
}
use habertest_backend.Hypervisor.Images.{
  ImageStore, clone_qcow, create_qcow, qcow_info, delete_qcow,
}
use habertest_backend.Hypervisor.CloudInit.{generate_iso, delete_iso}
use habertest_backend.Hypervisor.Template.{generate_xml}

-- The parts that a `VMManager` is made of: the image store, the directory of the cloud-init images, the
-- address of libvirt, and the modes with a DHCP handler. `metadata` is the machine as XML.
pub record Manager : Type 0 where
  pub images : ImageStore
  pub iso_base_path : String
  pub uri : String
  pub handlers : List String
  pub metadata : Vm → String

-- `self.vol_names`: "sda" is taken by the boot drive.
abbrev pub vol_names : List String
vol_names =
    "sdb" ∷ "sdc" ∷ "sdd" ∷ "sde" ∷ "sdf" ∷ "sdg" ∷ "sdh" ∷ "sdi" ∷ "sdj" ∷ "sdk" ∷ "sdl" ∷ "sdm"
    ∷ "sdn" ∷ "sdo" ∷ "sdp" ∷ "sdq" ∷ "sdr" ∷ "sds" ∷ "sdt" ∷ "sdu" ∷ "sdv" ∷ "sdw" ∷ "sdx" ∷ "sdy"
    ∷ "sdz" ∷ []

-- The tasks; a disk is told by its place in the list of the machine.
pub data Task : Type 0 where
  boot_disk cloud_init networks : Task
  data_disk : ℕ → Disk → Task

-- `disk['image'] = path` at the i-th disk, and `net['ip'] = ip` at the i-th interface
pub set_image : ℕ → String → List Disk → List Disk
set_image i path [] = []
set_image zero path (disk ∷ disks) = record disk { image = some path } ∷ disks
set_image (suc i) path (disk ∷ disks) = disk ∷ set_image i path disks

pub set_ip : ℕ → String → List NetIface → List NetIface
set_ip i ip [] = []
set_ip zero ip (net ∷ nets) = record net { ip = some ip } ∷ nets
set_ip (suc i) ip (net ∷ nets) = net ∷ set_ip i ip nets

module _ (os : Os) where
  -- The loop of `_create_storage`, with the names that are left; the disks that come before an
  -- `IndexError` keep what they were given, the last one its serial.
  pub name_disks : ℕ → List String → List Disk → Result MachineError (Unit {0}) × List Disk
  name_disks i names [] = (ok tt, [])
  name_disks i [] (disk ∷ disks) =
      (err too_many_disks, record disk { serial = some (os.uuid4 i) } ∷ disks)
  name_disks i (name ∷ names) (disk ∷ disks) =
      let (r, named) = name_disks (i + 1) names disks in
      (r, record disk { serial = some (os.uuid4 i); device_name = some name } ∷ named)

disk_tasks : ℕ → List Disk → List Task
disk_tasks i [] = []
disk_tasks i (disk ∷ disks) = data_disk i disk ∷ disk_tasks (i + 1) disks

or_empty : Option String → String
or_empty none = ""
or_empty (some s) = s

module _ (os : Os) (manager : Manager) where
  set_boot_image : String → Step (Unit {0})
  set_boot_image path = modify (λ s. record s { vm = record s.vm { image = some path } })

  pub create_vm_boot_disk : Step (Unit {0})
  unfolding set_boot_image
  create_vm_boot_disk s =
      (clone_qcow os manager.images s.vm.base_image s.vm.name s.vm.base_image_size
          >>= set_boot_image)
        s

  set_iso : String → Step (Unit {0})
  set_iso path = modify (λ s. record s { vm = record s.vm { cloud_init_iso = some path } })

  generate_cloud_init_iso : Step (Unit {0})
  unfolding set_iso
  generate_cloud_init_iso s = (generate_iso os manager.iso_base_path s.vm >>= set_iso) s

  provision_disk : ℕ → Disk → String → Step (Unit {0})
  unfolding set_image
  provision_disk i disk path = do
    modify (λ s. record s { vm = record s.vm { disks = set_image i path s.vm.disks } })
    perform os (provision path disk.fs disk.serial)
    pure tt

  pub create_disk : ℕ → Disk → Step (Unit {0})
  unfolding provision_disk or_empty
  create_disk i disk s =
      (create_qcow os manager.images s.vm.name disk.type disk.size (or_empty disk.serial)
          >>= provision_disk i disk)
        s

  -- `_init_networks`, from interface `i` on
  init_networks : ℕ → List NetIface → Step (Unit {0})
  unfolding set_ip
  init_networks i [] = pure tt
  init_networks i (net ∷ nets) = allocate_ip os manager.handlers net >>= λ ip.
      modify (λ s. record s { vm = record s.vm { net_ifaces = set_ip i ip s.vm.net_ifaces } })
      >> init_networks (i + 1) nets

  pub do_task : Task → Step (Unit {0})
  unfolding create_vm_boot_disk generate_cloud_init_iso create_disk init_networks
  do_task boot_disk = create_vm_boot_disk
  do_task cloud_init = generate_cloud_init_iso
  do_task networks = gets (λ s. s.vm.net_ifaces) >>= init_networks 0
  do_task (data_disk i disk) = create_disk i disk

  -- `asyncio.gather`: it raises what the first task raises that fails; the tasks that are not done by
  -- then are left running.
  pub gather : List Task → Session → Result MachineError (Unit {0}) × List Task × Session
  unfolding do_task
  gather [] s = (ok tt, [], s)
  gather (task ∷ tasks) s =
      let (r, t) = do_task task s in
      let rest = gather tasks t in elim r [ ok done ↦ rest | err e ↦ (err e, tasks, t) ]

  -- Without an image there is nothing to ask about, which raises.
  info_if_there : Option String → Step String
  info_if_there none = raise (failed "image")
  info_if_there (some image) = qcow_info os image

  verify_disks : List Disk → Step (Unit {0})
  unfolding info_if_there
  verify_disks [] = pure tt
  verify_disks (disk ∷ disks) = info_if_there disk.image >> verify_disks disks

  -- `verify_storage_valid`
  pub verify_storage_valid : Step Bool
  unfolding verify_disks
  verify_storage_valid s =
      let (r, t) = (info_if_there s.vm.image >> verify_disks s.vm.disks) s in
      (elim r [ ok valid ↦ ok true | err e ↦ ok false ], t)

  -- An image is deleted if it is there; a failure is logged.
  delete_if_there : Option String → Step (Unit {0})
  delete_if_there none = pure tt
  delete_if_there (some image) = no_exception (delete_qcow os image)

  delete_disks : List Disk → Step (Unit {0})
  unfolding delete_if_there
  delete_disks [] = pure tt
  delete_disks (disk ∷ disks) = delete_if_there disk.image >> delete_disks disks

  disks_then_iso : Vm → Step (Unit {0})
  unfolding delete_disks
  disks_then_iso vm = delete_disks vm.disks >> no_exception (delete_iso os manager.iso_base_path vm)

  -- `_delete_storage`
  pub delete_storage : Step (Unit {0})
  unfolding disks_then_iso
  delete_storage s = (delete_if_there s.vm.image >> disks_then_iso s.vm) s

  pub deinit_nets : List NetIface → Step (Unit {0})
  deinit_nets [] = pure tt
  deinit_nets (net ∷ nets) =
      no_exception (deallocate_ip os manager.handlers net) >> deinit_nets nets

  -- `_deinit_networks_no_exception`
  pub deinit_networks : Step (Unit {0})
  unfolding deinit_nets
  deinit_networks s = deinit_nets s.vm.net_ifaces s

  -- `destroy_vm`; its two last parts, which run at the same time, have no call in common.
  pub destroy_vm : Step (Unit {0})
  unfolding delete_storage deinit_networks
  destroy_vm s = (kill_by_name os manager.uri s.vm.name >> (delete_storage >> deinit_networks)) s

  pub start : Step (Unit {0})
  start s = (start_vm os manager.uri s.vm.name >> pure tt) s

  pub stop_vm : Step (Unit {0})
  stop_vm s = (poweroff_vm os manager.uri s.vm.name >> pure tt) s

  pub define_and_start : Step (Unit {0})
  unfolding start
  define_and_start s =
      (define_vm os manager.uri (generate_xml s.vm (manager.metadata s.vm)) >> start) s

  -- The handler of `except Exception`, which raises the exception again.
  pub clean_up : MachineError → List Task → Session → Result MachineError Vm × List Task × Session
  unfolding destroy_vm delete_storage
  clean_up e late s = (err e, late, (no_exception (destroy_vm >> delete_storage) s).1)

  finish : List Task → Session → Result MachineError Vm × List Task × Session
  unfolding define_and_start clean_up
  finish late s =
      let (r, t) = define_and_start s in
      elim r [ ok started ↦ (ok t.vm, late, t) | err e ↦ clean_up e late t ]

  settle :
      Result MachineError (Unit {0}) × List Task × Session
      → Result MachineError Vm × List Task × Session
  unfolding finish clean_up
  settle (ok done, late, s) = finish late s
  settle (err e, late, s) = clean_up e late s

  -- `allocate_vm` with the tasks in the order `order disks`, where `disks` are those of the machine with
  -- their names; it returns the tasks, too, that are still running.
  pub allocate_vm : (List Disk → List Task) → Session → Result MachineError Vm × List Task × Session
  unfolding settle gather name_disks
  allocate_vm order s =
      let (r, disks) = name_disks os (length s.calls) vol_names s.vm.disks in
      let t : Session = record s { vm = record s.vm { disks = disks } } in
      elim r [ err e ↦ clean_up e (networks ∷ []) t | ok named ↦ settle (gather (order disks) t) ]

-- The tasks of a machine, in the order in which they are given to `gather`.
pub all_tasks : List Disk → List Task
unfolding disk_tasks
all_tasks disks = boot_disk ∷ cloud_init ∷ append (disk_tasks 0 disks) (networks ∷ [])
