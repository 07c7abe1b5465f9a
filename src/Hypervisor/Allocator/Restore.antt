-- ===== src/Hypervisor/Allocator/Restore.antt =====
-- The machines that a hypervisor finds at its start: `_try_restore_ip`, `_try_restore_vm` and
-- `restore_vms` (resource_managers/hypervisor/vms/allocator.py).
pub mod Pools
use Prim.Native.String.{◌++◌}
use habertest_backend.Base.{
  ◌++◌ as append, ℕ, zero, suc, string_eq, ◌==◌, ◌+◌, ◌||◌, Bool, true, false, not, String, Option,
  none, some, List, [], ◌∷◌, if◌then◌else◌,
}
use habertest_backend.Base.Counts.{contains, remove}
use habertest_backend.Base.Dict.{insert}
use habertest_backend.Base.Exec.{
  Result, ok, err, Exec, pure, raise_if, gets, modify, lift, ◌>>=◌, ◌>>◌,
}
use habertest_backend.Hypervisor.Vm.{Vm, Device, NetIface, device_eq}
use habertest_backend.Hypervisor.Allocator.{Allocator}

-- What libvirt remembers of a machine: the arguments of `VM`, its devices by their addresses.
pub record VmData : Type 0 where
  pub machine : Vm
  pub pcis : List String

-- `VMRestoreException`, the plain exception for a network device that is gone, and the `ValueError` of
-- `remove`.
pub data RestoreError : Type 0 where
  restore_exception no_network_device value_error : RestoreError

-- What `reallocate_ip` ends with.
pub data IpAnswer : Type 0 where
  reallocated timeout broken : IpAnswer

-- The answers of the vm manager: is the storage valid, what does a try to get the address of a network
-- back end with, and does the destruction of a machine succeed.
pub record RestoreWorld : Type 0 where
  pub storage_valid : Vm → Bool
  pub reallocate_ip : NetIface → ℕ → IpAnswer
  pub destroy : Vm → Bool

-- `Device.full_address`
unfoldable pub full_address : Device → String
full_address d = d.domain ++ (":" ++ (d.bus ++ (":" ++ (d.slot ++ ("." ++ d.function)))))

-- `_try_restore_ip`: its tries from number `i` on.
unfoldable pub try_restore_ip : RestoreWorld → NetIface → ℕ → ℕ → IpAnswer
try_restore_ip w net i zero = timeout
try_restore_ip w net i (suc retries) =
    let rest = try_restore_ip w net (i + 1) retries in
    elim (w.reallocate_ip net i) [ reallocated ↦ reallocated | timeout ↦ rest | broken ↦ broken ]

-- A timeout is logged only.
unfoldable pub is_broken : IpAnswer → Bool
is_broken broken = true
is_broken _ = false

-- the loop over `vm_nets`, which collects the MAC addresses to reserve
unfoldable pub macs_to_reserve :
    RestoreWorld → List NetIface → Allocator → Result RestoreError (List String)
unfolding try_restore_ip is_broken
macs_to_reserve w [] s = ok []
macs_to_reserve w (net ∷ nets) s =
    let rest = macs_to_reserve w nets s in
    if not (net.source == s.paravirt_net_device || net.source == s.private_network)
    then err no_network_device
    else if not (contains net.macaddress s.mac_addresses)
    then err restore_exception
    else if is_broken (try_restore_ip w net 0 10)
    then err restore_exception
    else elim rest [ ok macs ↦ ok (net.macaddress ∷ macs) | err e ↦ err e ]

unfoldable pub find_gpu : String → List Device → Option Device
unfolding full_address
find_gpu pci [] = none
find_gpu pci (gpu ∷ gpus) =
    let rest = find_gpu pci gpus in if full_address gpu == pci then some gpu else rest

-- the loop over `pcis_info`, which collects the GPUs to reserve
unfoldable pub gpus_to_reserve : List String → List Device → Result RestoreError (List Device)
unfolding find_gpu
gpus_to_reserve [] gpus = ok []
gpus_to_reserve (pci ∷ pcis) gpus =
    let rest = gpus_to_reserve pcis gpus in
    elim (find_gpu pci gpus) [
      | none ↦ err restore_exception
      | some gpu ↦ elim rest [ ok found ↦ ok (gpu ∷ found) | err e ↦ err e ]
    ]

-- `for mac in macs_to_reserve: self.mac_addresses.remove(mac)`
unfoldable pub take_mac : String → Exec RestoreError Allocator (Unit {0})
take_mac mac s = elim (remove mac s.mac_addresses) [
  | none ↦ (err value_error, s)
  | some macs ↦ (ok tt, record s { mac_addresses = macs })
]

unfoldable pub take_macs : List String → Exec RestoreError Allocator (Unit {0})
unfolding take_mac
take_macs [] = pure tt
take_macs (mac ∷ macs) = let rest = take_macs macs in (do take_mac mac; rest)

-- `for gpu in gpus_to_reserve: self.gpus_list.remove(gpu)`
unfoldable pub take_gpu : Device → Exec RestoreError Allocator (Unit {0})
take_gpu gpu s = elim (remove gpu s.gpus_list) [
  | none ↦ (err value_error, s)
  | some gpus ↦ (ok tt, record s { gpus_list = gpus })
]

unfoldable pub take_gpus : List Device → Exec RestoreError Allocator (Unit {0})
unfolding take_gpu
take_gpus [] = pure tt
take_gpus (gpu ∷ gpus) = let rest = take_gpus gpus in (do take_gpu gpu; rest)

-- The last lines of `_try_restore_vm`.
unfoldable pub enter : Vm → Allocator → Allocator
enter machine s = record s {
  sol_used_ports = append s.sol_used_ports (machine.sol_port ∷ []);
  vms = insert machine.name machine s.vms;
}

-- `_try_restore_vm`
unfoldable pub try_restore_vm : RestoreWorld → VmData → Exec RestoreError Allocator (Unit {0})
unfolding macs_to_reserve gpus_to_reserve take_macs take_gpus enter
try_restore_vm w d = do
  s ← gets (λ s. s)
  raise_if (not (w.storage_valid d.machine)) restore_exception
  macs ← lift (macs_to_reserve w d.machine.net_ifaces s)
  gpus ← lift (gpus_to_reserve d.pcis s.gpus_list)
  take_macs macs
  take_gpus gpus
  modify (enter (record d.machine { pcis = gpus }))

-- The body of the loop of `restore_vms`: a machine that is not restored is destroyed; `false` is the
-- exception of a destruction that fails, which ends the loop.
after_try : RestoreWorld → VmData → Result RestoreError (Unit {0}) → Bool
after_try w d (ok _) = true
after_try w d (err _) = w.destroy d.machine

-- `restore_vms`
pub restore_vms : RestoreWorld → List VmData → Allocator → Bool × Allocator
unfolding after_try
restore_vms w [] s = (true, s)
restore_vms w (d ∷ ds) s =
    let (r, t) = try_restore_vm w d s in
    let rest = restore_vms w ds t in if after_try w d r then rest else (false, t)
