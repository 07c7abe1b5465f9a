-- ===== src/Hypervisor/Startup.antt =====
-- What a hypervisor does before it serves requests (resource_managers/hypervisor/__main__.py): the reading
-- of its configuration, the checks, and the binding of the GPUs to the driver for machines.
use habertest_backend.Base.{
  string_eq, ℕ, Bool, true, false, String, Option, none, some, List, [], ◌∷◌, if◌then◌else◌, ◌==◌,
  ltb, ◌≡◌, arith, ◌<◌,
}
use habertest_backend.Base.Exec.{Result, ok, err, Exec, ◌>>=◌, pure, raise}
use habertest_backend.Hypervisor.Vm.{Device}
use habertest_backend.Utils.Pci.{PciError, from_full_address}

-- The file of the configuration, as YAML reads it
pub record ConfigYaml : Type 0 where
  pub pcis : Option (List String)
  pub macs : Option (List String)

pub record Config : Type 0 where
  pub pci : List Device
  pub macs : List String

pub data StartError : Type 0 where
  pci_error : PciError → StartError
  no_macs : StartError
  not_operational : String → StartError
  no_enable_count : Device → StartError
  bind_failed : Device → StartError

module _ (has_info : String → Bool) (lower : String → String) where
  devices_of : List String → Result StartError (List Device)
  devices_of [] = ok []
  devices_of (address ∷ addresses) =
      let rest = devices_of addresses in
      elim (from_full_address has_info lower address) [
        | err e ↦ err (pci_error e)
        | ok device ↦ elim rest [ ok devices ↦ ok (device ∷ devices) | err e ↦ err e ]
      ]

  config_pcis : Option (List String) → Result StartError (List Device)
  unfolding devices_of
  config_pcis none = ok []
  config_pcis (some addresses) = devices_of addresses

  with_macs : Result StartError (List Device) → Option (List String) → Result StartError Config
  with_macs (err e) macs = err e
  with_macs (ok devices) none = err no_macs
  with_macs (ok devices) (some macs) = ok (record { pci = devices; macs = macs })

  -- `load_config`
  pub load_config : ConfigYaml → Result StartError Config
  unfolding config_pcis with_macs
  load_config yaml = with_macs (config_pcis yaml.pcis) yaml.macs

-- `_check_network_interface_up`, from what the file of the interface says
pub check_network_interface_up : String → String → Result StartError (Unit {0})
check_network_interface_up interface state =
    if state == "up" then ok tt else err (not_operational interface)

-- `_check_libvirt_network_is_up`, from what came of the activation
pub check_libvirt_network_is_up :
    {E A : Type 0} → String → Result E A → Result StartError (Unit {0})
check_libvirt_network_is_up network (ok done) = ok tt
check_libvirt_network_is_up network (err e) = err (not_operational network)

-- What the system says of a device: its driver, how often it is enabled (`none` if the file cannot be
-- read), and what comes of the command that binds it.
pub record Bus : Type 0 where
  pub driver : Device → Option String
  pub enable_count : Device → Option ℕ
  pub bind : Device → Result String String

-- The devices that were to be bound, the last one first
abbrev pub BindStep : Type 0 → Type 0
BindStep A = Exec StartError (List Device) A

module _ (bus : Bus) where
  abbrev pub is_vfio : Option String → Bool
  is_vfio none = false
  is_vfio (some driver) = driver == "vfio-pci"

  -- `pci.device_driver(device) == 'vfio-pci' and pci.enable_count(device) > 0`
  in_use : Device → Result StartError Bool
  in_use device =
      if is_vfio (bus.driver device)
      then elim (bus.enable_count device) [
        | none ↦ err (no_enable_count device)
        | some n ↦ ok (ltb 0 n)
      ]
      else ok false

  bind_device : Device → BindStep (Unit {0})
  bind_device device bound = elim (bus.bind device) [
    | ok out ↦ (ok tt, device ∷ bound)
    | err e ↦ (err (bind_failed device), device ∷ bound)
  ]

  bind_unless : Device → Result StartError Bool → BindStep (Unit {0})
  unfolding bind_device
  bind_unless device (err e) = raise e
  bind_unless device (ok true) = pure tt
  bind_unless device (ok false) = bind_device device

  -- `_vfio_bind_pci_devices`
  unfoldable pub vfio_bind_pci_devices : List Device → BindStep (Unit {0})
  unfolding in_use bind_unless
  vfio_bind_pci_devices [] = pure tt
  vfio_bind_pci_devices (device ∷ devices) =
      bind_unless device (in_use device) >>= λ done. vfio_bind_pci_devices devices

  -- A device that a running machine uses
  abbrev pub IsUsed : Device → Type 0
  IsUsed device =
      (bus.driver device ≡ some "vfio-pci")
      × ((n : ℕ) × (bus.enable_count device ≡ some n) × (0 < n))

  -- A device that machines use is not bound again.
  pub vfio_bind_pci_devices-IsUsed :
      (used : Device) (rest : List Device) (bound : List Device)
      → IsUsed used
      → vfio_bind_pci_devices (used ∷ rest) bound ≡ vfio_bind_pci_devices rest bound
  unfolding vfio_bind_pci_devices in_use bind_unless
  vfio_bind_pci_devices-IsUsed used rest bound (d, (n, e, pos)) = ground (arith, d, e, pos)
