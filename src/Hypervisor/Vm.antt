-- ===== src/Hypervisor/Vm.antt =====
-- The virtual machines of a hypervisor: resource_managers/common/vm.py,
-- resource_managers/hypervisor/vms/physical_vm.py, and the devices of resource_managers/utils/pci.py.
use habertest_backend.Base.{
  ℕ, String, ◌≡◌, ◌↔◌, Bool, true, false, ◌&&◌, Option, List, map, arith, Eq, ◌==◌, string_eq,
  nat_beq, nat_beq_iff, eq_iff,
}
use habertest_backend.Base.Dict.{Dict}

-- `pci.Device`; two devices are equal when all their entries are. Its `info`, the text of `lspci` about
-- the address, is left out.
pub record Device : Type 0 where
  pub domain : String
  pub bus : String
  pub slot : String
  pub function : String

abbrev pub device_beq : Device → Device → Bool
device_beq a b =
    a.domain == b.domain && (a.bus == b.bus && (a.slot == b.slot && a.function == b.function))

pub device_beq_iff : (a b : Device) → (device_beq a b ≡ true) ↔ (a ≡ b)
device_beq_iff a b = ground (
  arith,
  eq_iff a.domain b.domain,
  eq_iff a.bus b.bus,
  eq_iff a.slot b.slot,
  eq_iff a.function b.function,
)

instance abbrev pub device_eq : Eq Device
device_eq = record { beq = device_beq; beq_iff = device_beq_iff }

-- One entry of `net_ifaces`.
pub record NetIface : Type 0 where
  pub macaddress : String
  pub mode : String
  pub source : String
  pub ip : Option String

-- One entry of `disks`; `image` is there once the image has been created.
pub record Disk : Type 0 where
  pub type : String
  pub size : ℕ
  pub fs : Option String
  pub mount : Option String
  pub serial : Option String
  pub device_name : Option String
  pub image : Option String

-- A serial port is a number; one that was read back from the metadata of a machine is a text.
pub data Port : Type 0 where
  number : ℕ → Port
  text : String → Port
  missing : Port

abbrev pub port_beq : Port → Port → Bool
port_beq (number a) (number b) = nat_beq a b
port_beq (text a) (text b) = a == b
port_beq missing missing = true
port_beq _ _ = false

pub port_beq_iff : (a b : Port) → (port_beq a b ≡ true) ↔ (a ≡ b)
port_beq_iff (number a) (number b) = ground (arith, nat_beq_iff a b)
port_beq_iff (number a) (text b) = ground arith
port_beq_iff (number a) missing = ground arith
port_beq_iff (text a) (number b) = ground arith
port_beq_iff (text a) (text b) = ground (arith, eq_iff a b)
port_beq_iff (text a) missing = ground arith
port_beq_iff missing (number b) = ground arith
port_beq_iff missing (text b) = ground arith
port_beq_iff missing missing = ground arith

instance abbrev pub port_eq : Eq Port
port_eq = record { beq = port_beq; beq_iff = port_beq_iff }

-- `physical_vm.VM`, with the fields of `common.vm.VM`. Its lock is not part of the value.
pub record Vm : Type 0 where
  pub name : String
  pub num_cpus : ℕ
  pub memsize : ℕ
  pub base_image : String
  pub user : String
  pub password : String
  pub sol_port : Port
  pub base_image_size : Option ℕ
  pub net_ifaces : List NetIface
  pub pcis : List Device
  pub disks : List Disk
  pub api_version : String
  pub image : Option String
  pub cloud_init_iso : Option String
  pub uuid : String
  pub allocation_id : Option String
  pub requestor : Option (Dict String String)

abbrev pub macs_of_nets : List NetIface → List String
macs_of_nets = map (λ net. net.macaddress)

abbrev pub macs_of : Vm → List String
macs_of vm = macs_of_nets vm.net_ifaces
