-- ===== src/Hypervisor/Allocator/Accounts.antt =====
-- The books of the allocator: every MAC address and GPU is in its pool or in one machine, every used
-- serial port is that of one machine, and there are at most `max_vms` machines.
use habertest_backend.Base.{
  ℕ, string_eq, if◌then◌else◌, length, ◌+◌, ◌≤◌, String, ◌≡◌, refl, ap, Bool, List, [], ◌∷◌, arith,
  ◌++◌,
}
use habertest_backend.Base.Counts.{count}
use habertest_backend.Base.Dict.{total, Dict, IsDict, erase}
use habertest_backend.Hypervisor.Vm.{Vm, Device, Port, port_eq, macs_of, macs_of_nets}
use habertest_backend.Hypervisor.Allocator.{Allocator, zip_networks}

abbrev pub macs_in : (String → Bool) → Dict String Vm → ℕ
macs_in p = total (λ vm. count p (macs_of vm))

abbrev pub gpus_in : (Device → Bool) → Dict String Vm → ℕ
gpus_in p = total (λ vm. count p vm.pcis)

abbrev pub ports_in : (Port → Bool) → Dict String Vm → ℕ
ports_in p = total (λ vm. if p vm.sol_port then 1 else 0)

pub record IsAccounted (macs : List String) (gpus : List Device) (s : Allocator) : Type 0 where
  pub macs_kept : (p : String → Bool) → count p s.mac_addresses + macs_in p s.vms ≡ count p macs
  pub gpus_kept : (p : Device → Bool) → count p s.gpus_list + gpus_in p s.vms ≡ count p gpus
  pub ports_used : (p : Port → Bool) → count p s.sol_used_ports ≡ ports_in p s.vms
  pub distinct : IsDict s.vms
  pub bounded : length s.vms ≤ s.max_vms

-- The networks of a new machine carry exactly the MAC addresses that were taken for them.
pub macs_of_nets-zip_networks :
    (s : Allocator) (macs networks : List String)
    → length macs ≡ length networks
    → macs_of_nets (zip_networks s macs networks) ≡ macs
unfolding zip_networks
macs_of_nets-zip_networks s [] networks h = refl
macs_of_nets-zip_networks s (mac ∷ macs) [] h = absurd (omega arith)
macs_of_nets-zip_networks s (mac ∷ macs) (net ∷ networks) h =
    ap (◌∷◌ mac) (macs_of_nets-zip_networks s macs networks (omega arith))

-- What a vm manager may not change on a machine while it builds it.
pub record SameResources (vm vm' : Vm) : Type 0 where
  pub macs : macs_of vm' ≡ macs_of vm
  pub pcis : vm'.pcis ≡ vm.pcis
  pub sol_port : vm'.sol_port ≡ vm.sol_port

-- The allocator after a machine and its resources have gone back.
abbrev pub released : Vm → String → List Port → Allocator → Allocator
released vm name ports s = record s {
  gpus_list = s.gpus_list ++ vm.pcis;
  mac_addresses = s.mac_addresses ++ macs_of vm;
  sol_used_ports = ports;
  vms = erase name s.vms;
}
