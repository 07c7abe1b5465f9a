-- ===== src/Hypervisor/Allocator/Checks.antt =====
-- What a client of the allocator can rely on: a failed request takes nothing, destroying a machine
-- gives back all that it held, and `check_allocate` is right about the requests that succeed.
use habertest_backend.Base.{
  ℕ, string_eq, length, take, drop, length-take, String, ◌≡◌, refl, ap, ◌∙◌, none, arith, false,
  ◌≤◌, ◌<◌, true, List, ◌≢◌,
}
use habertest_backend.Base.Counts.{
  count, SameItems, count-append, count-take-drop, contains, remove-append_new,
}
use habertest_backend.Hypervisor.Vm.{Vm, port_eq, macs_of}
use habertest_backend.Hypervisor.Allocator.{
  Allocator, VmRequest, Bind, as_list, manager_error, new_vm, allocate_vm, finish_allocate,
  destroy_vm, number, free_vm_resources, destroy_locked, check_allocate, begin_allocate, init,
  Device, bound,
}
use habertest_backend.Hypervisor.Allocator.Begin.{
  refused, no_port, created, IsAdmitted, withdrawn, taken, begin_allocate-Begins, extended,
}
use habertest_backend.Hypervisor.Allocator.Accounts.{
  SameResources, released, macs_of_nets-zip_networks,
}
use habertest_backend.Base.Dict.{
  lookup, insert, erase_absent, erase-insert, Dict, erase, lookup-insert_self,
}
use habertest_backend.Base.Exec.{Result, err, ok, >>=-ok, >>=-err}

-- The same machines and serial ports, and the same items in the pools, in any order.
pub record SamePools (s t : Allocator) : Type 0 where
  pub vms : t.vms ≡ s.vms
  pub sol_used_ports : t.sol_used_ports ≡ s.sol_used_ports
  pub mac_addresses : SameItems t.mac_addresses s.mac_addresses
  pub gpus_list : SameItems t.gpus_list s.gpus_list

SamePools-refl : (s : Allocator) → SamePools s s
SamePools-refl s = record {
  vms = refl;
  sol_used_ports = refl;
  mac_addresses = λ p. refl;
  gpus_list = λ p. refl;
}

module _ (uuid : String) (req : VmRequest) (s : Allocator) (port : ℕ) (name : String) where
  abbrev built : Vm
  built = new_vm uuid name req (taken req s port)

  -- Releasing what a new machine took leaves what was there before it.
  released-SamePools :
      (vm : Vm) (vms : Dict String Vm)
      → SameResources built vm
      → IsAdmitted req s
      → erase name vms ≡ s.vms
      → SamePools s (released vm name s.sol_used_ports (record (withdrawn req s) { vms = vms }))
  released-SamePools vm vms same a gone = record {
    vms = gone;
    sol_used_ports = refl;
    mac_addresses = λ p. omega (
      arith,
      count-append p (drop (length (as_list req.networks)) s.mac_addresses) (macs_of vm),
      count-take-drop p (length (as_list req.networks)) s.mac_addresses,
      ap (count p) (same.macs ∙ built_macs),
    );
    gpus_list = λ p. omega (
      arith,
      count-append p (drop req.num_gpus s.gpus_list) vm.pcis,
      count-take-drop p req.num_gpus s.gpus_list,
      ap (count p) same.pcis,
    );
  }
    where
      built_macs : macs_of built ≡ take (length (as_list req.networks)) s.mac_addresses
      built_macs =
          macs_of_nets-zip_networks (withdrawn req s) _ (as_list req.networks)
            (length-take (length (as_list req.networks)) s.mac_addresses a.macs)

  erase-built : lookup name s.vms ≡ none → erase name (insert name built s.vms) ≡ s.vms
  erase-built fresh = erase-insert name built s.vms ∙ erase_absent name s.vms fresh

  -- When the manager fails on a new machine, its resources go back.
  pub finish_failed :
      (e : String)
      → IsAdmitted req s
      → contains (number port) s.sol_used_ports ≡ false
      → lookup name s.vms ≡ none
      → SamePools s (finish_allocate built (err e) (extended req s port name built)).1
  unfolding finish_allocate free_vm_resources
  finish_failed e a free fresh = rw out (
      released-SamePools built (insert name built s.vms)
        (record { macs = refl; pcis = refl; sol_port = refl }) a (erase-built fresh))
    where
      out : finish_allocate built (err e) (extended req s port name built) ≡ (
        err (manager_error e),
        released built name s.sol_used_ports
            (record (withdrawn req s) { vms = insert name built s.vms }),
      )
      out = ground (
        arith,
        remove-append_new (number port) s.sol_used_ports free,
        lookup-insert_self name built s.vms,
      )

  -- So they do when the machine is destroyed, once the manager has completed it.
  pub destroy_built :
      (vm : Vm)
      → SameResources built vm
      → IsAdmitted req s
      → contains (number port) s.sol_used_ports ≡ false
      → lookup name s.vms ≡ none
      → SamePools s
          (destroy_vm name
            (λ _. ok tt)
            (finish_allocate built (ok vm) (extended req s port name built)).1).1
  unfolding destroy_vm destroy_locked free_vm_resources finish_allocate
  destroy_built vm same a free fresh =
      rw out (released-SamePools vm vms same a (erase-insert name vm _ ∙ erase-built fresh))
    where
      vms : Dict String Vm
      vms = insert name vm (insert name built s.vms)

      out :
          destroy_vm name
            (λ _. ok tt)
            (finish_allocate built (ok vm) (extended req s port name built)).1
          ≡ (ok tt, released vm name s.sol_used_ports (record (withdrawn req s) { vms = vms }))
      out = ground (
        arith,
        remove-append_new (number port) s.sol_used_ports free,
        same.sol_port,
        lookup-insert_self name vm (insert name built s.vms),
      )

pub finish_allocate-err :
    (machine : Vm) (e : String) (vm : Vm) (s : Allocator)
    → (finish_allocate machine (err e) s).0 ≢ ok vm
unfolding finish_allocate free_vm_resources
finish_allocate-err machine e vm s = ground arith

module _ (bind : ℕ → Bind) (uuid : String) (manager : Vm → Result String Vm) (req : VmRequest)
    (s : Allocator) where
  -- A request whose machine the manager fails to build leaves the same machines, serial ports, MAC
  -- addresses and GPUs.
  pub allocate_vm_failed :
      (e : String)
      → (allocate_vm bind uuid manager req s).0 ≡ err (manager_error e)
      → SamePools s (allocate_vm bind uuid manager req s).1
  unfolding allocate_vm
  allocate_vm_failed e h = elim (begin_allocate-Begins bind uuid req s) [
    | refused e' _ _ out ↦ rw (>>=-err _ _ s out) (SamePools-refl s)
    | no_port a _ out ↦ absurd (ground (arith, out, h))
    | created port name a free fresh out ↦ rw (>>=-ok _ _ s out) (
        at_manager port name a free.0 fresh (manager (built uuid req s port name))
          (ground (arith, out, h)))
  ]
    where
      at_manager :
          (port : ℕ) (name : String)
          → IsAdmitted req s
          → contains (number port) s.sol_used_ports ≡ false
          → lookup name s.vms ≡ none
          → (r : Result String Vm)
          → (finish_allocate
              (built uuid req s port name)
              r
              (extended req s port name (built uuid req s port name))).0
            ≡ err (manager_error e)
          → SamePools s
              (finish_allocate
                (built uuid req s port name)
                r
                (extended req s port name (built uuid req s port name))).1
      at_manager port name a free fresh (err e') h =
          finish_failed uuid req s port name e' a free fresh
      at_manager port name a free fresh (ok vm) h = absurd (unfold finish_allocate in cc h)

  -- Destroying a machine that was allocated leaves the same machines, serial ports, MAC addresses
  -- and GPUs as before its allocation, when the manager keeps a machine's name and resources.
  pub destroy-allocate :
      (vm : Vm)
      → ((m m' : Vm) → manager m ≡ ok m' → SameResources m m' × (m'.name ≡ m.name))
      → (allocate_vm bind uuid manager req s).0 ≡ ok vm
      → SamePools s (destroy_vm vm.name (λ _. ok tt) (allocate_vm bind uuid manager req s).1).1
  unfolding allocate_vm
  destroy-allocate vm keeps h = elim (begin_allocate-Begins bind uuid req s) [
    | refused e' _ _ out ↦ absurd (ground (arith, out, h))
    | no_port a _ out ↦ absurd (ground (arith, out, h))
    | created port name a free fresh out ↦ rw (>>=-ok _ _ s out) (
        at_manager port name a free.0 fresh (manager (built uuid req s port name)) refl
          (ground (arith, out, h)))
  ]
    where
      at_manager :
          (port : ℕ) (name : String)
          → IsAdmitted req s
          → contains (number port) s.sol_used_ports ≡ false
          → lookup name s.vms ≡ none
          → (r : Result String Vm) → manager (built uuid req s port name) ≡ r
          → (finish_allocate
              (built uuid req s port name)
              r
              (extended req s port name (built uuid req s port name))).0
            ≡ ok vm
          → SamePools s
              (destroy_vm vm.name
                (λ _. ok tt)
                (finish_allocate
                  (built uuid req s port name)
                  r
                  (extended req s port name (built uuid req s port name))).1).1
      at_manager port name a free fresh (err e') m h = absurd (finish_allocate-err _ e' vm _ h)
      at_manager port name a free fresh (ok vm') m h =
          let named : vm.name ≡ name = unfold finish_allocate in cc (h, (keeps _ vm' m).1) in
          rw named (destroy_built uuid req s port name vm' (keeps _ vm' m).0 a free fresh)

-- A request that gets a machine is one that `check_allocate` promised, while the pools hold no more
-- than the configuration did.
pub check_allocate-of-created :
    (bind : ℕ → Bind) (uuid : String) (req : VmRequest) (s : Allocator) (vm : Vm)
    → length s.mac_addresses ≤ s.total_mac_addresses
    → length s.gpus_list ≤ s.total_gpus
    → (begin_allocate bind uuid req s).0 ≡ ok vm
    → check_allocate req s ≡ true
unfolding check_allocate
check_allocate-of-created bind uuid req s vm macs gpus h =
    elim (begin_allocate-Begins bind uuid req s) [
      | refused e' _ _ out ↦ absurd (ground (arith, out, h))
      | no_port a _ out ↦ absurd (ground (arith, out, h))
      | created port name a free fresh out ↦ ground (arith, a.macs, a.gpus, a.nets)
    ]

-- On a hypervisor with no machine yet, room for one, and ports that can be bound, the promise of
-- `check_allocate` is kept.
pub created-of-check_allocate :
    (bind : ℕ → Bind) (uuid : String) (req : VmRequest) (macs : List String) (gpus : List Device)
    (server : String) (max_vms base : ℕ) (dev net : String)
    → ((port : ℕ) → bind port ≡ bound)
    → 0 < max_vms
    → check_allocate req (init macs gpus server max_vms base dev net) ≡ true
    → (vm : Vm) × ((begin_allocate bind uuid req (init macs gpus server max_vms base dev net)).0
        ≡ ok vm)
unfolding check_allocate init
created-of-check_allocate bind uuid req macs gpus server max_vms base dev net open_ports room h =
    elim (begin_allocate-Begins bind uuid req (init macs gpus server max_vms base dev net)) [
      | refused e' _ denied out ↦ absurd (denied admitted)
      | no_port a taken out ↦ absurd (taken (refl, open_ports _))
      | created port name a free fresh out ↦ (_, ap (λ o. o.0) out)
    ]
  where
    admitted : IsAdmitted req (init macs gpus server max_vms base dev net)
    admitted = record {
      macs = ground arith;
      gpus = ground arith;
      nets = ground arith;
      room = λ e. omega arith;
    }
