-- ===== src/Hypervisor/Allocator/Keeps.antt =====
-- The operations of the allocator keep its books.
use habertest_backend.Base.{
  ℕ, string_eq, if◌then◌else◌, length, take, length-take, String, ◌≡◌, ap, ◌≢◌, none, List, [], ◌∷◌,
  arith, ◌==◌, beq_refl, refl, some,
}
use habertest_backend.Base.Counts.{
  count, count-take-drop, count-append, remove, count-remove, remove_total, count-contains,
}
use habertest_backend.Base.Dict.{
  lookup, insert-IsDict, length-insert_new, total-insert_new, insert, has_key_of_lookup,
  length-insert, length-erase-lt, erase-IsDict, total-insert, total-erase,
}
use habertest_backend.Hypervisor.Vm.{Vm, Device, number, port_eq, macs_of}
use habertest_backend.Hypervisor.Allocator.{
  Allocator, VmRequest, Bind, as_list, socket_error, new_vm, begin_allocate, Port, finish_allocate,
  destroy_locked, free_vm_resources, manager_error,
}
use habertest_backend.Hypervisor.Allocator.Begin.{
  refused, no_port, created, IsAdmitted, withdrawn, taken, extended, begin_allocate-Begins,
}
use habertest_backend.Hypervisor.Allocator.Accounts.{
  IsAccounted, macs_of_nets-zip_networks, SameResources, released,
}
use habertest_backend.Base.Exec.{err, Result, ok}

module _ {macs : List String} {gpus : List Device} where
  extended-IsAccounted :
      (uuid : String) (req : VmRequest) (s : Allocator) (port : ℕ) (name : String)
      → IsAdmitted req s
      → lookup name s.vms ≡ none
      → IsAccounted macs gpus s
      → IsAccounted macs gpus (extended req s port name (new_vm uuid name req (taken req s port)))
  extended-IsAccounted uuid req s port name a fresh h = record {
    macs_kept = λ p. omega (
      arith,
      h.macs_kept p,
      count-take-drop p (length (as_list req.networks)) s.mac_addresses,
      total-insert_new (λ v. count p (macs_of v)) name vm s.vms fresh,
      ap (count p) vm_macs,
    );
    gpus_kept = λ p. omega (
      arith,
      h.gpus_kept p,
      count-take-drop p req.num_gpus s.gpus_list,
      total-insert_new (λ v. count p v.pcis) name vm s.vms fresh,
    );
    ports_used = λ p. omega (
      arith,
      h.ports_used p,
      count-append p s.sol_used_ports (number port ∷ []),
      total-insert_new (λ v. if p v.sol_port then 1 else 0) name vm s.vms fresh,
    );
    distinct = insert-IsDict name vm s.vms h.distinct;
    bounded = omega (arith, h.bounded, a.room, length-insert_new name vm s.vms fresh);
  }
    where
      vm : Vm
      vm = new_vm uuid name req (taken req s port)

      vm_macs : macs_of vm ≡ take (length (as_list req.networks)) s.mac_addresses
      vm_macs =
          macs_of_nets-zip_networks (withdrawn req s) _ (as_list req.networks)
            (length-take (length (as_list req.networks)) s.mac_addresses a.macs)

  -- A request keeps the books, unless it fails for want of a port.
  pub begin_allocate-IsAccounted :
      (bind : ℕ → Bind) (uuid : String) (req : VmRequest) (s : Allocator)
      → (begin_allocate bind uuid req s).0 ≢ err socket_error
      → IsAccounted macs gpus s
      → IsAccounted macs gpus (begin_allocate bind uuid req s).1
  begin_allocate-IsAccounted bind uuid req s has_port h =
      elim (begin_allocate-Begins bind uuid req s) [
        | refused e _ _ out ↦ rw out h
        | no_port _ _ out ↦ absurd (has_port (ap (λ o. o.0) out))
        | created port name a _ fresh out ↦
            rw out (extended-IsAccounted uuid req s port name a fresh h)
      ]

  port_of_vm :
      (name : String) (vm : Vm) (s : Allocator)
      → lookup name s.vms ≡ some vm
      → IsAccounted macs gpus s
      → (ports : List Port) × (remove vm.sol_port s.sol_used_ports ≡ some ports)
  port_of_vm name vm s f h = remove_total vm.sol_port s.sol_used_ports (
      count-contains vm.sol_port s.sol_used_ports (
        ground (
          arith,
          h.ports_used (λ x. x == vm.sol_port),
          beq_refl vm.sol_port,
          total-erase (λ v. if (v.sol_port == vm.sol_port) then 1 else 0) name vm s.vms h.distinct
              f,
        )))

  released-IsAccounted :
      (name : String) (vm : Vm) (ports : List Port) (s : Allocator)
      → lookup name s.vms ≡ some vm
      → remove vm.sol_port s.sol_used_ports ≡ some ports
      → IsAccounted macs gpus s
      → IsAccounted macs gpus (released vm name ports s)
  released-IsAccounted name vm ports s f r h = record {
    macs_kept = λ p. omega (
      arith,
      h.macs_kept p,
      count-append p s.mac_addresses (macs_of vm),
      total-erase (λ v. count p (macs_of v)) name vm s.vms h.distinct f,
    );
    gpus_kept = λ p. omega (
      arith,
      h.gpus_kept p,
      count-append p s.gpus_list vm.pcis,
      total-erase (λ v. count p v.pcis) name vm s.vms h.distinct f,
    );
    ports_used = λ p. omega (
      arith,
      h.ports_used p,
      count-remove p vm.sol_port s.sol_used_ports ports r,
      total-erase (λ v. if p v.sol_port then 1 else 0) name vm s.vms h.distinct f,
    );
    distinct = erase-IsDict name s.vms h.distinct;
    bounded =
        omega (arith, h.bounded, length-erase-lt name s.vms (has_key_of_lookup name vm s.vms f));
  }

  completed-IsAccounted :
      (name : String) (vm vm' : Vm) (s : Allocator)
      → lookup name s.vms ≡ some vm
      → SameResources vm vm'
      → IsAccounted macs gpus s
      → IsAccounted macs gpus (record s { vms = insert name vm' s.vms })
  completed-IsAccounted name vm vm' s f same h = record {
    macs_kept = λ p. omega (
      arith,
      h.macs_kept p,
      ap (count p) same.macs,
      total-insert (λ v. count p (macs_of v)) name vm' vm s.vms f,
    );
    gpus_kept = λ p. omega (
      arith,
      h.gpus_kept p,
      ap (count p) same.pcis,
      total-insert (λ v. count p v.pcis) name vm' vm s.vms f,
    );
    ports_used = λ p. omega (
      arith,
      h.ports_used p,
      ap {B = ℕ} (λ x. if p x then 1 else 0) same.sol_port,
      total-insert (λ v. if p v.sol_port then 1 else 0) name vm' vm s.vms f,
    );
    distinct = insert-IsDict name vm' s.vms h.distinct;
    bounded = omega (arith, h.bounded, length-insert name vm' vm s.vms f);
  }

  -- When the manager raises, the machine goes and its resources come back.
  finish_allocate_failed :
      (machine : Vm) (e : String) (s : Allocator)
      → lookup machine.name s.vms ≡ some machine
      → IsAccounted macs gpus s
      → (ports : List Port) × (remove machine.sol_port s.sol_used_ports ≡ some ports)
        × (finish_allocate machine (err e) s
            ≡ (err (manager_error e), released machine machine.name ports s))
  unfolding finish_allocate free_vm_resources
  finish_allocate_failed machine e s f h =
      let (ports, r) = port_of_vm machine.name machine s f h in (ports, r, ground (arith, r, f))

  destroy_locked_done :
      (name : String) (vm : Vm) (s : Allocator)
      → lookup name s.vms ≡ some vm
      → IsAccounted macs gpus s
      → (ports : List Port) × (remove vm.sol_port s.sol_used_ports ≡ some ports)
        × (destroy_locked name vm (ok tt) s ≡ (ok tt, released vm name ports s))
  unfolding destroy_locked free_vm_resources
  destroy_locked_done name vm s f h =
      let (ports, r) = port_of_vm name vm s f h in (ports, r, ground (arith, r, f))

  -- The second half of `allocate_vm` keeps the books, whether the manager completes the machine or
  -- raises, as long as the machine stands in `vms` and keeps its resources.
  pub finish_allocate-IsAccounted :
      (machine : Vm) (r : Result String Vm) (s : Allocator)
      → lookup machine.name s.vms ≡ some machine
      → ((vm : Vm) → r ≡ ok vm → SameResources machine vm)
      → IsAccounted macs gpus s
      → IsAccounted macs gpus (finish_allocate machine r s).1
  finish_allocate-IsAccounted machine (ok vm) s f same h =
      unfold finish_allocate in completed-IsAccounted machine.name machine vm s f (same vm refl) h
  finish_allocate-IsAccounted machine (err e) s f same h =
      let (ports, r, out) = finish_allocate_failed machine e s f h in
      rw out (released-IsAccounted machine.name machine ports s f r h)

  -- So does `destroy_vm`, for the machine that stands in `vms`.
  pub destroy_locked-IsAccounted :
      (name : String) (vm : Vm) (r : Result String (Unit {0})) (s : Allocator)
      → lookup name s.vms ≡ some vm
      → IsAccounted macs gpus s
      → IsAccounted macs gpus (destroy_locked name vm r s).1
  destroy_locked-IsAccounted name vm (ok tt) s f h =
      let (ports, r, out) = destroy_locked_done name vm s f h in
      rw out (released-IsAccounted name vm ports s f r h)
  destroy_locked-IsAccounted name vm (err e) s f h =
      unfold destroy_locked in rw (has_key_of_lookup name vm s.vms f) h
