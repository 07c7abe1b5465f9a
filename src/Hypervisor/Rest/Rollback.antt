-- ===== src/Hypervisor/Rest/Rollback.antt =====
-- A request for several machines that fails leaves none of them.
use habertest_backend.Base.{
  Bool-cases, sym, string_eq, ◌≡◌, refl, String, [], ◌∷◌, arith, ap, ◌∙◌, List, All, ◌≢◌, inl, inr,
}
use habertest_backend.Base.Dict.{Dict, erase, erase_absent, erase-insert}
use habertest_backend.Base.Counts.{SameItems}
use habertest_backend.Base.Exec.{Result, ok, err}
use habertest_backend.Hypervisor.Vm.{Vm, Device}
use habertest_backend.Hypervisor.Allocator.{
  Allocator, AllocError, VmRequest, allocate_vm, destroy_vm, socket_error,
}
use habertest_backend.Hypervisor.Allocator.Machines.{
  KeepsVm, Adds, allocate_vm-Adds, destroy_vm-vms, allocate_vm-IsAccounted, destroy_vm-IsAccounted,
}
use habertest_backend.Hypervisor.Rest.{
  allocate_all, destroy_all, World, completed, Demand, translate_to_vm_params, fulfill, settle,
  has_exception,
}
use habertest_backend.Hypervisor.Allocator.Accounts.{macs_in, gpus_in, ports_in, IsAccounted}

erase_comm :
    {V : Type 0} (k j : String) (d : Dict String V) → erase k (erase j d) ≡ erase j (erase k d)
unfolding erase
erase_comm k j [] = refl
erase_comm k j ((i, u) ∷ d) = ground (arith, erase_comm k j d)

-- Destroying machines forgets their names.
erase_names : List Vm → Dict String Vm → Dict String Vm
erase_names [] d = d
erase_names (vm ∷ vms) d = erase_names vms (erase vm.name d)

erase_names-erase :
    (vms : List Vm) (k : String) (d : Dict String Vm)
    → erase_names vms (erase k d) ≡ erase k (erase_names vms d)
unfolding erase_names
erase_names-erase [] k d = refl
erase_names-erase (vm ∷ vms) k d =
    ap (erase_names vms) (erase_comm vm.name k d) ∙ erase_names-erase vms k (erase vm.name d)

module _ (w : World) where
  destroy_all-vms :
      (vms : List Vm) (s : Allocator)
      → ((vm : Vm) → w.demolish vm ≡ ok tt)
      → (destroy_all w vms s).vms ≡ erase_names vms s.vms
  unfolding destroy_all erase_names
  destroy_all-vms [] s done = refl
  destroy_all-vms (vm ∷ vms) s done =
      destroy_all-vms vms (destroy_vm vm.name w.demolish s).1 done
      ∙ ap (erase_names vms) (destroy_vm-vms vm.name w.demolish s done)

  erase_names-allocate_all :
      (reqs : List VmRequest) (s : Allocator)
      → KeepsVm w.build
      → erase_names (completed (allocate_all w reqs s).0) (allocate_all w reqs s).1.vms ≡ s.vms
  unfolding allocate_all erase_names completed
  erase_names-allocate_all [] s keeps = refl
  erase_names-allocate_all (req ∷ reqs) s keeps =
      at_result (allocate_vm w.bind (w.uuid req) w.build req s).0
        (allocate_vm w.bind (w.uuid req) w.build req s).1
        (allocate_vm-Adds w.bind (w.uuid req) w.build req s keeps)
        (erase_names-allocate_all reqs (allocate_vm w.bind (w.uuid req) w.build req s).1 keeps)
    where
      at_result :
          (x : Result AllocError Vm) (t : Allocator)
          → Adds s (x, t)
          → erase_names (completed (allocate_all w reqs t).0) (allocate_all w reqs t).1.vms ≡ t.vms
          → erase_names (completed (x ∷ (allocate_all w reqs t).0)) (allocate_all w reqs t).1.vms
            ≡ s.vms
      at_result (ok vm) t added rest =
          erase_names-erase (completed (allocate_all w reqs t).0) vm.name
            (allocate_all w reqs t).1.vms
          ∙ ap (erase vm.name) (rest ∙ added.1)
          ∙ erase-insert vm.name vm s.vms
          ∙ erase_absent vm.name s.vms added.0
      at_result (err e) t added rest = rest ∙ added

-- The same machines, and the same items in the pools and the used ports, in any order.
abbrev pub Unchanged : Allocator → Allocator → Type 0
Unchanged s t =
    (t.vms ≡ s.vms)
    × SameItems t.mac_addresses s.mac_addresses
    × SameItems t.gpus_list s.gpus_list
    × SameItems t.sol_used_ports s.sol_used_ports

Unchanged-of :
    {macs : List String} {gpus : List Device} {s t : Allocator}
    → IsAccounted macs gpus t
    → IsAccounted macs gpus s
    → t.vms ≡ s.vms
    → Unchanged s t
Unchanged-of {s} {t} ht hs e = (
  e,
  λ p. omega (arith, ht.macs_kept p, hs.macs_kept p, ap (macs_in p) e),
  λ p. omega (arith, ht.gpus_kept p, hs.gpus_kept p, ap (gpus_in p) e),
  λ p. ht.ports_used p ∙ ap (ports_in p) e ∙ sym (hs.ports_used p),
)

-- No request found all its serial ports taken.
abbrev pub HavePorts : List (Result AllocError Vm) → Type 0
HavePorts = All (λ r. r ≢ err socket_error)

module _ {macs : List String} {gpus : List Device} (w : World) where
  allocate_all-IsAccounted :
      (reqs : List VmRequest) (s : Allocator)
      → KeepsVm w.build
      → HavePorts (allocate_all w reqs s).0
      → IsAccounted macs gpus s
      → IsAccounted macs gpus (allocate_all w reqs s).1
  unfolding allocate_all
  allocate_all-IsAccounted [] s keeps ports h = h
  allocate_all-IsAccounted (req ∷ reqs) s keeps ports h =
      allocate_all-IsAccounted reqs (allocate_vm w.bind (w.uuid req) w.build req s).1 keeps ports.1
        (allocate_vm-IsAccounted w.bind (w.uuid req) w.build req s keeps ports.0 h)

  destroy_all-IsAccounted :
      (vms : List Vm) (s : Allocator)
      → IsAccounted macs gpus s
      → IsAccounted macs gpus (destroy_all w vms s)
  unfolding destroy_all
  destroy_all-IsAccounted [] s h = h
  destroy_all-IsAccounted (vm ∷ vms) s h =
      destroy_all-IsAccounted vms (destroy_vm vm.name w.demolish s).1
        (destroy_vm-IsAccounted vm.name w.demolish s h)

  -- A request for several machines of which one fails leaves the machines as they were, and the same
  -- MAC addresses, GPUs and serial ports in use, in any order: provided that the manager keeps names
  -- and resources, that machines can be destroyed, and that no request ran out of serial ports.
  pub fulfill_failed :
      (d : Demand) (s : Allocator)
      → KeepsVm w.build
      → ((vm : Vm) → w.demolish vm ≡ ok tt)
      → HavePorts (allocate_all w (translate_to_vm_params d) s).0
      → IsAccounted macs gpus s
      → (fulfill w d s).0.status ≡ 500
      → Unchanged s (fulfill w d s).1
  unfolding fulfill settle
  fulfill_failed d s keeps destroyed ports h failed =
      at_settled (allocate_all w reqs s) (erase_names-allocate_all w reqs s keeps)
        (allocate_all-IsAccounted reqs s keeps ports h) failed
    where
      reqs : List VmRequest
      reqs = translate_to_vm_params d

      at_settled :
          (x : List (Result AllocError Vm) × Allocator)
          → erase_names (completed x.0) x.1.vms ≡ s.vms
          → IsAccounted macs gpus x.1
          → (settle w x).0.status ≡ 500
          → Unchanged s (settle w x).1
      at_settled (results, t) gone k failed = elim (Bool-cases (has_exception results)) [
        | inl e ↦ rw e (
            Unchanged-of (destroy_all-IsAccounted (completed results) t k) h
              (destroy_all-vms w (completed results) t destroyed ∙ gone))
        | inr e ↦ absurd (ground (arith, e, failed))
      ]
