-- ===== src/Hypervisor/Allocator/Machines.antt =====
-- What each operation does to the machines that are known, and its books.
use mathlib.Core.Path.{subst}
use habertest_backend.Hypervisor.Allocator.Checks.{finish_failed, finish_allocate-err}
use habertest_backend.Base.{
  false, sym, ℕ, string_eq, beq_refl, ◌≡◌, ◌≢◌, refl, String, none, List, [], ◌∷◌, arith, inl, inr,
  Option-cases, ap, ◌∙◌, some,
}
use habertest_backend.Base.Dict.{Dict, lookup, insert, erase, erase_absent, lookup-insert_self}
use habertest_backend.Base.Exec.{Result, ok, err, >>=-ok, >>=-err}
use habertest_backend.Hypervisor.Vm.{number, Vm, Device, port_eq}
use habertest_backend.Hypervisor.Allocator.{
  key_error, Allocator, AllocError, Bind, VmRequest, allocate_vm, finish_allocate, destroy_vm,
  destroy_locked, find_vm, free_vm_resources, delete, socket_error, new_vm, begin_allocate,
}
use habertest_backend.Hypervisor.Allocator.Begin.{
  IsAdmitted, refused, no_port, created, begin_allocate-Begins, extended, taken,
}
use habertest_backend.Hypervisor.Allocator.Accounts.{SameResources, IsAccounted}
use habertest_backend.Hypervisor.Allocator.Keeps.{
  destroy_locked-IsAccounted, begin_allocate-IsAccounted, finish_allocate-IsAccounted,
}
use habertest_backend.Base.Counts.{contains}

-- The manager keeps the names and the resources of the machines that it builds.
abbrev pub KeepsVm : (Vm → Result String Vm) → Type 0
KeepsVm build = (m m' : Vm) → build m ≡ ok m' → SameResources m m' × (m'.name ≡ m.name)

insert-insert :
    {V : Type 0} (k : String) (v w : V) (d : Dict String V)
    → insert k v (insert k w d) ≡ insert k v d
unfolding insert
insert-insert k v w [] = ground (arith, beq_refl k)
insert-insert k v w ((j, u) ∷ d) = ground (arith, insert-insert k v w d)

-- What one request makes of the machines.
abbrev pub Adds : Allocator → Result AllocError Vm × Allocator → Type 0
Adds s (ok vm, t) = (lookup vm.name s.vms ≡ none) × (t.vms ≡ insert vm.name vm s.vms)
Adds s (err e, t) = t.vms ≡ s.vms

Adds-err :
    (s : Allocator) (x : Result AllocError Vm × Allocator)
    → ((vm : Vm) → x.0 ≢ ok vm)
    → x.1.vms ≡ s.vms
    → Adds s x
Adds-err s (ok vm, t) h e = absurd (h vm refl)
Adds-err s (err e', t) h e = e

pub allocate_vm-Adds :
    (bind : ℕ → Bind) (uuid : String) (build : Vm → Result String Vm) (req : VmRequest)
    (s : Allocator)
    → KeepsVm build
    → Adds s (allocate_vm bind uuid build req s)
unfolding allocate_vm finish_allocate free_vm_resources delete
allocate_vm-Adds bind uuid build req s keeps = elim (begin_allocate-Begins bind uuid req s) [
  | refused e' _ _ out ↦ rw (>>=-err _ _ s out) refl
  | no_port a _ out ↦ rw (>>=-err _ _ s out) refl
  | created port name a free fresh out ↦
      rw (>>=-ok _ _ s out)
        (at_manager port name a free.0 fresh (build (new_vm uuid name req (taken req s port))) refl)
]
  where
    at_manager :
        (port : ℕ) (name : String)
        → IsAdmitted req s
        → contains (number port) s.sol_used_ports ≡ false
        → lookup name s.vms ≡ none
        → (r : Result String Vm) → build (new_vm uuid name req (taken req s port)) ≡ r
        → Adds s (
            finish_allocate
              (new_vm uuid name req (taken req s port))
              r
              (extended req s port name (new_vm uuid name req (taken req s port))))
    at_manager port name a free fresh (err e) b =
        Adds-err s
          (finish_allocate (new_vm uuid name req (taken req s port)) (err e)
            (extended req s port name (new_vm uuid name req (taken req s port))))
          (λ vm.
            finish_allocate-err (new_vm uuid name req (taken req s port)) e vm
              (extended req s port name (new_vm uuid name req (taken req s port))))
          (finish_failed uuid req s port name e a free fresh).vms
    at_manager port name a free fresh (ok vm) b =
        let same : vm.name ≡ name = (keeps (new_vm uuid name req (taken req s port)) vm b).1 in
        (
          ap (λ n. lookup n s.vms) same ∙ fresh,
          insert-insert name vm (new_vm uuid name req (taken req s port)) s.vms
              ∙ ap (λ n. insert n vm s.vms) (sym same),
        )

-- `destroy_vm` forgets the machine, if there is one.
pub destroy_vm-vms :
    (name : String) (demolish : Vm → Result String (Unit {0})) (s : Allocator)
    → ((vm : Vm) → demolish vm ≡ ok tt)
    → (destroy_vm name demolish s).1.vms ≡ erase name s.vms
unfolding destroy_vm destroy_locked free_vm_resources find_vm delete
destroy_vm-vms name demolish s done = elim (Option-cases (lookup name s.vms)) [
  | inl missing ↦ ground (arith, missing, erase_absent name s.vms)
  | inr (vm, found) ↦ ground (arith, found, done vm)
]

module _ {macs : List String} {gpus : List Device} where
  pub allocate_vm-IsAccounted :
      (bind : ℕ → Bind) (uuid : String) (build : Vm → Result String Vm) (req : VmRequest)
      (s : Allocator)
      → KeepsVm build
      → (allocate_vm bind uuid build req s).0 ≢ err socket_error
      → IsAccounted macs gpus s
      → IsAccounted macs gpus (allocate_vm bind uuid build req s).1
  unfolding allocate_vm
  allocate_vm-IsAccounted bind uuid build req s keeps has_port h =
      elim (begin_allocate-Begins bind uuid req s) [
        | refused e' _ _ out ↦ rw (>>=-err _ _ s out) h
        | no_port a _ out ↦ absurd (has_port (ground (arith, out)))
        | created port name a free fresh out ↦
            let built = new_vm uuid name req (taken req s port) in
            rw (>>=-ok _ _ s out) (
              finish_allocate-IsAccounted built (build built) (extended req s port name built)
                (lookup-insert_self name built s.vms) (λ vm b. (keeps built vm b).0)
                (begun built port name out))
      ]
    where
      begun :
          (vm : Vm) (port : ℕ) (name : String)
          → begin_allocate bind uuid req s ≡ (ok vm, extended req s port name vm)
          → IsAccounted macs gpus (extended req s port name vm)
      begun vm port name out =
          subst (IsAccounted macs gpus) (ap (λ o. o.1) out)
            (begin_allocate-IsAccounted bind uuid req s (λ e. ground (arith, out, e)) h)

  pub destroy_vm-IsAccounted :
      (name : String) (demolish : Vm → Result String (Unit {0})) (s : Allocator)
      → IsAccounted macs gpus s
      → IsAccounted macs gpus (destroy_vm name demolish s).1
  unfolding destroy_vm find_vm
  destroy_vm-IsAccounted name demolish s h = elim (Option-cases (lookup name s.vms)) [
    | inl missing ↦
        rw
          (>>=-err (find_vm name) (λ vm. destroy_locked name vm (demolish vm)) s
            (not_found missing))
          h
    | inr (vm, found) ↦
        rw
          (>>=-ok (find_vm name) (λ vm. destroy_locked name vm (demolish vm)) s (is_found vm found))
          (destroy_locked-IsAccounted name vm (demolish vm) s found h)
  ]
    where
      not_found : lookup name s.vms ≡ none → find_vm name s ≡ (err key_error, s)
      not_found missing = ground (arith, missing)

      is_found : (vm : Vm) → lookup name s.vms ≡ some vm → find_vm name s ≡ (ok vm, s)
      is_found vm found = ground (arith, found)
