-- ===== src/Hypervisor/Allocator/Runs.antt =====
-- The tasks of one hypervisor interleave: each step is what one request does between two waits.
use habertest_backend.Base.{
  ℕ, string_eq, length, take, ◌+◌, String, ◌≡◌, refl, ◌≢◌, Bool, some, List, arith, Option-cases,
  inl, inr, ◌++◌, none, if◌then◌else◌, ◌⊎◌, true, Bool-cases, beq_refl, false, ◌&&◌,
}
use habertest_backend.Base.Counts.{
  count, remove, count-append, count-take-drop, contains, count-remove, remove_total,
  contains-remove,
}
use habertest_backend.Base.Dict.{lookup, erase, total-erase}
use habertest_backend.Hypervisor.Vm.{Vm, Device, port_eq, macs_of}
use habertest_backend.Hypervisor.Allocator.{
  Allocator, VmRequest, Bind, socket_error, init, begin_allocate, finish_allocate, destroy_locked,
  free_vm_resources, as_list, value_error, Port,
}
use habertest_backend.Hypervisor.Allocator.Begin.{refused, no_port, created, begin_allocate-Begins}
use habertest_backend.Hypervisor.Allocator.Accounts.{
  IsAccounted, SameResources, released, macs_in, gpus_in, ports_in,
}
use habertest_backend.Hypervisor.Allocator.Keeps.{
  begin_allocate-IsAccounted, finish_allocate-IsAccounted, destroy_locked-IsAccounted,
}
use habertest_backend.Base.Exec.{Result, ok, err}

-- The steps: a request begins, at what `bind` answers then; the machine of a request is completed or
-- given up; and a destroyer that waited for the lock of its machine goes on, while its name still stands
-- for that machine, or for none any more. A destroyer whose name stands for another machine takes no
-- step here: what it does is stated by `destroy_stale`.
pub data Step (s t : Allocator) : Type 0 where
  begins :
      (bind : ℕ → Bind) (uuid : String) (req : VmRequest)
      → (begin_allocate bind uuid req s).0 ≢ err socket_error
      → t ≡ (begin_allocate bind uuid req s).1
      → Step s t
  finishes :
      (machine : Vm) (r : Result String Vm)
      → lookup machine.name s.vms ≡ some machine
      → ((vm : Vm) → r ≡ ok vm → SameResources machine vm)
      → t ≡ (finish_allocate machine r s).1
      → Step s t
  destroys :
      (name : String) (vm : Vm) (r : Result String (Unit {0}))
      → (lookup name s.vms ≡ some vm) ⊎ (lookup name s.vms ≡ none)
      → t ≡ (destroy_locked name vm r s).1
      → Step s t

pub data Reach (s : Allocator) : Allocator → Type 0 where
  here : Reach s s
  later : {t u : Allocator} → Reach s t → Step t u → Reach s u

init-IsAccounted :
    (macs : List String) (gpus : List Device) (server : String) (max_vms base : ℕ)
    (dev net : String)
    → IsAccounted macs gpus (init macs gpus server max_vms base dev net)
unfolding init
init-IsAccounted macs gpus server max_vms base dev net = record {
  macs_kept = λ p. omega arith;
  gpus_kept = λ p. omega arith;
  ports_used = λ p. refl;
  distinct = tt;
  bounded = omega arith;
}

-- A destroyer that comes after another one changes nothing.
destroy_locked-late :
    (name : String) (vm : Vm) (r : Result String (Unit {0})) (s : Allocator)
    → lookup name s.vms ≡ none
    → (destroy_locked name vm r s).1 ≡ s
unfolding destroy_locked
destroy_locked-late name vm (ok done) s gone = ground (arith, gone)
destroy_locked-late name vm (err e) s gone = ground (arith, gone)

pub Step-IsAccounted :
    {macs : List String} {gpus : List Device} {s t : Allocator}
    → Step s t
    → IsAccounted macs gpus s
    → IsAccounted macs gpus t
Step-IsAccounted {s} (begins bind uuid req has_port e) h =
    rw e (begin_allocate-IsAccounted bind uuid req s has_port h)
Step-IsAccounted {s} (finishes machine r f same e) h =
    rw e (finish_allocate-IsAccounted machine r s f same h)
Step-IsAccounted {s} (destroys name vm r (inl f) e) h =
    rw e (destroy_locked-IsAccounted name vm r s f h)
Step-IsAccounted {s} (destroys name vm r (inr gone) e) h =
    rw (e, destroy_locked-late name vm r s gone) h

-- From a fresh allocator, in whatever order the steps of the requests come, whatever `bind` answers at
-- each and whichever of them fail, each MAC address and GPU of the configuration is in its pool or in
-- exactly one machine, the used serial ports are those of the machines, no two machines share a name,
-- and there are at most `max_vms`: provided that no request runs out of ports, that the manager leaves
-- a machine's resources alone, that a request which ends its allocation finds its machine under its name,
-- and that a destroyer which gets its lock finds under the name its machine or none, not another one.
pub Reach-IsAccounted :
    (macs : List String) (gpus : List Device) (server : String) (max_vms base : ℕ)
    (dev net : String) {t : Allocator}
    → Reach (init macs gpus server max_vms base dev net) t
    → IsAccounted macs gpus t
Reach-IsAccounted macs gpus server max_vms base dev net here =
    init-IsAccounted macs gpus server max_vms base dev net
Reach-IsAccounted macs gpus server max_vms base dev net (later r st) =
    Step-IsAccounted st (Reach-IsAccounted macs gpus server max_vms base dev net r)

module _ {macs : List String} {gpus : List Device} where
  -- A request that is admitted and finds no port loses the MAC addresses and the GPUs that it had
  -- taken: they are in no pool and in no machine, whatever is counted, and the machines stay.
  pub no_port_leaks :
      (bind : ℕ → Bind) (uuid : String) (req : VmRequest) (s : Allocator)
      → (begin_allocate bind uuid req s).0 ≡ err socket_error
      → IsAccounted macs gpus s
      → let t = (begin_allocate bind uuid req s).1 in
        (t.vms ≡ s.vms)
        × ((p : String → Bool)
            → count p t.mac_addresses
                + macs_in p t.vms
                + count p (take (length (as_list req.networks)) s.mac_addresses)
              ≡ count p macs)
        × ((p : Device → Bool)
            → count p t.gpus_list + gpus_in p t.vms + count p (take req.num_gpus s.gpus_list)
              ≡ count p gpus)
  no_port_leaks bind uuid req s failed h = elim (begin_allocate-Begins bind uuid req s) [
    | refused e other _ out ↦ absurd (other (ground (arith, failed, out)))
    | created port name a _ fresh out ↦ cc
    | no_port a _ out ↦ rw out (
      refl,
      λ p.
          omega (
            arith,
            h.macs_kept p,
            count-take-drop p (length (as_list req.networks)) s.mac_addresses,
          ),
      λ p. omega (arith, h.gpus_kept p, count-take-drop p req.num_gpus s.gpus_list),
    )
  ]

  -- A destroyer that waited for the lock of `old` while `name` went to another machine, `new`: the MAC
  -- addresses and GPUs of `old` go back once more, and those of `new` are lost. The port of `old`, if it
  -- is among the used ones, is taken from them, and that of `new` stays there without a machine.
  pub destroy_stale :
      (name : String) (old new : Vm) (s : Allocator)
      → lookup name s.vms ≡ some new
      → IsAccounted macs gpus s
      → let t = (destroy_locked name old (ok tt) s).1 in
        ((p : String → Bool)
          → count p t.mac_addresses + macs_in p t.vms + count p (macs_of new)
            ≡ count p macs + count p (macs_of old))
        × ((p : Device → Bool)
            → count p t.gpus_list + gpus_in p t.vms + count p new.pcis
              ≡ count p gpus + count p old.pcis)
        × ((p : Port → Bool)
            → count p t.sol_used_ports
                + (if contains old.sol_port s.sol_used_ports && p old.sol_port then 1 else 0)
              ≡ ports_in p t.vms + (if p new.sol_port then 1 else 0))
  unfolding destroy_locked free_vm_resources
  destroy_stale name old new s f h = elim (Option-cases (remove old.sol_port s.sol_used_ports)) [
    | inl unknown ↦ rw (unknown_port unknown) (
      books,
      gpu_books,
      λ p. port_books s.sol_used_ports false (not_used unknown) (λ q. omega arith) p,
    )
    | inr (ports, r) ↦ rw (known_port ports r) (
      books,
      gpu_books,
      λ p.
          port_books ports true (used ports r)
            (λ q. omega (arith, count-remove q old.sol_port s.sol_used_ports ports r)) p,
    )
  ]
    where
      unknown_port :
          remove old.sol_port s.sol_used_ports ≡ none
          → destroy_locked name old (ok tt) s
            ≡ (err value_error, released old name s.sol_used_ports s)
      unknown_port r = ground (arith, f)

      known_port :
          (ports : List Port)
          → remove old.sol_port s.sol_used_ports ≡ some ports
          → destroy_locked name old (ok tt) s ≡ (ok tt, released old name ports s)
      known_port ports r = ground (arith, f)

      books :
          (p : String → Bool)
          → count p (s.mac_addresses ++ macs_of old)
              + macs_in p (erase name s.vms)
              + count p (macs_of new)
            ≡ count p macs + count p (macs_of old)
      books p = omega (
        arith,
        h.macs_kept p,
        count-append p s.mac_addresses (macs_of old),
        total-erase (λ v. count p (macs_of v)) name new s.vms h.distinct f,
      )

      gpu_books :
          (p : Device → Bool)
          → count p (s.gpus_list ++ old.pcis) + gpus_in p (erase name s.vms) + count p new.pcis
            ≡ count p gpus + count p old.pcis
      gpu_books p = omega (
        arith,
        h.gpus_kept p,
        count-append p s.gpus_list old.pcis,
        total-erase (λ v. count p v.pcis) name new s.vms h.distinct f,
      )

      not_used :
          remove old.sol_port s.sol_used_ports ≡ none
          → contains old.sol_port s.sol_used_ports ≡ false
      not_used unknown = elim (Bool-cases (contains old.sol_port s.sol_used_ports)) [
        | inl is_used ↦
            absurd (ground (arith, unknown, (remove_total old.sol_port s.sol_used_ports is_used).1))
        | inr free ↦ free
      ]

      used :
          (ports : List Port)
          → remove old.sol_port s.sol_used_ports ≡ some ports
          → contains old.sol_port s.sol_used_ports ≡ true
      used ports r = ground (
        arith,
        contains-remove old.sol_port old.sol_port s.sol_used_ports ports r,
        beq_refl old.sol_port,
      )

      port_books :
          (ports : List Port) (was_used : Bool)
          → contains old.sol_port s.sol_used_ports ≡ was_used
          → ((q : Port → Bool)
              → count q s.sol_used_ports
                ≡ (if was_used && q old.sol_port then 1 else 0) + count q ports)
          → (p : Port → Bool)
          → count p ports
              + (if contains old.sol_port s.sol_used_ports && p old.sol_port then 1 else 0)
            ≡ ports_in p (erase name s.vms) + (if p new.sol_port then 1 else 0)
      port_books ports was_used e taken p = rw e (
          omega (
            arith,
            h.ports_used p,
            taken p,
            total-erase (λ v. if p v.sol_port then 1 else 0) name new s.vms h.distinct f,
          ))
