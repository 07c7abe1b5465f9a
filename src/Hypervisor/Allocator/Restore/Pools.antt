-- ===== src/Hypervisor/Allocator/Restore/Pools.antt =====
-- What the restoration of a machine does to the pools.
use habertest_backend.Base.{
  string_eq, ◌≡◌, refl, ◌+◌, String, Bool, none, List, [], ◌∷◌, arith, Option-cases, inl, inr, ap,
}
use habertest_backend.Base.Counts.{count, count-remove, remove}
use habertest_backend.Base.Dict.{lookup, total-insert_new}
use habertest_backend.Base.Exec.{Result, ok, err, Result-cases}
use habertest_backend.Hypervisor.Vm.{Device, NetIface, device_eq, macs_of_nets, macs_of, Vm}
use habertest_backend.Hypervisor.Allocator.{Allocator}
use habertest_backend.Hypervisor.Allocator.Accounts.{macs_in, gpus_in}
use habertest_backend.Hypervisor.Allocator.Restore.{
  RestoreWorld, RestoreError, value_error, VmData, try_restore_vm, macs_to_reserve, take_macs,
  take_gpus, take_mac, take_gpu, enter, gpus_to_reserve,
}

-- Taking items out of a pool: it ends with what is left, or an item is missing.
data TakesMacs (macs : List String) (s : Allocator)
    (out : Result RestoreError (Unit {0}) × Allocator) : Type 0 where
  took :
      (left : List String)
      → out ≡ (ok tt, record s { mac_addresses = left })
      → ((p : String → Bool) → count p s.mac_addresses ≡ count p macs + count p left)
      → TakesMacs macs s out
  short : out.0 ≡ err value_error → TakesMacs macs s out

data TakesGpus (gpus : List Device) (s : Allocator)
    (out : Result RestoreError (Unit {0}) × Allocator) : Type 0 where
  took :
      (left : List Device)
      → out ≡ (ok tt, record s { gpus_list = left })
      → ((p : Device → Bool) → count p s.gpus_list ≡ count p gpus + count p left)
      → TakesGpus gpus s out
  short : out.0 ≡ err value_error → TakesGpus gpus s out

take_macs-TakesMacs : (macs : List String) (s : Allocator) → TakesMacs macs s (take_macs macs s)
unfolding take_macs take_mac
take_macs-TakesMacs [] s = took s.mac_addresses refl (λ p. omega arith)
take_macs-TakesMacs (mac ∷ macs) s = elim (Option-cases (remove mac s.mac_addresses)) [
  | inl missing ↦ short (ground (arith, missing))
  | inr (left, found) ↦ elim (take_macs-TakesMacs macs (record s { mac_addresses = left })) [
    | took rest e c ↦
        took rest (ground (arith, found, e))
          (λ p. omega (arith, count-remove p mac s.mac_addresses left found, c p))
    | short e ↦ short (ground (arith, found, e))
  ]
]

take_gpus-TakesGpus : (gpus : List Device) (s : Allocator) → TakesGpus gpus s (take_gpus gpus s)
unfolding take_gpus take_gpu
take_gpus-TakesGpus [] s = took s.gpus_list refl (λ p. omega arith)
take_gpus-TakesGpus (gpu ∷ gpus) s = elim (Option-cases (remove gpu s.gpus_list)) [
  | inl missing ↦ short (ground (arith, missing))
  | inr (left, found) ↦ elim (take_gpus-TakesGpus gpus (record s { gpus_list = left })) [
    | took rest e c ↦
        took rest (ground (arith, found, e))
          (λ p. omega (arith, count-remove p gpu s.gpus_list left found, c p))
    | short e ↦ short (ground (arith, found, e))
  ]
]

-- The MAC addresses that are reserved are those of the machine's networks.
macs_to_reserve-macs_of_nets :
    (w : RestoreWorld) (nets : List NetIface) (s : Allocator) (macs : List String)
    → macs_to_reserve w nets s ≡ ok macs
    → macs ≡ macs_of_nets nets
unfolding macs_to_reserve
macs_to_reserve-macs_of_nets w [] s macs e = ground (arith, e)
macs_to_reserve-macs_of_nets w (net ∷ nets) s macs e =
    elim (Result-cases (macs_to_reserve w nets s)) [
      | inl (rest, f) ↦ ground (arith, e, f, macs_to_reserve-macs_of_nets w nets s rest f)
      | inr (x, f) ↦ ground (arith, e, f)
    ]

-- A machine that is restored under a new name takes its MAC addresses and GPUs out of the pools: none
-- is lost and none is in two places.
pub try_restore_vm_moves :
    (w : RestoreWorld) (d : VmData) (s : Allocator)
    → (try_restore_vm w d s).0 ≡ ok tt
    → lookup d.machine.name s.vms ≡ none
    → let t = (try_restore_vm w d s).1 in
      ((p : String → Bool)
        → count p t.mac_addresses + macs_in p t.vms ≡ count p s.mac_addresses + macs_in p s.vms)
      × ((p : Device → Bool)
          → count p t.gpus_list + gpus_in p t.vms ≡ count p s.gpus_list + gpus_in p s.vms)
unfolding try_restore_vm enter
try_restore_vm_moves w d s done fresh =
    elim (Result-cases (macs_to_reserve w d.machine.net_ifaces s)) [
      | inr (x, em) ↦ absurd (ground (arith, em, done))
      | inl (macs, em) ↦ elim (Result-cases (gpus_to_reserve d.pcis s.gpus_list)) [
        | inr (x, eg) ↦ absurd (ground (arith, em, eg, done))
        | inl (gpus, eg) ↦ elim (take_macs-TakesMacs macs s) [
          | short om ↦ absurd (ground (arith, em, eg, om, done))
          | took left om cm ↦ elim (take_gpus-TakesGpus gpus (record s { mac_addresses = left })) [
            | short og ↦ absurd (ground (arith, em, eg, om, og, done))
            | took rest og cg ↦
                let restored : Vm = record d.machine { pcis = gpus } in
                let out : try_restore_vm w d s ≡ (
                  ok tt,
                  enter restored (record s { mac_addresses = left; gpus_list = rest }),
                ) =
                  ground (arith, em, eg, om, og, done) in
                let same = macs_to_reserve-macs_of_nets w d.machine.net_ifaces s macs em in
                rw out (
                  λ p. omega (
                    arith,
                    total-insert_new (λ vm. count p (macs_of vm)) d.machine.name restored s.vms
                        fresh,
                    cm p,
                    ap (count p) same,
                  ),
                  λ p. omega (
                    arith,
                    total-insert_new (λ vm. count p vm.pcis) d.machine.name restored s.vms fresh,
                    cg p,
                  ),
                )
          ]
        ]
      ]
    ]
