-- ===== src/Hypervisor/Allocator/Begin.antt =====
-- `allocate_vm` up to the new entry in `vms`: the three ways in which it can end.
use habertest_backend.Base.{
  ℕ, string_eq, length, take, drop, ◌+◌, ◌≤◌, String, ◌≡◌, ◌≢◌, true, none, [], ◌∷◌, ◌++◌, arith,
  ltb, nat_beq, Bool-cases, inl, inr,
}
use habertest_backend.Hypervisor.Vm.{Vm, number, port_eq}
use habertest_backend.Hypervisor.Allocator.{
  Allocator, VmRequest, AllocError, socket_error, Bind, Reserved, as_list, validate_networks_params,
  reserve_free_port, zip_networks, new_vm, begin_allocate, not_enough_resource, value_error,
}
use habertest_backend.Hypervisor.Allocator.Names.Fresh.{find_name_total, find_name_fresh}
use habertest_backend.Hypervisor.Allocator.Ports.{
  Search, found, broken, exhausted, IsFree, reserve_free_port-Search, reserve_free_port_first,
}
use habertest_backend.Base.Dict.{lookup, insert}
use habertest_backend.Base.Exec.{Result, ok, err}

-- What the request has to meet before anything is reserved.
pub record IsAdmitted (req : VmRequest) (s : Allocator) : Type 0 where
  pub macs : length (as_list req.networks) ≤ length s.mac_addresses
  pub gpus : req.num_gpus ≤ length s.gpus_list
  pub nets : validate_networks_params (as_list req.networks) ≡ true
  pub room : s.max_vms ≢ length s.vms

-- The allocator with the GPUs and MAC addresses of a request taken out of its pools.
abbrev pub withdrawn : VmRequest → Allocator → Allocator
withdrawn req s = record s {
  gpus_list = drop req.num_gpus s.gpus_list;
  mac_addresses = drop (length (as_list req.networks)) s.mac_addresses;
}

-- What a machine gets when it takes `port`.
abbrev pub taken : VmRequest → Allocator → ℕ → Reserved
taken req s port = record {
  gpus = take req.num_gpus s.gpus_list;
  networks =
      zip_networks (withdrawn req s) (take (length (as_list req.networks)) s.mac_addresses)
        (as_list req.networks);
  sol_port = port;
}

-- The allocator with the new machine.
abbrev pub extended : VmRequest → Allocator → ℕ → String → Vm → Allocator
extended req s port name vm = record (withdrawn req s) {
  sol_used_ports = s.sol_used_ports ++ number port ∷ [];
  vms = insert name vm s.vms;
}

module _ (bind : ℕ → Bind) (uuid : String) (req : VmRequest) (s : Allocator) where
  pub data Begins (out : Result AllocError Vm × Allocator) : Type 0 where
    refused :
        (e : AllocError) → e ≢ socket_error → ¬ IsAdmitted req s → out ≡ (err e, s) → Begins out
    no_port :
        IsAdmitted req s
        → ¬ IsFree bind s.sol_used_ports (s.sol_base_port + length s.vms)
        → out ≡ (err socket_error, withdrawn req s)
        → Begins out
    created :
        (port : ℕ) (name : String)
        → IsAdmitted req s
        → IsFree bind s.sol_used_ports port
        → lookup name s.vms ≡ none
        → out ≡ (
          ok (new_vm uuid name req (taken req s port)),
          extended req s port name (new_vm uuid name req (taken req s port)),
        )
        → Begins out

  first_not-IsFree :
      reserve_free_port bind (s.sol_base_port + length s.vms) 500 (withdrawn req s)
        ≡ (err socket_error, withdrawn req s)
      → ¬ IsFree bind s.sol_used_ports (s.sol_base_port + length s.vms)
  first_not-IsFree e free =
      cc (
        e,
        reserve_free_port_first bind (withdrawn req s) (s.sol_base_port + length s.vms) 499 free,
      )

  with_port :
      IsAdmitted req s
      → Search bind
          (s.sol_base_port + length s.vms)
          500
          (withdrawn req s)
          (reserve_free_port bind (s.sol_base_port + length s.vms) 500 (withdrawn req s))
      → Begins (begin_allocate bind uuid req s)
  unfolding begin_allocate
  with_port a (found port _ _ free _ e) =
      let (name, n) =
        find_name_total s.server_name (length s.vms + 1) (length s.vms) s.vms (omega arith) in
      created port name a free (find_name_fresh s.server_name _ _ s.vms name n)
        (ground (arith, e, n))
  with_port a (broken port _ _ _ e) = no_port a (first_not-IsFree e) (ground (arith, e))
  with_port a (exhausted _ e) = no_port a (first_not-IsFree e) (ground (arith, e))

  -- A request that is refused changes nothing; one that is admitted gets a machine, or fails for
  -- want of a port.
  pub begin_allocate-Begins : Begins (begin_allocate bind uuid req s)
  unfolding begin_allocate
  begin_allocate-Begins =
      elim (Bool-cases (ltb (length s.mac_addresses) (length (as_list req.networks)))) [
        | inl few ↦
            refused not_enough_resource (λ h. cc) (λ a. absurd (ground (arith, a.macs)))
              (ground arith)
        | inr macs ↦ elim (Bool-cases (ltb (length s.gpus_list) req.num_gpus)) [
          | inl few ↦
              refused not_enough_resource (λ h. cc) (λ a. absurd (ground (arith, a.gpus)))
                (ground arith)
          | inr gpus ↦ elim (Bool-cases (validate_networks_params (as_list req.networks))) [
            | inr invalid ↦ refused value_error (λ h. cc) (λ a. cc (a.nets)) (ground arith)
            | inl nets ↦ elim (Bool-cases (nat_beq s.max_vms (length s.vms))) [
              | inl full ↦
                  refused not_enough_resource (λ h. cc) (λ a. a.room (ground arith)) (ground arith)
              | inr room ↦
                  with_port
                    (record {
                      macs = ground arith;
                      gpus = ground arith;
                      nets = nets;
                      room = λ h. ground arith;
                    })
                    (reserve_free_port-Search bind (withdrawn req s) _ 500)
            ]
          ]
        ]
      ]
