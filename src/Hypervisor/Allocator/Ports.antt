-- ===== src/Hypervisor/Allocator/Ports.antt =====
-- `_reserve_free_port`: which port it takes, and what it leaves alone.
use habertest_backend.Base.{
  ℕ, nat_beq, nat_beq_iff, Bool-cases, zero, suc, ◌+◌, ◌≤◌, ◌<◌, ◌≡◌, refl, ◌⊎◌, inl, inr, true,
  false, List, [], ◌∷◌, ◌++◌, arith,
}
use mathlib.Core.Path.{subst}
use habertest_backend.Hypervisor.Vm.{Port, number, port_eq}
use habertest_backend.Hypervisor.Allocator.{
  Allocator, AllocError, socket_error, Bind, bound, in_use, failed, reserve_free_port,
}
use habertest_backend.Base.Counts.{contains}
use habertest_backend.Base.Exec.{Result, ok, err}

-- No machine has the port, and the system lets it be bound.
abbrev pub IsFree : (ℕ → Bind) → List Port → ℕ → Type 0
IsFree bind used port = (contains (number port) used ≡ false) × (bind port ≡ bound)

abbrev pub IsTaken : (ℕ → Bind) → List Port → ℕ → Type 0
IsTaken bind used port = (contains (number port) used ≡ true) ⊎ (bind port ≡ in_use)

-- How a search of `attempts` ports from `base` ends: at the first port that is not taken, or with
-- an error and the allocator as it was.
pub data Search (bind : ℕ → Bind) (base attempts : ℕ) (s : Allocator)
    (out : Result AllocError ℕ × Allocator) : Type 0 where
  found :
      (port : ℕ)
      → base ≤ port
      → port < base + attempts
      → IsFree bind s.sol_used_ports port
      → ((q : ℕ) → base ≤ q → q < port → IsTaken bind s.sol_used_ports q)
      → out ≡ (ok port, record s { sol_used_ports = s.sol_used_ports ++ number port ∷ [] })
      → Search bind base attempts s out
  broken :
      (port : ℕ)
      → base ≤ port
      → port < base + attempts
      → bind port ≡ failed
      → out ≡ (err socket_error, s)
      → Search bind base attempts s out
  exhausted :
      ((q : ℕ) → base ≤ q → q < base + attempts → IsTaken bind s.sol_used_ports q)
      → out ≡ (err socket_error, s)
      → Search bind base attempts s out

module _ (bind : ℕ → Bind) (s : Allocator) where
  -- One more taken port below.
  IsTaken-below :
      (base limit q : ℕ)
      → IsTaken bind s.sol_used_ports base
      → ((q : ℕ) → base + 1 ≤ q → q < limit → IsTaken bind s.sol_used_ports q)
      → base ≤ q
      → q < limit
      → IsTaken bind s.sol_used_ports q
  IsTaken-below base limit q here above low high = elim (Bool-cases (nat_beq base q)) [
    | inl same ↦ subst (λ x. IsTaken bind s.sol_used_ports x) ((nat_beq_iff base q).0 same) here
    | inr later ↦ above q (ground arith) high
  ]

  Search-later :
      (base attempts : ℕ) {out : Result AllocError ℕ × Allocator}
      → IsTaken bind s.sol_used_ports base
      → Search bind (base + 1) attempts s out
      → Search bind base (suc attempts) s out
  Search-later base attempts here (found port low high free below e) =
      found port (omega arith) (omega arith) free (λ q. IsTaken-below base port q here below) e
  Search-later base attempts here (broken port low high f e) =
      broken port (omega arith) (omega arith) f e
  Search-later base attempts here (exhausted all e) =
      exhausted
        (λ q low high. IsTaken-below base (base + 1 + attempts) q here all low (omega arith)) e

  -- The first port is taken at once if it is free.
  pub reserve_free_port_first :
      (base attempts : ℕ)
      → IsFree bind s.sol_used_ports base
      → (reserve_free_port bind base (suc attempts) s).0 ≡ ok base
  unfolding reserve_free_port
  reserve_free_port_first base attempts (unused, free) = rw (unused, free)

  -- The result of `_reserve_free_port`, on every branch.
  pub reserve_free_port-Search :
      (base attempts : ℕ) → Search bind base attempts s (reserve_free_port bind base attempts s)
  unfolding reserve_free_port
  reserve_free_port-Search base zero = exhausted (λ q low high. absurd (omega arith)) refl
  reserve_free_port-Search base (suc attempts) =
      elim (Bool-cases (contains (number base) s.sol_used_ports)) [
        | inl used ↦
            rw used
              (Search-later base attempts (inl used) (reserve_free_port-Search (base + 1) attempts))
        | inr unused ↦
            rw unused
              (at_bind unused (bind base) refl (reserve_free_port-Search (base + 1) attempts))
      ]
    where
      at_bind :
          contains (number base) s.sol_used_ports ≡ false
          → (b : Bind) → bind base ≡ b
          → Search bind (base + 1) attempts s (reserve_free_port bind (base + 1) attempts s)
          → Search bind base (suc attempts) s (elim b [
            | bound ↦ (ok base, record s { sol_used_ports = s.sol_used_ports ++ number base ∷ [] })
            | in_use ↦ reserve_free_port bind (base + 1) attempts s
            | failed ↦ (err socket_error, s)
          ])
      at_bind unused bound e later =
          found base (omega arith) (omega arith) (unused, e) (λ q low high. absurd (omega arith))
            refl
      at_bind unused in_use e later = Search-later base attempts (inr e) later
      at_bind unused failed e later = broken base (omega arith) (omega arith) e refl
