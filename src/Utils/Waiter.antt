-- ===== src/Utils/Waiter.antt =====
-- The loops that wait (resource_managers/utils/waiter.py), on fuel. The rounds are numbered from 0: the
-- clock is read at the end of each, and what is called answers in each.
pub mod Rounds
pub mod Changing
pub mod Tests
use Prim.Native.String.{◌++◌}
use habertest_backend.Base.{ℕ, zero, suc, ◌+◌, Bool, String, Option, none, some, ltb, if◌then◌else◌}
use habertest_backend.Base.Exec.{Result, ok, err}

-- What one call does: it returns, or it raises an exception of the class that is caught or of another.
pub data Call (A : Type 0) : Type 0 where
  gives : A → Call A
  raises raises_other : String → Call A

-- What one round comes to: the end with a result, another round with a text to keep, or the end with
-- an exception that is not caught.
pub data Round (A : Type 0) : Type 0 where
  returned : A → Round A
  not_yet : String → Round A
  escaped : String → Round A

-- How a wait fails: with a `TimeoutError` and the exceptions that were caught, or with another one.
pub data WaitError : Type 0 where
  timed_out escaping : String → WaitError

-- The clock before the loop, the time limit, and the clock at the end of each round.
pub record Timing : Type 0 where
  pub before : ℕ
  pub timeout : ℕ
  pub clock : ℕ → ℕ

module _ {A : Type 0} where
  -- The loop from round `i` on; `none` is the end of the fuel.
  pub wait_loop : (ℕ → Round A) → Timing → ℕ → ℕ → String → Option (Result WaitError A)
  wait_loop round t zero i caught = none
  wait_loop round t (suc fuel) i caught = elim (round i) [
    | returned a ↦ some (ok a)
    | escaped e ↦ some (err (escaping e))
    | not_yet text ↦
        if ltb (t.before + t.timeout) (t.clock i)
        then some (err (timed_out (caught ++ text)))
        else wait_loop round t fuel (i + 1) (caught ++ text)
  ]

  -- `if result: return result`, under `except exception_cls`
  unfoldable pub nothrow_round : (A → Bool) → Call A → Round A
  nothrow_round truthy (gives a) = if truthy a then returned a else not_yet ""
  nothrow_round truthy (raises e) = not_yet (e ++ "\n")
  nothrow_round truthy (raises_other e) = escaped e

  -- `wait_for_predicate_nothrow`
  unfoldable pub wait_for_predicate_nothrow :
      (A → Bool) → (ℕ → Call A) → Timing → ℕ → Option (Result WaitError A)
  unfolding wait_loop nothrow_round
  wait_for_predicate_nothrow truthy predicate t fuel =
      wait_loop (λ i. nothrow_round truthy (predicate i)) t fuel 0 ""

  -- `return operation()`, under `except Exception`
  operation_round : Call A → Round A
  operation_round (gives a) = returned a
  operation_round (raises e) = not_yet (e ++ "\n")
  operation_round (raises_other e) = escaped e

  -- `wait_nothrow`
  pub wait_nothrow : (ℕ → Call A) → Timing → ℕ → Option (Result WaitError A)
  unfolding wait_loop operation_round
  wait_nothrow operation t fuel = wait_loop (λ i. operation_round (operation i)) t fuel 0 ""

-- `while not predicate()`, which catches nothing
predicate_round : Call Bool → Round (Unit {0})
predicate_round (gives b) = if b then returned tt else not_yet ""
predicate_round (raises e) = escaped e
predicate_round (raises_other e) = escaped e

-- `wait_for_predicate`
pub wait_for_predicate : (ℕ → Call Bool) → Timing → ℕ → Option (Result WaitError (Unit {0}))
unfolding wait_loop predicate_round
wait_for_predicate predicate t fuel = wait_loop (λ i. predicate_round (predicate i)) t fuel 0 ""
