-- ===== src/Utils/Waiter/Rounds.antt =====
-- The loops end, and with what the first round that is not put off gives.
use Prim.Native.String.{◌++◌}
use mathlib.Core.Path.{subst, sym}
use habertest_backend.Base.{
  ℕ, suc, ◌+◌, ◌*◌, ◌≤◌, ◌<◌, ◌≡◌, refl, String, Option, some, arith, Bool-cases, inl, inr, nat_beq,
  nat_beq_iff, ltb, zero, Bool,
}
use habertest_backend.Base.Exec.{Result, ok, err}
use habertest_backend.Utils.Waiter.{
  Round, returned, not_yet, escaped, WaitError, timed_out, escaping, Timing, wait_loop,
  wait_for_predicate_nothrow, Call, nothrow_round,
}

module _ {A : Type 0} (round : ℕ → Round A) (t : Timing) where
  -- How a wait from round `i` on ends: in a round `j` before which every round was put off and within
  -- the time.
  pub data Ends (i : ℕ) (out : Option (Result WaitError A)) : Type 0 where
    with_result :
        (j : ℕ) (a : A)
        → i ≤ j
        → ((k : ℕ) → i ≤ k → k < j → t.clock k ≤ t.before + t.timeout)
        → round j ≡ returned a
        → out ≡ some (ok a)
        → Ends i out
    with_escape :
        (j : ℕ) (e : String)
        → i ≤ j
        → round j ≡ escaped e
        → out ≡ some (err (escaping e))
        → Ends i out
    with_timeout :
        (j : ℕ) (caught : String)
        → i ≤ j
        → t.before + t.timeout < t.clock j
        → out ≡ some (err (timed_out caught))
        → Ends i out

  Ends-later :
      (i : ℕ) {out : Option (Result WaitError A)}
      → t.clock i ≤ t.before + t.timeout
      → Ends (i + 1) out
      → Ends i out
  Ends-later i now (with_result j a low within r e) =
      with_result j a (omega arith)
        (λ k lk kj. elim (Bool-cases (nat_beq i k)) [
          | inl same ↦ ground (arith, (nat_beq_iff i k).0 same, now)
          | inr other ↦ within k (ground arith) kj
        ])
        r e
  Ends-later i now (with_escape j e low r o) = with_escape j e (omega arith) r o
  Ends-later i now (with_timeout j c low late o) = with_timeout j c (omega arith) late o

  -- One round, given what the rounds after it come to when the time is not over yet.
  Ends-round :
      (fuel i : ℕ) (caught : String) (r : Round A)
      → round i ≡ r
      → ((text : String)
          → t.clock i ≤ t.before + t.timeout
          → Ends (i + 1) (wait_loop round t fuel (i + 1) text))
      → Ends i (wait_loop round t (suc fuel) i caught)
  unfolding wait_loop
  Ends-round fuel i caught (returned a) e later =
      with_result i a (omega arith) (λ k low high. absurd (omega arith)) e (ground (arith, e))
  Ends-round fuel i caught (escaped x) e later = with_escape i x (omega arith) e (ground (arith, e))
  Ends-round fuel i caught (not_yet text) e later =
      elim (Bool-cases (ltb (t.before + t.timeout) (t.clock i))) [
        | inl late ↦
            with_timeout i (caught ++ text) (omega arith) (ground (arith, late))
              (ground (arith, e, late))
        | inr early ↦
            let out : wait_loop round t (suc fuel) i caught
                ≡ wait_loop round t fuel (i + 1) (caught ++ text) =
              ground (arith, e, early) in
            subst (Ends i) (sym out) (
              Ends-later i (ground (arith, early)) (later (caught ++ text) (ground (arith, early))))
      ]

  pub wait_loop-Ends :
      (interval fuel i : ℕ) (caught : String)
      → ((k : ℕ) → t.before + k * interval ≤ t.clock k)
      → t.timeout < (i + fuel) * interval
      → Ends i (wait_loop round t (suc fuel) i caught)
  wait_loop-Ends interval zero i caught sleeps enough =
      Ends-round zero i caught (round i) refl
        (λ text early. absurd (omega (arith, early, sleeps i, enough)))
  wait_loop-Ends interval (suc fuel) i caught sleeps enough =
      Ends-round (suc fuel) i caught (round i) refl
        (λ text early. wait_loop-Ends interval fuel (i + 1) text sleeps (omega (arith, enough)))

-- With enough rounds for the time limit, and a clock that each round puts forward by the interval at
-- least, `wait_for_predicate_nothrow` ends: with the result of the first call that is not put off,
-- if the time was not over before it, with an exception that is not caught, or with a timeout once
-- the time is over.
pub wait_for_predicate_nothrow-Ends :
    {A : Type 0} (truthy : A → Bool) (predicate : ℕ → Call A) (t : Timing) (interval fuel : ℕ)
    → ((k : ℕ) → t.before + k * interval ≤ t.clock k)
    → t.timeout < fuel * interval
    → Ends
        (λ i. nothrow_round truthy (predicate i))
        t
        0
        (wait_for_predicate_nothrow truthy predicate t (suc fuel))
unfolding wait_for_predicate_nothrow
wait_for_predicate_nothrow-Ends truthy predicate t interval fuel sleeps enough =
    wait_loop-Ends (λ i. nothrow_round truthy (predicate i)) t interval fuel 0 "" sleeps
      (omega (arith, enough))
