-- ===== src/Utils/Waiter/Tests.antt =====
-- Waits at a concrete clock.
use habertest_backend.Base.{
  zero, suc, false, ℕ, ◌+◌, Bool, none, some, ◌≡◌, refl, string_eq, String, [], ◌∷◌,
}
use habertest_backend.Base.Exec.{ok, err}
use habertest_backend.Utils.Waiter.{Call, raises, Timing, timed_out, wait_for_predicate_nothrow}
use habertest_backend.Utils.Waiter.Changing.{Fetch, await_changing_result, await_and_aggregate}

abbrev refused : ℕ → Call Bool
refused i = raises "refused"

abbrev two_seconds : Timing
two_seconds = record { before = 100; timeout = 2; clock = λ i. 101 + i }

test_three_tries :
    wait_for_predicate_nothrow (λ b. b) refused two_seconds 9
    ≡ some (err (timed_out "refused\nrefused\nrefused\n"))
unfolding wait_for_predicate_nothrow
test_three_tries = refl

abbrev boots : ℕ → String
boots zero = "down"
boots (suc zero) = "booting"
boots (suc (suc i)) = "up"

test_settles : await_changing_result boots 10 ≡ some "up"
unfolding await_changing_result
test_settles = refl

test_keeps_changing : await_changing_result boots 2 ≡ none
unfolding await_changing_result
test_keeps_changing = refl

abbrev found : ℕ → Fetch String
found zero = Fetch.results ("a" ∷ [])
found (suc zero) = Fetch.raises "lost"
found (suc (suc i)) = Fetch.results ("b" ∷ "c" ∷ [])

test_aggregates : await_and_aggregate found 3 (λ i. false) 10 ≡ ok ("a" ∷ "b" ∷ "c" ∷ [])
unfolding await_and_aggregate
test_aggregates = refl
