-- ===== src/Utils/Waiter/Changing.antt =====
-- The waits for a result that settles, and for enough results (resource_managers/utils/waiter.py).
use Prim.Native.String.{◌++◌}
use habertest_backend.Base.{
  ℕ, zero, suc, ◌+◌, Bool, String, Option, none, some, List, [], ◌++◌ as append, if◌then◌else◌, Eq,
  ◌==◌, leb, length,
}
use habertest_backend.Base.Exec.{Result, ok, err}

module _ {A : Type 0} ⦃e : Eq A⦄ where
  -- The loop of `await_changing_result`, with the tries that are left; try `i` gives `predicate i`.
  changing_loop : (ℕ → A) → ℕ → ℕ → A → Option A
  changing_loop predicate zero i prev_res = none
  changing_loop predicate (suc tries) i prev_res =
      let rest = changing_loop predicate tries (i + 1) (predicate i) in
      if predicate i == prev_res then some (predicate i) else rest

  -- `await_changing_result`, which returns `None` when the results keep changing
  unfoldable pub await_changing_result : (ℕ → A) → ℕ → Option A
  unfolding changing_loop
  await_changing_result predicate tries = changing_loop predicate tries 1 (predicate 0)

-- What a call gives: results, something that cannot be iterated over, or an exception.
pub data Fetch (A : Type 0) : Type 0 where
  results : List A → Fetch A
  not_iterable : Fetch A
  raises : String → Fetch A

pub data FetchError : Type 0 where
  timed_out : String → FetchError
  no_iterable : FetchError

module _ {A : Type 0} (predicate : ℕ → Fetch A) (expected : ℕ) (is_late : ℕ → Bool) where
  -- One round, given what the rounds behind it come to
  fetched :
      Fetch A
      → List A
      → String
      → (List A → String → Result FetchError (List A))
      → Result FetchError (List A)
  fetched (raises text) res caught rest = rest res (caught ++ (text ++ "\n"))
  fetched not_iterable res caught rest = err no_iterable
  fetched (results more) res caught rest =
      if leb expected (length (append res more))
      then ok (append res more)
      else rest (append res more) caught

  -- The loop with the tries that are left; `is_late i` says whether the time is over when try `i` begins.
  aggregate_loop : ℕ → ℕ → List A → String → Result FetchError (List A)
  unfolding fetched
  aggregate_loop zero i res caught = ok res
  aggregate_loop (suc tries) i res caught =
      if is_late i
      then err (timed_out caught)
      else fetched (predicate i) res caught (aggregate_loop tries (i + 1))

  -- `await_and_aggregate_changing_until_result_match`
  unfoldable pub await_and_aggregate : ℕ → Result FetchError (List A)
  unfolding aggregate_loop
  await_and_aggregate tries = aggregate_loop tries 0 [] ""
