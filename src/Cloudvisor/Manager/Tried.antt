-- ===== src/Cloudvisor/Manager/Tried.antt =====
-- Which instance type an allocation ends with.
use habertest_backend.Base.{
  string_eq, ◌≡◌, refl, Bool, true, false, String, List, [], ◌∷◌, ◌++◌, arith, inl, inr, ap, ◌∙◌,
}
use habertest_backend.Base.Exec.{Result, ok, err, Result-cases}
use habertest_backend.Cloudvisor.Ec2.{
  Aws, Wrapper, CloudRequest, AwsCall, Ec2Error, client_error, wrong_images, no_subnet,
  attribute_error,
}
use habertest_backend.Cloudvisor.Manager.{ManagerError, wrapper_error, with_type, try_allocate}

-- An answer that is no `ClientError` ends the loop.
abbrev pub ends_loop : Result Ec2Error String → Bool
ends_loop (ok id) = true
ends_loop (err (client_error e)) = false
ends_loop (err (wrong_images n)) = true
ends_loop (err no_subnet) = true
ends_loop (err attribute_error) = true

abbrev pub outcome : String → Result Ec2Error String → Result ManagerError (String × String)
outcome type (ok id) = ok (type, id)
outcome type (err e) = err (wrapper_error e)

module _ (aws : Aws) (w : Wrapper) (vm : CloudRequest) (subnet : String) where
  -- Each of the types was refused with a `ClientError`; the calls went on from the first list to the second.
  abbrev pub Refused : List String → List AwsCall → List AwsCall → Type 0
  Refused [] calls later = calls ≡ later
  Refused (type ∷ types) calls later =
      ((e : String) × ((with_type aws w vm subnet type calls).0 ≡ err (client_error e)))
      × Refused types (with_type aws w vm subnet type calls).1 later

  last_one :
      (type : String) (calls : List AwsCall)
      → try_allocate aws w vm subnet (type ∷ []) calls ≡ (
        outcome type (with_type aws w vm subnet type calls).0,
        (with_type aws w vm subnet type calls).1,
      )
  unfolding try_allocate
  last_one type calls = elim (Result-cases (with_type aws w vm subnet type calls).0) [
    | inl (id, h) ↦ ground (arith, h)
    | inr (e, h) ↦ ground (arith, h)
  ]

  ended :
      (r : Result Ec2Error String) (type next : String) (types : List String) (calls : List AwsCall)
      → (with_type aws w vm subnet type calls).0 ≡ r
      → ends_loop r ≡ true
      → try_allocate aws w vm subnet (type ∷ next ∷ types) calls
        ≡ (outcome type r, (with_type aws w vm subnet type calls).1)
  unfolding try_allocate
  ended (ok id) type next types calls h e = ground (arith, h)
  ended (err (client_error x)) type next types calls h e = ground (arith, e)
  ended (err (wrong_images n)) type next types calls h e = ground (arith, h)
  ended (err no_subnet) type next types calls h e = ground (arith, h)
  ended (err attribute_error) type next types calls h e = ground (arith, h)

  passed_over :
      (type next : String) (types : List String) (calls : List AwsCall) (x : String)
      → (with_type aws w vm subnet type calls).0 ≡ err (client_error x)
      → try_allocate aws w vm subnet (type ∷ next ∷ types) calls
        ≡ try_allocate aws w vm subnet (next ∷ types) (with_type aws w vm subnet type calls).1
  unfolding try_allocate
  passed_over type next types calls x h = ground (arith, h)

  -- When AWS refuses the types that come before with a `ClientError`, one after another, and what it then
  -- makes of the next type is no `ClientError`, the loop ends with that type: with its instance, or with the
  -- exception, which is raised at once although there are more types to try.
  pub try_allocate-first :
      (before after : List String) (type : String) (calls later : List AwsCall)
      → Refused before calls later
      → ends_loop (with_type aws w vm subnet type later).0 ≡ true
      → try_allocate aws w vm subnet (before ++ type ∷ after) calls ≡ (
        outcome type (with_type aws w vm subnet type later).0,
        (with_type aws w vm subnet type later).1,
      )
  try_allocate-first [] [] type calls later same ends = rw same (last_one type later)
  try_allocate-first [] (next ∷ after) type calls later same ends =
      rw same (ended (with_type aws w vm subnet type later).0 type next after later refl ends)
  try_allocate-first (t ∷ []) after type calls later ((x, h), refused) ends =
      passed_over t type after calls x h
      ∙ try_allocate-first [] after type (with_type aws w vm subnet t calls).1 later refused ends
  try_allocate-first (t ∷ u ∷ before) after type calls later ((x, h), refused) ends =
      passed_over t u (before ++ type ∷ after) calls x h
      ∙ try_allocate-first (u ∷ before) after type (with_type aws w vm subnet t calls).1 later
          refused ends

  -- When AWS refuses every type, the refusal of the last one is raised.
  try_allocate_last :
      (before : List String) (type x : String) (calls later : List AwsCall)
      → Refused before calls later
      → (with_type aws w vm subnet type later).0 ≡ err (client_error x)
      → (try_allocate aws w vm subnet (before ++ type ∷ []) calls).0
        ≡ err (wrapper_error (client_error x))
  try_allocate_last [] type x calls later same h = rw (same, last_one type later, h) refl
  try_allocate_last (t ∷ []) type x calls later ((y, k), refused) h =
      ap (λ (o : Result ManagerError (String × String) × List AwsCall). o.0)
        (passed_over t type [] calls y k)
      ∙ try_allocate_last [] type x (with_type aws w vm subnet t calls).1 later refused h
  try_allocate_last (t ∷ u ∷ before) type x calls later ((y, k), refused) h =
      ap (λ (o : Result ManagerError (String × String) × List AwsCall). o.0)
        (passed_over t u (before ++ type ∷ []) calls y k)
      ∙ try_allocate_last (u ∷ before) type x (with_type aws w vm subnet t calls).1 later refused h
