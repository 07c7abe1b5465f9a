-- ===== src/Cloudvisor/Cleaner.antt =====
-- `clean_dangling_vms` (resource_managers/cloudvisor/cleaner.py): which instances it destroys.
use habertest_backend.Base.Exec.{Result-cases, Result, ok, err}
use habertest_backend.Base.{
  inl, inr, string_eq, ◌==◌, ◌≡◌, ◌≢◌, Bool, true, false, not, String, Option, none, some, List, [],
  ◌∷◌, ◌++◌, if◌then◌else◌, arith,
}
use habertest_backend.Base.Counts.{contains}
use habertest_backend.Base.Dict.{Dict, lookup}

-- What the cleaner reads of an instance.
pub record CloudVm : Type 0 where
  pub name : String
  pub allocation_id : Option String
  pub tags : Dict String String

-- A missing `cloudvisor_id`, or the call of the text `vm.long_lasting`.
pub data CleanError : Type 0 where
  key_error type_error : CleanError

-- The tag `requestor:long_lasting`, when it is not empty.
unfoldable pub long_lasting : CloudVm → Bool
long_lasting vm = elim (lookup "requestor:long_lasting" vm.tags) [
  | none ↦ false
  | some t ↦ not (t == "")
]

-- `vm.allocation_id not in active_allocations`
unfoldable pub is_dangling : List String → CloudVm → Bool
is_dangling active vm = elim vm.allocation_id [ none ↦ true | some id ↦ not (contains id active) ]

-- The cleaner's own id, and what `re.fullmatch` says of an id and the pattern of
-- `EC2Wrapper.main_cloudvisor`.
module _ (own : String) (main_cloudvisor : String → Bool) where
  -- Was the instance made by this cloudvisor, or are both or neither of the two main ones?
  pub is_ours : String → Bool
  is_ours creator =
      if creator == own
      then true
      else if main_cloudvisor own
      then main_cloudvisor creator
      else not (main_cloudvisor creator)

  -- One instance that is dangling, before the instances behind it.
  dangling_tasks : CloudVm → Result CleanError (List String) → Result CleanError (List String)
  unfolding long_lasting is_ours
  dangling_tasks vm rest =
      if long_lasting vm then err type_error else elim (lookup "cloudvisor_id" vm.tags) [
        | none ↦ err key_error
        | some creator ↦
            if is_ours creator
            then elim rest [ ok names ↦ ok (vm.name ∷ names) | err e ↦ err e ]
            else rest
      ]

  -- The loop: the names of the instances to destroy, or the exception that ends it.
  pub clean_tasks : List String → List CloudVm → Result CleanError (List String)
  unfolding dangling_tasks is_dangling
  clean_tasks active [] = ok []
  clean_tasks active (vm ∷ vms) =
      let rest = clean_tasks active vms in
      if is_dangling active vm then dangling_tasks vm rest else rest

  never_done :
      (active names : List String) (before after : List CloudVm) (vm : CloudVm)
      → is_dangling active vm ≡ true
      → long_lasting vm ≡ true
      → clean_tasks active (before ++ vm ∷ after) ≢ ok names
  unfolding clean_tasks dangling_tasks
  never_done active names [] after vm dangling lasting done =
      ground (arith, dangling, lasting, done)
  never_done active names (b ∷ before) after vm dangling lasting done =
      elim (Result-cases (clean_tasks active (before ++ vm ∷ after))) [
        | inl (others, e) ↦ never_done active others before after vm dangling lasting e
        | inr (x, e) ↦ ground (arith, e, done)
      ]

  -- One dangling instance that is tagged as long lasting, and the cleaner ends with an exception before
  -- it destroys any instance, whatever else is there.
  pub clean_tasks-long_lasting :
      (active : List String) (before after : List CloudVm) (vm : CloudVm)
      → is_dangling active vm ≡ true
      → long_lasting vm ≡ true
      → (e : CleanError) × (clean_tasks active (before ++ vm ∷ after) ≡ err e)
  clean_tasks-long_lasting active before after vm dangling lasting =
      elim (Result-cases (clean_tasks active (before ++ vm ∷ after))) [
        | inl (names, e) ↦ absurd (never_done active names before after vm dangling lasting e)
        | inr failed ↦ failed
      ]
