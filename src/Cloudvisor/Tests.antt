-- ===== src/Cloudvisor/Tests.antt =====
-- The cloud resource manager at concrete inputs.
use habertest_backend.Base.{string_eq, ◌≡◌, refl, true, false, String, some, [], ◌∷◌, ◌++◌}
use habertest_backend.Base.Exec.{err}
use habertest_backend.Cloudvisor.Webapp.{allocation_info, allocation_info-last}
use habertest_backend.Cloudvisor.Cleaner.{
  CleanError, CloudVm, clean_tasks, clean_tasks-long_lasting, is_dangling, long_lasting,
}
use habertest_backend.Base.Dict.{lookup}

abbrev instance_of : String → String → CloudVm
instance_of name lasting = record {
  name = name;
  allocation_id = some "gone";
  tags = ("cloudvisor_id", "cv") ∷ ("requestor:long_lasting", lasting) ∷ [];
}

dangling : is_dangling [] (instance_of "i-2" "demo") ≡ true
unfolding is_dangling
dangling = refl

lasting : long_lasting (instance_of "i-2" "demo") ≡ true
unfolding long_lasting lookup
lasting = refl

clean_tasks-long_lasting_example :
    (e : CleanError) × (clean_tasks "cv"
        (λ id. false)
        []
        ((instance_of "i-1" "" ∷ []) ++ instance_of "i-2" "demo" ∷ [])
      ≡ err e)
clean_tasks-long_lasting_example =
    clean_tasks-long_lasting "cv" (λ id. false) [] (instance_of "i-1" "" ∷ []) []
      (instance_of "i-2" "demo") dangling lasting

allocation_info-last_example :
    lookup "info" (allocation_info {A = String} (("i-1" ∷ []) ++ "i-2" ∷ [])) ≡ some ("i-2" ∷ [])
allocation_info-last_example = allocation_info-last ("i-1" ∷ []) "i-2"
