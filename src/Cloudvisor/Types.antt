-- ===== src/Cloudvisor/Types.antt =====
-- `allocate_instance` (resource_managers/cloudvisor/ec2_manager.py): the instance types that are tried.
-- The order of a set of types is a parameter.
use habertest_backend.Base.{string_eq, String, Option, none, some, List, [], ◌∷◌, if◌then◌else◌}
use habertest_backend.Base.Counts.{contains}
use habertest_backend.Base.Dict.{Dict, lookup}
use habertest_backend.Base.Exec.{Result, ok, err}

-- The `KeyError` for a combination that is not defined
pub data CloudError : Type 0 where
  not_defined : CloudError

-- `set(a).intersection(b)`, in the order of `a`
intersection : List String → List String → List String
intersection [] b = []
intersection (x ∷ a) b = let rest = intersection a b in if contains x b then x ∷ rest else rest

-- The types to try: the one that the request names, or those of the architecture and the GPU count.
pub instance_types :
    Dict String (List String)
    → Dict String (List String)
    → Option String
    → String
    → String
    → Result CloudError (List String)
unfolding intersection
instance_types by_arch by_gpus (some type) arch num_gpus = ok (type ∷ [])
instance_types by_arch by_gpus none arch num_gpus = elim (lookup arch by_arch) [
  | none ↦ err not_defined
  | some of_arch ↦ elim (lookup num_gpus by_gpus) [
    | none ↦ err not_defined
    | some of_gpus ↦ ok (intersection of_arch of_gpus)
  ]
]
