-- ===== src/Cloudvisor/Webapp.antt =====
-- `class CloudVisor` (resource_managers/cloudvisor/webapp/rest.py): the translation of a request, what
-- can be met of it, and the machines of an allocation. What AWS can provide is a parameter.
use habertest_backend.Base.{
  string_eq, ◌≡◌, Bool, String, Option, none, some, List, [], ◌∷◌, ◌++◌, if◌then◌else◌,
}
use habertest_backend.Base.Dict.{Dict, lookup, insert, lookup-insert_self}

-- The requirements of one host.
pub record CloudReqs : Type 0 where
  pub base_image : Option String
  pub instance_type : Option String
  pub gpus : Option String
  pub arch : Option String

-- The body of a request; a requestor without an address is a `KeyError`.
pub record CloudRequest : Type 0 where
  pub allocation_id : Option String
  pub requestor : Dict String String
  pub demands : Dict String CloudReqs

-- The arguments of `VM`.
pub record CloudSpec : Type 0 where
  pub client_external_ip : String
  pub num_gpus : String
  pub base_image : String
  pub instance_type : Option String
  pub allocation_id : String
  pub requestor : Dict String String
  pub arch : String

-- `d.pop(key, default)`
pub or_else : Option String → String → String
or_else none x = x
or_else (some y) x = y

spec_of : String → String → CloudRequest → CloudReqs → CloudSpec
unfolding or_else
spec_of ip id request reqs = record {
  client_external_ip = ip;
  num_gpus = or_else reqs.gpus "1";
  base_image = or_else reqs.base_image "automation_infra_1.0";
  instance_type = reqs.instance_type;
  allocation_id = id;
  requestor = request.requestor;
  arch = or_else reqs.arch "x86_64";
}

unfoldable pub specs_of :
    String → String → CloudRequest → Dict String CloudReqs → Dict String CloudSpec
unfolding spec_of
specs_of ip id request [] = []
specs_of ip id request ((host, reqs) ∷ demands) =
    (host, spec_of ip id request reqs) ∷ specs_of ip id request demands

-- `translate_to_vms`, with the id for a request that has none
unfoldable pub translate_to_vms : String → CloudRequest → Option (Dict String CloudSpec)
unfolding specs_of or_else
translate_to_vms new_id request = elim (lookup "external_ip" request.requestor) [
  | none ↦ none
  | some ip ↦ some (specs_of ip (or_else request.allocation_id new_id) request request.demands)
]

-- The reply of `check_fulfill`: the hosts that can be met, or none can, or the `KeyError`.
pub data CheckReply : Type 0 where
  machines : List String → CheckReply
  unable no_external_ip : CheckReply

possible_hosts : (CloudSpec → Bool) → Dict String CloudSpec → List String
possible_hosts possible [] = []
possible_hosts possible ((host, spec) ∷ specs) =
    let rest = possible_hosts possible specs in if possible spec then host ∷ rest else rest

reply_with : List String → CheckReply
reply_with [] = unable
reply_with (h ∷ hs) = machines (h ∷ hs)

-- `check_fulfill`
pub check_fulfill : (CloudSpec → Bool) → String → CloudRequest → CheckReply
unfolding possible_hosts reply_with translate_to_vms
check_fulfill possible new_id request = elim (translate_to_vms new_id request) [
  | none ↦ no_external_ip
  | some specs ↦ reply_with (possible_hosts possible specs)
]

module _ {A : Type 0} where
  -- `{'info': [instance.json] for instance in instances}`: every instance writes the same key again.
  info_from : List A → Dict String (List A) → Dict String (List A)
  info_from [] d = d
  info_from (json ∷ jsons) d = info_from jsons (insert "info" (json ∷ []) d)

  -- `handle_get_allocation`, the body of its reply
  pub allocation_info : List A → Dict String (List A)
  unfolding info_from
  allocation_info jsons = info_from jsons []

  last_info :
      (before : List A) (json : A) (d : Dict String (List A))
      → lookup "info" (info_from (before ++ json ∷ []) d) ≡ some (json ∷ [])
  unfolding info_from
  last_info [] json d = lookup-insert_self "info" (json ∷ []) d
  last_info (b ∷ before) json d = last_info before json (insert "info" (b ∷ []) d)

  -- Of the instances of an allocation, however many, the reply names the last one alone.
  pub allocation_info-last :
      (before : List A) (json : A)
      → lookup "info" (allocation_info (before ++ json ∷ [])) ≡ some (json ∷ [])
  unfolding allocation_info
  allocation_info-last before json = last_info before json []
