-- ===== src/Provisioner/Fulfiller/Tests.antt =====
-- Runs of the fulfiller at concrete inputs.
use habertest_backend.Base.{
  List, true, string_eq, ◌≡◌, refl, String, none, some, [], ◌∷◌, ◌++◌, arith, eq_iff,
}
use habertest_backend.Base.Counts.{contains, remove}
use habertest_backend.Base.Dict.{lookup, erase}
use habertest_backend.Base.Exec.{Result, ok, err}
use habertest_backend.Provisioner.Store.{
  save_request, Allocation, Redis, Hardware, ResourceManager, MachineInfo, reply, Request, success,
  hardware_of,
}
use habertest_backend.Provisioner.Store.Laws.{IsKeyed, Local}
use habertest_backend.Provisioner.Jobs.{
  fulfill_messages, fulfill_messages_malformed, asks, no_data, malformed, decode_error,
}
use habertest_backend.Provisioner.Requestor.{Response, theoretically_fulfill}
use habertest_backend.Provisioner.Fulfiller.{
  find_potential_fulfillers, World, answered, fulfill, release, hand_out,
}
use habertest_backend.Provisioner.Fulfiller.Hosts.{Potential, possible, spread, all_hosts}
use habertest_backend.Provisioner.Fulfiller.Hosts.Cover.{contains-spread, spread_twice}
use habertest_backend.Provisioner.Fulfiller.Requests.{fulfill-Local}
use habertest_backend.Provisioner.Fulfiller.Answers.{hand_out_last, DeliveredBy}
use habertest_backend.Provisioner.Fulfiller.Success.{Succeeds, request_for, fulfill-Succeeds}
use habertest_backend.Provisioner.Fulfiller.Release.{
  first_failure, machines_of, release-first_failure,
}

abbrev manager : ResourceManager
manager = record {
  alias = "lab";
  rm_type = "server";
  endpoint = "lab:8080";
  last_hb = 0;
  key = some "lab";
}

abbrev cloud : ResourceManager
cloud = record {
  alias = "cloud";
  rm_type = "cloud";
  endpoint = "cloud:8080";
  last_hb = 0;
  key = some "cloud";
}

abbrev machine : String → MachineInfo
machine name = record {
  name = name;
  ips = "10.0.0.1" ∷ [];
  user = some "root";
  password = some "root";
  pem_key_string = none;
  key_file_path = none;
}

abbrev hardware : String → Hardware
hardware endpoint = record {
  ip = "10.0.0.1";
  user = some "root";
  password = some "root";
  pem_key_string = none;
  key_file_path = none;
  resource_manager_ep = endpoint;
  vm_id = endpoint;
}

-- Every manager delivers one machine, with its endpoint for a name.
abbrev world : World
world = record {
  new_id = "new";
  now = 5000000;
  check = λ rm a. some (record { status = 200; body = some ("host" ∷ []) });
  allocate = λ endpoint a.
      answered (ok (record { status = 200; body = reply (some (machine endpoint ∷ [])) }));
  stored_at = λ endpoint. 7000000;
}

abbrev held : Allocation
held = record {
  allocation_id = "a1";
  demands = ("host", "{}") ∷ [];
  status = success;
  expiration = 60000000;
  rm_endpoint = some "lab:8080";
  message = none;
  resource_manager = some "lab:8080";
  hardware_details = some (hardware "lab:8080" ∷ []);
  result = none;
}

abbrev redis : Redis
redis = record {
  allocations = ("a1", held) ∷ [];
  resource_managers = ("lab", manager) ∷ ("cloud", cloud) ∷ [];
}

redis-IsKeyed : IsKeyed redis
unfolding lookup
redis-IsKeyed id a found = ground (arith, found, eq_iff "a1" id)

abbrev asked : Request
asked = record { allocation_id = some "a2"; demands = ("host", "{}") ∷ [] }

fulfill-Local_example : Local "a2" redis (fulfill world asked redis).1
fulfill-Local_example = fulfill-Local world asked redis redis-IsKeyed

networked :
    (endpoint : String) → hardware_of endpoint (machine endpoint ∷ []) ≡ ok (hardware endpoint ∷ [])
unfolding hardware_of
networked endpoint = refl

hand_out_last_example :
    (r' : Redis) × (hand_out world "a1"
        (((manager, "host" ∷ []) ∷ []) ++ (cloud, "host" ∷ []) ∷ [])
        redis
      ≡ (ok tt, r'))
    × DeliveredBy world
        (λ e. machine e ∷ [])
        (λ e. hardware e ∷ [])
        (λ e a. refl)
        networked
        "a1"
        "cloud:8080"
        r'
unfolding lookup
hand_out_last_example =
    hand_out_last world (λ e. machine e ∷ []) (λ e. hardware e ∷ []) (λ e a. refl) networked "a1"
      ((manager, "host" ∷ []) ∷ []) cloud ("host" ∷ []) redis held refl refl

abbrev both : List Potential
both =
    (record manager { key = some "lab" }, "host" ∷ [])
    ∷ (record cloud { key = some "cloud" }, "host" ∷ [])
    ∷ []

potentials :
    (find_potential_fulfillers world "a2"
      (save_request world.now (request_for "a2" asked.demands) redis).1).0
    ≡ ok both
unfolding find_potential_fulfillers save_request theoretically_fulfill
potentials = refl

enough : possible both asked.demands ≡ true
unfolding possible
enough = refl

shared :
    spread both
    ≡ ((record manager { key = some "lab" }, []) ∷ [])
      ++ (record cloud { key = some "cloud" }, "host" ∷ []) ∷ []
unfolding spread remove
shared = refl

unknown : lookup "a2" redis.allocations ≡ none
unfolding lookup
unknown = refl

fulfill-Succeeds_example :
    Succeeds world
      (λ e. machine e ∷ [])
      (λ e. hardware e ∷ [])
      (λ e a. refl)
      networked
      "a2"
      "cloud:8080"
      (fulfill world asked redis)
fulfill-Succeeds_example =
    fulfill-Succeeds world (λ e. machine e ∷ []) (λ e. hardware e ∷ []) (λ e a. refl) networked "a2"
      asked.demands redis both ((record manager { key = some "lab" }, []) ∷ [])
      (record cloud { key = some "cloud" }) ("host" ∷ []) unknown potentials enough shared

contains-spread_example :
    contains "a" (all_hosts (spread ((manager, "a" ∷ []) ∷ (cloud, "a" ∷ []) ∷ [])))
    ≡ contains "a" (all_hosts ((manager, "a" ∷ []) ∷ (cloud, "a" ∷ []) ∷ []))
contains-spread_example = contains-spread "a" ((manager, "a" ∷ []) ∷ (cloud, "a" ∷ []) ∷ [])

spread_twice_example :
    spread ((manager, "a" ∷ "b" ∷ []) ∷ (cloud, "a" ∷ "b" ∷ []) ∷ (manager, "a" ∷ "b" ∷ []) ∷ [])
    ≡ (manager, "b" ∷ []) ∷ (cloud, "b" ∷ []) ∷ (manager, "a" ∷ []) ∷ []
spread_twice_example =
    spread_twice manager cloud manager "a" "b" (λ e. ground (arith, (eq_iff "a" "b").1 e))

-- The manager at the endpoint answers with an error.
abbrev refuses : String → String → Result String (Response (Unit {0}))
refuses name endpoint = ok (record { status = 500; body = tt })

release-first_failure_example :
    release refuses "a1" redis
    ≡ elim (first_failure refuses (machines_of (lookup "a1" redis.allocations))) [
      | none ↦ (ok tt, record redis { allocations = erase "a1" redis.allocations })
      | some e ↦ (err e, redis)
    ]
release-first_failure_example = release-first_failure refuses "a1" redis redis-IsKeyed

fulfill_messages_malformed_example :
    fulfill_messages ((asks world asked ∷ no_data ∷ []) ++ malformed ∷ asks world asked ∷ []) redis
    ≡ (
      (fulfill_messages (asks world asked ∷ no_data ∷ []) redis).0,
      err decode_error,
      (fulfill_messages (asks world asked ∷ no_data ∷ []) redis).2,
    )
fulfill_messages_malformed_example =
    fulfill_messages_malformed (asks world asked ∷ no_data ∷ []) (asks world asked ∷ []) redis
      (refl, (refl, tt))
