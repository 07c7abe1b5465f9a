-- ===== src/Hardvisor.antt =====
-- The hardware resource manager (resource_managers/hardvisor): its stock in redis (redis_client.py) and
-- `HardwareManager` (manager.py).
pub mod Stock
pub mod Start
pub mod Webapp
use habertest_backend.Base.{
  string_eq, ◌==◌, Bool, true, false, String, Option, none, some, List, [], ◌∷◌, if◌then◌else◌, not,
}
use habertest_backend.Base.Dict.{Dict, lookup, insert, values}
use habertest_backend.Base.Exec.{ok, Exec, pure, raise_if, gets, ◌>>=◌, ◌>>◌}

-- A value under the redis key `resources`; `net_ifaces` lists its addresses.
pub record Machine : Type 0 where
  pub name : String
  pub ip : String
  pub arch : String
  pub status : Option String
  pub allocation_id : Option String
  pub requestor : Option (Dict String String)
  pub net_ifaces : List String
  pub password : Option String
  pub key_file_path : Option String

-- The requirements of one host; what no code here reads is left out.
pub record Requirements : Type 0 where
  pub host : String
  pub arch : String
  pub allocation_id : Option String
  pub requestor : Option (Dict String String)

pub data Fault : Type 0 where
  assertion_error type_error : Fault

abbrev pub Inventory : Type 0
Inventory = Dict String Machine

abbrev pub Handler : Type 0 → Type 0
Handler = Exec Fault Inventory

-- `update_resource`
unfoldable pub update_resource : String → Machine → Handler (Unit {0})
update_resource name machine s = (ok tt, insert name machine s)

-- `fulfills_reqs`
unfoldable pub fulfills_reqs : Machine → Requirements → Bool
fulfills_reqs machine reqs = reqs.arch == machine.arch

-- `matching_machines`
unfoldable pub matching_machines : Requirements → List Machine → List Machine
unfolding fulfills_reqs
matching_machines reqs [] = []
matching_machines reqs (machine ∷ machines) =
    let rest = matching_machines reqs machines in
    if fulfills_reqs machine reqs then machine ∷ rest else rest

-- `machine.get('status', 'available') == wanted`
unfoldable pub has_status : String → Machine → Bool
has_status wanted machine = elim machine.status [
  | none ↦ "available" == wanted
  | some s ↦ s == wanted
]

first_available : List Machine → Option Machine
unfolding has_status
first_available [] = none
first_available (machine ∷ machines) =
    let rest = first_available machines in
    if has_status "available" machine then some machine else rest

-- `match_reqs_to_available_machine`
unfoldable pub match_available : Requirements → Inventory → Option Machine
unfolding first_available matching_machines
match_available reqs s = first_available (matching_machines reqs (values s))

-- `check_allocate`, its value for the host
unfoldable pub check_allocate : Requirements → Inventory → Bool
unfolding matching_machines
check_allocate reqs s = elim (matching_machines reqs (values s)) [ [] ↦ false | _ ∷ _ ↦ true ]

-- The machine as `reserve_machine` stores it.
abbrev pub reserved : Machine → Requirements → Machine
reserved machine reqs = record machine {
  net_ifaces = machine.ip ∷ [];
  allocation_id = reqs.allocation_id;
  requestor = reqs.requestor;
  status = some "in_use";
}

-- `reserve_machine`
reserve_machine : Machine → Requirements → Handler (Option Machine)
unfolding update_resource
reserve_machine machine reqs = do
  update_resource machine.name (reserved machine reqs)
  pure (some (reserved machine reqs))

allocate_found : Requirements → Option Machine → Handler (Option Machine)
unfolding reserve_machine
allocate_found reqs none = pure none
allocate_found reqs (some machine) = reserve_machine machine reqs

-- `allocate`, which runs under the lock
unfoldable pub allocate : Requirements → Handler (Option Machine)
unfolding allocate_found match_available
allocate reqs = do machine ← gets (match_available reqs); allocate_found reqs machine

-- `assert (password is None) != (key_file_path is None)` of `RemoteExecutor`
unfoldable pub is_reachable : Machine → Bool
is_reachable machine = elim machine.password [
  | none ↦ elim machine.key_file_path [ none ↦ false | some _ ↦ true ]
  | some _ ↦ elim machine.key_file_path [ none ↦ true | some _ ↦ false ]
]

unfoldable pub release_found : String → Option Machine → Handler (Unit {0})
unfolding update_resource is_reachable
release_found machine_name none = pure tt
release_found machine_name (some machine) = do
  raise_if (not (is_reachable machine)) assertion_error
  update_resource machine_name (record machine { allocation_id = none; status = some "available" })

-- `release`
unfoldable pub release : String → Handler (Unit {0})
unfolding release_found
release machine_name = do machine ← gets (lookup machine_name); release_found machine_name machine
