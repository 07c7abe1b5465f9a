-- ===== src/Hardvisor/Webapp.antt =====
-- `class HardVisor` (resource_managers/hardvisor/__init__.py) and the periodic cleaner
-- (resource_managers/hardvisor/periodically.py). Allocations run under the manager's lock, one after
-- the other in the order of the demands.
pub mod Distinct
pub mod Clean
pub mod Tests
use habertest_backend.Base.{
  string_eq, ◌==◌, Bool, true, false, String, Option, none, some, List, [], ◌∷◌, if◌then◌else◌, not,
  ◌&&◌,
}
use habertest_backend.Base.Dict.{Dict, values}
use habertest_backend.Base.Counts.{contains}
use habertest_backend.Base.Exec.{pure, gets, ◌>>=◌, ◌>>◌}
use habertest_backend.Hardvisor.{
  Machine, Requirements, Inventory, Handler, check_allocate, allocate, release,
}

-- The body of a request; a demand names its architecture or none.
pub record Demand : Type 0 where
  pub allocation_id : Option String
  pub requestor : Option (Dict String String)
  pub demands : Dict String (Option String)

-- `parse_requirements`
pub requirements_of : Demand → Dict String (Option String) → List Requirements
requirements_of d [] = []
requirements_of d ((host, arch) ∷ demands) =
    record {
      host = host;
      arch = elim arch [ none ↦ "x86_64" | some a ↦ a ];
      allocation_id = d.allocation_id;
      requestor = d.requestor;
    }
    ∷ requirements_of d demands

pub parse_requirements : Demand → List Requirements
unfolding requirements_of
parse_requirements d = requirements_of d d.demands

-- A reply: its status and, of its body, the hosts that can be met or the machines.
pub data Reply : Type 0 where
  possible : List String → Reply
  unable : Reply
  allocated : List Machine → Reply
  busy : Reply

-- `check_fulfill`
possible_hosts : List Requirements → Inventory → List String
possible_hosts [] s = []
possible_hosts (reqs ∷ demands) s =
    let rest = possible_hosts demands s in if check_allocate reqs s then reqs.host ∷ rest else rest

pub check_fulfill : Demand → Inventory → Reply
unfolding possible_hosts parse_requirements
check_fulfill d s =
    let hosts = possible_hosts (parse_requirements d) s in
    elim hosts [ [] ↦ unable | h ∷ hs ↦ possible (h ∷ hs) ]

-- the gathered `allocate`
pub allocate_all : List Requirements → Handler (List (Option Machine))
allocate_all [] = pure []
allocate_all (reqs ∷ demands) =
    let rest = allocate_all demands in
    (do machine ← allocate reqs; machines ← rest; pure (machine ∷ machines))

-- `machine for machine in allocated_machines if machine is not None`
pub found : List (Option Machine) → List Machine
found [] = []
found (none ∷ ms) = found ms
found (some m ∷ ms) = m ∷ found ms

-- `all(allocated_machines)`
pub all_found : List (Option Machine) → Bool
all_found [] = true
all_found (none ∷ ms) = false
all_found (some m ∷ ms) = all_found ms

-- the gathered `release`
pub release_all : List Machine → Handler (Unit {0})
release_all [] = pure tt
release_all (m ∷ ms) = let rest = release_all ms in (do release m.name; rest)

settle : List (Option Machine) → Handler Reply
unfolding all_found found release_all
settle machines =
    if not (all_found machines)
    then (do release_all (found machines); pure busy)
    else pure (allocated (found machines))

-- `fulfill`
pub fulfill : Demand → Handler Reply
unfolding allocate_all settle parse_requirements
fulfill d = do machines ← allocate_all (parse_requirements d); settle machines

-- `handle_get_allocation`
is_of : String → Machine → Bool
is_of id m = elim m.allocation_id [ none ↦ false | some own ↦ own == id ]

pub machines_of : String → List Machine → List Machine
unfolding is_of
machines_of id [] = []
machines_of id (m ∷ ms) = let rest = machines_of id ms in if is_of id m then m ∷ rest else rest

-- `machine.get('allocation_id', None) not in active_allocation_ids`
is_active : List String → Machine → Bool
is_active active m = elim m.allocation_id [ none ↦ false | some id ↦ contains id active ]

-- `machine.get('status', None) == "in_use"`
is_in_use : Machine → Bool
is_in_use m = elim m.status [ none ↦ false | some s ↦ s == "in_use" ]

-- `do_clean_dangling_hardware`, at the active allocations
pub is_dangling : List String → Machine → Bool
unfolding is_active is_in_use
is_dangling active m = is_in_use m && not (is_active active m)

pub clean_all : List String → List Machine → Handler (Unit {0})
unfolding is_dangling
clean_all active [] = pure tt
clean_all active (m ∷ ms) =
    let rest = clean_all active ms in
    if is_dangling active m then (do release m.name; rest) else rest

pub clean_dangling : List String → Handler (Unit {0})
unfolding clean_all
clean_dangling active = do machines ← gets values; clean_all active machines
