-- ===== src/Hardvisor/Webapp/Tests.antt =====
-- Runs of the hardware resource manager at concrete inputs.
use habertest_backend.Base.{
  string_eq, eq_iff, ◌≡◌, ◌≢◌, refl, String, true, none, some, [], ◌∷◌, arith, All,
}
use habertest_backend.Base.Dict.{lookup, Dict}
use habertest_backend.Base.Exec.{ok}
use habertest_backend.Hardvisor.{Machine, Inventory, Requirements, reserved, is_reachable, allocate}
use habertest_backend.Hardvisor.Start.{
  Details, update_machines, configured, update_machines-configured,
}
use habertest_backend.Hardvisor.Stock.{IsStock, Allocates, allocate-Allocates}
use habertest_backend.Hardvisor.Webapp.{Demand, allocated, fulfill, clean_dangling}
use habertest_backend.Hardvisor.Webapp.Distinct.{
  fulfill_distinct, WasAvailable, AllDiffer, IsHandedOut,
}
use habertest_backend.Hardvisor.Webapp.Clean.{clean_dangling-cleaned, cleaned}

abbrev board : String → Machine
board name = record {
  name = name;
  ip = "10.0.0.1";
  arch = "aarch64";
  status = some "available";
  allocation_id = none;
  requestor = none;
  net_ifaces = [];
  password = some "pass";
  key_file_path = none;
}

abbrev busy_board : Machine
busy_board = record (board "b") { status = some "in_use"; allocation_id = some "gone" }

abbrev stock : Inventory
stock = ("a", board "a") ∷ ("b", busy_board) ∷ []

stock-IsStock : IsStock stock
unfolding lookup
stock-IsStock = record {
  named = λ name m stored. ground (arith, stored, eq_iff "a" name, eq_iff "b" name);
  distinct = (refl, (refl, tt));
}

stock_reachable : (name : String) (m : Machine) → lookup name stock ≡ some m → is_reachable m ≡ true
unfolding lookup is_reachable
stock_reachable name m stored = ground (arith, stored)

abbrev reqs : Requirements
reqs = record { host = "host"; arch = "aarch64"; allocation_id = some "id"; requestor = none }

allocate-Allocates_example : Allocates reqs stock (allocate reqs stock)
allocate-Allocates_example = allocate-Allocates reqs stock stock-IsStock

abbrev one_host : Demand
one_host = record {
  allocation_id = some "id";
  requestor = none;
  demands = ("host", some "aarch64") ∷ [];
}

delivered : (fulfill one_host stock).0 ≡ ok (allocated (reserved (board "a") reqs ∷ []))
unfolding fulfill allocate
delivered = refl

fulfill_distinct_example :
    All (WasAvailable stock) (reserved (board "a") reqs ∷ [])
    × AllDiffer (reserved (board "a") reqs ∷ [])
    × All (IsHandedOut (fulfill one_host stock).1) (reserved (board "a") reqs ∷ [])
    × ((name : String)
        → All (λ m. m.name ≢ name) (reserved (board "a") reqs ∷ [])
        → lookup name (fulfill one_host stock).1 ≡ lookup name stock)
fulfill_distinct_example =
    fulfill_distinct one_host stock (reserved (board "a") reqs ∷ []) stock-IsStock delivered

clean_dangling-cleaned_example :
    ((clean_dangling ("id" ∷ []) stock).0 ≡ ok tt)
    × ((name : String)
        → lookup name (clean_dangling ("id" ∷ []) stock).1 ≡ cleaned ("id" ∷ []) stock stock name)
clean_dangling-cleaned_example =
    clean_dangling-cleaned ("id" ∷ []) stock stock-IsStock stock_reachable

abbrev config : Dict String Details
config =
    (
      "a",
      record {
        name = none;
        ip = "10.0.0.1";
        arch = none;
        password = some "pass";
        key_file_path = none;
      },
    )
    ∷ (
      "c",
      record {
        name = none;
        ip = "10.0.0.3";
        arch = none;
        password = some "pass";
        key_file_path = none;
      },
    )
    ∷ []

update_machines-configured_example :
    lookup "c" (update_machines config stock) ≡ configured config stock "c"
update_machines-configured_example = update_machines-configured config stock "c"
