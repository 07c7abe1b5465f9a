-- ===== src/Provisioner/Store.antt =====
-- What redis holds, and the methods of `RedisClient`
-- (hwallocator/provisioner/webapp/redisclient.py). `json.dumps` and `json.loads` are inverse to one
-- another on these records; entries of an allocation that no code here reads are left out.
pub mod Laws
use habertest_backend.Base.{
  Bool, true, false, ℕ, string_eq, ◌+◌, ◌*◌, ◌/◌, String, Option, none, some, List, [], ◌∷◌,
}
use habertest_backend.Base.Dict.{Dict, lookup, insert, erase}
use habertest_backend.Base.Exec.{Result, ok, err, Exec, raise, lift, ◌>>=◌, ◌>>◌}

-- The unit of time is the microsecond.
abbrev pub second : ℕ
second = 1000000

-- `int(time.time())`
abbrev pub whole_seconds : ℕ → ℕ
whole_seconds now = now / 1000000 * 1000000

pub data Status : Type 0 where
  received allocating success unfulfillable busy cancelled failed_exception unknown : Status
  deallocated deallocating error_deallocating allocated : Status

-- The text of a status in redis.
unfoldable pub status_text : Status → String
status_text Status.received = "received"
status_text Status.allocating = "allocating"
status_text Status.success = "success"
status_text Status.unfulfillable = "unfulfillable"
status_text Status.busy = "busy"
status_text Status.cancelled = "cancelled"
status_text Status.failed_exception = "exception"
status_text Status.unknown = "unknown"
status_text Status.deallocated = "deallocated"
status_text Status.deallocating = "deallocating"
status_text Status.error_deallocating = "error_deallocating"
status_text Status.allocated = "allocated"

-- `status in ['received', 'allocating', 'success']`
unfoldable pub is_tracked : Status → Bool
is_tracked received = true
is_tracked allocating = true
is_tracked success = true
is_tracked _ = false

unfoldable pub is_success : Status → Bool
is_success success = true
is_success _ = false

-- One entry of `hardware_details`.
pub record Hardware : Type 0 where
  pub ip : String
  pub user : Option String
  pub password : Option String
  pub pem_key_string : Option String
  pub key_file_path : Option String
  pub resource_manager_ep : String
  pub vm_id : String

-- One machine in a resource manager's reply; `ips` are those of its `net_ifaces`.
pub record MachineInfo : Type 0 where
  pub name : String
  pub ips : List String
  pub user : Option String
  pub password : Option String
  pub pem_key_string : Option String
  pub key_file_path : Option String

-- A resource manager's reply: the empty object, or one with or without `info`.
pub data Reply : Type 0 where
  nothing : Reply
  reply : Option (List MachineInfo) → Reply

-- A value under the redis key `allocations`. `demands` maps a host to the text of its requirements.
pub record Allocation : Type 0 where
  pub allocation_id : String
  pub demands : Dict String String
  pub status : Status
  pub expiration : ℕ
  pub rm_endpoint : Option String
  pub message : Option String
  pub resource_manager : Option String
  pub hardware_details : Option (List Hardware)
  pub result : Option Reply

-- A value under the redis key `resource_managers`, as its heartbeat sent it; `key` is set later.
pub record ResourceManager : Type 0 where
  pub alias : String
  pub rm_type : String
  pub endpoint : String
  pub last_hb : ℕ
  pub key : Option String

pub record Redis : Type 0 where
  pub allocations : Dict String Allocation
  pub resource_managers : Dict String ResourceManager

-- The Python exceptions that the handlers let out.
pub data Fault : Type 0 where
  key_error index_error attribute_error type_error : Fault
  connection_error : String → Fault
  other : String → Fault

abbrev pub Handler : Type 0 → Type 0
Handler = Exec Fault Redis

-- `redis.allocations(allocation_id)`, for an id that is not the empty text
unfoldable pub allocation_of : String → Handler (Option Allocation)
allocation_of id r = (ok (lookup id r.allocations), r)

-- `conn.hset('allocations', id, …)`
unfoldable pub put_allocation : String → Allocation → Handler (Unit {0})
put_allocation id a r = (ok tt, record r { allocations = insert id a r.allocations })

-- `redis.delete("allocations", id)`
unfoldable pub delete_allocation : String → Handler (Unit {0})
delete_allocation id r = (ok tt, record r { allocations = erase id r.allocations })

erase_all : List String → Dict String ResourceManager → Dict String ResourceManager
erase_all [] d = d
erase_all (k ∷ ks) d = erase_all ks (erase k d)

-- `redis.delete("resource_managers", keys)`
unfoldable pub delete_resource_managers : List String → Handler (Unit {0})
unfolding erase_all
delete_resource_managers ks r =
    (ok tt, record r { resource_managers = erase_all ks r.resource_managers })

-- The request of a client; `allocation_id` may be missing.
pub record Request : Type 0 where
  pub allocation_id : Option String
  pub demands : Dict String String

-- `save_request`: a missing id is a `KeyError`.
unfoldable pub save_request : ℕ → Request → Handler (Unit {0})
unfolding put_allocation
save_request now req = elim req.allocation_id [
  | none ↦ raise key_error
  | some id ↦ put_allocation id (record {
    allocation_id = id;
    demands = req.demands;
    status = received;
    expiration = whole_seconds now + 60 * second;
    rm_endpoint = none;
    message = none;
    resource_manager = none;
    hardware_details = none;
    result = none;
  })
]

-- `allocation.update(kwargs)` of an allocation that is there; of `None` it raises.
updated : (Allocation → Allocation) → Option Allocation → Handler (Unit {0})
unfolding put_allocation
updated f none = raise attribute_error
updated f (some a) = put_allocation (f a).allocation_id (f a)

-- `update_status(allocation_id, **kwargs)`
unfoldable pub update_status : String → (Allocation → Allocation) → Handler (Unit {0})
unfolding allocation_of updated
update_status id f = do a ← allocation_of id; updated f a

-- The loop of `save_fulfilled_request`; a machine with no network is an `IndexError`.
unfoldable pub hardware_of : String → List MachineInfo → Result Fault (List Hardware)
hardware_of endpoint [] = ok []
hardware_of endpoint (vm ∷ vms) =
    let rest = hardware_of endpoint vms in
    elim vm.ips [
      | [] ↦ err index_error
      | ip ∷ _ ↦ elim rest [
        | err e ↦ err e
        | ok hs ↦ ok (
            record {
              ip = ip;
              user = vm.user;
              password = vm.password;
              pem_key_string = vm.pem_key_string;
              key_file_path = vm.key_file_path;
              resource_manager_ep = endpoint;
              vm_id = vm.name;
            }
            ∷ hs)
      ]
    ]

-- `allocation_result['info']`
unfoldable pub info_of : Reply → Result Fault (List MachineInfo)
info_of nothing = err key_error
info_of (reply none) = err key_error
info_of (reply (some vms)) = ok vms

-- `save_fulfilled_request`, given the manager's endpoint
unfoldable pub save_fulfilled_request : ℕ → String → String → Reply → Handler (Unit {0})
unfolding update_status hardware_of info_of
save_fulfilled_request now id endpoint res = do
  vms ← lift (info_of res)
  hardware ← lift (hardware_of endpoint vms)
  update_status id (λ a. record a {
    resource_manager = some endpoint;
    hardware_details = some hardware;
    result = some res;
    status = success;
    expiration = whole_seconds now + 60 * second;
  })
