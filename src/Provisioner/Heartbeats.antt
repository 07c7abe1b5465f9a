-- ===== src/Provisioner/Heartbeats.antt =====
-- The heartbeats of clients (hwallocator/heartbeat_server/webapp/heartbeats.py) and of resource
-- managers (hwallocator/provisioner/webapp/resourcemanager.py).
use Prim.Native.String.{◌++◌}
use habertest_backend.Base.{
  not, if◌then◌else◌, ℕ, string_eq, ◌+◌, ◌*◌, String, Option, none, some, ◌≡◌, arith, refl, ◌≢◌,
  ◌⊎◌, inl, Bool, true, false, inr,
}
use habertest_backend.Provisioner.Store.{
  allocation_of, put_allocation, Allocation, Redis, Fault, Handler, second, ResourceManager,
  type_error, other, status_text, is_success, success,
}
use habertest_backend.Base.Exec.{ok, err, raise, ◌>>=◌, Result}
use habertest_backend.Base.Dict.{lookup, insert}
use habertest_backend.Provisioner.Store.Laws.{is_success_sound, is_success_complete}

-- The reply to a heartbeat: 200, or 400 with what went wrong.
pub data HbReply : Type 0 where
  extended : HbReply
  rejected : Fault → HbReply
  id_missing : HbReply

-- `update_expires`, at the value that redis holds
update_found : ℕ → String → Option Allocation → Handler (Unit {0})
unfolding put_allocation status_text
update_found now id none = raise type_error
update_found now id (some a) =
    if not (is_success a.status)
    then raise (other ("received hb for allocation which has status: " ++ status_text a.status))
    else put_allocation id (record a { expiration = now + 60 * second })

update_expires : ℕ → String → Handler (Unit {0})
unfolding allocation_of update_found
update_expires now id = do found ← allocation_of id; update_found now id found

abbrev pub answer_of : Result Fault (Unit {0}) × Redis → HbReply × Redis
answer_of (ok _, r) = (extended, r)
answer_of (err e, r) = (rejected e, r)

-- `heartbeat` of an allocation
pub heartbeat : ℕ → Option String → Redis → HbReply × Redis
unfolding update_expires
heartbeat now none r = (id_missing, r)
heartbeat now (some id) r = answer_of (update_expires now id r)

-- `heartbeat` of a resource manager: the body is stored under its alias.
pub manager_heartbeat : ResourceManager → Redis → Redis
manager_heartbeat body r = record r {
  resource_managers = insert body.alias body r.resource_managers;
}

-- What a heartbeat at `now` makes of redis.
abbrev pub Beats : ℕ → String → Redis → HbReply × Redis → Type 0
Beats now id r (reply, r') =
    ((a : Allocation) × (lookup id r.allocations ≡ some a)
      × (a.status ≡ success)
      × (reply ≡ extended)
      × (r' ≡ record r {
        allocations = insert id (record a { expiration = now + 60 * second }) r.allocations;
      }))
    ⊎ (((a : Allocation) → lookup id r.allocations ≡ some a → a.status ≢ success)
        × ((e : Fault) × (reply ≡ rejected e))
        × (r' ≡ r))

-- A heartbeat is accepted exactly when redis holds the allocation as a success: it then moves the
-- expiration to 60 seconds from now and changes nothing else. Any other heartbeat is rejected and
-- changes nothing.
pub heartbeat-Beats :
    (now : ℕ) (id : String) (r : Redis) → Beats now id r (heartbeat now (some id) r)
unfolding heartbeat update_expires update_found is_success put_allocation
heartbeat-Beats now id r = at_found (lookup id r.allocations) refl
  where
    at_status :
        (a : Allocation) (b : Bool)
        → is_success a.status ≡ b
        → lookup id r.allocations ≡ some a
        → Beats now id r (answer_of (update_found now id (some a) r))
    at_status a true s found =
        inl (a, found, is_success_sound a.status s, ground (arith, s), ground (arith, s))
    at_status a false s found = inr (
      λ c known same. ground (arith, s, known, found, is_success_complete c.status same),
      (
        other ("received hb for allocation which has status: " ++ status_text a.status),
        ground (arith, s),
      ),
      ground (arith, s),
    )

    at_found :
        (o : Option Allocation)
        → lookup id r.allocations ≡ o
        → Beats now id r (answer_of (update_found now id o r))
    at_found none e = inr (λ a found. ground (arith, e, found), (type_error, refl), refl)
    at_found (some a) e = at_status a (is_success a.status) refl e

pub heartbeat-extended :
    (now : ℕ) (id : String) (r : Redis) (a : Allocation)
    → lookup id r.allocations ≡ some a
    → a.status ≡ success
    → heartbeat now (some id) r ≡ (
      extended,
      record r {
        allocations = insert id (record a { expiration = now + 60 * second }) r.allocations;
      },
    )
unfolding heartbeat update_expires update_found
heartbeat-extended now id r a found s = ground (arith, found, is_success_complete a.status s)
