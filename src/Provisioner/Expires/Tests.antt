-- ===== src/Provisioner/Expires/Tests.antt =====
-- Passes over the database at concrete inputs.
use habertest_backend.Base.{ℕ, string_eq, ◌≡◌, refl, none, some, [], ◌∷◌, ◌+◌, ◌*◌, arith, eq_iff}
use habertest_backend.Base.Dict.{lookup, IsDict}
use habertest_backend.Base.Exec.{ok, err}
use habertest_backend.Provisioner.Store.{
  Allocation, Redis, success, deallocating, second, is_tracked, put_allocation, delete_allocation,
}
use habertest_backend.Provisioner.Store.Laws.{IsKeyed}
use habertest_backend.Provisioner.Requestor.{body_or_raise}
use habertest_backend.Provisioner.Heartbeats.{heartbeat, heartbeat-Beats, Beats}
use habertest_backend.Provisioner.Expires.{
  holds_machines, add_task, collect, expire_one, judge, finish, finish_one, deallocate_machines,
  Pass, expire_pass, pass_body, deallocate_task,
}
use habertest_backend.Provisioner.Expires.Live.{expire_pass_live, heartbeat_keeps}
use habertest_backend.Provisioner.Expires.Expired.{expire_pass_late, settled}

abbrev held : Allocation
held = record {
  allocation_id = "a1";
  demands = ("host", "{}") ∷ [];
  status = success;
  expiration = 60000000;
  rm_endpoint = some "lab:8080";
  message = none;
  resource_manager = some "lab:8080";
  hardware_details = some (
      record {
        ip = "10.0.0.1";
        user = none;
        password = none;
        pem_key_string = none;
        key_file_path = none;
        resource_manager_ep = "lab:8080";
        vm_id = "vm";
      }
      ∷ []);
  result = none;
}

abbrev redis : Redis
redis = record { allocations = ("a1", held) ∷ []; resource_managers = [] }

-- A pass in which the clock reads `now`.
abbrev pass_at : ℕ → Pass
pass_at now = record {
  seen_at = λ id. now;
  stored_at = λ id. now;
  judged_at = λ id. now;
  check_status = λ id endpoint. err "unreachable";
  deallocate = λ name endpoint. ok (record { status = 200; body = tt });
}

redis-IsKeyed : IsKeyed redis
unfolding lookup
redis-IsKeyed id a found = ground (arith, found, eq_iff "a1" id)

found_held : lookup "a1" redis.allocations ≡ some held
unfolding lookup
found_held = refl

one_key : IsDict redis.allocations
unfolding lookup
one_key = (refl, tt)

expire_pass_live_example :
    lookup "a1" (expire_pass (pass_at 59000000) redis).allocations ≡ some held
unfolding is_tracked
expire_pass_live_example =
    expire_pass_live (pass_at 59000000) "a1" held redis redis-IsKeyed one_key found_held refl
      (omega arith)

heartbeat_keeps_example :
    lookup "a1"
      (expire_pass (pass_at 61000000) (heartbeat 59000000 (some "a1") redis).1).allocations
    ≡ some (record held { expiration = 59000000 + 60 * second })
heartbeat_keeps_example =
    heartbeat_keeps (pass_at 61000000) 59000000 "a1" held redis redis-IsKeyed one_key found_held
      refl (omega arith)

heartbeat-Beats_example : Beats 59000000 "a1" redis (heartbeat 59000000 (some "a1") redis)
heartbeat-Beats_example = heartbeat-Beats 59000000 "a1" redis

pass_ends : (pass_body (pass_at 61000000) redis).0 ≡ ok tt
unfolding pass_body collect expire_one judge is_tracked finish finish_one deallocate_task
    deallocate_machines body_or_raise add_task holds_machines put_allocation delete_allocation
pass_ends = refl

expire_pass_late_example :
    lookup "a1" (expire_pass (pass_at 61000000) redis).allocations
    ≡ settled held (deallocate_task (pass_at 61000000) (record held { status = deallocating }))
expire_pass_late_example =
    expire_pass_late (pass_at 61000000) "a1" held redis redis-IsKeyed one_key found_held refl
      (omega arith) pass_ends
