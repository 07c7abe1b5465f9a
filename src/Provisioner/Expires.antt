-- ===== src/Provisioner/Expires.antt =====
-- `expire_allocations` (hwallocator/provisioner/webapp/expires.py): one pass of its loop. The tasks
-- that deallocate machines run beside the pass and write nothing in redis, so they are known by
-- their results.
pub mod Live
pub mod Expired
pub mod Tests
use habertest_backend.Base.{
  ℕ, string_eq, ltb, leb, not, ◌+◌, ◌*◌, if◌then◌else◌, String, Option, none, some, List, [], ◌∷◌,
  ◌==◌, Bool, true, false,
}
use habertest_backend.Provisioner.Store.{
  Allocation, Redis, Fault, Handler, second, Status, error_deallocating, deallocating, unknown,
  is_tracked, Reply, reply, nothing, Hardware, put_allocation, delete_allocation, update_status,
  save_fulfilled_request, key_error,
}
use habertest_backend.Provisioner.Requestor.{Response, body_or_raise}
use habertest_backend.Base.Exec.{Result, ok, err, pure, gets, ◌>>=◌, ◌>>◌}
use habertest_backend.Base.Dict.{Dict}

-- The world of a pass: the clock at the three readings of it that concern an allocation, and the
-- managers' replies.
pub record Pass : Type 0 where
  pub seen_at : String → ℕ
  pub stored_at : String → ℕ
  pub judged_at : String → ℕ
  pub check_status : String → String → Result String (Response Reply)
  pub deallocate : String → String → Result String (Response (Unit {0}))

-- `deallocate`, with `try_deallocate`
deallocate_machines : Pass → List Hardware → Result Fault (Unit {0})
unfolding body_or_raise
deallocate_machines w [] = ok tt
deallocate_machines w (h ∷ hs) =
    let rest = deallocate_machines w hs in
    elim (body_or_raise (w.deallocate h.vm_id h.resource_manager_ep)) [
      | ok _ ↦ rest
      | err e ↦ err e
    ]

pub deallocate_task : Pass → Allocation → Result Fault (Unit {0})
unfolding deallocate_machines
deallocate_task w a = elim a.hardware_details [
  | none ↦ err key_error
  | some hs ↦ deallocate_machines w hs
]

abbrev pub Task : Type 0
Task = Result Fault (Unit {0})

-- `status in ['success', 'allocated']`
holds_machines : Status → Bool
holds_machines Status.success = true
holds_machines Status.allocated = true
holds_machines _ = false

-- The second half of the loop's body: the expiration. An allocation that holds machines starts a task.
judge : Pass → String → Allocation → Handler (Option Task)
unfolding holds_machines put_allocation delete_allocation deallocate_task
judge w id a =
    if leb a.expiration (w.judged_at id)
    then (if holds_machines a.status
        then (do
          put_allocation a.allocation_id (record a { status = deallocating })
          pure (some (deallocate_task w (record a { status = deallocating }))))
        else (do delete_allocation id; pure none))
    else pure none

-- What follows the call of `check_status`: the manager's reply, if it is not empty, is stored.
settle_check : Pass → String → String → Allocation → Result Fault Reply → Handler (Option Task)
unfolding judge update_status save_fulfilled_request
settle_check w id endpoint a (err _) = do
  update_status id
      (λ b. record b { status = unknown; message = some "Currently unable to check status" })
  pure none
settle_check w id endpoint a (ok nothing) = judge w id a
settle_check w id endpoint a (ok (reply info)) = do
  save_fulfilled_request (w.stored_at id) id endpoint (reply info)
  pure none

-- The first half, for a status that is not tracked: `allocation.get("rm_endpoint", None)` may be the
-- empty text.
check : Pass → String → Allocation → Option String → Handler (Option Task)
unfolding settle_check delete_allocation body_or_raise
check w id a none = do delete_allocation id; pure none
check w id a (some endpoint) =
    if endpoint == ""
    then (do delete_allocation id; pure none)
    else if ltb (a.expiration + 15 * 60 * second) (w.seen_at id)
    then (do delete_allocation id; pure none)
    else settle_check w id endpoint a (body_or_raise (w.check_status a.allocation_id endpoint))

-- The body of the loop over the allocations.
pub expire_one : Pass → String → Allocation → Handler (Option Task)
unfolding judge check
expire_one w id a = if not (is_tracked a.status) then check w id a a.rm_endpoint else judge w id a

-- `deallocate_tasks[allocation_id] = …`
add_task : String → Option Task → Dict String Task → Dict String Task
add_task id none tasks = tasks
add_task id (some t) tasks = (id, t) ∷ tasks

pub collect : Pass → Dict String Allocation → Handler (Dict String Task)
unfolding expire_one add_task
collect w [] = pure []
collect w ((id, a) ∷ allocations) =
    let rest = collect w allocations in
    (do task ← expire_one w id a; tasks ← rest; pure (add_task id task tasks))

-- the loop over the tasks
pub finish_one : String → Task → Handler (Unit {0})
unfolding delete_allocation update_status
finish_one id (ok _) = delete_allocation id
finish_one id (err _) = update_status id (λ a. record a { status = error_deallocating })

pub finish : Dict String Task → Handler (Unit {0})
unfolding finish_one
finish [] = pure tt
finish ((id, t) ∷ tasks) = let rest = finish tasks in (do finish_one id t; rest)

-- The body of `while True`, whose `except` swallows what it raises.
pub pass_body : Pass → Handler (Unit {0})
unfolding collect finish
pass_body w = do
  allocations ← gets (λ r. r.allocations)
  tasks ← collect w allocations
  finish tasks

pub expire_pass : Pass → Redis → Redis
unfolding pass_body
expire_pass w r = (pass_body w r).1
