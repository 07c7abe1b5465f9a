-- ===== src/Provisioner/Fulfiller.antt =====
-- `class Fulfiller` (hwallocator/provisioner/webapp/fulfiller.py). The lock of a fulfiller is its own,
-- and each request makes a new fulfiller, so it orders nothing; a handler is modelled as it runs when
-- no other handler writes the same allocation.
pub mod Hosts
pub mod Requests
pub mod Answers
pub mod Success
pub mod Release
pub mod Tests
use habertest_backend.Base.{
  ℕ, string_eq, if◌then◌else◌, String, not, Option, none, some, List, [], ◌∷◌,
}
use habertest_backend.Provisioner.Store.{
  Status, allocating, unfulfillable, failed_exception, deallocated, Allocation, Hardware,
  ResourceManager, Reply, Request, Fault, type_error, other, Handler, allocation_of,
  delete_allocation, delete_resource_managers, save_request, update_status, save_fulfilled_request,
}
use habertest_backend.Provisioner.Requestor.{
  Response, Possible, theoretically_fulfill, body_or_raise,
}
use Hosts.{Potential, possible, spread}
use habertest_backend.Base.Counts.{contains}
use habertest_backend.Base.Dict.{Dict, keys}
use habertest_backend.Base.Exec.{Result, ok, err, pure, raise, gets, lift, ◌>>=◌, ◌>>◌}

-- What `rm_requestor.allocate` ends with: a response or an error of the client, or a cancellation.
pub data Answer : Type 0 where
  answered : Result String (Response Reply) → Answer
  cancellation : Answer

-- The world of one request: the id for a client that sent none, the clock when the request comes in,
-- the managers' replies, and the clock when the reply of an endpoint is stored.
pub record World : Type 0 where
  pub new_id : String
  pub now : ℕ
  pub check : ResourceManager → Option Allocation → Option (Response Possible)
  pub allocate : String → Allocation → Answer
  pub stored_at : String → ℕ

-- The gathered replies that are no exception, in the order of the managers.
candidates : World → Option Allocation → Dict String ResourceManager → List Potential
candidates w a [] = []
candidates w a ((key, rm) ∷ rms) =
    let rest = candidates w a rms in
    let keyed : ResourceManager = record rm { key = some key } in
    elim (theoretically_fulfill keyed (w.check keyed a)) [ ok p ↦ p ∷ rest | err _ ↦ rest ]

live_keys : List Potential → List String
live_keys [] = []
live_keys ((rm, _) ∷ ps) = elim rm.key [ none ↦ live_keys ps | some k ↦ k ∷ live_keys ps ]

absent : List String → List String → List String
absent live [] = []
absent live (k ∷ ks) = let rest = absent live ks in if contains k live then rest else k ∷ rest

-- `remove_unavailable_rms`
remove_unavailable_rms : List Potential → Dict String ResourceManager → Handler (Unit {0})
unfolding live_keys absent delete_resource_managers
remove_unavailable_rms live all = delete_resource_managers (absent (live_keys live) (keys all))

-- `find_potential_fulfillers`
pub find_potential_fulfillers : World → String → Handler (List Potential)
unfolding candidates remove_unavailable_rms allocation_of
find_potential_fulfillers w id = do
  a ← allocation_of id
  rms ← gets (λ r. r.resource_managers)
  let potentials = candidates w a rms
  remove_unavailable_rms potentials rms
  pure potentials

-- The demands for the hosts of one fulfiller.
pub restrict : List String → Dict String String → Dict String String
restrict hosts [] = []
restrict hosts ((host, reqs) ∷ demands) =
    let rest = restrict hosts demands in if contains host hosts then (host, reqs) ∷ rest else rest

-- the first loop under the lock: the status of an allocation that is being handed out
mark_allocating : String → List Potential → Handler (Unit {0})
unfolding update_status
mark_allocating id [] = pure tt
mark_allocating id ((rm, _) ∷ ps) =
    let rest = mark_allocating id ps in
    (do
      update_status id (λ a. record a {
        status = allocating;
        rm_endpoint = some rm.endpoint;
        message = some "in progress";
      })
      rest)

-- What follows one call of `rm_requestor.allocate`: a good reply is stored and the loop goes on; an
-- error is stored, and the loop is left.
settle_body : ℕ → String → String → Result Fault Reply → Handler (Unit {0}) → Handler (Unit {0})
unfolding save_fulfilled_request update_status
settle_body now id endpoint (ok res) rest = do save_fulfilled_request now id endpoint res; rest
settle_body now id endpoint (err (other text)) rest =
    update_status id (λ a. record a { status = failed_exception; message = some text })
settle_body now id endpoint (err _) rest =
    update_status id (λ a. record a { status = failed_exception; message = some "" })

settle : ℕ → String → String → Answer → Handler (Unit {0}) → Handler (Unit {0})
unfolding settle_body body_or_raise
settle now id endpoint (answered r) rest = settle_body now id endpoint (body_or_raise r) rest
settle now id endpoint cancellation rest = update_status id (λ a. record a {
  status = Status.cancelled;
  message = some "client cancelled after allocation started but before allocation was finish";
})

-- One round of the second loop, at the allocation that redis holds; with none, `request['demands']`
-- raises.
offer : World → String → Potential → Handler (Unit {0}) → Option Allocation → Handler (Unit {0})
unfolding settle restrict
offer w id (rm, hosts) rest none = raise type_error
offer w id (rm, hosts) rest (some request) =
    settle (w.stored_at rm.endpoint) id rm.endpoint
      (w.allocate rm.endpoint (record request { demands = restrict hosts request.demands })) rest

-- the second loop under the lock
pub hand_out : World → String → List Potential → Handler (Unit {0})
unfolding allocation_of offer
hand_out w id [] = pure tt
hand_out w id (p ∷ ps) =
    let rest = hand_out w id ps in (do found ← allocation_of id; offer w id p rest found)

-- the branch of a request that the managers cannot meet
refuse_found : String → Option Allocation → Handler (Option Allocation)
unfolding delete_allocation
refuse_found id none = raise Fault.attribute_error
refuse_found id (some a) = do
  delete_allocation id
  pure (
      some (record a {
        status = unfulfillable;
        message = some "Allocator doesnt have resource_managers which can fulfill demands";
      }))

refuse : String → Handler (Option Allocation)
unfolding allocation_of refuse_found
refuse id = do found ← allocation_of id; refuse_found id found

-- `fulfill`, for an allocation that is not known yet
fulfill_new : World → String → Request → Handler (Option Allocation)
unfolding save_request find_potential_fulfillers mark_allocating hand_out refuse
fulfill_new w id req = do
  save_request w.now req
  potentials ← find_potential_fulfillers w id
  if not (possible potentials req.demands)
      then refuse id
      else do mark_allocating id potentials; hand_out w id (spread potentials); allocation_of id

fulfill_found : World → String → Request → Option Allocation → Handler (Option Allocation)
unfolding fulfill_new
fulfill_found w id req (some a) = pure (some a)
fulfill_found w id req none = fulfill_new w id req

-- `allocation_request.get("allocation_id", str(uuid.uuid4()))`
abbrev pub request_id : World → Request → String
request_id w req = elim req.allocation_id [ none ↦ w.new_id | some id ↦ id ]

-- `fulfill`
pub fulfill : World → Request → Handler (Option Allocation)
unfolding fulfill_found allocation_of
fulfill w req = do
  known ← allocation_of (request_id w req)
  fulfill_found w (request_id w req) req known

-- the loop of `release`: `deallocate` at each machine's manager
deallocate_all :
    (String → String → Result String (Response (Unit {0}))) → List Hardware → Handler (Unit {0})
unfolding body_or_raise
deallocate_all deallocate [] = pure tt
deallocate_all deallocate (h ∷ hs) =
    let rest = deallocate_all deallocate hs in
    (do lift (body_or_raise (deallocate h.vm_id h.resource_manager_ep)); rest)

release_found :
    (String → String → Result String (Response (Unit {0})))
    → String
    → Option Allocation
    → Handler (Unit {0})
unfolding deallocate_all update_status delete_allocation
release_found deallocate id none = pure tt
release_found deallocate id (some a) = do
  deallocate_all deallocate (elim a.hardware_details [ none ↦ [] | some hs ↦ hs ])
  update_status id (λ a. record a { status = deallocated })
  delete_allocation id

-- `release`
pub release : (String → String → Result String (Response (Unit {0}))) → String → Handler (Unit {0})
unfolding allocation_of release_found
release deallocate id = do found ← allocation_of id; release_found deallocate id found
