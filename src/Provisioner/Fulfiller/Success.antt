-- ===== src/Provisioner/Fulfiller/Success.antt =====
-- A new request that managers can meet and that all of them deliver.
use mathlib.Core.Path.{subst, sym, ap}
use habertest_backend.Base.{
  string_eq, ◌∙◌, ◌+◌, ◌*◌, String, ◌≡◌, refl, true, not, Option, none, some, List, [], ◌∷◌, ◌++◌,
  if◌then◌else◌, arith,
}
use habertest_backend.Base.Dict.{Dict, lookup, insert, lookup-insert_self}
use habertest_backend.Base.Exec.{Result, ok, >>=-ok, ◌>>=◌, ◌>>◌}
use habertest_backend.Provisioner.Store.{
  hardware_of, second, Allocation, Redis, Fault, MachineInfo, reply, success, received, allocating,
  Hardware, ResourceManager, whole_seconds, Handler, allocation_of, Request, save_request,
  put_allocation,
}
use habertest_backend.Provisioner.Fulfiller.{
  World, answered, mark_allocating, hand_out, refuse, find_potential_fulfillers,
  remove_unavailable_rms, fulfill, fulfill_found, fulfill_new,
}
use habertest_backend.Provisioner.Fulfiller.Hosts.{Potential, spread, possible}
use habertest_backend.Provisioner.Fulfiller.Answers.{hand_out_last}

module _ (id : String) where
  abbrev pub request_for : Dict String String → Request
  request_for demands = record { allocation_id = some id; demands = demands }

  -- The allocation stands in redis, under its own id.
  abbrev Stands : Redis → Type 0
  Stands r = (a : Allocation) × (lookup id r.allocations ≡ some a) × (a.allocation_id ≡ id)

  mark_allocating-Stands :
      (ps : List Potential) (r : Redis)
      → Stands r
      → (r' : Redis) × (mark_allocating id ps r ≡ (ok tt, r')) × Stands r'
  unfolding mark_allocating
  mark_allocating-Stands [] r stands = (r, refl, stands)
  mark_allocating-Stands ((rm, hosts) ∷ ps) r (a, found, own) =
      let marked : Allocation = record a {
        status = allocating;
        rm_endpoint = some rm.endpoint;
        message = some "in progress";
      } in
      let (r', run, stands) =
        mark_allocating-Stands ps
          (record r { allocations = insert a.allocation_id marked r.allocations })
          (
            marked,
            subst (λ i. lookup i (insert a.allocation_id marked r.allocations) ≡ some marked) own
                (lookup-insert_self a.allocation_id marked r.allocations),
            own,
          ) in
      (r', marks rm hosts ps r a found ∙ run, stands)
    where
      marks :
          (rm : ResourceManager) (hosts : List String) (ps : List Potential) (r : Redis)
          (a : Allocation)
          → lookup id r.allocations ≡ some a
          → mark_allocating id ((rm, hosts) ∷ ps) r
            ≡ mark_allocating id ps (record r {
              allocations =
                  insert a.allocation_id
                    (record a {
                      status = allocating;
                      rm_endpoint = some rm.endpoint;
                      message = some "in progress";
                    })
                    r.allocations;
            })
      marks rm hosts ps r a found = ground (arith, found)

-- Managers that all deliver: `machines` is what each endpoint provides, `hardware` its details.
module _ (w : World) (machines : String → List MachineInfo) (hardware : String → List Hardware)
    (delivered : (endpoint : String) (a : Allocation)
      → w.allocate endpoint a
        ≡ answered (ok (record { status = 200; body = reply (some (machines endpoint)) })))
    (networked : (endpoint : String)
      → hardware_of endpoint (machines endpoint) ≡ ok (hardware endpoint))
    (id : String) where
  abbrev handed_out : List Potential → Handler (Option Allocation)
  handed_out ps = do mark_allocating id ps; hand_out w id (spread ps); allocation_of id

  -- What the answer to a request that ends well is, and what redis then holds.
  abbrev pub Succeeds : String → Result Fault (Option Allocation) × Redis → Type 0
  Succeeds endpoint out =
      (b : Allocation) × (out.0 ≡ ok (some b))
      × (lookup id out.1.allocations ≡ some b)
      × (b.status ≡ success)
      × (b.hardware_details ≡ some (hardware endpoint))

  handed_out-Succeeds :
      (ps before : List Potential) (rm : ResourceManager) (hosts : List String) (r : Redis)
      → Stands id r
      → spread ps ≡ before ++ (rm, hosts) ∷ []
      → Succeeds rm.endpoint (handed_out ps r)
  unfolding allocation_of
  handed_out-Succeeds ps before rm hosts r stands last =
      let (s, marked, (a, found, own)) = mark_allocating-Stands id ps r stands in
      let (t, run, (b, stored, fine, details)) =
        hand_out_last w machines hardware delivered networked id before rm hosts s a own found in
      let all : handed_out ps r ≡ (ok (lookup id t.allocations), t) =
        >>=-ok (mark_allocating id ps) (λ done. hand_out w id (spread ps) >> allocation_of id) r
          marked
        ∙ >>=-ok (hand_out w id (spread ps)) (λ done. allocation_of id) s
            (ap (λ qs. hand_out w id qs s) last ∙ run) in
      subst (Succeeds rm.endpoint) (sym all) (b, ap ok stored, stored, fine, details)

  after_find :
      (req : Request) (ps before : List Potential) (rm : ResourceManager) (hosts : List String)
      (s : Redis)
      → Stands id s
      → (find_potential_fulfillers w id s).0 ≡ ok ps
      → possible ps req.demands ≡ true
      → spread ps ≡ before ++ (rm, hosts) ∷ []
      → Succeeds rm.endpoint (
          (find_potential_fulfillers w id >>= λ qs.
          if not (possible qs req.demands) then refuse id else handed_out qs)
            s)
  unfolding find_potential_fulfillers remove_unavailable_rms
  after_find req ps before rm hosts s stands found can last =
      subst (Succeeds rm.endpoint)
        (sym (
          >>=-ok (find_potential_fulfillers w id)
            (λ qs. if not (possible qs req.demands) then refuse id else handed_out qs) s
            (ap (λ (o : Result Fault (List Potential)). (o, (find_potential_fulfillers w id s).1))
              found)
          ∙ ap
              (λ c.
                (if not c then refuse id else handed_out ps) (find_potential_fulfillers w id s).1)
              can))
        (handed_out-Succeeds ps before rm hosts (find_potential_fulfillers w id s).1 stands last)

  -- When no allocation stands under the id of a request, the managers that answer name as many hosts as it
  -- demands, and every manager delivers what it is asked for, the answer is the allocation as redis then
  -- holds it: a success, with the machines of the last manager that is asked.
  pub fulfill-Succeeds :
      (demands : Dict String String) (r : Redis) (ps before : List Potential) (rm : ResourceManager)
      (hosts : List String)
      → lookup id r.allocations ≡ none
      → (find_potential_fulfillers w id (save_request w.now (request_for id demands) r).1).0 ≡ ok ps
      → possible ps demands ≡ true
      → spread ps ≡ before ++ (rm, hosts) ∷ []
      → Succeeds rm.endpoint (fulfill w (request_for id demands) r)
  unfolding fulfill fulfill_found fulfill_new save_request put_allocation
  fulfill-Succeeds demands r ps before rm hosts new found can last =
      subst (Succeeds rm.endpoint)
        (sym (ap (λ o. fulfill_found w id (request_for id demands) o r) new))
        (after_find (request_for id demands) ps before rm hosts
          (save_request w.now (request_for id demands) r).1
          (saved, lookup-insert_self id saved r.allocations, refl) found can last)
    where
      saved : Allocation
      saved = record {
        allocation_id = id;
        demands = demands;
        status = received;
        expiration = whole_seconds w.now + 60 * second;
        rm_endpoint = none;
        message = none;
        resource_manager = none;
        hardware_details = none;
        result = none;
      }
