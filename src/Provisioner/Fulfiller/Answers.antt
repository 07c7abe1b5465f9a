-- ===== src/Provisioner/Fulfiller/Answers.antt =====
-- A request without an id, and what is stored when all managers deliver.
use habertest_backend.Base.{
  ◌∙◌, string_eq, ◌+◌, ◌*◌, String, ◌≡◌, refl, none, some, List, [], ◌∷◌, ◌++◌, arith,
}
use habertest_backend.Provisioner.Store.{
  hardware_of, second, Allocation, Redis, key_error, MachineInfo, reply, success, Hardware,
  ResourceManager, whole_seconds, Request, save_request, save_fulfilled_request, info_of,
}
use habertest_backend.Provisioner.Fulfiller.{
  World, answered, hand_out, fulfill, fulfill_found, fulfill_new, offer, settle, settle_body,
  restrict,
}
use habertest_backend.Base.Dict.{lookup-insert_self, lookup, insert}
use habertest_backend.Base.Exec.{ok, err}
use habertest_backend.Provisioner.Fulfiller.Hosts.{Potential}
use habertest_backend.Provisioner.Requestor.{body_or_raise}

-- A request without an id always fails with a `KeyError`, though an id has been made up for it, and
-- changes nothing.
fulfill_without_id :
    (w : World) (req : Request) (r : Redis)
    → req.allocation_id ≡ none
    → lookup w.new_id r.allocations ≡ none
    → fulfill w req r ≡ (err key_error, r)
unfolding fulfill fulfill_new save_request fulfill_found
fulfill_without_id w req r missing unknown = ground (arith, missing, unknown)

-- Managers that all deliver: `machines` is what each endpoint provides, `hardware` its details.
module _ (w : World) (machines : String → List MachineInfo) (hardware : String → List Hardware)
    (delivered : (endpoint : String) (a : Allocation)
      → w.allocate endpoint a
        ≡ answered (ok (record { status = 200; body = reply (some (machines endpoint)) })))
    (networked : (endpoint : String)
      → hardware_of endpoint (machines endpoint) ≡ ok (hardware endpoint))
    (id : String) where
  abbrev fulfilled : String → Allocation → Allocation
  fulfilled endpoint a = record a {
    resource_manager = some endpoint;
    hardware_details = some (hardware endpoint);
    result = some (reply (some (machines endpoint)));
    status = success;
    expiration = whole_seconds (w.stored_at endpoint) + 60 * second;
  }

  -- One round of the loop stores the manager's machines and goes on.
  hand_out_step :
      (rm : ResourceManager) (hosts : List String) (ps : List Potential) (r : Redis)
      (a : Allocation)
      → a.allocation_id ≡ id
      → lookup id r.allocations ≡ some a
      → hand_out w id ((rm, hosts) ∷ ps) r
        ≡ hand_out w id ps
            (record r { allocations = insert id (fulfilled rm.endpoint a) r.allocations })
  unfolding hand_out offer settle settle_body body_or_raise info_of save_fulfilled_request
  hand_out_step rm hosts ps r a own found = ground (
    arith,
    delivered rm.endpoint (record a { demands = restrict hosts a.demands }),
    networked rm.endpoint,
  )

  -- What is stored when the manager at `endpoint` was the last to deliver.
  abbrev pub DeliveredBy : String → Redis → Type 0
  DeliveredBy endpoint r =
      (b : Allocation) × (lookup id r.allocations ≡ some b)
      × (b.status ≡ success)
      × (b.hardware_details ≡ some (hardware endpoint))

  -- When every manager delivers, the request ends in success, and the details that are stored are
  -- those of the last manager's machines alone.
  pub hand_out_last :
      (ps : List Potential) (rm : ResourceManager) (hosts : List String) (r : Redis)
      (a : Allocation)
      → a.allocation_id ≡ id
      → lookup id r.allocations ≡ some a
      → (r' : Redis) × (hand_out w id (ps ++ (rm, hosts) ∷ []) r ≡ (ok tt, r'))
        × DeliveredBy rm.endpoint r'
  unfolding hand_out
  hand_out_last [] rm hosts r a own found = (
    record r { allocations = insert id (fulfilled rm.endpoint a) r.allocations },
    hand_out_step rm hosts [] r a own found,
    (
      fulfilled rm.endpoint a,
      lookup-insert_self id (fulfilled rm.endpoint a) r.allocations,
      refl,
      refl,
    ),
  )
  hand_out_last ((rm', hosts') ∷ ps) rm hosts r a own found =
      let (s, run, stored) =
        hand_out_last ps rm hosts
          (record r { allocations = insert id (fulfilled rm'.endpoint a) r.allocations })
          (fulfilled rm'.endpoint a) own
          (lookup-insert_self id (fulfilled rm'.endpoint a) r.allocations) in
      (s, hand_out_step rm' hosts' (ps ++ (rm, hosts) ∷ []) r a own found ∙ run, stored)
