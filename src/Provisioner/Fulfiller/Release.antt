-- ===== src/Provisioner/Fulfiller/Release.antt =====
-- What the release of an allocation does.
use habertest_backend.Base.{
  string_eq, String, ◌≡◌, refl, Option, none, some, List, [], ◌∷◌, arith, sym, ap,
}
use habertest_backend.Provisioner.Store.{Allocation, Redis, Fault, Hardware, deallocated}
use habertest_backend.Provisioner.Store.Laws.{IsKeyed, update_status-some}
use habertest_backend.Provisioner.Requestor.{Response, body_or_raise}
use habertest_backend.Provisioner.Fulfiller.{deallocate_all, release, release_found}
use habertest_backend.Base.Dict.{lookup, erase, erase_absent, erase-insert}
use habertest_backend.Base.Exec.{Result, ok, err}

-- How the calls to the managers go: the first one that fails, if one does.
unfoldable pub first_failure :
    (String → String → Result String (Response (Unit {0}))) → List Hardware → Option Fault
first_failure deallocate [] = none
first_failure deallocate (h ∷ hs) =
    let rest = first_failure deallocate hs in
    elim (body_or_raise (deallocate h.vm_id h.resource_manager_ep)) [ ok _ ↦ rest | err e ↦ some e ]

-- The machines that redis remembers for an allocation.
abbrev pub machines_of : Option Allocation → List Hardware
machines_of none = []
machines_of (some a) = elim a.hardware_details [ none ↦ [] | some hs ↦ hs ]

deallocate_all-first_failure :
    (deallocate : String → String → Result String (Response (Unit {0}))) (hs : List Hardware)
    (r : Redis)
    → deallocate_all deallocate hs r
      ≡ (elim (first_failure deallocate hs) [ none ↦ ok tt | some e ↦ err e ], r)
unfolding deallocate_all first_failure
deallocate_all-first_failure deallocate [] r = refl
deallocate_all-first_failure deallocate (h ∷ hs) r =
    ground (arith, deallocate_all-first_failure deallocate hs r)

-- A release deletes the allocation and nothing else when every manager has deallocated its machine;
-- when one has not, the release fails with that error and changes nothing. An allocation that
-- redis does not hold is released at once.
pub release-first_failure :
    (deallocate : String → String → Result String (Response (Unit {0}))) (id : String) (r : Redis)
    → IsKeyed r
    → release deallocate id r
      ≡ elim (first_failure deallocate (machines_of (lookup id r.allocations))) [
        | none ↦ (ok tt, record r { allocations = erase id r.allocations })
        | some e ↦ (err e, r)
      ]
unfolding release release_found first_failure
release-first_failure deallocate id r k = at_found (lookup id r.allocations) refl
  where
    at_found :
        (o : Option Allocation)
        → lookup id r.allocations ≡ o
        → release_found deallocate id o r ≡ elim (first_failure deallocate (machines_of o)) [
          | none ↦ (ok tt, record r { allocations = erase id r.allocations })
          | some e ↦ (err e, r)
        ]
    at_found none e =
        ap (λ d. (ok tt, record r { allocations = d })) (sym (erase_absent id r.allocations e))
    at_found (some a) e = ground (
      arith,
      deallocate_all-first_failure deallocate (machines_of (some a)) r,
      k id a e,
      update_status-some id (λ a. record a { status = deallocated }) r a e,
      erase-insert id (record a { status = deallocated }) r.allocations,
    )
