-- ===== src/Provisioner/Dangling.antt =====
-- The script that looks for machines that no allocation holds (clean_dangling_vms.py), over the dicts
-- that redis returns. What the managers reply and what the operator types are parameters.
use habertest_backend.Base.{
  string_eq, ℕ, ◌||◌, String, Option, none, some, List, [], ◌∷◌, if◌then◌else◌, ◌==◌, nat_beq, ◌≡◌,
  ◌≢◌, refl,
}
use habertest_backend.Base.Dict.{Dict, has_key}
use habertest_backend.Base.Exec.{Result, ok, err, Exec, ◌>>◌, pure, raise}
use habertest_backend.Provisioner.Store.{Allocation, ResourceManager}

-- A machine as a manager lists it
pub record ListedVm : Type 0 where
  pub name : String
  pub allocation_id : Option String

-- A key of a dict is no manager; a manager does not reply; or a machine is not deleted.
pub data ScriptError : Type 0 where
  type_error assertion_error : ScriptError
  no_reply : String → ScriptError

-- The replies of the managers to `GET /vms`, what the operator types for a machine, and the status of
-- `DELETE /vms/{name}`, if there is one
pub record Outside : Type 0 where
  pub vms : String → Option (List ListedVm)
  pub typed : String → String → String
  pub delete_status : String → String → Option ℕ

-- The machines that were to be deleted, the last one first
abbrev pub ScriptStep : Type 0 → Type 0
ScriptStep A = Exec ScriptError (List (String × String)) A

-- `[rm['endpoint'] for rm in ...]`, which goes over the keys of the dict; a key has no entries.
endpoints_of : Dict String ResourceManager → Result ScriptError (List String)
endpoints_of [] = ok []
endpoints_of (entry ∷ managers) = err type_error

module _ (out : Outside) (allocations : Dict String Allocation) where
  delete_vm : String → ListedVm → ScriptStep (Unit {0})
  delete_vm rm_ep vm deleted = (
    elim (out.delete_status rm_ep vm.name) [
      | none ↦ err (no_reply rm_ep)
      | some status ↦ if nat_beq status 200 then ok tt else err assertion_error
    ],
    (rm_ep, vm.name) ∷ deleted,
  )

  -- A machine that no allocation holds is deleted when the operator says so.
  ask : String → ListedVm → ScriptStep (Unit {0})
  unfolding delete_vm
  ask rm_ep vm =
      if out.typed rm_ep vm.name == "y" || out.typed rm_ep vm.name == "Y"
      then delete_vm rm_ep vm
      else pure tt

  clean_vm : String → ListedVm → ScriptStep (Unit {0})
  unfolding ask
  clean_vm rm_ep vm = elim vm.allocation_id [
    | none ↦ pure tt
    | some id ↦
        if id == "" then pure tt else if has_key id allocations then pure tt else ask rm_ep vm
  ]

  clean_vms : String → List ListedVm → ScriptStep (Unit {0})
  unfolding clean_vm
  clean_vms rm_ep [] = pure tt
  clean_vms rm_ep (vm ∷ vms) = clean_vm rm_ep vm >> clean_vms rm_ep vms

  clean_manager : String → ScriptStep (Unit {0})
  unfolding clean_vms
  clean_manager rm_ep = elim (out.vms rm_ep) [
    | none ↦ raise (no_reply rm_ep)
    | some vms ↦ clean_vms rm_ep vms
  ]

  clean_managers : List String → ScriptStep (Unit {0})
  unfolding clean_manager
  clean_managers [] = pure tt
  clean_managers (rm_ep ∷ rm_eps) = clean_manager rm_ep >> clean_managers rm_eps

  from_endpoints : Result ScriptError (List String) → ScriptStep (Unit {0})
  unfolding clean_managers
  from_endpoints (err e) = raise e
  from_endpoints (ok rm_eps) = clean_managers rm_eps

-- `clean_dangling_vms`
unfoldable pub clean_dangling_vms :
    Outside → Dict String ResourceManager → Dict String Allocation → ScriptStep (Unit {0})
unfolding from_endpoints endpoints_of
clean_dangling_vms out managers allocations = from_endpoints out allocations (endpoints_of managers)

-- With any manager at all, the script ends with an exception before it deletes a machine.
clean_dangling_vms_fails :
    (out : Outside) (managers : Dict String ResourceManager) (allocations : Dict String Allocation)
    (deleted : List (String × String))
    → managers ≢ []
    → clean_dangling_vms out managers allocations deleted ≡ (err type_error, deleted)
unfolding clean_dangling_vms
clean_dangling_vms_fails out [] allocations deleted h = absurd (h refl)
clean_dangling_vms_fails out (entry ∷ managers) allocations deleted h = refl
