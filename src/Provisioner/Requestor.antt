-- ===== src/Provisioner/Requestor.antt =====
-- The calls to resource managers (hwallocator/provisioner/webapp/rm_requestor.py), at what the HTTP
-- client answers.
use habertest_backend.Base.{ℕ, string_eq, nat_beq, if◌then◌else◌, String, Option, none, some, List}
use habertest_backend.Provisioner.Store.{Fault, connection_error, other, ResourceManager}
use habertest_backend.Base.Exec.{Result, ok, err}

-- An HTTP response with a JSON body of type `A`.
pub record Response (A : Type 0) : Type 0 where
  pub status : ℕ
  pub body : A

-- What a resource manager replies to `/fulfill/theoretically`: its `machines`, if it names them.
abbrev pub Possible : Type 0
Possible = Option (List String)

-- `theoretically_fulfill`: the hosts that the manager can provide; whatever goes wrong, a missing
-- `machines` included, is a `ConnectionError`.
unfoldable pub theoretically_fulfill :
    ResourceManager → Option (Response Possible) → Result Fault (ResourceManager × List String)
theoretically_fulfill rm none = err (connection_error rm.endpoint)
theoretically_fulfill rm (some resp) =
    if nat_beq resp.status 200
    then elim resp.body [
      | none ↦ err (connection_error rm.endpoint)
      | some machines ↦ ok (rm, machines)
    ]
    else err (connection_error rm.endpoint)

-- `allocate`, `deallocate` and `check_status`: the body of a response with status 200; a call that
-- fails raises the client's error.
unfoldable pub body_or_raise : {A : Type 0} → Result String (Response A) → Result Fault A
body_or_raise (err e) = err (other e)
body_or_raise (ok resp) = if nat_beq resp.status 200 then ok resp.body else err (other "Error")
