-- ===== src/Provisioner/Fulfiller/Requests.antt =====
-- What a request can change, and what its answer says about the database.
use habertest_backend.Base.{
  string_eq, String, Option, none, some, List, [], ◌∷◌, if◌then◌else◌, ℕ, ◌≡◌, refl, ◌⊎◌, inl, inr,
  Bool, true, false, not,
}
use habertest_backend.Provisioner.Store.{
  Allocation, Redis, Fault, Handler, allocation_of, Request, save_request, other,
}
use habertest_backend.Provisioner.Store.Laws.{
  Touches, Touches-bind, touches_rules, Touches-update_status, IsKeyed, Local, Touches-put,
  Touches-allocation_of, Touches-save_fulfilled_request, Local-refl,
}
use habertest_backend.Provisioner.Fulfiller.Hosts.{Potential, spread, possible}
use habertest_backend.Provisioner.Fulfiller.{
  World, find_potential_fulfillers, remove_unavailable_rms, mark_allocating, refuse, refuse_found,
  settle_body, offer, hand_out, fulfill_new, fulfill, Answer, settle, cancellation, answered,
  request_id, restrict, fulfill_found,
}
use habertest_backend.Base.Dict.{Dict, lookup}
use habertest_backend.Base.Exec.{Result, ok, err, ◌>>◌}
use habertest_backend.Provisioner.Requestor.{body_or_raise}

-- The id that a client sent, if it sent one.
abbrev pub SentAs : String → Option String → Type 0
SentAs id sent = (sent ≡ some id) ⊎ (sent ≡ none)

pub SentAs-default :
    (new : String) (sent : Option String) → SentAs (elim sent [ none ↦ new | some id ↦ id ]) sent
SentAs-default new none = inr refl
SentAs-default new (some id) = inl refl

module _ (w : World) (id : String) where
  Touches-remove :
      (ps : List Potential) (rms : Dict String _) → Touches id (remove_unavailable_rms ps rms)
  unfolding remove_unavailable_rms
  Touches-remove ps rms = search touches_rules

  Touches-find : Touches id (find_potential_fulfillers w id)
  unfolding find_potential_fulfillers
  Touches-find = search touches_rules

  Touches-mark : (ps : List Potential) → Touches id (mark_allocating id ps)
  unfolding mark_allocating
  Touches-mark [] = search touches_rules
  Touches-mark ((rm, hosts) ∷ ps) =
      Touches-bind _ _ (Touches-update_status _ (λ a. refl)) (λ _. Touches-mark ps)

  Touches-refuse_found : (o : Option Allocation) → Touches id (refuse_found id o)
  unfolding refuse_found
  Touches-refuse_found none = search touches_rules
  Touches-refuse_found (some a) = search touches_rules

  Touches-refuse : Touches id (refuse id)
  unfolding refuse
  Touches-refuse = search (touches_rules, Touches-refuse_found)

  Touches-settle_body :
      (now : ℕ) (endpoint : String) (r : Result Fault _) (rest : Handler (Unit {0}))
      → Touches id rest
      → Touches id (settle_body now id endpoint r rest)
  unfolding settle_body
  Touches-settle_body now endpoint (ok res) rest t =
      Touches-bind _ _ (Touches-save_fulfilled_request now endpoint res) (λ _. t)
  Touches-settle_body now endpoint (err (other text)) rest t = Touches-update_status _ (λ a. refl)
  Touches-settle_body now endpoint (err _) rest t = Touches-update_status _ (λ a. refl)

  Touches-offer :
      (p : Potential) (rest : Handler (Unit {0})) (o : Option Allocation)
      → Touches id rest
      → Touches id (offer w id p rest o)
  unfolding offer
  Touches-offer (rm, hosts) rest none t = search touches_rules
  Touches-offer (rm, hosts) rest (some request) t =
      at_answer
        (w.allocate rm.endpoint (record request { demands = restrict hosts request.demands }))
    where
      at_answer : (a : Answer) → Touches id (settle (w.stored_at rm.endpoint) id rm.endpoint a rest)
      at_answer (answered r) = Touches-settle_body _ rm.endpoint (body_or_raise r) rest t
      at_answer cancellation = Touches-update_status _ (λ a. refl)

  Touches-hand_out : (ps : List Potential) → Touches id (hand_out w id ps)
  unfolding hand_out
  Touches-hand_out [] = search touches_rules
  Touches-hand_out (p ∷ ps) =
      Touches-bind _ _ (Touches-allocation_of id) (λ o. Touches-offer p _ o (Touches-hand_out ps))

  Touches-save_request :
      (req : Request) → SentAs id req.allocation_id → Touches id (save_request w.now req)
  unfolding save_request
  Touches-save_request req (inl e) = rw e (Touches-put id _ refl refl)
  Touches-save_request req (inr e) = rw e (search touches_rules)

  Touches-fulfill_new :
      (req : Request) → SentAs id req.allocation_id → Touches id (fulfill_new w id req)
  unfolding fulfill_new
  Touches-fulfill_new req e =
      Touches-bind _ _ (Touches-save_request req e)
        λ _. Touches-bind _ _ Touches-find λ ps. decided ps (possible ps req.demands)
    where
      decided :
          (ps : List Potential) (b : Bool)
          → Touches id (
              if not b
              then refuse id
              else do mark_allocating id ps; hand_out w id (spread ps); allocation_of id)
      decided ps false = Touches-refuse
      decided ps true =
          Touches-bind _ _ (Touches-mark ps)
            λ _. Touches-bind _ _ (Touches-hand_out (spread ps)) (λ _. Touches-allocation_of id)

-- A request changes no allocation but its own, and every allocation still stands under its own id,
-- whatever the resource managers answer.
pub fulfill-Local :
    (w : World) (req : Request) (r : Redis)
    → IsKeyed r
    → Local (request_id w req) r (fulfill w req r).1
unfolding fulfill
fulfill-Local w req r k = at_known (lookup (request_id w req) r.allocations)
  where
    at_known :
        (o : Option Allocation)
        → Local (request_id w req) r (fulfill_found w (request_id w req) req o r).1
    at_known none =
        (Touches-fulfill_new w (request_id w req) req
            (SentAs-default w.new_id req.allocation_id)).at
          r k
    at_known (some a) = Local-refl r k
