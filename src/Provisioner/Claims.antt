-- ===== src/Provisioner/Claims.antt =====
-- The claim of a job (hwallocator/provisioner/webapp/claim.py) and the offers of resource managers
-- (`volunteer` in hwallocator/provisioner/webapp/resourcemanager.py). What is published on a redis
-- channel is kept as a list.
use Prim.Native.String.{◌++◌}
use habertest_backend.Base.{ℕ, string_eq, String, Option, none, some, List, [], ◌∷◌, ◌++◌ as append}
use habertest_backend.Base.Dict.{Dict, lookup, insert}
use habertest_backend.Base.Exec.{Result, ok, err}

-- A value under the redis key `jobs`.
pub record Job : Type 0 where
  pub state : String
  pub resourcemanager_id : Option String
  pub inventory_type : Option String
  pub inventory_ref : Option String

-- The body of a claim, with its text as it came.
pub record Claim : Type 0 where
  pub allocation_id : String
  pub resourcemanager_id : String
  pub inventory_type : String
  pub inventory_ref : String
  pub text : String

pub record Channels : Type 0 where
  pub jobs : Dict String Job
  pub published : List (String × String)

-- The `TypeError` of a job that redis does not hold.
pub data ClaimError : Type 0 where
  type_error : ClaimError

abbrev pub claimed : Claim → Job → Job
claimed c job = record job {
  state = "claimed";
  resourcemanager_id = some c.resourcemanager_id;
  inventory_type = some c.inventory_type;
  inventory_ref = some c.inventory_ref;
}

-- `claim`
pub claim : Claim → Channels → Result ClaimError (Unit {0}) × Channels
claim c s = elim (lookup c.allocation_id s.jobs) [
  | none ↦ (err type_error, s)
  | some job ↦ (
    ok tt,
    record s {
      jobs = insert c.allocation_id (claimed c job) s.jobs;
      published = append s.published (("j:" ++ c.allocation_id, c.text) ∷ []);
    },
  )
]

-- One entry of the body's `data`, with its text.
pub record Offer : Type 0 where
  pub inventory_type : String
  pub inventory_ref : String
  pub text : String

offer_channel : String → Offer → String
offer_channel resourcemanager_id o =
    "i:" ++ (resourcemanager_id ++ ("-" ++ (o.inventory_type ++ ("-" ++ o.inventory_ref))))

offers : String → List Offer → List (String × String)
unfolding offer_channel
offers resourcemanager_id [] = []
offers resourcemanager_id (o ∷ os) =
    (offer_channel resourcemanager_id o, o.text) ∷ offers resourcemanager_id os

-- `volunteer`: the status of the reply; a body without `data` publishes nothing.
pub volunteer : String → Option (List Offer) → Channels → ℕ × Channels
unfolding offers
volunteer resourcemanager_id none s = (400, s)
volunteer resourcemanager_id (some os) s =
    (200, record s { published = append s.published (offers resourcemanager_id os) })
