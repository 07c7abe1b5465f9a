-- ===== src/Cloudvisor/Fulfill.antt =====
-- `fulfill` of `CloudVisor` (resource_managers/cloudvisor/webapp/rest.py), which allocates an instance for
-- each host. The allocations, which `asyncio.gather` starts at once, are taken one after another.
use habertest_backend.Base.{
  ◌≡◌, refl, ap, suc, ◌∙◌, arith, inl, inr, length, Option-cases, String, Option, none, some, List,
  [], ◌∷◌, string_eq,
}
use habertest_backend.Base.Dict.{Dict, lookup}
use habertest_backend.Base.Exec.{Result, ok, err, Result-cases}
use habertest_backend.Cloudvisor.Ec2.{Aws, Wrapper, AwsCall, CloudRequest}
use habertest_backend.Cloudvisor.Manager.{Running, Allocated, ManagerError, allocate_instance}
use habertest_backend.Cloudvisor.Webapp.{CloudReqs, specs_of, or_else, CloudSpec, translate_to_vms}
use habertest_backend.Cloudvisor.Webapp

-- The exceptions: the requestor has no address, or an allocation fails.
pub data FulfillError : Type 0 where
  no_external_ip : FulfillError
  not_allocated : ManagerError → FulfillError

-- What the manager of instances works with: AWS, the tables of instance types, the name made
-- from the time, and the machine as JSON.
pub record Cloud : Type 0 where
  pub aws : Aws
  pub wrapper : Wrapper
  pub await_running : String → Running
  pub pem : String
  pub by_arch : Dict String (List String)
  pub by_gpus : Dict String (List String)
  pub name : String
  pub json : CloudSpec → Option String → List String → Dict String String

-- The subnets from the next one on, and the calls of AWS, the last one first
pub record CloudState : Type 0 where
  pub subnets : List String
  pub calls : List AwsCall

module _ (cloud : Cloud) where
  -- The machine before its allocation
  request_of : CloudSpec → CloudRequest
  request_of spec = record {
    allocation_id = spec.allocation_id;
    client_external_ip = spec.client_external_ip;
    base_image = spec.base_image;
    instance_type = spec.instance_type;
    subnets = [];
    name = cloud.name;
    arch = spec.arch;
    json = cloud.json spec;
    requestor = spec.requestor;
  }

  allocate_spec : CloudSpec → CloudState → Result ManagerError Allocated × CloudState
  unfolding request_of
  allocate_spec spec s =
      let (r, subnets, calls) =
        allocate_instance cloud.aws cloud.wrapper cloud.await_running cloud.pem cloud.by_arch
          cloud.by_gpus spec.num_gpus (request_of spec) s.subnets s.calls in
      (r, record { subnets = subnets; calls = calls })

  -- `asyncio.gather`: a failure does not stop the other allocations; the first one is raised.
  gather : Dict String CloudSpec → CloudState → Result FulfillError (List Allocated) × CloudState
  unfolding allocate_spec
  gather [] s = (ok [], s)
  gather ((host, spec) ∷ specs) s =
      let (r, t) = allocate_spec spec s in
      let (rs, u) = gather specs t in
      (
        elim r [
          | err e ↦ err (not_allocated e)
          | ok vm ↦ elim rs [ ok vms ↦ ok (vm ∷ vms) | err e ↦ err e ]
        ],
        u,
      )

  -- `fulfill`, with the id for a request that has none
  pub fulfill :
      String → Webapp.CloudRequest → CloudState → Result FulfillError (List Allocated) × CloudState
  unfolding gather
  fulfill new_id request s = elim (translate_to_vms new_id request) [
    | none ↦ (err no_external_ip, s)
    | some specs ↦ gather specs s
  ]

  gather-length :
      (specs : Dict String CloudSpec) (s : CloudState) (vms : List Allocated)
      → (gather specs s).0 ≡ ok vms
      → length vms ≡ length specs
  unfolding gather
  gather-length [] s vms h = ground (arith, h)
  gather-length ((host, spec) ∷ specs) s vms h = elim (Result-cases (allocate_spec spec s).0) [
    | inr (e, failed) ↦ absurd (ground (arith, h, failed))
    | inl (vm, made) ↦ elim (Result-cases (gather specs (allocate_spec spec s).1).0) [
      | inr (e, failed) ↦ absurd (ground (arith, h, made, failed))
      | inl (rest, found) ↦
          ground (arith, h, made, found, gather-length specs (allocate_spec spec s).1 rest found)
    ]
  ]

  specs_of-length :
      (ip id : String) (request : Webapp.CloudRequest) (demands : Dict String CloudReqs)
      → length (specs_of ip id request demands) ≡ length demands
  unfolding specs_of
  specs_of-length ip id request [] = refl
  specs_of-length ip id request ((host, reqs) ∷ demands) =
      ap suc (specs_of-length ip id request demands)

  -- A request that succeeds gets one machine for each host that it asks for.
  fulfill-length :
      (new_id : String) (request : Webapp.CloudRequest) (s : CloudState) (vms : List Allocated)
      → (fulfill new_id request s).0 ≡ ok vms
      → length vms ≡ length request.demands
  unfolding fulfill translate_to_vms
  fulfill-length new_id request s vms h =
      elim (Option-cases (lookup "external_ip" request.requestor)) [
        | inl missing ↦ absurd (ground (arith, h, missing))
        | inr (ip, found) ↦
            gather-length
              (specs_of ip (or_else request.allocation_id new_id) request request.demands) s vms
              (ground (arith, h, found))
            ∙ specs_of-length ip (or_else request.allocation_id new_id) request request.demands
      ]
