-- ===== src/Cloudvisor/Manager.antt =====
-- `EC2Manager` (resource_managers/cloudvisor/ec2_manager.py) and `from_aws_instance` of cloud_vm.py: how a
-- machine is allocated in the next subnet, with the first instance type that AWS has.
pub mod Tried
pub mod Tests
use habertest_backend.Base.{
  string_eq, String, Option, none, some, List, [], ◌∷◌, ◌++◌ as append, if◌then◌else◌, ◌==◌,
}
use habertest_backend.Base.Dict.{Dict, lookup}
use habertest_backend.Base.Exec.{Result, ok, err}
use habertest_backend.Cloudvisor.Types.{instance_types, CloudError}
use habertest_backend.Cloudvisor.Ec2.{
  Aws, Wrapper, CloudRequest, AwsStep, AwsCall, Ec2Error, client_error, allocate,
}
use habertest_backend.Cloudvisor.Tags.{Tag, tags_dict}

-- The exceptions: of the wrapper, of the choice of a type, and for want of a type or a subnet.
pub data ManagerError : Type 0 where
  wrapper_error : Ec2Error → ManagerError
  type_error : CloudError → ManagerError
  unbound stop_iteration : ManagerError

-- What AWS says of an instance that runs
pub record Running : Type 0 where
  pub id : String
  pub public_ip : String

-- What the caller gets
pub record Allocated : Type 0 where
  pub instance_id : String
  pub name : String
  pub instance_type : String
  pub subnet : String
  pub ip : String
  pub user : String
  pub pem_key_string : String

-- `next(self.subnet_ids)`, over the subnets from the one that is next on
next_subnet : List String → Option (String × List String)
next_subnet [] = none
next_subnet (subnet ∷ subnets) = some (subnet, append subnets (subnet ∷ []))

module _ (aws : Aws) (w : Wrapper) where
  unfoldable pub with_type : CloudRequest → String → String → AwsStep String
  with_type vm subnet type =
      allocate aws w (record vm { instance_type = some type; subnets = subnet ∷ [] })

  -- The loop over the types: a `ClientError` is raised at the last one only, any other at once.
  pub try_allocate :
      CloudRequest
      → String
      → List String
      → List AwsCall
      → Result ManagerError (String × String) × List AwsCall
  unfolding with_type
  try_allocate vm subnet [] calls = (err unbound, calls)
  try_allocate vm subnet (type ∷ []) calls =
      let (r, later) = with_type vm subnet type calls in
      elim r [ ok id ↦ (ok (type, id), later) | err e ↦ (err (wrapper_error e), later) ]
  try_allocate vm subnet (type ∷ next ∷ types) calls =
      let (r, later) = with_type vm subnet type calls in
      let rest = try_allocate vm subnet (next ∷ types) later in
      elim r [
        | ok id ↦ (ok (type, id), later)
        | err (client_error e) ↦ rest
        | err e ↦ (err (wrapper_error e), later)
      ]

  allocated :
      (String → Running)
      → String
      → String
      → Result ManagerError (String × String)
      → Result ManagerError Allocated
  allocated await_running pem subnet (err e) = err e
  allocated await_running pem subnet (ok (type, id)) =
      let running = await_running id in
      ok (record {
        instance_id = running.id;
        name = running.id;
        instance_type = type;
        subnet = subnet;
        ip = running.public_ip;
        user = "ubuntu";
        pem_key_string = pem;
      })

  of_types :
      (String → Running)
      → String
      → CloudRequest
      → String
      → Result CloudError (List String)
      → List AwsCall
      → Result ManagerError Allocated × List AwsCall
  unfolding try_allocate allocated
  of_types await_running pem vm subnet (err e) calls = (err (type_error e), calls)
  of_types await_running pem vm subnet (ok types) calls =
      let (r, later) = try_allocate vm subnet types calls in
      (allocated await_running pem subnet r, later)

  -- `allocate_instance`, with the subnets from the next one on, the tables of instance types, and the
  -- number of GPUs; it returns the subnets that are next then.
  pub allocate_instance :
      (String → Running)
      → String
      → Dict String (List String)
      → Dict String (List String)
      → String
      → CloudRequest
      → List String
      → List AwsCall
      → Result ManagerError Allocated × List String × List AwsCall
  unfolding next_subnet of_types
  allocate_instance await_running pem by_arch by_gpus num_gpus vm subnets calls =
      elim (next_subnet subnets) [
        | none ↦ (err stop_iteration, subnets, calls)
        | some (subnet, others) ↦
            let out : Result ManagerError Allocated × List AwsCall =
              of_types await_running pem vm subnet
                (instance_types by_arch by_gpus vm.instance_type vm.arch num_gpus) calls in
            (out.0, others, out.1)
      ]

-- An instance as `from_aws_instance` reads it: where its client is, whose it is, and its name.
pub record CloudInstance : Type 0 where
  pub id : String
  pub state : String
  pub instance_tags : List Tag

pub record CloudInfo : Type 0 where
  pub name : String
  pub state : String
  pub client_external_ip : Option String
  pub allocation_id : Option String
  pub tags : Dict String String

-- `a or b`, where the empty text counts as nothing
either : Option String → Option String → Option String
either none other = other
either (some text) other = if text == "" then other else some text

-- `from_aws_instance`
pub from_aws_instance : CloudInstance → CloudInfo
unfolding either
from_aws_instance i =
    let tags = tags_dict i.instance_tags in
    record {
      name = i.id;
      state = i.state;
      client_external_ip =
          either (lookup "requestor:external_ip" tags) (lookup "client_external_ip" tags);
      allocation_id = lookup "allocation_id" tags;
      tags = tags;
    }

-- `convert_to_vms`
pub convert_to_vms : List CloudInstance → List CloudInfo
unfolding from_aws_instance
convert_to_vms [] = []
convert_to_vms (i ∷ instances) = from_aws_instance i ∷ convert_to_vms instances
