-- ===== src/Cloudvisor/Ec2.antt =====
-- The calls of AWS that `EC2Wrapper` makes for instances (resource_managers/cloudvisor/ec2_wrapper.py),
-- as the list of the calls; what AWS answers is a parameter.
use habertest_backend.Cloudvisor.Tags.{
  Filter, security_group_filters, image_filters, tagged_as_automation, instance_tags, group_tags,
  Tag,
}
use Prim.Native.String.{◌++◌}
use habertest_backend.Base.{
  string_eq, ℕ, Bool, String, Option, List, [], ◌∷◌, length, if◌then◌else◌, nat_beq, Bool-cases,
  ◌≡◌, refl, inl, inr, arith,
}
use habertest_backend.Base.Dict.{Dict, has_key}
use habertest_backend.Base.Exec.{Result, ok, err, Exec, ◌>>=◌, ◌>>◌, pure, raise}

-- A rule of a security group: all traffic inside the group, all traffic from a range of addresses, or ssh
-- from an IPv4 and an IPv6 range.
pub data Rule : Type 0 where
  inside : String → String → Rule
  all_from : String → Rule
  ssh_from : String → String → Rule

-- What an instance is created with.
pub record Launch : Type 0 where
  pub image : String
  pub key_name : String
  pub instance_type : Option String
  pub description : String
  pub groups : List String
  pub subnet : String
  pub tags : List Tag

pub data AwsCall : Type 0 where
  create_security_group : String → String → List Tag → AwsCall
  authorize_ingress : String → List Rule → AwsCall
  create_instance : Launch → AwsCall
  terminate : String → AwsCall

-- How a call ends badly: AWS refuses it, the images of a version are not one, or there is no network.
pub data Ec2Error : Type 0 where
  client_error : String → Ec2Error
  wrong_images : ℕ → Ec2Error
  no_subnet attribute_error : Ec2Error

-- What AWS answers; a number counts the calls made before.
pub record Aws : Type 0 where
  pub answer : ℕ → AwsCall → Result String String
  pub groups : ℕ → List Filter → List String
  pub images : ℕ → List Filter → List String
  pub time : ℕ → String

-- What a wrapper knows: its VPC with its addresses, its id, and the name of the key pair.
pub record Wrapper : Type 0 where
  pub id : String
  pub vpc : String
  pub cidr_block : String
  pub key_name : String

-- A machine to allocate; `json` gives the items of `vm.json` as texts, for the instance type and the
-- subnets that the machine has by then.
pub record CloudRequest : Type 0 where
  pub allocation_id : String
  pub client_external_ip : String
  pub base_image : String
  pub instance_type : Option String
  pub subnets : List String
  pub name : String
  pub arch : String
  pub json : Option String → List String → Dict String String
  pub requestor : Dict String String

-- An instance, as AWS describes it
pub record Instance : Type 0 where
  pub instance_id : String
  pub tags : List Tag

abbrev pub AwsStep : Type 0 → Type 0
AwsStep A = Exec Ec2Error (List AwsCall) A

abbrev answered : Result String String → Result Ec2Error String
answered (ok a) = ok a
answered (err e) = err (client_error e)

-- `check_allocate`
pub check_allocate : Dict String (List String) → CloudRequest → Bool
check_allocate types_by_arch vm = has_key vm.arch types_by_arch

module _ (aws : Aws) (w : Wrapper) where
  call : AwsCall → AwsStep String
  call c calls = (answered (aws.answer (length calls) c), c ∷ calls)

  -- `allowed_rules`
  pub allowed_rules : String → String → List Rule
  allowed_rules security_group allocating_ip =
      inside w.vpc security_group
      ∷ all_from (allocating_ip ++ "/32")
      ∷ ssh_from "0.0.0.0/0" "::/0"
      ∷ all_from w.cidr_block
      ∷ []

  authorize : CloudRequest → String → AwsStep String
  unfolding call allowed_rules
  authorize vm security_group =
      call (authorize_ingress security_group (allowed_rules security_group vm.client_external_ip))
      >> pure security_group

  -- `_create_security_group`
  pub create_group : CloudRequest → AwsStep String
  unfolding authorize
  create_group vm calls =
      (call (
            create_security_group vm.allocation_id w.vpc
              (group_tags vm.allocation_id (aws.time (length calls))))
          >>= authorize vm)
        calls

  first_or_create : CloudRequest → List String → AwsStep String
  unfolding create_group
  first_or_create vm [] = create_group vm
  first_or_create vm (security_group ∷ others) = pure security_group

  -- `_find_security_group` and, for a `StopIteration`, `_create_security_group`
  pub get_or_create_security_group : CloudRequest → AwsStep String
  unfolding first_or_create
  get_or_create_security_group vm calls =
      first_or_create vm (aws.groups (length calls) (security_group_filters w.vpc vm.allocation_id))
        calls

  -- `find_image_by_version_tag`, which asserts that there is one image
  only_image : List String → Result Ec2Error String
  only_image (image ∷ []) = ok image
  only_image images = err (wrong_images (length images))

  launch : CloudRequest → String → String → String → Launch
  launch vm subnet security_group image = record {
    image = image;
    key_name = w.key_name;
    instance_type = vm.instance_type;
    description = vm.allocation_id;
    groups = security_group ∷ [];
    subnet = subnet;
    tags = instance_tags (vm.json vm.instance_type vm.subnets) vm.name w.id vm.requestor;
  }

  with_image : CloudRequest → String → String → Result Ec2Error String → AwsStep String
  unfolding launch call
  with_image vm subnet security_group (ok image) =
      call (create_instance (launch vm subnet security_group image))
  with_image vm subnet security_group (err e) = raise e

  launch_in : CloudRequest → String → String → AwsStep String
  unfolding with_image only_image
  launch_in vm subnet security_group calls =
      with_image vm subnet security_group
        (only_image (aws.images (length calls) (image_filters vm.base_image))) calls

  -- `allocate`, in the first of the subnets
  in_first : CloudRequest → List String → AwsStep String
  unfolding launch_in get_or_create_security_group
  in_first vm [] = raise no_subnet
  in_first vm (subnet ∷ others) = get_or_create_security_group vm >>= launch_in vm subnet

  unfoldable pub allocate : CloudRequest → AwsStep String
  unfolding in_first
  allocate vm = in_first vm vm.subnets

  -- `destroy`, over the instances that `describe` returns. For one that has no automation tag, the text of
  -- the exception calls `_tag_in_machine`, which is not there.
  unfoldable pub destroy : List Instance → AwsStep (Unit {0})
  unfolding call tagged_as_automation
  destroy [] = pure tt
  destroy (machine ∷ machines) =
      if tagged_as_automation machine.tags
      then call (terminate machine.instance_id) >>= (λ out. destroy machines)
      else raise attribute_error

  -- The instances that come before the first one without an automation tag.
  abbrev pub ours : List Instance → List Instance
  ours [] = []
  ours (machine ∷ machines) =
      let rest = ours machines in if tagged_as_automation machine.tags then machine ∷ rest else []

  -- The calls that terminate instances, the last one first, before others
  abbrev pub terminations : List Instance → List AwsCall → List AwsCall
  terminations [] calls = calls
  terminations (machine ∷ machines) calls =
      terminations machines (terminate machine.instance_id ∷ calls)

  abbrev pub CanTerminate : Type 0
  CanTerminate = (n : ℕ) (id : String) → (out : String) × (aws.answer n (terminate id) ≡ ok out)

  -- When AWS refuses no termination, `destroy` terminates the instances that come before the first one
  -- that is not tagged as automation, and no other; it raises exactly when there is such a one.
  pub destroy-ours :
      (machines : List Instance) (calls : List AwsCall)
      → CanTerminate
      → ((destroy machines calls).1 ≡ terminations (ours machines) calls)
        × ((destroy machines calls).0 ≡ (
            if nat_beq (length (ours machines)) (length machines)
            then ok tt
            else err attribute_error))
  unfolding destroy call
  destroy-ours [] calls can = (refl, refl)
  destroy-ours (machine ∷ machines) calls can =
      elim (Bool-cases (tagged_as_automation machine.tags)) [
        | inl tagged ↦ ground (
          arith,
          tagged,
          (can (length calls) machine.instance_id).1,
          destroy-ours machines (terminate machine.instance_id ∷ calls) can,
        )
        | inr other ↦ ground (arith, other)
      ]
