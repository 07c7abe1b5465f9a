-- ===== src/Cloudvisor/Manager/Tests.antt =====
-- An allocation for which AWS has no instance of the first type left.
use habertest_backend.Base.{
  string_eq, ◌≡◌, refl, true, String, Option, none, some, List, [], ◌∷◌, if◌then◌else◌, ◌==◌, ◌++◌,
}
use habertest_backend.Base.Exec.{Result, ok, err}
use habertest_backend.Cloudvisor.Ec2.{
  Aws, Wrapper, CloudRequest, AwsCall, create_instance, create_security_group, authorize_ingress,
  terminate, allocate,
}
use habertest_backend.Cloudvisor.Manager.{with_type, try_allocate}
use habertest_backend.Cloudvisor.Manager.Tried.{ends_loop, outcome, Refused, try_allocate-first}

abbrev of_type : Option String → Result String String
of_type none = err "MissingParameter"
of_type (some type) =
    if type == "g4dn.2xlarge" then err "InsufficientInstanceCapacity" else ok "i-1"

abbrev answer : AwsCall → Result String String
answer (create_instance launch) = of_type launch.instance_type
answer (create_security_group allocation_id vpc tags) = ok "sg"
answer (authorize_ingress group rules) = ok ""
answer (terminate instance_id) = ok ""

abbrev aws : Aws
aws = record {
  answer = λ n c. answer c;
  groups = λ n filters. "sg" ∷ [];
  images = λ n filters. "ami" ∷ [];
  time = λ n. "0";
}

abbrev wrapper : Wrapper
wrapper = record { id = "cloud"; vpc = "vpc"; cidr_block = "10.0.0.0/16"; key_name = "key" }

abbrev vm : CloudRequest
vm = record {
  allocation_id = "a1";
  client_external_ip = "1.2.3.4";
  base_image = "ubuntu";
  instance_type = none;
  subnets = [];
  name = "automation";
  arch = "x86_64";
  json = λ type subnets. [];
  requestor = [];
}

abbrev after_first : List AwsCall
after_first = (with_type aws wrapper vm "subnet" "g4dn.2xlarge" []).1

no_capacity : Refused aws wrapper vm "subnet" ("g4dn.2xlarge" ∷ []) [] after_first
unfolding with_type allocate
no_capacity = (("InsufficientInstanceCapacity", refl), refl)

is_made : ends_loop (with_type aws wrapper vm "subnet" "g4dn.4xlarge" after_first).0 ≡ true
unfolding with_type allocate
is_made = refl

try_allocate-first_example :
    try_allocate aws wrapper vm "subnet" (("g4dn.2xlarge" ∷ []) ++ "g4dn.4xlarge" ∷ []) [] ≡ (
      outcome "g4dn.4xlarge" (with_type aws wrapper vm "subnet" "g4dn.4xlarge" after_first).0,
      (with_type aws wrapper vm "subnet" "g4dn.4xlarge" after_first).1,
    )
try_allocate-first_example =
    try_allocate-first aws wrapper vm "subnet" ("g4dn.2xlarge" ∷ []) [] "g4dn.4xlarge" []
      after_first no_capacity is_made
