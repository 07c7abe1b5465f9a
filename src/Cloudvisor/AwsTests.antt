-- ===== src/Cloudvisor/AwsTests.antt =====
-- The wrapper of AWS at small inputs.
use habertest_backend.Base.{
  ltb, ◌+◌, ◌*◌, string_eq, ℕ, true, false, String, Option, none, some, List, [], ◌∷◌, ◌≡◌, refl,
  All, arith, length, if◌then◌else◌, nat_beq, ◌==◌,
}
use habertest_backend.Base.Dict.{lookup, insert}
use habertest_backend.Base.Exec.{ok, err}
use habertest_backend.Cloudvisor.Tags.{automation_tag, main_cloudvisor, instance_tags}
use habertest_backend.Cloudvisor.Tags.Bounds.{IsShortTag, instance_tags-IsShort}
use habertest_backend.Cloudvisor.Ec2.{
  Aws, Wrapper, Instance, destroy, ours, terminations, attribute_error, destroy-ours,
}
use habertest_backend.Cloudvisor.Groups.{
  Clock, SecurityGroup, delete_dangling_security_groups, deleted, created,
}
use habertest_backend.Cloudvisor.Groups.Deletes.{Deletes}

is_main : main_cloudvisor "root-cloudvisor-0123456ab-abcde-cloudvisor" ≡ true
unfolding main_cloudvisor
is_main = refl

is_not_main : main_cloudvisor "root-cloudvisor-0123456AB-abcde-cloudvisor" ≡ false
unfolding main_cloudvisor
is_not_main = refl

instance_tags-IsShort_example :
    All IsShortTag
      (instance_tags (("user", "ubuntu") ∷ []) "automation" "cloud" (("host", "10.0.0.9") ∷ []))
instance_tags-IsShort_example =
    instance_tags-IsShort (("user", "ubuntu") ∷ []) "automation" "cloud" (("host", "10.0.0.9") ∷ [])
      (omega arith) (omega arith)

abbrev willing : Aws
willing = record {
  answer = λ n c. ok "i-2";
  groups = λ n filters. [];
  images = λ n filters. [];
  time = λ n. "0";
}

abbrev wrapper : Wrapper
wrapper = record { id = "cloud"; vpc = "vpc"; cidr_block = "10.0.0.0/16"; key_name = "key" }

abbrev instances : List Instance
instances =
    record { instance_id = "i-1"; tags = automation_tag ∷ [] }
    ∷ record { instance_id = "i-2"; tags = [] }
    ∷ record { instance_id = "i-3"; tags = automation_tag ∷ [] }
    ∷ []

destroy-ours_example :
    ((destroy willing wrapper instances []).1
      ≡ terminations willing wrapper (ours willing wrapper instances) [])
    × ((destroy willing wrapper instances []).0 ≡ (
        if nat_beq (length (ours willing wrapper instances)) (length instances)
        then ok tt
        else err attribute_error))
destroy-ours_example = destroy-ours willing wrapper instances [] (λ n id. ("i-2", refl))

-- A text stands for its number of seconds, and the time is 1000.
abbrev float : String → Option ℕ
float text = if text == "900" then some 900 else none

abbrev clock : Clock
clock = record {
  Float = ℕ;
  float = float;
  zero_float = 0;
  is_young = λ n creation. ltb 1000 (creation + 5 * 60);
}

abbrev groups : List SecurityGroup
groups =
    record { group_id = "old"; tags = []; subresources = []; deletion = deleted }
    ∷ record {
      group_id = "young";
      tags = record { key = "creation"; value = "900" } ∷ [];
      subresources = [];
      deletion = deleted;
    }
    ∷ record {
      group_id = "unread";
      tags = record { key = "creation"; value = "yesterday" } ∷ [];
      subresources = [];
      deletion = deleted;
    }
    ∷ []

test_groups :
    delete_dangling_security_groups clock groups []
    ≡ (err "could not convert string to float", "old" ∷ [])
unfolding delete_dangling_security_groups created lookup insert
test_groups = refl
