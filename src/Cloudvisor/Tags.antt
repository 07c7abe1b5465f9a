-- ===== src/Cloudvisor/Tags.antt =====
-- Tags and filters (resource_managers/cloudvisor/ec2_wrapper.py).
pub mod Bounds
pub mod RoundTrip
use Prim.Native.Char.{code}
use Prim.Native.String.{◌++◌}
use habertest_backend.Base.{
  string_eq, ℕ, zero, suc, Bool, true, false, ◌&&◌, ◌||◌, String, Option, none, some, List, [], ◌∷◌,
  ◌++◌ as append, leb, nat_beq, ◌==◌,
}
use habertest_backend.Base.Dict.{Dict, insert, lookup}

pub record Tag : Type 0 where
  pub key : String
  pub value : String

-- One entry of `Filters`
pub record Filter : Type 0 where
  pub name : String
  pub values : List String

-- A value of a dict that becomes filters: one text, or a list of texts
pub data FilterValue : Type 0 where
  one : String → FilterValue
  several : List String → FilterValue

values_of : FilterValue → List String
values_of (one value) = value ∷ []
values_of (several values) = values

-- `dict_to_filter`
pub dict_to_filter : Dict String FilterValue → List Filter
unfolding values_of
dict_to_filter [] = []
dict_to_filter ((k, v) ∷ d) = record { name = k; values = values_of v } ∷ dict_to_filter d

-- `dict_to_tags`
unfoldable pub dict_to_tags : Dict String String → List Tag
dict_to_tags [] = []
dict_to_tags ((k, v) ∷ d) = record { key = k; value = v } ∷ dict_to_tags d

-- `_tags_dict`: of two tags with one key the later counts.
tags_into : Dict String String → List Tag → Dict String String
tags_into d [] = d
tags_into d (tag ∷ tags) = tags_into (insert tag.key tag.value d) tags

unfoldable pub tags_dict : List Tag → Dict String String
unfolding tags_into
tags_dict tags = tags_into [] tags

-- `_automation_filters`
pub automation_filters : List Filter
unfolding dict_to_filter
automation_filters = dict_to_filter (("tag:purpose", one "automation") ∷ [])

-- The filters of `list`, of `list_active`, of `find_image_by_version_tag` and of `_find_security_group`
pub list_filters : List Filter → List Filter
unfolding automation_filters
list_filters received = append automation_filters received

pub active_filters : List Filter
unfolding list_filters dict_to_filter
active_filters = append (list_filters []) (
    dict_to_filter
      (("instance-state-name", several ("pending" ∷ "running" ∷ "stopping" ∷ "stopped" ∷ [])) ∷ []))

pub image_filters : String → List Filter
unfolding list_filters dict_to_filter
image_filters version_tag =
    list_filters (dict_to_filter (("tag:infra_version", one version_tag) ∷ []))

pub security_group_filters : String → String → List Filter
security_group_filters vpc allocation_id =
    record { name = "vpc-id"; values = vpc ∷ [] }
    ∷ record { name = "group-name"; values = allocation_id ∷ [] }
    ∷ []

-- `_automation_tag`
abbrev pub automation_tag : Tag
automation_tag = record { key = "purpose"; value = "automation" }

-- `_tagged_as_automation`
unfoldable pub tagged_as_automation : List Tag → Bool
unfolding tags_dict
tagged_as_automation tags = elim (lookup "purpose" (tags_dict tags)) [
  | none ↦ false
  | some purpose ↦ purpose == "automation"
]

-- `_allocation_id_from_instance`
pub allocation_id_of : List Tag → Option String
unfolding tags_dict
allocation_id_of tags = lookup "allocation_id" (tags_dict tags)

-- `text[:n]`
take_text : ℕ → String → String
take_text zero text = ""
take_text (suc n) String.[] = ""
take_text (suc n) (String.◌∷◌ c text) = String.◌∷◌ c (take_text n text)

-- `text[:255]`
pub cut : String → String
unfolding take_text
cut text = take_text 255 text

cut_values : Dict String String → List Tag
unfolding cut
cut_values [] = []
cut_values ((k, v) ∷ d) = record { key = k; value = cut v } ∷ cut_values d

-- The dict with "cloudvisor_id" and, behind it, the `requestor:` entries, which may write over one another.
requestor_tags : Dict String String → Dict String String → Dict String String
unfolding cut
requestor_tags d [] = d
requestor_tags d ((k, v) ∷ requestor) =
    requestor_tags (insert ("requestor:" ++ k) (cut v) d) requestor

-- `_instance_tags`, from the items of `vm.json` as texts, the name of the instance, the id of the
-- cloudvisor and the requestor
pub instance_tags : Dict String String → String → String → Dict String String → List Tag
unfolding cut_values requestor_tags dict_to_tags
instance_tags json name id requestor = append (cut_values json) (
    automation_tag
    ∷ record { key = "Name"; value = name }
    ∷ dict_to_tags (requestor_tags (("cloudvisor_id", id) ∷ []) requestor))

-- `_default_tags`, with those of a security group
pub group_tags : String → String → List Tag
group_tags allocation_id creation =
    automation_tag
    ∷ record { key = "allocation_id"; value = allocation_id }
    ∷ record { key = "Name"; value = "automation_allocation_" ++ allocation_id }
    ∷ record { key = "creation"; value = creation }
    ∷ []

-- `main_cloudvisor`: the pattern, one test for each character
in_class : ℕ → Bool
in_class c = (leb b'0' c && leb c b'9') || (leb b'a' c && leb c b'z')

literal : String → List (ℕ → Bool)
literal String.[] = []
literal (String.◌∷◌ c cs) = (λ x. nat_beq x (code c)) ∷ literal cs

repeated : ℕ → List (ℕ → Bool)
unfolding in_class
repeated zero = []
repeated (suc n) = in_class ∷ repeated n

fullmatch : List (ℕ → Bool) → String → Bool
fullmatch [] String.[] = true
fullmatch [] (String.◌∷◌ c cs) = false
fullmatch (test ∷ tests) String.[] = false
fullmatch (test ∷ tests) (String.◌∷◌ c cs) = test (code c) && fullmatch tests cs

unfoldable pub main_cloudvisor : String → Bool
unfolding literal repeated fullmatch
main_cloudvisor id =
    fullmatch
      (append (literal "root-cloudvisor-")
        (append (repeated 9) (append (literal "-") (append (repeated 5) (literal "-cloudvisor")))))
      id
