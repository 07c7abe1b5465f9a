-- ===== src/Cloudvisor/Tags/RoundTrip.antt =====
-- What the tags of an instance are read back as.
use Prim.Native.String.{◌++◌, slice}
use text.Mathlib.TextPositions.{slice-append_left}
use habertest_backend.Base.{
  string_eq, ◌≡◌, ◌≢◌, refl, sym, ap, ◌∙◌, Bool, true, false, String, some, List, [], ◌∷◌,
  ◌++◌ as append, All, ◌==◌, inl, inr, Bool-cases, Option, none,
}
use habertest_backend.Base.Dict.{Dict, insert, lookup, lookup-insert_ne, lookup-insert_self}
use habertest_backend.Cloudvisor.Tags.{
  dict_to_tags, tags_dict, tagged_as_automation, instance_tags, Tag, tags_into, requestor_tags, cut,
  cut_values,
}

requestor-ne-purpose : (k : String) → "requestor:" ++ k ≢ "purpose"
requestor-ne-purpose k e =
    let prefix : "requestor:" ≡ slice "purpose" 0 10 =
      sym (slice-append_left "requestor:" k) ∙ ap (λ (t : String). slice t 0 10) e in
    let absurd_test : ◌≡◌ {A = Bool} true false = ap (λ (t : String). t == "requestor:") prefix in
    cc

-- Tags that do not say `k` leave it as it is.
abbrev IsSilent : String → List Tag → Type 0
IsSilent k tags = All (λ tag. tag.key ≢ k) tags

lookup-tags_into :
    (k : String) (tags : List Tag) (d : Dict String String)
    → IsSilent k tags
    → lookup k (tags_into d tags) ≡ lookup k d
unfolding tags_into
lookup-tags_into k [] d h = refl
lookup-tags_into k (tag ∷ tags) d h =
    lookup-tags_into k tags (insert tag.key tag.value d) h.1
    ∙ lookup-insert_ne tag.key k tag.value d h.0

tags_into-append :
    (xs ys : List Tag) (d : Dict String String)
    → tags_into d (append xs ys) ≡ tags_into (tags_into d xs) ys
unfolding tags_into
tags_into-append [] ys d = refl
tags_into-append (tag ∷ xs) ys d = tags_into-append xs ys (insert tag.key tag.value d)

abbrev NoPurpose : Dict String String → Type 0
NoPurpose d = All (λ (entry : String × String). entry.0 ≢ "purpose") d

insert-NoPurpose :
    (k v : String) (d : Dict String String) → k ≢ "purpose" → NoPurpose d → NoPurpose (insert k v d)
unfolding insert
insert-NoPurpose k v [] hk h = (hk, tt)
insert-NoPurpose k v ((j, w) ∷ d) hk h = elim (Bool-cases (j == k)) [
  | inl same ↦ rw same h
  | inr other ↦ rw other (h.0, insert-NoPurpose k v d hk h.1)
]

requestor_tags-NoPurpose :
    (d requestor : Dict String String) → NoPurpose d → NoPurpose (requestor_tags d requestor)
unfolding requestor_tags
requestor_tags-NoPurpose d [] h = h
requestor_tags-NoPurpose d ((k, v) ∷ requestor) h =
    requestor_tags-NoPurpose (insert ("requestor:" ++ k) (cut v) d) requestor
      (insert-NoPurpose ("requestor:" ++ k) (cut v) d (requestor-ne-purpose k) h)

dict_to_tags-IsSilent : (d : Dict String String) → NoPurpose d → IsSilent "purpose" (dict_to_tags d)
unfolding dict_to_tags
dict_to_tags-IsSilent [] h = tt
dict_to_tags-IsSilent ((k, v) ∷ d) h = (h.0, dict_to_tags-IsSilent d h.1)

name-ne-purpose : ◌≢◌ {A = String} "Name" "purpose"
name-ne-purpose e = let e' : ◌≡◌ {A = Bool} true false = ap (λ (t : String). t == "Name") e in cc

id-ne-purpose : ◌≢◌ {A = String} "cloudvisor_id" "purpose"
id-ne-purpose e =
    let e' : ◌≡◌ {A = Bool} true false = ap (λ (t : String). t == "cloudvisor_id") e in cc

-- An instance that was created with `instance_tags` is tagged as automation, whatever the machine, the
-- name and the requestor are, so that `destroy` accepts it.
pub tagged_as_automation-instance_tags :
    (json : Dict String String) (name id : String) (requestor : Dict String String)
    → tagged_as_automation (instance_tags json name id requestor) ≡ true
unfolding tagged_as_automation tags_dict instance_tags tags_into
tagged_as_automation-instance_tags json name id requestor = ap is_automation found
  where
    is_automation : Option String → Bool
    is_automation o = elim o [ none ↦ false | some purpose ↦ purpose == "automation" ]

    after : Dict String String
    after = insert "Name" name (insert "purpose" "automation" (tags_into [] (cut_values json)))

    others : List Tag
    others = dict_to_tags (requestor_tags (("cloudvisor_id", id) ∷ []) requestor)

    found :
        lookup "purpose" (tags_into [] (instance_tags json name id requestor)) ≡ some "automation"
    found =
        ap (lookup "purpose") (tags_into-append (cut_values json) _ [])
        ∙ lookup-tags_into "purpose" others after (
            dict_to_tags-IsSilent (requestor_tags (("cloudvisor_id", id) ∷ []) requestor)
              (requestor_tags-NoPurpose (("cloudvisor_id", id) ∷ []) requestor (id-ne-purpose, tt)))
        ∙ lookup-insert_ne "Name" "purpose" name
            (insert "purpose" "automation" (tags_into [] (cut_values json))) name-ne-purpose
        ∙ lookup-insert_self "purpose" "automation" (tags_into [] (cut_values json))
