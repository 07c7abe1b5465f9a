-- ===== src/Cloudvisor/Tags/Bounds.antt =====
-- No tag value that is made of a text is longer than AWS allows, and tags read back as the dict that they
-- were made of.
use Prim.Native.String.{◌++◌}
use habertest_backend.Base.{
  string_eq, ℕ, zero, suc, ◌≤◌, String, [], ◌∷◌, All, All-append, arith, Bool-cases, ◌==◌, inl, inr,
}
use habertest_backend.Base.Dict.{Dict, insert}
use habertest_backend.Cloudvisor.Tags.{
  dict_to_tags, instance_tags, Tag, cut, cut_values, requestor_tags, take_text,
}

-- How many characters a text has.
abbrev pub length_of : String → ℕ
length_of String.[] = 0
length_of (String.◌∷◌ c text) = suc (length_of text)

abbrev pub IsShort : String → Type 0
IsShort text = length_of text ≤ 255

abbrev pub IsShortTag : Tag → Type 0
IsShortTag tag = IsShort tag.value

length_of-take_text-le : (n : ℕ) (text : String) → length_of (take_text n text) ≤ n
unfolding take_text
length_of-take_text-le zero text = omega arith
length_of-take_text-le (suc n) String.[] = omega arith
length_of-take_text-le (suc n) (String.◌∷◌ c text) = omega (arith, length_of-take_text-le n text)

cut-IsShort : (text : String) → IsShort (cut text)
unfolding cut
cut-IsShort text = length_of-take_text-le 255 text

cut_values-IsShort : (d : Dict String String) → All IsShortTag (cut_values d)
unfolding cut_values
cut_values-IsShort [] = tt
cut_values-IsShort ((k, v) ∷ d) = (cut-IsShort v, cut_values-IsShort d)

abbrev AllShort : Dict String String → Type 0
AllShort d = All (λ (entry : String × String). IsShort entry.1) d

insert-AllShort :
    (k v : String) (d : Dict String String) → IsShort v → AllShort d → AllShort (insert k v d)
unfolding insert
insert-AllShort k v [] hv h = (hv, tt)
insert-AllShort k v ((j, w) ∷ d) hv h = elim (Bool-cases (j == k)) [
  | inl same ↦ rw same (hv, h.1)
  | inr other ↦ rw other (h.0, insert-AllShort k v d hv h.1)
]

requestor_tags-AllShort :
    (d requestor : Dict String String) → AllShort d → AllShort (requestor_tags d requestor)
unfolding requestor_tags
requestor_tags-AllShort d [] h = h
requestor_tags-AllShort d ((k, v) ∷ requestor) h =
    requestor_tags-AllShort (insert ("requestor:" ++ k) (cut v) d) requestor
      (insert-AllShort ("requestor:" ++ k) (cut v) d (cut-IsShort v) h)

dict_to_tags-IsShort : (d : Dict String String) → AllShort d → All IsShortTag (dict_to_tags d)
unfolding dict_to_tags
dict_to_tags-IsShort [] h = tt
dict_to_tags-IsShort ((k, v) ∷ d) h = (h.0, dict_to_tags-IsShort d h.1)

-- Each tag of an instance has a value of 255 characters at most, whatever the machine and the requestor
-- hold, if the name of the instance and the id of the cloudvisor have.
pub instance_tags-IsShort :
    (json : Dict String String) (name id : String) (requestor : Dict String String)
    → IsShort name
    → IsShort id
    → All IsShortTag (instance_tags json name id requestor)
unfolding instance_tags
instance_tags-IsShort json name id requestor short_name short_id =
    All-append IsShortTag (cut_values json) _ (cut_values-IsShort json) (
      omega arith,
      (
        short_name,
        dict_to_tags-IsShort (requestor_tags (("cloudvisor_id", id) ∷ []) requestor)
            (requestor_tags-AllShort (("cloudvisor_id", id) ∷ []) requestor (short_id, tt)),
      ),
    )
