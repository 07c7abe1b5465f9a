-- ===== src/Cloudvisor/Groups.antt =====
-- `delete_dangling_security_groups` (resource_managers/cloudvisor/ec2_wrapper.py), which deletes the old
-- groups of the cloud manager.
pub mod Deletes
use habertest_backend.Base.{
  string_eq, ℕ, ◌+◌, Bool, String, Option, none, some, List, [], ◌∷◌, if◌then◌else◌,
}
use habertest_backend.Base.Dict.{lookup}
use habertest_backend.Base.Exec.{Result, ok, err, Exec, ◌>>=◌, pure, raise}
use habertest_backend.Cloudvisor.Tags.{tags_dict, Tag}

-- What AWS makes of a deletion: it is done, refused with a `ClientError`, or fails otherwise.
pub data Deletion : Type 0 where
  deleted client_error : Deletion
  other_error : String → Deletion

-- A group with its tags, the names that `get_available_subresources` lists after the reload, and what comes
-- of its deletion.
pub record SecurityGroup : Type 0 where
  pub group_id : String
  pub tags : List Tag
  pub subresources : List String
  pub deletion : Deletion

-- The calls of `security_group.delete()`, the last one first.
abbrev pub GroupStep : Type 0 → Type 0
GroupStep A = Exec String (List String) A

-- Python's floats: how a text is read, the number 0, and whether `time.time() - x < 5 * 60` at the time when
-- the n-th group is looked at.
pub record Clock : Type 1 where
  pub Float : Type 0
  pub float : String → Option Float
  pub zero_float : Float
  pub is_young : ℕ → Float → Bool

module _ (clock : Clock) where
  -- `float(tags.get('creation', 0))`; `none` is a `ValueError`.
  unfoldable pub created : SecurityGroup → Option clock.Float
  unfolding tags_dict
  created group = elim (lookup "creation" (tags_dict group.tags)) [
    | none ↦ some clock.zero_float
    | some text ↦ clock.float text
  ]

  -- `except ClientError`, whose handler only logs
  unless_refused : Deletion → Result String (Unit {0})
  unless_refused deleted = ok tt
  unless_refused client_error = ok tt
  unless_refused (other_error e) = err e

  -- `security_group.delete()`
  delete_group : SecurityGroup → GroupStep (Unit {0})
  unfolding unless_refused
  delete_group group calls = (unless_refused group.deletion, group.group_id ∷ calls)

  -- `if not security_group.get_available_subresources()`
  delete_if_none : SecurityGroup → List String → GroupStep (Unit {0})
  unfolding delete_group
  delete_if_none group [] = delete_group group
  delete_if_none group (name ∷ names) = pure tt

  judge_group : ℕ → SecurityGroup → clock.Float → GroupStep (Unit {0})
  unfolding delete_if_none
  judge_group n group creation =
      if clock.is_young n creation then pure tt else delete_if_none group group.subresources

  delete_if_dangling : ℕ → SecurityGroup → GroupStep (Unit {0})
  unfolding created judge_group
  delete_if_dangling n group = elim (created group) [
    | none ↦ raise "could not convert string to float"
    | some creation ↦ judge_group n group creation
  ]

  -- The loop, from the n-th group on
  delete_from : ℕ → List SecurityGroup → GroupStep (Unit {0})
  unfolding delete_if_dangling
  delete_from n [] = pure tt
  delete_from n (group ∷ groups) = delete_if_dangling n group >>= λ done. delete_from (n + 1) groups

  unfoldable pub delete_dangling_security_groups : List SecurityGroup → GroupStep (Unit {0})
  unfolding delete_from
  delete_dangling_security_groups groups = delete_from 0 groups
