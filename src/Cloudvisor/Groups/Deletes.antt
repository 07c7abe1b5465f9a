-- ===== src/Cloudvisor/Groups/Deletes.antt =====
-- Which security groups the clean-up deletes.
use habertest_backend.Base.{ℕ, ◌+◌, ◌≡◌, false, String, some, List, [], ◌∷◌, ◌⊎◌}
use habertest_backend.Base.Exec.{Result, ok, err}
use habertest_backend.Cloudvisor.Groups.{Clock, SecurityGroup, created}

abbrev pub Asked : String → List String → Type 0
Asked id [] = ⊥
Asked id (call ∷ calls) = (call ≡ id) ⊎ Asked id calls

module _ (clock : Clock) where
  -- The n-th group is old and lists no subresources.
  abbrev pub IsDangling : ℕ → SecurityGroup → Type 0
  IsDangling n group =
      (creation : clock.Float) × (created clock group ≡ some creation)
      × (clock.is_young n creation ≡ false)
      × (group.subresources ≡ [])

  -- Of the groups, numbered from `n` on, a dangling one has this id.
  abbrev pub SomeDangling : ℕ → List SecurityGroup → String → Type 0
  SomeDangling n [] id = ⊥
  SomeDangling n (group ∷ groups) id =
      (IsDangling n group × (group.group_id ≡ id)) ⊎ SomeDangling (n + 1) groups id

  -- For each group, its deletion was asked for or it is not dangling.
  abbrev pub AllAsked : ℕ → List SecurityGroup → List String → Type 0
  AllAsked n [] calls = Unit {0}
  AllAsked n (group ∷ groups) calls =
      (Asked group.group_id calls ⊎ ¬ IsDangling n group) × AllAsked (n + 1) groups calls

  -- What one look at a group comes to.
  data Looked (n : ℕ) (group : SecurityGroup) (calls : List String)
      (out : Result String (Unit {0}) × List String) : Type 0 where
    spared : ¬ IsDangling n group → out ≡ (ok tt, calls) → Looked n group calls out
    asked : IsDangling n group → out ≡ (ok tt, group.group_id ∷ calls) → Looked n group calls out
    broken :
        (e : String)
        → IsDangling n group
        → out ≡ (err e, group.group_id ∷ calls)
        → Looked n group calls out
    unread : (e : String) → out ≡ (err e, calls) → Looked n group calls out

  -- What a run of the loop promises, of the calls before it and after it.
  abbrev pub Deletes :
      ℕ → List SecurityGroup → List String → Result String (Unit {0}) × List String → Type 0
  Deletes n groups calls out =
      ((id : String) → Asked id out.1 → Asked id calls ⊎ SomeDangling n groups id)
      × ((id : String) → Asked id calls → Asked id out.1)
      × (((out.0 ≡ ok tt) × AllAsked n groups out.1) ⊎ ((e : String) × (out.0 ≡ err e)))
