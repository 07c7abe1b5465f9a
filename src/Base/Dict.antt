-- ===== src/Base/Dict.antt =====
-- A Python dict in insertion order: an association list with distinct keys.
use habertest_backend.Base.Tests.{if◌then◌else◌}
use habertest_backend.Base.Equality.{Eq, ◌==◌, beq_refl}
use Prim.Native.Nat.{ℕ, ◌+◌, ◌≤◌, ◌<◌}
use habertest_backend.Base.Lists.{length}
use habertest_backend.Base.Counts.{count}
use mathlib.Core.Path.{◌≡◌, refl}
use mathlib.Core.Logic.{◌≢◌}
use mathlib.Core.Bool.{Bool, true, false}
use mathlib.Core.Option.{Option, none, some}
use mathlib.Core.List.{List, [], ◌∷◌}
use native.Mathlib.Omega.{arith}

abbrev pub Dict {ℓ κ} : Type ℓ → Type κ → Type (ℓ ⊔ κ)
Dict K V = List (K × V)

module _ {ℓ κ} {K : Type ℓ} {V : Type κ} where
  abbrev pub keys : Dict K V → List K
  keys [] = []
  keys ((k, v) ∷ d) = k ∷ keys d

  abbrev pub values : Dict K V → List V
  values [] = []
  values ((k, v) ∷ d) = v ∷ values d

module _ {ℓ κ} {K : Type ℓ} {V : Type κ} ⦃e : Eq K⦄ where
  -- `d.get(k)`
  unfoldable pub lookup : K → Dict K V → Option V
  lookup k [] = none
  lookup k ((j, v) ∷ d) = if j == k then some v else lookup k d

  -- `k in d`
  abbrev pub has_key : K → Dict K V → Bool
  has_key k d = elim (lookup k d) [ none ↦ false | some _ ↦ true ]

  -- `d[k] = v`: a key that is there keeps its place.
  unfoldable pub insert : K → V → Dict K V → Dict K V
  insert k v [] = (k, v) ∷ []
  insert k v ((j, w) ∷ d) = if j == k then (j, v) ∷ d else (j, w) ∷ insert k v d

  -- `d.pop(k, None)`
  unfoldable pub erase : K → Dict K V → Dict K V
  erase k [] = []
  erase k ((j, w) ∷ d) = let rest = erase k d in if j == k then rest else (j, w) ∷ rest

  pub lookup-insert :
      (k j : K) (v : V) (d : Dict K V)
      → lookup j (insert k v d) ≡ (if k == j then some v else lookup j d)
  unfolding lookup insert
  lookup-insert k j v [] = refl
  lookup-insert k j v ((i, w) ∷ d) =
      ground (arith, e.beq_iff k j, e.beq_iff i k, e.beq_iff i j, lookup-insert k j v d)

  pub lookup-erase :
      (k j : K) (d : Dict K V) → lookup j (erase k d) ≡ (if k == j then none else lookup j d)
  unfolding lookup erase
  lookup-erase k j [] = ground arith
  lookup-erase k j ((i, w) ∷ d) =
      ground (arith, e.beq_iff k j, e.beq_iff i k, e.beq_iff i j, lookup-erase k j d)

  pub lookup-insert_self : (k : K) (v : V) (d : Dict K V) → lookup k (insert k v d) ≡ some v
  lookup-insert_self k v d = ground (arith, lookup-insert k k v d, beq_refl k)

  pub lookup-erase_self : (k : K) (d : Dict K V) → lookup k (erase k d) ≡ none
  lookup-erase_self k d = ground (arith, lookup-erase k k d, beq_refl k)

  pub lookup-insert_ne :
      (k j : K) (v : V) (d : Dict K V) → k ≢ j → lookup j (insert k v d) ≡ lookup j d
  lookup-insert_ne k j v d h = ground (arith, lookup-insert k j v d, e.beq_iff k j)

  pub lookup-erase_ne : (k j : K) (d : Dict K V) → k ≢ j → lookup j (erase k d) ≡ lookup j d
  lookup-erase_ne k j d h = ground (arith, lookup-erase k j d, e.beq_iff k j)

  -- No key is listed twice.
  abbrev pub IsDict : Dict K V → Type 0
  IsDict [] = Unit
  IsDict ((k, v) ∷ d) = (has_key k d ≡ false) × IsDict d

  pub insert-IsDict : (k : K) (v : V) (d : Dict K V) → IsDict d → IsDict (insert k v d)
  unfolding insert lookup
  insert-IsDict k v [] h = (refl, tt)
  insert-IsDict k v ((j, w) ∷ d) h =
      ground (arith, e.beq_iff j k, lookup-insert k j v d, e.beq_iff k j, insert-IsDict k v d h.1)

  pub erase-IsDict : (k : K) (d : Dict K V) → IsDict d → IsDict (erase k d)
  unfolding erase
  erase-IsDict k [] h = tt
  erase-IsDict k ((j, w) ∷ d) h = ground (arith, lookup-erase k j d, erase-IsDict k d h.1)

  pub erase_absent : (k : K) (d : Dict K V) → lookup k d ≡ none → erase k d ≡ d
  unfolding lookup erase
  erase_absent k [] h = refl
  erase_absent k ((j, w) ∷ d) h = ground (arith, erase_absent k d)

  -- A new key adds one entry, at the end.
  pub count-values-insert_new :
      (p : V → Bool) (k : K) (v : V) (d : Dict K V)
      → lookup k d ≡ none
      → count p (values (insert k v d)) ≡ count p (values d) + (if p v then 1 else 0)
  unfolding lookup insert
  count-values-insert_new p k v [] h = omega arith
  count-values-insert_new p k v ((j, w) ∷ d) h = ground (arith, count-values-insert_new p k v d)

  -- A sum over the values of a dict follows the updates.
  abbrev pub total : (V → ℕ) → Dict K V → ℕ
  total w [] = 0
  total w ((k, v) ∷ d) = w v + total w d

  pub total-insert_new :
      (w : V → ℕ) (k : K) (v : V) (d : Dict K V)
      → lookup k d ≡ none
      → total w (insert k v d) ≡ total w d + w v
  unfolding lookup insert
  total-insert_new w k v [] h = omega arith
  total-insert_new w k v ((j, u) ∷ d) h = ground (arith, total-insert_new w k v d)

  pub total-insert :
      (w : V → ℕ) (k : K) (v old : V) (d : Dict K V)
      → lookup k d ≡ some old
      → total w (insert k v d) + w old ≡ total w d + w v
  unfolding lookup insert
  total-insert w k v old [] h = cc
  total-insert w k v old ((j, u) ∷ d) h = ground (arith, total-insert w k v old d)

  pub total-erase :
      (w : V → ℕ) (k : K) (v : V) (d : Dict K V)
      → IsDict d
      → lookup k d ≡ some v
      → total w (erase k d) + w v ≡ total w d
  unfolding lookup erase
  total-erase w k v [] h f = cc
  total-erase w k v ((j, u) ∷ d) h f =
      ground (arith, e.beq_iff j k, erase_absent k d, total-erase w k v d h.1)

module _ {ℓ κ} {K : Type ℓ} {V : Type κ} ⦃e : Eq K⦄ where
  pub has_key_of_lookup : (k : K) (v : V) (d : Dict K V) → lookup k d ≡ some v → has_key k d ≡ true
  has_key_of_lookup k v d h = ground (arith, h)

  pub length-insert_new :
      (k : K) (v : V) (d : Dict K V) → lookup k d ≡ none → length (insert k v d) ≡ length d + 1
  unfolding lookup insert
  length-insert_new k v [] h = omega arith
  length-insert_new k v ((j, w) ∷ d) h = ground (arith, length-insert_new k v d)

  pub length-insert :
      (k : K) (v old : V) (d : Dict K V) → lookup k d ≡ some old → length (insert k v d) ≡ length d
  unfolding lookup insert
  length-insert k v old [] h = cc
  length-insert k v old ((j, w) ∷ d) h = ground (arith, length-insert k v old d)

  pub erase-insert : (k : K) (v : V) (d : Dict K V) → erase k (insert k v d) ≡ erase k d
  unfolding insert erase
  erase-insert k v [] = ground (arith, beq_refl k)
  erase-insert k v ((j, w) ∷ d) = ground (arith, erase-insert k v d)

  pub has_key-erase_ne : (k j : K) (d : Dict K V) → k ≢ j → has_key j (erase k d) ≡ has_key j d
  has_key-erase_ne k j d h = ground (arith, lookup-erase_ne k j d h)

  length-erase-le : (k : K) (d : Dict K V) → length (erase k d) ≤ length d
  unfolding erase
  length-erase-le k [] = omega arith
  length-erase-le k ((j, w) ∷ d) = ground (arith, length-erase-le k d)

  pub length-erase-lt : (k : K) (d : Dict K V) → has_key k d ≡ true → length (erase k d) < length d
  unfolding erase lookup
  length-erase-lt k [] h = cc
  length-erase-lt k ((j, w) ∷ d) h = ground (arith, length-erase-lt k d, length-erase-le k d)
