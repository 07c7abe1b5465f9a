-- ===== src/Base/Counts.antt =====
-- How many items of a list pass a test. Two lists hold the same items, each as often, when every
-- test counts the same in both.
use habertest_backend.Base.Tests.{if◌then◌else◌, Bool-cases, Option-cases}
use habertest_backend.Base.Lists.{length, take, drop}
use habertest_backend.Base.Equality.{Eq, ◌==◌}
use Prim.Native.Nat.{ℕ, zero, suc, ◌+◌, ◌<◌}
use mathlib.Core.Path.{ap, sym, refl, ◌≡◌}
use mathlib.Core.Bool.{Bool, true, false, ◌||◌}
use mathlib.Core.Logic.{inl, inr}
use mathlib.Core.Option.{Option, none, some}
use mathlib.Core.List.{List, [], ◌∷◌, ◌++◌}
use native.Mathlib.Omega.{arith}

module _ {ℓ} {A : Type ℓ} (p : A → Bool) where
  abbrev pub count : List A → ℕ
  count [] = 0
  count (x ∷ xs) = (if p x then 1 else 0) + count xs

  pub count-append : (xs ys : List A) → count (xs ++ ys) ≡ count xs + count ys
  count-append [] ys = omega arith
  count-append (x ∷ xs) ys = omega (arith, count-append xs ys)

  pub count-take-drop : (n : ℕ) (xs : List A) → count (take n xs) + count (drop n xs) ≡ count xs
  count-take-drop zero xs = omega arith
  count-take-drop (suc n) [] = omega arith
  count-take-drop (suc n) (x ∷ xs) = omega (arith, count-take-drop n xs)

pub count_all {ℓ} : {A : Type ℓ} (xs : List A) → count (λ _. true) xs ≡ length xs
count_all [] = refl
count_all (x ∷ xs) = omega (arith, count_all xs)

abbrev pub SameItems {ℓ} : {A : Type ℓ} → List A → List A → Type ℓ
SameItems {A} xs ys = (p : A → Bool) → count p xs ≡ count p ys

module _ {ℓ} {A : Type ℓ} ⦃e : Eq A⦄ where
  -- `a in xs`
  abbrev pub contains : A → List A → Bool
  contains a [] = false
  contains a (x ∷ xs) = x == a || contains a xs

  -- `xs.remove(a)`: drops the first item that is equal to `a`, and raises (`none`) if there is none.
  unfoldable pub remove : A → List A → Option (List A)
  remove a [] = none
  remove a (x ∷ xs) =
      if x == a then some xs else elim (remove a xs) [ none ↦ none | some ys ↦ some (x ∷ ys) ]

  -- Removing an item takes one occurrence of it away, and nothing else.
  pub count-remove :
      (p : A → Bool) (a : A) (xs ys : List A)
      → remove a xs ≡ some ys
      → count p xs ≡ (if p a then 1 else 0) + count p ys
  unfolding remove
  count-remove p a [] ys h = cc
  count-remove p a (x ∷ xs) ys h = elim (Bool-cases (x == a)) [
    | inl same ↦ remove_here p a x xs ys same h
    | inr other ↦ remove_later p a x xs ys other h (count-remove p a xs)
  ]
    where
      remove_here :
          (p : A → Bool) (a x : A) (xs ys : List A)
          → (x == a) ≡ true
          → remove a (x ∷ xs) ≡ some ys
          → count p (x ∷ xs) ≡ (if p a then 1 else 0) + count p ys
      remove_here p a x xs ys same h = ground (arith, (e.beq_iff x a).0 same)

      remove_later :
          (p : A → Bool) (a x : A) (xs ys : List A)
          → (x == a) ≡ false
          → remove a (x ∷ xs) ≡ some ys
          → ((zs : List A)
              → remove a xs ≡ some zs
              → count p xs ≡ (if p a then 1 else 0) + count p zs)
          → count p (x ∷ xs) ≡ (if p a then 1 else 0) + count p ys
      remove_later p a x xs ys other h ih = elim (Option-cases (remove a xs)) [
        | inl missing ↦ ground arith
        | inr (zs, found) ↦ ground (arith, ih zs found)
      ]

  -- An item that occurs can be removed.
  pub remove_total :
      (a : A) (xs : List A) → contains a xs ≡ true → (ys : List A) × (remove a xs ≡ some ys)
  unfolding remove
  remove_total a [] h = cc
  remove_total a (x ∷ xs) h = elim (Bool-cases (x == a)) [
    | inl same ↦ (xs, rw same)
    | inr other ↦ let (ys, found) = remove_total a xs (ground arith) in (x ∷ ys, rw (other, found))
  ]

  pub remove-append_new :
      (a : A) (xs : List A) → contains a xs ≡ false → remove a (xs ++ a ∷ []) ≡ some xs
  unfolding remove
  remove-append_new a [] h = ground (arith, (e.beq_iff a a).1 refl)
  remove-append_new a (x ∷ xs) h = ground (arith, remove-append_new a xs)

  pub contains-append :
      (a : A) (xs ys : List A) → contains a (xs ++ ys) ≡ (contains a xs || contains a ys)
  contains-append a [] ys = refl
  contains-append a (x ∷ xs) ys = ground (arith, contains-append a xs ys)

  pub contains-remove :
      (x a : A) (xs ys : List A) → remove a xs ≡ some ys → contains x xs ≡ (a == x || contains x ys)
  unfolding remove
  contains-remove x a [] ys h = cc
  contains-remove x a (y ∷ xs) ys h = elim (Option-cases (remove a xs)) [
    | inl missing ↦ ground (arith, e.beq_iff y a, e.beq_iff a x, e.beq_iff y x)
    | inr (zs, found) ↦
        ground (arith, e.beq_iff y a, e.beq_iff a x, e.beq_iff y x, contains-remove x a xs zs found)
  ]

  pub contains_of_eq : (x a : A) (xs : List A) → (a == x) ≡ true → contains x xs ≡ contains a xs
  contains_of_eq x a xs h = ap (λ y. contains y xs) (sym ((e.beq_iff a x).0 h))

  pub count-contains : (a : A) (xs : List A) → 0 < count (λ x. x == a) xs → contains a xs ≡ true
  count-contains a [] h = absurd (omega arith)
  count-contains a (x ∷ xs) h = ground (arith, count-contains a xs)
