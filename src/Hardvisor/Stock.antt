-- ===== src/Hardvisor/Stock.antt =====
-- What an allocation does to the stock.
use habertest_backend.Base.{
  string_eq, eq_iff, true, false, ◌≡◌, refl, String, Option, none, some, [], ◌∷◌, arith, ◌⊎◌, inr,
  Bool-cases, ◌==◌, beq_refl, ◌∙◌, inl,
}
use habertest_backend.Base.Dict.{lookup, insert, IsDict, lookup-insert, insert-IsDict}
use habertest_backend.Base.Exec.{Result, ok}
use habertest_backend.Hardvisor.{
  Machine, Requirements, Inventory, Fault, reserved, match_available, first_available,
  matching_machines, fulfills_reqs, has_status, update_resource, allocate, allocate_found,
  reserve_machine,
}

-- Every machine stands under its own name, once.
pub record IsStock (s : Inventory) : Type 0 where
  pub named : (name : String) (m : Machine) → lookup name s ≡ some m → m.name ≡ name
  pub distinct : IsDict s

-- A machine of the stock that meets the requirements and is available.
pub record IsOffer (reqs : Requirements) (s : Inventory) (m : Machine) : Type 0 where
  pub stored : lookup m.name s ≡ some m
  pub arch : reqs.arch ≡ m.arch
  pub available : has_status "available" m ≡ true

abbrev pub NoOffer : Requirements → Inventory → Type 0
NoOffer reqs s =
    (name : String) (m : Machine)
    → lookup name s ≡ some m
    → reqs.arch ≡ m.arch
    → has_status "available" m ≡ false

-- The two ends of an allocation.
pub data Allocates (reqs : Requirements) (s : Inventory)
    (out : Result Fault (Option Machine) × Inventory) : Type 0 where
  reserves :
      (m : Machine)
      → IsOffer reqs s m
      → out ≡ (ok (some (reserved m reqs)), insert m.name (reserved m reqs) s)
      → Allocates reqs s out
  finds_none : NoOffer reqs s → out ≡ (ok none, s) → Allocates reqs s out

pub lookup_head :
    (name : String) (m : Machine) (s : Inventory) → lookup name ((name, m) ∷ s) ≡ some m
unfolding lookup
lookup_head name m s = ground (arith, beq_refl name)

pub IsStock-tail :
    {name : String} {m : Machine} {s : Inventory} → IsStock ((name, m) ∷ s) → IsStock s
unfolding lookup
IsStock-tail {name} {m} {s} h = record {
  named = λ j b found. h.named j b (ground (arith, found, h.distinct.0, eq_iff name j));
  distinct = h.distinct.1;
}

module _ (reqs : Requirements) where
  match_available-cases :
      (s : Inventory)
      → IsStock s
      → ((m : Machine) × (match_available reqs s ≡ some m) × IsOffer reqs s m)
        ⊎ ((match_available reqs s ≡ none) × NoOffer reqs s)
  unfolding match_available first_available matching_machines fulfills_reqs lookup
  match_available-cases [] h = inr (refl, λ name m found. ground (arith, found))
  match_available-cases ((name, m) ∷ s) h = elim (Bool-cases (reqs.arch == m.arch)) [
    | inr other ↦
        later (ground (arith, other)) (λ same. ground (arith, other, same, beq_refl m.arch))
          (match_available-cases s (IsStock-tail h))
    | inl same ↦ elim (Bool-cases (has_status "available" m)) [
      | inl free ↦ inl (
        m,
        ground (arith, same, free),
        record {
          stored = ground (arith, h.named name m (lookup_head name m s), beq_refl name);
          arch = (eq_iff reqs.arch m.arch).0 same;
          available = free;
        },
      )
      | inr busy ↦
          later (ground (arith, same, busy)) (λ _. busy) (match_available-cases s (IsStock-tail h))
    ]
  ]
    where
      later :
          match_available reqs ((name, m) ∷ s) ≡ match_available reqs s
          → (reqs.arch ≡ m.arch → has_status "available" m ≡ false)
          → ((b : Machine) × (match_available reqs s ≡ some b) × IsOffer reqs s b)
            ⊎ ((match_available reqs s ≡ none) × NoOffer reqs s)
          → ((b : Machine) × (match_available reqs ((name, m) ∷ s) ≡ some b)
              × IsOffer reqs ((name, m) ∷ s) b)
            ⊎ ((match_available reqs ((name, m) ∷ s) ≡ none) × NoOffer reqs ((name, m) ∷ s))
      later skip out (inl (b, e, o)) = inl (
        b,
        skip ∙ e,
        record {
          stored = ground (arith, o.stored, h.distinct.0, eq_iff name b.name);
          arch = o.arch;
          available = o.available;
        },
      )
      later skip out (inr (e, no_offer)) = inr (
        skip ∙ e,
        λ j b found same. elim (Bool-cases (name == j)) [
          | inl here ↦ ground (arith, here, found, same, out)
          | inr there ↦ no_offer j b (ground (arith, there, found)) same
        ],
      )

  -- An allocation reserves a machine of the architecture that is asked for and that was available, and
  -- changes nothing else; it finds none only when there is none.
  pub allocate-Allocates : (s : Inventory) → IsStock s → Allocates reqs s (allocate reqs s)
  unfolding allocate allocate_found reserve_machine update_resource
  allocate-Allocates s h = elim (match_available-cases s h) [
    | inl (m, e, o) ↦ reserves m o (ground (arith, e))
    | inr (e, no_offer) ↦ finds_none no_offer (ground (arith, e))
  ]

pub IsStock-insert : (m : Machine) (s : Inventory) → IsStock s → IsStock (insert m.name m s)
IsStock-insert m s h = record {
  named =
      λ j b found. ground (arith, lookup-insert m.name j m s, found, eq_iff m.name j, h.named j b);
  distinct = insert-IsDict m.name m s h.distinct;
}
