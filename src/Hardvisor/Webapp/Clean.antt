-- ===== src/Hardvisor/Webapp/Clean.antt =====
-- What the periodic cleaner makes of the stock.
use mathlib.Core.Path.{subst}
use habertest_backend.Base.{
  string_eq, Bool-cases, true, ◌≡◌, refl, String, Option, none, some, List, [], ◌∷◌, arith,
  if◌then◌else◌, inl, inr, sym, ap, ◌∙◌, eq_iff,
}
use habertest_backend.Base.Dict.{lookup, insert, values, lookup-insert}
use habertest_backend.Base.Exec.{Result, ok}
use habertest_backend.Hardvisor.{
  Machine, Inventory, Fault, is_reachable, release, update_resource, release_found,
}
use habertest_backend.Hardvisor.Stock.{IsStock, lookup_head, IsStock-tail}
use habertest_backend.Hardvisor.Webapp.{is_dangling, clean_all, clean_dangling}

-- The machine as the cleaner leaves it.
abbrev pub freed : List String → Machine → Machine
freed active m =
    if is_dangling active m then record m { allocation_id = none; status = some "available" } else m

-- What stands under a name when the machines of `d` have been cleaned out of `s`.
abbrev pub cleaned : List String → Inventory → Inventory → String → Option Machine
cleaned active d s name = elim (lookup name d) [
  | none ↦ lookup name s
  | some m ↦ some (freed active m)
]

release_dangling :
    (m : Machine) (s : Inventory)
    → lookup m.name s ≡ some m
    → is_reachable m ≡ true
    → release m.name s
      ≡ (ok tt, insert m.name (record m { allocation_id = none; status = some "available" }) s)
unfolding release release_found update_resource
release_dangling m s stored reachable = ground (arith, stored, reachable)

-- What the loop has done, at its end.
abbrev Cleans : List String → Inventory → Inventory → Result Fault (Unit {0}) × Inventory → Type 0
Cleans active d s (r, t) = (r ≡ ok tt) × ((name : String) → lookup name t ≡ cleaned active d s name)

module _ (active : List String) where
  clean_all-Cleans :
      (d s : Inventory)
      → IsStock d
      → ((name : String) (m : Machine)
          → lookup name d ≡ some m
          → (lookup name s ≡ some m) × (is_reachable m ≡ true))
      → Cleans active d s (clean_all active (values d) s)
  unfolding clean_all lookup
  clean_all-Cleans [] s h live = (refl, λ name. refl)
  clean_all-Cleans ((k, m) ∷ d) s h live = elim (Bool-cases (is_dangling active m)) [
    | inl dangling ↦
        let out : clean_all active (values ((k, m) ∷ d)) s
            ≡ clean_all active (values d) freed_stock =
          ground
            (arith, dangling, release_dangling m s own_stored (live k m (lookup_head k m d)).1) in
        let (done, eqs) =
          clean_all-Cleans d freed_stock (IsStock-tail h) (λ name b stored. still name b stored) in
        subst (Cleans active ((k, m) ∷ d) s) (sym out) (
          done,
          λ name.
              eqs name
              ∙ ground (
                arith,
                own,
                lookup-insert m.name name free s,
                eq_iff k name,
                h.distinct.0,
                dangling,
              ),
        )
    | inr kept ↦
        let out : clean_all active (values ((k, m) ∷ d)) s ≡ clean_all active (values d) s =
          ground (arith, kept) in
        let (done, eqs) =
          clean_all-Cleans d s (IsStock-tail h)
            (λ name b stored. live name b (whole name b stored)) in
        subst (Cleans active ((k, m) ∷ d) s) (sym out) (
          done,
          λ name.
              eqs name
              ∙ ground (arith, eq_iff k name, h.distinct.0, kept, live k m (lookup_head k m d)),
        )
  ]
    where
      own : m.name ≡ k
      own = h.named k m (lookup_head k m d)

      own_stored : lookup m.name s ≡ some m
      own_stored = ap (λ n. lookup n s) own ∙ (live k m (lookup_head k m d)).0

      free : Machine
      free = record m { allocation_id = none; status = some "available" }

      freed_stock : Inventory
      freed_stock = insert m.name free s

      whole :
          (name : String) (b : Machine) → lookup name d ≡ some b → lookup name ((k, m) ∷ d) ≡ some b
      whole name b stored = ground (arith, stored, h.distinct.0, eq_iff k name)

      still :
          (name : String) (b : Machine)
          → lookup name d ≡ some b
          → (lookup name freed_stock ≡ some b) × (is_reachable b ≡ true)
      still name b stored = (
        ground (
          arith,
          own,
          lookup-insert m.name name free s,
          (live name b (whole name b stored)).0,
          stored,
          h.distinct.0,
          eq_iff k name,
        ),
        (live name b (whole name b stored)).1,
      )

-- The cleaner frees exactly the machines in use whose allocation is not active, and leaves every
-- other machine as it is: provided that each machine has one way to log in.
pub clean_dangling-cleaned :
    (active : List String) (s : Inventory)
    → IsStock s
    → ((name : String) (m : Machine) → lookup name s ≡ some m → is_reachable m ≡ true)
    → Cleans active s s (clean_dangling active s)
unfolding clean_dangling
clean_dangling-cleaned active s h reachable =
    clean_all-Cleans active s s h (λ name m stored. (stored, reachable name m stored))
