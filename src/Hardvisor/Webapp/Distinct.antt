-- ===== src/Hardvisor/Webapp/Distinct.antt =====
-- One request never gets the same machine twice.
use habertest_backend.Base.{
  string_eq, true, ◌≡◌, ◌≢◌, refl, String, Option, some, List, [], ◌∷◌, All, sym, ap, ◌∙◌, Bool,
  false, none, arith, if◌then◌else◌, not,
}
use habertest_backend.Base.Dict.{lookup, insert, lookup-insert_self, lookup-insert_ne}
use habertest_backend.Base.Exec.{Result, ok, err, >>=-ok, pure, ◌>>◌}
use habertest_backend.Hardvisor.{
  Machine, Requirements, Inventory, Fault, allocate, has_status, reserved,
}
use habertest_backend.Hardvisor.Stock.{
  IsStock, reserves, finds_none, allocate-Allocates, IsOffer, IsStock-insert,
}
use habertest_backend.Hardvisor.Webapp.{
  allocate_all, found, fulfill, settle, Demand, allocated, parse_requirements, all_found,
  release_all, busy, Reply,
}

-- The machine was available in the stock.
abbrev pub WasAvailable : Inventory → Machine → Type 0
WasAvailable s m =
    (old : Machine) × (lookup m.name s ≡ some old) × (has_status "available" old ≡ true)

-- The stock holds the machine as it was handed out.
abbrev pub IsHandedOut : Inventory → Machine → Type 0
IsHandedOut s m = (lookup m.name s ≡ some m) × (m.status ≡ some "in_use")

abbrev pub Differs : Machine → Machine → Type 0
Differs m n = m.name ≢ n.name

-- No two machines have the same name.
abbrev pub AllDiffer : List Machine → Type 0
AllDiffer [] = Unit
AllDiffer (m ∷ ms) = All (Differs m) ms × AllDiffer ms

-- What gathered allocations leave of a stock `s`.
abbrev pub HandsOut : Inventory → Result Fault (List (Option Machine)) × Inventory → Type 0
HandsOut s (ok ms, t) =
    All (WasAvailable s) (found ms)
    × AllDiffer (found ms)
    × All (IsHandedOut t) (found ms)
    × ((name : String) → All (λ m. m.name ≢ name) (found ms) → lookup name t ≡ lookup name s)
HandsOut s (err e, t) = ⊥

All-map :
    {P Q : Machine → Type 0} (ms : List Machine) → ((m : Machine) → P m → Q m) → All P ms → All Q ms
All-map [] f h = tt
All-map (m ∷ ms) f h = (f m h.0, All-map ms f h.1)

module _ (reqs : Requirements) (s : Inventory) (m : Machine) (o : IsOffer reqs s m) where
  not_again : (n : Machine) → WasAvailable (insert m.name (reserved m reqs) s) n → m.name ≢ n.name
  unfolding has_status
  not_again n (old, stored, free) same = ground (
    arith,
    lookup-insert_self m.name (reserved m reqs) s,
    same,
    stored,
    free,
    ap has_status_available (lookup-insert_self m.name (reserved m reqs) s),
  )
    where
      has_status_available : Option Machine → Bool
      has_status_available none = false
      has_status_available (some x) = has_status "available" x

  HandsOut-reserves :
      (x : Result Fault (List (Option Machine)) × Inventory)
      → HandsOut (insert m.name (reserved m reqs) s) x
      → HandsOut s (elim x.0 as (λ _. Result Fault (List (Option Machine)) × Inventory) [
        | ok ms ↦ (ok (some (reserved m reqs) ∷ ms), x.1)
        | err e ↦ (err e, x.1)
      ])
  unfolding found
  HandsOut-reserves (ok ms, t) (was, differ, out, others) = (
    ((m, o.stored, o.available), All-map (found ms) before was),
    (All-map (found ms) not_again was, differ),
    (
      (
        others m.name (All-map (found ms) (λ n a p. not_again n a (sym p)) was)
            ∙ lookup-insert_self m.name (reserved m reqs) s,
        refl,
      ),
      out,
    ),
    λ name away. others name away.1 ∙ lookup-insert_ne m.name name (reserved m reqs) s away.0,
  )
    where
      before : (n : Machine) → WasAvailable (insert m.name (reserved m reqs) s) n → WasAvailable s n
      before n (old, stored, free) = (
        old,
        sym (lookup-insert_ne m.name n.name (reserved m reqs) s (not_again n (old, stored, free)))
            ∙ stored,
        free,
      )
  HandsOut-reserves (err e, t) h = elim h [ ]

HandsOut-none :
    (s : Inventory) (x : Result Fault (List (Option Machine)) × Inventory)
    → HandsOut s x
    → HandsOut s (elim x.0 as (λ _. Result Fault (List (Option Machine)) × Inventory) [
      | ok ms ↦ (ok (none ∷ ms), x.1)
      | err e ↦ (err e, x.1)
    ])
unfolding found
HandsOut-none s (ok ms, t) h = h
HandsOut-none s (err e, t) h = elim h [ ]

allocate_all-HandsOut :
    (demands : List Requirements) (s : Inventory) → IsStock s → HandsOut s (allocate_all demands s)
unfolding allocate_all found
allocate_all-HandsOut [] s h = (tt, tt, tt, λ name _. refl)
allocate_all-HandsOut (reqs ∷ demands) s h = elim (allocate-Allocates reqs s h) [
  | reserves m o out ↦ rw (>>=-ok (allocate reqs) _ s out) (
      HandsOut-reserves reqs s m o (allocate_all demands (insert m.name (reserved m reqs) s)) (
        allocate_all-HandsOut demands (insert m.name (reserved m reqs) s)
          (IsStock-insert (reserved m reqs) s h)))
  | finds_none no_offer out ↦
      rw (>>=-ok (allocate reqs) _ s out)
        (HandsOut-none s (allocate_all demands s) (allocate_all-HandsOut demands s h))
]

-- The machines in the reply to a request that succeeds are all different, each was available before,
-- and the stock now holds each as handed out; the other machines are as they were.
pub fulfill_distinct :
    (d : Demand) (s : Inventory) (ms : List Machine)
    → IsStock s
    → (fulfill d s).0 ≡ ok (allocated ms)
    → All (WasAvailable s) ms
      × AllDiffer ms
      × All (IsHandedOut (fulfill d s).1) ms
      × ((name : String)
          → All (λ m. m.name ≢ name) ms
          → lookup name (fulfill d s).1 ≡ lookup name s)
unfolding fulfill settle
fulfill_distinct d s ms h done =
    at_machines (allocate_all (parse_requirements d) s)
      (allocate_all-HandsOut (parse_requirements d) s h) done
  where
    Claim : Inventory → Type 0
    Claim t =
        All (WasAvailable s) ms
        × AllDiffer ms
        × All (IsHandedOut t) ms
        × ((name : String) → All (λ m. m.name ≢ name) ms → lookup name t ≡ lookup name s)

    at_settled :
        (results : List (Option Machine)) (t : Inventory) (b : Bool)
        → HandsOut s (ok results, t)
        → ((if not b
              then release_all (found results) >> pure busy
              else pure (allocated (found results)))
            t).0
          ≡ ok (allocated ms)
        → Claim
            ((if not b
                then release_all (found results) >> pure busy
                else pure (allocated (found results)))
              t).1
    at_settled results t true k done =
        let same : found results ≡ ms = ground (arith, done) in rw⁻¹ same k
    at_settled results t false k done = absurd (refused (release_all (found results) t) done)
      where
        refused :
            (x : Result Fault (Unit {0}) × Inventory)
            → (elim x.0 as (λ _. Result Fault Reply × Inventory) [
              | ok _ ↦ (ok busy, x.1)
              | err e ↦ (err e, x.1)
            ]).0
              ≢ ok (allocated ms)
        refused (ok _, t) e = ground (arith, e)
        refused (err _, t) e = ground (arith, e)

    at_machines :
        (x : Result Fault (List (Option Machine)) × Inventory)
        → HandsOut s x
        → (elim x.0 as (λ _. Result Fault Reply × Inventory) [
          | ok ms ↦ settle ms x.1
          | err e ↦ (err e, x.1)
        ]).0
          ≡ ok (allocated ms)
        → Claim
            (elim x.0 as (λ _. Result Fault Reply × Inventory) [
              | ok ms ↦ settle ms x.1
              | err e ↦ (err e, x.1)
            ]).1
    at_machines (ok results, t) k done = at_settled results t (all_found results) k done
    at_machines (err e, t) k done = elim k [ ]
