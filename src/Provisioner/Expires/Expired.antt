-- ===== src/Provisioner/Expires/Expired.antt =====
-- What a pass does to a success that has expired.
use habertest_backend.Base.{
  string_eq, String, ◌≡◌, ◌≢◌, none, some, Option, [], ◌∷◌, ◌⊎◌, inr, All, ◌≤◌, refl, inl, arith,
  eq_iff, Bool-cases, ◌==◌, ap,
}
use habertest_backend.Base.Exec.{Result, ok, err, ◌>>=◌, pure, lift}
use habertest_backend.Base.Dict.{lookup-insert_self, lookup-erase_self, Dict, lookup, IsDict}
use habertest_backend.Provisioner.Store.{
  put_allocation, Allocation, Redis, Fault, Handler, deallocating, error_deallocating, is_tracked,
  success, delete_allocation,
}
use habertest_backend.Provisioner.Expires.Live.{
  All-lookup, Holds-continue, Holds-Touches, Touches-finish_one, Holds, IsQuiet, Kept,
  Touches-expire_one, Holds-finish, Kept-collect,
}
use habertest_backend.Provisioner.Expires.{
  Task, add_task, deallocate_task, expire_one, expire_pass, finish_one, finish, Pass, pass_body,
  judge, collect, holds_machines,
}
use habertest_backend.Provisioner.Store.Laws.{IsKeyed, update_status-some, Touches-put}

-- What the two loops leave of an allocation whose task ends so.
abbrev pub settled : Allocation → Task → Option Allocation
settled a (ok _) = none
settled a (err _) = some (record a { status = error_deallocating })

finish_one_self :
    (id : String) (a : Allocation) (res : Task) (r : Redis)
    → Holds id (some (record a { status = deallocating })) r
    → Holds id (settled a res) (finish_one id res r).1
unfolding finish_one delete_allocation put_allocation
finish_one_self id a (ok y) r h = record {
  keyed = ((Touches-finish_one id (ok y)).at r h.keyed).keyed;
  stored = lookup-erase_self id r.allocations;
}
finish_one_self id a (err e) r h = record {
  keyed = ((Touches-finish_one id (err e)).at r h.keyed).keyed;
  stored = ground (
    arith,
    update_status-some id (λ a. record a { status = error_deallocating }) r
        (record a { status = deallocating }) h.stored,
    h.keyed id (record a { status = deallocating }) h.stored,
    lookup-insert_self id (record a { status = error_deallocating }) r.allocations,
  );
}

module _ (id : String) (a : Allocation) (res : Task) where
  -- The tasks name `id` once, with the result `res`.
  abbrev Once : Dict String Task → Type 0
  Once [] = ⊥
  Once ((j, t) ∷ tasks) =
      ((j ≡ id) × (t ≡ res) × (lookup id tasks ≡ none)) ⊎ ((j ≢ id) × Once tasks)

  -- What the first loop leads to, if it does not raise.
  abbrev Started : Result Fault (Dict String Task) × Redis → Type 0
  Started (ok tasks, s) = Holds id (some (record a { status = deallocating })) s × Once tasks
  Started (err e, s) = Unit

  Started-continue :
      (j : String) (rest : Handler (Dict String Task)) (x : Result Fault (Option Task)) (s : Redis)
      → j ≢ id
      → Started (rest s)
      → Started ((lift x >>= (λ o. rest >>= (λ ts. pure (add_task j o ts)))) s)
  unfolding add_task
  Started-continue j rest (ok o) s ne k = Started-add o (rest s) k
    where
      Started-add :
          (o : Option Task) (x : Result Fault (Dict String Task) × Redis)
          → Started x
          → Started (elim x.0 as (λ _. Result Fault (Dict String Task) × Redis) [
            | ok ts ↦ (ok (add_task j o ts), x.1)
            | err e ↦ (err e, x.1)
          ])
      Started-add none (ok ts, s) k = k
      Started-add (some t) (ok ts, s) k = (k.0, inr (ne, k.1))
      Started-add o (err e, s) k = tt
  Started-continue j rest (err e) s ne k = tt

  Started-first :
      (j : String) (rest : Handler (Dict String Task)) (x : Result Fault (Option Task)) (s : Redis)
      → j ≡ id
      → x ≡ ok (some res)
      → Kept id (some (record a { status = deallocating })) (rest s)
      → Started ((lift x >>= (λ o. rest >>= (λ ts. pure (add_task j o ts)))) s)
  unfolding add_task
  Started-first j rest x s p e k = rw e (with_tasks (rest s) k)
    where
      with_tasks :
          (x : Result Fault (Dict String Task) × Redis)
          → Kept id (some (record a { status = deallocating })) x
          → Started (elim x.0 as (λ _. Result Fault (Dict String Task) × Redis) [
            | ok ts ↦ (ok (add_task j (some res) ts), x.1)
            | err e ↦ (err e, x.1)
          ])
      with_tasks (ok ts, s) k = (k.0, inl (p, refl, k.1))
      with_tasks (err e, s) k = tt

  Holds-past :
      (tasks : Dict String Task) (x : Result Fault (Unit {0})) (s : Redis)
      → ((finish tasks s).0 ≡ ok tt → Holds id (settled a res) (finish tasks s).1)
      → (elim x as (λ _. Result Fault (Unit {0}) × Redis) [
        | ok y ↦ finish tasks s
        | err e ↦ (err e, s)
      ]).0
        ≡ ok tt
      → Holds id
          (settled a res)
          (elim x as (λ _. Result Fault (Unit {0}) × Redis) [
            | ok y ↦ finish tasks s
            | err e ↦ (err e, s)
          ]).1
  Holds-past tasks (ok y) s k d = k d
  Holds-past tasks (err e) s k d = ground (arith, d)

  Holds-settled :
      (tasks : Dict String Task) (r : Redis)
      → Once tasks
      → Holds id (some (record a { status = deallocating })) r
      → (finish tasks r).0 ≡ ok tt
      → Holds id (settled a res) (finish tasks r).1
  unfolding finish
  Holds-settled [] r once h done = elim once [ ]
  Holds-settled ((j, t) ∷ tasks) r (inl (p, q, out)) h done =
      let kept : Holds id (settled a res) (finish_one j t r).1 =
        rw (p, q) (finish_one_self id a res r h) in
      Holds-continue (λ _. finish tasks) (finish_one j t r).0 (finish_one j t r).1
        (λ _. Holds-finish tasks (finish_one j t r).1 out kept) kept
  Holds-settled ((j, t) ∷ tasks) r (inr (ne, once)) h done =
      Holds-past tasks (finish_one j t r).0 (finish_one j t r).1
        (λ d.
          Holds-settled tasks (finish_one j t r).1 once
            (Holds-Touches j (finish_one j t) r (Touches-finish_one j t) ne h) d)
        done

IsQuiet-of_absent :
    (w : Pass) (id : String) (d : Dict String Allocation)
    → All (λ p. p.1.allocation_id ≡ p.0) d
    → lookup id d ≡ none
    → All (IsQuiet w id) d
unfolding lookup
IsQuiet-of_absent w id [] own out = tt
IsQuiet-of_absent w id ((j, b) ∷ d) own out = (
  (own.0, λ p r. ground (arith, p, out, eq_iff j id)),
  IsQuiet-of_absent w id d own.1 (ground (arith, out)),
)

module _ (w : Pass) (id : String) (a : Allocation) (s : a.status ≡ success)
    (own : a.allocation_id ≡ id) (late : a.expiration ≤ w.judged_at id) where
  expire_one_late :
      (r : Redis)
      → expire_one w id a r ≡ (
        ok (some (deallocate_task w (record a { status = deallocating }))),
        (put_allocation id (record a { status = deallocating }) r).1,
      )
  unfolding expire_one judge put_allocation is_tracked holds_machines
  expire_one_late r = ground (arith, s, own, late)

  abbrev started : Task
  started = deallocate_task w (record a { status = deallocating })

  put_Holds :
      (r : Redis)
      → Holds id (some a) r
      → Holds id
          (some (record a { status = deallocating }))
          (put_allocation id (record a { status = deallocating }) r).1
  unfolding put_allocation
  put_Holds r h = record {
    keyed = ((Touches-put id (record a { status = deallocating }) refl own).at r h.keyed).keyed;
    stored = lookup-insert_self id (record a { status = deallocating }) r.allocations;
  }

  Started-collect :
      (d : Dict String Allocation) (r : Redis)
      → All (λ p. p.1.allocation_id ≡ p.0) d
      → IsDict d
      → lookup id d ≡ some a
      → Holds id (some a) r
      → Started id a (deallocate_task w (record a { status = deallocating })) (collect w d r)
  unfolding collect lookup
  Started-collect [] r owned distinct found h = ground (arith, found)
  Started-collect ((j, b) ∷ d) r owned distinct found h = elim (Bool-cases (j == id)) [
    | inl e ↦
        let p = (eq_iff j id).0 e in
        let out : expire_one w j b r
            ≡ (ok (some started), (put_allocation id (record a { status = deallocating }) r).1) =
          rw (p, same p) (expire_one_late r) in
        Started-first id a started j (collect w d) (expire_one w j b r).0 (expire_one w j b r).1 p
          (ap (λ x. x.0) out)
          (Kept-collect w id (some (record a { status = deallocating })) d (expire_one w j b r).1
            (IsQuiet-of_absent w id d owned.1 (ground (arith, distinct.0, p)))
            (rw out (put_Holds r h)))
    | inr e ↦
        let ne : j ≢ id = ground (arith, e, eq_iff j id) in
        Started-continue id a started j (collect w d) (expire_one w j b r).0 (expire_one w j b r).1
          ne
          (Started-collect d (expire_one w j b r).1 owned.1 distinct.1 (ground (arith, found, e))
            (Holds-Touches j (expire_one w j b) r (Touches-expire_one w j b owned.0) ne h))
  ]
    where
      same : j ≡ id → b ≡ a
      same p = ground (arith, p, found, eq_iff j id)

-- A success that has expired is deallocated: when a pass over the database ends without an
-- exception, the allocation is gone if every manager deallocated its machine, and it stands as
-- `error_deallocating` if one did not, or if no machines were stored for it.
pub expire_pass_late :
    (w : Pass) (id : String) (a : Allocation) (r : Redis)
    → IsKeyed r
    → IsDict r.allocations
    → lookup id r.allocations ≡ some a
    → a.status ≡ success
    → a.expiration ≤ w.judged_at id
    → (pass_body w r).0 ≡ ok tt
    → lookup id (expire_pass w r).allocations
      ≡ settled a (deallocate_task w (record a { status = deallocating }))
unfolding expire_pass pass_body
expire_pass_late w id a r k d found s late done =
    at_started (collect w r.allocations r)
      (Started-collect w id a s (k id a found) late r.allocations r
        (All-lookup (λ p. p.1.allocation_id ≡ p.0) r.allocations d k) d found
        (record { keyed = k; stored = found }))
      done
  where
    at_started :
        (x : Result Fault (Dict String Task) × Redis)
        → Started id a (deallocate_task w (record a { status = deallocating })) x
        → (elim x.0 as (λ _. Result Fault (Unit {0}) × Redis) [
          | ok ts ↦ finish ts x.1
          | err e ↦ (err e, x.1)
        ]).0
          ≡ ok tt
        → lookup id
            (elim x.0 as (λ _. Result Fault (Unit {0}) × Redis) [
              | ok ts ↦ finish ts x.1
              | err e ↦ (err e, x.1)
            ]).1.allocations
          ≡ settled a (deallocate_task w (record a { status = deallocating }))
    at_started (ok ts, u) st d =
        (Holds-settled id a (deallocate_task w (record a { status = deallocating })) ts u st.1 st.0
          d).stored
    at_started (err e, u) st d = ground (arith, d)
