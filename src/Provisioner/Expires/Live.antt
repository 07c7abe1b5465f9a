-- ===== src/Provisioner/Expires/Live.antt =====
-- An allocation that has not expired goes through a pass unchanged.
use habertest_backend.Base.{
  ◌+◌, ◌*◌, ℕ, string_eq, String, ◌≡◌, refl, ◌≢◌, none, some, Option, [], ◌∷◌, Bool, true, false,
  ltb, leb, if◌then◌else◌, not, ◌==◌, sym, ◌∙◌, All, ◌<◌, arith, eq_iff, Bool-cases, inl, inr,
  beq_refl, ap,
}
use habertest_backend.Base.Exec.{Result, ok, err, pure, ◌>>◌, lift, ◌>>=◌}
use habertest_backend.Base.Dict.{insert-IsDict, Dict, lookup, IsDict, lookup-insert_self}
use habertest_backend.Provisioner.Store.{
  second, success, put_allocation, Allocation, Redis, Fault, Handler, is_tracked, Reply, reply,
  nothing, delete_allocation, deallocating,
}
use habertest_backend.Provisioner.Store.Laws.{
  IsKeyed, Touches, Touches-bind, Touches-put, Touches-delete, Touches-pure, Touches-update_status,
  Touches-save_fulfilled_request, touches_rules,
}
use habertest_backend.Provisioner.Requestor.{body_or_raise}
use habertest_backend.Provisioner.Heartbeats.{heartbeat, heartbeat-extended}
use habertest_backend.Provisioner.Expires.{
  Pass, Task, expire_one, judge, check, settle_check, finish, finish_one, deallocate_task,
  holds_machines, expire_pass, add_task, collect, pass_body,
}

module _ (w : Pass) (j : String) where
  Touches-judge : (a : Allocation) → a.allocation_id ≡ j → Touches j (judge w j a)
  unfolding judge
  Touches-judge a own = decided (leb a.expiration (w.judged_at j)) (holds_machines a.status)
    where
      decided :
          (b c : Bool)
          → Touches j (
              if b
              then (if c
                  then (do
                    put_allocation a.allocation_id (record a { status = deallocating })
                    pure (some (deallocate_task w (record a { status = deallocating }))))
                  else (do delete_allocation j; pure none))
              else pure none)
      decided false c = Touches-pure none
      decided true false = search touches_rules
      decided true true =
          Touches-bind _ _
            (Touches-put a.allocation_id (record a { status = deallocating }) own own)
            (λ _. Touches-pure (some (deallocate_task w (record a { status = deallocating }))))

  Touches-settle_check :
      (endpoint : String) (a : Allocation) (x : Result Fault Reply)
      → a.allocation_id ≡ j
      → Touches j (settle_check w j endpoint a x)
  unfolding settle_check
  Touches-settle_check endpoint a (err e) own =
      Touches-bind _ _ (Touches-update_status _ (λ b. refl)) (λ _. Touches-pure none)
  Touches-settle_check endpoint a (ok nothing) own = Touches-judge a own
  Touches-settle_check endpoint a (ok (reply info)) own =
      Touches-bind _ _ (Touches-save_fulfilled_request _ endpoint (reply info))
        (λ _. Touches-pure none)

  Touches-check :
      (a : Allocation) (o : Option String) → a.allocation_id ≡ j → Touches j (check w j a o)
  unfolding check
  Touches-check a none own = search touches_rules
  Touches-check a (some endpoint) own =
      decided (endpoint == "") (ltb (a.expiration + 15 * 60 * second) (w.seen_at j))
    where
      decided :
          (b c : Bool)
          → Touches j (
              if b
              then (do delete_allocation j; pure none)
              else if c
              then (do delete_allocation j; pure none)
              else settle_check w j endpoint a
                  (body_or_raise (w.check_status a.allocation_id endpoint)))
      decided true c = search touches_rules
      decided false true = search touches_rules
      decided false false =
          Touches-settle_check endpoint a (body_or_raise (w.check_status a.allocation_id endpoint))
            own

  pub Touches-expire_one : (a : Allocation) → a.allocation_id ≡ j → Touches j (expire_one w j a)
  unfolding expire_one
  Touches-expire_one a own = decided (is_tracked a.status)
    where
      decided : (b : Bool) → Touches j (if not b then check w j a a.rm_endpoint else judge w j a)
      decided false = Touches-check a a.rm_endpoint own
      decided true = Touches-judge a own

pub Touches-finish_one : (j : String) (t : Task) → Touches j (finish_one j t)
unfolding finish_one
Touches-finish_one j (ok _) = Touches-delete
Touches-finish_one j (err _) = Touches-update_status _ (λ a. refl)

-- Redis holds `a` under `id`, or nothing.
pub record Holds (id : String) (a : Option Allocation) (r : Redis) : Type 0 where
  pub keyed : IsKeyed r
  pub stored : lookup id r.allocations ≡ a

module _ {id : String} {a : Option Allocation} where
  pub Holds-Touches :
      {A : Type 0} (j : String) (m : Handler A) (r : Redis)
      → Touches j m
      → j ≢ id
      → Holds id a r
      → Holds id a (m r).1
  Holds-Touches j m r t ne h =
      let l = t.at r h.keyed in
      record { keyed = l.keyed; stored = l.others id (λ q. ne (sym q)) ∙ h.stored }

  pub Holds-continue :
      {A B : Type 0} (f : A → Handler B) (x : Result Fault A) (s : Redis)
      → ((y : A) → Holds id a (f y s).1)
      → Holds id a s
      → Holds id a (elim x as (λ _. Result Fault B × Redis) [ ok y ↦ f y s | err e ↦ (err e, s) ]).1
  Holds-continue f (ok y) s k h = k y
  Holds-continue f (err e) s k h = h

  pub Holds-finish :
      (tasks : Dict String Task) (r : Redis)
      → lookup id tasks ≡ none
      → Holds id a r
      → Holds id a (finish tasks r).1
  unfolding finish lookup
  Holds-finish [] r out h = h
  Holds-finish ((j, t) ∷ tasks) r out h =
      let kept =
        Holds-Touches j (finish_one j t) r (Touches-finish_one j t)
          (ground (arith, out, eq_iff j id)) h in
      Holds-continue (λ _. finish tasks) (finish_one j t r).0 (finish_one j t r).1
        (λ _. Holds-finish tasks (finish_one j t r).1 (ground (arith, out)) kept) kept

module _ (id : String) (a : Option Allocation) where
  -- What the first loop keeps: the allocation, and that no task is started for it.
  abbrev pub Kept : Result Fault (Dict String Task) × Redis → Type 0
  Kept (ok tasks, s) = Holds id a s × (lookup id tasks ≡ none)
  Kept (err e, s) = Holds id a s

  Kept-add :
      (j : String) (o : Option Task) (x : Result Fault (Dict String Task) × Redis)
      → (j ≡ id → o ≡ none)
      → Kept x
      → Kept (elim x.0 as (λ _. Result Fault (Dict String Task) × Redis) [
        | ok ts ↦ (ok (add_task j o ts), x.1)
        | err e ↦ (err e, x.1)
      ])
  unfolding add_task lookup
  Kept-add j none (ok ts, s) own k = k
  Kept-add j (some t) (ok ts, s) own k = (k.0, ground (arith, k.1, eq_iff j id, own))
  Kept-add j o (err e, s) own k = k

  Kept-continue :
      (j : String) (rest : Handler (Dict String Task)) (x : Result Fault (Option Task)) (s : Redis)
      → ((o : Option Task) → x ≡ ok o → j ≡ id → o ≡ none)
      → Holds id a s
      → Kept (rest s)
      → Kept ((lift x >>= (λ o. rest >>= (λ ts. pure (add_task j o ts)))) s)
  Kept-continue j rest (ok o) s own h k = Kept-add j o (rest s) (own o refl) k
  Kept-continue j rest (err e) s own h k = h

-- An entry of the snapshot for which the loop does nothing to `id`.
abbrev pub IsQuiet : Pass → String → String × Allocation → Type 0
IsQuiet w id (j, b) =
    (b.allocation_id ≡ j) × (j ≡ id → (r : Redis) → expire_one w j b r ≡ (ok none, r))

module _ (w : Pass) (id : String) (a : Option Allocation) where
  pub Kept-collect :
      (d : Dict String Allocation) (r : Redis)
      → All (IsQuiet w id) d
      → Holds id a r
      → Kept id a (collect w d r)
  unfolding collect lookup
  Kept-collect [] r seen h = (h, refl)
  Kept-collect ((j, b) ∷ d) r seen h =
      let (own, quiet) = seen.0 in
      elim (Bool-cases (j == id)) [
        | inl e ↦
            let out = quiet ((eq_iff j id).0 e) r in
            let kept : Holds id a (expire_one w j b r).1 = rw out h in
            Kept-continue id a j (collect w d) (expire_one w j b r).0 (expire_one w j b r).1
              (λ o q _. ground (arith, sym q ∙ ap (λ x. x.0) out)) kept
              (Kept-collect d (expire_one w j b r).1 seen.1 kept)
        | inr e ↦
            let kept =
              Holds-Touches j (expire_one w j b) r (Touches-expire_one w j b own)
                (ground (arith, e, eq_iff j id)) h in
            Kept-continue id a j (collect w d) (expire_one w j b r).0 (expire_one w j b r).1
              (λ o q p. ground (arith, e, p, eq_iff j id)) kept
              (Kept-collect d (expire_one w j b r).1 seen.1 kept)
      ]

expire_one_live :
    (w : Pass) (id : String) (a : Allocation) (r : Redis)
    → is_tracked a.status ≡ true
    → w.judged_at id < a.expiration
    → expire_one w id a r ≡ (ok none, r)
unfolding expire_one judge
expire_one_live w id a r tracked live = ground (arith, tracked, live)

-- What holds of all that is looked up in a dict holds of all its entries.
pub All-lookup :
    (P : String × Allocation → Type 0) (d : Dict String Allocation)
    → IsDict d
    → ((j : String) (b : Allocation) → lookup j d ≡ some b → P (j, b))
    → All P d
unfolding lookup
All-lookup P [] distinct h = tt
All-lookup P ((j, b) ∷ d) distinct h = (
  h j b (ground (arith, beq_refl j)),
  All-lookup P d distinct.1 (λ k c found. h k c (ground (arith, found, distinct.0, eq_iff j k))),
)

Holds-pass_body :
    (w : Pass) (id : String) (a : Option Allocation) (x : Result Fault (Dict String Task) × Redis)
    → Kept id a x
    → Holds id a
        (elim x.0 as (λ _. Result Fault (Unit {0}) × Redis) [
          | ok ts ↦ finish ts x.1
          | err e ↦ (err e, x.1)
        ]).1
Holds-pass_body w id a (ok ts, s) k = Holds-finish ts s k.1 k.0
Holds-pass_body w id a (err e, s) k = k

-- A pass leaves an allocation alone that is received, allocating or a success and whose expiration
-- is still to come when the pass reads the clock for it, whatever happens to the other allocations.
pub expire_pass_live :
    (w : Pass) (id : String) (a : Allocation) (r : Redis)
    → IsKeyed r
    → IsDict r.allocations
    → lookup id r.allocations ≡ some a
    → is_tracked a.status ≡ true
    → w.judged_at id < a.expiration
    → lookup id (expire_pass w r).allocations ≡ some a
unfolding expire_pass pass_body
expire_pass_live w id a r k d found tracked live =
    (Holds-pass_body w id (some a) (collect w r.allocations r) (
      Kept-collect w id (some a) r.allocations r
        (All-lookup (IsQuiet w id) r.allocations d λ j b seen. (
          k j b seen,
          λ p s.
              rw (p, same b (sym (ap (λ i. lookup i r.allocations) p) ∙ seen))
                (expire_one_live w id a s tracked live),
        ))
        (record { keyed = k; stored = found }))).stored
  where
    same : (b : Allocation) → lookup id r.allocations ≡ some b → b ≡ a
    same b h = ground (arith, h, found)

-- A client that has sent a heartbeat keeps its machines: after a heartbeat for a success, a pass that
-- begins after the heartbeat, so that it reads what the heartbeat stored, and that judges the allocation
-- before 60 seconds are over leaves it as the heartbeat stored it.
pub heartbeat_keeps :
    (w : Pass) (now : ℕ) (id : String) (a : Allocation) (r : Redis)
    → IsKeyed r
    → IsDict r.allocations
    → lookup id r.allocations ≡ some a
    → a.status ≡ success
    → w.judged_at id < now + 60 * second
    → lookup id (expire_pass w (heartbeat now (some id) r).1).allocations
      ≡ some (record a { expiration = now + 60 * second })
unfolding put_allocation is_tracked
heartbeat_keeps w now id a r k d found s soon = rw (heartbeat-extended now id r a found s) (
    expire_pass_live w id beaten (put_allocation id beaten r).1
      ((Touches-put id beaten refl (k id a found)).at r k).keyed
      (insert-IsDict id beaten r.allocations d) (lookup-insert_self id beaten r.allocations)
      (rw s refl) soon)
  where
    beaten : Allocation
    beaten = record a { expiration = now + 60 * second }
