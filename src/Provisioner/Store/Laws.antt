-- ===== src/Provisioner/Store/Laws.antt =====
-- Every allocation stands under its own id, and a handler for one id leaves the others alone: one
-- rule for each way to build a handler.
use habertest_backend.Base.{
  true, string_eq, String, ◌≡◌, refl, sym, ◌∙◌, ◌≢◌, none, some, List, arith, eq_iff, Option-cases,
  ℕ, inl, inr,
}
use habertest_backend.Provisioner.Store.{
  Status, success, is_success, Allocation, Redis, Fault, Handler, allocation_of, put_allocation,
  delete_allocation, delete_resource_managers, update_status, attribute_error, Reply,
  save_fulfilled_request, info_of, hardware_of,
}
use habertest_backend.Base.Dict.{
  lookup, lookup-insert, lookup-erase, lookup-insert_ne, lookup-erase_ne,
}
use habertest_backend.Base.Exec.{Result, ok, err, pure, raise, gets, lift, ◌>>=◌}

abbrev pub IsKeyed : Redis → Type 0
IsKeyed r = (id : String) (a : Allocation) → lookup id r.allocations ≡ some a → a.allocation_id ≡ id

pub is_success_sound : (s : Status) → is_success s ≡ true → s ≡ success
unfolding is_success
is_success_sound success h = refl
is_success_sound _ h = ground (arith, h)

pub is_success_complete : (s : Status) → s ≡ success → is_success s ≡ true
unfolding is_success
is_success_complete s h = ground (arith, h)

-- From `r` to `r'` only the allocation `id` may have changed.
pub record Local (id : String) (r r' : Redis) : Type 0 where
  pub keyed : IsKeyed r'
  pub others : (j : String) → j ≢ id → lookup j r'.allocations ≡ lookup j r.allocations

pub record Touches (id : String) {A : Type 0} (m : Handler A) : Type 0 where
  pub at : (r : Redis) → IsKeyed r → Local id r (m r).1

pub update_status-none :
    (id : String) (f : Allocation → Allocation) (r : Redis)
    → lookup id r.allocations ≡ none
    → update_status id f r ≡ (err attribute_error, r)
unfolding update_status
update_status-none id f r h = ground (arith, h)

pub update_status-some :
    (id : String) (f : Allocation → Allocation) (r : Redis) (a : Allocation)
    → lookup id r.allocations ≡ some a
    → update_status id f r ≡ put_allocation (f a).allocation_id (f a) r
unfolding update_status
update_status-some id f r a h = ground (arith, h)

module _ {id : String} where
  pub Local-refl : (r : Redis) → IsKeyed r → Local id r r
  Local-refl r k = record { keyed = k; others = λ j h. refl }

  Local-trans : {r s t : Redis} → Local id r s → Local id s t → Local id r t
  Local-trans f g = record { keyed = g.keyed; others = λ j h. g.others j h ∙ f.others j h }

  pub Touches-pure : {A : Type 0} (a : A) → Touches id (pure a)
  Touches-pure a = record { at = λ r k. Local-refl r k }

  pub Touches-raise : {A : Type 0} (e : Fault) → Touches id (raise {A = A} e)
  Touches-raise e = record { at = λ r k. Local-refl r k }

  pub Touches-gets : {A : Type 0} (f : Redis → A) → Touches id (gets f)
  Touches-gets f = record { at = λ r k. Local-refl r k }

  pub Touches-lift : {A : Type 0} (x : Result Fault A) → Touches id (lift x)
  Touches-lift x = record { at = λ r k. Local-refl r k }

  Local-continue :
      {A B : Type 0} (f : A → Handler B) (r : Redis) (x : Result Fault A) (s : Redis)
      → ((a : A) → Touches id (f a))
      → Local id r s
      → Local id r (elim x as (λ _. Result Fault B × Redis) [ ok a ↦ f a s | err e ↦ (err e, s) ]).1
  Local-continue f r (ok a) s tf l = Local-trans l ((tf a).at s l.keyed)
  Local-continue f r (err e) s tf l = l

  pub Touches-bind :
      {A B : Type 0} (m : Handler A) (f : A → Handler B)
      → Touches id m
      → ((a : A) → Touches id (f a))
      → Touches id (m >>= f)
  Touches-bind m f tm tf = record { at = λ r k. Local-continue f r (m r).0 (m r).1 tf (tm.at r k) }

  pub Touches-put :
      (i : String) (a : Allocation)
      → i ≡ id
      → a.allocation_id ≡ id
      → Touches id (put_allocation i a)
  unfolding put_allocation
  Touches-put i a p e = record {
    at = λ r k. record {
      keyed = λ j b h. ground (arith, lookup-insert i j a r.allocations, eq_iff i j, k j b);
      others = λ j h. lookup-insert_ne i j a r.allocations (λ q. h (sym q ∙ p));
    };
  }

  pub Touches-delete : Touches id (delete_allocation id)
  unfolding delete_allocation
  Touches-delete = record {
    at = λ r k. record {
      keyed = λ j b h. ground (arith, lookup-erase id j r.allocations, eq_iff id j, k j b);
      others = λ j h. lookup-erase_ne id j r.allocations (λ q. h (sym q));
    };
  }

  pub Touches-delete_resource_managers :
      (ks : List String) → Touches id (delete_resource_managers ks)
  unfolding delete_resource_managers
  Touches-delete_resource_managers ks = record {
    at = λ r k. record { keyed = k; others = λ j h. refl };
  }

  pub Touches-allocation_of : (j : String) → Touches id (allocation_of j)
  unfolding allocation_of
  Touches-allocation_of j = record { at = λ r k. Local-refl r k }

  pub Touches-update_status :
      (f : Allocation → Allocation)
      → ((a : Allocation) → (f a).allocation_id ≡ a.allocation_id)
      → Touches id (update_status id f)
  Touches-update_status f same = record {
    at = λ r k. elim (Option-cases (lookup id r.allocations)) [
      | inl missing ↦ rw (update_status-none id f r missing) (Local-refl r k)
      | inr (a, e) ↦
          rw (update_status-some id f r a e)
            ((Touches-put (f a).allocation_id (f a) (same a ∙ k id a e) (same a ∙ k id a e)).at r k)
    ];
  }

  pub Touches-save_fulfilled_request :
      (now : ℕ) (endpoint : String) (res : Reply)
      → Touches id (save_fulfilled_request now id endpoint res)
  Touches-save_fulfilled_request now endpoint res =
      unfold save_fulfilled_request in
      Touches-bind _ _ (Touches-lift (info_of res)) λ vms.
        Touches-bind _ _ (Touches-lift (hardware_of endpoint vms))
          λ hardware. Touches-update_status _ (λ a. refl)

pub ruleset touches_rules = (
  Touches-pure, Touches-raise, Touches-gets, Touches-lift, Touches-bind, Touches-delete,
  Touches-delete_resource_managers, Touches-allocation_of, Touches-update_status,
  Touches-save_fulfilled_request,
)
