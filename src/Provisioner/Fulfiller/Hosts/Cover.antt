-- ===== src/Provisioner/Fulfiller/Hosts/Cover.antt =====
-- Spreading the hosts over the fulfillers keeps every host with someone, but not with one alone.
use habertest_backend.Base.{
  ℕ, string_eq, Option-cases, beq_refl, beq_ne, zero, suc, String, ◌≡◌, refl, sym, ◌≢◌, inl, inr,
  true, ◌||◌, List, [], ◌∷◌, ◌++◌, arith, Bool-cases, length,
}
use habertest_backend.Provisioner.Store.{ResourceManager}
use habertest_backend.Provisioner.Fulfiller.Hosts.{
  Potential, all_hosts, at_index, removed, drop_shared, spread_from, spread,
}
use habertest_backend.Base.Counts.{
  contains, remove, contains-append, contains-remove, contains_of_eq,
}

contains-removed :
    (x h : String) (others hosts : List String)
    → contains h others ≡ true
    → (contains x (removed h hosts) || contains x others) ≡ (contains x hosts || contains x others)
unfolding removed
contains-removed x h others hosts shared = elim (Option-cases (remove h hosts)) [
  | inl missing ↦ ground (arith, missing)
  | inr (rest, found) ↦
      ground (arith, found, contains-remove x h hosts rest found, contains_of_eq x h others)
]

contains-drop_shared :
    (x : String) (fuel i : ℕ) (others hosts : List String)
    → (contains x (drop_shared fuel i others hosts) || contains x others)
      ≡ (contains x hosts || contains x others)
unfolding drop_shared
contains-drop_shared x zero i others hosts = refl
contains-drop_shared x (suc fuel) i others hosts = elim (Option-cases (at_index i hosts)) [
  | inl done ↦ ground (arith, done)
  | inr (h, here) ↦ elim (Bool-cases (contains h others)) [
    | inl shared ↦ ground (
      arith,
      here,
      shared,
      contains-drop_shared x fuel (suc i) others (removed h hosts),
      contains-removed x h others hosts shared,
    )
    | inr alone ↦ ground (arith, here, alone, contains-drop_shared x fuel (suc i) others hosts)
  ]
]

contains-all_hosts-append :
    (x : String) (ps qs : List Potential)
    → contains x (all_hosts (ps ++ qs)) ≡ (contains x (all_hosts ps) || contains x (all_hosts qs))
unfolding all_hosts
contains-all_hosts-append x [] qs = refl
contains-all_hosts-append x ((rm, hosts) ∷ ps) qs = ground (
  arith,
  contains-append x hosts (all_hosts (ps ++ qs)),
  contains-append x hosts (all_hosts ps),
  contains-all_hosts-append x ps qs,
)

contains-spread_from :
    (x : String) (before ps : List Potential)
    → contains x (all_hosts (spread_from before ps))
      ≡ (contains x (all_hosts before) || contains x (all_hosts ps))
unfolding spread_from all_hosts
contains-spread_from x before [] = ground arith
contains-spread_from x before ((rm, hosts) ∷ ps) = ground (
  arith,
  contains-spread_from x (before ++ (rm, kept) ∷ []) ps,
  contains-all_hosts-append x before ((rm, kept) ∷ []),
  contains-append x kept [],
  contains-drop_shared x (length hosts) 0 (all_hosts (before ++ ps)) hosts,
  contains-all_hosts-append x before ps,
  contains-append x hosts (all_hosts ps),
)
  where
    kept : List String
    kept = drop_shared (length hosts) 0 (all_hosts (before ++ ps)) hosts

-- Exactly the hosts that some fulfiller can provide are left with some fulfiller.
pub contains-spread :
    (x : String) (ps : List Potential)
    → contains x (all_hosts (spread ps)) ≡ contains x (all_hosts ps)
unfolding spread
contains-spread x ps = contains-spread_from x [] ps

-- Of three fulfillers that can each provide the hosts `a` and `b`, two are left with `b`.
pub spread_twice :
    (r s t : ResourceManager) (a b : String)
    → a ≢ b
    → spread ((r, a ∷ b ∷ []) ∷ (s, a ∷ b ∷ []) ∷ (t, a ∷ b ∷ []) ∷ [])
      ≡ (r, b ∷ []) ∷ (s, b ∷ []) ∷ (t, a ∷ []) ∷ []
unfolding spread remove
spread_twice r s t a b h =
    ground (arith, beq_refl a, beq_refl b, beq_ne a b h, beq_ne b a (λ e. h (sym e)))
