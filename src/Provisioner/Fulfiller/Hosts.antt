-- ===== src/Provisioner/Fulfiller/Hosts.antt =====
-- Which manager gets which host: the two loops over `potential_fulfillers` in `fulfill`.
pub mod Cover
use habertest_backend.Base.{
  ℕ, string_eq, nat_beq, if◌then◌else◌, length, zero, suc, ◌+◌, String, Bool, false, Option, none,
  some, List, [], ◌∷◌, ◌++◌,
}
use habertest_backend.Provisioner.Store.{ResourceManager}
use habertest_backend.Base.Counts.{contains, remove}
use habertest_backend.Base.Dict.{Dict}

-- One entry of `potential_fulfillers`: a manager and the hosts that it can provide.
abbrev pub Potential : Type 0
Potential = ResourceManager × List String

-- `sum([hosts for fulfiller, hosts in …], [])`
pub all_hosts : List Potential → List String
all_hosts [] = []
all_hosts ((rm, hosts) ∷ ps) = hosts ++ all_hosts ps

-- The size of the `set` of these hosts.
pub distinct_hosts : List String → ℕ
distinct_hosts [] = 0
distinct_hosts (h ∷ hs) = (if contains h hs then 0 else 1) + distinct_hosts hs

-- `possible`: some manager answered, and together they name as many hosts as are demanded.
unfoldable pub possible : List Potential → Dict String String → Bool
unfolding all_hosts distinct_hosts
possible [] demands = false
possible (p ∷ ps) demands = nat_beq (distinct_hosts (all_hosts (p ∷ ps))) (length demands)

abbrev pub at_index : ℕ → List String → Option String
at_index i [] = none
at_index zero (h ∷ hs) = some h
at_index (suc i) (h ∷ hs) = at_index i hs

-- `hosts.remove(host)`, for a host that is in the list
pub removed : String → List String → List String
removed h hs = elim (remove h hs) [ none ↦ hs | some rest ↦ rest ]

-- `for host in hosts: if host in others: hosts.remove(host)`: the loop goes on at the next index, also
-- when the removal has moved another host to the index at hand.
pub drop_shared : ℕ → ℕ → List String → List String → List String
drop_shared zero i others hosts = hosts
drop_shared (suc fuel) i others hosts = elim (at_index i hosts) [
  | none ↦ hosts
  | some h ↦ drop_shared fuel (suc i) others (if contains h others then removed h hosts else hosts)
]

-- The outer loop: the fulfillers behind the current one keep their hosts, those before it have lost
-- some already.
pub spread_from : List Potential → List Potential → List Potential
spread_from before [] = before
spread_from before ((rm, hosts) ∷ ps) =
    spread_from (before ++ (rm, drop_shared (length hosts) 0 (all_hosts (before ++ ps)) hosts) ∷ [])
      ps

unfoldable pub spread : List Potential → List Potential
unfolding spread_from drop_shared removed all_hosts
spread = spread_from []
