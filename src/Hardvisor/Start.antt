-- ===== src/Hardvisor/Start.antt =====
-- `update_machines` (resource_managers/hardvisor/redis_client.py): the machines of the configuration are
-- entered into the stock when the manager starts.
use habertest_backend.Base.{
  string_eq, eq_iff, String, ◌≡◌, Option, none, some, [], ◌∷◌, arith, inl, inr, Option-cases, ◌∙◌,
}
use habertest_backend.Base.Dict.{Dict, lookup, insert, lookup-insert}
use habertest_backend.Hardvisor.{Machine, Inventory}

-- The details of a machine in the configuration.
pub record Details : Type 0 where
  pub name : Option String
  pub ip : String
  pub arch : Option String
  pub password : Option String
  pub key_file_path : Option String

-- The machine as it is entered first.
pub entered : String → Details → Machine
entered key d = record {
  name = elim d.name [ none ↦ key | some n ↦ n ];
  ip = d.ip;
  arch = elim d.arch [ none ↦ "x86_64" | some a ↦ a ];
  status = some "available";
  allocation_id = none;
  requestor = none;
  net_ifaces = d.ip ∷ [];
  password = d.password;
  key_file_path = d.key_file_path;
}

-- `hsetnx`: a key that is there keeps its value.
set_new : String → Machine → Inventory → Inventory
set_new key m s = elim (lookup key s) [ none ↦ insert key m s | some _ ↦ s ]

-- `update_machines`
pub update_machines : Dict String Details → Inventory → Inventory
unfolding entered set_new
update_machines [] s = s
update_machines ((key, d) ∷ ds) s = update_machines ds (set_new key (entered key d) s)

-- What the stock holds under a name after the start: what it held, or else what the first entry of
-- the configuration under that name says.
abbrev pub configured : Dict String Details → Inventory → String → Option Machine
configured ds s name = elim (lookup name s) [
  | some m ↦ some m
  | none ↦ elim (lookup name ds) [ none ↦ none | some d ↦ some (entered name d) ]
]

-- A start leaves every machine of the stock as it is, in use or not, and enters exactly the machines
-- of the configuration that the stock does not hold.
pub update_machines-configured :
    (ds : Dict String Details) (s : Inventory) (name : String)
    → lookup name (update_machines ds s) ≡ configured ds s name
unfolding update_machines lookup
update_machines-configured [] s name = ground arith
update_machines-configured ((key, d) ∷ ds) s name = elim (Option-cases (lookup key s)) [
  | inl new ↦
      update_machines-configured ds (set_new key (entered key d) s) name
      ∙ ground (arith, new, eq_iff key name, lookup-insert key name (entered key d) s)
  | inr (m, old) ↦
      update_machines-configured ds (set_new key (entered key d) s) name
      ∙ ground (arith, old, eq_iff key name)
]
