-- ===== src/Hypervisor/Dhcp/Tests.antt =====
-- An address of a network with one entry.
use habertest_backend.Base.{string_eq, ◌≡◌, refl, true, String, Option, none, some, [], ◌∷◌}
use habertest_backend.Base.Counts.{contains}
use habertest_backend.Base.Dict.{lookup, insert}
use habertest_backend.Base.Exec.{ok}
use habertest_backend.Hypervisor.Dhcp.{Network, allocate_ip, allocate_ip-free}

abbrev net : Network
net = record {
  range = "10.0.0.2" ∷ "10.0.0.3" ∷ [];
  reserved = ("10.0.0.3", "52:54:00:00:00:01") ∷ [];
}

abbrev adds : String → String → Network → Option Network
adds ip mac n = some (record n { reserved = insert ip mac n.reserved })

given_out : (allocate_ip adds "52:54:00:00:00:02" none net).0 ≡ ok "10.0.0.2"
unfolding allocate_ip lookup
given_out = refl

allocate_ip-free_example :
    (contains "10.0.0.2" net.range ≡ true) × (lookup "10.0.0.2" net.reserved ≡ none)
allocate_ip-free_example = allocate_ip-free adds "52:54:00:00:00:02" none net "10.0.0.2" given_out
