-- ===== src/Hypervisor/Devices/Tests.antt =====
-- The set-up of the network device: over one that is there already, and when its address is refused.
use habertest_backend.Base.{
  String, Option, some, List, [], ◌∷◌, Bool, not, ◌≡◌, refl, string_eq, ◌==◌,
}
use habertest_backend.Base.Exec.{ok}
use habertest_backend.Hypervisor.Devices.{IpInterface, InetInfo, setup}

abbrev eth0 : IpInterface
eth0 = record { compressed = "10.0.0.4/24"; network = "10.0.0.0/24" }

abbrev addresses : String → Option (Option (List InetInfo))
addresses device = some (some (record { addr = "10.0.0.4"; netmask = "255.255.255.0" } ∷ []))

abbrev refuses : String → List String → String → Bool
refuses refused ran cmd = not (cmd == refused)

test_replaces : setup (λ text. some eth0) (refuses "") addresses "eth0" [] ≡ (
  ok tt,
  "ip route add 10.0.0.0/24 dev vm-macvlan metric 100" ∷ "ifmetric eth0 101"
      ∷ "ip route flush dev vm-macvlan" ∷ "ip link set dev vm-macvlan up"
      ∷ "ip address add 10.0.0.4/24 dev vm-macvlan"
      ∷ "ip link add link eth0 vm-macvlan type macvlan mode bridge" ∷ "ip link del vm-macvlan"
      ∷ "ip route flush dev vm-macvlan" ∷ "ip link show vm-macvlan" ∷ [],
)
unfolding setup
test_replaces = refl

test_refused :
    setup
      (λ text. some eth0)
      (refuses "ip address add 10.0.0.4/24 dev vm-macvlan")
      addresses
      "eth0"
      []
    ≡ (
      ok tt,
      "ip link del vm-macvlan" ∷ "ip route flush dev vm-macvlan" ∷ "ip link show vm-macvlan"
          ∷ "ip address add 10.0.0.4/24 dev vm-macvlan"
          ∷ "ip link add link eth0 vm-macvlan type macvlan mode bridge" ∷ "ip link del vm-macvlan"
          ∷ "ip route flush dev vm-macvlan" ∷ "ip link show vm-macvlan" ∷ [],
    )
unfolding setup
test_refused = refl
