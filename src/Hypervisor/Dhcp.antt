-- ===== src/Hypervisor/Dhcp.antt =====
-- `LibvirtDHCPAllocator` (resource_managers/hypervisor/vms/dhcp_handlers.py), over what libvirt says of
-- a network (`get_network_dhcp_info` of libvirt_wrapper.py). The update of libvirt is a parameter.
pub mod Lease
pub mod Tests
use habertest_backend.Base.{
  string_eq, eq_iff, beq_refl, ◌≡◌, true, String, Option, none, some, List, [], ◌∷◌, if◌then◌else◌,
  arith, inl, inr, Option-cases,
}
use habertest_backend.Base.Counts.{contains}
use habertest_backend.Base.Dict.{Dict, has_key, lookup}
use habertest_backend.Base.Exec.{Result, ok, err, Result-cases}

-- A network: the addresses of its DHCP range, and the entries from addresses to MAC addresses.
pub record Network : Type 0 where
  pub range : List String
  pub reserved : Dict String String

-- The exceptions: the range is empty, the address is not in it, or libvirt refuses the entry.
pub data DhcpError : Type 0 where
  range_empty not_in_range libvirt_error : DhcpError

-- `hosts` of `get_network_dhcp_info`: the range without the addresses that have an entry.
free_hosts : Dict String String → List String → List String
free_hosts reserved [] = []
free_hosts reserved (ip ∷ ips) =
    let rest = free_hosts reserved ips in if has_key ip reserved then rest else ip ∷ rest

-- `hosts.pop()`, which takes the last one
pop : List String → Option String
pop [] = none
pop (ip ∷ []) = some ip
pop (ip ∷ next ∷ ips) = pop (next ∷ ips)

candidate : Option String → List String → Result DhcpError String
unfolding pop
candidate wanted hosts = elim (pop hosts) [
  | none ↦ err range_empty
  | some last ↦ elim wanted [
    | none ↦ ok last
    | some ip ↦ if contains ip hosts then ok ip else err not_in_range
  ]
]

-- `_allocate_ip_sync`, which runs under its lock; `add` is what libvirt makes of the update in
-- `add_dhcp_entry`, or its refusal.
pub allocate_ip :
    (String → String → Network → Option Network)
    → String
    → Option String
    → Network
    → Result DhcpError String × Network
unfolding candidate free_hosts
allocate_ip add mac wanted net = elim (candidate wanted (free_hosts net.reserved net.range)) [
  | err e ↦ (err e, net)
  | ok ip ↦ elim (add ip mac net) [ none ↦ (err libvirt_error, net) | some net' ↦ (ok ip, net') ]
]

contains-free_hosts :
    (reserved : Dict String String) (ips : List String) (ip : String)
    → contains ip (free_hosts reserved ips) ≡ true
    → (contains ip ips ≡ true) × (lookup ip reserved ≡ none)
unfolding free_hosts
contains-free_hosts reserved [] ip h = ground (arith, h)
contains-free_hosts reserved (x ∷ ips) ip h = elim (Option-cases (lookup x reserved)) [
  | inr (mac, taken) ↦ ground (arith, h, taken, contains-free_hosts reserved ips ip)
  | inl free ↦ ground (arith, h, free, eq_iff x ip, contains-free_hosts reserved ips ip)
]

contains-pop : (ips : List String) (ip : String) → pop ips ≡ some ip → contains ip ips ≡ true
unfolding pop
contains-pop [] ip h = ground (arith, h)
contains-pop (x ∷ []) ip h = ground (arith, h, beq_refl ip)
contains-pop (x ∷ y ∷ ips) ip h = ground (arith, contains-pop (y ∷ ips) ip h)

candidate-free :
    (wanted : Option String) (hosts : List String) (ip : String)
    → candidate wanted hosts ≡ ok ip
    → contains ip hosts ≡ true
unfolding candidate
candidate-free wanted hosts ip h = elim (Option-cases (pop hosts)) [
  | inl empty ↦ ground (arith, h, empty)
  | inr (last, found) ↦ elim (Option-cases wanted) [
    | inl none_wanted ↦ ground (arith, h, found, none_wanted, contains-pop hosts last found)
    | inr (w, is_wanted) ↦ ground (arith, h, found, is_wanted)
  ]
]

-- An address that is given out lies in the range of the network and had no entry before, also when
-- the client asked for it.
pub allocate_ip-free :
    (add : String → String → Network → Option Network) (mac : String) (wanted : Option String)
    (net : Network) (ip : String)
    → (allocate_ip add mac wanted net).0 ≡ ok ip
    → (contains ip net.range ≡ true) × (lookup ip net.reserved ≡ none)
unfolding allocate_ip
allocate_ip-free add mac wanted net ip h =
    contains-free_hosts net.reserved net.range ip
      (elim (Result-cases (candidate wanted (free_hosts net.reserved net.range))) [
        | inr (e, refused) ↦ absurd (ground (arith, h, refused))
        | inl (chosen, c) ↦ elim (Option-cases (add chosen mac net)) [
          | inl refused ↦ absurd (ground (arith, h, c, refused))
          | inr (net', added) ↦ ground (
            arith,
            h,
            c,
            added,
            candidate-free wanted (free_hosts net.reserved net.range) chosen c,
          )
        ]
      ])
