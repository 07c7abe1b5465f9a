-- ===== src/Hypervisor/Dhcp/Lease/Tests.antt =====
-- A server that makes one offer and acknowledges what is asked of it.
use habertest_backend.Base.{
  nat_beq, if◌then◌else◌, zero, suc, ℕ, ◌+◌, String, Option, none, some, List, [], ◌∷◌, arith, ◌≡◌,
  refl,
}
use habertest_backend.Base.Dict.{insert, lookup}
use habertest_backend.Base.Exec.{ok}
use habertest_backend.Utils.Waiter.{Timing, wait_for_predicate_nothrow}
use habertest_backend.Hypervisor.Dhcp.Lease.{
  Server, Reply, Value, text, number, DhcpOption, pair, plain, request_lease,
}
use habertest_backend.Hypervisor.Dhcp.Lease.Acked.{Leases, request_lease-Leases}

abbrev reply_of : ℕ → Reply
reply_of kind = record {
  yiaddr = "10.0.0.9";
  reply_xid = 7;
  reply_options =
      pair "message-type" (number kind) ∷ pair "server_id" (text "10.0.0.1") ∷ plain "end" ∷ [];
}

-- A packet with two options asks for an offer; the first of them is not answered.
abbrev answer : ℕ → List DhcpOption → Option Reply
answer zero options = none
answer (suc i) (a ∷ b ∷ []) = some (reply_of 2)
answer (suc i) options = some (reply_of 5)

abbrev type_name : Value → Option String
type_name (text name) = none
type_name (number n) =
    if nat_beq n 2 then some "offer" else if nat_beq n 5 then some "ack" else none

abbrev server : Server
server = record {
  srp1 = λ i packet. answer i packet.options;
  rand = λ i. 7;
  mac_raw = λ mac. some mac;
  dhcp_types = type_name;
}

abbrev ten_seconds : Timing
ten_seconds = record { before = 100; timeout = 10; clock = λ i. 104 + i }

test_second_try :
    request_lease server ten_seconds 12 "52:54:00:00:00:02" none
    ≡ some (ok (some (text "10.0.0.9")))
unfolding request_lease lookup insert wait_for_predicate_nothrow
test_second_try = refl

request_lease-Leases_example :
    Leases server "52:54:00:00:00:02" none
      (request_lease server ten_seconds 12 "52:54:00:00:00:02" none)
request_lease-Leases_example =
    request_lease-Leases server ten_seconds 1 11 "52:54:00:00:00:02" none (λ k. omega arith)
      (omega arith)
