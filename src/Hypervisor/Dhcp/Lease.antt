-- ===== src/Hypervisor/Dhcp/Lease.antt =====
-- `DHCPRequestor` (resource_managers/hypervisor/vms/dhcp_handlers.py), which asks the DHCP server of the
-- bridge for an address. What scapy sends and receives is a parameter, packet by packet.
pub mod Acked
pub mod Tests
use habertest_backend.Base.{
  ℕ, String, Option, none, some, List, [], ◌∷◌, ◌++◌ as append, if◌then◌else◌, string_eq, ◌==◌,
  Bool, true, false,
}
use habertest_backend.Base.Dict.{Dict, insert, lookup}
use habertest_backend.Base.Exec.{Result, ok, err}
use habertest_backend.Utils.Waiter.{Call, Timing, WaitError, wait_for_predicate_nothrow}

-- The value of a DHCP option, and an option: a pair, or a name alone such as "end"
pub data Value : Type 0 where
  text : String → Value
  number : ℕ → Value

pub data DhcpOption : Type 0 where
  pair : String → Value → DhcpOption
  plain : String → DhcpOption

-- A packet to the server: the hardware address, the number of the exchange and the options.
pub record Packet : Type 0 where
  pub chaddr : String
  pub xid : ℕ
  pub options : List DhcpOption

pub record Reply : Type 0 where
  pub yiaddr : String
  pub reply_xid : ℕ
  pub reply_options : List DhcpOption

-- What the code takes from elsewhere, with the number of the try: the answer to a packet if it comes in
-- time, a random number, the bytes of a MAC address if it is one, and the name of a type of message.
pub record Server : Type 0 where
  pub srp1 : ℕ → Packet → Option Reply
  pub rand : ℕ → ℕ
  pub mac_raw : String → Option String
  pub dhcp_types : Value → Option String

-- A `TimeoutError`, or another exception
pub data LeaseError : Type 0 where
  timeout : String → LeaseError
  failure : String → LeaseError

add_options : List DhcpOption → Dict String Value → Dict String Value
add_options [] result = result
add_options (pair name value ∷ options) result = add_options options (insert name value result)
add_options (plain name ∷ options) result = add_options options result

-- `_dhcp_reply_info`
pub dhcp_reply_info : Reply → Dict String Value
unfolding add_options
dhcp_reply_info reply = add_options reply.reply_options (("ip", text reply.yiaddr) ∷ [])

without_last : List DhcpOption → List DhcpOption
without_last [] = []
without_last (option ∷ []) = []
without_last (option ∷ next ∷ options) = option ∷ without_last (next ∷ options)

-- `_server_id_from_offer`: a name alone counts by its letters, so it makes no key "server_id".
pub server_id_from_offer : Reply → Option Value
unfolding without_last add_options
server_id_from_offer reply = lookup "server_id" (add_options (without_last reply.reply_options) [])

with_server_id : Option Value → List DhcpOption
with_server_id none = []
with_server_id (some server_id) = pair "server_id" server_id ∷ []

pub request_options : String → Option Value → List DhcpOption
unfolding with_server_id
request_options requested_ip server_id =
    pair "message-type" (text "request")
    ∷ append (with_server_id server_id) (
        pair "requested_addr" (text requested_ip)
        ∷ pair "param_req_list" (number 0)
        ∷ plain "end"
        ∷ [])

abbrev pub discover_options : List DhcpOption
discover_options = pair "message-type" (text "discover") ∷ plain "end" ∷ []

module _ (network : Server) where
  -- The name of the type of a reply, with a `KeyError` where there is none
  pub message_type : Dict String Value → Option String
  message_type reply = elim (lookup "message-type" reply) [
    | none ↦ none
    | some value ↦ network.dhcp_types value
  ]

  check_ack : Dict String Value → Result LeaseError (Dict String Value)
  unfolding message_type
  check_ack reply = elim (message_type reply) [
    | none ↦ err (failure "KeyError")
    | some name ↦ if name == "ack" then ok reply else err (failure "Failed to get ack")
  ]

  acknowledged : Option Reply → Result LeaseError (Dict String Value)
  unfolding check_ack dhcp_reply_info
  acknowledged none = err (timeout "DHCP request timeout")
  acknowledged (some reply) = check_ack (dhcp_reply_info reply)

  -- `_dhcp_request`
  dhcp_request : ℕ → String → String → ℕ → Option Value → Result LeaseError (Dict String Value)
  unfolding acknowledged request_options
  dhcp_request i raw requested_ip xid_cookie server_id = acknowledged (
      network.srp1 i (record {
        chaddr = raw;
        xid = xid_cookie;
        options = request_options requested_ip server_id;
      }))

  -- What follows the offer: its address is requested, with its server and its number.
  request_offered : ℕ → String → Option Reply → Result LeaseError (Dict String Value)
  unfolding dhcp_request server_id_from_offer
  request_offered i raw none = err (timeout "Timeout. failed to get offer")
  request_offered i raw (some offer) = elim (server_id_from_offer offer) [
    | none ↦ err (failure "KeyError")
    | some server_id ↦ dhcp_request i raw offer.yiaddr offer.reply_xid (some server_id)
  ]

  discover_then_request : ℕ → String → Result LeaseError (Dict String Value)
  unfolding request_offered
  discover_then_request i raw =
      request_offered i raw
        (network.srp1 i (record { chaddr = raw; xid = network.rand i; options = discover_options }))

  -- `_do_request_lease`, in try `i`
  do_request_lease : ℕ → String → Option String → Result LeaseError (Dict String Value)
  unfolding dhcp_request discover_then_request
  do_request_lease i mac_address wanted = elim (network.mac_raw mac_address) [
    | none ↦ err (failure "binascii.Error")
    | some raw ↦ elim wanted [
      | none ↦ discover_then_request i raw
      | some ip ↦ dhcp_request i raw ip 0 none
    ]
  ]

-- A `TimeoutError` is the class that the wait catches.
as_call : Result LeaseError (Dict String Value) → Call (Dict String Value)
as_call (ok info) = Call.gives info
as_call (err (timeout message)) = Call.raises message
as_call (err (failure message)) = Call.raises_other message

is_truthy : Dict String Value → Bool
is_truthy [] = false
is_truthy (entry ∷ info) = true

ip_of : Dict String Value → Option Value
ip_of info = lookup "ip" info

module _ (network : Server) (t : Timing) (fuel : ℕ) where
  -- `_request_lease`; `none` is the end of the fuel.
  request_lease_sync : String → Option String → Option (Result WaitError (Dict String Value))
  unfolding do_request_lease as_call is_truthy
  request_lease_sync mac ip =
      wait_for_predicate_nothrow is_truthy (λ i. as_call (do_request_lease network i mac ip)) t fuel

  -- `request_lease`: the address in the reply
  pub request_lease : String → Option String → Option (Result WaitError (Option Value))
  unfolding request_lease_sync ip_of
  request_lease mac ip = elim (request_lease_sync mac ip) [
    | none ↦ none
    | some (ok info) ↦ some (ok (ip_of info))
    | some (err e) ↦ some (err e)
  ]
