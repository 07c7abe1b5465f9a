-- ===== src/Hypervisor/Dhcp/Lease/Acked.antt =====
-- Where the address of a lease comes from, and that the request for one ends.
use habertest_backend.Base.{
  ℕ, ◌+◌, ◌*◌, ◌≤◌, ◌<◌, suc, String, Option, none, some, List, [], ◌∷◌, Option-cases, Bool-cases,
  ◌==◌, string_eq, eq_iff, inl, inr, arith, ◌≡◌, ap, ◌∙◌, refl, sym,
}
use habertest_backend.Base.Dict.{Dict, lookup}
use habertest_backend.Base.Exec.{Result, ok, err}
use habertest_backend.Utils.Waiter.{Call, Timing, WaitError, returned, nothrow_round}
use habertest_backend.Utils.Waiter.Rounds.{
  with_result, with_escape, with_timeout, wait_for_predicate_nothrow-Ends,
}
use habertest_backend.Hypervisor.Dhcp.Lease.{
  DhcpOption, pair, plain, text, number, with_server_id, Server, Packet, Reply, Value, LeaseError,
  message_type, check_ack, acknowledged, dhcp_reply_info, dhcp_request, request_options,
  request_offered, discover_then_request, do_request_lease, server_id_from_offer, as_call,
  is_truthy, request_lease, request_lease_sync, ip_of, discover_options, timeout, failure,
}

-- The options of a request for an address, to a server that is named or to any
abbrev pub asked : String → Option Value → List DhcpOption
asked ip none =
    pair "message-type" (text "request")
    ∷ pair "requested_addr" (text ip)
    ∷ pair "param_req_list" (number 0)
    ∷ plain "end"
    ∷ []
asked ip (some server_id) =
    pair "message-type" (text "request")
    ∷ pair "server_id" server_id
    ∷ pair "requested_addr" (text ip)
    ∷ pair "param_req_list" (number 0)
    ∷ plain "end"
    ∷ []

request_options-asked :
    (ip : String) (server_id : Option Value) → request_options ip server_id ≡ asked ip server_id
unfolding request_options with_server_id
request_options-asked ip none = refl
request_options-asked ip (some server_id) = refl

module _ (network : Server) where
  -- The packet of a request of the machine with the hardware address `raw`
  abbrev pub request_packet : String → String → ℕ → Option Value → Packet
  request_packet raw ip xid server_id = record {
    chaddr = raw;
    xid = xid;
    options = asked ip server_id;
  }

  abbrev pub discover_packet : String → ℕ → Packet
  discover_packet raw i = record { chaddr = raw; xid = network.rand i; options = discover_options }

  -- What is to be requested in try `i`: the wanted address, or the one that the answer to the discovery
  -- offers, under its number and with its server.
  pub IsChosen : String → ℕ → Option String → String → ℕ → Option Value → Type 0
  IsChosen raw i (some wanted) ip xid server_id = (ip ≡ wanted) × (xid ≡ 0) × (server_id ≡ none)
  IsChosen raw i none ip xid server_id =
      (offer : Reply) × (network.srp1 i (discover_packet raw i) ≡ some offer)
      × (ip ≡ offer.yiaddr)
      × (xid ≡ offer.reply_xid)
      × (server_id_from_offer offer ≡ server_id)

  -- In try `i` the request of the machine with this MAC address, for the address that is to be requested,
  -- was answered with an "ack", and `info` is what the answer says.
  pub record IsAcked (mac : String) (wanted : Option String) (i : ℕ) (info : Dict String Value)
      : Type 0 where
    pub raw : String
    pub ip : String
    pub xid : ℕ
    pub server_id : Option Value
    pub reply : Reply
    pub is_raw : network.mac_raw mac ≡ some raw
    pub chosen : IsChosen raw i wanted ip xid server_id
    pub answer : network.srp1 i (request_packet raw ip xid server_id) ≡ some reply
    pub says : info ≡ dhcp_reply_info reply
    pub is_ack : message_type network info ≡ some "ack"

  check_ack-ok :
      (reply info : Dict String Value)
      → check_ack network reply ≡ ok info
      → (info ≡ reply) × (message_type network info ≡ some "ack")
  unfolding check_ack
  check_ack-ok reply info h = elim (Option-cases (message_type network reply)) [
    | inl missing ↦ absurd (ground (arith, h, missing))
    | inr (name, found) ↦ elim (Bool-cases (name == "ack")) [
      | inl same ↦
          let back : info ≡ reply = ground (arith, h, found, same) in
          (
            back,
            ap (λ r. message_type network r) back ∙ found ∙ ap some ((eq_iff name "ack").0 same),
          )
      | inr other ↦ absurd (ground (arith, h, found, other))
    ]
  ]

  dhcp_request-IsAcked :
      (mac raw : String) (wanted : Option String) (i : ℕ) (ip : String) (xid : ℕ)
      (server_id : Option Value) (info : Dict String Value)
      → network.mac_raw mac ≡ some raw
      → IsChosen raw i wanted ip xid server_id
      → dhcp_request network i raw ip xid server_id ≡ ok info
      → IsAcked mac wanted i info
  unfolding dhcp_request acknowledged
  dhcp_request-IsAcked mac raw wanted i ip xid server_id info is_raw chosen h =
      elim (Option-cases (network.srp1 i (request_packet raw ip xid server_id))) [
        | inl late ↦ absurd (ground (arith, sent, late))
        | inr (reply, found) ↦
            let checked = check_ack-ok (dhcp_reply_info reply) info (ground (arith, sent, found)) in
            record {
              raw = raw;
              ip = ip;
              xid = xid;
              server_id = server_id;
              reply = reply;
              is_raw = is_raw;
              chosen = chosen;
              answer = found;
              says = checked.0;
              is_ack = checked.1;
            }
      ]
    where
      sent : acknowledged network (network.srp1 i (request_packet raw ip xid server_id)) ≡ ok info
      sent =
          ap
            (λ (options : List DhcpOption).
              acknowledged network
                (network.srp1 i (record { chaddr = raw; xid = xid; options = options })))
            (sym (request_options-asked ip server_id))
          ∙ h

  request_offered-IsAcked :
      (mac raw : String) (i : ℕ) (o : Option Reply) (info : Dict String Value)
      → network.mac_raw mac ≡ some raw
      → network.srp1 i (discover_packet raw i) ≡ o
      → request_offered network i raw o ≡ ok info
      → IsAcked mac none i info
  unfolding request_offered IsChosen
  request_offered-IsAcked mac raw i none info is_raw e h = absurd (ground (arith, h))
  request_offered-IsAcked mac raw i (some offer) info is_raw e h =
      elim (Option-cases (server_id_from_offer offer)) [
        | inl missing ↦ absurd (ground (arith, h, missing))
        | inr (server_id, found) ↦
            dhcp_request-IsAcked mac raw none i offer.yiaddr offer.reply_xid (some server_id) info
              is_raw (offer, e, refl, refl, found) (ground (arith, h, found))
      ]

  do_request_lease-IsAcked :
      (i : ℕ) (mac : String) (wanted : Option String) (info : Dict String Value)
      → do_request_lease network i mac wanted ≡ ok info
      → IsAcked mac wanted i info
  unfolding do_request_lease discover_then_request IsChosen
  do_request_lease-IsAcked i mac none info h = elim (Option-cases (network.mac_raw mac)) [
    | inl bad ↦ absurd (ground (arith, h, bad))
    | inr (raw, found) ↦
        request_offered-IsAcked mac raw i (network.srp1 i (discover_packet raw i)) info found refl
          (ground (arith, h, found))
  ]
  do_request_lease-IsAcked i mac (some ip) info h = elim (Option-cases (network.mac_raw mac)) [
    | inl bad ↦ absurd (ground (arith, h, bad))
    | inr (raw, found) ↦
        dhcp_request-IsAcked mac raw (some ip) i ip 0 none info found (refl, refl, refl)
          (ground (arith, h, found))
  ]

  call-returned :
      (r : Result LeaseError (Dict String Value)) (info : Dict String Value)
      → nothrow_round is_truthy (as_call r) ≡ returned info
      → r ≡ ok info
  unfolding nothrow_round as_call
  call-returned (err (timeout message)) info h = absurd (ground (arith, h))
  call-returned (err (failure message)) info h = absurd (ground (arith, h))
  call-returned (ok found) info h = elim (Bool-cases (is_truthy found)) [
    | inl truthy ↦ ground (arith, h, truthy)
    | inr empty ↦ absurd (ground (arith, h, empty))
  ]

  -- How a request for a lease ends: with the address of an acknowledged reply, or with an exception.
  pub data Leases (mac : String) (wanted : Option String)
      (out : Option (Result WaitError (Option Value))) : Type 0 where
    leased :
        (i : ℕ) (info : Dict String Value)
        → IsAcked mac wanted i info
        → out ≡ some (ok (lookup "ip" info))
        → Leases mac wanted out
    refused : (e : WaitError) → out ≡ some (err e) → Leases mac wanted out

-- With enough rounds for the time limit, and a clock that each round puts forward by the interval at
-- least, the request for a lease ends: with an exception, or with the address in the "ack" that answers, in
-- one of the tries, the request of the machine with this MAC address; what that asks for is the wanted
-- address or, if there is none, the one offered to the machine, of the server that offers it.
pub request_lease-Leases :
    (network : Server) (t : Timing) (interval fuel : ℕ) (mac : String) (ip : Option String)
    → ((k : ℕ) → t.before + k * interval ≤ t.clock k)
    → t.timeout < fuel * interval
    → Leases network mac ip (request_lease network t (suc fuel) mac ip)
unfolding request_lease request_lease_sync ip_of
request_lease-Leases network t interval fuel mac ip sleeps enough =
    let predicate : ℕ → Call (Dict String Value) =
      (λ i. as_call (do_request_lease network i mac ip)) in
    elim (wait_for_predicate_nothrow-Ends is_truthy predicate t interval fuel sleeps enough) [
      | with_result j info low within r o ↦
          leased j info
            (do_request_lease-IsAcked network j mac ip info
              (call-returned network (do_request_lease network j mac ip) info r))
            (ground (arith, o))
      | with_escape j e low r o ↦ refused (WaitError.escaping e) (ground (arith, o))
      | with_timeout j c low late o ↦ refused (WaitError.timed_out c) (ground (arith, o))
    ]
