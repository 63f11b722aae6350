-- ===== src/Connector.antt =====
-- internal/connector/connector.go: the UDP flows of a connector's session with the edge. A call under
-- the mutex is one step. A flow is its pointer, `serial`; what the network answers (a dial, a read,
-- a write) is an argument of the step, and deadlines of the sockets are not modelled.
pub mod Tcp
pub mod Delays
pub mod Sessions
pub mod Delivery
pub mod Replies
pub mod Examples
use tailscale_railway_quic_b.Common.{
  ℕ, suc, ◌+◌, ◌*◌, Bool, true, false, not, ◌&&◌, ◌||◌, Bytes, List, [], ◌∷◌, ◌++◌, Option, none,
  some, Result, ok, err, leb, ◌==◌, if◌then◌else◌, find, delete, length, take,
}
use tailscale_railway_quic_b.Net.{
  Addr, AddrPort, Prefix, is6, bits_are, as16, addr_from16, set_byte, unmap, addr_port_eq,
  zero_addr_port,
}
use tailscale_railway_quic_b.Config.Prefixes.{allowed}
use tailscale_railway_quic_b.Protocol.Datagram.{UdpDatagram, encode_udp, decode_udp}
use tailscale_railway_quic_b.Dnsproxy.{Library, Rewriter, query, response}

-- `dnsAddress`: the resolver of the private network, at ::10 of its /16.
unfoldable pub dns_address : Prefix → AddrPort
dns_address prefix =
    if not (is6 prefix.addr) || not (bits_are prefix 16)
    then zero_addr_port
    else record { addr = addr_from16 (set_byte (as16 prefix.addr) 15 0x10); port = 53 }

-- `maxUDPPayload`.
abbrev pub max_udp_payload : ℕ
max_udp_payload = 8 * 1024

-- `udpFlow`.
pub record Flow : Type 0 where
  pub serial : ℕ
  pub source : AddrPort
  pub destination : AddrPort
  pub dns : Bool

-- An entry of the map `flows`.
pub record Entry : Type 0 where
  pub id : ℕ
  pub flow : Flow

-- `udpSession`, with the counters of the status server that it moves. `next` numbers the flows.
pub record Session : Type 0 where
  pub flows : List Entry
  pub closed : Bool
  pub next : ℕ
  pub started : ℕ
  pub ended : ℕ
  pub dropped : ℕ
  pub denied : ℕ

-- What a session reads of the client: `MaxUDPFlows`, the accepted routes, and the rewriter with
-- `dnsAddr` where there is one.
pub record Settings : Type 0 where
  pub max_flows : ℕ
  pub routes : List Prefix
  pub dns : Option Rewriter
  pub dns_addr : AddrPort

abbrev pub new_session : Session
new_session = record {
  flows = [];
  closed = false;
  next = 0;
  started = 0;
  ended = 0;
  dropped = 0;
  denied = 0;
}

pub data FlowError : Type 0 where
  session_closed endpoints_changed flow_limit dial_failed : FlowError

abbrev pub has_id : ℕ → Entry → Bool
has_id id e = e.id == id

unfoldable pub is_dns : Settings → AddrPort → Bool
is_dns settings destination = elim settings.dns [
  | none ↦ false
  | some r ↦ addr_port_eq destination settings.dns_addr
]

unfoldable pub new_flow : Settings → Session → UdpDatagram → Flow
unfolding is_dns
new_flow settings s packet = record {
  serial = s.next;
  source = packet.source;
  destination = packet.destination;
  dns = is_dns settings packet.destination;
}

unfoldable pub start_flow : Settings → Session → UdpDatagram → Session × Result FlowError Flow
unfolding new_flow
start_flow settings s packet = (
  record s {
    flows = s.flows ++ record { id = packet.flow_id; flow = new_flow settings s packet } ∷ [];
    next = suc s.next;
    started = suc s.started;
  },
  ok (new_flow settings s packet),
)

-- `flow`; `dials` tells whether `net.DialUDP` gives a connection, where it is called.
unfoldable pub flow_for : Settings → Session → UdpDatagram → Bool → Session × Result FlowError Flow
unfolding start_flow
flow_for settings s packet dials =
    if s.closed then (s, err session_closed) else elim (find (has_id packet.flow_id) s.flows) [
      | some e ↦
          if not (addr_port_eq e.flow.source packet.source)
            || not (addr_port_eq e.flow.destination packet.destination)
          then (s, err endpoints_changed)
          else (s, ok e.flow)
      | none ↦
          if leb settings.max_flows (length s.flows)
          then (s, err flow_limit)
          else if not dials
          then (s, err dial_failed)
          else start_flow settings s packet
    ]

unfoldable pub drop_datagram : Session → Session
drop_datagram s = record s { dropped = suc s.dropped }

module _ (library : Library) where
  -- The payload for Railway's resolver, or for any other destination as it is.
  unfoldable pub outbound : Settings → Flow → Bytes → Option Bytes
  outbound settings flow payload =
      if flow.dns
      then elim settings.dns [
        | none ↦ none
        | some r ↦ elim (query library r payload) [ ok p ↦ some p | err _ ↦ none ]
      ]
      else some payload

  unfoldable pub inbound : Settings → Flow → Bytes → Option Bytes
  inbound settings flow payload =
      if flow.dns
      then elim settings.dns [
        | none ↦ none
        | some r ↦ elim (response library r payload) [ ok p ↦ some p | err _ ↦ none ]
      ]
      else some payload

  -- The flow that a datagram is written to, with the bytes, if any; `written` tells whether the
  -- write succeeds.
  unfoldable pub write_out :
      Settings → Session → Flow → Option Bytes → Bool → Session × Option (Flow × Bytes)
  unfolding drop_datagram
  write_out settings s flow none written = (drop_datagram s, none)
  write_out settings s flow (some payload) written =
      (if written then s else drop_datagram s, some (flow, payload))

  unfoldable pub to_flow :
      Settings
      → UdpDatagram
      → Bool
      → Session × Result FlowError Flow
      → Session × Option (Flow × Bytes)
  unfolding write_out outbound drop_datagram
  to_flow settings packet written (s, err e) = (drop_datagram s, none)
  to_flow settings packet written (s, ok flow) =
      write_out settings s flow (outbound settings flow packet.payload) written

  -- One round of `receive`.
  unfoldable pub receive :
      Settings → Session → Bytes → Bool → Bool → Session × Option (Flow × Bytes)
  unfolding to_flow flow_for drop_datagram
  receive settings s bytes dials written = elim (decode_udp bytes) [
    | err e ↦ (drop_datagram s, none)
    | ok packet ↦
        if packet.response
        then (drop_datagram s, none)
        else if not (allowed settings.routes (unmap packet.destination.addr))
        then (drop_datagram (record s { denied = suc s.denied }), none)
        else to_flow settings packet written (flow_for settings s packet dials)
  ]

  -- The datagram of an answer of the flow `id`.
  unfoldable pub answer : ℕ → Flow → Bytes → UdpDatagram
  answer id flow payload = record {
    flow_id = id;
    response = true;
    source = flow.destination;
    destination = flow.source;
    payload = payload;
  }

  -- What is sent for an answer, if anything, and whether the loop goes on. `sends` tells whether
  -- SendDatagram succeeds, `too_large` whether its error is a DatagramTooLargeError.
  unfoldable pub send_answer :
      Session → ℕ → Flow → Bool → Bool → Option Bytes → Session × Option Bytes × Bool
  unfolding answer drop_datagram
  send_answer s id flow sends too_large none = (drop_datagram s, none, true)
  send_answer s id flow sends too_large (some payload) =
      elim (encode_udp (answer id flow payload)) [
        | err e ↦ (drop_datagram s, none, false)
        | ok packet ↦
            if sends then (s, some packet, true) else (drop_datagram s, some packet, too_large)
      ]

  -- One round of `readResponses`, for the bytes that a read gave.
  unfoldable pub read_response :
      Settings → Session → ℕ → Flow → Bytes → Bool → Bool → Session × Option Bytes × Bool
  unfolding inbound send_answer
  read_response settings s id flow datagram sends too_large =
      send_answer s id flow sends too_large (inbound settings flow (take max_udp_payload datagram))

-- The deferred function of `readResponses`.
unfoldable pub end_flow : Session → ℕ → Flow → Session
end_flow s id flow = elim (find (has_id id) s.flows) [
  | none ↦ s
  | some e ↦
      if e.flow.serial == flow.serial
      then record s { flows = delete (has_id id) s.flows; ended = suc s.ended }
      else s
]

-- `close`; the loop over the flows that it had ends each.
unfoldable pub close : Session → Session
close s =
    if s.closed then s else record s { flows = []; closed = true; ended = s.ended + length s.flows }
