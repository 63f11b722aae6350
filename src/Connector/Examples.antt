-- ===== src/Connector/Examples.antt =====
-- The connector's theorems at a concrete session.
use tailscale_railway_quic_b.Connector.Delays.{
  Attempt, failed, short_session, long_session, jitter, longer, next_delay, wait_for, waits_from,
  waits,
}
use tailscale_railway_quic_b.Connector.Delays.Backoff.{
  IsDrawn, Between, backoff, waits-Between, waits-backoff,
}
use tailscale_railway_quic_b.Common.{
  ◌*◌, ◌^◌, All, List, ℕ, ◌≡◌, refl, ap, true, false, arith, Bytes, [], ◌∷◌, some, none, ok, find,
  exists, take,
}
use tailscale_railway_quic_b.Net.{v4, unmap, contains, contains_addr, addr_port_is_valid, is_valid}
use tailscale_railway_quic_b.Config.Prefixes.{allowed}
use tailscale_railway_quic_b.Protocol.Datagram.{
  UdpDatagram, decode_udp, decode_addresses, unmarshal_addr_port, encode_udp, marshal_addr_port,
}
use tailscale_railway_quic_b.Protocol.Datagram.RoundTrip.{IsDatagram}
use tailscale_railway_quic_b.Dnsproxy.Examples.{library}
use tailscale_railway_quic_b.Edge.Examples as Edge
use tailscale_railway_quic_b.Edge.Flows.{receive_udp, touch, want_source}
use tailscale_railway_quic_b.Connector.{
  Flow, Session, Settings, new_session, flow_for, start_flow, new_flow, is_dns, outbound, inbound,
  write_out, to_flow, receive, answer, send_answer, read_response, max_udp_payload,
}
use tailscale_railway_quic_b.Connector.Sessions.{
  begins, steps, receives, IsSession, Reachable-IsSession,
}
use tailscale_railway_quic_b.Connector.Delivery.{Written, receive-Written}
use tailscale_railway_quic_b.Connector.Replies.{receive_udp-read_response}
use tailscale_railway_quic_b.Connector.Tcp as Tcp
use tailscale_railway_quic_b.Connector.Tcp.{OpenTcp, Justified, handle_tcp, handle_tcp-Justified}

abbrev settings : Settings
settings = record {
  max_flows = 2;
  routes = record { addr = v4 0; bits_plus_one = 1 } ∷ [];
  dns = none;
  dns_addr = record { addr = v4 1; port = 53 };
}

-- The datagram of the edge's flow, on the wire.
abbrev packet : UdpDatagram
packet = record {
  flow_id = 1;
  response = false;
  source = record { addr = v4 8; port = 99 };
  destination = record { addr = v4 7; port = 53 };
  payload = 42 ∷ [];
}

abbrev bytes : Bytes
bytes =
    2 ∷ 0 ∷ 0 ∷ 0 ∷ 0 ∷ 0 ∷ 0 ∷ 0 ∷ 0 ∷ 1 ∷ 6 ∷ 6 ∷ 0 ∷ 0 ∷ 0 ∷ 8 ∷ 99 ∷ 0 ∷ 0 ∷ 0 ∷ 0 ∷ 7 ∷ 53 ∷ 0
    ∷ 42 ∷ []

abbrev flow : Flow
flow = record { serial = 0; source = packet.source; destination = packet.destination; dns = false }

abbrev after : Session
after = (receive library settings new_session bytes true true).0

packet_decoded : decode_udp bytes ≡ ok packet
unfolding decode_udp decode_addresses unmarshal_addr_port
packet_decoded = refl

written_answer : (receive library settings new_session bytes true true).1 ≡ some (flow, 42 ∷ [])
unfolding receive decode_udp decode_addresses unmarshal_addr_port allowed exists contains
    contains_addr unmap to_flow flow_for start_flow new_flow is_dns outbound write_out find
written_answer = refl

written : receive library settings new_session bytes true true ≡ (after, some (flow, 42 ∷ []))
written = ap (λ o. (after, o)) written_answer

receive-Written_example : Written library settings new_session bytes flow (42 ∷ [])
receive-Written_example =
    receive-Written library settings new_session after bytes true true flow (42 ∷ []) written

Reachable-IsSession_example : IsSession settings after
Reachable-IsSession_example =
    Reachable-IsSession library settings after (steps begins (receives new_session bytes true true))

packet-IsDatagram : IsDatagram packet
packet-IsDatagram = record {
  is_flow = omega arith;
  is_source = record { is_addr = omega arith; is_port = omega arith };
  is_destination = record { is_addr = omega arith; is_port = omega arith };
}

answered :
    read_response library settings after 1 flow (42 ∷ []) true false
    ≡ (after, some Edge.response, true)
unfolding read_response send_answer inbound answer encode_udp marshal_addr_port
answered = refl

receive_udp-read_response_example :
    (payload : Bytes) × (inbound library settings flow (take max_udp_payload (42 ∷ []))
      ≡ some payload)
    × (receive_udp Edge.table 6 4 Edge.response true
        ≡ (touch 6 1 Edge.table, some (Edge.flow, payload)))
unfolding find want_source addr_port_is_valid is_valid
receive_udp-read_response_example =
    receive_udp-read_response library settings new_session after after after bytes true true flow
      (42 ∷ []) packet (42 ∷ []) Edge.response true false true Edge.table 6 4 Edge.flow
      packet_decoded packet-IsDatagram written answered refl refl refl refl

abbrev tcp_settings : Tcp.Settings
tcp_settings = record { routes = settings.routes; dial_timeout = 5; dns_addr = none }

abbrev request : OpenTcp
request = record { target = some packet.destination; deadline_ms = 3 }

handle_tcp-Justified_example :
    Justified tcp_settings request 7 (handle_tcp tcp_settings request 7 none true)
handle_tcp-Justified_example = handle_tcp-Justified tcp_settings request 7 none true

-- Half of the range of rand.Float64.
abbrev half : ℕ
half = 2 ^ 52

abbrev attempts : List Attempt
attempts = failed half ∷ short_session 0 ∷ long_session ∷ failed half ∷ []

attempts-IsDrawn : All IsDrawn attempts
unfolding IsDrawn
attempts-IsDrawn = (omega arith, (omega arith, (tt, (omega arith, tt))))

waits-Between_example : All (Between 250000000 15000000000) (waits 250000000 15000000000 attempts)
waits-Between_example = waits-Between 250000000 15000000000 attempts (omega arith) attempts-IsDrawn

waits-backoff_example :
    waits 250000000 15000000000 attempts ≡ backoff 250000000 15000000000 0 attempts
waits-backoff_example = waits-backoff 250000000 15000000000 attempts (omega arith)

-- A quarter of a second at first, 0.8 times 0.425 seconds next, and a quarter again.
waits_of_attempts : waits 250000000 15000000000 attempts ≡ 250000000 ∷ 340000000 ∷ 250000000 ∷ []
unfolding waits waits_from wait_for next_delay longer jitter
waits_of_attempts = refl

-- A wait below the lower bound, and one above the upper bound.
waits_beyond :
    waits 10000000000 15000000000 (failed 0 ∷ failed (3 * 2 ^ 51) ∷ [])
    ≡ 8000000000 ∷ 16500000000 ∷ []
unfolding waits waits_from wait_for next_delay longer jitter
waits_beyond = refl
