-- ===== src/Edge/Examples.antt =====
-- The edge's theorems at concrete addresses and flows.
use tailscale_railway_quic_b.Common.{
  ℕ, ◌≡◌, ◌+◌, ◌*◌, ◌^◌, refl, ap, Bytes, List, [], ◌∷◌, some, ok, find, arith, true, false,
  text_eq,
}
use tailscale_railway_quic_b.Net.{
  v4, v6, AddrPort, Prefix, zero_addr_port, unmap, as16, masked, is6, contains, addr_from16,
  addr_eq, addr_port_eq, addr_port_is_valid, is_valid,
}
use tailscale_railway_quic_b.Protocol.Datagram.{decode_udp, decode_addresses, unmarshal_addr_port}
use tailscale_railway_quic_b.Edge.Translation.{translate_address, translate_addr_port}
use tailscale_railway_quic_b.Edge.Translation.RoundTrip.{IsAddr, translate_addr_port-back}
use tailscale_railway_quic_b.Config.Prefixes.{allowed}
use tailscale_railway_quic_b.Edge.Routes.{
  Session, Entry, route_entry, serves, route, Routed, route-Routed,
}
use tailscale_railway_quic_b.Common.{exists, none}
use tailscale_railway_quic_b.Edge.Flows.{
  Flow, Limits, Table, Query, empty_table, receive_udp, answers, want_source,
}
use tailscale_railway_quic_b.Edge.Flows.Invariant.{Inv}
use tailscale_railway_quic_b.Edge.Flows.Runs.{
  Event, flow_wanted, tcp_accepted, session_closed, run, run-Inv,
}
use tailscale_railway_quic_b.Edge.Flows.Isolation.{Delivered, receive_udp-Delivered}

abbrev network : ℕ → Prefix
network first = record { addr = v6 (first * 2 ^ 112) []; bits_plus_one = 17 }

abbrev host : ℕ → AddrPort
host first = record { addr = v6 (first * 2 ^ 112 + 5) []; port = 80 }

translated : translate_addr_port (host 0xfd01) (network 0xfd01) (network 0xfd02) ≡ ok (host 0xfd02)
unfolding translate_addr_port translate_address unmap masked contains is6 as16 addr_from16 text_eq
translated = refl

translate_addr_port-back_example :
    translate_addr_port (host 0xfd02) (network 0xfd02) (network 0xfd01) ≡ ok (host 0xfd01)
unfolding as16 IsAddr
translate_addr_port-back_example =
    translate_addr_port-back (host 0xfd01) (host 0xfd02) (network 0xfd01) (network 0xfd02)
      (omega arith) (omega arith) (omega arith) (λ e. omega arith) translated

abbrev limits : Limits
limits = record { max_flows = 2; max_dns_flows = 1; idle_timeout = 30 }

abbrev query : Query
query = record {
  key = 1 ∷ [];
  session = 4;
  source = record { addr = v4 8; port = 99 };
  destination = record { addr = v4 7; port = 53 };
  translated = zero_addr_port;
  shared = true;
  has_reply = true;
  opens = false;
}

abbrev events : List Event
events = tcp_accepted ∷ flow_wanted 3 query ∷ flow_wanted 5 query ∷ session_closed 4 ∷ []

run-Inv_example : Inv limits (run limits empty_table events)
run-Inv_example = run-Inv limits events (omega arith)

abbrev pub flow : Flow
flow = record {
  id = 1;
  key = 1 ∷ [];
  session = 4;
  source = record { addr = v4 8; port = 99 };
  destination = record { addr = v4 7; port = 53 };
  translated = zero_addr_port;
  last_used = 3;
  shared_reply = true;
}

abbrev pub table : Table
table = record empty_table {
  by_key = flow ∷ [];
  by_id = flow ∷ [];
  dns_flows = 1;
  flow_id = 1;
  active_flows = 1;
}

abbrev pub response : Bytes
response =
    2 ∷ 1 ∷ 0 ∷ 0 ∷ 0 ∷ 0 ∷ 0 ∷ 0 ∷ 0 ∷ 1 ∷ 6 ∷ 6 ∷ 0 ∷ 0 ∷ 0 ∷ 7 ∷ 53 ∷ 0 ∷ 0 ∷ 0 ∷ 0 ∷ 8 ∷ 99 ∷ 0
    ∷ 42 ∷ []

delivered_answer : (receive_udp table 6 4 response true).1 ≡ some (flow, 42 ∷ [])
unfolding receive_udp decode_udp decode_addresses unmarshal_addr_port find answers want_source
    addr_port_is_valid addr_port_eq addr_eq is_valid
delivered_answer = refl

receive_udp-Delivered_example : Delivered table 4 response flow (42 ∷ [])
receive_udp-Delivered_example =
    receive_udp-Delivered table (receive_udp table 6 4 response true).0 6 4 response true flow
      (42 ∷ []) (ap (λ o. ((receive_udp table 6 4 response true).0, o)) delivered_answer)

abbrev session : Session
session = record { connection = 4; draining = false; routes = network 0xfd02 ∷ [] }

abbrev entry : Entry
entry = record {
  virtual_prefix = network 0xfd01;
  real_prefix = network 0xfd02;
  active = some session;
}

routed : route (entry ∷ []) none (host 0xfd01) ≡ some (session, host 0xfd02)
unfolding route route_entry allowed serves find exists translate_addr_port translate_address unmap
    masked contains is6 as16 addr_from16 text_eq
routed = refl

route-Routed_example : Routed (entry ∷ []) (host 0xfd01) session (host 0xfd02)
route-Routed_example = route-Routed entry [] none (host 0xfd01) session (host 0xfd02) routed
