-- ===== src/Edge/Flows.antt =====
-- internal/edge/edge.go: the UDP flows of the edge, which tie a client's address to a session.
-- The two maps hold pointers to the same flows, so a write to `lastUsed` is made in both lists. A
-- session is its pointer. Every function runs under `udpMu`, so each call is one step.
pub mod Rows
pub mod Invariant
pub mod Calls
pub mod Runs
pub mod Isolation
use tailscale_railway_quic_b.Common.{
  ℕ, suc, ◌+◌, ◌-◌, ◌%◌, ◌^◌, Bool, true, false, not, ◌&&◌, Bytes, Text, text_eq, List, [], ◌∷◌,
  ◌++◌, Option, none, some, Result, ok, err, ltb, leb, ◌==◌, if◌then◌else◌, find, update, delete,
  select, length,
}
use tailscale_railway_quic_b.Net.{AddrPort, addr_port_eq, addr_port_is_valid}
use tailscale_railway_quic_b.Registry.{Time}
use tailscale_railway_quic_b.Protocol.Datagram.{UdpDatagram, decode_udp}

pub record Flow : Type 0 where
  pub id : ℕ
  pub key : Text
  pub session : ℕ
  pub source : AddrPort
  pub destination : AddrPort
  pub translated : AddrPort
  pub last_used : Time
  pub shared_reply : Bool

-- `MaxUDPFlows`, `dnsFlowMax` and `UDPIdleTimeout`.
pub record Limits : Type 0 where
  pub max_flows : ℕ
  pub max_dns_flows : ℕ
  pub idle_timeout : ℕ

-- `flow_id` is the counter that every flow, TCP ones too, takes its number from. `active_flows` and
-- `dropped` are the status counters; `closed_replies` lists the flows whose own socket was closed.
pub record Table : Type 0 where
  pub by_key : List Flow
  pub by_id : List Flow
  pub dns_flows : ℕ
  pub flow_id : ℕ
  pub active_flows : ℕ
  pub dropped : ℕ
  pub closed_replies : List ℕ

-- The maps of a new server.
abbrev pub empty_table : Table
empty_table = record {
  by_key = [];
  by_id = [];
  dns_flows = 0;
  flow_id = 0;
  active_flows = 0;
  dropped = 0;
  closed_replies = [];
}

pub data FlowError : Type 0 where
  flow_limit dns_limit no_reply : FlowError

-- What a caller asks for; `opens` tells whether `openUDPResponse` gives a socket, where it is called.
pub record Query : Type 0 where
  pub key : Text
  pub session : ℕ
  pub source : AddrPort
  pub destination : AddrPort
  pub translated : AddrPort
  pub shared : Bool
  pub has_reply : Bool
  pub opens : Bool

abbrev pub has_key : Text → Flow → Bool
has_key key f = text_eq f.key key

abbrev pub has_id : ℕ → Flow → Bool
has_id id f = f.id == id

-- A write of `lastUsed` through a pointer.
unfoldable pub touch : Time → ℕ → Table → Table
touch now id t = record t {
  by_key = update (has_id id) (λ f. record f { last_used = now }) t.by_key;
  by_id = update (has_id id) (λ f. record f { last_used = now }) t.by_id;
}

-- `atomic.Uint64.Add(1)`.
abbrev pub next_flow : Table → ℕ
next_flow t = (t.flow_id + 1) % 2 ^ 64

unfoldable pub new_flow : Table → Time → Query → Flow
new_flow t now q = record {
  id = next_flow t;
  key = q.key;
  session = q.session;
  source = q.source;
  destination = q.destination;
  translated = q.translated;
  last_used = now;
  shared_reply = q.shared;
}

-- Both maps get the flow; an entry with its key or its number would be replaced.
unfoldable pub add_flow : Flow → Table → Table
add_flow f t = record t {
  by_key = delete (has_key f.key) t.by_key ++ f ∷ [];
  by_id = delete (has_id f.id) t.by_id ++ f ∷ [];
  dns_flows = if f.shared_reply then t.dns_flows + 1 else t.dns_flows;
  flow_id = f.id;
  active_flows = t.active_flows + 1;
}

unfoldable pub create_flow : Limits → Table → Time → Query → Table × Result FlowError Flow
unfolding new_flow add_flow
create_flow limits t now q =
    if leb limits.max_flows (length t.by_id)
    then (t, err flow_limit)
    else if q.shared && leb limits.max_dns_flows t.dns_flows
    then (t, err dns_limit)
    else if not q.has_reply && not q.opens
    then (t, err no_reply)
    else (add_flow (new_flow t now q) t, ok (new_flow t now q))

-- `edgeUDPFlowWithReply`, without the ticker that it starts.
unfoldable pub edge_udp_flow : Limits → Table → Time → Query → Table × Result FlowError Flow
unfolding create_flow touch
edge_udp_flow limits t now q = elim (find (has_key q.key) t.by_key) [
  | some f ↦ (touch now f.id t, ok (record f { last_used = now }))
  | none ↦ create_flow limits t now q
]

-- What the end of a flow does besides the maps: the DNS count, its own socket, the status.
unfoldable pub end_flow : Flow → Table → Table
end_flow f t = record t {
  dns_flows = if f.shared_reply then t.dns_flows - 1 else t.dns_flows;
  active_flows = t.active_flows - 1;
  closed_replies = if f.shared_reply then t.closed_replies else t.closed_replies ++ f.id ∷ [];
}

unfoldable pub remove_flow : Flow → Table → Table
unfolding end_flow
remove_flow f t =
    end_flow f
      (record t { by_key = delete (has_key f.key) t.by_key; by_id = delete (has_id f.id) t.by_id })

-- One tick of the goroutine of flow `id`.
unfoldable pub tick : Limits → Table → Time → ℕ → Table
unfolding remove_flow
tick limits t now id = elim (find (has_id id) t.by_id) [
  | none ↦ t
  | some f ↦ if leb (f.last_used + limits.idle_timeout) now then remove_flow f t else t
]

unfoldable pub drop_datagram : Table → Table
drop_datagram t = record t { dropped = t.dropped + 1 }

-- Where the answers of a flow come from.
unfoldable pub want_source : Flow → AddrPort
want_source f = if addr_port_is_valid f.translated then f.translated else f.destination

unfoldable pub answers : ℕ → UdpDatagram → Flow → Bool
unfolding want_source
answers active packet f =
    (f.session == active && addr_port_eq packet.source (want_source f))
    && addr_port_eq packet.destination f.source

-- The flow and the bytes that go out by its reply socket, if any; `written` tells whether the write
-- succeeds.
unfoldable pub deliver :
    Table → Time → ℕ → UdpDatagram → Bool → Option Flow → Table × Option (Flow × Bytes)
unfolding answers touch drop_datagram
deliver t now active packet written none = (drop_datagram t, none)
deliver t now active packet written (some f) =
    if answers active packet f
    then (
      if written then touch now f.id t else drop_datagram (touch now f.id t),
      some (f, packet.payload),
    )
    else (drop_datagram t, none)

-- One round of `receiveUDP` of the session `active`.
unfoldable pub receive_udp : Table → Time → ℕ → Bytes → Bool → Table × Option (Flow × Bytes)
unfolding deliver drop_datagram
receive_udp t now active bytes written = elim (decode_udp bytes) [
  | err e ↦ (drop_datagram t, none)
  | ok packet ↦
      if packet.response
      then deliver t now active packet written (find (has_id packet.flow_id) t.by_id)
      else (drop_datagram t, none)
]

-- The loop of `closeUDPSession` over the flows that the map had.
unfoldable pub close_each : ℕ → List Flow → Table → Table
unfolding remove_flow
close_each active [] t = t
close_each active (f ∷ fs) t =
    let t' = if f.session == active then remove_flow f t else t in close_each active fs t'

unfoldable pub close_udp_session : ℕ → Table → Table
unfolding close_each
close_udp_session active t = close_each active t.by_id t

-- The loop of `closeUDPFlows` over the old map.
unfoldable pub close_replies : List Flow → Table → Table
close_replies [] t = t
close_replies (f ∷ fs) t = close_replies fs (record t {
  active_flows = t.active_flows - 1;
  closed_replies = if f.shared_reply then t.closed_replies else t.closed_replies ++ f.id ∷ [];
})

unfoldable pub close_udp_flows : Table → Table
unfolding close_replies
close_udp_flows t = close_replies t.by_id (record t { by_key = []; by_id = []; dns_flows = 0 })
