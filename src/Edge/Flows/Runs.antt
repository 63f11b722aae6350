-- ===== src/Edge/Flows/Runs.antt =====
-- Runs of the flow table: any calls in any order, and what a session can reach.
use tailscale_railway_quic_b.Common.{
  ℕ, ◌+◌, ◌^◌, ◌≤◌, ◌<◌, ◌≡◌, refl, Bool, true, false, Bytes, List, [], ◌∷◌, Option, none, some,
  ◌==◌, if◌then◌else◌, find, length, All-map, arith, Bool-cases, Result-cases, inl, inr,
}
use tailscale_railway_quic_b.Registry.{Time}
use tailscale_railway_quic_b.Protocol.Datagram.{UdpDatagram, decode_udp}
use tailscale_railway_quic_b.Edge.Flows.{
  Flow, Limits, Table, Query, empty_table, has_id, touch, next_flow, new_flow, add_flow,
  create_flow, edge_udp_flow, end_flow, remove_flow, tick, drop_datagram, deliver, receive_udp,
  answers, close_each, close_udp_session, close_replies, close_udp_flows,
}
use tailscale_railway_quic_b.Edge.Flows.Invariant.{Inv, Inv-empty}
use tailscale_railway_quic_b.Edge.Flows.Calls.{
  edge_udp_flow-Inv, tick-Inv, close_udp_session-Inv, close_udp_flows-Inv, receive_udp-Inv,
}

-- The calls that take `udpMu`, and the TCP connections, which take numbers from the same counter.
pub data Event : Type 0 where
  flow_wanted : Time → Query → Event
  ticked : Time → ℕ → Event
  received : Time → ℕ → Bytes → Bool → Event
  session_closed : ℕ → Event
  all_closed : Event
  tcp_accepted : Event

pub handle : Limits → Table → Event → Table
unfolding edge_udp_flow tick receive_udp close_udp_session close_udp_flows
handle limits t (flow_wanted now q) = (edge_udp_flow limits t now q).0
handle limits t (ticked now id) = tick limits t now id
handle limits t (received now active bytes written) = (receive_udp t now active bytes written).0
handle limits t (session_closed active) = close_udp_session active t
handle limits t all_closed = close_udp_flows t
handle limits t tcp_accepted = record t { flow_id = next_flow t }

pub run : Limits → Table → List Event → Table
unfolding handle
run limits t [] = t
run limits t (e ∷ es) = run limits (handle limits t e) es

edge_udp_flow-flow_id :
    (limits : Limits) (t : Table) (now : Time) (q : Query)
    → (edge_udp_flow limits t now q).0.flow_id ≤ t.flow_id + 1
unfolding edge_udp_flow create_flow add_flow new_flow touch
edge_udp_flow-flow_id limits t now q = ground arith

tick-flow_id :
    (limits : Limits) (t : Table) (now : Time) (id : ℕ) → (tick limits t now id).flow_id ≡ t.flow_id
unfolding tick remove_flow end_flow
tick-flow_id limits t now id = ground arith

deliver-flow_id :
    (t : Table) (now : Time) (active : ℕ) (packet : UdpDatagram) (written : Bool) (o : Option Flow)
    → (deliver t now active packet written o).0.flow_id ≡ t.flow_id
unfolding deliver drop_datagram touch
deliver-flow_id t now active packet written none = refl
deliver-flow_id t now active packet written (some f) = elim (Bool-cases (answers active packet f)) [
  | inl e ↦ rw e (sent written)
  | inr e ↦ rw e refl
]
  where
    sent :
        (b : Bool)
        → (if b then touch now f.id t else drop_datagram (touch now f.id t)).flow_id ≡ t.flow_id
    sent true = refl
    sent false = refl

receive_udp-flow_id :
    (t : Table) (now : Time) (active : ℕ) (bytes : Bytes) (written : Bool)
    → (receive_udp t now active bytes written).0.flow_id ≡ t.flow_id
unfolding receive_udp drop_datagram
receive_udp-flow_id t now active bytes written = elim (Result-cases (decode_udp bytes)) [
  | inr (x, e) ↦ rw (e, receive_udp) refl
  | inl (packet, e) ↦ elim (Bool-cases packet.response) [
    | inl r ↦
        rw (e, receive_udp)
          (rw r
            (deliver-flow_id t now active packet written (find (has_id packet.flow_id) t.by_id)))
    | inr r ↦ rw (e, receive_udp) (rw r refl)
  ]
]

close_each-flow_id :
    (active : ℕ) (fs : List Flow) (t : Table) → (close_each active fs t).flow_id ≡ t.flow_id
unfolding close_each remove_flow end_flow
close_each-flow_id active [] t = refl
close_each-flow_id active (f ∷ fs) t = elim (Bool-cases (f.session == active)) [
  | inl e ↦ rw (e, close_each) (close_each-flow_id active fs (remove_flow f t))
  | inr e ↦ rw (e, close_each) (close_each-flow_id active fs t)
]

close_replies-flow_id : (fs : List Flow) (t : Table) → (close_replies fs t).flow_id ≡ t.flow_id
unfolding close_replies
close_replies-flow_id [] t = refl
close_replies-flow_id (f ∷ fs) t = close_replies-flow_id fs _

-- A call takes one number at most.
handle-flow_id :
    (limits : Limits) (t : Table) (e : Event) → (handle limits t e).flow_id ≤ t.flow_id + 1
unfolding handle close_udp_session close_udp_flows
handle-flow_id limits t (flow_wanted now q) = edge_udp_flow-flow_id limits t now q
handle-flow_id limits t (ticked now id) = omega (arith, tick-flow_id limits t now id)
handle-flow_id limits t (received now active bytes written) =
    omega (arith, receive_udp-flow_id t now active bytes written)
handle-flow_id limits t (session_closed active) = omega (arith, close_each-flow_id active t.by_id t)
handle-flow_id limits t all_closed =
    omega
      (arith, close_replies-flow_id t.by_id (record t { by_key = []; by_id = []; dns_flows = 0 }))
handle-flow_id limits t tcp_accepted = omega arith

handle-Inv :
    (limits : Limits) (t : Table) (e : Event)
    → Inv limits t
    → t.flow_id + 1 < 2 ^ 64
    → Inv limits (handle limits t e)
unfolding handle
handle-Inv limits t (flow_wanted now q) inv wrap = edge_udp_flow-Inv limits t now q inv wrap
handle-Inv limits t (ticked now id) inv wrap = tick-Inv limits t now id inv
handle-Inv limits t (received now active bytes written) inv wrap =
    receive_udp-Inv limits t now active bytes written inv
handle-Inv limits t (session_closed active) inv wrap = close_udp_session-Inv limits active t inv
handle-Inv limits t all_closed inv wrap = close_udp_flows-Inv limits t inv
handle-Inv limits t tcp_accepted inv wrap = record {
  same = inv.same;
  distinct = inv.distinct;
  issued =
      All-map (λ f. f.id ≤ t.flow_id) (λ f. f.id ≤ next_flow t) (λ f h. omega arith) t.by_id
        inv.issued;
  dns = inv.dns;
  live = inv.live;
  room = inv.room;
  dns_room = inv.dns_room;
}

run_from :
    (limits : Limits) (t : Table) (es : List Event)
    → Inv limits t
    → t.flow_id + length es < 2 ^ 64
    → Inv limits (run limits t es)
unfolding run
run_from limits t [] inv wrap = inv
run_from limits t (e ∷ es) inv wrap =
    let step = handle-flow_id limits t e in
    run_from limits (handle limits t e) es (handle-Inv limits t e inv (omega arith)) (omega arith)

-- The flow table after any calls in any order, from the empty one: the two maps hold the same flows,
-- no two of which share a key or a number, the DNS count is the number of flows with a shared reply
-- socket, the status counter is the number of flows, and both limits are kept. The 64-bit counter of
-- flow numbers must not have wrapped around, that is, there were fewer than 2^64 calls.
pub run-Inv :
    (limits : Limits) (es : List Event)
    → length es < 2 ^ 64
    → Inv limits (run limits empty_table es)
run-Inv limits es few = run_from limits empty_table es (Inv-empty limits) (omega arith)
