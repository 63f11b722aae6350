-- ===== src/Edge/Flows/Calls.antt =====
-- Every call keeps the invariant of the flow table.
use tailscale_railway_quic_b.Common.{
  ℕ, ◌+◌, ◌^◌, ◌<◌, ◌≡◌, refl, sym, ◌∙◌, subst, Bool, true, false, not, ◌&&◌, Bytes, List, [], ◌∷◌,
  Option, none, some, leb, ◌==◌, if◌then◌else◌, find, count, length, All, arith, Bool-cases,
  Option-cases, Result-cases, inl, inr, find-true,
}
use tailscale_railway_quic_b.Registry.{Time}
use tailscale_railway_quic_b.Protocol.Datagram.{UdpDatagram, decode_udp}
use tailscale_railway_quic_b.Edge.Flows.{
  Flow, Limits, Table, Query, has_key, has_id, touch, new_flow, create_flow, edge_udp_flow,
  end_flow, remove_flow, tick, drop_datagram, deliver, receive_udp, answers, close_each,
  close_udp_session, close_replies, close_udp_flows,
}
use tailscale_railway_quic_b.Edge.Flows.Rows.{Apart, Distinct, find_each, find-delete}
use tailscale_railway_quic_b.Edge.Flows.Invariant.{Inv, touch-Inv, remove_flow-Inv, add_flow-Inv}

create_flow-Inv :
    (limits : Limits) (t : Table) (now : Time) (q : Query)
    → Inv limits t
    → t.flow_id + 1 < 2 ^ 64
    → find (has_key q.key) t.by_key ≡ none
    → Inv limits (create_flow limits t now q).0
unfolding create_flow new_flow
create_flow-Inv limits t now q inv wrap none_yet =
    elim (Bool-cases (leb limits.max_flows (length t.by_id))) [
      | inl e1 ↦ rw e1 inv
      | inr e1 ↦ elim (Bool-cases (q.shared && leb limits.max_dns_flows t.dns_flows)) [
        | inl e2 ↦ rw (e1, e2) inv
        | inr e2 ↦ elim (Bool-cases (not q.has_reply && not q.opens)) [
          | inl e3 ↦ rw (e1, e2, e3) inv
          | inr e3 ↦
              rw (e1, e2, e3)
                (add_flow-Inv limits t (new_flow t now q) inv (omega arith) none_yet e1 e2)
        ]
      ]
    ]

pub edge_udp_flow-Inv :
    (limits : Limits) (t : Table) (now : Time) (q : Query)
    → Inv limits t
    → t.flow_id + 1 < 2 ^ 64
    → Inv limits (edge_udp_flow limits t now q).0
unfolding edge_udp_flow
edge_udp_flow-Inv limits t now q inv wrap = elim (Option-cases (find (has_key q.key) t.by_key)) [
  | inr (f, e) ↦ rw (e, edge_udp_flow) (touch-Inv limits t now f.id inv)
  | inl e ↦ rw (e, edge_udp_flow) (create_flow-Inv limits t now q inv wrap e)
]

pub tick-Inv :
    (limits : Limits) (t : Table) (now : Time) (id : ℕ)
    → Inv limits t
    → Inv limits (tick limits t now id)
unfolding tick
tick-Inv limits t now id inv = elim (Option-cases (find (has_id id) t.by_id)) [
  | inl e ↦ rw (e, tick) inv
  | inr (f, e) ↦ elim (Bool-cases (leb (f.last_used + limits.idle_timeout) now)) [
    | inr late ↦ rw (e, tick) (rw late inv)
    | inl late ↦
        let is_id = find-true (has_id id) t.by_id e in
        let number : id ≡ f.id = ground arith in
        rw (e, tick)
          (rw late (
            remove_flow-Inv limits t f inv
              (subst (λ i. find (has_id i) t.by_id ≡ some f) number e)))
  ]
]

others :
    (f : Flow) (fs : List Flow) (t : Table)
    → All (Apart f) fs
    → All (λ g. find (has_id g.id) t.by_id ≡ some g) fs
    → All (λ g. find (has_id g.id) (remove_flow f t).by_id ≡ some g) fs
unfolding remove_flow end_flow
others f [] t apart found = tt
others f (g ∷ gs) t ((k, i), apart) (here, found) =
    (find-delete g.id f.id t.by_id (λ q. i (sym q)) ∙ here, others f gs t apart found)

close_each-Inv :
    (limits : Limits) (active : ℕ) (fs : List Flow) (t : Table)
    → Distinct fs
    → All (λ f. find (has_id f.id) t.by_id ≡ some f) fs
    → Inv limits t
    → Inv limits (close_each active fs t)
unfolding close_each
close_each-Inv limits active [] t d found inv = inv
close_each-Inv limits active (f ∷ fs) t (apart, d) (here, found) inv =
    elim (Bool-cases (f.session == active)) [
      | inl e ↦ rw e (
          close_each-Inv limits active fs (remove_flow f t) d (others f fs t apart found)
            (remove_flow-Inv limits t f inv here))
      | inr e ↦ rw e (close_each-Inv limits active fs t d found inv)
    ]

pub close_udp_session-Inv :
    (limits : Limits) (active : ℕ) (t : Table)
    → Inv limits t
    → Inv limits (close_udp_session active t)
unfolding close_udp_session
close_udp_session-Inv limits active t inv =
    close_each-Inv limits active t.by_id t inv.distinct (find_each t.by_id inv.distinct) inv

close_replies-Inv :
    (limits : Limits) (fs : List Flow) (t : Table)
    → t.by_key ≡ []
    → t.by_id ≡ []
    → t.dns_flows ≡ 0
    → t.active_flows ≡ length fs
    → Inv limits (close_replies fs t)
unfolding close_replies count
close_replies-Inv limits [] t k i d a = record {
  same = k ∙ sym i;
  distinct = rw i tt;
  issued = rw i tt;
  dns = rw i d;
  live = rw i a;
  room = rw i (omega arith);
  dns_room = omega arith;
}
close_replies-Inv limits (f ∷ fs) t k i d a = close_replies-Inv limits fs _ k i d (omega arith)

pub close_udp_flows-Inv :
    (limits : Limits) (t : Table) → Inv limits t → Inv limits (close_udp_flows t)
unfolding close_udp_flows
close_udp_flows-Inv limits t inv = close_replies-Inv limits t.by_id _ refl refl refl inv.live

drop_datagram-Inv : (limits : Limits) (t : Table) → Inv limits t → Inv limits (drop_datagram t)
unfolding drop_datagram
drop_datagram-Inv limits t inv = record {
  same = inv.same;
  distinct = inv.distinct;
  issued = inv.issued;
  dns = inv.dns;
  live = inv.live;
  room = inv.room;
  dns_room = inv.dns_room;
}

deliver-Inv :
    (limits : Limits) (t : Table) (now : Time) (active : ℕ) (packet : UdpDatagram) (written : Bool)
    (o : Option Flow)
    → Inv limits t
    → Inv limits (deliver t now active packet written o).0
unfolding deliver
deliver-Inv limits t now active packet written none inv = drop_datagram-Inv limits t inv
deliver-Inv limits t now active packet written (some f) inv =
    elim (Bool-cases (answers active packet f)) [
      | inr e ↦ rw e (drop_datagram-Inv limits t inv)
      | inl e ↦ rw e (sent written)
    ]
  where
    sent :
        (b : Bool) → Inv limits (if b then touch now f.id t else drop_datagram (touch now f.id t))
    sent true = touch-Inv limits t now f.id inv
    sent false = drop_datagram-Inv limits (touch now f.id t) (touch-Inv limits t now f.id inv)

pub receive_udp-Inv :
    (limits : Limits) (t : Table) (now : Time) (active : ℕ) (bytes : Bytes) (written : Bool)
    → Inv limits t
    → Inv limits (receive_udp t now active bytes written).0
unfolding receive_udp
receive_udp-Inv limits t now active bytes written inv = elim (Result-cases (decode_udp bytes)) [
  | inr (x, e) ↦ rw (e, receive_udp) (drop_datagram-Inv limits t inv)
  | inl (packet, e) ↦ elim (Bool-cases packet.response) [
    | inl r ↦
        rw (e, receive_udp)
          (rw r (
            deliver-Inv limits t now active packet written (find (has_id packet.flow_id) t.by_id)
              inv))
    | inr r ↦ rw (e, receive_udp) (rw r (drop_datagram-Inv limits t inv))
  ]
]
