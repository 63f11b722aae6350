-- ===== src/Edge/Flows/Isolation.antt =====
-- What a session can reach through the flow table.
use tailscale_railway_quic_b.Common.{
  ℕ, ◌≡◌, ap, sym, subst, Bool, true, Bytes, Option, none, some, ok, ◌==◌, find, arith, Bool-cases,
  Result-cases, inl, inr, and_true,
}
use tailscale_railway_quic_b.Net.Laws.{addr_port_eq_iff}
use tailscale_railway_quic_b.Registry.{Time}
use tailscale_railway_quic_b.Protocol.Datagram.{UdpDatagram, decode_udp}
use tailscale_railway_quic_b.Edge.Flows.{
  Flow, Table, has_id, deliver, receive_udp, answers, want_source,
}

-- Why `out` may go out by the socket of flow `f` for a datagram of the session `active`.
pub record Delivered (t : Table) (active : ℕ) (bytes : Bytes) (f : Flow) (out : Bytes)
    : Type 0 where
  pub packet : UdpDatagram
  pub decoded : decode_udp bytes ≡ ok packet
  pub response : packet.response ≡ true
  pub known : find (has_id packet.flow_id) t.by_id ≡ some f
  pub owned : f.session ≡ active
  pub source : packet.source ≡ want_source f
  pub destination : packet.destination ≡ f.source
  pub payload : out ≡ packet.payload

answers-eq-true :
    (active : ℕ) (packet : UdpDatagram) (f : Flow)
    → answers active packet f ≡ true
    → (f.session ≡ active) × ((packet.source ≡ want_source f) × (packet.destination ≡ f.source))
unfolding answers
answers-eq-true active packet f h =
    let (h1, to) = and_true h in
    let (owner, from) = and_true h1 in
    (
      owned owner,
      (
        (addr_port_eq_iff packet.source (want_source f)).0 from,
        (addr_port_eq_iff packet.destination f.source).0 to,
      ),
    )
  where
    owned : (f.session == active) ≡ true → f.session ≡ active
    owned e = ground arith

deliver-eq-some :
    (t t' : Table) (now : Time) (active : ℕ) (packet : UdpDatagram) (written : Bool)
    (o : Option Flow) (f : Flow) (out : Bytes)
    → deliver t now active packet written o ≡ (t', some (f, out))
    → (o ≡ some f) × ((answers active packet f ≡ true) × (out ≡ packet.payload))
unfolding deliver
deliver-eq-some t t' now active packet written none f out h = absurd (cc (ap second h))
  where
    second : Table × Option (Flow × Bytes) → Option (Flow × Bytes)
    second p = p.1
deliver-eq-some t t' now active packet written (some g) f out h =
    elim (Bool-cases (answers active packet g)) [
      | inr e ↦ absurd (cc (ap second (rw e at h)))
      | inl e ↦
          let q = some-injective (ap second (rw e at h)) in
          let same : g ≡ f = ap (λ (p : Flow × Bytes). p.0) q in
          let bytes : packet.payload ≡ out = ap (λ (p : Flow × Bytes). p.1) q in
          (ap some same, (subst (λ x. answers active packet x ≡ true) same e, sym bytes))
    ]
  where
    second : Table × Option (Flow × Bytes) → Option (Flow × Bytes)
    second p = p.1

    some-injective : {x y : Flow × Bytes} → some x ≡ some y → x ≡ y
    some-injective {x} {y} q = ground arith

-- A connector reaches only clients of its own session: whatever datagram a session sends, if bytes
-- go out of the edge for it, then they are the payload of a response that decodes from the datagram,
-- the flow is the one of the datagram's number in the table, that flow belongs to the session, and
-- the datagram names the flow's translated destination (or, without one, its destination) as its
-- source and the flow's client as its destination.
pub receive_udp-Delivered :
    (t t' : Table) (now : Time) (active : ℕ) (bytes : Bytes) (written : Bool) (f : Flow)
    (out : Bytes)
    → receive_udp t now active bytes written ≡ (t', some (f, out))
    → Delivered t active bytes f out
unfolding receive_udp
receive_udp-Delivered t t' now active bytes written f out h =
    elim (Result-cases (decode_udp bytes)) [
      | inr (x, e) ↦ absurd (cc (ap second (rw (e, receive_udp) at h)))
      | inl (packet, e) ↦ elim (Bool-cases packet.response) [
        | inr r ↦ absurd (cc (ap second (rw r at (rw (e, receive_udp) at h))))
        | inl r ↦
            let (known, (hit, payload)) =
              deliver-eq-some t t' now active packet written (find (has_id packet.flow_id) t.by_id)
                f out (rw r at (rw (e, receive_udp) at h)) in
            let (owned, (source, destination)) = answers-eq-true active packet f hit in
            record {
              packet = packet;
              decoded = e;
              response = r;
              known = known;
              owned = owned;
              source = source;
              destination = destination;
              payload = payload;
            }
      ]
    ]
  where
    second : Table × Option (Flow × Bytes) → Option (Flow × Bytes)
    second p = p.1
