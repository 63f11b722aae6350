-- ===== src/Connector/Replies.antt =====
-- A request that the edge sends and its answer that the connector sends: internal/connector/connector.go
-- together with internal/edge/edge.go and internal/protocol/datagram.go.
use tailscale_railway_quic_b.Common.{
  ℕ, ◌≡◌, refl, sym, ap, ◌∙◌, Bool, true, Bytes, Option, none, some, ok, find, take, Result-cases,
  inl, inr, subst, ok-injective, ==_refl, if_cases,
}
use tailscale_railway_quic_b.Net.Laws.{addr_port_eq_iff}
use tailscale_railway_quic_b.Registry.{Time}
use tailscale_railway_quic_b.Protocol.Datagram.{UdpDatagram, encode_udp, decode_udp}
use tailscale_railway_quic_b.Protocol.Datagram.RoundTrip.{IsDatagram, decode_udp-encode_udp}
use tailscale_railway_quic_b.Protocol.Datagram.Addresses.{IsAddrPort}
use tailscale_railway_quic_b.Dnsproxy.{Library}
use tailscale_railway_quic_b.Connector.{
  Flow, Session, Settings, max_udp_payload, inbound, answer, send_answer, read_response, receive,
}
use tailscale_railway_quic_b.Connector.Delivery.{receive-Written}
use tailscale_railway_quic_b.Edge.Flows as Edge
use tailscale_railway_quic_b.Edge.Flows.{Table, touch, want_source, answers, deliver, receive_udp}

-- The bytes that were sent are the encoding of an answer of the flow.
abbrev Answered : Library → ℕ → Flow → Option Bytes → Session × Option Bytes × Bool → Type 0
Answered library id flow payload (t, none, go) = Unit
Answered library id flow payload (t, some wire, go) =
    (p : Bytes) × (payload ≡ some p) × (encode_udp (answer library id flow p) ≡ ok wire)

send_answer-Answered :
    (library : Library) (s : Session) (id : ℕ) (flow : Flow) (sends too_large : Bool)
    (payload : Option Bytes)
    → Answered library id flow payload (send_answer library s id flow sends too_large payload)
unfolding send_answer
send_answer-Answered library s id flow sends too_large none = tt
send_answer-Answered library s id flow sends too_large (some p) =
    elim (Result-cases (encode_udp (answer library id flow p))) [
      | inr (e, q) ↦ rw (q, send_answer) tt
      | inl (wire, q) ↦
          rw (q, send_answer)
            (if_cases (Answered library id flow (some p)) sends _ _ (λ b. (p, refl, q))
              (λ b. (p, refl, q)))
    ]

-- The edge hands on an answer of the flow that it sent the request for.
deliver-answer :
    (t : Table) (now : Time) (active : ℕ) (d : UdpDatagram) (f : Edge.Flow)
    → answers active d f ≡ true
    → deliver t now active d true (some f) ≡ (touch now f.id t, some (f, d.payload))
unfolding deliver
deliver-answer t now active d f h = rw h refl

answers-eq-true :
    (active : ℕ) (d : UdpDatagram) (f : Edge.Flow)
    → f.session ≡ active
    → d.source ≡ want_source f
    → d.destination ≡ f.source
    → answers active d f ≡ true
unfolding answers
answers-eq-true active d f owned from to =
    rw
      (
        owned,
        ==_refl active,
        from,
        to,
        (addr_port_eq_iff (want_source f) (want_source f)).1 refl,
        (addr_port_eq_iff f.source f.source).1 refl,
      )
      refl

receive_udp-answer :
    (t : Table) (now : Time) (active : ℕ) (wire : Bytes) (d : UdpDatagram) (f : Edge.Flow)
    → decode_udp wire ≡ ok d
    → d.response ≡ true
    → find (Edge.has_id d.flow_id) t.by_id ≡ some f
    → answers active d f ≡ true
    → receive_udp t now active wire true ≡ (touch now f.id t, some (f, d.payload))
unfolding receive_udp
receive_udp-answer t now active wire d f decoded response_ known hit =
    rw (decoded, receive_udp) (rw response_ (rw known (deliver-answer t now active d f hit)))

-- A service's answer comes back to the client that asked: the connector has written a request of the
-- edge to a connection, a read of that connection gives bytes, and the connector sends something for
-- them. Then the edge, which still has the request's flow, hands on exactly those bytes, rewritten
-- for a resolver's answer and cut at the connector's buffer, by that flow's socket. The request is one that
-- the edge can have sent: its numbers fit, and it names the flow's number, client and target.
pub receive_udp-read_response :
    (library : Library) (settings : Settings) (s s' r r' : Session) (bytes : Bytes)
    (dials written : Bool) (flow : Flow) (out : Bytes) (packet : UdpDatagram)
    (datagram wire : Bytes) (sends too_large go : Bool) (t : Table) (now : Time) (active : ℕ)
    (f : Edge.Flow)
    → decode_udp bytes ≡ ok packet
    → IsDatagram packet
    → receive library settings s bytes dials written ≡ (s', some (flow, out))
    → read_response library settings r packet.flow_id flow datagram sends too_large
      ≡ (r', some wire, go)
    → find (Edge.has_id packet.flow_id) t.by_id ≡ some f
    → f.session ≡ active
    → packet.source ≡ f.source
    → packet.destination ≡ want_source f
    → (payload : Bytes) × (inbound library settings flow (take max_udp_payload datagram)
        ≡ some payload)
      × (receive_udp t now active wire true ≡ (touch now f.id t, some (f, payload)))
unfolding read_response answer
receive_udp-read_response library settings s s' r r' bytes dials written flow out packet datagram
      wire sends too_large go t now active f decoded fits asked replied known owned from to =
    let w = receive-Written library settings s s' bytes dials written flow out asked in
    let same : w.packet ≡ packet = ok-injective (sym w.decoded ∙ decoded) in
    let source : flow.source ≡ packet.source = w.source ∙ ap (λ (p : UdpDatagram). p.source) same in
    let destination : flow.destination ≡ packet.destination =
      w.destination ∙ ap (λ (p : UdpDatagram). p.destination) same in
    let (payload, e, encoded) = subst (Answered library packet.flow_id flow _) replied (
      send_answer-Answered library r packet.flow_id flow sends too_large
        (inbound library settings flow (take max_udp_payload datagram))) in
    (
      payload,
      e,
      receive_udp-answer t now active wire (answer library packet.flow_id flow payload) f
          (decode_udp-encode_udp (answer library packet.flow_id flow payload) wire
            (record {
              is_flow = fits.is_flow;
              is_source = subst IsAddrPort (sym destination) fits.is_destination;
              is_destination = subst IsAddrPort (sym source) fits.is_source;
            })
            encoded)
          refl known
          (answers-eq-true active (answer library packet.flow_id flow payload) f owned
            (destination ∙ to) (source ∙ from)),
    )
