-- ===== src/Connector/Delivery.antt =====
-- internal/connector/connector.go: which bytes reach which service.
use tailscale_railway_quic_b.Common.{
  ◌≡◌, refl, Bool, true, false, not, ◌||◌, Bytes, Option, none, some, Result, ok, err, leb, find,
  length, arith, Option-cases, Result-cases, inl, inr, subst, if_cases,
}
use tailscale_railway_quic_b.Net.{addr_port_eq, unmap}
use tailscale_railway_quic_b.Net.Laws.{addr_port_eq_iff}
use tailscale_railway_quic_b.Config.Prefixes.{allowed}
use tailscale_railway_quic_b.Protocol.Datagram.{UdpDatagram, decode_udp}
use tailscale_railway_quic_b.Dnsproxy.{Library}
use tailscale_railway_quic_b.Connector.{
  Flow, Entry, Session, Settings, FlowError, has_id, new_flow, start_flow, flow_for, outbound,
  write_out, to_flow, receive,
}

-- What a flow that a request got is: the request's own, in an open session.
abbrev pub Granted : Session → UdpDatagram → Session × Result FlowError Flow → Type 0
Granted s packet (t, err e) = Unit
Granted s packet (t, ok flow) =
    (s.closed ≡ false) × (flow.source ≡ packet.source) × (flow.destination ≡ packet.destination)

flow_for-Granted :
    (settings : Settings) (s : Session) (packet : UdpDatagram) (dials : Bool)
    → Granted s packet (flow_for settings s packet dials)
unfolding flow_for start_flow new_flow
flow_for-Granted settings s packet dials =
    if_cases (Granted s packet) s.closed _ _ (λ c. tt)
      λ c. elim (Option-cases (find (has_id packet.flow_id) s.flows)) [
        | inr (e, f) ↦ rw f (if_cases (Granted s packet) _ _ _ (λ b. tt) (λ b. same c e b))
        | inl f ↦ rw f (
            if_cases (Granted s packet) (leb settings.max_flows (length s.flows)) _ _ (λ full. tt)
              λ room. if_cases (Granted s packet) (not dials) _ _ (λ d. tt) λ d. (c, refl, refl))
      ]
  where
    same :
        s.closed ≡ false
        → (e : Entry)
        → (not (addr_port_eq e.flow.source packet.source)
            || not (addr_port_eq e.flow.destination packet.destination))
          ≡ false
        → Granted s packet (s, ok e.flow)
    same c e b = (
      c,
      (addr_port_eq_iff e.flow.source packet.source).0 (ground arith),
      (addr_port_eq_iff e.flow.destination packet.destination).0 (ground arith),
    )

-- Why bytes are written to a flow's connection.
pub record Written (library : Library) (settings : Settings) (s : Session) (bytes : Bytes)
    (flow : Flow) (out : Bytes) : Type 0 where
  pub packet : UdpDatagram
  pub decoded : decode_udp bytes ≡ ok packet
  pub request : packet.response ≡ false
  pub permitted : allowed settings.routes (unmap packet.destination.addr) ≡ true
  pub open_session : s.closed ≡ false
  pub source : flow.source ≡ packet.source
  pub destination : flow.destination ≡ packet.destination
  pub payload : outbound library settings flow packet.payload ≡ some out

abbrev Explained : Library → Settings → Session → Bytes → Session × Option (Flow × Bytes) → Type 0
Explained library settings s bytes (t, none) = Unit
Explained library settings s bytes (t, some (flow, out)) = Written library settings s bytes flow out

module _ (library : Library) (settings : Settings) (s : Session) (bytes : Bytes) where
  write_out-Explained :
      (packet : UdpDatagram) (t : Session) (flow : Flow) (payload : Option Bytes) (written : Bool)
      → ((out : Bytes) → payload ≡ some out → Written library settings s bytes flow out)
      → Explained library settings s bytes (write_out library settings t flow payload written)
  unfolding write_out
  write_out-Explained packet t flow none written w = tt
  write_out-Explained packet t flow (some p) written w = w p refl

  to_flow-Explained :
      (packet : UdpDatagram) (written : Bool) (r : Session × Result FlowError Flow)
      → decode_udp bytes ≡ ok packet
      → packet.response ≡ false
      → allowed settings.routes (unmap packet.destination.addr) ≡ true
      → Granted s packet r
      → Explained library settings s bytes (to_flow library settings packet written r)
  unfolding to_flow
  to_flow-Explained packet written (t, err e) d q p g = tt
  to_flow-Explained packet written (t, ok flow) d q p (c, from, to) =
      write_out-Explained packet t flow (outbound library settings flow packet.payload) written
        λ out e. record {
          packet = packet;
          decoded = d;
          request = q;
          permitted = p;
          open_session = c;
          source = from;
          destination = to;
          payload = e;
        }

  receive-Explained :
      (dials written : Bool)
      → Explained library settings s bytes (receive library settings s bytes dials written)
  unfolding receive
  receive-Explained dials written = elim (Result-cases (decode_udp bytes)) [
    | inr (e, d) ↦ rw (d, receive) tt
    | inl (packet, d) ↦
        rw (d, receive)
          (if_cases P packet.response _ _ (λ b. tt)
            λ b.
              if_cases P (not (allowed settings.routes (unmap packet.destination.addr))) _ _
                (λ c. tt)
                λ c.
                  to_flow-Explained packet written (flow_for settings s packet dials) d b
                    (ground arith) (flow_for-Granted settings s packet dials))
  ]
    where
      P : Session × Option (Flow × Bytes) → Type 0
      P = Explained library settings s bytes

-- If bytes are written to a connection of a connector for what the edge sent, then they are those of
-- a request that decodes from it, as it is or rewritten for the resolver; the accepted routes allow
-- the request's destination, the flow has the request's endpoints, and the session is not closed.
pub receive-Written :
    (library : Library) (settings : Settings) (s t : Session) (bytes : Bytes) (dials written : Bool)
    (flow : Flow) (out : Bytes)
    → receive library settings s bytes dials written ≡ (t, some (flow, out))
    → Written library settings s bytes flow out
receive-Written library settings s t bytes dials written flow out h =
    subst (Explained library settings s bytes) h
      (receive-Explained library settings s bytes dials written)
