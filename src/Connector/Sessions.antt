-- ===== src/Connector/Sessions.antt =====
-- internal/connector/connector.go: what holds of a connector's UDP flows whatever happens to a session.
use tailscale_railway_quic_b.Common.{
  ℕ, suc, ◌+◌, ◌≤◌, ◌≡◌, refl, sym, ◌∙◌, Bool, true, false, not, Bytes, List, [], ◌∷◌, ◌++◌, Option,
  none, some, Result, ok, err, leb, ◌==◌, find, delete, count, length, length-append, arith,
  Bool-cases, Option-cases, Result-cases, inl, inr, length-delete, count-delete_le, find-count,
  count-append, find-none, All-count, ==_iff, if_cases,
}
use tailscale_railway_quic_b.Net.{unmap}
use tailscale_railway_quic_b.Config.Prefixes.{allowed}
use tailscale_railway_quic_b.Protocol.Datagram.{UdpDatagram, encode_udp, decode_udp}
use tailscale_railway_quic_b.Dnsproxy.{Library}
use tailscale_railway_quic_b.Connector.{
  Flow, Entry, Session, Settings, new_session, FlowError, has_id, new_flow, start_flow, flow_for,
  drop_datagram, outbound, write_out, to_flow, receive, answer, send_answer, read_response,
  end_flow, close,
}

delete_nil : (p : Entry → Bool) → delete p [] ≡ []
unfolding delete
delete_nil p = refl

one_row : (p : Entry → Bool) (e : Entry) → 0 + count p (e ∷ []) ≤ 1
unfolding count
one_row p e = elim (Bool-cases (p e)) [ inl t ↦ rw t (omega arith) | inr t ↦ rw t (omega arith) ]

no_row : (p : Entry → Bool) (e : Entry) → p e ≡ false → count p (e ∷ []) ≡ 0
unfolding count
no_row p e t = rw t (omega arith)

-- A step of a session: a datagram of the edge, an answer of a service, the end of a flow, the end
-- of the session.
pub data Step (library : Library) (settings : Settings) : Session → Session → Type 0 where
  receives :
      (s : Session) (bytes : Bytes) (dials written : Bool)
      → Step library settings s (receive library settings s bytes dials written).0
  answers :
      (s : Session) (id : ℕ) (flow : Flow) (datagram : Bytes) (sends too_large : Bool)
      → Step library settings s
          (read_response library settings s id flow datagram sends too_large).0
  ends : (s : Session) (id : ℕ) (flow : Flow) → Step library settings s (end_flow s id flow)
  closes : (s : Session) → Step library settings s (close s)

pub data Reachable (library : Library) (settings : Settings) : Session → Type 0 where
  begins : Reachable library settings new_session
  steps :
      {s t : Session}
      → Reachable library settings s
      → Step library settings s t
      → Reachable library settings t

-- The flows keep to the limit, have numbers of their own, are the ones that the status counts as
-- started and not ended, and are gone once the session is closed.
pub record IsSession (settings : Settings) (s : Session) : Type 0 where
  pub limit : length s.flows ≤ settings.max_flows
  pub counted : s.started ≡ s.ended + length s.flows
  pub distinct : (id : ℕ) → count (has_id id) s.flows ≤ 1
  pub shut : s.closed ≡ true → s.flows ≡ []

-- Steps that move no more than the counters of datagrams.
record SameFlows (s t : Session) : Type 0 where
  flows : t.flows ≡ s.flows
  closed : t.closed ≡ s.closed
  started : t.started ≡ s.started
  ended : t.ended ≡ s.ended

same-IsSession :
    (settings : Settings) (s t : Session)
    → SameFlows s t
    → IsSession settings s
    → IsSession settings t
same-IsSession settings s t e i = record {
  limit = rw e.flows i.limit;
  counted = rw (e.started, e.ended, e.flows) i.counted;
  distinct = λ id. rw e.flows (i.distinct id);
  shut = λ c. e.flows ∙ i.shut (sym e.closed ∙ c);
}

unchanged : (s : Session) → SameFlows s s
unchanged s = record { flows = refl; closed = refl; started = refl; ended = refl }

dropped-SameFlows : (s : Session) → SameFlows s (drop_datagram s)
unfolding drop_datagram
dropped-SameFlows s = record { flows = refl; closed = refl; started = refl; ended = refl }

distinct-append :
    (xs : List Entry) (e : Entry) (id : ℕ)
    → find (has_id e.id) xs ≡ none
    → ((id : ℕ) → count (has_id id) xs ≤ 1)
    → count (has_id id) (xs ++ e ∷ []) ≤ 1
distinct-append xs e id absent h = elim (Bool-cases (e.id == id)) [
  | inl same ↦
      let zero_count = All-count (has_id id) xs (find-none (has_id id) xs (renamed same)) in
      rw (count-append (has_id id) xs (e ∷ []), zero_count) (single e)
  | inr apart ↦ rw (count-append (has_id id) xs (e ∷ []), other e apart) (omega (arith, h id))
]
  where
    renamed : (e.id == id) ≡ true → find (has_id id) xs ≡ none
    renamed same = rw⁻¹ ((==_iff e.id id).0 same) absent

    single : (e : Entry) → 0 + count (has_id id) (e ∷ []) ≤ 1
    single e = one_row (has_id id) e

    other : (e : Entry) → (e.id == id) ≡ false → count (has_id id) (e ∷ []) ≡ 0
    other e apart = no_row (has_id id) e apart

start_flow-IsSession :
    (settings : Settings) (s : Session) (packet : UdpDatagram)
    → s.closed ≡ false
    → find (has_id packet.flow_id) s.flows ≡ none
    → leb settings.max_flows (length s.flows) ≡ false
    → IsSession settings s
    → IsSession settings (start_flow settings s packet).0
unfolding start_flow
start_flow-IsSession settings s packet open_ absent room i = record {
  limit = rw (length-append s.flows (added ∷ [])) (ground arith);
  counted = rw (length-append s.flows (added ∷ []), i.counted) (omega arith);
  distinct = λ id. distinct-append s.flows added id absent i.distinct;
  shut = λ c. absurd (cc);
}
  where
    added : Entry
    added = record { id = packet.flow_id; flow = new_flow settings s packet }

flow_for-IsSession :
    (settings : Settings) (s : Session) (packet : UdpDatagram) (dials : Bool)
    → IsSession settings s
    → IsSession settings (flow_for settings s packet dials).0
unfolding flow_for
flow_for-IsSession settings s packet dials i =
    if_cases P s.closed _ _ (λ c. i)
      λ c. elim (Option-cases (find (has_id packet.flow_id) s.flows)) [
        | inr (e, f) ↦ rw f (if_cases P _ _ _ (λ b. i) (λ b. i))
        | inl f ↦ rw f (
            if_cases P (leb settings.max_flows (length s.flows)) _ _ (λ full. i)
              λ room.
                if_cases P (not dials) _ _ (λ d. i)
                  λ d. start_flow-IsSession settings s packet c f room i)
      ]
  where
    P : Session × Result FlowError Flow → Type 0
    P r = IsSession settings r.0

module _ (library : Library) (settings : Settings) where
  write_out-IsSession :
      (s : Session) (flow : Flow) (payload : Option Bytes) (written : Bool)
      → IsSession settings s
      → IsSession settings (write_out library settings s flow payload written).0
  unfolding write_out
  write_out-IsSession s flow none written i = same-IsSession settings s _ (dropped-SameFlows s) i
  write_out-IsSession s flow (some p) true i = i
  write_out-IsSession s flow (some p) false i = same-IsSession settings s _ (dropped-SameFlows s) i

  to_flow-IsSession :
      (packet : UdpDatagram) (written : Bool) (r : Session × Result FlowError Flow)
      → IsSession settings r.0
      → IsSession settings (to_flow library settings packet written r).0
  unfolding to_flow
  to_flow-IsSession packet written (s, err e) i =
      same-IsSession settings s _ (dropped-SameFlows s) i
  to_flow-IsSession packet written (s, ok flow) i =
      write_out-IsSession s flow (outbound library settings flow packet.payload) written i

  receive-IsSession :
      (s : Session) (bytes : Bytes) (dials written : Bool)
      → IsSession settings s
      → IsSession settings (receive library settings s bytes dials written).0
  unfolding receive drop_datagram
  receive-IsSession s bytes dials written i = elim (Result-cases (decode_udp bytes)) [
    | inr (e, d) ↦ rw (d, receive) (same-IsSession settings s _ (dropped-SameFlows s) i)
    | inl (packet, d) ↦
        rw (d, receive)
          (if_cases P packet.response _ _ (λ b. same-IsSession settings s _ (dropped-SameFlows s) i)
            λ b.
              if_cases P (not (allowed settings.routes (unmap packet.destination.addr))) _ _
                (λ c. same-IsSession settings s _ (denied s) i)
                λ c.
                  to_flow-IsSession packet written (flow_for settings s packet dials)
                    (flow_for-IsSession settings s packet dials i))
  ]
    where
      P : Session × Option (Flow × Bytes) → Type 0
      P r = IsSession settings r.0

      denied :
          (s : Session) → SameFlows s (record s { denied = suc s.denied; dropped = suc s.dropped })
      denied s = record { flows = refl; closed = refl; started = refl; ended = refl }

  send_answer-IsSession :
      (s : Session) (id : ℕ) (flow : Flow) (sends too_large : Bool) (payload : Option Bytes)
      → IsSession settings s
      → IsSession settings (send_answer library s id flow sends too_large payload).0
  unfolding send_answer
  send_answer-IsSession s id flow sends too_large none i =
      same-IsSession settings s _ (dropped-SameFlows s) i
  send_answer-IsSession s id flow sends too_large (some payload) i =
      elim (Result-cases (encode_udp (answer library id flow payload))) [
        | inr (e, q) ↦ rw (q, send_answer) (same-IsSession settings s _ (dropped-SameFlows s) i)
        | inl (packet, q) ↦
            rw (q, send_answer)
              (if_cases (λ (r : Session × Option Bytes × Bool). IsSession settings r.0) sends _ _
                (λ b. i) (λ b. same-IsSession settings s _ (dropped-SameFlows s) i))
      ]

  read_response-IsSession :
      (s : Session) (id : ℕ) (flow : Flow) (datagram : Bytes) (sends too_large : Bool)
      → IsSession settings s
      → IsSession settings (read_response library settings s id flow datagram sends too_large).0
  unfolding read_response
  read_response-IsSession s id flow datagram sends too_large i =
      send_answer-IsSession s id flow sends too_large _ i

  end_flow-IsSession :
      (s : Session) (id : ℕ) (flow : Flow)
      → IsSession settings s
      → IsSession settings (end_flow s id flow)
  unfolding end_flow
  end_flow-IsSession s id flow i = elim (Option-cases (find (has_id id) s.flows)) [
    | inl f ↦ rw (f, end_flow) i
    | inr (e, f) ↦
        rw (f, end_flow)
          (if_cases (IsSession settings) (e.flow.serial == flow.serial) _ _ (λ b. removed e f)
            (λ b. i))
  ]
    where
      none_left : s.flows ≡ [] → delete (has_id id) s.flows ≡ []
      none_left c = rw c (delete_nil (has_id id))

      removed :
          (e : Entry)
          → find (has_id id) s.flows ≡ some e
          → IsSession settings
              (record s { flows = delete (has_id id) s.flows; ended = suc s.ended })
      removed e f = record {
        limit = omega (arith, length-delete (has_id id) s.flows, i.limit);
        counted = omega (
          arith,
          length-delete (has_id id) s.flows,
          i.counted,
          i.distinct id,
          find-count (has_id id) s.flows f,
        );
        distinct = λ j. omega (arith, count-delete_le (has_id j) (has_id id) s.flows, i.distinct j);
        shut = λ c. none_left (i.shut c);
      }

  close-IsSession : (s : Session) → IsSession settings s → IsSession settings (close s)
  unfolding close count
  close-IsSession s i =
      if_cases (IsSession settings) s.closed _ _ (λ b. i)
        λ b. record {
          limit = omega arith;
          counted = omega (arith, i.counted);
          distinct = λ id. omega arith;
          shut = λ c. refl;
        }

  step-IsSession :
      (s t : Session) → Step library settings s t → IsSession settings s → IsSession settings t
  step-IsSession s t (receives _ bytes dials written) i = receive-IsSession s bytes dials written i
  step-IsSession s t (answers _ id flow datagram sends too_large) i =
      read_response-IsSession s id flow datagram sends too_large i
  step-IsSession s t (ends _ id flow) i = end_flow-IsSession s id flow i
  step-IsSession s t (closes _) i = close-IsSession s i

  -- Whatever happens to a session of a connector: its flows keep to the limit and have numbers of
  -- their own, the status counts as active the flows that there are, and a closed session has none.
  pub Reachable-IsSession : (s : Session) → Reachable library settings s → IsSession settings s
  unfolding count
  Reachable-IsSession s begins = record {
    limit = omega arith;
    counted = refl;
    distinct = λ id. omega arith;
    shut = λ c. refl;
  }
  Reachable-IsSession s (steps {s = r} reached step) =
      step-IsSession r s step (Reachable-IsSession r reached)
