-- ===== src/Protocol/Datagram/RoundTrip.antt =====
-- Decoding after encoding, and encoding after decoding.
use tailscale_railway_quic_b.Common.{
  ℕ, ◌+◌, ◌^◌, ◌<◌, ◌≤◌, ◌≡◌, refl, sym, ap, ap₂, ◌∙◌, Bool, false, ◌||◌, Bytes, [], ◌∷◌, ◌++◌,
  length, take, drop, ltb, ◌==◌, arith, ok, >>=-eq-ok, ok-injective, All-take, All-drop, subst, All,
  length-append, take_front, drop_front, take-append-drop, length-take, length-drop, drop-add,
  if◌then◌else◌, Bool-cases, inl, inr,
}
use tailscale_railway_quic_b.Net.{AddrPort}
use tailscale_railway_quic_b.Protocol.Words.{
  IsByte, be64, from_be64, from_be64-be64, be64-from_be64,
}
use tailscale_railway_quic_b.Protocol.Datagram.{
  datagram_version, UdpDatagram, marshal_addr_port, unmarshal_addr_port, decode_addresses,
  encode_udp, decode_udp,
}
use tailscale_railway_quic_b.Protocol.Datagram.Addresses.{
  IsAddrPort, unmarshal-marshal, marshal_lengths, from_be64-lt, marshal-unmarshal,
}

pub record IsDatagram (p : UdpDatagram) : Type 0 where
  pub is_flow : p.flow_id < 2 ^ 64
  pub is_source : IsAddrPort p.source
  pub is_destination : IsAddrPort p.destination

-- The three checks passed and both addresses read.
decode_addresses_lem :
    (flow_id : ℕ) (response : Bool) (sl dl : ℕ) (body : Bytes) {source destination : AddrPort}
    → (sl == 0 || dl == 0 || ltb (length body) (sl + dl)) ≡ false
    → unmarshal_addr_port (take sl body) ≡ ok source
    → unmarshal_addr_port (take dl (drop sl body)) ≡ ok destination
    → decode_addresses flow_id response sl dl body
      ≡ ok (record {
        flow_id = flow_id;
        response = response;
        source = source;
        destination = destination;
        payload = drop (sl + dl) body;
      })
unfolding decode_addresses
decode_addresses_lem flow_id response sl dl body fits es ed =
    rw (fits, decode_addresses) (rw (es, ed))

decode_addresses-append :
    (flow_id : ℕ) (response : Bool) (s d payload : Bytes) {source destination : AddrPort}
    → 2 ≤ length s
    → 2 ≤ length d
    → unmarshal_addr_port s ≡ ok source
    → unmarshal_addr_port d ≡ ok destination
    → decode_addresses flow_id response (length s) (length d) (s ++ (d ++ payload))
      ≡ ok (record {
        flow_id = flow_id;
        response = response;
        source = source;
        destination = destination;
        payload = payload;
      })
decode_addresses-append flow_id response s d payload hs hd es ed =
    decode_addresses_lem flow_id response (length s) (length d) (s ++ (d ++ payload))
      (ground (arith, length-append s (d ++ payload), length-append d payload))
      (ap unmarshal_addr_port (take_front s (d ++ payload)) ∙ es)
      (ap unmarshal_addr_port
          (ap (take (length d)) (drop_front s (d ++ payload)) ∙ take_front d payload)
        ∙ ed)
    ∙ rw (
      drop-add (length s) (length d) (s ++ (d ++ payload)),
      drop_front s (d ++ payload),
      drop_front d payload,
    )

flag : Bool → ℕ
flag b = if b then 1 else 0

wire : UdpDatagram → Bytes
unfolding flag
wire p =
    (datagram_version ∷ flag p.response ∷ be64 p.flow_id)
    ++ length (marshal_addr_port p.source)
      ∷ length (marshal_addr_port p.destination)
      ∷ (marshal_addr_port p.source ++ (marshal_addr_port p.destination ++ p.payload))

encode_udp-wire : (p : UdpDatagram) (d : Bytes) → encode_udp p ≡ ok d → d ≡ wire p
unfolding encode_udp wire
encode_udp-wire p d e = ground arith

decode_udp-wire : (p : UdpDatagram) → IsDatagram p → decode_udp (wire p) ≡ ok p
unfolding decode_udp wire
decode_udp-wire p h =
    rw
      (
        from_be64-be64 p.flow_id h.is_flow,
        decode_addresses-append p.flow_id (flag p.response == 1) (marshal_addr_port p.source)
            (marshal_addr_port p.destination) p.payload (marshal_lengths p.source)
            (marshal_lengths p.destination) (unmarshal-marshal p.source h.is_source)
            (unmarshal-marshal p.destination h.is_destination),
      )
      (ground arith)

-- What `EncodeUDP` writes for a datagram, `DecodeUDP` reads back as that datagram.
pub decode_udp-encode_udp :
    (p : UdpDatagram) (d : Bytes) → IsDatagram p → encode_udp p ≡ ok d → decode_udp d ≡ ok p
decode_udp-encode_udp p d h e = rw (encode_udp-wire p d e) (decode_udp-wire p h)

-- What a success of the part behind the header says of the datagram that it returns.
abbrev Decoded : ℕ → Bool → ℕ → ℕ → Bytes → UdpDatagram → Type 0
Decoded flow_id response sl dl body p =
    (p.flow_id ≡ flow_id)
    × (p.response ≡ response)
    × IsAddrPort p.source
    × IsAddrPort p.destination
    × (length (marshal_addr_port p.source) ≡ sl)
    × (length (marshal_addr_port p.destination) ≡ dl)
    × (body ≡ marshal_addr_port p.source ++ (marshal_addr_port p.destination ++ p.payload))

decode_addresses-eq-ok :
    (flow_id : ℕ) (response : Bool) (sl dl : ℕ) (body : Bytes) (p : UdpDatagram)
    → All IsByte body
    → decode_addresses flow_id response sl dl body ≡ ok p
    → Decoded flow_id response sl dl body p
unfolding decode_addresses
decode_addresses-eq-ok flow_id response sl dl body p hb e =
    elim (Bool-cases (sl == 0 || dl == 0 || ltb (length body) (sl + dl))) [
      | inl bad ↦ absurd (ground arith)
      | inr good ↦
          let (s, es, e') =
            >>=-eq-ok (unmarshal_addr_port (take sl body)) _ (rw (good, decode_addresses) at e) in
          let (d, ed, e'') = >>=-eq-ok (unmarshal_addr_port (take dl (drop sl body))) _ e' in
          let (ms, vs) = marshal-unmarshal (take sl body) s (All-take IsByte sl body hb) es in
          let (md, vd) =
            marshal-unmarshal (take dl (drop sl body)) d
              (All-take IsByte dl (drop sl body) (All-drop IsByte sl body hb)) ed in
          subst (Decoded flow_id response sl dl body) (ok-injective e'') (
            refl,
            refl,
            vs,
            vd,
            ground (arith, ap length ms, length-take sl body),
            ground (arith, ap length md, length-take dl (drop sl body), length-drop sl body),
            sym (
                ap₂ (λ x y. x ++ (y ++ drop (sl + dl) body)) ms md
                ∙ rw (
                  drop-add sl dl body,
                  take-append-drop dl (drop sl body),
                  take-append-drop sl body,
                )),
          )
    ]

encode_udp-eq_wire :
    (p : UdpDatagram)
    → length (marshal_addr_port p.source) < 256
    → length (marshal_addr_port p.destination) < 256
    → encode_udp p ≡ ok (wire p)
unfolding encode_udp wire
encode_udp-eq_wire p hs hd = ground arith

flag-test : (flags : ℕ) (b : Bool) → flags ≤ 1 → b ≡ (flags == 1) → flag b ≡ flags
unfolding flag
flag-test flags b h e = ground arith

-- Whatever `DecodeUDP` accepts is the encoding of the datagram that it returns, and that datagram
-- is one that Go's types can hold: no two byte strings decode to one datagram.
pub encode_udp-decode_udp :
    (d : Bytes) (p : UdpDatagram)
    → All IsByte d
    → decode_udp d ≡ ok p
    → (encode_udp p ≡ ok d) × IsDatagram p
unfolding decode_udp wire
encode_udp-decode_udp (v ∷ flags ∷ a ∷ b ∷ c ∷ d ∷ e ∷ f ∷ g ∷ h ∷ sl ∷ dl ∷ body) p
      (hv, (hx, (ha, (hb, (hc, (hd, (he, (hf, (hg, (hh, (hsl, (hdl, hbody)))))))))))) r =
    let version : v ≡ datagram_version = ground arith in
    let flags_ok : flags ≤ 1 = ground arith in
    let inner : decode_addresses (from_be64 a b c d e f g h) (flags == 1) sl dl body ≡ ok p =
      ground arith in
    let (i, response, vs, vd, ls, ld, split) =
      decode_addresses-eq-ok _ _ sl dl body p hbody inner in
    let flag_eq : flag p.response ≡ flags = flag-test flags p.response flags_ok response in
    let flow : be64 p.flow_id ≡ a ∷ b ∷ c ∷ d ∷ e ∷ f ∷ g ∷ h ∷ [] =
      ap be64 i ∙ be64-from_be64 a b c d e f g h ha hb hc hd he hf hg hh in
    let header = ap₂ (λ x y. x ∷ flag p.response ∷ y) (sym version) flow in
    let addresses =
      ap₂
        (λ x y.
          x ∷ y ∷ (marshal_addr_port p.source ++ (marshal_addr_port p.destination ++ p.payload)))
        ls ld in
    (
      encode_udp-eq_wire p (omega arith) (omega arith)
          ∙ ap ok (
              ap₂ ◌++◌ header addresses
              ∙ ap₂ (λ x y. v ∷ x ∷ a ∷ b ∷ c ∷ d ∷ e ∷ f ∷ g ∷ h ∷ sl ∷ dl ∷ y) flag_eq
                  (sym split)),
      record {
        is_flow = rw i (from_be64-lt a b c d e f g h ha hb hc hd he hf hg hh);
        is_source = vs;
        is_destination = vd;
      },
    )
encode_udp-decode_udp _ p hb r = absurd (cc)
