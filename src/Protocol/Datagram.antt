-- ===== src/Protocol/Datagram.antt =====
-- internal/protocol/datagram.go. `netip.AddrPort.MarshalBinary` and `UnmarshalBinary` are written out
-- as the standard library documents them: the address (nothing, 4 bytes, or 16 bytes and the zone),
-- then the port, its low byte first.
pub mod Addresses
pub mod RoundTrip
use tailscale_railway_quic_b.Common.{
  ℕ, suc, ◌+◌, ◌-◌, ◌*◌, ◌/◌, ◌%◌, ◌^◌, Bool, true, false, ◌&&◌, ◌||◌, Bytes, List, [], ◌∷◌, ◌++◌,
  length, take, drop, ltb, ◌==◌, if◌then◌else◌, Result, ok, err, ◌>>=◌,
}
use tailscale_railway_quic_b.Net.{Addr, zero_addr, v4, v6, AddrPort}
use tailscale_railway_quic_b.Protocol.Words.{be32, be64, from_be32, from_be64}

pub record UdpDatagram : Type 0 where
  pub flow_id : ℕ
  pub response : Bool
  pub source : AddrPort
  pub destination : AddrPort
  pub payload : Bytes

pub data Error : Type 0 where
  address_too_long invalid_datagram invalid_flags invalid_lengths invalid_address : Error

abbrev pub datagram_version : ℕ
datagram_version = 2

unfoldable pub be128 : ℕ → Bytes
be128 a = be64 (a / 2 ^ 64) ++ be64 (a % 2 ^ 64)

unfoldable pub marshal_addr : Addr → Bytes
unfolding be128
marshal_addr zero_addr = []
marshal_addr (v4 a) = be32 a
marshal_addr (v6 a z) = be128 a ++ z

unfoldable pub marshal_addr_port : AddrPort → Bytes
unfolding marshal_addr
marshal_addr_port a = marshal_addr a.addr ++ (a.port % 256) ∷ (a.port / 256) ∷ []

-- Any other length is refused; what follows the 16 bytes is the zone.
unfoldable pub unmarshal_addr : Bytes → Result Error Addr
unmarshal_addr [] = ok zero_addr
unmarshal_addr (a ∷ b ∷ c ∷ d ∷ []) = ok (v4 (from_be32 a b c d))
unmarshal_addr (a ∷ b ∷ c ∷ d ∷ e ∷ f ∷ g ∷ h ∷ i ∷ j ∷ k ∷ l ∷ m ∷ n ∷ o ∷ p ∷ zone) =
    ok (v6 (from_be64 a b c d e f g h * 2 ^ 64 + from_be64 i j k l m n o p) zone)
unmarshal_addr _ = err invalid_address

unfoldable pub unmarshal_port : Bytes → ℕ
unmarshal_port (a ∷ b ∷ _) = a + b * 256
unmarshal_port _ = 0

unfoldable pub unmarshal_addr_port : Bytes → Result Error AddrPort
unfolding unmarshal_addr unmarshal_port
unmarshal_addr_port data' =
    if ltb (length data') 2
    then err invalid_address
    else unmarshal_addr (take (length data' - 2) data') >>= λ addr.
        ok (record { addr = addr; port = unmarshal_port (drop (length data' - 2) data') })

-- `MarshalBinary` of an AddrPort never fails.
unfoldable pub encode_udp : UdpDatagram → Result Error Bytes
encode_udp packet =
    let source = marshal_addr_port packet.source in
    let destination = marshal_addr_port packet.destination in
    if ltb 255 (length source) || ltb 255 (length destination)
    then err address_too_long
    else ok (
        (datagram_version ∷ (if packet.response then 1 else 0) ∷ be64 packet.flow_id)
        ++ length source ∷ length destination ∷ (source ++ (destination ++ packet.payload)))

-- The part of `DecodeUDP` behind the first twelve bytes.
unfoldable pub decode_addresses : ℕ → Bool → ℕ → ℕ → Bytes → Result Error UdpDatagram
decode_addresses flow_id response source_length destination_length body =
    if source_length == 0
      || destination_length == 0
      || ltb (length body) (source_length + destination_length)
    then err invalid_lengths
    else do
      source ← unmarshal_addr_port (take source_length body)
      destination ← unmarshal_addr_port (take destination_length (drop source_length body))
      ok (record {
        flow_id = flow_id;
        response = response;
        source = source;
        destination = destination;
        payload = drop (source_length + destination_length) body;
      })

-- `data[1] &^ 1 != 0` is `1 < data[1]`.
unfoldable pub decode_udp : Bytes → Result Error UdpDatagram
unfolding decode_addresses
decode_udp (v ∷ flags ∷ a ∷ b ∷ c ∷ d ∷ e ∷ f ∷ g ∷ h ∷ sl ∷ dl ∷ body) =
    if v == datagram_version
    then if ltb 1 flags
      then err invalid_flags
      else decode_addresses (from_be64 a b c d e f g h) (flags == 1) sl dl body
    else err invalid_datagram
decode_udp _ = err invalid_datagram
