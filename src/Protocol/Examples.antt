-- ===== src/Protocol/Examples.antt =====
-- The protocol's theorems at concrete messages.
use tailscale_railway_quic_b.Common.{
  ◌≡◌, ◌⊎◌, ◌≤◌, ◌<◌, refl, sym, ap, ◌∙◌, Bytes, [], ◌∷◌, ◌++◌, All, Option, none, some, ok, err,
  length, take, arith, take_front, append-nil, true,
}
use tailscale_railway_quic_b.Net.{v4}
use tailscale_railway_quic_b.Streams.{IoError, read_full, Writer, write_all, write_loop}
use tailscale_railway_quic_b.Streams.Laws.{Delivers, write_all-Delivers}
use tailscale_railway_quic_b.Protocol.Words.{IsByte}
use tailscale_railway_quic_b.Protocol.Datagram.{
  UdpDatagram, encode_udp, decode_udp, marshal_addr_port, unmarshal_addr_port, decode_addresses,
}
use tailscale_railway_quic_b.Protocol.Datagram.RoundTrip.{
  IsDatagram, decode_udp-encode_udp, encode_udp-decode_udp,
}
use tailscale_railway_quic_b.Protocol.Frame.{
  Codec, oversized, max_control_frame, header_size, read_frame, write_frame,
}
use tailscale_railway_quic_b.Protocol.Frame.RoundTrip.{
  frame, write_frame-Delivers, read_frame-eq-ok, read_frame-write_frame,
}

abbrev datagram : UdpDatagram
datagram = record {
  flow_id = 1;
  response = true;
  source = record { addr = v4 7; port = 53 };
  destination = record { addr = v4 8; port = 99 };
  payload = 42 ∷ [];
}

abbrev wire : Bytes
wire =
    2 ∷ 1 ∷ 0 ∷ 0 ∷ 0 ∷ 0 ∷ 0 ∷ 0 ∷ 0 ∷ 1 ∷ 6 ∷ 6 ∷ 0 ∷ 0 ∷ 0 ∷ 7 ∷ 53 ∷ 0 ∷ 0 ∷ 0 ∷ 0 ∷ 8 ∷ 99 ∷ 0
    ∷ 42 ∷ []

datagram-IsDatagram : IsDatagram datagram
datagram-IsDatagram = record {
  is_flow = omega arith;
  is_source = record { is_addr = omega arith; is_port = omega arith };
  is_destination = record { is_addr = omega arith; is_port = omega arith };
}

encoded : encode_udp datagram ≡ ok wire
unfolding encode_udp marshal_addr_port
encoded = refl

decoded : decode_udp wire ≡ ok datagram
unfolding decode_udp decode_addresses unmarshal_addr_port
decoded = refl

decode_udp-encode_udp_example : decode_udp wire ≡ ok datagram
decode_udp-encode_udp_example = decode_udp-encode_udp datagram wire datagram-IsDatagram encoded

wire-bytes : All IsByte wire
wire-bytes = (
  omega arith,
  (
    omega arith,
    (
      omega arith,
      (
        omega arith,
        (
          omega arith,
          (
            omega arith,
            (
              omega arith,
              (
                omega arith,
                (
                  omega arith,
                  (
                    omega arith,
                    (
                      omega arith,
                      (
                        omega arith,
                        (
                          omega arith,
                          (
                            omega arith,
                            (
                              omega arith,
                              (
                                omega arith,
                                (
                                  omega arith,
                                  (
                                    omega arith,
                                    (
                                      omega arith,
                                      (
                                        omega arith,
                                        (
                                          omega arith,
                                          (
                                            omega arith,
                                            (omega arith, (omega arith, (omega arith, tt))),
                                          ),
                                        ),
                                      ),
                                    ),
                                  ),
                                ),
                              ),
                            ),
                          ),
                        ),
                      ),
                    ),
                  ),
                ),
              ),
            ),
          ),
        ),
      ),
    ),
  ),
)

encode_udp-decode_udp_example : (encode_udp datagram ≡ ok wire) × IsDatagram datagram
encode_udp-decode_udp_example = encode_udp-decode_udp wire datagram wire-bytes decoded

-- Messages that are their own encoding, and a connection that takes everything.
abbrev bytes_codec : Codec Bytes
bytes_codec = record { marshal = ok; unmarshal = ok }

pub take_all : (payload : Bytes) → take (length payload) payload ≡ payload
take_all payload = ap (take (length payload)) (sym (append-nil payload)) ∙ take_front payload []

abbrev pub pipe : Writer
pipe = record {
  State = Bytes;
  sent = λ s. s;
  write = λ s payload. (s ++ payload, length payload, none);
  written-le = λ s payload. omega arith;
  sent-write = λ s payload. ap (λ x. s ++ x) (sym (take_all payload));
}

abbrev message : Bytes
message = 1 ∷ 2 ∷ []

write_all-Delivers_example : Delivers pipe [] message (write_all pipe [] message)
write_all-Delivers_example = write_all-Delivers pipe [] message

write_frame-Delivers_example :
    ((max_control_frame < 2) × (write_frame bytes_codec pipe [] message ≡ err oversized))
    ⊎ ((2 ≤ max_control_frame)
        × ((r : Option (Bytes × Option IoError)) × (write_frame bytes_codec pipe [] message ≡ ok r)
            × Delivers pipe [] (frame message) r))
write_frame-Delivers_example = write_frame-Delivers bytes_codec pipe [] message message refl

frame_was_read : read_frame bytes_codec (0 ∷ 0 ∷ 0 ∷ 2 ∷ 1 ∷ 2 ∷ 9 ∷ []) ≡ ok (message, 9 ∷ [])
unfolding read_frame read_full
frame_was_read = refl

read_frame-eq-ok_example :
    (header : Bytes) × (payload : Bytes) × (0 ∷ 0 ∷ 0 ∷ 2 ∷ 1 ∷ 2 ∷ 9 ∷ []
      ≡ header ++ (payload ++ 9 ∷ []))
    × (length header ≡ 4)
    × (header_size header ≡ length payload)
    × (0 < length payload)
    × (length payload ≤ max_control_frame)
    × (bytes_codec.unmarshal payload ≡ ok message)
read_frame-eq-ok_example =
    read_frame-eq-ok bytes_codec (0 ∷ 0 ∷ 0 ∷ 2 ∷ 1 ∷ 2 ∷ 9 ∷ []) (9 ∷ []) message frame_was_read

frame_was_written :
    write_frame bytes_codec pipe [] message ≡ ok (some (0 ∷ 0 ∷ 0 ∷ 2 ∷ 1 ∷ 2 ∷ [], none))
unfolding write_frame write_all write_loop
frame_was_written = refl

read_frame-write_frame_example :
    (bytes : Bytes) × (0 ∷ 0 ∷ 0 ∷ 2 ∷ 1 ∷ 2 ∷ [] ≡ [] ++ bytes)
    × ((rest : Bytes) → read_frame bytes_codec (bytes ++ rest) ≡ ok (message, rest))
read_frame-write_frame_example =
    read_frame-write_frame bytes_codec pipe [] (0 ∷ 0 ∷ 0 ∷ 2 ∷ 1 ∷ 2 ∷ []) message message refl
      (λ e. cc e) refl frame_was_written
