-- ===== src/Protocol/Frame.antt =====
-- internal/protocol/protocol.go: `WriteFrame` and `ReadFrame`. encoding/json is a parameter, as an
-- encoder and a decoder of the value's type; the `Message` law is what the round trip needs of it.
pub mod RoundTrip
use tailscale_railway_quic_b.Common.{
  ℕ, ◌*◌, ◌^◌, ◌≡◌, Bytes, [], ◌∷◌, ◌||◌, Option, none, some, length, ltb, ◌==◌, if◌then◌else◌,
  Result, ok, err, ◌>>=◌,
}
use tailscale_railway_quic_b.Streams.{IoError, read_full, Writer, write_all}
use tailscale_railway_quic_b.Protocol.Words.{be32, from_be32}

pub data Error : Type 0 where
  oversized : Error
  invalid_size : ℕ → Error
  io : IoError → Error
  json : ℕ → Error

abbrev pub max_control_frame : ℕ
max_control_frame = 64 * 1024

-- encoding/json at one type of message.
pub record Codec (A : Type 0) : Type 0 where
  pub marshal : A → Result Error Bytes
  pub unmarshal : Bytes → Result Error A

unfoldable pub from_io {ℓ} : {A : Type ℓ} → Result IoError A → Result Error A
from_io (ok a) = ok a
from_io (err e) = err (io e)

-- The four bytes of `header`, read as a uint32.
unfoldable pub header_size : Bytes → ℕ
header_size (a ∷ b ∷ c ∷ d ∷ _) = from_be32 a b c d
header_size _ = 0

module _ {A : Type 0} (codec : Codec A) where
  open codec use {marshal, unmarshal}

  -- The value, and the stream behind the frame.
  unfoldable pub read_frame : Bytes → Result Error (A × Bytes)
  unfolding from_io header_size
  read_frame stream = do
    (header, rest) ← from_io (read_full 4 stream)
    let size = header_size header
    if size == 0 || ltb max_control_frame size then err (invalid_size size) else do
      (payload, rest') ← from_io (read_full size rest)
      value ← unmarshal payload
      ok (value, rest')

module _ {A : Type 0} (codec : Codec A) (w : Writer) where
  open codec use {marshal}
  open w use {State}

  -- The second `writeAll`, after the first one: only if that returned no error.
  unfoldable pub then_payload :
      Option (State × Option IoError) → Bytes → Option (State × Option IoError)
  then_payload none payload = none
  then_payload (some (s, some e)) payload = some (s, some e)
  then_payload (some (s, none)) payload = write_all w s payload

  -- The connection afterwards, and the error of the writes; `none` is a write loop that does not
  -- end. The error outside is one that is returned before anything is written.
  unfoldable pub write_frame : State → A → Result Error (Option (State × Option IoError))
  unfolding then_payload
  write_frame s value = do
    payload ← marshal value
    if ltb max_control_frame (length payload)
        then err oversized
        else ok (then_payload (write_all w s (be32 (length payload))) payload)
