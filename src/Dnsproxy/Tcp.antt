-- ===== src/Dnsproxy/Tcp.antt =====
-- internal/dnsproxy/dnsproxy.go: DNS over TCP. Each direction of `ForwardTCP` is a loop that reads a
-- message, rewrites it and writes it; the deadlines and the two goroutines are not modelled.
pub mod Messages
pub mod Transfers
use tailscale_railway_quic_b.Common.{
  ℕ, zero, suc, ◌+◌, not, ◌||◌, Bool, true, false, List, [], ◌∷◌, ◌++◌, Option, none, some, Bytes,
  length, ltb, ◌==◌, if◌then◌else◌, Result, ok, err, ◌>>=◌, ◌>>◌, guard, or_fail,
}
use tailscale_railway_quic_b.Streams.{IoError, read_full, Writer, write_all}
use tailscale_railway_quic_b.Protocol.Words.{be16, from_be16}
use tailscale_railway_quic_b.Dnsproxy.{
  Error, Library, Message, Rewriter, rewrite_query, rewrite_response,
}

pub data TcpError : Type 0 where
  empty_message bad_size unpack_failed pack_failed : TcpError
  rewriting : Error → TcpError
  io : IoError → TcpError

unfoldable pub from_io {ℓ} : {A : Type ℓ} → Result IoError A → Result TcpError A
from_io (ok x) = ok x
from_io (err e) = err (io e)

unfoldable pub from_rewriting {ℓ} : {A : Type ℓ} → Result Error A → Result TcpError A
from_rewriting (ok x) = ok x
from_rewriting (err e) = err (rewriting e)

-- The two bytes of `header`, read as a uint16.
unfoldable pub tcp_size : Bytes → ℕ
tcp_size (x ∷ y ∷ _) = from_be16 x y
tcp_size _ = 0

module _ (library : Library) where
  open library use {pack, unpack}

  -- `readTCPMessage`: the message, and the stream behind it.
  unfoldable pub read_tcp_message : Bytes → Result TcpError (Message × Bytes)
  unfolding from_io tcp_size
  read_tcp_message stream = do
    (header, rest) ← from_io (read_full 2 stream)
    guard (not (tcp_size header == 0)) empty_message
    (payload, rest') ← from_io (read_full (tcp_size header) rest)
    message ← or_fail (unpack payload) unpack_failed
    ok (message, rest')

  -- A round of a loop up to the write: the bytes to write and the stream behind the message.
  unfoldable pub next_payload :
      (Message → Result Error Message) → Bytes → Result TcpError (Bytes × Bytes)
  unfolding read_tcp_message from_rewriting
  next_payload rewrite stream = do
    (message, rest) ← read_tcp_message stream
    rewritten ← from_rewriting (rewrite message)
    payload ← or_fail (pack rewritten) pack_failed
    ok (payload, rest)

module _ (w : Writer) where
  open w use {State}

  unfoldable pub then_write :
      Option (State × Option IoError) → Bytes → Option (State × Option IoError)
  then_write none payload = none
  then_write (some (s, some e)) payload = some (s, some e)
  then_write (some (s, none)) payload = write_all w s payload

  -- `writeTCPMessage`. The error outside is one that is returned before anything is written; `none`
  -- is a write loop that does not end.
  unfoldable pub write_tcp_message :
      State → Bytes → Result TcpError (Option (State × Option IoError))
  unfolding then_write
  write_tcp_message s payload =
      if length payload == 0 || ltb 65535 (length payload)
      then err bad_size
      else ok (then_write (write_all w s (be16 (length payload))) payload)

module _ (library : Library) (w : Writer) (rewrite : Message → Result Error Message) where
  open w use {State}

  -- The loop of `forwardQueries` and `forwardResponses`: the destination, the count and the error
  -- that ended it. `none` is a loop that has used up its rounds, or a write loop that does not end.
  unfoldable pub forward : ℕ → State → Bytes → ℕ → Option (State × ℕ × TcpError)
  unfolding next_payload write_tcp_message
  forward zero s stream count = none
  forward (suc fuel) s stream count = elim (next_payload library rewrite stream) [
    | err e ↦ some (s, count, e)
    | ok (payload, rest) ↦ elim (write_tcp_message w s payload) [
      | err e ↦ some (s, count, e)
      | ok none ↦ none
      | ok (some (s', some e)) ↦ some (s', count, io e)
      | ok (some (s', none)) ↦ forward fuel s' rest (count + (length payload + 2))
    ]
  ]

module _ (library : Library) (w : Writer) (r : Rewriter) where
  open w use {State}

  -- `forwardQueries`. Every message takes three bytes at least, so a round for each byte and one
  -- more is enough.
  unfoldable pub forward_queries : State → Bytes → Option (State × ℕ × TcpError)
  unfolding forward
  forward_queries s stream =
      forward library w (rewrite_query library r) (suc (length stream)) s stream 0

  -- `forwardResponses`.
  unfoldable pub forward_responses : State → Bytes → Option (State × ℕ × TcpError)
  unfolding forward
  forward_responses s stream =
      forward library w (λ m. ok (rewrite_response library r m)) (suc (length stream)) s stream 0
