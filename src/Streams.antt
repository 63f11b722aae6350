-- ===== src/Streams.antt =====
-- io.Reader and io.Writer as the framed protocols use them: internal/protocol/protocol.go and the
-- TCP messages of internal/dnsproxy/dnsproxy.go.
-- A reader is the bytes that have still to arrive. A writer is an interface: the connection behind it
-- is not part of the program, and `sent` is what it has handed on so far.
pub mod Laws
use tailscale_railway_quic_b.Common.{
  ℕ, zero, suc, ◌≤◌, ◌≡◌, Bytes, List, [], ◌∷◌, ◌++◌, Option, none, some, length, take, drop, ltb,
  ◌==◌, if◌then◌else◌, true, false, Result, ok, err,
}

-- io.EOF and io.ErrUnexpectedEOF are one error here: the program treats them alike.
pub data IoError : Type 0 where
  eof short_write : IoError
  other : ℕ → IoError

-- io.ReadFull of `n` bytes: the bytes and what is left of the stream.
unfoldable pub read_full : ℕ → Bytes → Result IoError (Bytes × Bytes)
read_full n stream = if ltb (length stream) n then err eof else ok (take n stream, drop n stream)

-- io.Writer: one call takes a prefix of the payload, and may fail.
pub record Writer : Type 1 where
  pub State : Type 0
  pub sent : State → Bytes
  pub write : State → Bytes → State × ℕ × Option IoError
  pub written-le : (s : State) (payload : Bytes) → (write s payload).1 ≤ length payload
  pub sent-write :
      (s : State) (payload : Bytes)
      → sent (write s payload).0 ≡ sent s ++ take (write s payload).1 payload

module _ (w : Writer) where
  open w use {State, write}

  -- The loop of `writeAll`; each round that goes on takes a byte at least. `none` is a loop that
  -- has used up its rounds.
  unfoldable pub write_loop : ℕ → State → Bytes → Option (State × Option IoError)
  write_loop fuel s [] = some (s, none)
  write_loop zero s (b ∷ payload) = none
  write_loop (suc fuel) s (b ∷ payload) =
      let (s', written, failed) = write s (b ∷ payload) in
      elim failed [
        | some e ↦ some (s', some e)
        | none ↦ elim (written == 0) [
          | true ↦ some (s', some short_write)
          | false ↦ write_loop fuel s' (drop written (b ∷ payload))
        ]
      ]

  unfoldable pub write_all : State → Bytes → Option (State × Option IoError)
  write_all s payload = write_loop (length payload) s payload
