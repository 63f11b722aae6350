-- ===== src/Dnsproxy/Tcp/Messages.antt =====
-- The messages of DNS over TCP: what a round of the loop reads from a stream, and what it sends for it.
use tailscale_railway_quic_b.Common.{
  ◌∷◌, ◌>>=◌, guard-eq-ok, subst₂, ℕ, ◌<◌, ◌≡◌, refl, sym, ap, ◌∙◌, not, true, [], ◌++◌, some,
  Bytes, length, length-append, ◌==◌, Result, ok, err, guard, or_fail, arith, >>=-eq-ok,
  or_fail-eq-ok, ok-injective,
}
use tailscale_railway_quic_b.Streams.{IoError, read_full}
use tailscale_railway_quic_b.Streams.Laws.{read_full-append, read_full-eq-ok}
use tailscale_railway_quic_b.Protocol.Words.{from_be16}
use tailscale_railway_quic_b.Dnsproxy.{Error, Library, Message}
use tailscale_railway_quic_b.Dnsproxy.Tcp.{
  empty_message, unpack_failed, pack_failed, from_io, from_rewriting, tcp_size, read_tcp_message,
  next_payload,
}

module _ (library : Library) (rewrite : Message → Result Error Message) where
  -- The bytes of a message that came in, a length and as many bytes, and the payload that goes out
  -- for it: the message rewritten and packed.
  pub record Exchanged (taken payload : Bytes) : Type 0 where
    pub high : ℕ
    pub low : ℕ
    pub received : Bytes
    pub message : Message
    pub rewritten : Message
    pub framed : taken ≡ high ∷ low ∷ received
    pub sized : length received ≡ from_be16 high low
    pub not_empty : 0 < length received
    pub unpacked : library.unpack received ≡ some message
    pub changed : rewrite message ≡ ok rewritten
    pub packed : library.pack rewritten ≡ some payload

from_io-eq-ok {ℓ} : {A : Type ℓ} (r : Result IoError A) {x : A} → from_io r ≡ ok x → r ≡ ok x
unfolding from_io
from_io-eq-ok (ok b) h = cc
from_io-eq-ok (err e) h = absurd (cc)

from_rewriting-eq-ok {ℓ} :
    {A : Type ℓ} (r : Result Error A) {x : A} → from_rewriting r ≡ ok x → r ≡ ok x
unfolding from_rewriting
from_rewriting-eq-ok (ok b) h = cc
from_rewriting-eq-ok (err e) h = absurd (cc)

-- The two bytes of a length.
two_bytes :
    (header : Bytes)
    → length header ≡ 2
    → (high : ℕ) × (low : ℕ) × (header ≡ high ∷ low ∷ []) × (tcp_size header ≡ from_be16 high low)
unfolding tcp_size
two_bytes [] h = absurd (omega arith)
two_bytes (x ∷ []) h = absurd (omega arith)
two_bytes (x ∷ y ∷ []) h = (x, y, refl, refl)
two_bytes (x ∷ y ∷ z ∷ rest) h = absurd (omega arith)

-- What a message that was read consumed.
record Read (library : Library) (stream rest : Bytes) (message : Message) : Type 0 where
  high : ℕ
  low : ℕ
  received : Bytes
  split : stream ≡ (high ∷ low ∷ received) ++ rest
  sized : length received ≡ from_be16 high low
  not_empty : 0 < length received
  unpacked : library.unpack received ≡ some message

read_tcp_message-Read :
    (library : Library) (stream rest : Bytes) (message : Message)
    → read_tcp_message library stream ≡ ok (message, rest)
    → Read library stream rest message
unfolding read_tcp_message
read_tcp_message-Read library stream rest message h =
    let ((header, r), e1, k) = >>=-eq-ok (from_io (read_full 2 stream)) _ h in
    let (_, g, k) = >>=-eq-ok (guard (not (tcp_size header == 0)) empty_message) _ k in
    let ((payload, r'), e2, k) = >>=-eq-ok (from_io (read_full (tcp_size header) r)) _ k in
    let (m, e3, k) = >>=-eq-ok (or_fail (library.unpack payload) unpack_failed) _ k in
    let (s1, l1) = read_full-eq-ok 2 stream header r (from_io-eq-ok _ e1) in
    let (s2, l2) = read_full-eq-ok (tcp_size header) r payload r' (from_io-eq-ok _ e2) in
    let (high, low, eh, es) = two_bytes header l1 in
    let same = ok-injective k in
    subst₂ (Read library stream) (ap (λ (z : Message × Bytes). z.1) same)
      (ap (λ (z : Message × Bytes). z.0) same)
      (record {
        high = high;
        low = low;
        received = payload;
        split = s1 ∙ ap (λ z. header ++ z) s2 ∙ ap (λ z. z ++ (payload ++ r')) eh;
        sized = l2 ∙ es;
        not_empty =
            positive (length payload) (tcp_size header) l2
              (guard-eq-ok (not (tcp_size header == 0)) empty_message g);
        unpacked = or_fail-eq-ok (library.unpack payload) unpack_failed e3;
      })
  where
    positive : (n t : ℕ) → n ≡ t → not (t == 0) ≡ true → 0 < n
    positive n t e p = ground arith

-- And the other way round: a message at the front of a stream is read.
read_tcp_message_front :
    (library : Library) (high low : ℕ) (received rest : Bytes) (message : Message)
    → length received ≡ from_be16 high low
    → 0 < length received
    → library.unpack received ≡ some message
    → read_tcp_message library ((high ∷ low ∷ received) ++ rest) ≡ ok (message, rest)
unfolding read_tcp_message from_io tcp_size
read_tcp_message_front library high low received rest message sized given unpacked =
    rw
      (
        read_full-append (high ∷ low ∷ []) (received ++ rest),
        sym sized,
        read_full-append received rest,
        unpacked,
      )
      (some_bytes (length received) given)
  where
    some_bytes :
        (n : ℕ)
        → 0 < n
        → (◌>>=◌ {B = Message × Bytes} (guard (not (n == 0)) empty_message) λ _. ok (message, rest))
          ≡ ok (message, rest)
    some_bytes n g = ground arith

module _ (library : Library) (rewrite : Message → Result Error Message) where
  pub next_payload-Exchanged :
      (stream payload rest : Bytes)
      → next_payload library rewrite stream ≡ ok (payload, rest)
      → (taken : Bytes) × (stream ≡ taken ++ rest) × Exchanged library rewrite taken payload
  unfolding next_payload
  next_payload-Exchanged stream payload rest h =
      let ((message, r), e1, k) = >>=-eq-ok (read_tcp_message library stream) _ h in
      let (rewritten, e2, k) = >>=-eq-ok (from_rewriting (rewrite message)) _ k in
      let (p, e3, k) = >>=-eq-ok (or_fail (library.pack rewritten) pack_failed) _ k in
      let same = ok-injective k in
      let read = read_tcp_message-Read library stream r message e1 in
      (
        read.high ∷ read.low ∷ read.received,
        read.split ∙ ap (λ (z : Bytes × Bytes). (read.high ∷ read.low ∷ read.received) ++ z.1) same,
        record {
          high = read.high;
          low = read.low;
          received = read.received;
          message = message;
          rewritten = rewritten;
          framed = refl;
          sized = read.sized;
          not_empty = read.not_empty;
          unpacked = read.unpacked;
          changed = from_rewriting-eq-ok (rewrite message) e2;
          packed =
              or_fail-eq-ok (library.pack rewritten) pack_failed e3
              ∙ ap (λ (z : Bytes × Bytes). some z.0) same;
        },
      )

  pub next_payload_front :
      (taken payload rest : Bytes)
      → Exchanged library rewrite taken payload
      → next_payload library rewrite (taken ++ rest) ≡ ok (payload, rest)
  unfolding next_payload from_rewriting
  next_payload_front taken payload rest e =
      rw
        (
          e.framed,
          read_tcp_message_front library e.high e.low e.received rest e.message e.sized e.not_empty
              e.unpacked,
          e.changed,
          e.packed,
        )
        refl

  -- A message takes two bytes at least.
  pub taken-lt :
      (stream taken payload rest : Bytes)
      → stream ≡ taken ++ rest
      → Exchanged library rewrite taken payload
      → length rest < length stream
  taken-lt stream taken payload rest s e =
      omega (arith, ap length s, length-append taken rest, ap length e.framed)
