-- ===== src/Protocol/Frame/RoundTrip.antt =====
-- A frame that went out is read back as its value; what a successful read consumed; sizes.
use tailscale_railway_quic_b.Common.{
  ℕ, ◌^◌, ◌≤◌, ◌<◌, ◌≡◌, ◌≢◌, sym, ap, subst, ◌∙◌, ◌⊎◌, Bytes, [], ◌++◌, append_assoc, ◌||◌, Option,
  none, some, length, ltb, ◌==◌, arith, Result, ok, err, >>=-eq-ok, ok-injective, Bool-cases, inl,
  inr, false,
}
use tailscale_railway_quic_b.Streams.{IoError, read_full, Writer, write_all}
use tailscale_railway_quic_b.Streams.Laws.{
  read_full-append, read_full-eq-ok, Delivers, write_all-Delivers, prepend,
}
use tailscale_railway_quic_b.Protocol.Words.{be32, from_be32-be32}
use tailscale_railway_quic_b.Protocol.Frame.{
  Codec, max_control_frame, from_io, header_size, read_frame, then_payload, write_frame, oversized,
}

-- A frame: the payload behind its length.
abbrev pub frame : Bytes → Bytes
frame payload = be32 (length payload) ++ payload

from_io-eq-ok {ℓ} : {A : Type ℓ} (r : Result IoError A) {a : A} → from_io r ≡ ok a → r ≡ ok a
unfolding from_io
from_io-eq-ok (ok b) h = cc
from_io-eq-ok (err e) h = absurd (cc)

header_size-be32 : (n : ℕ) → n < 2 ^ 32 → header_size (be32 n) ≡ n
unfolding header_size
header_size-be32 n h = from_be32-be32 n h

module _ {A : Type 0} (codec : Codec A) where
  open codec use {marshal, unmarshal}

  -- The steps of a successful read.
  read_frame_lem :
      (stream header rest payload rest' : Bytes) (value : A)
      → read_full 4 stream ≡ ok (header, rest)
      → (header_size header == 0 || ltb max_control_frame (header_size header)) ≡ false
      → read_full (header_size header) rest ≡ ok (payload, rest')
      → unmarshal payload ≡ ok value
      → read_frame codec stream ≡ ok (value, rest')
  unfolding read_frame
  read_frame_lem stream header rest payload rest' value h fits body decoded =
      rw (h, read_frame) (rw (fits, body, decoded))

  pub read_frame-append :
      (payload rest : Bytes) (value : A)
      → payload ≢ []
      → length payload ≤ max_control_frame
      → unmarshal payload ≡ ok value
      → read_frame codec (frame payload ++ rest) ≡ ok (value, rest)
  read_frame-append payload rest value hne hle e =
      let size = header_size-be32 (length payload) (omega arith) in
      read_frame_lem (frame payload ++ rest) (be32 (length payload)) (payload ++ rest) payload rest
        value (read_full-append (be32 (length payload)) (payload ++ rest)) (rw size (grind arith))
        (rw size (read_full-append payload rest)) e

  -- A successful read consumed a length of 1 to 64 KiB and that many bytes, and nothing behind
  -- them; the value is what those bytes decode to.
  pub read_frame-eq-ok :
      (stream rest : Bytes) (value : A)
      → read_frame codec stream ≡ ok (value, rest)
      → (header : Bytes) × (payload : Bytes) × (stream ≡ header ++ (payload ++ rest))
        × (length header ≡ 4)
        × (header_size header ≡ length payload)
        × (0 < length payload)
        × (length payload ≤ max_control_frame)
        × (unmarshal payload ≡ ok value)
  unfolding read_frame
  read_frame-eq-ok stream rest value h =
      let ((header, r), e1, h1) = >>=-eq-ok (from_io (read_full 4 stream)) _ h in
      let (split, four) = read_full-eq-ok 4 stream header r (from_io-eq-ok _ e1) in
      elim (Bool-cases (header_size header == 0 || ltb max_control_frame (header_size header))) [
        | inl bad ↦ absurd (ground arith)
        | inr good ↦
            let ((payload, r'), e2, h2) =
              >>=-eq-ok (from_io (read_full (header_size header) r)) _ (rw good at h1) in
            let (v, e3, h3) = >>=-eq-ok (unmarshal payload) _ h2 in
            let (split', size) =
              read_full-eq-ok (header_size header) r payload r' (from_io-eq-ok _ e2) in
            let last = ok-injective h3 in
            (
              header,
              payload,
              split ∙ ap (λ z. header ++ z) (split' ∙ ap (λ (p : A × Bytes). payload ++ p.1) last),
              four,
              sym size,
              grind arith,
              grind arith,
              e3 ∙ ap (λ (p : A × Bytes). ok p.0) last,
            )
      ]

module _ {A : Type 0} (codec : Codec A) (w : Writer) where
  open codec use {marshal, unmarshal}
  open w use {State, sent}

  then_payload-Delivers :
      (s : State) (header payload : Bytes) (r : Option (State × Option IoError))
      → Delivers w s header r
      → Delivers w s (header ++ payload) (then_payload codec w r payload)
  unfolding then_payload
  then_payload-Delivers s header payload none d = d
  then_payload-Delivers s header payload (some (t, some x)) (front, back, split, d) =
      (front, back ++ payload, ap (λ z. z ++ payload) split ∙ append_assoc front back payload, d)
  then_payload-Delivers s header payload (some (t, none)) d =
      prepend w s t header payload _ d (write_all-Delivers w t payload)

  -- `WriteFrame` of a value refuses an encoding above 64 KiB before it writes anything; any other it
  -- writes as one frame: whole and in order if it returns no error, and a front part of the frame
  -- otherwise. Its write loops end.
  pub write_frame-Delivers :
      (s : State) (value : A) (payload : Bytes)
      → marshal value ≡ ok payload
      → ((max_control_frame < length payload) × (write_frame codec w s value ≡ err oversized))
        ⊎ ((length payload ≤ max_control_frame)
            × ((r : Option (State × Option IoError)) × (write_frame codec w s value ≡ ok r)
                × Delivers w s (frame payload) r))
  write_frame-Delivers s value payload m =
      elim (Bool-cases (ltb max_control_frame (length payload))) [
        | inl long ↦ inl (ground arith, unfold write_frame in rw (m, write_frame) (rw long))
        | inr fits ↦ inr (
          ground arith,
          (
            then_payload codec w (write_all w s (be32 (length payload))) payload,
            unfold write_frame in rw (m, write_frame) (rw fits),
            then_payload-Delivers s (be32 (length payload)) payload _
                (write_all-Delivers w s (be32 (length payload))),
          ),
        )
      ]

  -- A value whose write returned no error went out as bytes from which `ReadFrame` reads it back,
  -- whatever follows them. JSON's output is never empty and decodes to the value.
  pub read_frame-write_frame :
      (s s' : State) (value : A) (payload : Bytes)
      → marshal value ≡ ok payload
      → payload ≢ []
      → unmarshal payload ≡ ok value
      → write_frame codec w s value ≡ ok (some (s', none))
      → (bytes : Bytes) × (sent s' ≡ sent s ++ bytes)
        × ((rest : Bytes) → read_frame codec (bytes ++ rest) ≡ ok (value, rest))
  read_frame-write_frame s s' value payload m hne um h =
      elim (write_frame-Delivers s value payload m) [
        | inl (_, e) ↦ absurd (cc (e, h))
        | inr (fits, (r, e, d)) ↦ (
          frame payload,
          subst (Delivers w s (frame payload)) (ok-injective (sym e ∙ h)) d,
          λ rest. read_frame-append codec payload rest value hne fits um,
        )
      ]
