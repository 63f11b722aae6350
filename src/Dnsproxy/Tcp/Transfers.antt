-- ===== src/Dnsproxy/Tcp/Transfers.antt =====
-- What a direction of `ForwardTCP` has handed on when it ends, and that it ends.
use tailscale_railway_quic_b.Common.{
  true, ℕ, zero, suc, ◌+◌, ◌<◌, ◌≡◌, refl, sym, ap, ◌∙◌, ◌||◌, [], ◌++◌, Option, none, some, Bytes,
  length, length-append, append_assoc, append-nil, ltb, ◌==◌, Result, ok, err, arith, ◌⊎◌,
  Result-cases, Bool-cases, inl, inr,
}
use tailscale_railway_quic_b.Streams.{IoError, Writer, write_all}
use tailscale_railway_quic_b.Streams.Laws.{Delivers, write_all-Delivers, prepend}
use tailscale_railway_quic_b.Protocol.Words.{be16}
use tailscale_railway_quic_b.Dnsproxy.{
  Error, Library, Message, Rewriter, rewrite_query, rewrite_response,
}
use tailscale_railway_quic_b.Dnsproxy.Tcp.{
  TcpError, bad_size, io, next_payload, then_write, write_tcp_message, forward, forward_queries,
  forward_responses,
}
use tailscale_railway_quic_b.Dnsproxy.Tcp.Messages.{
  Exchanged, next_payload-Exchanged, next_payload_front, taken-lt,
}

-- A message on the wire: the payload behind its length.
abbrev pub tcp_frame : Bytes → Bytes
tcp_frame payload = be16 (length payload) ++ payload

module _ (library : Library) (rewrite : Message → Result Error Message) where
  -- Whole messages that came in and, in their order, the whole messages that went out for them.
  pub data Forwarded : Bytes → Bytes → Type 0 where
    nothing : Forwarded [] []
    then_frame :
        {taken payload ins outs : Bytes}
        → Exchanged library rewrite taken payload
        → Forwarded ins outs
        → Forwarded (taken ++ ins) (tcp_frame payload ++ outs)

  -- Why no whole message follows for what is left of the stream, what part of one has gone out, and
  -- the error: the stream does not begin with a message that can be handed on, its payload is empty
  -- or too long for a frame, or the write of it failed.
  pub data Stopped (left : Bytes) : Bytes → TcpError → Type 0 where
    unread :
        {e : TcpError}
        → ¬ (
            (taken : Bytes) × (rest : Bytes) × (payload : Bytes) × (left ≡ taken ++ rest)
            × Exchanged library rewrite taken payload)
        → Stopped left [] e
    unfit :
        (taken rest payload : Bytes)
        → left ≡ taken ++ rest
        → Exchanged library rewrite taken payload
        → (length payload == 0 || ltb 65535 (length payload)) ≡ true
        → Stopped left [] bad_size
    unsent :
        (taken rest payload part back : Bytes) (x : IoError)
        → left ≡ taken ++ rest
        → Exchanged library rewrite taken payload
        → tcp_frame payload ≡ part ++ back
        → Stopped left part (io x)

module _ (w : Writer) where
  open w use {State, sent}

  then_write-Delivers :
      (s : State) (header payload : Bytes) (r : Option (State × Option IoError))
      → Delivers w s header r
      → Delivers w s (header ++ payload) (then_write w r payload)
  unfolding then_write
  then_write-Delivers s header payload none d = d
  then_write-Delivers s header payload (some (t, some x)) (front, back, split, d) =
      (front, back ++ payload, ap (λ z. z ++ payload) split ∙ append_assoc front back payload, d)
  then_write-Delivers s header payload (some (t, none)) d =
      prepend w s t header payload _ d (write_all-Delivers w t payload)

  write_tcp_message-cases :
      (s : State) (payload : Bytes)
      → ((length payload == 0 || ltb 65535 (length payload)) ≡ true)
          × (write_tcp_message w s payload ≡ err bad_size)
        ⊎ ((r : Option (State × Option IoError)) × (write_tcp_message w s payload ≡ ok r)
            × Delivers w s (tcp_frame payload) r)
  unfolding write_tcp_message
  write_tcp_message-cases s payload =
      elim (Bool-cases (length payload == 0 || ltb 65535 (length payload))) [
        | inl bad ↦ inl (bad, rw bad refl)
        | inr fits ↦ inr (
          then_write w (write_all w s (be16 (length payload))) payload,
          rw fits refl,
          then_write-Delivers s (be16 (length payload)) payload _
              (write_all-Delivers w s (be16 (length payload))),
        )
      ]

-- How a transfer of a stream ended: the front of the stream that was taken is whole messages, and what
-- went out are the whole messages for them and the part of a further one that `Stopped` allows; the
-- count is that of the bytes of the whole ones. A transfer that has not ended is none.
unfoldable pub Transferred :
    (library : Library) (rewrite : Message → Result Error Message) (w : Writer)
    → Writer.State w
    → Bytes
    → ℕ
    → Option (Writer.State w × ℕ × TcpError)
    → Type 0
Transferred library rewrite w s stream count none = ⊥
Transferred library rewrite w s stream count (some (t, n, e)) =
    (taken : Bytes) × (left : Bytes) × (whole : Bytes) × (part : Bytes) × (stream ≡ taken ++ left)
    × (Writer.sent w t ≡ Writer.sent w s ++ (whole ++ part))
    × Forwarded library rewrite taken whole
    × (n ≡ count + length whole)
    × Stopped library rewrite left part e

module _ (library : Library) (rewrite : Message → Result Error Message) (w : Writer) where
  open w use {State, sent}

  -- Nothing was written in the round that ended the transfer.
  unwritten :
      (s : State) (stream : Bytes) (count : ℕ) (e : TcpError)
      → Stopped library rewrite stream [] e
      → Transferred library rewrite w s stream count (some (s, count, e))
  unfolding Transferred
  unwritten s stream count e why =
      ([], stream, [], [], refl, sym (append-nil (sent s)), nothing, omega arith, why)

  -- A round that wrote a whole message, and the rounds after it.
  written :
      (s t : State) (stream taken payload rest : Bytes) (count : ℕ)
      (r : Option (State × ℕ × TcpError))
      → stream ≡ taken ++ rest
      → Exchanged library rewrite taken payload
      → sent t ≡ sent s ++ tcp_frame payload
      → Transferred library rewrite w t rest (count + (length payload + 2)) r
      → Transferred library rewrite w s stream count r
  unfolding Transferred
  written s t stream taken payload rest count none a e d h = h
  written s t stream taken payload rest count (some (u, n, x)) a e d
        (ins, left, whole, part, split, out, f, c, why) =
      (
        taken ++ ins,
        left,
        tcp_frame payload ++ whole,
        part,
        a ∙ ap (λ z. taken ++ z) split ∙ sym (append_assoc taken ins left),
        out
            ∙ ap (λ z. z ++ (whole ++ part)) d
            ∙ append_assoc (sent s) (tcp_frame payload) (whole ++ part)
            ∙ ap (λ z. sent s ++ z) (sym (append_assoc (tcp_frame payload) whole part)),
        then_frame e f,
        counted c,
        why,
      )
    where
      counted :
          n ≡ count + (length payload + 2) + length whole
          → n ≡ count + length (tcp_frame payload ++ whole)
      counted c = omega (arith, length-append (tcp_frame payload) whole)

  -- A round whose write failed.
  cut_short :
      (s t : State) (stream taken payload rest : Bytes) (count : ℕ) (x : IoError)
      → stream ≡ taken ++ rest
      → Exchanged library rewrite taken payload
      → Delivers w s (tcp_frame payload) (some (t, some x))
      → Transferred library rewrite w s stream count (some (t, count, io x))
  unfolding Transferred
  cut_short s t stream taken payload rest count x a e (front, back, split, d) = (
    [],
    stream,
    [],
    front,
    refl,
    d,
    nothing,
    omega arith,
    unsent taken rest payload front back x a e split,
  )

  -- A round that cannot read a message has none to read.
  none_to_read :
      (stream : Bytes) (e : TcpError)
      → next_payload library rewrite stream ≡ err e
      → Stopped library rewrite stream [] e
  none_to_read stream e h = unread λ (taken, rest, payload, a, x). cc (
      sym h
      ∙ ap (next_payload library rewrite) a
      ∙ next_payload_front library rewrite taken payload rest x)

  pub forward-Transferred :
      (fuel : ℕ) (s : State) (stream : Bytes) (count : ℕ)
      → length stream < fuel
      → Transferred library rewrite w s stream count (forward library w rewrite fuel s stream count)
  unfolding forward
  forward-Transferred zero s stream count h = absurd (omega arith)
  forward-Transferred (suc fuel) s stream count h =
      elim (Result-cases (next_payload library rewrite stream)) [
        | inr (e, q) ↦ rw (q, forward) (unwritten s stream count e (none_to_read stream e q))
        | inl ((payload, rest), q) ↦
            let (taken, a, x) = next_payload-Exchanged library rewrite stream payload rest q in
            let less = taken-lt library rewrite stream taken payload rest a x in
            elim (write_tcp_message-cases w s payload) [
              | inl (large, bad) ↦
                  rw (q, forward)
                    (rw bad
                      (unwritten s stream count bad_size (unfit taken rest payload a x large)))
              | inr (none, e, d) ↦ absurd d
              | inr (some (t, some y), e, d) ↦
                  rw (q, forward) (rw e (cut_short s t stream taken payload rest count y a x d))
              | inr (some (t, none), e, d) ↦
                  rw (q, forward)
                    (rw e (
                      written s t stream taken payload rest count _ a x d (
                        forward-Transferred fuel t rest (count + (length payload + 2))
                          (omega arith))))
            ]
      ]

module _ (library : Library) (w : Writer) (r : Rewriter) where
  open w use {State, sent}

  -- Forwarding queries ends. What it has handed on then are, in their order, one whole message for each
  -- message at the front of the stream, that message rewritten without error and packed, and at most a
  -- front part of one for the next message, whose write failed; the count is that of the bytes of the
  -- whole messages. It ends with an error of that write, or because the next payload is empty or too
  -- long, or because the rest of the stream does not begin with a message that can be handed on.
  pub forward_queries-Transferred :
      (s : State) (stream : Bytes)
      → Transferred library
          (rewrite_query library r)
          w
          s
          stream
          0
          (forward_queries library w r s stream)
  unfolding forward_queries
  forward_queries-Transferred s stream =
      forward-Transferred library (rewrite_query library r) w (suc (length stream)) s stream 0
        (omega arith)

  -- Forwarding responses ends in the same way, with each response rewritten and packed.
  pub forward_responses-Transferred :
      (s : State) (stream : Bytes)
      → Transferred library
          (λ m. ok (rewrite_response library r m))
          w
          s
          stream
          0
          (forward_responses library w r s stream)
  unfolding forward_responses
  forward_responses-Transferred s stream =
      forward-Transferred library (λ m. ok (rewrite_response library r m)) w (suc (length stream)) s
        stream 0 (omega arith)
