-- ===== src/Streams/Laws.antt =====
-- `writeAll` ends, and hands on the whole payload or a prefix of it; `io.ReadFull` of what was sent.
use tailscale_railway_quic_b.Common.{
  ℕ, zero, suc, ◌≤◌, ◌≡◌, inl, inr, sym, ap, ◌∙◌, subst, Bytes, [], ◌∷◌, ◌++◌, append_assoc,
  append-nil, Option, none, some, length, take, drop, ◌==◌, arith, length-append, length-drop,
  take-append-drop, take_front, drop_front, ok, ok-injective, ltb, length-take, Bool-cases,
  Option-cases,
}
use tailscale_railway_quic_b.Streams.{IoError, read_full, Writer, write_loop, write_all}

-- Reading back exactly the bytes that were put in front of a stream.
pub read_full-append :
    (front rest : Bytes) → read_full (length front) (front ++ rest) ≡ ok (front, rest)
unfolding read_full
read_full-append front rest =
    ground (arith, length-append front rest, take_front front rest, drop_front front rest)

-- A successful io.ReadFull splits the stream.
pub read_full-eq-ok :
    (n : ℕ) (stream front rest : Bytes)
    → read_full n stream ≡ ok (front, rest)
    → (stream ≡ front ++ rest) × (length front ≡ n)
unfolding read_full
read_full-eq-ok n stream front rest h = elim (Bool-cases (ltb (length stream) n)) [
  | inl short ↦ absurd (ground arith)
  | inr long ↦
      let e = ok-injective (rw (long, read_full) at h) in
      (
        sym (take-append-drop n stream) ∙ ap (λ (p : Bytes × Bytes). p.0 ++ p.1) e,
        sym (ap (λ (p : Bytes × Bytes). length p.0) e) ∙ ground (arith, length-take n stream),
      )
]

module _ (w : Writer) where
  open w use {State, sent, write, written-le, sent-write}

  -- What a run of the loop leaves: all of the payload sent, or a front part of it and an error.
  abbrev pub Delivers : State → Bytes → Option (State × Option IoError) → Type 0
  Delivers s payload none = ⊥
  Delivers s payload (some (s', none)) = sent s' ≡ sent s ++ payload
  Delivers s payload (some (s', some e)) =
      (front : Bytes) × (back : Bytes) × (payload ≡ front ++ back) × (sent s' ≡ sent s ++ front)

  pub prepend :
      (s s' : State) (front back : Bytes) (r : Option (State × Option IoError))
      → sent s' ≡ sent s ++ front
      → Delivers s' back r
      → Delivers s (front ++ back) r
  prepend s s' front back none e d = d
  prepend s s' front back (some (t, none)) e d =
      d ∙ ap (λ z. z ++ back) e ∙ append_assoc (sent s) front back
  prepend s s' front back (some (t, some x)) e (f, g, split, d) = (
    front ++ f,
    g,
    ap (λ z. front ++ z) split ∙ sym (append_assoc front f g),
    d ∙ ap (λ z. z ++ f) e ∙ append_assoc (sent s) front f,
  )

  write_loop-Delivers :
      (fuel : ℕ) (s : State) (payload : Bytes)
      → length payload ≤ fuel
      → Delivers s payload (write_loop w fuel s payload)
  unfolding write_loop
  write_loop-Delivers fuel s [] h = sym (append-nil (sent s))
  write_loop-Delivers zero s (b ∷ payload) h = absurd (omega arith)
  write_loop-Delivers (suc fuel) s (b ∷ payload) h =
      let n = (write s (b ∷ payload)).1 in
      let whole = take-append-drop n (b ∷ payload) in
      elim (Option-cases (write s (b ∷ payload)).2) [
        | inr (x, e) ↦
            rw (e, write_loop)
              (take n (b ∷ payload), drop n (b ∷ payload), sym whole, sent-write s (b ∷ payload))
        | inl e ↦ elim (Bool-cases (n == 0)) [
          | inl stuck ↦
              rw (e, stuck, write_loop)
                (take n (b ∷ payload), drop n (b ∷ payload), sym whole, sent-write s (b ∷ payload))
          | inr more ↦
              rw (e, more, write_loop)
                (subst
                  (λ x.
                    Delivers s x
                      (write_loop w fuel (write s (b ∷ payload)).0 (drop n (b ∷ payload))))
                  whole
                  (prepend s _ (take n (b ∷ payload)) (drop n (b ∷ payload)) _
                    (sent-write s (b ∷ payload))
                    (write_loop-Delivers fuel _ (drop n (b ∷ payload))
                      (ground (arith, length-drop n (b ∷ payload))))))
        ]
      ]

  -- `writeAll` ends within its rounds. Without an error the payload has been handed on whole and in
  -- order; with one, a front part of it, and nothing else.
  pub write_all-Delivers :
      (s : State) (payload : Bytes) → Delivers s payload (write_all w s payload)
  unfolding write_all
  write_all-Delivers s payload = write_loop-Delivers (length payload) s payload (omega arith)
