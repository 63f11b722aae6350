-- ===== src/Edge/Translation/RoundTrip.antt =====
-- Translation moves an address from one /16 to another and back.
use tailscale_railway_quic_b.Common.{
  ℕ, ◌+◌, ◌-◌, ◌*◌, ◌/◌, ◌%◌, ◌^◌, ◌<◌, ◌≡◌, ◌≢◌, refl, ap, sym, ◌∙◌, true, false, [], ◌&&◌, ◌==◌,
  ok, ◌>>=◌, guard, arith, Bool-cases, inl, inr, ltb, text_eq, text_eq→eq, and_true, Text,
  guard-eq-ok, >>=-eq-ok, ok-injective,
}
use tailscale_railway_quic_b.Net.{
  Addr, zero_addr, v4, v6, AddrPort, Prefix, is6, unmap, as16, addr_from16, byte_at, set_byte, mask,
  bits_are, masked, masked_addr, contains, contains_addr,
}
use tailscale_railway_quic_b.Edge.Translation.{
  not_sixteen, outside, translate_masked, translate_address, translate_addr_port,
}

-- The /16 whose first two bytes are those of `n`.
abbrev pub sixteen : ℕ → Prefix
sixteen n = record { addr = v6 (mask 128 16 n) []; bits_plus_one = 17 }

-- `a` with the first two bytes of `t`.
abbrev pub moved : ℕ → ℕ → ℕ
moved t a = t / 2 ^ 112 * 2 ^ 112 + a % 2 ^ 112

front_same :
    (a f t : ℕ)
    → a < 2 ^ 128
    → t < 2 ^ 128
    → set_byte (set_byte a 0 (byte_at (mask 128 16 t) 0)) 1 (byte_at (mask 128 16 t) 1) ≡ moved t a
front_same a f t ha ht = omega arith

translate_sixteen :
    (a f t : ℕ)
    → a < 2 ^ 128
    → t < 2 ^ 128
    → f / 2 ^ 112 ≡ a / 2 ^ 112
    → translate_masked (v6 a []) (sixteen f) (sixteen t) ≡ ok (v6 (moved t a) [])
unfolding translate_masked contains contains_addr is6 as16 addr_from16 text_eq
translate_sixteen a f t ha ht same =
    let h : (mask 128 16 f / 2 ^ 112 == a / 2 ^ 112) ≡ true = ground arith in
    rw (h, front_same a f t ha ht)

-- A masked prefix that is IPv6 and has 16 bits.
v6_sixteen :
    (n : ℕ) (z : Text) (c : ℕ)
    → bits_are (masked (record { addr = v6 n z; bits_plus_one = c })) 16 ≡ true
    → c ≡ 17
unfolding masked masked_addr
v6_sixteen n z c bits = elim (Bool-cases (c == 0)) [
  | inl h ↦ absurd (cc (rw h at bits))
  | inr h ↦ elim (Bool-cases (ltb 128 (c - 1))) [
    | inl g ↦ absurd (cc (rw (h, g) at bits))
    | inr g ↦ let bits' : ((c - 1 + 1) == 17) ≡ true = rw (h, g) at bits in ground arith
  ]
]

masked-sixteen :
    (a : Addr) (c : ℕ)
    → is6 (masked (record { addr = a; bits_plus_one = c })).addr ≡ true
    → bits_are (masked (record { addr = a; bits_plus_one = c })) 16 ≡ true
    → (n : ℕ) × (z : Text) × (a ≡ v6 n z)
      × (masked (record { addr = a; bits_plus_one = c }) ≡ sixteen n)
unfolding masked masked_addr is6
masked-sixteen zero_addr c six bits = elim (Bool-cases (c == 0)) [
  | inl h ↦ absurd (cc (rw h at six))
  | inr h ↦ absurd (cc (rw h at six))
]
masked-sixteen (v4 n) c six bits = elim (Bool-cases (c == 0)) [
  | inl h ↦ absurd (cc (rw h at six))
  | inr h ↦ elim (Bool-cases (ltb 32 (c - 1))) [
    | inl g ↦ absurd (cc (rw (h, g) at six))
    | inr g ↦ absurd (cc (rw (h, g) at six))
  ]
]
masked-sixteen (v6 n z) c six bits = (n, z, refl, rw (v6_sixteen n z c bits))

unmap_v6 : (x : Addr) (n : ℕ) (z : Text) → unmap x ≡ v6 n z → x ≡ v6 n z
unfolding unmap
unmap_v6 zero_addr n z h = absurd (cc h)
unmap_v6 (v4 a) n z h = absurd (cc h)
unmap_v6 (v6 a y) n z h = ground arith

is6-eq : (x : Addr) → is6 x ≡ true → (n : ℕ) × (z : Text) × (x ≡ v6 n z)
unfolding is6
is6-eq zero_addr h = absurd (cc h)
is6-eq (v4 a) h = absurd (cc h)
is6-eq (v6 a z) h = (a, z, refl)

within_sixteen :
    (x : Addr) (from : Prefix) (a f : ℕ) (z : Text)
    → x ≡ v6 a z
    → from ≡ sixteen f
    → contains from x ≡ true
    → (z ≡ []) × (f / 2 ^ 112 ≡ a / 2 ^ 112)
unfolding contains contains_addr
within_sixteen x from a f z ex ef h =
    let both : (text_eq z [] && (mask 128 16 f / 2 ^ 112 == a / 2 ^ 112)) ≡ true =
      rw (ex, ef) at h in
    let (no_zone, same) = and_true both in (text_eq→eq z [] no_zone, ground arith)

moved_to :
    (x : Addr) (from to : Prefix) (a f t : ℕ)
    → x ≡ v6 a []
    → from ≡ sixteen f
    → to ≡ sixteen t
    → a < 2 ^ 128
    → t < 2 ^ 128
    → f / 2 ^ 112 ≡ a / 2 ^ 112
    → translate_masked x from to ≡ ok (v6 (moved t a) [])
moved_to x from to a f t ex ef et ha ht inside =
    rw (ex, ef, et) (translate_sixteen a f t ha ht inside)

-- A translation that succeeded, taken apart.
record Translated (x y : Addr) (from to : Prefix) : Type 0 where
  a : ℕ
  f : ℕ
  t : ℕ
  zone_from : Text
  zone_to : Text
  source : x ≡ v6 a []
  from_addr : from.addr ≡ v6 f zone_from
  to_addr : to.addr ≡ v6 t zone_to
  inside : f / 2 ^ 112 ≡ a / 2 ^ 112
  from_masked : masked from ≡ sixteen f
  to_masked : masked to ≡ sixteen t
  target : a < 2 ^ 128 → t < 2 ^ 128 → y ≡ v6 (moved t a) []

translate-eq-ok :
    (x y : Addr) (from to : Prefix) → translate_address x from to ≡ ok y → Translated x y from to
unfolding translate_address translate_masked contains contains_addr
translate-eq-ok x y from to h =
    let (_, eg, h1) = >>=-eq-ok (guard _ not_sixteen) _ h in
    let shape =
      guard-eq-ok
        (is6 (unmap x)
          && is6 (masked from).addr
          && is6 (masked to).addr
          && bits_are (masked from) 16
          && bits_are (masked to) 16)
        not_sixteen eg in
    let (_, eo, h2) = >>=-eq-ok (guard _ outside) _ h1 in
    let within = guard-eq-ok (contains (masked from) (unmap x)) outside eo in
    let (shape3, bits_t) = and_true shape in
    let (shape2, bits_f) = and_true shape3 in
    let (shape1, six_t) = and_true shape2 in
    let (six_x, six_f) = and_true shape1 in
    let (a, z, ux) = is6-eq (unmap x) six_x in
    let (f, zf, ef, mf) = masked-sixteen from.addr from.bits_plus_one six_f bits_f in
    let (t, zt, et, mt) = masked-sixteen to.addr to.bits_plus_one six_t bits_t in
    let (ez, inside) = within_sixteen (unmap x) (masked from) a f z ux mf within in
    let ux' : unmap x ≡ v6 a [] = ux ∙ ap (λ w. v6 a w) ez in
    record {
      a = a;
      f = f;
      t = t;
      zone_from = zf;
      zone_to = zt;
      source = unmap_v6 x a [] ux';
      from_addr = ef;
      to_addr = et;
      inside = inside;
      from_masked = mf;
      to_masked = mt;
      target = λ ha ht.
          ok-injective
            (sym h ∙ moved_to (unmap x) (masked from) (masked to) a f t ux' mf mt ha ht inside);
    }

-- An address of a netip.Addr fits its family.
unfoldable pub IsAddr : Addr → Type 0
IsAddr zero_addr = Unit {0}
IsAddr (v4 n) = n < 2 ^ 32
IsAddr (v6 n z) = n < 2 ^ 128

back_again :
    (a f t : ℕ) (from to : Prefix)
    → a < 2 ^ 128
    → f < 2 ^ 128
    → t < 2 ^ 128
    → t / 2 ^ 112 ≢ 0
    → f / 2 ^ 112 ≡ a / 2 ^ 112
    → masked from ≡ sixteen f
    → masked to ≡ sixteen t
    → translate_address (v6 (moved t a) []) to from ≡ ok (v6 a [])
unfolding translate_address unmap
back_again a f t from to ha hf ht nz inside mf mt =
    let m = moved t a in
    let hm : m < 2 ^ 128 = omega arith in
    let plain : (m / 2 ^ 32 == 0xffff) ≡ false = ground arith in
    let up : t / 2 ^ 112 ≡ m / 2 ^ 112 = omega arith in
    let home : moved f m ≡ a = omega arith in
    rw (plain, mt, mf) (translate_sixteen m t f hm hf up ∙ ap (λ n. ok (v6 n [])) home)

-- Translating an address into a /16 and back gives the address again, with its port: if an address
-- and its port go from one prefix to another without error, what comes out goes from the second
-- prefix to the first without error, and gives what went in. The second prefix is not the one whose
-- sixteen bits are all zero, which holds the IPv4-mapped addresses.
pub translate_addr_port-back :
    (p q : AddrPort) (from to : Prefix)
    → IsAddr p.addr
    → IsAddr from.addr
    → IsAddr to.addr
    → as16 to.addr / 2 ^ 112 ≢ 0
    → translate_addr_port p from to ≡ ok q
    → translate_addr_port q to from ≡ ok p
unfolding translate_addr_port translate_address unmap as16 IsAddr
translate_addr_port-back p q from to hp hf ht not_zero h =
    let (y, ey, eq) = >>=-eq-ok (translate_address p.addr from to) _ h in
    let r = translate-eq-ok p.addr y from to ey in
    let ha : r.a < 2 ^ 128 = rw r.source at hp in
    let hf' : r.f < 2 ^ 128 = rw r.from_addr at hf in
    let ht' : r.t < 2 ^ 128 = rw r.to_addr at ht in
    let nz : r.t / 2 ^ 112 ≢ 0 = rw r.to_addr at not_zero in
    let eq' : q ≡ record { addr = v6 (moved r.t r.a) []; port = p.port } =
      sym (ok-injective eq) ∙ ap (λ w. record { addr = w; port = p.port }) (r.target ha ht') in
    let back = back_again r.a r.f r.t from to ha hf' ht' nz r.inside r.from_masked r.to_masked in
    ap (λ w. translate_addr_port w to from) eq'
    ∙ ap (λ o. o >>= λ w. ok (record { addr = w; port = p.port })) back
    ∙ ap (λ w. ok (record { addr = w; port = p.port })) (sym r.source)
