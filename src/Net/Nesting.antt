-- ===== src/Net/Nesting.antt =====
-- Prefixes inside prefixes: `Contains` and `Masked` of Go's net/netip as the program's address sets
-- use them.
use tailscale_railway_quic_b.Common.{
  ℕ, zero, suc, ◌+◌, ◌-◌, ◌*◌, ◌/◌, ◌^◌, ◌≤◌, ◌<◌, ◌≡◌, refl, sym, ◌∙◌, Bool, true, [], text_eq,
  ◌==◌, ltb, arith, Bool-cases, inl, inr, and_true, ==_iff,
}
use native.Mathlib.Nat.{
  pow-suc, pow-zero, div-div-eq-div-mul, one-le-pow, mul_assoc, mul-one, div-mul-le_self, add-suc,
  add-zero,
}
use tailscale_railway_quic_b.Net.{
  Addr, zero_addr, v4, v6, Prefix, contains, contains_addr, masked, masked_addr,
}

pow_add : (m n : ℕ) → 2 ^ (m + n) ≡ 2 ^ m * 2 ^ n
pow_add m zero = rw (add-zero, pow-zero, mul-one) refl
pow_add m (suc n) =
    rw (add-suc, pow-suc 2 (m + n), pow-suc 2 n, pow_add m n) (mul_assoc (2 ^ m) (2 ^ n) 2)

pub pow_pos : (n : ℕ) → 0 < 2 ^ n
pow_pos n = one-le-pow n 2 (ground arith)

-- Numbers that agree after a shift agree after a longer one.
shift_more : (x y j k : ℕ) → j ≤ k → x / 2 ^ j ≡ y / 2 ^ j → x / 2 ^ k ≡ y / 2 ^ k
shift_more x y j k h e =
    rw
      (
        split,
        pow_add j (k - j),
        ← div-div-eq-div-mul x (2 ^ j) (2 ^ (k - j)),
        ← div-div-eq-div-mul y (2 ^ j) (2 ^ (k - j)),
        e,
      )
      refl
  where
    split : k ≡ j + (k - j)
    split = omega arith

front_trans :
    (w b c x y a : ℕ)
    → b ≤ c
    → (x / 2 ^ (w - b) == y / 2 ^ (w - b)) ≡ true
    → (y / 2 ^ (w - c) == a / 2 ^ (w - c)) ≡ true
    → (x / 2 ^ (w - b) == a / 2 ^ (w - b)) ≡ true
front_trans w b c x y a h e f = (==_iff (x / 2 ^ (w - b)) (a / 2 ^ (w - b))).1 (
    (==_iff (x / 2 ^ (w - b)) (y / 2 ^ (w - b))).0 e
    ∙ shift_more y a (w - c) (w - b) (omega arith)
        ((==_iff (y / 2 ^ (w - c)) (a / 2 ^ (w - c))).0 f))

front_meet :
    (w b c x y a : ℕ)
    → b ≤ c
    → (x / 2 ^ (w - b) == a / 2 ^ (w - b)) ≡ true
    → (y / 2 ^ (w - c) == a / 2 ^ (w - c)) ≡ true
    → (x / 2 ^ (w - b) == y / 2 ^ (w - b)) ≡ true
front_meet w b c x y a h e f = (==_iff (x / 2 ^ (w - b)) (y / 2 ^ (w - b))).1 (
    (==_iff (x / 2 ^ (w - b)) (a / 2 ^ (w - b))).0 e
    ∙ sym (
        shift_more y a (w - c) (w - b) (omega arith)
          ((==_iff (y / 2 ^ (w - c)) (a / 2 ^ (w - c))).0 f)))

-- No zone.
unfoldable pub bare : Addr → Bool
bare zero_addr = true
bare (v4 a) = true
bare (v6 a z) = text_eq z []

-- The number of an address fits its family.
unfoldable pub Fits : Addr → Type 0
Fits zero_addr = Unit
Fits (v4 a) = a < 2 ^ 32
Fits (v6 a z) = a < 2 ^ 128

-- What `Masked` gives: the zero Prefix, or an address of its family without a zone and no more bits
-- than the family has.
pub data Canonical : Prefix → Type 0 where
  empty : Canonical (record { addr = zero_addr; bits_plus_one = 0 })
  four : (x b : ℕ) → x < 2 ^ 32 → b ≤ 32 → Canonical (record { addr = v4 x; bits_plus_one = b + 1 })
  six :
      (x b : ℕ)
      → x < 2 ^ 128
      → b ≤ 128
      → Canonical (record { addr = v6 x []; bits_plus_one = b + 1 })

mask_fits : (w b x : ℕ) → x < 2 ^ w → x / 2 ^ (w - b) * 2 ^ (w - b) < 2 ^ w
mask_fits w b x h = omega (arith, div-mul-le_self x (2 ^ (w - b)))

masked_addr-Canonical : (a : Addr) (b : ℕ) → Fits a → Canonical (masked_addr a b)
unfolding masked_addr Fits
masked_addr-Canonical zero_addr b h = empty
masked_addr-Canonical (v4 a) b h = elim (Bool-cases (ltb 32 b)) [
  | inl e ↦ rw e empty
  | inr e ↦ rw e (four _ b (mask_fits 32 b a h) (ground arith))
]
masked_addr-Canonical (v6 a z) b h = elim (Bool-cases (ltb 128 b)) [
  | inl e ↦ rw e empty
  | inr e ↦ rw e (six _ b (mask_fits 128 b a h) (ground arith))
]

pub masked-Canonical : (p : Prefix) → Fits p.addr → Canonical (masked p)
unfolding masked
masked-Canonical p h = elim (Bool-cases (p.bits_plus_one == 0)) [
  | inl e ↦ rw e empty
  | inr e ↦ rw e (masked_addr-Canonical p.addr (p.bits_plus_one - 1) h)
]

nest_addr :
    (p q a : Addr) (b c : ℕ)
    → b ≤ c
    → contains_addr p b q ≡ true
    → contains_addr q c a ≡ true
    → contains_addr p b a ≡ true
unfolding contains_addr
nest_addr (v4 x) (v4 y) (v4 a) b c h e f = front_trans 32 b c x y a h e f
nest_addr (v6 x s) (v6 y t) (v6 a z) b c h e f = rw ((and_true {a = text_eq z []} f).0) (
    front_trans 128 b c x y a h ((and_true {a = text_eq t []} e).1)
      ((and_true {a = text_eq z []} f).1))
nest_addr _ _ _ b c h e f = cc

-- A prefix that contains the address of a longer one contains what that one contains.
pub nest :
    (p q : Prefix) (a : Addr)
    → p.bits_plus_one ≤ q.bits_plus_one
    → contains p q.addr ≡ true
    → contains q a ≡ true
    → contains p a ≡ true
unfolding contains
nest p q a h e f = elim (Bool-cases (p.bits_plus_one == 0)) [
  | inl z ↦ absurd (cc (rw z at e))
  | inr z ↦ elim (Bool-cases (q.bits_plus_one == 0)) [
    | inl y ↦ absurd (cc (rw y at f))
    | inr y ↦ rw z (
        nest_addr p.addr q.addr a (p.bits_plus_one - 1) (q.bits_plus_one - 1) (omega arith)
          (rw z at e) (rw y at f))
  ]
]

meet_addr :
    (p q a : Addr) (b c : ℕ)
    → b ≤ c
    → bare q ≡ true
    → contains_addr p b a ≡ true
    → contains_addr q c a ≡ true
    → contains_addr p b q ≡ true
unfolding contains_addr bare
meet_addr (v4 x) (v4 y) (v4 a) b c h k e f = front_meet 32 b c x y a h e f
meet_addr (v6 x s) (v6 y t) (v6 a z) b c h k e f = rw k (
    front_meet 128 b c x y a h ((and_true {a = text_eq z []} e).1)
      ((and_true {a = text_eq z []} f).1))
meet_addr zero_addr q a b c h k e f = cc
meet_addr (v4 x) q zero_addr b c h k e f = cc
meet_addr (v4 x) q (v6 a z) b c h k e f = cc
meet_addr (v4 x) zero_addr (v4 a) b c h k e f = cc
meet_addr (v4 x) (v6 y t) (v4 a) b c h k e f = cc
meet_addr (v6 x s) q zero_addr b c h k e f = cc
meet_addr (v6 x s) q (v4 a) b c h k e f = cc
meet_addr (v6 x s) zero_addr (v6 a z) b c h k e f = cc
meet_addr (v6 x s) (v4 y) (v6 a z) b c h k e f = cc

-- Two prefixes with a common address: the shorter one contains the address of the longer one.
pub meet :
    (p q : Prefix) (a : Addr)
    → p.bits_plus_one ≤ q.bits_plus_one
    → bare q.addr ≡ true
    → contains p a ≡ true
    → contains q a ≡ true
    → contains p q.addr ≡ true
unfolding contains
meet p q a h k e f = elim (Bool-cases (p.bits_plus_one == 0)) [
  | inl z ↦ absurd (cc (rw z at e))
  | inr z ↦ elim (Bool-cases (q.bits_plus_one == 0)) [
    | inl y ↦ absurd (cc (rw y at f))
    | inr y ↦ rw z (
        meet_addr p.addr q.addr a (p.bits_plus_one - 1) (q.bits_plus_one - 1) (omega arith) k
          (rw z at e) (rw y at f))
  ]
]
