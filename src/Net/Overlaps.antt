-- ===== src/Net/Overlaps.antt =====
-- `Overlaps` of Go's net/netip for prefixes that `Masked` gave: containment, in either order.
use tailscale_railway_quic_b.Common.{
  ℕ, ◌+◌, ◌-◌, ◌*◌, ◌/◌, ◌^◌, ◌≤◌, ◌<◌, ◌≡◌, refl, sym, ap, ◌∙◌, Bool, true, false, not, ◌&&◌, ◌||◌,
  [], text_eq, ◌==◌, ltb, if◌then◌else◌, arith, Bool-cases, inl, inr, and_swap, min, ==_iff,
}
use native.Mathlib.Nat.{mul-div_cancel}
use tailscale_railway_quic_b.Net.Laws.{prefix_eq_iff, addr_eq_iff, addr_eq_refl}
use tailscale_railway_quic_b.Net.{
  Addr, v4, v6, Prefix, addr_eq, prefix_eq, contains, contains_addr, masked_addr, overlaps,
  overlap_at, bit_len, prefix_is_valid, is4, bool_eq,
}
use tailscale_railway_quic_b.Net.Nesting.{Canonical, empty, four, six, pow_pos}

plus_one : (b : ℕ) → (b + 1 == 0) ≡ false
plus_one b = ground arith

less_one : (b : ℕ) → b + 1 - 1 ≡ b
less_one b = omega arith

mask_eq : (x y k : ℕ) → 0 < k → (x * k == y * k) ≡ (x == y)
mask_eq x y k h = elim (Bool-cases (x == y)) [
  | inl e ↦ rw ((==_iff x y).0 e) (ground arith)
  | inr e ↦ elim (Bool-cases (x * k == y * k)) [
    | inl f ↦ absurd (ground (arith, same f))
    | inr f ↦ rw (e, f)
  ]
]
  where
    same : (x * k == y * k) ≡ true → x ≡ y
    same f =
        sym (mul-div_cancel x h)
        ∙ ap (λ n. n / k) ((==_iff (x * k) (y * k)).0 f)
        ∙ mul-div_cancel y h

-- `overlap_at` inside one family compares the first `b` bits.
overlap_four :
    (x y b : ℕ)
    → x < 2 ^ 32
    → y < 2 ^ 32
    → b ≤ 32
    → overlap_at (v4 x) (v4 y) b ≡ (x / 2 ^ (32 - b) == y / 2 ^ (32 - b))
unfolding overlap_at prefix_is_valid masked_addr addr_eq
overlap_four x y b hx hy hb = elim (Bool-cases (b == 0)) [
  | inl e ↦ rw ((==_iff b 0).0 e) (ground arith)
  | inr e ↦
      rw (e, in_range, plus_one b)
        (mask_eq (x / 2 ^ (32 - b)) (y / 2 ^ (32 - b)) (2 ^ (32 - b)) (pow_pos (32 - b)))
]
  where
    in_range : ltb 32 b ≡ false
    in_range = ground arith

overlap_six :
    (x y b : ℕ)
    → x < 2 ^ 128
    → y < 2 ^ 128
    → b ≤ 128
    → overlap_at (v6 x []) (v6 y []) b ≡ (x / 2 ^ (128 - b) == y / 2 ^ (128 - b))
unfolding overlap_at prefix_is_valid masked_addr addr_eq text_eq
overlap_six x y b hx hy hb = elim (Bool-cases (b == 0)) [
  | inl e ↦ rw ((==_iff b 0).0 e) (ground arith)
  | inr e ↦
      rw
        (
          e,
          in_range,
          plus_one b,
          and_true_right,
          mask_eq (x / 2 ^ (128 - b)) (y / 2 ^ (128 - b)) (2 ^ (128 - b)) (pow_pos (128 - b)),
        )
        refl
]
  where
    in_range : ltb 128 b ≡ false
    in_range = ground arith

    and_true_right :
        (x / 2 ^ (128 - b) * 2 ^ (128 - b) == y / 2 ^ (128 - b) * 2 ^ (128 - b) && true)
        ≡ (x / 2 ^ (128 - b) * 2 ^ (128 - b) == y / 2 ^ (128 - b) * 2 ^ (128 - b))
    and_true_right = ground arith

if_implied : (a b : Bool) → (a ≡ true → b ≡ true) → (if a then true else b) ≡ b
if_implied true b h = sym (h refl)
if_implied false b h = refl

smaller : (b c : ℕ) → b + 1 ≤ c + 1 → min b c ≡ b
smaller b c h = omega arith

-- Of two canonical prefixes of one family, the one with no more bits overlaps the other where it
-- contains its address, in either order.
pub overlaps-contains :
    (p q : Prefix)
    → Canonical p
    → Canonical q
    → p.bits_plus_one ≤ q.bits_plus_one
    → bit_len p.addr ≡ bit_len q.addr
    → overlaps p q ≡ contains p q.addr
unfolding overlaps contains contains_addr prefix_is_valid is4 bool_eq text_eq bit_len
overlaps-contains p q empty empty h e = refl
overlaps-contains p q (four x b hx hb) (four y c hy hc) h e =
    rw (plus_one b, plus_one c, less_one b, less_one c, smaller b c h, overlap_four x y b hx hy hb)
      (if_implied _ _ (λ (k : prefix_eq p q ≡ true). ground (arith, (prefix_eq_iff p q).0 k)))
overlaps-contains p q (six x b hx hb) (six y c hy hc) h e =
    rw (plus_one b, plus_one c, less_one b, less_one c, smaller b c h, overlap_six x y b hx hy hb)
      (if_implied _ _ (λ (k : prefix_eq p q ≡ true). ground (arith, (prefix_eq_iff p q).0 k)))
overlaps-contains p q empty (four y c hy hc) h e = absurd (omega arith)
overlaps-contains p q empty (six y c hy hc) h e = absurd (omega arith)
overlaps-contains p q (four x b hx hb) empty h e = absurd (omega arith)
overlaps-contains p q (six x b hx hb) empty h e = absurd (omega arith)
overlaps-contains p q (four x b hx hb) (six y c hy hc) h e = absurd (omega arith)
overlaps-contains p q (six x b hx hb) (four y c hy hc) h e = absurd (omega arith)

min_swap : (b c : ℕ) → min b c ≡ min c b
min_swap b c = omega arith

addr_eq_swap : (a b : Addr) → addr_eq a b ≡ addr_eq b a
addr_eq_swap a b = elim (Bool-cases (addr_eq a b)) [
  | inl e ↦ rw ((addr_eq_iff a b).0 e) refl
  | inr e ↦ elim (Bool-cases (addr_eq b a)) [
    | inl f ↦ absurd (cc (rw ((addr_eq_iff b a).0 f, addr_eq_refl a) at e))
    | inr f ↦ rw (e, f)
  ]
]

==_swap : (a b : ℕ) → (a == b) ≡ (b == a)
==_swap a b = ground arith

pub prefix_eq_swap : (p q : Prefix) → prefix_eq p q ≡ prefix_eq q p
unfolding prefix_eq
prefix_eq_swap p q = rw (addr_eq_swap p.addr q.addr, ==_swap p.bits_plus_one q.bits_plus_one) refl

bool_eq_swap : (a b : Bool) → bool_eq a b ≡ bool_eq b a
unfolding bool_eq
bool_eq_swap true true = refl
bool_eq_swap true false = refl
bool_eq_swap false true = refl
bool_eq_swap false false = refl

or_swap : (a b : Bool) → (a || b) ≡ (b || a)
or_swap true true = refl
or_swap true false = refl
or_swap false true = refl
or_swap false false = refl

overlap_at_swap : (a c : Addr) (b : ℕ) → overlap_at a c b ≡ overlap_at c a b
unfolding overlap_at
overlap_at_swap a c b =
    rw
      (
        and_swap (prefix_is_valid (masked_addr a b)) (prefix_is_valid (masked_addr c b)),
        addr_eq_swap (masked_addr a b).addr (masked_addr c b).addr,
      )
      refl

pub overlaps_swap : (p q : Prefix) → overlaps p q ≡ overlaps q p
unfolding overlaps
overlaps_swap p q =
    rw
      (
        or_swap (not (prefix_is_valid p)) (not (prefix_is_valid q)),
        prefix_eq_swap p q,
        bool_eq_swap (is4 p.addr) (is4 q.addr),
        min_swap (p.bits_plus_one - 1) (q.bits_plus_one - 1),
        overlap_at_swap p.addr q.addr (min (q.bits_plus_one - 1) (p.bits_plus_one - 1)),
      )
      refl
