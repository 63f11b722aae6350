-- ===== src/Config/Prefixes/Sets.antt =====
-- internal/config/config.go: what the prefix sets mean as sets of addresses.
use tailscale_railway_quic_b.Common.{
  ℕ, ◌≡◌, ◌≤◌, ◌+◌, ◌-◌, ◌*◌, ◌/◌, ◌^◌, refl, sym, ◌∙◌, Bool, true, false, ◌&&◌, ◌||◌, List, [],
  ◌∷◌, ltb, ◌==◌, if◌then◌else◌, exists, All, arith, Bool-cases, inl, inr, or_false, and_false,
}
use native.Mathlib.Nat.{mul-div_cancel}
use tailscale_railway_quic_b.Net.{
  Addr, zero_addr, v4, v6, Prefix, contains, contains_addr, masked, masked_addr, bit_len,
}
use tailscale_railway_quic_b.Net.Nesting.{Fits, Canonical, masked-Canonical, pow_pos}
use tailscale_railway_quic_b.Config.Prefixes.{
  allowed, intersect_pair, intersect_left, intersect_all, intersect_prefixes,
}
use tailscale_railway_quic_b.Config.Prefixes.Intersection.{allowed-intersect_pair}

-- A prefix as netip builds it: the number fits the family, and so do the bits.
pub record WellFormed (p : Prefix) : Type 0 where
  pub fits : Fits p.addr
  pub bits : p.bits_plus_one ≤ bit_len p.addr + 1

contains-bits :
    (q : Addr) (b : ℕ) (a : Addr)
    → contains (record { addr = q; bits_plus_one = b + 1 }) a ≡ contains_addr q b a
unfolding contains
contains-bits q b a = rw (plus_one, less_one) refl
  where
    plus_one : (b + 1 == 0) ≡ false
    plus_one = ground arith

    less_one : b + 1 - 1 ≡ b
    less_one = omega arith

contains_addr-masked :
    (p a : Addr) (b : ℕ) → b ≤ bit_len p → contains (masked_addr p b) a ≡ contains_addr p b a
unfolding contains contains_addr masked_addr bit_len
contains_addr-masked zero_addr a b h = refl
contains_addr-masked (v4 x) a b h =
    rw in_range (contains-bits (v4 (x / 2 ^ (32 - b) * 2 ^ (32 - b))) b a ∙ numbers a)
  where
    in_range : ltb 32 b ≡ false
    in_range = ground arith

    numbers :
        (a : Addr)
        → contains_addr (v4 (x / 2 ^ (32 - b) * 2 ^ (32 - b))) b a ≡ contains_addr (v4 x) b a
    numbers zero_addr = refl
    numbers (v4 y) = rw (mul-div_cancel (x / 2 ^ (32 - b)) (pow_pos (32 - b))) refl
    numbers (v6 y z) = refl
contains_addr-masked (v6 x s) a b h =
    rw in_range (contains-bits (v6 (x / 2 ^ (128 - b) * 2 ^ (128 - b)) []) b a ∙ numbers a)
  where
    in_range : ltb 128 b ≡ false
    in_range = ground arith

    numbers :
        (a : Addr)
        → contains_addr (v6 (x / 2 ^ (128 - b) * 2 ^ (128 - b)) []) b a ≡ contains_addr (v6 x s) b a
    numbers zero_addr = refl
    numbers (v4 y) = refl
    numbers (v6 y z) = rw (mul-div_cancel (x / 2 ^ (128 - b)) (pow_pos (128 - b))) refl

-- `Masked` changes no membership.
pub contains-masked : (p : Prefix) (a : Addr) → WellFormed p → contains (masked p) a ≡ contains p a
unfolding contains masked contains_addr
contains-masked p a w = elim (Bool-cases (p.bits_plus_one == 0)) [
  | inl z ↦ rw z refl
  | inr z ↦ rw z (contains_addr-masked p.addr a (p.bits_plus_one - 1) (within w.bits))
]
  where
    within : p.bits_plus_one ≤ bit_len p.addr + 1 → p.bits_plus_one - 1 ≤ bit_len p.addr
    within h = omega arith

distribute : (a b c d : Bool) → (a || b && c || b && d) ≡ (a || b && (if c then true else d))
distribute true b c d = refl
distribute false true true d = refl
distribute false true false d = refl
distribute false false c d = refl

distribute_left : (a b c d : Bool) → (a || b && d || c && d) ≡ (a || (if b then true else c) && d)
distribute_left true b c d = refl
distribute_left false true true true = refl
distribute_left false true true false = refl
distribute_left false true false true = refl
distribute_left false true false false = refl
distribute_left false false c d = refl

allowed-intersect_left :
    (result : List Prefix) (l : Prefix) (rights : List Prefix) (a : Addr)
    → Canonical l
    → All WellFormed rights
    → allowed (intersect_left result l rights) a
      ≡ (allowed result a || contains l a && allowed rights a)
unfolding intersect_left allowed exists
allowed-intersect_left result l [] a c w =
    rw (and_false (contains l a), or_false (allowed result a)) refl
allowed-intersect_left result l (r ∷ rs) a c (w, ws) =
    rw
      (
        allowed-intersect_left (intersect_pair result l (masked r)) l rs a c ws,
        allowed-intersect_pair result l (masked r) a c (masked-Canonical r w.fits),
        contains-masked r a w,
      )
      (distribute (allowed result a) (contains l a) (contains r a) (allowed rs a))

allowed-intersect_all :
    (result lefts second : List Prefix) (a : Addr)
    → All WellFormed lefts
    → All WellFormed second
    → allowed (intersect_all result lefts second) a
      ≡ (allowed result a || allowed lefts a && allowed second a)
unfolding intersect_all allowed exists
allowed-intersect_all result [] second a w ws = sym (or_false (allowed result a))
allowed-intersect_all result (l ∷ ls) second a (w, ws) v =
    rw
      (
        allowed-intersect_all (intersect_left result (masked l) second) ls second a ws v,
        allowed-intersect_left result (masked l) second a (masked-Canonical l w.fits) v,
        contains-masked l a w,
      )
      (distribute_left (allowed result a) (contains l a) (allowed ls a) (allowed second a))

-- The intersection of two sets of prefixes allows an address if and only if both sets allow it. The
-- prefixes are as netip builds them: numbers and bits that fit their family. The address is any.
pub allowed-intersect_prefixes :
    (first second : List Prefix) (a : Addr)
    → All WellFormed first
    → All WellFormed second
    → allowed (intersect_prefixes first second) a ≡ (allowed first a && allowed second a)
unfolding intersect_prefixes allowed exists
allowed-intersect_prefixes first second a w v = allowed-intersect_all [] first second a w v
