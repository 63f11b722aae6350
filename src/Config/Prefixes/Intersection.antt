-- ===== src/Config/Prefixes/Intersection.antt =====
-- internal/config/config.go: `IntersectPrefixes` gives the addresses that both sets allow.
use tailscale_railway_quic_b.Common.{
  ℕ, ◌≡◌, ◌≤◌, refl, sym, true, false, not, ◌&&◌, ◌||◌, List, [], ◌∷◌, ◌++◌, ltb, ◌==◌, select,
  exists, arith, Bool-cases, inl, inr, ==_iff, text_eq_refl, ◌-◌, and_false, and_true_right,
  and_swap, or_true, or_false, Bool-ext,
}
use tailscale_railway_quic_b.Net.{
  Addr, zero_addr, v4, v6, Prefix, contains, contains_addr, overlaps, bit_len,
}
use tailscale_railway_quic_b.Net.Nesting.{Canonical, empty, four, six, nest, meet, bare}
use tailscale_railway_quic_b.Net.Overlaps.{overlaps-contains, overlaps_swap}
use tailscale_railway_quic_b.Config.Prefixes.{
  allowed, covers, intersection_of, add_intersection, intersect_pair,
}

-- An entry that covers a prefix contains what the prefix contains.
pub covers-contains :
    (p q : Prefix) (a : Addr) → covers p q ≡ true → contains q a ≡ true → contains p a ≡ true
unfolding covers
covers-contains p q a c h = nest p q a (ground arith) (ground arith) h

exists_covers :
    (xs : List Prefix) (i : Prefix) (a : Addr)
    → exists (λ e. covers e i) xs ≡ true
    → contains i a ≡ true
    → exists (λ p. contains p a) xs ≡ true
unfolding exists
exists_covers [] i a c h = cc
exists_covers (x ∷ xs) i a c h = elim (Bool-cases (covers x i)) [
  | inl e ↦ rw (covers-contains x i a e h) refl
  | inr e ↦ ground (arith, exists_covers xs i a (rw e at c) h)
]

-- Without the entries that `i` covers, what `i` does not contain is allowed as before.
select_uncovered :
    (xs : List Prefix) (i : Prefix) (a : Addr)
    → contains i a ≡ false
    → exists (λ p. contains p a) (select (λ e. not (covers i e)) xs) ≡ exists (λ p. contains p a) xs
unfolding exists select
select_uncovered [] i a h = refl
select_uncovered (x ∷ xs) i a h = elim (Bool-cases (covers i x)) [
  | inl e ↦ let absent = not_contained x e in rw (e, absent, select_uncovered xs i a h) refl
  | inr e ↦ rw (e, select_uncovered xs i a h) refl
]
  where
    not_contained : (x : Prefix) → covers i x ≡ true → contains x a ≡ false
    not_contained x e = elim (Bool-cases (contains x a)) [
      | inl c ↦ absurd (cc (covers-contains i x a e c))
      | inr c ↦ c
    ]

exists-append :
    (xs ys : List Prefix) (a : Addr)
    → exists (λ p. contains p a) (xs ++ ys)
      ≡ (exists (λ p. contains p a) xs || exists (λ p. contains p a) ys)
unfolding exists
exists-append [] ys a = refl
exists-append (x ∷ xs) ys a = ground (arith, exists-append xs ys a)

exists_single : (i : Prefix) (a : Addr) → exists (λ p. contains p a) (i ∷ []) ≡ contains i a
unfolding exists
exists_single i a = elim (Bool-cases (contains i a)) [ inl e ↦ rw e refl | inr e ↦ rw e refl ]

-- Adding an intersection adds its addresses and no others.
pub allowed-add_intersection :
    (result : List Prefix) (i : Prefix) (a : Addr)
    → allowed (add_intersection result i) a ≡ (allowed result a || contains i a)
unfolding allowed add_intersection
allowed-add_intersection result i a =
    elim (Bool-cases (exists (λ existing. covers existing i) result)) [
      | inl e ↦ elim (Bool-cases (contains i a)) [
        | inl c ↦
            rw (e, c, or_true (exists (λ p. contains p a) result)) (exists_covers result i a e c)
        | inr c ↦ rw (e, c, or_false (exists (λ p. contains p a) result)) refl
      ]
      | inr e ↦ elim (Bool-cases (contains i a)) [
        | inl c ↦
            rw
              (
                e,
                exists-append (select (λ x. not (covers i x)) result) (i ∷ []) a,
                exists_single i a,
                c,
                or_true (exists (λ p. contains p a) (select (λ x. not (covers i x)) result)),
                or_true (exists (λ p. contains p a) result),
              )
              refl
        | inr c ↦
            rw
              (
                e,
                exists-append (select (λ x. not (covers i x)) result) (i ∷ []) a,
                exists_single i a,
                c,
                select_uncovered result i a c,
              )
              refl
      ]
    ]

contains-bit_len : (p : Prefix) (a : Addr) → contains p a ≡ true → bit_len p.addr ≡ bit_len a
unfolding contains contains_addr bit_len
contains-bit_len p a h = elim (Bool-cases (p.bits_plus_one == 0)) [
  | inl z ↦ absurd (cc (rw z at h))
  | inr z ↦ same_family p.addr a (p.bits_plus_one - 1) (rw z at h)
]
  where
    same_family : (p a : Addr) (b : ℕ) → contains_addr p b a ≡ true → bit_len p ≡ bit_len a
    same_family zero_addr a b h = cc
    same_family (v4 x) zero_addr b h = cc
    same_family (v4 x) (v4 a) b h = refl
    same_family (v4 x) (v6 a z) b h = cc
    same_family (v6 x s) zero_addr b h = cc
    same_family (v6 x s) (v4 a) b h = cc
    same_family (v6 x s) (v6 a z) b h = refl

Canonical-bare : (p : Prefix) → Canonical p → bare p.addr ≡ true
unfolding bare
Canonical-bare p empty = refl
Canonical-bare p (four x b _ _) = refl
Canonical-bare p (six x b _ _) = text_eq_refl []

-- Two prefixes of one family, `p` with no more bits: a common address is one of `q`, where they overlap.
overlap_common :
    (p q : Prefix) (a : Addr)
    → Canonical p
    → Canonical q
    → p.bits_plus_one ≤ q.bits_plus_one
    → bit_len p.addr ≡ bit_len q.addr
    → (contains p a && contains q a) ≡ (overlaps p q && contains q a)
overlap_common p q a cp cq h e = elim (Bool-cases (contains q a)) [
  | inr f ↦ rw (f, and_false (contains p a), and_false (overlaps p q)) refl
  | inl t ↦
      rw
        (
          overlaps-contains p q cp cq h e,
          t,
          and_true_right (contains p a),
          and_true_right (contains p q.addr),
        )
        (Bool-ext (contains p a) (contains p q.addr) (λ u. meet p q a h (Canonical-bare q cq) u t)
          (λ u. nest p q a h u t))
]

pair_common :
    (l r : Prefix) (a : Addr)
    → Canonical l
    → Canonical r
    → bit_len l.addr ≡ bit_len r.addr
    → (contains l a && contains r a) ≡ (overlaps l r && contains (intersection_of l r) a)
unfolding intersection_of
pair_common l r a cl cr e = elim (Bool-cases (ltb l.bits_plus_one r.bits_plus_one)) [
  | inl h ↦ rw h (overlap_common l r a cl cr (ground arith) e)
  | inr h ↦
      rw (h, and_swap (contains l a) (contains r a), overlaps_swap l r)
        (overlap_common r l a cr cl (ground arith) (sym e))
]

pair_apart :
    (l r : Prefix) (a : Addr)
    → (bit_len l.addr == bit_len r.addr) ≡ false
    → (contains l a && contains r a) ≡ false
pair_apart l r a e = elim (Bool-cases (contains l a)) [
  | inr h ↦ rw h refl
  | inl h ↦ elim (Bool-cases (contains r a)) [
    | inr k ↦ rw (k, and_false (contains l a)) refl
    | inl k ↦ absurd (apart (contains-bit_len l a h) (contains-bit_len r a k))
  ]
]
  where
    apart : bit_len l.addr ≡ bit_len a → bit_len r.addr ≡ bit_len a → ⊥
    apart p q = ground arith

-- What one round of the inner loop adds.
pub allowed-intersect_pair :
    (result : List Prefix) (l r : Prefix) (a : Addr)
    → Canonical l
    → Canonical r
    → allowed (intersect_pair result l r) a ≡ (allowed result a || contains l a && contains r a)
unfolding intersect_pair
allowed-intersect_pair result l r a cl cr = elim (Bool-cases (bit_len l.addr == bit_len r.addr)) [
  | inr e ↦ rw (e, pair_apart l r a e, or_false (allowed result a)) refl
  | inl e ↦ elim (Bool-cases (overlaps l r)) [
    | inr o ↦
        rw
          (
            e,
            o,
            pair_common l r a cl cr ((==_iff (bit_len l.addr) (bit_len r.addr)).0 e),
            o,
            or_false (allowed result a),
          )
          refl
    | inl o ↦
        rw (e, o, pair_common l r a cl cr ((==_iff (bit_len l.addr) (bit_len r.addr)).0 e), o)
          (allowed-add_intersection result (intersection_of l r) a)
  ]
]
