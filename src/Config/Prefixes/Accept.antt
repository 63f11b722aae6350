-- ===== src/Config/Prefixes/Accept.antt =====
-- internal/config/config.go: what `ValidateAcceptedRoutes` promises of the routes it returns.
use tailscale_railway_quic_b.Common.{
  ◌≡◌, refl, sym, ◌∙◌, Bool, true, false, not, ◌||◌, List, [], ◌∷◌, ◌++◌, ◌==◌, exists, All, arith,
  Bool-cases, inl, inr, Text, Option, ok, or_fail, guard, guard-eq-ok, >>=-eq-ok, and_true, subst,
  ok-injective,
}
use tailscale_railway_quic_b.Net.{Addr, Prefix, contains, masked, bit_len, prefix_eq}
use tailscale_railway_quic_b.Net.Overlaps.{prefix_eq_swap}
use tailscale_railway_quic_b.Config.Prefixes.{
  allowed, covers, accept_routes, validate_accepted_routes, invalid_cidr, repeated, outside,
  candidate_allows,
}
use tailscale_railway_quic_b.Config.Prefixes.Intersection.{covers-contains}
use tailscale_railway_quic_b.Config.Prefixes.Sets.{WellFormed, contains-masked}

-- Whether a route occurs twice.
unfoldable pub repeats : List Prefix → Bool
repeats [] = false
repeats (p ∷ ps) = exists (prefix_eq p) ps || repeats ps

-- What accepted routes are, for the permitted destinations.
pub record Accepted (permitted routes : List Prefix) : Type 0 where
  pub distinct : repeats routes ≡ false
  pub inside : (a : Addr) → allowed routes a ≡ true → allowed permitted a ≡ true

-- A route that a permitted prefix covers allows only permitted addresses.
candidate-inside :
    (permitted : List Prefix) (route : Prefix) (a : Addr)
    → All WellFormed permitted
    → exists (λ c. candidate_allows route (masked c)) permitted ≡ true
    → contains route a ≡ true
    → allowed permitted a ≡ true
unfolding exists allowed candidate_allows
candidate-inside [] route a w e h = cc
candidate-inside (c ∷ cs) route a (w, ws) e h =
    elim (Bool-cases (candidate_allows route (masked c))) [
      | inl t ↦
          rw (sym (contains-masked c a w) ∙ covers-contains (masked c) route a (covered t) h) refl
      | inr f ↦ ground (arith, candidate-inside cs route a ws (rw f at e) h)
    ]
  where
    covered : candidate_allows route (masked c) ≡ true → covers (masked c) route ≡ true
    covered t = (and_true {a = bit_len (masked c).addr == bit_len route.addr} t).1

exists-prefix_eq_append :
    (p q : Prefix) (xs : List Prefix)
    → exists (prefix_eq p) (xs ++ q ∷ []) ≡ (exists (prefix_eq p) xs || prefix_eq p q)
unfolding exists
exists-prefix_eq_append p q [] = ground arith
exists-prefix_eq_append p q (x ∷ xs) = ground (arith, exists-prefix_eq_append p q xs)

repeats-append :
    (xs : List Prefix) (q : Prefix)
    → repeats xs ≡ false
    → exists (prefix_eq q) xs ≡ false
    → repeats (xs ++ q ∷ []) ≡ false
unfolding repeats exists
repeats-append [] q h k = refl
repeats-append (x ∷ xs) q h k = rw (exists-prefix_eq_append x q xs) (
    ground (
      arith,
      repeats-append xs q,
      prefix_eq_swap x q,
      Bool-cases (repeats xs),
      Bool-cases (exists (prefix_eq q) xs),
    ))

allowed-append :
    (xs : List Prefix) (q : Prefix) (a : Addr)
    → allowed (xs ++ q ∷ []) a ≡ (allowed xs a || contains q a)
unfolding allowed exists
allowed-append [] q a = ground arith
allowed-append (x ∷ xs) q a = ground (arith, allowed-append xs q a)

empty_repeats : repeats [] ≡ false
unfolding repeats
empty_repeats = refl

empty_allows : (a : Addr) → allowed [] a ≡ true → ⊥
unfolding allowed exists
empty_allows a e = cc

Accepted-append :
    (permitted result : List Prefix) (route : Prefix)
    → All WellFormed permitted
    → Accepted permitted result
    → not (exists (prefix_eq route) result) ≡ true
    → exists (λ c. candidate_allows route (masked c)) permitted ≡ true
    → Accepted permitted (result ++ route ∷ [])
Accepted-append permitted result route w i fresh covered = record {
  distinct = repeats-append result route i.distinct (ground arith);
  inside = λ a h. elim (Bool-cases (contains route a)) [
    | inl c ↦ candidate-inside permitted route a w covered c
    | inr c ↦ i.inside a (ground (arith, allowed-append result route a))
  ];
}

module _ (parse_prefix : Text → Option Prefix) (trim_space : Text → Text) where
  accept_routes-Accepted :
      (permitted result : List Prefix) (raws : List Text) (routes : List Prefix)
      → All WellFormed permitted
      → Accepted permitted result
      → accept_routes parse_prefix trim_space permitted result raws ≡ ok routes
      → Accepted permitted routes
  unfolding accept_routes
  accept_routes-Accepted permitted result [] routes w i h =
      subst (Accepted permitted) (ok-injective h) i
  accept_routes-Accepted permitted result (raw ∷ raws) routes w i h =
      let (parsed, _, k) =
        >>=-eq-ok (or_fail (parse_prefix (trim_space raw)) (invalid_cidr raw)) _ h in
      let (_, g, k) =
        >>=-eq-ok
          (guard (not (exists (prefix_eq (masked parsed)) result)) (repeated (masked parsed))) _
          k in
      let (_, g', k) =
        >>=-eq-ok
          (guard (exists (λ c. candidate_allows (masked parsed) (masked c)) permitted)
            (outside (masked parsed)))
          _ k in
      accept_routes-Accepted permitted (result ++ masked parsed ∷ []) raws routes w
        (Accepted-append permitted result (masked parsed) w i
          (guard-eq-ok (not (exists (prefix_eq (masked parsed)) result)) (repeated (masked parsed))
            g)
          (guard-eq-ok (exists (λ c. candidate_allows (masked parsed) (masked c)) permitted)
            (outside (masked parsed)) g'))
        k

  -- The routes that the validation accepts occur once each, and allow no address that the permitted
  -- destinations do not allow. The destinations are prefixes as netip builds them.
  pub validate_accepted_routes-Accepted :
      (permitted : List Prefix) (raws : List Text) (routes : List Prefix)
      → All WellFormed permitted
      → validate_accepted_routes parse_prefix trim_space raws permitted ≡ ok routes
      → Accepted permitted routes
  unfolding validate_accepted_routes
  validate_accepted_routes-Accepted permitted [] routes w h = absurd (cc)
  validate_accepted_routes-Accepted permitted (raw ∷ raws) routes w h =
      accept_routes-Accepted permitted [] (raw ∷ raws) routes w
        (record { distinct = empty_repeats; inside = λ a e. absurd (empty_allows a e) }) h
