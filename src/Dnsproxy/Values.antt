-- ===== src/Dnsproxy/Values.antt =====
-- internal/dnsproxy/dnsproxy.go: service bindings. What `rewriteSVCBValues` leaves is consistent.
use tailscale_railway_quic_b.Common.{
  ℕ, ◌≡◌, ◌≢◌, refl, sym, Bool, true, List, [], ◌∷◌, ◌==◌, if◌then◌else◌, exists, select, All,
  All-map, All-select, arith, Bool-cases, inl, inr, ◌⊎◌, ==_iff,
}
use tailscale_railway_quic_b.Dnsproxy.{
  Rewriter, Ip, SvcbValue, ipv4_hint, ipv6_hint, mandatory, other_value, svcb_key, drop_hints,
  keep_hint, rewrite_hints, has_key, keep_mandatory, reconcile, rewrite_svcb_values,
}

-- A value that a client may be given beside the values `all`: no IPv4 hint, an IPv6 hint with an
-- address, a list of mandatory keys with a key, each of them there. Key 0 is that of the list.
unfoldable pub ValueServed : List SvcbValue → SvcbValue → Type 0
ValueServed all (ipv4_hint hs) = ⊥
ValueServed all (ipv6_hint hs) = hs ≢ []
ValueServed all (mandatory ks) = (ks ≢ []) × All (λ k. (k ≡ 0) ⊎ (has_key all k ≡ true)) ks
ValueServed all (other_value k b) = Unit

cons_apart {ℓ} : {A : Type ℓ} {x : A} {xs : List A} → x ∷ xs ≢ []
cons_apart e = cc

-- After the first loop: the hints are as they should be.
unfoldable HintServed : SvcbValue → Type 0
HintServed (ipv4_hint hs) = ⊥
HintServed (ipv6_hint hs) = hs ≢ []
HintServed (mandatory ks) = Unit
HintServed (other_value k b) = Unit

keep_hint-All :
    (hs : List Ip) (rest : List SvcbValue)
    → All HintServed rest
    → All HintServed (keep_hint hs rest)
unfolding keep_hint HintServed
keep_hint-All [] rest h = h
keep_hint-All (x ∷ xs) rest h = (cons_apart, h)

drop_hints-All : (r : Rewriter) (vs : List SvcbValue) → All HintServed (drop_hints r vs)
unfolding drop_hints HintServed
drop_hints-All r [] = tt
drop_hints-All r (ipv4_hint hs ∷ vs) = drop_hints-All r vs
drop_hints-All r (ipv6_hint hs ∷ vs) =
    keep_hint-All (rewrite_hints r hs) (drop_hints r vs) (drop_hints-All r vs)
drop_hints-All r (mandatory ks ∷ vs) = (tt, drop_hints-All r vs)
drop_hints-All r (other_value k b ∷ vs) = (tt, drop_hints-All r vs)

key_step :
    (k j : ℕ) (x y : Bool)
    → (if j == k then true else x) ≡ true
    → (x ≡ true → (k ≡ 0) ⊎ (y ≡ true))
    → (k ≡ 0) ⊎ ((if j == k then true else y) ≡ true)
key_step k j x y h f = elim (Bool-cases (j == k)) [
  | inl e ↦ inr (rw e refl)
  | inr e ↦ elim (f (rw e at h)) [ inl z ↦ inl z | inr t ↦ inr (rw e t) ]
]

keep_mandatory-has_key :
    (cs : List ℕ) (rest : List SvcbValue) (k : ℕ)
    → has_key rest k ≡ true
    → has_key (keep_mandatory cs rest) k ≡ true
unfolding has_key exists keep_mandatory svcb_key
keep_mandatory-has_key [] rest k h = h
keep_mandatory-has_key (c ∷ cs) rest k h = rw h (ground arith)

-- A key of the values is one of those that the last loop keeps, or that of a list of keys.
kept_key :
    (present vs : List SvcbValue) (k : ℕ)
    → has_key vs k ≡ true
    → (k ≡ 0) ⊎ (has_key (reconcile present vs) k ≡ true)
unfolding has_key exists reconcile svcb_key
kept_key present [] k h = absurd (cc)
kept_key present (mandatory ks ∷ vs) k h = elim (Bool-cases (0 == k)) [
  | inl e ↦ inl (sym ((==_iff 0 k).0 e))
  | inr e ↦ elim (kept_key present vs k (rw e at h)) [
    | inl z ↦ inl z
    | inr t ↦ inr (keep_mandatory-has_key (select (has_key present) ks) (reconcile present vs) k t)
  ]
]
kept_key present (ipv4_hint hs ∷ vs) k h =
    key_step k 4 (has_key vs k) (has_key (reconcile present vs) k) h (kept_key present vs k)
kept_key present (ipv6_hint hs ∷ vs) k h =
    key_step k 6 (has_key vs k) (has_key (reconcile present vs) k) h (kept_key present vs k)
kept_key present (other_value j b ∷ vs) k h =
    key_step k j (has_key vs k) (has_key (reconcile present vs) k) h (kept_key present vs k)

module _ (out present : List SvcbValue)
    (kept : (k : ℕ) → has_key present k ≡ true → (k ≡ 0) ⊎ (has_key out k ≡ true)) where
  keep_mandatory-All :
      (cs : List ℕ) (rest : List SvcbValue)
      → All (λ k. has_key present k ≡ true) cs
      → All (ValueServed out) rest
      → All (ValueServed out) (keep_mandatory cs rest)
  unfolding keep_mandatory ValueServed
  keep_mandatory-All [] rest c h = h
  keep_mandatory-All (x ∷ xs) rest c h =
      ((cons_apart, All-map (λ k. has_key present k ≡ true) _ kept (x ∷ xs) c), h)

  reconcile-All :
      (vs : List SvcbValue) → All HintServed vs → All (ValueServed out) (reconcile present vs)
  unfolding reconcile ValueServed HintServed
  reconcile-All [] h = tt
  reconcile-All (ipv4_hint hs ∷ vs) (x, h) = absurd x
  reconcile-All (ipv6_hint hs ∷ vs) (x, h) = (x, reconcile-All vs h)
  reconcile-All (mandatory ks ∷ vs) (x, h) =
      keep_mandatory-All (select (has_key present) ks) (reconcile present vs)
        (All-select (has_key present) ks) (reconcile-All vs h)
  reconcile-All (other_value k b ∷ vs) (x, h) = (tt, reconcile-All vs h)

-- What `rewriteSVCBValues` leaves of any values: no IPv4 hint, no empty IPv6 hint, and lists of
-- mandatory keys that are not empty and name only keys that are left, or the list's own.
pub rewrite_svcb_values-ValueServed :
    (r : Rewriter) (vs : List SvcbValue)
    → All (ValueServed (rewrite_svcb_values r vs)) (rewrite_svcb_values r vs)
unfolding rewrite_svcb_values
rewrite_svcb_values-ValueServed r vs =
    reconcile-All (reconcile (drop_hints r vs) (drop_hints r vs)) (drop_hints r vs)
      (kept_key (drop_hints r vs) (drop_hints r vs)) (drop_hints r vs) (drop_hints-All r vs)
