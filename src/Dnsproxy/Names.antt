-- ===== src/Dnsproxy/Names.antt =====
-- internal/dnsproxy/dnsproxy.go: names on the way to Railway's resolver and back.
use tailscale_railway_quic_b.Common.{
  ℕ, zero, suc, ◌+◌, ◌-◌, ◌≡◌, refl, sym, ap, ◌∙◌, Bool, true, false, not, ◌&&◌, [], ◌∷◌, ◌++◌,
  Text, length, take, drop, text_eq, to_lower, has_suffix, leb, Bool-cases, inl, inr, arith,
  text_eq→eq, text_eq_refl, to_lower-append, length-to_lower, has_suffix-append, take_front,
  length-append, take-append-drop, append_assoc, ok, guard, guard-eq-ok, >>=-eq-ok, ok-injective,
  to_lower_idem, lower_byte, and_true, subst,
}
use tailscale_railway_quic_b.Net.{Prefix, is6, bits_are, masked}
use tailscale_railway_quic_b.Dnsproxy.{
  Library, Rewriter, railway_suffix, new_rewriter, replace_in, replace_suffix, response_name,
  bad_real_prefix, bad_virtual_prefix, bad_suffix,
}

has_suffix-split : (s t : Text) → has_suffix s t ≡ true → (a : Text) × (s ≡ a ++ t)
unfolding has_suffix
has_suffix-split s t h = (
  take (length s - length t) s,
  sym (take-append-drop (length s - length t) s)
      ∙ ap (λ z. take (length s - length t) s ++ z)
          (text_eq→eq (drop (length s - length t) s) t
            ((and_true {a = leb (length t) (length s)} h).1)),
)

to_lower-take : (n : ℕ) (s : Text) → to_lower (take n s) ≡ take n (to_lower s)
unfolding to_lower
to_lower-take zero s = refl
to_lower-take (suc n) [] = refl
to_lower-take (suc n) (c ∷ s) = ap (λ z. lower_byte c ∷ z) (to_lower-take n s)

take_past : (a : Text) (c : ℕ) (t : Text) → take (suc (length a)) (a ++ c ∷ t) ≡ a ++ c ∷ []
take_past [] c t = refl
take_past (x ∷ a) c t = ap (λ z. x ∷ z) (take_past a c t)

-- Fqdn leaves a name as it is that ends in the suffix of Railway's private network.
abbrev pub KeepsRailway : Library → Type 0
KeepsRailway library = (s : Text) → library.fqdn (s ++ railway_suffix) ≡ s ++ railway_suffix

-- What `New` makes sure of.
pub record IsRewriter (real virtual : Prefix) (r : Rewriter) : Type 0 where
  pub real_sixteen : (is6 (masked real).addr && bits_are (masked real) 16) ≡ true
  pub virtual_sixteen : (is6 (masked virtual).addr && bits_are (masked virtual) 16) ≡ true
  pub real_masked : r.real_prefix ≡ masked real
  pub virtual_masked : r.virtual_prefix ≡ masked virtual
  pub lower : to_lower r.suffix ≡ r.suffix
  pub subdomain : has_suffix r.suffix (b'.' ∷ railway_suffix) ≡ true

pub new_rewriter-IsRewriter :
    (library : Library) (real virtual : Prefix) (raw : Text) (r : Rewriter)
    → new_rewriter library real virtual raw ≡ ok r
    → IsRewriter real virtual r
unfolding new_rewriter
new_rewriter-IsRewriter library real virtual raw r h =
    let (_, g1, k) = >>=-eq-ok (guard real_ok bad_real_prefix) _ h in
    let (_, g2, k) = >>=-eq-ok (guard virtual_ok bad_virtual_prefix) _ k in
    let (_, g3, k) = >>=-eq-ok (guard valid bad_suffix) _ k in
    subst (IsRewriter real virtual) (ok-injective k) (record {
      real_sixteen = guard-eq-ok real_ok bad_real_prefix g1;
      virtual_sixteen = guard-eq-ok virtual_ok bad_virtual_prefix g2;
      real_masked = refl;
      virtual_masked = refl;
      lower = to_lower_idem (library.fqdn (library.trim_space raw));
      subdomain = (and_true (guard-eq-ok valid bad_suffix g3)).1;
    })
  where
    real_ok : Bool
    real_ok = is6 (masked real).addr && bits_are (masked real) 16

    virtual_ok : Bool
    virtual_ok = is6 (masked virtual).addr && bits_are (masked virtual) 16

    suffix : Text
    suffix = to_lower (library.fqdn (library.trim_space raw))

    valid : Bool
    valid =
        library.is_domain_name suffix
        && not (text_eq suffix railway_suffix)
        && has_suffix suffix (b'.' ∷ railway_suffix)

lower_railway : to_lower railway_suffix ≡ railway_suffix
unfolding to_lower lower_byte railway_suffix
lower_railway = refl

lower_dot : (s : Text) → to_lower (b'.' ∷ s) ≡ b'.' ∷ to_lower s
unfolding to_lower lower_byte
lower_dot s = refl

longer :
    (front a b : Text) → to_lower front ≡ a ++ b'.' ∷ [] → text_eq (to_lower (front ++ b)) b ≡ false
longer front a b f = elim (Bool-cases (text_eq (to_lower (front ++ b)) b)) [
  | inr e ↦ e
  | inl e ↦ absurd (too_long (ap length (text_eq→eq (to_lower (front ++ b)) b e)) (ap length f))
]
  where
    too_long :
        length (to_lower (front ++ b)) ≡ length b
        → length (to_lower front) ≡ length (a ++ b'.' ∷ [])
        → ⊥
    too_long e f = omega (
      arith,
      length-to_lower (front ++ b),
      length-append front b,
      length-to_lower front,
      length-append a (b'.' ∷ []),
    )

sub_tail : (m n : ℕ) → m + n - n ≡ m
sub_tail m n = omega arith

-- `replaceSuffix` at a name that is cut at a dot in front of `from`.
replace_in_cut :
    (library : Library) (front a from to : Text)
    → to_lower front ≡ a ++ b'.' ∷ []
    → to_lower from ≡ from
    → replace_in library (front ++ from) from to ≡ (front ++ to, true)
unfolding replace_in
replace_in_cut library front a from to f e =
    rw
      (
        longer front a from f,
        boundary,
        length-append front from,
        sub_tail (length front) (length from),
        take_front front from,
      )
      refl
  where
    ends : to_lower (front ++ from) ≡ a ++ b'.' ∷ from
    ends = rw (to_lower-append front from, f, e) (append_assoc a (b'.' ∷ []) from)

    boundary : has_suffix (to_lower (front ++ from)) (b'.' ∷ from) ≡ true
    boundary = rw ends (has_suffix-append a (b'.' ∷ from))

module _ (library : Library) (keeps : KeepsRailway library) {real virtual : Prefix} (r : Rewriter)
    (w : IsRewriter real virtual r) where
  fqdn-suffix : library.fqdn r.suffix ≡ r.suffix
  fqdn-suffix =
      let (a, e) = has_suffix-split r.suffix (b'.' ∷ railway_suffix) w.subdomain in
      let e' : r.suffix ≡ (a ++ b'.' ∷ []) ++ railway_suffix =
        e ∙ sym (append_assoc a (b'.' ∷ []) railway_suffix) in
      ap library.fqdn e' ∙ keeps (a ++ b'.' ∷ []) ∙ sym e'

  replace_query :
      (name : Text)
      → replace_suffix library name r.suffix railway_suffix
        ≡ replace_in library (library.fqdn name) r.suffix railway_suffix
  unfolding replace_suffix
  replace_query name = rw (fqdn-suffix, w.lower, keeps []) refl

  replace_response :
      (name : Text)
      → library.fqdn name ≡ name
      → replace_suffix library name railway_suffix r.suffix
        ≡ replace_in library name railway_suffix r.suffix
  unfolding replace_suffix
  replace_response name e = rw (e, keeps [], fqdn-suffix, lower_railway) refl

  response_front :
      (front a : Text)
      → to_lower front ≡ a ++ b'.' ∷ []
      → response_name library r (front ++ railway_suffix) ≡ front ++ r.suffix
  unfolding response_name
  response_front front a f =
      rw
        (
          replace_response (front ++ railway_suffix) (keeps front),
          replace_in_cut library front a railway_suffix r.suffix f lower_railway,
        )
        refl

  response_railway : response_name library r railway_suffix ≡ r.suffix
  unfolding response_name replace_in
  response_railway =
      rw
        (
          replace_response railway_suffix (keeps []),
          replace_in,
          lower_railway,
          text_eq_refl railway_suffix,
        )
        refl

  -- A name inside the suffix, rewritten for Railway and back in the response.
  back :
      (n q : Text)
      → replace_in library n r.suffix railway_suffix ≡ (q, true)
      → to_lower (response_name library r q) ≡ to_lower n
  unfolding replace_in
  back n q h = elim (Bool-cases (text_eq (to_lower n) r.suffix)) [
    | inl e ↦
        rw (← ap (λ (z : Text × Bool). z.0) (rw e at h), response_railway, w.lower)
          (sym (text_eq→eq (to_lower n) r.suffix e))
    | inr e ↦ elim (Bool-cases (has_suffix (to_lower n) (b'.' ∷ r.suffix))) [
      | inl s ↦
          let (a, split) = has_suffix-split (to_lower n) (b'.' ∷ r.suffix) s in
          rw (← ap (λ (z : Text × Bool). z.0) (rw (e, s) at h)) (restored a split)
      | inr s ↦ absurd (differ (ap (λ (z : Text × Bool). z.1) (rw (e, s) at h)))
    ]
  ]
    where
      differ : false ≡ true → ⊥
      differ d = cc

      cut_at :
          (a : Text)
          → to_lower n ≡ a ++ b'.' ∷ r.suffix
          → length n - length r.suffix ≡ suc (length a)
      cut_at a split =
          omega (arith, ap length split, length-to_lower n, length-append a (b'.' ∷ r.suffix))

      front_of :
          (a : Text)
          → to_lower n ≡ a ++ b'.' ∷ r.suffix
          → to_lower (take (length n - length r.suffix) n) ≡ a ++ b'.' ∷ []
      front_of a split =
          rw (cut_at a split, to_lower-take (suc (length a)) n, split) (take_past a b'.' r.suffix)

      restored :
          (a : Text)
          → to_lower n ≡ a ++ b'.' ∷ r.suffix
          → to_lower
              (response_name library r (take (length n - length r.suffix) n ++ railway_suffix))
            ≡ to_lower n
      restored a split =
          rw
            (
              response_front (take (length n - length r.suffix) n) a (front_of a split),
              to_lower-append (take (length n - length r.suffix) n) r.suffix,
              front_of a split,
              w.lower,
              split,
            )
            (append_assoc a (b'.' ∷ []) r.suffix)

-- A query name that is inside the suffix comes back from a response as the same name, but for the
-- letters' case: the name that the query was rewritten to is rewritten to it. The rewriter is one
-- that `New` returned, and Fqdn leaves a name as it is that ends in railway.internal with its dot.
pub response_name-replace_suffix :
    (library : Library)
    → KeepsRailway library
    → (real virtual : Prefix) (raw : Text) (r : Rewriter)
    → new_rewriter library real virtual raw ≡ ok r
    → (name q : Text) → replace_suffix library name r.suffix railway_suffix ≡ (q, true)
    → to_lower (response_name library r q) ≡ to_lower (library.fqdn name)
response_name-replace_suffix library keeps real virtual raw r made name q h =
    let w = new_rewriter-IsRewriter library real virtual raw r made in
    back library keeps r w (library.fqdn name) q (sym (replace_query library keeps r w name) ∙ h)
