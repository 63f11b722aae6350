-- ===== src/Oidc/Claims.antt =====
-- internal/oidc/validator.go: what the claims are that `Validate` accepts.
use tailscale_railway_quic_b.Common.{
  none, not-true, ℕ, ◌+◌, ◌-◌, ◌<◌, ◌≤◌, ◌≡◌, refl, true, false, not, ◌&&◌, Option, some, text_eq,
  codes, ltb, Result, ok, err, or_fail, or_fail-eq-ok, arith, and_true, ltb→lt, text_eq→eq, Ensures,
  done, failed, Ensures-any, Ensures-guard, Ensures-ok,
}
use tailscale_railway_quic_b.Oidc.{
  Json, Claims, Library, Policy, Request, Identity, is_empty, claim, text_claim, matches_audience,
  workflow_sha_matches,
}
use tailscale_railway_quic_b.Oidc.Tokens.{
  issuer_or_audience, expired, issued_at, not_before, required_claim, allowed_claim,
  project_binding, environment_binding, replay_claim, audit_claim, workflow_sha, skew, has_required,
  has_one_of, numeric_time, may_be_used, nbf_passed, identity_of, lacks_audit, check_times,
  check_claims,
}

-- A `nbf` claim is a time that has come, but for the skew; none is needed.
unfoldable pub Begun : Library → ℕ → Option Json → Type 0
Begun library now none = Unit
Begun library now (some j) = (t : ℕ) × (numeric_time library (some j) ≡ some t) × (t ≤ now + skew)

may_be_used-le :
    (library : Library) (now : ℕ) (o : Option ℕ)
    → may_be_used library now o ≡ true
    → (t : ℕ) × (o ≡ some t) × (t ≤ now + skew)
unfolding may_be_used
may_be_used-le library now none h = cc
may_be_used-le library now (some t) h = (t, refl, ground arith)

nbf_passed-Begun :
    (library : Library) (now : ℕ) (o : Option Json)
    → nbf_passed library now o ≡ true
    → Begun library now o
unfolding nbf_passed Begun
nbf_passed-Begun library now none h = tt
nbf_passed-Begun library now (some j) h = may_be_used-le library now _ h

-- What the claims say of an identity.
pub record Claimed (library : Library) (policy : Policy) (request : Request) (now : ℕ)
    (claims : Claims) (identity : Identity) : Type 0 where
  pub issuer : text_claim claims (codes "iss") ≡ policy.issuer
  pub audience : matches_audience (claim claims (codes "aud")) policy.audiences ≡ true
  pub expires : numeric_time library (claim claims (codes "exp")) ≡ some identity.expires_at
  pub unexpired : now < identity.expires_at + skew
  pub issued :
      (t : ℕ) × (numeric_time library (claim claims (codes "iat")) ≡ some t)
      × (t ≤ now + skew)
      × (now ≤ t + (policy.max_token_age + skew))
  pub begun : Begun library now (claim claims (codes "nbf"))
  pub required : has_required claims policy.required_claims ≡ true
  pub one_of : has_one_of claims policy.one_of_claims ≡ true
  pub project : text_claim claims policy.project_id_claim ≡ request.project_id
  pub environment : text_claim claims policy.environment_claim ≡ request.environment_name
  pub token : identity.jti ≡ text_claim claims policy.replay_claim
  pub token_given : is_empty identity.jti ≡ false
  pub by_provider : identity.provider_id ≡ policy.id
  pub audited : lacks_audit library identity ≡ false
  pub at_workflow : workflow_sha_matches identity.workflow_ref identity.workflow_sha ≡ true

-- What `check_times` makes sure of.
record Timely (library : Library) (policy : Policy) (now : ℕ) (claims : Claims) (expires : ℕ)
    : Type 0 where
  read : numeric_time library (claim claims (codes "exp")) ≡ some expires
  later : now < expires + skew
  usable : Begun library now (claim claims (codes "nbf"))
  from :
      (t : ℕ) × (numeric_time library (claim claims (codes "iat")) ≡ some t)
      × (t ≤ now + skew)
      × (now ≤ t + (policy.max_token_age + skew))

pub Ensures-map :
    {E A : Type 0} {P Q : A → Type 0} (r : Result E A)
    → Ensures P r
    → ((a : A) → P a → Q a)
    → Ensures Q r
Ensures-map (ok a) (done p) f = done (f a p)
Ensures-map (err e) failed f = failed

issued_bounds :
    (now issued age : ℕ)
    → (not (ltb (now + skew) issued) && not (ltb (age + skew) (now - issued))) ≡ true
    → (issued ≤ now + skew) × (now ≤ issued + (age + skew))
issued_bounds now issued age h = ground arith

module _ (library : Library) (policy : Policy) (request : Request) (now : ℕ) (claims : Claims) where
  check_times-Timely :
      Ensures (Timely library policy now claims) (check_times library policy now claims)
  unfolding check_times
  check_times-Timely =
      Ensures-any (or_fail (numeric_time library (claim claims (codes "exp"))) expired) _
        λ expires e. Ensures-guard (ltb now (expires + skew)) expired _ λ g.
          Ensures-any (or_fail (numeric_time library (claim claims (codes "iat"))) issued_at) _
            λ issued i.
              Ensures-guard
                (not (ltb (now + skew) issued)
                  && not (ltb (policy.max_token_age + skew) (now - issued)))
                issued_at _
                λ h.
                  Ensures-guard (nbf_passed library now (claim claims (codes "nbf"))) not_before _
                    λ n. done (record {
                      read = or_fail-eq-ok _ expired e;
                      later = ltb→lt now (expires + skew) g;
                      usable = nbf_passed-Begun library now _ n;
                      from = (
                        issued,
                        or_fail-eq-ok _ issued_at i,
                        (issued_bounds now issued policy.max_token_age h).0,
                        (issued_bounds now issued policy.max_token_age h).1,
                      );
                    })

  pub check_claims-Claimed :
      Ensures
        (Claimed library policy request now claims)
        (check_claims library policy request now claims)
  unfolding check_claims identity_of
  check_claims-Claimed = Ensures-guard _ issuer_or_audience _ λ a. Ensures-any _ _ λ expires t.
      Ensures-guard _ required_claim _ λ r. Ensures-guard _ allowed_claim _ λ o.
        Ensures-guard
          (not (is_empty (text_claim claims policy.project_id_claim))
            && text_eq (text_claim claims policy.project_id_claim) request.project_id)
          project_binding _
          λ p.
            Ensures-guard
              (not (is_empty (text_claim claims policy.environment_claim))
                && text_eq (text_claim claims policy.environment_claim) request.environment_name)
              environment_binding _
              λ e. Ensures-guard _ replay_claim _ λ j.
                let made =
                  identity_of library policy claims (text_claim claims policy.replay_claim)
                    expires in
                Ensures-guard (not (lacks_audit library made)) audit_claim _ λ u.
                  Ensures-guard (workflow_sha_matches made.workflow_ref made.workflow_sha)
                    workflow_sha _
                    λ w.
                      let timely = Ensures-ok check_times-Timely t in
                      done {a = made} (record {
                        issuer = text_eq→eq _ _ ((and_true a).0);
                        audience =
                            (and_true {a = text_eq (text_claim claims (codes "iss")) policy.issuer}
                              a).1;
                        expires = timely.read;
                        unexpired = timely.later;
                        begun = timely.usable;
                        issued = timely.from;
                        required = r;
                        one_of = o;
                        project = text_eq→eq _ _ (
                            (and_true
                              {a = not (is_empty (text_claim claims policy.project_id_claim))}
                              p).1);
                        environment = text_eq→eq _ _ (
                            (and_true
                              {a = not (is_empty (text_claim claims policy.environment_claim))}
                              e).1);
                        token = refl;
                        token_given = not-true _ j;
                        by_provider = refl;
                        audited = not-true _ u;
                        at_workflow = w;
                      })
