-- ===== src/Oidc/Tokens.antt =====
-- internal/oidc/validator.go: `Validate`, its checks in their order.
use tailscale_railway_quic_b.Common.{
  ℕ, ◌+◌, ◌-◌, ◌*◌, ◌^◌, if◌then◌else◌, Bool, true, false, not, ◌&&◌, ◌||◌, List, [], ◌∷◌, ◌++◌,
  Option, none, some, Text, text_eq, codes, length, ltb, find, Result, ok, err, ◌>>=◌, ◌>>◌, guard,
  or_fail,
}
use tailscale_railway_quic_b.Oidc.{
  Json, number, Claims, Library, Policy, Request, Identity, contains_text, is_empty, claim,
  text_claim, string_claim, matches_audience, workflow_sha_matches, split_dots,
}
use tailscale_railway_quic_b.Oidc.Keys.{
  Readings, Cache, Jwk, RsaKey, KeyError, unknown_key, fetch_failed, key,
}

-- The codes of `invalid`.
pub data Reason : Type 0 where
  request_binding provider format header algorithm jwks signature claims_json issuer_or_audience
        expired issued_at not_before required_claim allowed_claim project_binding
        environment_binding replay_claim audit_claim workflow_sha :
      Reason

-- `skew`, in nanoseconds.
abbrev pub skew : ℕ
skew = 30000000000

-- The value of a claim that is there, as the loops over the policy's claims test it.
unfoldable pub has_required : Claims → List (Text × Text) → Bool
unfolding text_claim
has_required claims [] = true
has_required claims ((name, expected) ∷ rest) =
    text_eq (text_claim claims name) expected && has_required claims rest

unfoldable pub has_one_of : Claims → List (Text × List Text) → Bool
unfolding text_claim contains_text
has_one_of claims [] = true
has_one_of claims ((name, allowed) ∷ rest) =
    contains_text allowed (text_claim claims name) && has_one_of claims rest

-- The clock as `Validate` reads it: in the first call of `key`, in the second one if there is one, and
-- for the claims.
pub record Clock : Type 0 where
  pub first : Readings
  pub second : Readings
  pub checked : ℕ

module _ (library : Library) where
  open library use {decode_base64, decode_json, sha256, verify, parse_int}

  -- time.Unix; Go counts the seconds of a time from the year 1 in 64 bits with a sign, so the seconds
  -- from here on wrap around to a time long before 1970.
  unfoldable pub seconds : Option ℕ → Option ℕ
  seconds none = none
  seconds (some s) = some (if ltb s (2 ^ 63 - 62135596800) then s * 1000000000 else 0)

  -- `numericTime`.
  unfoldable pub numeric_time : Option Json → Option ℕ
  unfolding seconds
  numeric_time (some (number t)) = seconds (parse_int t)
  numeric_time _ = none

  -- The test of `nbf`, if it is there.
  unfoldable pub may_be_used : ℕ → Option ℕ → Bool
  may_be_used now none = false
  may_be_used now (some start) = not (ltb (now + skew) start)

  unfoldable pub nbf_passed : ℕ → Option Json → Bool
  unfolding may_be_used numeric_time
  nbf_passed now none = true
  nbf_passed now (some j) = may_be_used now (numeric_time (some j))

  unfoldable pub identity_of : Policy → Claims → Text → ℕ → Identity
  unfolding string_claim
  identity_of policy claims jti expires = record {
    provider_id = policy.id;
    jti = jti;
    expires_at = expires;
    repository_id = string_claim claims policy.repository_id_claim;
    repository = string_claim claims policy.repository_claim;
    workflow_ref = string_claim claims policy.workflow_ref_claim;
    workflow_sha = string_claim claims policy.workflow_sha_claim;
    run_id = string_claim claims policy.run_id_claim;
    run_attempt = string_claim claims policy.run_attempt_claim;
  }

  -- An audit claim is missing.
  unfoldable pub lacks_audit : Identity → Bool
  unfolding is_empty
  lacks_audit i =
      is_empty i.repository_id
      || is_empty i.workflow_ref
      || is_empty i.workflow_sha
      || is_empty i.run_id
      || is_empty i.run_attempt

  -- The checks of the times; `expires` is what is returned of them.
  unfoldable pub check_times : Policy → ℕ → Claims → Result Reason ℕ
  unfolding numeric_time nbf_passed claim
  check_times policy now claims = do
    expires ← or_fail (numeric_time (claim claims (codes "exp"))) expired
    guard (ltb now (expires + skew)) expired
    issued ← or_fail (numeric_time (claim claims (codes "iat"))) issued_at
    guard (not (ltb (now + skew) issued) && not (ltb (policy.max_token_age + skew) (now - issued)))
        issued_at
    guard (nbf_passed now (claim claims (codes "nbf"))) not_before
    ok expires

  -- The checks of the claims, once the signature is verified.
  unfoldable pub check_claims : Policy → Request → ℕ → Claims → Result Reason Identity
  unfolding check_times has_required has_one_of identity_of lacks_audit
  check_claims policy request now claims = do
    guard
        (text_eq (text_claim claims (codes "iss")) policy.issuer
          && matches_audience (claim claims (codes "aud")) policy.audiences)
        issuer_or_audience
    expires ← check_times policy now claims
    guard (has_required claims policy.required_claims) required_claim
    guard (has_one_of claims policy.one_of_claims) allowed_claim
    guard
        (not (is_empty (text_claim claims policy.project_id_claim))
          && text_eq (text_claim claims policy.project_id_claim) request.project_id)
        project_binding
    guard
        (not (is_empty (text_claim claims policy.environment_claim))
          && text_eq (text_claim claims policy.environment_claim) request.environment_name)
        environment_binding
    guard (not (is_empty (text_claim claims policy.replay_claim))) replay_claim
    let identity = identity_of policy claims (text_claim claims policy.replay_claim) expires
    guard (not (lacks_audit identity)) audit_claim
    guard (workflow_sha_matches identity.workflow_ref identity.workflow_sha) workflow_sha
    ok identity

  -- The signature and the claims, with the key that was found.
  unfoldable pub check_signed :
      Policy → Request → ℕ → Text → Text → Text → RsaKey → Result Reason Identity
  unfolding check_claims
  check_signed policy request now p0 p1 p2 k = do
    sig ← or_fail (decode_base64 p2) signature
    guard (verify k (sha256 (p0 ++ b'.' ∷ p1)) sig) signature
    claims ← or_fail (decode_json p1) claims_json
    check_claims policy request now claims

  unfoldable pub three_parts : List Text → Option (Text × Text × Text)
  three_parts (p0 ∷ p1 ∷ p2 ∷ []) = some (p0, p1, p2)
  three_parts _ = none

  unfoldable pub policy_for : List Policy → Text → Option Policy
  policy_for policies id = find (λ (p : Policy). text_eq p.id id) policies

  -- The checks before a key is looked up: the policy, the parts and the key's id.
  unfoldable pub check_header :
      List Policy → Text → Text → Request → Result Reason (Policy × (Text × Text × Text) × Text)
  unfolding three_parts policy_for
  check_header policies provider_id raw request = do
    guard (not (is_empty request.project_id) && not (is_empty request.environment_name))
        request_binding
    policy ← or_fail (policy_for policies provider_id) provider
    (p0, p1, p2) ← or_fail (three_parts (split_dots raw)) format
    guard (not (ltb (32 * 1024) (length raw))) format
    head ← or_fail (decode_json p0) header
    guard
        (not (is_empty (text_claim head (codes "kid")))
          && contains_text policy.algorithms (text_claim head (codes "alg")))
        algorithm
    ok (policy, (p0, p1, p2), text_claim head (codes "kid"))

  -- The second call of `key`, after a first one that did not know the key.
  unfoldable pub key_again :
      Readings
      → Policy
      → Text
      → Option (List Jwk × ℕ)
      → Cache × Result KeyError RsaKey
      → Cache × Result KeyError RsaKey
  unfolding key
  key_again t policy kid answer (cache, ok k) = (cache, ok k)
  key_again t policy kid answer (cache, err unknown_key) =
      key library cache t policy kid true answer
  key_again t policy kid answer (cache, err fetch_failed) = (cache, err fetch_failed)

  unfoldable pub with_key :
      Policy
      → Request
      → ℕ
      → Text
      → Text
      → Text
      → Cache × Result KeyError RsaKey
      → Cache × Result Reason Identity
  unfolding check_signed
  with_key policy request now p0 p1 p2 (cache, err e) = (cache, err jwks)
  with_key policy request now p0 p1 p2 (cache, ok k) =
      (cache, check_signed policy request now p0 p1 p2 k)

  unfoldable pub after_header :
      Cache
      → Clock
      → Request
      → Option (List Jwk × ℕ)
      → Option (List Jwk × ℕ)
      → Result Reason (Policy × (Text × Text × Text) × Text)
      → Cache × Result Reason Identity
  unfolding key_again with_key key
  after_header cache clock request answer again (err e) = (cache, err e)
  after_header cache clock request answer again (ok (policy, (p0, p1, p2), kid)) =
      with_key policy request clock.checked p0 p1 p2 (
        key_again clock.second policy kid again
          (key library cache clock.first policy kid false answer))

  -- `Validate`; `answer` and `again` are what the key server answers, if it is asked.
  unfoldable pub validate :
      List Policy
      → Cache
      → Clock
      → Text
      → Text
      → Request
      → Option (List Jwk × ℕ)
      → Option (List Jwk × ℕ)
      → Cache × Result Reason Identity
  unfolding after_header check_header
  validate policies cache clock provider_id raw request answer again =
      after_header cache clock request answer again (check_header policies provider_id raw request)
