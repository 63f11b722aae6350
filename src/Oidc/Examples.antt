-- ===== src/Oidc/Examples.antt =====
-- The validator's theorems at a concrete token.
use tailscale_railway_quic_b.Common.{
  arith, ◌≡◌, refl, true, false, [], ◌∷◌, none, some, Text, ok, codes, exists, find, text_eq,
}
use tailscale_railway_quic_b.Oidc.{
  text, number, Claims, Library, Policy, Request, Identity, contains_text, is_empty, claim,
  text_or_empty, text_claim, text_or_number, string_claim, matches_audience, after_at, is_text,
  workflow_sha_matches, split_dots,
}
use tailscale_railway_quic_b.Oidc.Keys.{Cache, lookup, key, key_cached, Trusted, key-Trusted}
use tailscale_railway_quic_b.Oidc.Tokens.{
  Clock, has_required, has_one_of, seconds, numeric_time, may_be_used, nbf_passed, identity_of,
  lacks_audit, check_times, check_claims, check_signed, three_parts, policy_for, check_header,
  key_again, with_key, after_header, validate,
}
use tailscale_railway_quic_b.Oidc.Validity.{IsOrdered}

abbrev ten : Text → Text
ten t = 1 ∷ 1 ∷ 1 ∷ 1 ∷ 1 ∷ 1 ∷ 1 ∷ 1 ∷ 1 ∷ 1 ∷ t

abbrev sha : Text
sha = ten (ten (ten (ten [])))

-- One object for the header and the claims.
abbrev pub claims : Claims
claims =
    (codes "kid", text (7 ∷ []))
    ∷ (codes "alg", text (8 ∷ []))
    ∷ (codes "iss", text (9 ∷ []))
    ∷ (codes "aud", text (3 ∷ []))
    ∷ (codes "exp", number [])
    ∷ (codes "iat", number [])
    ∷ (1 ∷ [], text (1 ∷ []))
    ∷ (2 ∷ [], text (2 ∷ []))
    ∷ (4 ∷ [], text (4 ∷ []))
    ∷ (5 ∷ [], text (b'@' ∷ sha))
    ∷ (6 ∷ [], text sha)
    ∷ []

abbrev pub library : Library
library = record {
  decode_base64 = λ t. some t;
  decode_json = λ t. some claims;
  sha256 = λ b. b;
  verify = λ k digest sig. true;
  parse_int = λ t. some 1;
}

abbrev pub policy : Policy
policy = record {
  id = 0 ∷ [];
  issuer = 9 ∷ [];
  audiences = (3 ∷ []) ∷ [];
  algorithms = (8 ∷ []) ∷ [];
  max_token_age = 50;
  required_claims = [];
  one_of_claims = [];
  project_id_claim = 1 ∷ [];
  environment_claim = 2 ∷ [];
  replay_claim = 4 ∷ [];
  repository_id_claim = 4 ∷ [];
  repository_claim = [];
  workflow_ref_claim = 5 ∷ [];
  workflow_sha_claim = 6 ∷ [];
  run_id_claim = 4 ∷ [];
  run_attempt_claim = 4 ∷ [];
}

abbrev pub cache : Cache
cache =
    (0 ∷ [], record { by_id = (7 ∷ [], (1 ∷ [], 3)) ∷ []; expires_at = 100; fetched_at = 0 }) ∷ []

abbrev pub request : Request
request = record { project_id = 1 ∷ []; environment_name = 2 ∷ [] }

abbrev pub token : Text
token = 1 ∷ b'.' ∷ 2 ∷ b'.' ∷ 3 ∷ []

abbrev pub identity : Identity
identity = record {
  provider_id = 0 ∷ [];
  jti = 4 ∷ [];
  expires_at = 1000000000;
  repository_id = 4 ∷ [];
  repository = [];
  workflow_ref = b'@' ∷ sha;
  workflow_sha = sha;
  run_id = 4 ∷ [];
  run_attempt = 4 ∷ [];
}

-- The clock goes on by one with each reading.
abbrev pub clock : Clock
clock = record {
  first = record { asked = 10; fetched = 11 };
  second = record { asked = 12; fetched = 13 };
  checked = 14;
}

pub ordered : IsOrdered clock
ordered = record { first_fetch = omega arith; calls = omega arith; second_fetch = omega arith }

pub accepted :
    validate library (policy ∷ []) cache clock (0 ∷ []) token request none none
    ≡ (cache, ok identity)
unfolding validate after_header check_header key key_cached key_again with_key check_signed
    check_claims check_times lookup has_required has_one_of seconds numeric_time may_be_used
    nbf_passed identity_of lacks_audit three_parts policy_for contains_text is_empty claim
    text_or_empty text_claim text_or_number string_claim matches_audience after_at is_text
    workflow_sha_matches split_dots exists find text_eq
accepted = refl

key_found : key library cache clock.first policy (7 ∷ []) false none ≡ (cache, ok (1 ∷ [], 3))
unfolding key key_cached lookup text_eq
key_found = refl

key-Trusted_example : Trusted cache 10 policy (7 ∷ []) (1 ∷ [], 3)
key-Trusted_example =
    key-Trusted library cache cache clock.first policy (7 ∷ []) false none (1 ∷ [], 3) (omega arith)
      key_found
