-- ===== src/Approval.antt =====
-- internal/approval/server.go: the handlers that approve, revoke and report registrations, on the
-- registry and the token validator; `Proof` of internal/enrollment/client.go. HTTP's decoding and
-- encoding, the logs and the Tailscale command are not modelled; what the certificate issuer returns
-- is an argument.
pub mod Handlers
pub mod Grants
pub mod Replays
pub mod Examples
use tailscale_railway_quic_b.Common.{
  if◌then◌else◌, ℕ, Bool, true, false, not, ◌&&◌, ◌||◌, List, [], ◌∷◌, ◌++◌, Option, none, some,
  Text, Bytes, text_eq, codes, leb, exists, Result, ok, err, ◌>>=◌, ◌>>◌, guard,
}
use tailscale_railway_quic_b.Net.{Prefix, prefix_eq}
use tailscale_railway_quic_b.Registry.{
  Platform, Db, Time, Error, not_found, PendingRequest, Registration, Generation, is_pending,
  request_is_approved, RegistrationState,
}
use tailscale_railway_quic_b.Registry.Queries.{
  pending_request, pending_for_identity, project_known, registration, pending_route_generation,
}
use tailscale_railway_quic_b.Oidc as Oidc
use tailscale_railway_quic_b.Oidc.{Policy, Identity, contains_text, is_empty}
use tailscale_railway_quic_b.Oidc.Keys.{Cache}

-- What the server reads of `config.Edge`.
pub record Config : Type 0 where
  pub registration_frozen : Bool
  pub new_projects_frozen : Bool
  pub allowed_project_ids : List Text
  pub persistent_environments : List Text
  pub persistent_lease : ℕ
  pub preview_lease : ℕ
  pub slot_quarantine : ℕ
  pub approval_tags : List Text
  pub policies : List Policy

-- The libraries: HMAC-SHA256, the prefix fd12::/16, the audit's JSON for either handler.
pub record Library : Type 0 where
  pub platform : Platform
  pub oidc : Oidc.Library
  pub hmac : Bytes → Bytes → Bytes
  pub real_prefix : Prefix
  pub audit_json : Identity → Text
  pub revoke_json : Identity → Text

-- A server: its registry and the validator's key cache.
pub record Server : Type 0 where
  pub db : Db
  pub cache : Cache

-- `approvalRequest` and `revokeRequest`.
pub record ApprovalRequest : Type 0 where
  pub request_id : Text
  pub provider_id : Text
  pub token : Text
  pub nonce : Bytes
  pub public_fingerprint : Text

pub record RevokeRequest : Type 0 where
  pub project_id : Text
  pub environment_id : Text
  pub provider_id : Text
  pub token : Text

-- A certificate that the issuer made: its PEM, its id and its end.
abbrev pub Issued : Type 0
Issued = Bytes × Text × Time

-- The refusals of a request before its token is validated.
pub data Refusal : Type 0 where
  request_not_found registration_frozen fingerprint_mismatch enrollment_proof new_projects_frozen :
      Refusal

-- The answers of the handlers, with the HTTP status that each has.
pub data Reply : Type 0 where
  refused : Refusal → Reply
  bad_request oidc_validation not_issued oidc_replay address_pool_exhausted not_approved : Reply
  approved : Registration → Bool → Reply
  token_used not_revoked revoked : Reply

unfoldable pub refusal_status : Refusal → ℕ
refusal_status request_not_found = 404
refusal_status registration_frozen = 423
refusal_status fingerprint_mismatch = 403
refusal_status enrollment_proof = 403
refusal_status new_projects_frozen = 423

unfoldable pub status : Reply → ℕ
unfolding refusal_status
status (refused r) = refusal_status r
status bad_request = 400
status oidc_validation = 403
status not_issued = 500
status oidc_replay = 409
status address_pool_exhausted = 507
status not_approved = 500
status (approved r created) = 200
status token_used = 409
status not_revoked = 400
status revoked = 200

-- hasAllowedTag.
unfoldable pub has_allowed_tag : List Text → List Text → Bool
unfolding contains_text
has_allowed_tag actual allowed = exists (contains_text allowed) actual

-- `lease`.
unfoldable pub lease : Config → Text → Text × ℕ
unfolding contains_text
lease config environment =
    if contains_text config.persistent_environments environment
    then (codes "persistent", config.persistent_lease)
    else (codes "preview", config.preview_lease)

-- `pendingExpired`.
unfoldable pub pending_expired : Time → PendingRequest → Bool
pending_expired now request = is_pending request.state && leb request.expires_at now

unfoldable pub is_ready : RegistrationState → Bool
is_ready RegistrationState.ready = true
is_ready _ = false

pub data Readiness : Type 0 where
  as_requested connecting ready_now : Readiness

module _ (library : Library) where
  open library use {platform, oidc, hmac, real_prefix, audit_json, revoke_json}

  -- `Proof`, with the parts of the request that it reads.
  unfoldable pub proof : Bytes → PendingRequest → Bytes
  proof nonce request = hmac nonce (
      request.project_id
      ++ (0 ∷ request.environment_id)
      ++ (0 ∷ request.identity_key)
      ++ (0 ∷ request.transport_key))

  -- `authorizedPending`.
  unfoldable pub authorized_pending : Bytes → PendingRequest → Bool
  unfolding proof is_empty
  authorized_pending nonce request =
      not (is_empty nonce) && text_eq request.proof (proof nonce request)

  -- The last part of `readinessState`: whether the pending generation waits for the registration's route.
  unfoldable pub route_readiness :
      Registration → Result Error (Generation × List Prefix) → Readiness
  route_readiness r (ok (generation, routes)) =
      if exists (prefix_eq r.virtual_prefix) routes then connecting else ready_now
  route_readiness r (err not_found) = ready_now
  route_readiness r (err e) = connecting

  unfoldable pub registration_readiness : Db → Result Error Registration → Readiness
  unfolding route_readiness is_ready
  registration_readiness db (err e) = connecting
  registration_readiness db (ok r) =
      if is_ready r.state
      then route_readiness r (pending_route_generation platform db)
      else connecting

  -- `readinessState`; `as_requested` is the request's own state.
  unfoldable pub readiness_state : Db → PendingRequest → Readiness
  unfolding registration_readiness
  readiness_state db request =
      if request_is_approved request.state
      then registration_readiness db
          (registration platform db request.project_id request.environment_id)
      else as_requested

  -- `pending`: the request and its readiness for a caller that knows the nonce.
  unfoldable pub pending : Db → Text → Bytes → Result Refusal (PendingRequest × Readiness)
  unfolding authorized_pending readiness_state
  pending db id nonce = elim (pending_request db id) [
    | err e ↦ err request_not_found
    | ok request ↦
        if authorized_pending nonce request
        then ok (request, readiness_state db request)
        else err request_not_found
  ]

  unfoldable pub last_request : List PendingRequest → Option PendingRequest
  last_request [] = none
  last_request (r ∷ rs) = elim (last_request rs) [ some x ↦ some x | none ↦ some r ]

  -- `pendingForIdentity`.
  unfoldable pub pending_by_identity :
      Db → Time → Text → Text → Bytes → Result Refusal (PendingRequest × Readiness)
  unfolding last_request authorized_pending readiness_state pending_expired
  pending_by_identity db now project environment nonce =
      elim (last_request (pending_for_identity db project environment)) [
        | none ↦ err request_not_found
        | some request ↦
            if pending_expired now request
            then err request_not_found
            else if authorized_pending nonce request
            then ok (request, readiness_state db request)
            else err request_not_found
      ]

  -- The checks of `approve` before the token's.
  unfoldable pub check_request : Config → Db → ApprovalRequest → Result Refusal PendingRequest
  unfolding proof contains_text
  check_request config db input = do
    request ← (elim (pending_request db input.request_id) [
      | ok r ↦ ok r
      | err e ↦ err request_not_found
    ])
    guard (not config.registration_frozen) registration_frozen
    guard (text_eq request.identity_key_id input.public_fingerprint) fingerprint_mismatch
    guard (text_eq request.proof (proof input.nonce request)) enrollment_proof
    guard
        (not config.new_projects_frozen
          || project_known db request.project_id
          || contains_text config.allowed_project_ids request.project_id)
        new_projects_frozen
    ok request
