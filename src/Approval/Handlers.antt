-- ===== src/Approval/Handlers.antt =====
-- internal/approval/server.go: the handlers `approve` and `revoke`, as what they do to the server and
-- what they answer.
use tailscale_railway_quic_b.Common.{
  ℕ, Bool, ◌||◌, List, Option, none, some, if◌then◌else◌, Result, ok, err,
}
use tailscale_railway_quic_b.Registry.{
  Db, Time, Error, replay, pool_exhausted, PendingRequest, Registration,
}
use tailscale_railway_quic_b.Registry.Queries.{registration}
use tailscale_railway_quic_b.Registry.Approve.{Approval, approve, consume_replay}
use tailscale_railway_quic_b.Registry.Leases.{revoke}
use tailscale_railway_quic_b.Oidc.{Request, Identity, is_empty}
use tailscale_railway_quic_b.Oidc.Keys.{Cache, Jwk}
use tailscale_railway_quic_b.Oidc.Tokens.{Clock, Reason, validate}
use tailscale_railway_quic_b.Approval.{
  Library, Config, Server, ApprovalRequest, RevokeRequest, Issued, Refusal, Reply, lease,
  request_not_found, refused, bad_request, oidc_validation, not_issued, oidc_replay,
  address_pool_exhausted, not_approved, approved, token_used, not_revoked, revoked, check_request,
}

module _ (library : Library) where
  open library use {platform, oidc, hmac, real_prefix, audit_json, revoke_json}

  unfoldable pub approval_of : Config → PendingRequest → Identity → Issued → Approval
  unfolding lease
  approval_of config request identity (pem, certificate_id, certificate_end) = record {
    request_id = request.id;
    provider_id = identity.provider_id;
    jti = identity.jti;
    jti_expires_at = identity.expires_at;
    lease_class = (lease config request.environment_name).0;
    lease_duration = (lease config request.environment_name).1;
    real_prefix = real_prefix;
    certificate_pem = pem;
    certificate_id = certificate_id;
    certificate_end = certificate_end;
    audit_json = audit_json identity;
  }

  -- The reply to what the registry's `Approve` returns.
  unfoldable pub approval_reply : Cache → Db × Result Error (Registration × Bool) → Server × Reply
  approval_reply cache (db, ok (r, created)) =
      (record { db = db; cache = cache }, approved r created)
  approval_reply cache (db, err replay) = (record { db = db; cache = cache }, oidc_replay)
  approval_reply cache (db, err pool_exhausted) =
      (record { db = db; cache = cache }, address_pool_exhausted)
  approval_reply cache (db, err e) = (record { db = db; cache = cache }, not_approved)

  -- The rest of `approve`, with what `Validate` returns.
  unfoldable pub approve_validated :
      Config
      → Db
      → Time
      → PendingRequest
      → Option Issued
      → Cache × Result Reason Identity
      → Server × Reply
  unfolding approval_of approval_reply
  approve_validated config db now request issued (cache, err e) =
      (record { db = db; cache = cache }, oidc_validation)
  approve_validated config db now request none (cache, ok identity) =
      (record { db = db; cache = cache }, not_issued)
  approve_validated config db now request (some issued) (cache, ok identity) =
      approval_reply cache (approve platform db now (approval_of config request identity issued))

  unfoldable pub token_request : PendingRequest → Request
  token_request request = record {
    project_id = request.project_id;
    environment_name = request.environment_name;
  }

  unfoldable pub approve_checked :
      Config
      → Server
      → Clock
      → Time
      → ApprovalRequest
      → Option Issued
      → Option (List Jwk × ℕ)
      → Option (List Jwk × ℕ)
      → Result Refusal PendingRequest
      → Server × Reply
  unfolding approve_validated token_request
  approve_checked config server clock now input issued answer again (err reply) =
      (server, refused reply)
  approve_checked config server clock now input issued answer again (ok request) =
      approve_validated config server.db now request issued (
        validate oidc config.policies server.cache clock input.provider_id input.token
          (token_request request) answer again)

  -- `approve`, for a request that decodes; `clock` is what the validator reads of the clock, and `now`
  -- what the registry's Approve does.
  unfoldable pub handle_approve :
      Config
      → Server
      → Clock
      → Time
      → ApprovalRequest
      → Option Issued
      → Option (List Jwk × ℕ)
      → Option (List Jwk × ℕ)
      → Server × Reply
  unfolding approve_checked check_request
  handle_approve config server clock now input issued answer again =
      approve_checked config server clock now input issued answer again
        (check_request library config server.db input)

  unfoldable pub revoke_consumed :
      Config
      → Cache
      → Time
      → RevokeRequest
      → Identity
      → Db × Result Error (Unit {0})
      → Server × Reply
  revoke_consumed config cache now input identity (db, err e) =
      (record { db = db; cache = cache }, token_used)
  revoke_consumed config cache now input identity (db, ok _) =
      let (db', done) =
        revoke platform db now input.project_id input.environment_id config.slot_quarantine
          (revoke_json identity) in
      (record { db = db'; cache = cache }, (elim done [ ok _ ↦ revoked | err e ↦ not_revoked ]))

  unfoldable pub revoke_validated :
      Config → Db → Time → Time → RevokeRequest → Cache × Result Reason Identity → Server × Reply
  unfolding revoke_consumed
  revoke_validated config db now later input (cache, err e) =
      (record { db = db; cache = cache }, oidc_validation)
  revoke_validated config db now later input (cache, ok identity) =
      revoke_consumed config cache later input identity
        (consume_replay platform db now identity.provider_id identity.jti identity.expires_at)

  unfoldable pub revoke_found :
      Config
      → Server
      → Clock
      → Time
      → Time
      → RevokeRequest
      → Option (List Jwk × ℕ)
      → Option (List Jwk × ℕ)
      → Result Error Registration
      → Server × Reply
  unfolding revoke_validated
  revoke_found config server clock now later input answer again (err e) =
      (server, refused request_not_found)
  revoke_found config server clock now later input answer again (ok r) =
      revoke_validated config server.db now later input (
        validate oidc config.policies server.cache clock input.provider_id input.token
          (record { project_id = input.project_id; environment_name = r.environment_name }) answer
          again)

  -- `revoke`, for a request that decodes; `now` is the time of ConsumeReplay, `later` that of Revoke.
  unfoldable pub handle_revoke :
      Config
      → Server
      → Clock
      → Time
      → Time
      → RevokeRequest
      → Option (List Jwk × ℕ)
      → Option (List Jwk × ℕ)
      → Server × Reply
  unfolding revoke_found is_empty
  handle_revoke config server clock now later input answer again =
      if is_empty input.project_id || is_empty input.environment_id
      then (server, bad_request)
      else revoke_found config server clock now later input answer again
          (registration platform server.db input.project_id input.environment_id)
