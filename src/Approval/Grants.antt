-- ===== src/Approval/Grants.antt =====
-- internal/approval/server.go: what an approval has established, and approvals while all are frozen.
use tailscale_railway_quic_b.Common.{
  ◌⊎◌, find, find-true, sym, or_fail-eq-ok, Text, not-true, ℕ, ◌≡◌, refl, ap, Bool, true, false,
  not, ◌||◌, List, Option, none, some, text_eq, Result, ok, err, guard, guard-eq-ok, >>=-eq-ok,
  text_eq→eq, Result-cases, inl, inr, subst, ok-injective,
}
use tailscale_railway_quic_b.Registry.{not_found, Db, Time, Error, PendingRequest, Registration}
use tailscale_railway_quic_b.Registry.Queries.{pending_request, project_known}
use tailscale_railway_quic_b.Registry.Approve.{approve}
use tailscale_railway_quic_b.Registry.Approve.Replays.{Approvable, approve-Approvable}
use tailscale_railway_quic_b.Oidc.{Identity, contains_text}
use tailscale_railway_quic_b.Oidc.Keys.{Cache, Jwk}
use tailscale_railway_quic_b.Oidc.Tokens.{Clock, Reason}
use tailscale_railway_quic_b.Oidc.Validity.{IsOrdered, Valid, validate-Valid}
use tailscale_railway_quic_b.Approval.{
  Config, Library, Server, ApprovalRequest, Issued, Reply, Refusal, refused, request_not_found,
  registration_frozen, fingerprint_mismatch, enrollment_proof, new_projects_frozen, approved, proof,
  check_request,
}
use tailscale_railway_quic_b.Approval.Handlers.{
  approval_of, approval_reply, approve_validated, token_request, approve_checked, handle_approve,
}

-- What the checks before the token's establish.
pub record Checked (library : Library) (config : Config) (db : Db) (input : ApprovalRequest)
    (request : PendingRequest) : Type 0 where
  pub asked : pending_request db input.request_id ≡ ok request
  pub thawed : config.registration_frozen ≡ false
  pub fingerprint : request.identity_key_id ≡ input.public_fingerprint
  pub proven : request.proof ≡ proof library input.nonce request
  pub project :
      (not config.new_projects_frozen
        || project_known db request.project_id
        || contains_text config.allowed_project_ids request.project_id)
      ≡ true

found-eq-ok :
    (r : Result Error PendingRequest) {request : PendingRequest}
    → ◌≡◌ {A = Result Refusal PendingRequest}
        (elim r [ ok x ↦ ok x | err e ↦ err request_not_found ])
        (ok request)
    → r ≡ ok request
found-eq-ok (ok x) h = ap ok (ok-injective h)
found-eq-ok (err e) h = absurd (cc)

pub check_request-Checked :
    (library : Library) (config : Config) (db : Db) (input : ApprovalRequest)
    (request : PendingRequest)
    → check_request library config db input ≡ ok request
    → Checked library config db input request
unfolding check_request
check_request-Checked library config db input request h =
    let (r, e, k) =
      >>=-eq-ok
        (elim (pending_request db input.request_id) as (λ _. Result Refusal PendingRequest) [
          | ok x ↦ ok x
          | err e ↦ err request_not_found
        ])
        _ h in
    let (_, g1, k) = >>=-eq-ok (guard (not config.registration_frozen) registration_frozen) _ k in
    let (_, g2, k) =
      >>=-eq-ok (guard (text_eq r.identity_key_id input.public_fingerprint) fingerprint_mismatch) _
        k in
    let (_, g3, k) =
      >>=-eq-ok (guard (text_eq r.proof (proof library input.nonce r)) enrollment_proof) _ k in
    let (_, g4, k) =
      >>=-eq-ok
        (guard
          (not config.new_projects_frozen
            || project_known db r.project_id
            || contains_text config.allowed_project_ids r.project_id)
          new_projects_frozen)
        _ k in
    subst (Checked library config db input) (ok-injective k) (record {
      asked = found-eq-ok (pending_request db input.request_id) e;
      thawed = not-true _ (guard-eq-ok (not config.registration_frozen) registration_frozen g1);
      fingerprint = text_eq→eq _ _ (
          guard-eq-ok (text_eq r.identity_key_id input.public_fingerprint) fingerprint_mismatch g2);
      proven =
          text_eq→eq _ _
            (guard-eq-ok (text_eq r.proof (proof library input.nonce r)) enrollment_proof g3);
      project = guard-eq-ok _ new_projects_frozen g4;
    })

-- A request that was found by an id is found by its own.
pub own_id :
    (db : Db) (id : Text) (request : PendingRequest)
    → pending_request db id ≡ ok request
    → pending_request db request.id ≡ ok request
unfolding pending_request
own_id db id request h =
    let found = or_fail-eq-ok (find (λ r. text_eq r.id id) db.pending_requests) not_found h in
    let same =
      text_eq→eq request.id id (find-true (λ r. text_eq r.id id) db.pending_requests found) in
    subst (λ z. pending_request db z ≡ ok request) (sym same) h

-- Why a registration is approved.
pub record Granted (library : Library) (config : Config) (server : Server) (clock : Clock)
    (now : Time) (input : ApprovalRequest) (issued : Option Issued) (server' : Server)
    (r : Registration) (created : Bool) : Type 0 where
  pub request : PendingRequest
  pub checked : Checked library config server.db input request
  pub identity : Identity
  pub token :
      Valid library.oidc config.policies server'.cache clock input.provider_id input.token
        (token_request library request)
        identity
  pub certificate : Issued
  pub issue : issued ≡ some certificate
  pub committed :
      approve library.platform server.db now
        (approval_of library config request identity certificate)
      ≡ (server'.db, ok (r, created))
  pub approvable : Approvable now request server.db server'.db created

module _ (library : Library) (config : Config) (server : Server) (clock : Clock) (now : Time)
    (input : ApprovalRequest) where
  -- What a reply of `approve` says.
  abbrev Explained : Option Issued → Server × Reply → Type 0
  Explained issued (server', approved r created) =
      Granted library config server clock now input issued server' r created
  Explained issued (server', _) = Unit

  approval_reply-Explained :
      (cache : Cache) (request : PendingRequest) (identity : Identity) (c : Issued)
      (result : Db × Result Error (Registration × Bool))
      → Checked library config server.db input request
      → Valid library.oidc config.policies cache clock input.provider_id input.token
          (token_request library request)
          identity
      → approve library.platform server.db now (approval_of library config request identity c)
        ≡ result
      → Explained (some c) (approval_reply library cache result)
  unfolding approval_reply approval_of
  approval_reply-Explained cache request identity c (db, ok (r, created)) k v e = record {
    request = request;
    checked = k;
    identity = identity;
    token = v;
    certificate = c;
    issue = refl;
    committed = e;
    approvable =
        approve-Approvable library.platform server.db db now
          (approval_of library config request identity c) request r created
          (own_id server.db input.request_id request k.asked) e;
  }
  approval_reply-Explained cache request identity c (db, err Error.replay) k v e = tt
  approval_reply-Explained cache request identity c (db, err Error.pool_exhausted) k v e = tt
  approval_reply-Explained cache request identity c (db, err _) k v e = tt

  approve_validated-Explained :
      (request : PendingRequest) (issued : Option Issued) (result : Cache × Result Reason Identity)
      → Checked library config server.db input request
      → ((cache : Cache) (identity : Identity)
          → result ≡ (cache, ok identity)
          → Valid library.oidc config.policies cache clock input.provider_id input.token
              (token_request library request)
              identity)
      → Explained issued (approve_validated library config server.db now request issued result)
  unfolding approve_validated
  approve_validated-Explained request issued (cache, err e) k v = tt
  approve_validated-Explained request none (cache, ok identity) k v = tt
  approve_validated-Explained request (some c) (cache, ok identity) k v =
      approval_reply-Explained cache request identity c _ k (v cache identity refl) refl

  approve_checked-Explained :
      (issued : Option Issued) (answer again : Option (List Jwk × ℕ))
      (r : Result Refusal PendingRequest)
      → IsOrdered clock
      → check_request library config server.db input ≡ r
      → Explained issued
          (approve_checked library config server clock now input issued answer again r)
  unfolding approve_checked
  approve_checked-Explained issued answer again (err reply) o e = tt
  approve_checked-Explained issued answer again (ok request) o e =
      approve_validated-Explained request issued _
        (check_request-Checked library config server.db input request e)
        λ cache identity h.
          validate-Valid library.oidc config.policies input.provider_id input.token
            (token_request library request) clock server.cache cache answer again identity o h

  handle_approve-Explained :
      (issued : Option Issued) (answer again : Option (List Jwk × ℕ))
      → IsOrdered clock
      → Explained issued (handle_approve library config server clock now input issued answer again)
  unfolding handle_approve
  handle_approve-Explained issued answer again o =
      approve_checked-Explained issued answer again (check_request library config server.db input) o
        refl

-- A registration is approved only for a request of the registry that is pending and has not expired,
-- or that is approved already, and then nothing is created and the registry does not change; the
-- caller gives the fingerprint of its key and its enrollment proof, while registration is not frozen and, if new projects are, for a
-- known or listed project; with a token that is valid for the project and the environment of that
-- request; and it is what the registry's Approve makes of the request, the token's identifier and the
-- issued certificate. This is so whatever the key server answers; the clock does not go back in between.
pub handle_approve-Granted :
    (library : Library) (config : Config) (server server' : Server) (clock : Clock) (now : Time)
    (input : ApprovalRequest) (issued : Option Issued) (answer again : Option (List Jwk × ℕ))
    (r : Registration) (created : Bool)
    → IsOrdered clock
    → handle_approve library config server clock now input issued answer again
      ≡ (server', approved r created)
    → Granted library config server clock now input issued server' r created
handle_approve-Granted library config server server' clock now input issued answer again r created o
      h =
    subst (Explained library config server clock now input issued) h
      (handle_approve-Explained library config server clock now input issued answer again o)

-- The answer of a frozen registration to a request that the registry has.
frozen_found :
    (library : Library) (config : Config) (db : Db) (input : ApprovalRequest)
    (request : PendingRequest)
    → config.registration_frozen ≡ true
    → pending_request db input.request_id ≡ ok request
    → check_request library config db input ≡ err registration_frozen
unfolding check_request
frozen_found library config db input request h found = rw found (rw h refl)

frozen_unknown :
    (library : Library) (config : Config) (db : Db) (input : ApprovalRequest) (e : Error)
    → pending_request db input.request_id ≡ err e
    → check_request library config db input ≡ err request_not_found
unfolding check_request
frozen_unknown library config db input e found = rw found refl

refused_at_once :
    (library : Library) (config : Config) (server : Server) (clock : Clock) (now : Time)
    (input : ApprovalRequest) (issued : Option Issued) (answer again : Option (List Jwk × ℕ))
    (refusal : Refusal)
    → check_request library config server.db input ≡ err refusal
    → handle_approve library config server clock now input issued answer again
      ≡ (server, refused refusal)
unfolding handle_approve approve_checked
refused_at_once library config server clock now input issued answer again refusal h =
    ap (approve_checked library config server clock now input issued answer again) h

-- While registration is frozen, an approval of a request that the registry has is refused for that
-- reason, and one of any other request as unknown, whatever else it contains; and nothing changes,
-- neither the registry nor the cache of keys.
pub handle_approve-frozen :
    (library : Library) (config : Config) (server : Server) (clock : Clock) (now : Time)
    (input : ApprovalRequest) (issued : Option Issued) (answer again : Option (List Jwk × ℕ))
    → config.registration_frozen ≡ true
    → ((request : PendingRequest) × (pending_request server.db input.request_id ≡ ok request)
        × (handle_approve library config server clock now input issued answer again
            ≡ (server, refused registration_frozen)))
      ⊎ ((e : Error) × (pending_request server.db input.request_id ≡ err e)
          × (handle_approve library config server clock now input issued answer again
              ≡ (server, refused request_not_found)))
handle_approve-frozen library config server clock now input issued answer again h =
    elim (Result-cases (pending_request server.db input.request_id)) [
      | inl (request, found) ↦ inl (
        request,
        found,
        refused_at_once library config server clock now input issued answer again
            registration_frozen (frozen_found library config server.db input request h found),
      )
      | inr (e, found) ↦ inr (
        e,
        found,
        refused_at_once library config server clock now input issued answer again request_not_found
            (frozen_unknown library config server.db input e found),
      )
    ]
