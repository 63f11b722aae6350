-- ===== src/Approval/Examples.antt =====
-- The approval server's theorems at a concrete registry and token.
use tailscale_railway_quic_b.Common.{
  err, ◌⊎◌, ◌≡◌, refl, ap, ◌∙◌, true, false, [], ◌∷◌, none, some, Text, ok, codes, count, exists,
  find, least, order_by, select, text_eq, text_lt, update,
}
use tailscale_railway_quic_b.Registry.{
  Error, Db, PendingRequest, Registration, generation_is_pending, is_active_certificate, is_free,
  is_live, is_pending, is_quarantined, request_is_approved,
}
use tailscale_railway_quic_b.Registry.Queries.{
  pending_request, find_id, find_identity, is_active_at, registration, same_identity,
  scan_registration, project_known,
}
use tailscale_railway_quic_b.Registry.Routes.{
  active_routes, allocate_prefix, allocate_text, claim, create_route_generation, first_free,
  join_routes, next_generation_id, release_quarantined,
}
use tailscale_railway_quic_b.Registry.Approve.{
  activate, activate_key, activated, after_commit, approve, approve_open, approve_request,
  assign_route, clashes, create_registration, find_or_create, finish, insert_registration,
  insert_replay, is_key_of, jti_hash, new_row, next_id, same_alias, same_replay, store_certificate,
}
use tailscale_railway_quic_b.Registry.Approve.Replays.{is_open, open_request}
use tailscale_railway_quic_b.Registry.Examples as Tables
use tailscale_railway_quic_b.Oidc.Examples as Token
use tailscale_railway_quic_b.Oidc.{contains_text}
use tailscale_railway_quic_b.Oidc.Validity.{Valid, validate-Valid}
use tailscale_railway_quic_b.Approval.{
  Config, Library, Server, ApprovalRequest, Issued, refused, registration_frozen, request_not_found,
  oidc_replay, approved, lease, proof, check_request,
}
use tailscale_railway_quic_b.Approval.Handlers.{
  approval_of, approval_reply, approve_validated, token_request, approve_checked, handle_approve,
}
use tailscale_railway_quic_b.Approval.Grants.{
  Granted, check_request-Checked, handle_approve-Granted, handle_approve-frozen,
}
use tailscale_railway_quic_b.Approval.Replays.{handle_approve-replayed}

abbrev config : Config
config = record {
  registration_frozen = false;
  new_projects_frozen = false;
  allowed_project_ids = [];
  persistent_environments = [];
  persistent_lease = 900;
  preview_lease = 50;
  slot_quarantine = 30;
  approval_tags = [];
  policies = Token.policy ∷ [];
}

abbrev library : Library
library = record {
  platform = Tables.platform;
  oidc = Token.library;
  hmac = λ nonce bytes. nonce;
  real_prefix = Tables.prefix;
  audit_json = λ identity. [];
  revoke_json = λ identity. [];
}

abbrev pending : Text → PendingRequest
pending id = record (Tables.request id (1 ∷ [])) { environment_name = 2 ∷ [] }

abbrev before : Db
before = record Tables.before { pending_requests = pending (1 ∷ []) ∷ pending (2 ∷ []) ∷ [] }

abbrev server : Server
server = record { db = before; cache = Token.cache }

abbrev input : Text → ApprovalRequest
input id = record {
  request_id = id;
  provider_id = 0 ∷ [];
  token = Token.token;
  nonce = [];
  public_fingerprint = [];
}

abbrev issued : Issued
issued = (1 ∷ [], [], 60)

abbrev registered : Registration
registered = record Tables.registered {
  row = record Tables.row { environment_name = 2 ∷ []; lease_class = codes "preview" };
}

abbrev after : Db
after =
    (approve Tables.platform before 10
      (approval_of library config (pending (1 ∷ [])) Token.identity issued)).0

registry_answers :
    (approve Tables.platform before 10
      (approval_of library config (pending (1 ∷ [])) Token.identity issued)).1
    ≡ ok (registered, true)
unfolding approval_of lease contains_text next_id order_by text_lt activate activate_key activated
    after_commit approve_open approve_request assign_route clashes create_registration
    find_or_create finish insert_registration is_key_of jti_hash new_row same_alias same_replay
    store_certificate is_active_at registration same_identity scan_registration active_routes
    allocate_text claim create_route_generation first_free join_routes next_generation_id
    release_quarantined generation_is_pending is_active_certificate is_live pending_request find
    text_eq request_is_approved is_pending insert_replay exists find_identity allocate_prefix least
    select update is_free is_quarantined count find_id approve
registry_answers = refl

second_checked : check_request library config after (input (2 ∷ [])) ≡ ok (pending (2 ∷ []))
unfolding check_request proof approval_of lease contains_text next_id order_by text_lt activate
    activate_key activated after_commit approve_open approve_request assign_route clashes
    create_registration find_or_create finish insert_registration is_key_of jti_hash new_row
    same_alias same_replay store_certificate is_active_at registration same_identity
    scan_registration active_routes allocate_text claim create_route_generation first_free
    join_routes next_generation_id release_quarantined generation_is_pending is_active_certificate
    is_live pending_request find text_eq request_is_approved is_pending insert_replay exists
    find_identity allocate_prefix least select update is_free is_quarantined count find_id approve
second_checked = refl

first_checked : check_request library config before (input (1 ∷ [])) ≡ ok (pending (1 ∷ []))
unfolding check_request proof pending_request find text_eq contains_text exists project_known
first_checked = refl

granted :
    handle_approve library config server Token.clock 10 (input (1 ∷ [])) (some issued) none none
    ≡ (record { db = after; cache = Token.cache }, approved registered true)
unfolding handle_approve approve_checked approve_validated approval_reply token_request
granted =
    ap
      (approve_checked library config server Token.clock 10 (input (1 ∷ [])) (some issued) none
        none)
      first_checked
    ∙ ap (approve_validated library config before 10 (pending (1 ∷ [])) (some issued))
        Token.accepted
    ∙ ap (λ o. approval_reply library Token.cache (after, o)) registry_answers

abbrev approved_server : Server
approved_server = record { db = after; cache = Token.cache }

handle_approve-Granted_example :
    Granted library config server Token.clock 10
      (input (1 ∷ []))
      (some issued)
      approved_server
      registered
      true
handle_approve-Granted_example =
    handle_approve-Granted library config server approved_server Token.clock 10 (input (1 ∷ []))
      (some issued) none none registered true Token.ordered granted

abbrev frozen : Config
frozen = record config { registration_frozen = true }

handle_approve-frozen_example :
    ((request : PendingRequest) × (pending_request before (1 ∷ []) ≡ ok request)
      × (handle_approve library frozen server Token.clock 10
            (input (1 ∷ []))
            (some issued)
            none
            none
          ≡ (server, refused registration_frozen)))
    ⊎ ((e : Error) × (pending_request before (1 ∷ []) ≡ err e)
        × (handle_approve library frozen server Token.clock 10
              (input (1 ∷ []))
              (some issued)
              none
              none
            ≡ (server, refused request_not_found)))
handle_approve-frozen_example =
    handle_approve-frozen library frozen server Token.clock 10 (input (1 ∷ [])) (some issued) none
      none refl

first_valid :
    Valid Token.library
      (Token.policy ∷ [])
      Token.cache
      Token.clock
      (0 ∷ [])
      Token.token
      (token_request library (pending (1 ∷ [])))
      Token.identity
unfolding token_request
first_valid =
    validate-Valid Token.library (Token.policy ∷ []) (0 ∷ []) Token.token Token.request Token.clock
      Token.cache Token.cache none none Token.identity Token.ordered Token.accepted

waits : is_open 10 (pending (1 ∷ [])) ≡ true
unfolding is_pending
waits = refl

abbrev direct :
    Granted library config server Token.clock 10
      (input (1 ∷ []))
      (some issued)
      approved_server
      registered
      true
direct = record {
  request = pending (1 ∷ []);
  checked =
      check_request-Checked library config before (input (1 ∷ [])) (pending (1 ∷ [])) first_checked;
  identity = Token.identity;
  token = first_valid;
  certificate = issued;
  issue = refl;
  committed = ap (λ o. (after, o)) registry_answers;
  approvable = open_request waits;
}

handle_approve-replayed_example :
    handle_approve library config approved_server Token.clock 10
      (input (2 ∷ []))
      (some issued)
      none
      none
    ≡ (approved_server, oidc_replay)
unfolding token_request is_pending text_eq
handle_approve-replayed_example =
    handle_approve-replayed library config config server approved_server Token.clock Token.clock 10
      10 (input (1 ∷ [])) (input (2 ∷ [])) (some issued) issued none none registered true
      (pending (2 ∷ [])) Token.cache Token.identity direct refl second_checked refl Token.accepted
      refl refl refl
