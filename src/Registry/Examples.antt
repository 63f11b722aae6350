-- ===== src/Registry/Examples.antt =====
-- The registry's theorems at concrete tables.
use tailscale_railway_quic_b.Common.{All, if◌then◌else◌, ltb}
use tailscale_railway_quic_b.Registry.{
  IdentityKey, is_overlap, is_active_key, not_found, request_expired,
}
use tailscale_railway_quic_b.Registry.Queries.{
  credential, active_identity_key, usable_key, key_is_usable, scan_all,
}
use tailscale_railway_quic_b.Registry.Leases.{
  revoke, expire, has_run_out, renew, renew_tx, renewable, or_expired, extend_lease,
  replace_certificate, record_renewal, audit, complete_identity_rotation,
}
use tailscale_railway_quic_b.Registry.Leases.Ended.{Ended, Quarantined, Refused, revoke-Ended}
use tailscale_railway_quic_b.Registry.Leases.Expiry.{expire-Ended}
use tailscale_railway_quic_b.Registry.Leases.Renewal.{renew_refused, renew-extends}
use tailscale_railway_quic_b.Registry.Leases.Rotation.{complete_identity_rotation-keys}
use tailscale_railway_quic_b.Common.{
  ◌+◌, ◌*◌, ◌^◌, ◌≡◌, refl, true, false, Text, [], ◌∷◌, none, some, ok, err, ap, count, exists,
  find, least, order_by, select, text_eq, text_lt, update,
}
use tailscale_railway_quic_b.Net.{Prefix, v6}
use tailscale_railway_quic_b.Registry.{
  Platform, replay, RegistrationState, IdentityType, RequestState, KeyState, CertificateState,
  AllocationState, RegistrationRow, PendingRequest, Registration, Db, generation_is_pending,
  is_active_certificate, is_free, is_live, is_pending, is_quarantined, request_is_approved,
}
use tailscale_railway_quic_b.Registry.Queries.{
  pending_request, find_id, find_identity, is_active_at, registration, same_identity,
  scan_registration,
}
use tailscale_railway_quic_b.Registry.Routes.{
  active_routes, allocate_prefix, allocate_text, claim, create_route_generation, first_free,
  join_routes, next_generation_id, release_quarantined,
}
use tailscale_railway_quic_b.Registry.Approve.{
  Approval, consume_replay, activate, activate_key, activated, after_commit, approve, approve_open,
  approve_request, assign_route, clashes, create_registration, find_or_create, finish,
  insert_registration, insert_replay, is_key_of, jti_hash, new_row, next_id, same_alias,
  same_replay, store_certificate,
}
use tailscale_railway_quic_b.Registry.Approve.Replays.{
  approve_replayed, approve_again, consume_replayed,
}

abbrev pub prefix : Prefix
prefix = record { addr = v6 (0xfd01 * 2 ^ 112) []; bits_plus_one = 17 }

abbrev pub platform : Platform
platform = record {
  sha256 = λ b. b;
  add_years = λ n t. t + n;
  prefix_text = λ _. 9 ∷ [];
  parse_prefix = λ _. some prefix;
}

abbrev pub request : Text → Text → PendingRequest
request id project = record {
  id = id;
  kind = [];
  project_id = project;
  environment_id = [];
  environment_name = [];
  project_alias = project;
  environment_alias = [];
  identity_key = 7 ∷ [];
  identity_key_id = [];
  transport_key = [];
  proof = [];
  source_address = [];
  created_at = 0;
  expires_at = 100;
  state = RequestState.pending;
}

abbrev first : PendingRequest
first = request (1 ∷ []) (1 ∷ [])

abbrev second : PendingRequest
second = request (2 ∷ []) (2 ∷ [])

abbrev pub before : Db
before = record {
  registrations = [];
  pending_requests = first ∷ second ∷ [];
  identity_keys = [];
  certificates = [];
  leases = [];
  route_allocations =
      record {
        prefix = 9 ∷ [];
        state = AllocationState.free;
        registration_id = none;
        quarantine_until = none;
      }
      ∷ [];
  route_generations = [];
  oidc_replays = [];
  audit_events = [];
}

abbrev approval : Text → Approval
approval id = record {
  request_id = id;
  provider_id = 3 ∷ [];
  jti = 5 ∷ [];
  jti_expires_at = 90;
  lease_class = [];
  lease_duration = 50;
  real_prefix = prefix;
  certificate_pem = 1 ∷ [];
  certificate_id = [];
  certificate_end = 60;
  audit_json = [];
}

abbrev pub row : RegistrationRow
row = record {
  id = 1;
  project_id = 1 ∷ [];
  environment_id = [];
  environment_name = [];
  project_alias = 1 ∷ [];
  environment_alias = [];
  state = RegistrationState.approved;
  identity_type = IdentityType.dynamic_v3;
  lease_class = [];
  lease_expires_at = 60;
  virtual_prefix = 9 ∷ [];
  real_prefix = 9 ∷ [];
  created_at = 10;
  updated_at = 10;
}

abbrev pub registered : Registration
registered = record { row = row; virtual_prefix = prefix; real_prefix = prefix }

abbrev after : Db
after = (approve platform before 10 (approval (1 ∷ []))).0

approval_answers : (approve platform before 10 (approval (1 ∷ []))).1 ≡ ok (registered, true)
unfolding next_id order_by text_lt activate activate_key activated after_commit approve_open
    approve_request assign_route clashes create_registration find_or_create finish
    insert_registration is_key_of jti_hash new_row same_alias same_replay store_certificate
    is_active_at registration same_identity scan_registration active_routes allocate_text claim
    create_route_generation first_free join_routes next_generation_id release_quarantined
    generation_is_pending is_active_certificate is_live pending_request find text_eq
    request_is_approved is_pending insert_replay exists find_identity allocate_prefix least select
    update is_free is_quarantined count find_id approve
approval_answers = refl

approved_first : approve platform before 10 (approval (1 ∷ [])) ≡ (after, ok (registered, true))
approved_first = ap (λ o. (after, o)) approval_answers

second_waits : pending_request after (2 ∷ []) ≡ ok second
unfolding next_id order_by text_lt activate activate_key activated after_commit approve_open
    approve_request assign_route clashes create_registration find_or_create finish
    insert_registration is_key_of jti_hash new_row same_alias same_replay store_certificate
    is_active_at registration same_identity scan_registration active_routes allocate_text claim
    create_route_generation first_free join_routes next_generation_id release_quarantined
    generation_is_pending is_active_certificate is_live pending_request find text_eq
    request_is_approved is_pending insert_replay exists find_identity allocate_prefix least select
    update is_free is_quarantined count find_id approve
second_waits = refl

-- The same token does not approve the second request.
approve_replayed_example : approve platform after 11 (approval (2 ∷ [])) ≡ (after, err replay)
unfolding pending_request find text_eq is_pending
approve_replayed_example =
    approve_replayed platform before after 10 (approval (1 ∷ [])) first registered true refl refl
      approved_first 11 (approval (2 ∷ [])) second refl refl refl second_waits refl

consume_replayed_example :
    consume_replay platform after 11 (3 ∷ []) (5 ∷ []) 90 ≡ (after, err replay)
unfolding pending_request find text_eq is_pending
consume_replayed_example =
    consume_replayed platform before after 10 (approval (1 ∷ [])) first registered true refl refl
      approved_first refl 11 90 refl

approve_again_example :
    approve platform after 20 (approval (1 ∷ [])) ≡ (after, ok (registered, false))
unfolding pending_request find text_eq is_pending
approve_again_example =
    approve_again platform before after 10 (approval (1 ∷ [])) first registered true refl refl
      approved_first 20 (approval (1 ∷ [])) refl

-- A registry with one registration, which has a certificate and two keys.
abbrev key : Text → IdentityKey
key key_id = record {
  registration_id = 1;
  key_id = key_id;
  public_key = key_id;
  state = KeyState.active;
  created_at = 10;
  rotate_after = 11;
  overlap_until = none;
}

abbrev live : Db
live = record before {
  route_allocations =
      record {
        prefix = 9 ∷ [];
        state = AllocationState.allocated;
        registration_id = some 1;
        quarantine_until = none;
      }
      ∷ [];
  registrations = row ∷ [];
  identity_keys = key (3 ∷ []) ∷ key (4 ∷ []) ∷ [];
  certificates =
      record {
        id = [];
        registration_id = 1;
        identity_key_id = 3 ∷ [];
        certificate_pem = 1 ∷ [];
        state = CertificateState.active;
        not_after = 60;
        created_at = 10;
      }
      ∷ [];
}

abbrev revoked : Db
revoked = (revoke platform live 20 (1 ∷ []) [] 30 []).0

revoke_succeeds_answer : (revoke platform live 20 (1 ∷ []) [] 30 []).1 ≡ ok tt
unfolding revoke registration scan_registration find_identity same_identity find text_eq
revoke_succeeds_answer = refl

revoke_succeeds :
    revoke platform live 20 (1 ∷ []) [] 30 []
    ≡ ((revoke platform live 20 (1 ∷ []) [] 30 []).0, ok tt)
revoke_succeeds =
    ap (λ o. ((revoke platform live 20 (1 ∷ []) [] 30 []).0, o)) revoke_succeeds_answer

revoke-Ended_example :
    (r : Registration) × (registration platform live (1 ∷ []) [] ≡ ok r)
    × Ended revoked r.id
    × Quarantined r.id 50 live.route_allocations revoked.route_allocations
    × Refused revoked r.id
revoke-Ended_example = revoke-Ended platform live revoked 20 (1 ∷ []) [] 30 [] revoke_succeeds

abbrev run_out : Db
run_out = (expire platform live 60 30).0

expire_succeeds_answer : (expire platform live 60 30).1 ≡ ok (registered ∷ [])
unfolding expire scan_all select has_run_out is_live registration scan_registration find_identity
    same_identity find text_eq
expire_succeeds_answer = refl

expire_succeeds :
    expire platform live 60 30 ≡ ((expire platform live 60 30).0, ok (registered ∷ []))
expire_succeeds = ap (λ o. ((expire platform live 60 30).0, o)) expire_succeeds_answer

expire-Ended_example :
    All
      (λ (r : RegistrationRow). Ended run_out r.id × Refused run_out r.id)
      (select (has_run_out 60) live.registrations)
    × All (λ (r : RegistrationRow). has_run_out 60 r ≡ false) run_out.registrations
expire-Ended_example = expire-Ended platform live run_out 60 30 (registered ∷ []) expire_succeeds

renew_refused_example :
    renew platform live 60 registered (3 ∷ []) (2 ∷ []) (2 ∷ []) 200 50
    ≡ (live, err request_expired)
unfolding renewable is_active_at is_live
renew_refused_example =
    renew_refused platform live 60 registered (3 ∷ []) (2 ∷ []) (2 ∷ []) 200 50 (refl, tt)

abbrev renewed : Db
renewed = (renew platform live 20 registered (3 ∷ []) (2 ∷ []) (2 ∷ []) 200 50).0

abbrev renewed_registration : Registration
renewed_registration = record registered {
  row = record row { lease_expires_at = 70; updated_at = 20 };
}

renew_succeeds_answer :
    (renew platform live 20 registered (3 ∷ []) (2 ∷ []) (2 ∷ []) 200 50).1
    ≡ ok renewed_registration
unfolding renew renew_tx or_expired extend_lease replace_certificate record_renewal renewable audit
    is_active_at is_live usable_key key_is_usable is_active_key is_active_certificate exists count
    update registration scan_registration find_identity same_identity find text_eq
renew_succeeds_answer = refl

renew_succeeds : renew platform live 20 registered (3 ∷ []) (2 ∷ []) (2 ∷ []) 200 50 ≡ (
  (renew platform live 20 registered (3 ∷ []) (2 ∷ []) (2 ∷ []) 200 50).0,
  ok renewed_registration,
)
renew_succeeds =
    ap (λ o. ((renew platform live 20 registered (3 ∷ []) (2 ∷ []) (2 ∷ []) 200 50).0, o))
      renew_succeeds_answer

renew-extends_example :
    (current : Registration) × (registration platform live (1 ∷ []) [] ≡ ok current)
    × (renewable 20 registered current.row ≡ true)
    × (exists (usable_key 20 1 (3 ∷ [])) live.identity_keys ≡ true)
    × (renewed_registration.row ≡ record current.row { lease_expires_at = 70; updated_at = 20 })
    × (credential renewed 1 ≡ ok (2 ∷ [], 200, 3 ∷ []))
renew-extends_example =
    renew-extends platform live 20 registered (3 ∷ []) (2 ∷ []) (2 ∷ []) 200 50 renewed
      renewed_registration renew_succeeds

abbrev rotated : Db
rotated = (complete_identity_rotation live 20 1 (4 ∷ []) 30).0

rotation_succeeds_answer : (complete_identity_rotation live 20 1 (4 ∷ []) 30).1 ≡ ok tt
unfolding complete_identity_rotation is_active_key exists text_eq
rotation_succeeds_answer = refl

rotation_succeeds :
    complete_identity_rotation live 20 1 (4 ∷ []) 30
    ≡ ((complete_identity_rotation live 20 1 (4 ∷ []) 30).0, ok tt)
rotation_succeeds =
    ap (λ o. ((complete_identity_rotation live 20 1 (4 ∷ []) 30).0, o)) rotation_succeeds_answer

complete_identity_rotation-keys_example :
    (active_identity_key rotated 50 1 (4 ∷ []) ≡ active_identity_key live 50 1 (4 ∷ []))
    × (active_identity_key rotated 50 1 (3 ∷ [])
        ≡ (if ltb 50 50 then active_identity_key live 50 1 (3 ∷ []) else err not_found))
unfolding is_overlap
complete_identity_rotation-keys_example =
    complete_identity_rotation-keys live rotated 20 1 (4 ∷ []) 30 (refl, (refl, tt))
      rotation_succeeds 50 (3 ∷ []) (λ e. cc e)
