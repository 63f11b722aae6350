-- ===== src/Registry/Approve.antt =====
-- internal/registry/registry.go: `Approve` and `ConsumeReplay`.
pub mod Steps
pub mod Replays
use tailscale_railway_quic_b.Common.{
  ℕ, suc, ◌+◌, Bool, true, false, not, ◌&&◌, ◌||◌, Bytes, Text, text_eq, List, [], ◌∷◌, ◌++◌,
  Option, none, some, Result, ok, err, ◌>>=◌, ◌>>◌, guard, or_fail, ltb, ◌==◌, if◌then◌else◌, find,
  exists, update, codes,
}
use tailscale_railway_quic_b.Net.{Prefix}
use tailscale_railway_quic_b.Registry.{
  Time, Platform, Error, invalid, request_expired, replay, not_found, unique, RegistrationState,
  IdentityType, RequestState, KeyState, CertificateState, RegistrationRow, PendingRequest,
  IdentityKey, Certificate, Replay, Registration, Db, is_pending, request_is_approved,
  is_active_certificate, transaction,
}
use tailscale_railway_quic_b.Registry.Queries.{
  find_identity, find_id, pending_request, registration, scan_registration,
}
use tailscale_railway_quic_b.Registry.Routes.{allocate_prefix, create_route_generation}

-- Durations are in nanoseconds.
pub record Approval : Type 0 where
  pub request_id : Text
  pub provider_id : Text
  pub jti : Text
  pub jti_expires_at : Time
  pub lease_class : Text
  pub lease_duration : ℕ
  pub real_prefix : Prefix
  pub certificate_pem : Bytes
  pub certificate_id : Text
  pub certificate_end : Time
  pub audit_json : Text

-- `ProviderID + "\x00" + JTI`.
unfoldable pub jti_hash : Platform → Text → Text → Bytes
jti_hash platform provider jti = platform.sha256 (provider ++ (0 ∷ jti))

unfoldable pub same_replay : Text → Bytes → Replay → Bool
same_replay provider hash r = text_eq r.provider_id provider && text_eq r.jti_hash hash

-- The INSERT into oidc_replays, whose key is the provider and the hash.
unfoldable pub insert_replay : Db → Text → Bytes → Time → Result Error Db
unfolding same_replay
insert_replay db provider hash expires_at =
    if exists (same_replay provider hash) db.oidc_replays
    then err replay
    else ok (record db {
      oidc_replays =
          db.oidc_replays
          ++ record { provider_id = provider; jti_hash = hash; expires_at = expires_at } ∷ [];
    })

-- `ConsumeReplay`.
unfoldable pub consume_replay :
    Platform → Db → Time → Text → Text → Time → Db × Result Error (Unit {0})
unfolding insert_replay
consume_replay platform db now provider jti expires_at =
    if text_eq provider [] || text_eq jti [] || not (ltb now expires_at)
    then (db, err invalid)
    else transaction db (
        insert_replay db provider (jti_hash platform provider jti) expires_at >>= λ db'.
        ok (db', tt))

-- `INTEGER PRIMARY KEY`: one more than the largest id; rows are never deleted.
unfoldable pub next_id : List RegistrationRow → ℕ
next_id [] = 1
next_id (row ∷ rows) = let rest = next_id rows in if ltb row.id rest then rest else suc row.id

-- The three UNIQUE constraints of `registrations` between two rows.
unfoldable pub clashes : RegistrationRow → RegistrationRow → Bool
clashes a b =
    text_eq a.virtual_prefix b.virtual_prefix
    || text_eq a.project_id b.project_id && text_eq a.environment_id b.environment_id
    || text_eq a.project_alias b.project_alias && text_eq a.environment_alias b.environment_alias

unfoldable pub insert_registration : Db → RegistrationRow → Result Error Db
unfolding clashes
insert_registration db row = do
  guard (not (exists (clashes row) db.registrations)) unique
  ok (record db { registrations = db.registrations ++ row ∷ [] })

module _ (platform : Platform) (now : Time) (approval : Approval) (request : PendingRequest) where
  unfoldable pub new_row : ℕ → Prefix → RegistrationRow
  new_row id prefix = record {
    id = id;
    project_id = request.project_id;
    environment_id = request.environment_id;
    environment_name = request.environment_name;
    project_alias = request.project_alias;
    environment_alias = request.environment_alias;
    state = RegistrationState.approved;
    identity_type = IdentityType.dynamic_v3;
    lease_class = approval.lease_class;
    lease_expires_at = now + approval.lease_duration;
    virtual_prefix = platform.prefix_text prefix;
    real_prefix = platform.prefix_text approval.real_prefix;
    created_at = now;
    updated_at = now;
  }

  unfoldable pub assign_route : Text → ℕ → Db → Db
  assign_route prefix id db = record db {
    route_allocations =
        update (λ a. text_eq a.prefix prefix) (λ a. record a { registration_id = some id })
          db.route_allocations;
  }

  unfoldable pub create_registration : Db → Result Error (Db × (Registration × Bool))
  unfolding new_row assign_route insert_registration
  create_registration db = do
    (db1, prefix) ← allocate_prefix platform db now
    let id = next_id db1.registrations
    db2 ← insert_registration db1 (new_row id prefix)
    let db3 = assign_route (platform.prefix_text prefix) id db2
    row ← or_fail (find_id db3 id) not_found
    created ← scan_registration platform row
    ok (db3, (created, true))

  -- The registration of the request's identity, whatever its state, or a new one.
  unfoldable pub find_or_create :
      Db → Option RegistrationRow → Result Error (Db × (Registration × Bool))
  unfolding create_registration
  find_or_create db none = create_registration db
  find_or_create db (some row) = scan_registration platform row >>= λ found. ok (db, (found, false))

  -- The UPDATE that activates a registration.
  unfoldable pub activated : RegistrationRow → RegistrationRow
  activated row = record row {
    environment_name = request.environment_name;
    project_alias = request.project_alias;
    environment_alias = request.environment_alias;
    state = RegistrationState.approved;
    identity_type = IdentityType.dynamic_v3;
    lease_class = approval.lease_class;
    lease_expires_at = now + approval.lease_duration;
    real_prefix = platform.prefix_text approval.real_prefix;
    updated_at = now;
  }

  unfoldable pub same_alias : ℕ → RegistrationRow → Bool
  same_alias id row =
      not (row.id == id)
      && text_eq row.project_alias request.project_alias
      && text_eq row.environment_alias request.environment_alias

  unfoldable pub activate : Db → ℕ → Result Error Db
  unfolding activated same_alias
  activate db id = do
    guard (not (exists (same_alias id) db.registrations)) unique
    ok (record db { registrations = update (λ row. row.id == id) activated db.registrations })

  new_key : ℕ → IdentityKey
  new_key id = record {
    registration_id = id;
    key_id = request.identity_key_id;
    public_key = request.identity_key;
    state = KeyState.active;
    created_at = now;
    rotate_after = platform.add_years 1 now;
    overlap_until = none;
  }

  unfoldable pub is_key_of : ℕ → IdentityKey → Bool
  is_key_of id k = k.registration_id == id && text_eq k.key_id request.identity_key_id

  -- `ON CONFLICT(registration_id, key_id) DO UPDATE SET state = 'active'`.
  unfoldable pub activate_key : Db → ℕ → Db
  unfolding new_key is_key_of
  activate_key db id =
      if exists (is_key_of id) db.identity_keys
      then record db {
        identity_keys =
            update (is_key_of id) (λ k. record k { state = KeyState.active }) db.identity_keys;
      }
      else record db { identity_keys = db.identity_keys ++ new_key id ∷ [] }

  supersede_certificates : ℕ → Db → Db
  supersede_certificates id db = record db {
    certificates =
        update (λ c. c.registration_id == id && is_active_certificate c.state)
          (λ c. record c { state = CertificateState.superseded }) db.certificates;
  }

  insert_certificate : ℕ → Db → Db
  insert_certificate id db =
      if exists (λ c. text_eq c.id approval.certificate_id) db.certificates then db else record db {
        certificates =
            db.certificates
            ++ record {
              id = approval.certificate_id;
              registration_id = id;
              identity_key_id = request.identity_key_id;
              certificate_pem = approval.certificate_pem;
              state = CertificateState.active;
              not_after = approval.certificate_end;
              created_at = now;
            }
              ∷ [];
      }

  -- Only an approval that carries a certificate touches the certificates.
  unfoldable pub store_certificate : Db → ℕ → Db
  unfolding supersede_certificates insert_certificate
  store_certificate db id = elim approval.certificate_pem [
    | [] ↦ db
    | b ∷ pem ↦ insert_certificate id (supersede_certificates id db)
  ]

  -- The lease, the request's new state, the route generation and the audit event.
  unfoldable pub finish : Db → ℕ → Db
  finish db id =
      let approved_db = record db {
        leases =
            db.leases
            ++ record {
              registration_id = id;
              lease_class = approval.lease_class;
              starts_at = now;
              expires_at = now + approval.lease_duration;
              renewed_at = now;
              source = codes "approval";
            }
              ∷ [];
        pending_requests =
            update (λ r. text_eq r.id request.id) (λ r. record r { state = RequestState.approved })
              db.pending_requests;
      } in
      let routed = create_route_generation approved_db now in
      record routed {
        audit_events =
            routed.audit_events
            ++ record {
              event_type = codes "registration.approved";
              request_id = some request.id;
              registration_id = some id;
              occurred_at = now;
              data_json = approval.audit_json;
            }
              ∷ [];
      }

  -- The transaction for a request that is open.
  unfoldable pub approve_open : Db → Result Error (Db × Bool)
  unfolding find_or_create activate activate_key store_certificate finish
  approve_open db = do
    guard (not (text_eq approval.jti []) && ltb now approval.jti_expires_at) invalid
    db1 ←
        insert_replay db approval.provider_id (jti_hash platform approval.provider_id approval.jti)
          approval.jti_expires_at
    (db2, (found, created)) ←
        find_or_create db1 (find_identity db1 request.project_id request.environment_id)
    db3 ← activate db2 found.id
    let db4 = store_certificate (activate_key db3 found.id) found.id
    ok (finish db4 found.id, created)

-- What follows the commit: the registration is read again outside the transaction.
unfoldable pub after_commit :
    Platform → Text → Text → Db × Result Error Bool → Db × Result Error (Registration × Bool)
after_commit platform project environment (db, err e) = (db, err e)
after_commit platform project environment (db, ok created) =
    (db, registration platform db project environment >>= λ r. ok (r, created))

unfoldable pub approve_request :
    Platform → Db → Time → Approval → PendingRequest → Db × Result Error (Registration × Bool)
unfolding after_commit approve_open
approve_request platform db now approval request =
    if request_is_approved request.state
    then (
      db,
      registration platform db request.project_id request.environment_id >>= λ r. ok (r, false),
    )
    else if is_pending request.state && ltb now request.expires_at
    then after_commit platform request.project_id request.environment_id
        (transaction db (approve_open platform now approval request db))
    else (db, err request_expired)

-- `Approve`: the registration, and whether this approval created it.
unfoldable pub approve : Platform → Db → Time → Approval → Db × Result Error (Registration × Bool)
unfolding approve_request
approve platform db now approval = elim (pending_request db approval.request_id) [
  | err e ↦ (db, err e)
  | ok request ↦ approve_request platform db now approval request
]
