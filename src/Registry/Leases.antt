-- ===== src/Registry/Leases.antt =====
-- internal/registry/registry.go: `MarkReady`, `CompleteIdentityRotation`, `Renew`, `Revoke`, `Expire`.
pub mod Ended
pub mod Expiry
pub mod Rotation
pub mod Renewal
use tailscale_railway_quic_b.Common.{
  ℕ, ◌+◌, Bool, true, false, not, ◌&&◌, ◌||◌, Bytes, Text, text_eq, List, [], ◌∷◌, ◌++◌, Option,
  none, some, Result, ok, err, ◌>>=◌, ◌>>◌, guard, or_fail, ltb, leb, ◌==◌, if◌then◌else◌, select,
  find, exists, count, update, delete, codes,
}
use tailscale_railway_quic_b.Registry.{
  Time, Platform, Error, request_expired, not_found, unique, RegistrationState, KeyState,
  CertificateState, AllocationState, RegistrationRow, Registration, IdentityKey, Certificate,
  Allocation, AuditEvent, Db, is_live, is_active_key, is_overlap, is_active_certificate,
  transaction,
}
use tailscale_railway_quic_b.Registry.Queries.{
  same_identity, find_identity, registration, is_active_at, usable_key, scan_all,
}
use tailscale_railway_quic_b.Registry.Routes.{release_quarantined, create_route_generation}

is_approved : RegistrationState → Bool
is_approved RegistrationState.approved = true
is_approved RegistrationState.ready = false
is_approved RegistrationState.revoked = false
is_approved RegistrationState.lease_expired = false

ready_target : Text → Text → RegistrationRow → Bool
unfolding is_approved
ready_target project environment row =
    same_identity project environment row && is_approved row.state

-- `MarkReady`; the rows that match are the rows affected.
unfoldable pub mark_ready : Db → Time → Text → Text → Db × Result Error (Unit {0})
unfolding ready_target
mark_ready db now project environment =
    if count (ready_target project environment) db.registrations == 0
    then (db, err not_found)
    else (
      record db {
        registrations =
            update (ready_target project environment)
              (λ row. record row { state = RegistrationState.ready; updated_at = now })
              db.registrations;
      },
      ok tt,
    )

unfoldable pub audit : Text → ℕ → Time → Text → Db → Db
audit event_type id now data_json db = record db {
  audit_events =
      db.audit_events
      ++ record {
        event_type = event_type;
        request_id = none;
        registration_id = some id;
        occurred_at = now;
        data_json = data_json;
      }
        ∷ [];
}

-- The active keys of a registration other than the given one.
unfoldable pub other_active : ℕ → Text → IdentityKey → Bool
other_active id key_id k =
    k.registration_id == id && not (text_eq k.key_id key_id) && is_active_key k.state

-- `CompleteIdentityRotation`.
unfoldable pub complete_identity_rotation : Db → Time → ℕ → Text → ℕ → Db × Result Error (Unit {0})
unfolding other_active audit
complete_identity_rotation db now id key_id duration =
    if exists (λ k. k.registration_id == id && text_eq k.key_id key_id && is_active_key k.state)
      db.identity_keys
    then (
      audit (codes "identity.rotation.completed") id now (codes "{}") (record db {
        identity_keys =
            update (other_active id key_id)
              (λ k. record k { state = KeyState.overlap; overlap_until = some (now + duration) })
              db.identity_keys;
      }),
      ok tt,
    )
    else (db, err not_found)

-- The row that `Renew` may extend: the one of the registration, live and not run out.
unfoldable pub renewable : Time → Registration → RegistrationRow → Bool
renewable now r row = row.id == r.id && is_active_at now row

-- The certificate that replaces the others of a registration; its id is the primary key.
unfoldable pub replace_certificate : Db → Certificate → Result Error Db
replace_certificate db new = do
  guard (not (exists (λ c. text_eq c.id new.id) db.certificates)) unique
  ok (record db {
    certificates =
        update (λ c. c.registration_id == new.registration_id && is_active_certificate c.state)
          (λ c. record c { state = CertificateState.superseded }) db.certificates
        ++ new ∷ [];
  })

-- Every failure to read the registration counts as an expired request.
unfoldable pub or_expired : Result Error Registration → Result Error Registration
or_expired (ok r) = ok r
or_expired (err e) = err request_expired

unfoldable pub extend_lease : Time → Registration → ℕ → Db → Db
unfolding renewable
extend_lease now r duration db = record db {
  registrations =
      update (renewable now r)
        (λ row. record row { lease_expires_at = now + duration; updated_at = now })
        db.registrations;
}

unfoldable pub record_renewal : Time → Registration → ℕ → Db → Db
unfolding audit
record_renewal now r duration db =
    audit (codes "certificate.renewed") r.id now (codes "{}") (record db {
      leases =
          db.leases
          ++ record {
            registration_id = r.id;
            lease_class = r.lease_class;
            starts_at = now;
            expires_at = now + duration;
            renewed_at = now;
            source = codes "certificate-renewal";
          }
            ∷ [];
    })

module _ (platform : Platform) (db : Db) (now : Time) (r : Registration) where
  unfoldable pub renew_tx : Text → Bytes → Text → Time → ℕ → Result Error (Db × Unit {0})
  unfolding or_expired extend_lease replace_certificate record_renewal
  renew_tx key_id pem certificate_id certificate_end duration = do
    current ← or_expired (registration platform db r.project_id r.environment_id)
    guard (renewable now r current.row) request_expired
    guard (exists (usable_key now r.id key_id) db.identity_keys) not_found
    guard (count (renewable now r) db.registrations == 1) request_expired
    db1 ← replace_certificate (extend_lease now r duration db) (record {
      id = certificate_id;
      registration_id = r.id;
      identity_key_id = key_id;
      certificate_pem = pem;
      state = CertificateState.active;
      not_after = certificate_end;
      created_at = now;
    })
    ok (record_renewal now r duration db1, tt)

  read_back : Db × Result Error (Unit {0}) → Db × Result Error Registration
  read_back (db', err e) = (db', err e)
  read_back (db', ok _) = (db', registration platform db' r.project_id r.environment_id)

  -- `Renew`; the registration is read again behind the commit.
  unfoldable pub renew : Text → Bytes → Text → Time → ℕ → Db × Result Error Registration
  unfolding renew_tx read_back
  renew key_id pem certificate_id certificate_end duration =
      read_back (transaction db (renew_tx key_id pem certificate_id certificate_end duration))

-- `UPDATE route_allocations SET state = 'quarantined', quarantine_until = ? WHERE registration_id = ?`.
unfoldable pub quarantine_routes : ℕ → Time → Db → Db
quarantine_routes id until db = record db {
  route_allocations =
      update (λ a. elim a.registration_id [ none ↦ false | some i ↦ i == id ])
        (λ a. record a { state = AllocationState.quarantined; quarantine_until = some until })
        db.route_allocations;
}

unfoldable pub end_certificates : CertificateState → ℕ → Db → Db
end_certificates state id db = record db {
  certificates =
      update (λ c. c.registration_id == id && is_active_certificate c.state)
        (λ c. record c { state = state }) db.certificates;
}

unfoldable pub retire_keys : ℕ → Db → Db
retire_keys id db = record db {
  identity_keys =
      update (λ k. k.registration_id == id && (is_active_key k.state || is_overlap k.state))
        (λ k. record k { state = KeyState.retired }) db.identity_keys;
}

unfoldable pub set_state : RegistrationState → ℕ → Time → Db → Db
set_state state id now db = record db {
  registrations =
      update (λ row. row.id == id) (λ row. record row { state = state; updated_at = now })
        db.registrations;
}

-- What `Revoke` does to the registration `id`.
unfoldable pub revoke_id : Db → Time → ℕ → ℕ → Text → Db
unfolding set_state end_certificates retire_keys quarantine_routes audit
revoke_id db now id quarantine audit_json = audit (codes "registration.revoked") id now audit_json (
    create_route_generation
      (quarantine_routes id (now + quarantine) (
        retire_keys id (
          end_certificates CertificateState.revoked id
            (set_state RegistrationState.revoked id now db))))
      now)

-- `Revoke`.
unfoldable pub revoke : Platform → Db → Time → Text → Text → ℕ → Text → Db × Result Error (Unit {0})
unfolding revoke_id
revoke platform db now project environment quarantine audit_json = transaction db (
    registration platform db project environment >>= λ r.
    ok (revoke_id db now r.id quarantine audit_json, tt))

-- `state IN ('approved', 'ready') AND lease_expires_at <= ?`.
unfoldable pub has_run_out : Time → RegistrationRow → Bool
has_run_out now row = is_live row.state && leb row.lease_expires_at now

-- One round of the loop of `Expire`.
unfoldable pub expire_id : Time → ℕ → ℕ → Db → Db
unfolding set_state end_certificates retire_keys quarantine_routes audit
expire_id now quarantine id db = audit (codes "lease.expired") id now (codes "{}") (
    retire_keys id (
      end_certificates CertificateState.expired id (
        quarantine_routes id (now + quarantine)
          (set_state RegistrationState.lease_expired id now db))))

unfoldable pub expire_all : Time → ℕ → List RegistrationRow → Db → Db
unfolding expire_id
expire_all now quarantine [] db = db
expire_all now quarantine (row ∷ rows) db =
    expire_all now quarantine rows (expire_id now quarantine row.id db)

-- The clean-up behind the loop: quarantines that are over, replay records and overlaps that ran out.
unfoldable pub clean_up : Time → Db → Db
clean_up now db =
    let released = release_quarantined db now in
    record released {
      oidc_replays = delete (λ r. leb r.expires_at now) released.oidc_replays;
      identity_keys =
          update
            (λ k. is_overlap k.state && elim k.overlap_until [ none ↦ false | some t ↦ leb t now ])
            (λ k. record k { state = KeyState.retired }) released.identity_keys;
    }

unfoldable pub regenerate : List RegistrationRow → Db → Time → Db
regenerate [] db now = db
regenerate (row ∷ rows) db now = create_route_generation db now

unfoldable pub expire_rows : Time → ℕ → List RegistrationRow → Db → Db
unfolding expire_all regenerate clean_up
expire_rows now quarantine rows db =
    clean_up now (regenerate rows (expire_all now quarantine rows db) now)

-- `Expire`: the registrations whose lease has run out are read first, and a row that does not parse
-- ends the transaction.
unfoldable pub expire : Platform → Db → Time → ℕ → Db × Result Error (List Registration)
unfolding expire_rows has_run_out
expire platform db now quarantine =
    let rows = select (has_run_out now) db.registrations in
    transaction db (scan_all platform rows >>= λ rs. ok (expire_rows now quarantine rows db, rs))
