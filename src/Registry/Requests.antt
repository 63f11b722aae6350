-- ===== src/Registry/Requests.antt =====
-- internal/registry/registry.go: `CreatePending`.
use tailscale_railway_quic_b.Common.{
  ℕ, ◌+◌, ◌*◌, Bool, true, false, not, ◌&&◌, ◌||◌, Text, text_eq, [], ◌∷◌, ◌++◌, Option, none, some,
  Result, ok, err, ◌>>◌, guard, ltb, ◌==◌, if◌then◌else◌, select, find, exists, count, least,
  update, length, codes,
}
use tailscale_railway_quic_b.Registry.{
  Time, Platform, Error, invalid, identity_conflict, rate_limited, unique, RequestState,
  RegistrationRow, PendingRequest, IdentityKey, Db, is_live, is_static, is_pending, is_active_key,
  is_overlap, fingerprint, transaction,
}
use tailscale_railway_quic_b.Registry.Queries.{same_identity, open_request}

-- 30 * time.Minute, in nanoseconds.
abbrev pub thirty_minutes : ℕ
thirty_minutes = 30 * 60 * 1000000000

is_complete : PendingRequest → Bool
is_complete r =
    not (text_eq r.id [])
    && not (text_eq r.project_id [])
    && not (text_eq r.environment_id [])
    && length r.identity_key == 32
    && length r.proof == 32

-- The fields that `CreatePending` fills in before its transaction.
unfoldable pub prepare : Platform → Time → PendingRequest → PendingRequest
prepare platform now r = record r {
  identity_key_id = fingerprint platform r.identity_key;
  created_at = if r.created_at == 0 then now else r.created_at;
  expires_at = if r.expires_at == 0 then now + thirty_minutes else r.expires_at;
  state = RequestState.pending;
}

-- `state IN ('active', 'overlap')` for the key of a registration.
unfoldable pub holds_key : ℕ → Text → IdentityKey → Bool
holds_key registration_id key_id k =
    k.registration_id == registration_id
    && text_eq k.key_id key_id
    && (is_active_key k.state || is_overlap k.state)

unfoldable pub live_identity : Text → Text → RegistrationRow → Bool
live_identity project environment row = same_identity project environment row && is_live row.state

-- A live registration admits its own keys, a rotation, and any key if it is static.
check_registration : Db → PendingRequest → Option RegistrationRow → Result Error (Unit {0})
check_registration db r none = ok tt
check_registration db r (some row) =
    guard
      (exists (holds_key row.id r.identity_key_id) db.identity_keys
        || text_eq r.kind (codes "rotate")
        || is_static row.identity_type)
      identity_conflict

unfoldable pub project_load : Time → Text → PendingRequest → Bool
project_load now project r =
    text_eq r.project_id project && is_pending r.state && ltb now r.expires_at

unfoldable pub source_load : Time → Text → PendingRequest → Bool
source_load now source r =
    text_eq r.source_address source && is_pending r.state && ltb now r.expires_at

-- Both limits, then the INSERT; `id` is the primary key.
insert_pending : Db → Time → PendingRequest → Result Error (Db × (PendingRequest × Bool))
unfolding project_load source_load
insert_pending db now r = do
  guard
      (ltb (count (project_load now r.project_id) db.pending_requests) 10
        && ltb (count (source_load now r.source_address) db.pending_requests) 30)
      rate_limited
  guard (not (exists (λ q. text_eq q.id r.id) db.pending_requests)) unique
  ok (record db { pending_requests = db.pending_requests ++ r ∷ [] }, (r, true))

unfoldable pub expire_request : Text → Db → Db
expire_request id db = record db {
  pending_requests =
      update (λ q. text_eq q.id id) (λ q. record q { state = RequestState.expired })
        db.pending_requests;
}

-- The newest open request of the identity is handed back if its key is the same and it has not run
-- out; if it has, a new one takes its place.
reuse :
    Db → Time → PendingRequest → Option PendingRequest → Result Error (Db × (PendingRequest × Bool))
unfolding insert_pending expire_request
reuse db now r none = insert_pending db now r
reuse db now r (some existing) =
    if not (text_eq existing.identity_key_id r.identity_key_id)
    then err identity_conflict
    else if ltb now existing.expires_at
    then ok (db, (existing, false))
    else insert_pending (expire_request existing.id db) now r

unfoldable pub newest_open : Db → Text → Text → Option PendingRequest
newest_open db project environment =
    least (λ a b. ltb b.created_at a.created_at)
      (select (open_request project environment) db.pending_requests)

create_tx : Db → Time → PendingRequest → Result Error (Db × (PendingRequest × Bool))
unfolding check_registration reuse newest_open live_identity
create_tx db now r = do
  check_registration db r (find (live_identity r.project_id r.environment_id) db.registrations)
  reuse db now r (newest_open db r.project_id r.environment_id)

-- `CreatePending`: the request that stands for the identity, and whether it is new.
unfoldable pub create_pending :
    Platform → Db → Time → PendingRequest → Db × Result Error (PendingRequest × Bool)
unfolding is_complete create_tx
create_pending platform db now r =
    if is_complete r
    then transaction db (create_tx db now (prepare platform now r))
    else (db, err invalid)
