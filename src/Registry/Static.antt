-- ===== src/Registry/Static.antt =====
-- internal/registry/registry.go: `ImportStatic`.
use tailscale_railway_quic_b.Common.{
  ℕ, Bool, true, not, ◌&&◌, ◌||◌, Text, text_eq, List, [], ◌∷◌, ◌++◌, Option, none, some, Result,
  ok, ◌>>=◌, ◌>>◌, guard, or_fail, ◌==◌, if◌then◌else◌, find, exists, update, codes,
}
use tailscale_railway_quic_b.Net.{Prefix, prefix_is_valid}
use tailscale_railway_quic_b.Registry.{
  Time, Platform, Error, invalid, not_found, unique, prefix_taken, RegistrationState, IdentityType,
  AllocationState, RegistrationRow, Allocation, Db, is_static, transaction,
}
use tailscale_railway_quic_b.Registry.Queries.{find_identity}
use tailscale_railway_quic_b.Registry.Approve.{next_id, insert_registration}

pub record StaticRegistration : Type 0 where
  pub project_id : Text
  pub environment_id : Text
  pub environment_name : Text
  pub connector_id : Text
  pub virtual_prefix : Prefix
  pub real_prefix : Prefix

is_complete : StaticRegistration → Bool
is_complete r =
    not (text_eq r.project_id [])
    && not (text_eq r.environment_id [])
    && not (text_eq r.connector_id [])
    && prefix_is_valid r.virtual_prefix
    && prefix_is_valid r.real_prefix

module _ (platform : Platform) (now : Time) (r : StaticRegistration) where
  new_row : ℕ → RegistrationRow
  new_row id = record {
    id = id;
    project_id = r.project_id;
    environment_id = r.environment_id;
    environment_name = r.environment_name;
    project_alias = r.connector_id;
    environment_alias = codes "legacy";
    state = RegistrationState.ready;
    identity_type = IdentityType.static_v2;
    lease_class = codes "persistent";
    lease_expires_at = platform.add_years 10 now;
    virtual_prefix = platform.prefix_text r.virtual_prefix;
    real_prefix = platform.prefix_text r.real_prefix;
    created_at = now;
    updated_at = now;
  }

  -- `ON CONFLICT(project_id, environment_id) DO UPDATE … WHERE identity_type = 'static-v2'`.
  updated_row : RegistrationRow → RegistrationRow
  updated_row row = record row {
    environment_name = r.environment_name;
    project_alias = r.connector_id;
    virtual_prefix = platform.prefix_text r.virtual_prefix;
    real_prefix = platform.prefix_text r.real_prefix;
    updated_at = now;
  }

  -- Another row with the prefix or the aliases that the update gives to `row`.
  clashes_with : RegistrationRow → RegistrationRow → Bool
  clashes_with row other =
      not (other.id == row.id)
      && (text_eq other.virtual_prefix (platform.prefix_text r.virtual_prefix)
          || text_eq other.project_alias r.connector_id
            && text_eq other.environment_alias row.environment_alias)

  unfoldable pub upsert : Db → Option RegistrationRow → Result Error Db
  unfolding new_row updated_row clashes_with
  upsert db none = insert_registration db (new_row (next_id db.registrations))
  upsert db (some row) =
      if is_static row.identity_type
      then guard (not (exists (clashes_with row) db.registrations)) unique
        >> ok (record db {
          registrations = update (λ other. other.id == row.id) updated_row db.registrations;
        })
      else ok db

  reserve_route : Db → ℕ → Option Allocation → Result Error Db
  reserve_route db id none = ok (record db {
    route_allocations =
        db.route_allocations
        ++ record {
          prefix = platform.prefix_text r.virtual_prefix;
          state = AllocationState.allocated;
          registration_id = some id;
          quarantine_until = none;
        }
          ∷ [];
  })
  reserve_route db id (some a) = do
    guard (elim a.registration_id [ none ↦ true | some i ↦ i == id ]) prefix_taken
    ok (record db {
      route_allocations =
          update (λ b. text_eq b.prefix (platform.prefix_text r.virtual_prefix))
            (λ b. record b {
              state = AllocationState.allocated;
              registration_id = some id;
              quarantine_until = none;
            })
            db.route_allocations;
    })

  -- One round of the loop.
  unfoldable pub import_one : Db → Result Error Db
  unfolding is_complete upsert reserve_route
  import_one db = do
    guard (is_complete r) invalid
    db1 ← upsert db (find_identity db r.project_id r.environment_id)
    row ← or_fail (find_identity db1 r.project_id r.environment_id) not_found
    reserve_route db1 row.id
        (find (λ a. text_eq a.prefix (platform.prefix_text r.virtual_prefix)) db1.route_allocations)

unfoldable pub import_all : Platform → Time → List StaticRegistration → Db → Result Error Db
unfolding import_one
import_all platform now [] db = ok db
import_all platform now (r ∷ rs) db = do
  db' ← import_one platform now r db
  import_all platform now rs db'

-- `ImportStatic`: all of the registrations, or none of them.
unfoldable pub import_static :
    Platform → Db → Time → List StaticRegistration → Db × Result Error (Unit {0})
unfolding import_all
import_static platform db now rs =
    transaction db (import_all platform now rs db >>= λ db'. ok (db', tt))
