-- ===== src/Registry.antt =====
-- internal/registry/registry.go: the tables of the SQLite registry and the Go values read from them.
-- Each SQL statement of the source is written as a function on the tables it names; the constraints
-- of the schema are written where a statement can violate them. The engine's own failures (disk, lock)
-- are not modelled: a failed statement ends a transaction as every other early return does, by a
-- rollback. Surrogate keys that no statement reads (those of identity_keys, leases, audit_events,
-- dns_aliases) are left out. A time is its count of nanoseconds, and 0 is the zero Time.
pub mod Queries
pub mod Requests
pub mod Routes
pub mod Approve
pub mod Leases
pub mod Static
pub mod Examples
use tailscale_railway_quic_b.Common.{
  ℕ, ◌+◌, ◌-◌, ◌/◌, ◌%◌, ◌≡◌, Bool, true, false, ◌||◌, Bytes, Text, List, [], ◌∷◌, ◌++◌, Option,
  none, some, Result, ok, err, ltb, if◌then◌else◌, codes,
}
use tailscale_railway_quic_b.Net.{Prefix}

abbrev pub Time : Type 0
Time = ℕ

-- What the registry uses of the standard library without looking inside: crypto/sha256, the calendar
-- of time.AddDate (whole years), and the text form of a netip.Prefix.
pub record Platform : Type 0 where
  pub sha256 : Bytes → Bytes
  pub add_years : ℕ → Time → Time
  pub prefix_text : Prefix → Text
  pub parse_prefix : Text → Option Prefix

pub data Error : Type 0 where
  identity_conflict pool_exhausted request_expired replay not_found rate_limited : Error
  invalid unique parse prefix_taken : Error

-- The columns named `state`, whose values are these texts.
pub data RegistrationState : Type 0 where
  approved ready revoked lease_expired : RegistrationState

pub data IdentityType : Type 0 where
  static_v2 dynamic_v3 : IdentityType

pub data RequestState : Type 0 where
  pending approved expired : RequestState

pub data KeyState : Type 0 where
  active overlap retired : KeyState

pub data CertificateState : Type 0 where
  active superseded revoked expired : CertificateState

pub data AllocationState : Type 0 where
  free allocated quarantined : AllocationState

pub data GenerationState : Type 0 where
  pending superseded applied : GenerationState

pub record RegistrationRow : Type 0 where
  pub id : ℕ
  pub project_id : Text
  pub environment_id : Text
  pub environment_name : Text
  pub project_alias : Text
  pub environment_alias : Text
  pub state : RegistrationState
  pub identity_type : IdentityType
  pub lease_class : Text
  pub lease_expires_at : Time
  pub virtual_prefix : Text
  pub real_prefix : Text
  pub created_at : Time
  pub updated_at : Time

pub record PendingRequest : Type 0 where
  pub id : Text
  pub kind : Text
  pub project_id : Text
  pub environment_id : Text
  pub environment_name : Text
  pub project_alias : Text
  pub environment_alias : Text
  pub identity_key : Bytes
  pub identity_key_id : Text
  pub transport_key : Bytes
  pub proof : Bytes
  pub source_address : Text
  pub created_at : Time
  pub expires_at : Time
  pub state : RequestState

pub record IdentityKey : Type 0 where
  pub registration_id : ℕ
  pub key_id : Text
  pub public_key : Bytes
  pub state : KeyState
  pub created_at : Time
  pub rotate_after : Time
  pub overlap_until : Option Time

pub record Certificate : Type 0 where
  pub id : Text
  pub registration_id : ℕ
  pub identity_key_id : Text
  pub certificate_pem : Bytes
  pub state : CertificateState
  pub not_after : Time
  pub created_at : Time

pub record Lease : Type 0 where
  pub registration_id : ℕ
  pub lease_class : Text
  pub starts_at : Time
  pub expires_at : Time
  pub renewed_at : Time
  pub source : Text

pub record Allocation : Type 0 where
  pub prefix : Text
  pub state : AllocationState
  pub registration_id : Option ℕ
  pub quarantine_until : Option Time

pub record Generation : Type 0 where
  pub id : ℕ
  pub desired_routes : Text
  pub state : GenerationState
  pub created_at : Time
  pub applied_at : Option Time
  pub last_error : Text

pub record Replay : Type 0 where
  pub provider_id : Text
  pub jti_hash : Bytes
  pub expires_at : Time

pub record AuditEvent : Type 0 where
  pub event_type : Text
  pub request_id : Option Text
  pub registration_id : Option ℕ
  pub occurred_at : Time
  pub data_json : Text

pub record Db : Type 0 where
  pub registrations : List RegistrationRow
  pub pending_requests : List PendingRequest
  pub identity_keys : List IdentityKey
  pub certificates : List Certificate
  pub leases : List Lease
  pub route_allocations : List Allocation
  pub route_generations : List Generation
  pub oidc_replays : List Replay
  pub audit_events : List AuditEvent

-- The Go struct `Registration`: a row with its prefixes parsed.
pub record Registration : Type 0 where
  pub row : RegistrationRow
  pub open row use {
    id, project_id, environment_id, environment_name, project_alias, environment_alias, state,
    identity_type, lease_class, lease_expires_at, created_at, updated_at,
  }
  pub virtual_prefix : Prefix
  pub real_prefix : Prefix

-- `state IN ('approved', 'ready')`.
unfoldable pub is_live : RegistrationState → Bool
is_live approved = true
is_live ready = true
is_live revoked = false
is_live lease_expired = false

pub is_static : IdentityType → Bool
is_static static_v2 = true
is_static dynamic_v3 = false

unfoldable pub is_pending : RequestState → Bool
is_pending pending = true
is_pending approved = false
is_pending expired = false

unfoldable pub request_is_approved : RequestState → Bool
request_is_approved approved = true
request_is_approved pending = false
request_is_approved expired = false

pub is_active_key : KeyState → Bool
is_active_key active = true
is_active_key overlap = false
is_active_key retired = false

pub is_overlap : KeyState → Bool
is_overlap active = false
is_overlap overlap = true
is_overlap retired = false

unfoldable pub is_active_certificate : CertificateState → Bool
is_active_certificate active = true
is_active_certificate superseded = false
is_active_certificate revoked = false
is_active_certificate expired = false

unfoldable pub is_free : AllocationState → Bool
is_free free = true
is_free allocated = false
is_free quarantined = false

pub is_allocated : AllocationState → Bool
is_allocated free = false
is_allocated allocated = true
is_allocated quarantined = false

unfoldable pub is_quarantined : AllocationState → Bool
is_quarantined free = false
is_quarantined allocated = false
is_quarantined quarantined = true

unfoldable pub generation_is_pending : GenerationState → Bool
generation_is_pending pending = true
generation_is_pending superseded = false
generation_is_pending applied = false

-- A transaction commits on success and rolls back on every error.
abbrev pub transaction {ℓ} : {A : Type ℓ} → Db → Result Error (Db × A) → Db × Result Error A
transaction db (ok (db', a)) = (db', ok a)
transaction db (err e) = (db, err e)

-- hex.EncodeToString.
hex_digit : ℕ → ℕ
hex_digit n = if ltb n 10 then b'0' + n else b'a' + (n - 10)

hex : Bytes → Text
unfolding hex_digit
hex [] = []
hex (b ∷ bytes) = hex_digit (b / 16 % 16) ∷ hex_digit (b % 16) ∷ hex bytes

-- The lower-case hexadecimal SHA-256 of a key.
pub fingerprint : Platform → Bytes → Text
unfolding hex
fingerprint platform key = hex (platform.sha256 key)
