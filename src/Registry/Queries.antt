-- ===== src/Registry/Queries.antt =====
-- internal/registry/registry.go: the operations that only read.
pub mod Reads
use tailscale_railway_quic_b.Common.{
  ℕ, Bool, true, false, ◌&&◌, ◌||◌, Bytes, Text, text_eq, text_lt, List, [], ◌∷◌, ◌++◌, Option,
  none, some, Result, ok, ◌>>=◌, or_fail, ltb, leb, ◌==◌, select, find, exists, count, least,
  order_by, length,
}
use tailscale_railway_quic_b.Net.{Prefix}
use tailscale_railway_quic_b.Registry.{
  Time, Platform, Error, not_found, parse, RegistrationRow, Registration, PendingRequest,
  IdentityKey, Generation, Db, is_live, is_pending, is_active_key, is_overlap,
  is_active_certificate, is_free, is_allocated, is_quarantined, generation_is_pending,
}

unfoldable pub same_identity : Text → Text → RegistrationRow → Bool
same_identity project environment row =
    text_eq row.project_id project && text_eq row.environment_id environment

unfoldable pub find_identity : Db → Text → Text → Option RegistrationRow
unfolding same_identity
find_identity db project environment = find (same_identity project environment) db.registrations

unfoldable pub find_id : Db → ℕ → Option RegistrationRow
find_id db id = find (λ row. row.id == id) db.registrations

-- `state IN ('approved', 'ready') AND lease_expires_at > ?`.
unfoldable pub is_active_at : Time → RegistrationRow → Bool
is_active_at now row = is_live row.state && ltb now row.lease_expires_at

-- The request with an id: `pendingTx` and `Pending`.
unfoldable pub pending_request : Db → Text → Result Error PendingRequest
pending_request db id = or_fail (find (λ r. text_eq r.id id) db.pending_requests) not_found

unfoldable pub open_request : Text → Text → PendingRequest → Bool
open_request project environment r =
    text_eq r.project_id project && text_eq r.environment_id environment && is_pending r.state

-- `PendingForIdentity`.
unfoldable pub pending_for_identity : Db → Text → Text → List PendingRequest
unfolding open_request
pending_for_identity db project environment =
    order_by (λ a b. ltb a.created_at b.created_at)
      (select (open_request project environment) db.pending_requests)

-- `ProjectKnown`.
unfoldable pub project_known : Db → Text → Bool
project_known db project = exists (λ row. text_eq row.project_id project) db.registrations

-- `Credential`: the certificate, its end and its key of the newest active row.
unfoldable pub credential : Db → ℕ → Result Error (Bytes × Time × Text)
credential db registration_id =
    or_fail
      (least (λ a b. leb b.created_at a.created_at)
        (select (λ c. c.registration_id == registration_id && is_active_certificate c.state)
          db.certificates))
      not_found
    >>= λ c. ok (c.certificate_pem, c.not_after, c.identity_key_id)

-- `state = 'active' OR (state = 'overlap' AND overlap_until > ?)`.
unfoldable pub key_is_usable : Time → IdentityKey → Bool
key_is_usable now k =
    is_active_key k.state
    || is_overlap k.state && elim k.overlap_until [ none ↦ false | some t ↦ ltb now t ]

unfoldable pub usable_key : Time → ℕ → Text → IdentityKey → Bool
unfolding key_is_usable
usable_key now registration_id key_id k =
    k.registration_id == registration_id && text_eq k.key_id key_id && key_is_usable now k

-- `ActiveIdentityKey`.
unfoldable pub active_identity_key : Db → Time → ℕ → Text → Result Error Bytes
unfolding usable_key
active_identity_key db now registration_id key_id =
    or_fail (find (usable_key now registration_id key_id) db.identity_keys) not_found >>= λ k.
    ok k.public_key

-- The counts of `Stats`; `soon` is seven days after `now`.
pub record Stats : Type 0 where
  pub registrations : ℕ
  pub active : ℕ
  pub allocated : ℕ
  pub available : ℕ
  pub quarantined : ℕ
  pub pending : ℕ
  pub routes_pending : ℕ
  pub certificates_soon : ℕ
  pub leases_soon : ℕ

unfoldable pub stats : Db → Time → Time → Stats
unfolding is_active_at
stats db now soon = record {
  registrations = length db.registrations;
  active = count (is_active_at now) db.registrations;
  allocated = count (λ a. is_allocated a.state) db.route_allocations;
  available = count (λ a. is_free a.state) db.route_allocations;
  quarantined = count (λ a. is_quarantined a.state) db.route_allocations;
  pending = count (λ r. is_pending r.state && ltb now r.expires_at) db.pending_requests;
  routes_pending = count (λ g. generation_is_pending g.state) db.route_generations;
  certificates_soon =
      count (λ c. is_active_certificate c.state && ltb now c.not_after && leb c.not_after soon)
        db.certificates;
  leases_soon = count (λ r. is_active_at now r && leb r.lease_expires_at soon) db.registrations;
}

-- `splitRoutes`: `current` is the text since the last comma.
split_from : Text → Text → List Text
split_from current [] = current ∷ []
split_from current (c ∷ rest) = elim (c == b',') [
  | true ↦ current ∷ split_from [] rest
  | false ↦ split_from (current ++ c ∷ []) rest
]

unfoldable pub split_routes : Text → List Text
unfolding split_from
split_routes [] = []
split_routes (c ∷ rest) = split_from [] (c ∷ rest)

module _ (platform : Platform) where
  open platform use {parse_prefix}

  -- `scanRegistration`.
  unfoldable pub scan_registration : RegistrationRow → Result Error Registration
  scan_registration row = do
    virtual_prefix ← or_fail (parse_prefix row.virtual_prefix) parse
    real_prefix ← or_fail (parse_prefix row.real_prefix) parse
    ok (record { row = row; virtual_prefix = virtual_prefix; real_prefix = real_prefix })

  unfoldable pub scan_all : List RegistrationRow → Result Error (List Registration)
  unfolding scan_registration
  scan_all [] = ok []
  scan_all (row ∷ rows) = do
    registration ← scan_registration row
    rest ← scan_all rows
    ok (registration ∷ rest)

  -- `Registration` and `registrationByIdentityTx`.
  unfoldable pub registration : Db → Text → Text → Result Error Registration
  registration db project environment =
      or_fail (find_identity db project environment) not_found >>= scan_registration

  -- `registrationByIDTx`.
  unfoldable pub registration_by_id : Db → ℕ → Result Error Registration
  registration_by_id db id = or_fail (find_id db id) not_found >>= scan_registration

  unfoldable pub alias_is_active : Time → Text → Text → RegistrationRow → Bool
  unfolding is_active_at
  alias_is_active now project environment row =
      text_eq row.project_alias project
      && text_eq row.environment_alias environment
      && is_active_at now row

  -- `RegistrationByAlias`.
  unfoldable pub registration_by_alias : Db → Time → Text → Text → Result Error Registration
  unfolding alias_is_active
  registration_by_alias db now project environment =
      or_fail (find (alias_is_active now project environment) db.registrations) not_found
      >>= scan_registration

  -- `Active`.
  unfoldable pub active : Db → Time → Result Error (List Registration)
  unfolding is_active_at scan_all
  active db now = scan_all (
      order_by (λ a b. text_lt a.virtual_prefix b.virtual_prefix)
        (select (is_active_at now) db.registrations))

  parse_all : List Text → Result Error (List Prefix)
  parse_all [] = ok []
  parse_all (text ∷ texts) = do
    prefix ← or_fail (parse_prefix text) parse
    rest ← parse_all texts
    ok (prefix ∷ rest)

  -- `PendingRouteGeneration`: the oldest pending row and its routes.
  unfoldable pub pending_route_generation : Db → Result Error (Generation × List Prefix)
  unfolding parse_all split_routes
  pending_route_generation db = do
    generation ←
        or_fail
          (least (λ a b. ltb a.id b.id)
            (select (λ g. generation_is_pending g.state) db.route_generations))
          not_found
    routes ← parse_all (split_routes generation.desired_routes)
    ok (generation, routes)
