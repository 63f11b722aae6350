-- ===== src/Registry/Leases/Ended.antt =====
-- What a revocation and an expiry leave of a registration.
use tailscale_railway_quic_b.Common.{
  ℕ, ◌+◌, ◌≡◌, refl, ap, Bool, false, ◌&&◌, ◌||◌, not, Text, List, none, some, Result, ok, err,
  ◌==◌, least, update, All, All-map, All-find, update_clears, update_sets, update-All,
  All-select_none, arith, subst, Result-cases, inl, inr, [], ◌∷◌, true, Bool-cases,
}
use tailscale_railway_quic_b.Registry.{
  Time, Platform, Error, not_found, RegistrationState, KeyState, CertificateState, AllocationState,
  RegistrationRow, Registration, IdentityKey, Certificate, Allocation, Db, is_live, is_active_key,
  is_overlap, is_active_certificate, is_quarantined,
}
use tailscale_railway_quic_b.Registry.Queries.{
  registration, credential, active_identity_key, usable_key,
}
use tailscale_railway_quic_b.Registry.Leases.{revoke_id, revoke, expire_id, clean_up}
use tailscale_railway_quic_b.Registry.Routes.{create_route_generation, release_quarantined}

abbrev pub belongs : ℕ → Allocation → Bool
belongs id a = elim a.registration_id [ none ↦ false | some i ↦ i == id ]

-- The registration `id` has no live row, no active certificate and no key in use, and its routes
-- are in quarantine.
pub record Ended (db : Db) (id : ℕ) : Type 0 where
  pub no_row :
      All (λ (row : RegistrationRow). (row.id == id && is_live row.state) ≡ false) db.registrations
  pub no_certificate :
      All
        (λ (c : Certificate). (c.registration_id == id && is_active_certificate c.state) ≡ false)
        db.certificates
  pub no_key :
      All
        (λ (k : IdentityKey).
          (k.registration_id == id && (is_active_key k.state || is_overlap k.state)) ≡ false)
        db.identity_keys
  pub no_route :
      All
        (λ (a : Allocation). (belongs id a && not (is_quarantined a.state)) ≡ false)
        db.route_allocations

dead_row :
    (state : RegistrationState) (id now : ℕ) (rows : List RegistrationRow)
    → is_live state ≡ false
    → All
        (λ row. (row.id == id && is_live row.state) ≡ false)
        (update (λ row. row.id == id) (λ row. record row { state = state; updated_at = now }) rows)
dead_row state id now rows dead =
    update_sets (λ row. (row.id == id && is_live row.state) ≡ false) _ _ rows (λ x e. ground arith)
      (λ x e. ground arith)

no_active_certificate :
    (state : CertificateState) (id : ℕ) (cs : List Certificate)
    → is_active_certificate state ≡ false
    → All
        (λ c. (c.registration_id == id && is_active_certificate c.state) ≡ false)
        (update
          (λ c. c.registration_id == id && is_active_certificate c.state)
          (λ c. record c { state = state })
          cs)
no_active_certificate state id cs dead = update_clears _ _ cs (λ c e. ground arith)

no_key_in_use :
    (id : ℕ) (ks : List IdentityKey)
    → All
        (λ k. (k.registration_id == id && (is_active_key k.state || is_overlap k.state)) ≡ false)
        (update
          (λ k. k.registration_id == id && (is_active_key k.state || is_overlap k.state))
          (λ k. record k { state = KeyState.retired })
          ks)
unfolding is_active_key is_overlap
no_key_in_use id ks = update_clears _ _ ks (λ k e. ground arith)

no_other_route :
    (id until : ℕ) (xs : List Allocation)
    → All
        (λ a. (belongs id a && not (is_quarantined a.state)) ≡ false)
        (update
          (belongs id)
          (λ a. record a { state = AllocationState.quarantined; quarantine_until = some until })
          xs)
unfolding is_quarantined
no_other_route id until xs = update_sets _ _ _ xs (λ a e. ground arith) (λ a e. ground arith)

revoke_id-Ended :
    (db : Db) (now id quarantine : ℕ) (audit_json : Text)
    → Ended (revoke_id db now id quarantine audit_json) id
unfolding revoke_id create_route_generation is_live is_active_certificate
revoke_id-Ended db now id quarantine audit_json = record {
  no_row = dead_row RegistrationState.revoked id now db.registrations refl;
  no_certificate = no_active_certificate CertificateState.revoked id db.certificates refl;
  no_key = no_key_in_use id db.identity_keys;
  no_route = no_other_route id (now + quarantine) db.route_allocations;
}

pub expire_id-Ended : (db : Db) (now id quarantine : ℕ) → Ended (expire_id now quarantine id db) id
unfolding expire_id is_live is_active_certificate
expire_id-Ended db now id quarantine = record {
  no_row = dead_row RegistrationState.lease_expired id now db.registrations refl;
  no_certificate = no_active_certificate CertificateState.expired id db.certificates refl;
  no_key = no_key_in_use id db.identity_keys;
  no_route = no_other_route id (now + quarantine) db.route_allocations;
}

-- The end of one registration keeps the end of another.
pub expire_id-Ended_other :
    (db : Db) (now id quarantine other : ℕ)
    → Ended db other
    → Ended (expire_id now quarantine id db) other
unfolding expire_id is_live is_active_certificate is_active_key is_overlap is_quarantined
expire_id-Ended_other db now id quarantine other h = record {
  no_row = update-All _ _ _ db.registrations (λ x p e. ground arith) h.no_row;
  no_certificate = update-All _ _ _ db.certificates (λ x p e. ground arith) h.no_certificate;
  no_key = update-All _ _ _ db.identity_keys (λ x p e. ground arith) h.no_key;
  no_route = update-All _ _ _ db.route_allocations (λ x p e. ground arith) h.no_route;
}

pub clean_up-Ended : (db : Db) (now id : ℕ) → Ended db id → Ended (clean_up now db) id
unfolding clean_up release_quarantined is_active_key is_overlap
clean_up-Ended db now id h = record {
  no_row = h.no_row;
  no_certificate = h.no_certificate;
  no_key = update-All _ _ _ db.identity_keys (λ x p e. ground arith) h.no_key;
  no_route = update-All _ _ _ db.route_allocations (λ x p e. refl) h.no_route;
}

unusable :
    (now id : ℕ) (key_id : Text) (k : IdentityKey)
    → (k.registration_id == id && (is_active_key k.state || is_overlap k.state)) ≡ false
    → usable_key now id key_id k ≡ false
unfolding usable_key
unusable now id key_id k e = ground arith

-- A registration that ended has no credential, and none of its keys is accepted, at any time.
module _ {db : Db} {id : ℕ} (ended : Ended db id) where
  pub credential-Ended : credential db id ≡ err not_found
  unfolding credential least
  credential-Ended = rw (All-select_none _ db.certificates ended.no_certificate)

  pub active_identity_key-Ended :
      (now : Time) (key_id : Text) → active_identity_key db now id key_id ≡ err not_found
  unfolding active_identity_key
  active_identity_key-Ended now key_id = rw (
      All-find (usable_key now id key_id) db.identity_keys
        (All-map _ _ (unusable now id key_id) db.identity_keys ended.no_key))

-- A quarantine until `until` of the routes of the registration `id`: row by row, with the prefix and
-- the holder of each kept, and every other row as it was.
pub data Quarantined (id until : ℕ) : List Allocation → List Allocation → Type 0 where
  no_rows : Quarantined id until [] []
  held :
      (a b : Allocation) {xs ys : List Allocation}
      → belongs id a ≡ true
      → is_quarantined b.state ≡ true
      → b.quarantine_until ≡ some until
      → b.prefix ≡ a.prefix
      → b.registration_id ≡ a.registration_id
      → Quarantined id until xs ys
      → Quarantined id until (a ∷ xs) (b ∷ ys)
  kept :
      (a : Allocation) {xs ys : List Allocation}
      → belongs id a ≡ false
      → Quarantined id until xs ys
      → Quarantined id until (a ∷ xs) (a ∷ ys)

update-Quarantined :
    (id until : ℕ) (xs : List Allocation)
    → Quarantined id until xs (
        update
          (belongs id)
          (λ a. record a { state = AllocationState.quarantined; quarantine_until = some until })
          xs)
unfolding update is_quarantined
update-Quarantined id until [] = no_rows
update-Quarantined id until (a ∷ xs) = elim (Bool-cases (belongs id a)) [
  | inl e ↦ rw e (held a _ e refl refl refl refl (update-Quarantined id until xs))
  | inr e ↦ rw e (kept a e (update-Quarantined id until xs))
]

revoke_id-Quarantined :
    (db : Db) (now id quarantine : ℕ) (audit_json : Text)
    → Quarantined id
        (now + quarantine)
        db.route_allocations
        (revoke_id db now id quarantine audit_json).route_allocations
unfolding revoke_id create_route_generation
revoke_id-Quarantined db now id quarantine audit_json =
    update-Quarantined id (now + quarantine) db.route_allocations

-- The answer of the registry about a registration that ended.
abbrev pub Refused : Db → ℕ → Type 0
Refused db id =
    (credential db id ≡ err not_found)
    × ((t : Time) (key_id : Text) → active_identity_key db t id key_id ≡ err not_found)

pub Ended-Refused : {db : Db} {id : ℕ} → Ended db id → Refused db id
Ended-Refused e = (credential-Ended e, active_identity_key-Ended e)

-- A successful `Revoke` ends the registration of the identity: its row is not live, it has no
-- credential, and no key of it is accepted at any time, in the registry as the revocation leaves it.
-- Its routes stay its own and are in quarantine for the time that is asked for, and all the others
-- are as they were.
pub revoke-Ended :
    (platform : Platform) (db db' : Db) (now : Time) (project environment : Text) (quarantine : ℕ)
    (audit_json : Text)
    → revoke platform db now project environment quarantine audit_json ≡ (db', ok tt)
    → (r : Registration) × (registration platform db project environment ≡ ok r)
      × Ended db' r.id
      × Quarantined r.id (now + quarantine) db.route_allocations db'.route_allocations
      × Refused db' r.id
unfolding revoke
revoke-Ended platform db db' now project environment quarantine audit_json h =
    elim (Result-cases (registration platform db project environment)) [
      | inr (e, q) ↦ absurd (cc (ap snd' (rw (q, revoke) at h)))
      | inl (r, q) ↦
          let ended = revoke_id-Ended db now r.id quarantine audit_json in
          let e = subst (λ x. Ended x r.id) (ap fst' (rw (q, revoke) at h)) ended in
          let routes =
            subst
              (λ (x : Db).
                Quarantined r.id (now + quarantine) db.route_allocations x.route_allocations)
              (ap fst' (rw (q, revoke) at h))
              (revoke_id-Quarantined db now r.id quarantine audit_json) in
          (r, q, e, routes, Ended-Refused e)
    ]
  where
    fst' : Db × Result Error (Unit {0}) → Db
    fst' p = p.0

    snd' : Db × Result Error (Unit {0}) → Result Error (Unit {0})
    snd' p = p.1
