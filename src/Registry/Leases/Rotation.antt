-- ===== src/Registry/Leases/Rotation.antt =====
-- `CompleteIdentityRotation`: which keys are accepted afterwards, and until when.
use tailscale_railway_quic_b.Common.{
  ℕ, ◌+◌, ◌≡◌, ◌≢◌, refl, false, ◌&&◌, Bytes, Text, text_eq_iff, List, [], ◌∷◌, Option, none, some,
  Result, ok, err, ltb, ◌==◌, if◌then◌else◌, find, update, All, arith,
}
use tailscale_railway_quic_b.Registry.{
  Time, Error, not_found, KeyState, IdentityKey, Db, is_active_key, is_overlap,
}
use tailscale_railway_quic_b.Registry.Queries.{active_identity_key, usable_key}
use tailscale_railway_quic_b.Registry.Leases.{other_active, complete_identity_rotation}

public_key : Option IdentityKey → Result Error Bytes
public_key none = err not_found
public_key (some k) = ok k.public_key

lookup : Time → ℕ → Text → List IdentityKey → Result Error Bytes
unfolding public_key
lookup t id key_id ks = public_key (find (usable_key t id key_id) ks)

rotated : ℕ → Text → Time → List IdentityKey → List IdentityKey
rotated id key_id deadline =
    update (other_active id key_id)
      (λ k. record k { state = KeyState.overlap; overlap_until = some deadline })

lookup_lem :
    (db : Db) (t : Time) (id : ℕ) (key_id : Text)
    → active_identity_key db t id key_id ≡ lookup t id key_id db.identity_keys
unfolding active_identity_key lookup
lookup_lem db t id key_id = ground arith

rotated_new :
    (t : Time) (id : ℕ) (key_id : Text) (deadline : Time) (ks : List IdentityKey)
    → lookup t id key_id (rotated id key_id deadline ks) ≡ lookup t id key_id ks
unfolding lookup rotated update find other_active usable_key is_active_key is_overlap
rotated_new t id key_id deadline [] = refl
rotated_new t id key_id deadline (k ∷ ks) = ground (arith, rotated_new t id key_id deadline ks)

rotated_old :
    (t : Time) (id : ℕ) (key_id old : Text) (deadline : Time) (ks : List IdentityKey)
    → old ≢ key_id
    → All (λ (k : IdentityKey). (k.registration_id == id && is_overlap k.state) ≡ false) ks
    → lookup t id old (rotated id key_id deadline ks)
      ≡ (if ltb t deadline then lookup t id old ks else err not_found)
unfolding lookup rotated update find other_active usable_key is_active_key is_overlap
rotated_old t id key_id old deadline [] ne h = ground arith
rotated_old t id key_id old deadline (k ∷ ks) ne (h, hs) = ground (
  arith,
  text_eq_iff k.key_id key_id,
  text_eq_iff k.key_id old,
  rotated_old t id key_id old deadline ks ne hs,
)

rotation_keys :
    (db db' : Db) (now : Time) (id : ℕ) (key_id : Text) (duration : ℕ)
    → complete_identity_rotation db now id key_id duration ≡ (db', ok tt)
    → rotated id key_id (now + duration) db.identity_keys ≡ db'.identity_keys
unfolding complete_identity_rotation rotated
rotation_keys db db' now id key_id duration h = ground arith

-- A completed rotation to `key_id`, for a registration with no key in overlap before: the key itself
-- is accepted when it was accepted before, and every other key that was accepted stays so for the
-- overlap alone: from `now + duration` on it is refused.
pub complete_identity_rotation-keys :
    (db db' : Db) (now : Time) (id : ℕ) (key_id : Text) (duration : ℕ)
    → All
        (λ (k : IdentityKey). (k.registration_id == id && is_overlap k.state) ≡ false)
        db.identity_keys
    → complete_identity_rotation db now id key_id duration ≡ (db', ok tt)
    → (t : Time) (old : Text) → old ≢ key_id
    → (active_identity_key db' t id key_id ≡ active_identity_key db t id key_id)
      × (active_identity_key db' t id old
          ≡ (if ltb t (now + duration) then active_identity_key db t id old else err not_found))
complete_identity_rotation-keys db db' now id key_id duration h e t old ne =
    let ks = rotation_keys db db' now id key_id duration e in
    (
      rw (lookup_lem db', lookup_lem db, ← ks)
          (rotated_new t id key_id (now + duration) db.identity_keys),
      rw (lookup_lem db', lookup_lem db, ← ks)
          (rotated_old t id key_id old (now + duration) db.identity_keys ne h),
    )
