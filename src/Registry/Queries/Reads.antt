-- ===== src/Registry/Queries/Reads.antt =====
-- What a successful read of a registration says of the table.
use tailscale_railway_quic_b.Common.{
  ◌≡◌, sym, ap, ◌∙◌, Text, some, ok, or_fail, >>=-eq-ok, ok-injective, or_fail-eq-ok, find-All, All,
}
use tailscale_railway_quic_b.Registry.{
  Platform, RegistrationRow, Registration, Db, not_found, parse,
}
use tailscale_railway_quic_b.Registry.Queries.{
  find_identity, scan_registration, registration, same_identity,
}

module _ (platform : Platform) where
  pub scan_registration-row :
      (row : RegistrationRow) {x : Registration}
      → scan_registration platform row ≡ ok x
      → x.row ≡ row
  unfolding scan_registration
  scan_registration-row row h =
      let (v, ev, h1) = >>=-eq-ok (or_fail (platform.parse_prefix row.virtual_prefix) parse) _ h in
      let (w, ew, h2) = >>=-eq-ok (or_fail (platform.parse_prefix row.real_prefix) parse) _ h1 in
      sym (ap (λ (z : Registration). z.row) (ok-injective h2))

  pub registration-row :
      (db : Db) (project environment : Text) (x : Registration)
      → registration platform db project environment ≡ ok x
      → find_identity db project environment ≡ some x.row
  unfolding registration
  registration-row db project environment x h =
      let (row, e, s) = >>=-eq-ok (or_fail (find_identity db project environment) not_found) _ h in
      or_fail-eq-ok (find_identity db project environment) not_found e
      ∙ sym (ap some (scan_registration-row row s))

  pub registration-All :
      (P : RegistrationRow → Type 0) (db : Db) (project environment : Text) (x : Registration)
      → registration platform db project environment ≡ ok x
      → All P db.registrations
      → P x.row
  unfolding find_identity
  registration-All P db project environment x h all =
      find-All P (same_identity project environment) db.registrations all
        (registration-row db project environment x h)
