-- ===== src/Registry/Leases/Renewal.antt =====
-- `Renew`: what it needs, what it changes, and what it refuses.
use tailscale_railway_quic_b.Common.{
  ℕ, ◌+◌, ◌≡◌, refl, ap, sym, ◌∙◌, subst, Bool, true, false, not, ◌&&◌, Bytes, Text, text_eq, List,
  [], ◌∷◌, ◌++◌, some, Result, ok, err, guard, ◌==◌, find, exists, count, update, select, least,
  All, arith, Result-cases, >>=-eq-ok, guard-eq-ok, ok-injective, inl, inr, select-append,
  update_clears, All-select_none, find-update,
}
use tailscale_railway_quic_b.Registry.{
  Time, Platform, Error, not_found, request_expired, CertificateState, RegistrationRow,
  Registration, Certificate, Db, is_active_certificate,
}
use tailscale_railway_quic_b.Registry.Queries.Reads.{registration-row, registration-All}
use tailscale_railway_quic_b.Registry.Queries.{
  find_identity, registration, credential, usable_key, same_identity,
}
use tailscale_railway_quic_b.Registry.Leases.{
  renewable, replace_certificate, renew_tx, renew, read_back, or_expired, extend_lease,
}

or_expired-eq-ok :
    (r : Result Error Registration) {x : Registration} → or_expired r ≡ ok x → r ≡ ok x
unfolding or_expired
or_expired-eq-ok (ok y) h = cc
or_expired-eq-ok (err e) h = absurd (cc)

or_expired-eq-err :
    (r : Result Error Registration) {e : Error}
    → or_expired r ≡ err e
    → or_expired r ≡ err request_expired
unfolding or_expired
or_expired-eq-err (ok y) h = absurd (cc)
or_expired-eq-err (err e) h = refl

module _ (platform : Platform) (db : Db) (now : Time) (r : Registration) where
  renew_tx_refused :
      (key_id : Text) (pem : Bytes) (certificate_id : Text) (certificate_end : Time) (duration : ℕ)
      → All (λ (row : RegistrationRow). renewable now r row ≡ false) db.registrations
      → renew_tx platform db now r key_id pem certificate_id certificate_end duration
        ≡ err request_expired
  renew_tx_refused key_id pem certificate_id certificate_end duration h =
      elim (Result-cases (or_expired (registration platform db r.project_id r.environment_id))) [
        | inr (e, q) ↦ unfold renew_tx in rw (or_expired-eq-err _ q, renew_tx)
        | inl (current, q) ↦
            let no' =
              registration-All platform (λ row. renewable now r row ≡ false) db r.project_id
                r.environment_id current (or_expired-eq-ok _ q) h in
            unfold renew_tx in rw (q, renew_tx) (rw no')
      ]

  -- A lease that has run out, or a registration that is not live, cannot be renewed: the request is
  -- refused as expired and the registry is left as it was.
  pub renew_refused :
      (key_id : Text) (pem : Bytes) (certificate_id : Text) (certificate_end : Time) (duration : ℕ)
      → All (λ (row : RegistrationRow). renewable now r row ≡ false) db.registrations
      → renew platform db now r key_id pem certificate_id certificate_end duration
        ≡ (db, err request_expired)
  renew_refused key_id pem certificate_id certificate_end duration h =
      let e = renew_tx_refused key_id pem certificate_id certificate_end duration h in
      unfold renew read_back in rw (e, renew)

  new_certificate : Text → Bytes → Text → Time → Certificate
  new_certificate key_id pem certificate_id certificate_end = record {
    id = certificate_id;
    registration_id = r.id;
    identity_key_id = key_id;
    certificate_pem = pem;
    state = CertificateState.active;
    not_after = certificate_end;
    created_at = now;
  }

  -- The steps of a successful renewal.
  renew_tx-eq-ok :
      (key_id : Text) (pem : Bytes) (certificate_id : Text) (certificate_end : Time) (duration : ℕ)
      {db' : Db} {u : Unit {0}}
      → renew_tx platform db now r key_id pem certificate_id certificate_end duration ≡ ok (db', u)
      → (current : Registration) × (registration platform db r.project_id r.environment_id
          ≡ ok current)
        × (renewable now r current.row ≡ true)
        × (exists (usable_key now r.id key_id) db.identity_keys ≡ true)
        × (db'.registrations ≡ (extend_lease now r duration db).registrations)
        × (db'.certificates
            ≡ update
                (λ c. c.registration_id == r.id && is_active_certificate c.state)
                (λ c. record c { state = CertificateState.superseded })
                db.certificates
              ++ new_certificate key_id pem certificate_id certificate_end ∷ [])
  unfolding renew_tx new_certificate
  renew_tx-eq-ok key_id pem certificate_id certificate_end duration h =
      let (current, e1, h1) =
        >>=-eq-ok (or_expired (registration platform db r.project_id r.environment_id)) _ h in
      let (_, e2, h2) = >>=-eq-ok (guard (renewable now r current.row) request_expired) _ h1 in
      let (_, e3, h3) =
        >>=-eq-ok (guard (exists (usable_key now r.id key_id) db.identity_keys) not_found) _ h2 in
      let (_, e4, h4) =
        >>=-eq-ok (guard (count (renewable now r) db.registrations == 1) request_expired) _ h3 in
      let (db1, e5, h5) =
        >>=-eq-ok
          (replace_certificate (extend_lease now r duration db)
            (new_certificate key_id pem certificate_id certificate_end))
          _ h4 in
      let (_, e6, e7) =
        >>=-eq-ok
          (guard (not (exists (λ (c : Certificate). text_eq c.id certificate_id) db.certificates))
            _)
          _ e5 in
      (
        current,
        or_expired-eq-ok _ e1,
        guard-eq-ok _ _ e2,
        guard-eq-ok _ _ e3,
        sym (ap (λ (p : Db × Unit {0}). p.0.registrations) (ok-injective h5))
            ∙ sym (ap (λ (d : Db). d.registrations) (ok-injective e7)),
        sym (ap (λ (p : Db × Unit {0}). p.0.certificates) (ok-injective h5))
            ∙ sym (ap (λ (d : Db). d.certificates) (ok-injective e7)),
      )

  active_of : Certificate → Bool
  active_of c = c.registration_id == r.id && is_active_certificate c.state

  abbrev supersede : Certificate → Certificate
  supersede c = record c { state = CertificateState.superseded }

  select_new :
      (new : Certificate) (cs : List Certificate)
      → active_of new ≡ true
      → select active_of (update active_of supersede cs ++ new ∷ []) ≡ new ∷ []
  unfolding select active_of is_active_certificate
  select_new new cs e =
      select-append active_of (update active_of supersede cs) (new ∷ [])
      ∙ rw (
        All-select_none active_of _ (update_clears active_of supersede cs (λ c t. ground arith)),
        e,
      )

  -- The only active certificate of the registration is the new one.
  credential_of_new :
      (key_id : Text) (pem : Bytes) (certificate_id : Text) (certificate_end : Time) (db' : Db)
      → db'.certificates
        ≡ update
            (λ c. c.registration_id == r.id && is_active_certificate c.state)
            (λ c. record c { state = CertificateState.superseded })
            db.certificates
          ++ new_certificate key_id pem certificate_id certificate_end ∷ []
      → credential db' r.id ≡ ok (pem, certificate_end, key_id)
  unfolding credential least new_certificate is_active_certificate active_of
  credential_of_new key_id pem certificate_id certificate_end db' e =
      let new = new_certificate key_id pem certificate_id certificate_end in
      let picked = ap (select active_of) e ∙ select_new new db.certificates (ground arith) in
      rw picked

  extended : ℕ → RegistrationRow → RegistrationRow
  extended duration row = record row { lease_expires_at = now + duration; updated_at = now }

  find-extended :
      (duration : ℕ) (db' : Db) (row : RegistrationRow)
      → db'.registrations ≡ (extend_lease now r duration db).registrations
      → find_identity db r.project_id r.environment_id ≡ some row
      → renewable now r row ≡ true
      → find_identity db' r.project_id r.environment_id ≡ some (extended duration row)
  unfolding find_identity extend_lease extended
  find-extended duration db' row e found fits =
      ap (find (same_identity r.project_id r.environment_id)) e
      ∙ find-update (same_identity r.project_id r.environment_id) (renewable now r) _
          db.registrations (λ y. unfold same_identity in refl) found
      ∙ rw fits

  -- A successful `Renew` was asked for a live registration whose lease had not run out, with a key
  -- that was accepted. It answers with that registration, its lease now ending `duration` from now
  -- and the rest of it unchanged, and the certificate handed in is the credential from then on.
  pub renew-extends :
      (key_id : Text) (pem : Bytes) (certificate_id : Text) (certificate_end : Time) (duration : ℕ)
      (db' : Db) (r' : Registration)
      → renew platform db now r key_id pem certificate_id certificate_end duration ≡ (db', ok r')
      → (current : Registration) × (registration platform db r.project_id r.environment_id
          ≡ ok current)
        × (renewable now r current.row ≡ true)
        × (exists (usable_key now r.id key_id) db.identity_keys ≡ true)
        × (r'.row ≡ record current.row { lease_expires_at = now + duration; updated_at = now })
        × (credential db' r.id ≡ ok (pem, certificate_end, key_id))
  unfolding renew read_back extended
  renew-extends key_id pem certificate_id certificate_end duration db' r' h =
      elim (Result-cases
        (renew_tx platform db now r key_id pem certificate_id certificate_end duration)) [
          | inr (e, q) ↦ absurd (cc (ap snd' (rw (q, renew) at h)))
          | inl ((d, u), q) ↦
              let (current, e1, e2, e3, e4, e5) =
                renew_tx-eq-ok key_id pem certificate_id certificate_end duration q in
              let h' = rw (q, renew) at h in
              let same : d ≡ db' = ap fst' h' in
              let read : registration platform d r.project_id r.environment_id ≡ ok r' =
                ap snd' h' in
              (
                current,
                e1,
                e2,
                e3,
                some_eq (
                    sym (registration-row platform d r.project_id r.environment_id r' read)
                    ∙ find-extended duration d current.row e4
                        (registration-row platform db r.project_id r.environment_id current e1) e2),
                subst (λ x. credential x r.id ≡ ok (pem, certificate_end, key_id)) same
                    (credential_of_new key_id pem certificate_id certificate_end d e5),
              )
        ]
    where
      fst' : Db × Result Error Registration → Db
      fst' p = p.0

      snd' : Db × Result Error Registration → Result Error Registration
      snd' p = p.1

      some_eq : {x y : RegistrationRow} → some x ≡ some y → x ≡ y
      some_eq h = ground arith
