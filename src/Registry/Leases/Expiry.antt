-- ===== src/Registry/Leases/Expiry.antt =====
-- `Expire`: every registration whose lease has run out ends, and no other row is left with one.
use tailscale_railway_quic_b.Common.{
  ℕ, ◌≡◌, refl, ap, sym, true, false, List, [], ◌∷◌, Result, ok, ◌==◌, select, All, All-map, arith,
  Any, select-covers, update-All_to, subst, Bool-cases, Result-cases, inl, inr,
}
use tailscale_railway_quic_b.Registry.{
  Time, Platform, Error, RegistrationRow, Registration, Db, is_live,
}
use tailscale_railway_quic_b.Registry.Queries.{scan_all}
use tailscale_railway_quic_b.Registry.Leases.{
  has_run_out, expire_id, expire_all, clean_up, expire_rows, expire, regenerate,
}
use tailscale_railway_quic_b.Registry.Routes.{create_route_generation, release_quarantined}
use tailscale_railway_quic_b.Registry.Leases.Ended.{
  Ended, Refused, expire_id-Ended, expire_id-Ended_other, clean_up-Ended, Ended-Refused,
}

expire_all-Ended_other :
    (now quarantine : ℕ) (rows : List RegistrationRow) (db : Db) (id : ℕ)
    → Ended db id
    → Ended (expire_all now quarantine rows db) id
unfolding expire_all
expire_all-Ended_other now quarantine [] db id h = h
expire_all-Ended_other now quarantine (row ∷ rows) db id h =
    expire_all-Ended_other now quarantine rows _ id
      (expire_id-Ended_other db now row.id quarantine id h)

expire_all-Ended :
    (now quarantine : ℕ) (rows : List RegistrationRow) (db : Db)
    → All (λ (row : RegistrationRow). Ended (expire_all now quarantine rows db) row.id) rows
unfolding expire_all
expire_all-Ended now quarantine [] db = tt
expire_all-Ended now quarantine (row ∷ rows) db = (
  expire_all-Ended_other now quarantine rows _ row.id (expire_id-Ended db now row.id quarantine),
  expire_all-Ended now quarantine rows (expire_id now quarantine row.id db),
)

-- A row that has run out is one of the rows still to be ended.
abbrev Covered : Time → List RegistrationRow → RegistrationRow → Type 0
Covered now rows row =
    has_run_out now row ≡ true → Any (λ (r : RegistrationRow). r.id ≡ row.id) rows

uncover :
    (now : Time) (r : RegistrationRow) (rows : List RegistrationRow) (row : RegistrationRow)
    → (row.id == r.id) ≡ false
    → Covered now (r ∷ rows) row
    → Covered now rows row
uncover now r rows row ne c out = elim (c out) [ inl e ↦ absurd (ground arith) | inr m ↦ m ]

expire_id-Covered :
    (now quarantine : ℕ) (r : RegistrationRow) (rows : List RegistrationRow) (db : Db)
    → All (Covered now (r ∷ rows)) db.registrations
    → All (Covered now rows) (expire_id now quarantine r.id db).registrations
unfolding expire_id has_run_out is_live
expire_id-Covered now quarantine r rows db h =
    update-All_to (Covered now (r ∷ rows)) (Covered now rows) _ _ db.registrations
      (λ row c e out. absurd (cc out)) (λ row c e. uncover now r rows row e c) h

expire_all-Covered :
    (now quarantine : ℕ) (rows : List RegistrationRow) (db : Db)
    → All (Covered now rows) db.registrations
    → All (λ row. has_run_out now row ≡ false) (expire_all now quarantine rows db).registrations
unfolding expire_all
expire_all-Covered now quarantine [] db h =
    All-map _ _ (λ row c. none_left row c) db.registrations h
  where
    none_left : (row : RegistrationRow) → Covered now [] row → has_run_out now row ≡ false
    none_left row c = elim (Bool-cases (has_run_out now row)) [ inl e ↦ absurd (c e) | inr e ↦ e ]
expire_all-Covered now quarantine (row ∷ rows) db h =
    expire_all-Covered now quarantine rows _ (expire_id-Covered now quarantine row rows db h)

self-Covered :
    (now : Time) (rows : List RegistrationRow)
    → All (Covered now (select (has_run_out now) rows)) rows
self-Covered now rows =
    All-map _ _ (λ row c out. c out) rows
      (select-covers
        (λ row. Any (λ (r : RegistrationRow). r.id ≡ row.id) (select (has_run_out now) rows))
        (has_run_out now) rows (All-self (select (has_run_out now) rows)))
  where
    weaken :
        (r : RegistrationRow) (xs ys : List RegistrationRow)
        → All (λ (x : RegistrationRow). Any (λ (y : RegistrationRow). y.id ≡ x.id) xs) ys
        → All (λ (x : RegistrationRow). Any (λ (y : RegistrationRow). y.id ≡ x.id) (r ∷ xs)) ys
    weaken r xs ys h = All-map _ _ (λ x a. inr a) ys h

    All-self :
        (xs : List RegistrationRow)
        → All (λ (x : RegistrationRow). Any (λ (y : RegistrationRow). y.id ≡ x.id) xs) xs
    All-self [] = tt
    All-self (x ∷ xs) = (inl refl, weaken x xs xs (All-self xs))

regenerate-Ended :
    (rows : List RegistrationRow) (db : Db) (now id : ℕ)
    → Ended db id
    → Ended (regenerate rows db now) id
unfolding regenerate create_route_generation
regenerate-Ended [] db now id h = h
regenerate-Ended (row ∷ rows) db now id h = record {
  no_row = h.no_row;
  no_certificate = h.no_certificate;
  no_key = h.no_key;
  no_route = h.no_route;
}

regenerate-registrations :
    (rows : List RegistrationRow) (db : Db) (now : ℕ)
    → (regenerate rows db now).registrations ≡ db.registrations
unfolding regenerate create_route_generation
regenerate-registrations [] db now = refl
regenerate-registrations (row ∷ rows) db now = refl

expire_rows-Ended :
    (now quarantine : ℕ) (rows : List RegistrationRow) (db : Db)
    → All (λ (row : RegistrationRow). Ended (expire_rows now quarantine rows db) row.id) rows
unfolding expire_rows
expire_rows-Ended now quarantine rows db =
    All-map _ _ (λ row e. clean_up-Ended _ now row.id (regenerate-Ended rows _ now row.id e)) rows
      (expire_all-Ended now quarantine rows db)

-- A successful `Expire` ends every registration whose lease has run out at `now`, each with no
-- credential and no accepted key from then on, and no row is left live with its lease run out.
pub expire-Ended :
    (platform : Platform) (db db' : Db) (now : Time) (quarantine : ℕ) (rs : List Registration)
    → expire platform db now quarantine ≡ (db', ok rs)
    → All
        (λ (row : RegistrationRow). Ended db' row.id × Refused db' row.id)
        (select (has_run_out now) db.registrations)
      × All (λ (row : RegistrationRow). has_run_out now row ≡ false) db'.registrations
unfolding expire expire_rows clean_up release_quarantined
expire-Ended platform db db' now quarantine rs h =
    let rows = select (has_run_out now) db.registrations in
    elim (Result-cases (scan_all platform rows)) [
      | inr (e, q) ↦ absurd (cc (ap snd' (rw (q, expire) at h)))
      | inl (xs, q) ↦
          let e = ap fst' (rw (q, expire) at h) in
          (
            All-map _ _ (λ row x. let y = subst (λ d. Ended d row.id) e x in (y, Ended-Refused y))
                rows (expire_rows-Ended now quarantine rows db),
            subst (λ (d : Db). All (λ row. has_run_out now row ≡ false) d.registrations) e
                (subst (All (λ row. has_run_out now row ≡ false))
                  (sym (regenerate-registrations rows _ now))
                  (expire_all-Covered now quarantine rows db (self-Covered now db.registrations))),
          )
    ]
  where
    fst' : Db × Result Error (List Registration) → Db
    fst' p = p.0

    snd' : Db × Result Error (List Registration) → Result Error (List Registration)
    snd' p = p.1
