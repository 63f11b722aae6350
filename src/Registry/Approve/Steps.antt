-- ===== src/Registry/Approve/Steps.antt =====
-- The steps of an approval that commits, and what they leave alone.
use tailscale_railway_quic_b.Common.{
  ℕ, ◌≡◌, refl, ap, ◌∙◌, Bool, true, not, ◌&&◌, Bytes, Text, text_eq, [], Option, none, some,
  or_fail, ltb, ◌==◌, exists, update, arith, exists-append_self, text_eq_refl, Ensures, done,
  failed, Ensures-bind, Ensures-any, Ensures-guard, Ensures-if, count,
}
use tailscale_railway_quic_b.Net.{Prefix}
use tailscale_railway_quic_b.Registry.{
  Time, Platform, invalid, not_found, unique, parse, pool_exhausted, RequestState, is_free,
  RegistrationRow, PendingRequest, Registration, Allocation, Db,
}
use tailscale_railway_quic_b.Registry.Queries.{find_identity, find_id, scan_registration}
use tailscale_railway_quic_b.Registry.Routes.{
  allocate_prefix, allocate_text, create_route_generation, release_quarantined, first_free, claim,
}
use tailscale_railway_quic_b.Registry.Approve.{
  Approval, jti_hash, same_replay, insert_replay, next_id, insert_registration, new_row,
  assign_route, clashes, same_alias, create_registration, find_or_create, activate, activate_key,
  store_certificate, finish, approve_open,
}

-- The requests and the replay records are those of before.
abbrev pub Kept : Db → Db → Type 0
Kept db db' = (db'.pending_requests ≡ db.pending_requests) × (db'.oidc_replays ≡ db.oidc_replays)

claim-Kept : (db : Db) (a : Allocation) → Ensures (λ (r : Db × Text). Kept db r.0) (claim db a)
unfolding claim
claim-Kept db a =
    Ensures-guard
      (count (λ b. text_eq b.prefix a.prefix && is_free b.state) db.route_allocations == 1)
      pool_exhausted _ (λ _. done (refl, refl))

allocate_text-Kept :
    (db : Db) (now : Time) → Ensures (λ (r : Db × Text). Kept db r.0) (allocate_text db now)
unfolding allocate_text release_quarantined
allocate_text-Kept db now =
    Ensures-any (or_fail (first_free (release_quarantined db now)) pool_exhausted) _
      (λ a _. claim-Kept (release_quarantined db now) a)

allocate_prefix-Kept :
    (platform : Platform) (db : Db) (now : Time)
    → Ensures (λ (r : Db × Prefix). Kept db r.0) (allocate_prefix platform db now)
unfolding allocate_prefix
allocate_prefix-Kept platform db now =
    Ensures-bind (allocate_text db now) _ (allocate_text-Kept db now)
      (λ r k. Ensures-any (or_fail (platform.parse_prefix r.1) parse) _ (λ _ _. done k))

insert_registration-Kept :
    (db : Db) (row : RegistrationRow) → Ensures (Kept db) (insert_registration db row)
unfolding insert_registration
insert_registration-Kept db row =
    Ensures-guard (not (exists (clashes row) db.registrations)) unique _ (λ _. done (refl, refl))

insert_replay-Kept :
    (db : Db) (provider : Text) (hash : Bytes) (expires_at : Time)
    → Ensures
        (λ (d : Db).
          (d.pending_requests ≡ db.pending_requests)
          × (exists (same_replay provider hash) d.oidc_replays ≡ true))
        (insert_replay db provider hash expires_at)
unfolding insert_replay same_replay
insert_replay-Kept db provider hash expires_at =
    Ensures-if (exists (same_replay provider hash) db.oidc_replays) _ _ (λ _. failed)
      (λ _. done (
        refl,
        exists-append_self (same_replay provider hash) db.oidc_replays _
            (rw (text_eq_refl provider) (text_eq_refl hash)),
      ))

module _ (platform : Platform) (now : Time) (approval : Approval) (request : PendingRequest) where
  create_registration-Kept :
      (db : Db)
      → Ensures
          (λ (r : Db × (Registration × Bool)). Kept db r.0)
          (create_registration platform now approval request db)
  unfolding create_registration assign_route
  create_registration-Kept db =
      Ensures-bind (allocate_prefix platform db now) _ (allocate_prefix-Kept platform db now)
        (λ (r : Db × Prefix) k.
          Ensures-bind
            (insert_registration r.0
              (new_row platform now approval request (next_id r.0.registrations) r.1))
            _ (insert_registration-Kept r.0 _)
            (λ d2 k2.
              Ensures-any
                (or_fail
                  (find_id
                    (assign_route platform now approval request (platform.prefix_text r.1)
                      (next_id r.0.registrations) d2)
                    (next_id r.0.registrations))
                  not_found)
                _
                (λ row _.
                  Ensures-any (scan_registration platform row) _
                    (λ c _. done (k2.0 ∙ k.0, k2.1 ∙ k.1)))))

  find_or_create-Kept :
      (db : Db) (o : Option RegistrationRow)
      → Ensures
          (λ (r : Db × (Registration × Bool)). Kept db r.0)
          (find_or_create platform now approval request db o)
  unfolding find_or_create
  find_or_create-Kept db none = create_registration-Kept db
  find_or_create-Kept db (some row) =
      Ensures-any (scan_registration platform row) _ (λ _ _. done (refl, refl))

  activate-Kept :
      (db : Db) (id : ℕ) → Ensures (Kept db) (activate platform now approval request db id)
  unfolding activate
  activate-Kept db id =
      Ensures-guard (not (exists (same_alias platform now approval request id) db.registrations))
        unique _ (λ _. done (refl, refl))

  activate_key-Kept :
      (db : Db) (id : ℕ) → Kept db (activate_key platform now approval request db id)
  unfolding activate_key
  activate_key-Kept db id = ground arith

  store_certificate-Kept :
      (db : Db) (id : ℕ) → Kept db (store_certificate platform now approval request db id)
  unfolding store_certificate
  store_certificate-Kept db id = ground arith

  -- What a committed approval leaves: its replay record, and its request approved.
  pub record Committed (db db' : Db) : Type 0 where
    pub recorded :
        exists
          (same_replay approval.provider_id (jti_hash platform approval.provider_id approval.jti))
          db'.oidc_replays
        ≡ true
    pub requests :
        db'.pending_requests
        ≡ update
            (λ r. text_eq r.id request.id)
            (λ r. record r { state = RequestState.approved })
            db.pending_requests

  pub approve_open-Committed :
      (db : Db)
      → Ensures
          (λ (r : Db × Bool). Committed db r.0)
          (approve_open platform now approval request db)
  unfolding approve_open finish create_route_generation
  approve_open-Committed db =
      Ensures-guard (not (text_eq approval.jti []) && ltb now approval.jti_expires_at) invalid _
        (λ _.
          Ensures-bind
            (insert_replay db approval.provider_id
              (jti_hash platform approval.provider_id approval.jti) approval.jti_expires_at)
            _ (insert_replay-Kept db _ _ _)
            (λ d1 k1.
              Ensures-bind
                (find_or_create platform now approval request d1
                  (find_identity d1 request.project_id request.environment_id))
                _ (find_or_create-Kept d1 _)
                (λ (r : Db × (Registration × Bool)) k2.
                  Ensures-bind (activate platform now approval request r.0 r.1.0.id) _
                    (activate-Kept r.0 r.1.0.id)
                    (λ d3 k3.
                      let k4 = activate_key-Kept d3 r.1.0.id in
                      let k5 =
                        store_certificate-Kept
                          (activate_key platform now approval request d3 r.1.0.id) r.1.0.id in
                      let same = k5.1 ∙ k4.1 ∙ k3.1 ∙ k2.1 in
                      let kept = k5.0 ∙ k4.0 ∙ k3.0 ∙ k2.0 ∙ k1.0 in
                      done (record {
                        recorded =
                            ap
                              (exists (
                                same_replay approval.provider_id
                                  (jti_hash platform approval.provider_id approval.jti)))
                              same
                            ∙ k1.1;
                        requests =
                            ap
                              (update (λ r. text_eq r.id request.id)
                                (λ r. record r { state = RequestState.approved }))
                              kept;
                      })))))
