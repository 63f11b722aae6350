-- ===== src/Registry/Approve/Replays.antt =====
-- Approvals that are repeated: the same token, and the same request.
use tailscale_railway_quic_b.Common.{
  ◌≡◌, refl, ap, sym, ◌∙◌, Bool, true, false, not, ◌&&◌, Text, text_eq, text_eq_refl, [], some,
  Result, ok, err, ◌>>=◌, ltb, find, exists, arith, ok-injective, Ensures-ok, and_true, >>=-eq-ok,
  ap₂, subst₂, inl, inr, not-true, guard, guard-eq-ok, Bool-cases, find-update, find-true,
  or_fail-eq-ok,
}
use tailscale_railway_quic_b.Registry.{
  Time, Platform, Error, replay, not_found, request_expired, RequestState, PendingRequest,
  Registration, Db, is_pending, request_is_approved, transaction, invalid,
}
use tailscale_railway_quic_b.Registry.Queries.{pending_request, registration}
use tailscale_railway_quic_b.Registry.Approve.{
  Approval, jti_hash, same_replay, insert_replay, approve_open, approve_request, approve,
  after_commit, consume_replay,
}
use tailscale_railway_quic_b.Registry.Approve.Steps.{approve_open-Committed}

-- The part of a request's check that comes before the transaction.
abbrev pub is_open : Time → PendingRequest → Bool
is_open now request = is_pending request.state && ltb now request.expires_at

approve_open_replayed :
    (platform : Platform) (now : Time) (b : Approval) (request : PendingRequest) (db : Db)
    → (not (text_eq b.jti []) && ltb now b.jti_expires_at) ≡ true
    → exists (same_replay b.provider_id (jti_hash platform b.provider_id b.jti)) db.oidc_replays
      ≡ true
    → approve_open platform now b request db ≡ err replay
unfolding approve_open insert_replay
approve_open_replayed platform now b request db fresh seen = rw (fresh, approve_open) (rw seen)

pending_not_approved : (s : RequestState) → is_pending s ≡ true → request_is_approved s ≡ false
unfolding is_pending request_is_approved
pending_not_approved s h = ground arith

approve_request_open :
    (platform : Platform) (db : Db) (now : Time) (a : Approval) (request : PendingRequest)
    → is_open now request ≡ true
    → approve_request platform db now a request
      ≡ after_commit platform request.project_id request.environment_id
          (transaction db (approve_open platform now a request db))
unfolding approve_request
approve_request_open platform db now a request open_now =
    rw (pending_not_approved request.state (and_true open_now).0, open_now)

approve-request :
    (platform : Platform) (db : Db) (now : Time) (a : Approval) (request : PendingRequest)
    → pending_request db a.request_id ≡ ok request
    → approve platform db now a ≡ approve_request platform db now a request
unfolding approve
approve-request platform db now a request h = rw (h, approve)

after_commit_lem :
    (platform : Platform) (project environment : Text) (db db' : Db) (o : Result Error (Db × Bool))
    {r : Registration} {created : Bool}
    → after_commit platform project environment (transaction db o) ≡ (db', ok (r, created))
    → (o ≡ ok (db', created)) × (registration platform db' project environment ≡ ok r)
unfolding after_commit
after_commit_lem platform project environment db db' (err x) h = absurd (cc (ap after h))
  where
    after : Db × Result Error (Registration × Bool) → Result Error (Registration × Bool)
    after p = p.1
after_commit_lem platform project environment db db' (ok (d, c)) h =
    let same : d ≡ db' = ap before h in
    let (r', er, last) = >>=-eq-ok (registration platform d project environment) _ (ap after h) in
    let eq = ok-injective last in
    (
      ap₂ (λ x y. ok (x, y)) same (ap (λ (p : Registration × Bool). p.1) eq),
      ap (λ x. registration platform x project environment) (sym same)
          ∙ er
          ∙ ap (λ (p : Registration × Bool). ok p.0) eq,
    )
  where
    before : Db × Result Error (Registration × Bool) → Db
    before p = p.0

    after : Db × Result Error (Registration × Bool) → Result Error (Registration × Bool)
    after p = p.1

-- An approval that went through its transaction.
record Went (platform : Platform) (db db' : Db) (now : Time) (a : Approval)
    (request : PendingRequest) (r : Registration) (created : Bool) : Type 0 where
  opened : approve_open platform now a request db ≡ ok (db', created)
  read : registration platform db' request.project_id request.environment_id ≡ ok r

approve-Went :
    (platform : Platform) (db db' : Db) (now : Time) (a : Approval) (request : PendingRequest)
    (r : Registration) (created : Bool)
    → pending_request db a.request_id ≡ ok request
    → is_open now request ≡ true
    → approve platform db now a ≡ (db', ok (r, created))
    → Went platform db db' now a request r created
approve-Went platform db db' now a request r created found open_now h =
    let (opened, read) =
      after_commit_lem platform request.project_id request.environment_id db db'
        (approve_open platform now a request db)
        (sym (approve_request_open platform db now a request open_now)
          ∙ sym (approve-request platform db now a request found)
          ∙ h) in
    record { opened = opened; read = read }

-- One OIDC token approves one request. Once an approval with a token has been committed, an approval
-- of any open request of the registry that it left, with the same provider and token identifier and
-- with a token that has not run out, is refused as a replay and changes nothing.
pub approve_replayed :
    (platform : Platform) (db db' : Db) (now : Time) (a : Approval) (request : PendingRequest)
    (r : Registration) (created : Bool)
    → pending_request db a.request_id ≡ ok request
    → is_open now request ≡ true
    → approve platform db now a ≡ (db', ok (r, created))
    → (later : Time) (b : Approval) (other : PendingRequest) → b.provider_id ≡ a.provider_id
    → b.jti ≡ a.jti
    → (not (text_eq b.jti []) && ltb later b.jti_expires_at) ≡ true
    → pending_request db' b.request_id ≡ ok other
    → is_open later other ≡ true
    → approve platform db' later b ≡ (db', err replay)
approve_replayed platform db db' now a request r created found open_now h later b other ep ej fresh
      found' open' =
    let went = approve-Went platform db db' now a request r created found open_now h in
    let committed = Ensures-ok (approve_open-Committed platform now a request db) went.opened in
    let seen =
      subst₂ (λ p j. exists (same_replay p (jti_hash platform p j)) db'.oidc_replays ≡ true)
        (sym ep) (sym ej) committed.recorded in
    approve-request platform db' later b other found'
    ∙ approve_request_open platform db' later b other open'
    ∙ ap (λ x. after_commit platform other.project_id other.environment_id (transaction db' x))
        (approve_open_replayed platform later b other db' fresh seen)
    ∙ (unfold after_commit in refl)

-- An approval that went through had a token identifier.
jti_given :
    (platform : Platform) (db : Db) (now : Time) (a : Approval) (request : PendingRequest)
    {done : Db × Bool}
    → approve_open platform now a request db ≡ ok done
    → text_eq a.jti [] ≡ false
unfolding approve_open
jti_given platform db now a request h =
    let (_, g, _) =
      >>=-eq-ok (guard (not (text_eq a.jti []) && ltb now a.jti_expires_at) invalid) _ h in
    not-true _ ((and_true (guard-eq-ok _ invalid g)).0)

consume_seen :
    (platform : Platform) (db : Db) (now : Time) (provider jti : Text) (expires : Time)
    → text_eq provider [] ≡ false
    → text_eq jti [] ≡ false
    → ltb now expires ≡ true
    → exists (same_replay provider (jti_hash platform provider jti)) db.oidc_replays ≡ true
    → consume_replay platform db now provider jti expires ≡ (db, err replay)
unfolding consume_replay insert_replay
consume_seen platform db now provider jti expires p j fresh seen = rw (p, j, fresh) (rw seen)

-- A token that has approved a request is spent: once an approval has been committed, `ConsumeReplay`,
-- by which a revocation spends its token, refuses the provider and the token identifier of the
-- approval as a replay and changes nothing, in the registry that the approval left and at any time
-- before the expiry that it is given. The provider has an identifier.
pub consume_replayed :
    (platform : Platform) (db db' : Db) (now : Time) (a : Approval) (request : PendingRequest)
    (r : Registration) (created : Bool)
    → pending_request db a.request_id ≡ ok request
    → is_open now request ≡ true
    → approve platform db now a ≡ (db', ok (r, created))
    → text_eq a.provider_id [] ≡ false
    → (later expires : Time) → ltb later expires ≡ true
    → consume_replay platform db' later a.provider_id a.jti expires ≡ (db', err replay)
consume_replayed platform db db' now a request r created found open_now h given later expires
      fresh =
    let went = approve-Went platform db db' now a request r created found open_now h in
    let committed = Ensures-ok (approve_open-Committed platform now a request db) went.opened in
    consume_seen platform db' later a.provider_id a.jti expires given
      (jti_given platform db now a request went.opened) fresh committed.recorded

approve_request_approved :
    (platform : Platform) (db : Db) (now : Time) (a : Approval) (request : PendingRequest)
    → request_is_approved request.state ≡ true
    → approve_request platform db now a request ≡ (
      db,
      registration platform db request.project_id request.environment_id >>= λ r. ok (r, false),
    )
unfolding approve_request
approve_request_approved platform db now a request h = rw h

approve_request_closed :
    (platform : Platform) (db : Db) (now : Time) (a : Approval) (request : PendingRequest)
    → request_is_approved request.state ≡ false
    → is_open now request ≡ false
    → approve_request platform db now a request ≡ (db, err request_expired)
unfolding approve_request
approve_request_closed platform db now a request h k = rw (h, k)

-- Which requests are approved: those that are pending and have not expired, and again, without any
-- effect, those that are approved already.
pub data Approvable (now : Time) (request : PendingRequest) (db db' : Db) (created : Bool)
    : Type 0 where
  open_request : is_open now request ≡ true → Approvable now request db db' created
  repeated :
      request_is_approved request.state ≡ true
      → db' ≡ db
      → created ≡ false
      → Approvable now request db db' created

pub approve-Approvable :
    (platform : Platform) (db db' : Db) (now : Time) (a : Approval) (request : PendingRequest)
    (r : Registration) (created : Bool)
    → pending_request db a.request_id ≡ ok request
    → approve platform db now a ≡ (db', ok (r, created))
    → Approvable now request db db' created
approve-Approvable platform db db' now a request r created found h =
    elim (Bool-cases (request_is_approved request.state)) [
      | inl e ↦
          let went = sym (approve_request_approved platform db now a request e) ∙ taken in
          let (_, _, last) =
            >>=-eq-ok (registration platform db request.project_id request.environment_id) _
              (ap after went) in
          repeated e (sym (ap before went))
            (sym (ap (λ (p : Registration × Bool). p.1) (ok-injective last)))
      | inr e ↦ elim (Bool-cases (is_open now request)) [
        | inl o ↦ open_request o
        | inr o ↦
            absurd
              (cc (ap after (sym (approve_request_closed platform db now a request e o) ∙ taken)))
      ]
    ]
  where
    taken : approve_request platform db now a request ≡ (db', ok (r, created))
    taken = sym (approve-request platform db now a request found) ∙ h

    before : Db × Result Error (Registration × Bool) → Db
    before p = p.0

    after : Db × Result Error (Registration × Bool) → Result Error (Registration × Bool)
    after p = p.1

-- Approving a request again is harmless: after an approval that succeeded, every further approval of
-- the same request, with whatever token and at whatever time, answers with the same registration,
-- says that it created nothing, and leaves the registry as it is.
pub approve_again :
    (platform : Platform) (db db' : Db) (now : Time) (a : Approval) (request : PendingRequest)
    (r : Registration) (created : Bool)
    → pending_request db a.request_id ≡ ok request
    → is_open now request ≡ true
    → approve platform db now a ≡ (db', ok (r, created))
    → (later : Time) (b : Approval) → b.request_id ≡ a.request_id
    → approve platform db' later b ≡ (db', ok (r, false))
unfolding pending_request request_is_approved
approve_again platform db db' now a request r created found open_now h later b eid =
    let went = approve-Went platform db db' now a request r created found open_now h in
    let committed = Ensures-ok (approve_open-Committed platform now a request db) went.opened in
    let row =
      or_fail-eq-ok (find (λ q. text_eq q.id a.request_id) db.pending_requests) not_found found in
    let is_id = find-true (λ q. text_eq q.id a.request_id) db.pending_requests row in
    let found' : find (λ q. text_eq q.id b.request_id) db'.pending_requests
        ≡ some (record request { state = RequestState.approved }) =
      rw (eid, committed.requests)
        (find-update (λ q. text_eq q.id a.request_id) (λ q. text_eq q.id request.id)
            (λ q. record q { state = RequestState.approved }) db.pending_requests (λ q. refl) row
          ∙ rw (text_eq_refl request.id)) in
    approve-request platform db' later b (record request { state = RequestState.approved })
      (rw found')
    ∙ approve_request_approved platform db' later b
        (record request { state = RequestState.approved }) refl
    ∙ rw went.read
