-- ===== src/Approval/Replays.antt =====
-- internal/approval/server.go: a token approves once, across the handler and the registry.
use tailscale_railway_quic_b.Common.{
  ℕ, ◌≡◌, ap, ◌∙◌, Bool, true, not, ◌&&◌, Option, some, text_eq, ltb, ok, List, [],
}
use tailscale_railway_quic_b.Registry.{Time, PendingRequest, Registration}
use tailscale_railway_quic_b.Registry.Approve.Replays.{is_open, approve_replayed}
use tailscale_railway_quic_b.Oidc.{Identity}
use tailscale_railway_quic_b.Oidc.Keys.{Cache, Jwk}
use tailscale_railway_quic_b.Oidc.Tokens.{Clock, validate}
use tailscale_railway_quic_b.Approval.{
  Config, Library, Server, ApprovalRequest, Issued, oidc_replay, check_request,
}
use tailscale_railway_quic_b.Approval.Handlers.{
  approval_of, approval_reply, approve_validated, token_request, approve_checked, handle_approve,
}
use tailscale_railway_quic_b.Approval.Grants.{Granted, own_id, check_request-Checked}

-- A token approves once: after an approval of an open request, an approval of any open request with a
-- token of the same provider and identifier, which is valid otherwise and has not run out, is refused
-- as a replay and leaves the registry as it was.
pub handle_approve-replayed :
    (library : Library) (config config' : Config) (server server' : Server) (clock clock' : Clock)
    (now later : Time) (input input' : ApprovalRequest) (issued : Option Issued) (c : Issued)
    (answer again : Option (List Jwk × ℕ)) (r : Registration) (created : Bool)
    (other : PendingRequest) (cache : Cache) (identity : Identity)
    → (g : Granted library config server clock now input issued server' r created)
    → is_open now g.request ≡ true
    → check_request library config' server'.db input' ≡ ok other
    → is_open later other ≡ true
    → validate library.oidc config'.policies server'.cache clock' input'.provider_id input'.token
        (token_request library other)
        answer
        again
      ≡ (cache, ok identity)
    → identity.provider_id ≡ g.identity.provider_id
    → identity.jti ≡ g.identity.jti
    → (not (text_eq identity.jti []) && ltb later identity.expires_at) ≡ true
    → handle_approve library config' server' clock' later input' (some c) answer again
      ≡ (record { db = server'.db; cache = cache }, oidc_replay)
unfolding handle_approve approve_checked approve_validated approval_of approval_reply
handle_approve-replayed library config config' server server' clock clock' now later input input'
      issued c answer again r created other cache identity g open_ checked open' valid provider jti
      fresh =
    let refused_ =
      approve_replayed library.platform server.db server'.db now
        (approval_of library config g.request g.identity g.certificate) g.request r created
        (own_id server.db input.request_id g.request g.checked.asked) open_ g.committed later
        (approval_of library config' other identity c) other provider jti fresh
        (own_id server'.db input'.request_id other
          (check_request-Checked library config' server'.db input' other checked).asked)
        open' in
    ap (approve_checked library config' server' clock' later input' (some c) answer again) checked
    ∙ ap (approve_validated library config' server'.db later other (some c)) valid
    ∙ ap (approval_reply library cache) refused_
