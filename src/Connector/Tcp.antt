-- ===== src/Connector/Tcp.antt =====
-- internal/connector/connector.go: `handleTCP` and `validateAccepted`.
-- Times are in nanoseconds; a deadline before 1970 counts as 0, which the code refuses alike.
use tailscale_railway_quic_b.Common.{
  ℕ, ◌+◌, ◌-◌, ◌*◌, ◌%◌, ◌≤◌, ◌<◌, ◌≡◌, refl, Bool, true, false, not, ◌&&◌, ◌||◌, List, Option,
  none, some, Text, text_eq, Result, ok, err, leb, ◌==◌, if◌then◌else◌, min, arith, if_cases,
}
use tailscale_railway_quic_b.Net.{AddrPort, Prefix, unmap, addr_port_eq, prefix_eq, as16, byte_at}
use tailscale_railway_quic_b.Config.Prefixes.{allowed}

-- `OpenTCP`, as far as the connector decides by it; `target` is what ParseAddrPort reads.
pub record OpenTcp : Type 0 where
  pub target : Option AddrPort
  pub deadline_ms : ℕ

pub data Code : Type 0 where
  destination_denied deadline_exceeded destination_unreachable : Code

pub data DialError : Type 0 where
  dial_deadline dial_other : DialError

-- How a request ends: refused with a code, aborted after a dial, or joined to its destination, by the
-- DNS proxy or byte for byte. `limit` is the deadline that the dial got.
pub data Outcome : Type 0 where
  refused : Code → Outcome
  unreachable : Code → (destination : AddrPort) → (limit : ℕ) → Outcome
  aborted : (destination : AddrPort) → (limit : ℕ) → Outcome
  joined : (through_dns : Bool) → (destination : AddrPort) → (limit : ℕ) → Outcome

unfoldable pub dial_code : DialError → Code
dial_code dial_deadline = deadline_exceeded
dial_code dial_other = destination_unreachable

-- What the handler reads of the client and the session.
pub record Settings : Type 0 where
  pub routes : List Prefix
  pub dial_timeout : ℕ
  pub dns_addr : Option AddrPort

unfoldable pub through_dns : Option AddrPort → AddrPort → Bool
through_dns none destination = false
through_dns (some dns_addr) destination = addr_port_eq destination dns_addr

-- After the dial; `answered` tells whether the result is written without error.
unfoldable pub after_dial : Settings → AddrPort → ℕ → Option DialError → Bool → Outcome
unfolding dial_code through_dns
after_dial settings destination limit (some e) answered =
    unreachable (dial_code e) destination limit
after_dial settings destination limit none answered =
    if answered
    then joined (through_dns settings.dns_addr destination) destination limit
    else aborted destination limit

unfoldable pub deadline_of : OpenTcp → ℕ
deadline_of request = request.deadline_ms * 1000000

-- The checks of a request whose destination has been read.
unfoldable pub handle_target :
    Settings → OpenTcp → ℕ → Option DialError → Bool → Option AddrPort → Outcome
unfolding after_dial deadline_of
handle_target settings request now dial answered none = refused destination_denied
handle_target settings request now dial answered (some destination) =
    if not (allowed settings.routes (unmap destination.addr))
    then refused destination_denied
    else if request.deadline_ms == 0 || leb (deadline_of request) now
    then refused deadline_exceeded
    else after_dial settings destination (min (deadline_of request) (now + settings.dial_timeout))
        dial answered

-- `handleTCP` after `ReadFrame`, with `dial` what the dial returns and `now` the clock, read once.
unfoldable pub handle_tcp : Settings → OpenTcp → ℕ → Option DialError → Bool → Outcome
unfolding handle_target
handle_tcp settings request now dial answered =
    handle_target settings request now dial answered request.target

-- A destination that may be dialled for a request, with the deadline of the dial.
pub record Dialled (settings : Settings) (request : OpenTcp) (now : ℕ) (destination : AddrPort)
    (limit : ℕ) : Type 0 where
  pub asked : request.target ≡ some destination
  pub permitted : allowed settings.routes (unmap destination.addr) ≡ true
  pub late : limit ≤ now + settings.dial_timeout
  pub in_time : limit ≤ deadline_of request
  pub fresh : now < deadline_of request

-- What an outcome says: a dial was one that is allowed.
unfoldable pub Justified : Settings → OpenTcp → ℕ → Outcome → Type 0
Justified settings request now (refused c) = Unit
Justified settings request now (unreachable c destination limit) =
    Dialled settings request now destination limit
Justified settings request now (aborted destination limit) =
    Dialled settings request now destination limit
Justified settings request now (joined dns destination limit) =
    Dialled settings request now destination limit
    × (dns ≡ through_dns settings.dns_addr destination)

after_dial-Justified :
    (settings : Settings) (request : OpenTcp) (now : ℕ) (destination : AddrPort) (limit : ℕ)
    (dial : Option DialError) (answered : Bool)
    → Dialled settings request now destination limit
    → Justified settings request now (after_dial settings destination limit dial answered)
unfolding after_dial Justified
after_dial-Justified settings request now destination limit (some e) answered d = d
after_dial-Justified settings request now destination limit none true d = (d, refl)
after_dial-Justified settings request now destination limit none false d = d

handle_target-Justified :
    (settings : Settings) (request : OpenTcp) (now : ℕ) (dial : Option DialError) (answered : Bool)
    (target : Option AddrPort)
    → request.target ≡ target
    → Justified settings request now (handle_target settings request now dial answered target)
unfolding handle_target Justified
handle_target-Justified settings request now dial answered none e = tt
handle_target-Justified settings request now dial answered (some destination) e =
    if_cases (Justified settings request now)
      (not (allowed settings.routes (unmap destination.addr))) _ _ (λ b. tt)
      λ b.
        if_cases (Justified settings request now)
          (request.deadline_ms == 0 || leb (deadline_of request) now) _ _ (λ c. tt)
          λ c.
            after_dial-Justified settings request now destination
              (min (deadline_of request) (now + settings.dial_timeout)) dial answered
              (record {
                asked = e;
                permitted = ground arith;
                late = omega arith;
                in_time = omega arith;
                fresh = ground arith;
              })

-- Whatever the network does, a connector dials for a TCP request only the destination that the
-- request names, only if the accepted routes allow it and the request's deadline is still to come,
-- and with a deadline that is neither behind the request's nor more than the dial timeout away. The
-- DNS proxy joins the connection exactly if the destination is the resolver's address.
pub handle_tcp-Justified :
    (settings : Settings) (request : OpenTcp) (now : ℕ) (dial : Option DialError) (answered : Bool)
    → Justified settings request now (handle_tcp settings request now dial answered)
unfolding handle_tcp
handle_tcp-Justified settings request now dial answered =
    handle_target-Justified settings request now dial answered request.target refl

-- `ConnectorAccepted` and the configuration, as far as they are compared; the prefixes of the
-- message are what ParsePrefix reads.
pub record Accepted : Type 0 where
  pub connector_id : Text
  pub virtual_prefix : Option Prefix
  pub real_prefix : Option Prefix
  pub slot : ℕ

pub record Identity : Type 0 where
  pub connector_id : Text
  pub virtual_prefix : Prefix
  pub real_prefix : Prefix
  pub dynamic : Bool

pub data AcceptError : Type 0 where
  identity_mismatch slot_mismatch : AcceptError

unfoldable pub same_prefix : Option Prefix → Prefix → Bool
same_prefix none q = false
same_prefix (some p) q = prefix_eq p q

-- `validateAccepted`; the byte's difference wraps around.
unfoldable pub validate_accepted : Identity → Accepted → Result AcceptError (Unit {0})
unfolding same_prefix
validate_accepted own accepted =
    if not (text_eq accepted.connector_id own.connector_id)
      || not (same_prefix accepted.virtual_prefix own.virtual_prefix)
      || not (same_prefix accepted.real_prefix own.real_prefix)
    then err identity_mismatch
    else if not own.dynamic
        && not (accepted.slot == (byte_at (as16 own.virtual_prefix.addr) 1 + 256 - 0x20) % 256)
    then err slot_mismatch
    else ok tt
