-- ===== src/Edge/Routes.antt =====
-- internal/edge/edge.go: `route`.
-- The entries are those of `s.routes`, read under the lock; a session is its state at that time.
use tailscale_railway_quic_b.Common.{
  ℕ, ◌≡◌, refl, ap, ◌∙◌, Bool, true, false, not, ◌||◌, List, [], ◌∷◌, Option, none, some, ok, err,
  if◌then◌else◌, find, arith, Bool-cases, Option-cases, Result-cases, inl, inr,
}
use tailscale_railway_quic_b.Net.{AddrPort, Prefix, unmap, contains}
use tailscale_railway_quic_b.Config.Prefixes.{allowed}
use tailscale_railway_quic_b.Edge.Translation.{translate_addr_port}

-- `session`, as far as routing reads it; `connection` tells sessions apart.
pub record Session : Type 0 where
  pub connection : ℕ
  pub draining : Bool
  pub routes : List Prefix

-- `connectorEntry`: its target's prefixes and its active session.
pub record Entry : Type 0 where
  pub virtual_prefix : Prefix
  pub real_prefix : Prefix
  pub active : Option Session

-- What `route` does at the first entry whose virtual prefix contains the destination.
unfoldable pub route_entry : Entry → AddrPort → Option Session → Option (Session × AddrPort)
unfolding allowed
route_entry e destination none = none
route_entry e destination (some s) =
    if s.draining
    then none
    else elim (translate_addr_port destination e.virtual_prefix e.real_prefix) [
      | err _ ↦ none
      | ok translated ↦ if allowed s.routes translated.addr then some (s, translated) else none
    ]

-- An edge with no entries sends everything to its one session, untranslated.
unfoldable pub route_single : Option Session → AddrPort → Option (Session × AddrPort)
unfolding allowed
route_single none destination = none
route_single (some s) destination =
    if s.draining || not (allowed s.routes (unmap destination.addr))
    then none
    else some (s, destination)

unfoldable pub serves : AddrPort → Entry → Bool
serves destination e = contains e.virtual_prefix (unmap destination.addr)

-- `route`.
unfoldable pub route : List Entry → Option Session → AddrPort → Option (Session × AddrPort)
unfolding route_entry route_single serves
route [] single destination = route_single single destination
route (e ∷ es) single destination = elim (find (serves destination) (e ∷ es)) [
  | none ↦ none
  | some entry ↦ route_entry entry destination entry.active
]

-- Why a destination is sent to `translated` by the session `s`.
pub record Routed (entries : List Entry) (destination : AddrPort) (s : Session)
    (translated : AddrPort) : Type 0 where
  pub entry : Entry
  pub first : find (serves destination) entries ≡ some entry
  pub live : entry.active ≡ some s
  pub running : s.draining ≡ false
  pub moved : translate_addr_port destination entry.virtual_prefix entry.real_prefix ≡ ok translated
  pub permitted : allowed s.routes translated.addr ≡ true

some-injective : {x y : Session × AddrPort} → some x ≡ some y → x ≡ y
some-injective {x} {y} q = ground arith

route_entry-Routed :
    (entries : List Entry) (destination : AddrPort) (entry : Entry) (o : Option Session)
    (s : Session) (translated : AddrPort)
    → find (serves destination) entries ≡ some entry
    → entry.active ≡ o
    → route_entry entry destination o ≡ some (s, translated)
    → Routed entries destination s translated
unfolding route_entry
route_entry-Routed entries destination entry none s translated f a h = absurd (cc h)
route_entry-Routed entries destination entry (some x) s translated f a h =
    elim (Bool-cases x.draining) [
      | inl d ↦ absurd (cc (rw d at h))
      | inr d ↦
          elim (Result-cases
            (translate_addr_port destination entry.virtual_prefix entry.real_prefix)) [
              | inr (_, t) ↦ absurd (cc (rw (t, route_entry) at (rw d at h)))
              | inl (y, t) ↦ elim (Bool-cases (allowed x.routes y.addr)) [
                | inr p ↦ absurd (cc (rw p at (rw (t, route_entry) at (rw d at h))))
                | inl p ↦
                    let q = some-injective (rw p at (rw (t, route_entry) at (rw d at h))) in
                    let same : x ≡ s = ap (λ (z : Session × AddrPort). z.0) q in
                    let target : y ≡ translated = ap (λ (z : Session × AddrPort). z.1) q in
                    record {
                      entry = entry;
                      first = f;
                      live = a ∙ ap some same;
                      running = rw⁻¹ same d;
                      moved = t ∙ ap ok target;
                      permitted = rw⁻¹ (same, target) p;
                    }
              ]
            ]
    ]

-- Where an edge with entries sends a destination: if `route` gives a session and an address, then the
-- session is the active one of the first entry whose virtual prefix contains the destination, it is
-- not draining, the address is the destination translated from that entry's virtual prefix to its
-- real one, and the session's routes allow it.
pub route-Routed :
    (e : Entry) (es : List Entry) (single : Option Session) (destination : AddrPort) (s : Session)
    (translated : AddrPort)
    → route (e ∷ es) single destination ≡ some (s, translated)
    → Routed (e ∷ es) destination s translated
unfolding route
route-Routed e es single destination s translated h =
    elim (Option-cases (find (serves destination) (e ∷ es))) [
      | inl f ↦ absurd (cc (rw (f, route) at h))
      | inr (entry, f) ↦
          route_entry-Routed (e ∷ es) destination entry entry.active s translated f refl
            (rw (f, route) at h)
    ]
