-- ===== src/Registry/Routes.antt =====
-- internal/registry/registry.go: the pool of virtual prefixes and the route generations.
use tailscale_railway_quic_b.Common.{
  ℕ, zero, suc, ◌+◌, ◌-◌, ◌*◌, ◌%◌, ◌^◌, Bool, false, not, ◌&&◌, ◌||◌, Text, text_eq, text_lt, List,
  [], ◌∷◌, ◌++◌, Option, none, some, Result, ok, err, ◌>>=◌, ◌>>◌, guard, or_fail, ltb, leb, ◌==◌,
  if◌then◌else◌, select, exists, count, least, order_by, update, map,
}
use tailscale_railway_quic_b.Net.{
  Prefix, v6, is6, as16, addr_from16, byte_at, set_byte, masked, contains, prefix_eq,
}
use tailscale_railway_quic_b.Registry.{
  Time, Platform, Error, invalid, pool_exhausted, parse, AllocationState, GenerationState,
  Allocation, Generation, Db, is_free, is_quarantined, generation_is_pending,
}
use tailscale_railway_quic_b.Registry.Queries.{is_active_at}

quarantine_over : Time → Allocation → Bool
quarantine_over now a =
    is_quarantined a.state && elim a.quarantine_until [ none ↦ false | some t ↦ leb t now ]

-- `UPDATE … SET state = 'free', registration_id = NULL, quarantine_until = NULL` for every
-- allocation whose quarantine is over.
unfoldable pub release_quarantined : Db → Time → Db
unfolding quarantine_over
release_quarantined db now = record db {
  route_allocations =
      update (quarantine_over now)
        (λ a. record a {
          state = AllocationState.free;
          registration_id = none;
          quarantine_until = none;
        })
        db.route_allocations;
}

-- The free prefix whose text comes first.
unfoldable pub first_free : Db → Option Allocation
first_free db =
    least (λ a b. text_lt a.prefix b.prefix) (select (λ a. is_free a.state) db.route_allocations)

reserve : Text → Db → Db
reserve prefix db = record db {
  route_allocations =
      update (λ a. text_eq a.prefix prefix && is_free a.state)
        (λ a. record a { state = AllocationState.allocated }) db.route_allocations;
}

unfoldable pub claim : Db → Allocation → Result Error (Db × Text)
unfolding reserve
claim db a = do
  guard (count (λ b. text_eq b.prefix a.prefix && is_free b.state) db.route_allocations == 1)
      pool_exhausted
  ok (reserve a.prefix db, a.prefix)

-- `allocatePrefixTx`, up to the parse of the prefix that it claimed.
unfoldable pub allocate_text : Db → Time → Result Error (Db × Text)
unfolding release_quarantined first_free claim
allocate_text db now = do
  free ← or_fail (first_free (release_quarantined db now)) pool_exhausted
  claim (release_quarantined db now) free

unfoldable pub allocate_prefix : Platform → Db → Time → Result Error (Db × Prefix)
unfolding allocate_text
allocate_prefix platform db now = do
  (db', text) ← allocate_text db now
  prefix ← or_fail (platform.parse_prefix text) parse
  ok (db', prefix)

-- The routes of a generation joined by commas.
join_from : Text → List Text → Text
join_from encoded [] = encoded
join_from encoded (route ∷ routes) = join_from (encoded ++ (b',' ∷ route)) routes

unfoldable pub join_routes : List Text → Text
unfolding join_from
join_routes [] = []
join_routes (route ∷ routes) = join_from route routes

unfoldable pub active_routes : Db → Time → List Text
active_routes db now =
    map (λ row. row.virtual_prefix)
      (order_by (λ a b. text_lt a.virtual_prefix b.virtual_prefix)
        (select (is_active_at now) db.registrations))

unfoldable pub next_generation_id : List Generation → ℕ
next_generation_id [] = 1
next_generation_id (g ∷ gs) =
    let rest = next_generation_id gs in if ltb g.id rest then rest else suc g.id

-- `createRouteGenerationTx`: the pending generations are superseded by one with the active routes.
unfoldable pub create_route_generation : Db → Time → Db
unfolding join_routes active_routes next_generation_id
create_route_generation db now = record db {
  route_generations =
      update (λ g. generation_is_pending g.state)
        (λ g. record g { state = GenerationState.superseded }) db.route_generations
      ++ record {
        id = next_generation_id db.route_generations;
        desired_routes = join_routes (active_routes db now);
        state = GenerationState.pending;
        created_at = now;
        applied_at = none;
        last_error = [];
      }
        ∷ [];
}

-- `CompleteRouteGeneration`: `failure` is the text of the reconciliation's error, if it has one.
unfoldable pub complete_route_generation : Db → Time → ℕ → Option Text → Db
complete_route_generation db now id none = record db {
  route_generations =
      update (λ g. g.id == id)
        (λ g. record g { state = GenerationState.applied; applied_at = some now; last_error = [] })
        db.route_generations;
}
complete_route_generation db now id (some message) = record db {
  route_generations =
      update (λ g. g.id == id)
        (λ g. record g { state = GenerationState.pending; last_error = message })
        db.route_generations;
}

-- `prefixesOverlap`.
unfoldable pub prefixes_overlap : Prefix → Prefix → Bool
prefixes_overlap left right = contains left right.addr || contains right left.addr

-- fd00::/8.
abbrev pub unique_local : Prefix
unique_local = record { addr = v6 (0xfd * 2 ^ 120) []; bits_plus_one = 9 }

is_canonical : Prefix → Bool
is_canonical network =
    is6 network.addr
    && not (ltb network.bits_plus_one 11)
    && not (ltb 17 network.bits_plus_one)
    && prefix_eq network (masked network)
    && contains unique_local network.addr

-- The /16 of a slot: `address[1] += byte(slot)` wraps at 256.
unfoldable pub slot_prefix : Prefix → ℕ → Prefix
slot_prefix network slot =
    let base = as16 network.addr in
    masked (record {
      addr = addr_from16 (set_byte base 1 ((byte_at base 1 + slot % 256) % 256));
      bits_plus_one = 17;
    })

-- `INSERT … ON CONFLICT(prefix) DO NOTHING`.
unfoldable pub add_free : Text → Db → Db
add_free text db =
    if exists (λ a. text_eq a.prefix text) db.route_allocations then db else record db {
      route_allocations =
          db.route_allocations
          ++ record {
            prefix = text;
            state = AllocationState.free;
            registration_id = none;
            quarantine_until = none;
          }
            ∷ [];
    }

module _ (platform : Platform) (network : Prefix) (excluded : List Prefix) where
  unfoldable pub add_slot : ℕ → Db → Db
  unfolding prefixes_overlap slot_prefix add_free
  add_slot slot db =
      if exists (prefixes_overlap (slot_prefix network slot)) excluded
      then db
      else add_free (platform.prefix_text (slot_prefix network slot)) db

  -- The loop over `range count`, from slot `slot` with `left` rounds to go.
  unfoldable pub add_slots : ℕ → ℕ → Db → Db
  unfolding add_slot
  add_slots zero slot db = db
  add_slots (suc left) slot db = add_slots left (suc slot) (add_slot slot db)

  -- `InitializePool`: `1 << (16 - network.Bits())` slots.
  unfoldable pub initialize_pool : Db → Db × Result Error (Unit {0})
  unfolding is_canonical add_slots
  initialize_pool db =
      if is_canonical network
      then (add_slots (2 ^ (17 - network.bits_plus_one)) 0 db, ok tt)
      else (db, err invalid)
