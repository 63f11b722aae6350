-- ===== src/Config/Prefixes.antt =====
-- internal/config/config.go: sets of prefixes (`Allowed`, `IntersectPrefixes`,
-- `ValidateAcceptedRoutes`).
pub mod Intersection
pub mod Sets
pub mod Accept
use tailscale_railway_quic_b.Common.{
  ℕ, Bool, true, false, not, ◌&&◌, ◌||◌, List, [], ◌∷◌, ◌++◌, Option, none, some, Result, ok, err,
  ◌>>=◌, ◌>>◌, guard, or_fail, if◌then◌else◌, select, exists, leb, ltb, ◌==◌, Text, length,
}
use tailscale_railway_quic_b.Net.{
  Addr, Prefix, contains, masked, overlaps, bit_len, prefix_eq, bits_are,
}

-- `Allowed`.
unfoldable pub allowed : List Prefix → Addr → Bool
allowed prefixes address = exists (λ p. contains p address) prefixes

-- `shorter.Bits() <= longer.Bits() && shorter.Contains(longer.Addr())`.
unfoldable pub covers : Prefix → Prefix → Bool
covers shorter longer =
    leb shorter.bits_plus_one longer.bits_plus_one && contains shorter longer.addr

-- The longer of two prefixes.
unfoldable pub intersection_of : Prefix → Prefix → Prefix
intersection_of left right = if ltb left.bits_plus_one right.bits_plus_one then right else left

-- `result` with `intersection` unless an entry covers it, and without the entries it covers.
unfoldable pub add_intersection : List Prefix → Prefix → List Prefix
unfolding covers
add_intersection result intersection =
    if exists (λ existing. covers existing intersection) result
    then result
    else select (λ e. not (covers intersection e)) result ++ intersection ∷ []

-- One round of the inner loop; both prefixes are masked.
unfoldable pub intersect_pair : List Prefix → Prefix → Prefix → List Prefix
unfolding add_intersection intersection_of
intersect_pair result left right =
    if not (bit_len left.addr == bit_len right.addr) || not (overlaps left right)
    then result
    else add_intersection result (intersection_of left right)

unfoldable pub intersect_left : List Prefix → Prefix → List Prefix → List Prefix
unfolding intersect_pair
intersect_left result left [] = result
intersect_left result left (right ∷ rights) =
    intersect_left (intersect_pair result left (masked right)) left rights

unfoldable pub intersect_all : List Prefix → List Prefix → List Prefix → List Prefix
unfolding intersect_left
intersect_all result [] second = result
intersect_all result (left ∷ lefts) second =
    intersect_all (intersect_left result (masked left) second) lefts second

-- `IntersectPrefixes`.
unfoldable pub intersect_prefixes : List Prefix → List Prefix → List Prefix
intersect_prefixes first second = intersect_all [] first second

pub data RouteError : Type 0 where
  no_routes : RouteError
  invalid_cidr : Text → RouteError
  repeated outside : Prefix → RouteError

-- `candidate` is masked.
unfoldable pub candidate_allows : Prefix → Prefix → Bool
unfolding covers
candidate_allows route candidate =
    bit_len candidate.addr == bit_len route.addr && covers candidate route

module _ (parse_prefix : Text → Option Prefix) (trim_space : Text → Text) where
  -- The loop of `ValidateAcceptedRoutes`; `seen` is the map's keys and `result` their order.
  unfoldable pub accept_routes :
      List Prefix → List Prefix → List Text → Result RouteError (List Prefix)
  unfolding candidate_allows
  accept_routes permitted result [] = ok result
  accept_routes permitted result (raw ∷ rest) = do
    parsed ← or_fail (parse_prefix (trim_space raw)) (invalid_cidr raw)
    let route = masked parsed
    guard (not (exists (prefix_eq route) result)) (repeated route)
    guard (exists (λ c. candidate_allows route (masked c)) permitted) (outside route)
    accept_routes permitted (result ++ route ∷ []) rest

  -- `ValidateAcceptedRoutes`.
  unfoldable pub validate_accepted_routes :
      List Text → List Prefix → Result RouteError (List Prefix)
  unfolding accept_routes
  validate_accepted_routes [] permitted = err no_routes
  validate_accepted_routes (raw ∷ rest) permitted = accept_routes permitted [] (raw ∷ rest)
