-- ===== src/Config/Examples.antt =====
-- The configuration's theorems at concrete prefixes.
use tailscale_railway_quic_b.Common.{
  ◌+◌, ◌*◌, ◌^◌, ◌≡◌, refl, true, arith, [], ◌∷◌, Text, Option, some, ok, exists,
}
use tailscale_railway_quic_b.Net.{
  Addr, v4, Prefix, contains, contains_addr, masked, masked_addr, bit_len, prefix_eq, addr_eq,
}
use tailscale_railway_quic_b.Net.Nesting.{Fits}
use tailscale_railway_quic_b.Config.Prefixes.{
  allowed, covers, candidate_allows, accept_routes, validate_accepted_routes, intersect_prefixes,
}
use tailscale_railway_quic_b.Config.Prefixes.Sets.{WellFormed, allowed-intersect_prefixes}
use tailscale_railway_quic_b.Config.Prefixes.Accept.{Accepted, validate_accepted_routes-Accepted}

-- 10.0.0.0/8, 10.1.0.0/16 and 10.1.2.3.
abbrev wide : Prefix
wide = record { addr = v4 (10 * 2 ^ 24); bits_plus_one = 9 }

abbrev narrow : Prefix
narrow = record { addr = v4 (10 * 2 ^ 24 + 2 ^ 16); bits_plus_one = 17 }

abbrev inside : Addr
inside = v4 (167838211)

wide-WellFormed : WellFormed wide
unfolding Fits bit_len
wide-WellFormed = record { fits = omega arith; bits = omega arith }

narrow-WellFormed : WellFormed narrow
unfolding Fits bit_len
narrow-WellFormed = record { fits = omega arith; bits = omega arith }

allowed-intersect_prefixes_example :
    allowed (intersect_prefixes (wide ∷ []) (narrow ∷ [])) inside ≡ true
unfolding allowed exists contains contains_addr
allowed-intersect_prefixes_example =
    allowed-intersect_prefixes (wide ∷ []) (narrow ∷ []) inside (wide-WellFormed, tt)
      (narrow-WellFormed, tt)

-- Reading a prefix: one text is the narrow one.
abbrev read_prefix : Text → Option Prefix
read_prefix t = some narrow

accepted_one :
    validate_accepted_routes read_prefix (λ t. t) ((1 ∷ []) ∷ []) (wide ∷ []) ≡ ok (narrow ∷ [])
unfolding validate_accepted_routes accept_routes exists prefix_eq candidate_allows covers contains
    contains_addr masked masked_addr bit_len addr_eq
accepted_one = refl

validate_accepted_routes-Accepted_example : Accepted (wide ∷ []) (narrow ∷ [])
validate_accepted_routes-Accepted_example =
    validate_accepted_routes-Accepted read_prefix (λ t. t) (wide ∷ []) ((1 ∷ []) ∷ []) (narrow ∷ [])
      (wide-WellFormed, tt) accepted_one
