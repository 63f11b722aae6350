-- ===== src/Net.antt =====
-- Go's net/netip as the program uses it: addresses, address and port pairs, prefixes.
-- An IPv6 address is its number below 2^128 and its zone; an IPv4 address its number below 2^32.
-- A prefix is its address and Go's `bitsPlusOne`, which is 0 for the zero Prefix.
pub mod Laws
pub mod Nesting
pub mod Overlaps
use tailscale_railway_quic_b.Common.{
  ℕ, ◌+◌, ◌-◌, ◌*◌, ◌/◌, ◌%◌, ◌^◌, Bool, true, false, not, ◌&&◌, ◌||◌, [], Text, text_eq, ◌==◌, ltb,
  leb, min, if◌then◌else◌,
}

pub data Addr : Type 0 where
  zero_addr : Addr
  v4 : ℕ → Addr
  v6 : ℕ → Text → Addr

pub record AddrPort : Type 0 where
  pub addr : Addr
  pub port : ℕ

pub record Prefix : Type 0 where
  pub addr : Addr
  pub bits_plus_one : ℕ

abbrev pub zero_prefix : Prefix
zero_prefix = record { addr = zero_addr; bits_plus_one = 0 }

abbrev pub zero_addr_port : AddrPort
zero_addr_port = record { addr = zero_addr; port = 0 }

-- `Bits() == n`.
abbrev pub bits_are : Prefix → ℕ → Bool
bits_are p n = p.bits_plus_one == n + 1

unfoldable pub is6 : Addr → Bool
is6 zero_addr = false
is6 (v4 a) = false
is6 (v6 a z) = true

unfoldable pub is_valid : Addr → Bool
is_valid zero_addr = false
is_valid (v4 a) = true
is_valid (v6 a z) = true

-- `Unmap` of an IPv4-mapped IPv6 address is the IPv4 address.
unfoldable pub unmap : Addr → Addr
unmap zero_addr = zero_addr
unmap (v4 a) = v4 a
unmap (v6 a z) = if a / 2 ^ 32 == 0xffff then v4 (a % 2 ^ 32) else v6 a z

-- `As16` as a number; the zone is lost, and an IPv4 address is mapped.
unfoldable pub as16 : Addr → ℕ
as16 zero_addr = 0
as16 (v4 a) = 0xffff * 2 ^ 32 + a
as16 (v6 a z) = a

-- `AddrFrom16`.
unfoldable pub addr_from16 : ℕ → Addr
addr_from16 a = v6 a []

-- Byte `i` of the 16, the first one on the left, and a write of it.
abbrev pub byte_at : ℕ → ℕ → ℕ
byte_at a i = a / 256 ^ (15 - i) % 256

abbrev pub set_byte : ℕ → ℕ → ℕ → ℕ
set_byte a i b = a - byte_at a i * 256 ^ (15 - i) + b * 256 ^ (15 - i)

-- Keep the first `b` of `w` bits.
abbrev pub mask : ℕ → ℕ → ℕ → ℕ
mask w b a = a / 2 ^ (w - b) * 2 ^ (w - b)

-- `Addr.Prefix(b)` with its error ignored, as `Prefix.Masked` does.
unfoldable pub masked_addr : Addr → ℕ → Prefix
masked_addr zero_addr b = zero_prefix
masked_addr (v4 a) b =
    if ltb 32 b then zero_prefix else record { addr = v4 (mask 32 b a); bits_plus_one = b + 1 }
masked_addr (v6 a z) b =
    if ltb 128 b then zero_prefix else record { addr = v6 (mask 128 b a) []; bits_plus_one = b + 1 }

unfoldable pub masked : Prefix → Prefix
unfolding masked_addr
masked p = if p.bits_plus_one == 0 then zero_prefix else masked_addr p.addr (p.bits_plus_one - 1)

unfoldable pub prefix_is_valid : Prefix → Bool
prefix_is_valid p = not (p.bits_plus_one == 0)

-- An address with a zone lies in no prefix, and the families must agree.
unfoldable pub contains_addr : Addr → ℕ → Addr → Bool
contains_addr (v4 p) b (v4 a) = p / 2 ^ (32 - b) == a / 2 ^ (32 - b)
contains_addr (v6 p pz) b (v6 a z) = text_eq z [] && p / 2 ^ (128 - b) == a / 2 ^ (128 - b)
contains_addr _ b _ = false

unfoldable pub contains : Prefix → Addr → Bool
unfolding contains_addr
contains p a = if p.bits_plus_one == 0 then false else contains_addr p.addr (p.bits_plus_one - 1) a

-- Go's `==`.
unfoldable pub addr_eq : Addr → Addr → Bool
addr_eq zero_addr zero_addr = true
addr_eq (v4 a) (v4 b) = a == b
addr_eq (v6 a z) (v6 b y) = a == b && text_eq z y
addr_eq _ _ = false

unfoldable pub addr_port_eq : AddrPort → AddrPort → Bool
addr_port_eq a b = addr_eq a.addr b.addr && a.port == b.port

unfoldable pub prefix_eq : Prefix → Prefix → Bool
prefix_eq p q = addr_eq p.addr q.addr && p.bits_plus_one == q.bits_plus_one

-- `AddrPort.IsValid`.
unfoldable pub addr_port_is_valid : AddrPort → Bool
addr_port_is_valid a = is_valid a.addr

unfoldable pub is4 : Addr → Bool
is4 (v4 a) = true
is4 _ = false

unfoldable pub bit_len : Addr → ℕ
bit_len zero_addr = 0
bit_len (v4 a) = 32
bit_len (v6 a z) = 128

unfoldable pub bool_eq : Bool → Bool → Bool
bool_eq true b = b
bool_eq false b = not b

-- The last two tests of `Prefix.Overlaps`, for the smaller number of bits: `Addr.Prefix` fails where
-- it has more bits than the family, and then there is no overlap.
unfoldable pub overlap_at : Addr → Addr → ℕ → Bool
unfolding masked_addr prefix_is_valid addr_eq
overlap_at a c b =
    if b == 0
    then true
    else prefix_is_valid (masked_addr a b)
      && prefix_is_valid (masked_addr c b)
      && addr_eq (masked_addr a b).addr (masked_addr c b).addr

-- `Prefix.Overlaps`.
unfoldable pub overlaps : Prefix → Prefix → Bool
unfolding overlap_at prefix_is_valid prefix_eq is4 bool_eq
overlaps p q =
    if not (prefix_is_valid p) || not (prefix_is_valid q)
    then false
    else if prefix_eq p q
    then true
    else if not (bool_eq (is4 p.addr) (is4 q.addr))
    then false
    else overlap_at p.addr q.addr (min (p.bits_plus_one - 1) (q.bits_plus_one - 1))
