-- ===== src/Net/Laws.antt =====
-- Equality of addresses and prefixes, and bytes of a 128-bit address.
use tailscale_railway_quic_b.Common.{
  ℕ, ◌+◌, ◌*◌, ◌/◌, ◌%◌, ◌^◌, ◌<◌, ◌≡◌, ◌↔◌, refl, true, arith, text_eq_iff,
}
use tailscale_railway_quic_b.Net.{
  Addr, zero_addr, v4, v6, AddrPort, Prefix, addr_eq, addr_port_eq, prefix_eq, byte_at, set_byte,
}

pub addr_eq→eq : (a b : Addr) → addr_eq a b ≡ true → a ≡ b
unfolding addr_eq
addr_eq→eq zero_addr zero_addr h = refl
addr_eq→eq (v4 a) (v4 b) h = ground arith
addr_eq→eq (v6 a z) (v6 b y) h = ground (arith, text_eq_iff z y)
addr_eq→eq _ _ h = cc

pub addr_eq_refl : (a : Addr) → addr_eq a a ≡ true
unfolding addr_eq
addr_eq_refl zero_addr = refl
addr_eq_refl (v4 a) = ground arith
addr_eq_refl (v6 a z) = ground (arith, text_eq_iff z z)

pub addr_eq_iff : (a b : Addr) → (addr_eq a b ≡ true) ↔ (a ≡ b)
addr_eq_iff a b = (addr_eq→eq a b, λ e. rw e (addr_eq_refl b))

pub addr_port_eq_iff : (a b : AddrPort) → (addr_port_eq a b ≡ true) ↔ (a ≡ b)
unfolding addr_port_eq
addr_port_eq_iff a b = ground (arith, addr_eq_iff a.addr b.addr)

pub prefix_eq_iff : (p q : Prefix) → (prefix_eq p q ≡ true) ↔ (p ≡ q)
unfolding prefix_eq
prefix_eq_iff p q = ground (arith, addr_eq_iff p.addr q.addr)

-- The first two bytes replaced: the network part moves and the other 112 bits stay.
pub set_front :
    (a p : ℕ)
    → a < 2 ^ 128
    → p < 2 ^ 128
    → set_byte (set_byte a 0 (byte_at p 0)) 1 (byte_at p 1) ≡ p / 2 ^ 112 * 2 ^ 112 + a % 2 ^ 112
set_front a p ha hp = omega arith
