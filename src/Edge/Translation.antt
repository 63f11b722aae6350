-- ===== src/Edge/Translation.antt =====
-- internal/edge/translation.go: between the virtual prefix of a connector and its real prefix.
pub mod RoundTrip
use tailscale_railway_quic_b.Common.{ℕ, ◌&&◌, Result, ok, err, ◌>>=◌, ◌>>◌, guard}
use tailscale_railway_quic_b.Net.{
  Addr, AddrPort, Prefix, is6, unmap, as16, addr_from16, byte_at, set_byte, bits_are, masked,
  contains,
}

pub data Error : Type 0 where
  not_sixteen outside : Error

-- The body of `translateAddress`, after its three normalizations.
unfoldable pub translate_masked : Addr → Prefix → Prefix → Result Error Addr
translate_masked address from to = do
  guard (is6 address && is6 from.addr && is6 to.addr && bits_are from 16 && bits_are to 16)
      not_sixteen
  guard (contains from address) outside
  let prefix = as16 to.addr
  ok (addr_from16 (set_byte (set_byte (as16 address) 0 (byte_at prefix 0)) 1 (byte_at prefix 1)))

-- `translateAddress`.
unfoldable pub translate_address : Addr → Prefix → Prefix → Result Error Addr
unfolding translate_masked
translate_address address from to = translate_masked (unmap address) (masked from) (masked to)

-- `translateAddrPort`.
unfoldable pub translate_addr_port : AddrPort → Prefix → Prefix → Result Error AddrPort
unfolding translate_address
translate_addr_port address from to = do
  translated ← translate_address address.addr from to
  ok (record { addr = translated; port = address.port })
