-- ===== src/Dnsproxy/Records.antt =====
-- internal/dnsproxy/dnsproxy.go: the addresses that a client of the tailnet is given, and the way back
-- through the edge's translation.
use tailscale_railway_quic_b.Common.{
  ℕ, ◌/◌, ◌^◌, ◌<◌, ◌≤◌, ◌≡◌, ◌≢◌, refl, ◌∙◌, true, false, List, [], ◌∷◌, Text, ok, ◌==◌, arith,
  Bool-cases, inl, inr, and_true, All,
}
use tailscale_railway_quic_b.Net.{
  v6, Prefix, is6, masked, contains, unmap, as16, addr_from16, byte_at, set_byte,
}
use tailscale_railway_quic_b.Edge.Translation.{
  translate_addr_port, translate_address, translate_masked,
}
use tailscale_railway_quic_b.Edge.Translation.RoundTrip.{IsAddr, translate_addr_port-back}
use tailscale_railway_quic_b.Dnsproxy.{
  Library, Rewriter, SvcbValue, RecordData, a, aaaa, cname, dname, mx, ns, ptr, srv, naptr, soa,
  svcb, https, other_data, rewrite_data, ip16, Rr, Message, addr_from_slice, to_virtual, rewrite_ip,
  new_rewriter, is_a, rewrite_rr, rewrite_records, rewrite_response,
}
use tailscale_railway_quic_b.Dnsproxy.Values.{ValueServed, rewrite_svcb_values-ValueServed}
use tailscale_railway_quic_b.Dnsproxy.Names.{IsRewriter, new_rewriter-IsRewriter}

module _ {real virtual : Prefix} (r : Rewriter) (w : IsRewriter real virtual r) where
  -- The number of the address that an AAAA record shows in place of `n`.
  abbrev shown : ℕ → ℕ
  shown n =
      set_byte (set_byte n 0 (byte_at (as16 r.virtual_prefix.addr) 0)) 1
        (byte_at (as16 r.virtual_prefix.addr) 1)

  rewrite_ip-shown :
      (n : ℕ) → contains r.real_prefix (v6 n []) ≡ true → rewrite_ip r (ip16 n) ≡ ip16 (shown n)
  unfolding rewrite_ip addr_from_slice to_virtual as16
  rewrite_ip-shown n h = rw h refl

  translate-shown :
      (n port : ℕ)
      → contains r.real_prefix (v6 n []) ≡ true
      → (n / 2 ^ 32 == 0xffff) ≡ false
      → translate_addr_port (record { addr = v6 n []; port = port }) real virtual
        ≡ ok (record { addr = v6 (shown n) []; port = port })
  unfolding translate_addr_port translate_address translate_masked unmap is6 as16 addr_from16
  translate-shown n port h plain =
      let (r6, r16) = and_true {a = is6 (masked real).addr} w.real_sixteen in
      let (v6', v16) = and_true {a = is6 (masked virtual).addr} w.virtual_sixteen in
      let inside : contains (masked real) (v6 n []) ≡ true = rw w.real_masked at h in
      rw (plain, w.virtual_masked) (rw (r6, v6', r16, v16) (rw inside refl))

-- What a client of the tailnet is given for an address of the service's network leads back to it: an
-- AAAA record of an address in the real prefix is rewritten to an address that the edge translates,
-- with any port, to the one of the record. The rewriter is one that `New` returned for the same two
-- prefixes; the record's address is no IPv4-mapped one, and the virtual prefix is not the one whose
-- sixteen bits are all zero, which holds those.
pub rewrite_ip-translate_addr_port :
    (library : Library) (real virtual : Prefix) (raw : Text) (r : Rewriter) (n port : ℕ)
    → new_rewriter library real virtual raw ≡ ok r
    → n < 2 ^ 128
    → IsAddr real.addr
    → IsAddr virtual.addr
    → as16 virtual.addr / 2 ^ 112 ≢ 0
    → contains r.real_prefix (v6 n []) ≡ true
    → (n / 2 ^ 32 == 0xffff) ≡ false
    → (v : ℕ) × (rewrite_ip r (ip16 n) ≡ ip16 v)
      × (translate_addr_port (record { addr = v6 v []; port = port }) virtual real
          ≡ ok (record { addr = v6 n []; port = port }))
unfolding IsAddr
rewrite_ip-translate_addr_port library real virtual raw r n port made hn hr hv nz h plain =
    let w = new_rewriter-IsRewriter library real virtual raw r made in
    (
      shown r w n,
      rewrite_ip-shown r w n h,
      translate_addr_port-back (record { addr = v6 n []; port = port })
          (record { addr = v6 (shown r w n) []; port = port }) real virtual hn hr hv nz
          (translate-shown r w n port h plain),
    )

-- The service binding values of a record.
unfoldable pub values_of : RecordData → List SvcbValue
values_of (svcb t vs) = vs
values_of (https t vs) = vs
values_of _ = []

-- A record that a client may be given: no IPv4 address, kept for a minute at most, with consistent
-- service binding values.
pub record Served (x : Rr) : Type 0 where
  pub no_ipv4 : is_a x.data_of ≡ false
  pub short : x.ttl ≤ 60
  pub bindings : All (ValueServed (values_of x.data_of)) (values_of x.data_of)

module _ (library : Library) (r : Rewriter) where
  is_a-rewrite_data : (d : RecordData) → is_a (rewrite_data library r d) ≡ is_a d
  unfolding rewrite_data is_a
  is_a-rewrite_data (a ip) = refl
  is_a-rewrite_data (aaaa ip) = refl
  is_a-rewrite_data (cname t) = refl
  is_a-rewrite_data (dname t) = refl
  is_a-rewrite_data (mx t) = refl
  is_a-rewrite_data (ns t) = refl
  is_a-rewrite_data (ptr t) = refl
  is_a-rewrite_data (srv t) = refl
  is_a-rewrite_data (naptr t) = refl
  is_a-rewrite_data (soa t m) = refl
  is_a-rewrite_data (svcb t vs) = refl
  is_a-rewrite_data (https t vs) = refl
  is_a-rewrite_data (other_data b) = refl

  rewrite_data-ValueServed :
      (d : RecordData)
      → All
          (ValueServed (values_of (rewrite_data library r d)))
          (values_of (rewrite_data library r d))
  unfolding rewrite_data values_of
  rewrite_data-ValueServed (svcb t vs) = rewrite_svcb_values-ValueServed r vs
  rewrite_data-ValueServed (https t vs) = rewrite_svcb_values-ValueServed r vs
  rewrite_data-ValueServed _ = tt

  rewrite_rr-Served : (x : Rr) → is_a x.data_of ≡ false → Served (rewrite_rr library r x)
  unfolding rewrite_rr
  rewrite_rr-Served x e = record {
    no_ipv4 = is_a-rewrite_data x.data_of ∙ e;
    short = ground arith;
    bindings = rewrite_data-ValueServed x.data_of;
  }

  rewrite_records-Served : (xs : List Rr) → All Served (rewrite_records library r xs)
  unfolding rewrite_records
  rewrite_records-Served [] = tt
  rewrite_records-Served (x ∷ xs) = elim (Bool-cases (is_a x.data_of)) [
    | inl e ↦ rw e (rewrite_records-Served xs)
    | inr e ↦ rw e (rewrite_rr-Served x e, rewrite_records-Served xs)
  ]

  -- A response that is passed on has in none of its sections an IPv4 address record, a record that
  -- may be kept for more than a minute, or inconsistent service binding values.
  pub rewrite_response-Served :
      (m : Message)
      → All Served (rewrite_response library r m).answer
        × All Served (rewrite_response library r m).authority
        × All Served (rewrite_response library r m).extra
  unfolding rewrite_response
  rewrite_response-Served m = (
    rewrite_records-Served m.answer,
    rewrite_records-Served m.authority,
    rewrite_records-Served m.extra,
  )
