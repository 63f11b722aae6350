-- ===== src/Dnsproxy.antt =====
-- internal/dnsproxy/dnsproxy.go: the rewriting of DNS names and addresses between a connector and
-- the tailnet. The messages are those of the miekg/dns library; what the program passes on unread is
-- one opaque field. The library's functions are the parameters of `Library`.
pub mod Names
pub mod Records
pub mod Values
pub mod Tcp
pub mod Examples
use tailscale_railway_quic_b.Common.{
  ℕ, ◌-◌, ◌+◌, Bool, true, false, not, ◌&&◌, ◌||◌, List, [], ◌∷◌, ◌++◌, Option, none, some, Text,
  Bytes, codes, length, take, text_eq, to_lower, has_suffix, if◌then◌else◌, ltb, leb, ◌==◌, exists,
  select, Result, ok, err, ◌>>=◌, ◌>>◌, guard, or_fail, map, min,
}
use tailscale_railway_quic_b.Net.{
  Addr, v4, v6, Prefix, zero_addr, is6, as16, bits_are, masked, contains, byte_at, set_byte,
}

unfoldable pub railway_suffix : Text
railway_suffix = codes "railway.internal."

-- A net.IP by its length; `netip.AddrFromSlice` takes 4 or 16 bytes.
pub data Ip : Type 0 where
  ip4 ip16 : ℕ → Ip
  ip_other : Bytes → Ip

unfoldable pub addr_from_slice : Ip → Option Addr
addr_from_slice (ip4 a) = some (v4 a)
addr_from_slice (ip16 a) = some (v6 a [])
addr_from_slice (ip_other b) = none

-- dns.SVCBKeyValue, and what `Key()` is for each.
pub data SvcbValue : Type 0 where
  ipv4_hint ipv6_hint : List Ip → SvcbValue
  mandatory : List ℕ → SvcbValue
  other_value : ℕ → Bytes → SvcbValue

unfoldable pub svcb_key : SvcbValue → ℕ
svcb_key (mandatory ks) = 0
svcb_key (ipv4_hint hs) = 4
svcb_key (ipv6_hint hs) = 6
svcb_key (other_value k b) = k

pub data RecordData : Type 0 where
  a aaaa : Ip → RecordData
  cname dname mx ns ptr srv naptr : Text → RecordData
  soa : Text → Text → RecordData
  svcb https : Text → List SvcbValue → RecordData
  other_data : Bytes → RecordData

-- dns.RR; `rest` is what the program does not read: class, preferences, serial numbers.
pub record Rr : Type 0 where
  pub name : Text
  pub ttl : ℕ
  pub rest : Bytes
  pub data_of : RecordData

-- dns.Msg; a question is its name and its opaque type and class.
pub record Message : Type 0 where
  pub header : Bytes
  pub question : List (Text × Bytes)
  pub answer : List Rr
  pub authority : List Rr
  pub extra : List Rr

pub record Library : Type 0 where
  pub fqdn : Text → Text
  pub is_domain_name : Text → Bool
  pub trim_space : Text → Text
  pub pack : Message → Option Bytes
  pub unpack : Bytes → Option Message

-- `Rewriter`.
pub record Rewriter : Type 0 where
  pub real_prefix : Prefix
  pub virtual_prefix : Prefix
  pub suffix : Text

pub data Error : Type 0 where
  bad_real_prefix bad_virtual_prefix bad_suffix no_questions decode_failed pack_failed : Error
  outside_suffix : Text → Error

-- The four bytes replaced in an address of the real prefix.
unfoldable pub to_virtual : Rewriter → Addr → Ip
to_virtual r address =
    let virtual = as16 r.virtual_prefix.addr in
    ip16 (set_byte (set_byte (as16 address) 0 (byte_at virtual 0)) 1 (byte_at virtual 1))

-- The case of *dns.AAAA: any other address stays as it is.
unfoldable pub rewrite_ip : Rewriter → Ip → Ip
unfolding addr_from_slice to_virtual
rewrite_ip r ip = elim (addr_from_slice ip) [
  | none ↦ ip
  | some address ↦ if contains r.real_prefix address then to_virtual r address else ip
]

-- The addresses of an IPv6 hint: any other address goes.
unfoldable pub rewrite_hints : Rewriter → List Ip → List Ip
unfolding addr_from_slice to_virtual
rewrite_hints r [] = []
rewrite_hints r (ip ∷ ips) =
    let rest = rewrite_hints r ips in
    elim (addr_from_slice ip) [
      | none ↦ rest
      | some address ↦ if contains r.real_prefix address then to_virtual r address ∷ rest else rest
    ]

unfoldable pub keep_hint : List Ip → List SvcbValue → List SvcbValue
keep_hint [] rest = rest
keep_hint (ip ∷ ips) rest = ipv6_hint (ip ∷ ips) ∷ rest

-- The first loop of `rewriteSVCBValues`.
unfoldable pub drop_hints : Rewriter → List SvcbValue → List SvcbValue
unfolding keep_hint rewrite_hints
drop_hints r [] = []
drop_hints r (ipv4_hint hs ∷ vs) = drop_hints r vs
drop_hints r (ipv6_hint hs ∷ vs) = keep_hint (rewrite_hints r hs) (drop_hints r vs)
drop_hints r (mandatory ks ∷ vs) = mandatory ks ∷ drop_hints r vs
drop_hints r (other_value k b ∷ vs) = other_value k b ∷ drop_hints r vs

-- Whether `present` has the key.
unfoldable pub has_key : List SvcbValue → ℕ → Bool
unfolding svcb_key
has_key values code = exists (λ v. svcb_key v == code) values

unfoldable pub keep_mandatory : List ℕ → List SvcbValue → List SvcbValue
keep_mandatory [] rest = rest
keep_mandatory (c ∷ cs) rest = mandatory (c ∷ cs) ∷ rest

-- The last loop of `rewriteSVCBValues`, over the values whose keys are `present`.
unfoldable pub reconcile : List SvcbValue → List SvcbValue → List SvcbValue
unfolding keep_mandatory has_key
reconcile present [] = []
reconcile present (mandatory ks ∷ vs) =
    keep_mandatory (select (has_key present) ks) (reconcile present vs)
reconcile present (ipv4_hint hs ∷ vs) = ipv4_hint hs ∷ reconcile present vs
reconcile present (ipv6_hint hs ∷ vs) = ipv6_hint hs ∷ reconcile present vs
reconcile present (other_value k b ∷ vs) = other_value k b ∷ reconcile present vs

-- `rewriteSVCBValues`.
unfoldable pub rewrite_svcb_values : Rewriter → List SvcbValue → List SvcbValue
unfolding drop_hints reconcile
rewrite_svcb_values r values = reconcile (drop_hints r values) (drop_hints r values)

-- `_, remove := record.(*dns.A)`.
unfoldable pub is_a : RecordData → Bool
is_a (a ip) = true
is_a _ = false

module _ (library : Library) where
  open library use {fqdn, is_domain_name, trim_space, pack, unpack}

  -- `New`.
  unfoldable pub new_rewriter : Prefix → Prefix → Text → Result Error Rewriter
  new_rewriter real virtual raw = do
    guard (is6 (masked real).addr && bits_are (masked real) 16) bad_real_prefix
    guard (is6 (masked virtual).addr && bits_are (masked virtual) 16) bad_virtual_prefix
    let suffix = to_lower (fqdn (trim_space raw))
    guard
        (is_domain_name suffix
          && not (text_eq suffix railway_suffix)
          && has_suffix suffix (b'.' ∷ railway_suffix))
        bad_suffix
    ok (record { real_prefix = masked real; virtual_prefix = masked virtual; suffix = suffix })

  -- The tests of `replaceSuffix`, with its three normalized arguments.
  unfoldable pub replace_in : Text → Text → Text → Text × Bool
  replace_in name from to =
      if text_eq (to_lower name) from
      then (to, true)
      else if has_suffix (to_lower name) (b'.' ∷ from)
      then (take (length name - length from) name ++ to, true)
      else (name, false)

  -- `replaceSuffix`.
  unfoldable pub replace_suffix : Text → Text → Text → Text × Bool
  unfolding replace_in
  replace_suffix name from to = replace_in (fqdn name) (to_lower (fqdn from)) (fqdn to)

  -- `responseName`.
  unfoldable pub response_name : Rewriter → Text → Text
  unfolding replace_suffix
  response_name r name =
      let (result, replaced) = replace_suffix name railway_suffix r.suffix in
      if replaced then result else name

  -- `rewriteQuery`, on the questions.
  unfoldable pub rewrite_questions :
      Rewriter → List (Text × Bytes) → Result Error (List (Text × Bytes))
  unfolding replace_suffix
  rewrite_questions r [] = ok []
  rewrite_questions r ((name, kind) ∷ qs) = do
    let (replaced, inside) = replace_suffix name r.suffix railway_suffix
    guard inside (outside_suffix name)
    rest ← rewrite_questions r qs
    ok ((replaced, kind) ∷ rest)

  -- `rewriteQuery`.
  unfoldable pub rewrite_query : Rewriter → Message → Result Error Message
  unfolding rewrite_questions
  rewrite_query r message = do
    guard (not (length message.question == 0)) no_questions
    questions ← rewrite_questions r message.question
    ok (record message { question = questions })

  -- `rewriteRecord`.
  unfoldable pub rewrite_data : Rewriter → RecordData → RecordData
  unfolding rewrite_ip response_name rewrite_svcb_values
  rewrite_data r (a ip) = a ip
  rewrite_data r (aaaa ip) = aaaa (rewrite_ip r ip)
  rewrite_data r (cname t) = cname (response_name r t)
  rewrite_data r (dname t) = dname (response_name r t)
  rewrite_data r (mx t) = mx (response_name r t)
  rewrite_data r (ns t) = ns (response_name r t)
  rewrite_data r (ptr t) = ptr (response_name r t)
  rewrite_data r (soa t mbox) = soa (response_name r t) (response_name r mbox)
  rewrite_data r (srv t) = srv (response_name r t)
  rewrite_data r (naptr t) = naptr (response_name r t)
  rewrite_data r (svcb t vs) = svcb (response_name r t) (rewrite_svcb_values r vs)
  rewrite_data r (https t vs) = https (response_name r t) (rewrite_svcb_values r vs)
  rewrite_data r (other_data b) = other_data b

  -- A record that stays, in the loop of `rewriteRecords`.
  unfoldable pub rewrite_rr : Rewriter → Rr → Rr
  unfolding response_name rewrite_data
  rewrite_rr r record_ = record {
    name = response_name r record_.name;
    ttl = if ltb 60 record_.ttl then 60 else record_.ttl;
    rest = record_.rest;
    data_of = rewrite_data r record_.data_of;
  }

  -- `rewriteRecords`.
  unfoldable pub rewrite_records : Rewriter → List Rr → List Rr
  unfolding is_a rewrite_rr
  rewrite_records r [] = []
  rewrite_records r (x ∷ xs) =
      let rest = rewrite_records r xs in if is_a x.data_of then rest else rewrite_rr r x ∷ rest

  -- `rewriteResponse`.
  unfoldable pub rewrite_response : Rewriter → Message → Message
  unfolding response_name rewrite_records
  rewrite_response r message = record {
    header = message.header;
    question = map (λ (q : Text × Bytes). (response_name r q.0, q.1)) message.question;
    answer = rewrite_records r message.answer;
    authority = rewrite_records r message.authority;
    extra = rewrite_records r message.extra;
  }

  -- `Query`.
  unfoldable pub query : Rewriter → Bytes → Result Error Bytes
  unfolding rewrite_query
  query r payload = do
    message ← or_fail (unpack payload) decode_failed
    rewritten ← rewrite_query r message
    or_fail (pack rewritten) pack_failed

  -- `Response`.
  unfoldable pub response : Rewriter → Bytes → Result Error Bytes
  unfolding rewrite_response
  response r payload = do
    message ← or_fail (unpack payload) decode_failed
    or_fail (pack (rewrite_response r message)) pack_failed
