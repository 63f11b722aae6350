-- ===== src/Dnsproxy/Examples.antt =====
-- The DNS proxy's theorems at a concrete rewriter.
use tailscale_railway_quic_b.Common.{
  Bytes, ℕ, ◌+◌, ◌*◌, ◌^◌, ◌≡◌, refl, true, arith, [], ◌∷◌, Text, some, ok, All, codes, to_lower,
  lower_byte, text_eq, has_suffix,
}
use tailscale_railway_quic_b.Net.{
  v6, Prefix, masked, masked_addr, is6, contains, contains_addr, as16,
}
use tailscale_railway_quic_b.Protocol.Examples.{pipe}
use tailscale_railway_quic_b.Edge.Translation.{translate_addr_port}
use tailscale_railway_quic_b.Edge.Translation.RoundTrip.{IsAddr}
use tailscale_railway_quic_b.Dnsproxy.{
  Library, Rewriter, Message, ipv4_hint, mandatory, other_value, svcb, a, ip4, ip16, railway_suffix,
  new_rewriter, replace_suffix, replace_in, response_name, rewrite_ip, rewrite_response,
  rewrite_query, rewrite_questions,
}
use tailscale_railway_quic_b.Dnsproxy.Names.{KeepsRailway, response_name-replace_suffix}
use tailscale_railway_quic_b.Dnsproxy.Records.{
  Served, rewrite_ip-translate_addr_port, rewrite_response-Served,
}
use tailscale_railway_quic_b.Dnsproxy.Tcp.{
  io, from_io, from_rewriting, tcp_size, read_tcp_message, next_payload, then_write,
  write_tcp_message, forward, forward_queries,
}
use tailscale_railway_quic_b.Streams.{eof, write_loop, write_all, read_full}
use tailscale_railway_quic_b.Dnsproxy.Tcp.Transfers.{Transferred, forward_queries-Transferred}

abbrev network : ℕ → Prefix
network first = record { addr = v6 (first * 2 ^ 112) []; bits_plus_one = 17 }

abbrev pub empty_message : Message
empty_message = record { header = []; question = []; answer = []; authority = []; extra = [] }

-- Names that are all fully qualified already.
abbrev pub library : Library
library = record {
  fqdn = λ t. t;
  is_domain_name = λ t. true;
  trim_space = λ t. t;
  pack = λ m. some (1 ∷ []);
  unpack = λ b. some empty_message;
}

keeps : KeepsRailway library
keeps s = refl

abbrev suffix : Text
suffix = codes "x.railway.internal."

abbrev rewriter : Rewriter
rewriter = record { real_prefix = network 0xfd12; virtual_prefix = network 0xfd21; suffix = suffix }

made : new_rewriter library (network 0xfd12) (network 0xfd21) suffix ≡ ok rewriter
unfolding new_rewriter masked masked_addr is6 to_lower lower_byte text_eq railway_suffix has_suffix
made = refl

abbrev asked : Text
asked = codes "A.x.railway.internal."

replaced : replace_suffix library asked suffix railway_suffix ≡ (codes "A.railway.internal.", true)
unfolding replace_suffix replace_in to_lower lower_byte text_eq railway_suffix has_suffix
replaced = refl

response_name-replace_suffix_example :
    to_lower (response_name library rewriter (codes "A.railway.internal.")) ≡ to_lower asked
response_name-replace_suffix_example =
    response_name-replace_suffix library keeps (network 0xfd12) (network 0xfd21) suffix rewriter
      made asked (codes "A.railway.internal.") replaced

rewrite_ip-translate_addr_port_example :
    (v : ℕ) × (rewrite_ip rewriter (ip16 (0xfd12 * 2 ^ 112 + 5)) ≡ ip16 v)
    × (translate_addr_port (record { addr = v6 v []; port = 80 }) (network 0xfd21) (network 0xfd12)
        ≡ ok (record { addr = v6 (0xfd12 * 2 ^ 112 + 5) []; port = 80 }))
unfolding IsAddr contains contains_addr as16 text_eq
rewrite_ip-translate_addr_port_example =
    rewrite_ip-translate_addr_port library (network 0xfd12) (network 0xfd21) suffix rewriter
      (0xfd12 * 2 ^ 112 + 5) 80 made (omega arith) (omega arith) (omega arith) (λ e. omega arith)
      refl refl

abbrev answers : Message
answers = record empty_message {
  answer =
      record { name = []; ttl = 300; rest = []; data_of = a (ip4 1) }
      ∷ record {
        name = [];
        ttl = 300;
        rest = [];
        data_of = svcb [] (mandatory (4 ∷ 9 ∷ []) ∷ ipv4_hint (ip4 1 ∷ []) ∷ other_value 9 [] ∷ []);
      }
      ∷ [];
}

rewrite_response-Served_example :
    All Served (rewrite_response library rewriter answers).answer
    × All Served (rewrite_response library rewriter answers).authority
    × All Served (rewrite_response library rewriter answers).extra
rewrite_response-Served_example = rewrite_response-Served library rewriter answers

-- Every message is a query for the name above.
abbrev asking : Library
asking = record library {
  unpack = λ b. some (record empty_message { question = (asked, []) ∷ [] });
}

-- Two messages of a byte each, and the front of a third one.
abbrev stream : Bytes
stream = 0 ∷ 1 ∷ 7 ∷ 0 ∷ 1 ∷ 8 ∷ 0 ∷ []

forward_queries-Transferred_example :
    Transferred asking
      (rewrite_query asking rewriter)
      pipe
      []
      stream
      0
      (forward_queries asking pipe rewriter [] stream)
forward_queries-Transferred_example = forward_queries-Transferred asking pipe rewriter [] stream

-- Both queries are handed on.
two_forwarded :
    forward_queries asking pipe rewriter [] stream ≡ some (0 ∷ 1 ∷ 1 ∷ 0 ∷ 1 ∷ 1 ∷ [], 6, io eof)
unfolding forward_queries forward next_payload read_tcp_message from_io from_rewriting tcp_size
    write_tcp_message then_write write_all write_loop read_full rewrite_query rewrite_questions
    replace_suffix replace_in to_lower lower_byte text_eq railway_suffix has_suffix
two_forwarded = refl
