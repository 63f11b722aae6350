-- ===== src/Oidc/Validity.antt =====
-- internal/oidc/validator.go: what a token is that `Validate` accepts.
use tailscale_railway_quic_b.Common.{
  ℕ, ◌*◌, ◌<◌, ◌≤◌, ◌≡◌, refl, true, false, not, ◌&&◌, List, ◌∷◌, ◌++◌, Option, some, Text, Bytes,
  codes, ltb, Result, ok, err, or_fail, or_fail-eq-ok, arith, and_true, Ensures, done, failed,
  Ensures-any, Ensures-guard, subst, length,
}
use tailscale_railway_quic_b.Oidc.{
  Claims, Library, Policy, Request, Identity, contains_text, is_empty, text_claim, split_dots,
}
use tailscale_railway_quic_b.Oidc.Keys.{
  Cache, Jwk, RsaKey, KeyError, unknown_key, fetch_failed, key, Trusted, key-Trusted,
}
use tailscale_railway_quic_b.Oidc.Tokens.{
  Clock, Reason, request_binding, provider, format, header, algorithm, signature, claims_json,
  check_claims, check_signed, three_parts, policy_for, check_header, key_again, with_key,
  after_header, validate,
}
use tailscale_railway_quic_b.Oidc.Claims.{Claimed, Ensures-map, check_claims-Claimed}

-- The header of a token names the key and an algorithm of the policy.
pub record Header (library : Library) (policy : Policy) (head kid : Text) : Type 0 where
  pub fields : Claims
  pub decoded : library.decode_json head ≡ some fields
  pub named : text_claim fields (codes "kid") ≡ kid
  pub by_algorithm : contains_text policy.algorithms (text_claim fields (codes "alg")) ≡ true

-- The readings of the clock for the keys do not go back.
pub record IsOrdered (clock : Clock) : Type 0 where
  pub first_fetch : clock.first.asked ≤ clock.first.fetched
  pub calls : clock.first.asked ≤ clock.second.asked
  pub second_fetch : clock.second.asked ≤ clock.second.fetched

Trusted-earlier :
    (now later : ℕ) (cache : Cache) (policy : Policy) (kid : Text) (k : RsaKey)
    → now ≤ later
    → Trusted cache later policy kid k
    → Trusted cache now policy kid k
Trusted-earlier now later cache policy kid k le t = record {
  entry = t.entry;
  cached = t.cached;
  current = bring_forward t.entry.expires_at t.current;
  listed = t.listed;
}
  where
    bring_forward : (e : ℕ) → later < e → now < e
    bring_forward e h = omega arith

-- Why a token is accepted: a known provider's policy, three parts, a header that names a key of the policy that the cache
-- lists and that has not run out, the signature over the first two parts, and the claims of the second.
pub record Valid (library : Library) (policies : List Policy) (cache : Cache) (clock : Clock)
    (provider_id raw : Text) (request : Request) (identity : Identity) : Type 0 where
  pub policy : Policy
  pub head : Text
  pub body : Text
  pub sig : Text
  pub kid : Text
  pub key : RsaKey
  pub bytes : Bytes
  pub claims : Claims
  pub known : policy_for library policies provider_id ≡ some policy
  pub parts : three_parts library (split_dots raw) ≡ some (head, body, sig)
  pub headed : Header library policy head kid
  pub trusted : Trusted cache clock.first.asked policy kid key
  pub decoded_sig : library.decode_base64 sig ≡ some bytes
  pub signed : library.verify key (library.sha256 (head ++ b'.' ∷ body)) bytes ≡ true
  pub decoded : library.decode_json body ≡ some claims
  pub claimed : Claimed library policy request clock.checked claims identity

module _ (library : Library) (policies : List Policy) (provider_id raw : Text) (request : Request)
    (clock : Clock) where
  -- What the header's checks leave.
  record Headed (r : Policy × (Text × Text × Text) × Text) : Type 0 where
    known : policy_for library policies provider_id ≡ some r.0
    parts : three_parts library (split_dots raw) ≡ some r.1
    headed : Header library r.0 r.1.0 r.2

  check_header-Headed : Ensures Headed (check_header library policies provider_id raw request)
  unfolding check_header
  check_header-Headed =
      Ensures-guard (not (is_empty request.project_id) && not (is_empty request.environment_name))
        request_binding _
        λ a. Ensures-any (or_fail (policy_for library policies provider_id) provider) _ λ policy p.
          Ensures-any (or_fail (three_parts library (split_dots raw)) format) _ λ (p0, p1, p2) q.
            Ensures-guard (not (ltb (32 * 1024) (length raw))) format _ λ l.
              Ensures-any (or_fail (library.decode_json p0) header) _ λ head d.
                Ensures-guard
                  (not (is_empty (text_claim head (codes "kid")))
                    && contains_text policy.algorithms (text_claim head (codes "alg")))
                  algorithm _
                  λ g. done {a = (policy, (p0, p1, p2), text_claim head (codes "kid"))} (record {
                    known = or_fail-eq-ok _ provider p;
                    parts = or_fail-eq-ok _ format q;
                    headed = record {
                      fields = head;
                      decoded = or_fail-eq-ok _ header d;
                      named = refl;
                      by_algorithm =
                          (and_true {a = not (is_empty (text_claim head (codes "kid")))} g).1;
                    };
                  })

  key_again-Trusted :
      (policy : Policy) (kid : Text) (answer : Option (List Jwk × ℕ))
      (before : Cache × Result KeyError RsaKey) (cache : Cache) (k : RsaKey)
      → ((c : Cache) (j : RsaKey) → before ≡ (c, ok j) → Trusted c clock.first.asked policy kid j)
      → IsOrdered clock
      → key_again library clock.second policy kid answer before ≡ (cache, ok k)
      → Trusted cache clock.first.asked policy kid k
  unfolding key_again
  key_again-Trusted policy kid answer (c, ok j) cache k t o h = t cache k h
  key_again-Trusted policy kid answer (c, err unknown_key) cache k t o h =
      Trusted-earlier clock.first.asked clock.second.asked cache policy kid k o.calls
        (key-Trusted library c cache clock.second policy kid true answer k o.second_fetch h)
  key_again-Trusted policy kid answer (c, err fetch_failed) cache k t o h = t cache k h

  abbrev Accepts : Cache × Result Reason Identity → Type 0
  Accepts (c, err e) = Unit
  Accepts (c, ok identity) = Valid library policies c clock provider_id raw request identity

  check_signed-Valid :
      (policy : Policy) (p0 p1 p2 kid : Text) (cache : Cache) (k : RsaKey)
      → policy_for library policies provider_id ≡ some policy
      → three_parts library (split_dots raw) ≡ some (p0, p1, p2)
      → Header library policy p0 kid
      → Trusted cache clock.first.asked policy kid k
      → Ensures
          (Valid library policies cache clock provider_id raw request)
          (check_signed library policy request clock.checked p0 p1 p2 k)
  unfolding check_signed
  check_signed-Valid policy p0 p1 p2 kid cache k known parts headed trusted =
      Ensures-any (or_fail (library.decode_base64 p2) signature) _ λ bytes b.
        Ensures-guard (library.verify k (library.sha256 (p0 ++ b'.' ∷ p1)) bytes) signature _ λ v.
          Ensures-any (or_fail (library.decode_json p1) claims_json) _ λ claims c.
            Ensures-map (check_claims library policy request clock.checked claims)
              (check_claims-Claimed library policy request clock.checked claims)
              λ identity h. record {
                policy = policy;
                head = p0;
                body = p1;
                sig = p2;
                kid = kid;
                key = k;
                bytes = bytes;
                claims = claims;
                known = known;
                parts = parts;
                headed = headed;
                trusted = trusted;
                decoded_sig = or_fail-eq-ok _ signature b;
                signed = v;
                decoded = or_fail-eq-ok _ claims_json c;
                claimed = h;
              }

  with_key-Accepts :
      (policy : Policy) (p0 p1 p2 kid : Text) (r : Cache × Result KeyError RsaKey)
      → policy_for library policies provider_id ≡ some policy
      → three_parts library (split_dots raw) ≡ some (p0, p1, p2)
      → Header library policy p0 kid
      → ((c : Cache) (j : RsaKey) → r ≡ (c, ok j) → Trusted c clock.first.asked policy kid j)
      → Accepts (with_key library policy request clock.checked p0 p1 p2 r)
  unfolding with_key
  with_key-Accepts policy p0 p1 p2 kid (c, err e) known parts headed t = tt
  with_key-Accepts policy p0 p1 p2 kid (c, ok k) known parts headed t =
      accepted _ (check_signed-Valid policy p0 p1 p2 kid c k known parts headed (t c k refl))
    where
      accepted :
          (r : Result Reason Identity)
          → Ensures (Valid library policies c clock provider_id raw request) r
          → Accepts (c, r)
      accepted (ok i) (done v) = v
      accepted (err e) failed = tt

  after_header-Accepts :
      (cache : Cache) (answer again : Option (List Jwk × ℕ))
      (r : Result Reason (Policy × (Text × Text × Text) × Text))
      → IsOrdered clock
      → Ensures Headed r
      → Accepts (after_header library cache clock request answer again r)
  unfolding after_header
  after_header-Accepts cache answer again (err e) o h = tt
  after_header-Accepts cache answer again (ok (policy, (p0, p1, p2), kid)) o (done h) =
      with_key-Accepts policy p0 p1 p2 kid _ h.known h.parts h.headed λ c j e.
        key_again-Trusted policy kid again (key library cache clock.first policy kid false answer) c
          j
          (λ c' j' e'.
            key-Trusted library cache c' clock.first policy kid false answer j' o.first_fetch e')
          o e

  pub validate-Valid :
      (cache cache' : Cache) (answer again : Option (List Jwk × ℕ)) (identity : Identity)
      → IsOrdered clock
      → validate library policies cache clock provider_id raw request answer again
        ≡ (cache', ok identity)
      → Valid library policies cache' clock provider_id raw request identity
  unfolding validate
  validate-Valid cache cache' answer again identity o h =
      subst Accepts h (after_header-Accepts cache answer again _ o check_header-Headed)
