-- ===== src/Oidc/Keys.antt =====
-- internal/oidc/validator.go: the keys of a provider, `fetchKeys`, `rsaKey` and the cache of `key`.
-- What the key server answers is an argument: the document's keys and the header's max-age, which
-- cacheMaxAge reads. Calls that wait for one fetch together count as one after the other.
use tailscale_railway_quic_b.Common.{
  ℕ, ◌+◌, ◌*◌, ◌<◌, ◌≤◌, ◌≡◌, refl, Bool, not, ◌&&◌, ◌||◌, List, [], ◌∷◌, Option, none, some, Text,
  Bytes, text_eq, codes, length, if◌then◌else◌, ltb, ◌==◌, Result, ok, err, or_fail, arith,
  if_cases, text_eq_refl, subst,
}
use tailscale_railway_quic_b.Oidc.{Library, Policy, is_empty}

-- rsa.PublicKey: the modulus and the exponent.
abbrev pub RsaKey : Type 0
RsaKey = Bytes × ℕ

-- `jwk`.
pub record Jwk : Type 0 where
  pub kid : Text
  pub kty : Text
  pub use_for : Text
  pub alg : Text
  pub n : Text
  pub e : Text

abbrev pub KeyMap : Type 0
KeyMap = List (Text × RsaKey)

-- `cachedKeys`; a missing entry of the cache is the zero value, which has no map.
pub record CachedKeys : Type 0 where
  pub by_id : KeyMap
  pub expires_at : ℕ
  pub fetched_at : ℕ

-- `keys`, a map by the policy's id: the first entry counts.
abbrev pub Cache : Type 0
Cache = List (Text × CachedKeys)

pub data KeyError : Type 0 where
  unknown_key fetch_failed : KeyError

abbrev pub hour : ℕ
hour = 3600000000000

abbrev pub minute : ℕ
minute = 60000000000

unfoldable pub lookup {ℓ} : {A : Type ℓ} → List (Text × A) → Text → Option A
lookup [] k = none
lookup ((n, v) ∷ xs) k = let rest = lookup xs k in if text_eq n k then some v else rest

-- The exponent's bytes, most significant first.
unfoldable pub exponent_from : ℕ → Bytes → ℕ
exponent_from e [] = e
exponent_from e (b ∷ bs) = exponent_from (e * 256 + b) bs

-- `rsaKey` with its two numbers decoded.
unfoldable pub key_of : Option Bytes → Option Bytes → Option RsaKey
unfolding exponent_from
key_of none exponent = none
key_of (some m) none = none
key_of (some m) (some e) =
    if ltb (length m) 256 || length e == 0 || ltb 4 (length e) || ltb (exponent_from 0 e) 3
    then none
    else some (m, exponent_from 0 e)

-- The clock as one call of `key` reads it: under the mutex, and in `fetchKeys` if that is called.
pub record Readings : Type 0 where
  pub asked : ℕ
  pub fetched : ℕ

module _ (library : Library) where
  open library use {decode_base64}

  -- `rsaKey`.
  unfoldable pub rsa_key : Jwk → Option RsaKey
  unfolding key_of
  rsa_key candidate = key_of (decode_base64 candidate.n) (decode_base64 candidate.e)

  unfoldable pub is_signing_key : Jwk → Bool
  is_signing_key c =
      not (is_empty c.kid)
      && text_eq c.kty (codes "RSA")
      && text_eq c.use_for (codes "sig")
      && text_eq c.alg (codes "RS256")

  unfoldable pub put_key : Text → Option RsaKey → KeyMap → KeyMap
  put_key kid none keys = keys
  put_key kid (some k) keys = (kid, k) ∷ keys

  -- The loop of `fetchKeys`: a later key replaces an earlier one of its id.
  unfoldable pub collect_keys : KeyMap → List Jwk → KeyMap
  unfolding is_signing_key put_key rsa_key
  collect_keys keys [] = keys
  collect_keys keys (c ∷ cs) =
      collect_keys (if is_signing_key c then put_key c.kid (rsa_key c) keys else keys) cs

  -- `fetchKeys`, for the answer of the key server.
  unfoldable pub fetch_keys : ℕ → Option (List Jwk × ℕ) → Option CachedKeys
  unfolding collect_keys
  fetch_keys now none = none
  fetch_keys now (some (document, max_age)) = some (record {
    by_id = collect_keys [] document;
    expires_at = now + (if max_age == 0 || ltb hour max_age then hour else max_age);
    fetched_at = now;
  })

  -- The end of `key`: what was fetched goes into the cache.
  unfoldable pub key_fetched :
      Cache → Policy → Text → Option CachedKeys → Cache × Result KeyError RsaKey
  unfolding lookup
  key_fetched cache policy kid none = (cache, err fetch_failed)
  key_fetched cache policy kid (some fetched) =
      ((policy.id, fetched) ∷ cache, or_fail (lookup fetched.by_id kid) unknown_key)

  -- `key` with the entry that the cache has for the policy.
  unfoldable pub key_cached :
      Cache
      → Readings
      → Policy
      → Text
      → Bool
      → Option (List Jwk × ℕ)
      → Option CachedKeys
      → Cache × Result KeyError RsaKey
  unfolding key_fetched fetch_keys lookup
  key_cached cache t policy kid force answer none =
      key_fetched cache policy kid (fetch_keys t.fetched answer)
  key_cached cache t policy kid force answer (some cached) =
      if ltb t.asked cached.expires_at && not force
      then (cache, or_fail (lookup cached.by_id kid) unknown_key)
      else if force && ltb t.asked (cached.fetched_at + minute)
      then (cache, err unknown_key)
      else key_fetched cache policy kid (fetch_keys t.fetched answer)

  -- `key`.
  unfoldable pub key :
      Cache
      → Readings
      → Policy
      → Text
      → Bool
      → Option (List Jwk × ℕ)
      → Cache × Result KeyError RsaKey
  unfolding key_cached lookup
  key cache t policy kid force answer =
      key_cached cache t policy kid force answer (lookup cache policy.id)

-- A key that may be trusted now: the cache's current entry of the policy has it.
pub record Trusted (cache : Cache) (now : ℕ) (policy : Policy) (kid : Text) (k : RsaKey)
    : Type 0 where
  pub entry : CachedKeys
  pub cached : lookup cache policy.id ≡ some entry
  pub current : now < entry.expires_at
  pub listed : lookup entry.by_id kid ≡ some k

abbrev KeyTrusted : ℕ → Policy → Text → Cache × Result KeyError RsaKey → Type 0
KeyTrusted now policy kid (cache, err e) = Unit
KeyTrusted now policy kid (cache, ok k) = Trusted cache now policy kid k

lookup_first : (id : Text) (v : CachedKeys) (c : Cache) → lookup ((id, v) ∷ c) id ≡ some v
unfolding lookup
lookup_first id v c = rw (text_eq_refl id) refl

found-KeyTrusted :
    (cache : Cache) (now : ℕ) (policy : Policy) (kid : Text) (entry : CachedKeys)
    (o : Option RsaKey)
    → lookup cache policy.id ≡ some entry
    → now < entry.expires_at
    → lookup entry.by_id kid ≡ o
    → KeyTrusted now policy kid (cache, or_fail o unknown_key)
found-KeyTrusted cache now policy kid entry none c h e = tt
found-KeyTrusted cache now policy kid entry (some k) c h e = record {
  entry = entry;
  cached = c;
  current = h;
  listed = e;
}

later_age :
    (asked fetched age : ℕ)
    → asked ≤ fetched
    → asked < fetched + (if age == 0 || ltb hour age then hour else age)
later_age asked fetched age le = ground arith

module _ (library : Library) where
  key_fetched-KeyTrusted :
      (cache : Cache) (t : Readings) (policy : Policy) (kid : Text) (answer : Option (List Jwk × ℕ))
      → t.asked ≤ t.fetched
      → KeyTrusted t.asked policy kid
          (key_fetched library cache policy kid (fetch_keys library t.fetched answer))
  unfolding key_fetched fetch_keys
  key_fetched-KeyTrusted cache t policy kid none le = tt
  key_fetched-KeyTrusted cache t policy kid (some (document, max_age)) le =
      found-KeyTrusted _ t.asked policy kid _ _ (lookup_first policy.id _ cache) lasts refl
    where
      lasts : t.asked < t.fetched + (if max_age == 0 || ltb hour max_age then hour else max_age)
      lasts = later_age t.asked t.fetched max_age le

  key_cached-KeyTrusted :
      (cache : Cache) (t : Readings) (policy : Policy) (kid : Text) (force : Bool)
      (answer : Option (List Jwk × ℕ)) (entry : Option CachedKeys)
      → t.asked ≤ t.fetched
      → lookup cache policy.id ≡ entry
      → KeyTrusted t.asked policy kid (key_cached library cache t policy kid force answer entry)
  unfolding key_cached
  key_cached-KeyTrusted cache t policy kid force answer none le e =
      key_fetched-KeyTrusted cache t policy kid answer le
  key_cached-KeyTrusted cache t policy kid force answer (some cached) le e =
      if_cases (KeyTrusted t.asked policy kid) (ltb t.asked cached.expires_at && not force) _ _
        (λ b. found-KeyTrusted cache t.asked policy kid cached _ e (ground arith) refl)
        λ b.
          if_cases (KeyTrusted t.asked policy kid)
            (force && ltb t.asked (cached.fetched_at + minute)) _ _ (λ c. tt)
            λ c. key_fetched-KeyTrusted cache t policy kid answer le

  -- A key that `key` returns is listed, after the call, in an entry of the cache for its policy that
  -- had not run out when the call began, whatever the key server answers. A fetch reads the clock no
  -- earlier than that.
  pub key-Trusted :
      (cache cache' : Cache) (t : Readings) (policy : Policy) (kid : Text) (force : Bool)
      (answer : Option (List Jwk × ℕ)) (k : RsaKey)
      → t.asked ≤ t.fetched
      → key library cache t policy kid force answer ≡ (cache', ok k)
      → Trusted cache' t.asked policy kid k
  unfolding key
  key-Trusted cache cache' t policy kid force answer k le h =
      subst (KeyTrusted t.asked policy kid) h
        (key_cached-KeyTrusted cache t policy kid force answer (lookup cache policy.id) le refl)
