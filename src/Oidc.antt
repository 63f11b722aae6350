-- ===== src/Oidc.antt =====
-- internal/oidc/validator.go: the tokens that approve a connector. base64, JSON, SHA-256, RSA and the
-- HTTP client are the parameters of `Library` and the answers of the key server; what the clock
-- says is the argument `Clock`. A time before 1970 counts as 1970. JSON's numbers are read as json.Number.
pub mod Keys
pub mod Tokens
pub mod Claims
pub mod Validity
pub mod Examples
use tailscale_railway_quic_b.Common.{
  ℕ, suc, ◌+◌, ◌*◌, Bool, true, false, not, ◌&&◌, ◌||◌, List, [], ◌∷◌, ◌++◌, Option, none, some,
  Text, Bytes, text_eq, length, if◌then◌else◌, ltb, leb, ◌==◌, exists, find, Result, ok, err, ◌>>=◌,
  ◌>>◌, guard,
}

-- A JSON value as the claims are read; of an array, its strings are.
pub data Json : Type 0 where
  text : Text → Json
  number : Text → Json
  items : List (Option Text) → Json
  other : Json

-- map[string]any: the first entry of a name counts.
abbrev pub Claims : Type 0
Claims = List (Text × Json)

pub record Library : Type 0 where
  pub decode_base64 : Text → Option Bytes
  pub decode_json : Text → Option Claims
  pub sha256 : Bytes → Bytes
  pub verify : Bytes × ℕ → Bytes → Bytes → Bool
  pub parse_int : Text → Option ℕ

-- `Policy`.
pub record Policy : Type 0 where
  pub id : Text
  pub issuer : Text
  pub audiences : List Text
  pub algorithms : List Text
  pub max_token_age : ℕ
  pub required_claims : List (Text × Text)
  pub one_of_claims : List (Text × List Text)
  pub project_id_claim : Text
  pub environment_claim : Text
  pub replay_claim : Text
  pub repository_id_claim : Text
  pub repository_claim : Text
  pub workflow_ref_claim : Text
  pub workflow_sha_claim : Text
  pub run_id_claim : Text
  pub run_attempt_claim : Text

-- `Request`.
pub record Request : Type 0 where
  pub project_id : Text
  pub environment_name : Text

-- `Identity`, without the claims themselves.
pub record Identity : Type 0 where
  pub provider_id : Text
  pub jti : Text
  pub expires_at : ℕ
  pub repository_id : Text
  pub repository : Text
  pub workflow_ref : Text
  pub workflow_sha : Text
  pub run_id : Text
  pub run_attempt : Text

-- slices.Contains.
unfoldable pub contains_text : List Text → Text → Bool
contains_text xs t = exists (λ x. text_eq x t) xs

unfoldable pub is_empty : Text → Bool
is_empty [] = true
is_empty (c ∷ t) = false

unfoldable pub claim : Claims → Text → Option Json
claim [] name = none
claim ((n, v) ∷ claims) name =
    let rest = claim claims name in if text_eq n name then some v else rest

-- `value, _ := claims[name].(string)`.
unfoldable pub text_or_empty : Option Json → Text
text_or_empty (some (text t)) = t
text_or_empty _ = []

unfoldable pub text_claim : Claims → Text → Text
unfolding claim text_or_empty
text_claim claims name = text_or_empty (claim claims name)

-- `stringClaim`.
unfoldable pub text_or_number : Option Json → Text
text_or_number (some (text t)) = t
text_or_number (some (number t)) = t
text_or_number _ = []

unfoldable pub string_claim : Claims → Text → Text
unfolding claim text_or_number is_empty
string_claim claims name = if is_empty name then [] else text_or_number (claim claims name)

unfoldable pub any_allowed : List Text → List (Option Text) → Bool
unfolding contains_text
any_allowed allowed [] = false
any_allowed allowed (none ∷ xs) = any_allowed allowed xs
any_allowed allowed (some t ∷ xs) =
    let rest = any_allowed allowed xs in if contains_text allowed t then true else rest

-- `matchesAudience`.
unfoldable pub matches_audience : Option Json → List Text → Bool
unfolding contains_text any_allowed
matches_audience (some (text t)) allowed = contains_text allowed t
matches_audience (some (items xs)) allowed = any_allowed allowed xs
matches_audience _ allowed = false

-- The text behind the last `@`, if there is one.
unfoldable pub after_at : Text → Option Text
after_at [] = none
after_at (c ∷ t) = elim (after_at t) [ some s ↦ some s | none ↦ if c == b'@' then some t else none ]

unfoldable pub is_text : Option Text → Text → Bool
is_text none t = false
is_text (some s) t = text_eq s t

-- `workflowSHAMatches`.
unfoldable pub workflow_sha_matches : Text → Text → Bool
unfolding after_at is_text
workflow_sha_matches reference sha = length sha == 40 && is_text (after_at reference) sha

-- strings.Split at a dot.
unfoldable pub split_dots : Text → List Text
split_dots [] = [] ∷ []
split_dots (c ∷ t) = elim (split_dots t) [
  | [] ↦ (c ∷ []) ∷ []
  | s ∷ rest ↦ if c == b'.' then [] ∷ s ∷ rest else (c ∷ s) ∷ rest
]
