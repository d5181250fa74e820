-- ===== src/Auth/Claims.antt =====
-- The claims of jwt_jwks.go. Claims are a decoded JSON object. An instant is in nanoseconds from the
-- year 1, Go's zero time; one before it is the zero time, and the clock reads later ones.
use mcp_swagger.Prelude.{
  ◌-◌, ◌+◌, ℕ, ◌*◌, Bool, true, false, not, ◌&&◌, ◌||◌, Option, none, some, List, [], ◌∷◌, ◌++◌,
  ltb, any, ℤ, pos, negsuc, Result, ok, err, if◌then◌else◌,
}
use mcp_swagger.Text.{Text, codes, text_eq, is_empty, trim_space, member}
use mcp_swagger.Float.{int64_bound, int64_of}
use mcp_swagger.Value.{Value, strings, num, str, arr, Fields, find_field}
use mcp_swagger.Contract.Schema.{to_list, unique_strings}
use mcp_swagger.Input.Values.{Numbers, map_value, split_fields}

abbrev pub Instant : Type 0
Instant = ℕ

-- UnauthorizedError and ForbiddenError
pub data AuthError : Type 0 where
  unauthorized forbidden : AuthError

pub record Principal : Type 0 where
  pub subject : Text
  pub scopes : List Text
  pub raw_claims : Fields

abbrev text_of : Option Value → Option Text
text_of (some (str t)) = some t
text_of o = none

unfoldable pub claim_string : Fields → Text → Option Text
claim_string claims key = text_of (find_field key claims)

-- From the year 1 to the Unix epoch, in seconds.
abbrev unix_to_internal : ℕ
unix_to_internal = 62_135_596_800

-- time.Unix(seconds, 0) of an int64, whose seconds from the year 1 wrap at 64 bits: from 2^63 on they
-- are negative.
unfoldable pub instant : ℤ → Instant
instant (pos seconds) =
    let internal = seconds + unix_to_internal in
    if ltb internal int64_bound then internal * 1_000_000_000 else 0
instant (negsuc n) = (unix_to_internal - (n + 1)) * 1_000_000_000

abbrev is_text : Text → Value → Bool
is_text expected (str t) = text_eq (trim_space t) expected
is_text expected v = false

abbrev aud_has : Text → Value → Bool
aud_has expected (str t) = text_eq (trim_space t) expected
aud_has expected (strings ts) = any (λ t. text_eq (trim_space t) expected) ts
aud_has expected (arr xs) = any (is_text expected) (to_list xs)
aud_has expected v = false

unfoldable pub aud_contains : Value → Text → Bool
aud_contains raw expected = is_empty (trim_space expected) || aud_has (trim_space expected) raw

-- A claim that is there and fails the test.
abbrev pub fails {ℓ} : {A : Type ℓ} → (A → Bool) → Option A → Bool
fails p none = false
fails p (some x) = not (p x)

-- A claim that is there and passes the test.
abbrev pub passes {ℓ} : {A : Type ℓ} → (A → Bool) → Option A → Bool
passes p none = false
passes p (some x) = p x

unfoldable pub validate_optional_issuer_audience : Fields → Text → Text → Bool
unfolding claim_string aud_contains
validate_optional_issuer_audience claims issuer audience =
    let wrong_issuer = fails (λ iss. text_eq iss issuer) (claim_string claims (codes "iss")) in
    let wrong_audience =
      fails (λ raw. aud_contains raw audience) (find_field (codes "aud") claims) in
    not (not (is_empty (trim_space issuer)) && wrong_issuer)
    && not (not (is_empty (trim_space audience)) && wrong_audience)

unfoldable pub scopes_to_set : List Text → List Text
scopes_to_set [] = []
scopes_to_set (scope ∷ scopes) =
    let rest = scopes_to_set scopes in
    if is_empty (trim_space scope) then rest else trim_space scope ∷ rest

-- ensureRequiredScopes
unfoldable pub ensure_required_scopes : List Text → List Text → Bool
ensure_required_scopes scopes [] = true
ensure_required_scopes scopes (scope ∷ required) =
    member scope scopes && ensure_required_scopes scopes required

module _ (numbers : Numbers) where
  abbrev time_of : Option ℤ → Result AuthError (Option Instant)
  time_of none = err unauthorized
  time_of (some seconds) = ok (some (instant seconds))

  abbrev time_in : Option Value → Result AuthError (Option Instant)
  time_in none = ok none
  time_in (some (num m e)) = ok (some (instant (int64_of m e)))
  time_in (some (str t)) = time_of (numbers.atoi (trim_space t))
  time_in (some v) = err unauthorized

  -- claimTime
  unfoldable pub claim_time : Fields → Text → Result AuthError (Option Instant)
  claim_time claims key = time_in (find_field key claims)

  abbrev scopes_in : List Value → List Text
  scopes_in [] = []
  scopes_in (str t ∷ vs) = split_fields numbers [] t ++ scopes_in vs
  scopes_in (v ∷ vs) = scopes_in vs

  abbrev scopes_of : List Text → List Text
  scopes_of [] = []
  scopes_of (t ∷ ts) = split_fields numbers [] t ++ scopes_of ts

  unfoldable pub values_to_scopes : Value → List Text
  values_to_scopes (str t) = split_fields numbers [] t
  values_to_scopes (strings ts) = scopes_of ts
  values_to_scopes (arr xs) = scopes_in (to_list xs)
  values_to_scopes v = []

  -- The loop of extractScopes is that of uniqueStrings.
  unfoldable pub extract_scopes : Fields → List Text
  unfolding values_to_scopes
  extract_scopes claims = unique_strings (
      values_to_scopes (map_value claims (codes "scope"))
      ++ values_to_scopes (map_value claims (codes "scp"))
      ++ values_to_scopes (map_value claims (codes "permissions")))

  -- claims["sub"].(string), and the scopes
  abbrev pub principal_of : Fields → Principal
  principal_of claims = record {
    subject = elim (claim_string claims (codes "sub")) [ none ↦ [] | some t ↦ t ];
    scopes = extract_scopes claims;
    raw_claims = claims;
  }

  -- The time checks: exp, which may be required, at one reading of the clock, and nbf at another.
  abbrev pub nbf_ok : Instant → Result AuthError (Option Instant) → Bool
  nbf_ok now (err e) = false
  nbf_ok now (ok nbf) = not (fails (λ t. not (ltb now t)) nbf)

  abbrev pub exp_ok : Bool → Instant → Result AuthError (Option Instant) → Bool
  exp_ok required now (err e) = false
  exp_ok required now (ok none) = not required
  exp_ok required now (ok (some exp)) = ltb now exp

  -- validateJWTClaims
  unfoldable pub validate_jwt_claims : Fields → Text → Text → Instant → Bool
  unfolding claim_string aud_contains
  validate_jwt_claims claims issuer audience now =
      let same_issuer = passes (λ iss. text_eq iss issuer) (claim_string claims (codes "iss")) in
      let in_audience =
        passes (λ raw. aud_contains raw audience) (find_field (codes "aud") claims) in
      (is_empty (trim_space issuer) || same_issuer)
      && (is_empty (trim_space audience) || in_audience)
      && exp_ok true now (claim_time claims (codes "exp"))
      && nbf_ok now (claim_time claims (codes "nbf"))
