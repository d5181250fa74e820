-- ===== src/Auth/Validators.antt =====
-- Validate of introspection.go, with its cache, Validate of jwt_jwks.go, whose verified claims are a
-- parameter, and Middleware and bearerToken of middleware.go. A validator is passed its clock.
use mcp_swagger.Prelude.{
  ℕ, ◌+◌, Bool, false, not, ◌&&◌, ◌||◌, Option, none, some, List, [], ◌∷◌, ◌++◌, ltb, Result, ok,
  err, ℤ, positive_or, if◌then◌else◌,
}
use mcp_swagger.Text.{Text, codes, text_eq, is_space, is_empty, to_lower, trim_space}
use mcp_swagger.Dict.{Dict, get, put, remove}
use mcp_swagger.Value.{Value, bool, Fields, find_field}
use mcp_swagger.Input.Values.{Numbers}
use mcp_swagger.Auth.Claims.{
  Instant, AuthError, unauthorized, forbidden, Principal, claim_time,
  validate_optional_issuer_audience, validate_jwt_claims, scopes_to_set, ensure_required_scopes,
  principal_of, exp_ok, nbf_ok,
}

pub record IntrospectionCacheEntry : Type 0 where
  pub principal : Principal
  pub expires_at : Instant

pub record IntrospectionOptions : Type 0 where
  pub issuer : Text
  pub audience : Text
  pub required_scopes : List Text
  pub cache_ttl : ℤ

pub record IntrospectionValidator : Type 0 where
  pub issuer : Text
  pub audience : Text
  pub required_scopes : List Text
  pub cache_ttl : ℕ
  pub cache : Dict IntrospectionCacheEntry

-- The readings of the clock, in the order in which Validate takes them.
pub record Clock : Type 0 where
  pub at_cache : Instant
  pub at_exp : Instant
  pub at_nbf : Instant
  pub at_store : Instant

unfoldable pub new_introspection_validator : IntrospectionOptions → IntrospectionValidator
new_introspection_validator opts = record {
  issuer = trim_space opts.issuer;
  audience = trim_space opts.audience;
  required_scopes = scopes_to_set opts.required_scopes;
  cache_ttl = positive_or opts.cache_ttl 45_000_000_000;
  cache = [];
}

abbrev pub entry_at :
    Instant
    → Text
    → Dict IntrospectionCacheEntry
    → Option IntrospectionCacheEntry
    → Dict IntrospectionCacheEntry × Option Principal
entry_at now token cache none = (cache, none)
entry_at now token cache (some entry) =
    if ltb entry.expires_at now then (remove token cache, none) else (cache, some entry.principal)

unfoldable pub cached :
    Instant → Text → Dict IntrospectionCacheEntry → Dict IntrospectionCacheEntry × Option Principal
cached now token cache = entry_at now token cache (get token cache)

abbrev pub earlier : Option Instant → Instant → Instant
earlier none t = t
earlier (some exp) t = if ltb exp t then exp else t

unfoldable pub store_principal :
    Instant
    → ℕ
    → Text
    → Principal
    → Option Instant
    → Dict IntrospectionCacheEntry
    → Dict IntrospectionCacheEntry
store_principal now ttl token principal exp cache =
    put token (record { principal = principal; expires_at = earlier exp (now + ttl) }) cache

abbrev pub is_true : Option Value → Bool
is_true (some (bool b)) = b
is_true o = false

abbrev pub time_or_none : Result AuthError (Option Instant) → Option Instant
time_or_none (ok t) = t
time_or_none (err e) = none

module _ (numbers : Numbers) where
  -- The checks of an introspection response, up to the scopes.
  unfoldable pub is_current : Clock → IntrospectionValidator → Fields → Bool
  is_current clock v claims =
      is_true (find_field (codes "active") claims)
      && exp_ok numbers false clock.at_exp (claim_time numbers claims (codes "exp"))
      && nbf_ok numbers clock.at_nbf (claim_time numbers claims (codes "nbf"))
      && validate_optional_issuer_audience claims v.issuer v.audience

  abbrev pub introspected :
      Clock
      → Text
      → IntrospectionValidator
      → Option Fields
      → IntrospectionValidator × Result AuthError Principal
  introspected clock token v none = (v, err unauthorized)
  introspected clock token v (some claims) =
      let p = principal_of numbers claims in
      let exp = time_or_none (claim_time numbers claims (codes "exp")) in
      let stored = store_principal clock.at_store v.cache_ttl token p exp v.cache in
      if not (is_current clock v claims)
      then (v, err unauthorized)
      else if not (ensure_required_scopes p.scopes v.required_scopes)
      then (v, err forbidden)
      else (record v { cache = stored }, ok p)

  abbrev pub from_cache :
      Clock
      → Text
      → IntrospectionValidator
      → Option Fields
      → Dict IntrospectionCacheEntry × Option Principal
      → IntrospectionValidator × Result AuthError Principal
  from_cache clock token v answer (cache, some p) = (record v { cache = cache }, ok p)
  from_cache clock token v answer (cache, none) =
      introspected clock token (record v { cache = cache }) answer

  -- Validate of IntrospectionValidator; `introspect` is what its endpoint answers for the token.
  unfoldable pub validate_introspected :
      (Text → Option Fields)
      → Clock
      → Text
      → IntrospectionValidator
      → IntrospectionValidator × Result AuthError Principal
  unfolding cached store_principal is_current
  validate_introspected introspect clock raw v =
      let token = trim_space raw in
      if is_empty token
      then (v, err unauthorized)
      else from_cache clock token v (introspect token) (cached clock.at_cache token v.cache)

  abbrev pub with_claims :
      Text → Text → List Text → Instant → Option Fields → Result AuthError Principal
  with_claims issuer audience required now none = err unauthorized
  with_claims issuer audience required now (some claims) =
      let p = principal_of numbers claims in
      if not (validate_jwt_claims numbers claims issuer audience now)
      then err unauthorized
      else if not (ensure_required_scopes p.scopes required)
      then err forbidden
      else ok p

  -- Validate of JWTJWKSValidator; `verify` yields the claims of a token whose signature is valid.
  unfoldable pub validate_jwt :
      (Text → Option Fields) → Text → Text → List Text → Instant → Text → Result AuthError Principal
  validate_jwt verify issuer audience required now token =
      if is_empty (trim_space token)
      then err unauthorized
      else with_claims issuer audience required now (verify token)

-- strings.Fields; `word` is the word so far.
abbrev pub fields : Text → Text → List Text
fields word [] = if is_empty word then [] else word ∷ []
fields word (c ∷ t) =
    let longer = fields (word ++ c ∷ []) t in
    let rest = fields [] t in
    if is_space c then (if is_empty word then rest else word ∷ rest) else longer

abbrev pub token_in : List Text → Option Text
token_in (scheme ∷ token ∷ []) =
    if not (text_eq (to_lower scheme) (codes "bearer")) || is_empty (trim_space token)
    then none
    else some (trim_space token)
token_in parts = none

unfoldable pub bearer_token : Text → Option Text
bearer_token header = token_in (fields [] (trim_space header))

-- The status of an error, or the principal in the context of the next handler.
pub data Handled : Type 0 where
  rejected : ℕ → Handled
  served : Principal → Handled

abbrev pub handled : Result AuthError Principal → Handled
handled (ok p) = served p
handled (err unauthorized) = rejected 401
handled (err forbidden) = rejected 403

abbrev pub with_token : (Text → Result AuthError Principal) → Option Text → Handled
with_token validate none = rejected 401
with_token validate (some token) = handled (validate token)

-- Middleware; a nil validator is `none`.
unfoldable pub middleware : Option (Text → Result AuthError Principal) → Text → Handled
unfolding bearer_token
middleware none header = rejected 401
middleware (some validate) header = with_token validate (bearer_token header)
