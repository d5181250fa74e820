-- ===== src/Auth/Examples.antt =====
-- Tests of the validators, and their theorems at a token with one scope.
use mcp_swagger.Prelude.{◌≡◌, refl, ◌↔◌, ◌⊎◌, ◌+◌, ◌≤◌, true, none, some, [], ◌∷◌, ok, pos, any}
use mcp_swagger.Text.{Text, codes, text_eq, is_space, lower_char, to_lower, trim_space, member}
use mcp_swagger.Dict.{get}
use mcp_swagger.Value.{bool, num, str, arr, cons, nil, Fields, field, end, find_field}
use mcp_swagger.Contract.Schema.{unique_strings}
use mcp_swagger.Input.Values.{Numbers, map_value}
use mcp_swagger.Float.{int64_of}
use mcp_swagger.Auth.Claims.{
  Instant, Principal, instant, nbf_ok, claim_string, claim_time, aud_contains, scopes_to_set,
  ensure_required_scopes, values_to_scopes, extract_scopes, validate_jwt_claims,
  validate_optional_issuer_audience,
}
use mcp_swagger.Auth.Validators.{
  IntrospectionValidator, Clock, new_introspection_validator, cached, store_principal, is_current,
  validate_introspected, validate_jwt, bearer_token, served, rejected, middleware,
}
use mcp_swagger.Auth.Cache.{IsInTime, cached_iff_fresh}
use mcp_swagger.Auth.Admitted.{IsAdmitted, middleware-IsAdmitted}
use mcp_swagger.Auth.Introspected.{IsKept, IsIntrospected, validate_introspected_sound}

abbrev numbers : Numbers
numbers = record { format_float = λ m e. []; atoi = λ t. none }

abbrev claims : Fields
claims = field (codes "active") (bool true) (
    field (codes "iss") (str (codes "idp")) (
      field (codes "aud") (arr (cons (str (codes " mcp")) nil)) (
        field (codes "exp") (num (pos 5) 0) (
          field (codes "scope") (str (codes "read,read call"))
            (field (codes "sub") (str (codes "ann")) end)))))

-- Five seconds after the Unix epoch, when the token of these claims expires.
abbrev expiry : Instant
expiry = 62_135_596_805_000_000_000

abbrev before_expiry : Instant
before_expiry = 62_135_596_804_999_999_999

abbrev ann : Principal
ann = record {
  subject = codes "ann";
  scopes = codes "read" ∷ codes "call" ∷ [];
  raw_claims = claims;
}

abbrev header : Text
header = codes "bearer  t1"

passes_to_handler :
    middleware
      (some (
        validate_jwt numbers
          (λ t. some claims)
          (codes "idp")
          (codes "mcp")
          (codes "call" ∷ [])
          before_expiry))
      header
    ≡ served ann
unfolding middleware bearer_token validate_jwt validate_jwt_claims claim_string claim_time int64_of
    instant aud_contains ensure_required_scopes values_to_scopes extract_scopes unique_strings
    member text_eq trim_space is_space to_lower lower_char find_field map_value any
passes_to_handler = refl

expired_is_rejected :
    middleware
      (some (validate_jwt numbers (λ t. some claims) (codes "idp") (codes "mcp") [] expiry))
      header
    ≡ rejected 401
unfolding middleware bearer_token validate_jwt validate_jwt_claims claim_string claim_time int64_of
    instant aud_contains text_eq trim_space is_space to_lower lower_char find_field any
expired_is_rejected = refl

-- A token that starts 10^19 seconds after the epoch has started.
far_start_has_passed :
    nbf_ok numbers before_expiry (
      claim_time numbers
        (field (codes "nbf") (num (pos 10_000_000_000_000_000_000) 0) end)
        (codes "nbf"))
    ≡ true
unfolding claim_time int64_of instant text_eq find_field
far_start_has_passed = refl

middleware-IsAdmitted_example :
    IsAdmitted numbers
      (λ t. some claims)
      (codes "idp")
      (codes "mcp")
      (codes "call" ∷ [])
      before_expiry
      header
      ann
middleware-IsAdmitted_example =
    middleware-IsAdmitted numbers (λ t. some claims) (codes "idp") (codes "mcp") (codes "call" ∷ [])
      before_expiry header ann passes_to_handler

abbrev validator : IntrospectionValidator
validator = record {
  issuer = codes "idp";
  audience = [];
  required_scopes = codes "read" ∷ [];
  cache_ttl = 45_000_000_000;
  cache = [];
}

built :
    new_introspection_validator (record {
      issuer = codes " idp";
      audience = [];
      required_scopes = codes "read " ∷ codes " " ∷ [];
      cache_ttl = pos 0;
    })
    ≡ validator
unfolding new_introspection_validator scopes_to_set trim_space is_space
built = refl

abbrev clock : Clock
clock = record { at_cache = 10; at_exp = 20; at_nbf = 30; at_store = 40 }

introspection_accepts :
    (validate_introspected numbers (λ t. some claims) clock (codes " t1") validator).1 ≡ ok ann
unfolding validate_introspected cached is_current validate_optional_issuer_audience claim_string
    claim_time int64_of instant aud_contains ensure_required_scopes values_to_scopes extract_scopes
    unique_strings member text_eq trim_space is_space find_field map_value get
introspection_accepts = refl

validate_introspected_sound_example :
    IsKept clock (trim_space (codes " t1")) [] ann
    ⊎ IsIntrospected numbers clock (codes "read" ∷ []) (some claims) ann
validate_introspected_sound_example =
    validate_introspected_sound numbers (λ t. some claims) clock (codes " t1") validator ann
      introspection_accepts

cached_iff_fresh_example :
    ((cached 100 (codes "t1") (store_principal 40 50 (codes "t1") ann (some 70) [])).1 ≡ some ann)
    ↔ ((100 ≤ 40 + 50) × IsInTime 100 (some 70))
cached_iff_fresh_example = cached_iff_fresh 40 100 50 (codes "t1") ann (some 70) []
