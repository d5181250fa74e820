-- ===== src/Auth/Admitted.antt =====
-- What a token that a validator accepts has shown.
use mcp_swagger.Prelude.{
  ◌≡◌, refl, ◌<◌, ◌≤◌, Bool, true, false, not, ◌&&◌, ◌||◌, Option, none, some, List, [], ◌∷◌, All,
  Result, ok, err, arith, if◌then◌else◌, if_rule, not-false, ap,
}
use mcp_swagger.Text.{Text, codes, text_eq, is_empty, trim_space, member}
use mcp_swagger.Text.Laws.{text_eq_iff}
use mcp_swagger.Value.{Fields, find_field}
use mcp_swagger.Input.Values.{Numbers}
use mcp_swagger.Auth.Claims.{
  Instant, AuthError, unauthorized, forbidden, Principal, claim_string, claim_time, aud_contains,
  passes, exp_ok, nbf_ok, validate_jwt_claims, extract_scopes, ensure_required_scopes, principal_of,
}
use mcp_swagger.Auth.Validators.{
  with_claims, validate_jwt, bearer_token, served, handled, with_token, middleware,
}

pub scopes_held :
    (scopes required : List Text)
    → ensure_required_scopes scopes required ≡ true
    → All (λ s. member s scopes ≡ true) required
unfolding ensure_required_scopes
scopes_held scopes [] h = tt
scopes_held scopes (s ∷ required) h = (ground arith, scopes_held scopes required (ground arith))

unexpired :
    (now : Instant) (r : Result AuthError (Option Instant)) (numbers : Numbers)
    → exp_ok numbers true now r ≡ true
    → (exp : Instant) × (r ≡ ok (some exp)) × (now < exp)
unexpired now (err e) numbers h = ground arith
unexpired now (ok none) numbers h = ground arith
unexpired now (ok (some exp)) numbers h = (exp, refl, ground arith)

same_text : (o : Option Text) (t : Text) → passes (λ s. text_eq s t) o ≡ true → o ≡ some t
same_text none t h = ground arith
same_text (some s) t h = ap some ((text_eq_iff s t).0 h)

-- The claims fit the validator at the reading of its clock.
pub record IsFit (numbers : Numbers) (issuer audience : Text) (required : List Text) (now : Instant)
    (claims : Fields) : Type 0 where
  pub from_issuer :
      is_empty (trim_space issuer) ≡ false → claim_string claims (codes "iss") ≡ some issuer
  pub for_audience :
      is_empty (trim_space audience) ≡ false
      → passes (λ raw. aud_contains raw audience) (find_field (codes "aud") claims) ≡ true
  pub unexpired :
      (exp : Instant) × (claim_time numbers claims (codes "exp") ≡ ok (some exp)) × (now < exp)
  pub started :
      (nbf : Instant) → claim_time numbers claims (codes "nbf") ≡ ok (some nbf) → nbf ≤ now
  pub scoped : All (λ s. member s (extract_scopes numbers claims) ≡ true) required

four :
    (a b c d : Bool) → (a && b && c && d) ≡ true → (a ≡ true) × (b ≡ true) × (c ≡ true) × (d ≡ true)
four a b c d h = (ground arith, ground arith, ground arith, ground arith)

not_early :
    (numbers : Numbers) (now : Instant) (r : Result AuthError (Option Instant)) (nbf : Instant)
    → nbf_ok numbers now r ≡ true
    → r ≡ ok (some nbf)
    → nbf ≤ now
not_early numbers now (err e) nbf h same = ground arith
not_early numbers now (ok none) nbf h same = ground arith
not_early numbers now (ok (some t)) nbf h same = ground arith

or_given : (blank b : Bool) → (blank || b) ≡ true → blank ≡ false → b ≡ true
or_given blank b h given = ground arith

claims-IsFit :
    (numbers : Numbers) (issuer audience : Text) (required : List Text) (now : Instant)
    (claims : Fields)
    → validate_jwt_claims numbers claims issuer audience now ≡ true
    → ensure_required_scopes (extract_scopes numbers claims) required ≡ true
    → IsFit numbers issuer audience required now claims
unfolding validate_jwt_claims
claims-IsFit numbers issuer audience required now claims h scoped =
    let same_issuer = passes (λ iss. text_eq iss issuer) (claim_string claims (codes "iss")) in
    let in_audience = passes (λ raw. aud_contains raw audience) (find_field (codes "aud") claims) in
    let exp = claim_time numbers claims (codes "exp") in
    let parts =
      four (is_empty (trim_space issuer) || same_issuer)
        (is_empty (trim_space audience) || in_audience) (exp_ok numbers true now exp)
        (nbf_ok numbers now (claim_time numbers claims (codes "nbf"))) h in
    record {
      from_issuer = λ given.
          same_text (claim_string claims (codes "iss")) issuer
            (or_given (is_empty (trim_space issuer)) same_issuer parts.0 given);
      for_audience = or_given (is_empty (trim_space audience)) in_audience parts.1;
      unexpired = unexpired now exp numbers parts.2;
      started = λ nbf same.
          not_early numbers now (claim_time numbers claims (codes "nbf")) nbf parts.3 same;
      scoped = scopes_held (extract_scopes numbers claims) required scoped;
    }

-- A request that the next handler sees: its header has a token, whose verified claims fit.
pub record IsAdmitted (numbers : Numbers) (verify : Text → Option Fields) (issuer audience : Text)
    (required : List Text) (now : Instant) (header : Text) (p : Principal) : Type 0 where
  pub token : Text
  pub claims : Fields
  pub carried : bearer_token header ≡ some token
  pub verified : verify token ≡ some claims
  pub fit : IsFit numbers issuer audience required now claims
  pub named : principal_of numbers claims ≡ p

ok_inj : {a b : Principal} (r : Result AuthError Principal) → r ≡ ok a → r ≡ ok b → a ≡ b
ok_inj r h k = cc

handled_ok : (r : Result AuthError Principal) (p : Principal) → handled r ≡ served p → r ≡ ok p
handled_ok (ok q) p h = ground arith
handled_ok (err unauthorized) p h = ground arith
handled_ok (err forbidden) p h = ground arith

module _ (numbers : Numbers) (verify : Text → Option Fields) (issuer audience : Text)
    (required : List Text) (now : Instant) (header : Text) (p : Principal) where
  abbrev Admits : Text → Result AuthError Principal → Type 0
  Admits token r = r ≡ ok p → IsAdmitted numbers verify issuer audience required now header p

  with_claims-IsAdmitted :
      (token : Text) (o : Option Fields)
      → bearer_token header ≡ some token
      → verify token ≡ o
      → Admits token (with_claims numbers issuer audience required now o)
  with_claims-IsAdmitted token none carried verified = λ h. ground arith
  with_claims-IsAdmitted token (some claims) carried verified =
      let q = principal_of numbers claims in
      let scoped : Result AuthError Principal =
        if not (ensure_required_scopes q.scopes required) then err forbidden else ok q in
      if_rule (Admits token) (not (validate_jwt_claims numbers claims issuer audience now))
        (err unauthorized) scoped (λ _ h. ground arith)
        λ valid.
          if_rule (Admits token) (not (ensure_required_scopes q.scopes required)) (err forbidden)
            (ok q) (λ _ h. ground arith)
            λ has_scopes h. record {
              token = token;
              claims = claims;
              carried = carried;
              verified = verified;
              fit =
                  claims-IsFit numbers issuer audience required now claims (not-false _ valid)
                    (not-false _ has_scopes);
              named = ok_inj (ok q) refl h;
            }

  with_token-IsAdmitted :
      (o : Option Text)
      → bearer_token header ≡ o
      → with_token (validate_jwt numbers verify issuer audience required now) o ≡ served p
      → IsAdmitted numbers verify issuer audience required now header p
  unfolding validate_jwt
  with_token-IsAdmitted none carried h = ground arith
  with_token-IsAdmitted (some token) carried h =
      if_rule (Admits token) (is_empty (trim_space token)) (err unauthorized)
        (with_claims numbers issuer audience required now (verify token)) (λ _ h. ground arith)
        (λ _. with_claims-IsAdmitted token (verify token) carried refl)
        (handled_ok (validate_jwt numbers verify issuer audience required now token) p h)

-- With the JWT validator, the next handler runs only for a request whose header carries a bearer
-- token with verified claims: the issuer and the audience are the configured ones where these are
-- set, exp is there and, as claimTime reads it, in the future, nbf, as claimTime reads it, is not
-- in the future where it is there, every required scope is among the scopes of the claims, and the
-- principal is that of the claims.
pub middleware-IsAdmitted :
    (numbers : Numbers) (verify : Text → Option Fields) (issuer audience : Text)
    (required : List Text) (now : Instant) (header : Text) (p : Principal)
    → middleware (some (validate_jwt numbers verify issuer audience required now)) header ≡ served p
    → IsAdmitted numbers verify issuer audience required now header p
unfolding middleware
middleware-IsAdmitted numbers verify issuer audience required now header p h =
    with_token-IsAdmitted numbers verify issuer audience required now header p (bearer_token header)
      refl h
