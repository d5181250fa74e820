-- ===== src/Auth/Introspected.antt =====
-- What a token that is accepted by introspection has shown, now or when its principal was kept.
use mcp_swagger.Prelude.{
  ◌≡◌, refl, ◌⊎◌, inl, inr, ◌<◌, ◌≤◌, Bool, true, false, not, ◌&&◌, Option, none, some, List, All,
  ltb, Result, ok, err, arith, if◌then◌else◌, if_rule, not-false, subst,
}
use mcp_swagger.Text.{Text, codes, is_empty, trim_space, member}
use mcp_swagger.Dict.{Dict, get, remove}
use mcp_swagger.Value.{Value, bool, Fields, find_field}
use mcp_swagger.Input.Values.{Numbers}
use mcp_swagger.Auth.Claims.{
  Instant, AuthError, unauthorized, forbidden, Principal, claim_time, exp_ok, nbf_ok,
  validate_optional_issuer_audience, ensure_required_scopes, principal_of, extract_scopes,
}
use mcp_swagger.Auth.Validators.{
  IntrospectionCacheEntry, IntrospectionValidator, Clock, entry_at, cached, is_true, is_current,
  introspected, from_cache, store_principal, time_or_none, validate_introspected,
}
use mcp_swagger.Auth.Admitted.{scopes_held}

-- The endpoint answered that the token is active, it is not expired, and has the required scopes.
pub record IsIntrospected (numbers : Numbers) (clock : Clock) (required : List Text)
    (answer : Option Fields) (p : Principal) : Type 0 where
  pub claims : Fields
  pub answered : answer ≡ some claims
  pub active : find_field (codes "active") claims ≡ some (bool true)
  pub unexpired :
      (exp : Instant) → claim_time numbers claims (codes "exp") ≡ ok (some exp) → clock.at_exp < exp
  pub scoped : All (λ s. member s p.scopes ≡ true) required
  pub named : principal_of numbers claims ≡ p

-- The cache has the principal for the token, and its time is not over.
abbrev pub IsKept : Clock → Text → Dict IntrospectionCacheEntry → Principal → Type 0
IsKept clock token cache p =
    (entry : IntrospectionCacheEntry) × (get token cache ≡ some entry)
    × (entry.principal ≡ p)
    × (clock.at_cache ≤ entry.expires_at)

true_value : (o : Option Value) → is_true o ≡ true → o ≡ some (bool true)
true_value none h = ground arith
true_value (some (bool b)) h = ground arith
true_value (some Value.null) h = ground arith
true_value (some (Value.num m e)) h = ground arith
true_value (some (Value.str t)) h = ground arith
true_value (some (Value.arr xs)) h = ground arith
true_value (some (Value.obj fs)) h = ground arith
true_value (some (Value.strings ts)) h = ground arith
true_value (some (Value.envelope c e b)) h = ground arith

before_expiry :
    (numbers : Numbers) (now : Instant) (r : Result AuthError (Option Instant)) (exp : Instant)
    → exp_ok numbers false now r ≡ true
    → r ≡ ok (some exp)
    → now < exp
before_expiry numbers now (err e) exp h same = ground arith
before_expiry numbers now (ok none) exp h same = ground arith
before_expiry numbers now (ok (some t)) exp h same = ground arith

first_two : (a b c d : Bool) → (a && b && c && d) ≡ true → (a ≡ true) × (b ≡ true)
first_two a b c d h = (ground arith, ground arith)

ok_inj : {a b : Principal} (r : Result AuthError Principal) → r ≡ ok a → r ≡ ok b → a ≡ b
ok_inj r h k = cc

module _ (numbers : Numbers) (clock : Clock) (token : Text) (p : Principal) where
  abbrev Shown :
      IntrospectionValidator
      → Option Fields
      → IntrospectionValidator × Result AuthError Principal
      → Type 0
  Shown v answer x = x.1 ≡ ok p → IsIntrospected numbers clock v.required_scopes answer p

  current_claims :
      (v : IntrospectionValidator) (claims : Fields)
      → is_current numbers clock v claims ≡ true
      → ensure_required_scopes (extract_scopes numbers claims) v.required_scopes ≡ true
      → principal_of numbers claims ≡ p
      → IsIntrospected numbers clock v.required_scopes (some claims) p
  unfolding is_current
  current_claims v claims current scoped named =
      let parts =
        first_two (is_true (find_field (codes "active") claims))
          (exp_ok numbers false clock.at_exp (claim_time numbers claims (codes "exp")))
          (nbf_ok numbers clock.at_nbf (claim_time numbers claims (codes "nbf")))
          (validate_optional_issuer_audience claims v.issuer v.audience) current in
      record {
        claims = claims;
        answered = refl;
        active = true_value (find_field (codes "active") claims) parts.0;
        unexpired = λ exp same.
            before_expiry numbers clock.at_exp (claim_time numbers claims (codes "exp")) exp parts.1
              same;
        scoped =
            subst (λ q. All (λ s. member s q.scopes ≡ true) v.required_scopes) named
              (scopes_held (extract_scopes numbers claims) v.required_scopes scoped);
        named = named;
      }

  introspected-IsIntrospected :
      (v : IntrospectionValidator) (answer : Option Fields)
      → Shown v answer (introspected numbers clock token v answer)
  introspected-IsIntrospected v none = λ h. ground arith
  introspected-IsIntrospected v (some claims) =
      let q = principal_of numbers claims in
      let exp = claim_time numbers claims (codes "exp") in
      let stored = store_principal clock.at_store v.cache_ttl token q (time_or_none exp) v.cache in
      let kept : IntrospectionValidator × Result AuthError Principal =
        (record v { cache = stored }, ok q) in
      let scopes = ensure_required_scopes q.scopes v.required_scopes in
      let rest : IntrospectionValidator × Result AuthError Principal =
        if not scopes then (v, err forbidden) else kept in
      if_rule (Shown v (some claims)) (not (is_current numbers clock v claims))
        (v, err unauthorized) rest (λ _ h. ground arith)
        λ current.
          if_rule (Shown v (some claims)) (not scopes) (v, err forbidden) kept (λ _ h. ground arith)
            λ scoped h.
              current_claims v claims (not-false _ current) (not-false _ scoped)
                (ok_inj (ok q) refl h)

  from_cache_shown :
      (v : IntrospectionValidator) (answer : Option Fields) (o : Option IntrospectionCacheEntry)
      → get token v.cache ≡ o
      → (from_cache numbers clock token v answer (entry_at clock.at_cache token v.cache o)).1 ≡ ok p
      → IsKept clock token v.cache p ⊎ IsIntrospected numbers clock v.required_scopes answer p
  from_cache_shown v answer none found h = inr (introspected-IsIntrospected v answer h)
  from_cache_shown v answer (some entry) found h =
      let Q : Dict IntrospectionCacheEntry × Option Principal → Type 0 = λ x.
        (from_cache numbers clock token v answer x).1 ≡ ok p
        → IsKept clock token v.cache p ⊎ IsIntrospected numbers clock v.required_scopes answer p in
      let without = remove token v.cache in
      if_rule Q (ltb entry.expires_at clock.at_cache) (without, none)
        (v.cache, some entry.principal)
        (λ _ h. inr (introspected-IsIntrospected (record v { cache = without }) answer h))
        (λ fresh h. inl (entry, found, ok_inj (ok entry.principal) refl h, ground arith)) h

-- A token that introspection accepts is in the cache with that principal and a time that is not
-- over, or the endpoint answered that it is active, its exp, where it has one, is, as claimTime
-- reads it, in the future, and the principal of the answer has every required scope.
pub validate_introspected_sound :
    (numbers : Numbers) (introspect : Text → Option Fields) (clock : Clock) (raw : Text)
    (v : IntrospectionValidator) (p : Principal)
    → (validate_introspected numbers introspect clock raw v).1 ≡ ok p
    → IsKept clock (trim_space raw) v.cache p
      ⊎ IsIntrospected numbers clock v.required_scopes (introspect (trim_space raw)) p
unfolding validate_introspected cached
validate_introspected_sound numbers introspect clock raw v p =
    let token = trim_space raw in
    let Q : IntrospectionValidator × Result AuthError Principal → Type 0 = λ x.
      x.1 ≡ ok p
      → IsKept clock token v.cache p
        ⊎ IsIntrospected numbers clock v.required_scopes (introspect token) p in
    if_rule Q (is_empty token) (v, err unauthorized)
      (from_cache numbers clock token v (introspect token) (cached clock.at_cache token v.cache))
      (λ _ h. ground arith)
      λ _. from_cache_shown numbers clock token p v (introspect token) (get token v.cache) refl
