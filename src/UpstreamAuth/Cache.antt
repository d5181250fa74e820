-- ===== src/UpstreamAuth/Cache.antt =====
-- The token cache of oauth_client_credentials.go: what it serves, for how long, and to whom.
use mcp_swagger.Prelude.{
  ℕ, ◌≡◌, ◌≢◌, ◌≤◌, ◌<◌, refl, ◌⊎◌, inl, ◌+◌, ◌*◌, false, Option, none, some, List, [], ◌∷◌, ◌++◌,
  arith, ltb, ◌==◌, pos, positive_or, if◌then◌else◌, if_rule, subst, sym, ◌||◌, ◌&&◌, not,
}
use mcp_swagger.Text.{Text, codes, is_empty, trim_space, text_eq}
use mcp_swagger.Dict.{Dict, get, put, get-put}
use mcp_swagger.UpstreamAuth.Fixed.{authorization}
use mcp_swagger.UpstreamAuth.OAuth.{
  Time, second, default_token_safety_margin, ExpiresIn, TokenResponse, HttpResponse, TokenApi,
  Options, OAuthToken, no_token, Provider, derive_ttl, parse_expires_in, fetch_token, cached_token,
  store_token, fetched_token, token, apply, new_provider, token_of, token_in, token_response,
  cached_or_fetched, with_token, token_form,
}

-- The provider after a history of stores, by whichever goroutines and in whatever order.
abbrev pub stores : List (Time × (Text × ℕ)) → Provider → Provider
stores [] p = p
stores ((later, fetched) ∷ history) p = stores history (store_token later fetched p)

-- The token was fetched and its time to keep it is not over.
abbrev pub IsFetched : Time → Text → List (Time × (Text × ℕ)) → Type 0
IsFetched now t [] = ⊥
IsFetched now t ((later, fetched) ∷ history) =
    ((fetched.0 ≡ t) × (now < later + fetched.1)) ⊎ IsFetched now t history

cached_token_stored :
    (now later : Time) (fetched : Text × ℕ) (p : Provider) (t : Text)
    → cached_token now (store_token later fetched p).cached ≡ some t
    → (fetched.0 ≡ t) × (now < later + fetched.1)
unfolding cached_token store_token
cached_token_stored now later (f, ttl) p t h = ground arith

cached_token-stores :
    (now : Time) (t : Text) (history : List (Time × (Text × ℕ))) (p : Provider)
    → cached_token now (stores history p).cached ≡ some t
    → (cached_token now p.cached ≡ some t) ⊎ IsFetched now t history
cached_token-stores now t [] p h = inl h
cached_token-stores now t ((later, fetched) ∷ history) p h =
    let rest = cached_token-stores now t history (store_token later fetched p) h in
    ground (arith, rest, cached_token_stored now later fetched p t)

new_provider-no_token : (o : Options) (p : Provider) → new_provider o ≡ some p → p.cached ≡ no_token
unfolding new_provider
new_provider-no_token o p h = ground arith

-- From a new provider, after any history of fetches stored by any goroutines in any order, the
-- cache serves only a token of the history, and only until its time to keep it, counted from when
-- it was stored, is over.
pub cached-IsFetched :
    (o : Options) (p : Provider) (history : List (Time × (Text × ℕ))) (now : Time) (t : Text)
    → new_provider o ≡ some p
    → cached_token now (stores history p).cached ≡ some t
    → IsFetched now t history
unfolding cached_token
cached-IsFetched o p history now t made h =
    let empty = new_provider-no_token o p made in
    ground (arith, cached_token-stores now t history p h)

trim_empty : (t : Text) → is_empty (trim_space t) ≡ false → t ≢ []
unfolding trim_space
trim_empty [] h e = ground arith
trim_empty (c ∷ t) h e = ground arith

-- A fetched token and the time to keep it are not empty.
abbrev IsUsable : Option (Text × ℕ) → Type 0
IsUsable none = Unit {0}
IsUsable (some (t, ttl)) = (t ≢ []) × (0 < ttl)

module _ (api : TokenApi) (o : Options) where
  IsUsable-token_of : (r : Option TokenResponse) → IsUsable (token_of api o r)
  IsUsable-token_of none = tt
  IsUsable-token_of (some parsed) =
      let ttl = positive_or o.cache_ttl (derive_ttl api parsed.expires_in) in
      if_rule IsUsable (is_empty (trim_space parsed.access_token)) none
        (some (parsed.access_token, if ttl == 0 then 50 * second else ttl)) (λ _. tt)
        λ named. (trim_empty _ named, ground arith)

  IsUsable-token_in : (body : Option Text) → IsUsable (token_in api o body)
  IsUsable-token_in none = tt
  IsUsable-token_in (some body) = IsUsable-token_of (api.unmarshal body)

  IsUsable-token_response : (r : Option HttpResponse) → IsUsable (token_response api o r)
  IsUsable-token_response none = tt
  IsUsable-token_response (some resp) =
      if_rule IsUsable (ltb resp.status 200 || ltb 299 resp.status) none (token_in api o resp.body)
        (λ _. tt) λ _. IsUsable-token_in resp.body

fetch_token-IsUsable : (api : TokenApi) (o : Options) → IsUsable (fetch_token api o)
unfolding fetch_token
fetch_token-IsUsable api o = IsUsable-token_response api o (
    api.post (record {
      url = o.token_url;
      form = token_form api o;
      user = o.client_id;
      password = o.client_secret;
    }))

fetch_token_not_empty :
    (api : TokenApi) (o : Options) (t : Text) (ttl : ℕ)
    → fetch_token api o ≡ some (t, ttl)
    → (t ≢ []) × (0 < ttl)
fetch_token_not_empty api o t ttl h = subst IsUsable h (fetch_token-IsUsable api o)

abbrev IsFilled : Option Text → Type 0
IsFilled none = Unit {0}
IsFilled (some t) = t ≢ []

IsFilled-fetched_token :
    (later : Time) (p : Provider) (o : Option (Text × ℕ))
    → IsUsable o
    → IsFilled (fetched_token later p o).1
unfolding fetched_token
IsFilled-fetched_token later p none h = tt
IsFilled-fetched_token later p (some (t, ttl)) h = h.0

IsFilled-cached_or_fetched :
    (api : TokenApi) (later : Time) (p : Provider) (o : Option Text)
    → IsFilled o
    → IsFilled (cached_or_fetched api later p o).1
IsFilled-cached_or_fetched api later p none h =
    IsFilled-fetched_token later p (fetch_token api p.options) (fetch_token-IsUsable api p.options)
IsFilled-cached_or_fetched api later p (some t) h = h

IsFilled-cached_token : (now : Time) (c : OAuthToken) → IsFilled (cached_token now c)
unfolding cached_token
IsFilled-cached_token now c =
    if_rule IsFilled (not (is_empty c.access_token) && ltb now c.expires_at) (some c.access_token)
      none (λ valid empty. ground arith) λ _. tt

pub token_not_empty :
    (api : TokenApi) (now later : Time) (p : Provider) (t : Text)
    → (token api now later p).1 ≡ some t
    → t ≢ []
unfolding token
token_not_empty api now later p t h = subst IsFilled h (
    IsFilled-cached_or_fetched api later p (cached_token now p.cached)
      (IsFilled-cached_token now p.cached))

token_fetches :
    (api : TokenApi) (now later : Time) (p : Provider) (t : Text) (ttl : ℕ)
    → cached_token now p.cached ≡ none
    → fetch_token api p.options ≡ some (t, ttl)
    → token api now later p ≡ (store_token later (t, ttl) p, some t)
unfolding token fetched_token
token_fetches api now later p t ttl stale fetched = rw (stale, fetched) refl

token_served :
    (api : TokenApi) (now later : Time) (p : Provider) (t : Text)
    → cached_token now p.cached ≡ some t
    → token api now later p ≡ (p, some t)
unfolding token
token_served api now later p t valid = rw valid refl

cached_token_valid :
    (now later : Time) (t : Text) (ttl : ℕ) (p : Provider)
    → t ≢ []
    → now < later + ttl
    → cached_token now (store_token later (t, ttl) p).cached ≡ some t
unfolding cached_token store_token
cached_token_valid now later t ttl p filled soon = ground arith

-- If nothing valid is cached and a fetch yields a token, then each later call before its time to
-- keep is over gets that token and changes nothing, whatever the token endpoint would answer.
pub token_is_reused :
    (api other : TokenApi) (now later now' later' : Time) (p : Provider) (t : Text) (ttl : ℕ)
    → cached_token now p.cached ≡ none
    → fetch_token api p.options ≡ some (t, ttl)
    → now' < later + ttl
    → let p' = (token api now later p).0 in token other now' later' p' ≡ (p', some t)
token_is_reused api other now later now' later' p t ttl stale fetched soon =
    let filled = (fetch_token_not_empty api p.options t ttl fetched).0 in
    rw (token_fetches api now later p t ttl stale fetched) (
      token_served other now' later' (store_token later (t, ttl) p) t
        (cached_token_valid now' later t ttl p filled soon))

-- A token whose expires_in is at least 15 seconds is kept for exactly the safety margin of 10
-- seconds less.
pub derive_ttl_margin :
    (api : TokenApi) (raw : ExpiresIn) (n : ℕ)
    → parse_expires_in api raw ≡ pos n
    → 15 * second ≤ n
    → derive_ttl api raw + default_token_safety_margin ≡ n
unfolding derive_ttl
derive_ttl_margin api raw n parsed long = rw parsed (ground arith)

-- Whatever expires_in is, the derived time to keep a token is at least 5 seconds.
pub derive_ttl_min : (api : TokenApi) (raw : ExpiresIn) → 5 * second ≤ derive_ttl api raw
unfolding derive_ttl
derive_ttl_min api raw = ground arith

with_token_sets :
    (headers headers' : Dict Text) (name : Text) (o : Option Text)
    → with_token headers o ≡ some headers'
    → (t : Text) × (o ≡ some t)
      × (get name headers'
          ≡ (if text_eq authorization name then some (codes "Bearer " ++ t) else get name headers))
with_token_sets headers headers' name none h = ground arith
with_token_sets headers headers' name (some t) h =
    let same : put authorization (codes "Bearer " ++ t) headers ≡ headers' = cc in
    (t, refl, rw (sym same) (get-put authorization name (codes "Bearer " ++ t) headers))

-- When Apply of the OAuth provider succeeds, the Authorization header is Bearer with a token that
-- is not empty, and every other header is as it was.
pub apply_on_success :
    (api : TokenApi) (now later : Time) (headers headers' : Dict Text) (p : Provider) (name : Text)
    → (apply api now later headers p).1 ≡ some headers'
    → (t : Text) × (t ≢ [])
      × (get name headers'
          ≡ (if text_eq authorization name then some (codes "Bearer " ++ t) else get name headers))
unfolding apply
apply_on_success api now later headers headers' p name h =
    let set = with_token_sets headers headers' name (token api now later p).1 h in
    (set.0, token_not_empty api now later p set.0 set.1, set.2)
