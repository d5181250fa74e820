-- ===== src/UpstreamAuth/OAuth.antt =====
-- oauth_client_credentials.go. Times and durations are in nanoseconds; the HTTP client, the JSON
-- decoder and strconv.ParseInt are fields of `TokenApi`.
use mcp_swagger.Prelude.{
  ℕ, ◌+◌, ◌-◌, ◌*◌, ◌%◌, ◌^◌, not, ◌&&◌, ◌||◌, Option, none, some, [], ◌++◌, ltb, ◌==◌, ℤ, pos,
  negsuc, positive_or, if◌then◌else◌,
}
use mcp_swagger.Text.{Text, codes, is_empty, trim_space}
use mcp_swagger.Dict.{Dict, put}
use mcp_swagger.UpstreamAuth.Fixed.{authorization}

abbrev pub Time : Type 0
Time = ℕ

abbrev pub second : ℕ
second = 1_000_000_000

abbrev pub default_token_safety_margin : ℕ
default_token_safety_margin = 10 * second

-- What json.Unmarshal puts into an `any`, as parseExpiresIn tells it apart. A float64 is given by
-- the integer that its conversion to int64 yields.
pub data ExpiresIn : Type 0 where
  missing : ExpiresIn
  float64 : ℤ → ExpiresIn
  text : Text → ExpiresIn
  other : ExpiresIn

pub record TokenResponse : Type 0 where
  pub access_token : Text
  pub expires_in : ExpiresIn

pub record TokenRequest : Type 0 where
  pub url : Text
  pub form : Dict Text
  pub user : Text
  pub password : Text

-- `body` is none where it cannot be read.
pub record HttpResponse : Type 0 where
  pub status : ℕ
  pub body : Option Text

pub record TokenApi : Type 0 where
  pub post : TokenRequest → Option HttpResponse
  pub unmarshal : Text → Option TokenResponse
  pub parse_int : Text → Option ℤ

pub record Options : Type 0 where
  pub token_url : Text
  pub client_id : Text
  pub client_secret : Text
  pub scopes : Text
  pub audience : Text
  pub cache_ttl : ℤ

pub record OAuthToken : Type 0 where
  pub access_token : Text
  pub expires_at : Time

pub record Provider : Type 0 where
  pub options : Options
  pub cached : OAuthToken

abbrev pub no_token : OAuthToken
no_token = record { access_token = []; expires_at = 0 }

unfoldable pub new_provider : Options → Option Provider
new_provider o =
    let p : Provider = record {
      options = record {
        token_url = trim_space o.token_url;
        client_id = trim_space o.client_id;
        client_secret = trim_space o.client_secret;
        scopes = trim_space o.scopes;
        audience = trim_space o.audience;
        cache_ttl = o.cache_ttl;
      };
      cached = no_token;
    } in
    if is_empty (trim_space o.token_url)
    then none
    else if is_empty (trim_space o.client_id)
    then none
    else if is_empty (trim_space o.client_secret)
    then none
    else some p

-- An int64 with the low 64 bits of a number.
unfoldable pub signed64 : ℕ → ℤ
signed64 n = let m = n % 2 ^ 64 in if ltb m (2 ^ 63) then pos m else negsuc (2 ^ 64 - 1 - m)

-- time.Duration(v) * time.Second
unfoldable pub seconds : ℤ → ℤ
unfolding signed64
seconds (pos n) = signed64 (n * second)
seconds (negsuc n) = signed64 ((2 ^ 64 - 1 - n % 2 ^ 64) * second)

abbrev seconds_or_zero : Option ℤ → ℤ
seconds_or_zero none = pos 0
seconds_or_zero (some v) = seconds v

-- The first critical section of token: the cached token, if it is valid.
unfoldable pub cached_token : Time → OAuthToken → Option Text
cached_token now cached =
    if not (is_empty cached.access_token) && ltb now cached.expires_at
    then some cached.access_token
    else none

-- The second critical section.
unfoldable pub store_token : Time → Text × ℕ → Provider → Provider
store_token later (fetched, ttl) p = record p {
  cached = record { access_token = fetched; expires_at = later + ttl };
}

unfoldable pub fetched_token : Time → Provider → Option (Text × ℕ) → Provider × Option Text
unfolding store_token
fetched_token later p none = (p, none)
fetched_token later p (some fetched) = (store_token later fetched p, some fetched.0)

abbrev pub with_token : Dict Text → Option Text → Option (Dict Text)
with_token headers none = none
with_token headers (some t) = some (put authorization (codes "Bearer " ++ t) headers)

module _ (api : TokenApi) where
  unfoldable pub parse_expires_in : ExpiresIn → ℤ
  unfolding seconds
  parse_expires_in missing = pos 0
  parse_expires_in (float64 v) = seconds v
  parse_expires_in (text t) = seconds_or_zero (api.parse_int (trim_space t))
  parse_expires_in other = pos 0

  -- A negative difference is under five seconds like 0.
  abbrev ttl_of : ℕ → ℕ
  ttl_of expires_in =
      let ttl = expires_in - default_token_safety_margin in
      if ltb ttl (5 * second) then 5 * second else ttl

  abbrev ttl_of_parsed : ℤ → ℕ
  ttl_of_parsed (negsuc n) = 50 * second
  ttl_of_parsed (pos n) = if n == 0 then 50 * second else ttl_of n

  unfoldable pub derive_ttl : ExpiresIn → ℕ
  derive_ttl raw = ttl_of_parsed (parse_expires_in raw)

  abbrev pub token_form : Options → Dict Text
  token_form o =
      let grant = put (codes "grant_type") (codes "client_credentials") [] in
      let scoped = if is_empty o.scopes then grant else put (codes "scope") o.scopes grant in
      if is_empty o.audience then scoped else put (codes "audience") o.audience scoped

  abbrev pub token_of : Options → Option TokenResponse → Option (Text × ℕ)
  token_of o none = none
  token_of o (some parsed) =
      let ttl = positive_or o.cache_ttl (derive_ttl parsed.expires_in) in
      if is_empty (trim_space parsed.access_token)
      then none
      else some (parsed.access_token, if ttl == 0 then 50 * second else ttl)

  abbrev pub token_in : Options → Option Text → Option (Text × ℕ)
  token_in o none = none
  token_in o (some body) = token_of o (api.unmarshal body)

  abbrev pub token_response : Options → Option HttpResponse → Option (Text × ℕ)
  token_response o none = none
  token_response o (some resp) =
      if ltb resp.status 200 || ltb 299 resp.status then none else token_in o resp.body

  -- The token and the time to keep it; `none` is an error.
  unfoldable pub fetch_token : Options → Option (Text × ℕ)
  unfolding derive_ttl
  fetch_token o = token_response o (
      api.post (record {
        url = o.token_url;
        form = token_form o;
        user = o.client_id;
        password = o.client_secret;
      }))

  abbrev pub cached_or_fetched : Time → Provider → Option Text → Provider × Option Text
  cached_or_fetched later p (some token) = (p, some token)
  cached_or_fetched later p none = fetched_token later p (fetch_token p.options)

  -- `now` and `later` are the two readings of the clock.
  unfoldable pub token : Time → Time → Provider → Provider × Option Text
  unfolding cached_token fetch_token fetched_token
  token now later p = cached_or_fetched later p (cached_token now p.cached)

  unfoldable pub apply : Time → Time → Dict Text → Provider → Provider × Option (Dict Text)
  unfolding token
  apply now later headers p = let (p', t) = token now later p in (p', with_token headers t)
