-- ===== src/UpstreamAuth/Examples.antt =====
-- Tests of the credentials, and the theorems of the token cache at a provider of tokens for a minute.
use mcp_swagger.Prelude.{◌≡◌, ◌≢◌, refl, ◌*◌, none, some, [], ◌∷◌, arith, pos}
use mcp_swagger.Text.{Text, codes, text_eq, is_space, trim_space}
use mcp_swagger.Dict.{Dict, put, remove}
use mcp_swagger.UpstreamAuth.Fixed.{new_api_key_provider}
use mcp_swagger.UpstreamAuth.OAuth.{
  second, float64, TokenApi, Options, Provider, no_token, signed64, seconds, parse_expires_in,
  derive_ttl, fetch_token, cached_token, store_token, fetched_token, token, apply, new_provider,
}
use mcp_swagger.UpstreamAuth.Cache.{stores, token_not_empty, token_is_reused}

abbrev minute_api : TokenApi
minute_api = record {
  post = λ r. some (record { status = 200; body = some [] });
  unmarshal = λ t. some (record { access_token = codes "tok"; expires_in = float64 (pos 60) });
  parse_int = λ t. none;
}

abbrev closed_api : TokenApi
closed_api = record minute_api { post = λ r. none }

abbrev options : Options
options = record {
  token_url = codes "https://id.test/token";
  client_id = codes "mcp";
  client_secret = codes "s";
  scopes = [];
  audience = [];
  cache_ttl = pos 0;
}

abbrev provider : Provider
provider = record { options = options; cached = no_token }

keys_are_trimmed :
    new_api_key_provider (codes " X-Key ") (codes " k ")
    ≡ some (record { header = codes "X-Key"; value = codes "k" })
unfolding new_api_key_provider trim_space is_space
keys_are_trimmed = refl

provider_made : new_provider options ≡ some provider
unfolding new_provider trim_space is_space
provider_made = refl

-- A token that is valid for three seconds is kept for five.
short_token_is_kept : derive_ttl minute_api (float64 (pos 3)) ≡ 5 * second
unfolding derive_ttl parse_expires_in seconds signed64
short_token_is_kept = refl

minute_fetched : fetch_token minute_api options ≡ some (codes "tok", 50 * second)
unfolding fetch_token derive_ttl parse_expires_in seconds signed64 trim_space is_space
minute_fetched = refl

nothing_cached : cached_token 100 no_token ≡ none
unfolding cached_token
nothing_cached = refl

token_fetched : (token minute_api 100 200 provider).1 ≡ some (codes "tok")
unfolding token cached_token fetched_token fetch_token trim_space is_space
token_fetched = refl

served_at_300 :
    cached_token 300 (stores ((200, (codes "tok", 50 * second)) ∷ []) provider).cached
    ≡ some (codes "tok")
unfolding cached_token store_token
served_at_300 = refl

token_not_empty_example : codes "tok" ≢ []
token_not_empty_example = token_not_empty minute_api 100 200 provider (codes "tok") token_fetched

token_is_reused_example :
    token closed_api 300 400 (token minute_api 100 200 provider).0
    ≡ ((token minute_api 100 200 provider).0, some (codes "tok"))
token_is_reused_example =
    token_is_reused minute_api closed_api 100 200 300 400 provider (codes "tok") (50 * second)
      nothing_cached minute_fetched (omega arith)

minute_parsed : parse_expires_in minute_api (float64 (pos 60)) ≡ pos (60 * second)
unfolding parse_expires_in seconds signed64
minute_parsed = refl

abbrev old_headers : Dict Text
old_headers = (codes "Authorization", codes "old") ∷ []

abbrev new_headers : Dict Text
new_headers = (codes "Authorization", codes "Bearer tok") ∷ []

header_set : (apply minute_api 100 200 old_headers provider).1 ≡ some new_headers
unfolding apply token cached_token fetched_token fetch_token trim_space is_space put remove text_eq
header_set = refl
