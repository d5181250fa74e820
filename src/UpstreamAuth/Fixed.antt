-- ===== src/UpstreamAuth/Fixed.antt =====
-- bearer_static.go and api_key.go. `canonical` is the spelling that http.Header gives a key; a
-- constructor's `none` is ErrInvalidConfig.
use mcp_swagger.Prelude.{Option, none, some, ◌++◌, if◌then◌else◌}
use mcp_swagger.Text.{Text, codes, is_empty, trim_space}
use mcp_swagger.Dict.{Dict, put}

abbrev pub authorization : Text
authorization = codes "Authorization"

pub record StaticBearerProvider : Type 0 where
  pub token : Text

pub record ApiKeyProvider : Type 0 where
  pub header : Text
  pub value : Text

unfoldable pub new_static_bearer_provider : Text → Option StaticBearerProvider
new_static_bearer_provider token =
    let trimmed = trim_space token in
    if is_empty trimmed then none else some (record { token = trimmed })

unfoldable pub new_api_key_provider : Text → Text → Option ApiKeyProvider
new_api_key_provider header value =
    let h = trim_space header in
    let v = trim_space value in
    if is_empty h
    then none
    else if is_empty v
    then none
    else some (record { header = h; value = v })

unfoldable pub apply_bearer : StaticBearerProvider → Dict Text → Dict Text
apply_bearer p headers = put authorization (codes "Bearer " ++ p.token) headers

unfoldable pub apply_api_key : (Text → Text) → ApiKeyProvider → Dict Text → Dict Text
apply_api_key canonical p headers = put (canonical p.header) p.value headers
