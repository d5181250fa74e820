-- ===== src/Audit/Logger.antt =====
-- Entry, NewLogger, LogCall and sanitizeURL of logger.go. The functions of net/url are the fields of
-- `UrlApi`. The times and the attributes of the entry that go to the log as they are, are left out.
use mcp_swagger.Prelude.{Bool, ◌||◌, Option, none, some, List, [], ◌∷◌, if◌then◌else◌}
use mcp_swagger.Text.{Text, codes, is_empty, trim_space, contains}
use mcp_swagger.Dict.{Dict}
use mcp_swagger.Value.{Value}
use mcp_swagger.Audit.Redaction.{
  JsonApi, redacted, lower_trim, to_lower_set, redact_headers, redact_json,
}

-- url.URL: the user, the query, and what sanitizeURL does not read.
pub record Url : Type 0 where
  pub user : Option Text
  pub raw_query : Text
  pub others : Text

pub record UrlApi : Type 0 where
  pub parse : Text → Option Url
  pub parse_query : Text → Dict (List Text)
  pub encode : Dict (List Text) → Text
  pub print : Url → Text

pub record Entry : Type 0 where
  pub operation_id : Text
  pub method : Text
  pub url : Text
  pub correlation_id : Text
  pub request_headers : Dict Text
  pub request_body : Value
  pub response_headers : Dict Text
  pub response_body : Value
  pub error : Text

pub record SlogLogger : Type 0 where
  pub enabled : Bool
  pub redact_headers : List Text
  pub redact_json_fields : List Text

unfoldable pub new_logger : Bool → List Text → List Text → SlogLogger
new_logger enabled headers fields = record {
  enabled = enabled;
  redact_headers = to_lower_set headers;
  redact_json_fields = to_lower_set fields;
}

-- The test on the name of a query parameter.
unfoldable pub is_secret_key : Text → Bool
is_secret_key key =
    contains (lower_trim key) (codes "token")
    || contains (lower_trim key) (codes "secret")
    || contains (lower_trim key) (codes "key")
    || contains (lower_trim key) (codes "password")

unfoldable pub redact_query : Dict (List Text) → Dict (List Text)
unfolding is_secret_key
redact_query [] = []
redact_query ((key, values) ∷ query) =
    let rest = redact_query query in
    if is_secret_key key then (key, redacted ∷ []) ∷ rest else (key, values) ∷ rest

module _ (api : UrlApi) where
  abbrev pub sanitized : Url → Url
  sanitized u = record u {
    user = none;
    raw_query =
        if is_empty u.raw_query
        then u.raw_query
        else api.encode (redact_query (api.parse_query u.raw_query));
  }

  abbrev pub print_or : Text → Option Url → Text
  print_or raw none = raw
  print_or raw (some u) = api.print (sanitized u)

  unfoldable pub sanitize_url : Text → Text
  unfolding redact_query
  sanitize_url raw =
      let trimmed = trim_space raw in
      if is_empty trimmed then trimmed else print_or trimmed (api.parse trimmed)

-- The record that reaches the log; `none` where the logger is off.
unfoldable pub log_call : UrlApi → JsonApi → SlogLogger → Entry → Option Entry
log_call urls json l entry =
    let logged = record entry {
      url = sanitize_url urls entry.url;
      request_headers = redact_headers l.redact_headers entry.request_headers;
      request_body = redact_json json l.redact_json_fields entry.request_body;
      response_headers = redact_headers l.redact_headers entry.response_headers;
      response_body = redact_json json l.redact_json_fields entry.response_body;
    } in
    if l.enabled then some logged else none
