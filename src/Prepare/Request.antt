-- ===== src/Prepare/Request.antt =====
-- prepareEndpointRequest and its options.
use mcp_swagger.Prelude.{
  ℕ, Bool, true, false, not, ◌&&◌, Option, none, some, List, [], ◌∷◌, ltb, Result, ok, err,
  if◌then◌else◌,
}
use mcp_swagger.Text.{Text, codes, is_empty, to_upper, trim_space}
use mcp_swagger.Dict.{Dict, put}
use mcp_swagger.Policy.{is_nil}
use mcp_swagger.Audit.Redaction.{JsonApi}
use mcp_swagger.Contract.Operation.{ResolvedOperation, ExecuteInput, PreparedRequest}
use mcp_swagger.Input.Values.{find_header}
use mcp_swagger.Input.Parse.{filled_or}
use mcp_swagger.Prepare.Template.{expand_path_template}
use mcp_swagger.Prepare.Url.{UrlApi, PrepareError, other_error, build_target_url, infer_base_url}
use mcp_swagger.Prepare.Body.{EncodedBody, byte_length, encode_request_body}

-- `max_body_bytes` is 0 where there is no bound.
pub record PrepareOptions : Type 0 where
  pub base_url : Text
  pub allow_no_base : Bool
  pub max_body_bytes : ℕ
  pub default_agent : Text
  pub default_accept : Text

-- strings.TrimSpace(endpoint.Servers[0]) where there is a first server
abbrev pub first_server : List Text → Text
first_server [] = []
first_server (s ∷ ss) = trim_space s

abbrev pub absent : Option Text → Bool
absent none = true
absent (some value) = false

-- if value != "" { if _, exists := findHeader(headers, key); !exists { headers[key] = value } }
unfoldable pub with_default : Text → Text → Dict Text → Dict Text
with_default key value headers =
    if not (is_empty value) && absent (find_header headers key)
    then put key value headers
    else headers

abbrev pub default_headers : PrepareOptions → ExecuteInput → Dict Text
default_headers opts input =
    with_default (codes "Accept") opts.default_accept
      (with_default (codes "User-Agent") opts.default_agent input.headers)

abbrev pub headers_with : PrepareOptions → ExecuteInput → EncodedBody → Dict Text
headers_with opts input body =
    if is_nil body.bytes
    then default_headers opts input
    else with_default (codes "Content-Type") body.content_type (default_headers opts input)

abbrev pub is_too_large : PrepareOptions → EncodedBody → Bool
is_too_large opts body =
    ltb 0 opts.max_body_bytes && ltb opts.max_body_bytes (byte_length body.bytes)

abbrev pub request_of :
    ResolvedOperation → ExecuteInput → PrepareOptions → Text → Text → EncodedBody → PreparedRequest
request_of endpoint input opts path url body = record {
  operation_id = endpoint.operation_id;
  method = to_upper (trim_space endpoint.method);
  path = path;
  url = url;
  path_params = input.path_params;
  query_params = input.query_params;
  headers = headers_with opts input body;
  content_type = body.content_type;
  body_input = body.parsed;
  body_bytes = body.bytes;
}

abbrev pub with_body :
    ResolvedOperation
    → ExecuteInput
    → PrepareOptions
    → Text
    → Text
    → Result PrepareError EncodedBody
    → Result PrepareError PreparedRequest
with_body endpoint input opts path url (err e) = err e
with_body endpoint input opts path url (ok body) =
    if is_too_large opts body
    then err other_error
    else ok (request_of endpoint input opts path url body)

module _ (api : UrlApi) (json : JsonApi) where
  unfoldable pub base_url_of : ResolvedOperation → ExecuteInput → PrepareOptions → Text
  base_url_of endpoint input opts = filled_or (trim_space opts.base_url) (
      filled_or (trim_space input.base_url) (
        filled_or (first_server endpoint.servers)
          (filled_or (trim_space endpoint.base_url) (infer_base_url api endpoint))))

  abbrev pub with_url :
      ResolvedOperation
      → ExecuteInput
      → PrepareOptions
      → Text
      → Result PrepareError Text
      → Result PrepareError PreparedRequest
  with_url endpoint input opts path (err e) = err e
  with_url endpoint input opts path (ok url) =
      with_body endpoint input opts path url
        (encode_request_body json input.body input.content_type)

  abbrev pub with_expanded :
      ResolvedOperation
      → ExecuteInput
      → PrepareOptions
      → Text × List Text
      → Result PrepareError PreparedRequest
  with_expanded endpoint input opts (path, missing) =
      if not (is_nil missing)
      then err other_error
      else with_url endpoint input opts path (
          build_target_url api (base_url_of endpoint input opts) path input.query_params
            opts.allow_no_base)

  unfoldable pub prepare_endpoint_request :
      ResolvedOperation → ExecuteInput → PrepareOptions → Result PrepareError PreparedRequest
  unfolding expand_path_template base_url_of
  prepare_endpoint_request endpoint input opts =
      if is_empty (to_upper (trim_space endpoint.method))
      then err other_error
      else with_expanded endpoint input opts
          (expand_path_template endpoint.path_template input.path_params)
