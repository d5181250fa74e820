-- ===== src/Tools/Examples.antt =====
-- Tests of the checking tools, and their theorems at a call that lists pets and at its response.
use mcp_swagger.Prelude.{
  ◌≡◌, refl, ◌↔◌, true, none, some, List, [], ◌∷◌, ◌++◌, any, if◌then◌else◌, pos,
}
use mcp_swagger.Text.{
  Text, codes, text_eq, is_space, upper_char, lower_char, to_upper, to_lower, trim_space, member,
  has_prefix, contains,
}
use mcp_swagger.Dict.{get, put, remove}
use mcp_swagger.Value.{Value, num, str, arr, obj, nil, field, end, find_field}
use mcp_swagger.Audit.Redaction.{JsonApi}
use mcp_swagger.Contract.Operation.{ResolvedOperation, PreparedRequest}
use mcp_swagger.Contract.Schema.{unique_strings}
use mcp_swagger.Contract.Checks.{validate_required_params}
use mcp_swagger.Contract.Validate.{validate_required_headers, validate_prepared_request}
use mcp_swagger.Contract.Accepts.{accepts}
use mcp_swagger.Input.Values.{
  to_any_map, to_any_map_or_nil, map_value, param_or_legacy, find_header, value_as_string,
  value_as_string_map,
}
use mcp_swagger.Input.Parse.{parse_execute_input}
use mcp_swagger.Prepare.Template.{utf8, is_path_byte, path_escape, expand_path_template}
use mcp_swagger.Prepare.Url.{
  UrlApi, join_base_and_endpoint_path, trim_right_slash, set_all, set_path_query, build_target_url,
  infer_base_url,
}
use mcp_swagger.Prepare.Body.{byte_length, encode_request_body}
use mcp_swagger.Prepare.Request.{with_default, base_url_of, prepare_endpoint_request}
use mcp_swagger.Tools.Bodies.{
  ResponseBodyEnvelope, is_utf8_text, is_json_content_type, decode_response_body,
}
use mcp_swagger.Tools.RoundTrip.{read_again, decoded_body_returns}
use mcp_swagger.Tools.Checks.{
  Parts, succeeded, issues_of, check_options, validate_request, prepare_request,
}
use mcp_swagger.Tools.Verdicts.{
  IsAbout, IsShown, validate_request_iff_accepted, prepare_request-IsShown,
}

abbrev list_pets : ResolvedOperation
list_pets = record {
  operation_id = codes "listPets";
  method = codes "get";
  base_url = codes "https://api.test";
  path_template = codes "/pets";
  url_template = [];
  path_params = [];
  query_params = [];
  header_params = record { name = codes "accept"; required = true } ∷ [];
  body_schema = Value.null;
  responses = record {
    success =
        record { status = 200; body_schema = obj (field (codes "type") (str (codes "array")) end) }
        ∷ [];
    errors = [];
  };
  servers = [];
}

-- A text is the path of its URL, or the whole of the base URL.
abbrev urls : UrlApi
urls = record {
  parse = λ t. some (record {
    scheme = [];
    host = [];
    path = if has_prefix t (codes "/") then t else [];
    raw_path = [];
    raw_query = [];
    fragment = [];
  });
  parse_query = λ q. [];
  encode = λ q. [];
  print = λ u. codes "https://api.test" ++ u.path;
}

-- Every text is the JSON of the empty list.
abbrev json : JsonApi
json = record { unmarshal = λ t. some (arr nil); marshal = λ v. none }

abbrev parts : Parts
parts = record {
  numbers = record { format_float = λ m e. []; atoi = λ t. none };
  urls = urls;
  json = json;
  bytes = record { text_of = λ b. b; is_valid = λ b. true; base64 = λ b. b; sprint = λ v. [] };
  quote = λ t. t;
  get_endpoint_by_operation_id = some (λ id. some list_pets);
  max_request_size = 1000;
  user_agent = codes "agent";
}

abbrev list_call : Value
list_call = obj (field (codes "operationId") (str (codes "listPets")) end)

abbrev list_request : PreparedRequest
list_request = record {
  operation_id = codes "listPets";
  method = codes "GET";
  path = codes "/pets";
  url = codes "https://api.test/pets";
  path_params = [];
  query_params = [];
  headers = (codes "Accept", codes "application/json") ∷ (codes "User-Agent", codes "agent") ∷ [];
  content_type = [];
  body_input = Value.null;
  body_bytes = [];
}

-- The default headers of swagger.prepare_request meet the contract.
prepared_is_valid : prepare_request parts list_call ≡ succeeded (list_request, [])
unfolding prepare_request validate_prepared_request unique_strings validate_required_params
    validate_required_headers get put remove member text_eq trim_space is_space to_upper upper_char
    to_lower lower_char parse_execute_input to_any_map to_any_map_or_nil map_value param_or_legacy
    find_header value_as_string value_as_string_map find_field prepare_endpoint_request
    expand_path_template path_escape utf8 is_path_byte any base_url_of infer_base_url
    build_target_url has_prefix trim_right_slash join_base_and_endpoint_path set_all set_path_query
    with_default encode_request_body byte_length
prepared_is_valid = refl

-- swagger.validate_request adds no default headers.
validated_is_not :
    validate_request parts list_call
    ≡ succeeded (codes "missing required header parameter accept" ∷ [])
unfolding validate_request validate_prepared_request unique_strings validate_required_params
    validate_required_headers get put remove member text_eq trim_space is_space to_upper upper_char
    to_lower lower_char parse_execute_input to_any_map to_any_map_or_nil map_value param_or_legacy
    find_header value_as_string value_as_string_map find_field prepare_endpoint_request
    expand_path_template path_escape utf8 is_path_byte any base_url_of infer_base_url
    build_target_url has_prefix trim_right_slash join_base_and_endpoint_path set_all set_path_query
    with_default encode_request_body byte_length
validated_is_not = refl

abbrev no_issues : List Text
no_issues = []

prepare_request-IsShown_example : IsShown parts list_call list_request no_issues
prepare_request-IsShown_example =
    prepare_request-IsShown parts list_call list_request no_issues prepared_is_valid

validate_request_iff_accepted_example : (validate_request parts list_call ≡ succeeded []) ↔ (
    (about : (issues : List Text) × IsAbout parts check_options (issues_of parts) list_call issues)
    × (accepts parts.bytes.sprint about.1.endpoint about.1.request ≡ true))
validate_request_iff_accepted_example = validate_request_iff_accepted parts list_call

abbrev response_call : Value
response_call = obj (
    field (codes "operationId") (str (codes "listPets"))
      (field (codes "status") (num (pos 200) 0) (field (codes "body") (str (codes "[ ]")) end)))

abbrev response_body : ResponseBodyEnvelope
response_body = record {
  content_type = codes "application/json";
  body_encoding = codes "json";
  body = arr nil;
}

decoded_body_returns_example :
    read_again parts.numbers json parts.bytes
      (decode_response_body parts.numbers json parts.bytes [] (codes "pets"))
    ≡ decode_response_body parts.numbers json parts.bytes [] (codes "pets")
unfolding decode_response_body is_utf8_text is_json_content_type trim_space is_space to_lower
    contains has_prefix text_eq any
decoded_body_returns_example =
    decoded_body_returns parts.numbers json parts.bytes [] (codes "pets") refl
