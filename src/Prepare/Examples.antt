-- ===== src/Prepare/Examples.antt =====
-- Tests of the preparation of requests, and its theorems at a call that deletes a pet.
use mcp_swagger.Prelude.{
  ◌≡◌, refl, ℕ, zero, suc, false, none, some, [], ◌∷◌, ◌++◌, ok, ◌==◌, any, if◌then◌else◌,
}
use mcp_swagger.Text.{
  Text, codes, text_eq, is_space, upper_char, lower_char, to_upper, to_lower, trim_space,
  has_prefix,
}
use mcp_swagger.Dict.{get, put, remove}
use mcp_swagger.Value.{Value}
use mcp_swagger.Contract.Schema.{unique_strings}
use mcp_swagger.Contract.Operation.{ResolvedOperation, ExecuteInput, PreparedRequest}
use mcp_swagger.Audit.Redaction.{JsonApi}
use mcp_swagger.Input.Values.{find_header}
use mcp_swagger.Prepare.Template.{
  pieces_from, is_path_byte, path_escape, expand_path_template, utf8,
}
use mcp_swagger.Prepare.Url.{
  Url, UrlApi, join_base_and_endpoint_path, trim_right_slash, set_all, set_path_query,
  build_target_url, infer_base_url,
}
use mcp_swagger.Prepare.Body.{byte_length, encode_request_body}
use mcp_swagger.Prepare.Request.{
  PrepareOptions, with_default, base_url_of, prepare_endpoint_request,
}
use mcp_swagger.Prepare.Correct.{escaping_undone, IsPrepared, prepare_endpoint_request-IsPrepared}
use mcp_swagger.Prepare.Segments.{slashes, literal_slashes, expand_path_template-slashes}

-- The only escape of these tests is the one of the slash.
abbrev decode : ℕ → Text → Text
decode n [] = []
decode (suc n) (c ∷ t) = decode n t
decode zero (c ∷ t) =
    let escaped = decode 2 t in let rest = decode 0 t in if c == 37 then 47 ∷ escaped else c ∷ rest

abbrev relative : Text → Url
relative t = record {
  scheme = [];
  host = [];
  path = decode 0 t;
  raw_path = t;
  raw_query = [];
  fragment = [];
}

abbrev absolute : Url
absolute = record {
  scheme = codes "https";
  host = codes "h";
  path = codes "/v1";
  raw_path = [];
  raw_query = [];
  fragment = [];
}

abbrev urls : UrlApi
urls = record {
  parse = λ t. some (if has_prefix t (codes "https:") then absolute else relative t);
  parse_query = λ q. [];
  encode = λ q. [];
  print = λ u. u.scheme ++ (codes "://" ++ (u.host ++ u.path));
}

abbrev json : JsonApi
json = record { unmarshal = λ t. none; marshal = λ v. some (codes "{}") }

abbrev delete_endpoint : ResolvedOperation
delete_endpoint = record {
  operation_id = codes "deletePet";
  method = codes "delete";
  base_url = [];
  path_template = codes "/pets/{id}";
  url_template = [];
  path_params = [];
  query_params = [];
  header_params = [];
  body_schema = Value.null;
  responses = record { success = []; errors = [] };
  servers = codes "https://h/v1" ∷ [];
}

abbrev delete_input : Text → ExecuteInput
delete_input id = record {
  operation_id = codes "deletePet";
  path_params = (codes "id", id) ∷ [];
  query_params = [];
  headers = (codes "accept", codes "text/csv") ∷ [];
  body = Value.null;
  content_type = [];
  base_url = [];
  confirmation_id = codes "c1";
}

abbrev opts : PrepareOptions
opts = record {
  base_url = [];
  allow_no_base = false;
  max_body_bytes = 100;
  default_agent = codes "agent";
  default_accept = codes "application/json";
}

slash_escaped :
    expand_path_template (codes "/pets/{id}") ((codes "id", codes "7/x") ∷ [])
    ≡ (codes "/pets/7%2Fx", [])
unfolding expand_path_template get text_eq trim_space is_space path_escape utf8 is_path_byte any
    unique_strings
slash_escaped = refl

abbrev delete_request : Text → Text → PreparedRequest
delete_request id url = record {
  operation_id = codes "deletePet";
  method = codes "DELETE";
  path = codes "/pets/7%2Fx";
  url = url;
  path_params = (codes "id", id) ∷ [];
  query_params = [];
  headers = (codes "User-Agent", codes "agent") ∷ (codes "accept", codes "text/csv") ∷ [];
  content_type = [];
  body_input = Value.null;
  body_bytes = [];
}

-- The slash of the parameter is a slash of the URL.
parameter_leaves_its_segment :
    prepare_endpoint_request urls json delete_endpoint (delete_input (codes "7/x")) opts
    ≡ ok (delete_request (codes "7/x") (codes "https://h/v1/pets/7/x"))
unfolding prepare_endpoint_request expand_path_template get text_eq trim_space is_space path_escape
    utf8 is_path_byte any unique_strings upper_char to_upper lower_char to_lower base_url_of
    infer_base_url build_target_url has_prefix trim_right_slash join_base_and_endpoint_path set_all
    set_path_query with_default find_header put remove encode_request_body byte_length
parameter_leaves_its_segment = refl

prepare_endpoint_request-IsPrepared_example :
    IsPrepared urls json delete_endpoint
      (delete_input (codes "7/x"))
      opts
      (delete_request (codes "7/x") (codes "https://h/v1/pets/7/x"))
prepare_endpoint_request-IsPrepared_example =
    prepare_endpoint_request-IsPrepared urls json delete_endpoint (delete_input (codes "7/x")) opts
      (delete_request (codes "7/x") (codes "https://h/v1/pets/7/x")) parameter_leaves_its_segment

escaping_undone_example :
    build_target_url urls (codes "https://h/v1") (codes "/pets/7%2Fx") [] false
    ≡ build_target_url urls (codes "https://h/v1") (codes "/pets/7/x") [] false
unfolding trim_space is_space has_prefix
escaping_undone_example =
    escaping_undone urls (codes "https://h/v1") (codes "/pets/7%2Fx") (codes "/pets/7/x") [] false
      (relative (codes "/pets/7%2Fx")) (relative (codes "/pets/7/x")) refl refl refl
      (refl, refl, refl, refl, refl)

expand_path_template-slashes_example :
    slashes (codes "/pets/7%2Fx") ≡ literal_slashes (pieces_from none (codes "/pets/{id}"))
expand_path_template-slashes_example =
    expand_path_template-slashes (codes "/pets/{id}") ((codes "id", codes "7/x") ∷ [])
      (codes "/pets/7%2Fx") slash_escaped
