-- ===== src/Execute/Examples.antt =====
-- Tests of swagger.http.execute, and its theorems at a call that deletes a pet with a confirmation.
use mcp_swagger.Prelude.{
  ◌≡◌, ◌≢◌, refl, inl, true, false, none, some, [], ◌∷◌, ◌++◌, ok, any, if◌then◌else◌,
}
use mcp_swagger.Text.{
  Text, codes, text_eq, is_space, upper_char, lower_char, to_upper, to_lower, trim_space, member,
  has_prefix,
}
use mcp_swagger.Dict.{get, put, remove, remove_if}
use mcp_swagger.Value.{Value, str, obj, field, end, find_field}
use mcp_swagger.Policy.{
  DefaultEvaluator, mode_execute_write, mode_sandbox, is_write_method, evaluate, evaluate_mode,
}
use mcp_swagger.Confirmation.{
  Record, MemoryStore, consume_approved, cleanup_locked, check_matches, is_expired, is_stale,
  clone_record,
}
use mcp_swagger.Execute.Env.{
  ExecuteInput, PreparedRequest, ResolvedOperation, SwaggerExecuteOptions, Env,
}
use mcp_swagger.Contract.Schema.{unique_strings}
use mcp_swagger.Contract.Checks.{validate_required_params}
use mcp_swagger.Contract.Validate.{validate_required_headers, validate_prepared_request}
use mcp_swagger.Input.Values.{
  to_any_map, to_any_map_or_nil, map_value, param_or_legacy, find_header, value_as_string,
  value_as_string_map,
}
use mcp_swagger.Input.Parse.{parse_execute_input}
use mcp_swagger.Prepare.Template.{utf8, is_path_byte, path_escape, expand_path_template}
use mcp_swagger.Prepare.Url.{
  UrlApi, join_base_and_endpoint_path, trim_right_slash, set_all, set_path_query, build_target_url,
  infer_base_url,
}
use mcp_swagger.Prepare.Body.{byte_length, encode_request_body}
use mcp_swagger.Prepare.Request.{with_default, base_url_of, prepare_endpoint_request}
use mcp_swagger.Execute.BaseUrl.{resolve_base_url}
use mcp_swagger.Execute.Sandbox.{IsOnHost, sandbox_only}
use mcp_swagger.Execute.Tool.{
  inc_inflight, inc_total, audited_success, sent, observe_duration, dec_inflight, emit, header_name,
  first_header_value, add_correlation, answer_of, send, confirm_call, authorise, execute,
}
use mcp_swagger.Execute.Gates.{IsSent, IsConsumed}
use mcp_swagger.Execute.Cleared.{IsCleared, sent-IsCleared, write_needs_confirmation}
use mcp_swagger.Execute.Effects.{IsAccounted, execute-IsAccounted}

abbrev pet_7 : Text
pet_7 = codes "https://api.test/pets/7"

abbrev call : Value
call = obj (
    field (codes "operationId") (str (codes "deletePet")) (
      field (codes "params")
        (obj (field (codes "path") (obj (field (codes "id") (str (codes "7")) end)) end))
        (field (codes "confirmationId") (str (codes "c1")) end)))

abbrev prepared : PreparedRequest
prepared = record {
  operation_id = codes "deletePet";
  method = codes "DELETE";
  path = codes "/pets/7";
  url = pet_7;
  path_params = (codes "id", codes "7") ∷ [];
  query_params = [];
  headers =
      (codes "X-Correlation-Id", codes "r2") ∷ (codes "Accept", codes "application/json") ∷ [];
  content_type = [];
  body_input = Value.null;
  body_bytes = [];
}

abbrev delete_endpoint : ResolvedOperation
delete_endpoint = record {
  operation_id = codes "deletePet";
  method = codes "delete";
  base_url = codes "https://api.test";
  path_template = codes "/pets/{id}";
  url_template = [];
  path_params = record { name = codes "id"; required = true } ∷ [];
  query_params = [];
  header_params = [];
  body_schema = Value.null;
  responses = record { success = []; errors = [] };
  servers = [];
}

abbrev guarded : DefaultEvaluator
guarded = record {
  mode = mode_execute_write;
  allowed_methods = [];
  denied_methods = [];
  allowed_operation_ids = [];
  denied_operation_ids = [];
  require_confirmation_for_write = true;
}

abbrev sandbox_options : SwaggerExecuteOptions
sandbox_options = record {
  mode = codes " Sandbox";
  upstream_base_url = codes "https://live.test";
  upstream_sandbox_base_url = codes "https://sandbox.test ";
  validate_request = true;
  correlation_id_header = [];
  validate_url = none;
  max_request_bytes = 1000;
  user_agent = [];
}

-- A text that starts with a slash is a path, and any other is a host.
abbrev urls : UrlApi
urls = record {
  parse = λ t. some (record {
    scheme = [];
    host = if has_prefix t (codes "/") then [] else t;
    path = if has_prefix t (codes "/") then t else [];
    raw_path = [];
    raw_query = [];
    fragment = [];
  });
  parse_query = λ q. [];
  encode = λ q. [];
  print = λ u. u.host ++ u.path;
}

abbrev pet_env : Env
pet_env = record {
  numbers = record { format_float = λ m e. []; atoi = λ t. none };
  urls = urls;
  json = record { unmarshal = λ t. none; marshal = λ v. none };
  get_endpoint_by_operation_id = some (λ id. some delete_endpoint);
  canonical_header_key = λ t. t;
  id_from_context = none;
  generate_id = codes "r2";
  evaluate = λ op method url. some (evaluate guarded op method);
  sprint = λ v. [];
  quote = λ t. t;
  new_request_ok = λ p. true;
  apply_auth = λ p. true;
  http_do = some (λ p. ok (record { status = 204; readable = true }));
  options = record sandbox_options { mode = codes "execute_write"; upstream_base_url = [] };
}

abbrev approved_entry : Record
approved_entry = record {
  id = codes "c1";
  operation_id = codes "deletePet";
  method = codes "DELETE";
  final_url = pet_7;
  prepared_request_summary = Value.null;
  reason = [];
  approved = true;
  consumed = false;
  created_at = 100;
  expires_at = 700;
}

abbrev store : MemoryStore
store = record { ttl = 600; items = (codes "c1", approved_entry) ∷ [] }

deletes_pet :
    (execute pet_env 190 200 call (some store)).1
    ≡ inc_inflight
      ∷ sent prepared
      ∷ inc_total (codes "deletePet") (codes "DELETE") 204
      ∷ audited_success
      ∷ observe_duration
      ∷ dec_inflight
      ∷ []
unfolding execute resolve_base_url add_correlation header_name first_header_value send emit
    answer_of authorise confirm_call evaluate evaluate_mode is_write_method member consume_approved
    cleanup_locked check_matches is_expired is_stale clone_record get put remove remove_if text_eq
    trim_space is_space to_upper upper_char to_lower lower_char validate_prepared_request
    unique_strings validate_required_params validate_required_headers parse_execute_input to_any_map
    to_any_map_or_nil map_value param_or_legacy find_header value_as_string value_as_string_map
    find_field prepare_endpoint_request expand_path_template path_escape utf8 is_path_byte any
    base_url_of infer_base_url build_target_url has_prefix trim_right_slash
    join_base_and_endpoint_path set_all set_path_query with_default encode_request_body byte_length
deletes_pet = refl

prepared-IsSent : IsSent prepared (execute pet_env 190 200 call (some store)).1
prepared-IsSent = rw deletes_pet (inl refl)

sent-IsCleared_example :
    IsCleared pet_env 190 200 call
      (some store)
      (execute pet_env 190 200 call (some store)).0
      prepared
sent-IsCleared_example = sent-IsCleared pet_env 190 200 call (some store) prepared prepared-IsSent

delete_is_write : is_write_method prepared.method ≡ true
unfolding is_write_method member text_eq trim_space is_space to_upper upper_char
delete_is_write = refl

write_needs_confirmation_example :
    (read : ExecuteInput) × (parse_execute_input pet_env.numbers call ≡ some read)
    × IsConsumed pet_env 190 200 read prepared
        (some store)
        (execute pet_env 190 200 call (some store)).0
write_needs_confirmation_example =
    write_needs_confirmation pet_env guarded 190 200 call (some store) prepared
      (λ op method url. refl) refl delete_is_write prepared-IsSent

execute-IsAccounted_example : IsAccounted (execute pet_env 190 200 call (some store))
execute-IsAccounted_example = execute-IsAccounted pet_env 190 200 call (some store)

abbrev sandbox_env : Env
sandbox_env = record pet_env { options = sandbox_options }

abbrev sandbox_7 : Text
sandbox_7 = codes "https://sandbox.test/pets/7"

abbrev sandbox_prepared : PreparedRequest
sandbox_prepared = record prepared { url = sandbox_7 }

abbrev sandbox_store : MemoryStore
sandbox_store = record {
  ttl = 600;
  items = (codes "c1", record approved_entry { final_url = sandbox_7 }) ∷ [];
}

deletes_sandbox_pet :
    (execute sandbox_env 190 200 call (some sandbox_store)).1
    ≡ inc_inflight
      ∷ sent sandbox_prepared
      ∷ inc_total (codes "deletePet") (codes "DELETE") 204
      ∷ audited_success
      ∷ observe_duration
      ∷ dec_inflight
      ∷ []
unfolding execute resolve_base_url add_correlation header_name first_header_value send emit
    answer_of authorise confirm_call evaluate evaluate_mode is_write_method member consume_approved
    cleanup_locked check_matches is_expired is_stale clone_record get put remove remove_if text_eq
    trim_space is_space to_upper upper_char to_lower lower_char validate_prepared_request
    unique_strings validate_required_params validate_required_headers parse_execute_input to_any_map
    to_any_map_or_nil map_value param_or_legacy find_header value_as_string value_as_string_map
    find_field prepare_endpoint_request expand_path_template path_escape utf8 is_path_byte any
    base_url_of infer_base_url build_target_url has_prefix trim_right_slash
    join_base_and_endpoint_path set_all set_path_query with_default encode_request_body byte_length
deletes_sandbox_pet = refl

sandbox_mode : to_lower (trim_space sandbox_env.options.mode) ≡ mode_sandbox
unfolding trim_space is_space to_lower lower_char
sandbox_mode = refl

sandbox_prepared-IsSent :
    IsSent sandbox_prepared (execute sandbox_env 190 200 call (some sandbox_store)).1
sandbox_prepared-IsSent = rw deletes_sandbox_pet (inl refl)

sandbox_only_example :
    (trim_space sandbox_options.upstream_sandbox_base_url ≢ [])
    × IsOnHost sandbox_env.urls (trim_space sandbox_options.upstream_sandbox_base_url) sandbox_7
sandbox_only_example =
    sandbox_only sandbox_env 190 200 call (some sandbox_store) sandbox_prepared sandbox_mode
      sandbox_prepared-IsSent
