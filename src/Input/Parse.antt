-- ===== src/Input/Parse.antt =====
-- parseToolInputEnvelope, parseExecuteInput, parseSearchInput, parsePlanCallInput and
-- parseValidateResponseInput of swagger_http_common.go. `none` is an error.
use mcp_swagger.Prelude.{
  ℕ, suc, Bool, true, false, ◌&&◌, Option, none, some, List, [], ◌∷◌, ℤ, pos, if◌then◌else◌,
}
use mcp_swagger.Text.{Text, codes, is_empty, to_lower, to_upper, trim_space}
use mcp_swagger.Dict.{Dict}
use mcp_swagger.Policy.{is_nil}
use mcp_swagger.Value.{Value, str, Fields, end}
use mcp_swagger.Contract.Operation.{ExecuteInput}
use mcp_swagger.Input.Values.{
  Numbers, to_any_map, to_any_map_or_nil, map_value, first_non_nil, param_or_legacy, find_header,
  value_as_string, value_as_string_map, parse_status_code, parse_string_list_any,
}

pub record ToolInputEnvelope : Type 0 where
  pub operation_id : Text
  pub path : Fields
  pub query : Fields
  pub headers : Fields
  pub body : Value
  pub content_type : Text
  pub base_url : Text

pub record SearchInput : Type 0 where
  pub query : Text
  pub method : Text
  pub tag : Text
  pub limit : ℕ
  pub include : List Text
  pub schema : Text
  pub status : ℕ

pub record PlanCallInput : Type 0 where
  pub operation_id : Text
  pub query : Text
  pub goal : Text

pub record ValidateResponseInput : Type 0 where
  pub operation_id : Text
  pub status : ℕ
  pub headers : Dict Text
  pub content_type : Text
  pub body_encoding : Text
  pub body : Value

-- if text == "" { text = next }
abbrev pub filled_or : Text → Text → Text
filled_or text next = if is_empty text then next else text

infixl 5 ◌⟫◌
abbrev pub ◌⟫◌ {ℓ κ} : {A : Type ℓ} {B : Type κ} → Option A → (A → Option B) → Option B
none ⟫ f = none
some a ⟫ f = f a

-- m := map[string]any{}; if raw != nil { m, err = toAnyMap(raw) }
abbrev pub params_of : Fields → Option Fields
params_of in_map = to_any_map (map_value in_map (codes "params"))

module _ (numbers : Numbers) where
  abbrev pub text_at : Fields → Text → Text
  text_at fs key = trim_space (value_as_string numbers (map_value fs key))

  abbrev pub envelope_of : Fields → Fields → Fields → Fields → Value → Text → ToolInputEnvelope
  envelope_of in_map path query headers body operation_id = record {
    operation_id = operation_id;
    path = path;
    query = query;
    headers = headers;
    body = body;
    content_type =
        filled_or (text_at in_map (codes "contentType")) (text_at in_map (codes "content_type"));
    base_url = filled_or (text_at in_map (codes "baseURL")) (text_at in_map (codes "baseUrl"));
  }

  abbrev pub read_params : Fields → Text → Fields → Option ToolInputEnvelope
  read_params in_map operation_id params =
      to_any_map_or_nil
        (param_or_legacy params (codes "path") (map_value in_map (codes "pathParams")))
      ⟫ λ path.
          to_any_map_or_nil
            (param_or_legacy params (codes "query") (map_value in_map (codes "queryParams")))
          ⟫ λ query.
              to_any_map_or_nil
                (param_or_legacy params (codes "headers") (map_value in_map (codes "headers")))
              ⟫ λ headers.
                  let body =
                    param_or_legacy params (codes "body") (map_value in_map (codes "body")) in
                  some (envelope_of in_map path query headers body operation_id)

  abbrev pub read_envelope : Bool → Fields → Option ToolInputEnvelope
  read_envelope require_operation_id in_map =
      let operation_id =
        filled_or (text_at in_map (codes "operationId")) (text_at in_map (codes "operationID")) in
      if require_operation_id && is_empty operation_id
      then none
      else params_of in_map ⟫ read_params in_map operation_id

  unfoldable pub parse_tool_input_envelope : Value → Bool → Option ToolInputEnvelope
  parse_tool_input_envelope input require_operation_id =
      to_any_map input ⟫ read_envelope require_operation_id

  -- if envelope.Params.Query == nil { queryMap, queryErr := toAnyMapOrNil(inMap["query"]) ... }
  abbrev pub query_or : Fields → Fields → Fields
  query_or end in_map = elim (to_any_map_or_nil (map_value in_map (codes "query"))) [
    | none ↦ end
    | some fs ↦ fs
  ]
  query_or query in_map = query

  abbrev pub content_type_or : Text → Dict Text → Text
  content_type_or content_type headers =
      filled_or content_type (elim (find_header headers (codes "Content-Type")) [
        | none ↦ []
        | some value ↦ trim_space value
      ])

  abbrev pub confirmation_id_of : Fields → Fields → Text
  confirmation_id_of in_map query = filled_or (text_at in_map (codes "confirmationId")) (
      filled_or (text_at in_map (codes "confirmationID")) (
        filled_or (text_at in_map (codes "confirmationToken")) (
          filled_or (text_at query (codes "confirmationId"))
            (text_at query (codes "confirmationToken")))))

  abbrev pub execute_input_of : ToolInputEnvelope → Fields → Option ExecuteInput
  execute_input_of envelope in_map =
      let query = query_or envelope.query in_map in
      value_as_string_map numbers (Value.obj envelope.path) ⟫ λ path_params.
      value_as_string_map numbers (Value.obj query) ⟫ λ query_params.
      value_as_string_map numbers (Value.obj envelope.headers) ⟫ λ headers. some (record {
        operation_id = envelope.operation_id;
        path_params = path_params;
        query_params = query_params;
        headers = headers;
        body = envelope.body;
        content_type = content_type_or envelope.content_type headers;
        base_url = envelope.base_url;
        confirmation_id = confirmation_id_of in_map query;
      })

  unfoldable pub parse_execute_input : Value → Option ExecuteInput
  unfolding parse_tool_input_envelope
  parse_execute_input input = parse_tool_input_envelope input true ⟫ λ envelope.
      to_any_map input ⟫ execute_input_of envelope

  -- if parseErr == nil && parsed > 0 { n = parsed }
  abbrev positive_status_or : ℕ → Option ℤ → ℕ
  positive_status_or default (some (pos (suc n))) = suc n
  positive_status_or default o = default

  abbrev search_input_of : Fields → Fields → SearchInput
  search_input_of query in_map =
      let either : Text → Value =
        λ key. first_non_nil (map_value query key ∷ map_value in_map key ∷ []) in
      let included = parse_string_list_any numbers (either (codes "include")) in
      record {
        query = to_lower (
            trim_space (
              value_as_string numbers (
                first_non_nil (
                  map_value query (codes "query")
                  ∷ map_value in_map (codes "query")
                  ∷ map_value query (codes "q")
                  ∷ map_value in_map (codes "q")
                  ∷ []))));
        method = to_upper (trim_space (value_as_string numbers (either (codes "method"))));
        tag = to_lower (trim_space (value_as_string numbers (either (codes "tag"))));
        limit = positive_status_or 20 (parse_status_code numbers (either (codes "limit")));
        include = if is_nil included then codes "endpoints" ∷ [] else included;
        schema = trim_space (value_as_string numbers (either (codes "schema")));
        status = positive_status_or 0 (parse_status_code numbers (either (codes "status")));
      }

  unfoldable pub parse_search_input : Value → Option SearchInput
  unfolding parse_tool_input_envelope
  parse_search_input input = parse_tool_input_envelope input false ⟫ λ envelope.
      to_any_map input ⟫ λ in_map. some (search_input_of envelope.query in_map)

  -- mapValueAsString
  unfoldable pub map_value_as_string : Value → Text → Text
  map_value_as_string value key = elim (to_any_map value) [
    | none ↦ []
    | some fs ↦ value_as_string numbers (map_value fs key)
  ]

  unfoldable pub parse_plan_call_input : Value → Option PlanCallInput
  unfolding parse_tool_input_envelope map_value_as_string
  parse_plan_call_input input = parse_tool_input_envelope input false ⟫ λ envelope.
      to_any_map input ⟫ λ in_map. some (record {
        operation_id = trim_space envelope.operation_id;
        query = trim_space (
            value_as_string numbers (
              first_non_nil (
                map_value envelope.query (codes "query")
                ∷ map_value in_map (codes "query")
                ∷ map_value envelope.query (codes "q")
                ∷ map_value in_map (codes "q")
                ∷ [])));
        goal = trim_space (
            value_as_string numbers (
              first_non_nil (
                map_value envelope.query (codes "goal")
                ∷ map_value in_map (codes "goal")
                ∷ str (map_value_as_string envelope.body (codes "goal"))
                ∷ [])));
      })

  abbrev response_input_of :
      ToolInputEnvelope → Fields → Dict Text → Option ℤ → Option ValidateResponseInput
  response_input_of envelope in_map headers (some (pos (suc status))) = some (record {
    operation_id = envelope.operation_id;
    status = suc status;
    headers = headers;
    content_type = content_type_or (trim_space envelope.content_type) headers;
    body_encoding = to_lower (text_at in_map (codes "bodyEncoding"));
    body = envelope.body;
  })
  response_input_of envelope in_map headers o = none

  unfoldable pub parse_validate_response_input : Value → Option ValidateResponseInput
  unfolding parse_tool_input_envelope
  parse_validate_response_input input = parse_tool_input_envelope input true ⟫ λ envelope.
      to_any_map input ⟫ λ in_map.
      value_as_string_map numbers (Value.obj envelope.headers) ⟫ λ headers.
      let status =
        first_non_nil
          (map_value envelope.query (codes "status") ∷ map_value in_map (codes "status") ∷ []) in
      response_input_of envelope in_map headers (parse_status_code numbers status)
