-- ===== src/Tools/Checks.antt =====
-- Execute of swagger.validate_request, swagger.prepare_request and swagger.validate_response, with
-- prepareRequestForExecution. The texts of errors and the details of results are left out.
use mcp_swagger.Prelude.{ℕ, true, Option, none, some, List, [], Result, ok, err}
use mcp_swagger.Text.{Text, codes}
use mcp_swagger.Value.{Value}
use mcp_swagger.Audit.Redaction.{JsonApi}
use mcp_swagger.Contract.Operation.{ResolvedOperation, ExecuteInput, PreparedRequest}
use mcp_swagger.Contract.Validate.{validate_prepared_request, validate_response}
use mcp_swagger.Input.Values.{Numbers}
use mcp_swagger.Input.Parse.{
  ValidateResponseInput, parse_execute_input, parse_validate_response_input,
}
use mcp_swagger.Prepare.Url.{UrlApi, PrepareError, no_base_url, other_error}
use mcp_swagger.Prepare.Request.{PrepareOptions, prepare_endpoint_request}
use mcp_swagger.Tools.Bodies.{
  BytesApi, ResponseBodyEnvelope, normalize_response_body, body_for_validation,
}

-- What the tools are built of; the last two are the options of swagger.prepare_request.
pub record Parts : Type 0 where
  pub numbers : Numbers
  pub urls : UrlApi
  pub json : JsonApi
  pub bytes : BytesApi
  pub quote : Text → Text
  pub get_endpoint_by_operation_id : Option (Text → Option ResolvedOperation)
  pub max_request_size : ℕ
  pub user_agent : Text

-- An errorResult with its code, or an okResult; `valid` is that there are no errors.
pub data Outcome (A : Type 0) : Type 0 where
  failed : Text → Outcome A
  succeeded : A → Outcome A

abbrev pub invalid_request : Text
invalid_request = codes "invalid_request"

abbrev pub failure_code : PrepareError → Text
failure_code no_base_url = codes "no_base_url"
failure_code other_error = invalid_request

abbrev pub check_options : ExecuteInput → PrepareOptions
check_options input = record {
  base_url = input.base_url;
  allow_no_base = true;
  max_body_bytes = 0;
  default_agent = [];
  default_accept = [];
}

module _ (parts : Parts) where
  abbrev pub issues_of : ResolvedOperation → PreparedRequest → List Text
  issues_of = validate_prepared_request parts.bytes.sprint parts.quote

  abbrev pub with_prepared :
      {A : Type 0} → (PreparedRequest → A) → Result PrepareError PreparedRequest → Outcome A
  with_prepared result (err e) = failed (failure_code e)
  with_prepared result (ok p) = succeeded (result p)

  abbrev pub preparing :
      {A : Type 0}
      → (ExecuteInput → PrepareOptions)
      → (ResolvedOperation → PreparedRequest → A)
      → ExecuteInput
      → Option ResolvedOperation
      → Outcome A
  preparing options result input none = failed invalid_request
  preparing options result input (some endpoint) =
      with_prepared (result endpoint)
        (prepare_endpoint_request parts.urls parts.json endpoint input (options input))

  abbrev pub reading :
      {A : Type 0}
      → (ExecuteInput → PrepareOptions)
      → (ResolvedOperation → PreparedRequest → A)
      → Option (Text → Option ResolvedOperation)
      → Option ExecuteInput
      → Outcome A
  reading options result none input = failed invalid_request
  reading options result (some get_endpoint) none = failed invalid_request
  reading options result (some get_endpoint) (some input) =
      preparing options result input (get_endpoint input.operation_id)

  -- Execute of swagger.validate_request: the errors that it reports.
  unfoldable pub validate_request : Value → Outcome (List Text)
  validate_request input =
      reading check_options issues_of parts.get_endpoint_by_operation_id
        (parse_execute_input parts.numbers input)

  abbrev pub call_options : ExecuteInput → PrepareOptions
  call_options input = record {
    base_url = input.base_url;
    allow_no_base = true;
    max_body_bytes = parts.max_request_size;
    default_agent = parts.user_agent;
    default_accept = codes "application/json";
  }

  -- Execute of swagger.prepare_request: the request, and the errors of its validation.
  unfoldable pub prepare_request : Value → Outcome (PreparedRequest × List Text)
  prepare_request input =
      reading call_options (λ endpoint p. (p, issues_of endpoint p))
        parts.get_endpoint_by_operation_id (parse_execute_input parts.numbers input)

  abbrev pub normalized : ValidateResponseInput → ResponseBodyEnvelope
  normalized input =
      normalize_response_body parts.numbers parts.json parts.bytes input.content_type
        input.body_encoding input.body

  abbrev pub response_issues : ResolvedOperation → ValidateResponseInput → List Text
  response_issues endpoint input =
      validate_response parts.bytes.sprint parts.quote endpoint.responses input.status
        (body_for_validation parts.numbers parts.json (normalized input).body)

  abbrev pub checking :
      ValidateResponseInput → Option ResolvedOperation → Outcome (ResponseBodyEnvelope × List Text)
  checking input none = failed invalid_request
  checking input (some endpoint) = succeeded (normalized input, response_issues endpoint input)

  abbrev pub reading_response :
      Option (Text → Option ResolvedOperation)
      → Option ValidateResponseInput
      → Outcome (ResponseBodyEnvelope × List Text)
  reading_response none input = failed invalid_request
  reading_response (some get_endpoint) none = failed invalid_request
  reading_response (some get_endpoint) (some input) =
      checking input (get_endpoint input.operation_id)

  -- Execute of swagger.validate_response: the body as it was read, and the errors.
  unfoldable pub validate_response_tool : Value → Outcome (ResponseBodyEnvelope × List Text)
  validate_response_tool input =
      reading_response parts.get_endpoint_by_operation_id
        (parse_validate_response_input parts.numbers input)
