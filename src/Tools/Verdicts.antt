-- ===== src/Tools/Verdicts.antt =====
-- What the verdicts of the checking tools mean.
use mcp_swagger.Prelude.{
  ◌≡◌, refl, ◌↔◌, true, Option, none, some, List, [], Result, ok, err, arith, subst, sym, ap, ◌∙◌,
}
use mcp_swagger.Text.{Text}
use mcp_swagger.Value.{Value}
use mcp_swagger.Contract.Operation.{ResolvedOperation, ExecuteInput, PreparedRequest}
use mcp_swagger.Contract.Accepts.{accepts, validate_iff_accepts, response_accepted}
use mcp_swagger.Input.Parse.{
  ValidateResponseInput, parse_execute_input, parse_validate_response_input,
}
use mcp_swagger.Prepare.Url.{PrepareError}
use mcp_swagger.Prepare.Request.{PrepareOptions, prepare_endpoint_request}
use mcp_swagger.Prepare.Correct.{IsPrepared, prepare_endpoint_request-IsPrepared}
use mcp_swagger.Tools.Bodies.{ResponseBodyEnvelope, body_for_validation}
use mcp_swagger.Tools.Canonical.{IsCanonical}
use mcp_swagger.Tools.Checks.{
  Parts, succeeded, issues_of, with_prepared, preparing, reading, check_options, call_options,
  validate_request, prepare_request, normalized,
}

-- The answer is about a request that was prepared for an operation of the store.
pub record IsAbout (parts : Parts) {A : Type 0} (options : ExecuteInput → PrepareOptions)
    (result : ResolvedOperation → PreparedRequest → A) (input : Value) (a : A) : Type 0 where
  pub get_endpoint : Text → Option ResolvedOperation
  pub read : ExecuteInput
  pub endpoint : ResolvedOperation
  pub request : PreparedRequest
  pub given : parts.get_endpoint_by_operation_id ≡ some get_endpoint
  pub parsed : parse_execute_input parts.numbers input ≡ some read
  pub found : get_endpoint read.operation_id ≡ some endpoint
  pub prepared :
      prepare_endpoint_request parts.urls parts.json endpoint read (options read) ≡ ok request
  pub answered : result endpoint request ≡ a

succeeded_inj : {A : Type 0} {a b : A} → succeeded a ≡ succeeded b → a ≡ b
succeeded_inj h = cc

module _ (parts : Parts) {A : Type 0} (options : ExecuteInput → PrepareOptions)
    (result : ResolvedOperation → PreparedRequest → A) (input : Value) (a : A) where
  with_prepared-IsAbout :
      (get_endpoint : Text → Option ResolvedOperation) (read : ExecuteInput)
      (endpoint : ResolvedOperation) (r : Result PrepareError PreparedRequest)
      → parts.get_endpoint_by_operation_id ≡ some get_endpoint
      → parse_execute_input parts.numbers input ≡ some read
      → get_endpoint read.operation_id ≡ some endpoint
      → prepare_endpoint_request parts.urls parts.json endpoint read (options read) ≡ r
      → with_prepared parts (result endpoint) r ≡ succeeded a
      → IsAbout parts options result input a
  with_prepared-IsAbout get_endpoint read endpoint (err e) given parsed found prepared h =
      ground arith
  with_prepared-IsAbout get_endpoint read endpoint (ok p) given parsed found prepared h = record {
    get_endpoint = get_endpoint;
    read = read;
    endpoint = endpoint;
    request = p;
    given = given;
    parsed = parsed;
    found = found;
    prepared = prepared;
    answered = succeeded_inj h;
  }

  preparing-IsAbout :
      (get_endpoint : Text → Option ResolvedOperation) (read : ExecuteInput)
      (o : Option ResolvedOperation)
      → parts.get_endpoint_by_operation_id ≡ some get_endpoint
      → parse_execute_input parts.numbers input ≡ some read
      → get_endpoint read.operation_id ≡ o
      → preparing parts options result read o ≡ succeeded a
      → IsAbout parts options result input a
  preparing-IsAbout get_endpoint read none given parsed found h = ground arith
  preparing-IsAbout get_endpoint read (some endpoint) given parsed found h =
      with_prepared-IsAbout get_endpoint read endpoint _ given parsed found refl h

  reading-IsAbout :
      (getter : Option (Text → Option ResolvedOperation)) (o : Option ExecuteInput)
      → parts.get_endpoint_by_operation_id ≡ getter
      → parse_execute_input parts.numbers input ≡ o
      → reading parts options result getter o ≡ succeeded a
      → IsAbout parts options result input a
  reading-IsAbout none o given parsed h = ground arith
  reading-IsAbout (some get_endpoint) none given parsed h = ground arith
  reading-IsAbout (some get_endpoint) (some read) given parsed h =
      preparing-IsAbout get_endpoint read _ given parsed refl h

  about_answers :
      IsAbout parts options result input a
      → reading parts options result parts.get_endpoint_by_operation_id
          (parse_execute_input parts.numbers input)
        ≡ succeeded a
  about_answers about =
      rw (about.given, about.parsed, about.found, about.prepared) (ap succeeded about.answered)

-- swagger.validate_request reports a call as valid exactly when its input parses, the store has
-- its operation, a request is prepared for it, and the contract of the operation accepts that
-- request.
pub validate_request_iff_accepted :
    (parts : Parts) (input : Value)
    → (validate_request parts input ≡ succeeded []) ↔ (
        (about : (issues : List Text) × IsAbout parts check_options (issues_of parts) input issues)
        × (accepts parts.bytes.sprint about.1.endpoint about.1.request ≡ true))
unfolding validate_request
validate_request_iff_accepted parts input = (
  λ h.
      let about =
        reading-IsAbout parts check_options (issues_of parts) input []
          parts.get_endpoint_by_operation_id (parse_execute_input parts.numbers input) refl refl
          h in
      (
        ([], about),
        (validate_iff_accepts parts.bytes.sprint parts.quote about.endpoint about.request).0
            about.answered,
      ),
  λ ((issues, about), accepted).
      about_answers parts check_options (issues_of parts) input issues about
      ∙ ap succeeded (
          sym about.answered
          ∙ (validate_iff_accepts parts.bytes.sprint parts.quote about.endpoint about.request).1
              accepted),
)

-- What the request and the errors that swagger.prepare_request shows have behind them.
pub record IsShown (parts : Parts) (input : Value) (p : PreparedRequest) (issues : List Text)
    : Type 0 where
  pub get_endpoint : Text → Option ResolvedOperation
  pub read : ExecuteInput
  pub endpoint : ResolvedOperation
  pub given : parts.get_endpoint_by_operation_id ≡ some get_endpoint
  pub parsed : parse_execute_input parts.numbers input ≡ some read
  pub found : get_endpoint read.operation_id ≡ some endpoint
  pub built :
      prepare_endpoint_request parts.urls parts.json endpoint read (call_options parts read) ≡ ok p
  pub prepared : IsPrepared parts.urls parts.json endpoint read (call_options parts read) p
  pub decided : (issues ≡ []) ↔ (accepts parts.bytes.sprint endpoint p ≡ true)

-- A request that swagger.prepare_request shows is the one that prepareEndpointRequest built of the
-- parsed input for the operation that the store has under the identifier of the input, its URL,
-- headers, body and parameters are those that the input, the default headers and the bound on the
-- body of the configuration give, and its list of errors is empty exactly when the contract of
-- that operation accepts it.
pub prepare_request-IsShown :
    (parts : Parts) (input : Value) (p : PreparedRequest) (issues : List Text)
    → prepare_request parts input ≡ succeeded (p, issues)
    → IsShown parts input p issues
unfolding prepare_request
prepare_request-IsShown parts input p issues h =
    let about =
      reading-IsAbout parts (call_options parts) (λ endpoint p. (p, issues_of parts endpoint p))
        input (p, issues) parts.get_endpoint_by_operation_id
        (parse_execute_input parts.numbers input) refl refl h in
    subst (λ (x : PreparedRequest × List Text). IsShown parts input x.0 x.1) about.answered
      (record {
        get_endpoint = about.get_endpoint;
        read = about.read;
        endpoint = about.endpoint;
        given = about.given;
        parsed = about.parsed;
        found = about.found;
        built = about.prepared;
        prepared =
            prepare_endpoint_request-IsPrepared parts.urls parts.json about.endpoint about.read
              (call_options parts about.read) about.request about.prepared;
        decided = validate_iff_accepts parts.bytes.sprint parts.quote about.endpoint about.request;
      })

-- What a verdict on a response says of the input.
pub record IsVerdict (parts : Parts) (input : Value) (e : ResponseBodyEnvelope) (issues : List Text)
    : Type 0 where
  pub get_endpoint : Text → Option ResolvedOperation
  pub read : ValidateResponseInput
  pub endpoint : ResolvedOperation
  pub given : parts.get_endpoint_by_operation_id ≡ some get_endpoint
  pub parsed : parse_validate_response_input parts.numbers input ≡ some read
  pub found : get_endpoint read.operation_id ≡ some endpoint
  pub body_read : normalized parts read ≡ e
  pub canonical : IsCanonical e
  pub decided : (issues ≡ []) ↔ (
      response_accepted parts.bytes.sprint endpoint.responses read.status
        (body_for_validation parts.numbers parts.json e.body)
      ≡ true)
