-- ===== src/Contract/Validate.antt =====
-- validateRequiredHeaders, validatePreparedRequest and validateResponse of swagger_http_common.go.
use mcp_swagger.Prelude.{
  ℕ, Bool, true, false, not, ◌||◌, Option, none, some, List, [], ◌∷◌, ◌++◌, if◌then◌else◌,
}
use mcp_swagger.Text.{Text, codes, text_eq, to_lower, trim_space}
use mcp_swagger.Dict.{Dict, get, put}
use mcp_swagger.Value.{Value, null}
use mcp_swagger.Contract.Operation.{Param, ResponseGroups, ResolvedOperation, PreparedRequest}
use mcp_swagger.Contract.Checks.{is_blank, validate_required_params, response_schema_for_status}
use mcp_swagger.Contract.Schema.{decimal, unique_strings}
use mcp_swagger.Contract.Validator.{validate_value_against_schema}

-- The headers under their names in lower case: a later entry takes the place of an earlier one.
unfoldable pub lower_headers : Dict Text → Dict Text → Dict Text
lower_headers [] lower = lower
lower_headers ((key, value) ∷ headers) lower =
    lower_headers headers (put (to_lower (trim_space key)) value lower)

abbrev pub is_null : Value → Bool
is_null null = true
is_null v = false

module _ (quote : Text → Text) where
  abbrev pub missing_headers : List Param → Dict Text → List Text
  missing_headers [] lower = []
  missing_headers (def ∷ defs) lower =
      let rest = missing_headers defs lower in
      if not def.required
      then rest
      else if is_blank (get (to_lower (trim_space def.name)) lower)
      then (codes "missing required header parameter " ++ quote def.name) ∷ rest
      else rest

  unfoldable pub validate_required_headers : List Param → Dict Text → List Text
  unfolding lower_headers
  validate_required_headers defs provided = missing_headers defs (lower_headers provided [])

module _ (sprint : Value → Text) (quote : Text → Text) where
  abbrev pub method_issues : ResolvedOperation → PreparedRequest → List Text
  method_issues endpoint req =
      if text_eq (to_lower (trim_space endpoint.method)) (to_lower (trim_space req.method))
      then []
      else (codes "method mismatch: endpoint="
          ++ endpoint.method
          ++ codes " request="
          ++ req.method)
        ∷ []

  abbrev pub param_issues : ResolvedOperation → PreparedRequest → List Text
  param_issues endpoint req =
      validate_required_params quote endpoint.path_params req.path_params (codes "path")
      ++ validate_required_params quote endpoint.query_params req.query_params (codes "query")
      ++ validate_required_headers quote endpoint.header_params req.headers

  abbrev pub body_issues : Value → Value → List Text
  body_issues schema body =
      if is_null schema
      then (if is_null body
          then []
          else codes "request body provided but operation does not define request body" ∷ [])
      else if is_null body
      then []
      else validate_value_against_schema sprint body schema (codes "body")

  unfoldable pub validate_prepared_request : ResolvedOperation → PreparedRequest → List Text
  validate_prepared_request endpoint req = unique_strings (
      method_issues endpoint req
      ++ param_issues endpoint req
      ++ body_issues endpoint.body_schema req.body_input)

  abbrev pub response_issues : ℕ → Value → Option Value → List Text
  response_issues status body none =
      (codes "status " ++ decimal status ++ codes " is not defined in operation responses") ∷ []
  response_issues status body (some schema) =
      if is_null schema || is_null body
      then []
      else unique_strings (validate_value_against_schema sprint body schema (codes "response.body"))

  unfoldable pub validate_response : ResponseGroups → ℕ → Value → List Text
  validate_response responses status body =
      response_issues status body (response_schema_for_status responses status)
