-- ===== src/Contract/Accepts.antt =====
-- Which requests and responses the contract accepts, and that the checks decide it.
use mcp_swagger.Prelude.{
  ℕ, suc, ◌≡◌, refl, ◌↔◌, Bool, true, false, not, ◌&&◌, ◌||◌, Option, none, some, List, [], ◌∷◌,
  ◌++◌, arith,
}
use mcp_swagger.Text.{Text, codes, text_eq, is_space, to_lower, trim_space}
use mcp_swagger.Dict.{Dict, get}
use mcp_swagger.Policy.{is_nil}
use mcp_swagger.Value.{Value}
use mcp_swagger.Contract.Operation.{Param, ResponseGroups, ResolvedOperation, PreparedRequest}
use mcp_swagger.Contract.Checks.{is_blank, response_schema_for_status, validate_required_params}
use mcp_swagger.Contract.Validator.{depth, validate_value_against_schema}
use mcp_swagger.Contract.Ink.{clean, clean-append3, is_nil-unique_strings}
use mcp_swagger.Contract.Conforms.{every, conforms}
use mcp_swagger.Contract.Decides.{validate_agrees, is_nil_iff}
use mcp_swagger.Contract.Validate.{
  lower_headers, is_null, missing_headers, validate_required_headers, method_issues, param_issues,
  body_issues, validate_prepared_request, response_issues, validate_response,
}

-- The required parameters have values that are not blank.
abbrev pub has_all : (Text → Option Text) → List Param → Bool
has_all value_of = every (λ def. not def.required || not (is_blank (value_of def.name)))

abbrev pub header_of : Dict Text → Text → Option Text
header_of headers name = get (to_lower (trim_space name)) (lower_headers headers [])

module _ (sprint : Value → Text) where
  abbrev pub body_accepted : Value → Value → Bool
  body_accepted schema body = is_null body || not (is_null schema) && conforms sprint body schema

  unfoldable pub accepts : ResolvedOperation → PreparedRequest → Bool
  accepts endpoint req =
      text_eq (to_lower (trim_space endpoint.method)) (to_lower (trim_space req.method))
      && (has_all (λ name. get name req.path_params) endpoint.path_params
          && has_all (λ name. get name req.query_params) endpoint.query_params
          && has_all (header_of req.headers) endpoint.header_params)
      && body_accepted endpoint.body_schema req.body_input

value_clean :
    (sprint : Value → Text) (value schema : Value) (path : Text)
    → clean (validate_value_against_schema sprint value schema path) ≡ conforms sprint value schema
unfolding validate_value_against_schema conforms
value_clean sprint value schema path = validate_agrees sprint (suc (depth schema)) value schema path

module _ (sprint : Value → Text) (quote : Text → Text) where
  params_agree :
      (defs : List Param) (provided : Dict Text) (location : Text)
      → clean (validate_required_params quote defs provided location)
        ≡ has_all (λ name. get name provided) defs
  unfolding validate_required_params is_space
  params_agree [] provided location = refl
  params_agree (def ∷ defs) provided location = ground (arith, params_agree defs provided location)

  headers_agree :
      (defs : List Param) (lower : Dict Text)
      → clean (missing_headers quote defs lower)
        ≡ has_all (λ name. get (to_lower (trim_space name)) lower) defs
  unfolding is_space
  headers_agree [] lower = refl
  headers_agree (def ∷ defs) lower = ground (arith, headers_agree defs lower)

  method_agrees :
      (endpoint : ResolvedOperation) (req : PreparedRequest)
      → clean (method_issues sprint quote endpoint req)
        ≡ text_eq (to_lower (trim_space endpoint.method)) (to_lower (trim_space req.method))
  unfolding is_space
  method_agrees endpoint req = ground arith

  body_agrees :
      (schema body : Value)
      → clean (body_issues sprint quote schema body) ≡ body_accepted sprint schema body
  unfolding is_space
  body_agrees schema body = ground (arith, value_clean sprint body schema (codes "body"))

  params_clean :
      (endpoint : ResolvedOperation) (req : PreparedRequest)
      → clean (param_issues sprint quote endpoint req) ≡ (
          has_all (λ name. get name req.path_params) endpoint.path_params
          && has_all (λ name. get name req.query_params) endpoint.query_params
          && has_all (header_of req.headers) endpoint.header_params)
  unfolding validate_required_headers
  params_clean endpoint req =
      clean-append3
        (validate_required_params quote endpoint.path_params req.path_params (codes "path"))
        (validate_required_params quote endpoint.query_params req.query_params (codes "query"))
        (validate_required_headers quote endpoint.header_params req.headers) _ _ _
        (params_agree endpoint.path_params req.path_params (codes "path"))
        (params_agree endpoint.query_params req.query_params (codes "query"))
        (headers_agree endpoint.header_params (lower_headers req.headers []))

  request_agrees :
      (endpoint : ResolvedOperation) (req : PreparedRequest)
      → is_nil (validate_prepared_request sprint quote endpoint req) ≡ accepts sprint endpoint req
  unfolding validate_prepared_request accepts
  request_agrees endpoint req =
      let methods = method_issues sprint quote endpoint req in
      let params = param_issues sprint quote endpoint req in
      let body = body_issues sprint quote endpoint.body_schema req.body_input in
      rw
        (
          is_nil-unique_strings (methods ++ params ++ body),
          clean-append3 methods params body _ _ _ (method_agrees endpoint req)
              (params_clean endpoint req) (body_agrees endpoint.body_schema req.body_input),
        )
        refl

-- The check of a prepared request finds no issue exactly when the contract of the operation
-- accepts it: the methods agree but for case, the required path, query and header parameters have
-- values that are not blank, and the body is absent, or conforms to the schema, which is there.
pub validate_iff_accepts :
    (sprint : Value → Text) (quote : Text → Text) (endpoint : ResolvedOperation)
    (req : PreparedRequest)
    → (validate_prepared_request sprint quote endpoint req ≡ [])
      ↔ (accepts sprint endpoint req ≡ true)
validate_iff_accepts sprint quote endpoint req = ground (
  arith,
  is_nil_iff (validate_prepared_request sprint quote endpoint req),
  request_agrees sprint quote endpoint req,
)

-- What the contract says of a response: its status is described, exactly or by the default, and its
-- body conforms to the schema where both are there.
abbrev pub meets : (Value → Text) → Value → Option Value → Bool
meets sprint body none = false
meets sprint body (some schema) = is_null schema || is_null body || conforms sprint body schema

abbrev pub response_accepted : (Value → Text) → ResponseGroups → ℕ → Value → Bool
response_accepted sprint responses status body =
    meets sprint body (response_schema_for_status responses status)

response_agrees :
    (sprint : Value → Text) (quote : Text → Text) (status : ℕ) (body : Value) (o : Option Value)
    → is_nil (response_issues sprint quote status body o) ≡ meets sprint body o
response_agrees sprint quote status body none = refl
response_agrees sprint quote status body (some schema) =
    let issues = validate_value_against_schema sprint body schema (codes "response.body") in
    ground
      (arith, is_nil-unique_strings issues, value_clean sprint body schema (codes "response.body"))

-- The check of a response finds no issue exactly when the contract of the operation accepts it.
pub validate_response_iff_accepted :
    (sprint : Value → Text) (quote : Text → Text) (responses : ResponseGroups) (status : ℕ)
    (body : Value)
    → (validate_response sprint quote responses status body ≡ [])
      ↔ (response_accepted sprint responses status body ≡ true)
unfolding validate_response
validate_response_iff_accepted sprint quote responses status body = ground (
  arith,
  is_nil_iff
      (response_issues sprint quote status body (response_schema_for_status responses status)),
  response_agrees sprint quote status body (response_schema_for_status responses status),
)
