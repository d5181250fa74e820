-- ===== src/Execute/Env.antt =====
-- What swagger.http.execute works with: its input, the prepared request, and the parts behind Go
-- interfaces (the swagger store, the policy, the credentials, the HTTP client), which with the
-- numbers, URLs and JSON of the standard library are fields of `Env`.
use mcp_swagger.Prelude.{ℕ, Bool, Option, Result}
use mcp_swagger.Text.{Text}
use mcp_swagger.Value.{Value}
use mcp_swagger.Policy.{Decision}
use mcp_swagger.Audit.Redaction.{JsonApi}
use mcp_swagger.Input.Values.{Numbers}
use mcp_swagger.Prepare.Url.{UrlApi}
pub use mcp_swagger.Contract.Operation.{ExecuteInput, PreparedRequest, ResolvedOperation}

-- `max_request_bytes` is 0 where there is no bound.
pub record SwaggerExecuteOptions : Type 0 where
  pub mode : Text
  pub upstream_base_url : Text
  pub upstream_sandbox_base_url : Text
  pub validate_request : Bool
  pub correlation_id_header : Text
  pub validate_url : Option (Text → Bool)
  pub max_request_bytes : ℕ
  pub user_agent : Text

-- The errors of Doer.Do, by what errors.Is and isTimeoutError find in them.
pub data DoError : Type 0 where
  url_blocked request_too_large rate_limited timeout network : DoError

-- `readable` tells whether reading the body succeeds.
pub record Response : Type 0 where
  pub status : ℕ
  pub readable : Bool

-- `none` and `err` stand for errors. The bounds on time and size stand inside `http_do`.
pub record Env : Type 0 where
  pub numbers : Numbers
  pub urls : UrlApi
  pub json : JsonApi
  pub get_endpoint_by_operation_id : Option (Text → Option ResolvedOperation)
  pub canonical_header_key : Text → Text
  pub id_from_context : Option Text
  pub generate_id : Text
  pub evaluate : Text → Text → Text → Option Decision
  pub sprint : Value → Text
  pub quote : Text → Text
  pub new_request_ok : PreparedRequest → Bool
  pub apply_auth : PreparedRequest → Bool
  pub http_do : Option (PreparedRequest → Result DoError Response)
  pub options : SwaggerExecuteOptions
