-- ===== src/Contract/Operation.antt =====
-- The operations of internal/swagger/contract.go, as far as the tools read them, and the inputs and
-- prepared requests of swagger_http_common.go. A schema is a decoded JSON value, null where there is
-- none; a status is an int that is not negative, 0 for the default response.
use mcp_swagger.Prelude.{ℕ, Bool, List}
use mcp_swagger.Text.{Text}
use mcp_swagger.Dict.{Dict}
use mcp_swagger.Value.{Value}

pub record Param : Type 0 where
  pub name : Text
  pub required : Bool

-- Response and ErrorResponse
pub record Response : Type 0 where
  pub status : ℕ
  pub body_schema : Value

pub record ResponseGroups : Type 0 where
  pub success : List Response
  pub errors : List Response

pub record ResolvedOperation : Type 0 where
  pub operation_id : Text
  pub method : Text
  pub base_url : Text
  pub path_template : Text
  pub url_template : Text
  pub path_params : List Param
  pub query_params : List Param
  pub header_params : List Param
  pub body_schema : Value
  pub responses : ResponseGroups
  pub servers : List Text

pub record ExecuteInput : Type 0 where
  pub operation_id : Text
  pub path_params : Dict Text
  pub query_params : Dict Text
  pub headers : Dict Text
  pub body : Value
  pub content_type : Text
  pub base_url : Text
  pub confirmation_id : Text

pub record PreparedRequest : Type 0 where
  pub operation_id : Text
  pub method : Text
  pub path : Text
  pub url : Text
  pub path_params : Dict Text
  pub query_params : Dict Text
  pub headers : Dict Text
  pub content_type : Text
  pub body_input : Value
  pub body_bytes : Text
