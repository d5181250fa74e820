-- ===== src/Resource/Store.antt =====
-- contract.go: what a store of resources offers, with the errors that errors.Is tells apart.
use mcp_swagger.Prelude.{List, Result}
use mcp_swagger.Text.{Text}

pub record Descriptor : Type 0 where
  pub id : Text
  pub name : Text
  pub description : Text
  pub uri : Text
  pub uri_template : Text
  pub mime_type : Text

pub record Item : Type 0 where
  pub descriptor : Descriptor
  pub text : Text

-- ErrNotFound, and any other error.
pub data Failure : Type 0 where
  not_found failure : Failure

pub record Store : Type 0 where
  pub list_all : Result Failure (List Descriptor)
  pub find : Text → Result Failure Item
