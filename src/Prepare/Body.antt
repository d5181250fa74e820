-- ===== src/Prepare/Body.antt =====
-- encodeRequestBody. A decoded JSON value is never a []byte, so that case is left out; a payload is
-- the text whose UTF-8 encoding is sent.
use mcp_swagger.Prelude.{
  ℕ, ◌+◌, Option, none, some, [], ◌∷◌, ◌&&◌, Result, ok, err, length, if◌then◌else◌,
}
use mcp_swagger.Text.{Text, codes, is_empty, to_lower, trim_space, contains}
use mcp_swagger.Value.{Value, null, str}
use mcp_swagger.Audit.Redaction.{JsonApi, looks_like_json}
use mcp_swagger.Prepare.Template.{utf8}
use mcp_swagger.Prepare.Url.{PrepareError, other_error}

pub record EncodedBody : Type 0 where
  pub bytes : Text
  pub content_type : Text
  pub parsed : Value

-- len([]byte(s))
unfoldable pub byte_length : Text → ℕ
unfolding utf8
byte_length [] = 0
byte_length (c ∷ t) = length (utf8 c) + byte_length t

-- if contentType == "" { contentType = default }
abbrev pub type_or : Text → Text → Text
type_or content_type default = if is_empty content_type then default else content_type

abbrev pub type_of_text : Text → Text → Text
type_of_text content_type t =
    if is_empty content_type && looks_like_json (trim_space t)
    then codes "application/json"
    else content_type

module _ (api : JsonApi) where
  abbrev pub marshalled : Text → Value → Option Text → Result PrepareError EncodedBody
  marshalled content_type parsed none = err other_error
  marshalled content_type parsed (some payload) =
      ok (record { bytes = payload; content_type = content_type; parsed = parsed })

  abbrev pub reencoded : Text → Option Value → Result PrepareError EncodedBody
  reencoded content_type none = err other_error
  reencoded content_type (some parsed) = marshalled content_type parsed (api.marshal parsed)

  abbrev pub encoded_text : Text → Text → Result PrepareError EncodedBody
  encoded_text content_type t =
      if contains (to_lower content_type) (codes "json")
      then reencoded content_type (api.unmarshal t)
      else ok (record {
        bytes = t;
        content_type = type_or content_type (codes "text/plain; charset=utf-8");
        parsed = str t;
      })

  abbrev pub parsed_or : Value → Option Value → Value
  parsed_or v none = v
  parsed_or v (some parsed) = parsed

  abbrev pub encoded_value : Text → Value → Option Text → Result PrepareError EncodedBody
  encoded_value content_type v none = err other_error
  encoded_value content_type v (some payload) = ok (record {
    bytes = payload;
    content_type = type_or content_type (codes "application/json");
    parsed = parsed_or v (api.unmarshal payload);
  })

  unfoldable pub encode_request_body : Value → Text → Result PrepareError EncodedBody
  encode_request_body null content_type =
      ok (record { bytes = []; content_type = trim_space content_type; parsed = null })
  encode_request_body (str t) content_type =
      encoded_text (type_of_text (trim_space content_type) t) t
  encode_request_body v content_type = encoded_value (trim_space content_type) v (api.marshal v)
