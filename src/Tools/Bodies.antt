-- ===== src/Tools/Bodies.antt =====
-- decodeResponseBody, normalizeResponseBody and bodyForValidation of swagger_http_common.go. A
-- payload is a list of bytes, and a body a decoded JSON value.
use mcp_swagger.Prelude.{
  ℕ, Bool, true, not, ◌&&◌, ◌||◌, Option, none, some, List, [], ◌∷◌, ◌++◌, ltb, ◌==◌, any, is_some,
  if◌then◌else◌,
}
use mcp_swagger.Text.{Text, codes, text_eq, is_empty, to_lower, trim_space, contains}
use mcp_swagger.Policy.{is_nil}
use mcp_swagger.Value.{strings, Value, null, str, obj, envelope, Fields, end, field, find_field}
use mcp_swagger.Audit.Redaction.{JsonApi, looks_like_json}
use mcp_swagger.Input.Values.{Numbers, map_value, value_as_string}
use mcp_swagger.Input.Parse.{filled_or}
use mcp_swagger.Prepare.Template.{utf8}

pub record ResponseBodyEnvelope : Type 0 where
  pub content_type : Text
  pub body_encoding : Text
  pub body : Value

-- string(payload), utf8.Valid, base64.StdEncoding.EncodeToString and the format %v.
pub record BytesApi : Type 0 where
  pub text_of : List ℕ → Text
  pub is_valid : List ℕ → Bool
  pub base64 : List ℕ → Text
  pub sprint : Value → Text

abbrev pub json_encoding : Text
json_encoding = codes "json"

abbrev pub text_encoding : Text
text_encoding = codes "text"

abbrev pub base64_encoding : Text
base64_encoding = codes "base64"

abbrev pub type_of_encoding : Text → Text
type_of_encoding encoding =
    if text_eq encoding json_encoding
    then codes "application/json"
    else if text_eq encoding base64_encoding
    then codes "application/octet-stream"
    else codes "text/plain; charset=utf-8"

unfoldable pub default_response_content_type : Text → Text → Text
default_response_content_type content_type encoding =
    if is_empty (trim_space content_type)
    then type_of_encoding (to_lower (trim_space encoding))
    else trim_space content_type

-- A responseBodyEnvelope of an encoding, with the content type it has by default.
abbrev pub tagged : Text → Text → Value → ResponseBodyEnvelope
tagged content_type encoding body = record {
  content_type = default_response_content_type content_type encoding;
  body_encoding = encoding;
  body = body;
}

unfoldable pub is_json_content_type : Text → Bool
is_json_content_type content_type = contains (to_lower (trim_space content_type)) json_encoding

-- The test of isUTF8Text on one byte.
abbrev is_control : ℕ → Bool
is_control b = ltb b 0x20 && not (b == 10 || b == 13 || b == 9 || b == 12)

-- for key := range m { switch key { ... } }
unfoldable pub has_envelope_keys : Fields → Bool
has_envelope_keys end = true
has_envelope_keys (field key v fs) =
    let rest = has_envelope_keys fs in
    (text_eq key (codes "contentType")
      || text_eq key (codes "bodyEncoding")
      || text_eq key (codes "body"))
    && rest

module _ (numbers : Numbers) where
  abbrev pub encoding_in : Fields → Text
  encoding_in m =
      to_lower (trim_space (value_as_string numbers (map_value m (codes "bodyEncoding"))))

  -- The tests of extractBodyEnvelope.
  abbrev pub is_envelope : Fields → Bool
  is_envelope m =
      not (is_empty (encoding_in m)) && is_some (find_field (codes "body") m) && has_envelope_keys m

  unfoldable pub extract_body_envelope : Fields → Option ResponseBodyEnvelope
  unfolding has_envelope_keys
  extract_body_envelope m =
      if is_envelope m
      then some (record {
        content_type = trim_space (value_as_string numbers (map_value m (codes "contentType")));
        body_encoding = encoding_in m;
        body = map_value m (codes "body");
      })
      else none

  -- extractBodyEnvelopeMap
  abbrev pub extract_body_envelope_map : Value → Option ResponseBodyEnvelope
  extract_body_envelope_map (obj m) = extract_body_envelope m
  extract_body_envelope_map v = none

  module _ (json : JsonApi) where
    abbrev pub value_or : Value → Option Value → Value
    value_or v none = v
    value_or v (some parsed) = parsed

    -- bodyForValidation; `inner_body` is its call on m["body"].
    unfoldable mutual
      pub body_for_validation : Value → Value
      body_for_validation (envelope content_type encoding body) = body_for_validation body
      body_for_validation (obj m) =
          let inner = inner_body m in if is_envelope m then inner else obj m
      body_for_validation (str t) =
          if looks_like_json t then value_or (str t) (json.unmarshal t) else str t
      body_for_validation v = v

      pub inner_body : Fields → Value
      inner_body end = null
      inner_body (field key v m) =
          let inner = body_for_validation v in
          let rest = inner_body m in if text_eq key (codes "body") then inner else rest

    module _ (bytes : BytesApi) where
      -- isUTF8Text
      unfoldable pub is_utf8_text : List ℕ → Bool
      is_utf8_text payload = bytes.is_valid payload && not (any is_control payload)

      abbrev pub text_or_base64 : Text → List ℕ → ResponseBodyEnvelope
      text_or_base64 content_type payload =
          if is_utf8_text payload
          then tagged content_type text_encoding (str (bytes.text_of payload))
          else tagged content_type base64_encoding (str (bytes.base64 payload))

      abbrev pub parsed_or_raw : Text → List ℕ → Option Value → ResponseBodyEnvelope
      parsed_or_raw content_type payload none = text_or_base64 content_type payload
      parsed_or_raw content_type payload (some parsed) = tagged content_type json_encoding parsed

      unfoldable pub decode_response_body : Text → List ℕ → ResponseBodyEnvelope
      unfolding is_utf8_text is_json_content_type
      decode_response_body content_type payload =
          if is_nil payload
          then tagged content_type text_encoding (str [])
          else if is_json_content_type content_type || looks_like_json (bytes.text_of payload)
          then parsed_or_raw content_type payload (json.unmarshal (bytes.text_of payload))
          else text_or_base64 content_type payload

      -- []byte(s)
      abbrev bytes_of : Text → List ℕ
      bytes_of [] = []
      bytes_of (c ∷ t) = utf8 c ++ bytes_of t

      abbrev text_or : Text → Option Text → Text
      text_or t none = t
      text_or t (some payload) = payload

      unfoldable pub stringify_body : Value → Text
      stringify_body null = []
      stringify_body (str t) = t
      stringify_body v = text_or (bytes.sprint v) (json.marshal v)

      unfoldable pub base64_body : Value → Text
      base64_body null = []
      base64_body (str t) = t
      base64_body v = bytes.base64 (bytes_of (text_or (bytes.sprint v) (json.marshal v)))

      abbrev pub reparsed : Value → Value
      reparsed (str t) =
          if looks_like_json t then value_or (str t) (json.unmarshal (trim_space t)) else str t
      reparsed v = v

      abbrev pub text_or_json : Text → Text → Option Value → ResponseBodyEnvelope
      text_or_json content_type t none = tagged content_type text_encoding (str t)
      text_or_json content_type t (some parsed) = tagged content_type json_encoding parsed

      -- What is no text, and no nil, and nothing that JSON decodes to.
      abbrev pub reencoded : Text → Value → Option Text → ResponseBodyEnvelope
      reencoded content_type v none = tagged content_type text_encoding (str (stringify_body v))
      reencoded content_type v (some payload) = elim (json.unmarshal payload) [
        | none ↦ tagged content_type text_encoding (str (stringify_body v))
        | some parsed ↦ tagged content_type json_encoding parsed
      ]

      -- The cases of a body whose encoding is not known.
      unfoldable pub guessed : Text → Value → ResponseBodyEnvelope
      unfolding is_json_content_type
      guessed content_type null = tagged content_type text_encoding (str [])
      guessed content_type (str t) =
          if (is_json_content_type content_type || looks_like_json t)
            && not (is_empty (trim_space t))
          then text_or_json content_type t (json.unmarshal (trim_space t))
          else tagged content_type text_encoding (str t)
      guessed content_type (envelope ct encoding body) =
          reencoded content_type (envelope ct encoding body)
            (json.marshal (envelope ct encoding body))
      guessed content_type (strings ts) =
          reencoded content_type (strings ts) (json.marshal (strings ts))
      guessed content_type v = tagged content_type json_encoding v

      abbrev pub by_encoding : Text → Text → Value → ResponseBodyEnvelope
      by_encoding content_type encoding body =
          if text_eq encoding json_encoding
          then tagged content_type json_encoding (reparsed body)
          else if text_eq encoding text_encoding
          then tagged content_type text_encoding (str (stringify_body body))
          else if text_eq encoding base64_encoding
          then tagged content_type base64_encoding (str (base64_body body))
          else guessed content_type body

      abbrev pub opened : Text → Text → Value → Option ResponseBodyEnvelope → ResponseBodyEnvelope
      opened content_type encoding body none = by_encoding content_type encoding body
      opened content_type encoding body (some nested) =
          by_encoding (filled_or content_type nested.content_type)
            (filled_or encoding nested.body_encoding) nested.body

      unfoldable pub normalize_response_body : Text → Text → Value → ResponseBodyEnvelope
      unfolding extract_body_envelope stringify_body base64_body guessed
      normalize_response_body content_type body_encoding body =
          opened (trim_space content_type) (to_lower (trim_space body_encoding)) body
            (extract_body_envelope_map body)
