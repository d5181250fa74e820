-- ===== src/Tools/RoundTrip.antt =====
-- A body that was decoded, and comes back as the JSON of its envelope, is read as it was.
use mcp_swagger.Prelude.{
  ◌≡◌, refl, inl, inr, ℕ, Bool, false, ◌&&◌, some, List, [], subst, sym, ap, ◌∙◌,
}
use mcp_swagger.Text.{Text, codes, text_eq, is_space, is_empty, lower_char, to_lower, trim_space}
use mcp_swagger.Value.{
  strings, Value, null, bool, num, str, arr, obj, envelope, Fields, end, field, find_field,
}
use mcp_swagger.Audit.Redaction.{JsonApi, looks_like_json}
use mcp_swagger.Input.Values.{Numbers, map_value, value_as_string}
use mcp_swagger.Tools.Bodies.{
  ResponseBodyEnvelope, BytesApi, json_encoding, text_encoding, base64_encoding,
  default_response_content_type, tagged, has_envelope_keys, extract_body_envelope,
  decode_response_body, stringify_body, base64_body, reparsed, by_encoding, opened,
  normalize_response_body,
}
use mcp_swagger.Tools.Canonical.{IsTyped, IsCanonical, decode-IsCanonical, normalize-IsCanonical}

-- The JSON of a responseBodyEnvelope, by the tags of its fields.
abbrev pub fields_of : ResponseBodyEnvelope → Fields
fields_of e =
    field (codes "contentType") (str e.content_type)
      (field (codes "bodyEncoding") (str e.body_encoding) (field (codes "body") e.body end))

abbrev looks_like_json_text : Value → Bool
looks_like_json_text (str t) = looks_like_json t
looks_like_json_text v = false

-- The body is a text that is parsed once more: under json, a string that looks like JSON.
abbrev pub is_reparsed : ResponseBodyEnvelope → Bool
is_reparsed e = text_eq e.body_encoding json_encoding && looks_like_json_text e.body

default_typed :
    (content_type encoding : Text)
    → IsTyped content_type
    → default_response_content_type content_type encoding ≡ content_type
unfolding default_response_content_type
default_typed content_type encoding (trimmed, given) = rw (trimmed, given) refl

tagged_typed :
    (content_type encoding : Text) (body : Value)
    → IsTyped content_type
    → tagged content_type encoding body
      ≡ record { content_type = content_type; body_encoding = encoding; body = body }
tagged_typed content_type encoding body typed =
    ap (λ c. record { content_type = c; body_encoding = encoding; body = body })
      (default_typed content_type encoding typed)

module _ (numbers : Numbers) (json : JsonApi) (bytes : BytesApi) where
  -- What extractBodyEnvelope finds in the JSON of an envelope.
  extracted :
      (content_type encoding : Text) (body : Value)
      → IsTyped content_type
      → to_lower (trim_space (trim_space encoding)) ≡ encoding
      → is_empty encoding ≡ false
      → extract_body_envelope numbers (
          fields_of (record { content_type = content_type; body_encoding = encoding; body = body }))
        ≡ some (record { content_type = content_type; body_encoding = encoding; body = body })
  unfolding extract_body_envelope has_envelope_keys map_value find_field value_as_string text_eq
  extracted content_type encoding body typed lower given = rw (lower, given, typed.0, typed.0) refl

  -- normalizeResponseBody on the JSON of an envelope, with no content type and no encoding beside it.
  abbrev pub read_again : ResponseBodyEnvelope → ResponseBodyEnvelope
  read_again e = normalize_response_body numbers json bytes [] [] (obj (fields_of e))

  read_as :
      (content_type encoding : Text) (body : Value)
      → IsTyped content_type
      → to_lower (trim_space (trim_space encoding)) ≡ encoding
      → is_empty encoding ≡ false
      → read_again (record { content_type = content_type; body_encoding = encoding; body = body })
        ≡ by_encoding numbers json bytes content_type encoding body
  unfolding normalize_response_body to_lower trim_space
  read_as content_type encoding body typed lower given =
      let e : ResponseBodyEnvelope = record {
        content_type = content_type;
        body_encoding = encoding;
        body = body;
      } in
      ap (opened numbers json bytes [] [] (obj (fields_of e)))
        (extracted content_type encoding body typed lower given)

  not_reparsed :
      (body : Value) → looks_like_json_text body ≡ false → reparsed numbers json bytes body ≡ body
  not_reparsed (str t) h = rw (h) refl
  not_reparsed null h = refl
  not_reparsed (bool b) h = refl
  not_reparsed (num m e) h = refl
  not_reparsed (arr xs) h = refl
  not_reparsed (obj fs) h = refl
  not_reparsed (strings ts) h = refl
  not_reparsed (envelope ct encoding v) h = refl

  json_stable :
      (content_type : Text) (body : Value)
      → IsTyped content_type
      → looks_like_json_text body ≡ false
      → read_again
          (record { content_type = content_type; body_encoding = json_encoding; body = body })
        ≡ record { content_type = content_type; body_encoding = json_encoding; body = body }
  unfolding text_eq trim_space is_space to_lower lower_char
  json_stable content_type body typed plain =
      read_as content_type json_encoding body typed refl refl
      ∙ ap (tagged content_type json_encoding) (not_reparsed body plain)
      ∙ tagged_typed content_type json_encoding body typed

  text_stable :
      (content_type t : Text)
      → IsTyped content_type
      → read_again
          (record { content_type = content_type; body_encoding = text_encoding; body = str t })
        ≡ record { content_type = content_type; body_encoding = text_encoding; body = str t }
  unfolding text_eq trim_space is_space to_lower lower_char stringify_body
  text_stable content_type t typed =
      read_as content_type text_encoding (str t) typed refl refl
      ∙ tagged_typed content_type text_encoding (str t) typed

  base64_stable :
      (content_type t : Text)
      → IsTyped content_type
      → read_again
          (record { content_type = content_type; body_encoding = base64_encoding; body = str t })
        ≡ record { content_type = content_type; body_encoding = base64_encoding; body = str t }
  unfolding text_eq trim_space is_space to_lower lower_char base64_body
  base64_stable content_type t typed =
      read_as content_type base64_encoding (str t) typed refl refl
      ∙ tagged_typed content_type base64_encoding (str t) typed

  -- The statement at the parts of an envelope.
  abbrev StableAt : Text → Text → Value → Type 0
  StableAt content_type encoding body =
      read_again (record { content_type = content_type; body_encoding = encoding; body = body })
      ≡ record { content_type = content_type; body_encoding = encoding; body = body }

  plain_json :
      (encoding : Text) (b : Bool)
      → encoding ≡ json_encoding
      → (text_eq encoding json_encoding && b) ≡ false
      → b ≡ false
  unfolding text_eq
  plain_json encoding b e h = subst (λ t. (text_eq t json_encoding && b) ≡ false) e h

  stable : (e : ResponseBodyEnvelope) → IsCanonical e → is_reparsed e ≡ false → read_again e ≡ e
  stable e canonical plain = elim canonical.encoded [
    | inl is_json ↦
        subst (λ encoding. StableAt e.content_type encoding e.body) (sym is_json)
          (json_stable e.content_type e.body canonical.typed
            (plain_json e.body_encoding (looks_like_json_text e.body) is_json plain))
    | inr (t, is_text, inl encoding) ↦
        subst (λ v. StableAt e.content_type e.body_encoding v) (sym is_text)
          (subst (λ c. StableAt e.content_type c (str t)) (sym encoding)
            (text_stable e.content_type t canonical.typed))
    | inr (t, is_text, inr encoding) ↦
        subst (λ v. StableAt e.content_type e.body_encoding v) (sym is_text)
          (subst (λ c. StableAt e.content_type c (str t)) (sym encoding)
            (base64_stable e.content_type t canonical.typed))
  ]

-- A response body that was decoded from bytes, and comes back as the JSON of its envelope, is
-- normalised to the same content type, encoding and body, unless it is a JSON string that itself
-- looks like JSON.
pub decoded_body_returns :
    (numbers : Numbers) (json : JsonApi) (bytes : BytesApi) (content_type : Text) (payload : List ℕ)
    → let e = decode_response_body numbers json bytes content_type payload in
      is_reparsed e ≡ false → read_again numbers json bytes e ≡ e
decoded_body_returns numbers json bytes content_type payload =
    stable numbers json bytes (decode_response_body numbers json bytes content_type payload)
      (decode-IsCanonical numbers json bytes content_type payload)

-- A normalised body, given back as the JSON of its envelope, is normalised to itself, unless it is
-- a string under json that itself looks like JSON.
pub normalized_body_returns :
    (numbers : Numbers) (json : JsonApi) (bytes : BytesApi) (content_type encoding : Text)
    (v : Value)
    → let e = normalize_response_body numbers json bytes content_type encoding v in
      is_reparsed e ≡ false → read_again numbers json bytes e ≡ e
normalized_body_returns numbers json bytes content_type encoding v =
    stable numbers json bytes (normalize_response_body numbers json bytes content_type encoding v)
      (normalize-IsCanonical numbers json bytes content_type encoding v)
