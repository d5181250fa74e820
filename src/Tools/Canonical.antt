-- ===== src/Tools/Canonical.antt =====
-- The form of every body that decodeResponseBody and normalizeResponseBody return.
use mcp_swagger.Prelude.{
  ◌≡◌, refl, ℕ, ◌⊎◌, inl, inr, false, not, ◌&&◌, ◌||◌, Option, none, some, List, [], if◌then◌else◌,
  if_rule,
}
use mcp_swagger.Text.{Text, codes, text_eq, is_space, is_empty, to_lower, trim_space}
use mcp_swagger.Text.Laws.{trim_space_idem}
use mcp_swagger.Policy.{is_nil}
use mcp_swagger.Value.{strings, Value, null, bool, num, str, arr, obj, envelope}
use mcp_swagger.Audit.Redaction.{JsonApi, looks_like_json}
use mcp_swagger.Input.Values.{Numbers}
use mcp_swagger.Input.Parse.{filled_or}
use mcp_swagger.Tools.Bodies.{
  ResponseBodyEnvelope, BytesApi, json_encoding, text_encoding, base64_encoding, type_of_encoding,
  default_response_content_type, tagged, is_json_content_type, extract_body_envelope_map,
  is_utf8_text, text_or_base64, parsed_or_raw, decode_response_body, stringify_body, text_or_json,
  reencoded, guessed, by_encoding, opened, normalize_response_body,
}

-- A content type that is there, without spaces around it.
abbrev pub IsTyped : Text → Type 0
IsTyped content_type = (trim_space content_type ≡ content_type) × (is_empty content_type ≡ false)

-- The encoding is json, or it is text or base64 and the body a string.
pub record IsCanonical (e : ResponseBodyEnvelope) : Type 0 where
  pub typed : IsTyped e.content_type
  pub encoded :
      (e.body_encoding ≡ json_encoding)
      ⊎ ((t : Text) × (e.body ≡ str t)
          × ((e.body_encoding ≡ text_encoding) ⊎ (e.body_encoding ≡ base64_encoding)))

type_of_encoding-IsTyped : (encoding : Text) → IsTyped (type_of_encoding encoding)
unfolding trim_space is_space
type_of_encoding-IsTyped encoding =
    if_rule IsTyped (text_eq encoding json_encoding) _ _ (λ _. (refl, refl))
      λ _.
        if_rule IsTyped (text_eq encoding base64_encoding) (codes "application/octet-stream")
          (codes "text/plain; charset=utf-8") (λ _. (refl, refl)) λ _. (refl, refl)

pub default-IsTyped :
    (content_type encoding : Text) → IsTyped (default_response_content_type content_type encoding)
unfolding default_response_content_type
default-IsTyped content_type encoding =
    if_rule IsTyped (is_empty (trim_space content_type))
      (type_of_encoding (to_lower (trim_space encoding))) (trim_space content_type)
      (λ _. type_of_encoding-IsTyped (to_lower (trim_space encoding)))
      λ given. (trim_space_idem content_type, given)

json-IsCanonical :
    (content_type : Text) (v : Value) → IsCanonical (tagged content_type json_encoding v)
json-IsCanonical content_type v = record {
  typed = default-IsTyped content_type json_encoding;
  encoded = inl refl;
}

text-IsCanonical : (content_type t : Text) → IsCanonical (tagged content_type text_encoding (str t))
text-IsCanonical content_type t = record {
  typed = default-IsTyped content_type text_encoding;
  encoded = inr (t, refl, inl refl);
}

base64-IsCanonical :
    (content_type t : Text) → IsCanonical (tagged content_type base64_encoding (str t))
base64-IsCanonical content_type t = record {
  typed = default-IsTyped content_type base64_encoding;
  encoded = inr (t, refl, inr refl);
}

module _ (numbers : Numbers) (json : JsonApi) (bytes : BytesApi) where
  text_or_base64-IsCanonical :
      (content_type : Text) (payload : List ℕ)
      → IsCanonical (text_or_base64 numbers json bytes content_type payload)
  text_or_base64-IsCanonical content_type payload =
      if_rule IsCanonical (is_utf8_text numbers json bytes payload)
        (tagged content_type text_encoding (str (bytes.text_of payload)))
        (tagged content_type base64_encoding (str (bytes.base64 payload)))
        (λ _. text-IsCanonical content_type (bytes.text_of payload))
        λ _. base64-IsCanonical content_type (bytes.base64 payload)

  parsed_or_raw-IsCanonical :
      (content_type : Text) (payload : List ℕ) (o : Option Value)
      → IsCanonical (parsed_or_raw numbers json bytes content_type payload o)
  parsed_or_raw-IsCanonical content_type payload none =
      text_or_base64-IsCanonical content_type payload
  parsed_or_raw-IsCanonical content_type payload (some v) = json-IsCanonical content_type v

  pub decode-IsCanonical :
      (content_type : Text) (payload : List ℕ)
      → IsCanonical (decode_response_body numbers json bytes content_type payload)
  unfolding decode_response_body
  decode-IsCanonical content_type payload =
      let raw = text_or_base64 numbers json bytes content_type payload in
      let parsed =
        parsed_or_raw numbers json bytes content_type payload
          (json.unmarshal (bytes.text_of payload)) in
      let is_json = is_json_content_type content_type || looks_like_json (bytes.text_of payload) in
      if_rule IsCanonical (is_nil payload) (tagged content_type text_encoding (str []))
        (if is_json then parsed else raw) (λ _. text-IsCanonical content_type [])
        λ _.
          if_rule IsCanonical is_json parsed raw
            (λ _.
              parsed_or_raw-IsCanonical content_type payload
                (json.unmarshal (bytes.text_of payload)))
            λ _. text_or_base64-IsCanonical content_type payload

  text_or_json-IsCanonical :
      (content_type t : Text) (o : Option Value)
      → IsCanonical (text_or_json numbers json bytes content_type t o)
  text_or_json-IsCanonical content_type t none = text-IsCanonical content_type t
  text_or_json-IsCanonical content_type t (some v) = json-IsCanonical content_type v

  reencoded-IsCanonical :
      (content_type : Text) (v : Value) (o : Option Text)
      → IsCanonical (reencoded numbers json bytes content_type v o)
  reencoded-IsCanonical content_type v none =
      text-IsCanonical content_type (stringify_body numbers json bytes v)
  reencoded-IsCanonical content_type v (some payload) =
      elim (json.unmarshal payload)
        as (λ o. IsCanonical (elim o [
          | none ↦ tagged content_type text_encoding (str (stringify_body numbers json bytes v))
          | some parsed ↦ tagged content_type json_encoding parsed
        ])) [
          | none ↦ text-IsCanonical content_type (stringify_body numbers json bytes v)
          | some parsed ↦ json-IsCanonical content_type parsed
        ]

  guessed-IsCanonical :
      (content_type : Text) (v : Value) → IsCanonical (guessed numbers json bytes content_type v)
  unfolding guessed
  guessed-IsCanonical content_type null = text-IsCanonical content_type []
  guessed-IsCanonical content_type (str t) =
      if_rule IsCanonical
        ((is_json_content_type content_type || looks_like_json t) && not (is_empty (trim_space t)))
        (text_or_json numbers json bytes content_type t (json.unmarshal (trim_space t)))
        (tagged content_type text_encoding (str t))
        (λ _. text_or_json-IsCanonical content_type t (json.unmarshal (trim_space t)))
        λ _. text-IsCanonical content_type t
  guessed-IsCanonical content_type (envelope ct encoding body) =
      reencoded-IsCanonical content_type (envelope ct encoding body)
        (json.marshal (envelope ct encoding body))
  guessed-IsCanonical content_type (strings ts) =
      reencoded-IsCanonical content_type (strings ts) (json.marshal (strings ts))
  guessed-IsCanonical content_type (bool b) = json-IsCanonical content_type (bool b)
  guessed-IsCanonical content_type (num m e) = json-IsCanonical content_type (num m e)
  guessed-IsCanonical content_type (arr xs) = json-IsCanonical content_type (arr xs)
  guessed-IsCanonical content_type (obj fs) = json-IsCanonical content_type (obj fs)

  by_encoding-IsCanonical :
      (content_type encoding : Text) (v : Value)
      → IsCanonical (by_encoding numbers json bytes content_type encoding v)
  by_encoding-IsCanonical content_type encoding v =
      if_rule IsCanonical (text_eq encoding json_encoding) _ _
        (λ _. json-IsCanonical content_type _)
        λ _.
          if_rule IsCanonical (text_eq encoding text_encoding) _ _
            (λ _. text-IsCanonical content_type _)
            λ _.
              if_rule IsCanonical (text_eq encoding base64_encoding) _ _
                (λ _. base64-IsCanonical content_type _) λ _. guessed-IsCanonical content_type v

  opened-IsCanonical :
      (content_type encoding : Text) (v : Value) (o : Option ResponseBodyEnvelope)
      → IsCanonical (opened numbers json bytes content_type encoding v o)
  opened-IsCanonical content_type encoding v none = by_encoding-IsCanonical content_type encoding v
  opened-IsCanonical content_type encoding v (some e) =
      by_encoding-IsCanonical (filled_or content_type e.content_type)
        (filled_or encoding e.body_encoding) e.body

  pub normalize-IsCanonical :
      (content_type encoding : Text) (v : Value)
      → IsCanonical (normalize_response_body numbers json bytes content_type encoding v)
  unfolding normalize_response_body
  normalize-IsCanonical content_type encoding v =
      opened-IsCanonical (trim_space content_type) (to_lower (trim_space encoding)) v
        (extract_body_envelope_map numbers v)
