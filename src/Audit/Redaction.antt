-- ===== src/Audit/Redaction.antt =====
-- redactJSON, redactHeaders and toLowerSet of logger.go. The JSON decoder and encoder of the standard
-- library are the fields of `JsonApi`. A text that holds JSON is redacted inside: the recursion
-- through texts runs on fuel, the length of the text.
use mcp_swagger.Prelude.{
  ℕ, zero, suc, Bool, ◌||◌, Option, none, some, List, [], ◌∷◌, length, if◌then◌else◌,
}
use mcp_swagger.Text.{Text, codes, is_empty, to_lower, trim_space, has_prefix, member}
use mcp_swagger.Dict.{Dict}
use mcp_swagger.Value.{Value, null, str, arr, obj, Items, nil, cons, Fields, end, field, clone_any}

pub record JsonApi : Type 0 where
  pub unmarshal : Text → Option Value
  pub marshal : Value → Option Text

abbrev pub redacted : Text
redacted = codes "[REDACTED]"

abbrev pub lower_trim : Text → Text
lower_trim t = to_lower (trim_space t)

unfoldable pub to_lower_set : List Text → List Text
to_lower_set [] = []
to_lower_set (item ∷ items) =
    let rest = to_lower_set items in
    if is_empty (lower_trim item) then rest else lower_trim item ∷ rest

unfoldable pub redact_headers : List Text → Dict Text → Dict Text
redact_headers hidden [] = []
redact_headers hidden ((key, value) ∷ headers) =
    let rest = redact_headers hidden headers in
    if member (lower_trim key) hidden then (key, redacted) ∷ rest else (key, value) ∷ rest

module _ (hidden : List Text) (redact_text : Text → Text) where
  -- redactNode, with what it does to a text as an argument.
  unfoldable mutual
    pub redact_node : Value → Value
    redact_node (obj fs) = obj (redact_fields fs)
    redact_node (arr xs) = arr (redact_items xs)
    redact_node (str t) = str (redact_text t)
    redact_node v = v

    pub redact_items : Items → Items
    redact_items nil = nil
    redact_items (cons x xs) = cons (redact_node x) (redact_items xs)

    pub redact_fields : Fields → Fields
    redact_fields end = end
    redact_fields (field key child fs) =
        let rest = redact_fields fs in
        let inner = redact_node child in
        if member (lower_trim key) hidden
        then field key (str redacted) rest
        else field key inner rest

-- trimmed[0] == '{' || trimmed[0] == '['
abbrev pub looks_like_json : Text → Bool
looks_like_json t = has_prefix (trim_space t) (codes "{") || has_prefix (trim_space t) (codes "[")

module _ (api : JsonApi) (hidden : List Text) where
  abbrev pub text_or : Text → Option Text → Text
  text_or t none = t
  text_or t (some payload) = payload

  abbrev pub redact_parsed : (Text → Text) → Text → Option Value → Text
  redact_parsed redact_text t none = t
  redact_parsed redact_text t (some v) = text_or t (api.marshal (redact_node hidden redact_text v))

  -- The case of a text of redactNode.
  abbrev pub redact_text_with : (Text → Text) → Text → Text
  redact_text_with redact_text t =
      if looks_like_json t then redact_parsed redact_text t (api.unmarshal t) else t

  unfoldable pub redact_text : ℕ → Text → Text
  unfolding redact_node
  redact_text zero t = t
  redact_text (suc fuel) t = redact_text_with (redact_text fuel) t

  unfoldable pub redact_string : Text → Text
  unfolding redact_text
  redact_string t = redact_text (suc (length t)) t

  unfoldable pub redact_json : Value → Value
  unfolding redact_string
  redact_json null = null
  redact_json v = redact_node hidden redact_string (clone_any v)
