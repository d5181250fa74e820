-- ===== src/Audit/Hidden.antt =====
-- What never reaches the audit log.
use mcp_swagger.Prelude.{
  ◌≡◌, ◌≢◌, refl, ◌⊎◌, inl, inr, Bool, true, false, Option, none, some, List, [], ◌∷◌, arith, ◌||◌,
  any, if_rule,
}
use mcp_swagger.Text.{Text, text_eq, member}
use mcp_swagger.Text.Laws.{text_eq_iff}
use mcp_swagger.Dict.{Dict, get}
use mcp_swagger.Value.{
  strings, Value, null, bool, num, str, arr, obj, envelope, Items, nil, cons, Fields, end, field,
  clone_any, clone_any_lem,
}
use mcp_swagger.Audit.Redaction.{
  JsonApi, redacted, lower_trim, to_lower_set, redact_headers, redact_node, redact_items,
  redact_fields, redact_string, redact_json,
}
use mcp_swagger.Audit.Logger.{UrlApi, Entry, SlogLogger, new_logger, log_call}

-- The list has a name that differs in spaces and case only.
abbrev pub names : Text → List Text → Bool
names key [] = false
names key (item ∷ items) = text_eq (lower_trim key) (lower_trim item) || names key items

member-to_lower_set :
    (key : Text) (items : List Text)
    → names key items ≡ true
    → lower_trim key ≢ []
    → member (lower_trim key) (to_lower_set items) ≡ true
unfolding member any to_lower_set
member-to_lower_set key (item ∷ items) h filled =
    ground (arith, member-to_lower_set key items, text_eq_iff (lower_trim key) (lower_trim item))
member-to_lower_set key [] h filled = h

get-redact_headers :
    (hidden : List Text) (key : Text) (headers : Dict Text)
    → member (lower_trim key) hidden ≡ true
    → (get key (redact_headers hidden headers) ≡ none)
      ⊎ (get key (redact_headers hidden headers) ≡ some redacted)
unfolding get redact_headers
get-redact_headers hidden key [] h = inl refl
get-redact_headers hidden key ((k, v) ∷ headers) h =
    ground (arith, text_eq_iff k key, get-redact_headers hidden key headers h)

-- No field of a hidden name has a value in the value, at any depth.
abbrev mutual
  pub IsHiding : List Text → Value → Type 0
  IsHiding hidden (obj fs) = AreHiding hidden fs
  IsHiding hidden (arr xs) = AllHiding hidden xs
  IsHiding hidden (envelope a b v) = IsHiding hidden v
  IsHiding hidden v = Unit {0}

  pub AllHiding : List Text → Items → Type 0
  AllHiding hidden nil = Unit {0}
  AllHiding hidden (cons x xs) = IsHiding hidden x × AllHiding hidden xs

  pub AreHiding : List Text → Fields → Type 0
  AreHiding hidden end = Unit {0}
  AreHiding hidden (field key v fs) =
      ((v ≡ str redacted) ⊎ ((member (lower_trim key) hidden ≡ false) × IsHiding hidden v))
      × AreHiding hidden fs

-- A value of JSON, or of slices of strings, with no struct of Go in it.
abbrev mutual
  pub IsJson : Value → Type 0
  IsJson (obj fs) = AreFieldsJson fs
  IsJson (arr xs) = AreItemsJson xs
  IsJson (envelope a b v) = ⊥
  IsJson v = Unit {0}

  pub AreItemsJson : Items → Type 0
  AreItemsJson nil = Unit {0}
  AreItemsJson (cons x xs) = IsJson x × AreItemsJson xs

  pub AreFieldsJson : Fields → Type 0
  AreFieldsJson end = Unit {0}
  AreFieldsJson (field key v fs) = IsJson v × AreFieldsJson fs

module _ (hidden : List Text) (f : Text → Text) where
  mutual
    unfolding redact_node

    node_hides : (v : Value) → IsJson v → IsHiding hidden (redact_node hidden f v)
    node_hides null h = tt
    node_hides (bool b) h = tt
    node_hides (num m e) h = tt
    node_hides (str t) h = tt
    node_hides (arr xs) h = items_hide xs h
    node_hides (obj fs) h = fields_hide fs h
    node_hides (strings ts) h = tt
    node_hides (envelope a b v) h = absurd h

    items_hide : (xs : Items) → AreItemsJson xs → AllHiding hidden (redact_items hidden f xs)
    items_hide nil h = tt
    items_hide (cons x xs) h = (node_hides x h.0, items_hide xs h.1)

    fields_hide : (fs : Fields) → AreFieldsJson fs → AreHiding hidden (redact_fields hidden f fs)
    fields_hide end h = tt
    fields_hide (field key v fs) h =
        if_rule (AreHiding hidden) (member (lower_trim key) hidden) _ _
          (λ secret. (inl refl, fields_hide fs h.1))
          λ open_name. (inr (open_name, node_hides v h.0), fields_hide fs h.1)

cloned_hides :
    (api : JsonApi) (hidden : List Text) (v : Value)
    → IsJson v
    → IsHiding hidden (redact_node hidden (redact_string api hidden) (clone_any v))
cloned_hides api hidden v h =
    rw (clone_any_lem v) (node_hides hidden (redact_string api hidden) v h)

redact_json-IsHiding :
    (api : JsonApi) (hidden : List Text) (v : Value)
    → IsJson v
    → IsHiding hidden (redact_json api hidden v)
unfolding redact_json
redact_json-IsHiding api hidden null h = tt
redact_json-IsHiding api hidden v h = cloned_hides api hidden v h

-- The value is absent or the mark.
abbrev pub IsMasked : Option Text → Type 0
IsMasked o = (o ≡ none) ⊎ (o ≡ some redacted)

log_call-some :
    (urls : UrlApi) (json : JsonApi) (l : SlogLogger) (entry logged : Entry)
    → log_call urls json l entry ≡ some logged
    → (logged.request_headers ≡ redact_headers l.redact_headers entry.request_headers)
      × (logged.response_headers ≡ redact_headers l.redact_headers entry.response_headers)
      × (logged.request_body ≡ redact_json json l.redact_json_fields entry.request_body)
      × (logged.response_body ≡ redact_json json l.redact_json_fields entry.response_body)
unfolding log_call
log_call-some urls json l entry logged h = ground arith

module _ (urls : UrlApi) (json : JsonApi) (enabled : Bool) (headers fields : List Text)
    (entry logged : Entry) where
  -- In the record that LogCall of a logger made by NewLogger writes, a header whose name is
  -- configured, in whatever case and with whatever spaces around it, is absent or [REDACTED], in
  -- the request and in the response.
  pub secret_headers-IsMasked :
      (key : Text)
      → log_call urls json (new_logger enabled headers fields) entry ≡ some logged
      → names key headers ≡ true
      → lower_trim key ≢ []
      → IsMasked (get key logged.request_headers) × IsMasked (get key logged.response_headers)
  unfolding new_logger
  secret_headers-IsMasked key h named filled =
      let l = log_call-some urls json (new_logger enabled headers fields) entry logged h in
      let hidden = member-to_lower_set key headers named filled in
      (
        rw l.0 (get-redact_headers (to_lower_set headers) key entry.request_headers hidden),
        rw l.1 (get-redact_headers (to_lower_set headers) key entry.response_headers hidden),
      )

  -- If the request body of an entry is a value of JSON, then in the record that LogCall of a
  -- logger made by NewLogger writes no configured field of it, at any depth, has a value other
  -- than [REDACTED].
  pub secret_fields_hidden :
      log_call urls json (new_logger enabled headers fields) entry ≡ some logged
      → IsJson entry.request_body
      → IsHiding (to_lower_set fields) logged.request_body
  unfolding new_logger
  secret_fields_hidden h plain =
      let l = log_call-some urls json (new_logger enabled headers fields) entry logged h in
      rw l.2 (redact_json-IsHiding json (to_lower_set fields) entry.request_body plain)
