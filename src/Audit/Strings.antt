-- ===== src/Audit/Strings.antt =====
-- The redaction of texts that hold JSON: its fuel is enough.
use mcp_swagger.Prelude.{ℕ, zero, suc, ◌<◌, ◌≡◌, refl, Option, none, some, List, arith, length}
use mcp_swagger.Text.{Text}
use mcp_swagger.Value.{
  strings, Value, null, bool, num, str, arr, obj, envelope, Items, nil, cons, Fields, end, field,
}
use mcp_swagger.Audit.Redaction.{
  redact_items, redact_fields, JsonApi, redact_node, redact_text_with, redact_text, redact_string,
  redact_parsed,
}

-- Every text in the value is shorter than `n`.
abbrev mutual
  pub AreTextsBelow : ℕ → Value → Type 0
  AreTextsBelow n (str t) = length t < n
  AreTextsBelow n (arr xs) = AreItemsBelow n xs
  AreTextsBelow n (obj fs) = AreFieldsBelow n fs
  AreTextsBelow n v = Unit {0}

  pub AreItemsBelow : ℕ → Items → Type 0
  AreItemsBelow n nil = Unit {0}
  AreItemsBelow n (cons x xs) = AreTextsBelow n x × AreItemsBelow n xs

  pub AreFieldsBelow : ℕ → Fields → Type 0
  AreFieldsBelow n end = Unit {0}
  AreFieldsBelow n (field k v fs) = AreTextsBelow n v × AreFieldsBelow n fs

-- Each text literal of a document takes its two quotes more than the text.
abbrev pub IsShrinking : JsonApi → Type 0
IsShrinking api = (t : Text) (v : Value) → api.unmarshal t ≡ some v → AreTextsBelow (length t) v

module _ (hidden : List Text) (f g : Text → Text) (n : ℕ)
    (same : (t : Text) → length t < n → f t ≡ g t) where
  mutual
    unfolding redact_node

    node_same : (v : Value) → AreTextsBelow n v → redact_node hidden f v ≡ redact_node hidden g v
    node_same null h = refl
    node_same (bool b) h = refl
    node_same (num m e) h = refl
    node_same (str t) h = cc (same t h)
    node_same (arr xs) h = cc (items_same xs h)
    node_same (obj fs) h = cc (fields_same fs h)
    node_same (strings ts) h = refl
    node_same (envelope a b v) h = refl

    items_same :
        (xs : Items) → AreItemsBelow n xs → redact_items hidden f xs ≡ redact_items hidden g xs
    items_same nil h = refl
    items_same (cons x xs) h = cc (node_same x h.0, items_same xs h.1)

    fields_same :
        (fs : Fields) → AreFieldsBelow n fs → redact_fields hidden f fs ≡ redact_fields hidden g fs
    fields_same end h = refl
    fields_same (field k v fs) h = rw (node_same v h.0, fields_same fs h.1) refl

module _ (api : JsonApi) (hidden : List Text) where
  parsed_same :
      (f g : Text → Text) (t : Text) (o : Option Value)
      → ((s : Text) → length s < length t → f s ≡ g s)
      → ((v : Value) → o ≡ some v → AreTextsBelow (length t) v)
      → redact_parsed api hidden f t o ≡ redact_parsed api hidden g t o
  parsed_same f g t none same below = refl
  parsed_same f g t (some v) same below =
      rw (node_same hidden f g (length t) same v (below v refl)) refl

  text_with_same :
      (f g : Text → Text) (t : Text)
      → IsShrinking api
      → ((s : Text) → length s < length t → f s ≡ g s)
      → redact_text_with api hidden f t ≡ redact_text_with api hidden g t
  text_with_same f g t shrinks same = rw (parsed_same f g t (api.unmarshal t) same (shrinks t)) refl

  enough_fuel :
      (a b : ℕ) (t : Text)
      → IsShrinking api
      → length t < a
      → length t < b
      → redact_text api hidden a t ≡ redact_text api hidden b t
  unfolding redact_text
  enough_fuel zero b t shrinks ha hb = absurd (omega arith)
  enough_fuel (suc a) zero t shrinks ha hb = absurd (omega arith)
  enough_fuel (suc a) (suc b) t shrinks ha hb =
      text_with_same (redact_text api hidden a) (redact_text api hidden b) t shrinks
        λ s short. enough_fuel a b s shrinks (omega arith) (omega arith)

-- If the texts in a decoded document are shorter than the document, then the recursion of
-- redactNode through texts that hold JSON ends: its value is that of one more step of the source,
-- with no bound on the depth.
pub redact_string_unrolls :
    (api : JsonApi) (hidden : List Text) (t : Text)
    → IsShrinking api
    → redact_string api hidden t ≡ redact_text_with api hidden (redact_string api hidden) t
unfolding redact_string redact_text
redact_string_unrolls api hidden t shrinks =
    text_with_same api hidden (redact_text api hidden (length t)) (redact_string api hidden) t
      shrinks
      λ s short. enough_fuel api hidden (length t) (suc (length s)) s shrinks short (omega arith)
