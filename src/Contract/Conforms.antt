-- ===== src/Contract/Conforms.antt =====
-- What it means that a value conforms to a schema, with no paths and no messages.
use mcp_swagger.Prelude.{
  ℕ, zero, suc, Bool, true, not, ◌&&◌, ◌||◌, Option, none, some, List, [], ◌∷◌, ◌==◌, any, count,
  is_some,
}
use mcp_swagger.Text.{Text, codes, text_eq, is_empty}
use mcp_swagger.Policy.{is_nil}
use mcp_swagger.Value.{Value, obj, Fields, end, field, find_field}
use mcp_swagger.Contract.Schema.{
  as_list, as_fields, schema_type, has_type, schema_required, enum_contains,
}
use mcp_swagger.Contract.Validator.{fields_of, items_of, depth}

abbrev pub every {ℓ} : {A : Type ℓ} → (A → Bool) → List A → Bool
every p [] = true
every p (x ∷ xs) = p x && every p xs

-- The recursive call: a value and a schema.
abbrev pub Test : Type 0
Test = Value → Value → Bool

module _ (test : Test) where
  abbrev pub child_conforms : Value → Option Value → Bool
  child_conforms schema none = true
  child_conforms schema (some child) = test child schema

  abbrev pub properties_conform : Fields → Fields → Bool
  properties_conform object end = true
  properties_conform object (field key schema props) =
      child_conforms schema (find_field key object) && properties_conform object props

  abbrev pub items_conform : List Value → Option Value → Bool
  items_conform items none = true
  items_conform items (some schema) = every (λ item. test item schema) items

module _ (sprint : Value → Text) (test : Test) where
  abbrev pub combines : Value → Fields → Bool
  combines value schema =
      let any_of = as_list (find_field (codes "anyOf") schema) in
      let one_of = as_list (find_field (codes "oneOf") schema) in
      every (test value) (as_list (find_field (codes "allOf") schema))
      && (is_nil any_of || any (test value) any_of)
      && (is_nil one_of || count (test value) one_of == 1)

  abbrev pub object_conforms : Value → Fields → Bool
  object_conforms value schema =
      every (λ key. is_some (find_field key (fields_of value))) (schema_required schema)
      && properties_conform test (fields_of value)
          (as_fields (find_field (codes "properties") schema))

  abbrev pub is_enumerated : Value → Fields → Bool
  is_enumerated value schema =
      let enum = as_list (find_field (codes "enum") schema) in
      is_nil enum || enum_contains sprint enum value

  unfoldable pub conforms_step : Value → Value → Bool
  conforms_step value (obj schema) =
      let type_name = schema_type schema in
      combines value schema
      && (is_empty type_name || has_type type_name value)
      && (not (text_eq type_name (codes "object")) || object_conforms value schema)
      && (not (text_eq type_name (codes "array"))
          || items_conform test (items_of value) (find_field (codes "items") schema))
      && is_enumerated value schema
  conforms_step value schema = true

module _ (sprint : Value → Text) where
  unfoldable pub conforms_to : ℕ → Value → Value → Bool
  unfolding conforms_step
  conforms_to zero value schema = true
  conforms_to (suc fuel) value schema = conforms_step sprint (conforms_to fuel) value schema

  unfoldable pub conforms : Value → Value → Bool
  unfolding conforms_to
  conforms value schema = conforms_to (suc (depth schema)) value schema
