-- ===== src/Contract/Validator.antt =====
-- validateValueAgainstSchema: one level of it, with the recursive call as an argument, and the whole.
use mcp_swagger.Prelude.{
  ℕ, zero, suc, ◌+◌, Bool, ◌||◌, Option, none, some, List, [], ◌∷◌, ◌++◌, ◌==◌, any, count, is_some,
  if◌then◌else◌,
}
use mcp_swagger.Text.{Text, codes, text_eq, is_empty}
use mcp_swagger.Policy.{is_nil}
use mcp_swagger.Value.{Value, arr, obj, Items, nil, cons, Fields, end, field, find_field}
use mcp_swagger.Contract.Schema.{
  decimal, unique_strings, to_list, as_list, as_fields, schema_type, has_type, schema_required,
  enum_contains,
}

-- The fields of a value that has been found to be an object, and the items of one that is an array.
abbrev pub fields_of : Value → Fields
fields_of (obj fs) = fs
fields_of v = end

abbrev pub items_of : Value → List Value
items_of (arr xs) = to_list xs
items_of v = []

abbrev pub index_path : Text → Text → ℕ → Text
index_path path name i = path ++ (name ++ codes "[" ++ decimal i ++ codes "]")

-- The recursive call: a value, a schema and a path.
abbrev pub Validator : Type 0
Validator = Value → Value → Text → List Text

module _ (rec : Validator) where
  abbrev pub all_of_issues : Value → Text → ℕ → List Value → List Text
  all_of_issues value path i [] = []
  all_of_issues value path i (branch ∷ branches) =
      rec value branch (index_path path (codes ".allOf") i)
      ++ all_of_issues value path (i + 1) branches

  -- matchesAtLeastOne
  unfoldable pub matches_at_least_one : Value → List Value → Bool
  matches_at_least_one value = any (λ schema. is_nil (rec value schema (codes "value")))

  abbrev pub any_of_issues : Value → Text → List Value → List Text
  any_of_issues value path branches =
      if is_nil branches || matches_at_least_one value branches
      then []
      else (path ++ codes " does not match anyOf constraints") ∷ []

  abbrev pub matching : Value → Text → List Value → ℕ
  matching value path = count (λ branch. is_nil (rec value branch path))

  abbrev pub one_of_issues : Value → Text → List Value → List Text
  one_of_issues value path branches =
      if is_nil branches || matching value path branches == 1
      then []
      else (path ++ codes " must match exactly one schema from oneOf") ∷ []

  abbrev pub missing_issues : Fields → Text → List Text → List Text
  missing_issues object path [] = []
  missing_issues object path (key ∷ keys) =
      let rest = missing_issues object path keys in
      if is_some (find_field key object)
      then rest
      else (path ++ (codes "." ++ key ++ codes " is required")) ∷ rest

  abbrev pub child_issues : Text → Text → Value → Option Value → List Text
  child_issues path key schema none = []
  child_issues path key schema (some child) = rec child schema (path ++ codes "." ++ key)

  abbrev pub property_issues : Fields → Text → Fields → List Text
  property_issues object path end = []
  property_issues object path (field key schema props) =
      child_issues path key schema (find_field key object) ++ property_issues object path props

  abbrev pub item_issues : Text → Value → ℕ → List Value → List Text
  item_issues path schema i [] = []
  item_issues path schema i (item ∷ items) =
      rec item schema (index_path path [] i) ++ item_issues path schema (i + 1) items

  abbrev pub array_issues : Text → List Value → Option Value → List Text
  array_issues path items none = []
  array_issues path items (some schema) = item_issues path schema 0 items

module _ (sprint : Value → Text) (rec : Validator) where
  abbrev pub enum_issues : Value → Text → List Value → List Text
  enum_issues value path enum =
      if is_nil enum || enum_contains sprint enum value
      then []
      else (path ++ codes " is not in enum") ∷ []

  abbrev pub combined_issues : Value → Fields → Text → List Text
  combined_issues value schema path =
      all_of_issues rec value path 0 (as_list (find_field (codes "allOf") schema))
      ++ any_of_issues rec value path (as_list (find_field (codes "anyOf") schema))
      ++ one_of_issues rec value path (as_list (find_field (codes "oneOf") schema))

  abbrev pub object_issues : Value → Fields → Text → List Text
  object_issues value schema path =
      missing_issues rec (fields_of value) path (schema_required schema)
      ++ property_issues rec (fields_of value) path
          (as_fields (find_field (codes "properties") schema))

  abbrev pub typed_issues : Value → Fields → Text → Text → List Text
  typed_issues value schema path type_name =
      (if text_eq type_name (codes "object") then object_issues value schema path else [])
      ++ (if text_eq type_name (codes "array")
          then array_issues rec path (items_of value) (find_field (codes "items") schema)
          else [])
      ++ enum_issues value path (as_list (find_field (codes "enum") schema))

  unfoldable pub validate_step : Value → Value → Text → List Text
  validate_step value (obj schema) path =
      let type_name = schema_type schema in
      if is_empty type_name || has_type type_name value
      then unique_strings
          (combined_issues value schema path ++ typed_issues value schema path type_name)
      else unique_strings
          (combined_issues value schema path ++ (path ++ (codes ": expected " ++ type_name)) ∷ [])
  validate_step value schema path = []

-- How deep schemas nest.
unfoldable mutual
  pub depth : Value → ℕ
  depth (obj fs) = suc (depth_fields fs)
  depth (arr xs) = suc (depth_items xs)
  depth v = 0

  pub depth_items : Items → ℕ
  depth_items nil = 0
  depth_items (cons x xs) = depth x + depth_items xs

  pub depth_fields : Fields → ℕ
  depth_fields end = 0
  depth_fields (field key v fs) = depth v + depth_fields fs

module _ (sprint : Value → Text) where
  unfoldable pub validate : ℕ → Value → Value → Text → List Text
  unfolding validate_step
  validate zero value schema path = []
  validate (suc fuel) value schema path = validate_step sprint (validate fuel) value schema path

  unfoldable pub validate_value_against_schema : Value → Value → Text → List Text
  unfolding validate depth
  validate_value_against_schema value schema path = validate (suc (depth schema)) value schema path
