-- ===== src/Contract/Schema.antt =====
-- validateValueAgainstSchema of swagger_http_common.go and what it calls. A loop over a map runs in
-- the order of its entries. `sprint` stands for fmt.Sprintf("%v"). The recursion into the schema runs
-- on fuel, the depth of the schema.
use mcp_swagger.Prelude.{
  ℕ, zero, suc, ◌+◌, ◌/◌, ◌%◌, Bool, true, false, ◌||◌, Option, some, List, [], ◌∷◌, ltb, any,
  if◌then◌else◌,
}
use mcp_swagger.Text.{Text, codes, text_eq, is_empty, to_lower, trim_space, member}
use mcp_swagger.Float.{int64_of, equals_int}
use mcp_swagger.Value.{
  Value, bool, num, str, arr, obj, strings, Items, nil, cons, Fields, end, find_field,
}

abbrev digits : ℕ → ℕ → Text → Text
digits zero n acc = acc
digits (suc fuel) n acc =
    let rest = digits fuel (n / 10) ((48 + n % 10) ∷ acc) in
    if ltb n 10 then (48 + n) ∷ acc else rest

-- %d
unfoldable pub decimal : ℕ → Text
decimal n = digits (suc n) n []

abbrev pub unique_from : List Text → List Text → List Text
unique_from seen [] = []
unique_from seen (value ∷ values) =
    let item = trim_space value in
    let skipped = unique_from seen values in
    let rest = unique_from (item ∷ seen) values in
    if is_empty item || member item seen then skipped else item ∷ rest

unfoldable pub unique_strings : List Text → List Text
unique_strings = unique_from []

abbrev pub to_list : Items → List Value
to_list nil = []
to_list (cons x xs) = x ∷ to_list xs

-- v, ok := value.([]any)
abbrev pub as_list : Option Value → List Value
as_list (some (arr xs)) = to_list xs
as_list _ = []

-- v, ok := value.(map[string]any)
abbrev pub as_fields : Option Value → Fields
as_fields (some (obj fs)) = fs
as_fields _ = end

abbrev first_name : List Value → Text
first_name [] = []
first_name (str t ∷ vs) =
    let rest = first_name vs in if is_empty (trim_space t) then rest else to_lower (trim_space t)
first_name (v ∷ vs) = first_name vs

-- Two types are a []string after the resolver, for which schemaType has no case.
unfoldable pub schema_type : Fields → Text
schema_type schema = elim (find_field (codes "type") schema) [
  | some (str t) ↦ to_lower (trim_space t)
  | some (arr xs) ↦ first_name (to_list xs)
  | _ ↦ []
]

-- float64: v == float64(int64(v))
abbrev is_integer : Value → Bool
is_integer (num m e) = equals_int m e (int64_of m e)
is_integer v = false

abbrev is_number : Value → Bool
is_number (num m e) = true
is_number v = false

abbrev is_object : Value → Bool
is_object (obj fs) = true
is_object v = false

abbrev is_array : Value → Bool
is_array (arr xs) = true
is_array v = false

abbrev is_string : Value → Bool
is_string (str t) = true
is_string v = false

abbrev is_boolean : Value → Bool
is_boolean (bool b) = true
is_boolean v = false

-- ensureType, without its error
unfoldable pub has_type : Text → Value → Bool
has_type expected value =
    if text_eq expected (codes "object")
    then is_object value
    else if text_eq expected (codes "array")
    then is_array value
    else if text_eq expected (codes "string")
    then is_string value
    else if text_eq expected (codes "boolean")
    then is_boolean value
    else if text_eq expected (codes "integer")
    then is_integer value
    else if text_eq expected (codes "number")
    then is_number value
    else true

abbrev names_in : List Value → List Text
names_in [] = []
names_in (str t ∷ vs) =
    let rest = names_in vs in if is_empty (trim_space t) then rest else trim_space t ∷ rest
names_in (v ∷ vs) = names_in vs

abbrev required_names : Option Value → List Text
required_names (some (arr xs)) = unique_strings (names_in (to_list xs))
required_names (some (strings ts)) = unique_strings ts
required_names o = []

unfoldable pub schema_required : Fields → List Text
unfolding unique_strings
schema_required schema = required_names (find_field (codes "required") schema)

module _ (sprint : Value → Text) where
  unfoldable pub enum_contains : List Value → Value → Bool
  enum_contains enum value = any (λ item. text_eq (sprint item) (sprint value)) enum
