-- ===== src/Input/Values.antt =====
-- The helpers of swagger_http_common.go that read decoded JSON: toAnyMap, valueAsString,
-- valueAsStringMap, firstNonNil, paramOrLegacy, mapValue, findHeader, parseStatusCode and
-- parseStringListAny. `none` is an error. Loops over maps run in the order of the entries.
use mcp_swagger.Prelude.{
  ℕ, not, ◌&&◌, ◌||◌, Option, none, some, List, [], ◌∷◌, ◌++◌, ◌==◌, ℤ, map, if◌then◌else◌,
}
use mcp_swagger.Text.{Text, codes, text_eq, is_empty, to_lower, trim_space, member}
use mcp_swagger.Dict.{Dict, put}
use mcp_swagger.Float.{int64_of}
use mcp_swagger.Value.{
  Value, strings, null, bool, num, str, arr, obj, envelope, Fields, end, field, find_field,
}
use mcp_swagger.Contract.Schema.{to_list}
use mcp_swagger.Contract.Validate.{is_null}

-- strconv.FormatFloat and strconv.Atoi.
pub record Numbers : Type 0 where
  pub format_float : ℤ → ℕ → Text
  pub atoi : Text → Option ℤ

-- toAnyMap: what is no map is encoded and decoded again, which makes a map of a struct only.
unfoldable pub to_any_map : Value → Option Fields
to_any_map null = some end
to_any_map (obj fs) = some fs
to_any_map (envelope content_type encoding body) = some (
    field (codes "contentType") (str content_type)
      (field (codes "bodyEncoding") (str encoding) (field (codes "body") body end)))
to_any_map v = none

-- toAnyMapOrNil, which makes an empty map nil; a nil map is the empty one here.
unfoldable pub to_any_map_or_nil : Value → Option Fields
unfolding to_any_map
to_any_map_or_nil v = to_any_map v

-- m[key], nil where there is none
unfoldable pub map_value : Fields → Text → Value
map_value fs key = elim (find_field key fs) [ none ↦ null | some v ↦ v ]

unfoldable pub first_non_nil : List Value → Value
first_non_nil [] = null
first_non_nil (v ∷ vs) = let rest = first_non_nil vs in if is_null v then rest else v

unfoldable pub param_or_legacy : Fields → Text → Value → Value
param_or_legacy params key legacy = elim (find_field key params) [ none ↦ legacy | some v ↦ v ]

-- findHeader
unfoldable pub find_header : Dict Text → Text → Option Text
find_header [] name = none
find_header ((key, value) ∷ headers) name =
    let rest = find_header headers name in
    if text_eq (to_lower (trim_space key)) (to_lower (trim_space name)) then some value else rest

module _ (numbers : Numbers) where
  unfoldable pub value_as_string : Value → Text
  value_as_string (str t) = trim_space t
  value_as_string (num m e) = numbers.format_float m e
  value_as_string (bool b) = if b then codes "true" else codes "false"
  value_as_string v = []

  abbrev pub string_entries : Fields → Dict Text → Option (Dict Text)
  string_entries end out = some out
  string_entries (field key item fs) out =
      let text = value_as_string item in
      let rest = string_entries fs (put (trim_space key) (trim_space text) out) in
      if is_empty text && not (is_null item) then none else rest

  abbrev entries_of : Option Fields → Option (Dict Text)
  entries_of none = none
  entries_of (some fs) = string_entries fs []

  -- valueAsStringMap, with a nil map as the empty one.
  unfoldable pub value_as_string_map : Value → Option (Dict Text)
  unfolding to_any_map value_as_string
  value_as_string_map v = entries_of (to_any_map v)

  -- An int has 64 bits.
  unfoldable pub parse_status_code : Value → Option ℤ
  parse_status_code (num m e) = some (int64_of m e)
  parse_status_code (str t) = numbers.atoi (trim_space t)
  parse_status_code v = none

  -- The closure `add` of parseStringListAny, on the keys that were seen.
  abbrev add_names : List Text → List Text → List Text
  add_names [] seen = []
  add_names (item ∷ items) seen =
      let key = to_lower (trim_space item) in
      let skipped = add_names items seen in
      let rest = add_names items (key ∷ seen) in
      if is_empty key || member key seen then skipped else key ∷ rest

  -- strings.FieldsFunc with the separators of parseStringListAny; `word` is the word so far.
  abbrev pub split_fields : Text → Text → List Text
  split_fields word [] = if is_empty word then [] else word ∷ []
  split_fields word (c ∷ t) =
      let longer = split_fields (word ++ c ∷ []) t in
      let rest = split_fields [] t in
      if c == 44 || c == 32 || c == 9 || c == 10 || c == 13
      then (if is_empty word then rest else word ∷ rest)
      else longer

  unfoldable pub parse_string_list_any : Value → List Text
  unfolding value_as_string
  parse_string_list_any (str t) = add_names (split_fields [] t) []
  parse_string_list_any (strings ts) = add_names ts []
  parse_string_list_any (arr xs) = add_names (map value_as_string (to_list xs)) []
  parse_string_list_any v = []
