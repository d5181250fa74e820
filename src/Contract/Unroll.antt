-- ===== src/Contract/Unroll.antt =====
-- The recursion of validateValueAgainstSchema into the schema: its fuel is enough.
use mcp_swagger.Prelude.{
  ℕ, zero, suc, ◌+◌, ◌<◌, ◌≡◌, refl, Option, none, some, List, [], ◌∷◌, ◌++◌, arith, any, count,
  All,
}
use mcp_swagger.Text.{Text, codes}
use mcp_swagger.Value.{
  strings, Value, null, bool, num, str, arr, obj, envelope, Fields, end, field, find_field,
}
use mcp_swagger.Contract.Schema.{as_list, as_fields, schema_type}
use mcp_swagger.Contract.Validator.{
  Validator, fields_of, items_of, index_path, all_of_issues, matches_at_least_one, matching,
  child_issues, property_issues, item_issues, array_issues, combined_issues, typed_issues,
  validate_step, validate, depth, depth_fields, validate_value_against_schema,
}
use mcp_swagger.Contract.Depth.{IsBelow, find_field-depth, as_list-depth, as_fields-depth}

module _ (rec rec' : Validator) (n : ℕ)
    (same : (v s : Value) (p : Text) → depth s < n → rec v s p ≡ rec' v s p) where
  branches_same :
      (value : Value) (path : Text) (i : ℕ) (branches : List Value)
      → All (IsBelow n) branches
      → all_of_issues rec value path i branches ≡ all_of_issues rec' value path i branches
  branches_same value path i [] h = refl
  branches_same value path i (b ∷ bs) h = cc (
    same value b (index_path path (codes ".allOf") i) h.0,
    branches_same value path (i + 1) bs h.1,
  )

  matches_same :
      (value : Value) (branches : List Value)
      → All (IsBelow n) branches
      → matches_at_least_one rec value branches ≡ matches_at_least_one rec' value branches
  unfolding matches_at_least_one any
  matches_same value [] h = refl
  matches_same value (b ∷ bs) h =
      rw (same value b (codes "value") h.0, matches_same value bs h.1) refl

  matching_same :
      (value : Value) (path : Text) (branches : List Value)
      → All (IsBelow n) branches
      → matching rec value path branches ≡ matching rec' value path branches
  unfolding count
  matching_same value path [] h = refl
  matching_same value path (b ∷ bs) h =
      rw (same value b path h.0, matching_same value path bs h.1) refl

  child_same :
      (path key : Text) (schema : Value) (o : Option Value)
      → depth schema < n
      → child_issues rec path key schema o ≡ child_issues rec' path key schema o
  child_same path key schema none h = refl
  child_same path key schema (some child) h = same child schema (path ++ codes "." ++ key) h

  properties_same :
      (object : Fields) (path : Text) (props : Fields)
      → depth_fields props < n
      → property_issues rec object path props ≡ property_issues rec' object path props
  unfolding depth
  properties_same object path end h = refl
  properties_same object path (field key schema props) h =
      let here = child_same path key schema (find_field key object) (omega arith) in
      let rest = properties_same object path props (omega arith) in rw (here, rest) refl

  items_same :
      (path : Text) (schema : Value) (i : ℕ) (items : List Value)
      → depth schema < n
      → item_issues rec path schema i items ≡ item_issues rec' path schema i items
  items_same path schema i [] h = refl
  items_same path schema i (x ∷ xs) h =
      cc (same x schema (index_path path [] i) h, items_same path schema (i + 1) xs h)

  array_same :
      (path : Text) (items : List Value) (o : Option Value)
      → ((v : Value) → o ≡ some v → depth v < n)
      → array_issues rec path items o ≡ array_issues rec' path items o
  array_same path items none h = refl
  array_same path items (some schema) h = items_same path schema 0 items (h schema refl)

module _ (sprint : Value → Text) (rec rec' : Validator) (schema : Fields)
    (same : (v s : Value) (p : Text)
      → depth s < suc (depth_fields schema)
      → rec v s p ≡ rec' v s p) where
  field_below :
      (key : Text) (v : Value)
      → find_field key schema ≡ some v
      → depth v < suc (depth_fields schema)
  field_below key v h = omega (arith, find_field-depth key schema v h)

  lists-IsBelow :
      (key : Text) → All (IsBelow (suc (depth_fields schema))) (as_list (find_field key schema))
  lists-IsBelow key =
      as_list-depth (find_field key schema) (suc (depth_fields schema)) (field_below key)

  combined_same :
      (value : Value) (path : Text)
      → combined_issues sprint rec value schema path ≡ combined_issues sprint rec' value schema path
  combined_same value path =
      let n = suc (depth_fields schema) in
      rw
        (
          branches_same rec rec' n same value path 0 (as_list (find_field (codes "allOf") schema))
              (lists-IsBelow (codes "allOf")),
          matches_same rec rec' n same value (as_list (find_field (codes "anyOf") schema))
              (lists-IsBelow (codes "anyOf")),
          matching_same rec rec' n same value path (as_list (find_field (codes "oneOf") schema))
              (lists-IsBelow (codes "oneOf")),
        )
        refl

  typed_same :
      (value : Value) (path type_name : Text)
      → typed_issues sprint rec value schema path type_name
        ≡ typed_issues sprint rec' value schema path type_name
  typed_same value path type_name =
      let n = suc (depth_fields schema) in
      let props = as_fields (find_field (codes "properties") schema) in
      let below =
        as_fields-depth (find_field (codes "properties") schema) n
          (field_below (codes "properties")) (omega arith) in
      rw
        (
          properties_same rec rec' n same (fields_of value) path props below,
          array_same rec rec' n same path (items_of value) (find_field (codes "items") schema)
              (field_below (codes "items")),
        )
        refl

  step_same :
      (value : Value) (path : Text)
      → validate_step sprint rec value (obj schema) path
        ≡ validate_step sprint rec' value (obj schema) path
  unfolding validate_step
  step_same value path =
      rw (combined_same value path, typed_same value path (schema_type schema)) refl

module _ (sprint : Value → Text) (rec rec' : Validator) where
  step_cong :
      (schema value : Value) (path : Text)
      → ((v s : Value) (p : Text) → depth s < depth schema → rec v s p ≡ rec' v s p)
      → validate_step sprint rec value schema path ≡ validate_step sprint rec' value schema path
  unfolding validate_step depth
  step_cong (obj fs) value path same = step_same sprint rec rec' fs same value path
  step_cong null value path same = refl
  step_cong (bool b) value path same = refl
  step_cong (num m e) value path same = refl
  step_cong (str t) value path same = refl
  step_cong (arr xs) value path same = refl
  step_cong (strings ts) value path same = refl
  step_cong (envelope a b v) value path same = refl

module _ (sprint : Value → Text) where
  enough_fuel :
      (a b : ℕ) (value schema : Value) (path : Text)
      → depth schema < a
      → depth schema < b
      → validate sprint a value schema path ≡ validate sprint b value schema path
  unfolding validate
  enough_fuel zero b value schema path ha hb = absurd (omega arith)
  enough_fuel (suc a) zero value schema path ha hb = absurd (omega arith)
  enough_fuel (suc a) (suc b) value schema path ha hb =
      step_cong sprint (validate sprint a) (validate sprint b) schema value path
        λ v s p h. enough_fuel a b v s p (omega arith) (omega arith)

-- The recursion of the check into the schema ends for every value and schema: its value is that of
-- one more step of the source, with no bound on the depth.
pub validate_unrolls :
    (sprint : Value → Text) (value schema : Value) (path : Text)
    → validate_value_against_schema sprint value schema path
      ≡ validate_step sprint (validate_value_against_schema sprint) value schema path
unfolding validate_value_against_schema validate
validate_unrolls sprint value schema path =
    step_cong sprint (validate sprint (depth schema)) (validate_value_against_schema sprint) schema
      value path λ v s p h. enough_fuel sprint (depth schema) (suc (depth s)) v s p h (omega arith)
