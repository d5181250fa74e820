-- ===== src/Contract/Decides.antt =====
-- validateValueAgainstSchema finds no issue exactly in the values that conform.
use mcp_swagger.Prelude.{
  ℕ, zero, suc, ◌+◌, ◌≡◌, refl, ◌↔◌, Bool, true, false, not, ◌&&◌, ◌||◌, Option, none, some, List,
  [], ◌∷◌, ◌++◌, arith, ◌==◌, any, count, is_some, if◌then◌else◌,
}
use mcp_swagger.Text.{Text, codes, text_eq, is_empty, is_space}
use mcp_swagger.Policy.{is_nil}
use mcp_swagger.Value.{
  strings, Value, null, bool, num, str, arr, obj, envelope, Fields, end, field, find_field,
}
use mcp_swagger.Contract.Schema.{
  unique_strings, as_list, as_fields, schema_type, has_type, schema_required,
}
use mcp_swagger.Contract.Validator.{
  Validator, fields_of, items_of, index_path, all_of_issues, matches_at_least_one, any_of_issues,
  matching, one_of_issues, missing_issues, child_issues, property_issues, item_issues, array_issues,
  enum_issues, combined_issues, object_issues, typed_issues, validate_step, validate, depth,
  validate_value_against_schema,
}
use mcp_swagger.Contract.Ink.{
  has_ink, has_ink-append, clean, clean-append, clean-append2, clean-append3, clean-unique_strings,
  is_nil-unique_strings,
}
use mcp_swagger.Contract.Conforms.{
  every, Test, child_conforms, properties_conform, items_conform, combines, object_conforms,
  is_enumerated, conforms_step, conforms_to, conforms,
}

inked : (path message : Text) → has_ink message ≡ true → clean ((path ++ message) ∷ []) ≡ false
inked path message h = ground (arith, has_ink-append path message h)

module _ (rec : Validator) (test : Test)
    (agree : (v s : Value) (p : Text) → clean (rec v s p) ≡ test v s)
    (exact : (v s : Value) (p : Text) → is_nil (rec v s p) ≡ clean (rec v s p)) where
  nil_agrees : (v s : Value) (p : Text) → is_nil (rec v s p) ≡ test v s
  nil_agrees v s p = ground (arith, agree v s p, exact v s p)

  all_of_agrees :
      (value : Value) (path : Text) (i : ℕ) (branches : List Value)
      → clean (all_of_issues rec value path i branches) ≡ every (test value) branches
  all_of_agrees value path i [] = refl
  all_of_agrees value path i (b ∷ bs) =
      rw
        (
          clean-append (rec value b (index_path path (codes ".allOf") i))
              (all_of_issues rec value path (i + 1) bs),
          agree value b (index_path path (codes ".allOf") i),
          all_of_agrees value path (i + 1) bs,
        )
        refl

  any_agrees :
      (value : Value) (branches : List Value)
      → matches_at_least_one rec value branches ≡ any (test value) branches
  unfolding matches_at_least_one any
  any_agrees value [] = refl
  any_agrees value (b ∷ bs) = rw (nil_agrees value b (codes "value"), any_agrees value bs) refl

  matching_agrees :
      (value : Value) (path : Text) (branches : List Value)
      → matching rec value path branches ≡ count (test value) branches
  unfolding count
  matching_agrees value path [] = refl
  matching_agrees value path (b ∷ bs) =
      rw (nil_agrees value b path, matching_agrees value path bs) refl

  any_of_agrees :
      (value : Value) (path : Text) (branches : List Value)
      → clean (any_of_issues rec value path branches)
        ≡ (is_nil branches || any (test value) branches)
  unfolding is_space
  any_of_agrees value path branches = ground (
    arith,
    any_agrees value branches,
    inked path (codes " does not match anyOf constraints") refl,
  )

  one_of_agrees :
      (value : Value) (path : Text) (branches : List Value)
      → clean (one_of_issues rec value path branches)
        ≡ (is_nil branches || count (test value) branches == 1)
  unfolding is_space
  one_of_agrees value path branches = ground (
    arith,
    matching_agrees value path branches,
    inked path (codes " must match exactly one schema from oneOf") refl,
  )

  missing_agrees :
      (object : Fields) (path : Text) (keys : List Text)
      → clean (missing_issues rec object path keys)
        ≡ every (λ key. is_some (find_field key object)) keys
  unfolding is_space
  missing_agrees object path [] = refl
  missing_agrees object path (key ∷ keys) = ground (
    arith,
    missing_agrees object path keys,
    has_ink-append path (codes "." ++ key ++ codes " is required") refl,
  )

  child_agrees :
      (path key : Text) (schema : Value) (o : Option Value)
      → clean (child_issues rec path key schema o) ≡ child_conforms test schema o
  child_agrees path key schema none = refl
  child_agrees path key schema (some child) = agree child schema (path ++ codes "." ++ key)

  properties_agree :
      (object : Fields) (path : Text) (props : Fields)
      → clean (property_issues rec object path props) ≡ properties_conform test object props
  properties_agree object path end = refl
  properties_agree object path (field key schema props) =
      rw
        (
          clean-append (child_issues rec path key schema (find_field key object))
              (property_issues rec object path props),
          child_agrees path key schema (find_field key object),
          properties_agree object path props,
        )
        refl

  items_agree :
      (path : Text) (schema : Value) (i : ℕ) (items : List Value)
      → clean (item_issues rec path schema i items) ≡ every (λ item. test item schema) items
  items_agree path schema i [] = refl
  items_agree path schema i (x ∷ xs) =
      rw
        (
          clean-append (rec x schema (index_path path [] i))
              (item_issues rec path schema (i + 1) xs),
          agree x schema (index_path path [] i),
          items_agree path schema (i + 1) xs,
        )
        refl

  array_agrees :
      (path : Text) (items : List Value) (o : Option Value)
      → clean (array_issues rec path items o) ≡ items_conform test items o
  array_agrees path items none = refl
  array_agrees path items (some schema) = items_agree path schema 0 items

module _ (sprint : Value → Text) (rec : Validator) (test : Test)
    (agree : (v s : Value) (p : Text) → clean (rec v s p) ≡ test v s)
    (exact : (v s : Value) (p : Text) → is_nil (rec v s p) ≡ clean (rec v s p)) where
  enum_agrees :
      (value : Value) (schema : Fields) (path : Text)
      → clean (enum_issues sprint rec value path (as_list (find_field (codes "enum") schema)))
        ≡ is_enumerated sprint test value schema
  unfolding is_space
  enum_agrees value schema path = ground (arith, inked path (codes " is not in enum") refl)

  combined_agrees :
      (value : Value) (schema : Fields) (path : Text)
      → clean (combined_issues sprint rec value schema path) ≡ combines sprint test value schema
  combined_agrees value schema path =
      let all_of = as_list (find_field (codes "allOf") schema) in
      let any_of = as_list (find_field (codes "anyOf") schema) in
      let one_of = as_list (find_field (codes "oneOf") schema) in
      clean-append3 (all_of_issues rec value path 0 all_of) (any_of_issues rec value path any_of)
        (one_of_issues rec value path one_of) _ _ _
        (all_of_agrees rec test agree exact value path 0 all_of)
        (any_of_agrees rec test agree exact value path any_of)
        (one_of_agrees rec test agree exact value path one_of)

  object_agrees :
      (value : Value) (schema : Fields) (path : Text)
      → clean (object_issues sprint rec value schema path)
        ≡ object_conforms sprint test value schema
  object_agrees value schema path =
      let props = as_fields (find_field (codes "properties") schema) in
      clean-append2 (missing_issues rec (fields_of value) path (schema_required schema))
        (property_issues rec (fields_of value) path props) _ _
        (missing_agrees rec test agree exact (fields_of value) path (schema_required schema))
        (properties_agree rec test agree exact (fields_of value) path props)

  guarded_agrees :
      (b : Bool) (issues : List Text) (verdict : Bool)
      → clean issues ≡ verdict
      → clean (if b then issues else []) ≡ (not b || verdict)
  guarded_agrees true issues verdict h = h
  guarded_agrees false issues verdict h = refl

  typed_agrees :
      (value : Value) (schema : Fields) (path type_name : Text)
      → clean (typed_issues sprint rec value schema path type_name) ≡ (
          (not (text_eq type_name (codes "object")) || object_conforms sprint test value schema)
          && (not (text_eq type_name (codes "array"))
              || items_conform test (items_of value) (find_field (codes "items") schema))
          && is_enumerated sprint test value schema)
  typed_agrees value schema path type_name =
      let object = text_eq type_name (codes "object") in
      let array = text_eq type_name (codes "array") in
      let of_object = object_issues sprint rec value schema path in
      let of_array = array_issues rec path (items_of value) (find_field (codes "items") schema) in
      clean-append3 (if object then of_object else []) (if array then of_array else [])
        (enum_issues sprint rec value path (as_list (find_field (codes "enum") schema))) _ _ _
        (guarded_agrees object of_object _ (object_agrees value schema path))
        (guarded_agrees array of_array _ (
          array_agrees rec test agree exact path (items_of value)
            (find_field (codes "items") schema)))
        (enum_agrees value schema path)

  verdict :
      (fits : Bool) (combined typed mismatch : List Text) (c x y z : Bool)
      → clean combined ≡ c
      → clean typed ≡ (x && y && z)
      → clean mismatch ≡ false
      → clean (
          if fits
          then unique_strings (combined ++ typed)
          else unique_strings (combined ++ mismatch))
        ≡ (c && fits && x && y && z)
  verdict true combined typed mismatch c x y z hc ht hm =
      let whole = clean-append2 combined typed c (x && y && z) hc ht in
      ground (arith, clean-unique_strings (combined ++ typed), whole)
  verdict false combined typed mismatch c x y z hc ht hm =
      let whole = clean-append2 combined mismatch c false hc hm in
      ground (arith, clean-unique_strings (combined ++ mismatch), whole)

  mismatch_inked :
      (path type_name : Text) → clean ((path ++ (codes ": expected " ++ type_name)) ∷ []) ≡ false
  unfolding is_space
  mismatch_inked path type_name = inked path (codes ": expected " ++ type_name) refl

  step_agrees :
      (value schema : Value) (path : Text)
      → clean (validate_step sprint rec value schema path) ≡ conforms_step sprint test value schema
  unfolding validate_step conforms_step
  step_agrees value (obj schema) path =
      let type_name = schema_type schema in
      let combined = combined_issues sprint rec value schema path in
      let typed = typed_issues sprint rec value schema path type_name in
      let mismatch = (path ++ (codes ": expected " ++ type_name)) ∷ [] in
      verdict (is_empty type_name || has_type type_name value) combined typed mismatch _ _ _ _
        (combined_agrees value schema path) (typed_agrees value schema path type_name)
        (mismatch_inked path type_name)
  step_agrees value null path = refl
  step_agrees value (bool b) path = refl
  step_agrees value (num m e) path = refl
  step_agrees value (str t) path = refl
  step_agrees value (arr xs) path = refl
  step_agrees value (strings ts) path = refl
  step_agrees value (envelope a b v) path = refl

  step_exact :
      (value schema : Value) (path : Text)
      → is_nil (validate_step sprint rec value schema path)
        ≡ clean (validate_step sprint rec value schema path)
  unfolding validate_step
  step_exact value (obj schema) path =
      let type_name = schema_type schema in
      let combined = combined_issues sprint rec value schema path in
      let typed = typed_issues sprint rec value schema path type_name in
      let mismatch = (path ++ (codes ": expected " ++ type_name)) ∷ [] in
      ground (
        arith,
        clean-unique_strings (combined ++ typed),
        clean-unique_strings (combined ++ mismatch),
        is_nil-unique_strings (combined ++ typed),
        is_nil-unique_strings (combined ++ mismatch),
      )
  step_exact value null path = refl
  step_exact value (bool b) path = refl
  step_exact value (num m e) path = refl
  step_exact value (str t) path = refl
  step_exact value (arr xs) path = refl
  step_exact value (strings ts) path = refl
  step_exact value (envelope a b v) path = refl

module _ (sprint : Value → Text) where
  mutual
    unfolding validate conforms_to

    pub validate_agrees :
        (fuel : ℕ) (value schema : Value) (path : Text)
        → clean (validate sprint fuel value schema path) ≡ conforms_to sprint fuel value schema
    validate_agrees zero value schema path = refl
    validate_agrees (suc fuel) value schema path =
        step_agrees sprint (validate sprint fuel) (conforms_to sprint fuel) (validate_agrees fuel)
          (validate_exact fuel) value schema path

    validate_exact :
        (fuel : ℕ) (value schema : Value) (path : Text)
        → is_nil (validate sprint fuel value schema path)
          ≡ clean (validate sprint fuel value schema path)
    validate_exact zero value schema path = refl
    validate_exact (suc fuel) value schema path =
        step_exact sprint (validate sprint fuel) (conforms_to sprint fuel) (validate_agrees fuel)
          (validate_exact fuel) value schema path

pub is_nil_iff : (ts : List Text) → (is_nil ts ≡ true) ↔ (ts ≡ [])
is_nil_iff [] = (λ h. refl, λ h. refl)
is_nil_iff (t ∷ ts) = (λ h. cc, λ h. ground arith)

-- The check of a value against a schema finds no issue exactly when the value conforms: to all of
-- allOf, one of anyOf, exactly one of oneOf, the type, the required and the described properties,
-- the items and the enum, each where the schema has it.
pub validate_iff_conforms :
    (sprint : Value → Text) (value schema : Value) (path : Text)
    → (validate_value_against_schema sprint value schema path ≡ [])
      ↔ (conforms sprint value schema ≡ true)
unfolding validate_value_against_schema conforms
validate_iff_conforms sprint value schema path =
    let fuel = suc (depth schema) in
    ground (
      arith,
      is_nil_iff (validate sprint fuel value schema path),
      validate_agrees sprint fuel value schema path,
      validate_exact sprint fuel value schema path,
    )
