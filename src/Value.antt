-- ===== src/Value.antt =====
-- The values that decoded JSON has in the source: `any` over nil, bool, numbers, strings, []any and
-- map[string]any. A number is its decimal value m * 10^-e; a map is the list of its entries.
-- `strings` is a []string, which the resolver of schemas makes and JSON does not decode to;
-- `envelope` is the struct responseBodyEnvelope of internal/tool, which is no map for the functions
-- that walk over values.
-- Go's maps and slices are references: a value here stands for what a deep reading finds.
use mcp_swagger.Prelude.{ℕ, ◌≡◌, refl, ap, Bool, Option, none, some, List, ℤ, if◌then◌else◌}
use mcp_swagger.Text.{Text, text_eq}

mutual
  pub data Value : Type 0 where
    null : Value
    bool : Bool → Value
    num : ℤ → ℕ → Value
    str : Text → Value
    arr : Items → Value
    obj : Fields → Value
    strings : List Text → Value
    envelope : Text → Text → Value → Value

  pub data Items : Type 0 where
    nil : Items
    cons : Value → Items → Items

  pub data Fields : Type 0 where
    end : Fields
    field : Text → Value → Fields → Fields

-- v, ok := m[key]
unfoldable pub find_field : Text → Fields → Option Value
find_field k end = none
find_field k (field j v fs) = if text_eq j k then some v else find_field k fs

-- cloneAny, which internal/confirmation, internal/swagger and internal/tool each have: a copy that
-- shares no map and no slice with its argument.
unfoldable mutual
  pub clone_any : Value → Value
  clone_any (arr xs) = arr (clone_items xs)
  clone_any (obj fs) = obj (clone_fields fs)
  clone_any v = v

  pub clone_items : Items → Items
  clone_items nil = nil
  clone_items (cons x xs) = cons (clone_any x) (clone_items xs)

  pub clone_fields : Fields → Fields
  clone_fields end = end
  clone_fields (field k v fs) = field k (clone_any v) (clone_fields fs)

mutual
  unfolding clone_any clone_items clone_fields

  clone_any_same : (v : Value) → clone_any v ≡ v
  clone_any_same (arr xs) = ap arr (clone_items_same xs)
  clone_any_same (obj fs) = ap obj (clone_fields_same fs)
  clone_any_same null = refl
  clone_any_same _ = refl

  clone_items_same : (xs : Items) → clone_items xs ≡ xs
  clone_items_same nil = refl
  clone_items_same (cons x xs) = cc (clone_any_same x, clone_items_same xs)

  clone_fields_same : (fs : Fields) → clone_fields fs ≡ fs
  clone_fields_same end = refl
  clone_fields_same (field k v fs) = cc (clone_any_same v, clone_fields_same fs)

-- A copy has the value of the original.
pub clone_any_lem : (v : Value) → clone_any v ≡ v
clone_any_lem v = clone_any_same v
