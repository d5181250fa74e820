-- ===== src/Contract/Depth.antt =====
-- The parts of a schema are less deep than the schema.
use mcp_swagger.Prelude.{ℕ, ◌+◌, ◌<◌, ◌≤◌, ◌≡◌, refl, Option, none, some, arith, All, if_rule}
use mcp_swagger.Text.{Text, text_eq}
use mcp_swagger.Value.{
  strings, Value, null, bool, num, str, arr, obj, envelope, Items, nil, cons, Fields, end, field,
  find_field,
}
use mcp_swagger.Contract.Schema.{to_list, as_list, as_fields}
use mcp_swagger.Contract.Validator.{depth, depth_items, depth_fields}

abbrev pub IsBelow : ℕ → Value → Type 0
IsBelow n schema = depth schema < n

here : (w v : Value) (n : ℕ) → some w ≡ some v → depth v ≤ depth w + n
here w v n h = let e : w ≡ v = cc in rw e (omega arith)

pub find_field-depth :
    (key : Text) (fs : Fields) (v : Value) → find_field key fs ≡ some v → depth v ≤ depth_fields fs
unfolding find_field depth
find_field-depth key end v = λ h. ground arith
find_field-depth key (field k w fs) v =
    if_rule (λ o. o ≡ some v → depth v ≤ depth w + depth_fields fs) (text_eq k key) (some w)
      (find_field key fs) (λ _ h. here w v (depth_fields fs) h)
      λ _ h. omega (arith, find_field-depth key fs v h)

to_list-depth : (xs : Items) (n : ℕ) → depth_items xs < n → All (IsBelow n) (to_list xs)
unfolding depth
to_list-depth nil n h = tt
to_list-depth (cons x xs) n h = (omega arith, to_list-depth xs n (omega arith))

pub as_list-depth :
    (o : Option Value) (n : ℕ)
    → ((v : Value) → o ≡ some v → depth v < n)
    → All (IsBelow n) (as_list o)
unfolding depth
as_list-depth none n h = tt
as_list-depth (some (arr xs)) n h = let below = h (arr xs) refl in to_list-depth xs n (omega arith)
as_list-depth (some null) n h = tt
as_list-depth (some (bool b)) n h = tt
as_list-depth (some (num m e)) n h = tt
as_list-depth (some (str t)) n h = tt
as_list-depth (some (obj fs)) n h = tt
as_list-depth (some (strings ts)) n h = tt
as_list-depth (some (envelope a b v)) n h = tt

pub as_fields-depth :
    (o : Option Value) (n : ℕ)
    → ((v : Value) → o ≡ some v → depth v < n)
    → 0 < n
    → depth_fields (as_fields o) < n
unfolding depth
as_fields-depth none n h some_fuel = some_fuel
as_fields-depth (some (obj fs)) n h some_fuel = let below = h (obj fs) refl in omega arith
as_fields-depth (some (arr xs)) n h some_fuel = some_fuel
as_fields-depth (some null) n h some_fuel = some_fuel
as_fields-depth (some (bool b)) n h some_fuel = some_fuel
as_fields-depth (some (num m e)) n h some_fuel = some_fuel
as_fields-depth (some (str t)) n h some_fuel = some_fuel
as_fields-depth (some (strings ts)) n h some_fuel = some_fuel
as_fields-depth (some (envelope a b v)) n h some_fuel = some_fuel
