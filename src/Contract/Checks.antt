-- ===== src/Contract/Checks.antt =====
-- responseSchemaForStatus and validateRequiredParams of swagger_http_common.go.
use mcp_swagger.Prelude.{
  ℕ, ◌≡◌, refl, ◌↔◌, ◌⊎◌, Bool, true, false, not, ◌||◌, Option, none, some, List, [], ◌∷◌, ◌++◌,
  arith, ◌==◌, if◌then◌else◌,
}
use mcp_swagger.Text.{Text, codes, is_empty, trim_space}
use mcp_swagger.Dict.{Dict, get}
use mcp_swagger.Value.{Value}
use mcp_swagger.Contract.Operation.{Param, Response, ResponseGroups}

unfoldable pub response_with : ℕ → List Response → Option Value
response_with status [] = none
response_with status (r ∷ rs) =
    let rest = response_with status rs in if r.status == status then some r.body_schema else rest

abbrev pub or_else : Option Value → Option Value → Option Value
or_else (some schema) rest = some schema
or_else none rest = rest

unfoldable pub response_schema_for_status : ResponseGroups → ℕ → Option Value
unfolding response_with
response_schema_for_status groups status = or_else (response_with status groups.success) (
    or_else (response_with status groups.errors)
      (or_else (response_with 0 groups.success) (response_with 0 groups.errors)))

abbrev pub is_blank : Option Text → Bool
is_blank none = true
is_blank (some value) = is_empty (trim_space value)

-- `quote` stands for the format %q.
unfoldable pub validate_required_params : (Text → Text) → List Param → Dict Text → Text → List Text
validate_required_params quote [] provided location = []
validate_required_params quote (def ∷ defs) provided location =
    let rest = validate_required_params quote defs provided location in
    if not def.required
    then rest
    else if is_blank (get def.name provided)
    then (codes "missing required " ++ location ++ codes " parameter " ++ quote def.name) ∷ rest
    else rest

-- The parameter is optional or has a value that is not blank.
abbrev pub IsProvided : Dict Text → Param → Type 0
IsProvided provided def =
    (def.required ≡ false)
    ⊎ ((value : Text) × (get def.name provided ≡ some value)
        × (is_empty (trim_space value) ≡ false))

abbrev pub AreProvided : Dict Text → List Param → Type 0
AreProvided provided [] = Unit {0}
AreProvided provided (def ∷ defs) = IsProvided provided def × AreProvided provided defs

value_given :
    (o : Option Text)
    → (is_blank o ≡ false)
      ↔ ((value : Text) × (o ≡ some value) × (is_empty (trim_space value) ≡ false))
value_given none = (λ h. ground arith, λ (v, e, h). ground arith)
value_given (some value) = (λ h. (value, refl, h), λ (v, e, h). cc)

required_param :
    (provided : Dict Text) (def : Param)
    → ((not def.required || not (is_blank (get def.name provided))) ≡ true)
      ↔ IsProvided provided def
required_param provided def =
    let given = value_given (get def.name provided) in
    (λ h. ground (arith, given), λ h. ground (arith, given))

-- The check of required parameters finds no issue exactly when each parameter is optional or has a
-- value that is not blank.
pub required_params_iff :
    (quote : Text → Text) (defs : List Param) (provided : Dict Text) (location : Text)
    → (validate_required_params quote defs provided location ≡ []) ↔ AreProvided provided defs
unfolding validate_required_params
required_params_iff quote [] provided location = (λ h. tt, λ h. refl)
required_params_iff quote (def ∷ defs) provided location =
    let here = required_param provided def in
    let rest = required_params_iff quote defs provided location in ground (arith, here, rest)

response_with-append :
    (status : ℕ) (rs qs : List Response)
    → response_with status (rs ++ qs) ≡ or_else (response_with status rs) (response_with status qs)
unfolding response_with
response_with-append status [] qs = refl
response_with-append status (r ∷ rs) qs = ground (arith, response_with-append status rs qs)

or_else_assoc : (a b c : Option Value) → or_else (or_else a b) c ≡ or_else a (or_else b c)
or_else_assoc none b c = refl
or_else_assoc (some v) b c = refl

-- The schema of a status is that of the first response with the status, the successes before the
-- errors, and only where there is none that of the first default response in this order.
pub exact_before_default :
    (groups : ResponseGroups) (status : ℕ)
    → let all = groups.success ++ groups.errors in
      response_schema_for_status groups status
      ≡ or_else (response_with status all) (response_with 0 all)
unfolding response_schema_for_status
exact_before_default groups status =
    rw
      (
        response_with-append status groups.success groups.errors,
        response_with-append 0 groups.success groups.errors,
        or_else_assoc (response_with status groups.success) (response_with status groups.errors)
            (or_else (response_with 0 groups.success) (response_with 0 groups.errors)),
      )
      refl
