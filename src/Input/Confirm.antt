-- ===== src/Input/Confirm.antt =====
-- policy_request_confirmation.go: the tools policy.request_confirmation and policy.confirm, on the
-- store of confirmations. A nil store is `none`.
use mcp_swagger.Prelude.{
  Bool, true, false, Option, none, some, List, [], ◌∷◌, Result, ok, err, if◌then◌else◌,
}
use mcp_swagger.Text.{Text, codes, is_empty, to_lower, to_upper, trim_space, text_eq}
use mcp_swagger.Value.{Value, null, bool, str, obj, Fields, end}
use mcp_swagger.Confirmation.{Time, Failure, Request, Record, MemoryStore, request, confirm}
use mcp_swagger.Input.Values.{
  Numbers, to_any_map, to_any_map_or_nil, map_value, first_non_nil, value_as_string,
}
use mcp_swagger.Input.Parse.{filled_or}

-- The error code of an errorResult, or the record of an okResult.
abbrev pub Answer : Type 0
Answer = Option MemoryStore × Result Text Record

abbrev pub invalid_request : Text
invalid_request = codes "invalid_request"

-- params, _ := toAnyMapOrNil(inMap["params"])
unfoldable pub params_or_nil : Fields → Fields
params_or_nil in_map = elim (to_any_map_or_nil (map_value in_map (codes "params"))) [
  | none ↦ end
  | some fs ↦ fs
]

-- parseBoolAny, on values of decoded JSON
abbrev pub bool_of_text : Text → Option Bool
bool_of_text t =
    if text_eq t (codes "true")
    then some true
    else if text_eq t (codes "1")
    then some true
    else if text_eq t (codes "yes")
    then some true
    else if text_eq t (codes "y")
    then some true
    else if text_eq t (codes "false")
    then some false
    else if text_eq t (codes "0")
    then some false
    else if text_eq t (codes "no")
    then some false
    else if text_eq t (codes "n")
    then some false
    else none

abbrev pub true_or_false : Text → Option Bool
true_or_false t =
    if text_eq t (codes "true")
    then some true
    else if text_eq t (codes "false")
    then some false
    else none

module _ (numbers : Numbers) where
  unfoldable pub parse_bool_any : Value → Option Bool
  parse_bool_any (bool b) = some b
  parse_bool_any (str t) = bool_of_text (to_lower (trim_space t))
  parse_bool_any null = none
  parse_bool_any v = true_or_false (to_lower (trim_space (value_as_string numbers v)))

  abbrev text_of : List Value → Text
  text_of vs = trim_space (value_as_string numbers (first_non_nil vs))

  abbrev summary_of : Fields → Fields → Value
  summary_of in_map params = first_non_nil (
      map_value in_map (codes "preparedRequestSummary")
      ∷ map_value params (codes "preparedRequestSummary")
      ∷ map_value in_map (codes "summary")
      ∷ map_value params (codes "summary")
      ∷ [])

  abbrev summary_method : Value → Text
  summary_method (obj fs) =
      to_upper (text_of (map_value fs (codes "method") ∷ map_value fs (codes "httpMethod") ∷ []))
  summary_method v = []

  abbrev summary_url : Value → Text
  summary_url (obj fs) = text_of (map_value fs (codes "finalURL") ∷ map_value fs (codes "url") ∷ [])
  summary_url v = []

  abbrev request_of : Fields → Fields → Text → Request
  request_of in_map params operation_id = record {
    operation_id = operation_id;
    method =
        filled_or
          (to_upper
            (text_of (map_value in_map (codes "method") ∷ map_value params (codes "method") ∷ [])))
          (summary_method (summary_of in_map params));
    final_url =
        filled_or
          (text_of (
            map_value in_map (codes "finalURL")
            ∷ map_value in_map (codes "url")
            ∷ map_value params (codes "finalURL")
            ∷ map_value params (codes "url")
            ∷ []))
          (summary_url (summary_of in_map params));
    prepared_request_summary = summary_of in_map params;
    reason = text_of (map_value in_map (codes "reason") ∷ map_value params (codes "reason") ∷ []);
  }

  -- The request that the tool makes of its input.
  unfoldable pub confirmation_request : Value → Option Request
  unfolding params_or_nil
  confirmation_request input = elim (to_any_map input) [
    | none ↦ none
    | some in_map ↦
        let params = params_or_nil in_map in
        let operation_id = text_of (
          map_value in_map (codes "operationId")
          ∷ map_value in_map (codes "operationID")
          ∷ map_value params (codes "operationId")
          ∷ map_value params (codes "operationID")
          ∷ []) in
        if is_empty operation_id then none else some (request_of in_map params operation_id)
  ]

  abbrev pub answer_of : Text → MemoryStore × Result Failure Record → Answer
  answer_of code (s, ok r) = (some s, ok r)
  answer_of code (s, err e) = (some s, err code)

  abbrev pub request_with :
      Time → Time → Result Failure Text → MemoryStore → Option Request → Answer
  request_with clean_now now new_id s none = (some s, err invalid_request)
  request_with clean_now now new_id s (some req) =
      answer_of (codes "upstream_error") (request clean_now now new_id req s)

  -- Execute of policy.request_confirmation; `new_id` is the identifier that the store draws.
  unfoldable pub request_confirmation :
      Time → Time → Result Failure Text → Value → Option MemoryStore → Answer
  unfolding confirmation_request
  request_confirmation clean_now now new_id input none = (none, err invalid_request)
  request_confirmation clean_now now new_id input (some s) =
      request_with clean_now now new_id s (confirmation_request input)

  -- The identifier and the decision that policy.confirm reads.
  unfoldable pub confirmation_decision : Value → Option (Text × Bool)
  unfolding params_or_nil parse_bool_any
  confirmation_decision input = elim (to_any_map input) [
    | none ↦ none
    | some in_map ↦
        let params = params_or_nil in_map in
        let id = text_of (
          map_value in_map (codes "confirmationId")
          ∷ map_value in_map (codes "confirmationID")
          ∷ map_value params (codes "confirmationId")
          ∷ map_value params (codes "confirmationID")
          ∷ []) in
        let approve = parse_bool_any (
          first_non_nil
            (map_value in_map (codes "approve") ∷ map_value params (codes "approve") ∷ [])) in
        if is_empty id then none else elim approve [ none ↦ none | some b ↦ some (id, b) ]
  ]

  abbrev pub confirm_with : Time → Time → MemoryStore → Option (Text × Bool) → Answer
  confirm_with clean_now now s none = (some s, err invalid_request)
  confirm_with clean_now now s (some (id, approve)) =
      answer_of invalid_request (confirm clean_now now id approve s)

  -- Execute of policy.confirm.
  unfoldable pub confirm_tool : Time → Time → Value → Option MemoryStore → Answer
  unfolding confirmation_decision
  confirm_tool clean_now now input none = (none, err invalid_request)
  confirm_tool clean_now now input (some s) =
      confirm_with clean_now now s (confirmation_decision input)
