-- ===== src/Input/Examples.antt =====
-- Tests of the reading of inputs, and its theorems at a call that deletes a pet and its confirmation.
use mcp_swagger.Prelude.{◌≡◌, refl, Bool, true, false, none, some, [], ◌∷◌, ok, pos}
use mcp_swagger.Text.{codes, text_eq, is_space, lower_char, to_lower, trim_space}
use mcp_swagger.Dict.{get, put, remove, remove_if}
use mcp_swagger.Value.{Value, str, bool, obj, num, end, field, find_field, clone_any}
use mcp_swagger.Confirmation.{
  Record, MemoryStore, new_memory_store, clone_record, cleanup_locked, set_approval, confirm,
  is_stale, is_expired,
}
use mcp_swagger.Confirmation.Invariant.{new_memory_store-IsConsistent}
use mcp_swagger.Contract.Operation.{ExecuteInput}
use mcp_swagger.Input.Values.{
  Numbers, to_any_map, to_any_map_or_nil, map_value, first_non_nil, param_or_legacy, find_header,
  value_as_string, value_as_string_map,
}
use mcp_swagger.Input.Parse.{parse_execute_input}
use mcp_swagger.Input.Trimmed.{IsIdentified, parse_execute_input-IsIdentified}
use mcp_swagger.Input.Confirm.{
  parse_bool_any, request_confirmation, confirmation_decision, confirm_tool,
}
use mcp_swagger.Input.Approvals.{ApprovesNothing, tool-ApprovesNothing, confirmed_as_asked}

abbrev numbers : Numbers
numbers = record { format_float = λ m e. codes "7"; atoi = λ t. none }

abbrev delete_call : Value
delete_call = obj (
    field (codes "operationId") (str (codes " deletePet ")) (
      field (codes "params")
        (obj (field (codes "path") (obj (field (codes "id") (num (pos 7) 0) end)) end))
        (field (codes "confirmationToken") (str (codes "c1")) end)))

abbrev delete_input : ExecuteInput
delete_input = record {
  operation_id = codes "deletePet";
  path_params = (codes "id", codes "7") ∷ [];
  query_params = [];
  headers = [];
  body = Value.null;
  content_type = [];
  base_url = [];
  confirmation_id = codes "c1";
}

legacy_token_read : parse_execute_input numbers delete_call ≡ some delete_input
unfolding parse_execute_input to_any_map to_any_map_or_nil map_value param_or_legacy find_header
    value_as_string value_as_string_map put remove text_eq trim_space is_space find_field lower_char
    to_lower
legacy_token_read = refl

parse_execute_input-IsIdentified_example : IsIdentified numbers delete_input
parse_execute_input-IsIdentified_example =
    parse_execute_input-IsIdentified numbers delete_call delete_input legacy_token_read

abbrev ask : Value
ask = obj (
    field (codes "operationId") (str (codes "deletePet")) (field (codes "approve") (bool true) end))

tool-ApprovesNothing_example :
    ApprovesNothing
      (new_memory_store (pos 600))
      (request_confirmation numbers 90 100
        (ok (codes "c1"))
        ask
        (some (new_memory_store (pos 600)))).0
tool-ApprovesNothing_example =
    tool-ApprovesNothing numbers 90 100 (ok (codes "c1")) ask (new_memory_store (pos 600))
      (new_memory_store-IsConsistent (pos 600))

abbrev entry : Bool → Record
entry approved = record {
  id = codes "c1";
  operation_id = codes "deletePet";
  method = codes "DELETE";
  final_url = [];
  prepared_request_summary = Value.null;
  reason = [];
  approved = approved;
  consumed = false;
  created_at = 100;
  expires_at = 700;
}

abbrev waiting : MemoryStore
waiting = record { ttl = 600; items = (codes "c1", entry false) ∷ [] }

abbrev yes : Value
yes = obj (
    field (codes "confirmationId") (str (codes "c1"))
      (field (codes "approve") (str (codes " Yes ")) end))

yes_approves : (confirm_tool numbers 110 120 yes (some waiting)).1 ≡ ok (entry true)
unfolding confirm_tool to_any_map to_any_map_or_nil map_value first_non_nil value_as_string
    parse_bool_any get put remove text_eq trim_space is_space find_field lower_char to_lower confirm
    set_approval clone_record cleanup_locked is_stale is_expired clone_any remove_if
yes_approves = refl

confirmed_as_asked_example : (id : _) × (confirmation_decision numbers yes ≡ some (id, true))
confirmed_as_asked_example =
    confirmed_as_asked numbers 110 120 yes waiting (entry true) yes_approves
