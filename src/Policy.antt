-- ===== src/Policy.antt =====
-- internal/policy: the guardrails that decide whether an upstream call may run (contract.go,
-- policy.go). A message is its format with the argument that fmt.Sprintf is given; a set is the list
-- of its members. The context and the target URL, which Evaluate ignores, are left out.
pub mod Decisions
pub mod Configured
pub mod Examples
use mcp_swagger.Prelude.{Bool, true, false, not, ◌&&◌, ◌||◌, List, [], ◌∷◌, if◌then◌else◌}
use mcp_swagger.Text.{Text, codes, text_eq, is_empty, to_upper, to_lower, trim_space, member}

abbrev pub mode_plan_only : Text
mode_plan_only = codes "plan_only"

abbrev pub mode_execute_readonly : Text
mode_execute_readonly = codes "execute_readonly"

abbrev pub mode_execute_write : Text
mode_execute_write = codes "execute_write"

abbrev pub mode_sandbox : Text
mode_sandbox = codes "sandbox"

pub record Config : Type 0 where
  pub mode : Text
  pub allowed_methods : List Text
  pub denied_methods : List Text
  pub allowed_operation_ids : List Text
  pub denied_operation_ids : List Text
  pub require_confirmation_for_write : Bool

pub record DefaultEvaluator : Type 0 where
  pub mode : Text
  pub allowed_methods : List Text
  pub denied_methods : List Text
  pub allowed_operation_ids : List Text
  pub denied_operation_ids : List Text
  pub require_confirmation_for_write : Bool

pub data Reason : Type 0 where
  no_reason operation_id_required method_required disabled_in_plan_only : Reason
  operation_denied method_denied operation_not_in_allowlist method_not_in_allowlist : Text → Reason
  not_allowed_in_readonly unsupported_mode requires_user_confirmation : Text → Reason

pub record Decision : Type 0 where
  pub allow : Bool
  pub reason : Reason
  pub require_confirmation : Bool
  pub code : Text

abbrev pub normalize_set : (Text → Text) → List Text → List Text
normalize_set normalize [] = []
normalize_set normalize (value ∷ values) =
    let rest = normalize_set normalize values in
    let item = normalize value in if is_empty item then rest else item ∷ rest

unfoldable pub to_upper_set : List Text → List Text
to_upper_set = normalize_set (λ value. to_upper (trim_space value))

unfoldable pub to_exact_set : List Text → List Text
to_exact_set = normalize_set trim_space

unfoldable pub new_evaluator : Config → DefaultEvaluator
new_evaluator cfg = record {
  mode =
      let mode = to_lower (trim_space cfg.mode) in if is_empty mode then mode_plan_only else mode;
  allowed_methods = to_upper_set cfg.allowed_methods;
  denied_methods = to_upper_set cfg.denied_methods;
  allowed_operation_ids = to_exact_set cfg.allowed_operation_ids;
  denied_operation_ids = to_exact_set cfg.denied_operation_ids;
  require_confirmation_for_write = cfg.require_confirmation_for_write;
}

unfoldable pub is_readonly_method : Text → Bool
is_readonly_method method =
    member (to_upper (trim_space method)) (codes "GET" ∷ codes "HEAD" ∷ codes "OPTIONS" ∷ [])

unfoldable pub is_write_method : Text → Bool
is_write_method method =
    member (to_upper (trim_space method))
      (codes "POST" ∷ codes "PUT" ∷ codes "PATCH" ∷ codes "DELETE" ∷ [])

-- allow()
unfoldable pub allow_decision : Decision
allow_decision = record {
  allow = true;
  reason = Reason.no_reason;
  require_confirmation = false;
  code = [];
}

unfoldable pub deny : Text → Reason → Decision
deny code reason = record {
  allow = false;
  reason = reason;
  require_confirmation = false;
  code = code;
}

abbrev pub policy_denied : Text
policy_denied = codes "policy_denied"

abbrev pub plan_only : Text
plan_only = codes "plan_only"

abbrev pub confirmation_required : Text
confirmation_required = codes "confirmation_required"

abbrev pub is_nil {ℓ} : {A : Type ℓ} → List A → Bool
is_nil [] = true
is_nil (x ∷ xs) = false

-- Steps 5 and 6 of Evaluate: the mode, and the confirmation of write methods.
unfoldable pub evaluate_mode : DefaultEvaluator → Text → Decision
unfolding allow_decision deny
evaluate_mode e method =
    if text_eq e.mode mode_plan_only
    then deny plan_only Reason.disabled_in_plan_only
    else if text_eq e.mode mode_execute_readonly
    then (if not (is_readonly_method method)
        then deny policy_denied (Reason.not_allowed_in_readonly method)
        else allow_decision)
    else if not (text_eq e.mode mode_execute_write || text_eq e.mode mode_sandbox)
    then deny plan_only (Reason.unsupported_mode e.mode)
    else if e.require_confirmation_for_write && is_write_method method
    then record {
      allow = false;
      reason = Reason.requires_user_confirmation method;
      require_confirmation = true;
      code = confirmation_required;
    }
    else allow_decision

-- Steps 1 to 4, on the normalised operation and method.
unfoldable pub evaluate_lists : DefaultEvaluator → Text → Text → Decision
unfolding deny
evaluate_lists e op_id method =
    if not (is_empty op_id) && member op_id e.denied_operation_ids
    then deny policy_denied (Reason.operation_denied op_id)
    else if not (is_empty method) && member method e.denied_methods
    then deny policy_denied (Reason.method_denied method)
    else if not (is_nil e.allowed_operation_ids) && is_empty op_id
    then deny policy_denied Reason.operation_id_required
    else if not (is_nil e.allowed_operation_ids) && not (member op_id e.allowed_operation_ids)
    then deny policy_denied (Reason.operation_not_in_allowlist op_id)
    else if not (is_nil e.allowed_methods) && is_empty method
    then deny policy_denied Reason.method_required
    else if not (is_nil e.allowed_methods) && not (member method e.allowed_methods)
    then deny policy_denied (Reason.method_not_in_allowlist method)
    else evaluate_mode e method

unfoldable pub evaluate : DefaultEvaluator → Text → Text → Decision
unfolding evaluate_lists
evaluate e op_id method = evaluate_lists e (trim_space op_id) (to_upper (trim_space method))
