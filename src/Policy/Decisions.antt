-- ===== src/Policy/Decisions.antt =====
-- What Evaluate decides, against a description that does not follow the order of its tests.
use mcp_swagger.Prelude.{◌≡◌, ◌≢◌, ◌↔◌, ◌⊎◌, true, false, ◌&&◌, [], arith}
use mcp_swagger.Text.{Text, to_upper, trim_space, member}
use mcp_swagger.Text.Laws.{text_eq_iff}
use mcp_swagger.Policy.{
  DefaultEvaluator, Decision, mode_plan_only, mode_execute_readonly, mode_execute_write,
  mode_sandbox, is_readonly_method, is_write_method, policy_denied, plan_only,
  confirmation_required, evaluate, evaluate_lists, evaluate_mode,
}

-- The lists let the operation and the method through.
pub record IsListed (e : DefaultEvaluator) (op method : Text) : Type 0 where
  pub op_not_denied : (op ≡ []) ⊎ (member op e.denied_operation_ids ≡ false)
  pub method_not_denied : (method ≡ []) ⊎ (member method e.denied_methods ≡ false)
  pub op_allowed :
      (e.allowed_operation_ids ≡ []) ⊎ ((op ≢ []) × (member op e.allowed_operation_ids ≡ true))
  pub method_allowed :
      (e.allowed_methods ≡ []) ⊎ ((method ≢ []) × (member method e.allowed_methods ≡ true))

abbrev pub IsWriteMode : DefaultEvaluator → Type 0
IsWriteMode e = (e.mode ≡ mode_execute_write) ⊎ (e.mode ≡ mode_sandbox)

-- The mode lets the method run without a confirmation.
abbrev pub IsOpenMode : DefaultEvaluator → Text → Type 0
IsOpenMode e method =
    ((e.mode ≡ mode_execute_readonly) × (is_readonly_method method ≡ true))
    ⊎ (IsWriteMode e × ((e.require_confirmation_for_write && is_write_method method) ≡ false))

mode_open :
    (e : DefaultEvaluator) (method : Text)
    → (evaluate_mode e method).allow ≡ true
    → IsOpenMode e method
unfolding evaluate_mode
mode_open e method h = ground (
  arith,
  text_eq_iff e.mode mode_execute_readonly,
  text_eq_iff e.mode mode_execute_write,
  text_eq_iff e.mode mode_sandbox,
)

open_mode :
    (e : DefaultEvaluator) (method : Text)
    → IsOpenMode e method
    → (evaluate_mode e method).allow ≡ true
unfolding evaluate_mode
open_mode e method h = ground (
  arith,
  text_eq_iff e.mode mode_plan_only,
  text_eq_iff e.mode mode_execute_readonly,
  text_eq_iff e.mode mode_execute_write,
  text_eq_iff e.mode mode_sandbox,
)

allow-IsListed :
    (e : DefaultEvaluator) (op method : Text)
    → (evaluate_lists e op method).allow ≡ true
    → IsListed e op method
unfolding evaluate_lists
allow-IsListed e op method h = record {
  op_not_denied = ground arith;
  method_not_denied = ground arith;
  op_allowed = ground arith;
  method_allowed = ground arith;
}

evaluate_lists-listed :
    (e : DefaultEvaluator) (op method : Text)
    → IsListed e op method
    → evaluate_lists e op method ≡ evaluate_mode e method
unfolding evaluate_lists
evaluate_lists-listed e op method v = ground arith

-- A call is allowed exactly when the deny lists do not name its operation or method, each allow
-- list that is set names them, and the mode lets the method run without a confirmation.
pub evaluate_allow :
    (e : DefaultEvaluator) (op_id method : Text)
    → let op = trim_space op_id in
      let m = to_upper (trim_space method) in
      ((evaluate e op_id method).allow ≡ true) ↔ (IsListed e op m × IsOpenMode e m)
unfolding evaluate
evaluate_allow e op_id method =
    let op = trim_space op_id in
    let m = to_upper (trim_space method) in
    (
      λ h.
          let listed = allow-IsListed e op m h in
          (listed, mode_open e m (rw (evaluate_lists-listed e op m listed) at h)),
      λ (listed, mode). rw (evaluate_lists-listed e op m listed) (open_mode e m mode),
    )

confirm_mode :
    (e : DefaultEvaluator) (m : Text)
    → ((evaluate_mode e m).require_confirmation ≡ true)
      ↔ (IsWriteMode e × ((e.require_confirmation_for_write && is_write_method m) ≡ true))
unfolding evaluate_mode
confirm_mode e m = ground (
  arith,
  text_eq_iff e.mode mode_plan_only,
  text_eq_iff e.mode mode_execute_readonly,
  text_eq_iff e.mode mode_execute_write,
  text_eq_iff e.mode mode_sandbox,
)

require_confirmation-IsListed :
    (e : DefaultEvaluator) (op method : Text)
    → (evaluate_lists e op method).require_confirmation ≡ true
    → IsListed e op method
unfolding evaluate_lists
require_confirmation-IsListed e op method h = record {
  op_not_denied = ground arith;
  method_not_denied = ground arith;
  op_allowed = ground arith;
  method_allowed = ground arith;
}

-- A confirmation is asked for exactly when the lists let the call through, the mode is a write
-- mode, confirmations are configured and the method is a write method.
pub evaluate_require_confirmation :
    (e : DefaultEvaluator) (op_id method : Text)
    → let op = trim_space op_id in
      let m = to_upper (trim_space method) in
      ((evaluate e op_id method).require_confirmation ≡ true) ↔ (
        IsListed e op m
        × IsWriteMode e
        × ((e.require_confirmation_for_write && is_write_method m) ≡ true))
unfolding evaluate
evaluate_require_confirmation e op_id method =
    let op = trim_space op_id in
    let m = to_upper (trim_space method) in
    (
      λ h.
          let listed = require_confirmation-IsListed e op m h in
          let rest = (confirm_mode e m).0 (rw (evaluate_lists-listed e op m listed) at h) in
          (listed, rest.0, rest.1),
      λ (listed, mode, test).
          rw (evaluate_lists-listed e op m listed) ((confirm_mode e m).1 (mode, test)),
    )

-- The three shapes that a decision has.
abbrev pub IsWellFormed : Decision → Type 0
IsWellFormed d =
    ((d.allow ≡ true) × (d.code ≡ []) × (d.require_confirmation ≡ false))
    ⊎ ((d.allow ≡ false)
        × ((d.code ≡ policy_denied) ⊎ (d.code ≡ plan_only))
        × (d.require_confirmation ≡ false))
    ⊎ ((d.allow ≡ false) × (d.code ≡ confirmation_required) × (d.require_confirmation ≡ true))

evaluate_mode-IsWellFormed : (e : DefaultEvaluator) (m : Text) → IsWellFormed (evaluate_mode e m)
unfolding evaluate_mode
evaluate_mode-IsWellFormed e m = ground arith

-- Every decision is an allowance with no code, a denial with code policy_denied or plan_only, or a
-- request for confirmation with its code; only the last asks for a confirmation.
pub evaluate-IsWellFormed :
    (e : DefaultEvaluator) (op_id method : Text) → IsWellFormed (evaluate e op_id method)
unfolding evaluate
evaluate-IsWellFormed e op_id method =
    ground (arith, evaluate_mode-IsWellFormed e (to_upper (trim_space method)))
