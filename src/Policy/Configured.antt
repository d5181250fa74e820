-- ===== src/Policy/Configured.antt =====
-- Evaluators as the configuration makes them: spelling does not matter, and no mode means no calls.
use mcp_swagger.Prelude.{
  ◌≡◌, ◌≢◌, refl, ◌⊎◌, inl, inr, Bool, true, false, List, [], ◌∷◌, arith, any,
}
use mcp_swagger.Text.{Text, codes, text_eq, to_upper, to_lower, trim_space, member}
use mcp_swagger.Text.Laws.{text_eq_iff, upper_trim_idem, trim_space_idem}
use mcp_swagger.Policy.{
  Config, DefaultEvaluator, mode_execute_readonly, mode_execute_write, mode_sandbox,
  is_readonly_method, is_write_method, new_evaluator, to_upper_set, to_exact_set, evaluate,
  normalize_set,
}
use mcp_swagger.Policy.Decisions.{evaluate_allow}

-- Some configured value has the normal form `t`.
abbrev pub spells : (Text → Text) → Text → List Text → Bool
spells normalize t = any (λ value. text_eq t (normalize value))

abbrev pub upper_trim : Text → Text
upper_trim value = to_upper (trim_space value)

member-normalize_set :
    (normalize : Text → Text) (t : Text) (values : List Text)
    → t ≢ []
    → member t (normalize_set normalize values) ≡ spells normalize t values
unfolding member any
member-normalize_set normalize t [] h = refl
member-normalize_set normalize t (value ∷ values) h =
    ground (arith, member-normalize_set normalize t values h, text_eq_iff t (normalize value))

-- The decision depends on the trimmed operation and the trimmed method in upper case only.
pub evaluate-normalised :
    (e : DefaultEvaluator) (op_id method : Text)
    → evaluate e (trim_space op_id) (upper_trim method) ≡ evaluate e op_id method
unfolding evaluate
evaluate-normalised e op_id method = simp (trim_space_idem, upper_trim_idem)

-- A method that the configuration denies, in any spelling, is never allowed, and neither is a
-- denied operation, whatever the mode and the allow lists say.
pub denied_never_allowed :
    (cfg : Config) (op_id method : Text)
    → ((upper_trim method ≢ []) × (spells upper_trim (upper_trim method) cfg.denied_methods ≡ true))
      ⊎ ((trim_space op_id ≢ [])
          × (spells trim_space (trim_space op_id) cfg.denied_operation_ids ≡ true))
    → (evaluate (new_evaluator cfg) op_id method).allow ≢ true
unfolding new_evaluator to_upper_set to_exact_set
denied_never_allowed cfg op_id method (inl (named, listed)) h =
    let v = ((evaluate_allow (new_evaluator cfg) op_id method).0 h).0 in
    ground (
      arith,
      member-normalize_set upper_trim (upper_trim method) cfg.denied_methods named,
      v.method_not_denied,
    )
denied_never_allowed cfg op_id method (inr (named, listed)) h =
    let v = ((evaluate_allow (new_evaluator cfg) op_id method).0 h).0 in
    ground (
      arith,
      member-normalize_set trim_space (trim_space op_id) cfg.denied_operation_ids named,
      v.op_not_denied,
    )

-- A configuration whose mode is blank, plan_only, or none of the four modes never allows a call.
pub closed_modes :
    (cfg : Config) (op_id method : Text)
    → to_lower (trim_space cfg.mode) ≢ mode_execute_readonly
    → to_lower (trim_space cfg.mode) ≢ mode_execute_write
    → to_lower (trim_space cfg.mode) ≢ mode_sandbox
    → (evaluate (new_evaluator cfg) op_id method).allow ≢ true
unfolding new_evaluator
closed_modes cfg op_id method r w s h =
    let v = ((evaluate_allow (new_evaluator cfg) op_id method).0 h).1 in ground (arith, v)

pub readonly_not_write : (m : Text) → is_readonly_method m ≡ true → is_write_method m ≡ false
unfolding is_readonly_method is_write_method member any
readonly_not_write m h = ground (
  arith,
  text_eq_iff (upper_trim m) (codes "GET"),
  text_eq_iff (upper_trim m) (codes "HEAD"),
  text_eq_iff (upper_trim m) (codes "OPTIONS"),
  text_eq_iff (upper_trim m) (codes "POST"),
  text_eq_iff (upper_trim m) (codes "PUT"),
  text_eq_iff (upper_trim m) (codes "PATCH"),
  text_eq_iff (upper_trim m) (codes "DELETE"),
)

-- No configuration allows a write method in the read-only mode.
pub readonly_mode_blocks_writes :
    (cfg : Config) (op_id method : Text)
    → to_lower (trim_space cfg.mode) ≡ mode_execute_readonly
    → is_write_method method ≡ true
    → (evaluate (new_evaluator cfg) op_id method).allow ≢ true
unfolding new_evaluator is_write_method is_readonly_method
readonly_mode_blocks_writes cfg op_id method mode write h =
    let v = ((evaluate_allow (new_evaluator cfg) op_id method).0 h).1 in
    ground (arith, v, readonly_not_write (upper_trim method), upper_trim_idem method)

-- Where writes need confirmations, no write method is allowed outright.
pub guarded_write_not_allowed :
    (e : DefaultEvaluator) (op_id method : Text)
    → e.require_confirmation_for_write ≡ true
    → is_write_method method ≡ true
    → (evaluate e op_id method).allow ≢ true
unfolding is_write_method is_readonly_method
guarded_write_not_allowed e op_id method flag write h =
    let v = ((evaluate_allow e op_id method).0 h).1 in
    ground (arith, v, readonly_not_write (upper_trim method), upper_trim_idem method)
