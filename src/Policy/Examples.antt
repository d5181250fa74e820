-- ===== src/Policy/Examples.antt =====
-- Tests of the policy, and its theorems at a write-mode configuration.
use mcp_swagger.Prelude.{◌≡◌, refl, true, [], ◌∷◌}
use mcp_swagger.Text.{
  codes, text_eq, is_space, upper_char, lower_char, to_upper, to_lower, trim_space, member,
}
use mcp_swagger.Policy.{
  Config, confirmation_required, new_evaluator, to_upper_set, to_exact_set, is_write_method,
  evaluate, evaluate_mode,
}
use mcp_swagger.Policy.Decisions.{IsListed, IsWellFormed, evaluate_allow, evaluate-IsWellFormed}

abbrev write_config : Config
write_config = record {
  mode = codes " Execute_Write";
  allowed_methods = [];
  denied_methods = codes "delete " ∷ [];
  allowed_operation_ids = codes "addPet" ∷ codes "getPet" ∷ [];
  denied_operation_ids = codes "dropPets" ∷ [];
  require_confirmation_for_write = true;
}

abbrev readonly_config : Config
readonly_config = record write_config { mode = codes "execute_readonly" }

get_is_allowed : (evaluate (new_evaluator write_config) (codes "getPet") (codes "get")).allow ≡ true
unfolding evaluate evaluate_mode new_evaluator to_upper_set to_exact_set is_write_method member
    text_eq trim_space is_space to_upper upper_char to_lower lower_char
get_is_allowed = refl

post_wants_confirmation :
    (evaluate (new_evaluator write_config) (codes "addPet") (codes "post")).code
    ≡ confirmation_required
unfolding evaluate evaluate_mode new_evaluator to_upper_set to_exact_set is_write_method member
    text_eq trim_space is_space to_upper upper_char to_lower lower_char
post_wants_confirmation = refl

evaluate_allow_example :
    IsListed
      (new_evaluator write_config)
      (trim_space (codes "getPet"))
      (to_upper (trim_space (codes "get")))
evaluate_allow_example =
    ((evaluate_allow (new_evaluator write_config) (codes "getPet") (codes "get")).0
      get_is_allowed).0

post_asks :
    (evaluate (new_evaluator write_config) (codes "addPet") (codes "post")).require_confirmation
    ≡ true
unfolding evaluate evaluate_mode new_evaluator to_upper_set to_exact_set is_write_method member
    text_eq trim_space is_space to_upper upper_char to_lower lower_char
post_asks = refl

evaluate-IsWellFormed_example :
    IsWellFormed (evaluate (new_evaluator write_config) (codes "addPet") (codes "post"))
evaluate-IsWellFormed_example =
    evaluate-IsWellFormed (new_evaluator write_config) (codes "addPet") (codes "post")
