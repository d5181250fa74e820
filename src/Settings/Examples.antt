-- ===== src/Settings/Examples.antt =====
-- Tests of the validation of a configuration, and its theorem at one for the sandbox.
use mcp_swagger.Prelude.{◌≡◌, refl, true, none, [], ◌∷◌, pos}
use mcp_swagger.Text.{
  codes, text_eq, is_space, upper_char, lower_char, to_upper, to_lower, trim_space, member,
}
use mcp_swagger.NetGuard.Guard.{Net}
use mcp_swagger.Registry.Sorting.{sort_texts, insert}
use mcp_swagger.Settings.{
  Config, bad_allowed_methods, has_oauth, methods_not_valid, invalid_methods,
  selected_upstream_base_url, parse_url_source, is_http_url, validate,
}
use mcp_swagger.Settings.Sane.{IsSane, validate-IsSane}

abbrev net : Net
net = record {
  parse_url = λ t. none;
  split_host_port = λ t. none;
  parse_addr = λ t. none;
  lookup_net_ip = λ t. none;
}

abbrev stdio : Config
stdio = record {
  swagger_path = codes "api.yaml";
  swagger_http_timeout = pos 5;
  swagger_max_bytes = pos 1000;
  transport = codes "stdio";
  mcp_api_mode = codes "plan_only";
  inbound_oauth_introspection_url = [];
  inbound_oauth_jwks_url = [];
  upstream_base_url = [];
  upstream_sandbox_base_url = [];
  swagger_base_url = [];
  allowed_methods = codes " get" ∷ codes "" ∷ [];
  denied_methods = codes "DELETE" ∷ [];
  swagger_allowed_hosts = [];
  upstream_allowed_hosts = [];
  block_private_networks = true;
}

no_issue : validate net stdio ≡ []
unfolding validate has_oauth methods_not_valid invalid_methods sort_texts selected_upstream_base_url
    parse_url_source is_http_url text_eq trim_space is_space to_lower lower_char to_upper upper_char
    member
no_issue = refl

unknown_method :
    validate net (record stdio { allowed_methods = codes "FETCH" ∷ [] }) ≡ bad_allowed_methods ∷ []
unfolding validate has_oauth methods_not_valid invalid_methods sort_texts insert
    selected_upstream_base_url parse_url_source is_http_url text_eq trim_space is_space to_lower
    lower_char to_upper upper_char member
unknown_method = refl

validate-IsSane_example : IsSane net stdio
validate-IsSane_example = validate-IsSane net stdio no_issue
