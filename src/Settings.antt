-- ===== src/Settings.antt =====
-- config/validate.go: Validate of Config, on the fields that it reads, with OAuthMode and
-- parseURLSource of config/config.go. An issue stands for the text of an error.
pub mod Sane
pub mod Examples
use mcp_swagger.Prelude.{
  Bool, true, false, not, ◌&&◌, ◌||◌, Option, none, some, List, [], ◌∷◌, ◌++◌, ℤ, pos, negsuc, zero,
  suc, Result, ok, err, is_some, if◌then◌else◌,
}
use mcp_swagger.Text.{
  Text, codes, text_eq, is_empty, to_lower, to_upper, trim_space, has_prefix, member,
}
use mcp_swagger.Policy.{is_nil}
use mcp_swagger.NetGuard.Guard.{Url, Net, Guard, GuardError, new_guard, validate_url}
use mcp_swagger.Registry.Sorting.{sort_texts}

pub record Config : Type 0 where
  pub swagger_path : Text
  pub swagger_http_timeout : ℤ
  pub swagger_max_bytes : ℤ
  pub transport : Text
  pub mcp_api_mode : Text
  pub inbound_oauth_introspection_url : Text
  pub inbound_oauth_jwks_url : Text
  pub upstream_base_url : Text
  pub upstream_sandbox_base_url : Text
  pub swagger_base_url : Text
  pub allowed_methods : List Text
  pub denied_methods : List Text
  pub swagger_allowed_hosts : List Text
  pub upstream_allowed_hosts : List Text
  pub block_private_networks : Bool

pub data Issue : Type 0 where
  no_swagger_path bad_timeout bad_max_bytes bad_transport bad_mode no_oauth no_sandbox : Issue
  bad_allowed_methods bad_denied_methods bad_scheme swagger_path_blocked : Issue
  upstream_blocked sandbox_blocked swagger_base_blocked selected_blocked : Issue

abbrev pub folded : Text → Text
folded t = to_lower (trim_space t)

abbrev pub is_positive : ℤ → Bool
is_positive (pos zero) = false
is_positive (pos (suc n)) = true
is_positive (negsuc n) = false

unfoldable pub has_oauth : Config → Bool
has_oauth c =
    if not (is_empty c.inbound_oauth_introspection_url)
    then true
    else not (is_empty c.inbound_oauth_jwks_url)

abbrev pub valid_http_methods : List Text
valid_http_methods =
    codes "GET"
    ∷ codes "HEAD"
    ∷ codes "OPTIONS"
    ∷ codes "POST"
    ∷ codes "PUT"
    ∷ codes "PATCH"
    ∷ codes "DELETE"
    ∷ codes "TRACE"
    ∷ codes "CONNECT"
    ∷ []

unfoldable pub methods_not_valid : List Text → List Text
methods_not_valid [] = []
methods_not_valid (method ∷ methods) =
    let value = to_upper (trim_space method) in
    let rest = methods_not_valid methods in
    if is_empty value || member value valid_http_methods then rest else value ∷ rest

unfoldable pub invalid_methods : List Text → List Text
unfolding methods_not_valid
invalid_methods methods = sort_texts (methods_not_valid methods)

-- selectedUpstreamBaseURL
unfoldable pub selected_upstream_base_url : Config → Text
selected_upstream_base_url c =
    if text_eq (folded c.mcp_api_mode) (codes "sandbox")
    then trim_space c.upstream_sandbox_base_url
    else if not (is_empty (trim_space c.upstream_base_url))
    then trim_space c.upstream_base_url
    else trim_space c.swagger_base_url

abbrev pub blocked : Result GuardError (Unit {0}) → Bool
blocked (ok u) = false
blocked (err e) = true

module _ (net : Net) where
  abbrev source_of : Text → Option Url → Option Url
  source_of raw none = none
  source_of raw (some u) =
      let scheme = folded u.scheme in
      if is_empty (trim_space u.scheme)
      then none
      else if has_prefix (to_lower raw) (scheme ++ codes "://") || text_eq scheme (codes "file")
      then some u
      else none

  unfoldable pub parse_url_source : Text → Option Url
  parse_url_source source =
      if is_empty (trim_space source)
      then none
      else source_of (trim_space source) (net.parse_url (trim_space source))

  abbrev has_http_scheme : Option Url → Bool
  has_http_scheme none = false
  has_http_scheme (some u) =
      text_eq (folded u.scheme) (codes "http") || text_eq (folded u.scheme) (codes "https")

  unfoldable pub is_http_url : Text → Bool
  unfolding parse_url_source
  is_http_url source = has_http_scheme (parse_url_source source)

  abbrev pub swagger_guard : Config → Guard
  swagger_guard c = new_guard net (record {
    allowed_hosts = c.swagger_allowed_hosts;
    block_private_networks = c.block_private_networks;
  })

  abbrev pub upstream_guard : Config → Guard
  upstream_guard c = new_guard net (record {
    allowed_hosts = c.upstream_allowed_hosts;
    block_private_networks = c.block_private_networks;
  })

  -- A base URL that is set and does not pass the guard of the upstream.
  abbrev pub base_blocked : Config → Text → Bool
  base_blocked c value =
      not (is_empty (trim_space value)) && blocked (validate_url net (upstream_guard c) value)

  -- The conditions of Validate, in their order, with the issues that they add.
  abbrev pub tests_of : Config → List (Bool × Issue)
  tests_of c =
      let transport = folded c.transport in
      let mode = folded c.mcp_api_mode in
      let selected = selected_upstream_base_url c in
      (is_empty (trim_space c.swagger_path), no_swagger_path)
      ∷ (not (is_positive c.swagger_http_timeout), bad_timeout)
      ∷ (not (is_positive c.swagger_max_bytes), bad_max_bytes)
      ∷ (not (member transport (codes "" ∷ codes "stdio" ∷ codes "streamable" ∷ [])), bad_transport)
      ∷ (
        not (
            member mode (
              codes ""
              ∷ codes "plan_only"
              ∷ codes "execute_readonly"
              ∷ codes "execute_write"
              ∷ codes "sandbox"
              ∷ [])),
        bad_mode,
      )
      ∷ (text_eq transport (codes "streamable") && not (has_oauth c), no_oauth)
      ∷ (
        text_eq mode (codes "sandbox") && is_empty (trim_space c.upstream_sandbox_base_url),
        no_sandbox,
      )
      ∷ (not (is_nil (invalid_methods c.allowed_methods)), bad_allowed_methods)
      ∷ (not (is_nil (invalid_methods c.denied_methods)), bad_denied_methods)
      ∷ (is_some (parse_url_source c.swagger_path) && not (is_http_url c.swagger_path), bad_scheme)
      ∷ (
        is_http_url c.swagger_path && blocked (validate_url net (swagger_guard c) c.swagger_path),
        swagger_path_blocked,
      )
      ∷ (base_blocked c c.upstream_base_url, upstream_blocked)
      ∷ (base_blocked c c.upstream_sandbox_base_url, sandbox_blocked)
      ∷ (base_blocked c c.swagger_base_url, swagger_base_blocked)
      ∷ (
        not (is_empty selected)
            && not (is_nil c.upstream_allowed_hosts)
            && blocked (validate_url net (upstream_guard c) selected),
        selected_blocked,
      )
      ∷ []

  abbrev pub collect : List (Bool × Issue) → List Issue
  collect [] = []
  collect ((failed, issue) ∷ tests) =
      let rest = collect tests in if failed then issue ∷ rest else rest

  -- Validate: the errors, none for a nil error.
  unfoldable pub validate : Config → List Issue
  unfolding has_oauth invalid_methods selected_upstream_base_url is_http_url
  validate c = collect (tests_of c)
