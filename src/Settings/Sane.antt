-- ===== src/Settings/Sane.antt =====
-- What holds of a configuration in which Validate finds no error.
use mcp_swagger.Prelude.{
  ◌≡◌, ◌≢◌, refl, Bool, true, false, not, ◌&&◌, ◌||◌, List, [], ◌∷◌, Result, ok, err, arith,
  if_rule, not-false, All,
}
use mcp_swagger.Text.{Text, codes, text_eq, is_empty, to_upper, trim_space, member}
use mcp_swagger.Policy.{is_nil}
use mcp_swagger.NetGuard.Guard.{Net, GuardError, validate_url}
use mcp_swagger.Registry.Sorting.{sort_texts, insert}
use mcp_swagger.Settings.{
  Config, Issue, folded, is_positive, has_oauth, valid_http_methods, methods_not_valid,
  invalid_methods, blocked, is_http_url, swagger_guard, upstream_guard, tests_of, collect, validate,
}

none_failed :
    (net : Net) (tests : List (Bool × Issue))
    → collect net tests ≡ []
    → All (λ t. t.0 ≡ false) tests
none_failed net [] h = tt
none_failed net ((false, issue) ∷ tests) h = (refl, none_failed net tests h)
none_failed net ((true, issue) ∷ tests) h = ground arith

insert_some : (x : Text) (ys : List Text) → insert x ys ≢ []
unfolding insert
insert_some x [] h = ground arith
insert_some x (y ∷ ys) h = ground arith

nil_of : (ts : List Text) → is_nil ts ≡ true → ts ≡ []
nil_of [] h = refl
nil_of (t ∷ ts) h = ground arith

sorted_nil : (ts : List Text) → is_nil (sort_texts ts) ≡ true → ts ≡ []
unfolding sort_texts
sorted_nil [] h = refl
sorted_nil (t ∷ ts) h = absurd (insert_some t (sort_texts ts) (nil_of (insert t (sort_texts ts)) h))

-- The methods of a list are blank or known.
abbrev pub IsKnown : Text → Type 0
IsKnown method =
    (is_empty (to_upper (trim_space method))
      || member (to_upper (trim_space method)) valid_http_methods)
    ≡ true

All-IsKnown : (methods : List Text) → methods_not_valid methods ≡ [] → All IsKnown methods
unfolding methods_not_valid
All-IsKnown [] = λ h. tt
All-IsKnown (method ∷ methods) =
    let value = to_upper (trim_space method) in
    if_rule (λ ts. ts ≡ [] → All IsKnown (method ∷ methods))
      (is_empty value || member value valid_http_methods) (methods_not_valid methods)
      (value ∷ methods_not_valid methods) (λ known h. (known, All-IsKnown methods h))
      λ _ h. ground arith

passed :
    (given : Bool) (r : Result GuardError (Unit {0}))
    → (given && blocked r) ≡ false
    → given ≡ true
    → r ≡ ok tt
passed given (ok tt) h on = refl
passed given (err e) h on = ground arith

refuted : (a b : Bool) → (a && b) ≡ false → a ≡ true → b ≡ false
refuted a b h on = ground arith

IsKnown-methods :
    (methods : List Text) → not (is_nil (invalid_methods methods)) ≡ false → All IsKnown methods
unfolding invalid_methods
IsKnown-methods methods h =
    All-IsKnown methods (sorted_nil (methods_not_valid methods) (not-false _ h))

-- A configuration that the program starts with.
pub record IsSane (net : Net) (c : Config) : Type 0 where
  pub has_path : is_empty (trim_space c.swagger_path) ≡ false
  pub bounded :
      (is_positive c.swagger_http_timeout ≡ true) × (is_positive c.swagger_max_bytes ≡ true)
  pub authenticated : text_eq (folded c.transport) (codes "streamable") ≡ true → has_oauth c ≡ true
  pub sandboxed :
      text_eq (folded c.mcp_api_mode) (codes "sandbox") ≡ true
      → is_empty (trim_space c.upstream_sandbox_base_url) ≡ false
  pub methods_known : All IsKnown c.allowed_methods × All IsKnown c.denied_methods
  pub swagger_guarded :
      is_http_url net c.swagger_path ≡ true
      → validate_url net (swagger_guard net c) c.swagger_path ≡ ok tt
  pub upstream_guarded :
      is_empty (trim_space c.upstream_base_url) ≡ false
      → validate_url net (upstream_guard net c) c.upstream_base_url ≡ ok tt
  pub sandbox_guarded :
      is_empty (trim_space c.upstream_sandbox_base_url) ≡ false
      → validate_url net (upstream_guard net c) c.upstream_sandbox_base_url ≡ ok tt
  pub swagger_base_guarded :
      is_empty (trim_space c.swagger_base_url) ≡ false
      → validate_url net (upstream_guard net c) c.swagger_base_url ≡ ok tt

given : (b : Bool) → b ≡ false → not b ≡ true
given b h = ground arith

-- A configuration in which Validate finds no error has a swagger path and positive bounds, inbound
-- OAuth where the transport is streamable, a sandbox base URL in sandbox mode, only known methods
-- in its lists, and every URL that is set, the http path of the swagger document and the three
-- base URLs, passes its guard.
pub validate-IsSane : (net : Net) (c : Config) → validate net c ≡ [] → IsSane net c
unfolding validate
validate-IsSane net c h =
    let after_path = (none_failed net (tests_of net c) h).1 in
    let after_bytes = after_path.1.1 in
    let after_mode = after_bytes.1.1 in
    let after_sandbox = after_mode.1.1 in
    let after_denied = after_sandbox.1.1 in
    let after_swagger = after_denied.1.1 in
    let after_sandbox_url = after_swagger.1.1 in
    record {
      has_path = (none_failed net (tests_of net c) h).0;
      bounded = (not-false _ after_path.0, not-false _ after_path.1.0);
      authenticated = λ on. not-false _ (refuted _ _ after_mode.0 on);
      sandboxed = refuted _ _ after_mode.1.0;
      methods_known = (
        IsKnown-methods c.allowed_methods after_sandbox.0,
        IsKnown-methods c.denied_methods after_sandbox.1.0,
      );
      swagger_guarded = passed _ _ after_denied.1.0;
      upstream_guarded = λ set. passed _ _ after_swagger.0 (given _ set);
      sandbox_guarded = λ set. passed _ _ after_swagger.1.0 (given _ set);
      swagger_base_guarded = λ set. passed _ _ after_sandbox_url.0 (given _ set);
    }
