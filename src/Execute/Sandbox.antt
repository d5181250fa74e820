-- ===== src/Execute/Sandbox.antt =====
-- Where the calls of sandbox mode go.
use mcp_swagger.Prelude.{
  ◌≡◌, ◌≢◌, refl, sym, ap, ◌∙◌, Bool, false, not, ◌||◌, Option, none, some, [], ◌∷◌, Result, ok,
  err, arith, if_rule, subst,
}
use mcp_swagger.Text.{Text, is_empty, to_lower, trim_space}
use mcp_swagger.Text.Laws.{text_eq_iff, trim_space_idem}
use mcp_swagger.Dict.{Dict}
use mcp_swagger.Value.{Value}
use mcp_swagger.Policy.{mode_sandbox}
use mcp_swagger.Confirmation.{Time, MemoryStore}
use mcp_swagger.Audit.Redaction.{JsonApi}
use mcp_swagger.Contract.Operation.{ExecuteInput}
use mcp_swagger.Prepare.Url.{
  Url, UrlApi, PrepareError, other_error, merged, with_path, with_base, build_target_url,
}
use mcp_swagger.Prepare.Request.{PrepareOptions, base_url_of}
use mcp_swagger.Execute.Env.{PreparedRequest, ResolvedOperation, SwaggerExecuteOptions, Env}
use mcp_swagger.Execute.BaseUrl.{resolve_base_url}
use mcp_swagger.Execute.Tool.{prepare_options, add_correlation, execute}
use mcp_swagger.Execute.Gates.{IsSent}
use mcp_swagger.Execute.Cleared.{sent-IsCleared, on_base}

sandbox_base :
    (parse_url : Text → Option Url) (options : SwaggerExecuteOptions) (endpoint : ResolvedOperation)
    (base : Text)
    → to_lower (trim_space options.mode) ≡ mode_sandbox
    → resolve_base_url parse_url options endpoint ≡ some base
    → (base ≡ trim_space options.upstream_sandbox_base_url) × (is_empty base ≡ false)
unfolding resolve_base_url
sandbox_base parse_url options endpoint base mode h = (
  ground (arith, text_eq_iff (to_lower (trim_space options.mode)) mode_sandbox),
  ground (arith, text_eq_iff (to_lower (trim_space options.mode)) mode_sandbox),
)

-- The text of a URL with the scheme and the host of the base.
abbrev pub IsOnHost : UrlApi → Text → Text → Type 0
IsOnHost api base text =
    (b : Url) × (u : Url) × (api.parse base ≡ some b)
    × (text ≡ api.print u)
    × (u.scheme ≡ b.scheme)
    × (u.host ≡ b.host)

ok_text : (a b : Text) (r : Result PrepareError Text) → r ≡ ok a → r ≡ ok b → a ≡ b
ok_text a b r h k = cc

module _ (api : UrlApi) (url : Text) where
  with_path-IsOnHost :
      (base : Text) (b : Url) (part : Option Url) (query : Dict Text)
      → api.parse base ≡ some b
      → with_path api b part query ≡ ok url
      → IsOnHost api base url
  with_path-IsOnHost base b none query parsed = λ h. ground arith
  with_path-IsOnHost base b (some part) query parsed =
      let u = merged api b part query in
      if_rule (λ r. r ≡ ok url → IsOnHost api base url)
        (not (is_empty part.scheme) || not (is_empty part.host)) (err other_error)
        (ok (api.print u)) (λ _ h. ground arith)
        λ _ h. (b, u, parsed, ok_text url (api.print u) (ok (api.print u)) h refl, refl, refl)

  with_base-IsOnHost :
      (base path : Text) (o : Option Url) (query : Dict Text)
      → api.parse base ≡ o
      → with_base api o path query ≡ ok url
      → IsOnHost api base url
  with_base-IsOnHost base path none query parsed h = ground arith
  with_base-IsOnHost base path (some b) query parsed h =
      with_path-IsOnHost base b (api.parse path) query parsed h

  build_target_url-IsOnHost :
      (base path : Text) (query : Dict Text) (allow_no_base : Bool)
      → is_empty (trim_space base) ≡ false
      → build_target_url api base path query allow_no_base ≡ ok url
      → IsOnHost api (trim_space base) url
  unfolding build_target_url
  build_target_url-IsOnHost base path query allow_no_base given h =
      if_rule (λ (r : Result PrepareError Text). r ≡ ok url → IsOnHost api (trim_space base) url)
        (is_empty (trim_space base)) _ _ (λ blank _. ground arith)
        (λ _ h.
          with_base-IsOnHost (trim_space base) path (api.parse (trim_space base)) query refl h)
        h

base_url-given :
    (api : UrlApi) (json : JsonApi) (endpoint : ResolvedOperation) (input : ExecuteInput)
    (opts : PrepareOptions)
    → is_empty (trim_space opts.base_url) ≡ false
    → base_url_of api json endpoint input opts ≡ trim_space opts.base_url
unfolding base_url_of
base_url-given api json endpoint input opts h = rw (h) refl

url-add_correlation : (env : Env) (r : PreparedRequest) → (add_correlation env r).url ≡ r.url
unfolding add_correlation
url-add_correlation env r =
    if_rule (λ (q : PreparedRequest). q.url ≡ r.url) _ _ r (λ _. refl) λ _. refl

not_empty : (t : Text) → is_empty t ≡ false → t ≢ []
not_empty [] h e = ground arith
not_empty (c ∷ t) h e = ground arith

-- In sandbox mode, whatever the input, every request that swagger.http.execute hands to the HTTP
-- client has a URL with the scheme and the host of the configured sandbox URL, which is not empty.
pub sandbox_only :
    (env : Env) (clean_now now : Time) (input : Value) (s : Option MemoryStore)
    (p : PreparedRequest)
    → to_lower (trim_space env.options.mode) ≡ mode_sandbox
    → IsSent p (execute env clean_now now input s).1
    → (trim_space env.options.upstream_sandbox_base_url ≢ [])
      × IsOnHost env.urls (trim_space env.options.upstream_sandbox_base_url) p.url
sandbox_only env clean_now now input s p mode h =
    let cleared = sent-IsCleared env clean_now now input s p h in
    let base =
      sandbox_base env.urls.parse env.options cleared.endpoint cleared.base mode cleared.resolved in
    let sandbox = trim_space env.options.upstream_sandbox_base_url in
    let opts = prepare_options env.options cleared.base in
    let read = on_base cleared.read cleared.base in
    let trimmed : trim_space cleared.base ≡ cleared.base =
      subst (λ t. trim_space t ≡ t) (sym base.0)
        (trim_space_idem env.options.upstream_sandbox_base_url) in
    let given : is_empty (trim_space cleared.base) ≡ false = ap is_empty trimmed ∙ base.1 in
    let chosen = base_url-given env.urls env.json cleared.endpoint read opts given in
    let twice : trim_space (trim_space cleared.base) ≡ sandbox =
      trim_space_idem cleared.base ∙ trimmed ∙ base.0 in
    let located =
      subst
        (λ t.
          build_target_url env.urls t cleared.request.path read.query_params false
          ≡ ok cleared.request.url)
        chosen cleared.prepared.located in
    let on_host =
      build_target_url-IsOnHost env.urls cleared.request.url (trim_space cleared.base)
        cleared.request.path read.query_params false
        (ap is_empty (trim_space_idem cleared.base) ∙ given) located in
    let same_url : cleared.request.url ≡ p.url =
      sym (url-add_correlation env cleared.request)
      ∙ ap (λ (q : PreparedRequest). q.url) cleared.correlated in
    (
      not_empty sandbox (subst (λ t. is_empty t ≡ false) base.0 base.1),
      subst (λ t. IsOnHost env.urls sandbox t) same_url
          (subst (λ t. IsOnHost env.urls t cleared.request.url) twice on_host),
    )
