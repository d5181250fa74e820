-- ===== src/Prepare/Correct.antt =====
-- What a prepared request keeps of the operation and of the input, and what buildTargetURL drops.
use mcp_swagger.Prelude.{
  ◌≡◌, ◌≢◌, refl, ap, ◌∙◌, ℕ, ◌≤◌, Bool, true, false, not, ◌&&◌, Option, none, some, List, [], ◌∷◌,
  ltb, Result, ok, err, arith, if_rule, subst, All,
}
use mcp_swagger.Text.{Text, is_empty, to_upper, trim_space}
use mcp_swagger.Dict.{Dict}
use mcp_swagger.Policy.{is_nil}
use mcp_swagger.Audit.Redaction.{JsonApi}
use mcp_swagger.Contract.Operation.{ResolvedOperation, ExecuteInput, PreparedRequest}
use mcp_swagger.Prepare.Template.{pieces_from, expand_path_template}
use mcp_swagger.Prepare.Filled.{HasValue, expanded-HasValue}
use mcp_swagger.Prepare.Headers.{expected_header, find_header-headers_with}
use mcp_swagger.Input.Values.{find_header}
use mcp_swagger.Prepare.Url.{
  Url, UrlApi, PrepareError, other_error, build_target_url, with_path, with_base,
}
use mcp_swagger.Prepare.Body.{EncodedBody, byte_length, encode_request_body}
use mcp_swagger.Prepare.Request.{
  PrepareOptions, prepare_endpoint_request, with_expanded, with_url, with_body, request_of,
  is_too_large, base_url_of,
}

-- Two parsed paths that differ in `raw_path` only.
abbrev pub AgreesDecoded : Url → Url → Type 0
AgreesDecoded u v =
    (u.scheme ≡ v.scheme)
    × (u.host ≡ v.host)
    × (u.path ≡ v.path)
    × (u.raw_query ≡ v.raw_query)
    × (u.fragment ≡ v.fragment)

module _ (api : UrlApi) where
  with_path_decoded :
      (base u v : Url) (query : Dict Text)
      → AgreesDecoded u v
      → with_path api base (some u) query ≡ with_path api base (some v) query
  with_path_decoded base u v query (s, h, p, q, f) = cc

  with_base_decoded :
      (base : Option Url) (p q : Text) (u v : Url) (query : Dict Text)
      → api.parse p ≡ some u
      → api.parse q ≡ some v
      → AgreesDecoded u v
      → with_base api base p query ≡ with_base api base q query
  with_base_decoded none p q u v query hp hq same = refl
  with_base_decoded (some base) p q u v query hp hq same =
      let decoded = with_path_decoded base u v query same in rw (hp, hq) decoded

-- With a base URL, buildTargetURL gives the same URL for two paths that parse to the same decoded
-- path, whatever their escaping: an escaped slash becomes a slash.
pub escaping_undone :
    (api : UrlApi) (base_url p q : Text) (query : Dict Text) (allow_no_base : Bool) (u v : Url)
    → is_empty (trim_space base_url) ≡ false
    → api.parse p ≡ some u
    → api.parse q ≡ some v
    → AgreesDecoded u v
    → build_target_url api base_url p query allow_no_base
      ≡ build_target_url api base_url q query allow_no_base
unfolding build_target_url
escaping_undone api base_url p q query allow_no_base u v given hp hq same =
    rw (given) (with_base_decoded api (api.parse (trim_space base_url)) p q u v query hp hq same)

-- What holds of a request that prepareEndpointRequest returns.
pub record IsPrepared (api : UrlApi) (json : JsonApi) (endpoint : ResolvedOperation)
    (input : ExecuteInput) (opts : PrepareOptions) (r : PreparedRequest) : Type 0 where
  pub operation_kept : r.operation_id ≡ endpoint.operation_id
  pub method_upper : r.method ≡ to_upper (trim_space endpoint.method)
  pub method_given : r.method ≢ []
  pub path_expanded : expand_path_template endpoint.path_template input.path_params ≡ (r.path, [])
  pub filled : All (HasValue input.path_params) (pieces_from none endpoint.path_template)
  pub located :
      build_target_url api
        (base_url_of api json endpoint input opts)
        r.path
        input.query_params
        opts.allow_no_base
      ≡ ok r.url
  pub body : EncodedBody
  pub encoded : encode_request_body json input.body input.content_type ≡ ok body
  pub body_kept :
      (r.body_bytes ≡ body.bytes)
      × (r.content_type ≡ body.content_type)
      × (r.body_input ≡ body.parsed)
  pub headed : (name : Text) → find_header r.headers name ≡ expected_header opts input body name
  pub bounded : ltb 0 opts.max_body_bytes ≡ true → byte_length r.body_bytes ≤ opts.max_body_bytes
  pub path_params_kept : r.path_params ≡ input.path_params
  pub query_params_kept : r.query_params ≡ input.query_params

ok_inj :
    {a b : PreparedRequest} (result : Result PrepareError PreparedRequest)
    → result ≡ ok a
    → result ≡ ok b
    → a ≡ b
ok_inj result h k = cc

not_empty : (t : Text) → is_empty t ≡ false → t ≢ []
not_empty [] h e = ground arith
not_empty (c ∷ t) h e = ground arith

nil_of : (ts : List Text) → not (is_nil ts) ≡ false → ts ≡ []
nil_of [] h = refl
nil_of (t ∷ ts) h = ground arith

within : (bound n : ℕ) → (ltb 0 bound && ltb bound n) ≡ false → ltb 0 bound ≡ true → n ≤ bound
within bound n h on = ground arith

module _ (api : UrlApi) (json : JsonApi) (endpoint : ResolvedOperation) (input : ExecuteInput)
    (opts : PrepareOptions) (r : PreparedRequest) where
  abbrev Gives : Result PrepareError PreparedRequest → Type 0
  Gives result = result ≡ ok r → IsPrepared api json endpoint input opts r

  module _ (path : Text) (named : is_empty (to_upper (trim_space endpoint.method)) ≡ false)
      (expanded : expand_path_template endpoint.path_template input.path_params ≡ (path, [])) where
    abbrev target : Result PrepareError Text
    target =
        build_target_url api (base_url_of api json endpoint input opts) path input.query_params
          opts.allow_no_base

    with_body-IsPrepared :
        (url : Text) (body : Result PrepareError EncodedBody)
        → target ≡ ok url
        → encode_request_body json input.body input.content_type ≡ body
        → Gives (with_body endpoint input opts path url body)
    with_body-IsPrepared url (err e) located encoded = λ h. ground arith
    with_body-IsPrepared url (ok body) located encoded =
        let built = request_of endpoint input opts path url body in
        if_rule Gives (is_too_large opts body) (err other_error) (ok built) (λ _ h. ground arith)
          λ small h.
            subst (IsPrepared api json endpoint input opts) (ok_inj (ok built) refl h) (record {
              operation_kept = refl;
              method_upper = refl;
              method_given = not_empty (to_upper (trim_space endpoint.method)) named;
              path_expanded = expanded;
              filled = expanded-HasValue endpoint.path_template input.path_params path expanded;
              located = located;
              body = body;
              encoded = encoded;
              body_kept = (refl, refl, refl);
              headed = find_header-headers_with opts input body;
              bounded = within opts.max_body_bytes (byte_length body.bytes) small;
              path_params_kept = refl;
              query_params_kept = refl;
            })

    with_url-IsPrepared :
        (url : Result PrepareError Text)
        → target ≡ url
        → Gives (with_url api json endpoint input opts path url)
    with_url-IsPrepared (err e) located h = ground arith
    with_url-IsPrepared (ok url) located h =
        with_body-IsPrepared url (encode_request_body json input.body input.content_type) located
          refl h

  with_expanded-IsPrepared :
      (path : Text) (missing : List Text)
      → is_empty (to_upper (trim_space endpoint.method)) ≡ false
      → expand_path_template endpoint.path_template input.path_params ≡ (path, missing)
      → Gives (with_expanded api json endpoint input opts (path, missing))
  with_expanded-IsPrepared path missing named expanded =
      let url =
        build_target_url api (base_url_of api json endpoint input opts) path input.query_params
          opts.allow_no_base in
      if_rule Gives (not (is_nil missing)) (err other_error)
        (with_url api json endpoint input opts path url) (λ _ h. ground arith)
        λ complete h.
          with_url-IsPrepared path named
            (expanded ∙ ap (λ ts. (path, ts)) (nil_of missing complete)) url refl h

-- A request that prepareEndpointRequest returns has a method, the operation of the endpoint and
-- its expanded path, its URL is what buildTargetURL makes of the base URL, that path and the query
-- parameters of the input, its body is what encodeRequestBody makes of the body of the input, each
-- of its headers is that of the input or, where the input has none of that name in any case, the
-- default User-Agent, Accept or Content-Type, every placeholder of the path template whose name is
-- not blank has a parameter that is not blank, the path and query parameters are those of the
-- input, and the body has at most the configured number of bytes where that number is positive.
pub prepare_endpoint_request-IsPrepared :
    (api : UrlApi) (json : JsonApi) (endpoint : ResolvedOperation) (input : ExecuteInput)
    (opts : PrepareOptions) (r : PreparedRequest)
    → prepare_endpoint_request api json endpoint input opts ≡ ok r
    → IsPrepared api json endpoint input opts r
unfolding prepare_endpoint_request
prepare_endpoint_request-IsPrepared api json endpoint input opts r =
    let expanded = expand_path_template endpoint.path_template input.path_params in
    if_rule (λ o. o ≡ ok r → IsPrepared api json endpoint input opts r)
      (is_empty (to_upper (trim_space endpoint.method))) (err other_error)
      (with_expanded api json endpoint input opts expanded) (λ _ h. ground arith)
      λ named h.
        with_expanded-IsPrepared api json endpoint input opts r expanded.0 expanded.1 named refl h
