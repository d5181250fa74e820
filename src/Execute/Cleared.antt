-- ===== src/Execute/Cleared.antt =====
-- What each request of swagger.http.execute has behind it.
use mcp_swagger.Prelude.{
  ◌≡◌, ◌≢◌, refl, sym, [], inl, inr, true, Option, none, some, Result, ok, err, if_rule, subst,
}
use mcp_swagger.Text.{Text}
use mcp_swagger.Value.{Value}
use mcp_swagger.Policy.{Decision, DefaultEvaluator, is_write_method, evaluate}
use mcp_swagger.Policy.Configured.{guarded_write_not_allowed}
use mcp_swagger.Confirmation.{Time, MemoryStore}
use mcp_swagger.Execute.Env.{
  ExecuteInput, PreparedRequest, ResolvedOperation, DoError, Response, Env,
}
use mcp_swagger.Execute.BaseUrl.{resolve_base_url}
use mcp_swagger.Prepare.Url.{PrepareError}
use mcp_swagger.Input.Parse.{parse_execute_input}
use mcp_swagger.Input.Trimmed.{parse_execute_input-IsIdentified}
use mcp_swagger.Prepare.Correct.{IsPrepared, prepare_endpoint_request-IsPrepared}
use mcp_swagger.Execute.Tool.{
  Answer, fail, add_correlation, is_permitted, send, prepare_options, prepared_with,
  when_authorised, execute_prepared, execute_at, execute_endpoint, execute_input, execute_with,
  execute,
}
use mcp_swagger.Execute.Gates.{
  IsSent, not-IsSent-fail, IsSent-append, IsReady, send_sent, IsConsumed, IsAuthorised,
  authorise_ok,
}

-- The store of endpoints has the operation under the identifier.
abbrev pub IsFound : Option (Text → Option ResolvedOperation) → Text → ResolvedOperation → Type 0
IsFound none id endpoint = ⊥
IsFound (some get_endpoint) id endpoint = get_endpoint id ≡ some endpoint

-- The input of the call on the base URL of the operation.
abbrev pub on_base : ExecuteInput → Text → ExecuteInput
on_base read base = record read { base_url = base }

module _ (env : Env) where
  -- What a request to the HTTP client has behind it; `after` is the store that the call leaves.
  pub record IsCleared (clean_now now : Time) (raw : Value) (s after : Option MemoryStore)
      (p : PreparedRequest) : Type 0 where
    pub read : ExecuteInput
    pub parsed : parse_execute_input env.numbers raw ≡ some read
    pub named : read.operation_id ≢ []
    pub endpoint : ResolvedOperation
    pub found : IsFound env.get_endpoint_by_operation_id read.operation_id endpoint
    pub base : Text
    pub resolved : resolve_base_url env.urls.parse env.options endpoint ≡ some base
    pub request : PreparedRequest
    pub built : prepared_with env endpoint base (on_base read base) ≡ ok request
    pub prepared :
        IsPrepared env.urls env.json endpoint
          (on_base read base)
          (prepare_options env.options base)
          request
    pub correlated : add_correlation env request ≡ p
    pub base_permitted : is_permitted env base env.options.validate_url ≡ true
    pub url_permitted : is_permitted env p.url env.options.validate_url ≡ true
    pub decision : Decision
    pub decided : env.evaluate p.operation_id p.method p.url ≡ some decision
    pub authorised : IsAuthorised env clean_now now read p s after decision
    pub is_ready : IsReady env endpoint p

  IsFound-in :
      (get_endpoint : Text → Option ResolvedOperation) (id : Text) (endpoint : ResolvedOperation)
      → env.get_endpoint_by_operation_id ≡ some get_endpoint
      → get_endpoint id ≡ some endpoint
      → IsFound env.get_endpoint_by_operation_id id endpoint
  IsFound-in get_endpoint id endpoint given found =
      subst (λ o. IsFound o id endpoint) (sym given) found

  module _ (clean_now now : Time) (raw : Value) (s : Option MemoryStore) (p : PreparedRequest) where
    -- What Execute shows of each answer on the way.
    abbrev Clears : Answer → Type 0
    Clears a = IsSent p a.1 → IsCleared clean_now now raw s a.0 p

    Clears-fail : (s' : Option MemoryStore) (code : Text) → Clears (fail s' code)
    Clears-fail s' code h = absurd (not-IsSent-fail p s' code h)

    Clears-when_authorised :
        (http_do : PreparedRequest → Result DoError Response) (endpoint : ResolvedOperation)
        (q : PreparedRequest) (x : Option MemoryStore × Result Text (Unit {0}))
        → (x.1 ≡ ok tt → IsReady env endpoint q → IsCleared clean_now now raw s x.0 q)
        → Clears (when_authorised env (send env http_do endpoint q) x)
    Clears-when_authorised http_do endpoint q (s', err code) cleared h =
        absurd (not-IsSent-fail p s' code h)
    Clears-when_authorised http_do endpoint q (s', ok u) cleared h =
        let passed = send_sent env http_do endpoint p q s' h in
        subst (λ after. IsCleared clean_now now raw s after p) (sym passed.2)
          (subst (IsCleared clean_now now raw s s') passed.0 (cleared refl passed.1))

    module _ (http_do : PreparedRequest → Result DoError Response) (read : ExecuteInput)
        (parsed : parse_execute_input env.numbers raw ≡ some read) where
      abbrev named : read.operation_id ≢ []
      named = (parse_execute_input-IsIdentified env.numbers raw read parsed).0

      module _ (endpoint : ResolvedOperation)
          (found : IsFound env.get_endpoint_by_operation_id read.operation_id endpoint) where
        Clears-execute_prepared :
            (base : Text) (o : Result PrepareError PreparedRequest)
            → prepared_with env endpoint base (on_base read base) ≡ o
            → resolve_base_url env.urls.parse env.options endpoint ≡ some base
            → is_permitted env base env.options.validate_url ≡ true
            → Clears (execute_prepared env clean_now now http_do endpoint (on_base read base) o s)
        Clears-execute_prepared base (err e) built resolved permitted = Clears-fail s _
        Clears-execute_prepared base (ok request) built resolved permitted =
            let q = add_correlation env request in
            let decision = env.evaluate q.operation_id q.method q.url in
            if_rule Clears (is_permitted env q.url env.options.validate_url) _ _
              (λ url_permitted. Clears-when_authorised http_do endpoint q _ λ authorised is_ready.
                let d =
                  authorise_ok env clean_now now (on_base read base) q decision s authorised in
                record {
                  read = read;
                  parsed = parsed;
                  named = named;
                  endpoint = endpoint;
                  found = found;
                  base = base;
                  resolved = resolved;
                  request = request;
                  built = built;
                  prepared =
                      prepare_endpoint_request-IsPrepared env.urls env.json endpoint
                        (on_base read base) (prepare_options env.options base) request built;
                  correlated = refl;
                  base_permitted = permitted;
                  url_permitted = url_permitted;
                  decision = d.0;
                  decided = d.1;
                  authorised = d.2;
                  is_ready = is_ready;
                })
              λ _. Clears-fail s _

        Clears-execute_at :
            (o : Option Text)
            → resolve_base_url env.urls.parse env.options endpoint ≡ o
            → Clears (execute_at env clean_now now http_do endpoint read o s)
        Clears-execute_at none resolved = Clears-fail s _
        Clears-execute_at (some base) resolved =
            if_rule Clears (is_permitted env base env.options.validate_url) _ _
              (λ permitted. Clears-execute_prepared base _ refl resolved permitted)
              λ _. Clears-fail s _

      Clears-execute_endpoint :
          (get_endpoint : Text → Option ResolvedOperation) (o : Option ResolvedOperation)
          → env.get_endpoint_by_operation_id ≡ some get_endpoint
          → get_endpoint read.operation_id ≡ o
          → Clears (execute_endpoint env clean_now now http_do read o s)
      Clears-execute_endpoint get_endpoint none given found = Clears-fail s _
      Clears-execute_endpoint get_endpoint (some endpoint) given found =
          Clears-execute_at endpoint
            (IsFound-in get_endpoint read.operation_id endpoint given found) _ refl

    Clears-execute_input :
        (http_do : PreparedRequest → Result DoError Response)
        (get_endpoint : Text → Option ResolvedOperation) (o : Option ExecuteInput)
        → env.get_endpoint_by_operation_id ≡ some get_endpoint
        → parse_execute_input env.numbers raw ≡ o
        → Clears (execute_input env clean_now now http_do get_endpoint o s)
    Clears-execute_input http_do get_endpoint none given parsed = Clears-fail s _
    Clears-execute_input http_do get_endpoint (some read) given parsed =
        Clears-execute_endpoint http_do read parsed get_endpoint (get_endpoint read.operation_id)
          given refl

    Clears-execute_with :
        (get_endpoint : Option (Text → Option ResolvedOperation))
        (http_do : Option (PreparedRequest → Result DoError Response))
        → env.get_endpoint_by_operation_id ≡ get_endpoint
        → Clears (execute_with env clean_now now get_endpoint http_do raw s)
    Clears-execute_with none http_do given = Clears-fail s _
    Clears-execute_with (some get_endpoint) none given = Clears-fail s _
    Clears-execute_with (some get_endpoint) (some http_do) given =
        Clears-execute_input http_do get_endpoint (parse_execute_input env.numbers raw) given refl

-- Whatever the input, a request that swagger.http.execute hands to the HTTP client is cleared: the
-- input parses and names an operation that the store has, the operation has a base URL, the
-- request is the one that prepareEndpointRequest built of that operation and the parsed input on
-- that base URL, with the correlation header added, the base URL and the final URL passed the URL
-- check where one is set, the policy answered for it with a decision, which either allows it while
-- the call leaves the store of confirmations as it was, or the confirmation that the input names
-- was consumed for its operation, method and URL and the call leaves the store after that
-- consumption; the request meets the contract of the operation where requests are validated, and
-- the credentials were applied to it.
pub sent-IsCleared :
    (env : Env) (clean_now now : Time) (input : Value) (s : Option MemoryStore)
    (p : PreparedRequest)
    → IsSent p (execute env clean_now now input s).1
    → IsCleared env clean_now now input s (execute env clean_now now input s).0 p
unfolding execute
sent-IsCleared env clean_now now input s p h =
    Clears-execute_with env clean_now now input s p env.get_endpoint_by_operation_id env.http_do
      refl
      (IsSent-append p
        (execute_with env clean_now now env.get_endpoint_by_operation_id env.http_do input s).1 h)

consumption_of :
    (env : Env) (clean_now now : Time) (input : ExecuteInput) (p : PreparedRequest)
    (s after : Option MemoryStore) (d : Decision)
    → d.allow ≢ true
    → IsAuthorised env clean_now now input p s after d
    → IsConsumed env clean_now now input p s after
consumption_of env clean_now now input p s after d closed (inl (allowed, same)) =
    absurd (closed allowed)
consumption_of env clean_now now input p s after d closed (inr used) = used

-- Where the policy is the evaluator of the policy package with confirmations for writes, a request
-- with a write method is handed to the HTTP client only if the input parses, the store accepted
-- the consumption of the confirmation that the parsed input names for the operation, method and
-- URL of that request, and the store that the call leaves is the one after this consumption.
pub write_needs_confirmation :
    (env : Env) (e : DefaultEvaluator) (clean_now now : Time) (input : Value)
    (s : Option MemoryStore) (p : PreparedRequest)
    → ((op method url : Text) → env.evaluate op method url ≡ some (evaluate e op method))
    → e.require_confirmation_for_write ≡ true
    → is_write_method p.method ≡ true
    → IsSent p (execute env clean_now now input s).1
    → (read : ExecuteInput) × (parse_execute_input env.numbers input ≡ some read)
      × IsConsumed env clean_now now read p s (execute env clean_now now input s).0
write_needs_confirmation env e clean_now now input s p policy flag write h =
    let cleared = sent-IsCleared env clean_now now input s p h in
    let d : evaluate e p.operation_id p.method ≡ cleared.decision =
      cc (policy p.operation_id p.method p.url, cleared.decided) in
    let after = (execute env clean_now now input s).0 in
    (
      cleared.read,
      cleared.parsed,
      consumption_of env clean_now now cleared.read p s after cleared.decision
          (λ allowed. guarded_write_not_allowed e p.operation_id p.method flag write (rw d allowed))
          cleared.authorised,
    )
