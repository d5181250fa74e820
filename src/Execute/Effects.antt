-- ===== src/Execute/Effects.antt =====
-- What the tool tells its metrics and its audit log: one report of the outcome per call.
use mcp_swagger.Prelude.{
  ◌≡◌, ◌≤◌, refl, inl, inr, Bool, true, false, not, ◌&&◌, Option, none, some, List, [], ◌∷◌, ◌++◌,
  arith, Result, ok, err, if_rule, count, count-append,
}
use mcp_swagger.Text.{Text}
use mcp_swagger.Value.{Value}
use mcp_swagger.Policy.{is_nil}
use mcp_swagger.Confirmation.{Time, MemoryStore}
use mcp_swagger.Execute.Env.{
  ExecuteInput, PreparedRequest, ResolvedOperation, DoError, url_blocked, request_too_large,
  rate_limited, timeout, network, Response, Env,
}
use mcp_swagger.Execute.Gates.{IsSent}
use mcp_swagger.Prepare.Url.{PrepareError}
use mcp_swagger.Execute.Tool.{
  Effect, sent, inc_inflight, dec_inflight, observe_duration, inc_rate_limited, inc_error,
  audited_error, audited_success, inc_total, Outcome, failed, succeeded, Answer, fail, emit,
  add_correlation, is_permitted, answer_of, violations, send, when_authorised, execute_prepared,
  execute_at, execute_endpoint, execute_input, execute_with, with_metrics, execute,
}

abbrev pub is_sent : Effect → Bool
is_sent (sent p) = true
is_sent _ = false

-- The entries that report the outcome, in order: the audit log and the counters of results.
abbrev pub reports : List Effect → List Effect
reports [] = []
reports (inc_error code ∷ es) = inc_error code ∷ reports es
reports (audited_error code ∷ es) = audited_error code ∷ reports es
reports (inc_total op method status ∷ es) = inc_total op method status ∷ reports es
reports (audited_success ∷ es) = audited_success ∷ reports es
reports (_ ∷ es) = reports es

abbrev pub IsReportOf : Outcome → List Effect → Type 0
IsReportOf (failed code) es = reports es ≡ inc_error code ∷ audited_error code ∷ []
IsReportOf (succeeded status) es =
    (p : PreparedRequest) × IsSent p es
    × (reports es ≡ inc_total p.operation_id p.method status ∷ audited_success ∷ [])

-- The outcome is reported once, at most one request is sent, and a success has sent the request it reports.
abbrev pub IsAccounted : Answer → Type 0
IsAccounted (s, effects, outcome) = IsReportOf outcome effects × (count is_sent effects ≤ 1)

IsAccounted-fail : (s : Option MemoryStore) (code : Text) → IsAccounted (fail s code)
unfolding fail count
IsAccounted-fail s code = (refl, ground arith)

IsAccounted-answer_of :
    (env : Env) (s : Option MemoryStore) (p : PreparedRequest) (r : Result DoError Response)
    → IsAccounted (emit (sent p) (answer_of env s p r))
unfolding answer_of emit fail count
IsAccounted-answer_of env s p (err url_blocked) = (refl, ground arith)
IsAccounted-answer_of env s p (err request_too_large) = (refl, ground arith)
IsAccounted-answer_of env s p (err rate_limited) = (refl, ground arith)
IsAccounted-answer_of env s p (err timeout) = (refl, ground arith)
IsAccounted-answer_of env s p (err network) = (refl, ground arith)
IsAccounted-answer_of env s p (ok resp) =
    if_rule (λ a. IsAccounted (emit (sent p) a)) resp.readable _ _
      (λ _. ((p, inl refl, refl), ground arith)) λ _. (refl, ground arith)

module _ (env : Env) (clean_now now : Time) where
  IsAccounted-send :
      (http_do : PreparedRequest → Result DoError Response) (endpoint : ResolvedOperation)
      (p : PreparedRequest) (s : Option MemoryStore)
      → IsAccounted (send env http_do endpoint p s)
  unfolding send
  IsAccounted-send http_do endpoint p s =
      if_rule IsAccounted (env.options.validate_request && not (is_nil (violations env endpoint p)))
        _ _ (λ _. IsAccounted-fail s _)
        λ _.
          if_rule IsAccounted (not (env.new_request_ok p)) _ _ (λ _. IsAccounted-fail s _)
            λ _.
              if_rule IsAccounted (not (env.apply_auth p)) _ _ (λ _. IsAccounted-fail s _)
                λ _. IsAccounted-answer_of env s p (http_do p)

  IsAccounted-when_authorised :
      (http_do : PreparedRequest → Result DoError Response) (endpoint : ResolvedOperation)
      (p : PreparedRequest) (x : Option MemoryStore × Result Text (Unit {0}))
      → IsAccounted (when_authorised env (send env http_do endpoint p) x)
  IsAccounted-when_authorised http_do endpoint p (s, ok u) = IsAccounted-send http_do endpoint p s
  IsAccounted-when_authorised http_do endpoint p (s, err code) = IsAccounted-fail s code

  IsAccounted-execute_prepared :
      (http_do : PreparedRequest → Result DoError Response) (endpoint : ResolvedOperation)
      (input : ExecuteInput) (o : Result PrepareError PreparedRequest) (s : Option MemoryStore)
      → IsAccounted (execute_prepared env clean_now now http_do endpoint input o s)
  IsAccounted-execute_prepared http_do endpoint input (err e) s = IsAccounted-fail s _
  IsAccounted-execute_prepared http_do endpoint input (ok prepared) s =
      if_rule IsAccounted
        (is_permitted env (add_correlation env prepared).url env.options.validate_url) _ _
        (λ _. IsAccounted-when_authorised http_do endpoint _ _) λ _. IsAccounted-fail s _

  IsAccounted-execute_at :
      (http_do : PreparedRequest → Result DoError Response) (endpoint : ResolvedOperation)
      (input : ExecuteInput) (base : Option Text) (s : Option MemoryStore)
      → IsAccounted (execute_at env clean_now now http_do endpoint input base s)
  IsAccounted-execute_at http_do endpoint input none s = IsAccounted-fail s _
  IsAccounted-execute_at http_do endpoint input (some base) s =
      if_rule IsAccounted (is_permitted env base env.options.validate_url) _ _
        (λ _. IsAccounted-execute_prepared http_do endpoint _ _ s) λ _. IsAccounted-fail s _

  IsAccounted-execute_endpoint :
      (http_do : PreparedRequest → Result DoError Response) (input : ExecuteInput)
      (o : Option ResolvedOperation) (s : Option MemoryStore)
      → IsAccounted (execute_endpoint env clean_now now http_do input o s)
  IsAccounted-execute_endpoint http_do input none s = IsAccounted-fail s _
  IsAccounted-execute_endpoint http_do input (some endpoint) s =
      IsAccounted-execute_at http_do endpoint input _ s

  IsAccounted-execute_input :
      (http_do : PreparedRequest → Result DoError Response)
      (get_endpoint : Text → Option ResolvedOperation) (o : Option ExecuteInput)
      (s : Option MemoryStore)
      → IsAccounted (execute_input env clean_now now http_do get_endpoint o s)
  IsAccounted-execute_input http_do get_endpoint none s = IsAccounted-fail s _
  IsAccounted-execute_input http_do get_endpoint (some input) s =
      IsAccounted-execute_endpoint http_do input (get_endpoint input.operation_id) s

  IsAccounted-execute_with :
      (get_endpoint : Option (Text → Option ResolvedOperation))
      (http_do : Option (PreparedRequest → Result DoError Response)) (input : Value)
      (s : Option MemoryStore)
      → IsAccounted (execute_with env clean_now now get_endpoint http_do input s)
  IsAccounted-execute_with none http_do input s = IsAccounted-fail s _
  IsAccounted-execute_with (some get_endpoint) none input s = IsAccounted-fail s _
  IsAccounted-execute_with (some get_endpoint) (some http_do) input s =
      IsAccounted-execute_input http_do get_endpoint _ s

reports-append :
    (es : List Effect) → reports (es ++ observe_duration ∷ dec_inflight ∷ []) ≡ reports es
reports-append [] = refl
reports-append (sent p ∷ es) = reports-append es
reports-append (inc_inflight ∷ es) = reports-append es
reports-append (dec_inflight ∷ es) = reports-append es
reports-append (observe_duration ∷ es) = reports-append es
reports-append (inc_rate_limited ∷ es) = reports-append es
reports-append (inc_error code ∷ es) = cc (reports-append es)
reports-append (audited_error code ∷ es) = cc (reports-append es)
reports-append (audited_success ∷ es) = cc (reports-append es)
reports-append (inc_total op method status ∷ es) = cc (reports-append es)

IsSent-extend :
    (p : PreparedRequest) (es : List Effect)
    → IsSent p es
    → IsSent p (es ++ observe_duration ∷ dec_inflight ∷ [])
IsSent-extend p [] h = absurd h
IsSent-extend p (sent q ∷ es) (inl e) = inl e
IsSent-extend p (sent q ∷ es) (inr h) = inr (IsSent-extend p es h)
IsSent-extend p (inc_inflight ∷ es) h = IsSent-extend p es h
IsSent-extend p (dec_inflight ∷ es) h = IsSent-extend p es h
IsSent-extend p (observe_duration ∷ es) h = IsSent-extend p es h
IsSent-extend p (inc_rate_limited ∷ es) h = IsSent-extend p es h
IsSent-extend p (inc_error code ∷ es) h = IsSent-extend p es h
IsSent-extend p (audited_error code ∷ es) h = IsSent-extend p es h
IsSent-extend p (audited_success ∷ es) h = IsSent-extend p es h
IsSent-extend p (inc_total op method status ∷ es) h = IsSent-extend p es h

IsReportOf-extend :
    (outcome : Outcome) (es : List Effect)
    → IsReportOf outcome es
    → IsReportOf outcome (es ++ observe_duration ∷ dec_inflight ∷ [])
IsReportOf-extend (failed code) es h = cc (reports-append es, h)
IsReportOf-extend (succeeded status) es (p, is_in, h) =
    (p, IsSent-extend p es is_in, cc (reports-append es, h))

report_metrics :
    (outcome : Outcome) (es : List Effect)
    → IsReportOf outcome es
    → IsReportOf outcome (inc_inflight ∷ (es ++ observe_duration ∷ dec_inflight ∷ []))
report_metrics (failed code) es h = IsReportOf-extend (failed code) es h
report_metrics (succeeded status) es h = IsReportOf-extend (succeeded status) es h

IsAccounted-with_metrics :
    (env : Env) (a : Answer) → IsAccounted a → IsAccounted (with_metrics env a)
unfolding count
IsAccounted-with_metrics env (s, es, outcome) (h, few) = (
  report_metrics outcome es h,
  omega (arith, count-append is_sent es (observe_duration ∷ dec_inflight ∷ [])),
)

-- Each call of swagger.http.execute sends at most one request and reports its outcome once: a
-- failure counts and audits one error with its code, and a success counts the operation, method
-- and status of the request that it sent, then audits it.
pub execute-IsAccounted :
    (env : Env) (clean_now now : Time) (input : Value) (s : Option MemoryStore)
    → IsAccounted (execute env clean_now now input s)
unfolding execute
execute-IsAccounted env clean_now now input s =
    IsAccounted-with_metrics env
      (execute_with env clean_now now env.get_endpoint_by_operation_id env.http_do input s)
      (IsAccounted-execute_with env clean_now now env.get_endpoint_by_operation_id env.http_do input
        s)
