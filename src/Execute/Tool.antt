-- ===== src/Execute/Tool.antt =====
-- Execute of swagger_execute.go. The store of confirmations is the state; what the tool tells its
-- metrics, its audit log and the HTTP client is a list of effects in order. The details of an error
-- result, the durations and the decoded body, which no condition reads, are left out.
use mcp_swagger.Prelude.{
  ℕ, Bool, true, false, not, ◌||◌, ◌&&◌, Option, none, some, List, [], ◌∷◌, ◌++◌, Result, ok, err,
  if◌then◌else◌,
}
use mcp_swagger.Text.{Text, codes, text_eq, is_empty, to_lower, trim_space}
use mcp_swagger.Dict.{Dict, put}
use mcp_swagger.Value.{Value}
use mcp_swagger.Policy.{Decision, policy_denied, confirmation_required, is_nil}
use mcp_swagger.Confirmation.{Time, Failure, Check, Record, MemoryStore, consume_approved}
use mcp_swagger.Execute.Env.{
  ExecuteInput, PreparedRequest, ResolvedOperation, DoError, url_blocked, request_too_large,
  rate_limited, timeout, network, Response, SwaggerExecuteOptions, Env,
}
use mcp_swagger.Contract.Validate.{validate_prepared_request}
use mcp_swagger.Input.Parse.{parse_execute_input}
use mcp_swagger.Prepare.Url.{PrepareError, no_base_url, other_error}
use mcp_swagger.Prepare.Request.{PrepareOptions, prepare_endpoint_request}
use mcp_swagger.Execute.BaseUrl.{resolve_base_url}

pub data Effect : Type 0 where
  inc_inflight dec_inflight observe_duration inc_rate_limited : Effect
  inc_error audited_error : Text → Effect
  audited_success : Effect
  inc_total : Text → Text → ℕ → Effect
  sent : PreparedRequest → Effect

-- errorResult with its code, and okResult with the upstream status.
pub data Outcome : Type 0 where
  failed : Text → Outcome
  succeeded : ℕ → Outcome

-- The confirmations after the call (`none` is a nil store), the effects and the result.
abbrev pub Answer : Type 0
Answer = Option MemoryStore × List Effect × Outcome

abbrev pub invalid_request : Text
invalid_request = codes "invalid_request"

abbrev pub upstream_error : Text
upstream_error = codes "upstream_error"

abbrev pub no_base_url_code : Text
no_base_url_code = codes "no_base_url"

-- The closure `fail`.
unfoldable pub fail : Option MemoryStore → Text → Answer
fail s code = (s, inc_error code ∷ audited_error code ∷ [], failed code)

unfoldable pub emit : Effect → Answer → Answer
emit e (s, effects, outcome) = (s, e ∷ effects, outcome)

-- HeaderName of internal/correlation
unfoldable pub header_name : Text → Text
header_name configured =
    if is_empty (trim_space configured) then codes "X-Correlation-Id" else trim_space configured

-- firstHeaderValue
unfoldable pub first_header_value : Dict Text → Text → Text
first_header_value [] name = []
first_header_value ((key, value) ∷ headers) name =
    if text_eq (to_lower (trim_space key)) (to_lower (trim_space name))
    then trim_space value
    else first_header_value headers name

-- IDFromContext of internal/correlation, on the value that the context holds.
unfoldable pub id_of_context : Option Text → Option Text
id_of_context none = none
id_of_context (some id) = if is_empty (trim_space id) then none else some (trim_space id)

abbrev id_or : Text → Option Text → Text
id_or generated none = generated
id_or generated (some id) = id

abbrev pub prepare_options : SwaggerExecuteOptions → Text → PrepareOptions
prepare_options options base = record {
  base_url = base;
  allow_no_base = false;
  max_body_bytes = options.max_request_bytes;
  default_agent = options.user_agent;
  default_accept = codes "application/json";
}

module _ (env : Env) where
  open env use {options}

  unfoldable pub add_correlation : PreparedRequest → PreparedRequest
  unfolding header_name first_header_value id_of_context
  add_correlation p =
      let header = env.canonical_header_key (header_name options.correlation_id_header) in
      let id = id_or env.generate_id (id_of_context env.id_from_context) in
      if is_empty (first_header_value p.headers header)
      then record p { headers = put header id p.headers }
      else p

  abbrev pub is_permitted : Text → Option (Text → Bool) → Bool
  is_permitted url none = true
  is_permitted url (some validate) = validate url

  -- What follows Do: the kinds of its errors, and the response.
  unfoldable pub answer_of : Option MemoryStore → PreparedRequest → Result DoError Response → Answer
  answer_of s p (err url_blocked) = fail s policy_denied
  answer_of s p (err request_too_large) = fail s invalid_request
  answer_of s p (err rate_limited) = emit inc_rate_limited (fail s (codes "rate_limited"))
  answer_of s p (err timeout) = fail s (codes "timeout")
  answer_of s p (err network) = fail s (codes "network_error")
  answer_of s p (ok resp) =
      if resp.readable
      then (
        s,
        inc_total p.operation_id p.method resp.status ∷ audited_success ∷ [],
        succeeded resp.status,
      )
      else fail s upstream_error

  abbrev pub violations : ResolvedOperation → PreparedRequest → List Text
  violations = validate_prepared_request env.sprint env.quote

  -- From the validation of the request to Do.
  unfoldable pub send :
      (PreparedRequest → Result DoError Response)
      → ResolvedOperation
      → PreparedRequest
      → Option MemoryStore
      → Answer
  unfolding answer_of
  send http_do endpoint p s =
      if options.validate_request && not (is_nil (violations endpoint p))
      then fail s invalid_request
      else if not (env.new_request_ok p)
      then fail s invalid_request
      else if not (env.apply_auth p)
      then fail s upstream_error
      else emit (sent p) (answer_of s p (http_do p))

  -- The check that Execute hands to ConsumeApproved.
  abbrev pub check_for : PreparedRequest → Check
  check_for p = record { operation_id = p.operation_id; method = p.method; final_url = p.url }

  -- What became of a consumption: a failure ends the call.
  abbrev pub consumed :
      MemoryStore × Result Failure Record → Option MemoryStore × Result Text (Unit {0})
  consumed (s, ok r) = (some s, ok tt)
  consumed (s, err e) = (some s, err confirmation_required)

  -- The confirmation of a call that needs one; `clean_now` and `now` are the store's clock readings.
  unfoldable pub confirm_call :
      Time
      → Time
      → ExecuteInput
      → PreparedRequest
      → Option MemoryStore
      → Option MemoryStore × Result Text (Unit {0})
  confirm_call clean_now now input p none = (none, err confirmation_required)
  confirm_call clean_now now input p (some s) =
      if is_empty (trim_space input.confirmation_id)
      then (some s, err confirmation_required)
      else consumed
          (consume_approved clean_now now (trim_space input.confirmation_id) (check_for p) s)

  abbrev pub code_of : Decision → Text
  code_of d = if is_empty (trim_space d.code) then policy_denied else trim_space d.code

  -- What Execute makes of the policy's decision.
  unfoldable pub authorise :
      Time
      → Time
      → ExecuteInput
      → PreparedRequest
      → Option Decision
      → Option MemoryStore
      → Option MemoryStore × Result Text (Unit {0})
  unfolding confirm_call
  authorise clean_now now input p none s = (s, err policy_denied)
  authorise clean_now now input p (some d) s =
      if d.allow
      then (s, ok tt)
      else if d.require_confirmation || text_eq (code_of d) confirmation_required
      then confirm_call clean_now now input p s
      else (s, err (code_of d))

  abbrev pub when_authorised :
      (Option MemoryStore → Answer) → Option MemoryStore × Result Text (Unit {0}) → Answer
  when_authorised go (s, ok u) = go s
  when_authorised go (s, err code) = fail s code

  abbrev pub prepared_with :
      ResolvedOperation → Text → ExecuteInput → Result PrepareError PreparedRequest
  prepared_with endpoint base input =
      prepare_endpoint_request env.urls env.json endpoint input (prepare_options options base)

  abbrev pub prepare_failure : PrepareError → Text
  prepare_failure no_base_url = no_base_url_code
  prepare_failure other_error = invalid_request

  module _ (clean_now now : Time) (http_do : PreparedRequest → Result DoError Response) where
    -- From the prepared request on.
    abbrev pub execute_prepared :
        ResolvedOperation
        → ExecuteInput
        → Result PrepareError PreparedRequest
        → Option MemoryStore
        → Answer
    execute_prepared endpoint input (err e) s = fail s (prepare_failure e)
    execute_prepared endpoint input (ok prepared) s =
        let p = add_correlation prepared in
        if is_permitted p.url options.validate_url
        then when_authorised (send http_do endpoint p)
            (authorise clean_now now input p (env.evaluate p.operation_id p.method p.url) s)
        else fail s policy_denied

    abbrev pub execute_at :
        ResolvedOperation → ExecuteInput → Option Text → Option MemoryStore → Answer
    execute_at endpoint input none s = fail s no_base_url_code
    execute_at endpoint input (some base) s =
        let input' = record input { base_url = base } in
        if is_permitted base options.validate_url
        then execute_prepared endpoint input' (prepared_with endpoint base input') s
        else fail s policy_denied

    abbrev pub execute_endpoint :
        ExecuteInput → Option ResolvedOperation → Option MemoryStore → Answer
    execute_endpoint input none s = fail s invalid_request
    execute_endpoint input (some endpoint) s =
        execute_at endpoint input (resolve_base_url env.urls.parse options endpoint) s

    abbrev pub execute_input :
        (Text → Option ResolvedOperation) → Option ExecuteInput → Option MemoryStore → Answer
    execute_input get_endpoint none s = fail s invalid_request
    execute_input get_endpoint (some input) s =
        execute_endpoint input (get_endpoint input.operation_id) s

  abbrev pub execute_with :
      Time
      → Time
      → Option (Text → Option ResolvedOperation)
      → Option (PreparedRequest → Result DoError Response)
      → Value
      → Option MemoryStore
      → Answer
  execute_with clean_now now none http_do input s = fail s invalid_request
  execute_with clean_now now (some get_endpoint) none input s = fail s upstream_error
  execute_with clean_now now (some get_endpoint) (some http_do) input s =
      execute_input clean_now now http_do get_endpoint (parse_execute_input env.numbers input) s

  -- The deferred calls run last, in reverse order.
  abbrev pub with_metrics : Answer → Answer
  with_metrics (s, effects, outcome) =
      (s, inc_inflight ∷ (effects ++ observe_duration ∷ dec_inflight ∷ []), outcome)

  unfoldable pub execute : Time → Time → Value → Option MemoryStore → Answer
  execute clean_now now input s =
      with_metrics (execute_with clean_now now env.get_endpoint_by_operation_id env.http_do input s)
