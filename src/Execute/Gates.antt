-- ===== src/Execute/Gates.antt =====
-- No request reaches the HTTP client past a gate.
use mcp_swagger.Prelude.{
  ◌≡◌, ◌≢◌, refl, ◌⊎◌, inl, inr, Bool, true, false, not, ◌||◌, ◌&&◌, Option, none, some, List, [],
  ◌∷◌, ◌++◌, arith, Result, ok, err, if◌then◌else◌, if_rule, not-false,
}
use mcp_swagger.Text.{Text, text_eq, is_empty, trim_space}
use mcp_swagger.Policy.{Decision, is_nil, confirmation_required}
use mcp_swagger.Confirmation.{Time, Record, Failure, MemoryStore, consume_approved}
use mcp_swagger.Execute.Env.{
  ExecuteInput, PreparedRequest, ResolvedOperation, DoError, url_blocked, request_too_large,
  rate_limited, timeout, network, Response, Env,
}
use mcp_swagger.Contract.Accepts.{accepts, validate_iff_accepts}
use mcp_swagger.Execute.Tool.{
  Effect, sent, inc_inflight, dec_inflight, observe_duration, inc_rate_limited, inc_error,
  audited_error, audited_success, inc_total, Answer, fail, emit, answer_of, violations, send,
  check_for, consumed, confirm_call, authorise, code_of,
}

-- The request is among those handed to the HTTP client.
abbrev pub IsSent : PreparedRequest → List Effect → Type 0
IsSent p [] = ⊥
IsSent p (sent q ∷ es) = (q ≡ p) ⊎ IsSent p es
IsSent p (_ ∷ es) = IsSent p es

pub not-IsSent-fail :
    (p : PreparedRequest) (s : Option MemoryStore) (code : Text) → ¬ IsSent p (fail s code).1
unfolding fail
not-IsSent-fail p s code h = h

pub IsSent-append :
    (p : PreparedRequest) (es : List Effect)
    → IsSent p (es ++ observe_duration ∷ dec_inflight ∷ [])
    → IsSent p es
IsSent-append p [] h = h
IsSent-append p (sent q ∷ es) (inl e) = inl e
IsSent-append p (sent q ∷ es) (inr h) = inr (IsSent-append p es h)
IsSent-append p (inc_inflight ∷ es) h = IsSent-append p es h
IsSent-append p (dec_inflight ∷ es) h = IsSent-append p es h
IsSent-append p (observe_duration ∷ es) h = IsSent-append p es h
IsSent-append p (inc_rate_limited ∷ es) h = IsSent-append p es h
IsSent-append p (inc_error code ∷ es) h = IsSent-append p es h
IsSent-append p (audited_error code ∷ es) h = IsSent-append p es h
IsSent-append p (audited_success ∷ es) h = IsSent-append p es h
IsSent-append p (inc_total op method status ∷ es) h = IsSent-append p es h

unguarded :
    (validate : Bool) (violations : List Text)
    → (validate && not (is_nil violations)) ≡ false
    → (validate ≡ false) ⊎ (violations ≡ [])
unguarded false violations h = inl refl
unguarded true [] h = inr refl
unguarded true (v ∷ vs) h = cc

module _ (env : Env) where
  not-IsSent-answer_of :
      (p q : PreparedRequest) (s : Option MemoryStore) (r : Result DoError Response)
      → ¬ IsSent p (answer_of env s q r).1
  unfolding answer_of fail emit
  not-IsSent-answer_of p q s (err url_blocked) h = h
  not-IsSent-answer_of p q s (err request_too_large) h = h
  not-IsSent-answer_of p q s (err rate_limited) h = h
  not-IsSent-answer_of p q s (err timeout) h = h
  not-IsSent-answer_of p q s (err network) h = h
  not-IsSent-answer_of p q s (ok resp) h = ground arith

  store-answer_of :
      (q : PreparedRequest) (s : Option MemoryStore) (r : Result DoError Response)
      → (answer_of env s q r).0 ≡ s
  unfolding answer_of fail emit
  store-answer_of q s (err url_blocked) = refl
  store-answer_of q s (err request_too_large) = refl
  store-answer_of q s (err rate_limited) = refl
  store-answer_of q s (err timeout) = refl
  store-answer_of q s (err network) = refl
  store-answer_of q s (ok resp) =
      if_rule (λ (a : Answer). a.0 ≡ s) resp.readable _ _ (λ _. refl) λ _. refl

  -- The request has passed what stands between the policy and the HTTP client.
  pub record IsReady (endpoint : ResolvedOperation) (p : PreparedRequest) : Type 0 where
    pub valid : (env.options.validate_request ≡ false) ⊎ (accepts env.sprint endpoint p ≡ true)
    pub built : env.new_request_ok p ≡ true
    pub signed : env.apply_auth p ≡ true

  accepted :
      (endpoint : ResolvedOperation) (p : PreparedRequest)
      → (env.options.validate_request ≡ false) ⊎ (violations env endpoint p ≡ [])
      → (env.options.validate_request ≡ false) ⊎ (accepts env.sprint endpoint p ≡ true)
  accepted endpoint p (inl off) = inl off
  accepted endpoint p (inr none_found) =
      inr ((validate_iff_accepts env.sprint env.quote endpoint p).0 none_found)

  pub send_sent :
      (http_do : PreparedRequest → Result DoError Response) (endpoint : ResolvedOperation)
      (p q : PreparedRequest) (s : Option MemoryStore)
      → IsSent p (send env http_do endpoint q s).1
      → (q ≡ p) × IsReady endpoint q × ((send env http_do endpoint q s).0 ≡ s)
  unfolding send emit fail
  send_sent http_do endpoint p q s =
      let P : Answer → Type 0 = λ a. IsSent p a.1 → (q ≡ p) × IsReady endpoint q × (a.0 ≡ s) in
      let violations = violations env endpoint q in
      let validate = env.options.validate_request in
      if_rule P (validate && not (is_nil violations)) _ _ (λ _ h. absurd h)
        λ fits.
          if_rule P (not (env.new_request_ok q)) _ _ (λ _ h. absurd h)
            λ built.
              if_rule P (not (env.apply_auth q)) _ _ (λ _ h. absurd h)
                λ signed. elim [
                  | inl e ↦ (
                    e,
                    record {
                      valid = accepted endpoint q (unguarded validate violations fits);
                      built = not-false _ built;
                      signed = not-false _ signed;
                    },
                    store-answer_of q s (http_do q),
                  )
                  | inr h ↦ absurd (not-IsSent-answer_of p q s (http_do q) h)
                ]

  -- The confirmation that the input names was consumed for the request, and the store after is the
  -- one that this consumption leaves.
  abbrev pub IsConsumed :
      Time
      → Time
      → ExecuteInput
      → PreparedRequest
      → Option MemoryStore
      → Option MemoryStore
      → Type 0
  IsConsumed clean_now now input p s after =
      (store : MemoryStore) × (r : Record) × (s ≡ some store)
      × ((consume_approved clean_now now (trim_space input.confirmation_id) (check_for env p)
            store).1
          ≡ ok r)
      × (after
          ≡ some
              (consume_approved clean_now now (trim_space input.confirmation_id) (check_for env p)
                store).0)

  -- What lets a request through: the policy, with the store unchanged, or a consumption.
  abbrev pub IsAuthorised :
      Time
      → Time
      → ExecuteInput
      → PreparedRequest
      → Option MemoryStore
      → Option MemoryStore
      → Decision
      → Type 0
  IsAuthorised clean_now now input p s after d =
      ((d.allow ≡ true) × (after ≡ s)) ⊎ IsConsumed clean_now now input p s after

  denied : (code : Text) (r : Result Text (Unit {0})) → r ≡ err code → r ≢ ok tt
  denied code r e h = ground arith

  consumed_ok :
      (x : MemoryStore × Result Failure Record)
      → (consumed env x).1 ≡ ok tt
      → (r : Record) × (x.1 ≡ ok r) × ((consumed env x).0 ≡ some x.0)
  consumed_ok (s, ok r) h = (r, refl, refl)
  consumed_ok (s, err e) h = ground arith

  abbrev AuthorisesOn :
      Time
      → Time
      → ExecuteInput
      → PreparedRequest
      → Option MemoryStore
      → Decision
      → Option MemoryStore × Result Text (Unit {0})
      → Type 0
  AuthorisesOn clean_now now input p s d x =
      x.1 ≡ ok tt → IsAuthorised clean_now now input p s x.0 d

  confirm_ok :
      (clean_now now : Time) (input : ExecuteInput) (p : PreparedRequest) (s : Option MemoryStore)
      (d : Decision)
      → (confirm_call env clean_now now input p s).1 ≡ ok tt
      → IsAuthorised clean_now now input p s (confirm_call env clean_now now input p s).0 d
  unfolding confirm_call
  confirm_ok clean_now now input p none d = λ h. absurd (denied _ _ refl h)
  confirm_ok clean_now now input p (some store) d =
      let id = trim_space input.confirmation_id in
      let used = consume_approved clean_now now id (check_for env p) store in
      if_rule (AuthorisesOn clean_now now input p (some store) d) (is_empty id)
        (some store, err confirmation_required) (consumed env used)
        (λ _ h. absurd (denied _ _ refl h))
        λ _ h. let r = consumed_ok used h in inr (store, r.0, refl, r.1, r.2)

  pub authorise_ok :
      (clean_now now : Time) (input : ExecuteInput) (p : PreparedRequest) (o : Option Decision)
      (s : Option MemoryStore)
      → (authorise env clean_now now input p o s).1 ≡ ok tt
      → (d : Decision) × (o ≡ some d)
        × IsAuthorised clean_now now input p s (authorise env clean_now now input p o s).0 d
  unfolding authorise
  authorise_ok clean_now now input p none s h = absurd (denied _ _ refl h)
  authorise_ok clean_now now input p (some d) s h =
      let rest = confirm_call env clean_now now input p s in
      let asks = d.require_confirmation || text_eq (code_of env d) confirmation_required in
      let failure : Option MemoryStore × Result Text (Unit {0}) = (s, err (code_of env d)) in
      (
        d,
        refl,
        if_rule (AuthorisesOn clean_now now input p s d) d.allow (s, ok tt)
            (if asks then rest else failure) (λ allowed _. inl (allowed, refl))
            (λ _.
              if_rule (AuthorisesOn clean_now now input p s d) asks rest failure
                (λ _ h. confirm_ok clean_now now input p s d h) λ _ h. absurd (denied _ _ refl h))
            h,
      )
