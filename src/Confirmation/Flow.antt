-- ===== src/Confirmation/Flow.antt =====
-- The way of a confirmation from the request to the consumption.
use mcp_swagger.Prelude.{ℕ, ◌+◌, ◌<◌, ◌≡◌, refl, true, false, some, [], arith, ok}
use mcp_swagger.Text.{Text, to_upper, trim_space}
use mcp_swagger.Text.Laws.{text_eq_refl, trim_space_idem}
use mcp_swagger.Dict.{get, get-put}
use mcp_swagger.Confirmation.{
  Time, Request, Check, MemoryStore, matches, check_matches, is_expired, fresh_record,
  cleanup_locked, request, confirm, consume_approved, step, insert_fresh, requests, confirms,
}
use mcp_swagger.Confirmation.Invariant.{IsConsistent, step-IsConsistent}
use mcp_swagger.Confirmation.Lifecycle.{IsUsable, consume_approved_ok, get-confirm}

get-request :
    (clean_now now : Time) (id : Text) (req : Request) (s : MemoryStore)
    → get id (request clean_now now (ok id) req s).0.items ≡ some (fresh_record id now s.ttl req)
unfolding request insert_fresh cleanup_locked
get-request clean_now now id req s = ground (
  arith,
  get-put id id (fresh_record id now s.ttl req) (cleanup_locked [] clean_now s).items,
  text_eq_refl id,
)

matches_trimmed : (t : Text) → matches (trim_space t) t ≡ true
unfolding matches
matches_trimmed t = ground (arith, trim_space_idem t, text_eq_refl (trim_space t))

matches_self : (t : Text) → matches t t ≡ true
unfolding matches
matches_self t = ground (arith, text_eq_refl (trim_space t))

-- The check of an execution with the data of the request.
abbrev pub check_of : Request → Check
check_of req = record {
  operation_id = req.operation_id;
  method = req.method;
  final_url = req.final_url;
}

check_matches-fresh_record :
    (id : Text) (now : Time) (ttl : ℕ) (req : Request)
    → check_matches (record (fresh_record id now ttl req) { approved = true }) (check_of req) ≡ true
unfolding check_matches fresh_record
check_matches-fresh_record id now ttl req = ground (
  arith,
  matches_trimmed req.operation_id,
  matches_self (to_upper (trim_space req.method)),
  matches_trimmed req.final_url,
)

not_expired : (now expires_at : Time) → now < expires_at → is_expired now expires_at ≡ false
unfolding is_expired
not_expired now expires_at h = ground arith

-- In a consistent store a request with a trimmed identifier, its approval and an execution with
-- the request's own operation, method and URL, the last two before the request runs out, succeed.
pub approved_flow :
    (t₀ t₁ t₂ t₃ t₄ t₅ : Time) (id : Text) (req : Request) (s : MemoryStore)
    → IsConsistent s
    → trim_space id ≡ id
    → t₃ < t₁ + s.ttl
    → t₅ < t₁ + s.ttl
    → (consume_approved t₄ t₅ id
        (check_of req)
        (confirm t₂ t₃ id true (request t₀ t₁ (ok id) req s).0).0).1
      ≡ ok (record (fresh_record id t₁ s.ttl req) { approved = true; consumed = true })
unfolding fresh_record
approved_flow t₀ t₁ t₂ t₃ t₄ t₅ id req s v trimmed early late =
    let s₁ = (request t₀ t₁ (ok id) req s).0 in
    let v₁ : IsConsistent s₁ = unfold step in step-IsConsistent (requests t₀ t₁ (ok id) req) s v in
    let s₂ = (confirm t₂ t₃ id true s₁).0 in
    let v₂ : IsConsistent s₂ = unfold step in step-IsConsistent (confirms t₂ t₃ id true) s₁ v₁ in
    let r = fresh_record id t₁ s.ttl req in
    let there : get (trim_space id) s₁.items ≡ some r = rw trimmed (get-request t₀ t₁ id req s) in
    let valid = not_expired t₃ (t₁ + s.ttl) early in
    let there₂ = get-confirm t₂ t₃ id s₁ r true v₁ there valid refl in
    let usable : IsUsable t₅ (check_of req) (record r { approved = true }) = record {
      valid = not_expired t₅ (t₁ + s.ttl) late;
      unused = refl;
      granted = refl;
      fits = check_matches-fresh_record id t₁ s.ttl req;
    } in
    (consume_approved_ok t₄ t₅ id (check_of req) s₂ _ v₂).1
      (record r { approved = true }, there₂, usable, refl)
