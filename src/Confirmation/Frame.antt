-- ===== src/Confirmation/Frame.antt =====
-- What a call leaves alone: the entries under other identifiers that have not run out.
use mcp_swagger.Prelude.{◌≡◌, ◌≢◌, true, false, some, [], arith, Result, ok, err}
use mcp_swagger.Text.{Text, trim_space}
use mcp_swagger.Text.Laws.{text_eq_iff}
use mcp_swagger.Dict.{get, put, remove, get-remove, get-put}
use mcp_swagger.Confirmation.{
  Time, Failure, Request, Record, MemoryStore, Call, requests, confirms, consumes, is_expired,
  is_stale, fresh_record, cleanup_locked, insert_fresh, set_approval, mark_consumed, request,
  confirm, consume_approved, step,
}
use mcp_swagger.Confirmation.Invariant.{
  IsConsistent, cleanup_locked-get, cleanup_locked-IsConsistent, guarded_rule, mark_consumed_rule,
}

-- The call names another identifier than `j`.
abbrev pub Elsewhere : Text → Call → Type 0
Elsewhere j (requests clean_now now new_id req) = new_id ≢ ok j
Elsewhere j (confirms clean_now now id approve) = trim_space id ≢ j
Elsewhere j (consumes clean_now now id check) = trim_space id ≢ j

-- The first reading of the clock in the call.
abbrev pub cleaned_at : Call → Time
cleaned_at (requests clean_now now new_id req) = clean_now
cleaned_at (confirms clean_now now id approve) = clean_now
cleaned_at (consumes clean_now now id check) = clean_now

module _ (j : Text) (r : Record) where
  abbrev Holds : MemoryStore → Type 0
  Holds s = get j s.items ≡ some r

  Holds-cleanup :
      (skip : Text) (clean_now : Time) (s : MemoryStore)
      → IsConsistent s
      → is_expired clean_now r.expires_at ≡ false
      → Holds s
      → Holds (cleanup_locked skip clean_now s)
  unfolding is_stale
  Holds-cleanup skip clean_now s v valid h = ground (arith, cleanup_locked-get skip clean_now s j v)

  Holds-put :
      (q : Record) (s : MemoryStore)
      → q.id ≢ j
      → Holds s
      → Holds (record s { items = put q.id q s.items })
  Holds-put q s other h = ground (arith, get-put q.id j q s.items, text_eq_iff q.id j)

  Holds-remove :
      (k : Text) (s : MemoryStore) → k ≢ j → Holds s → Holds (record s { items = remove k s.items })
  Holds-remove k s other h = ground (arith, get-remove k j s.items, text_eq_iff k j)

  Holds-insert_fresh :
      (now : Time) (req : Request) (s : MemoryStore) (new_id : Result Failure Text)
      → new_id ≢ ok j
      → Holds s
      → Holds (insert_fresh now req s new_id).0
  unfolding insert_fresh
  Holds-insert_fresh now req s (err e) other h = h
  Holds-insert_fresh now req s (ok id) other h =
      Holds-put (fresh_record id now s.ttl req) s (unfold fresh_record in λ e. other (cc e)) h

  -- In a consistent store a call under another identifier leaves an entry that has not run out at
  -- its clean-up as it was, whether the call succeeds or fails.
  pub others_keep :
      (c : Call) (s : MemoryStore)
      → IsConsistent s
      → Elsewhere j c
      → is_expired (cleaned_at c) r.expires_at ≡ false
      → get j s.items ≡ some r
      → get j (step c s).0.items ≡ some r
  unfolding step request confirm consume_approved
  others_keep (requests clean_now now new_id req) s v other valid h =
      Holds-insert_fresh now req (cleanup_locked [] clean_now s) new_id other
        (Holds-cleanup [] clean_now s v valid h)
  others_keep (confirms clean_now now id approve) s v other valid h =
      let key = trim_space id in
      let s' = cleanup_locked key clean_now s in
      let v' = cleanup_locked-IsConsistent key clean_now s v in
      let h' = Holds-cleanup key clean_now s v valid h in
      let away : (q : Record) → get key s'.items ≡ some q → q.id ≢ j =
        λ q e same. other (cc (v'.filed key q e)) in
      guarded_rule (λ out. Holds out.0) now s' (set_approval approve s') (get key s'.items) h'
        (λ q e. Holds-remove q.id s' (away q e) h') h'
        λ q e _ _.
          unfold set_approval in Holds-put (record q { approved = approve }) s' (away q e) h'
  others_keep (consumes clean_now now id check) s v other valid h =
      let key = trim_space id in
      let s' = cleanup_locked key clean_now s in
      let v' = cleanup_locked-IsConsistent key clean_now s v in
      let h' = Holds-cleanup key clean_now s v valid h in
      let away : (q : Record) → get key s'.items ≡ some q → q.id ≢ j =
        λ q e same. other (cc (v'.filed key q e)) in
      guarded_rule (λ out. Holds out.0) now s' (mark_consumed check s') (get key s'.items) h'
        (λ q e. Holds-remove q.id s' (away q e) h') h'
        λ q e _ _.
          mark_consumed_rule (λ out. Holds out.0) check s' q h' h'
            λ _ _. Holds-put (record q { consumed = true }) s' (away q e) h'
