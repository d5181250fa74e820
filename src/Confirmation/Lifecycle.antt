-- ===== src/Confirmation/Lifecycle.antt =====
-- What a client of the store sees: when a confirmation can be consumed, and when it cannot.
use mcp_swagger.Prelude.{◌≡◌, refl, ◌↔◌, Bool, true, false, none, some, arith, ok, err}
use mcp_swagger.Text.{Text, trim_space}
use mcp_swagger.Text.Laws.{text_eq_refl}
use mcp_swagger.Dict.{get, put, get-remove, get-put}
use mcp_swagger.Value.{clone_any_lem}
use mcp_swagger.Confirmation.{
  Time, expired, not_approved, already_consumed, Check, Record, MemoryStore, check_matches,
  is_expired, is_stale, clone_record, cleanup_locked, guarded, set_approval, mark_consumed, confirm,
  consume_approved, step, confirms, consumes,
}
use mcp_swagger.Confirmation.Invariant.{
  IsConsistent, step-IsConsistent, cleanup_locked-get, guarded_rule, mark_consumed_rule,
}

-- The clean-up that skips the key of the call leaves the entry under that key.
cleanup_skips :
    (key : Text) (now : Time) (s : MemoryStore)
    → IsConsistent s
    → get key (cleanup_locked key now s).items ≡ get key s.items
unfolding is_stale
cleanup_skips key now s v = ground (arith, cleanup_locked-get key now s key v, text_eq_refl key)

clone_record_lem : (r : Record) → clone_record r ≡ r
unfolding clone_record
clone_record_lem r = ground (arith, clone_any_lem r.prepared_request_summary)

-- The conditions under which an entry authorises an execution.
pub record IsUsable (now : Time) (check : Check) (r : Record) : Type 0 where
  pub valid : is_expired now r.expires_at ≡ false
  pub unused : r.consumed ≡ false
  pub granted : r.approved ≡ true
  pub fits : check_matches r check ≡ true

-- `r'` is a usable entry of the store, marked consumed.
abbrev pub IsTakenFrom : Time → Text → Check → MemoryStore → Record → Type 0
IsTakenFrom now key check s r' =
    (r : Record) × (get key s.items ≡ some r)
    × IsUsable now check r
    × (r' ≡ record r { consumed = true })

consume_only_if :
    (clean_now now : Time) (id : Text) (check : Check) (s : MemoryStore) (r' : Record)
    → IsConsistent s
    → (consume_approved clean_now now id check s).1 ≡ ok r'
    → IsTakenFrom now (trim_space id) check s r'
unfolding consume_approved
consume_only_if clean_now now id check s r' v =
    let key = trim_space id in
    let s' = cleanup_locked key clean_now s in
    guarded_rule (λ out. out.1 ≡ ok r' → IsTakenFrom now key check s r') now s'
      (mark_consumed check s') (get key s'.items) (λ h. cc) (λ r _ h. cc) (λ h. cc)
      λ r e valid unused.
        mark_consumed_rule (λ out. out.1 ≡ ok r' → IsTakenFrom now key check s r') check s' r
          (λ h. cc) (λ h. cc)
          λ granted fits h. (
            r,
            cc (cleanup_skips key clean_now s v),
            record { valid = valid; unused = unused; granted = granted; fits = fits },
            cc (clone_record_lem (record r { consumed = true })),
          )

consume_if :
    (clean_now now : Time) (id : Text) (check : Check) (s : MemoryStore) (r : Record)
    → IsConsistent s
    → get (trim_space id) s.items ≡ some r
    → IsUsable now check r
    → let s' = cleanup_locked (trim_space id) clean_now s in
      let r' = record r { consumed = true } in
      consume_approved clean_now now id check s
      ≡ (record s' { items = put r.id r' s'.items }, ok r')
unfolding consume_approved guarded mark_consumed
consume_if clean_now now id check s r v e u = ground (
  arith,
  cleanup_skips (trim_space id) clean_now s v,
  clone_record_lem (record r { consumed = true }),
)

-- In a consistent store a consumption succeeds exactly when the store holds an entry under the
-- trimmed identifier that is not expired, not consumed, approved, and that matches the check; it
-- returns that entry, marked consumed.
pub consume_approved_ok :
    (clean_now now : Time) (id : Text) (check : Check) (s : MemoryStore) (r' : Record)
    → IsConsistent s
    → ((consume_approved clean_now now id check s).1 ≡ ok r')
      ↔ IsTakenFrom now (trim_space id) check s r'
consume_approved_ok clean_now now id check s r' v = (
  consume_only_if clean_now now id check s r' v,
  λ (r, e, u, same). cc (consume_if clean_now now id check s r v e u),
)

module _ (clean_now now : Time) (id : Text) (s : MemoryStore) (r : Record) where
  get-consume_approved :
      (check : Check)
      → IsConsistent s
      → get (trim_space id) s.items ≡ some r
      → IsUsable now check r
      → get (trim_space id) (consume_approved clean_now now id check s).0.items
        ≡ some (record r { consumed = true })
  get-consume_approved check v e u = ground (
    arith,
    consume_if clean_now now id check s r v e u,
    get-put r.id (trim_space id) (record r { consumed = true })
        (cleanup_locked (trim_space id) clean_now s).items,
    v.filed (trim_space id) r e,
    text_eq_refl r.id,
  )

  consume_already_consumed :
      (check : Check)
      → IsConsistent s
      → get (trim_space id) s.items ≡ some r
      → is_expired now r.expires_at ≡ false
      → r.consumed ≡ true
      → (consume_approved clean_now now id check s).1 ≡ err already_consumed
  unfolding consume_approved guarded
  consume_already_consumed check v e valid used =
      ground (arith, cleanup_skips (trim_space id) clean_now s v)

  consume_not_approved :
      (check : Check)
      → IsConsistent s
      → get (trim_space id) s.items ≡ some r
      → is_expired now r.expires_at ≡ false
      → r.consumed ≡ false
      → r.approved ≡ false
      → (consume_approved clean_now now id check s).1 ≡ err not_approved
  unfolding consume_approved guarded mark_consumed
  consume_not_approved check v e valid fresh pending =
      ground (arith, cleanup_skips (trim_space id) clean_now s v)

  -- Confirming a valid, unconsumed entry records the decision in it.
  pub get-confirm :
      (approve : Bool)
      → IsConsistent s
      → get (trim_space id) s.items ≡ some r
      → is_expired now r.expires_at ≡ false
      → r.consumed ≡ false
      → get (trim_space id) (confirm clean_now now id approve s).0.items
        ≡ some (record r { approved = approve })
  unfolding confirm guarded set_approval
  get-confirm approve v e valid fresh = ground (
    arith,
    cleanup_skips (trim_space id) clean_now s v,
    get-put r.id (trim_space id) (record r { approved = approve })
        (cleanup_locked (trim_space id) clean_now s).items,
    v.filed (trim_space id) r e,
    text_eq_refl r.id,
  )

-- In a consistent store, after a successful consumption the next attempt to consume the entry,
-- while it is valid, is refused as already consumed, whatever it is checked against.
pub consume_twice :
    (clean_now now later_clean later : Time) (id : Text) (check other : Check) (s : MemoryStore)
    (r : Record)
    → IsConsistent s
    → get (trim_space id) s.items ≡ some r
    → IsUsable now check r
    → is_expired later r.expires_at ≡ false
    → (consume_approved later_clean later id other (consume_approved clean_now now id check s).0).1
      ≡ err already_consumed
consume_twice clean_now now later_clean later id check other s r v e u still =
    consume_already_consumed later_clean later id (consume_approved clean_now now id check s).0
      (record r { consumed = true }) other
      (unfold step in step-IsConsistent (consumes clean_now now id check) s v)
      (get-consume_approved clean_now now id s r check v e u) still refl

-- In a consistent store a valid, unconsumed entry that is rejected, even after an approval, cannot
-- be consumed while it is valid.
pub reject_revokes :
    (clean_now now later_clean later : Time) (id : Text) (check : Check) (s : MemoryStore)
    (r : Record)
    → IsConsistent s
    → get (trim_space id) s.items ≡ some r
    → is_expired now r.expires_at ≡ false
    → is_expired later r.expires_at ≡ false
    → r.consumed ≡ false
    → (consume_approved later_clean later id check (confirm clean_now now id false s).0).1
      ≡ err not_approved
reject_revokes clean_now now later_clean later id check s r v e valid still fresh =
    consume_not_approved later_clean later id (confirm clean_now now id false s).0
      (record r { approved = false }) check
      (unfold step in step-IsConsistent (confirms clean_now now id false) s v)
      (get-confirm clean_now now id s r false v e valid fresh) still fresh refl

module _ (clean_now now : Time) (id : Text) (s : MemoryStore) (r : Record) where
  -- In a consistent store an entry that has run out is refused as expired by Confirm and by
  -- ConsumeApproved alike, and is then no longer in the store.
  pub expired_is_removed :
      (approve : Bool) (check : Check)
      → IsConsistent s
      → get (trim_space id) s.items ≡ some r
      → is_expired now r.expires_at ≡ true
      → let c = confirm clean_now now id approve s in
        let u = consume_approved clean_now now id check s in
        (c.1 ≡ err expired)
        × (u.1 ≡ err expired)
        × (get (trim_space id) c.0.items ≡ none)
        × (get (trim_space id) u.0.items ≡ none)
  unfolding confirm consume_approved guarded
  expired_is_removed approve check v e over =
      let kept = cleanup_skips (trim_space id) clean_now s v in
      let gone =
        get-remove r.id (trim_space id) (cleanup_locked (trim_space id) clean_now s).items in
      let filed = v.filed (trim_space id) r e in
      let same = text_eq_refl r.id in
      (
        ground (arith, kept),
        ground (arith, kept),
        ground (arith, kept, gone, filed, same),
        ground (arith, kept, gone, filed, same),
      )
