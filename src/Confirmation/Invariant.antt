-- ===== src/Confirmation/Invariant.antt =====
-- What every call keeps: one entry per identifier, filed under its own, and no consumed entry that
-- nobody approved.
use mcp_swagger.Prelude.{
  ◌≡◌, refl, Bool, true, false, not, if_rule, not-false, Option, none, some, List, [], ◌∷◌, arith,
  Result, ok, err, ℤ,
}
use mcp_swagger.Text.{Text, trim_space}
use mcp_swagger.Text.Laws.{text_eq_iff}
use mcp_swagger.Dict.{
  get, put, remove, unless, HasUniqueKeys, get-remove, get-put, get-remove_if, put-HasUniqueKeys,
  remove-HasUniqueKeys, remove_if-HasUniqueKeys,
}
use mcp_swagger.Confirmation.{
  Time, Failure, not_found, expired, not_approved, mismatch, clone_record, already_consumed,
  Request, Check, Record, MemoryStore, Call, is_expired, fresh_record, check_matches, requests,
  confirms, consumes, new_memory_store, cleanup_locked, is_stale, insert_fresh, guarded,
  set_approval, mark_consumed, request, confirm, consume_approved, step, run,
}

pub record IsConsistent (s : MemoryStore) : Type 0 where
  pub unique : HasUniqueKeys s.items
  pub filed : (j : Text) (r : Record) → get j s.items ≡ some r → r.id ≡ j
  pub sound :
      (j : Text) (r : Record) → get j s.items ≡ some r → r.consumed ≡ true → r.approved ≡ true

pub new_memory_store-IsConsistent : (ttl : ℤ) → IsConsistent (new_memory_store ttl)
unfolding new_memory_store get
new_memory_store-IsConsistent ttl = record { unique = tt; filed = λ j r e. cc; sound = λ j r e. cc }

-- What is left by the clean-up was there before.
pub cleanup_locked-get :
    (skip : Text) (now : Time) (s : MemoryStore) (j : Text)
    → IsConsistent s
    → get j (cleanup_locked skip now s).items ≡ unless (is_stale skip now j) (get j s.items)
unfolding cleanup_locked
cleanup_locked-get skip now s j v = get-remove_if (is_stale skip now) j s.items v.unique

pub cleanup_locked-IsConsistent :
    (skip : Text) (now : Time) (s : MemoryStore)
    → IsConsistent s
    → IsConsistent (cleanup_locked skip now s)
cleanup_locked-IsConsistent skip now s v = record {
  unique = unfold cleanup_locked in remove_if-HasUniqueKeys (is_stale skip now) s.items v.unique;
  filed = λ j r e. ground (arith, cleanup_locked-get skip now s j v, v.filed j r);
  sound = λ j r e. ground (arith, cleanup_locked-get skip now s j v, v.sound j r);
}

put-IsConsistent :
    (s : MemoryStore) (r : Record)
    → IsConsistent s
    → (r.consumed ≡ true → r.approved ≡ true)
    → IsConsistent (record s { items = put r.id r s.items })
put-IsConsistent s r v h = record {
  unique = put-HasUniqueKeys r.id r s.items v.unique;
  filed = λ j q e. ground (arith, get-put r.id j r s.items, text_eq_iff r.id j, v.filed j q);
  sound = λ j q e. ground (arith, get-put r.id j r s.items, text_eq_iff r.id j, v.sound j q);
}

remove-IsConsistent :
    (s : MemoryStore) (k : Text)
    → IsConsistent s
    → IsConsistent (record s { items = remove k s.items })
remove-IsConsistent s k v = record {
  unique = remove-HasUniqueKeys k s.items v.unique;
  filed = λ j q e. ground (arith, get-remove k j s.items, v.filed j q);
  sound = λ j q e. ground (arith, get-remove k j s.items, v.sound j q);
}

-- A rule for the methods that look an entry up: what holds after each way out.
pub guarded_rule {ℓ} :
    (P : MemoryStore × Result Failure Record → Type ℓ) (now : Time) (s : MemoryStore)
    (use_item : Record → MemoryStore × Result Failure Record) (o : Option Record)
    → P (s, err not_found)
    → ((r : Record) → o ≡ some r → P (record s { items = remove r.id s.items }, err expired))
    → P (s, err already_consumed)
    → ((r : Record)
        → o ≡ some r
        → is_expired now r.expires_at ≡ false
        → r.consumed ≡ false
        → P (use_item r))
    → P (guarded now s use_item o)
unfolding guarded
guarded_rule P now s use_item none missing late used rest = missing
guarded_rule P now s use_item (some r) missing late used rest =
    if_rule P (is_expired now r.expires_at) _ _ (λ over. late r refl)
      λ valid. if_rule P r.consumed _ _ (λ gone. used) λ unused. rest r refl valid unused

-- The same for what ConsumeApproved does after the guards.
pub mark_consumed_rule {ℓ} :
    (P : MemoryStore × Result Failure Record → Type ℓ) (check : Check) (s : MemoryStore)
    (r : Record)
    → P (s, err not_approved)
    → P (s, err mismatch)
    → (r.approved ≡ true
        → check_matches r check ≡ true
        → let r' = record r { consumed = true } in
          P (record s { items = put r.id r' s.items }, ok (clone_record r')))
    → P (mark_consumed check s r)
unfolding mark_consumed
mark_consumed_rule P check s r early differs use_it =
    if_rule P (not r.approved) _ _ (λ _. early)
      λ granted.
        if_rule P (not (check_matches r check)) _ _ (λ _. differs)
          λ fits. use_it (not-false r.approved granted) (not-false (check_matches r check) fits)

insert_fresh-IsConsistent :
    (now : Time) (req : Request) (s : MemoryStore) (new_id : Result Failure Text)
    → IsConsistent s
    → IsConsistent (insert_fresh now req s new_id).0
unfolding insert_fresh
insert_fresh-IsConsistent now req s (err e) v = v
insert_fresh-IsConsistent now req s (ok id) v =
    put-IsConsistent s (fresh_record id now s.ttl req) v (λ h. cc)

confirm-IsConsistent :
    (clean_now now : Time) (id : Text) (approve : Bool) (s : MemoryStore)
    → IsConsistent s
    → IsConsistent (confirm clean_now now id approve s).0
unfolding confirm
confirm-IsConsistent clean_now now id approve s v =
    let s' = cleanup_locked (trim_space id) clean_now s in
    let v' = cleanup_locked-IsConsistent (trim_space id) clean_now s v in
    guarded_rule (λ out. IsConsistent out.0) now s' (set_approval approve s') _ v'
      (λ r _. remove-IsConsistent s' r.id v') v'
      (λ r _ _ unused. put-IsConsistent s' (record r { approved = approve }) v' (λ h. cc))

mark_consumed-IsConsistent :
    (check : Check) (s : MemoryStore) (r : Record)
    → IsConsistent s
    → IsConsistent (mark_consumed check s r).0
mark_consumed-IsConsistent check s r v =
    mark_consumed_rule (λ out. IsConsistent out.0) check s r v v
      (λ granted _. put-IsConsistent s (record r { consumed = true }) v (λ _. granted))

consume_approved-IsConsistent :
    (clean_now now : Time) (id : Text) (check : Check) (s : MemoryStore)
    → IsConsistent s
    → IsConsistent (consume_approved clean_now now id check s).0
unfolding consume_approved
consume_approved-IsConsistent clean_now now id check s v =
    let s' = cleanup_locked (trim_space id) clean_now s in
    let v' = cleanup_locked-IsConsistent (trim_space id) clean_now s v in
    guarded_rule (λ out. IsConsistent out.0) now s' (mark_consumed check s') _ v'
      (λ r _. remove-IsConsistent s' r.id v') v'
      (λ r _ _ _. mark_consumed-IsConsistent check s' r v')

-- Every call, whether it succeeds or fails, keeps the store consistent: identifiers stand once,
-- each entry is filed under its own identifier, and a consumed entry has been approved.
pub step-IsConsistent : (c : Call) (s : MemoryStore) → IsConsistent s → IsConsistent (step c s).0
unfolding step request
step-IsConsistent (requests clean_now now new_id req) s v =
    insert_fresh-IsConsistent now req _ new_id (cleanup_locked-IsConsistent [] clean_now s v)
step-IsConsistent (confirms clean_now now id approve) s v =
    confirm-IsConsistent clean_now now id approve s v
step-IsConsistent (consumes clean_now now id check) s v =
    consume_approved-IsConsistent clean_now now id check s v

-- From a new store, any sequence of calls leads to a consistent store.
pub run-IsConsistent : (cs : List Call) (s : MemoryStore) → IsConsistent s → IsConsistent (run cs s)
unfolding run
run-IsConsistent [] s v = v
run-IsConsistent (c ∷ cs) s v = run-IsConsistent cs (step c s).0 (step-IsConsistent c s v)
