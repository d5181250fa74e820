-- ===== src/Confirmation/SingleUse.antt =====
-- How often an identifier can be consumed: a count over any history of calls.
use mcp_swagger.Prelude.{
  ℕ, ◌+◌, ◌≤◌, ◌≡◌, refl, Bool, true, false, Option, none, some, List, [], ◌∷◌, arith, Result, ok,
  err, ℤ, if◌then◌else◌,
}
use mcp_swagger.Text.{Text, text_eq, trim_space}
use mcp_swagger.Text.Laws.{text_eq_iff}
use mcp_swagger.Dict.{get, remove, get-remove, get-put}
use mcp_swagger.Confirmation.{
  Time, Failure, Request, Check, Record, MemoryStore, Call, requests, confirms, consumes,
  new_memory_store, fresh_record, clone_record, cleanup_locked, insert_fresh, set_approval,
  mark_consumed, request, confirm, consume_approved, step,
}
use mcp_swagger.Confirmation.Invariant.{
  IsConsistent, cleanup_locked-get, cleanup_locked-IsConsistent, guarded_rule, mark_consumed_rule,
  step-IsConsistent, new_memory_store-IsConsistent,
}

abbrev open_entry : Option Record → ℕ
open_entry none = 0
open_entry (some r) = if r.consumed then 0 else 1

-- 1 if the store holds an entry under `k` that is not consumed.
abbrev pub unused : Text → MemoryStore → ℕ
unused k s = open_entry (get k s.items)

-- 1 if the call consumed `k`.
abbrev pub consumption : Text → Call → Result Failure Record → ℕ
consumption k (consumes clean_now now id check) (ok r) = if text_eq (trim_space id) k then 1 else 0
consumption k _ _ = 0

abbrev same_id : Text → Result Failure Text → ℕ
same_id k (ok id) = if text_eq id k then 1 else 0
same_id k (err e) = 0

-- 1 if the call is a request for which newID() returned `k`.
abbrev pub issue : Text → Call → ℕ
issue k (requests clean_now now new_id req) = same_id k new_id
issue k _ = 0

unfoldable pub consumptions : Text → List Call → MemoryStore → ℕ
consumptions k [] s = 0
consumptions k (c ∷ cs) s = consumption k c (step c s).1 + consumptions k cs (step c s).0

unfoldable pub issued : Text → List Call → ℕ
issued k [] = 0
issued k (c ∷ cs) = issue k c + issued k cs

unused-cleanup_locked :
    (k skip : Text) (now : Time) (s : MemoryStore)
    → IsConsistent s
    → unused k (cleanup_locked skip now s) ≤ unused k s
unused-cleanup_locked k skip now s v = ground (arith, cleanup_locked-get skip now s k v)

unused-remove : (k j : Text) (s : MemoryStore) → open_entry (get k (remove j s.items)) ≤ unused k s
unused-remove k j s = ground (arith, get-remove j k s.items)

insert_fresh_budget :
    (k : Text) (clean_now now : Time) (req : Request) (s : MemoryStore)
    (new_id : Result Failure Text)
    → unused k (insert_fresh now req s new_id).0 ≤ unused k s + same_id k new_id
unfolding insert_fresh
insert_fresh_budget k clean_now now req s (err e) = omega arith
insert_fresh_budget k clean_now now req s (ok id) =
    ground (arith, get-put id k (fresh_record id now s.ttl req) s.items)

set_approval_budget :
    (k key : Text) (approve : Bool) (s : MemoryStore) (r : Record)
    → IsConsistent s
    → get key s.items ≡ some r
    → unused k (set_approval approve s r).0 ≤ unused k s
unfolding set_approval
set_approval_budget k key approve s r v e = ground (
  arith,
  get-put r.id k (record r { approved = approve }) s.items,
  v.filed key r e,
  text_eq_iff r.id k,
)

-- Consuming the entry under `key` takes one from what is left there.
mark_consumed_budget :
    (k key : Text) (check : Check) (s : MemoryStore) (r : Record) (c : Call)
    → ((q : Record) → consumption k c (ok q) ≤ (if text_eq key k then 1 else 0))
    → ((e : Failure) → consumption k c (err e) ≡ 0)
    → IsConsistent s
    → get key s.items ≡ some r
    → r.consumed ≡ false
    → consumption k c (mark_consumed check s r).1 + unused k (mark_consumed check s r).0
      ≤ unused k s
mark_consumed_budget k key check s r c good bad v e fresh =
    mark_consumed_rule (λ out. consumption k c out.1 + unused k out.0 ≤ unused k s) check s r
      (omega (arith, bad Failure.not_approved)) (omega (arith, bad Failure.mismatch))
      λ _ _. ground (
        arith,
        good (clone_record (record r { consumed = true })),
        get-put r.id k (record r { consumed = true }) s.items,
        v.filed key r e,
        text_eq_iff key k,
      )

consume_budget :
    (k : Text) (clean_now now : Time) (id : Text) (check : Check) (s : MemoryStore)
    → IsConsistent s
    → let out = consume_approved clean_now now id check s in
      consumption k (consumes clean_now now id check) out.1 + unused k out.0 ≤ unused k s
unfolding consume_approved
consume_budget k clean_now now id check s v =
    let key = trim_space id in
    let c = consumes clean_now now id check in
    let s' = cleanup_locked key clean_now s in
    let v' = cleanup_locked-IsConsistent key clean_now s v in
    let less = unused-cleanup_locked k key clean_now s v in
    guarded_rule (λ out. consumption k c out.1 + unused k out.0 ≤ unused k s) now s'
      (mark_consumed check s') (get key s'.items) (omega (arith, less))
      (λ r _. omega (arith, less, unused-remove k r.id s')) (omega (arith, less))
      λ r e _ fresh. omega (
        arith,
        less,
        mark_consumed_budget k key check s' r c (λ q. omega arith) (λ e. refl) v' e fresh,
      )

confirm_budget :
    (k : Text) (clean_now now : Time) (id : Text) (approve : Bool) (s : MemoryStore)
    → IsConsistent s
    → unused k (confirm clean_now now id approve s).0 ≤ unused k s
unfolding confirm
confirm_budget k clean_now now id approve s v =
    let key = trim_space id in
    let s' = cleanup_locked key clean_now s in
    let v' = cleanup_locked-IsConsistent key clean_now s v in
    let less = unused-cleanup_locked k key clean_now s v in
    guarded_rule (λ out. unused k out.0 ≤ unused k s) now s' (set_approval approve s')
      (get key s'.items) less (λ r _. omega (arith, less, unused-remove k r.id s')) less
      λ r e _ _. omega (arith, less, set_approval_budget k key approve s' r v' e)

step_budget :
    (k : Text) (c : Call) (s : MemoryStore)
    → IsConsistent s
    → consumption k c (step c s).1 + unused k (step c s).0 ≤ unused k s + issue k c
unfolding step request
step_budget k (requests clean_now now new_id req) s v = omega (
  arith,
  unused-cleanup_locked k [] clean_now s v,
  insert_fresh_budget k clean_now now req (cleanup_locked [] clean_now s) new_id,
)
step_budget k (confirms clean_now now id approve) s v =
    omega (arith, confirm_budget k clean_now now id approve s v)
step_budget k (consumes clean_now now id check) s v =
    omega (arith, consume_budget k clean_now now id check s v)

-- Over any calls from a consistent store, an identifier is consumed at most once for each time that
-- it is issued, and once more if the store already holds it unconsumed.
pub consumptions-le :
    (k : Text) (cs : List Call) (s : MemoryStore)
    → IsConsistent s
    → consumptions k cs s ≤ unused k s + issued k cs
unfolding consumptions issued
consumptions-le k [] s v = omega arith
consumptions-le k (c ∷ cs) s v =
    omega (arith, step_budget k c s v, consumptions-le k cs (step c s).0 (step-IsConsistent c s v))

unused_new : (k : Text) (ttl : ℤ) → unused k (new_memory_store ttl) ≡ 0
unfolding new_memory_store get
unused_new k ttl = refl

-- From a new store, whatever the goroutines do and in whatever order, a confirmation authorises at
-- most as many executions as there were requests that issued its identifier.
pub single_use :
    (k : Text) (ttl : ℤ) (cs : List Call) → consumptions k cs (new_memory_store ttl) ≤ issued k cs
single_use k ttl cs = omega (
  arith,
  consumptions-le k cs (new_memory_store ttl) (new_memory_store-IsConsistent ttl),
  unused_new k ttl,
)
