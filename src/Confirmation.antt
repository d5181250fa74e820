-- ===== src/Confirmation.antt =====
-- internal/confirmation: the store of human confirmations (contract.go, memory_store.go).
-- Each method runs under the store's mutex, so that it is one step; the readings of the clock and
-- the random identifier are its arguments. A time is in nanoseconds from Go's zero time.
pub mod Invariant
pub mod Lifecycle
pub mod Flow
pub mod SingleUse
pub mod Frame
pub mod Examples
use mcp_swagger.Prelude.{
  ℕ, ◌+◌, ◌*◌, Bool, true, false, not, ◌||◌, Option, none, some, List, [], ◌∷◌, ltb, ◌==◌, Result,
  ok, err, ℤ, positive_or, if◌then◌else◌,
}
use mcp_swagger.Text.{Text, text_eq, is_empty, to_upper, trim_space}
use mcp_swagger.Dict.{Dict, get, put, remove, remove_if}
use mcp_swagger.Value.{Value, clone_any}

abbrev pub Time : Type 0
Time = ℕ

-- The sentinel errors, and what crypto/rand may fail with.
pub data Failure : Type 0 where
  not_found expired not_approved already_consumed mismatch no_randomness : Failure

pub record Request : Type 0 where
  pub operation_id : Text
  pub method : Text
  pub final_url : Text
  pub prepared_request_summary : Value
  pub reason : Text

pub record Check : Type 0 where
  pub operation_id : Text
  pub method : Text
  pub final_url : Text

pub record Record : Type 0 where
  pub id : Text
  pub operation_id : Text
  pub method : Text
  pub final_url : Text
  pub prepared_request_summary : Value
  pub reason : Text
  pub approved : Bool
  pub consumed : Bool
  pub created_at : Time
  pub expires_at : Time

pub record MemoryStore : Type 0 where
  pub ttl : ℕ
  pub items : Dict Record

abbrev pub default_ttl : ℕ
default_ttl = 600_000_000_000

pub new_memory_store : ℤ → MemoryStore
new_memory_store ttl = record { ttl = positive_or ttl default_ttl; items = [] }

-- !expiresAt.After(now), unless the time is the zero time
unfoldable pub is_expired : Time → Time → Bool
is_expired now expires_at = if expires_at == 0 then false else not (ltb now expires_at)

unfoldable pub matches : Text → Text → Bool
matches expected actual =
    if is_empty (trim_space expected)
    then true
    else text_eq (trim_space expected) (trim_space actual)

unfoldable pub clone_record : Record → Record
clone_record r = record r { prepared_request_summary = clone_any r.prepared_request_summary }

-- The body of the loop of cleanupLocked: whether the item is deleted.
unfoldable pub is_stale : Text → Time → Text → Record → Bool
is_stale skip_id now id item = if text_eq id skip_id then false else is_expired now item.expires_at

unfoldable pub cleanup_locked : Text → Time → MemoryStore → MemoryStore
cleanup_locked skip_id now s = record s { items = remove_if (is_stale skip_id now) s.items }

abbrev pub Outcome : Type 0
Outcome = MemoryStore × Result Failure Record

-- The record that Request stores.
unfoldable pub fresh_record : Text → Time → ℕ → Request → Record
fresh_record id now ttl req = record {
  id = id;
  operation_id = trim_space req.operation_id;
  method = to_upper (trim_space req.method);
  final_url = trim_space req.final_url;
  prepared_request_summary = req.prepared_request_summary;
  reason = trim_space req.reason;
  approved = false;
  consumed = false;
  created_at = now;
  expires_at = now + ttl;
}

unfoldable pub insert_fresh : Time → Request → MemoryStore → Result Failure Text → Outcome
unfolding fresh_record
insert_fresh now req s (err e) = (s, err e)
insert_fresh now req s (ok id) =
    let r = fresh_record id now s.ttl req in
    (record s { items = put id r s.items }, ok (clone_record r))

-- `clean_now` and `now` are the two readings of the clock, `new_id` the result of newID().
unfoldable pub request : Time → Time → Result Failure Text → Request → MemoryStore → Outcome
unfolding insert_fresh
request clean_now now new_id req s = insert_fresh now req (cleanup_locked [] clean_now s) new_id

-- What Confirm and ConsumeApproved do with the entry that they find, after the same guards.
unfoldable pub guarded : Time → MemoryStore → (Record → Outcome) → Option Record → Outcome
guarded now s use_item none = (s, err not_found)
guarded now s use_item (some item) =
    if is_expired now item.expires_at
    then (record s { items = remove item.id s.items }, err expired)
    else if item.consumed
    then (s, err already_consumed)
    else use_item item

unfoldable pub set_approval : Bool → MemoryStore → Record → Outcome
set_approval approve s item =
    let r = record item { approved = approve } in
    (record s { items = put item.id r s.items }, ok (clone_record r))

unfoldable pub confirm : Time → Time → Text → Bool → MemoryStore → Outcome
unfolding guarded set_approval
confirm clean_now now id approve s =
    let key = trim_space id in
    let s' = cleanup_locked key clean_now s in
    guarded now s' (set_approval approve s') (get key s'.items)

unfoldable pub check_matches : Record → Check → Bool
unfolding matches
check_matches item check = not (
    not (matches item.operation_id check.operation_id)
    || not (matches item.method (to_upper (trim_space check.method)))
    || not (matches item.final_url check.final_url))

unfoldable pub mark_consumed : Check → MemoryStore → Record → Outcome
mark_consumed check s item =
    let r = record item { consumed = true } in
    if not item.approved
    then (s, err not_approved)
    else if not (check_matches item check)
    then (s, err mismatch)
    else (record s { items = put item.id r s.items }, ok (clone_record r))

unfoldable pub consume_approved : Time → Time → Text → Check → MemoryStore → Outcome
unfolding guarded mark_consumed
consume_approved clean_now now id check s =
    let key = trim_space id in
    let s' = cleanup_locked key clean_now s in
    guarded now s' (mark_consumed check s') (get key s'.items)

-- A call of the store, with what its environment decides.
pub data Call : Type 0 where
  requests : Time → Time → Result Failure Text → Request → Call
  confirms : Time → Time → Text → Bool → Call
  consumes : Time → Time → Text → Check → Call

pub step : Call → MemoryStore → Outcome
step (requests clean_now now new_id req) s = request clean_now now new_id req s
step (confirms clean_now now id approve) s = confirm clean_now now id approve s
step (consumes clean_now now id check) s = consume_approved clean_now now id check s

-- Calls of any number of goroutines, in the order in which they hold the mutex.
pub run : List Call → MemoryStore → MemoryStore
run [] s = s
run (c ∷ cs) s = run cs (step c s).0
