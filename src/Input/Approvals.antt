-- ===== src/Input/Approvals.antt =====
-- Who approves: policy.request_confirmation never, policy.confirm as its input says.
use mcp_swagger.Prelude.{◌≡◌, refl, Bool, true, Option, none, some, [], arith, Result, ok, err}
use mcp_swagger.Text.{Text, trim_space}
use mcp_swagger.Dict.{get, put, get-put}
use mcp_swagger.Value.{Value}
use mcp_swagger.Confirmation.{
  Time, Failure, Request, Record, MemoryStore, fresh_record, clone_record, cleanup_locked,
  insert_fresh, guarded, set_approval, request, confirm,
}
use mcp_swagger.Confirmation.Invariant.{IsConsistent, cleanup_locked-get}
use mcp_swagger.Input.Values.{Numbers}
use mcp_swagger.Input.Confirm.{
  answer_of, confirmation_request, request_with, request_confirmation, confirmation_decision,
  confirm_with, confirm_tool,
}

-- Every approved entry of the second store stands in the first.
abbrev pub ApprovesNothing : MemoryStore → Option MemoryStore → Type 0
ApprovesNothing s none = Unit {0}
ApprovesNothing s (some s') =
    (j : Text) (r : Record) → get j s'.items ≡ some r → r.approved ≡ true → get j s.items ≡ some r

module _ (clean_now now : Time) (s : MemoryStore) (v : IsConsistent s) where
  insert-ApprovesNothing :
      (req : Request) (new_id : Result Failure Text)
      → ApprovesNothing s (some (insert_fresh now req (cleanup_locked [] clean_now s) new_id).0)
  unfolding insert_fresh fresh_record cleanup_locked
  insert-ApprovesNothing req (err e) j r h approved =
      ground (arith, cleanup_locked-get [] clean_now s j v)
  insert-ApprovesNothing req (ok id) j r h approved =
      let cleaned = cleanup_locked [] clean_now s in
      let h' : get j (put id (fresh_record id now s.ttl req) cleaned.items) ≡ some r = h in
      ground (
        arith,
        cleanup_locked-get [] clean_now s j v,
        get-put id j (fresh_record id now s.ttl req) cleaned.items,
      )

  request-ApprovesNothing :
      (req : Request) (new_id : Result Failure Text)
      → ApprovesNothing s (some (request clean_now now new_id req s).0)
  unfolding request
  request-ApprovesNothing req new_id = insert-ApprovesNothing req new_id

answer_store :
    (code : Text) (s : MemoryStore) (x : MemoryStore × Result Failure Record) (numbers : Numbers)
    → ApprovesNothing s (some x.0)
    → ApprovesNothing s (answer_of numbers code x).0
answer_store code s (s', ok r) numbers h = h
answer_store code s (s', err e) numbers h = h

request_with_approves :
    (numbers : Numbers) (clean_now now : Time) (new_id : Result Failure Text) (s : MemoryStore)
    (o : Option Request)
    → IsConsistent s
    → ApprovesNothing s (request_with numbers clean_now now new_id s o).0
request_with_approves numbers clean_now now new_id s none v = λ j r h approved. h
request_with_approves numbers clean_now now new_id s (some req) v =
    answer_store _ s (request clean_now now new_id req s) numbers
      (request-ApprovesNothing clean_now now s v req new_id)

-- Whatever its input, policy.request_confirmation on a consistent store adds no approved
-- confirmation: each approved entry of the store after it is an entry of the store before it.
pub tool-ApprovesNothing :
    (numbers : Numbers) (clean_now now : Time) (new_id : Result Failure Text) (input : Value)
    (s : MemoryStore)
    → IsConsistent s
    → ApprovesNothing s (request_confirmation numbers clean_now now new_id input (some s)).0
unfolding request_confirmation
tool-ApprovesNothing numbers clean_now now new_id input s v =
    request_with_approves numbers clean_now now new_id s (confirmation_request numbers input) v

guarded_approval :
    (now : Time) (s : MemoryStore) (approve : Bool) (o : Option Record) (r : Record)
    → (guarded now s (set_approval approve s) o).1 ≡ ok r
    → r.approved ≡ approve
unfolding guarded set_approval clone_record
guarded_approval now s approve none r h = ground arith
guarded_approval now s approve (some item) r h = ground arith

confirm_approval :
    (clean_now now : Time) (id : Text) (approve : Bool) (s : MemoryStore) (r : Record)
    → (confirm clean_now now id approve s).1 ≡ ok r
    → r.approved ≡ approve
unfolding confirm
confirm_approval clean_now now id approve s r h =
    let s' = cleanup_locked (trim_space id) clean_now s in
    guarded_approval now s' approve (get (trim_space id) s'.items) r h

answer_ok :
    (numbers : Numbers) (code : Text) (x : MemoryStore × Result Failure Record) (r : Record)
    → (answer_of numbers code x).1 ≡ ok r
    → x.1 ≡ ok r
answer_ok numbers code (s, ok q) r h = ground arith
answer_ok numbers code (s, err e) r h = ground arith

confirm_with_approval :
    (numbers : Numbers) (clean_now now : Time) (s : MemoryStore) (o : Option (Text × Bool))
    (r : Record)
    → (confirm_with numbers clean_now now s o).1 ≡ ok r
    → (id : Text) × (o ≡ some (id, r.approved))
confirm_with_approval numbers clean_now now s none r h = ground arith
confirm_with_approval numbers clean_now now s (some (id, approve)) r h =
    let done = answer_ok numbers _ (confirm clean_now now id approve s) r h in
    (id, rw (confirm_approval clean_now now id approve s r done) refl)

-- Where policy.confirm succeeds, its input has a confirmation id and a decision, and the record is
-- approved exactly as that decision says.
pub confirmed_as_asked :
    (numbers : Numbers) (clean_now now : Time) (input : Value) (s : MemoryStore) (r : Record)
    → (confirm_tool numbers clean_now now input (some s)).1 ≡ ok r
    → (id : Text) × (confirmation_decision numbers input ≡ some (id, r.approved))
unfolding confirm_tool
confirmed_as_asked numbers clean_now now input s r h =
    confirm_with_approval numbers clean_now now s (confirmation_decision numbers input) r h
