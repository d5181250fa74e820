-- ===== src/Confirmation/Examples.antt =====
-- Tests of the confirmation store, and its theorems at a store with one approved entry.
use mcp_swagger.Prelude.{◌≤◌, ◌≡◌, refl, true, false, some, List, [], ◌∷◌, arith, ok, pos}
use mcp_swagger.Text.{codes, text_eq, is_space, upper_char, to_upper, trim_space}
use mcp_swagger.Text.Laws.{text_eq_iff, text_ne}
use mcp_swagger.Dict.{get, put, remove, remove_if}
use mcp_swagger.Value.{Value, clone_any}
use mcp_swagger.Confirmation.{
  Request, Record, MemoryStore, Call, requests, confirms, consumes, new_memory_store, check_matches,
  is_expired, is_stale, fresh_record, clone_record, cleanup_locked, consume_approved, confirm,
  request, step,
}
use mcp_swagger.Confirmation.Invariant.{
  IsConsistent, new_memory_store-IsConsistent, step-IsConsistent,
}
use mcp_swagger.Confirmation.Lifecycle.{IsUsable, consume_approved_ok}
use mcp_swagger.Confirmation.Flow.{check_of, approved_flow}
use mcp_swagger.Confirmation.SingleUse.{consumptions, issued, single_use}
use mcp_swagger.Confirmation.Frame.{others_keep}

abbrev delete_pet : Request
delete_pet = record {
  operation_id = codes "deletePet";
  method = codes " delete ";
  final_url = codes "https://api.test/pets/7";
  prepared_request_summary = Value.null;
  reason = [];
}

abbrev approved_entry : Record
approved_entry = record {
  id = codes "c1";
  operation_id = codes "deletePet";
  method = codes "DELETE";
  final_url = codes "https://api.test/pets/7";
  prepared_request_summary = Value.null;
  reason = [];
  approved = true;
  consumed = false;
  created_at = 100;
  expires_at = 700;
}

abbrev one_entry : MemoryStore
one_entry = record { ttl = 600; items = (codes "c1", approved_entry) ∷ [] }

one_entry-IsConsistent : IsConsistent one_entry
unfolding get
one_entry-IsConsistent = record {
  unique = (refl, tt);
  filed = λ j r e. ground (arith, text_eq_iff (codes "c1") j);
  sound = λ j r e. ground (arith, text_eq_iff (codes "c1") j);
}

approved_entry-IsUsable : IsUsable 200 (check_of delete_pet) approved_entry
unfolding is_expired check_matches trim_space is_space to_upper upper_char text_eq
approved_entry-IsUsable = record { valid = refl; unused = refl; granted = refl; fits = refl }

-- The whole way in one history: the second consumption is refused.
abbrev history : List Call
history =
    requests 10 11 (ok (codes "c1")) delete_pet
    ∷ confirms 20 21 (codes " c1 ") true
    ∷ consumes 30 31 (codes "c1") (check_of delete_pet)
    ∷ consumes 40 41 (codes "c1") (check_of delete_pet)
    ∷ []

history_consumes_once : consumptions (codes "c1") history (new_memory_store (pos 600)) ≡ 1
unfolding consumptions new_memory_store step request confirm consume_approved cleanup_locked get put
    remove remove_if is_stale is_expired fresh_record clone_record clone_any check_matches
    trim_space is_space to_upper upper_char text_eq
history_consumes_once = refl

single_use_example :
    consumptions (codes "c1") history (new_memory_store (pos 600)) ≤ issued (codes "c1") history
single_use_example = single_use (codes "c1") (pos 600) history

trimmed_c1 : trim_space (codes "c1") ≡ codes "c1"
unfolding trim_space is_space
trimmed_c1 = refl

found_c1 : get (trim_space (codes "c1")) one_entry.items ≡ some approved_entry
unfolding get trim_space is_space text_eq
found_c1 = refl

consume_approved_ok_example :
    (consume_approved 190 200 (codes "c1") (check_of delete_pet) one_entry).1
    ≡ ok (record approved_entry { consumed = true })
consume_approved_ok_example =
    (consume_approved_ok 190 200 (codes "c1") (check_of delete_pet) one_entry
        (record approved_entry { consumed = true }) one_entry-IsConsistent).1
      (approved_entry, found_c1, approved_entry-IsUsable, refl)

approved_flow_example :
    (consume_approved 30 31
      (codes "c1")
      (check_of delete_pet)
      (confirm 20 21
        (codes "c1")
        true
        (request 10 11 (ok (codes "c1")) delete_pet (new_memory_store (pos 600))).0).0).1
    ≡ ok (record (fresh_record (codes "c1") 11 600 delete_pet) { approved = true; consumed = true })
unfolding new_memory_store
approved_flow_example =
    approved_flow 10 11 20 21 30 31 (codes "c1") delete_pet (new_memory_store (pos 600))
      (new_memory_store-IsConsistent (pos 600)) trimmed_c1 (omega arith) (omega arith)

others_keep_example :
    get (codes "c1") (step (confirms 190 200 (codes "c2") false) one_entry).0.items
    ≡ some approved_entry
unfolding get text_eq is_expired trim_space is_space
others_keep_example =
    others_keep (codes "c1") approved_entry (confirms 190 200 (codes "c2") false) one_entry
      one_entry-IsConsistent (text_ne (codes "c2") (codes "c1") refl) refl refl

step-IsConsistent_example :
    IsConsistent (step (consumes 190 200 (codes "c1") (check_of delete_pet)) one_entry).0
step-IsConsistent_example =
    step-IsConsistent (consumes 190 200 (codes "c1") (check_of delete_pet)) one_entry
      one_entry-IsConsistent
