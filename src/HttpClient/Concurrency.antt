-- ===== src/HttpClient/Concurrency.antt =====
-- The limits on concurrency, from the balance of the semaphores.
use mcp_swagger.Prelude.{
  ℕ, ◌≤◌, ◌≡◌, refl, Bool, true, false, ◌&&◌, positive_or, Option, none, some, List, [], ◌∷◌, arith,
  ℤ, get_elem?, count, count-set, count-append, count-pos, All,
}
use mcp_swagger.Text.{Text, text_eq}
use mcp_swagger.Dict.{get}
use mcp_swagger.HttpClient.Limiter.{Time, normalize_limiter_key}
use mcp_swagger.HttpClient.Flow.{
  Options, Client, new_client, sending, done, Outcome, Call, arrive, key_slots, advance_phase,
  System, Event, arrives, advances, advance_call, step, run,
}
use mcp_swagger.HttpClient.Slots.{
  has_slot, has_slot_of, IsBalanced, Transfers, Covers, advance_phase-Transfers,
}

advance_call-IsBalanced :
    (m k i : ℕ) (now : Time) (cancelled : Bool) (o : Option Call) (s : System)
    → get_elem? s.calls i ≡ o
    → IsBalanced m k s
    → IsBalanced m k (advance_call i now cancelled o s)
advance_call-IsBalanced m k i now cancelled none s e v = v
advance_call-IsBalanced m k i now cancelled (some call) s e v =
    let out = advance_phase call.phase now cancelled call s.client in
    let covers : Covers s.client call = record {
      slots = rw v.slots (count-pos has_slot s.calls i call e);
      within = v.within;
      per_key = λ key. rw v.per_key (count-pos (has_slot_of key) s.calls i call e);
      per_key_within = v.per_key_within;
    } in
    let t : Transfers s.client call out.0 out.1 =
      advance_phase-Transfers call.phase now cancelled call s.client refl covers in
    record {
      limit = omega (arith, t.limit, v.limit);
      key_limit = omega (arith, t.key_limit, v.key_limit);
      slots = omega (arith, t.slots, v.slots, count-set has_slot s.calls i call out.1 e);
      within = t.within;
      per_key = λ key.
          omega (
            arith,
            t.per_key key,
            v.per_key key,
            count-set (has_slot_of key) s.calls i call out.1 e,
          );
      per_key_within = t.per_key_within;
    }

arrive-holds_nothing :
    (c : Client) (url : Text) (n : ℤ) (key : Text)
    → (has_slot (arrive c url n key) ≡ false)
      × ((k : Text) → has_slot_of k (arrive c url n key) ≡ false)
unfolding arrive
arrive-holds_nothing c url n key = (ground arith, λ k. ground arith)

-- Every step of the calls of Do keeps the counters of both semaphores equal to the number of calls
-- that hold a slot, and at most their capacities.
pub step-IsBalanced :
    (m k : ℕ) (e : Event) (s : System) → IsBalanced m k s → IsBalanced m k (step e s)
unfolding step count
step-IsBalanced m k (arrives url n key) s v =
    let call = arrive s.client url n key in
    let free = arrive-holds_nothing s.client url n key in
    record {
      limit = v.limit;
      key_limit = v.key_limit;
      slots = ground (arith, v.slots, count-append has_slot s.calls (call ∷ []), free.0);
      within = v.within;
      per_key = λ j.
          ground (arith, v.per_key j, count-append (has_slot_of j) s.calls (call ∷ []), free.1 j);
      per_key_within = v.per_key_within;
    }
step-IsBalanced m k (advances i now cancelled) s v =
    advance_call-IsBalanced m k i now cancelled (get_elem? s.calls i) s refl v

run-IsBalanced :
    (m k : ℕ) (es : List Event) (s : System) → IsBalanced m k s → IsBalanced m k (run es s)
unfolding run
run-IsBalanced m k [] s v = v
run-IsBalanced m k (e ∷ es) s v = run-IsBalanced m k es (step e s) (step-IsBalanced m k e s v)

abbrev pub new_system : Options → System
new_system opts = record { client = new_client opts; calls = [] }

-- The limits that New takes from the options.
abbrev pub call_limit : Options → ℕ
call_limit opts = positive_or opts.max_concurrent 10

abbrev pub call_limit_per_key : Options → ℕ
call_limit_per_key opts = positive_or opts.max_concurrent_per_key (call_limit opts)

pub new_system-IsBalanced :
    (opts : Options) → IsBalanced (call_limit opts) (call_limit_per_key opts) (new_system opts)
unfolding new_client key_slots get count
new_system-IsBalanced opts = record {
  limit = refl;
  key_limit = refl;
  slots = refl;
  within = omega arith;
  per_key = λ k. refl;
  per_key_within = λ k. omega arith;
}

abbrev pub is_sending : Call → Bool
is_sending call = elim call.phase [ sending ↦ true | _ ↦ false ]

abbrev pub is_sending_for : Text → Call → Bool
is_sending_for key call = is_sending call && text_eq (normalize_limiter_key call.key) key

sending-le : (calls : List Call) → count is_sending calls ≤ count has_slot calls
unfolding count
sending-le [] = omega arith
sending-le (call ∷ calls) = ground (arith, sending-le calls)

sending_for-le :
    (key : Text) (calls : List Call)
    → count (is_sending_for key) calls ≤ count (has_slot_of key) calls
unfolding count
sending_for-le key [] = omega arith
sending_for-le key (call ∷ calls) = ground (arith, sending_for-le key calls)

-- Whatever calls arrive and however their steps interleave, the requests that are being sent are
-- never more than MaxConcurrent, and those of one key never more than MaxConcurrentPerKey, each
-- with the default that New puts in place of a limit that is not positive.
pub sending_limits :
    (opts : Options) (es : List Event) (key : Text)
    → let s = run es (new_system opts) in
      (count is_sending s.calls ≤ positive_or opts.max_concurrent 10)
      × (count (is_sending_for key) s.calls
          ≤ positive_or opts.max_concurrent_per_key (positive_or opts.max_concurrent 10))
sending_limits opts es key =
    let s = run es (new_system opts) in
    let v =
      run-IsBalanced (call_limit opts) (call_limit_per_key opts) es (new_system opts)
        (new_system-IsBalanced opts) in
    (
      omega (arith, v.slots, v.within, v.limit, sending-le s.calls),
      omega (arith, v.per_key key, v.per_key_within key, v.key_limit, sending_for-le key s.calls),
    )

abbrev pub IsDone : Call → Type 0
IsDone call = (outcome : Outcome) × (call.phase ≡ done outcome)

done-holds_nothing :
    (key : Text) (calls : List Call)
    → All IsDone calls
    → (count has_slot calls ≡ 0) × (count (has_slot_of key) calls ≡ 0)
unfolding count
done-holds_nothing key [] h = (refl, refl)
done-holds_nothing key (call ∷ calls) h = ground (arith, h, done-holds_nothing key calls h.1)

-- Once every call has returned, with an answer or with an error on any path, both semaphores are
-- empty: no slot is lost.
pub no_slot_is_lost :
    (opts : Options) (es : List Event) (key : Text)
    → All IsDone (run es (new_system opts)).calls
    → let c = (run es (new_system opts)).client in (c.semaphore ≡ 0) × (key_slots key c ≡ 0)
no_slot_is_lost opts es key h =
    let s = run es (new_system opts) in
    let v =
      run-IsBalanced (call_limit opts) (call_limit_per_key opts) es (new_system opts)
        (new_system-IsBalanced opts) in
    let free = done-holds_nothing key s.calls h in
    (omega (arith, v.slots, free.0), omega (arith, v.per_key key, free.1))
